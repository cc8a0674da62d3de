-- ===== src/Audit/Rotation.antt =====
-- audit/chain.py and audit/rotation.py: the rotation of the chain's key, as one transaction on the two
-- tables, and the verification across rotations. Rows stand in the order of their insertion.
pub mod Tally
pub mod History
pub mod Owners
pub mod Turn
pub mod Honest
pub mod Handover
pub mod Acceptance
pub mod Sessions
use agentic_governance.Prelude.{
  ℕ, ◌+◌, String, Bool, true, false, Option, none, some, List, [], ◌∷◌, ◌++◌, map, keep, ltb,
  string_eq, nat_eq, ◌==◌, nat_beq, is_some, exists, if◌then◌else◌, ◌&&◌, Eq, map_some,
}
use agentic_governance.Errors.{Result, ok, err, value_error, runtime_error, integrity_error}
use agentic_governance.Audit.Crypto.{Crypto}
use agentic_governance.Audit.Models.{Payload, AuditEventRecord, SignatureStatus}
use agentic_governance.Audit.Chain.{Record, compute_event_hmac, verify_event}
use agentic_governance.Audit.Keys.{
  KeyVersion, KeyEnv, resolve_key, find_active_key_at_seq, sort_versions,
}

abbrev pub key_rotation_kind : String
key_rotation_kind = "audit.chain_key_rotation"

pub data Verdict : Type 0 where
  verified failed : Verdict
  unverified : (unresolved : String) → Verdict

pub record RotationResult : Type 0 where
  pub outgoing_fingerprint : String
  pub incoming_fingerprint : String
  pub marker_event_id : ℕ
  pub marker_chain_seq : ℕ
  pub outgoing_key_version : ℕ
  pub incoming_key_version : ℕ

-- ORDER BY key_version DESC LIMIT 1, from `found` on
unfoldable pub newest_version : (found : Option ℕ) → List KeyVersion → Option ℕ
newest_version found [] = found
newest_version none (v ∷ vs) = newest_version (some v.key_version) vs
newest_version (some n) (v ∷ vs) =
    newest_version (some (if ltb n v.key_version then v.key_version else n)) vs

abbrev pub is_unretired : Option ℕ → Bool
is_unretired none = true
is_unretired (some retired) = false

unfoldable pub outgoing_version : (fingerprint : String) → List KeyVersion → Option ℕ
unfolding newest_version
outgoing_version fingerprint vs =
    newest_version none
      (keep (λ v. (v.fingerprint == fingerprint) && is_unretired v.retired_at_chain_seq) vs)

-- The column `fingerprint` of the table of the keys is UNIQUE.
abbrev pub is_registered : (fingerprint : String) → List KeyVersion → Bool
is_registered fingerprint = exists (λ v. v.fingerprint == fingerprint)

-- UPDATE ... WHERE key_version = :kv AND retired_at_chain_seq IS NULL
abbrev pub retire : (key_version seq : ℕ) → KeyVersion → KeyVersion
retire key_version seq v =
    if nat_beq v.key_version key_version && is_unretired v.retired_at_chain_seq
    then record v { retired_at_chain_seq = some seq }
    else v

module _ (c : Crypto) where
  -- `hmac_next` stands on rotation markers only.
  pub record ChainVerifyRow : Type 0 where
    pub chain_seq : ℕ
    pub event : Record c
    pub hmac_next : Option c.Digest

  -- The payload that both MACs of a marker cover.
  abbrev pub marker_payload :
      (event_id session_id : ℕ)
      → (agent_id : String) → (parent_event_id : Option ℕ) → c.Metadata
      → (prev_hash : Option c.Digest) → (created_at : ℕ) → Payload c.Metadata c.Digest
  marker_payload event_id session_id agent_id parent_event_id metadata prev_hash created_at =
      record {
        event_id = event_id;
        session_id = session_id;
        agent_id = agent_id;
        parent_event_id = parent_event_id;
        kind = key_rotation_kind;
        model = none;
        input_hash = none;
        output_hash = none;
        metadata = metadata;
        prev_hash = prev_hash;
        created_at = created_at;
      }

  abbrev pub compute_rotation_marker_macs :
      (outgoing incoming : c.Secret) → Payload c.Metadata c.Digest → c.Digest × c.Digest
  compute_rotation_marker_macs outgoing incoming p =
      (compute_event_hmac c outgoing p, compute_event_hmac c incoming p)

  abbrev pub payload_of : Record c → Payload c.Metadata c.Digest
  payload_of r =
      marker_payload r.event_id r.session_id r.agent_id r.parent_event_id r.metadata r.prev_hash
        r.created_at

  unfoldable pub verify_rotation_marker :
      Record c → (hmac_next : c.Digest) → (outgoing incoming : c.Secret) → Bool
  verify_rotation_marker r hmac_next outgoing incoming =
      let (expected_outgoing, expected_incoming) =
        compute_rotation_marker_macs outgoing incoming (payload_of r) in
      c.digest_eq.beq expected_outgoing r.hmac && c.digest_eq.beq expected_incoming hmac_next

  -- row.record.kind == KEY_ROTATION_KIND and row.hmac_next is not None: its second MAC
  abbrev pub marker_mac : ChainVerifyRow → Option c.Digest
  marker_mac row = if row.event.kind == key_rotation_kind then row.hmac_next else none

  abbrev pub judged : Bool → Verdict
  judged b = if b then verified else failed

  module _ (env : KeyEnv c.Secret) (uri_map : String → Option String)
      (versions : List KeyVersion) where
    -- With the second MAC of the marker, and the outgoing key.
    unfoldable pub judge_marker :
        ChainVerifyRow
        → (hmac_next : c.Digest) → (fingerprint : String) → (outgoing : c.Secret) → Verdict
    judge_marker row hmac_next fingerprint outgoing =
        elim (find_active_key_at_seq (row.chain_seq + 1) versions) [
          | none ↦ unverified "<no-incoming-key-for-marker>"
          | some next ↦
              let answer : Verdict = elim (resolve_key env next.fingerprint uri_map) [
                | none ↦ unverified next.fingerprint
                | some incoming ↦
                    judged (verify_rotation_marker row.event hmac_next outgoing incoming)
              ] in
              if next.fingerprint == fingerprint
              then unverified "<no-incoming-key-for-marker>"
              else answer
        ]

    abbrev pub judge_under :
        ChainVerifyRow → (fingerprint : String) → (outgoing : c.Secret) → Verdict
    judge_under row fingerprint outgoing = elim (marker_mac row) [
      | some hmac_next ↦ judge_marker row hmac_next fingerprint outgoing
      | none ↦ judged (verify_event c row.event outgoing)
    ]

    -- The body of the loop.
    unfoldable pub judge : ChainVerifyRow → Verdict
    unfolding judge_marker
    judge row = elim (find_active_key_at_seq row.chain_seq versions) [
      | none ↦ unverified "<no-key-version-for-seq>"
      | some active ↦ elim (resolve_key env active.fingerprint uri_map) [
        | none ↦ unverified active.fingerprint
        | some outgoing ↦ judge_under row active.fingerprint outgoing
      ]
    ]

  pub record ChainDb : Type 0 where
    pub events : List ChainVerifyRow
    pub chain_keys : List KeyVersion

  -- What the caller gives, and what the clock, uuid4 and the sequences of the database return.
  pub record RotationCall : Type 0 where
    pub outgoing_secret : c.Secret
    pub incoming_secret : c.Secret
    pub session_id : ℕ
    pub agent_id : String
    pub event_id : ℕ
    pub created_at : ℕ
    pub marker_seq : ℕ
    pub incoming_version : ℕ
    -- {"outgoing_fingerprint": ..., "incoming_fingerprint": ..., "outgoing_key_version": ..., ...}
    pub metadata : (outgoing_fp incoming_fp : String) → (outgoing_version : ℕ) → c.Metadata

  -- ORDER BY chain_seq DESC LIMIT 1
  unfoldable pub newest_row : ChainVerifyRow → List ChainVerifyRow → ChainVerifyRow
  newest_row r [] = r
  newest_row r (s ∷ ss) = newest_row (if ltb r.chain_seq s.chain_seq then s else r) ss

  abbrev pub last_hash_of : List ChainVerifyRow → Option c.Digest
  last_hash_of [] = none
  last_hash_of (r ∷ rs) = some (newest_row r rs).event.hmac

  module _ (env : KeyEnv c.Secret) (secret_eq : Eq c.Secret) where
    abbrev pub marker_row :
        RotationCall → (outgoing_version : ℕ) → (prev_hash : Option c.Digest) → ChainVerifyRow
    marker_row x version prev_hash =
        let metadata =
          x.metadata (env.fingerprint_key x.outgoing_secret) (env.fingerprint_key x.incoming_secret)
            version in
        let p =
          marker_payload x.event_id x.session_id x.agent_id none metadata prev_hash x.created_at in
        let (outgoing_mac, incoming_mac) =
          compute_rotation_marker_macs x.outgoing_secret x.incoming_secret p in
        record {
          chain_seq = x.marker_seq;
          event = record {
            event_id = x.event_id;
            session_id = x.session_id;
            agent_id = x.agent_id;
            parent_event_id = none;
            kind = key_rotation_kind;
            model = none;
            input_hash = none;
            output_hash = none;
            metadata = metadata;
            prev_hash = prev_hash;
            hmac = outgoing_mac;
            created_at = x.created_at;
            signature = none;
            signing_key_fingerprint = none;
            signature_status = SignatureStatus.unsigned;
          };
          hmac_next = some incoming_mac;
        }

    abbrev pub incoming_row : RotationCall → KeyVersion
    incoming_row x = record {
      key_version = x.incoming_version;
      fingerprint = env.fingerprint_key x.incoming_secret;
      activated_at_chain_seq = x.marker_seq + 1;
      retired_at_chain_seq = none;
    }

    abbrev pub rotated : RotationCall → (outgoing_version : ℕ) → ChainDb → ChainDb
    rotated x version db = record {
      events = db.events ++ marker_row x version (last_hash_of db.events) ∷ [];
      chain_keys = map (retire version (x.marker_seq + 1)) (db.chain_keys ++ incoming_row x ∷ []);
    }

    abbrev pub rotation_result : RotationCall → (outgoing_version : ℕ) → RotationResult
    rotation_result x version = record {
      outgoing_fingerprint = env.fingerprint_key x.outgoing_secret;
      incoming_fingerprint = env.fingerprint_key x.incoming_secret;
      marker_event_id = x.event_id;
      marker_chain_seq = x.marker_seq;
      outgoing_key_version = version;
      incoming_key_version = x.incoming_version;
    }

    -- The INSERTs and the UPDATE; the transaction of an INSERT that is refused is rolled back.
    abbrev pub rotate_from :
        RotationCall → (outgoing_version : ℕ) → ChainDb → Result RotationResult × ChainDb
    rotate_from x version db =
        if is_registered (env.fingerprint_key x.incoming_secret) db.chain_keys
        then (err integrity_error, db)
        else (ok (rotation_result x version), rotated x version db)

    unfoldable pub rotate_chain_key : RotationCall → ChainDb → Result RotationResult × ChainDb
    unfolding newest_row
    rotate_chain_key x db =
        let answer : Result RotationResult × ChainDb =
          elim (outgoing_version (env.fingerprint_key x.outgoing_secret) db.chain_keys) [
            | none ↦ (err runtime_error, db)
            | some version ↦ rotate_from x version db
          ] in
        if secret_eq.beq x.outgoing_secret x.incoming_secret then (err value_error, db) else answer
