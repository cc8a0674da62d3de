-- ===== src/Audit/Rotation/Handover.antt =====
-- A rotation keeps the table honest.
use agentic_governance.Prelude.{
  Option-cases, none, ℕ, ◌+◌, ◌≤◌, ◌<◌, ◌≡◌, ◌≢◌, refl, sym, ◌∙◌, subst, String, Bool, true, false,
  Option, some, List, [], ◌∷◌, All, All-append, Eq, beq_refl, arith, Bool-cases, inl, inr, ◌&&◌,
}
use agentic_governance.Errors.{runtime_error, integrity_error, Exception, ok, err, value_error}
use agentic_governance.Audit.Crypto.{Crypto}
use agentic_governance.Audit.Chain.{compute_event_hmac}
use agentic_governance.Audit.Keys.{KeyVersion, KeyEnv}
use agentic_governance.Audit.Keys.Active.{Some, Owns}
use agentic_governance.Audit.Rotation.{
  ChainVerifyRow, ChainDb, RotationCall, RotationResult, marker_mac, marker_row, incoming_row,
  last_hash_of, rotation_result, rotate_chain_key, rotated, outgoing_version, is_registered,
  verify_rotation_marker, payload_of,
}
use agentic_governance.Audit.Rotation.Owners.{IsPast, IsCurrent, CurrentIf, current-Owns}
use agentic_governance.Audit.Rotation.Turn.{
  after_turn, turn-Owns, turn-CurrentIf, turn-IsPast, turn-IsCurrent,
}
use agentic_governance.Audit.Rotation.History.{System, IsNext, IsFresh}
use agentic_governance.Audit.Rotation.Honest.{IsKnown, IsJustified, Invariant, split-IsNext}

-- The current version is one of the old ones.
current_listed :
    (version fresh : ℕ) (fp : String) (vs : List KeyVersion)
    → Some (IsCurrent version fp) vs
    → All (λ v. v.key_version ≡ fresh → ⊥) vs
    → fresh ≡ version
    → ⊥
current_listed version fresh fp [] h g e = h
current_listed version fresh fp (v ∷ vs) (inl (_, same, _)) (g, gs) e = g (same ∙ sym e)
current_listed version fresh fp (v ∷ vs) (inr h) (g, gs) e =
    current_listed version fresh fp vs h gs e

module _ (c : Crypto) (env : KeyEnv c.Secret) (secret_eq : Eq c.Secret) where
  -- A rotation that is done had two different keys.
  pub done_differ :
      (x : RotationCall c) (r : RotationResult) (db : ChainDb c)
      → (rotate_chain_key c env secret_eq x db).0 ≡ ok r
      → secret_eq.beq x.outgoing_secret x.incoming_secret ≡ false
  unfolding rotate_chain_key
  done_differ x r db h = elim (Bool-cases (secret_eq.beq x.outgoing_secret x.incoming_secret)) [
    | inl e ↦ elim (refused (sym (rotate_same e) ∙ h)) [ ]
    | inr e ↦ e
  ]
    where
      refused : {e : Exception} → err e ≡ ok r → ⊥
      refused h = ground (arith, h)

      rotate_same :
          secret_eq.beq x.outgoing_secret x.incoming_secret ≡ true
          → (rotate_chain_key c env secret_eq x db).0 ≡ err value_error
      rotate_same e = rw e refl

  pub rotate_found :
      (x : RotationCall c) (version : ℕ) (db : ChainDb c)
      → secret_eq.beq x.outgoing_secret x.incoming_secret ≡ false
      → outgoing_version (env.fingerprint_key x.outgoing_secret) db.chain_keys ≡ some version
      → is_registered (env.fingerprint_key x.incoming_secret) db.chain_keys ≡ false
      → rotate_chain_key c env secret_eq x db
        ≡ (ok (rotation_result c env secret_eq x version), rotated c env secret_eq x version db)
  unfolding rotate_chain_key
  rotate_found x version db e f g = rw (e, f, g) refl

  -- A rotation that is done had a version to retire and a key that was not in the table.
  pub done_new :
      (x : RotationCall c) (r : RotationResult) (db : ChainDb c)
      → (rotate_chain_key c env secret_eq x db).0 ≡ ok r
      → is_registered (env.fingerprint_key x.incoming_secret) db.chain_keys ≡ false
  unfolding rotate_chain_key
  done_new x r db h =
      elim (Bool-cases (is_registered (env.fingerprint_key x.incoming_secret) db.chain_keys)) [
        | inr e ↦ e
        | inl e ↦
            elim (Option-cases
              (outgoing_version (env.fingerprint_key x.outgoing_secret) db.chain_keys)) [
                | inl f ↦ elim (refused (sym (absent f) ∙ h)) [ ]
                | inr (version, f) ↦ elim (refused (sym (repeated version f e) ∙ h)) [ ]
              ]
      ]
    where
      refused : {e : Exception} → err e ≡ ok r → ⊥
      refused h = ground (arith, h)

      absent :
          outgoing_version (env.fingerprint_key x.outgoing_secret) db.chain_keys ≡ none
          → (rotate_chain_key c env secret_eq x db).0 ≡ err runtime_error
      absent f = rw (done_differ x r db h, f) refl

      repeated :
          (version : ℕ)
          → outgoing_version (env.fingerprint_key x.outgoing_secret) db.chain_keys ≡ some version
          → is_registered (env.fingerprint_key x.incoming_secret) db.chain_keys ≡ true
          → (rotate_chain_key c env secret_eq x db).0 ≡ err integrity_error
      repeated version f e = rw (done_differ x r db h, f, e) refl

  marker_good :
      (x : RotationCall c) (version : ℕ) (db : ChainDb c)
      → let row = marker_row c env secret_eq x version (last_hash_of c db.events) in
        (mac : c.Digest) × (marker_mac c row ≡ some mac)
        × (verify_rotation_marker c row.event mac x.outgoing_secret x.incoming_secret ≡ true)
  unfolding verify_rotation_marker
  marker_good x version db =
      let row = marker_row c env secret_eq x version (last_hash_of c db.events) in
      let p = payload_of c row.event in
      (
        compute_event_hmac c x.incoming_secret p,
        refl,
        both (beq_refl ⦃e = c.digest_eq⦄ (compute_event_hmac c x.outgoing_secret p))
            (beq_refl ⦃e = c.digest_eq⦄ (compute_event_hmac c x.incoming_secret p)),
      )
    where
      both : {a b : Bool} → a ≡ true → b ≡ true → (a && b) ≡ true
      both h g = ground arith

  module _ (uri_map : String → Option String) where
    -- The state after a rotation from the current key.
    abbrev pub turned_system :
        RotationCall c → (version : ℕ) → ChainDb c → List c.Secret → System c env secret_eq
    turned_system x version db used = record {
      db = rotated c env secret_eq x version db;
      secret = x.incoming_secret;
      version = x.incoming_version;
      used = x.incoming_secret ∷ used;
    }

    -- An older row keeps its justification.
    turned_row :
        (x : RotationCall c) (version : ℕ) (vs : List KeyVersion) (row : ChainVerifyRow c)
        → row.chain_seq < x.marker_seq
        → IsJustified c env uri_map vs row
        → IsJustified c env uri_map
            (after_turn version x.marker_seq (incoming_row c env secret_eq x) vs)
            row
    turned_row x version vs row before (k, known, owns, why) = (
      k,
      known,
      kept row.chain_seq k (omega (arith, before)) owns,
      elim why [
        | inl plain ↦ inl plain
        | inr (mac, next, e, next_known, next_owns, other, good) ↦ inr (
          mac,
          next,
          e,
          next_known,
          kept (row.chain_seq + 1) next (omega (arith, before)) next_owns,
          other,
          good,
        )
      ],
    )
      where
        kept :
            (q : ℕ) (k : c.Secret)
            → q ≤ x.marker_seq
            → Owns q (env.fingerprint_key k) vs
            → Owns q
                (env.fingerprint_key k)
                (after_turn version x.marker_seq (incoming_row c env secret_eq x) vs)
        kept q k h =
            turn-Owns q x.marker_seq version (env.fingerprint_key k)
              (incoming_row c env secret_eq x) vs h refl

    turned_rows :
        (x : RotationCall c) (version : ℕ) (vs : List KeyVersion) (rows : List (ChainVerifyRow c))
        → IsNext c env secret_eq x.marker_seq rows
        → All (IsJustified c env uri_map vs) rows
        → All
            (IsJustified c env uri_map
              (after_turn version x.marker_seq (incoming_row c env secret_eq x) vs))
            rows
    turned_rows x version vs [] h g = tt
    turned_rows x version vs (row ∷ rows) (h, hs) (g, gs) =
        (turned_row x version vs row h g, turned_rows x version vs rows hs gs)

    pub turned-Invariant :
        (x : RotationCall c) (s : System c env secret_eq)
        → Invariant c env uri_map secret_eq s
        → x.outgoing_secret ≡ s.secret
        → IsKnown c env uri_map s.secret
        → IsKnown c env uri_map x.incoming_secret
        → IsNext c env secret_eq x.marker_seq s.db.events
        → IsFresh c env secret_eq x.incoming_version s.db.chain_keys
        → env.fingerprint_key x.incoming_secret ≢ env.fingerprint_key x.outgoing_secret
        → Invariant c env uri_map secret_eq (turned_system x s.version s.db s.used)
    turned-Invariant x s inv mine known next_known next fresh other = record {
      justified =
          All-append (IsJustified c env uri_map later) s.db.events (row ∷ [])
            (turned_rows x s.version s.db.chain_keys s.db.events next inv.justified)
            (
              (
                x.outgoing_secret,
                subst (IsKnown c env uri_map) (sym mine) known,
                owner,
                inr (mac, x.incoming_secret, shown, next_known, next_owner, other, good),
              ),
              tt,
            );
      past = λ q h.
          pasts q (omega (arith, (split-IsNext c env uri_map secret_eq q s.db.events row h).1));
      current = now;
      only = only;
    }
      where
        incoming : KeyVersion
        incoming = incoming_row c env secret_eq x

        row : ChainVerifyRow c
        row = marker_row c env secret_eq x s.version (last_hash_of c s.db.events)

        later : List KeyVersion
        later = after_turn s.version x.marker_seq incoming s.db.chain_keys

        fp : String
        fp = env.fingerprint_key x.outgoing_secret

        was : Some (IsCurrent s.version fp) s.db.chain_keys
        was =
            subst (λ k. Some (IsCurrent s.version (env.fingerprint_key k)) s.db.chain_keys)
              (sym mine) inv.current

        alone : All (CurrentIf s.version fp) s.db.chain_keys
        alone =
            subst (λ k. All (CurrentIf s.version (env.fingerprint_key k)) s.db.chain_keys)
              (sym mine) inv.only

        marked :
            (mac : c.Digest) × (marker_mac c row ≡ some mac)
            × (verify_rotation_marker c row.event mac x.outgoing_secret x.incoming_secret ≡ true)
        marked = marker_good x s.version s.db

        mac : c.Digest
        mac = marked.0

        shown : marker_mac c row ≡ some mac
        shown = marked.1

        good : verify_rotation_marker c row.event mac x.outgoing_secret x.incoming_secret ≡ true
        good = marked.2

        distinct : incoming.key_version ≡ s.version → ⊥
        distinct = current_listed s.version x.incoming_version fp s.db.chain_keys was fresh

        earlier : All (IsPast x.marker_seq) s.db.chain_keys
        earlier = inv.past x.marker_seq next

        pasts : (q : ℕ) → x.marker_seq + 1 ≤ q → All (IsPast q) later
        pasts q h =
            turn-IsPast q x.marker_seq s.version fp incoming s.db.chain_keys h distinct refl refl
              earlier alone

        now : Some (IsCurrent x.incoming_version (env.fingerprint_key x.incoming_secret)) later
        now = turn-IsCurrent x.marker_seq s.version incoming s.db.chain_keys distinct refl

        only : All (CurrentIf x.incoming_version (env.fingerprint_key x.incoming_secret)) later
        only =
            turn-CurrentIf x.marker_seq s.version fp incoming s.db.chain_keys distinct refl earlier
              alone

        owner : Owns x.marker_seq fp later
        owner =
            turn-Owns x.marker_seq x.marker_seq s.version fp incoming s.db.chain_keys (omega arith)
              refl (current-Owns x.marker_seq s.version fp s.db.chain_keys earlier was alone)

        next_owner : Owns (x.marker_seq + 1) (env.fingerprint_key x.incoming_secret) later
        next_owner =
            current-Owns (x.marker_seq + 1) x.incoming_version
              (env.fingerprint_key x.incoming_secret) later (pasts (x.marker_seq + 1) (omega arith))
              now only
