-- ===== src/Audit/Log.antt =====
-- audit/module.py: `AuditModule.log`, with an in-memory store as fallback, and as primary one whose
-- calls may also raise, as those of a remote store do.
-- Not modelled: the platform bridge and the subscribers (their failures are swallowed, and they
-- change nothing here) and the drain of the JSONL fallback (an in-memory fallback has none).
pub mod Chains
use agentic_governance.Prelude.{
  ℕ, String, Bool, true, false, Option, none, some, List, [], ◌∷◌, default, contains, erase_first,
  if◌then◌else◌, string_eq, nat_eq, ◌==◌, ◌&&◌, not,
}
use agentic_governance.Errors.{Result, ok, err, runtime_error, store_unavailable}
use agentic_governance.Exec.{Exec}
use agentic_governance.Audit.Crypto.{Crypto}
use agentic_governance.Audit.Models.{AuditEvent, Payload, SignatureStatus}
use agentic_governance.Audit.Chain.{Record, compute_event_hmac}
use agentic_governance.Audit.Store.{Store, insert_with_chain_lock}

module _ (c : Crypto) where
  -- What a call of `log` reads outside the module: the context variables, the clock, `uuid4`, and
  -- whether the event came through `log_validated_correction`.
  pub record Call : Type 0 where
    pub event : AuditEvent c.Metadata
    pub current_session : Option ℕ
    pub current_parent : Option ℕ
    pub fresh_session : ℕ
    pub created_at : ℕ
    pub event_id : ℕ
    pub marker_id : ℕ
    pub marker_at : ℕ
    -- `build_record` and `build_marker` draw anew when the fallback calls them.
    pub retry_event_id : ℕ
    pub retry_marker_id : ℕ
    pub retry_marker_at : ℕ
    -- `_placeholder_record` draws anew, too.
    pub placeholder_id : ℕ
    pub placeholder_at : ℕ
    -- whether the primary store raises for the marker, and for the event
    pub marker_outage : Bool
    pub event_outage : Bool
    pub sanctioned : Bool

  -- What the module is built with. `sign` is `sign_audit_row` with the module's signer.
  pub record Config : Type 0 where
    pub secret : c.Secret
    pub sign :
        Payload c.Metadata c.Digest
        → c.Digest
        → Option c.Signature × Option String × SignatureStatus
    -- {"reason": "store unreachable at session start"}
    pub marker_metadata : c.Metadata
    -- {**metadata, "audit.unavailable": True}
    pub unavailable : c.Metadata → c.Metadata
    -- "0" * 64
    pub placeholder_hmac : c.Digest

  pub record Log : Type 0 where
    pub primary : Store c
    pub fallback : Store c
    pub degraded_starts : List ℕ

  abbrev pub session_of : Call → ℕ
  session_of call = default call.event.session_id (default call.current_session call.fresh_session)

  abbrev pub parent_of : Call → Option ℕ
  parent_of call = elim call.event.parent_event_id [ none ↦ call.current_parent | some p ↦ some p ]

  abbrev event_payload : Call → Option c.Digest → Payload c.Metadata c.Digest
  event_payload call prev_hash = record {
    event_id = call.event_id;
    session_id = session_of call;
    agent_id = call.event.agent_id;
    parent_event_id = parent_of call;
    kind = call.event.kind;
    model = call.event.model;
    input_hash = call.event.input_hash;
    output_hash = call.event.output_hash;
    metadata = call.event.metadata;
    prev_hash = prev_hash;
    created_at = call.created_at;
  }

  unfoldable pub build_record : Config → Call → Option c.Digest → Record c
  build_record config call prev_hash =
      let p = event_payload call prev_hash in
      let mac = compute_event_hmac c config.secret p in
      let signed = config.sign p mac in
      record {
        event_id = p.event_id;
        session_id = p.session_id;
        agent_id = p.agent_id;
        parent_event_id = p.parent_event_id;
        kind = p.kind;
        model = p.model;
        input_hash = p.input_hash;
        output_hash = p.output_hash;
        metadata = p.metadata;
        prev_hash = prev_hash;
        hmac = mac;
        created_at = p.created_at;
        signature = signed.0;
        signing_key_fingerprint = signed.1;
        signature_status = signed.2;
      }

  abbrev marker_payload : Config → Call → Option c.Digest → Payload c.Metadata c.Digest
  marker_payload config call prev_hash = record {
    event_id = call.marker_id;
    session_id = session_of call;
    agent_id = call.event.agent_id;
    parent_event_id = none;
    kind = "chain.degraded_start";
    model = none;
    input_hash = none;
    output_hash = none;
    metadata = config.marker_metadata;
    prev_hash = prev_hash;
    created_at = call.marker_at;
  }

  unfoldable pub build_marker : Config → Call → Option c.Digest → Record c
  build_marker config call prev_hash =
      let p = marker_payload config call prev_hash in
      record {
        event_id = p.event_id;
        session_id = p.session_id;
        agent_id = p.agent_id;
        parent_event_id = none;
        kind = p.kind;
        model = none;
        input_hash = none;
        output_hash = none;
        metadata = p.metadata;
        prev_hash = prev_hash;
        hmac = compute_event_hmac c config.secret p;
        created_at = p.created_at;
        signature = none;
        signing_key_fingerprint = none;
        signature_status = SignatureStatus.unsigned;
      }

  -- insert_with_chain_lock(session_id, build_record) and (session_id, build_marker), on a store
  abbrev pub insert_event : Config → Call → Exec (Store c) (Record c)
  insert_event config call =
      insert_with_chain_lock c (session_of call) (λ prev. ok (build_record config call prev))

  abbrev pub insert_marker : Config → Call → Exec (Store c) (Record c)
  insert_marker config call =
      insert_with_chain_lock c (session_of call) (λ prev. ok (build_marker config call prev))

  -- A call of the primary store: in an outage it raises and writes nothing.
  abbrev pub on_primary : (outage : Bool) → Exec (Store c) (Record c) → Exec (Store c) (Record c)
  on_primary outage insert s = if outage then (err store_unavailable, s) else insert s

  -- The record goes to the primary store.
  unfoldable pub log_event : Config → Call → Exec Log (Record c)
  log_event config call l =
      let (r, primary) = on_primary call.event_outage (insert_event config call) l.primary in
      (r, record l { primary = primary })

  -- The `try` of `_log_unsafe`: a session that was degraded starts with a marker.
  unfoldable pub log_primary : Config → Call → Exec Log (Record c)
  unfolding log_event
  log_primary config call l =
      let (marked, primary) = on_primary call.marker_outage (insert_marker config call) l.primary in
      let recovered = record l {
        primary = primary;
        degraded_starts = erase_first (session_of call) l.degraded_starts;
      } in
      let after_marker : Result (Record c) × Log = elim marked [
        | ok r ↦ log_event config call recovered
        | err e ↦ (err e, record l { primary = primary })
      ] in
      if contains (session_of call) l.degraded_starts then after_marker else log_event config call l

  abbrev pub retry : Call → Call
  retry call = record call {
    event_id = call.retry_event_id;
    marker_id = call.retry_marker_id;
    marker_at = call.retry_marker_at;
  }

  -- The handler. A failed marker is logged and passed over.
  unfoldable pub log_fallback : Config → Call → Exec Log (Record c)
  log_fallback config call l =
      let session = session_of call in
      let known = contains session l.degraded_starts in
      let marked = (insert_marker config (retry call) l.fallback).1 in
      let store = if known then l.fallback else marked in
      let (r, fallback) = insert_event config (retry call) store in
      (
        r,
        record l {
          fallback = fallback;
          degraded_starts = if known then l.degraded_starts else session ∷ l.degraded_starts;
        },
      )

  unfoldable pub log_unsafe : Config → Call → Exec Log (Record c)
  unfolding log_primary log_fallback
  log_unsafe config call l =
      let (r, l') = log_primary config call l in
      elim r [ ok done ↦ (ok done, l') | err e ↦ log_fallback config call l' ]

  unfoldable pub placeholder_record : Config → Call → Record c
  placeholder_record config call = record {
    event_id = call.placeholder_id;
    session_id = session_of call;
    agent_id = call.event.agent_id;
    parent_event_id = parent_of call;
    kind = call.event.kind;
    model = none;
    input_hash = call.event.input_hash;
    output_hash = call.event.output_hash;
    metadata = config.unavailable call.event.metadata;
    prev_hash = none;
    hmac = config.placeholder_hmac;
    created_at = call.placeholder_at;
    signature = none;
    signing_key_fingerprint = none;
    signature_status = SignatureStatus.unsigned;
  }

  -- `log`: a correction is refused unless it was validated; nothing else raises.
  unfoldable pub log : Config → Call → Exec Log (Record c)
  unfolding log_unsafe
  log config call l =
      let (r, l') = log_unsafe config call l in
      let safe : Record c = elim r [ ok done ↦ done | err e ↦ placeholder_record config call ] in
      if call.event.kind == "audit.correction" && not call.sanctioned
      then (err runtime_error, l)
      else (ok safe, l')
