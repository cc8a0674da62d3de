-- ===== src/Gates/Approvals.antt =====
-- gates/module.py: `GatesModule`, over any store that may raise, with the audit log and the platform
-- bridge. Not modelled: the two notifications of the platform, which are swallowed whatever they do,
-- and the log lines. A moment is its count of microseconds.
pub mod Waiting
pub mod Lifecycle
pub mod Verdicts
pub mod Races
pub mod Backoff
use agentic_governance.Prelude.{
  ℕ, ◌+◌, ◌-◌, ◌*◌, String, Bool, true, false, Option, none, some, List, [], ◌∷◌, string_eq, ◌==◌,
  leb, if◌then◌else◌, not, ◌&&◌, ◌||◌, ltb, nat_beq,
}
use agentic_governance.Errors.{
  None, Result, ok, err, approval_token, action_hash_mismatch, approval_denied, approval_timeout,
  validation_error,
}
use agentic_governance.Exec.{Exec}
use agentic_governance.Audit.Crypto.{Crypto}
use agentic_governance.Audit.Log.{Call, Config, Log}
use agentic_governance.Audit.Event.{is_bad_text}
use agentic_governance.Audit.Emit.{emit, plain_event}
use agentic_governance.Presence.{Json, Presence, Source, assert_not_halted}
use agentic_governance.Gates.{
  ApprovalRequest, GatesStore, OnCommit, Resolution, granted, denied, is_granted, insert_pending,
  get_pending, get_resolution, resolve,
}
use agentic_governance.Gates.Tokens.{TokenEnv, Parsed, make_token, parse_token}

-- The operations of a store of state `S`; `on_commit` changes `W`.
pub record Backend (J W S : Type 0) : Type 0 where
  pub insert_pending : ApprovalRequest J → Exec S None
  pub get_pending : (request_id : ℕ) → S → Result (Option (ApprovalRequest J))
  pub get_resolution : (request_id : ℕ) → S → Result (Option Resolution)
  pub resolve : (request_id : ℕ) → Resolution → OnCommit J W → Exec (S × W) (ApprovalRequest J)

abbrev pub memory_backend : (J W : Type 0) → Backend J W (GatesStore J)
memory_backend J W = record {
  insert_pending = λ req s. (ok tt, insert_pending J req s);
  get_pending = λ i s. ok (get_pending J i s);
  get_resolution = λ i s. ok (get_resolution J i s);
  resolve = resolve J W;
}

abbrev pub kind_of : Resolution → String
kind_of granted = "approval.granted"
kind_of denied = "approval.denied"

abbrev pub min : ℕ → ℕ → ℕ
min m n = if leb m n then m else n

abbrev pub poll_base : ℕ
poll_base = 2000000

abbrev pub poll_max : ℕ
poll_max = 10000000

abbrev pub latch_threshold : ℕ
latch_threshold = 5

abbrev pub latch_seconds : ℕ
latch_seconds = 60000000

-- `draw` is the random jitter plus half a second.
unfoldable pub jittered_interval : (base draw : ℕ) → ℕ
jittered_interval base draw = min poll_max (base + draw - 500000)

-- The back-off of the platform poll in one call of `wait_for`.
pub record Poll : Type 0 where
  pub backoff : ℕ
  pub next_poll_at : ℕ
  pub failures : ℕ

abbrev pub first_poll : (at : ℕ) → Poll
first_poll at = record { backoff = poll_base; next_poll_at = at; failures = 0 }

-- The back-off after the platform answered or raised, before the next poll is scheduled.
abbrev pub note_answer : Result (Option Resolution) → Poll → Poll
note_answer (ok answer) p = record p { backoff = poll_base; failures = 0 }
note_answer (err e) p = record p {
  backoff = min (p.backoff * 2) poll_max;
  failures = p.failures + 1;
}

abbrev pub schedule : (at draw : ℕ) → Poll → Poll
schedule at draw p =
    let hold =
      if leb latch_threshold p.failures then latch_seconds else jittered_interval p.backoff draw in
    record p { next_poll_at = at + hold }

unfoldable pub after_poll : Result (Option Resolution) → (at draw : ℕ) → Poll → Poll
unfolding jittered_interval
after_poll answer at draw p = schedule at draw (note_answer answer p)

module _ (c : Crypto) (j : Json) (J K S : Type 0) where
  -- What a call reads outside the module.
  pub record Context : Type 0 where
    pub ops : Backend J (Log c) S
    pub env : TokenEnv K
    pub secret : K
    pub accept_v1_until : Option ℕ
    pub enable_v2_tokens : Bool
    pub config : Config c
    pub call : Call c
    pub halt_now : ℕ
    pub halt_locked : ℕ
    pub halt_source : Source
    -- uuid4(), the hash of the payload, and the payload where it is a dict
    pub request_id : ℕ
    pub hash_action_payload : J → String
    -- datetime.now(timezone.utc) + (expires_in or default_expires_in)
    pub expires_at : ℕ
    -- the readings of the clock in `parse_token`
    pub parsed_at : ℕ
    pub checked_at : ℕ
    pub requested_metadata : ApprovalRequest J → c.Metadata
    pub resolved_metadata : ApprovalRequest J → (by_platform : Bool) → c.Metadata

  pub record Approvals : Type 0 where
    pub presence : Option (Presence j)
    pub store : S
    pub log : Log c

  module _ (x : Context) where
    abbrev pub halt_guard : (agent_id : String) → Exec Approvals None
    halt_guard agent_id s = elim s.presence [
      | none ↦ (ok tt, s)
      | some p ↦
          let (r, after) = assert_not_halted j x.halt_now x.halt_locked x.halt_source agent_id p in
          (r, record s { presence = some after })
    ]

    abbrev pub new_request : (kind agent_id : String) → (payload : J) → ApprovalRequest J
    new_request kind agent_id payload =
        let action_hash = x.hash_action_payload payload in
        record {
          request_id = x.request_id;
          agent_id = agent_id;
          kind = kind;
          action_hash = action_hash;
          expires_at = x.expires_at;
          payload = payload;
          token =
              make_token x.env x.secret x.request_id action_hash x.expires_at x.enable_v2_tokens;
        }

    abbrev pub opened :
        ApprovalRequest J
        → S
        → Approvals
        → Result None × Log c
        → Result (ApprovalRequest J) × Approvals
    opened req stored s (ok _, log) = (ok req, record s { store = stored; log = log })
    opened req stored s (err e, log) = (err e, record s { store = stored; log = log })

    -- The bounds that `ApprovalRequest` sets on what the caller gives.
    abbrev pub is_bad_request : (kind agent_id : String) → Bool
    is_bad_request kind agent_id = is_bad_text 256 agent_id || is_bad_text 128 kind

    -- From the insertion on: an error of the store is swallowed.
    unfoldable pub open_request : ApprovalRequest J → Exec Approvals (ApprovalRequest J)
    open_request req s = opened req (x.ops.insert_pending req s.store).1 s (
        emit c x.config x.call
          (plain_event req.agent_id none "approval.requested" (x.requested_metadata req)) s.log)

    unfoldable pub request :
        (kind agent_id : String) → (payload : J) → Exec Approvals (ApprovalRequest J)
    request kind agent_id payload s =
        let (r, after) = halt_guard agent_id s in
        elim r [
          | err e ↦ (err e, after)
          | ok _ ↦
              let opened = open_request (new_request kind agent_id payload) after in
              if is_bad_request kind agent_id then (err validation_error, after) else opened
        ]

    -- The hook that `resolve` runs before it persists.
    abbrev pub emit_audit :
        Resolution → (by_platform : Bool) → ApprovalRequest J → Exec (Log c) None
    emit_audit resolution by_platform req =
        emit c x.config x.call
          (plain_event req.agent_id none (kind_of resolution) (x.resolved_metadata req by_platform))

    abbrev pub hash_fits : (action_hash : String) → Option (ApprovalRequest J) → Bool
    hash_fits action_hash none = true
    hash_fits action_hash (some pending) = pending.action_hash == action_hash

    abbrev pub settled :
        Approvals → Result (ApprovalRequest J) × (S × Log c) → Result None × Approvals
    settled s (ok req, (store, log)) = (ok tt, record s { store = store; log = log })
    settled s (err e, (store, log)) = (err e, record s { store = store; log = log })

    unfoldable pub resolve_request :
        (request_id : ℕ) → Resolution → (by_platform : Bool) → Exec Approvals None
    resolve_request request_id resolution by_platform s = settled s (
        x.ops.resolve request_id resolution (some (emit_audit resolution by_platform))
          (s.store, s.log))

    unfoldable pub resolve_parsed : Resolution → Parsed → Exec Approvals None
    resolve_parsed resolution (request_id, action_hash, expires) s =
        let resolved = resolve_request request_id resolution false s in
        elim (x.ops.get_pending request_id s.store) [
          | err e ↦ (err e, s)
          | ok pending ↦
              if hash_fits action_hash pending
              then resolved
              else (err (approval_token action_hash_mismatch), s)
        ]

    -- `_resolve`: grant and deny.
    unfoldable pub resolve_token : (token : String) → Resolution → Exec Approvals None
    resolve_token token resolution s =
        elim (parse_token x.env x.secret token x.accept_v1_until x.parsed_at x.checked_at) [
          | err e ↦ (err e, s)
          | ok parsed ↦ resolve_parsed resolution parsed s
        ]

    abbrev pub grant : (token : String) → Exec Approvals None
    grant token = resolve_token token granted

    abbrev pub deny : (token : String) → Exec Approvals None
    deny token = resolve_token token denied

    -- Whatever goes wrong is swallowed.
    unfoldable pub sync_platform_resolution : (request_id : ℕ) → Resolution → Approvals → Approvals
    sync_platform_resolution request_id resolution s = elim (x.ops.get_pending request_id s.store) [
      | err e ↦ s
      | ok none ↦ s
      | ok (some req) ↦ (resolve_request request_id resolution true s).1
    ]
