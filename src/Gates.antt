-- ===== src/Gates.antt =====
-- gates/store.py and gates/models.py: `InMemoryGatesStore`, whose lock makes each method one step.
-- The Postgres store is not modelled.
pub mod SingleUse
pub mod Tokens
pub mod Approvals
use agentic_governance.Prelude.{
  ℕ, String, Bool, true, false, Option, none, some, List, [], ◌∷◌, string_eq, nat_eq, ◌==◌, ltb,
  is_some, if◌then◌else◌, ◌&&◌,
}
use agentic_governance.Prelude.Dict.{Dict, get, put, remove, has}
use agentic_governance.Errors.{
  None, Result, ok, err, approval_token, already_used, unknown_request_id,
}
use agentic_governance.Exec.{Exec}

pub data Resolution : Type 0 where
  granted denied : Resolution

abbrev pub is_granted : Resolution → Bool
is_granted granted = true
is_granted denied = false

-- `J` is the type of payload dicts; a moment is its count of microseconds.
pub record ApprovalRequest (J : Type 0) : Type 0 where
  pub request_id : ℕ
  pub agent_id : String
  pub kind : String
  pub action_hash : String
  pub expires_at : ℕ
  pub payload : J
  pub token : String

module _ (J : Type 0) where
  pub record GatesStore : Type 0 where
    pub pending : Dict ℕ (ApprovalRequest J)
    pub resolutions : Dict ℕ Resolution
    pub resolved_requests : Dict ℕ (ApprovalRequest J)

  abbrev pub empty : GatesStore
  empty = record { pending = []; resolutions = []; resolved_requests = [] }

  unfoldable pub insert_pending : ApprovalRequest J → GatesStore → GatesStore
  insert_pending request s = record s { pending = put s.pending request.request_id request }

  unfoldable pub get_pending : ℕ → GatesStore → Option (ApprovalRequest J)
  get_pending request_id s = get s.pending request_id

  unfoldable pub get_resolution : ℕ → GatesStore → Option Resolution
  get_resolution request_id s = get s.resolutions request_id

  -- The three writes under the lock.
  abbrev pub settle : ℕ → Resolution → ApprovalRequest J → GatesStore → GatesStore
  settle request_id resolution req s = record {
    pending = remove s.pending request_id;
    resolutions = put s.resolutions request_id resolution;
    resolved_requests = put s.resolved_requests request_id req;
  }

  -- The body of the loop: an unexpired granted approval of this agent.
  abbrev pub counts :
      (agent_id : String) → (now : ℕ) → Resolution → Option (ApprovalRequest J) → Bool
  counts agent_id now resolution none = false
  counts agent_id now resolution (some req) =
      is_granted resolution && (req.agent_id == agent_id) && ltb now req.expires_at

  unfoldable pub any_counts :
      Dict ℕ (ApprovalRequest J) → (agent_id : String) → (now : ℕ) → Dict ℕ Resolution → Bool
  any_counts requests agent_id now [] = false
  any_counts requests agent_id now ((i, resolution) ∷ d) =
      if counts agent_id now resolution (get requests i)
      then true
      else any_counts requests agent_id now d

  unfoldable pub has_granted_approval : (agent_id : String) → (now : ℕ) → GatesStore → Bool
  has_granted_approval agent_id now s = any_counts s.resolved_requests agent_id now s.resolutions

module _ (J W : Type 0) where
  -- `on_commit` may change the world `W` around the store, and may raise.
  abbrev pub OnCommit : Type 0
  OnCommit = Option (ApprovalRequest J → Exec W None)

  abbrev pub commit : OnCommit → ApprovalRequest J → Exec W None
  commit none req w = (ok tt, w)
  commit (some hook) req w = hook req w

  unfoldable pub resolve : ℕ → Resolution → OnCommit → Exec (GatesStore J × W) (ApprovalRequest J)
  resolve request_id resolution on_commit (s, w) =
      let pending_case : ApprovalRequest J → Result (ApprovalRequest J) × (GatesStore J × W) =
        λ req.
          let (r, w') = commit on_commit req w in
          elim r [
            | err e ↦ (err e, (s, w'))
            | ok _ ↦ (ok req, (settle J request_id resolution req s, w'))
          ] in
      if has s.resolutions request_id
      then (err (approval_token already_used), (s, w))
      else elim (get s.pending request_id) [
        | none ↦ (err (approval_token unknown_request_id), (s, w))
        | some req ↦ pending_case req
      ]

  -- The calls that change the store.
  pub data StoreCall : Type 0 where
    insert_call : ApprovalRequest J → StoreCall
    resolve_call : ℕ → Resolution → OnCommit → StoreCall

  unfoldable pub step : StoreCall → GatesStore J × W → GatesStore J × W
  step (insert_call request) (s, w) = (insert_pending J request s, w)
  step (resolve_call i resolution on_commit) p = (resolve i resolution on_commit p).1

  unfoldable pub run : List StoreCall → GatesStore J × W → GatesStore J × W
  run [] p = p
  run (call ∷ calls) p = run calls (step call p)
