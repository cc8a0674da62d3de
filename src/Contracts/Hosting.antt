-- ===== src/Contracts/Hosting.antt =====
-- The modules as the contracts use them: the cost, scope and gates modules over one audit log and one
-- presence table, as the SDK wires them.
use agentic_governance.Prelude.{ℕ, String, Option, none, some, map}
use agentic_governance.Errors.{None, ok}
use agentic_governance.Exec.{Exec}
use agentic_governance.Audit.Crypto.{Crypto}
use agentic_governance.Audit.Store.{get_session_events}
use agentic_governance.Audit.Log.{Log}
use agentic_governance.Audit.Emit.{emit}
use agentic_governance.Presence.{Json, Presence}
use agentic_governance.Cost as C
use agentic_governance.Cost.Check.{check_or_raise}
use agentic_governance.Cost.Numbers.{Floats}
use agentic_governance.Scope as Sc
use agentic_governance.Gates.{GatesStore, has_granted_approval}
use agentic_governance.Contracts.{Host}

module _ (c : Crypto) (j : Json) (fl : Floats) (S J : Type 0) where
  -- The cost and scope modules hold references to the log and the presence table: here one copy.
  pub record Sdk : Type 0 where
    pub cost : C.Cost c j fl S
    pub scope : Sc.Scope c j
    pub gates : GatesStore J
    pub presence : Option (Presence j)
    pub log : Log c

  abbrev pub in_cost : Exec (C.Cost c j fl S) None → Exec Sdk None
  in_cost f s =
      let (r, after) = f (record s.cost { presence = s.presence; log = s.log }) in
      (r, record s { cost = after; presence = after.presence; log = after.log })

  abbrev pub in_scope : Exec (Sc.Scope c j) None → Exec Sdk None
  in_scope f s =
      let (r, after) = f (record s.scope { presence = s.presence; log = s.log }) in
      (r, record s { scope = after; presence = after.presence; log = after.log })

  -- `approved_at` is the clock of the approval check; `tool_of` and `violation_metadata` read and build
  -- the JSON of metadata.
  abbrev pub sdk_host :
      C.Context c j fl S
      → Sc.Context c j
      → (has_gates : Option None) → (approved_at : ℕ) → (tool_of : c.Metadata → Option String)
      → (violation_metadata : (tool check message : String) → c.Metadata) → Host c.Metadata Sdk
  sdk_host x y has_gates approved_at tool_of violation_metadata = record {
    log = λ event s.
        let (r, after) = emit c x.config x.call event s.log in (r, record s { log = after });
    check_or_raise =
        λ agent_id session_id. in_cost (check_or_raise c j fl S x agent_id session_id none);
    check_tool = λ agent_id tool. in_scope (Sc.check c j y agent_id (some tool) none);
    has_granted_approval = elim has_gates [
      | none ↦ none
      | some _ ↦ some (λ agent_id s. ok (has_granted_approval J agent_id approved_at s.gates))
    ];
    session_events =
        λ session_id s. ok (map (λ e. e.metadata) (get_session_events c s.log.primary session_id));
    tool_of = tool_of;
    violation_metadata = violation_metadata;
  }
