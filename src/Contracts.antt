-- ===== src/Contracts.antt =====
-- contracts/module.py and contracts/models.py: the contracts of tools, over the modules whose checks
-- they combine (the record `Host`, filled in Contracts/Hosting.antt). Not modelled: the length limits
-- of pydantic on the texts, and the log lines.
pub mod Enforcement
pub mod Hosting
pub mod Meaning
use agentic_governance.Prelude.{
  ℕ, String, Bool, true, false, Option, none, some, List, [], ◌∷◌, length, ltb, leb, keep, contains,
  string_eq, pair_eq, ◌==◌, nat_beq, if◌then◌else◌, ◌||◌, map,
}
use agentic_governance.Prelude.Dict.{Dict, get, put}
use agentic_governance.Errors.{
  None, Result, ok, err, Exception, value_error, budget_exceeded, scope_violation_tool,
  scope_violation_api, policy_not_registered, contract_violation,
}
use agentic_governance.Exec.{Exec, ◌>>◌, raise}
use agentic_governance.Audit.Models.{AuditEvent}
use agentic_governance.Audit.Emit.{plain_event}
use Prim.Native.String.{count}

-- A condition; `callable` is params.get("callable").
pub record Condition : Type 0 where
  pub check : String
  pub message : String
  pub callable : Option String

pub record Contract : Type 0 where
  pub agent_id : String
  pub tool : String
  pub pre : List Condition
  pub post : List Condition

abbrev pub valid_pre_checks : List String
valid_pre_checks = "hitl_approved" ∷ "budget_available" ∷ "scope_allowed" ∷ "custom" ∷ []

abbrev pub valid_post_checks : List String
valid_post_checks = "audit_logged" ∷ "custom" ∷ []

-- `_validate_check` of the two kinds of conditions.
unfoldable pub validate_check : (valid : List String) → (check : String) → Result String
validate_check valid check = if contains check valid then ok check else err value_error

abbrev pub max_conditions : ℕ
max_conditions = 20

unfoldable pub model_post_init : Contract → Result None
model_post_init k =
    if ltb max_conditions (length k.pre) || ltb max_conditions (length k.post)
    then err value_error
    else ok tt

abbrev pub is_budget_exceeded : Exception → Bool
is_budget_exceeded (budget_exceeded cause) = true
is_budget_exceeded _ = false

abbrev pub is_scope_refusal : Exception → Bool
is_scope_refusal (scope_violation_tool tool) = true
is_scope_refusal (scope_violation_api api) = true
is_scope_refusal policy_not_registered = true
is_scope_refusal _ = false

-- What the module asks of the others, which share the state `W`; `M` is the type of metadata.
pub record Host (M W : Type 0) : Type 0 where
  pub log : AuditEvent M → Exec W None
  pub check_or_raise : (agent_id : String) → (session_id : ℕ) → Exec W None
  pub check_tool : (agent_id tool : String) → Exec W None
  -- none where no gates module is set
  pub has_granted_approval : Option ((agent_id : String) → W → Result Bool)
  -- the metadata of the session's events, and metadata.get("tool")
  pub session_events : (session_id : ℕ) → W → Result (List M)
  pub tool_of : M → Option String
  -- {"tool": ..., "check": ..., "message": ...}
  pub violation_metadata : (tool check message : String) → M

-- A registered callable.
abbrev pub CustomCheck : (W : Type 0) → Type 0
CustomCheck W = (agent_id : String) → (session_id : ℕ) → (tool : String) → Exec W Bool

module _ (M W : Type 0) where
  pub record Contracts : Type 0 where
    pub host : Host M W
    pub contracts : Dict (String × String) Contract
    pub custom_checks : Dict String (CustomCheck W)

  unfoldable pub register : Contract → Contracts → Contracts
  register k m = record m { contracts = put m.contracts (k.agent_id, k.tool) k }

  unfoldable pub register_check : (name : String) → CustomCheck W → Exec Contracts None
  register_check name fn m =
      if nat_beq (count name) 0 || ltb 256 (count name)
      then (err value_error, m)
      else (ok tt, record m { custom_checks = put m.custom_checks name fn })

  unfoldable pub get_contract : Contracts → (agent_id tool : String) → Option Contract
  get_contract m agent_id tool = get m.contracts (agent_id, tool)

  unfoldable pub list_contracts : Contracts → (agent_id : String) → List Contract
  list_contracts m agent_id = map (λ (key, k). k) (keep (λ (key, k). key.0 == agent_id) m.contracts)

  -- try: ...; return True / except <these>: return False
  abbrev pub caught : (Exception → Bool) → Result None × W → Result Bool × W
  caught these (ok _, w) = (ok true, w)
  caught these (err e, w) = if these e then (ok false, w) else (err e, w)

  -- An answer, or False where there was an error.
  abbrev pub or_false : Result Bool → Result Bool
  or_false (ok b) = ok b
  or_false (err e) = ok false

  module _ (m : Contracts) (agent_id : String) (session_id : ℕ) (tool : String) where
    unfoldable pub check_hitl_approved : Exec W Bool
    check_hitl_approved w = elim m.host.has_granted_approval [
      | none ↦ (ok false, w)
      | some approved ↦ (or_false (approved agent_id w), w)
    ]

    unfoldable pub check_budget_available : Exec W Bool
    check_budget_available w =
        caught is_budget_exceeded (m.host.check_or_raise agent_id session_id w)

    unfoldable pub check_scope_allowed : Exec W Bool
    check_scope_allowed w = caught is_scope_refusal (m.host.check_tool agent_id tool w)

    abbrev pub names_tool : Option String → Bool
    names_tool none = false
    names_tool (some t) = t == tool

    -- The loop over the events of the session.
    unfoldable pub any_names_tool : List M → Bool
    any_names_tool [] = false
    any_names_tool (e ∷ es) = if names_tool (m.host.tool_of e) then true else any_names_tool es

    unfoldable pub check_audit_logged : Exec W Bool
    unfolding any_names_tool
    check_audit_logged w = elim (m.host.session_events session_id w) [
      | ok events ↦ (ok (any_names_tool events), w)
      | err e ↦ (ok false, w)
    ]

    -- What a callable changed before it raised stays changed.
    abbrev pub run_check : Option (CustomCheck W) → Exec W Bool
    run_check none w = (ok false, w)
    run_check (some fn) w = let (r, after) = fn agent_id session_id tool w in (or_false r, after)

    abbrev pub callable_of : Option String → Option (CustomCheck W)
    callable_of none = none
    callable_of (some name) = get m.custom_checks name

    unfoldable pub check_custom : Condition → Exec W Bool
    check_custom k = run_check (callable_of k.callable)

    unfoldable pub eval_pre : Condition → Exec W Bool
    unfolding check_hitl_approved check_budget_available check_scope_allowed check_custom
    eval_pre k =
        if k.check == "hitl_approved"
        then check_hitl_approved
        else if k.check == "budget_available"
        then check_budget_available
        else if k.check == "scope_allowed"
        then check_scope_allowed
        else if k.check == "custom"
        then check_custom k
        else λ w. (ok false, w)

    unfoldable pub eval_post : Condition → Exec W Bool
    unfolding check_audit_logged check_custom
    eval_post k =
        if k.check == "audit_logged"
        then check_audit_logged
        else if k.check == "custom"
        then check_custom k
        else λ w. (ok false, w)

    abbrev pub violated : (kind : String) → Condition → Exec W None
    violated kind k =
        m.host.log (
          plain_event agent_id (some session_id) kind
            (m.host.violation_metadata tool k.check k.message))
        >> raise (contract_violation k.check k.message)

    -- The loop over the conditions.
    unfoldable pub check_all :
        (Condition → Exec W Bool) → (kind : String) → List Condition → Exec W None
    check_all eval kind [] w = (ok tt, w)
    check_all eval kind (k ∷ ks) w =
        let (passed, after) = eval k w in
        let next = check_all eval kind ks after in
        elim passed [ err e ↦ (err e, after) | ok b ↦ if b then next else violated kind k after ]

    unfoldable pub check_pre : Exec W None
    unfolding check_all eval_pre get_contract
    check_pre w = elim (get_contract m agent_id tool) [
      | none ↦ (ok tt, w)
      | some k ↦ check_all eval_pre "contract.pre_violation" k.pre w
    ]

    unfoldable pub check_post : Exec W None
    unfolding check_all eval_post get_contract
    check_post w = elim (get_contract m agent_id tool) [
      | none ↦ (ok tt, w)
      | some k ↦ check_all eval_post "contract.post_violation" k.post w
    ]

    -- `async with enforce(...)` around the tool call: where the body raises, the rest is not run.
    unfoldable pub enforce : (body : Exec W None) → Exec W None
    unfolding check_pre check_post
    enforce body = check_pre >> body >> check_post
