-- ===== src/Scope.antt =====
-- scope/module.py and scope/models.py: the policies of `ScopeModule` and its checks, with the halt
-- switch and the audit log that it calls. Persisting a policy in Postgres is not modelled.
pub mod Patterns
pub mod Policy
pub mod Decisions
pub mod Enforcement
use agentic_governance.Prelude.{
  ℕ, String, Bool, true, false, Option, none, some, List, [], ◌∷◌, string_eq, is_some, contains,
  keep, if◌then◌else◌, ◌&&◌, ◌||◌, not,
}
use agentic_governance.Prelude.Dict.{Dict, get, put}
use agentic_governance.Errors.{
  None, Result, ok, err, value_error, policy_not_registered, scope_violation_tool,
  scope_violation_api, Exception,
}
use agentic_governance.Exec.{Exec, pure, raise, ◌>>=◌, ◌>>◌}
use agentic_governance.Audit.Crypto.{Crypto}
use agentic_governance.Audit.Models.{AuditEvent}
use agentic_governance.Audit.Log.{Call, Config, Log, log}
use agentic_governance.Presence.{Json, Presence, Source, assert_not_halted}
use agentic_governance.Scope.Patterns.{api_matches}
use agentic_governance.Scope.Policy.{ScopePolicy}

-- tool is not None and tool not in policy.allowed_tools
abbrev pub tool_refused : Option String → ScopePolicy → Bool
tool_refused none policy = false
tool_refused (some t) policy = not (contains t policy.allowed_tools)

-- api is not None and not _api_matches(api, policy.allowed_apis)
abbrev pub api_refused : Option String → ScopePolicy → Bool
api_refused none policy = false
api_refused (some a) policy = not (api_matches a policy.allowed_apis)

abbrev pub text_of : Option String → String
text_of none = ""
text_of (some t) = t

-- tools if not policy.hidden_tools else [t for t in tools if t not in policy.hidden_tools]
unfoldable pub visible : (hidden tools : List String) → List String
visible [] tools = tools
visible (h ∷ hidden) tools = keep (λ t. not (contains t (h ∷ hidden))) tools

module _ (c : Crypto) (j : Json) where
  -- The module with what it refers to. `presence` is none where no presence module is set.
  pub record Scope : Type 0 where
    pub policies : Dict String ScopePolicy
    pub presence : Option (Presence j)
    pub log : Log c

  -- What a check reads outside: the audit settings, what `log` reads, the clock and the halt query.
  pub record Context : Type 0 where
    pub config : Config c
    pub call : Call c
    pub now : ℕ
    pub locked : ℕ
    pub source : Source
    -- {"tool": tool, "api": api, "reason": reason}
    pub violation_metadata : (tool api : Option String) → (reason : String) → c.Metadata

  unfoldable pub register : ScopePolicy → Scope → Scope
  register policy s = record s { policies = put s.policies policy.agent_id policy }

  unfoldable pub get_policy : Scope → String → Option ScopePolicy
  get_policy s agent_id = get s.policies agent_id

  unfoldable pub filter_tools : Scope → String → List String → Result (List String)
  filter_tools s agent_id tools = elim (get s.policies agent_id) [
    | none ↦ err policy_not_registered
    | some policy ↦ ok (visible policy.hidden_tools tools)
  ]

  abbrev pub violation :
      Context → (agent_id : String) → (tool api : Option String) → (reason : String) → Call c
  violation x agent_id tool api reason = record x.call {
    event = record {
      session_id = none;
      agent_id = agent_id;
      parent_event_id = none;
      kind = "scope.violation";
      model = none;
      input_hash = none;
      output_hash = none;
      metadata = x.violation_metadata tool api reason;
    };
  }

  unfoldable pub log_violation :
      Context
      → (agent_id : String) → (tool api : Option String) → (reason : String) → Exec Scope None
  log_violation x agent_id tool api reason s =
      let (r, after) = log c x.config (violation x agent_id tool api reason) s.log in
      elim r [
        | ok _ ↦ (ok tt, record s { log = after })
        | err e ↦ (err e, record s { log = after })
      ]

  -- `_log_violation` and the `raise` after it
  abbrev pub refuse :
      Context
      → (agent_id : String) → (tool api : Option String) → (reason : String) → Exception
      → Exec Scope None
  refuse x agent_id tool api reason e = log_violation x agent_id tool api reason >> raise e

  abbrev pub halt_guard : Context → (agent_id : String) → Exec Scope None
  halt_guard x agent_id s = elim s.presence [
    | none ↦ (ok tt, s)
    | some p ↦
        let (r, after) = assert_not_halted j x.now x.locked x.source agent_id p in
        (r, record s { presence = some after })
  ]

  -- What `check` does below the halt check.
  unfoldable pub check_policy : Context → String → (tool api : Option String) → Exec Scope None
  check_policy x agent_id tool api s =
      let unregistered =
        refuse x agent_id tool api "no policy registered" policy_not_registered s in
      let bad_tool =
        refuse x agent_id tool api "tool not whitelisted" (scope_violation_tool (text_of tool)) s in
      let bad_api =
        refuse x agent_id tool api "api not whitelisted" (scope_violation_api (text_of api)) s in
      if not (is_some tool) && not (is_some api)
      then (err value_error, s)
      else elim (get s.policies agent_id) [
        | none ↦ unregistered
        | some policy ↦
            if tool_refused tool policy
            then bad_tool
            else if api_refused api policy
            then bad_api
            else (ok tt, s)
      ]

  unfoldable pub check : Context → String → (tool api : Option String) → Exec Scope None
  unfolding check_policy
  check x agent_id tool api = do halt_guard x agent_id; check_policy x agent_id tool api

  -- The wrapper that `require_tool` puts around an async function `f`.
  unfoldable pub require_tool :
      {R : Type 0} → Context → (tool agent_id : String) → Exec Scope R → Exec Scope R
  unfolding check
  require_tool x tool agent_id f = do check x agent_id (some tool) none; f
