-- ===== src/Scope/Decisions.antt =====
-- What a check decides, and what it writes.
use agentic_governance.Prelude.{
  String, ◌≡◌, ◌↔◌, refl, Bool, true, false, Option, none, some, arith, contains, is_some,
  string_eq, Bool-cases, Option-cases, inl, inr, ◌||◌, ◌&&◌, not, subst, ◌⊎◌,
}
use agentic_governance.Prelude.Dict.{Dict, get}
use agentic_governance.Errors.{
  None, Result, ok, err, value_error, policy_not_registered, scope_violation_tool,
  scope_violation_api, Exception,
}
use agentic_governance.Audit.Crypto.{Crypto}
use agentic_governance.Audit.Log.{log}
use agentic_governance.Presence.{Json}
use agentic_governance.Scope.{
  Scope, Context, check, check_policy, halt_guard, log_violation, violation, tool_refused,
  api_refused, text_of, refuse,
}
use agentic_governance.Scope.Patterns.{api_matches_iff, Allows, SomeOf}
use agentic_governance.Scope.Policy.{ScopePolicy}

-- What a policy permits, read off its sets.
abbrev pub ToolPermitted : Option String → ScopePolicy → Type 0
ToolPermitted none policy = Unit
ToolPermitted (some t) policy = contains t policy.allowed_tools ≡ true

abbrev pub ApiPermitted : Option String → ScopePolicy → Type 0
ApiPermitted none policy = Unit
ApiPermitted (some a) policy = SomeOf (Allows a) policy.allowed_apis

-- What the registered policies permit.
abbrev pub Permitted :
    (agent_id : String) (tool api : Option String) → Dict String ScopePolicy → Type 0
Permitted agent_id tool api policies =
    (policy : ScopePolicy) × (get policies agent_id ≡ some policy)
    × ToolPermitted tool policy
    × ApiPermitted api policy

tool_refused_iff :
    (tool : Option String) (policy : ScopePolicy)
    → (tool_refused tool policy ≡ false) ↔ ToolPermitted tool policy
tool_refused_iff none policy = ground arith
tool_refused_iff (some t) policy = ground arith

api_refused_iff :
    (api : Option String) (policy : ScopePolicy)
    → (api_refused api policy ≡ false) ↔ ApiPermitted api policy
api_refused_iff none policy = ground arith
api_refused_iff (some a) policy = ground (arith, api_matches_iff a policy.allowed_apis)

clash : {b : Bool} → b ≡ true → b ≡ false → ⊥
clash h g = ground arith

some_unique : {A : Type 0} {o : Option A} (a b : A) → o ≡ some a → o ≡ some b → a ≡ b
some_unique a b h g = ground arith

some-none : {A : Type 0} {o : Option A} (a : A) → o ≡ some a → o ≡ none → ⊥
some-none a h g = ground arith

module _ (c : Crypto) (j : Json) (x : Context c j) where
  -- A violation event is always written: `log` refuses nothing but corrections.
  pub log_violation_lem :
      (agent_id : String) (tool api : Option String) (reason : String) (s : Scope c j)
      → log_violation c j x agent_id tool api reason s ≡ (
        ok tt,
        record s { log = (log c x.config (violation c j x agent_id tool api reason) s.log).1 },
      )
  unfolding log_violation log
  log_violation_lem agent_id tool api reason s = refl

  pub refuse_lem :
      (agent_id : String) (tool api : Option String) (reason : String) (e : Exception)
      (s : Scope c j)
      → refuse c j x agent_id tool api reason e s ≡ (
        err e,
        record s { log = (log c x.config (violation c j x agent_id tool api reason) s.log).1 },
      )
  refuse_lem agent_id tool api reason e s = rw log_violation_lem refl

  -- A refusal: the exception, and the one event that was logged with its reason.
  abbrev pub RefusedWith :
      (agent_id : String)
      → (tool api : Option String) → Scope c j
      → Result None × Scope c j
      → Type 0
  RefusedWith agent_id tool api s after =
      (e : Exception) × (reason : String) × (after ≡ (
        err e,
        record s { log = (log c x.config (violation c j x agent_id tool api reason) s.log).1 },
      ))

  pub halt_guard-policies :
      (agent_id : String) (s : Scope c j) → (halt_guard c j x agent_id s).1.policies ≡ s.policies
  halt_guard-policies agent_id s = elim (Option-cases s.presence) [
    | inl e ↦ rw e refl
    | inr (p, e) ↦ rw e refl
  ]

  pub halt_guard-log :
      (agent_id : String) (s : Scope c j) → (halt_guard c j x agent_id s).1.log ≡ s.log
  halt_guard-log agent_id s = elim (Option-cases s.presence) [
    | inl e ↦ rw e refl
    | inr (p, e) ↦ rw e refl
  ]

  pub check_policy-cases :
      (agent_id : String) (tool api : Option String) (s : Scope c j)
      → (is_some tool || is_some api) ≡ true
      → ((check_policy c j x agent_id tool api s ≡ (ok tt, s))
          × Permitted agent_id tool api s.policies)
        ⊎ (RefusedWith agent_id tool api s (check_policy c j x agent_id tool api s)
            × (Permitted agent_id tool api s.policies → ⊥))
  unfolding check_policy
  check_policy-cases agent_id tool api s given =
      let asked : (not (is_some tool) && not (is_some api)) ≡ false = ground arith in
      elim (Option-cases (get s.policies agent_id)) [
        | inl e ↦ inr (
          (
            policy_not_registered,
            "no policy registered",
            rw (asked, e, check_policy) (refuse_lem agent_id tool api _ _ s),
          ),
          λ (p, f, _, _). some-none p f e,
        )
        | inr (policy, e) ↦ elim (Bool-cases (tool_refused tool policy)) [
          | inl t ↦ inr (
            (
              scope_violation_tool (text_of tool),
              "tool not whitelisted",
              rw (asked, e, t, check_policy) (refuse_lem agent_id tool api _ _ s),
            ),
            λ (p, f, g, _). clash t (
                (tool_refused_iff tool policy).1
                  (subst (ToolPermitted tool) (some_unique p policy f e) g)),
          )
          | inr t ↦ elim (Bool-cases (api_refused api policy)) [
            | inl a ↦ inr (
              (
                scope_violation_api (text_of api),
                "api not whitelisted",
                rw (asked, e, t, a, check_policy) (refuse_lem agent_id tool api _ _ s),
              ),
              λ (p, f, _, g). clash a (
                  (api_refused_iff api policy).1
                    (subst (ApiPermitted api) (some_unique p policy f e) g)),
            )
            | inr a ↦ inl (
              rw (asked, e, t, a, check_policy) refl,
              (policy, e, (tool_refused_iff tool policy).0 t, (api_refused_iff api policy).0 a),
            )
          ]
        ]
      ]

  pub check-passed :
      (agent_id : String) (tool api : Option String) (s : Scope c j)
      → (halt_guard c j x agent_id s).0 ≡ ok tt
      → check c j x agent_id tool api s
        ≡ check_policy c j x agent_id tool api (halt_guard c j x agent_id s).1
  unfolding check
  check-passed agent_id tool api s h = rw (h, check) refl

  pub check-stopped :
      (agent_id : String) (tool api : Option String) (s : Scope c j) (e : Exception)
      → (halt_guard c j x agent_id s).0 ≡ err e
      → check c j x agent_id tool api s ≡ (err e, (halt_guard c j x agent_id s).1)
  unfolding check
  check-stopped agent_id tool api s e h = rw (h, check) refl

  pub check_policy-unasked :
      (agent_id : String) (tool api : Option String) (s : Scope c j)
      → (is_some tool || is_some api) ≡ false
      → check_policy c j x agent_id tool api s ≡ (err value_error, s)
  unfolding check_policy
  check_policy-unasked agent_id tool api s h =
      let asked : (not (is_some tool) && not (is_some api)) ≡ true = ground arith in
      rw (asked, check_policy) refl
