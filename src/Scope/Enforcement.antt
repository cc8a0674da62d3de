-- ===== src/Scope/Enforcement.antt =====
-- Default deny: the properties of `check`, with the halt switch and the audit log.
use agentic_governance.Prelude.{
  ℕ, String, ◌≡◌, ◌↔◌, refl, sym, ◌∙◌, ap, Bool, true, Option, none, some, List, arith, is_some,
  string_eq, Bool-cases, inl, inr, ◌||◌, ◌&&◌, ◌==◌, not, subst, keep, contains, [], ◌∷◌,
}
use agentic_governance.Prelude.Unique.{IsUnique}
use agentic_governance.Errors.{Exception, ok, err, value_error, Result-cases, agent_halted}
use agentic_governance.Audit.Crypto.{Crypto}
use agentic_governance.Presence.{Json, AgentCall, run, halt_memory, Presence, memory}
use agentic_governance.Presence.Clearance.{IsTable, Cleared, assert_not_halted-Clear}
use agentic_governance.Presence.Enforcement.{halt_is_enforced, IsExpired}
use agentic_governance.Scope.{Scope, Context, check, halt_guard, filter_tools, visible}
use agentic_governance.Scope.Policy.{ScopePolicy}
use agentic_governance.Prelude.Dict.{get}
use agentic_governance.Scope.Decisions.{
  Permitted, RefusedWith, check_policy-cases, check-passed, check-stopped, check_policy-unasked,
  halt_guard-policies, halt_guard-log,
}

ok-err : {A : Type 0} {a : A} {e : Exception} → ok a ≡ err e → ⊥
ok-err h = ground arith

check_ok-asked :
    (c : Crypto) (j : Json) (x : Context c j) (agent_id : String) (tool api : Option String)
    (s : Scope c j)
    → (halt_guard c j x agent_id s).0 ≡ ok tt
    → (is_some tool || is_some api) ≡ true
    → ((check c j x agent_id tool api s).0 ≡ ok tt) ↔ (
        ((halt_guard c j x agent_id s).0 ≡ ok tt)
        × ((is_some tool || is_some api) ≡ true)
        × Permitted agent_id tool api s.policies)
check_ok-asked c j x agent_id tool api s h given =
    let here = check-passed c j x agent_id tool api s h in
    elim (check_policy-cases c j x agent_id tool api (halt_guard c j x agent_id s).1 given) [
      | inl (e, permitted) ↦ (
        λ _. (
          h,
          given,
          subst (Permitted agent_id tool api) (halt_guard-policies c j x agent_id s) permitted,
        ),
        λ _. ap (λ r. r.0) (here ∙ e),
      )
      | inr ((e, reason, refused), n) ↦
          let raised : (check c j x agent_id tool api s).0 ≡ err e =
            ap (λ r. r.0) (here ∙ refused) in
          (
            λ passed. elim (ok-err (sym passed ∙ raised)) [ ],
            λ (_, _, permitted).
                elim (n (
                  subst (Permitted agent_id tool api) (sym (halt_guard-policies c j x agent_id s))
                    permitted)) [ ],
          )
    ]

check_ok-guarded :
    (c : Crypto) (j : Json) (x : Context c j) (agent_id : String) (tool api : Option String)
    (s : Scope c j)
    → ((check c j x agent_id tool api s).0 ≡ ok tt) ↔ (
        ((halt_guard c j x agent_id s).0 ≡ ok tt)
        × ((is_some tool || is_some api) ≡ true)
        × Permitted agent_id tool api s.policies)
check_ok-guarded c j x agent_id tool api s = elim (Result-cases (halt_guard c j x agent_id s).0) [
  | inr (e, h) ↦
      let stopped : (check c j x agent_id tool api s).0 ≡ err e =
        ap (λ r. r.0) (check-stopped c j x agent_id tool api s e h) in
      ground (arith, stopped, h)
  | inl (u, h) ↦ elim (Bool-cases (is_some tool || is_some api)) [
    | inr none_given ↦
        let refused : (check c j x agent_id tool api s).0 ≡ err value_error =
          ap (λ r. r.0)
            (check-passed c j x agent_id tool api s h
              ∙ check_policy-unasked c j x agent_id tool api (halt_guard c j x agent_id s).1
                  none_given) in
        ground (arith, refused, none_given)
    | inl given ↦ check_ok-asked c j x agent_id tool api s h given
  ]
]

halt_guard-Cleared :
    (c : Crypto) (j : Json) (x : Context c j) (agent_id : String) (s : Scope c j)
    → IsTable j s.presence
    → ((halt_guard c j x agent_id s).0 ≡ ok tt)
      ↔ Cleared j x.now x.locked x.source agent_id s.presence
halt_guard-Cleared c j x agent_id s h = go s.presence refl h
  where
    go :
        (o : Option (Presence j))
        → s.presence ≡ o
        → IsTable j o
        → ((halt_guard c j x agent_id s).0 ≡ ok tt) ↔ Cleared j x.now x.locked x.source agent_id o
    go none e h = rw e (λ _. tt, λ _. refl)
    go (some p) e h = rw e (assert_not_halted-Clear j x.now x.locked x.source agent_id p h)

-- With at most one entry for an agent in the presence table, a check passes exactly when the halt
-- switch is clear of the agent (no presence module is wired, or the halt cache is current and does not
-- list it, or it is expired and the refresh finds no marker of it), a tool or an API is named, the
-- agent has a policy, the named tool is in its set and the named API matches one of its patterns.
pub check_ok_iff :
    (c : Crypto) (j : Json) (x : Context c j) (agent_id : String) (tool api : Option String)
    (s : Scope c j)
    → IsTable j s.presence
    → ((check c j x agent_id tool api s).0 ≡ ok tt) ↔ (
        Cleared j x.now x.locked x.source agent_id s.presence
        × ((is_some tool || is_some api) ≡ true)
        × Permitted agent_id tool api s.policies)
check_ok_iff c j x agent_id tool api s table =
    let passes = check_ok-guarded c j x agent_id tool api s in
    let guard = halt_guard-Cleared c j x agent_id s table in
    (
      λ h. let (clear, given, permitted) = passes.0 h in (guard.0 clear, given, permitted),
      λ (clear, given, permitted). passes.1 (guard.1 clear, given, permitted),
    )

-- A check that the halt switch lets through and the policies do not permit raises, and logs exactly
-- one `scope.violation` event; nothing else changes.
pub check_refuses :
    (c : Crypto) (j : Json) (x : Context c j) (agent_id : String) (tool api : Option String)
    (s : Scope c j)
    → (halt_guard c j x agent_id s).0 ≡ ok tt
    → (is_some tool || is_some api) ≡ true
    → (Permitted agent_id tool api s.policies → ⊥)
    → RefusedWith c j x agent_id tool api
        (halt_guard c j x agent_id s).1
        (check c j x agent_id tool api s)
check_refuses c j x agent_id tool api s h given n =
    elim (check_policy-cases c j x agent_id tool api (halt_guard c j x agent_id s).1 given) [
      | inl (_, permitted) ↦
          elim (n (
            subst (Permitted agent_id tool api) (halt_guard-policies c j x agent_id s)
              permitted)) [ ]
      | inr ((e, reason, refused), _) ↦
          (e, reason, check-passed c j x agent_id tool api s h ∙ refused)
    ]

-- A halted agent passes no check, whatever its policy: after a halt and any sequence of calls from the
-- agent's side, once the halt cache has expired, `check` raises `AgentHaltedError` with the operator's
-- marker, logs nothing and changes no policy.
pub check_of_halted :
    (c : Crypto) (j : Json) (x : Context c j) (s : Scope c j) (p : Presence j) (at at_dt : ℕ)
    (agent_id by : String) (reason : Option String) (calls : List (AgentCall j))
    (tool api : Option String)
    → IsUnique p.agents
    → s.presence ≡ some (run j calls (halt_memory j at at_dt agent_id by reason p))
    → x.source ≡ memory
    → IsExpired j x.now x.locked (run j calls (halt_memory j at at_dt agent_id by reason p))
    → ((check c j x agent_id tool api s).0 ≡ err (agent_halted agent_id by (some at) reason))
      × ((check c j x agent_id tool api s).1.log ≡ s.log)
      × ((check c j x agent_id tool api s).1.policies ≡ s.policies)
check_of_halted c j x s p at at_dt i by reason calls tool api unique there source expired =
    let raised : (halt_guard c j x i s).0 ≡ err (agent_halted i by (some at) reason) =
      rw (there, source)
        (halt_is_enforced j p at at_dt i by reason calls x.now x.locked unique expired) in
    let stopped = check-stopped c j x i tool api s _ raised in
    (
      ap (λ r. r.0) stopped,
      ap (λ r. r.1.log) stopped ∙ halt_guard-log c j x i s,
      ap (λ r. r.1.policies) stopped ∙ halt_guard-policies c j x i s,
    )

contains-keep :
    (hidden : String → Bool) (tools : List String) (t : String)
    → contains t (keep (λ u. not (hidden u)) tools) ≡ (contains t tools && not (hidden t))
contains-keep hidden [] t = refl
contains-keep hidden (u ∷ tools) t = elim (Bool-cases (u == t)) [
  | inl same ↦
      let equal = (string_eq.beq_iff u t).0 same in
      ground (arith, contains-keep hidden tools t, ap hidden equal)
  | inr other ↦ ground (arith, contains-keep hidden tools t)
]

contains-visible :
    (hidden tools : List String) (t : String)
    → contains t (visible hidden tools) ≡ (contains t tools && not (contains t hidden))
unfolding visible
contains-visible [] tools t = ground arith
contains-visible (h ∷ hidden) tools t = contains-keep (λ u. contains u (h ∷ hidden)) tools t

-- Hidden tools never reach the model: for an agent with a policy `filter_tools` returns a list that
-- has exactly the given tools that the policy does not hide.
pub filter_tools_lem :
    (c : Crypto) (j : Json) (s : Scope c j) (agent_id : String) (tools : List String)
    (policy : ScopePolicy)
    → get s.policies agent_id ≡ some policy
    → (out : List String) × (filter_tools c j s agent_id tools ≡ ok out)
      × ((t : String) → contains t out ≡ (contains t tools && not (contains t policy.hidden_tools)))
unfolding filter_tools
filter_tools_lem c j s agent_id tools policy h = (
  visible policy.hidden_tools tools,
  rw (h, filter_tools) refl,
  contains-visible policy.hidden_tools tools,
)
