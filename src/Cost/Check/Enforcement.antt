-- ===== src/Cost/Check/Enforcement.antt =====
-- `check_or_raise` against the caps of the policy, and when the store cannot be read.
use agentic_governance.Prelude.{
  ℕ, ◌≡◌, ◌↔◌, refl, ap, sym, ◌∙◌, subst, String, false, Option, none, some, arith, string_eq,
  Option-cases, inl, inr,
}
use agentic_governance.Prelude.Dict.{get}
use agentic_governance.Errors.{
  Result, Result-cases, Exception, ok, err, budget_exceeded, store_unreachable,
}
use agentic_governance.Audit.Crypto.{Crypto}
use agentic_governance.Audit.Emit.{plain_event}
use agentic_governance.Presence.{Json, Presence}
use agentic_governance.Presence.Clearance.{IsTable, Cleared, assert_not_halted-Clear}
use agentic_governance.Cost.{Cost, Context, halt_guard}
use agentic_governance.Cost.Check.{read_usage, check_budget, check_or_raise}
use agentic_governance.Cost.Check.Admits.{BudgetAdmits, unreadable_lem, with_event}
use agentic_governance.Cost.Check.Budgets.{Affordable, budget_iff}
use agentic_governance.Cost.Check.Decisions.{check_budget-cases}
use agentic_governance.Cost.Numbers.{Floats}
use agentic_governance.Cost.Policy.{BudgetPolicy}

clash : {A : Type 0} {r : Result A} (a : A) (e : Exception) → r ≡ ok a → r ≡ err e → ⊥
clash a e h g = ground arith

module _ (c : Crypto) (j : Json) (fl : Floats) (S : Type 0) (x : Context c j fl S) where
  halt_guard-policies :
      (agent_id : String) (s : Cost c j fl S)
      → (halt_guard c j fl S x agent_id s).1.policies ≡ s.policies
  halt_guard-policies agent_id s = elim (Option-cases s.presence) [
    | inl e ↦ rw e refl
    | inr (p, e) ↦ rw e refl
  ]

  halt_guard-store :
      (agent_id : String) (s : Cost c j fl S) → (halt_guard c j fl S x agent_id s).1.store ≡ s.store
  halt_guard-store agent_id s = elim (Option-cases s.presence) [
    | inl e ↦ rw e refl
    | inr (p, e) ↦ rw e refl
  ]

  check-passed :
      (agent_id : String) (session_id : ℕ) (projected_tokens : Option ℕ) (s : Cost c j fl S)
      → (halt_guard c j fl S x agent_id s).0 ≡ ok tt
      → check_or_raise c j fl S x agent_id session_id projected_tokens s
        ≡ check_budget c j fl S x agent_id session_id projected_tokens
            (halt_guard c j fl S x agent_id s).1
  unfolding check_or_raise
  check-passed agent_id session_id projected_tokens s h = rw (h, check_or_raise) refl

  check-stopped :
      (agent_id : String) (session_id : ℕ) (projected_tokens : Option ℕ) (s : Cost c j fl S)
      (e : Exception)
      → (halt_guard c j fl S x agent_id s).0 ≡ err e
      → check_or_raise c j fl S x agent_id session_id projected_tokens s
        ≡ (err e, (halt_guard c j fl S x agent_id s).1)
  unfolding check_or_raise
  check-stopped agent_id session_id projected_tokens s e h = rw (h, check_or_raise) refl

  admits_after :
      (agent_id : String) (session_id : ℕ) (projected_tokens : Option ℕ) (s : Cost c j fl S)
      → BudgetAdmits c j fl S x agent_id session_id projected_tokens
          (get (halt_guard c j fl S x agent_id s).1.policies agent_id)
          (halt_guard c j fl S x agent_id s).1.store
        ≡ BudgetAdmits c j fl S x agent_id session_id projected_tokens
            (get s.policies agent_id)
            s.store
  admits_after agent_id session_id projected_tokens s =
      rw (halt_guard-policies, halt_guard-store) refl

  check_or_raise-guarded :
      (agent_id : String) (session_id : ℕ) (projected_tokens : Option ℕ) (s : Cost c j fl S)
      → ((check_or_raise c j fl S x agent_id session_id projected_tokens s).0 ≡ ok tt) ↔ (
          ((halt_guard c j fl S x agent_id s).0 ≡ ok tt)
          × BudgetAdmits c j fl S x agent_id session_id projected_tokens
              (get s.policies agent_id)
              s.store)
  check_or_raise-guarded agent_id session_id projected_tokens s =
      let after = (halt_guard c j fl S x agent_id s).1 in
      let same = admits_after agent_id session_id projected_tokens s in
      elim (Result-cases (halt_guard c j fl S x agent_id s).0) [
        | inr (e, h) ↦ (
          λ g.
              elim (clash tt e g
                (ap (λ r. r.0) (check-stopped agent_id session_id projected_tokens s e h))) [ ],
          λ (g, _). elim (clash tt e g h) [ ],
        )
        | inl (_, h) ↦
            let passed = ap (λ r. r.0) (check-passed agent_id session_id projected_tokens s h) in
            elim (check_budget-cases c j fl S x agent_id session_id projected_tokens after) [
              | inl (g, admits) ↦ (λ _. (h, subst (λ A. A) same admits), λ _. passed ∙ g)
              | inr ((k, kind, m, refused), barred) ↦ (
                λ g. elim (clash tt (budget_exceeded k) g (passed ∙ ap (λ r. r.0) refused)) [ ],
                λ (_, admits). elim (barred (subst (λ A. A) (sym same) admits)) [ ],
              )
            ]
      ]

  halt_guard-Cleared :
      (agent_id : String) (s : Cost c j fl S)
      → IsTable j s.presence
      → ((halt_guard c j fl S x agent_id s).0 ≡ ok tt)
        ↔ Cleared j x.halt_now x.halt_locked x.halt_source agent_id s.presence
  halt_guard-Cleared agent_id s h = go s.presence refl h
    where
      go :
          (o : Option (Presence j))
          → s.presence ≡ o
          → IsTable j o
          → ((halt_guard c j fl S x agent_id s).0 ≡ ok tt)
            ↔ Cleared j x.halt_now x.halt_locked x.halt_source agent_id o
      go none e h = rw e (λ _. tt, λ _. refl)
      go (some p) e h =
          rw e (assert_not_halted-Clear j x.halt_now x.halt_locked x.halt_source agent_id p h)

  -- With at most one entry for an agent in the presence table, a call passes exactly when the halt
  -- switch is clear of the agent (no presence module is wired, or the halt cache is current and does
  -- not list it, or it is expired and the refresh finds no marker of it) and the agent can afford the
  -- call: it has no policy; or the session's and the day's usage, each with the projected tokens, exceed
  -- no cap, and the session is in time or its length is not known; or a usage query fails and the
  -- module was built to fail open.
  pub check_or_raise_iff :
      (agent_id : String) (session_id : ℕ) (projected_tokens : Option ℕ) (s : Cost c j fl S)
      → IsTable j s.presence
      → ((check_or_raise c j fl S x agent_id session_id projected_tokens s).0 ≡ ok tt) ↔ (
          Cleared j x.halt_now x.halt_locked x.halt_source agent_id s.presence
          × Affordable c j fl S x agent_id session_id projected_tokens
              (get s.policies agent_id)
              s.store)
  check_or_raise_iff agent_id session_id projected_tokens s table =
      let passes = check_or_raise-guarded agent_id session_id projected_tokens s in
      let guard = halt_guard-Cleared agent_id s table in
      let budget =
        budget_iff c j fl S x agent_id session_id projected_tokens (get s.policies agent_id)
          s.store in
      (
        λ h. let (clear, admits) = passes.0 h in (guard.0 clear, budget.0 admits),
        λ (clear, admits). passes.1 (guard.1 clear, budget.1 admits),
      )

  check_budget-unreadable :
      (agent_id : String) (session_id : ℕ) (projected_tokens : Option ℕ) (s : Cost c j fl S)
      (p : BudgetPolicy fl) (e : Exception)
      → get s.policies agent_id ≡ some p
      → read_usage c j fl S x agent_id session_id s.store ≡ err e
      → x.fail_open ≡ false
      → check_budget c j fl S x agent_id session_id projected_tokens s ≡ (
        err (budget_exceeded store_unreachable),
        with_event c j fl S x
            (plain_event agent_id
              (some session_id)
              "budget.check_failed"
              (x.failed_metadata e false))
            s,
      )
  unfolding check_budget
  check_budget-unreadable agent_id session_id projected_tokens s p e policy fault closed =
      rw (policy, fault, check_budget)
        (unreadable_lem c j fl S x agent_id session_id e s ∙ rw closed refl)

  -- A store that cannot be read closes the budget: with a policy registered, the halt switch passed and
  -- `fail_open` unset, the call raises, after the one event that says so.
  pub unreadable_fails_closed :
      (agent_id : String) (session_id : ℕ) (projected_tokens : Option ℕ) (s : Cost c j fl S)
      (p : BudgetPolicy fl) (e : Exception)
      → (halt_guard c j fl S x agent_id s).0 ≡ ok tt
      → get s.policies agent_id ≡ some p
      → read_usage c j fl S x agent_id session_id s.store ≡ err e
      → x.fail_open ≡ false
      → check_or_raise c j fl S x agent_id session_id projected_tokens s ≡ (
        err (budget_exceeded store_unreachable),
        with_event c j fl S x
            (plain_event agent_id
              (some session_id)
              "budget.check_failed"
              (x.failed_metadata e false))
            (halt_guard c j fl S x agent_id s).1,
      )
  unreadable_fails_closed agent_id session_id projected_tokens s p e h policy fault closed =
      check-passed agent_id session_id projected_tokens s h
      ∙ check_budget-unreadable agent_id session_id projected_tokens _ p e
          (ap (λ d. get d agent_id) (halt_guard-policies agent_id s) ∙ policy)
          (ap (read_usage c j fl S x agent_id session_id) (halt_guard-store agent_id s) ∙ fault)
          closed
