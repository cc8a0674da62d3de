-- ===== src/Cost/Check/Decisions.antt =====
-- The cases of each part of a budget check.
use agentic_governance.Prelude.{
  ℕ, ◌≡◌, ◌↔◌, ◌⊎◌, refl, ap, ◌∙◌, String, true, Option, none, some, arith, string_eq, Bool-cases,
  Option-cases, inl, inr, if◌then◌else◌,
}
use agentic_governance.Prelude.Dict.{get}
use agentic_governance.Errors.{
  None, Result, Result-cases, Exception, ok, err, Cap, budget_exceeded, per_session_seconds,
  store_unreachable,
}
use agentic_governance.Audit.Crypto.{Crypto}
use agentic_governance.Audit.Emit.{plain_event}
use agentic_governance.Presence.{Json}
use agentic_governance.Cost.{Cost, Context}
use agentic_governance.Cost.Check.{
  exceeded, unreadable, read_usage, read_elapsed, overtime, check_seconds, project, check_usage,
  check_budget,
}
use agentic_governance.Cost.Numbers.{Floats}
use agentic_governance.Cost.Policy.{BudgetPolicy, breach}
use agentic_governance.Cost.Check.Admits.{
  InTime, breach_iff, UsageAdmits, BudgetAdmits, with_event, exceeded_lem, unreadable_lem,
}

some-none : {A : Type 0} {o : Option A} (a : A) → o ≡ some a → o ≡ none → ⊥
some-none a h g = ground arith

clash : {A : Type 0} {a : A} {e : Exception} → ok a ≡ err e → ⊥
clash h = ground arith

module _ (c : Crypto) (j : Json) (fl : Floats) (S : Type 0) (x : Context c j fl S) where
  overtime_iff :
      (limit : Option ℕ) (elapsed : Result (Option ℕ))
      → (overtime c j fl S x limit elapsed ≡ none) ↔ InTime limit elapsed
  overtime_iff none elapsed = ground arith
  overtime_iff (some limit) (err e) = ground arith
  overtime_iff (some limit) (ok none) = ground arith
  overtime_iff (some limit) (ok (some n)) = ground arith

  -- An exception and the one event before it, or nothing at all.
  abbrev pub RefusedWith :
      (agent_id : String) (session_id : ℕ) → Cost c j fl S → Result None × Cost c j fl S → Type 0
  RefusedWith agent_id session_id s after =
      (cap : Cap) × (kind : String) × (metadata : c.Metadata) × (after ≡ (
        err (budget_exceeded cap),
        with_event c j fl S x (plain_event agent_id (some session_id) kind metadata) s,
      ))

  refused_by :
      (agent_id : String) (session_id : ℕ) (k : Cap) (used limit : fl.Float) (s : Cost c j fl S)
      {after : Result None × Cost c j fl S}
      → after ≡ exceeded c j fl S x agent_id session_id k used limit s
      → RefusedWith agent_id session_id s after
  refused_by agent_id session_id k used limit s h =
      (k, _, _, h ∙ exceeded_lem c j fl S x agent_id session_id k used limit s)

  pub check_seconds-cases :
      (agent_id : String) (session_id : ℕ) (limit : Option ℕ) (s : Cost c j fl S)
      → ((check_seconds c j fl S x agent_id session_id limit s ≡ (ok tt, s))
          × InTime limit (read_elapsed c j fl S x agent_id session_id s.store))
        ⊎ (RefusedWith agent_id session_id s (check_seconds c j fl S x agent_id session_id limit s)
            × (InTime limit (read_elapsed c j fl S x agent_id session_id s.store) → ⊥))
  unfolding check_seconds
  check_seconds-cases agent_id session_id limit s =
      let r = read_elapsed c j fl S x agent_id session_id s.store in
      elim (Option-cases (overtime c j fl S x limit r)) [
        | inl e ↦ inl (rw (e, check_seconds) refl, (overtime_iff limit r).0 e)
        | inr (over, e) ↦ inr (
          refused_by agent_id session_id per_session_seconds (fl.of_nat over.0) (fl.of_nat over.1) s
              (rw (e, check_seconds) refl),
          λ h. some-none over e ((overtime_iff limit r).1 h),
        )
      ]

  pub check_usage-cases :
      (agent_id : String) (session_id : ℕ) (projected_tokens : Option ℕ) (p : BudgetPolicy fl)
      (session daily : fl.Float × ℕ) (s : Cost c j fl S)
      → ((check_usage c j fl S x agent_id session_id projected_tokens p (session, daily) s
            ≡ (ok tt, s))
          × UsageAdmits c j fl S x agent_id session_id projected_tokens p s.store
              (ok (session, daily)))
        ⊎ (RefusedWith agent_id session_id s
              (check_usage c j fl S x agent_id session_id projected_tokens p (session, daily) s)
            × (UsageAdmits c j fl S x agent_id session_id projected_tokens p s.store
                  (ok (session, daily))
                → ⊥))
  unfolding check_usage
  check_usage-cases agent_id session_id projected_tokens p session daily s =
      let su = project c j fl S x projected_tokens session in
      let du = project c j fl S x projected_tokens daily in
      elim (Option-cases (breach fl p su du)) [
        | inr (b, e) ↦ inr (
          refused_by agent_id session_id b.0 b.1 b.2 s (rw (e, check_usage) refl),
          λ (h, _). some-none b e ((breach_iff fl p su du).1 h),
        )
        | inl e ↦ elim (check_seconds-cases agent_id session_id p.session_seconds_cap s) [
          | inl (same, h) ↦ inl (rw (e, check_usage) same, ((breach_iff fl p su du).0 e, h))
          | inr ((k, kind, m, refused), h) ↦
              inr ((k, kind, m, rw (e, check_usage) refused), λ (_, g). h g)
        ]
      ]

  unreadable-cases :
      (agent_id : String) (session_id : ℕ) (e : Exception) (s : Cost c j fl S)
      → (((unreadable c j fl S x agent_id session_id e s).0 ≡ ok tt) × (x.fail_open ≡ true))
        ⊎ (RefusedWith agent_id session_id s (unreadable c j fl S x agent_id session_id e s)
            × (x.fail_open ≡ true → ⊥))
  unreadable-cases agent_id session_id e s = elim (Bool-cases x.fail_open) [
    | inl h ↦ inl (ap (λ r. r.0) (unreadable_lem c j fl S x agent_id session_id e s) ∙ rw h refl, h)
    | inr h ↦
        let refusal : Result None = err (budget_exceeded store_unreachable) in
        let same : (if x.fail_open then ok tt else refusal) ≡ refusal = rw h refl in
        let event =
          plain_event agent_id (some session_id) "budget.check_failed"
            (x.failed_metadata e x.fail_open) in
        inr (
          (
            store_unreachable,
            "budget.check_failed",
            x.failed_metadata e x.fail_open,
            unreadable_lem c j fl S x agent_id session_id e s
                ∙ ap (λ r. (r, with_event c j fl S x event s)) same,
          ),
          λ g. ground arith,
        )
  ]

  -- A check either passes, and the budget admits the call, or it is refused with one event.
  pub check_budget-cases :
      (agent_id : String) (session_id : ℕ) (projected_tokens : Option ℕ) (s : Cost c j fl S)
      → (((check_budget c j fl S x agent_id session_id projected_tokens s).0 ≡ ok tt)
          × BudgetAdmits c j fl S x agent_id session_id projected_tokens
              (get s.policies agent_id)
              s.store)
        ⊎ (RefusedWith agent_id session_id s
              (check_budget c j fl S x agent_id session_id projected_tokens s)
            × (BudgetAdmits c j fl S x agent_id session_id projected_tokens
                  (get s.policies agent_id)
                  s.store
                → ⊥))
  unfolding check_budget
  check_budget-cases agent_id session_id projected_tokens s =
      elim (Option-cases (get s.policies agent_id)) [
        | inl e ↦ rw (e, check_budget) (inl (refl, tt))
        | inr (p, e) ↦ elim (Result-cases (read_usage c j fl S x agent_id session_id s.store)) [
          | inl (usage, r) ↦
              rw (e, r, check_budget)
                (elim (check_usage-cases agent_id session_id projected_tokens p usage.0 usage.1 s) [
                  | inl (same, h) ↦ inl (ap (λ a. a.0) same, h)
                  | inr refused ↦ inr refused
                ])
          | inr (fault, r) ↦ rw (e, r, check_budget) (unreadable-cases agent_id session_id fault s)
        ]
      ]
