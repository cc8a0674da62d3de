-- ===== src/Contracts/Enforcement.antt =====
-- When a contract lets a tool call through, and what a refusal does.
use agentic_governance.Prelude.{
  ℕ, ◌≡◌, ◌↔◌, refl, sym, ap, ◌∙◌, String, Bool, true, false, Option, none, some, List, [], ◌∷◌,
  string_eq, pair_eq, Option-cases, Bool-cases, inl, inr, arith,
}
use agentic_governance.Errors.{None, Result, Result-cases, ok, err, Exception, contract_violation}
use agentic_governance.Exec.{Exec}
use agentic_governance.Audit.Emit.{plain_event}
use agentic_governance.Contracts.{
  Contract, Condition, Contracts, get_contract, eval_pre, eval_post, violated, check_all, check_pre,
  check_post, enforce,
}

ok-err : {A : Type 0} {r : Result A} (a : A) (e : Exception) → r ≡ ok a → r ≡ err e → ⊥
ok-err a e h g = ground arith

true-false : ok true ≡ ok false → ⊥
true-false h = ground arith

module _ (M W : Type 0) (m : Contracts M W) (agent_id : String) (session_id : ℕ)
    (tool : String) where
  -- Each condition holds in the state that the evaluation of those before it left.
  abbrev pub Pass : (eval : Condition → Exec W Bool) → List Condition → W → Type 0
  Pass eval [] w = Unit
  Pass eval (k ∷ ks) w = ((eval k w).0 ≡ ok true) × Pass eval ks (eval k w).1

  -- The conditions of the contract, where one is registered.
  abbrev pub Hold :
      (eval : Condition → Exec W Bool) → (Contract → List Condition) → Option Contract → W → Type 0
  Hold eval conditions none w = Unit
  Hold eval conditions (some k) w = Pass eval (conditions k) w

  abbrev pub PreHold : W → Type 0
  PreHold w =
      Hold (eval_pre M W m agent_id session_id tool) (λ k. k.pre) (get_contract M W m agent_id tool)
        w

  abbrev pub PostHold : W → Type 0
  PostHold w =
      Hold (eval_post M W m agent_id session_id tool) (λ k. k.post)
        (get_contract M W m agent_id tool) w

  violated_raises :
      (kind : String) (k : Condition) (w : W)
      → (violated M W m agent_id session_id tool kind k w).0 ≡ ok tt
      → ⊥
  violated_raises kind k w h =
      let event =
        plain_event agent_id (some session_id) kind
          (m.host.violation_metadata tool k.check k.message) in
      elim (Result-cases (m.host.log event w).0) [
        | inl (_, e) ↦ ok-err tt (contract_violation k.check k.message) h (rw e refl)
        | inr (x, e) ↦ ok-err tt x h (rw e refl)
      ]

  check_all_iff :
      (eval : Condition → Exec W Bool) (kind : String) (ks : List Condition) (w : W)
      → ((check_all M W m agent_id session_id tool eval kind ks w).0 ≡ ok tt) ↔ Pass eval ks w
  unfolding check_all
  check_all_iff eval kind [] w = (λ h. tt, λ h. refl)
  check_all_iff eval kind (k ∷ ks) w = elim (Result-cases (eval k w).0) [
    | inr (x, e) ↦
        rw (e, check_all)
          (λ h. elim (ok-err tt x h refl) [ ], λ (h, _). elim (ok-err true x h refl) [ ])
    | inl (b, e) ↦ elim (Bool-cases b) [
      | inl t ↦
          let passed : (eval k w).0 ≡ ok true = e ∙ ap ok t in
          rw (passed, check_all)
            (
              λ h. (refl, (check_all_iff eval kind ks (eval k w).1).0 h),
              λ (_, h). (check_all_iff eval kind ks (eval k w).1).1 h,
            )
      | inr f ↦
          let failed : (eval k w).0 ≡ ok false = e ∙ ap ok f in
          rw (failed, check_all)
            (
              λ h. elim (violated_raises kind k (eval k w).1 h) [ ],
              λ (h, _). elim (true-false (sym h)) [ ],
            )
    ]
  ]

  check_pre_iff : (w : W) → ((check_pre M W m agent_id session_id tool w).0 ≡ ok tt) ↔ PreHold w
  unfolding check_pre
  check_pre_iff w = elim (Option-cases (get_contract M W m agent_id tool)) [
    | inl e ↦ rw (e, check_pre) (λ h. tt, λ h. refl)
    | inr (k, e) ↦
        rw (e, check_pre)
          (check_all_iff (eval_pre M W m agent_id session_id tool) "contract.pre_violation" k.pre w)
  ]

  check_post_iff : (w : W) → ((check_post M W m agent_id session_id tool w).0 ≡ ok tt) ↔ PostHold w
  unfolding check_post
  check_post_iff w = elim (Option-cases (get_contract M W m agent_id tool)) [
    | inl e ↦ rw (e, check_post) (λ h. tt, λ h. refl)
    | inr (k, e) ↦
        rw (e, check_post)
          (check_all_iff (eval_post M W m agent_id session_id tool) "contract.post_violation" k.post
            w)
  ]

  enforce-passed :
      (body : Exec W None) (w : W)
      → (check_pre M W m agent_id session_id tool w).0 ≡ ok tt
      → (body (check_pre M W m agent_id session_id tool w).1).0 ≡ ok tt
      → enforce M W m agent_id session_id tool body w
        ≡ check_post M W m agent_id session_id tool
            (body (check_pre M W m agent_id session_id tool w).1).1
  unfolding enforce
  enforce-passed body w h g = rw (h, g, enforce) refl

  enforce-raised :
      (body : Exec W None) (w : W) (e : Exception)
      → (check_pre M W m agent_id session_id tool w).0 ≡ ok tt
      → (body (check_pre M W m agent_id session_id tool w).1).0 ≡ err e
      → (enforce M W m agent_id session_id tool body w).0 ≡ err e
  unfolding enforce
  enforce-raised body w e h g = rw (h, g, enforce) refl

  enforce-blocked :
      (body : Exec W None) (w : W) (e : Exception)
      → (check_pre M W m agent_id session_id tool w).0 ≡ err e
      → enforce M W m agent_id session_id tool body w
        ≡ (err e, (check_pre M W m agent_id session_id tool w).1)
  unfolding enforce
  enforce-blocked body w e h = rw (h, enforce) refl

  -- The tool does not run where its contract is not met: if a pre-condition does not hold, `enforce`
  -- raises what `check_pre` raises, and leaves what `check_pre` leaves, whatever the tool would do.
  pub blocked_tool_is_not_run :
      (body : Exec W None) (w : W)
      → (PreHold w → ⊥)
      → (e : Exception) × (enforce M W m agent_id session_id tool body w
          ≡ (err e, (check_pre M W m agent_id session_id tool w).1))
  blocked_tool_is_not_run body w barred =
      elim (Result-cases (check_pre M W m agent_id session_id tool w).0) [
        | inl (_, h) ↦ elim (barred ((check_pre_iff w).0 h)) [ ]
        | inr (e, h) ↦ (e, enforce-blocked body w e h)
      ]

  -- A guarded tool call succeeds exactly when the pre-conditions hold in their order, the tool returns,
  -- and the post-conditions hold in the state that the tool left; each kind of condition counts as
  -- met where no contract is registered.
  pub enforce_iff :
      (body : Exec W None) (w : W)
      → ((enforce M W m agent_id session_id tool body w).0 ≡ ok tt) ↔ (
          PreHold w
          × ((body (check_pre M W m agent_id session_id tool w).1).0 ≡ ok tt)
          × PostHold (body (check_pre M W m agent_id session_id tool w).1).1)
  enforce_iff body w =
      let passed = (check_pre M W m agent_id session_id tool w).1 in
      elim (Result-cases (check_pre M W m agent_id session_id tool w).0) [
        | inr (e, h) ↦ (
          λ g. elim (ok-err tt e g (ap (λ r. r.0) (enforce-blocked body w e h))) [ ],
          λ (pre, _, _). elim (ok-err tt e ((check_pre_iff w).1 pre) h) [ ],
        )
        | inl (_, h) ↦ elim (Result-cases (body passed).0) [
          | inr (e, b) ↦ (
            λ g. elim (ok-err tt e g (enforce-raised body w e h b)) [ ],
            λ (_, g, _). elim (ok-err tt e g b) [ ],
          )
          | inl (_, b) ↦ (
            λ g. (
              (check_pre_iff w).0 h,
              b,
              (check_post_iff (body passed).1).0
                  (sym (ap (λ r. r.0) (enforce-passed body w h b)) ∙ g),
            ),
            λ (_, _, post).
                ap (λ r. r.0) (enforce-passed body w h b) ∙ (check_post_iff (body passed).1).1 post,
          )
        ]
      ]
