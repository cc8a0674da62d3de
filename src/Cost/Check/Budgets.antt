-- ===== src/Cost/Check/Budgets.antt =====
-- What a budget admits, read off the answers of the store.
use agentic_governance.Prelude.{
  ℕ, ◌+◌, ◌-◌, ◌/◌, ◌≤◌, ◌≡◌, ◌↔◌, true, String, Option, none, some, arith, string_eq, Option-cases,
  inl, inr, map_some,
}
use agentic_governance.Errors.{Result, ok, err, ◌>>=◌}
use agentic_governance.Audit.Crypto.{Crypto}
use agentic_governance.Presence.{Json}
use agentic_governance.Cost.{Context}
use agentic_governance.Cost.Check.{read_usage, read_elapsed}
use agentic_governance.Cost.Check.Admits.{WithinCaps, InTime, UsageAdmits, BudgetAdmits}
use agentic_governance.Cost.Numbers.{Floats}
use agentic_governance.Cost.Policy.{BudgetPolicy}

-- The tokens of the call that is about to be made.
abbrev pub with_tokens : ℕ → (projected_tokens : Option ℕ) → ℕ
with_tokens used none = used
with_tokens used (some more) = used + more

-- A session's time by its start; a store that cannot say when it started lets the call pass.
abbrev pub StartedInTime : (limit read_at : ℕ) → Result (Option ℕ) → Type 0
StartedInTime limit read_at (err e) = Unit
StartedInTime limit read_at (ok none) = Unit
StartedInTime limit read_at (ok (some started)) = (read_at - started) / 1000000 ≤ limit

module _ (c : Crypto) (j : Json) (fl : Floats) (S : Type 0) (x : Context c j fl S) where
  abbrev pub TimeAdmits : (agent_id : String) (session_id : ℕ) (limit : Option ℕ) → S → Type 0
  TimeAdmits agent_id session_id none s = Unit
  TimeAdmits agent_id session_id (some limit) s = elim x.ops.get_session_elapsed_seconds [
    | some elapsed ↦ InTime (some limit) (elapsed x.read_at agent_id session_id s)
    | none ↦ StartedInTime limit x.read_at (x.ops.get_session_start_time agent_id session_id s)
  ]

  -- The usage of the session and of the agent's day, each with the tokens of the call, is within the
  -- caps of the session and of the day, and the session is in time.
  abbrev pub CapsAdmit :
      (agent_id : String) (session_id : ℕ) (projected_tokens : Option ℕ)
      → BudgetPolicy fl
      → S
      → (session daily : fl.Float × ℕ) → Type 0
  CapsAdmit agent_id session_id projected_tokens p s (session_usd, session_tokens)
        (daily_usd, daily_tokens) =
      WithinCaps fl p (session_usd, with_tokens session_tokens projected_tokens)
        (daily_usd, with_tokens daily_tokens projected_tokens)
      × TimeAdmits agent_id session_id p.session_seconds_cap s

  -- By the answers of the two queries: one that fails admits the call where the module fails open.
  abbrev pub QueriesAdmit :
      (agent_id : String) (session_id : ℕ) (projected_tokens : Option ℕ)
      → BudgetPolicy fl
      → S
      → (session daily : Result (fl.Float × ℕ)) → Type 0
  QueriesAdmit agent_id session_id projected_tokens p s (err e) daily = x.fail_open ≡ true
  QueriesAdmit agent_id session_id projected_tokens p s (ok session) (err e) = x.fail_open ≡ true
  QueriesAdmit agent_id session_id projected_tokens p s (ok session) (ok daily) =
      CapsAdmit agent_id session_id projected_tokens p s session daily

  -- By the answer of the one query that returns both.
  abbrev pub AnswerAdmits :
      (agent_id : String) (session_id : ℕ) (projected_tokens : Option ℕ)
      → BudgetPolicy fl
      → S
      → Result ((fl.Float × ℕ) × (fl.Float × ℕ))
      → Type 0
  AnswerAdmits agent_id session_id projected_tokens p s (err e) = x.fail_open ≡ true
  AnswerAdmits agent_id session_id projected_tokens p s (ok (session, daily)) =
      CapsAdmit agent_id session_id projected_tokens p s session daily

  -- The budget of the agent admits the call; an agent without a policy has no caps.
  abbrev pub Affordable :
      (agent_id : String) (session_id : ℕ) (projected_tokens : Option ℕ)
      → Option (BudgetPolicy fl)
      → S
      → Type 0
  Affordable agent_id session_id projected_tokens none s = Unit
  Affordable agent_id session_id projected_tokens (some p) s =
      elim x.ops.get_session_and_daily_usage [
        | some combined ↦
            AnswerAdmits agent_id session_id projected_tokens p s
              (combined x.now agent_id session_id s)
        | none ↦
            QueriesAdmit agent_id session_id projected_tokens p s
              (x.ops.get_session_usage agent_id session_id s)
              (x.ops.get_agent_daily_usage x.now agent_id s)
      ]

  started_iff :
      (limit read_at : ℕ) (r : Result (Option ℕ))
      → InTime (some limit) (r >>= λ started. ok (map_some (λ t. (read_at - t) / 1000000) started))
        ↔ StartedInTime limit read_at r
  started_iff limit read_at (err e) = (λ t. t, λ t. t)
  started_iff limit read_at (ok none) = (λ t. t, λ t. t)
  started_iff limit read_at (ok (some t)) = (λ t. t, λ t. t)

  time_iff :
      (limit : Option ℕ) (agent_id : String) (session_id : ℕ) (s : S)
      → InTime limit (read_elapsed c j fl S x agent_id session_id s)
        ↔ TimeAdmits agent_id session_id limit s
  unfolding read_elapsed
  time_iff none agent_id session_id s = (λ t. t, λ t. t)
  time_iff (some limit) agent_id session_id s =
      let start = x.ops.get_session_start_time agent_id session_id s in
      elim x.ops.get_session_elapsed_seconds
        as (λ o.
          InTime (some limit) (elim o [
            | some elapsed ↦ elapsed x.read_at agent_id session_id s
            | none ↦ start >>= λ started. ok (map_some (λ t. (x.read_at - t) / 1000000) started)
          ])
          ↔ elim o [
            | some elapsed ↦ InTime (some limit) (elapsed x.read_at agent_id session_id s)
            | none ↦ StartedInTime limit x.read_at start
          ]) [ none ↦ started_iff limit x.read_at start | some elapsed ↦ (λ t. t, λ t. t) ]

  caps_iff :
      (agent_id : String) (session_id : ℕ) (projected_tokens : Option ℕ) (p : BudgetPolicy fl)
      (s : S) (session daily : fl.Float × ℕ)
      → UsageAdmits c j fl S x agent_id session_id projected_tokens p s (ok (session, daily))
        ↔ CapsAdmit agent_id session_id projected_tokens p s session daily
  caps_iff agent_id session_id none p s (su, st) (du, dt) =
      let time = time_iff p.session_seconds_cap agent_id session_id s in
      rw (more st, more dt) (λ (w, t). (w, time.0 t), λ (w, t). (w, time.1 t))
    where
      more : (n : ℕ) → n + 0 ≡ n
      more n = omega arith
  caps_iff agent_id session_id (some m) p s (su, st) (du, dt) =
      let time = time_iff p.session_seconds_cap agent_id session_id s in
      (λ (w, t). (w, time.0 t), λ (w, t). (w, time.1 t))

  queries_iff :
      (agent_id : String) (session_id : ℕ) (projected_tokens : Option ℕ) (p : BudgetPolicy fl)
      (s : S) (session daily : Result (fl.Float × ℕ))
      → UsageAdmits c j fl S x agent_id session_id projected_tokens p s
          (session >>= λ a. daily >>= λ b. ok (a, b))
        ↔ QueriesAdmit agent_id session_id projected_tokens p s session daily
  queries_iff agent_id session_id projected_tokens p s (err e) daily = (λ h. h, λ h. h)
  queries_iff agent_id session_id projected_tokens p s (ok session) (err e) = (λ h. h, λ h. h)
  queries_iff agent_id session_id projected_tokens p s (ok session) (ok daily) =
      caps_iff agent_id session_id projected_tokens p s session daily

  answer_iff :
      (agent_id : String) (session_id : ℕ) (projected_tokens : Option ℕ) (p : BudgetPolicy fl)
      (s : S) (answer : Result ((fl.Float × ℕ) × (fl.Float × ℕ)))
      → UsageAdmits c j fl S x agent_id session_id projected_tokens p s answer
        ↔ AnswerAdmits agent_id session_id projected_tokens p s answer
  answer_iff agent_id session_id projected_tokens p s (err e) = (λ h. h, λ h. h)
  answer_iff agent_id session_id projected_tokens p s (ok (session, daily)) =
      caps_iff agent_id session_id projected_tokens p s session daily

  pub budget_iff :
      (agent_id : String) (session_id : ℕ) (projected_tokens : Option ℕ)
      (policy : Option (BudgetPolicy fl)) (s : S)
      → BudgetAdmits c j fl S x agent_id session_id projected_tokens policy s
        ↔ Affordable agent_id session_id projected_tokens policy s
  unfolding read_usage read_elapsed
  budget_iff agent_id session_id projected_tokens none s = (λ h. h, λ h. h)
  budget_iff agent_id session_id projected_tokens (some p) s =
      elim (Option-cases x.ops.get_session_and_daily_usage) [
        | inl e ↦
            rw (e, read_usage)
              (queries_iff agent_id session_id projected_tokens p s
                (x.ops.get_session_usage agent_id session_id s)
                (x.ops.get_agent_daily_usage x.now agent_id s))
        | inr (combined, e) ↦
            rw (e, read_usage)
              (answer_iff agent_id session_id projected_tokens p s
                (combined x.now agent_id session_id s))
      ]
