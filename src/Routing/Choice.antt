-- ===== src/Routing/Choice.antt =====
-- Which model `suggest` returns.
use agentic_governance.Prelude.{
  ℕ, ◌+◌, ◌≡◌, refl, sym, ap, ◌∙◌, String, Bool, true, false, Option, none, some, List, [], ◌∷◌,
  contains, default, string_eq, ◌==◌, if◌then◌else◌, keep, head?, All, All-append, Bool-cases,
  Option-cases, arith, inl, inr, beq_refl,
}
use agentic_governance.Prelude.Dict.{get}
use agentic_governance.Errors.{ok}
use agentic_governance.Audit.Crypto.{Crypto}
use agentic_governance.Presence.{Json}
use agentic_governance.Cost.Numbers.{Floats}
use agentic_governance.Cost.Policy.{BudgetSnapshot}
use agentic_governance.Cost.Pricing.{estimate_cost, resolve_pricing, model_pricing}
use agentic_governance.Routing.{Routing, Outside}
use agentic_governance.Routing.Models.{RoutingPolicy, Strategy}
use agentic_governance.Routing.Suggest.{
  constrain, other_tier, first_allowed, route_down, candidates, allowed_models_of, stay, select,
}

-- No set of allowed models, or one with the model.
abbrev pub is_allowed : (allowed_models : List String) → String → Bool
is_allowed [] m = true
is_allowed (a ∷ as_) m = contains m (a ∷ as_)

-- The first allowed candidate, or else the requested model.
abbrev pub pick : (allowed_models : List String) → (requested : String) → List String → String
pick allowed requested ms = default (head? (keep (is_allowed allowed) ms)) requested

module _ (fl : Floats) where
  abbrev pub target_of :
      (allowed_models : List String) → (requested : String) → Option String → String
  target_of allowed requested none = requested
  target_of allowed requested (some target) =
      if is_allowed allowed target then target else requested

  abbrev pub tier_of :
      (allowed_models : List String)
      → RoutingPolicy fl
      → (requested : String) → (down : Option String) → String
  tier_of allowed p requested none = requested
  tier_of allowed p requested (some reason) = pick allowed requested (candidates fl p requested)

  abbrev pub chosen_by :
      Strategy
      → (allowed_models : List String) → RoutingPolicy fl
      → BudgetSnapshot fl
      → (requested : String) → String
  chosen_by Strategy.rules allowed p b requested =
      target_of allowed requested (get p.model_rules requested)
  chosen_by Strategy.cost_aware allowed p b requested =
      tier_of allowed p requested (route_down fl p b requested)

  -- What the policy of an agent chooses, with the models that its scope allows and its budget.
  abbrev pub chosen :
      Option (RoutingPolicy fl)
      → (allowed_models : List String) → BudgetSnapshot fl
      → (requested : String) → String
  chosen none allowed b requested = requested
  chosen (some p) allowed b requested = chosen_by p.strategy allowed p b requested

pub constrain_lem :
    (allowed : List String) (proposed fallback : String)
    → constrain allowed proposed fallback
      ≡ (if is_allowed allowed proposed then proposed else fallback)
unfolding constrain
constrain_lem [] proposed fallback = refl
constrain_lem (m ∷ ms) proposed fallback = ground arith

-- The requested model is never refused.
pub constrain_same : (allowed : List String) (m : String) → constrain allowed m m ≡ m
constrain_same allowed m = constrain_lem allowed m m ∙ same (is_allowed allowed m)
  where
    same : (b : Bool) → (if b then m else m) ≡ m
    same true = refl
    same false = refl

abbrev IsOther : (requested : String) → String → Type 0
IsOther requested m = (m == requested) ≡ false

other_tier-IsOther :
    (tier : Option String) (requested : String)
    → All (IsOther requested) (other_tier tier requested)
other_tier-IsOther none requested = tt
other_tier-IsOther (some m) requested = elim (Bool-cases (m == requested)) [
  | inl e ↦ rw e tt
  | inr e ↦ rw e (e, tt)
]

flip : (m requested : String) → (m == requested) ≡ false → (requested == m) ≡ false
flip m requested h = ground (arith, string_eq.beq_iff m requested, string_eq.beq_iff requested m, h)

passes :
    (allowed : List String) (requested m : String)
    → IsOther requested m
    → (constrain allowed m requested == m) ≡ is_allowed allowed m
passes allowed requested m h =
    ap (λ s. s == m) (constrain_lem allowed m requested) ∙ decided (is_allowed allowed m)
  where
    decided : (b : Bool) → ((if b then m else requested) == m) ≡ b
    decided true = beq_refl m
    decided false = flip m requested h

pub first_allowed_lem :
    (allowed : List String) (requested : String) (ms : List String)
    → All (IsOther requested) ms
    → first_allowed allowed requested ms ≡ pick allowed requested ms
unfolding first_allowed
first_allowed_lem allowed requested [] h = refl
first_allowed_lem allowed requested (m ∷ ms) (h, hs) =
    rw (passes allowed requested m h) (elim (Bool-cases (is_allowed allowed m)) [
      | inl e ↦ rw e refl
      | inr e ↦ rw e (first_allowed_lem allowed requested ms hs)
    ])

pub candidates-IsOther :
    (fl : Floats) (p : RoutingPolicy fl) (requested : String)
    → All (IsOther requested) (candidates fl p requested)
candidates-IsOther fl p requested =
    All-append (IsOther requested) (other_tier p.mid_model requested)
      (other_tier p.cheap_model requested) (other_tier-IsOther p.mid_model requested)
      (other_tier-IsOther p.cheap_model requested)

-- The estimate has a value for every model.
pub estimated :
    (fl : Floats) (model : String) (input_tokens output_tokens : ℕ)
    → (usd : fl.Float) × (estimate_cost fl model input_tokens output_tokens false none ≡ ok usd)
unfolding estimate_cost
estimated fl model input_tokens output_tokens =
    elim (Option-cases (resolve_pricing model_pricing model)) [
      | inl e ↦ (
        fl.div (fl.mul (fl.of_nat (input_tokens + output_tokens)) fl.zero_usd) 1000000,
        rw (e, estimate_cost) refl,
      )
      | inr (p, e) ↦ (
        fl.div
            (fl.add (fl.mul (fl.of_nat input_tokens) (fl.mills p.input))
              (fl.mul (fl.of_nat output_tokens) (fl.mills p.output)))
            1000000,
        rw (e, estimate_cost) refl,
      )
    ]

module _ (c : Crypto) (j : Json) (fl : Floats) (S : Type 0) (x : Outside c j fl S)
    (agent_id : String) (session_id : ℕ) (requested : String) (max_tokens : ℕ) where
  pub select_lem :
      (s : Routing c j fl S) (p : RoutingPolicy fl) (reason : String)
      → (select c j fl S x agent_id session_id requested max_tokens s p reason).0
        ≡ pick (allowed_models_of c j fl S s.scope agent_id) requested (candidates fl p requested)
  select_lem s p reason =
      let allowed = allowed_models_of c j fl S s.scope agent_id in
      let ms = candidates fl p requested in
      elim (Bool-cases (first_allowed allowed requested ms == requested)) [
        | inl e ↦
            rw e (
              constrain_same allowed requested
              ∙ sym ((string_eq.beq_iff (first_allowed allowed requested ms) requested).0 e))
            ∙ first_allowed_lem allowed requested ms (candidates-IsOther fl p requested)
        | inr e ↦ rw e (first_allowed_lem allowed requested ms (candidates-IsOther fl p requested))
      ]

  pub stay_lem :
      (b : BudgetSnapshot fl) (cost : fl.Float) (s : Routing c j fl S)
      → stay c j fl S x agent_id session_id requested max_tokens b cost s ≡ (ok requested, s)
  stay_lem b cost s =
      rw
        (constrain_same (allowed_models_of c j fl S s.scope agent_id) requested, beq_refl requested)
        refl
