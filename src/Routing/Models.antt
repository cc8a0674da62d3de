-- ===== src/Routing/Models.antt =====
-- routing/models.py: `RoutingPolicy` and what `model_post_init` checks. The bounds of pydantic on the
-- single fields (lengths of names, thresholds that are not negative) are not repeated.
use agentic_governance.Prelude.{
  String, Bool, false, Option, none, some, List, [], ◌∷◌, length, contains, every, string_eq,
  nat_beq, if◌then◌else◌, ◌&&◌, ◌||◌, not,
}
use agentic_governance.Prelude.Dict.{Dict}
use agentic_governance.Errors.{None, Result, ok, err, value_error, ◌>>◌}
use agentic_governance.Cost.Numbers.{Floats}
use agentic_governance.Scope.Policy.{fits}
use Prim.Native.String.{count}

pub data Strategy : Type 0 where
  cost_aware rules : Strategy

pub record RoutingPolicy (fl : Floats) : Type 0 where
  pub agent_id : String
  pub strategy : Strategy
  pub cheap_model : Option String
  pub mid_model : Option String
  pub expensive_model : Option String
  pub min_session_usd_for_expensive : Option fl.Float
  pub min_daily_usd_for_expensive : Option fl.Float
  pub model_rules : Dict String String

-- bool(m), for a name that may be None
abbrev pub is_truthy : Option String → Bool
is_truthy none = false
is_truthy (some m) = not (nat_beq (count m) 0)

-- [m for m in [...] if m is not None]
abbrev pub named : List (Option String) → List String
named [] = []
named (none ∷ ms) = named ms
named (some m ∷ ms) = m ∷ named ms

-- set(tiers), as a list
abbrev pub set_of : List String → List String
set_of [] = []
set_of (m ∷ ms) = if contains m ms then set_of ms else m ∷ set_of ms

module _ (fl : Floats) where
  abbrev pub tiers : RoutingPolicy fl → List String
  tiers p = named (p.cheap_model ∷ p.mid_model ∷ p.expensive_model ∷ [])

  abbrev pub check_tiers : RoutingPolicy fl → Result None
  check_tiers p =
      let repeated = not (nat_beq (length (tiers p)) (length (set_of (tiers p)))) in
      if not (is_truthy p.cheap_model || is_truthy p.mid_model || is_truthy p.expensive_model)
        || repeated
      then err value_error
      else ok tt

  abbrev pub check_strategy : (strategy : Strategy) → RoutingPolicy fl → Result None
  check_strategy Strategy.cost_aware p = check_tiers p
  check_strategy Strategy.rules p = elim p.model_rules [ [] ↦ err value_error | _ ↦ ok tt ]

  unfoldable pub model_post_init : RoutingPolicy fl → Result None
  model_post_init p = do
    check_strategy p.strategy p
    if every (λ (k, v). fits 128 k && fits 128 v) p.model_rules then ok tt else err value_error
