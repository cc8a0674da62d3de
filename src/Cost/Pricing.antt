-- ===== src/Cost/Pricing.antt =====
-- cost/pricing.py: the price table and the estimate. Prices are in thousandths of a dollar.
pub mod Lookup
use agentic_governance.Prelude.{
  ℕ, ◌+◌, ◌*◌, String, Bool, true, false, Option, none, some, List, [], ◌∷◌, map, string_eq, leb,
  default, if◌then◌else◌,
}
use agentic_governance.Prelude.Dict.{Dict, get}
use agentic_governance.Errors.{Result, ok, err, unknown_model}
use agentic_governance.Cost.Numbers.{Floats}
use Prim.Native.String.{count}
use text.Mathlib.Text.{starts_with}

-- {"input": ..., "output": ...}
pub record Price : Type 0 where
  pub input : ℕ
  pub output : ℕ

abbrev price : ℕ → ℕ → Price
price input output = record { input = input; output = output }

abbrev pub model_pricing : Dict String Price
model_pricing =
    ("gpt-4o", price 2500 10000)
    ∷ ("gpt-4o-mini", price 150 600)
    ∷ ("gpt-4-turbo", price 10000 30000)
    ∷ ("gpt-4", price 30000 60000)
    ∷ ("gpt-3.5-turbo", price 500 1500)
    ∷ ("o1", price 15000 60000)
    ∷ ("o1-mini", price 3000 12000)
    ∷ ("o3-mini", price 1100 4400)
    ∷ ("claude-opus-4-7", price 15000 75000)
    ∷ ("claude-opus-4-6", price 15000 75000)
    ∷ ("claude-sonnet-4-6", price 3000 15000)
    ∷ ("claude-haiku-4-5", price 800 4000)
    ∷ ("claude-3-opus", price 15000 75000)
    ∷ ("claude-3-sonnet", price 3000 15000)
    ∷ ("claude-3-haiku", price 250 1250)
    ∷ ("claude-3.5-sonnet", price 3000 15000)
    ∷ ("claude-3.5-haiku", price 800 4000)
    ∷ ("gemini-1.5-pro", price 3500 10500)
    ∷ ("gemini-1.5-flash", price 75 300)
    ∷ ("gemini-2.0-flash", price 100 400)
    ∷ ("llama-3.1-405b", price 3000 3000)
    ∷ ("llama-3.1-70b", price 800 800)
    ∷ ("llama-3.1-8b", price 100 100)
    ∷ ("mistral-large", price 2000 6000)
    ∷ ("mistral-medium", price 2700 8100)
    ∷ ("mistral-small", price 200 600)
    ∷ []

-- sorted(keys, key=len, reverse=True), which keeps the order of keys of one length
unfoldable pub insert_longest : String → List String → List String
insert_longest k [] = k ∷ []
insert_longest k (l ∷ ls) =
    let rest = insert_longest k ls in if leb (count l) (count k) then k ∷ l ∷ ls else l ∷ rest

unfoldable pub sort_longest : List String → List String
unfolding insert_longest
sort_longest [] = []
sort_longest (k ∷ ks) = insert_longest k (sort_longest ks)

-- The loop over the prefixes.
unfoldable pub match_prefix : Dict String Price → (model : String) → List String → Option Price
match_prefix table model [] = none
match_prefix table model (k ∷ ks) =
    let rest = match_prefix table model ks in if starts_with model k then get table k else rest

abbrev pub keys : Dict String Price → List String
keys = map (λ (k, p). k)

unfoldable pub resolve_pricing : Dict String Price → (model : String) → Option Price
unfolding match_prefix sort_longest insert_longest
resolve_pricing table model = elim (get table model) [
  | some p ↦ some p
  | none ↦ match_prefix table model (sort_longest (keys table))
]

unfoldable pub estimate_cost :
    (fl : Floats)
    → (model : String) → (input_tokens output_tokens : ℕ) → (strict : Bool)
    → (fallback_usd_per_million : Option fl.Float) → Result fl.Float
estimate_cost fl model input_tokens output_tokens strict fallback =
    let priced : Price → fl.Float = λ p.
      fl.div
        (fl.add (fl.mul (fl.of_nat input_tokens) (fl.mills p.input))
          (fl.mul (fl.of_nat output_tokens) (fl.mills p.output)))
        1000000 in
    let rate = default fallback fl.zero_usd in
    elim (resolve_pricing model_pricing model) [
      | some p ↦ ok (priced p)
      | none ↦
          if strict
          then err (unknown_model model)
          else ok (fl.div (fl.mul (fl.of_nat (input_tokens + output_tokens)) rate) 1000000)
    ]
