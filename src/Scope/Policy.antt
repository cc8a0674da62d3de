-- ===== src/Scope/Policy.antt =====
-- scope/models.py: `ScopePolicy` and what `model_post_init` checks. A frozenset is a list.
use agentic_governance.Prelude.{
  ℕ, String, Bool, List, length, every, ltb, nat_beq, if◌then◌else◌, ◌&&◌, ◌||◌, not,
}
use agentic_governance.Errors.{None, Result, ok, err, value_error}
use Prim.Native.String.{count}

pub record ScopePolicy : Type 0 where
  pub agent_id : String
  pub allowed_tools : List String
  pub allowed_apis : List String
  pub hidden_tools : List String
  pub allowed_models : List String

-- 1 to `max` characters
abbrev pub fits : (max : ℕ) → String → Bool
fits max s = not (nat_beq (count s) 0) && not (ltb max (count s))

unfoldable pub model_post_init : ScopePolicy → Result None
model_post_init p =
    if ltb 1024 (length p.allowed_tools)
      || ltb 1024 (length p.allowed_apis)
      || ltb 1024 (length p.hidden_tools)
      || not (every (fits 256) p.allowed_tools)
      || not (every (fits 512) p.allowed_apis)
      || not (every (fits 256) p.hidden_tools)
      || not (every (fits 128) p.allowed_models)
    then err value_error
    else ok tt
