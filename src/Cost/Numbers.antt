-- ===== src/Cost/Numbers.antt =====
-- Python's `int` with its sign, and its `float`, as far as the cost modules use it, and the IEEE 754 facts that they rely on.
use agentic_governance.Prelude.{ℕ, ◌-◌, ◌≡◌, Bool, true, false, leb, if◌then◌else◌}

-- Python's `int`, where it may be negative: `negsuc n` is -(n + 1).
pub data ℤ : Type 0 where
  pos negsuc : ℕ → ℤ

-- m - n
infixl 20 ◌-ℕ◌
abbrev pub ◌-ℕ◌ : ℕ → ℕ → ℤ
m -ℕ n = if leb n m then pos (m - n) else negsuc (n - m - 1)

abbrev pub is_negative : ℤ → Bool
is_negative (pos n) = false
is_negative (negsuc n) = true

-- max(0, n)
abbrev pub clamp : ℤ → ℕ
clamp (pos n) = n
clamp (negsuc n) = 0

pub record Floats : Type 1 where
  pub Float : Type 0
  -- 0.0
  pub zero_usd : Float
  -- x + y, x - y and x * y
  pub add : Float → Float → Float
  pub sub : Float → Float → Float
  pub mul : Float → Float → Float
  -- x < y and x <= y
  pub lt : Float → Float → Bool
  pub le : Float → Float → Bool
  -- x == y
  pub eq : Float → Float → Bool
  -- float(n), and x / n for a positive integer n; float(n) raises from about 2 ** 1024 on, which is
  -- not modelled
  pub of_nat : ℕ → Float
  pub div : Float → ℕ → Float
  -- the literal n / 1000
  pub mills : ℕ → Float

module _ (fl : Floats) where
  -- max(0.0, x)
  abbrev pub max_zero : fl.Float → fl.Float
  max_zero x = if fl.lt fl.zero_usd x then x else fl.zero_usd

  -- NaN: it absorbs every sum, and no comparison with it holds.
  pub record IsNan (nan : fl.Float) : Type 0 where
    pub add_nan : (x : fl.Float) → fl.add x nan ≡ nan
    pub nan_add : (x : fl.Float) → fl.add nan x ≡ nan
    pub nan_lt : (x : fl.Float) → fl.lt nan x ≡ false
    pub lt_nan : (x : fl.Float) → fl.lt x nan ≡ false

  -- The comparison is strict, also with NaN.
  pub record IsStrict : Type 0 where
    pub lt_irrefl : (x : fl.Float) → fl.lt x x ≡ false
    pub lt_asym : (x y : fl.Float) → fl.lt x y ≡ true → fl.lt y x ≡ false
