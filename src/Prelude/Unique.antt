-- ===== src/Prelude/Unique.antt =====
-- A `dict` has one entry for a key, and its operations keep it so.
use Prim.Native.Nat.{◌+◌, ◌≤◌}
use mathlib.Core.Path.{◌≡◌, refl, ◌∙◌}
use mathlib.Core.Bool.{false}
use mathlib.Core.List.{List, [], ◌∷◌}
use mathlib.Core.Option.{none}
use agentic_governance.Prelude.Lists.{length}
use mathlib.Core.Logic.{inl, inr}
use native.Mathlib.Omega.{arith}
use agentic_governance.Prelude.Tests.{Bool-cases}
use agentic_governance.Prelude.Equality.{Eq, ◌==◌, contains}
use agentic_governance.Prelude.Dict.{Dict, get, put, remove, get-put, get-remove}

module _ {ℓ κ} {K : Type ℓ} {V : Type κ} ⦃e : Eq K⦄ where
  abbrev pub IsUnique : Dict K V → Type κ
  IsUnique [] = Unit
  IsUnique ((k, v) ∷ d) = (get d k ≡ none) × IsUnique d

  pub put-IsUnique : (d : Dict K V) (k : K) (v : V) → IsUnique d → IsUnique (put d k v)
  unfolding get put
  put-IsUnique [] k v h = (refl, tt)
  put-IsUnique ((j, w) ∷ d) k v (absent, h) = elim (Bool-cases (j == k)) [
    | inl same ↦ rw same (absent, h)
    | inr other ↦
        rw other
          (ground (arith, get-put d k j v, e.beq_iff j k, e.beq_iff k j), put-IsUnique d k v h)
  ]

  pub remove-IsUnique : (d : Dict K V) (k : K) → IsUnique d → IsUnique (remove d k)
  unfolding get remove
  remove-IsUnique [] k h = tt
  remove-IsUnique ((j, w) ∷ d) k (absent, h) = elim (Bool-cases (j == k)) [
    | inl same ↦ rw same (remove-IsUnique d k h)
    | inr other ↦ rw other (ground (arith, get-remove d k j, absent), remove-IsUnique d k h)
  ]

  -- Every key of the dict is in the list.
  abbrev pub HasKeysIn : Dict K V → List K → Type (ℓ ⊔ κ)
  HasKeysIn d ks = (k : K) → contains k ks ≡ false → get d k ≡ none

  remove_absent : (d : Dict K V) (k : K) → get d k ≡ none → remove d k ≡ d
  unfolding get remove
  remove_absent [] k h = refl
  remove_absent ((j, w) ∷ d) k h = ground (arith, remove_absent d k)

  length-remove : (d : Dict K V) (k : K) → IsUnique d → length d ≤ length (remove d k) + 1
  unfolding get remove
  length-remove [] k h = ground arith
  length-remove ((j, w) ∷ d) k (absent, h) =
      ground (arith, length-remove d k h, remove_absent d k, e.beq_iff j k)

  pub remove-HasKeysIn :
      (d : Dict K V) (k : K) (ks : List K) → HasKeysIn d (k ∷ ks) → HasKeysIn (remove d k) ks
  remove-HasKeysIn d k ks h i out = get-remove d k i ∙ elim (Bool-cases (k == i)) [
    | inl same ↦ rw same refl
    | inr other ↦ rw other (h i (rw other out))
  ]

  -- A dict with its keys in a list is not longer than the list.
  pub length-HasKeysIn :
      (d : Dict K V) (ks : List K) → IsUnique d → HasKeysIn d ks → length d ≤ length ks
  unfolding get
  length-HasKeysIn [] [] u h = ground arith
  length-HasKeysIn ((j, w) ∷ d) [] u h = elim (clash (h j refl)) [ ]
    where
      clash : get ((j, w) ∷ d) j ≡ none → ⊥
      clash g = ground (arith, e.beq_iff j j)
  length-HasKeysIn d (k ∷ ks) u h =
      let rest =
        length-HasKeysIn (remove d k) ks (remove-IsUnique d k u) (remove-HasKeysIn d k ks h) in
      omega (arith, rest, length-remove d k u)
