-- ===== src/Audit/Rotation/Owners.antt =====
-- Who owns a sequence number that no row has yet.
use agentic_governance.Prelude.{
  ℕ, ◌≤◌, ◌≡◌, ◌⊎◌, refl, sym, ap, ◌∙◌, subst, String, true, Option, none, some, List, [], ◌∷◌,
  ◌++◌, All, arith, map, Option-cases, inl, inr,
}
use agentic_governance.Audit.Keys.{KeyVersion, is_active_at, is_open_at}
use agentic_governance.Audit.Keys.Active.{Some, IsActive, Agrees, Owns}

abbrev pub ClosedBy : (chain_seq : ℕ) → Option ℕ → Type 0
ClosedBy chain_seq none = Unit
ClosedBy chain_seq (some retired) = retired ≤ chain_seq

-- Activated at the number at the latest, and retired, if so, by then.
abbrev pub IsPast : (chain_seq : ℕ) → KeyVersion → Type 0
IsPast chain_seq v =
    (v.activated_at_chain_seq ≤ chain_seq) × ClosedBy chain_seq v.retired_at_chain_seq

-- An unretired version is this one.
abbrev pub IsCurrent : (version : ℕ) → String → KeyVersion → Type 0
IsCurrent version fp v =
    (v.retired_at_chain_seq ≡ none) × (v.key_version ≡ version) × (v.fingerprint ≡ fp)

abbrev pub CurrentIf : (version : ℕ) → String → KeyVersion → Type 0
CurrentIf version fp v = v.retired_at_chain_seq ≡ none → IsCurrent version fp v

pub All-with :
    (P Q R : KeyVersion → Type 0) (f : KeyVersion → KeyVersion) (vs : List KeyVersion)
    → ((v : KeyVersion) → P v → Q v → R (f v))
    → All P vs
    → All Q vs
    → All R (map f vs)
All-with P Q R f [] g h k = tt
All-with P Q R f (v ∷ vs) g (h, hs) (k, ks) = (g v h k, All-with P Q R f vs g hs ks)

pub Some-with :
    (P Q R : KeyVersion → Type 0) (f : KeyVersion → KeyVersion) (vs : List KeyVersion)
    → ((v : KeyVersion) → P v → Q v → R (f v))
    → All P vs
    → Some Q vs
    → Some R (map f vs)
Some-with P Q R f [] g h k = elim k [ ]
Some-with P Q R f (v ∷ vs) g (h, hs) (inl k) = inl (g v h k)
Some-with P Q R f (v ∷ vs) g (h, hs) (inr k) = inr (Some-with P Q R f vs g hs k)

pub Some-append :
    (P : KeyVersion → Type 0) (vs ws : List KeyVersion) → Some P vs ⊎ Some P ws → Some P (vs ++ ws)
Some-append P [] ws (inl h) = elim h [ ]
Some-append P [] ws (inr h) = h
Some-append P (v ∷ vs) ws (inl (inl h)) = inl h
Some-append P (v ∷ vs) ws (inl (inr h)) = inr (Some-append P vs ws (inl h))
Some-append P (v ∷ vs) ws (inr h) = inr (Some-append P vs ws (inr h))

map_same : (vs : List KeyVersion) → map (λ v. v) vs ≡ vs
map_same [] = refl
map_same (v ∷ vs) = ap (λ ws. v ∷ ws) (map_same vs)

open_cases : (o : Option ℕ) → (o ≡ none) ⊎ ((r : ℕ) × (o ≡ some r))
open_cases = Option-cases

still_closed : (q r : ℕ) → r ≤ q → is_open_at q (some r) ≡ true → ⊥
still_closed q r h g = ground arith

past-Agrees :
    (q version : ℕ) (fp : String) (v : KeyVersion)
    → IsPast q v
    → CurrentIf version fp v
    → Agrees q fp v
past-Agrees q version fp v h g a = elim (open_cases v.retired_at_chain_seq) [
  | inl e ↦ (g e).2
  | inr (r, e) ↦
      let closed : r ≤ q = subst (ClosedBy q) e h.1 in
      elim (still_closed q r closed (sym (ap (is_open_at q) e) ∙ opened a)) [ ]
]
  where
    opened : is_active_at q v ≡ true → is_open_at q v.retired_at_chain_seq ≡ true
    opened a = ground (arith, a)

current-IsActive :
    (q version : ℕ) (fp : String) (v : KeyVersion)
    → IsPast q v
    → IsCurrent version fp v
    → IsActive q fp v
current-IsActive q version fp v (a, h) (none_yet, same, e) = (rw none_yet (ground (arith, a)), e)

-- The current key owns every number after the rows.
pub current-Owns :
    (q version : ℕ) (fp : String) (vs : List KeyVersion)
    → All (IsPast q) vs
    → Some (IsCurrent version fp) vs
    → All (CurrentIf version fp) vs
    → Owns q fp vs
current-Owns q version fp vs past one all = (
  subst (Some (IsActive q fp)) (map_same vs) (
      Some-with (IsPast q) (IsCurrent version fp) (IsActive q fp) (λ v. v) vs
        (current-IsActive q version fp) past one),
  subst (All (Agrees q fp)) (map_same vs) (
      All-with (IsPast q) (CurrentIf version fp) (Agrees q fp) (λ v. v) vs
        (past-Agrees q version fp) past all),
)
