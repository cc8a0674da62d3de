-- ===== src/Audit/Rotation/Turn.antt =====
-- What a rotation does to the owners of the sequence numbers.
use agentic_governance.Prelude.{
  ℕ, ◌+◌, ◌≤◌, ◌≡◌, ◌⊎◌, refl, sym, ◌∙◌, subst, String, false, none, List, [], ◌∷◌, ◌++◌, All,
  All-append, arith, map, leb, Bool-cases, Option-cases, inl, inr, nat_beq, nat_beq_iff,
}
use agentic_governance.Audit.Keys.{KeyVersion, is_active_at}
use agentic_governance.Audit.Keys.Active.{Some, IsActive, Agrees, Owns}
use agentic_governance.Audit.Rotation.{retire}
use agentic_governance.Audit.Rotation.Owners.{
  IsPast, IsCurrent, CurrentIf, ClosedBy, All-with, Some-with, Some-append,
}

-- A key is retired at the number after the marker.
abbrev pub retired_after : (version m : ℕ) → KeyVersion → KeyVersion
retired_after version m = retire version (m + 1)

-- A retirement changes nothing at the numbers up to the marker.
retire-active :
    (q m version : ℕ) (v : KeyVersion)
    → q ≤ m
    → is_active_at q (retired_after version m v) ≡ is_active_at q v
retire-active q m version v h = elim (Option-cases v.retired_at_chain_seq) [
  | inl e ↦ elim (Bool-cases (nat_beq v.key_version version)) [
    | inl f ↦ rw (e, f) (ground arith)
    | inr f ↦ rw (e, f) (ground arith)
  ]
  | inr (r, e) ↦ elim (Bool-cases (nat_beq v.key_version version)) [
    | inl f ↦ rw (e, f) (ground arith)
    | inr f ↦ rw (e, f) (ground arith)
  ]
]

retire-fingerprint :
    (m version : ℕ) (v : KeyVersion) → (retired_after version m v).fingerprint ≡ v.fingerprint
retire-fingerprint m version v = ground arith

All-unit : (vs : List KeyVersion) → All (λ v. Unit {0}) vs
All-unit [] = tt
All-unit (v ∷ vs) = (tt, All-unit vs)

-- The versions after a rotation at the marker `m` that retires `version`.
abbrev pub after_turn :
    (version m : ℕ) → (incoming : KeyVersion) → List KeyVersion → List KeyVersion
after_turn version m incoming vs = map (retired_after version m) (vs ++ incoming ∷ [])

retire-IsActive :
    (q m version : ℕ) (fp : String) (v : KeyVersion)
    → q ≤ m
    → IsActive q fp v
    → IsActive q fp (retired_after version m v)
retire-IsActive q m version fp v h (a, e) =
    (retire-active q m version v h ∙ a, retire-fingerprint m version v ∙ e)

retire-Agrees :
    (q m version : ℕ) (fp : String) (v : KeyVersion)
    → q ≤ m
    → Agrees q fp v
    → Agrees q fp (retired_after version m v)
retire-Agrees q m version fp v h g a =
    retire-fingerprint m version v ∙ g (sym (retire-active q m version v h) ∙ a)

not_yet : (q m : ℕ) → q ≤ m → leb (m + 1) q ≡ false
not_yet q m h = ground arith

-- The numbers up to the marker keep their owner.
pub turn-Owns :
    (q m version : ℕ) (fp : String) (incoming : KeyVersion) (vs : List KeyVersion)
    → q ≤ m
    → incoming.activated_at_chain_seq ≡ m + 1
    → Owns q fp vs
    → Owns q fp (after_turn version m incoming vs)
turn-Owns q m version fp incoming vs h a (one, agree) =
    let late : Agrees q fp incoming = λ g. ground (arith, not_yet q m h, a, g) in
    (
      Some-with (λ v. Unit {0}) (IsActive q fp) (IsActive q fp) (retired_after version m)
          (vs ++ incoming ∷ []) (λ v _ g. retire-IsActive q m version fp v h g)
          (All-unit (vs ++ incoming ∷ []))
          (Some-append (IsActive q fp) vs (incoming ∷ []) (inl one)),
      All-with (λ v. Unit {0}) (Agrees q fp) (Agrees q fp) (retired_after version m)
          (vs ++ incoming ∷ []) (λ v _ g. retire-Agrees q m version fp v h g)
          (All-unit (vs ++ incoming ∷ []))
          (All-append (Agrees q fp) vs (incoming ∷ []) agree (late, tt)),
    )

-- An old version that is past, and current if it is unretired, is retired after the turn.
abbrev pub OldOrNew : (m version : ℕ) → (incoming : KeyVersion) → KeyVersion → Type 0
OldOrNew m version incoming v =
    ((v.key_version ≡ version → ⊥) × (v ≡ incoming))
    ⊎ (IsPast m v × (v.retired_at_chain_seq ≡ none → v.key_version ≡ version))

keep_other :
    (version m : ℕ) (v : KeyVersion) → (v.key_version ≡ version → ⊥) → retired_after version m v ≡ v
keep_other version m v other = elim (Bool-cases (nat_beq v.key_version version)) [
  | inl e ↦ elim (other ((nat_beq_iff v.key_version version).0 e)) [ ]
  | inr e ↦ rw e refl
]

retired_then :
    (version m : ℕ) (v : KeyVersion)
    → (v.retired_at_chain_seq ≡ none → v.key_version ≡ version)
    → (retired_after version m v).retired_at_chain_seq ≡ none
    → ⊥
retired_then version m v g h = elim (Option-cases v.retired_at_chain_seq) [
  | inl e ↦ let same = (nat_beq_iff v.key_version version).1 (g e) in ground (arith, e, same, h)
  | inr (r, e) ↦ ground (arith, e, h)
]

turned-CurrentIf :
    (m version : ℕ) (incoming v : KeyVersion)
    → incoming.retired_at_chain_seq ≡ none
    → OldOrNew m version incoming v
    → CurrentIf incoming.key_version incoming.fingerprint (retired_after version m v)
turned-CurrentIf m version incoming v h (inl (other, e)) k =
    subst (IsCurrent incoming.key_version incoming.fingerprint)
      (sym (keep_other version m v other ∙ e)) (h, refl, refl)
turned-CurrentIf m version incoming v h (inr (past, g)) k = elim (retired_then version m v g k) [ ]

turned-IsPast :
    (q m version : ℕ) (incoming v : KeyVersion)
    → m + 1 ≤ q
    → incoming.activated_at_chain_seq ≡ m + 1
    → incoming.retired_at_chain_seq ≡ none
    → OldOrNew m version incoming v
    → IsPast q (retired_after version m v)
turned-IsPast q m version incoming v h a e (inl (other, f)) =
    subst (IsPast q) (sym (keep_other version m v other ∙ f))
      (omega (arith, a), subst (ClosedBy q) (sym e) tt)
turned-IsPast q m version incoming v h a e (inr ((early, closed), g)) =
    elim (Option-cases v.retired_at_chain_seq) [
      | inl k ↦
          let same = (nat_beq_iff v.key_version version).1 (g k) in
          rw (k, same) (omega arith, omega arith)
      | inr (r, k) ↦
          let by_m : r ≤ m = subst (ClosedBy m) k closed in
          rw k (elim (Bool-cases (nat_beq v.key_version version)) [
            | inl f ↦ rw f (omega arith, omega arith)
            | inr f ↦ rw f (omega arith, omega arith)
          ])
    ]

old_or_new :
    (m version : ℕ) (fp : String) (incoming : KeyVersion) (vs : List KeyVersion)
    → (incoming.key_version ≡ version → ⊥)
    → All (IsPast m) vs
    → All (CurrentIf version fp) vs
    → All (OldOrNew m version incoming) (vs ++ incoming ∷ [])
old_or_new m version fp incoming [] other h g = (inl (other, refl), tt)
old_or_new m version fp incoming (v ∷ vs) other (h, hs) (g, gs) =
    (inr (h, λ e. (g e).1), old_or_new m version fp incoming vs other hs gs)

-- After the turn, the incoming key is the current one, and every version is past from the marker on.
pub turn-CurrentIf :
    (m version : ℕ) (fp : String) (incoming : KeyVersion) (vs : List KeyVersion)
    → (incoming.key_version ≡ version → ⊥)
    → incoming.retired_at_chain_seq ≡ none
    → All (IsPast m) vs
    → All (CurrentIf version fp) vs
    → All (CurrentIf incoming.key_version incoming.fingerprint) (after_turn version m incoming vs)
turn-CurrentIf m version fp incoming vs other e h g =
    All-with (λ v. Unit {0}) (OldOrNew m version incoming)
      (CurrentIf incoming.key_version incoming.fingerprint) (retired_after version m)
      (vs ++ incoming ∷ []) (λ v _. turned-CurrentIf m version incoming v e)
      (All-unit (vs ++ incoming ∷ [])) (old_or_new m version fp incoming vs other h g)

pub turn-IsPast :
    (q m version : ℕ) (fp : String) (incoming : KeyVersion) (vs : List KeyVersion)
    → m + 1 ≤ q
    → (incoming.key_version ≡ version → ⊥)
    → incoming.activated_at_chain_seq ≡ m + 1
    → incoming.retired_at_chain_seq ≡ none
    → All (IsPast m) vs
    → All (CurrentIf version fp) vs
    → All (IsPast q) (after_turn version m incoming vs)
turn-IsPast q m version fp incoming vs late other a e h g =
    All-with (λ v. Unit {0}) (OldOrNew m version incoming) (IsPast q) (retired_after version m)
      (vs ++ incoming ∷ []) (λ v _. turned-IsPast q m version incoming v late a e)
      (All-unit (vs ++ incoming ∷ [])) (old_or_new m version fp incoming vs other h g)

pub turn-IsCurrent :
    (m version : ℕ) (incoming : KeyVersion) (vs : List KeyVersion)
    → (incoming.key_version ≡ version → ⊥)
    → incoming.retired_at_chain_seq ≡ none
    → Some (IsCurrent incoming.key_version incoming.fingerprint) (after_turn version m incoming vs)
turn-IsCurrent m version incoming [] other e = inl (
    subst (IsCurrent incoming.key_version incoming.fingerprint)
      (sym (keep_other version m incoming other)) (e, refl, refl))
turn-IsCurrent m version incoming (v ∷ vs) other e =
    inr (turn-IsCurrent m version incoming vs other e)
