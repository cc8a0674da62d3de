-- ===== src/Audit/Keys/Active.antt =====
-- The active key of a sequence number, whatever the order of the versions.
use agentic_governance.Prelude.{
  ℕ, ◌≡◌, ◌⊎◌, refl, ap, subst, String, Bool, true, false, some, List, [], ◌∷◌, keep, leb, ltb, All,
  arith, Bool-cases, inl, inr,
}
use agentic_governance.Audit.Keys.{
  KeyVersion, is_active_at, latest, latest_of, find_active_key_at_seq, insert_version,
  sort_versions,
}

-- Some element has the property.
abbrev pub Some : (KeyVersion → Type 0) → List KeyVersion → Type 0
Some P [] = ⊥
Some P (v ∷ vs) = P v ⊎ Some P vs

-- The active versions at the number have this fingerprint, and there is one.
abbrev pub IsActive : (chain_seq : ℕ) → String → KeyVersion → Type 0
IsActive chain_seq fingerprint v = (is_active_at chain_seq v ≡ true) × (v.fingerprint ≡ fingerprint)

abbrev pub Agrees : (chain_seq : ℕ) → String → KeyVersion → Type 0
Agrees chain_seq fingerprint v = is_active_at chain_seq v ≡ true → v.fingerprint ≡ fingerprint

abbrev pub Owns : (chain_seq : ℕ) → String → List KeyVersion → Type 0
Owns chain_seq fingerprint vs =
    Some (IsActive chain_seq fingerprint) vs × All (Agrees chain_seq fingerprint) vs

module _ (P : KeyVersion → Type 0) where
  All-insert_version :
      (k : KeyVersion) (ls : List KeyVersion) → P k → All P ls → All P (insert_version k ls)
  unfolding insert_version
  All-insert_version k [] h hs = (h, tt)
  All-insert_version k (l ∷ ls) h (hl, hs) =
      elim (Bool-cases (leb k.activated_at_chain_seq l.activated_at_chain_seq)) [
        | inl e ↦ rw (e, insert_version) (h, (hl, hs))
        | inr e ↦ rw (e, insert_version) (hl, All-insert_version k ls h hs)
      ]

  All-sort_versions : (ls : List KeyVersion) → All P ls → All P (sort_versions ls)
  unfolding sort_versions
  All-sort_versions [] h = tt
  All-sort_versions (l ∷ ls) (h, hs) =
      All-insert_version l (sort_versions ls) h (All-sort_versions ls hs)

  Some-insert_version :
      (k : KeyVersion) (ls : List KeyVersion) → P k ⊎ Some P ls → Some P (insert_version k ls)
  unfolding insert_version
  Some-insert_version k [] h = h
  Some-insert_version k (l ∷ ls) h =
      elim (Bool-cases (leb k.activated_at_chain_seq l.activated_at_chain_seq)) [
        | inl e ↦ rw (e, insert_version) h
        | inr e ↦
            rw (e, insert_version)
              (elim h [
                | inl a ↦ inr (Some-insert_version k ls (inl a))
                | inr b ↦ elim b [ inl a ↦ inl a | inr a ↦ inr (Some-insert_version k ls (inr a)) ]
              ])
      ]

  Some-sort_versions : (ls : List KeyVersion) → Some P ls → Some P (sort_versions ls)
  unfolding sort_versions
  Some-sort_versions [] h = elim h [ ]
  Some-sort_versions (l ∷ ls) (inl h) = Some-insert_version l (sort_versions ls) (inl h)
  Some-sort_versions (l ∷ ls) (inr h) =
      Some-insert_version l (sort_versions ls) (inr (Some-sort_versions ls h))

  latest-All : (v : KeyVersion) (ws : List KeyVersion) → P v → All P ws → P (latest v ws)
  unfolding latest
  latest-All v [] h hs = h
  latest-All v (w ∷ ws) h (g, gs) =
      elim (Bool-cases (ltb v.activated_at_chain_seq w.activated_at_chain_seq)) [
        | inl e ↦ rw (e, latest) (latest-All w ws g gs)
        | inr e ↦ rw (e, latest) (latest-All v ws h gs)
      ]

clash : {b : Bool} → b ≡ true → b ≡ false → ⊥
clash h g = ground arith

keep_agreeing :
    (q : ℕ) (fp : String) (vs : List KeyVersion)
    → All (Agrees q fp) vs
    → All (λ v. v.fingerprint ≡ fp) (keep (is_active_at q) vs)
keep_agreeing q fp [] h = tt
keep_agreeing q fp (v ∷ vs) (h, hs) = elim (Bool-cases (is_active_at q v)) [
  | inl e ↦ rw e (h e, keep_agreeing q fp vs hs)
  | inr e ↦ rw e (keep_agreeing q fp vs hs)
]

-- One is kept.
keep-Some :
    (q : ℕ) (fp : String) (vs : List KeyVersion)
    → Some (IsActive q fp) vs
    → (v : KeyVersion) × (ws : List KeyVersion) × (keep (is_active_at q) vs ≡ v ∷ ws)
keep-Some q fp [] h = elim h [ ]
keep-Some q fp (v ∷ vs) h = elim (Bool-cases (is_active_at q v)) [
  | inl e ↦ (v, keep (is_active_at q) vs, rw e refl)
  | inr e ↦ elim h [
    | inl (a, _) ↦ elim (clash a e) [ ]
    | inr later ↦ let (w, ws, f) = keep-Some q fp vs later in (w, ws, rw e f)
  ]
]

-- The lookup finds a version with the fingerprint that owns the number.
pub find_active-Owns :
    (q : ℕ) (fp : String) (vs : List KeyVersion)
    → Owns q fp vs
    → (v : KeyVersion) × (find_active_key_at_seq q (sort_versions vs) ≡ some v)
      × (v.fingerprint ≡ fp)
unfolding find_active_key_at_seq
find_active-Owns q fp vs (one, agree) =
    let sorted = sort_versions vs in
    let (v, ws, e) = keep-Some q fp sorted (Some-sort_versions (IsActive q fp) vs one) in
    let same =
      subst (All (λ v. v.fingerprint ≡ fp)) e
        (keep_agreeing q fp sorted (All-sort_versions (Agrees q fp) vs agree)) in
    (latest v ws, ap latest_of e, latest-All (λ v. v.fingerprint ≡ fp) v ws same.0 same.1)
