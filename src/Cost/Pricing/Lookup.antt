-- ===== src/Cost/Pricing/Lookup.antt =====
-- The price of a model that is not in the table by its own name.
use agentic_governance.Prelude.{
  ◌≤◌, ◌≡◌, ◌⊎◌, refl, sym, ap, ◌∙◌, subst, String, true, false, Option, none, some, List, [], ◌∷◌,
  contains, string_eq, leb, leb→le, arith, Bool-cases, Option-cases, inl, inr, if◌then◌else◌, ◌==◌,
  beq_refl,
}
use agentic_governance.Prelude.Dict.{Dict, get}
use agentic_governance.Cost.Pricing.{
  Price, insert_longest, sort_longest, match_prefix, keys, resolve_pricing,
}
use Prim.Native.String.{count}
use text.Mathlib.Text.{starts_with}

absurd : false ≡ true → ⊥
absurd h = ground arith

contains-insert_longest :
    (x k : String) (ls : List String)
    → contains x (insert_longest k ls) ≡ (if k == x then true else contains x ls)
unfolding insert_longest
contains-insert_longest x k [] = refl
contains-insert_longest x k (l ∷ ls) = elim (Bool-cases (leb (count l) (count k))) [
  | inl h ↦ rw (h, insert_longest) refl
  | inr h ↦ rw (h, insert_longest, contains-insert_longest x k ls) (ground arith)
]

contains-sort_longest :
    (x : String) (ls : List String) → contains x (sort_longest ls) ≡ contains x ls
unfolding sort_longest
contains-sort_longest x [] = refl
contains-sort_longest x (l ∷ ls) =
    contains-insert_longest x l (sort_longest ls) ∙ rw (contains-sort_longest x ls) refl

-- Each key is at least as long as those that follow.
abbrev pub IsLongestFirst : List String → Type 0
IsLongestFirst [] = Unit
IsLongestFirst (k ∷ ks) =
    ((x : String) → contains x ks ≡ true → count x ≤ count k) × IsLongestFirst ks

insert_longest-IsLongestFirst :
    (k : String) (ls : List String) → IsLongestFirst ls → IsLongestFirst (insert_longest k ls)
unfolding insert_longest
insert_longest-IsLongestFirst k [] h = (λ x g. elim (absurd g) [ ], tt)
insert_longest-IsLongestFirst k (l ∷ ls) (longest, rest) =
    elim (Bool-cases (leb (count l) (count k))) [
      | inl h ↦
          rw (h, insert_longest)
            (
              (λ x g. elim (Bool-cases (l == x)) [
                | inl e ↦
                    let same = (string_eq.beq_iff l x).0 e in
                    omega (arith, leb→le (count l) (count k) h, ap count same)
                | inr e ↦
                    let later : contains x ls ≡ true = sym (rw e refl) ∙ g in
                    omega (arith, leb→le (count l) (count k) h, longest x later)
              ]),
              (longest, rest),
            )
      | inr h ↦
          rw (h, insert_longest)
            (
              (λ x g. elim (Bool-cases (k == x)) [
                | inl e ↦
                    let same = ap count ((string_eq.beq_iff k x).0 e) in ground (arith, h, same)
                | inr e ↦
                    let later : contains x ls ≡ true =
                      sym (contains-insert_longest x k ls ∙ rw e refl) ∙ g in
                    longest x later
              ]),
              insert_longest-IsLongestFirst k ls rest,
            )
    ]

sort_longest-IsLongestFirst : (ls : List String) → IsLongestFirst (sort_longest ls)
unfolding sort_longest
sort_longest-IsLongestFirst [] = tt
sort_longest-IsLongestFirst (l ∷ ls) =
    insert_longest-IsLongestFirst l (sort_longest ls) (sort_longest-IsLongestFirst ls)

-- What the lookup by prefixes may return.
abbrev pub IsLongestPrefix :
    Dict String Price → (model : String) → List String → Option Price → Type 0
IsLongestPrefix table model ks result =
    ((result ≡ none) × ((x : String) → contains x ks ≡ true → starts_with model x ≡ false))
    ⊎ ((k : String) × (result ≡ get table k)
        × (contains k ks ≡ true)
        × (starts_with model k ≡ true)
        × ((x : String) → contains x ks ≡ true → starts_with model x ≡ true → count x ≤ count k))

contains-cases :
    (x k : String) (ks : List String)
    → contains x (k ∷ ks) ≡ true
    → (k ≡ x) ⊎ (contains x ks ≡ true)
contains-cases x k ks h = elim (Bool-cases (k == x)) [
  | inl e ↦ inl ((string_eq.beq_iff k x).0 e)
  | inr e ↦ inr (sym (rw e refl) ∙ h)
]

contains_head : (k : String) (ks : List String) → contains k (k ∷ ks) ≡ true
contains_head k ks = rw (beq_refl k) refl

contains_tail :
    (x k : String) (ks : List String) → contains x ks ≡ true → contains x (k ∷ ks) ≡ true
contains_tail x k ks h = elim (Bool-cases (k == x)) [ inl e ↦ rw e refl | inr e ↦ rw e h ]

match_prefix-IsLongestPrefix :
    (table : Dict String Price) (model : String) (ks : List String)
    → IsLongestFirst ks
    → IsLongestPrefix table model ks (match_prefix table model ks)
unfolding match_prefix
match_prefix-IsLongestPrefix table model [] h = inl (refl, λ x g. elim (absurd g) [ ])
match_prefix-IsLongestPrefix table model (k ∷ ks) (longest, rest) =
    elim (Bool-cases (starts_with model k)) [
      | inl m ↦
          let first : match_prefix table model (k ∷ ks) ≡ get table k = rw (m, match_prefix) refl in
          inr (
            k,
            first,
            contains_head k ks,
            m,
            λ x g _. elim (contains-cases x k ks g) [
              | inl e ↦ omega (arith, ap count e)
              | inr g ↦ longest x g
            ],
          )
      | inr m ↦
          let next : match_prefix table model (k ∷ ks) ≡ match_prefix table model ks =
            rw (m, match_prefix) refl in
          elim (match_prefix-IsLongestPrefix table model ks rest) [
            | inl (e, no_prefix) ↦ inl (
              next ∙ e,
              λ x g. elim (contains-cases x k ks g) [
                | inl same ↦ subst (λ y. starts_with model y ≡ false) same m
                | inr g ↦ no_prefix x g
              ],
            )
            | inr (best, e, member, prefix, most) ↦ inr (
              best,
              next ∙ e,
              contains_tail best k ks member,
              prefix,
              λ x g starts. elim (contains-cases x k ks g) [
                | inl same ↦
                    elim (absurd
                      (sym (subst (λ y. starts_with model y ≡ false) same m) ∙ starts)) [ ]
                | inr g ↦ most x g starts
              ],
            )
          ]
    ]

IsLongestPrefix-sort_longest :
    (table : Dict String Price) (model : String) (ks : List String) (r : Option Price)
    → IsLongestPrefix table model (sort_longest ks) r
    → IsLongestPrefix table model ks r
IsLongestPrefix-sort_longest table model ks r (inl (e, no_prefix)) =
    inl (e, λ x g. no_prefix x (contains-sort_longest x ks ∙ g))
IsLongestPrefix-sort_longest table model ks r (inr (k, e, member, prefix, most)) = inr (
  k,
  e,
  sym (contains-sort_longest k ks) ∙ member,
  prefix,
  λ x g. most x (contains-sort_longest x ks ∙ g),
)

-- The price of a model: its own entry of the table where it has one. Else the entry of a key that the
-- name starts with and that no other such key is longer than, and none where it starts with no key.
pub resolve_pricing-IsLongestPrefix :
    (table : Dict String Price) (model : String)
    → ((p : Price) × (get table model ≡ some p) × (resolve_pricing table model ≡ some p))
      ⊎ ((get table model ≡ none)
          × IsLongestPrefix table model (keys table) (resolve_pricing table model))
unfolding resolve_pricing
resolve_pricing-IsLongestPrefix table model = elim (Option-cases (get table model)) [
  | inr (p, h) ↦ inl (p, h, rw (h, resolve_pricing) refl)
  | inl h ↦
      let found : resolve_pricing table model
          ≡ match_prefix table model (sort_longest (keys table)) =
        rw (h, resolve_pricing) refl in
      inr (
        h,
        IsLongestPrefix-sort_longest table model (keys table) _ (
            subst (IsLongestPrefix table model (sort_longest (keys table))) (sym found) (
              match_prefix-IsLongestPrefix table model (sort_longest (keys table))
                (sort_longest-IsLongestFirst (keys table)))),
      )
]
