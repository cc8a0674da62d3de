-- ===== src/Scope/Patterns.antt =====
-- scope/module.py: `_api_matches`, and the URLs that a pattern stands for.
use agentic_governance.Prelude.{
  String, Bool, true, Option, none, some, List, [], ◌∷◌, string_eq, nat_beq, map_some, ◌==◌,
  if◌then◌else◌, ◌≡◌, ◌≢◌, refl, sym, ap, ◌∙◌, ◌↔◌, ◌⊎◌, inl, inr, arith, Bool-cases, nat_beq_iff,
  Option-cases, exists, subst,
}
use Prim.Native.String.{[] as nil, ◌∷◌ as ◌::◌, ◌++◌ as ◌+++◌}
use Prim.Native.Char.{Char, code, char}
use text.Mathlib.Text.{starts_with}
use text.Mathlib.TextEquality.{starts_with_iff, Char-path}
use text.Mathlib.TextBridge.{IsPrefix}
use Prim.Native.String.append

-- pattern[:-1] where pattern.endswith("*")
unfoldable pub star_prefix : String → Option String
star_prefix nil = none
star_prefix (x :: nil) = if nat_beq (code x) 42 then some nil else none
star_prefix (x :: y :: s) = map_some (λ p. x :: p) (star_prefix (y :: s))

abbrev pub pattern_matches : (api pattern : String) → Bool
pattern_matches api pattern = elim (star_prefix pattern) [
  | some p ↦ starts_with api p
  | none ↦ api == pattern
]

unfoldable pub api_matches : (api : String) → (patterns : List String) → Bool
api_matches api patterns = exists (pattern_matches api) patterns

-- A URL that a pattern allows: one that begins with what stands before a final "*", or the pattern.
abbrev pub Allows : (api pattern : String) → Type 0
Allows api pattern =
    ((p : String) × (pattern ≡ p +++ "*") × IsPrefix p api)
    ⊎ (((p : String) → pattern ≢ (p +++ "*")) × (api ≡ pattern))

abbrev pub SomeOf {ℓ} : {A : Type ℓ} → (A → Type 0) → List A → Type 0
SomeOf P [] = ⊥
SomeOf P (x ∷ xs) = P x ⊎ SomeOf P xs

cons-inj : (x y : Char) (s t : String) → x ≡ y → s ≡ t → (x :: s) ≡ (y :: t)
cons-inj x y s t e f = cc

star_prefix-some : (s p : String) → star_prefix s ≡ some p → s ≡ p +++ "*"
unfolding star_prefix
star_prefix-some nil p h = ground arith
star_prefix-some (x :: nil) p h = elim (Bool-cases (nat_beq (code x) 42)) [
  | inl e ↦
      let star : x ≡ char 42 tt = Char-path x (char 42 tt) ((nat_beq_iff (code x) 42).0 e) in
      let none_before : nil ≡ p = ground arith in
      cons-inj x (char 42 tt) nil nil star refl
      ∙ sym (ap (λ t. t +++ "*") (sym none_before) ∙ append.nil "*")
  | inr e ↦ ground arith
]
star_prefix-some (x :: y :: s) p h = elim (Option-cases (star_prefix (y :: s))) [
  | inl e ↦ ground arith
  | inr (q, e) ↦
      let whole : (x :: q) ≡ p = ground arith in
      cons-inj x x (y :: s) (q +++ "*") refl (star_prefix-some (y :: s) q e)
      ∙ sym (append.cons x q "*")
      ∙ ap (λ t. t +++ "*") whole
]

star_prefix-cons :
    (x : Char) (t q : String) → star_prefix t ≡ some q → star_prefix (x :: t) ≡ some (x :: q)
unfolding star_prefix
star_prefix-cons x nil q h = ground arith
star_prefix-cons x (y :: t) q h = ground arith

star_prefix-append : (p : String) → star_prefix (p +++ "*") ≡ some p
unfolding star_prefix
star_prefix-append nil = refl
star_prefix-append (x :: p) =
    ap star_prefix (append.cons x p "*") ∙ star_prefix-cons x (p +++ "*") p (star_prefix-append p)

star_prefix_unique :
    (pattern p q : String) → star_prefix pattern ≡ some p → pattern ≡ q +++ "*" → q ≡ p
star_prefix_unique pattern p q e f =
    let same : some q ≡ some p = sym (ap star_prefix f ∙ star_prefix-append q) ∙ e in ground arith

some-none : (s p : String) → star_prefix s ≡ none → star_prefix s ≡ some p → ⊥
some-none s p e f = ground arith

star-Allows :
    (api pattern p : String) → star_prefix pattern ≡ some p → Allows api pattern → IsPrefix p api
star-Allows api pattern p e (inl (q, f, g)) =
    subst (λ t. IsPrefix t api) (star_prefix_unique pattern p q e f) g
star-Allows api pattern p e (inr (n, _)) = elim (n p (star_prefix-some pattern p e)) [ ]

exact-Allows :
    (api pattern : String) → star_prefix pattern ≡ none → Allows api pattern → api ≡ pattern
exact-Allows api pattern e (inl (q, f, g)) =
    elim (some-none pattern q e (ap star_prefix f ∙ star_prefix-append q)) [ ]
exact-Allows api pattern e (inr (_, f)) = f

pattern_matches_iff :
    (api pattern : String) → (pattern_matches api pattern ≡ true) ↔ Allows api pattern
pattern_matches_iff api pattern = elim (Option-cases (star_prefix pattern)) [
  | inr (p, e) ↦
      let here : pattern_matches api pattern ≡ starts_with api p = rw (e, pattern_matches) refl in
      (
        λ h. inl (p, star_prefix-some pattern p e, (starts_with_iff api p).0 (sym here ∙ h)),
        λ h. here ∙ (starts_with_iff api p).1 (star-Allows api pattern p e h),
      )
  | inl e ↦
      let here : pattern_matches api pattern ≡ (api == pattern) = rw (e, pattern_matches) refl in
      (
        λ h. inr (
          λ p q. some-none pattern p e (ap star_prefix q ∙ star_prefix-append p),
          (string_eq.beq_iff api pattern).0 (sym here ∙ h),
        ),
        λ h. here ∙ (string_eq.beq_iff api pattern).1 (exact-Allows api pattern e h),
      )
]

exists_iff :
    {A : Type 0} (f : A → Bool) (P : A → Type 0)
    → ((x : A) → (f x ≡ true) ↔ P x)
    → (xs : List A) → (exists f xs ≡ true) ↔ SomeOf P xs
exists_iff f P h [] = ground arith
exists_iff f P h (x ∷ xs) = ground (arith, h x, exists_iff f P h xs)

-- An API call is allowed exactly when some pattern of the policy ends in "*" and the call begins with
-- the text before the "*", or the pattern does not end in "*" and is the call itself.
pub api_matches_iff :
    (api : String) (patterns : List String)
    → (api_matches api patterns ≡ true) ↔ SomeOf (Allows api) patterns
unfolding api_matches
api_matches_iff api = exists_iff (pattern_matches api) (Allows api) (pattern_matches_iff api)
