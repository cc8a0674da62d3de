-- ===== src/Gates/Tokens/Segments.antt =====
-- Python's `split(":")` and `":".join`, and what they do to each other.
use agentic_governance.Prelude.{
  ℕ, zero, suc, ◌≡◌, refl, sym, ap, ◌∙◌, List, [], ◌∷◌, ◌++◌, nat_beq, nat_beq_iff, Bool-cases, inl,
  inr, if◌then◌else◌, String,
}
use Prim.Native.String.{[] as nil, ◌∷◌ as ◌::◌, ◌++◌ as ◌+++◌}
use Prim.Native.String.append
use Prim.Native.Char.{Char, code, char}
use text.Mathlib.TextEquality.{Char-path}

-- A character before the first segment.
abbrev pub push : Char → List String → List String
push x [] = (x :: nil) ∷ []
push x (p ∷ ps) = (x :: p) ∷ ps

-- s.split(":")
unfoldable pub split : String → List String
split nil = nil ∷ []
split (x :: s) = let rest = split s in if nat_beq (code x) 58 then nil ∷ rest else push x rest

-- ":".join(parts)
unfoldable pub join : List String → String
join [] = nil
join (p ∷ []) = p
join (p ∷ q ∷ ps) = p +++ (":" +++ join (q ∷ ps))

-- parts[:-1]
unfoldable pub but_last : List String → List String
but_last [] = []
but_last (p ∷ []) = []
but_last (p ∷ q ∷ ps) = p ∷ but_last (q ∷ ps)

-- s[:n]
unfoldable pub take_chars : ℕ → String → String
take_chars zero s = nil
take_chars (suc n) nil = nil
take_chars (suc n) (x :: s) = x :: take_chars n s

-- There is a first segment.
abbrev pub IsFull : List String → Type 0
IsFull ps = (p : String) × (qs : List String) × (ps ≡ p ∷ qs)

pub split-IsFull : (s : String) → IsFull (split s)
unfolding split
split-IsFull nil = (nil, [], refl)
split-IsFull (x :: s) =
    let (p, qs, e) = split-IsFull s in
    elim (Bool-cases (nat_beq (code x) 58)) [
      | inl c ↦ (nil, split s, rw (c, split) refl)
      | inr c ↦ (x :: p, qs, rw (c, e, split) refl)
    ]

push-append : (x : Char) (ps qs : List String) → IsFull ps → push x (ps ++ qs) ≡ push x ps ++ qs
push-append x ps qs (p, rest, e) = rw e refl

colon-cons : (t : String) → (":" +++ t) ≡ (char 58 tt :: t)
colon-cons t = append.cons (char 58 tt) nil t ∙ ap (λ r. char 58 tt :: r) (append.nil t)

split-colon : (t : String) → split (":" +++ t) ≡ nil ∷ split t
unfolding split
split-colon t = ap split (colon-cons t)

pub split-append : (s t : String) → split (s +++ (":" +++ t)) ≡ split s ++ split t
unfolding split
split-append nil t = ap split (append.nil (":" +++ t)) ∙ split-colon t
split-append (x :: s) t =
    let opened : split ((x :: s) +++ (":" +++ t)) ≡ split (x :: (s +++ (":" +++ t))) =
      ap split (append.cons x s (":" +++ t)) in
    elim (Bool-cases (nat_beq (code x) 58)) [
      | inl c ↦ opened ∙ rw (c, split-append s t, split) refl
      | inr c ↦
          opened
          ∙ rw (c, split-append s t, split) (push-append x (split s) (split t) (split-IsFull s))
    ]

join-push :
    (x : Char) (p : String) (qs : List String) → join (push x (p ∷ qs)) ≡ (x :: join (p ∷ qs))
unfolding join
join-push x p [] = refl
join-push x p (q ∷ qs) = append.cons x p (":" +++ join (q ∷ qs))

join-nil : (ps : List String) → IsFull ps → join (nil ∷ ps) ≡ (":" +++ join ps)
unfolding join
join-nil ps (p, qs, e) = rw e (append.nil (":" +++ join (p ∷ qs)))

pub join-split : (s : String) → join (split s) ≡ s
unfolding split join
join-split nil = refl
join-split (x :: s) = elim (Bool-cases (nat_beq (code x) 58)) [
  | inl c ↦
      let colon : char 58 tt ≡ x = sym (Char-path x (char 58 tt) ((nat_beq_iff (code x) 58).0 c)) in
      rw (c, split)
        (join-nil (split s) (split-IsFull s)
          ∙ colon-cons (join (split s))
          ∙ ap (λ y. y :: join (split s)) colon
          ∙ ap (λ t. x :: t) (join-split s))
  | inr c ↦
      let (p, qs, e) = split-IsFull s in
      rw (c, split)
        (ap (λ ps. join (push x ps)) e
          ∙ join-push x p qs
          ∙ ap (λ ps. x :: join ps) (sym e)
          ∙ ap (λ t. x :: t) (join-split s))
]

pub but_last-append : (ps : List String) (m : String) → but_last (ps ++ m ∷ []) ≡ ps
unfolding but_last
but_last-append [] m = refl
but_last-append (p ∷ []) m = refl
but_last-append (p ∷ q ∷ ps) m = ap (λ r. p ∷ r) (but_last-append (q ∷ ps) m)
