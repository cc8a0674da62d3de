-- ===== src/Tests/TokenRuns.antt =====
-- Tokens whose UUIDs and moments are written in unary.
use agentic_governance.Prelude.{
  ℕ, zero, suc, ◌≡◌, refl, ap, String, true, false, none, some, arith, Bool-cases, inl, inr,
  string_eq, ◌==◌, if◌then◌else◌, ltb,
}
use agentic_governance.Errors.{ok, expired, ◌>>=◌}
use agentic_governance.Gates.Tokens.{TokenEnv, make_token, parse_token, refused, v1_key}
use agentic_governance.Gates.Tokens.Segments.{split, push, take_chars}
use agentic_governance.Gates.Tokens.RoundTrip.{IsFaithful, IsSegment, parse_token-make_token}
use Prim.Native.String.{[] as nil, ◌∷◌ as ◌::◌}
use agentic_governance.Gates.Tokens.Authenticity.{IsSigned, parse_token-IsSigned}
use Prim.Native.Char.{Char, char, code}
use text.Mathlib.TextLemmas.{head-eq_of_cons-eq}

abbrev stroke : Char
stroke = char 117 tt

abbrev pub tally : ℕ → String
tally zero = nil
tally (suc n) = stroke :: tally n

abbrev pub untally : String → ℕ
untally nil = 0
untally (x :: s) = suc (untally s)

pub untally-tally : (n : ℕ) → untally (tally n) ≡ n
untally-tally zero = refl
untally-tally (suc n) = ap suc (untally-tally n)

tally-IsSegment : (n : ℕ) → IsSegment (tally n)
unfolding split
tally-IsSegment zero = refl
tally-IsSegment (suc n) = ap (push stroke) (tally-IsSegment n)

tally_not_v2 : (n : ℕ) → (tally n == "v2") ≡ false
tally_not_v2 zero = refl
tally_not_v2 (suc n) = elim (Bool-cases (tally (suc n) == "v2")) [
  | inr h ↦ h
  | inl h ↦
      let same = ap code (head-eq_of_cons-eq ((string_eq.beq_iff (tally (suc n)) "v2").0 h)) in
      absurd (omega arith)
]

abbrev pub unary : TokenEnv ℕ
unary = record {
  hexdigest = λ k body. "mac";
  fingerprint_key = λ k. "0123456789abcdef0123456789abcdef";
  environ = λ name. none;
  resolve_uri = λ uri. none;
  str_uuid = tally;
  uuid = λ s. some (untally s);
  isoformat = tally;
  fromisoformat = λ s. some (untally s);
}

pub unary-IsFaithful : IsFaithful unary
unfolding split take_chars
unary-IsFaithful = record {
  uuid_str = λ i. ap some (untally-tally i);
  fromisoformat_isoformat = λ t. ap some (untally-tally t);
  str_uuid-IsSegment = tally-IsSegment;
  str_uuid_not_v2 = tally_not_v2;
  hexdigest-IsSegment = λ k body. refl;
  key_prefix-IsSegment = λ k. refl;
  key_prefix_count = λ k. refl;
}

pub action-IsSegment : IsSegment "a1"
unfolding split
action-IsSegment = refl

parse_token-make_token_example :
    (parse_token unary 7 (make_token unary 7 3 "a1" 50 true) (some 10) 20 30
      ≡ (if ltb 50 30 then refused expired else ok (3, "a1", 50)))
    × (parse_token unary 7 (make_token unary 7 3 "a1" 50 false) (some 10) 20 30 ≡ (
        v1_key unary 7 (some 10) 20 >>= λ _.
        if ltb 50 30 then refused expired else ok (3, "a1", 50)))
parse_token-make_token_example =
    parse_token-make_token unary unary-IsFaithful 7 3 "a1" 50 (some 10) 20 30 action-IsSegment

parse_token-IsSigned_example : IsSigned unary 7 (some 10) 20 (make_token unary 7 3 "a1" 50 true)
parse_token-IsSigned_example =
    parse_token-IsSigned unary 7 (make_token unary 7 3 "a1" 50 true) (some 10) 20 30 (3, "a1", 50)
      (parse_token-make_token unary unary-IsFaithful 7 3 "a1" 50 (some 10) 20 30 action-IsSegment).0
