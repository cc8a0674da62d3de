-- ===== src/Gates/Tokens/Authenticity.antt =====
-- A token that is accepted was signed.
use agentic_governance.Prelude.{
  ℕ, ◌≡◌, refl, sym, ap, ◌∙◌, String, Option, some, List, [], ◌∷◌, arith, drop, if◌then◌else◌,
  last?, length, ltb, Bool-cases, Option-cases, inl, inr, string_eq, subst,
}
use agentic_governance.Errors.{Result, Exception, ok, err, ◌>>=◌, approval_token, malformed}
use agentic_governance.Gates.Tokens.{
  TokenEnv, Parsed, parse_token, parse_parts, parse_body, check_mac, v2_key, v1_key, is_v2,
  prefix_of,
}
use agentic_governance.Gates.Tokens.Segments.{split, join, but_last, join-split}
use Prim.Native.String.append
use Prim.Native.String.{[] as nil, ◌∷◌ as ◌::◌, ◌++◌ as ◌+++◌}

ok-err : {A : Type 0} {a : A} {e : Exception} → err e ≡ ok a → ⊥
ok-err h = ground arith

module _ {K : Type 0} (env : TokenEnv K) (secret : K) where
  -- The key that the segments of a body ask for.
  abbrev pub key_of : (parts : List String) → (accept_v1_until : Option ℕ) → (now : ℕ) → Result K
  key_of parts accept_v1_until now =
      if is_v2 env parts
      then v2_key env secret (prefix_of env parts)
      else v1_key env secret accept_v1_until now

  check_mac-signed :
      (found : Result K) (body mac : String) (later : ℕ) (fields : List String) (p : Parsed)
      → (found >>= λ key. check_mac env key body mac later fields) ≡ ok p
      → (key : K) × (found ≡ ok key) × (env.hexdigest key body ≡ mac)
  check_mac-signed (ok key) body mac later fields p h =
      (key, refl, ground (arith, string_eq.beq_iff (env.hexdigest key body) mac))
  check_mac-signed (err e) body mac later fields p h = elim (ok-err h) [ ]

  parse_body-signed :
      (body mac : String) (until : Option ℕ) (now later : ℕ) (p : Parsed)
      → parse_body env secret body mac until now later ≡ ok p
      → (key : K) × (key_of (split body) until now ≡ ok key) × (env.hexdigest key body ≡ mac)
  parse_body-signed body mac until now later p h = elim (Bool-cases (is_v2 env (split body))) [
    | inl v2 ↦
        let (key, found, signed) =
          check_mac-signed (v2_key env secret (prefix_of env (split body))) body mac later
            (drop 2 (split body)) p (sym (rw (v2, parse_body) refl) ∙ h) in
        (key, rw (v2, key_of) found, signed)
    | inr v1 ↦
        let (key, found, signed) =
          check_mac-signed (v1_key env secret until now) body mac later (split body) p
            (sym (rw (v1, parse_body) refl) ∙ h) in
        (key, rw (v1, key_of) found, signed)
  ]

assoc : (s t u : String) → (s +++ t) +++ u ≡ s +++ (t +++ u)
assoc nil t u = ap (λ r. r +++ u) (append.nil t) ∙ sym (append.nil (t +++ u))
assoc (x :: s) t u =
    ap (λ r. r +++ u) (append.cons x s t)
    ∙ append.cons x (s +++ t) u
    ∙ ap (λ r. x :: r) (assoc s t u)
    ∙ sym (append.cons x s (t +++ u))

join-last :
    (p q : String) (ps : List String) (mac : String)
    → last? (p ∷ q ∷ ps) ≡ some mac
    → join (p ∷ q ∷ ps) ≡ join (but_last (p ∷ q ∷ ps)) +++ (":" +++ mac)
unfolding join but_last
join-last p q [] mac h = ap (λ r. p +++ (":" +++ r)) (ground arith)
join-last p q (r ∷ ps) mac h =
    let before = join (but_last (q ∷ r ∷ ps)) in
    ap (λ s. p +++ (":" +++ s)) (join-last q r ps mac h)
    ∙ sym (
        assoc p (":" +++ before) (":" +++ mac) ∙ ap (λ t. p +++ t) (assoc ":" before (":" +++ mac)))

-- A token that ends in the HMAC of what stands before it, under the key that its segments ask for.
abbrev pub IsSigned :
    {K : Type 0}
    → TokenEnv K
    → (secret : K) → (accept_v1_until : Option ℕ) → (now : ℕ) → (token : String) → Type 0
IsSigned {K} env secret accept_v1_until now token =
    (body : String) × (key : K) × (token ≡ body +++ (":" +++ env.hexdigest key body))
    × (key_of env secret (split body) accept_v1_until now ≡ ok key)

parse_parts-IsSigned :
    {K : Type 0} (env : TokenEnv K) (secret : K) (parts : List String) (accept_v1_until : Option ℕ)
    (now later : ℕ) (p : Parsed)
    → parse_parts env secret parts accept_v1_until now later ≡ ok p
    → IsSigned env secret accept_v1_until now (join parts)
unfolding parse_parts
parse_parts-IsSigned env secret [] until now later p h = elim (ok-err h) [ ]
parse_parts-IsSigned env secret (a ∷ []) until now later p h = elim (ok-err h) [ ]
parse_parts-IsSigned env secret (a ∷ b ∷ ps) until now later p h =
    let parts = a ∷ b ∷ ps in
    elim (Bool-cases (ltb (length parts) 4)) [
      | inl short ↦
          elim (ok-err {e = approval_token malformed} (sym (rw (short, parse_parts) refl) ∙ h)) [ ]
      | inr long ↦ elim (Option-cases (last? parts)) [
        | inl e ↦
            elim (ok-err {e = approval_token malformed}
              (sym (rw (long, e, parse_parts) refl) ∙ h)) [ ]
        | inr (mac, e) ↦
            let body = join (but_last parts) in
            let (key, found, signed) =
              parse_body-signed env secret body mac until now later p
                (sym (rw (long, e, parse_parts) refl) ∙ h) in
            (body, key, join-last a b ps mac e ∙ ap (λ m. body +++ (":" +++ m)) (sym signed), found)
      ]
    ]

-- No token is accepted that was not signed: a token that `parse_token` accepts ends, after a colon, in
-- the HMAC of the text before, under the key that this text asks for: the current secret or the
-- resolved historical key for a v2 token, and the current secret for a v1 token that is not too old.
pub parse_token-IsSigned :
    {K : Type 0} (env : TokenEnv K) (secret : K) (token : String) (accept_v1_until : Option ℕ)
    (now later : ℕ) (p : Parsed)
    → parse_token env secret token accept_v1_until now later ≡ ok p
    → IsSigned env secret accept_v1_until now token
unfolding parse_token
parse_token-IsSigned env secret token until now later p h =
    subst (IsSigned env secret until now) (join-split token)
      (parse_parts-IsSigned env secret (split token) until now later p h)
