-- ===== src/Gates/Tokens/RoundTrip.antt =====
-- A token that was made is read back.
use agentic_governance.Prelude.{
  ℕ, ◌≤◌, ◌≡◌, refl, sym, ap, ◌∙◌, subst, String, true, false, Option, none, some, List, [], ◌∷◌,
  ◌++◌, length, arith, ltb, last?-append, length-append, if◌then◌else◌, Bool-cases, inl, inr,
  string_eq, ◌==◌, beq_refl,
}
use agentic_governance.Errors.{Result, ok, expired, ◌>>=◌}
use agentic_governance.Gates.Tokens.{
  TokenEnv, Parsed, key_prefix, make_token, parse_token, parse_parts, parse_body, token_body,
  refused, check_mac, read_fields, resolve_secret_for_prefix, v2_key, v1_key,
}
use agentic_governance.Gates.Tokens.Segments.{
  split, join, split-append, split-IsFull, IsFull, join-split, but_last-append,
}
use Prim.Native.String.{count, ◌++◌ as ◌+++◌}

-- A text without a colon.
abbrev pub IsSegment : String → Type 0
IsSegment s = split s ≡ s ∷ []

-- What the code relies on: the texts of UUIDs and moments are read back, UUIDs, HMACs and key prefixes
-- have no colon, the text of a UUID is not "v2", and a key prefix has its 16 characters.
pub record IsFaithful {K : Type 0} (env : TokenEnv K) : Type 0 where
  pub uuid_str : (i : ℕ) → env.uuid (env.str_uuid i) ≡ some i
  pub fromisoformat_isoformat : (t : ℕ) → env.fromisoformat (env.isoformat t) ≡ some t
  pub str_uuid-IsSegment : (i : ℕ) → IsSegment (env.str_uuid i)
  pub str_uuid_not_v2 : (i : ℕ) → (env.str_uuid i == "v2") ≡ false
  pub hexdigest-IsSegment : (k : K) (body : String) → IsSegment (env.hexdigest k body)
  pub key_prefix-IsSegment : (k : K) → IsSegment (key_prefix env k)
  pub key_prefix_count : (k : K) → count (key_prefix env k) ≡ 16

split-segment : (s rest : String) → IsSegment s → split (s +++ (":" +++ rest)) ≡ s ∷ split rest
split-segment s rest h = split-append s rest ∙ ap (λ ps. ps ++ split rest) h

module _ {K : Type 0} (env : TokenEnv K) (faithful : IsFaithful env) (secret : K) where
  -- The segments of a v1 body.
  split-fields :
      (i : ℕ) (action_hash : String) (t : ℕ)
      → IsSegment action_hash
      → split (token_body env secret i action_hash t false)
        ≡ env.str_uuid i ∷ action_hash ∷ split (env.isoformat t)
  split-fields i action_hash t h =
      split-segment (env.str_uuid i) _ (faithful.str_uuid-IsSegment i)
      ∙ ap (λ ps. env.str_uuid i ∷ ps) (split-segment action_hash (env.isoformat t) h)

  split-v2 :
      (i : ℕ) (action_hash : String) (t : ℕ)
      → IsSegment action_hash
      → split (token_body env secret i action_hash t true)
        ≡ "v2" ∷ key_prefix env secret ∷ env.str_uuid i ∷ action_hash ∷ split (env.isoformat t)
  unfolding split
  split-v2 i action_hash t h =
      split-segment "v2"
        (key_prefix env secret +++ (":" +++ token_body env secret i action_hash t false)) refl
      ∙ ap (λ ps. "v2" ∷ ps)
          (split-segment (key_prefix env secret) (token_body env secret i action_hash t false)
              (faithful.key_prefix-IsSegment secret)
            ∙ ap (λ ps. key_prefix env secret ∷ ps) (split-fields i action_hash t h))

  -- A token of at least three segments before the HMAC is read from its body.
  parse-token :
      (body : String) (accept_v1_until : Option ℕ) (now later : ℕ)
      → 3 ≤ length (split body)
      → parse_token env secret
          (body +++ ":" +++ env.hexdigest secret body)
          accept_v1_until
          now
          later
        ≡ parse_body env secret body (env.hexdigest secret body) accept_v1_until now later
  unfolding parse_token parse_parts
  parse-token body accept_v1_until now later h =
      let mac = env.hexdigest secret body in
      let parts : split (body +++ ":" +++ mac) ≡ split body ++ mac ∷ [] =
        split-append body mac
        ∙ ap (λ ps. split body ++ ps) (faithful.hexdigest-IsSegment secret body) in
      let long : ltb (length (split body ++ mac ∷ [])) 4 ≡ false =
        ground (arith, length-append (split body) (mac ∷ [])) in
      ap (λ ps. parse_parts env secret ps accept_v1_until now later) parts
      ∙ rw
          (
            long,
            last?-append (split body) mac,
            but_last-append (split body) mac,
            join-split body,
            parse_parts,
          )
          refl

  -- What the reader of a token that was made for these fields answers.
  abbrev pub answer : (i : ℕ) → (action_hash : String) → (t later : ℕ) → Result Parsed
  answer i action_hash t later = if ltb t later then refused expired else ok (i, action_hash, t)

  read_fields-full :
      (i : ℕ) (action_hash : String) (t later : ℕ) (ps : List String)
      → IsFull ps
      → join ps ≡ env.isoformat t
      → read_fields env later (env.str_uuid i ∷ action_hash ∷ ps) ≡ answer i action_hash t later
  read_fields-full i action_hash t later ps (q, qs, e) f =
      let iso : env.fromisoformat (join (q ∷ qs)) ≡ some t =
        ap env.fromisoformat (ap join (sym e) ∙ f) ∙ faithful.fromisoformat_isoformat t in
      ap (λ r. read_fields env later (env.str_uuid i ∷ action_hash ∷ r)) e
      ∙ rw (faithful.uuid_str i, iso, read_fields) refl

  check_mac-made :
      (body : String) (i : ℕ) (action_hash : String) (t later : ℕ)
      → check_mac env secret body
          (env.hexdigest secret body)
          later
          (env.str_uuid i ∷ action_hash ∷ split (env.isoformat t))
        ≡ answer i action_hash t later
  check_mac-made body i action_hash t later =
      rw (beq_refl (env.hexdigest secret body), check_mac)
        (read_fields-full i action_hash t later (split (env.isoformat t))
          (split-IsFull (env.isoformat t)) (join-split (env.isoformat t)))

  v2_key-own : v2_key env secret (key_prefix env secret) ≡ ok secret
  unfolding resolve_secret_for_prefix
  v2_key-own =
      rw
        (
          faithful.key_prefix_count secret,
          v2_key,
          beq_refl (key_prefix env secret),
          resolve_secret_for_prefix,
        )
        refl

  parse_body-v2 :
      (body : String) (i : ℕ) (action_hash : String) (t : ℕ) (accept_v1_until : Option ℕ)
      (now later : ℕ)
      → split body
        ≡ "v2" ∷ key_prefix env secret ∷ env.str_uuid i ∷ action_hash ∷ split (env.isoformat t)
      → parse_body env secret body (env.hexdigest secret body) accept_v1_until now later
        ≡ answer i action_hash t later
  parse_body-v2 body i action_hash t accept_v1_until now later parts =
      rw (parts, parse_body, v2_key-own) (check_mac-made body i action_hash t later)

  parse_body-v1 :
      (body : String) (i : ℕ) (action_hash : String) (t : ℕ) (accept_v1_until : Option ℕ)
      (now later : ℕ)
      → split body ≡ env.str_uuid i ∷ action_hash ∷ split (env.isoformat t)
      → parse_body env secret body (env.hexdigest secret body) accept_v1_until now later ≡ (
          v1_key env secret accept_v1_until now >>= λ key.
          check_mac env key body
            (env.hexdigest secret body)
            later
            (env.str_uuid i ∷ action_hash ∷ split (env.isoformat t)))
  parse_body-v1 body i action_hash t accept_v1_until now later parts =
      rw (parts, parse_body, faithful.str_uuid_not_v2 i) refl

  v1_answer :
      (body : String) (i : ℕ) (action_hash : String) (t : ℕ) (accept_v1_until : Option ℕ)
      (now later : ℕ)
      → (v1_key env secret accept_v1_until now >>= λ key.
          check_mac env key body
            (env.hexdigest secret body)
            later
            (env.str_uuid i ∷ action_hash ∷ split (env.isoformat t)))
        ≡ (v1_key env secret accept_v1_until now >>= λ _. answer i action_hash t later)
  v1_answer body i action_hash t none now later = check_mac-made body i action_hash t later
  v1_answer body i action_hash t (some until) now later = elim (Bool-cases (ltb until now)) [
    | inl old ↦ rw old refl
    | inr young ↦ rw young (check_mac-made body i action_hash t later)
  ]

  three : (a b s : String) → 3 ≤ length (a ∷ b ∷ split s)
  three a b s = let (p, qs, e) = split-IsFull s in rw e (omega arith)

-- A token is read back by the process that made it. With a key, a UUID, an action hash without a colon
-- and a moment, `parse_token` answers to the v2 token of `make_token` the same three values up to the
-- expiry, and "expired" after it, whatever the sunset of v1; to the v1 token it answers the same, as
-- long as v1 is accepted, and `TokenVersionTooOldError` later.
pub parse_token-make_token :
    {K : Type 0} (env : TokenEnv K) (faithful : IsFaithful env) (secret : K) (i : ℕ)
    (action_hash : String) (t : ℕ) (accept_v1_until : Option ℕ) (now later : ℕ)
    → IsSegment action_hash
    → (parse_token env secret (make_token env secret i action_hash t true) accept_v1_until now later
        ≡ (if ltb t later then refused expired else ok (i, action_hash, t)))
      × (parse_token env secret
            (make_token env secret i action_hash t false)
            accept_v1_until
            now
            later
          ≡ (v1_key env secret accept_v1_until now >>= λ _.
              if ltb t later then refused expired else ok (i, action_hash, t)))
unfolding make_token
parse_token-make_token env faithful secret i action_hash t accept_v1_until now later h =
    let v1 = token_body env secret i action_hash t false in
    let v2 = token_body env secret i action_hash t true in
    let fields = split-fields env faithful secret i action_hash t h in
    let parts = split-v2 env faithful secret i action_hash t h in
    let enough : 3 ≤ length (split v1) =
      subst (λ ps. 3 ≤ length ps) (sym fields)
        (three env faithful secret (env.str_uuid i) action_hash (env.isoformat t)) in
    let enough_v2 : 3 ≤ length (split v2) = subst (λ ps. 3 ≤ length ps) (sym parts) (omega arith) in
    (
      parse-token env faithful secret v2 accept_v1_until now later enough_v2
          ∙ parse_body-v2 env faithful secret v2 i action_hash t accept_v1_until now later parts,
      parse-token env faithful secret v1 accept_v1_until now later enough
          ∙ parse_body-v1 env faithful secret v1 i action_hash t accept_v1_until now later fields
          ∙ v1_answer env faithful secret v1 i action_hash t accept_v1_until now later,
    )
