-- ===== src/Gates/Tokens.antt =====
-- gates/tokens.py: signed approval tokens. The HMAC, the fingerprint of a key, `str` and `UUID`,
-- `isoformat` and `fromisoformat`, the environment and the URI resolver are parameters.
pub mod Segments
pub mod RoundTrip
pub mod Authenticity
use agentic_governance.Prelude.{
  ℕ, suc, String, Bool, true, false, Option, none, some, List, [], ◌∷◌, length, head?, last?, drop,
  ltb, nat_beq, is_some, string_eq, ◌==◌, if◌then◌else◌, ◌&&◌, not,
}
use agentic_governance.Errors.{
  TokenFault, Result, ok, err, ◌>>=◌, approval_token, token_version_too_old, malformed,
  malformed_key_prefix, historical_key_unavailable, signature_mismatch, malformed_body,
  bad_request_id, bad_expiration, expired,
}
use agentic_governance.Gates.Tokens.Segments.{split, join, but_last, take_chars}
use Prim.Native.String.{count, ◌++◌ as ◌+++◌}

-- `K` is the type of secrets. A moment is its count of microseconds; a text without a time zone is read
-- as UTC.
pub record TokenEnv (K : Type 0) : Type 0 where
  -- hmac.new(secret, body, sha256).hexdigest()
  pub hexdigest : K → String → String
  pub fingerprint_key : K → String
  pub environ : String → Option String
  pub resolve_uri : String → Option K
  pub str_uuid : ℕ → String
  pub uuid : String → Option ℕ
  pub isoformat : ℕ → String
  pub fromisoformat : String → Option ℕ

-- request_id, action_hash and expires_at
abbrev pub Parsed : Type 0
Parsed = ℕ × String × ℕ

abbrev pub refused : {A : Type 0} → TokenFault → Result A
refused fault = err (approval_token fault)

module _ {K : Type 0} (env : TokenEnv K) where
  abbrev pub key_prefix : K → String
  key_prefix secret = take_chars 16 (env.fingerprint_key secret)

  -- The key that the environment names, if its fingerprint has the prefix.
  abbrev pub checked_material : String → Option K → Option K
  checked_material prefix none = none
  checked_material prefix (some material) =
      if key_prefix material == prefix then some material else none

  -- os.environ.get(env_name), where an empty text counts as none
  abbrev pub named_key : Option String → Option K
  named_key none = none
  named_key (some uri) = if nat_beq (count uri) 0 then none else env.resolve_uri uri

  unfoldable pub resolve_secret_for_prefix : String → K → Option K
  resolve_secret_for_prefix prefix current_secret =
      if key_prefix current_secret == prefix
      then some current_secret
      else checked_material prefix (named_key (env.environ ("GOVERNANCE_CHAIN_KEY_" +++ prefix)))

  abbrev pub token_body :
      K → (request_id : ℕ) → (action_hash : String) → (expires_at : ℕ) → (use_v2 : Bool) → String
  token_body secret request_id action_hash expires_at use_v2 =
      let v1 =
        env.str_uuid request_id +++ ":" +++ action_hash +++ ":" +++ env.isoformat expires_at in
      if use_v2 then "v2" +++ ":" +++ key_prefix secret +++ ":" +++ v1 else v1

  unfoldable pub make_token :
      K → (request_id : ℕ) → (action_hash : String) → (expires_at : ℕ) → (use_v2 : Bool) → String
  make_token secret request_id action_hash expires_at use_v2 =
      let body = token_body secret request_id action_hash expires_at use_v2 in
      body +++ ":" +++ env.hexdigest secret body

  -- The key of a v2 token, from its second segment.
  abbrev pub v2_key : K → (prefix : String) → Result K
  v2_key secret prefix =
      if nat_beq (count prefix) 16
      then elim (resolve_secret_for_prefix prefix secret) [
        | none ↦ refused historical_key_unavailable
        | some key ↦ ok key
      ]
      else refused malformed_key_prefix

  -- The key of a v1 token, while v1 is accepted.
  abbrev pub v1_key : K → (accept_v1_until : Option ℕ) → (now : ℕ) → Result K
  v1_key secret none now = ok secret
  v1_key secret (some until) now = if ltb until now then err token_version_too_old else ok secret

  -- What is read from the segments after the version: request_id, action_hash and the time.
  abbrev pub read_fields : (now : ℕ) → List String → Result Parsed
  read_fields now (request_id ∷ action_hash ∷ t ∷ ts) = elim (env.uuid request_id) [
    | none ↦ refused bad_request_id
    | some i ↦ elim (env.fromisoformat (join (t ∷ ts))) [
      | none ↦ refused bad_expiration
      | some expires_at ↦
          if ltb expires_at now then refused expired else ok (i, action_hash, expires_at)
    ]
  ]
  read_fields now _ = refused malformed_body

  abbrev pub check_mac :
      K → (body mac : String) → (now : ℕ) → (fields : List String) → Result Parsed
  check_mac key body mac now fields =
      let read = read_fields now fields in
      if env.hexdigest key body == mac then read else refused signature_mismatch

  abbrev pub is_v2 : List String → Bool
  is_v2 (version ∷ prefix ∷ rest) = version == "v2"
  is_v2 _ = false

  -- body_parts[1]
  abbrev pub prefix_of : List String → String
  prefix_of (version ∷ prefix ∷ rest) = prefix
  prefix_of _ = ""

  -- From the body on. `now` is the reading for the sunset of v1, `later` the one for the expiry.
  abbrev pub parse_body :
      K → (body mac : String) → (accept_v1_until : Option ℕ) → (now later : ℕ) → Result Parsed
  parse_body secret body mac accept_v1_until now later =
      let parts = split body in
      if is_v2 parts
      then (v2_key secret (prefix_of parts) >>= λ key. check_mac key body mac later (drop 2 parts))
      else (v1_key secret accept_v1_until now >>= λ key. check_mac key body mac later parts)

  -- From the segments of the token on.
  unfoldable pub parse_parts :
      K → (parts : List String) → (accept_v1_until : Option ℕ) → (now later : ℕ) → Result Parsed
  parse_parts secret parts accept_v1_until now later =
      let parsed : String → Result Parsed =
        λ mac. parse_body secret (join (but_last parts)) mac accept_v1_until now later in
      if ltb (length parts) 4
      then refused malformed
      else elim (last? parts) [ none ↦ refused malformed | some mac ↦ parsed mac ]

  unfoldable pub parse_token :
      K → (token : String) → (accept_v1_until : Option ℕ) → (now later : ℕ) → Result Parsed
  parse_token secret token accept_v1_until now later =
      parse_parts secret (split token) accept_v1_until now later
