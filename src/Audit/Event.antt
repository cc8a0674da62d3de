-- ===== src/Audit/Event.antt =====
-- audit/models.py and audit/sanitization.py: the construction of an `AuditEvent`, which checks the
-- lengths of its fields and the size of its metadata, and then sanitizes every text.
use agentic_governance.Prelude.{
  ℕ, zero, suc, String, Bool, true, false, Option, none, some, ◌≡◌, refl, sym, ap, ◌∙◌, Bool-cases,
  inl, inr, arith, ltb, nat_beq, if◌then◌else◌, ◌||◌, ◌&&◌, map_some,
}
use agentic_governance.Errors.{Result, ok, err, validation_error}
use agentic_governance.Audit.Models.{AuditEvent}
use Prim.Native.String.{[] as nil, ◌∷◌ as ◌::◌, count}
use Prim.Native.Char.{code}

-- Python's dicts of metadata and their JSON, and Unicode's NFC.
pub record EventEnv (M : Type 0) : Type 0 where
  -- len(value)
  pub keys : M → ℕ
  -- len(json.dumps(value, default=str).encode("utf-8")), none where it raises
  pub encoded_len : M → Option ℕ
  -- a function of every text in the values of a dict, its lists and dicts included
  pub map_texts : (String → String) → M → M
  pub normalize : String → String

abbrev pub is_ascii : String → Bool
is_ascii nil = true
is_ascii (x :: s) = ltb (code x) 128 && is_ascii s

-- NFC leaves ASCII text as it is.
abbrev pub IsNfc : {M : Type 0} → EventEnv M → Type 0
IsNfc env = (s : String) → is_ascii s ≡ true → env.normalize s ≡ s

-- value[:max_len]
abbrev pub take_chars : (max_len : ℕ) → String → String
take_chars zero s = nil
take_chars (suc n) nil = nil
take_chars (suc n) (x :: s) = x :: take_chars n s

-- [\x00-\x08\x0b\x0c\x0e-\x1f\x7f], and what the escapes left of the controls
abbrev pub is_control : ℕ → Bool
is_control n = ltb n 32 || nat_beq n 127

-- The escape of a backslash and of the line ends, and then the controls are left out.
abbrev pub escape : String → String
escape nil = nil
escape (x :: s) =
    let rest = escape s in
    if nat_beq (code x) 92
    then x :: x :: rest
    else if nat_beq (code x) 10
    then "\\" :: "n" :: rest
    else if nat_beq (code x) 13
    then "\\" :: "r" :: rest
    else if nat_beq (code x) 9
    then "\\" :: "t" :: rest
    else if is_control (code x)
    then rest
    else x :: rest

-- Field(min_length=1, max_length=...)
abbrev pub is_bad_text : (max_len : ℕ) → String → Bool
is_bad_text max_len s = nat_beq (count s) 0 || ltb max_len (count s)

module _ {M : Type 0} (env : EventEnv M) where
  abbrev pub sanitize_string : (max_len : ℕ) → String → String
  sanitize_string max_len value = escape (take_chars max_len (env.normalize value))

  abbrev pub sanitize_metadata : M → M
  sanitize_metadata = env.map_texts (sanitize_string 2048)

  -- `_validate_metadata`
  abbrev pub is_oversized : Option ℕ → Bool
  is_oversized none = true
  is_oversized (some n) = ltb 65536 n

  abbrev pub is_bad_metadata : M → Bool
  is_bad_metadata m = ltb 64 (env.keys m) || is_oversized (env.encoded_len m)

  abbrev pub is_too_long : Option String → Bool
  is_too_long none = false
  is_too_long (some s) = ltb 128 (count s)

  abbrev pub is_bad_event : AuditEvent M → Bool
  is_bad_event e =
      is_bad_text 256 e.agent_id
      || is_bad_text 128 e.kind
      || is_too_long e.model
      || is_too_long e.input_hash
      || is_too_long e.output_hash
      || is_bad_metadata e.metadata

  abbrev pub sanitized_event : AuditEvent M → AuditEvent M
  sanitized_event e = record e {
    agent_id = sanitize_string 256 e.agent_id;
    kind = sanitize_string 128 e.kind;
    model = map_some (sanitize_string 128) e.model;
    input_hash = map_some (sanitize_string 128) e.input_hash;
    output_hash = map_some (sanitize_string 128) e.output_hash;
    metadata = sanitize_metadata e.metadata;
  }

  -- AuditEvent(...)
  unfoldable pub audit_event : AuditEvent M → Result (AuditEvent M)
  audit_event e = if is_bad_event e then err validation_error else ok (sanitized_event e)

  -- An event that is built is the sanitized one.
  pub audit_event-sanitized_event :
      (e made : AuditEvent M) → audit_event e ≡ ok made → made ≡ sanitized_event e
  unfolding audit_event
  audit_event-sanitized_event e made h = elim (Bool-cases (is_bad_event e)) [
    | inl bad ↦ elim (refused (sym (rejected bad) ∙ h)) [ ]
    | inr good ↦ same (sym h ∙ rw good refl)
  ]
    where
      refused : {a : AuditEvent M} → err validation_error ≡ ok a → ⊥
      refused g = ground (arith, g)

      rejected : is_bad_event e ≡ true → audit_event e ≡ err validation_error
      rejected bad = rw bad refl

      same : {a b : AuditEvent M} → ok a ≡ ok b → a ≡ b
      same {a} {b} g = ap (λ r. elim r [ ok x ↦ x | err x ↦ a ]) g

  -- A short ASCII text without backslashes and controls is kept.
  pub sanitize_string-kept :
      IsNfc env
      → (max_len : ℕ) (s : String) → is_ascii s ≡ true
      → escape (take_chars max_len s) ≡ s
      → sanitize_string max_len s ≡ s
  sanitize_string-kept nfc max_len s ascii kept =
      ap (λ t. escape (take_chars max_len t)) (nfc s ascii) ∙ kept
