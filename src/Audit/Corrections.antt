-- ===== src/Audit/Corrections.antt =====
-- audit/corrections.py: the validation of a correction payload. The regular expressions, Unicode
-- normalization and ISO parsing of Python are parameters. The reasons of the errors leave out the texts
-- that they quote.
pub mod Revalidation
pub mod Sanctioned
use agentic_governance.Prelude.{
  ℕ, String, Bool, true, false, Option, none, some, List, [], ◌∷◌, length, contains, exists, ltb,
  nat_beq, string_eq, nat_eq, ◌==◌, if◌then◌else◌, not,
}
use agentic_governance.Prelude.Dict.{Dict, get, has}
use agentic_governance.Errors.{None, Result, ok, err, correction_validation, ◌>>=◌, ◌>>◌}
use agentic_governance.Cost.Numbers.{ℤ, pos, negsuc}
use Prim.Native.String.{[] as nil, ◌∷◌ as ◌::◌, count}
use Prim.Native.Char.{code}

-- A value of a payload, by its type; `moment` is a datetime, in UTC, or none where it is naive.
pub data FieldValue : Type 0 where
  null other_value : FieldValue
  text : String → FieldValue
  integer : ℤ → FieldValue
  boolean : Bool → FieldValue
  moment : Option ℕ → FieldValue

-- `first_forbidden` is the first of FORBIDDEN_NOTE_PATTERNS that is found in the text.
pub record CorrectionEnv : Type 0 where
  pub normalize : String → String
  pub first_forbidden : String → Option String
  pub strip : String → String
  -- none where it raises; and none within where the parsed datetime is naive
  pub fromisoformat : String → Option (Option ℕ)

pub record Correction : Type 0 where
  pub kind : String
  pub reason : String
  pub operator_id : String
  pub ref_chain_seq_start : ℕ
  pub ref_chain_seq_end : ℕ
  pub note : String
  pub created_at : Option ℕ

abbrev pub permitted_kinds : List String
permitted_kinds = "audit.correction" ∷ []

abbrev pub allowed_fields : List String
allowed_fields =
    "kind" ∷ "ref_chain_seq_start" ∷ "ref_chain_seq_end" ∷ "reason" ∷ "operator_id" ∷ "note"
    ∷ "created_at" ∷ []

abbrev pub allowed_reasons : List String
allowed_reasons =
    "operator_marked_erroneous" ∷ "agent_theater_retraction" ∷ "manual_audit_hygiene" ∷ []

-- sorted(_REQUIRED_FIELDS)
abbrev pub required_fields : List String
required_fields =
    "kind" ∷ "operator_id" ∷ "reason" ∷ "ref_chain_seq_end" ∷ "ref_chain_seq_start" ∷ []

-- if bad: raise CorrectionValidationError(field, reason)
abbrev pub reject_if : Bool → (field reason : String) → Result None
reject_if bad field reason = if bad then err (correction_validation field reason) else ok tt

-- set(key)
abbrev pub set_of_bytes : List ℕ → List ℕ
set_of_bytes [] = []
set_of_bytes (b ∷ bs) = if contains b bs then set_of_bytes bs else b ∷ set_of_bytes bs

unfoldable pub check_key_strength : (hmac_key : List ℕ) → Result None
check_key_strength key = do
  reject_if (ltb (length key) 16) "hmac_key" "key_too_short"
  reject_if (ltb (length (set_of_bytes key)) 8) "hmac_key" "key_low_entropy"

unfoldable pub check_fields : Dict String FieldValue → Result None
check_fields [] = ok tt
check_fields ((field, v) ∷ rest) =
    reject_if (not (contains field allowed_fields)) field "field_not_in_allowlist"
    >> check_fields rest

unfoldable pub check_required : List String → Dict String FieldValue → Result None
check_required [] payload = ok tt
check_required (field ∷ fields) payload =
    reject_if (not (has payload field)) field "required_field_missing"
    >> check_required fields payload

-- A field that must be one of the given texts.
abbrev pub one_of :
    (allowed : List String) → (field missing wrong : String) → Option FieldValue → Result String
one_of allowed field missing wrong (some (text s)) =
    reject_if (not (contains s allowed)) field wrong >> ok s
one_of allowed field missing wrong _ = err (correction_validation field missing)

abbrev pub validate_kind : Option FieldValue → Result String
validate_kind = one_of permitted_kinds "kind" "missing_or_non_string" "kind_not_in_allowlist"

abbrev pub validate_reason : Option FieldValue → Result String
validate_reason =
    one_of allowed_reasons "reason" "missing_or_non_string" "free_text_reason_rejected"

-- int, and not bool
abbrev pub validate_seq : (field : String) → Option FieldValue → Result ℕ
validate_seq field (some (integer (pos n))) = ok n
validate_seq field (some (integer (negsuc n))) = err (correction_validation field "negative")
validate_seq field _ = err (correction_validation field "missing_or_non_int")

abbrev pub validate_seq_bounds : (start end : Option FieldValue) → Result (ℕ × ℕ)
validate_seq_bounds start end = validate_seq "ref_chain_seq_start" start >>= λ s.
    validate_seq "ref_chain_seq_end" end >>= λ e.
    reject_if (ltb e s) "ref_chain_seq_end" "end_before_start" >> ok (s, e)

-- candidate[:-1] + "+00:00", where it ends in "Z"
abbrev pub utc_text : String → String
utc_text nil = nil
utc_text (x :: nil) = if nat_beq (code x) 90 then "+00:00" else x :: nil
utc_text (x :: y :: s) = x :: utc_text (y :: s)

module _ (env : CorrectionEnv) where
  abbrev pub validate_operator_id : Option FieldValue → Result String
  validate_operator_id (some (text s)) =
      reject_if (nat_beq (count (env.strip s)) 0) "operator_id" "missing_or_empty" >> ok s
  validate_operator_id _ = err (correction_validation "operator_id" "missing_or_empty")

  abbrev pub unless_forbidden : (note : String) → Option String → Result String
  unless_forbidden note none = ok note
  unless_forbidden note (some pattern) = err (correction_validation "note" pattern)

  abbrev pub check_note : (note : String) → Result String
  check_note note =
      reject_if (ltb 256 (count note)) "note" "over_256_chars"
      >> unless_forbidden note (env.first_forbidden (env.normalize note))

  abbrev pub validate_note : Option FieldValue → Result String
  validate_note none = check_note ""
  validate_note (some null) = check_note ""
  validate_note (some (text s)) = check_note s
  validate_note _ = err (correction_validation "note" "non_string")

  abbrev pub aware : Option ℕ → Result (Option ℕ)
  aware none = err (correction_validation "created_at" "naive_datetime")
  aware (some t) = ok (some t)

  abbrev pub parsed : Option (Option ℕ) → Result (Option ℕ)
  parsed none = err (correction_validation "created_at" "invalid_iso8601")
  parsed (some o) = aware o

  -- `_validate_created_at`, if the field is in the payload
  abbrev pub validate_created_at : Option FieldValue → Result (Option ℕ)
  validate_created_at none = ok none
  validate_created_at (some (moment o)) = aware o
  validate_created_at (some (text s)) = parsed (env.fromisoformat (utc_text (env.strip s)))
  validate_created_at _ = err (correction_validation "created_at" "invalid_type")

  -- The checks before the required fields, and the note.
  abbrev pub check_payload : Dict String FieldValue → (hmac_key : List ℕ) → Result String
  check_payload payload key =
      reject_if (nat_beq (length payload) 0) "payload" "empty"
      >> (check_key_strength key >> (check_fields payload >> validate_note (get payload "note")))

  module _ (payload : Dict String FieldValue) (note : String) where
    abbrev pub sanitized :
        (kind reason operator_id : String)
        → (bounds : ℕ × ℕ) → (created_at : Option ℕ) → Result Correction
    sanitized kind reason operator_id (start, end) created_at = ok (record {
      kind = kind;
      reason = reason;
      operator_id = operator_id;
      ref_chain_seq_start = start;
      ref_chain_seq_end = end;
      note = note;
      created_at = created_at;
    })

    abbrev pub read_created : (kind reason operator_id : String) → ℕ × ℕ → Result Correction
    read_created kind reason operator_id bounds =
        validate_created_at (get payload "created_at") >>= sanitized kind reason operator_id bounds

    abbrev pub read_bounds : (kind reason operator_id : String) → Result Correction
    read_bounds kind reason operator_id =
        validate_seq_bounds (get payload "ref_chain_seq_start") (get payload "ref_chain_seq_end")
        >>= read_created kind reason operator_id

    abbrev pub read_operator : (kind reason : String) → Result Correction
    read_operator kind reason =
        validate_operator_id (get payload "operator_id") >>= read_bounds kind reason

    abbrev pub read_reason : (kind : String) → Result Correction
    read_reason kind = validate_reason (get payload "reason") >>= read_operator kind

    abbrev pub read_kind : Result Correction
    read_kind =
        (check_required required_fields payload >> validate_kind (get payload "kind"))
        >>= read_reason

  unfoldable pub validate_correction_payload :
      Dict String FieldValue → (hmac_key : List ℕ) → Result Correction
  unfolding check_key_strength check_fields check_required
  validate_correction_payload payload key = check_payload payload key >>= read_kind payload
