-- ===== src/Tests/CorrectionRuns.antt =====
-- A correction by an operator.
use agentic_governance.Prelude.{
  ℕ, ◌≡◌, refl, String, none, some, List, [], ◌∷◌, string_eq, ◌==◌, if◌then◌else◌,
}
use agentic_governance.Prelude.Dict.{Dict, get}
use agentic_governance.Errors.{ok, err, correction_validation}
use agentic_governance.Audit.Chain.{Record}
use agentic_governance.Audit.Models.{AuditEvent}
use agentic_governance.Audit.Event.{audit_event, sanitized_event}
use agentic_governance.Audit.Log.{log}
use agentic_governance.Cost.Numbers.{pos}
use agentic_governance.Audit.Corrections.{
  FieldValue, text, integer, moment, CorrectionEnv, Correction, validate_correction_payload,
  check_fields, check_required, check_key_strength,
}
use agentic_governance.Audit.Corrections.Revalidation.{IsClean, to_payload}
use agentic_governance.Audit.Corrections.Sanctioned.{
  log_validated_correction, correction_call, correction_event, log_validated_correction-validate,
  log_validated_correction-IsClean,
}
use agentic_governance.Tests.Toy.{toy, toy_env, toy_config, toy_call, toy_log}

abbrev reader : CorrectionEnv
reader = record {
  normalize = λ s. s;
  first_forbidden = λ s. if s == "see /tmp/x" then some "/tmp/" else none;
  strip = λ s. s;
  fromisoformat = λ s. none;
}

abbrev payload_with : (note : String) → Dict String FieldValue
payload_with note =
    ("kind", text "audit.correction")
    ∷ ("ref_chain_seq_start", integer (pos 3))
    ∷ ("ref_chain_seq_end", integer (pos 5))
    ∷ ("reason", text "manual_audit_hygiene")
    ∷ ("operator_id", text "ops")
    ∷ ("note", text note)
    ∷ ("created_at", moment (some 1000))
    ∷ []

abbrev strong_key : List ℕ
strong_key = 0 ∷ 1 ∷ 2 ∷ 3 ∷ 4 ∷ 5 ∷ 6 ∷ 7 ∷ 8 ∷ 9 ∷ 10 ∷ 11 ∷ 12 ∷ 13 ∷ 14 ∷ 15 ∷ []

abbrev hygiene : Correction
hygiene = record {
  kind = "audit.correction";
  reason = "manual_audit_hygiene";
  operator_id = "ops";
  ref_chain_seq_start = 3;
  ref_chain_seq_end = 5;
  note = "cleaned";
  created_at = some 1000;
}

validated : validate_correction_payload reader (payload_with "cleaned") strong_key ≡ ok hygiene
unfolding validate_correction_payload check_fields check_required check_key_strength get
validated = refl

leaks :
    validate_correction_payload reader (payload_with "see /tmp/x") strong_key
    ≡ err (correction_validation "note" "/tmp/")
unfolding validate_correction_payload check_fields check_required check_key_strength get
leaks = refl

abbrev texts : Correction → ℕ
texts s = 8

abbrev hygiene_event : AuditEvent ℕ
hygiene_event = correction_event toy reader toy_env texts hygiene

made : audit_event toy_env hygiene_event ≡ ok hygiene_event
unfolding audit_event
made = refl

log_validated_correction-validate_example :
    IsClean reader hygiene
    × (log_validated_correction toy reader toy_env texts toy_config
          (toy_call "x" 60)
          (to_payload reader hygiene)
          strong_key
          toy_log
        ≡ log toy toy_config
            (correction_call toy reader toy_env texts (toy_call "x" 60) hygiene_event)
            toy_log)
    × ((r : Record toy) × ((log_validated_correction toy reader toy_env texts toy_config
            (toy_call "x" 60)
            (to_payload reader hygiene)
            strong_key
            toy_log).0
          ≡ ok r))
log_validated_correction-validate_example =
    log_validated_correction-validate toy reader toy_env texts toy_config (toy_call "x" 60)
      (payload_with "cleaned") strong_key hygiene hygiene_event toy_log validated made

-- The record that the log returns.
abbrev written :
    (r : Record toy) × ((log_validated_correction toy reader toy_env texts toy_config
        (toy_call "x" 60)
        (to_payload reader hygiene)
        strong_key
        toy_log).0
      ≡ ok r)
written =
    (log_validated_correction-validate toy reader toy_env texts toy_config (toy_call "x" 60)
      (payload_with "cleaned") strong_key hygiene hygiene_event toy_log validated made).2

log_validated_correction-IsClean_example :
    (s : Correction) × (validate_correction_payload reader (to_payload reader hygiene) strong_key
      ≡ ok s)
    × IsClean reader s
    × (audit_event toy_env (correction_event toy reader toy_env texts s)
        ≡ ok (sanitized_event toy_env (correction_event toy reader toy_env texts s)))
    × ((log_validated_correction toy reader toy_env texts toy_config
          (toy_call "x" 60)
          (to_payload reader hygiene)
          strong_key
          toy_log).1
        ≡ (log toy toy_config
            (correction_call toy reader toy_env texts
              (toy_call "x" 60)
              (sanitized_event toy_env (correction_event toy reader toy_env texts s)))
            toy_log).1)
log_validated_correction-IsClean_example =
    log_validated_correction-IsClean toy reader toy_env texts toy_config (toy_call "x" 60)
      (to_payload reader hygiene) strong_key toy_log written.0 written.1
