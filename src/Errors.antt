-- ===== src/Errors.antt =====
-- The exceptions that the modules raise (errors.py and the errors.py of each package), with the
-- facts about the failure that the code puts into the message, and the result of what may raise.
use agentic_governance.Prelude.{ℕ, String, Option, ◌≡◌, refl, ◌⊎◌, inl, inr}

-- Why a chain is refused, with the position or the event that the message names.
pub data ChainFault : Type 0 where
  head_truncated : ChainFault
  bad_hmac gap : ℕ → ChainFault
  bad_event : ℕ → ChainFault
  fork : (first second : ℕ) → ChainFault
  truncated_store : (evicted : ℕ) → ChainFault

-- The message of an `ApprovalTokenError`.
pub data TokenFault : Type 0 where
  malformed malformed_key_prefix historical_key_unavailable signature_mismatch : TokenFault
  malformed_body bad_request_id bad_expiration expired : TokenFault
  already_used unknown_request_id action_hash_mismatch : TokenFault

pub data Cap : Type 0 where
  per_session_usd per_session_tokens per_agent_usd_daily : Cap
  per_agent_tokens_daily per_session_seconds store_unreachable : Cap

pub data Exception : Type 0 where
  value_error key_error index_error runtime_error : Exception
  store_unavailable integrity_error validation_error : Exception
  chain_integrity : ChainFault → Exception
  agent_halted :
      (agent_id halted_by : String) → (halted_at : Option ℕ) → (reason : Option String) → Exception
  policy_not_registered : Exception
  scope_violation_tool scope_violation_api : String → Exception
  loop_detected : (tool_name : String) → (count : ℕ) → Exception
  budget_exceeded : Cap → Exception
  unknown_model : String → Exception
  approval_token : TokenFault → Exception
  token_version_too_old : Exception
  approval_denied approval_timeout : (request_id : ℕ) → Exception
  contract_violation : (check message : String) → Exception
  correction_validation : (field reason : String) → Exception
  -- whatever a storage driver or a callback raises
  other : String → Exception

pub data Result {ℓ} (A : Type ℓ) : Type ℓ where
  ok : A → Result A
  err : Exception → Result A

-- What a function returns that returns no value.
abbrev pub None : Type 0
None = Unit {0}

infixl 5 ◌>>=◌ ◌>>◌
abbrev pub ◌>>=◌ {ℓ κ} : {A : Type ℓ} {B : Type κ} → Result A → (A → Result B) → Result B
ok a >>= f = f a
err e >>= f = err e

abbrev pub ◌>>◌ {ℓ κ} : {A : Type ℓ} {B : Type κ} → Result A → Result B → Result B
m >> k = m >>= λ _. k

pub Result-cases {ℓ} :
    {A : Type ℓ} (r : Result A) → ((a : A) × (r ≡ ok a)) ⊎ ((e : Exception) × (r ≡ err e))
Result-cases (ok a) = inl (a, refl)
Result-cases (err e) = inr (e, refl)
