-- ===== src/Identity/Signing.antt =====
-- audit/chain.py: the Ed25519 signature of an audit row and its verification, over the registry and the
-- revocations. The canonical JSON and the signature scheme are parameters.
use agentic_governance.Prelude.{ℕ, String, Bool, false, Option, none, some, if◌then◌else◌}
use agentic_governance.Errors.{Result, ok, err}
use agentic_governance.Audit.Crypto.{Crypto}
use agentic_governance.Audit.Models.{Payload, SignatureStatus}
use agentic_governance.Identity.{AgentKeyRecord, Registry, get_by_fingerprint}
use agentic_governance.Identity.Revocation.{RevocationStore, is_revoked_at}

module _ (c : Crypto) where
  -- The signature scheme of the `cryptography` package, and `Ed25519Signer.verify` on it.
  pub record Scheme : Type 1 where
    pub PrivateKey : Type 0
    -- private_key.sign, which may raise
    pub sign : PrivateKey → c.Bytes → Result c.Signature
    pub public_key_pem : PrivateKey → String
    pub verify : c.Bytes → c.Signature → (public_key_pem : String) → Bool
    -- sha256(pem).hexdigest()[:32]
    pub compute_fingerprint : String → String
    -- The canonical JSON of the fields of a row with its "hmac".
    pub canonical_row : Payload c.Metadata c.Digest → (hmac : c.Digest) → c.Bytes

  module _ (ed : Scheme) where
    -- `sign_audit_row`, which never raises. `signer` is none where identity is off.
    unfoldable pub sign_audit_row :
        (signer : Option ed.PrivateKey)
        → Payload c.Metadata c.Digest
        → (hmac : c.Digest) → Option c.Signature × Option String × SignatureStatus
    sign_audit_row none p hmac = (none, none, SignatureStatus.unsigned)
    sign_audit_row (some key) p hmac = elim (ed.sign key (ed.canonical_row p hmac)) [
      | ok signature ↦ (
        some signature,
        some (ed.compute_fingerprint (ed.public_key_pem key)),
        SignatureStatus.signed,
      )
      | err e ↦ (none, none, SignatureStatus.unsigned_local_failure)
    ]

    -- revocations is not None and revocations.is_revoked_at(...)
    abbrev pub is_revoked : Option RevocationStore → (fingerprint : String) → (chain_seq : ℕ) → Bool
    is_revoked none fingerprint chain_seq = false
    is_revoked (some s) fingerprint chain_seq = is_revoked_at fingerprint chain_seq s

    abbrev pub known_key : Option Registry → (fingerprint : String) → Option AgentKeyRecord
    known_key none fingerprint = none
    known_key (some s) fingerprint = get_by_fingerprint fingerprint s

    -- With both a signature and a fingerprint. `chain_seq` is the row's, or 0 where the row has none.
    unfoldable pub verify_signature :
        Payload c.Metadata c.Digest
        → (hmac : c.Digest) → (chain_seq : ℕ) → c.Signature
        → (fingerprint : String) → Option Registry
        → Option RevocationStore
        → SignatureStatus
    verify_signature p hmac chain_seq signature fingerprint registry revocations =
        let checked : SignatureStatus = elim (known_key registry fingerprint) [
          | none ↦ SignatureStatus.unknown_key
          | some key ↦
              if ed.verify (ed.canonical_row p hmac) signature key.public_key_pem
              then SignatureStatus.signed
              else SignatureStatus.invalid_signature
        ] in
        if is_revoked revocations fingerprint chain_seq
        then SignatureStatus.revoked_key
        else checked

    -- `verify_audit_row_signature`, on the row's status at the time of its writing, if it has one.
    unfoldable pub verify_audit_row_signature :
        Payload c.Metadata c.Digest
        → (hmac : c.Digest) → (chain_seq : ℕ) → (written_status : Option SignatureStatus)
        → Option c.Signature
        → Option String
        → Option Registry
        → Option RevocationStore
        → SignatureStatus
    unfolding verify_signature
    verify_audit_row_signature p hmac q status none none registry revocations = elim status [
      | none ↦ SignatureStatus.legacy_unsigned
      | some s ↦ s
    ]
    verify_audit_row_signature p hmac q status none (some f) registry revocations =
        SignatureStatus.invalid_signature
    verify_audit_row_signature p hmac q status (some g) none registry revocations =
        SignatureStatus.invalid_signature
    verify_audit_row_signature p hmac q status (some g) (some f) registry revocations =
        verify_signature p hmac q g f registry revocations
