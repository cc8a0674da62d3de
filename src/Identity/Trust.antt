-- ===== src/Identity/Trust.antt =====
-- What a verified signature means, before and after revocations.
use agentic_governance.Prelude.{
  ℕ, ◌≤◌, ◌≡◌, refl, sym, ap, ◌∙◌, String, true, false, Option, none, some, List, inl, inr,
}
use agentic_governance.Errors.{ok, Result-cases}
use agentic_governance.Audit.Crypto.{Crypto}
use agentic_governance.Audit.Models.{Payload, SignatureStatus}
use agentic_governance.Identity.{AgentKeyRecord, Registry, get_by_fingerprint}
use agentic_governance.Identity.Revocation.{
  RevocationRecord, RevocationStore, is_revoked_at, Revoking,
}
use agentic_governance.Identity.Revoked.{
  RevocationStep, plain_step, step, run, run_keeps, revoke-is_revoked_at,
}
use agentic_governance.Identity.Signing.{
  Scheme, sign_audit_row, verify_signature, verify_audit_row_signature,
}

module _ (c : Crypto) (ed : Scheme c) where
  -- Once a key is revoked, a row with this number or a later one that carries a signature and the
  -- fingerprint of the key verifies as "revoked_key", whatever is revoked later and whatever the
  -- registry holds.
  pub verify_audit_row_signature-revoke :
      (r : RevocationRecord) (s : Revoking c) (os : List (RevocationStep c))
      (p : Payload c.Metadata c.Digest) (hmac : c.Digest) (q : ℕ) (status : Option SignatureStatus)
      (signature : c.Signature) (registry : Option Registry)
      → r.revoked_at_chain_seq ≤ q
      → verify_audit_row_signature c ed p hmac q status
          (some signature)
          (some r.key_fingerprint)
          registry
          (some (run c os (step c (plain_step r) s)).store)
        ≡ SignatureStatus.revoked_key
  unfolding verify_audit_row_signature
  verify_audit_row_signature-revoke r s os p hmac q status signature registry h =
      let revoked =
        run_keeps c os (step c (plain_step r) s) r.key_fingerprint q
          (revoke-is_revoked_at r s.store q h) in
      rw (revoked, verify_signature) refl

  -- A signature that the scheme makes is accepted under its public key.
  abbrev pub IsSound : Type 0
  IsSound =
      (key : ed.PrivateKey) (message : c.Bytes) (signature : c.Signature)
      → ed.sign key message ≡ ok signature
      → ed.verify message signature (ed.public_key_pem key) ≡ true

  -- A signer that has a registered key, unrevoked at the number.
  abbrev pub IsTrusted :
      Option ed.PrivateKey → Registry → RevocationStore → (chain_seq : ℕ) → Type 0
  IsTrusted none registry revocations q = Unit
  IsTrusted (some key) registry revocations q =
      let fingerprint = ed.compute_fingerprint (ed.public_key_pem key) in
      (known : AgentKeyRecord) × (get_by_fingerprint fingerprint registry ≡ some known)
      × (known.public_key_pem ≡ ed.public_key_pem key)
      × (is_revoked_at fingerprint q revocations ≡ false)

  -- The verification of what `sign_audit_row` wrote gives back the status that it wrote, without a
  -- signer, with one that fails, and with one that signs, if the key of the signer is registered
  -- under its fingerprint and is not revoked at the number of the row.
  pub verify_audit_row_signature-sign_audit_row :
      (signer : Option ed.PrivateKey) (registry : Registry) (revocations : RevocationStore)
      (p : Payload c.Metadata c.Digest) (hmac : c.Digest) (q : ℕ)
      → IsSound
      → IsTrusted signer registry revocations q
      → let (signature, fingerprint, status) = sign_audit_row c ed signer p hmac in
        verify_audit_row_signature c ed p hmac q
          (some status)
          signature
          fingerprint
          (some registry)
          (some revocations)
        ≡ status
  unfolding sign_audit_row verify_audit_row_signature
  verify_audit_row_signature-sign_audit_row none registry revocations p hmac q sound trusted = refl
  verify_audit_row_signature-sign_audit_row (some key) registry revocations p hmac q sound
        (known, e, same, free) =
      let fingerprint = ed.compute_fingerprint (ed.public_key_pem key) in
      elim (Result-cases (ed.sign key (ed.canonical_row p hmac))) [
        | inr (x, f) ↦
            read_back (none, none, SignatureStatus.unsigned_local_failure)
              (rw (f, sign_audit_row) refl) refl
        | inl (signature, f) ↦
            let good =
              ap (ed.verify (ed.canonical_row p hmac) signature) same
              ∙ sound key (ed.canonical_row p hmac) signature f in
            read_back (some signature, some fingerprint, SignatureStatus.signed)
              (rw (f, sign_audit_row) refl) (rw (free, e, good, verify_signature) refl)
      ]
    where
      reading : Option c.Signature × Option String × SignatureStatus → SignatureStatus
      reading (signature, fingerprint, status) =
          verify_audit_row_signature c ed p hmac q (some status) signature fingerprint
            (some registry) (some revocations)

      read_back :
          (t : Option c.Signature × Option String × SignatureStatus)
          → sign_audit_row c ed (some key) p hmac ≡ t
          → reading t ≡ t.2
          → reading (sign_audit_row c ed (some key) p hmac)
            ≡ (sign_audit_row c ed (some key) p hmac).2
      read_back t made good = ap reading made ∙ good ∙ sym (ap (λ u. u.2) made)
