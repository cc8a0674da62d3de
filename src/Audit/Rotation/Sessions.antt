-- ===== src/Audit/Rotation/Sessions.antt =====
-- What a rotation does to the chain of the session that its marker is filed under.
use agentic_governance.Prelude.{
  ℕ, ◌≡◌, refl, sym, ap, ◌∙◌, true, false, none, List, [], ◌∷◌, ◌++◌, All, Eq, map, keep, nat_beq,
  nat_beq_iff, Option-cases, arith, inl, inr,
}
use agentic_governance.Errors.{Exception, ok, err, runtime_error, chain_integrity, head_truncated}
use agentic_governance.Audit.Crypto.{Crypto}
use agentic_governance.Audit.Chain.{Record}
use agentic_governance.Audit.Chain.Verify.{check_genesis, verify_chain_records}
use agentic_governance.Audit.Keys.{KeyEnv}
use agentic_governance.Audit.Rotation.{
  ChainVerifyRow, ChainDb, RotationCall, RotationResult, rotate_chain_key, rotated,
  outgoing_version, marker_row, last_hash_of,
}
use agentic_governance.Audit.Rotation.Handover.{done_differ, done_new, rotate_found}

module _ (c : Crypto) where
  -- The records of a session, in the order of their insertion.
  unfoldable pub session_records : (session_id : ℕ) → List (ChainVerifyRow c) → List (Record c)
  session_records session_id rows =
      map (λ row. row.event) (keep (λ row. nat_beq row.event.session_id session_id) rows)

  abbrev pub IsElsewhere : (session_id : ℕ) → List (ChainVerifyRow c) → Type 0
  IsElsewhere session_id rows = All (λ row. nat_beq row.event.session_id session_id ≡ false) rows

  only_last :
      (session_id : ℕ) (rows : List (ChainVerifyRow c)) (row : ChainVerifyRow c)
      → IsElsewhere session_id rows
      → nat_beq row.event.session_id session_id ≡ true
      → session_records session_id (rows ++ row ∷ []) ≡ row.event ∷ []
  unfolding session_records
  only_last session_id [] row h e = rw e refl
  only_last session_id (r ∷ rs) row (h, hs) e = rw h (only_last session_id rs row hs e)

  module _ (env : KeyEnv c.Secret) (secret_eq : Eq c.Secret) where
    -- What a rotation that returns has written.
    done_rotated :
        (x : RotationCall c) (r : RotationResult) (db : ChainDb c)
        → (rotate_chain_key c env secret_eq x db).0 ≡ ok r
        → (version : ℕ) × ((rotate_chain_key c env secret_eq x db).1
            ≡ rotated c env secret_eq x version db)
    unfolding rotate_chain_key
    done_rotated x r db h =
        let differ = done_differ c env secret_eq x r db h in
        elim (Option-cases
          (outgoing_version (env.fingerprint_key x.outgoing_secret) db.chain_keys)) [
            | inl e ↦ elim (refused (sym (absent differ e) ∙ h)) [ ]
            | inr (version, e) ↦ (
              version,
              ap (λ p. p.1)
                  (rotate_found c env secret_eq x version db differ e
                    (done_new c env secret_eq x r db h)),
            )
          ]
      where
        refused : {e : Exception} → err e ≡ ok r → ⊥
        refused h = ground (arith, h)

        absent :
            secret_eq.beq x.outgoing_secret x.incoming_secret ≡ false
            → outgoing_version (env.fingerprint_key x.outgoing_secret) db.chain_keys ≡ none
            → (rotate_chain_key c env secret_eq x db).0 ≡ err runtime_error
        absent e f = rw (e, f) refl

    -- Where the table has an event and none of the session of the marker, the chain of this session is
    -- refused after the rotation as one whose head was deleted, under every key.
    pub rotate_chain_key-head_truncated :
        (x : RotationCall c) (r : RotationResult) (db : ChainDb c) (k : c.Secret)
        (first : ChainVerifyRow c) (rest : List (ChainVerifyRow c))
        → db.events ≡ first ∷ rest
        → IsElsewhere x.session_id db.events
        → (rotate_chain_key c env secret_eq x db).0 ≡ ok r
        → verify_chain_records c k
            (session_records x.session_id (rotate_chain_key c env secret_eq x db).1.events)
          ≡ err (chain_integrity head_truncated)
    unfolding verify_chain_records
    rotate_chain_key-head_truncated x r db k first rest e elsewhere done =
        let (version, made) = done_rotated x r db done in
        let row = marker_row c env secret_eq x version (last_hash_of c db.events) in
        ap (λ d. verify_chain_records c k (session_records x.session_id d.events)) made
        ∙ ap (verify_chain_records c k) (
            only_last x.session_id db.events row elsewhere
              ((nat_beq_iff x.session_id x.session_id).1 refl))
        ∙ rw (e, check_genesis) refl
