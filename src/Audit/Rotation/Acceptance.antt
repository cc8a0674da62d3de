-- ===== src/Audit/Rotation/Acceptance.antt =====
-- The verification accepts every table that honest writers fill, and a rotation goes through there.
use agentic_governance.Prelude.{
  ℕ, ◌+◌, ◌≡◌, ◌≢◌, sym, ap, ◌∙◌, subst, String, Bool, true, false, Option, some, List, [], ◌∷◌,
  All, Eq, arith, length, Bool-cases, inl, inr,
}
use agentic_governance.Errors.{ok}
use agentic_governance.Audit.Crypto.{Crypto}
use agentic_governance.Audit.Keys.{KeyVersion, KeyEnv, sort_versions}
use agentic_governance.Audit.Rotation.{
  ChainVerifyRow, RotationCall, rotate_chain_key, rotation_result, outgoing_version, is_registered,
}
use agentic_governance.Audit.Rotation.Tally.{
  Counts, no_counts, count_rows, verify_chain_with_rotation,
}
use agentic_governance.Audit.Rotation.History.{
  System, bootstrap, IsNext, IsFresh, with_key, Reach, here, written, turned,
}
use agentic_governance.Audit.Rotation.Honest.{
  IsKnown, IsJustified, Invariant, outgoing-IsCurrent, justified_verified, secret-IsKnown,
  bootstrap-Invariant, written-Invariant,
}
use agentic_governance.Audit.Rotation.Handover.{
  done_differ, done_new, rotate_found, turned-Invariant,
}

module _ (c : Crypto) (env : KeyEnv c.Secret) where
  -- No two keys have one fingerprint.
  abbrev pub IsDistinct : Type 0
  IsDistinct = (k l : c.Secret) → env.fingerprint_key k ≡ env.fingerprint_key l → k ≡ l

  secrets_differ : (secret_eq : Eq c.Secret) (k l : c.Secret) → secret_eq.beq k l ≡ false → k ≢ l
  secrets_differ secret_eq k l h e = clash ((secret_eq.beq_iff k l).1 e) h
    where
      clash : {b : Bool} → b ≡ true → b ≡ false → ⊥
      clash h g = ground arith

  module _ (uri_map : String → Option String) (secret_eq : Eq c.Secret) where
    current_found :
        (s : System c env secret_eq) (x : RotationCall c)
        → Invariant c env uri_map secret_eq s
        → x.outgoing_secret ≡ s.secret
        → outgoing_version (env.fingerprint_key x.outgoing_secret) s.db.chain_keys ≡ some s.version
    current_found s x inv mine =
        ap (λ k. outgoing_version (env.fingerprint_key k) s.db.chain_keys) mine
        ∙ outgoing-IsCurrent s.version (env.fingerprint_key s.secret) s.db.chain_keys inv.current
            inv.only

    Reach-Invariant :
        (k : c.Secret) (version : ℕ) (s : System c env secret_eq)
        → IsDistinct
        → Reach c env secret_eq (bootstrap c env secret_eq k version) s
        → All (IsKnown c env uri_map) s.used
        → Invariant c env uri_map secret_eq s
    Reach-Invariant k version s one here h = bootstrap-Invariant c env uri_map secret_eq k version
    Reach-Invariant k version s one (written {s = t} row reach next plain good) h =
        written-Invariant c env uri_map secret_eq t row (Reach-Invariant k version t one reach h)
          (secret-IsKnown c env uri_map secret_eq k version t reach h) next (plain, good)
    Reach-Invariant k version s one (turned {s = t} x r reach mine next fresh done) (known, h) =
        let inv = Reach-Invariant k version t one reach h in
        let differ = done_differ c env secret_eq x r t.db done in
        let made =
          rotate_found c env secret_eq x t.version t.db differ (current_found t x inv mine)
            (done_new c env secret_eq x r t.db done) in
        subst
          (λ db.
            Invariant c env uri_map secret_eq (record (with_key c env secret_eq x t) { db = db }))
          (sym (ap (λ p. p.1) made))
          (turned-Invariant c env secret_eq uri_map x t inv mine
            (secret-IsKnown c env uri_map secret_eq k version t reach h) known next fresh
            (λ e.
              secrets_differ secret_eq x.outgoing_secret x.incoming_secret differ
                (sym (one x.incoming_secret x.outgoing_secret e))))

    All-verified :
        (vs : List KeyVersion) (rows : List (ChainVerifyRow c)) (n : Counts)
        → All (IsJustified c env uri_map vs) rows
        → count_rows c env uri_map (sort_versions vs) rows n
          ≡ record n { verified_rows = n.verified_rows + length rows }
    unfolding count_rows
    All-verified vs [] n h = ap (λ k. record n { verified_rows = k }) (omega arith)
    All-verified vs (row ∷ rows) n (h, hs) = rw (justified_verified c env uri_map vs row h) (
        All-verified vs rows (record n { verified_rows = n.verified_rows + 1 }) hs
        ∙ ap (λ k. record n { verified_rows = k }) (omega arith))

    -- A table that starts with one key and then takes events signed under the key of their time, and
    -- rotations from that key, is verified as a whole: every row counts as verified, none as failed or
    -- unverified, and the status is "ok". Every key used is found from its fingerprint, no two keys
    -- have one fingerprint, the sequence numbers of the rows grow, and a new key version has a number
    -- that is not taken.
    pub verify_chain_with_rotation-Reach :
        (k : c.Secret) (version : ℕ) (s : System c env secret_eq)
        → IsDistinct
        → Reach c env secret_eq (bootstrap c env secret_eq k version) s
        → All (IsKnown c env uri_map) s.used
        → verify_chain_with_rotation c env uri_map s.db.events s.db.chain_keys ≡ record {
          counts = record no_counts { verified_rows = length s.db.events };
          status = "ok";
        }
    unfolding verify_chain_with_rotation
    verify_chain_with_rotation-Reach k version s one reach known =
        let inv = Reach-Invariant k version s one reach known in
        rw (All-verified s.db.chain_keys s.db.events no_counts inv.justified) (
          ap (λ n. record { counts = record no_counts { verified_rows = n }; status = "ok" })
            (zero_plus (length s.db.events)))
      where
        zero_plus : (n : ℕ) → 0 + n ≡ n
        zero_plus n = omega arith

    -- From such a table, a rotation from the current key to a different one, whose fingerprint is not
    -- in the table of the keys, goes through: it retires the version of the current key, and the table
    -- that it leaves is verified as a whole again, the marker included. The conditions are those of
    -- such a table, and that the incoming key is found from its fingerprint, the marker gets the next
    -- sequence number and the new version a number that is not taken.
    pub rotate_chain_key-Reach :
        (k : c.Secret) (version : ℕ) (s : System c env secret_eq) (x : RotationCall c)
        → IsDistinct
        → Reach c env secret_eq (bootstrap c env secret_eq k version) s
        → All (IsKnown c env uri_map) (x.incoming_secret ∷ s.used)
        → x.outgoing_secret ≡ s.secret
        → x.incoming_secret ≢ s.secret
        → is_registered (env.fingerprint_key x.incoming_secret) s.db.chain_keys ≡ false
        → IsNext c env secret_eq x.marker_seq s.db.events
        → IsFresh c env secret_eq x.incoming_version s.db.chain_keys
        → let (answer, after) = rotate_chain_key c env secret_eq x s.db in
          (answer ≡ ok (rotation_result c env secret_eq x s.version))
          × (verify_chain_with_rotation c env uri_map after.events after.chain_keys ≡ record {
            counts = record no_counts { verified_rows = length after.events };
            status = "ok";
          })
    rotate_chain_key-Reach k version s x one reach (known, h) mine other new next fresh =
        let inv = Reach-Invariant k version s one reach h in
        let made =
          rotate_found c env secret_eq x s.version s.db different (current_found s x inv mine)
            new in
        let done = ap (λ p. p.0) made in
        (
          done,
          verify_chain_with_rotation-Reach k version (with_key c env secret_eq x s) one
              (turned x (rotation_result c env secret_eq x s.version) reach mine next fresh done)
              (known, h),
        )
      where
        different : secret_eq.beq x.outgoing_secret x.incoming_secret ≡ false
        different = elim (Bool-cases (secret_eq.beq x.outgoing_secret x.incoming_secret)) [
          | inl e ↦
              elim (other
                (sym ((secret_eq.beq_iff x.outgoing_secret x.incoming_secret).0 e) ∙ mine)) [ ]
          | inr e ↦ e
        ]
