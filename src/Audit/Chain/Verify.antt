-- ===== src/Audit/Chain/Verify.antt =====
-- audit/module.py: the chain verifiers. `enumerate` and `range` are the counter of each loop.
use agentic_governance.Prelude.{
  ℕ, ◌+◌, Bool, true, Option, none, some, List, [], ◌∷◌, length, take, drop, ltb, nat_beq, is_some,
  if◌then◌else◌, option_eq, Eq, every, default, map_some, ◌&&◌,
}
use agentic_governance.Prelude.Dict.{Dict, get, put}
use agentic_governance.Errors.{
  None, Result, ok, err, ◌>>◌, value_error, chain_integrity, head_truncated, bad_hmac, gap,
  bad_event, fork,
}
use agentic_governance.Audit.Crypto.{Crypto}
use agentic_governance.Audit.Chain.{Record, verify_event}

module _ (c : Crypto) where
  -- `==` on hashes that may be None
  abbrev pub hash_eq : Eq (Option c.Digest)
  hash_eq = option_eq ⦃e = c.digest_eq⦄

  -- Pass 0: `records and records[0].prev_hash is not None`.
  unfoldable pub check_genesis : List (Record c) → Result None
  check_genesis [] = ok tt
  check_genesis (r ∷ rs) =
      if is_some r.prev_hash then err (chain_integrity head_truncated) else ok tt

  -- Pass 1, from the index `i` on.
  unfoldable pub check_hmacs : c.Secret → ℕ → List (Record c) → Result None
  check_hmacs secret i [] = ok tt
  check_hmacs secret i (r ∷ rs) =
      let rest = check_hmacs secret (i + 1) rs in
      if verify_event c r secret then rest else err (chain_integrity (bad_hmac i))

  -- Pass 2: `records[i].prev_hash != records[i - 1].hmac`, from the index `i` on.
  unfoldable pub check_links : ℕ → List (Record c) → Result None
  check_links i [] = ok tt
  check_links i (r ∷ []) = ok tt
  check_links i (r ∷ s ∷ rs) =
      let rest = check_links (i + 1) (s ∷ rs) in
      if hash_eq.beq s.prev_hash (some r.hmac) then rest else err (chain_integrity (gap i))

  unfoldable pub verify_chain_records : c.Secret → List (Record c) → Result Bool
  unfolding check_genesis
  verify_chain_records secret records = do
    check_genesis records
    check_hmacs secret 0 records
    check_links 1 records
    ok true

  -- The passes of `verify_chain` over the window that begins at `start`.
  unfoldable pub verify_window : c.Secret → ℕ → List (Record c) → Result Bool
  unfolding check_genesis
  verify_window secret start window = do
    if nat_beq start 0 then check_genesis window else ok tt
    check_hmacs secret start window
    check_links (start + 1) window
    ok true

  -- `verify_chain` after the events are fetched. `from_seq` and `to_seq` are not negative.
  unfoldable pub verify_chain : c.Secret → Option ℕ → Option ℕ → List (Record c) → Result Bool
  verify_chain secret from_seq to_seq events =
      let start = default from_seq 0 in
      let end = default (map_some (λ j. j + 1) to_seq) (length events) in
      let bad_range = is_some from_seq && is_some to_seq && ltb (default to_seq 0) start in
      if bad_range
      then err value_error
      else verify_window secret start (drop start (take end events))

  unfoldable pub verify_events_hmac : c.Secret → List (Record c) → Bool
  verify_events_hmac secret = every (λ r. verify_event c r secret)

  -- The loop of `trace_session_chain` over the HMACs; the message names the event.
  unfoldable pub check_events : c.Secret → List (Record c) → Result None
  check_events secret [] = ok tt
  check_events secret (r ∷ rs) =
      let rest = check_events secret rs in
      if verify_event c r secret then rest else err (chain_integrity (bad_event r.event_id))

  -- The loop over `seen_prev`, the dict from a `prev_hash` to the event that had it.
  unfoldable pub check_forks : Dict (Option c.Digest) ℕ → List (Record c) → Result None
  check_forks seen [] = ok tt
  check_forks seen (r ∷ rs) =
      let rest = check_forks (put ⦃e = hash_eq⦄ seen r.prev_hash r.event_id) rs in
      elim (get ⦃e = hash_eq⦄ seen r.prev_hash) [
        | some first ↦ err (chain_integrity (fork first r.event_id))
        | none ↦ rest
      ]

  unfoldable pub trace_session_chain : c.Secret → List (Record c) → Result (List (Record c))
  unfolding check_genesis
  trace_session_chain secret events = do
    check_events secret events
    check_forks [] events
    check_genesis events
    check_links 1 events
    ok events
