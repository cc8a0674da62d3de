-- ===== src/Audit/Rotation/Honest.antt =====
-- What stays true of an honest table, and that the verification accepts it.
use agentic_governance.Prelude.{
  ℕ, ◌+◌, ◌<◌, ◌≡◌, ◌≢◌, ◌⊎◌, refl, ap, ◌∙◌, String, Bool, true, false, Option, none, some, List,
  [], ◌∷◌, ◌++◌, All, All-append, Eq, arith, keep, Bool-cases, inl, inr, ◌==◌, string_eq, ◌&&◌, ltb,
  if◌then◌else◌,
}
use agentic_governance.Audit.Crypto.{Crypto}
use agentic_governance.Audit.Chain.{verify_event}
use agentic_governance.Audit.Keys.{KeyVersion, KeyEnv, resolve_key, sort_versions}
use agentic_governance.Audit.Keys.Active.{Some, Owns, find_active-Owns}
use agentic_governance.Audit.Rotation.{
  ChainVerifyRow, verified, marker_mac, outgoing_version, newest_version, is_unretired, judge,
  judge_marker, judge_under, verify_rotation_marker,
}
use agentic_governance.Audit.Rotation.Owners.{IsPast, IsCurrent, CurrentIf, current-Owns}
use agentic_governance.Audit.Rotation.History.{
  System, bootstrap, IsNext, with_row, Reach, here, written, turned,
}

-- The lookup of the outgoing version.
abbrev pub is_outgoing : String → KeyVersion → Bool
is_outgoing fp v = (v.fingerprint == fp) && is_unretired v.retired_at_chain_seq

outgoing_unretired : (o : Option ℕ) → (b : Bool) → (b && is_unretired o) ≡ true → o ≡ none
outgoing_unretired none b h = refl
outgoing_unretired (some r) true h = ground (arith, h)
outgoing_unretired (some r) false h = ground (arith, h)

pick_same : (n : ℕ) → (if ltb n n then n else n) ≡ n
pick_same n = ground arith

newest_more :
    (version : ℕ) (fp : String) (vs : List KeyVersion)
    → All (CurrentIf version fp) vs
    → newest_version (some version) (keep (is_outgoing fp) vs) ≡ some version
unfolding newest_version
newest_more version fp [] h = refl
newest_more version fp (v ∷ vs) (h, hs) = elim (Bool-cases (is_outgoing fp v)) [
  | inl e ↦
      let ws = keep (is_outgoing fp) vs in
      let same = (h (outgoing_unretired v.retired_at_chain_seq (v.fingerprint == fp) e)).1 in
      rw e (
        ap (λ k. newest_version (some (if ltb version k then k else version)) ws) same
        ∙ ap (λ k. newest_version (some k) ws) (pick_same version)
        ∙ newest_more version fp vs hs)
  | inr e ↦ rw e (newest_more version fp vs hs)
]

is_outgoing_current :
    (version : ℕ) (fp : String) (v : KeyVersion) → IsCurrent version fp v → is_outgoing fp v ≡ true
is_outgoing_current version fp v (e, same, f) =
    rw e (ground (arith, string_eq.beq_iff v.fingerprint fp, f))

-- The lookup finds the current version.
pub outgoing-IsCurrent :
    (version : ℕ) (fp : String) (vs : List KeyVersion)
    → Some (IsCurrent version fp) vs
    → All (CurrentIf version fp) vs
    → outgoing_version fp vs ≡ some version
unfolding outgoing_version
outgoing-IsCurrent version fp [] h g = elim h [ ]
outgoing-IsCurrent version fp (v ∷ vs) h (g, gs) = elim (Bool-cases (is_outgoing fp v)) [
  | inl e ↦
      let same = (g (outgoing_unretired v.retired_at_chain_seq (v.fingerprint == fp) e)).1 in
      rw (e, newest_version)
        (ap (λ k. newest_version (some k) (keep (is_outgoing fp) vs)) same
          ∙ newest_more version fp vs gs)
  | inr e ↦ elim h [
    | inl now ↦ elim (clash (is_outgoing_current version fp v now) e) [ ]
    | inr later ↦ rw (e, newest_version) (outgoing-IsCurrent version fp vs later gs)
  ]
]
  where
    clash : {b : Bool} → b ≡ true → b ≡ false → ⊥
    clash h g = ground arith

module _ (c : Crypto) (env : KeyEnv c.Secret) (uri_map : String → Option String) where
  -- The key is found from its fingerprint.
  abbrev pub IsKnown : c.Secret → Type 0
  IsKnown k = resolve_key env (env.fingerprint_key k) uri_map ≡ some k

  abbrev pub IsPlain : c.Secret → ChainVerifyRow c → Type 0
  IsPlain k row = (marker_mac c row ≡ none) × (verify_event c row.event k ≡ true)

  abbrev pub IsMarker : c.Secret → List KeyVersion → ChainVerifyRow c → Type 0
  IsMarker k vs row =
      (mac : c.Digest) × (next : c.Secret) × (marker_mac c row ≡ some mac)
      × IsKnown next
      × Owns (row.chain_seq + 1) (env.fingerprint_key next) vs
      × (env.fingerprint_key next ≢ env.fingerprint_key k)
      × (verify_rotation_marker c row.event mac k next ≡ true)

  -- A known key owns the row's number, and signed it.
  abbrev pub IsJustified : List KeyVersion → ChainVerifyRow c → Type 0
  IsJustified vs row =
      (k : c.Secret) × IsKnown k
      × Owns row.chain_seq (env.fingerprint_key k) vs
      × (IsPlain k row ⊎ IsMarker k vs row)

  differ : (s t : String) → s ≢ t → (s == t) ≡ false
  differ s t h = elim (Bool-cases (s == t)) [
    | inl e ↦ elim (h ((string_eq.beq_iff s t).0 e)) [ ]
    | inr e ↦ e
  ]

  marker_verified :
      (k : c.Secret) (vs : List KeyVersion) (row : ChainVerifyRow c) (h : IsMarker k vs row)
      → judge_marker c env uri_map (sort_versions vs) row h.0 (env.fingerprint_key k) k ≡ verified
  unfolding judge_marker
  marker_verified k vs row (mac, next, e, known, owns, other, good) =
      let (v, found, same) =
        find_active-Owns (row.chain_seq + 1) (env.fingerprint_key next) vs owns in
      rw
        (
          found,
          same,
          known,
          differ (env.fingerprint_key next) (env.fingerprint_key k) other,
          good,
          judge_marker,
        )
        refl

  pub justified_verified :
      (vs : List KeyVersion) (row : ChainVerifyRow c)
      → IsJustified vs row
      → judge c env uri_map (sort_versions vs) row ≡ verified
  unfolding judge
  justified_verified vs row (k, known, owns, h) =
      let (v, found, same) = find_active-Owns row.chain_seq (env.fingerprint_key k) vs owns in
      rw (found, same, known, judge)
        (elim h [
          | inl (e, good) ↦ rw (e, good, judge_under) refl
          | inr marker ↦ rw (marker.2, same, judge_under) (marker_verified k vs row marker)
        ])

  module _ (secret_eq : Eq c.Secret) where
    pub record Invariant (s : System c env secret_eq) : Type 0 where
      pub justified : All (IsJustified s.db.chain_keys) s.db.events
      pub past :
          (chain_seq : ℕ)
          → IsNext c env secret_eq chain_seq s.db.events
          → All (IsPast chain_seq) s.db.chain_keys
      pub current : Some (IsCurrent s.version (env.fingerprint_key s.secret)) s.db.chain_keys
      pub only : All (CurrentIf s.version (env.fingerprint_key s.secret)) s.db.chain_keys

    pub secret-IsKnown :
        (k : c.Secret) (version : ℕ) (s : System c env secret_eq)
        → Reach c env secret_eq (bootstrap c env secret_eq k version) s
        → All IsKnown s.used
        → IsKnown s.secret
    secret-IsKnown k version s here h = h.0
    secret-IsKnown k version s (written row reach next plain good) h =
        secret-IsKnown k version _ reach h
    secret-IsKnown k version s (turned x r reach mine next fresh done) h = h.0

    pub bootstrap-Invariant :
        (k : c.Secret) (version : ℕ) → Invariant (bootstrap c env secret_eq k version)
    bootstrap-Invariant k version = record {
      justified = tt;
      past = λ chain_seq _. ((omega arith, tt), tt);
      current = inl (refl, refl, refl);
      only = ((λ _. (refl, refl, refl)), tt);
    }

    pub split-IsNext :
        (chain_seq : ℕ) (rows : List (ChainVerifyRow c)) (row : ChainVerifyRow c)
        → IsNext c env secret_eq chain_seq (rows ++ row ∷ [])
        → IsNext c env secret_eq chain_seq rows × (row.chain_seq < chain_seq)
    split-IsNext chain_seq [] row (h, _) = (tt, h)
    split-IsNext chain_seq (r ∷ rs) row (h, hs) =
        let (below, last) = split-IsNext chain_seq rs row hs in ((h, below), last)

    pub written-Invariant :
        (s : System c env secret_eq) (row : ChainVerifyRow c)
        → Invariant s
        → IsKnown s.secret
        → IsNext c env secret_eq row.chain_seq s.db.events
        → IsPlain s.secret row
        → Invariant (with_row c env secret_eq row s)
    written-Invariant s row inv known next plain = record {
      justified =
          All-append (IsJustified s.db.chain_keys) s.db.events (row ∷ []) inv.justified
            ((s.secret, known, owner, inl plain), tt);
      past = λ chain_seq h. inv.past chain_seq (split-IsNext chain_seq s.db.events row h).0;
      current = inv.current;
      only = inv.only;
    }
      where
        owner : Owns row.chain_seq (env.fingerprint_key s.secret) s.db.chain_keys
        owner =
            current-Owns row.chain_seq s.version (env.fingerprint_key s.secret) s.db.chain_keys
              (inv.past row.chain_seq next) inv.current inv.only
