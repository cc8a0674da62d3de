-- ===== src/Audit/Rotation/Tally.antt =====
-- audit/chain.py: `verify_chain_with_rotation`, which counts the verdicts.
use agentic_governance.Prelude.{ℕ, ◌+◌, String, List, [], ◌∷◌, ltb, Option, if◌then◌else◌}
use Prim.Native.String.{compare}
use Prim.Native.Nat.{Ordering, lt, eq, gt}
use agentic_governance.Audit.Crypto.{Crypto}
use agentic_governance.Audit.Keys.{KeyVersion, KeyEnv, sort_versions}
use agentic_governance.Audit.Rotation.{ChainVerifyRow, Verdict, verified, failed, unverified, judge}

-- `unresolved_fingerprints` is sorted from the start, without repetitions.
pub record Counts : Type 0 where
  pub verified_rows : ℕ
  pub failed_rows : ℕ
  pub unverified_rows : ℕ
  pub unresolved_fingerprints : List String

pub record ChainVerifyResult : Type 0 where
  pub counts : Counts
  pub status : String

abbrev pub placed : Ordering → String → (y : String) → (ys rest : List String) → List String
placed lt x y ys rest = x ∷ y ∷ ys
placed eq x y ys rest = y ∷ ys
placed gt x y ys rest = y ∷ rest

unfoldable pub add_sorted : String → List String → List String
add_sorted x [] = x ∷ []
add_sorted x (y ∷ ys) = placed (compare x y) x y ys (add_sorted x ys)

abbrev pub tally : Verdict → Counts → Counts
tally verified n = record n { verified_rows = n.verified_rows + 1 }
tally failed n = record n { failed_rows = n.failed_rows + 1 }
tally (unverified s) n = record n {
  unverified_rows = n.unverified_rows + 1;
  unresolved_fingerprints = add_sorted s n.unresolved_fingerprints;
}

abbrev pub status_of : Counts → String
status_of n =
    if ltb 0 n.failed_rows then "failed" else if ltb 0 n.unverified_rows then "unverified" else "ok"

abbrev pub no_counts : Counts
no_counts = record {
  verified_rows = 0;
  failed_rows = 0;
  unverified_rows = 0;
  unresolved_fingerprints = [];
}

module _ (c : Crypto) (env : KeyEnv c.Secret) (uri_map : String → Option String) where
  unfoldable pub count_rows : List KeyVersion → List (ChainVerifyRow c) → Counts → Counts
  unfolding add_sorted
  count_rows versions [] n = n
  count_rows versions (row ∷ rows) n =
      count_rows versions rows (tally (judge c env uri_map versions row) n)

  unfoldable pub verify_chain_with_rotation :
      List (ChainVerifyRow c) → List KeyVersion → ChainVerifyResult
  unfolding count_rows
  verify_chain_with_rotation rows key_versions =
      let n = count_rows (sort_versions key_versions) rows no_counts in
      record { counts = n; status = status_of n }
