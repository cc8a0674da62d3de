-- ===== src/Audit/Rotation/History.antt =====
-- A table that honest writers fill: each event is signed under the key of its time, and rotations run
-- in between. The numbers of the rows grow.
use agentic_governance.Prelude.{ℕ, ◌<◌, ◌≡◌, true, none, List, [], ◌∷◌, ◌++◌, All, Eq}
use agentic_governance.Errors.{ok}
use agentic_governance.Audit.Crypto.{Crypto}
use agentic_governance.Audit.Chain.{verify_event}
use agentic_governance.Audit.Keys.{KeyVersion, KeyEnv}
use agentic_governance.Audit.Rotation.{
  ChainVerifyRow, ChainDb, RotationCall, RotationResult, marker_mac, rotate_chain_key,
}

module _ (c : Crypto) (env : KeyEnv c.Secret) (secret_eq : Eq c.Secret) where
  -- The tables, with the writers' key, the number of its version and the keys used so far.
  pub record System : Type 0 where
    pub db : ChainDb c
    pub secret : c.Secret
    pub version : ℕ
    pub used : List c.Secret

  -- The table with the first key, before any event.
  abbrev pub bootstrap : c.Secret → (version : ℕ) → System
  bootstrap secret version = record {
    db = record {
      events = [];
      chain_keys =
          record {
            key_version = version;
            fingerprint = env.fingerprint_key secret;
            activated_at_chain_seq = 0;
            retired_at_chain_seq = none;
          }
          ∷ [];
    };
    secret = secret;
    version = version;
    used = secret ∷ [];
  }

  abbrev pub IsNext : (chain_seq : ℕ) → List (ChainVerifyRow c) → Type 0
  IsNext chain_seq rows = All (λ row. row.chain_seq < chain_seq) rows

  -- The database draws a number for the new version that no row has.
  abbrev pub IsFresh : (version : ℕ) → List KeyVersion → Type 0
  IsFresh version vs = All (λ v. v.key_version ≡ version → ⊥) vs

  abbrev pub with_row : ChainVerifyRow c → System → System
  with_row row s = record s { db = record s.db { events = s.db.events ++ row ∷ [] } }

  abbrev pub with_key : RotationCall c → System → System
  with_key x s = record {
    db = (rotate_chain_key c env secret_eq x s.db).1;
    secret = x.incoming_secret;
    version = x.incoming_version;
    used = x.incoming_secret ∷ s.used;
  }

  pub data Reach (start : System) : System → Type 0 where
    here : Reach start start
    written :
        {s : System} (row : ChainVerifyRow c)
        → Reach start s
        → IsNext row.chain_seq s.db.events
        → marker_mac c row ≡ none
        → verify_event c row.event s.secret ≡ true
        → Reach start (with_row row s)
    turned :
        {s : System} (x : RotationCall c) (r : RotationResult)
        → Reach start s
        → x.outgoing_secret ≡ s.secret
        → IsNext x.marker_seq s.db.events
        → IsFresh x.incoming_version s.db.chain_keys
        → (rotate_chain_key c env secret_eq x s.db).0 ≡ ok r
        → Reach start (with_key x s)
