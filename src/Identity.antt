-- ===== src/Identity.antt =====
-- identity/registry.py: the registry of the agents' public keys, in its in-memory mode. Not modelled:
-- the methods that need an engine (SQL).
pub mod Revocation
pub mod Signing
pub mod Activation
pub mod Windows
pub mod Revoked
pub mod Trust
use agentic_governance.Prelude.{
  ℕ, String, Bool, true, false, Option, none, some, List, [], ◌∷◌, ◌++◌, Eq, ◌==◌, string_eq, leb,
  ltb, nat_beq, keep, exists, map_some, if◌then◌else◌, ◌&&◌,
}
use agentic_governance.Prelude.Dict.{Dict, get, get_or, put}
use agentic_governance.Errors.{Result, ok, err, value_error}
use agentic_governance.Exec.{Exec}

pub record AgentKeyRecord : Type 0 where
  pub key_fingerprint : String
  pub agent_id : String
  pub public_key_pem : String
  pub activated_at_chain_seq : ℕ

pub record Registry : Type 0 where
  pub by_fingerprint : Dict String AgentKeyRecord
  pub by_agent : Dict String (List AgentKeyRecord)

abbrev pub no_keys : Registry
no_keys = record { by_fingerprint = []; by_agent = [] }

-- `==` of the dataclass
abbrev pub same_record : AgentKeyRecord → AgentKeyRecord → Bool
same_record r s =
    (r.key_fingerprint == s.key_fingerprint)
    && (r.agent_id == s.agent_id)
    && (r.public_key_pem == s.public_key_pem)
    && nat_beq r.activated_at_chain_seq s.activated_at_chain_seq

abbrev pub keys_of : Registry → (agent_id : String) → List AgentKeyRecord
keys_of s agent_id = get_or s.by_agent agent_id []

-- Both dicts take the record; `setdefault(agent_id, []).append(record)`.
abbrev pub add_key : AgentKeyRecord → Registry → Registry
add_key r s = record {
  by_fingerprint = put s.by_fingerprint r.key_fingerprint r;
  by_agent = put s.by_agent r.agent_id (keys_of s r.agent_id ++ r ∷ []);
}

-- The loop over the keys of the agent: one that is activated at the same number or later.
abbrev pub overlaps : AgentKeyRecord → List AgentKeyRecord → Bool
overlaps r = exists (λ prior. leb r.activated_at_chain_seq prior.activated_at_chain_seq)

unfoldable pub register : AgentKeyRecord → Exec Registry AgentKeyRecord
register r s = elim (get s.by_fingerprint r.key_fingerprint) [
  | some existing ↦ if same_record existing r then (ok existing, s) else (err value_error, s)
  | none ↦ if overlaps r (keys_of s r.agent_id) then (err value_error, s) else (ok r, add_key r s)
]

-- `_cache_existing`
unfoldable pub cache_existing : AgentKeyRecord → Exec Registry AgentKeyRecord
cache_existing r s = elim (get s.by_fingerprint r.key_fingerprint) [
  | some existing ↦ (ok existing, s)
  | none ↦ (ok r, add_key r s)
]

unfoldable pub get_by_fingerprint : (fingerprint : String) → Registry → Option AgentKeyRecord
get_by_fingerprint fingerprint s = get s.by_fingerprint fingerprint

-- max(..., key=activated_at_chain_seq): the first of the greatest
unfoldable pub newest : AgentKeyRecord → List AgentKeyRecord → AgentKeyRecord
newest r [] = r
newest r (s ∷ ss) =
    newest (if ltb r.activated_at_chain_seq s.activated_at_chain_seq then s else r) ss

abbrev pub newest_of : List AgentKeyRecord → Option AgentKeyRecord
newest_of [] = none
newest_of (r ∷ rs) = some (newest r rs)

unfoldable pub resolve : (agent_id : String) → (chain_seq : ℕ) → Registry → Option AgentKeyRecord
unfolding newest
resolve agent_id chain_seq s =
    newest_of (keep (λ r. leb r.activated_at_chain_seq chain_seq) (keys_of s agent_id))

-- `lookup_key_by_fingerprint` and `lookup_keys_for_agent` without an engine
unfoldable pub lookup_key_by_fingerprint : (fingerprint : String) → Registry → Option String
lookup_key_by_fingerprint fingerprint s =
    map_some (λ r. r.public_key_pem) (get s.by_fingerprint fingerprint)

abbrev pub lookup_keys_for_agent : (agent_id : String) → Registry → List AgentKeyRecord
lookup_keys_for_agent agent_id s = keys_of s agent_id
