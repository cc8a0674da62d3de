-- ===== src/Audit/Crypto.antt =====
-- What the audit chain takes from outside the repository: `json.dumps` on the payload dict, the
-- HMAC-SHA256 of `hmac`/`hashlib`, the metadata dicts that callers pass, and Ed25519.
use agentic_governance.Prelude.{Eq, ◌≡◌}
use agentic_governance.Audit.Models.{Payload}

pub record Crypto : Type 1 where
  pub Metadata : Type 0
  pub Digest : Type 0
  pub Signature : Type 0
  pub Bytes : Type 0
  pub Secret : Type 0
  -- json.dumps(payload, sort_keys=True, ...).encode("utf-8")
  pub canonical : Payload Metadata Digest → Bytes
  -- hmac.new(secret, message, sha256).hexdigest()
  pub hexdigest : Secret → Bytes → Digest
  -- `hmac.compare_digest`, and `!=` on hashes
  pub digest_eq : Eq Digest

-- The contract of the two, as far as they are relied on: distinct payloads have distinct texts, and no two messages
-- collide under one key.
pub record IsCollisionFree (c : Crypto) : Type 0 where
  pub canonical_injective :
      (p q : Payload c.Metadata c.Digest) → c.canonical p ≡ c.canonical q → p ≡ q
  pub hexdigest_injective :
      (k : c.Secret) (m n : c.Bytes) → c.hexdigest k m ≡ c.hexdigest k n → m ≡ n
