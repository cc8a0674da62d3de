-- ===== src/Audit/Keys.antt =====
-- audit/keys.py: the key versions and the resolution of a fingerprint to a key. The environment, the
-- files and base64 are parameters that stay as they are during a verification, so that the bounded
-- cache of resolutions changes no answer and is not modelled.
pub mod Active
use agentic_governance.Prelude.{
  ℕ, zero, suc, String, Bool, true, false, Option, none, some, List, [], ◌∷◌, keep, leb, ltb,
  string_eq, ◌==◌, nat_beq, if◌then◌else◌, ◌&&◌,
}
use Prim.Native.String.{[] as nil, ◌∷◌ as ◌::◌, count}
use text.Mathlib.Text.{starts_with}

-- `retired_at_chain_seq` is none while the key is in use.
pub record KeyVersion : Type 0 where
  pub key_version : ℕ
  pub fingerprint : String
  pub activated_at_chain_seq : ℕ
  pub retired_at_chain_seq : Option ℕ

-- `K` is the type of keys.
pub record KeyEnv (K : Type 0) : Type 0 where
  pub fingerprint_key : K → String
  pub environ : String → Option String
  -- base64.b64decode(raw, validate=True), none where it raises, and raw.encode("utf-8")
  pub b64decode : String → Option K
  pub encode : String → K
  -- the bytes of a file, none where it does not exist or cannot be read
  pub read_bytes : String → Option K

-- s[n:]
unfoldable pub drop_chars : ℕ → String → String
drop_chars zero s = s
drop_chars (suc n) nil = nil
drop_chars (suc n) (x :: s) = drop_chars n s

module _ {K : Type 0} (env : KeyEnv K) where
  abbrev pub decoded : (raw : String) → Option K → K
  decoded raw none = env.encode raw
  decoded raw (some key) = key

  abbrev pub env_value : Option String → Option K
  env_value none = none
  env_value (some raw) =
      if nat_beq (count raw) 0 then none else some (decoded raw (env.b64decode raw))

  unfoldable pub resolve_uri : (uri : String) → Option K
  unfolding drop_chars
  resolve_uri uri =
      if starts_with uri "env://"
      then env_value (env.environ (drop_chars 6 uri))
      else if starts_with uri "file://"
      then env.read_bytes (drop_chars 7 uri)
      else none

  abbrev pub checked : (fingerprint : String) → Option K → Option K
  checked fingerprint none = none
  checked fingerprint (some material) =
      if env.fingerprint_key material == fingerprint then some material else none

  abbrev pub resolve_mapped : (fingerprint : String) → Option String → Option K
  resolve_mapped fingerprint none = none
  resolve_mapped fingerprint (some uri) =
      if nat_beq (count uri) 0 then none else checked fingerprint (resolve_uri uri)

  -- `ResolvedKey`: none where the status is UNAVAILABLE. `uri_map` is read by `get`.
  unfoldable pub resolve_key :
      (fingerprint : String) → (uri_map : String → Option String) → Option K
  unfolding resolve_uri
  resolve_key fingerprint uri_map = resolve_mapped fingerprint (uri_map fingerprint)

-- retired is None or retired > chain_seq
abbrev pub is_open_at : (chain_seq : ℕ) → Option ℕ → Bool
is_open_at chain_seq none = true
is_open_at chain_seq (some retired) = ltb chain_seq retired

abbrev pub is_active_at : (chain_seq : ℕ) → KeyVersion → Bool
is_active_at chain_seq kv =
    leb kv.activated_at_chain_seq chain_seq && is_open_at chain_seq kv.retired_at_chain_seq

-- max(..., key=activated_at_chain_seq): the first of the greatest
unfoldable pub latest : KeyVersion → List KeyVersion → KeyVersion
latest v [] = v
latest v (w ∷ ws) =
    latest (if ltb v.activated_at_chain_seq w.activated_at_chain_seq then w else v) ws

abbrev pub latest_of : List KeyVersion → Option KeyVersion
latest_of [] = none
latest_of (v ∷ vs) = some (latest v vs)

unfoldable pub find_active_key_at_seq : (chain_seq : ℕ) → List KeyVersion → Option KeyVersion
unfolding latest
find_active_key_at_seq chain_seq key_versions =
    latest_of (keep (is_active_at chain_seq) key_versions)

-- sorted(key_versions, key=activated_at_chain_seq), which is stable
unfoldable pub insert_version : KeyVersion → List KeyVersion → List KeyVersion
insert_version k [] = k ∷ []
insert_version k (l ∷ ls) =
    let rest = insert_version k ls in
    if leb k.activated_at_chain_seq l.activated_at_chain_seq then k ∷ l ∷ ls else l ∷ rest

unfoldable pub sort_versions : List KeyVersion → List KeyVersion
unfolding insert_version
sort_versions [] = []
sort_versions (k ∷ ks) = insert_version k (sort_versions ks)
