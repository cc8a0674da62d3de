-- ===== src/Tests/Toy.antt =====
-- A toy HMAC without collisions: the digest of a payload lists the contents of the whole chain.
use agentic_governance.Prelude.{
  ℕ, ◌+◌, String, Bool, true, false, Option, none, some, List, [], ◌∷◌, ◌≡◌, ◌↔◌, refl, sym, ap,
  ◌∙◌, arith, Eq, ◌==◌, nat_eq, string_eq, pair_eq, option_eq, ◌&&◌,
}
use agentic_governance.Audit.Crypto.{Crypto, IsCollisionFree}
use agentic_governance.Audit.Event.{EventEnv, IsNfc}
use agentic_governance.Audit.Models.{AuditEvent, Payload, SignatureStatus}
use agentic_governance.Audit.Log.{Config, Call, Log}
use agentic_governance.Audit.Store.{OnFull, init}
use agentic_governance.Presence.{Json}

module _ {A : Type 0} ⦃e : Eq A⦄ where
  abbrev pub list_beq : List A → List A → Bool
  list_beq [] [] = true
  list_beq (x ∷ xs) (y ∷ ys) = (x == y) && list_beq xs ys
  list_beq _ _ = false

  pub list_beq_iff : (xs ys : List A) → (list_beq xs ys ≡ true) ↔ (xs ≡ ys)
  list_beq_iff [] [] = ground arith
  list_beq_iff [] (y ∷ ys) = ground arith
  list_beq_iff (x ∷ xs) [] = ground arith
  list_beq_iff (x ∷ xs) (y ∷ ys) = ground (arith, e.beq_iff x y, list_beq_iff xs ys)

  instance abbrev pub list_eq : Eq (List A)
  list_eq = record { beq = list_beq; beq_iff = list_beq_iff }

-- A payload without its `prev_hash`.
abbrev pub Fields : Type 0
Fields =
    ((ℕ × ℕ) × (String × Option ℕ))
    × (((String × Option String) × (Option String × Option String)) × (ℕ × ℕ))

abbrev pub when_eq : Eq (ℕ × ℕ)
when_eq = pair_eq

abbrev pub names_eq : Eq (Option String × Option String)
names_eq = pair_eq {A = Option String} {B = Option String}

abbrev pub who_eq : Eq ((ℕ × ℕ) × (String × Option ℕ))
who_eq =
    pair_eq {A = ℕ × ℕ} {B = String × Option ℕ} ⦃e = when_eq⦄
      ⦃f = pair_eq {A = String} {B = Option ℕ}⦄

abbrev pub what_eq : Eq ((String × Option String) × (Option String × Option String))
what_eq =
    pair_eq {A = String × Option String} {B = Option String × Option String}
      ⦃e = pair_eq {A = String} {B = Option String}⦄ ⦃f = names_eq⦄

abbrev pub fields_eq : Eq Fields
fields_eq =
    pair_eq {A = (ℕ × ℕ) × (String × Option ℕ)}
      {B = ((String × Option String) × (Option String × Option String)) × (ℕ × ℕ)} ⦃e = who_eq⦄
      ⦃f = pair_eq {A = (String × Option String) × (Option String × Option String)} {B = ℕ × ℕ}
        ⦃e = what_eq⦄ ⦃f = when_eq⦄⦄

abbrev pub Tag : Type 0
Tag = Fields × List Fields

abbrev pub tail : Option Tag → List Fields
tail none = []
tail (some (f, fs)) = f ∷ fs

abbrev pub untail : List Fields → Option Tag
untail [] = none
untail (f ∷ fs) = some (f, fs)

untail-tail : (o : Option Tag) → untail (tail o) ≡ o
untail-tail none = refl
untail-tail (some (f, fs)) = refl

abbrev pub encode : Payload ℕ Tag → Tag
encode p = (
  (
    ((p.event_id, p.session_id), (p.agent_id, p.parent_event_id)),
    (((p.kind, p.model), (p.input_hash, p.output_hash)), (p.metadata, p.created_at)),
  ),
  tail p.prev_hash,
)

abbrev pub decode : Tag → Payload ℕ Tag
decode ((((i, s), (a, p)), (((k, m), (x, y)), (d, t))), before) = record {
  event_id = i;
  session_id = s;
  agent_id = a;
  parent_event_id = p;
  kind = k;
  model = m;
  input_hash = x;
  output_hash = y;
  metadata = d;
  prev_hash = untail before;
  created_at = t;
}

decode-encode : (p : Payload ℕ Tag) → decode (encode p) ≡ p
decode-encode p = ap (λ o. record p { prev_hash = o }) (untail-tail p.prev_hash)

abbrev pub toy : Crypto
toy = record {
  Metadata = ℕ;
  Digest = Tag;
  Signature = Unit;
  Bytes = Payload ℕ Tag;
  Secret = ℕ;
  canonical = λ p. p;
  hexdigest = λ _ p. encode p;
  digest_eq = pair_eq ⦃e = fields_eq⦄ ⦃f = list_eq ⦃e = fields_eq⦄⦄;
}

pub toy-IsCollisionFree : IsCollisionFree toy
toy-IsCollisionFree = record {
  canonical_injective = λ p q h. h;
  hexdigest_injective = λ k p q h. sym (decode-encode p) ∙ ap decode h ∙ decode-encode q;
}

abbrev pub toy_config : Config toy
toy_config = record {
  secret = 7;
  sign = λ p mac. (none, none, SignatureStatus.unsigned);
  marker_metadata = 99;
  unavailable = λ m. m;
  placeholder_hmac = ((((0, 0), ("", none)), ((("", none), (none, none)), (0, 0))), []);
}

abbrev pub toy_event : (kind : String) → AuditEvent ℕ
toy_event kind = record {
  session_id = some 1;
  agent_id = "billing";
  parent_event_id = none;
  kind = kind;
  model = none;
  input_hash = none;
  output_hash = none;
  metadata = 5;
}

-- The ids of a call are five successive numbers.
abbrev pub toy_call : (kind : String) → (event_id : ℕ) → Call toy
toy_call kind event_id = record {
  event = toy_event kind;
  current_session = none;
  current_parent = none;
  fresh_session = 77;
  created_at = 1000;
  event_id = event_id;
  marker_id = event_id + 1;
  marker_at = 1001;
  retry_event_id = event_id + 2;
  retry_marker_id = event_id + 3;
  retry_marker_at = 1002;
  placeholder_id = event_id + 4;
  placeholder_at = 1003;
  marker_outage = false;
  event_outage = false;
  sanctioned = false;
}

abbrev pub toy_json : Json
toy_json = record { Value = ℕ; empty = 0; dumps_len = λ m. m }

abbrev pub toy_env : EventEnv ℕ
toy_env = record {
  keys = λ m. 1;
  encoded_len = λ m. some m;
  map_texts = λ f m. m;
  normalize = λ s. s;
}

pub toy_env-IsNfc : IsNfc toy_env
toy_env-IsNfc s ascii = refl

abbrev pub toy_log : Log toy
toy_log = record {
  primary = init toy 100 OnFull.refuse;
  fallback = init toy 1 OnFull.evict;
  degraded_starts = [];
}
