-- ===== src/Tests/RotationRuns.antt =====
-- A table with one event, a rotation, and an event under the new key.
use agentic_governance.Prelude.{
  ℕ, ◌≡◌, refl, sym, ap, ◌∙◌, String, Option, none, some, [], nat_eq, arith, if◌then◌else◌, ◌==◌,
  string_eq, length,
}
use agentic_governance.Errors.{ok, err, chain_integrity, head_truncated}
use agentic_governance.Audit.Models.{SignatureStatus}
use agentic_governance.Audit.Chain.{Record, compute_event_hmac, payload, verify_event}
use agentic_governance.Audit.Chain.Verify.{verify_chain_records}
use agentic_governance.Audit.Keys.{KeyEnv, resolve_key, resolve_uri, drop_chars}
use agentic_governance.Audit.Rotation.{
  ChainVerifyRow, RotationCall, rotate_chain_key, rotation_result, outgoing_version, newest_version,
  newest_row,
}
use agentic_governance.Audit.Rotation.Tally.{verify_chain_with_rotation, no_counts}
use agentic_governance.Audit.Rotation.History.{
  System, bootstrap, with_row, with_key, Reach, here, written, turned,
}
use agentic_governance.Audit.Rotation.Acceptance.{
  IsDistinct, verify_chain_with_rotation-Reach, rotate_chain_key-Reach,
}
use agentic_governance.Audit.Rotation.Sessions.{session_records, rotate_chain_key-head_truncated}
use agentic_governance.Tests.Toy.{toy}
use agentic_governance.Tests.TokenRuns.{tally, untally, untally-tally}

-- A key is a number, and its fingerprint the number in unary.
abbrev key_env : KeyEnv ℕ
key_env = record {
  fingerprint_key = tally;
  environ = some;
  b64decode = λ s. some (untally s);
  encode = untally;
  read_bytes = λ path. none;
}

abbrev uris : String → Option String
uris s = if s == "uuu" then some "env://uuu" else if s == "uu" then some "env://uu" else none

key_env-IsDistinct : IsDistinct toy key_env
key_env-IsDistinct k l h = sym (untally-tally k) ∙ ap untally h ∙ untally-tally l

abbrev stub : (event_id : ℕ) → Record toy
stub event_id = record {
  event_id = event_id;
  session_id = 1;
  agent_id = "billing";
  parent_event_id = none;
  kind = "tool.call";
  model = none;
  input_hash = none;
  output_hash = none;
  metadata = 5;
  prev_hash = none;
  hmac = ((((0, 0), ("", none)), ((("", none), (none, none)), (0, 0))), []);
  created_at = 1000;
  signature = none;
  signing_key_fingerprint = none;
  signature_status = SignatureStatus.unsigned;
}

abbrev signed_row : (secret chain_seq event_id : ℕ) → ChainVerifyRow toy
signed_row secret chain_seq event_id = record {
  chain_seq = chain_seq;
  event = record (stub event_id) {
    hmac = compute_event_hmac toy secret (payload toy (stub event_id));
  };
  hmac_next = none;
}

abbrev rotation : RotationCall toy
rotation = record {
  outgoing_secret = 3;
  incoming_secret = 2;
  session_id = 9;
  agent_id = "governance";
  event_id = 11;
  created_at = 1001;
  marker_seq = 6;
  incoming_version = 2;
  metadata = λ outgoing incoming version. version;
}

abbrev Table : Type 0
Table = System toy key_env nat_eq

abbrev start : Table
start = bootstrap toy key_env nat_eq 3 1

abbrev first_row : Table
first_row = with_row toy key_env nat_eq (signed_row 3 5 10) start

abbrev rotated_table : Table
rotated_table = with_key toy key_env nat_eq rotation first_row

abbrev whole : Table
whole = with_row toy key_env nat_eq (signed_row 2 7 12) rotated_table

first_reached : Reach toy key_env nat_eq start first_row
unfolding verify_event
first_reached = written (signed_row 3 5 10) here tt refl refl

rotation_done :
    (rotate_chain_key toy key_env nat_eq rotation first_row.db).0
    ≡ ok (rotation_result toy key_env nat_eq rotation 1)
unfolding rotate_chain_key outgoing_version newest_version newest_row
rotation_done = refl

whole_reached : Reach toy key_env nat_eq start whole
unfolding verify_event rotate_chain_key outgoing_version newest_version newest_row
whole_reached =
    written (signed_row 2 7 12)
      (turned rotation (rotation_result toy key_env nat_eq rotation 1) first_reached refl
        (omega arith, tt) ((λ h. omega (arith, h)), tt) rotation_done)
      (omega arith, (omega arith, tt)) refl refl

known3 : resolve_key key_env (tally 3) uris ≡ some 3
unfolding resolve_key resolve_uri drop_chars
known3 = refl

known2 : resolve_key key_env (tally 2) uris ≡ some 2
unfolding resolve_key resolve_uri drop_chars
known2 = refl

verify_chain_with_rotation-Reach_example :
    verify_chain_with_rotation toy key_env uris whole.db.events whole.db.chain_keys
    ≡ record { counts = record no_counts { verified_rows = length whole.db.events }; status = "ok" }
verify_chain_with_rotation-Reach_example =
    verify_chain_with_rotation-Reach toy key_env uris nat_eq 3 1 whole key_env-IsDistinct
      whole_reached (known2, (known3, tt))

-- The three rows are counted.
whole_length : length whole.db.events ≡ 3
unfolding rotate_chain_key outgoing_version newest_version newest_row
whole_length = refl

rotate_chain_key-Reach_example :
    let (answer, after) = rotate_chain_key toy key_env nat_eq rotation first_row.db in
    (answer ≡ ok (rotation_result toy key_env nat_eq rotation first_row.version))
    × (verify_chain_with_rotation toy key_env uris after.events after.chain_keys ≡ record {
      counts = record no_counts { verified_rows = length after.events };
      status = "ok";
    })
rotate_chain_key-Reach_example =
    rotate_chain_key-Reach toy key_env uris nat_eq 3 1 first_row rotation key_env-IsDistinct
      first_reached (known2, (known3, tt)) refl (λ h. omega (arith, h)) refl (omega arith, tt)
      ((λ h. omega (arith, h)), tt)

rotate_chain_key-head_truncated_example :
    verify_chain_records toy 3
      (session_records toy 9 (rotate_chain_key toy key_env nat_eq rotation first_row.db).1.events)
    ≡ err (chain_integrity head_truncated)
rotate_chain_key-head_truncated_example =
    rotate_chain_key-head_truncated toy key_env nat_eq rotation
      (rotation_result toy key_env nat_eq rotation 1) first_row.db 3 (signed_row 3 5 10) [] refl
      (refl, tt) rotation_done
