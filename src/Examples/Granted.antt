-- ===== src/Examples/Granted.antt =====
-- A local client with a principal, and the reads of a stream that has been cut off.
use atol_sdk_go.Prelude.{pos, ◌≡◌, true, false, none, some, [], Str, bytes, arith}
use atol_sdk_go.Policy.Document.{Fields, no_fields}
use atol_sdk_go.Policy.Engine.{PolicyFailure}
use atol_sdk_go.Sdk.Gate.{staleness_off, Atol}
use atol_sdk_go.Sdk.Decide.{Principal, Clock, Extra}
use atol_sdk_go.Hmac.Stream.{
  ReadResult, VerifiedStreamReader, new_verified_stream_body, read_verified,
}
use atol_sdk_go.Hmac.Reads.{Agrees, read_verified-Agrees}
use atol_sdk_go.Examples.Client.{documents}
use atol_sdk_go.Examples.Hmac.{length_hash, cut_off}

abbrev pub local : Atol documents
local = record {
  local_only = true;
  disable_sync = false;
  staleness_mode = staleness_off;
  max_staleness = pos 0;
  bootstrapped = false;
  sync_client = none;
  serving_gate_required = false;
  serving_gate = none;
  decision_logger = none;
}

abbrev pub clock : Clock
clock = record { gate_now = 16; stale_now = 16; micros = pos 3; logged_at = 17 }

abbrev pub no_extra : Extra Str → Fields
no_extra x = no_fields

abbrev pub no_text : PolicyFailure → Str
no_text x = []

abbrev pub principal : Principal
principal = record {
  user_id = bytes "u";
  identity_id = [];
  org_id = bytes "o";
  email = [];
  email_verified = false;
  auth_method = bytes "mtls";
  roles = [];
  plan = [];
  mfa_verified = false;
  trust_domain = [];
  auth_time = none;
  client_ip = [];
}

read_verified-Agrees_example :
    (answer : ReadResult) × (r : VerifiedStreamReader) × (read_verified length_hash
        (bytes "k")
        4
        (new_verified_stream_body cut_off)
      ≡ some (answer, r))
    × Agrees length_hash (bytes "k") 3 (new_verified_stream_body cut_off) answer r
read_verified-Agrees_example =
    read_verified-Agrees length_hash (bytes "k") 3 4 (new_verified_stream_body cut_off)
      (omega arith)
