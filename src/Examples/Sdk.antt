-- ===== src/Examples/Sdk.antt =====
-- The decision log, a proof of possession that is sent twice, and gated reads.
use atol_sdk_go.Prelude.{
  ℕ, ◌≤◌, ◌%◌, ◌^◌, ℤ, pos, true, false, ◌≡◌, refl, ◌≢◌, ◌↔◌, ◌⊎◌, List, [], ◌∷◌, ◌++◌, length,
  none, some, Str, bytes, str_dec, cut, lookup, insert, Result, ok, err, arith,
}
use atol_sdk_go.Decision.Log.{Entry, Call, logged, ticked, new_logger, log, run}
use atol_sdk_go.Decision.Queue.{kept, refused_count, sent, run_new}
use atol_sdk_go.Dpop.Guard.{new_memory_replay_guard, prune_expired, check_and_record}
use atol_sdk_go.Dpop.Validate.{
  Libraries, ecdsa_public, Claims, new_dpop_validator, DpopProof, without_suffix, without_port,
  access_token_hash, jwk_thumbprint_sha256, normalize_dpop_uri, proof_key, check_ath, check_claims,
  bind_key, read_proof, validate_string,
}
use atol_sdk_go.Dpop.Replay.{attempt, after, attempt-once}
use atol_sdk_go.Dpop.Replay
use atol_sdk_go.Sync.Client.Stream.{stream}
use atol_sdk_go.Sdk.Gate.{
  staleness_error, staleness_fail_closed, EvalResult, EvalInput, AuthError, refused, stale_result,
  stale_error, stale_deny, Atol, require_serving_active, evaluate_gated,
}
use atol_sdk_go.Sdk.Decide.{Clock, Extra, can}
use atol_sdk_go.Sdk.Audit.{can-logged}
use atol_sdk_go.Sdk.Quiet.{quiet-refuses}
use atol_sdk_go.Examples.Client.{documents, client, connection, setting}

abbrev an_entry : Str → Entry
an_entry user = record {
  request_id = [];
  user = user;
  relation = bytes "viewer";
  object = bytes "doc:1";
  allowed = true;
  matched_rule = [];
  eval_us = pos 0;
  zanzibar_calls = pos 0;
  auth_method = [];
  timestamp = 0;
}

-- Two entries into a log of one, a flush that fails, and one more.
abbrev calls : List Call
calls =
    logged 1 (an_entry (bytes "u"))
    ∷ logged 2 (an_entry (bytes "v"))
    ∷ ticked false
    ∷ logged 3 (an_entry (bytes "w"))
    ∷ []

run_new_example :
    let out = run calls (new_logger 1 5) in
    (sent out.0 ++ out.1.buffer.entries ≡ kept 1 5 0 calls)
    × (out.1.dropped ≡ refused_count 1 5 0 calls % 2 ^ 64)
    × (length out.1.buffer.entries ≤ 1)
run_new_example = run_new calls 1 5

-- A parser that knows one proof, of the key 7, which was issued at the second 100.
abbrev the_claims : Claims
the_claims = record { jti = bytes "j"; htm = bytes "GET"; htu = bytes "u"; ath = []; iat = pos 100 }

abbrev one_proof : Libraries
one_proof = record {
  Key = ℕ;
  Token = Unit;
  parse_signed = λ raw. some tt;
  headers = λ t. record { typ = some (bytes "dpop+jwt"); json_web_key = some 7 } ∷ [];
  is_public = λ k. true;
  kind = λ k. ecdsa_public;
  verified_claims = λ t k. some the_claims;
  thumbprint = λ k. some (bytes "k");
  sum256 = λ s. s;
  encode_to_string = λ s. s;
  parse_url = λ s. none;
  url_string = λ u. u.path;
  equal_fold = λ a b. true;
  to_lower = λ s. s;
  trim_space = λ s. s;
}

abbrev call_at : ℕ → Replay.Call
call_at now = record {
  now = pos now;
  guard_now = pos now;
  raw = bytes "proof";
  htm = bytes "GET";
  htu = bytes "u";
  expected_jkt = bytes "k";
  access_token = [];
}

abbrev the_proof : DpopProof
the_proof = record {
  jkt = bytes "k";
  jti = bytes "j";
  htm = bytes "GET";
  htu = bytes "u";
  ath = [];
  issued_at = pos 100000000000;
}

program : Unit {0}
unfolding str_dec cut lookup insert prune_expired check_and_record without_suffix without_port
    access_token_hash jwk_thumbprint_sha256 normalize_dpop_uri proof_key check_ath check_claims
    bind_key read_proof validate_string attempt
program = tt

accepts_once :
    (attempt one_proof new_dpop_validator (call_at 101000000000) new_memory_replay_guard).0
    ≡ ok the_proof
unfolding program
accepts_once = refl

attempt-once_example :
    (attempt one_proof new_dpop_validator (call_at 103000000000) (
      after one_proof new_dpop_validator
        (call_at 102000000000 ∷ [])
        (attempt one_proof new_dpop_validator (call_at 101000000000) new_memory_replay_guard).1)).0
    ≢ ok the_proof
attempt-once_example =
    attempt-once one_proof new_dpop_validator (call_at 101000000000) (call_at 103000000000)
      (call_at 102000000000 ∷ []) new_memory_replay_guard the_proof the_proof accepts_once refl refl
      (refl, tt)

abbrev allow : EvalInput (Extra Str) → Result Str EvalResult
allow input = ok (record {
  allowed = true;
  matched_rule = bytes "r";
  reason = [];
  step_up = none;
  trace = [];
  zanzibar_calls = pos 1;
  eval_us = pos 0;
  evaluated_rule_paths = [];
})

-- The client whose connection has ended, with a budget of 10.
abbrev quiet : Atol documents
quiet = record {
  local_only = false;
  disable_sync = false;
  staleness_mode = staleness_error;
  max_staleness = pos 10;
  bootstrapped = true;
  sync_client = some (stream documents setting connection client).2;
  serving_gate_required = false;
  serving_gate = none;
  decision_logger = some (new_logger 8 4);
}

abbrev clock : Clock
clock = record { gate_now = 16; stale_now = 16; micros = pos 3; logged_at = 17 }

can-logged_example :
    let out =
      can documents allow clock [] none
        (bytes "user:u")
        (bytes "viewer")
        (bytes "doc:1")
        []
        quiet in
    (e : Entry) × (out.1.decision_logger ≡ some (log 17 e (new_logger 8 4)))
    × (e.relation ≡ bytes "viewer")
    × (e.object ≡ bytes "doc:1")
    × ((e.allowed ≡ true) ↔ (out.0 ≡ ok true))
can-logged_example =
    can-logged documents allow clock [] none (bytes "user:u") (bytes "viewer") (bytes "doc:1") []
      quiet (new_logger 8 4) refl

abbrev question : EvalInput (Extra Str)
question = record {
  user = bytes "user:u";
  relation = bytes "viewer";
  object = bytes "doc:1";
  resource_type = bytes "doc";
  resource_id = bytes "1";
  extra = none;
  context_tuples = [];
}

quiet-refuses_example :
    ((x : AuthError) × (require_serving_active documents 16 [] quiet ≡ err x)
      × (evaluate_gated documents allow 16 16 [] question quiet ≡ refused x))
    ⊎ ((quiet.staleness_mode ≡ staleness_error)
        × (since : ℤ) × (evaluate_gated documents allow 16 16 [] question quiet
            ≡ refused (stale_error since quiet.max_staleness)))
    ⊎ ((quiet.staleness_mode ≡ staleness_fail_closed)
        × (evaluate_gated documents allow 16 16 [] question quiet
            ≡ stale_result (stale_deny documents)))
quiet-refuses_example =
    quiet-refuses documents setting allow connection client (bytes "c") 5 quiet 16 16 10 [] question
      refl refl (omega arith) (omega arith, (omega arith, tt)) refl refl refl
      (λ e. absurd (ground (arith, e))) refl (omega arith) (omega arith)
