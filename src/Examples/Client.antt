-- ===== src/Examples/Client.antt =====
-- The sync client over a policy engine that is an association list of documents.
use atol_sdk_go.Prelude.{
  ℕ, Bool, pos, true, false, ◌≡◌, refl, ◌≢◌, ◌⊎◌, List, [], ◌∷◌, ◌++◌, Option, none, some, Str,
  bytes, str_dec, lookup, insert, Map, Member, ok, err, arith,
}
use atol_sdk_go.Zanzibar.Engine.State.{new_engine}
use atol_sdk_go.Sync.ServingGate.{bind_tenant}
use atol_sdk_go.Sync.Client.State.{
  Setting, PolicyEngine, StreamMutationsResponse, SyncError, Client, new_client, Mutation,
  no_mutation, policy_data_update, PolicyDataUpdate, mark_stream_open, token_server_time,
  set_continuation_token,
}
use atol_sdk_go.Sync.Client.Apply.{
  overlay, apply_policy_bundle, apply_policy_data, apply_case, apply_mutation,
}
use atol_sdk_go.Sync.Client.Stream.{
  call_failed, apply_failed, Receipt, Connection, Attempt, applied, receive_all, stream, run,
}
use atol_sdk_go.Sync.Client.Waits.{IsPaced, connections, run-IsPaced}
use atol_sdk_go.Sync.Client.Token.{newest_token, AreApplied, stream-token}
use atol_sdk_go.Sync.Client.Versions.{
  tracked_version, tracked_value, AreTaken, untouched, taken, taken-agree,
}
use atol_sdk_go.Examples.Model.{parsed}

abbrev pub documents : PolicyEngine
documents = record {
  State = Map (Option ℕ);
  Data = ℕ;
  PolicyError = Unit;
  load_bundle = λ bundle baseline p. ok baseline;
  set_policy_data = λ path v p. ok (insert path v p);
}

program : Unit {0}
unfolding str_dec lookup insert bind_tenant new_client token_server_time set_continuation_token
    overlay apply_policy_bundle apply_policy_data apply_case apply_mutation receive_all stream
program = tt

abbrev pub client : Client documents
client = new_client documents (bytes "org") (bytes "t0") new_engine []

abbrev first_update : PolicyDataUpdate documents
first_update = record { path = bytes "p"; data_value = some 1; version = pos 1 }

abbrev second_update : PolicyDataUpdate documents
second_update = record { path = bytes "p"; data_value = some 2; version = pos 2 }

abbrev message : Str → Str → Mutation documents → StreamMutationsResponse documents
message tenant token m = record { tenant_id = tenant; continuation_token = token; mutation = m }

abbrev receipt : StreamMutationsResponse documents → Receipt documents
receipt m = record { received_at = 5; applied_at = 6; msg = m }

-- The second message is of another tenant.
abbrev pub connection : Connection documents
connection = record {
  challenge = some (bytes "c");
  open_error = none;
  opened_at = 4;
  receipts =
      receipt (message [] (bytes "t1") (policy_data_update (some first_update)))
      ∷ receipt (message (bytes "other") (bytes "t2") no_mutation)
      ∷ [];
  end_error = none;
}

abbrev pub any_id : Str → Bool
any_id s = true

abbrev pub no_time : Str → Option ℕ
no_time s = none

abbrev pub setting : Setting
setting = record {
  unmarshal = parsed;
  model_store = none;
  context = [];
  recorder = none;
  parses = any_id;
  parse_ulid = no_time;
}

stream-token_example :
    (done left : List (Receipt documents)) × (d : Client documents) × (connection.receipts
      ≡ done ++ left)
    × AreApplied documents setting (bytes "c") (mark_stream_open documents 4 client) done d
    × ((stream documents setting connection client).2.continuation_token
        ≡ newest_token client.continuation_token done)
    × (((left ≡ [])
          × ((stream documents setting connection client).1
              ≡ elim connection.end_error [ none ↦ none | some x ↦ some (call_failed x) ]))
        ⊎ ((r : Receipt documents) × (more : List (Receipt documents)) × (x : SyncError documents)
            × (left ≡ r ∷ more)
            × ((applied documents setting (bytes "c") r d).0 ≡ err x)
            × ((stream documents setting connection client).0 ≡ true)
            × ((stream documents setting connection client).1 ≡ some (apply_failed x))))
stream-token_example = stream-token documents setting connection client (bytes "c") refl refl

abbrev attempt : Attempt documents
attempt = record {
  done_before_stream = false;
  connection = connection;
  done_after_stream = false;
  reloaded_zanzibar = new_engine;
  reloaded_policy = [];
  reloaded_baseline = [];
  new_token = none;
  done_in_wait = false;
}

run-IsPaced_example :
    IsPaced documents 0 (run documents setting true (attempt ∷ attempt ∷ []) client).0
    × (connections documents (run documents setting true (attempt ∷ attempt ∷ []) client).0 ≡ 2)
    × ((run documents setting true (attempt ∷ attempt ∷ []) client).2 ≡ false)
run-IsPaced_example =
    run-IsPaced documents setting (attempt ∷ attempt ∷ []) client
      ((refl, refl, refl), ((refl, refl, refl), tt))

abbrev after_update : PolicyDataUpdate documents → Client documents → Client documents
after_update u c = (apply_policy_data documents (some u) c).1

abbrev in_order : Client documents
in_order = after_update second_update (after_update first_update client)

abbrev out_of_order : Client documents
out_of_order = after_update first_update (after_update second_update client)

runs_in_order : AreTaken documents client (second_update ∷ first_update ∷ []) in_order
unfolding program
runs_in_order = taken (taken untouched refl) refl

runs_out_of_order : AreTaken documents client (first_update ∷ second_update ∷ []) out_of_order
unfolding program
runs_out_of_order = taken (taken untouched refl) refl

no_version : tracked_version documents (bytes "p") client ≡ pos 0
unfolding program
no_version = refl

no_value : tracked_value documents (bytes "p") client ≡ none
unfolding program
no_value = refl

versioned : (u : PolicyDataUpdate documents) → (u.path ≡ bytes "p") → u.path ≢ []
versioned u e f = absurd (ground (arith, e, f))

determined :
    (u w : PolicyDataUpdate documents)
    → Member u (second_update ∷ first_update ∷ [])
    → Member w (second_update ∷ first_update ∷ [])
    → u.path ≡ w.path
    → u.version ≡ w.version
    → u.data_value ≡ w.data_value
determined u w m k same_path same_version = ground (arith, m, k, same_version)

taken-agree_example :
    (tracked_version documents (bytes "p") in_order
      ≡ tracked_version documents (bytes "p") out_of_order)
    × (tracked_value documents (bytes "p") in_order
        ≡ tracked_value documents (bytes "p") out_of_order)
taken-agree_example =
    taken-agree documents (bytes "p") client client in_order out_of_order
      (second_update ∷ first_update ∷ []) (first_update ∷ second_update ∷ []) no_version no_value
      no_version no_value
      ((versioned second_update refl, refl), ((versioned first_update refl, refl), tt))
      ((versioned first_update refl, refl), ((versioned second_update refl, refl), tt))
      (λ u. ground arith) determined runs_in_order runs_out_of_order
