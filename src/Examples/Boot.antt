-- ===== src/Examples/Boot.antt =====
-- A snapshot with one tuple over an empty engine, and a session list that cannot be fetched again.
use atol_sdk_go.Prelude.{
  pos, ◌≡◌, ◌≢◌, ◌⊎◌, ◌↔◌, refl, none, some, List, [], ◌∷◌, bytes, str_dec, cut, lookup, insert, ok,
}
use atol_sdk_go.Zanzibar.Store.Index.{find}
use atol_sdk_go.Zanzibar.Model.Keys.{parse_user_key, parse_object_key}
use atol_sdk_go.Zanzibar.Model.Validate.{validate_tuple}
use atol_sdk_go.Zanzibar.Store.Memory.{write_locked}
use atol_sdk_go.Zanzibar.Engine.Cache.{resolve_model, model_for_operation}
use atol_sdk_go.Zanzibar.Engine.Steps.{request_tuple, validate_write, record_write, notify_writes}
use atol_sdk_go.Zanzibar.Engine.Tuples.{write_tuple}
use atol_sdk_go.Zanzibar.Engine.State.{Engine, new_engine}
use atol_sdk_go.Sync.Bootstrap.{
  Snapshot, bootstrap, load_tuples, load_snapshot_model, Writes, result_of, bootstrap-held,
}
use atol_sdk_go.Sdk.Sessions.{CrlAnswer, failed, listed}
use atol_sdk_go.Examples.Client.{documents, setting}
use atol_sdk_go.Examples.Data.{team_views}

abbrev snapshot : Snapshot documents
snapshot = record {
  tenant_id = bytes "t";
  continuation_token = bytes "c";
  authorization_model = [];
  authorization_model_revision = pos 0;
  tuples =
      record { user = bytes "team:t#member"; relation = bytes "viewer"; object = bytes "doc:1" }
      ∷ [];
  policy_bundle = [];
  policy_data = [];
}

abbrev booted : Engine
booted = (bootstrap documents setting (some snapshot) new_engine []).1

program : Unit {0}
unfolding bootstrap load_snapshot_model load_tuples str_dec cut lookup insert parse_user_key
    parse_object_key request_tuple resolve_model model_for_operation write_tuple validate_write
    validate_tuple record_write write_locked notify_writes
program = tt

boots :
    bootstrap documents setting (some snapshot) new_engine []
    ≡ (ok (result_of documents setting snapshot), booted, [])
unfolding program
boots = refl

bootstrap-held_example : (find team_views booted.store ≢ none) ↔ (
    (find team_views new_engine.store ≢ none) ⊎ Writes documents setting snapshot.tuples team_views)
bootstrap-held_example =
    bootstrap-held documents setting snapshot new_engine [] (result_of documents setting snapshot)
      booted [] team_views boots

abbrev answers : List CrlAnswer
answers = failed (bytes "x") ∷ listed (bytes "s" ∷ []) ∷ []
