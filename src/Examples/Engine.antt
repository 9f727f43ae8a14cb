-- ===== src/Examples/Engine.antt =====
-- The engine at the sample model and store.
use atol_sdk_go.Prelude.{
  ◌≤◌, pos, ◌≡◌, refl, ◌⊎◌, ◌≢◌, ◌↔◌, err, [], ◌∷◌, Option, none, some, bytes, str_dec, lookup,
  insert, remove, cut, ok, err, All, arith,
}
use atol_sdk_go.Zanzibar.Model.Keys.{
  IsClean, object_relation_key, tuple_key, parse_user_key, parse_object_key,
}
use atol_sdk_go.Zanzibar.Store.Memory.{last_holder, write_locked, write_tx, direct_holders_locked}
use atol_sdk_go.Zanzibar.Store.Runs.{IsSound, write-IsSound}
use atol_sdk_go.Zanzibar.Engine.State.{store_failed, TenantModel, Engine, EngineError}
use atol_sdk_go.Zanzibar.Engine.Cache.{
  resolve_model, model_for_operation, activate_model_for_tenant,
}
use atol_sdk_go.Zanzibar.Engine.Revisions.{
  Advances, Calls, activates_tenant, done, next, Calls-Advances,
}
use atol_sdk_go.Zanzibar.Engine.Steps.{request_tuple, min_holders}
use atol_sdk_go.Zanzibar.Engine.Tuples.{can_delete, delete_tuple, write_relationships}
use atol_sdk_go.Zanzibar.Engine.Writes.{Validated, write_relationships_lem}
use atol_sdk_go.Zanzibar.Engine.Deletes.{delete_tuple-keeps_floor}
use atol_sdk_go.Zanzibar.Engine.Floor.{can_delete_iff}
use atol_sdk_go.Examples.Data.{sample_model, sample_store, owns, team_views}
use atol_sdk_go.Examples.Store.{sample-IsSound, owns-IsClean}
use atol_sdk_go.Examples.Model.{parsed}

abbrev default_only : TenantModel
default_only = record { model = sample_model; source_yaml = []; revision = pos 0 }

abbrev pub sample_engine : Engine
sample_engine = record {
  default_model = some default_only;
  models = [];
  store = write_locked owns sample_store;
  events = [];
}

program : Unit {0}
unfolding str_dec cut lookup insert remove parse_user_key parse_object_key request_tuple
    resolve_model model_for_operation min_holders write_locked object_relation_key tuple_key
    direct_holders_locked
program = tt

resolves : (model_for_operation parsed none [] sample_engine).0 ≡ ok (some default_only)
unfolding program
resolves = refl

one_owner : direct_holders_locked (bytes "doc") (bytes "1") (bytes "owner") sample_engine.store ≡ 1
unfolding program
one_owner = refl

owner_floor : min_holders (some default_only) (bytes "doc") (bytes "owner") ≡ 1
unfolding program
owner_floor = refl

request-IsClean : IsClean (request_tuple (bytes "user:u") (bytes "owner") (bytes "doc:1"))
unfolding program
request-IsClean = owns-IsClean

engine-IsSound : IsSound sample_engine.store
engine-IsSound = write-IsSound owns sample_store owns-IsClean sample-IsSound

delete_tuple-keeps_floor_example :
    min_holders (some default_only) (bytes "doc") (bytes "owner")
    ≤ direct_holders_locked
        (bytes "doc")
        (bytes "1")
        (bytes "owner")
        (delete_tuple parsed none [] none
          (bytes "user:u")
          (bytes "owner")
          (bytes "doc:1")
          sample_engine).1.store
delete_tuple-keeps_floor_example =
    delete_tuple-keeps_floor parsed none [] none (bytes "user:u") (bytes "owner") (bytes "doc:1")
      (bytes "doc") (bytes "1") (bytes "owner") (some default_only) sample_engine engine-IsSound
      request-IsClean (omega arith) (omega arith) resolves (omega (arith, one_owner, owner_floor))

write_relationships_lem_example :
    ((x : EngineError) × ((write_relationships parsed none [] none
          (owns ∷ [])
          (team_views ∷ [])
          sample_engine).0
        ≡ err x)
      × ((write_relationships parsed none [] none
            (owns ∷ [])
            (team_views ∷ [])
            sample_engine).1.store
          ≡ sample_engine.store))
    ⊎ ((tm : Option TenantModel) × ((model_for_operation parsed none [] sample_engine).0 ≡ ok tm)
        × All (Validated tm) (owns ∷ [])
        × ((write_relationships parsed none [] none (owns ∷ []) (team_views ∷ []) sample_engine).0
            ≡ ok tt)
        × ((write_relationships parsed none [] none
              (owns ∷ [])
              (team_views ∷ [])
              sample_engine).1.store
            ≡ write_tx (owns ∷ []) (team_views ∷ []) sample_engine.store))
write_relationships_lem_example =
    write_relationships_lem parsed none [] none (owns ∷ []) (team_views ∷ []) sample_engine refl

two_activations :
    Calls parsed sample_engine
      (activate_model_for_tenant parsed
        (bytes "t")
        []
        (pos 2)
        (activate_model_for_tenant parsed (bytes "t") [] (pos 3) sample_engine).1).1
two_activations =
    next (next done (activates_tenant (bytes "t") [] (pos 3)))
      (activates_tenant (bytes "t") [] (pos 2))

Calls-Advances_example :
    Advances sample_engine.models
      (activate_model_for_tenant parsed
        (bytes "t")
        []
        (pos 2)
        (activate_model_for_tenant parsed (bytes "t") [] (pos 3) sample_engine).1).1.models
Calls-Advances_example = Calls-Advances parsed two_activations

nothing_materialized : sample_engine.store.materialized ≡ []
unfolding program
nothing_materialized = refl

type_named : (request_tuple (bytes "user:u") (bytes "owner") (bytes "doc:1")).object_type ≢ []
unfolding program
type_named e = absurd (ground arith)

id_named : (request_tuple (bytes "user:u") (bytes "owner") (bytes "doc:1")).object_id ≢ []
unfolding program
id_named e = absurd (ground arith)

can_delete_iff_example :
    ((can_delete parsed none [] none
        (bytes "user:u")
        (bytes "owner")
        (bytes "doc:1")
        sample_engine).0
      ≡ err (store_failed last_holder))
    ↔ ((delete_tuple parsed none [] none
          (bytes "user:u")
          (bytes "owner")
          (bytes "doc:1")
          sample_engine).0
        ≡ err (store_failed last_holder))
can_delete_iff_example =
    can_delete_iff parsed none [] (bytes "user:u") (bytes "owner") (bytes "doc:1") sample_engine
      engine-IsSound nothing_materialized request-IsClean type_named id_named
      (λ e. absurd (ground arith))
