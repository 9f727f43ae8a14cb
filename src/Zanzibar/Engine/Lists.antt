-- ===== src/Zanzibar/Engine/Lists.antt =====
-- zanzibar/zanzibar.go: ListObjects and ListUsers of the engine, behind the serving gate's answer.
use atol_sdk_go.Prelude.{
  ℕ, true, List, Option, none, some, Str, Bool, Result, ok, err, if◌then◌else◌,
}
use atol_sdk_go.Zanzibar.Model.Compile.{YamlModel}
use atol_sdk_go.Zanzibar.Model.Keys.{parse_user_key, parse_object_key}
use atol_sdk_go.Zanzibar.Check.Checker.{Context}
use atol_sdk_go.Zanzibar.Check.Listing.{ListError, list_objects, list_users}
use atol_sdk_go.Zanzibar.Check.OverMemory.{memory_reader}
use atol_sdk_go.Zanzibar.Engine.State.{
  no_model_loaded, serving_unavailable, Engine, Op, TenantModel, ModelStore,
}
use atol_sdk_go.Zanzibar.Engine.Cache.{model_for_operation}

module _ (unmarshal : Str → Option YamlModel) (ms : Option ModelStore) (context : Str) where
  -- What is asked of the model of the operation, once the gate passes.
  unfoldable pub served : {A : Type 0} → Option (Str → Bool) → (TenantModel → Engine → A) → Op A
  served gate ask e =
      let resolved = model_for_operation unmarshal ms context e in
      if elim gate [ none ↦ true | some serves ↦ serves context ]
      then elim resolved.0 [
        | err x ↦ (err x, resolved.1)
        | ok tm ↦ elim tm [
          | none ↦ (err no_model_loaded, resolved.1)
          | some t ↦ (ok (ask t resolved.1), resolved.1)
        ]
      ]
      else (err serving_unavailable, e)

  unfoldable pub engine_list_objects :
      Option (Str → Bool) → (ℕ → Context) → ℕ → Str → Str → Str → Op (Result ListError (List Str))
  engine_list_objects gate ctx fuel user relation object_type = served gate (λ t e.
      list_objects t.model (memory_reader e.store) ctx fuel (parse_user_key user).0
        (parse_user_key user).1 relation object_type)

  unfoldable pub engine_list_users :
      Option (Str → Bool) → ℕ → Str → Str → Op (Result ListError (List Str))
  engine_list_users gate fuel relation object = served gate (λ t e.
      list_users t.model (memory_reader e.store) fuel relation (parse_object_key object).0
        (parse_object_key object).1)
