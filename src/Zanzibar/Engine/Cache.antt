-- ===== src/Zanzibar/Engine/Cache.antt =====
-- zanzibar/model_cache.go and the model operations of zanzibar/zanzibar.go. The tenant of the context
-- is an argument; yaml.v3's Unmarshal is the parameter `unmarshal`.
use atol_sdk_go.Prelude.{
  zero, suc, ◌+◌, ℤ, pos, negsuc, less, same, eqb, Bool, not, ◌&&◌, ◌||◌, [], ◌∷◌, Option, none,
  some, Str, bytes, ◌==◌, ◌!=◌, Map, lookup, insert, Result, ok, err, if◌then◌else◌,
}
use atol_sdk_go.Zanzibar.Model.Types.{Model}
use atol_sdk_go.Zanzibar.Model.Compile.{YamlModel}
use atol_sdk_go.Zanzibar.Model.Passes.{compile}
use atol_sdk_go.Zanzibar.Engine.State.{
  TenantModel, StoredModel, ModelStore, on_model_update, Engine, EngineError, compile_model,
  revision_not_positive, tenant_required, model_store_missing, model_store_failed, invalid_revision,
  Op, ◌>>=◌, ◌>>◌, return, notify,
}

abbrev pub ModelSnapshot : Type 0
ModelSnapshot = Str × ℤ

abbrev pub is_positive : ℤ → Bool
is_positive n = less (pos 0) n

-- n + 1 on int64.
abbrev pub increment : ℤ → ℤ
increment (pos n) = if eqb n 9223372036854775807 then negsuc 9223372036854775807 else pos (n + 1)
increment (negsuc n) = elim n [ zero ↦ pos 0 | suc k ↦ negsuc k ]

-- resolveModel: the tenant that is given, or else that of the context.
unfoldable pub resolve_model : Str → Str → Engine → Option TenantModel
resolve_model tenant_id context e =
    let tid = if tenant_id == [] then context else tenant_id in
    if tid != []
    then elim (lookup tid e.models) [ some tm ↦ some tm | none ↦ e.default_model ]
    else e.default_model

unfoldable pub get_model : Engine → Option Model
get_model e = elim e.default_model [ none ↦ none | some tm ↦ some tm.model ]

unfoldable pub get_model_for_tenant : Str → Str → Engine → Option Model
get_model_for_tenant tenant_id context e = elim (resolve_model tenant_id context e) [
  | none ↦ none
  | some tm ↦ some tm.model
]

unfoldable pub model_snapshot_for_tenant : Str → Str → Engine → ModelSnapshot
model_snapshot_for_tenant tenant_id context e = elim (resolve_model tenant_id context e) [
  | none ↦ ([], pos 0)
  | some tm ↦ (tm.source_yaml, tm.revision)
]

unfoldable pub get_model_source_yaml : Str → Str → Engine → Str
get_model_source_yaml tenant_id context e = (model_snapshot_for_tenant tenant_id context e).0

unfoldable pub model_revision : Engine → ℤ
model_revision e = elim e.default_model [ none ↦ pos 0 | some tm ↦ tm.revision ]

unfoldable pub model_revision_for_tenant : Str → Str → Engine → ℤ
model_revision_for_tenant tenant_id context e = (model_snapshot_for_tenant tenant_id context e).1

-- The end of ActivateModelForTenant, under the lock of the cache.
unfoldable pub put_model : Str → TenantModel → Engine → Engine
put_model tenant_id tm e =
    let put : Engine = record e { models = insert tenant_id tm e.models } in
    elim (lookup tenant_id e.models) [
      | none ↦ put
      | some current ↦ if less current.revision tm.revision then put else e
    ]

-- The end of ActivateModel, under the lock.
unfoldable pub put_default : TenantModel → Engine → Engine
put_default tm e =
    let put : Engine = record e { default_model = some tm } in
    elim e.default_model [
      | none ↦ put
      | some current ↦ if less current.revision tm.revision then put else e
    ]

module _ (unmarshal : Str → Option YamlModel) where
  unfoldable pub load_model : Str → Op (Unit {0})
  load_model source e = elim (compile unmarshal source) [
    | err x ↦ (err (compile_model x), e)
    | ok m ↦ notify (on_model_update [] (some m)) (record e {
      default_model = some (record { model = m; source_yaml = source; revision = pos 0 });
    })
  ]

  unfoldable pub activate_model : Str → ℤ → Op (Unit {0})
  activate_model source revision e =
      if is_positive revision
      then elim (compile unmarshal source) [
        | err x ↦ (err (compile_model x), e)
        | ok m ↦
            (ok tt, put_default (record { model = m; source_yaml = source; revision = revision }) e)
      ]
      else (err revision_not_positive, e)

  unfoldable pub activate_model_for_tenant : Str → Str → ℤ → Op (Unit {0})
  activate_model_for_tenant tenant_id source revision e =
      if tenant_id == []
      then (err tenant_required, e)
      else if is_positive revision
      then elim (compile unmarshal source) [
        | err x ↦ (err (compile_model x), e)
        | ok m ↦ (
          ok tt,
          put_model tenant_id (record { model = m; source_yaml = source; revision = revision }) e,
        )
      ]
      else (err revision_not_positive, e)

  unfoldable pub save_model_for_tenant : Option ModelStore → Str → Str → Str → Result EngineError ℤ
  save_model_for_tenant model_store tenant_id source created_by =
      if tenant_id == [] then err tenant_required else elim (compile unmarshal source) [
        | err x ↦ err (compile_model x)
        | ok _ ↦ elim model_store [
          | none ↦ err model_store_missing
          | some ms ↦ elim (ms.save tenant_id source created_by) [
            | none ↦ err model_store_failed
            | some revision ↦
                if is_positive revision then ok revision else err (invalid_revision revision)
          ]
        ]
      ]

  -- The revision that LoadModelForTenant activates.
  unfoldable pub next_revision : Option ModelStore → Str → Str → Str → Engine → Result EngineError ℤ
  next_revision none tenant_id context source e =
      ok (increment (model_revision_for_tenant tenant_id context e))
  next_revision (some ms) tenant_id context source e =
      save_model_for_tenant (some ms) tenant_id source (bytes "api")

  unfoldable pub load_model_for_tenant : Option ModelStore → Str → Str → Str → Op (Unit {0})
  load_model_for_tenant model_store tenant_id context source e =
      elim (next_revision model_store tenant_id context source e) [
        | err x ↦ (err x, e)
        | ok revision ↦
            (do
              activate_model_for_tenant tenant_id source revision
              λ e'.
                  notify (on_model_update tenant_id (get_model_for_tenant tenant_id context e')) e')
              e
      ]

  unfoldable pub refresh_model_for_tenant : Option ModelStore → Str → Str → Op ModelSnapshot
  refresh_model_for_tenant model_store tenant_id context e =
      if tenant_id == [] then (err tenant_required, e) else elim model_store [
        | none ↦ (err model_store_missing, e)
        | some ms ↦ elim (ms.get tenant_id) [
          | none ↦ (err model_store_failed, e)
          | some stored ↦
              if stored.yaml == [] && same stored.revision (pos 0)
              then (ok (model_snapshot_for_tenant tenant_id context e), e)
              else if stored.yaml == [] || not (is_positive stored.revision)
              then (err (invalid_revision stored.revision), e)
              else (do
                activate_model_for_tenant tenant_id stored.yaml stored.revision
                λ e'. (ok (model_snapshot_for_tenant tenant_id context e'), e'))
                  e
        ]
      ]

  -- modelForOperation: the model is refreshed where the context names a tenant and models persist.
  unfoldable pub model_for_operation : Option ModelStore → Str → Op (Option TenantModel)
  model_for_operation none context e = (ok (resolve_model [] context e), e)
  model_for_operation (some ms) context e =
      if context != []
      then (do
        _ ← refresh_model_for_tenant (some ms) context context
        λ e'. (ok (resolve_model [] context e'), e'))
          e
      else (ok (resolve_model [] context e), e)

  unfoldable pub refresh_model_for_context : Option ModelStore → Str → Op (Option Model)
  refresh_model_for_context model_store context = do
    tm ← model_for_operation model_store context
    return (elim tm [ none ↦ none | some t ↦ some t.model ])

  -- The loop over the persisted models.
  unfoldable pub activate_persisted : Map StoredModel → Op (Unit {0})
  activate_persisted [] e = (ok tt, e)
  activate_persisted ((tenant_id, stored) ∷ models) e =
      if stored.yaml == [] || not (is_positive stored.revision)
      then (err (invalid_revision stored.revision), e)
      else (do
        activate_model_for_tenant tenant_id stored.yaml stored.revision
        activate_persisted models)
          e

  unfoldable pub load_persisted_models : Option ModelStore → Op (Unit {0})
  load_persisted_models none e = (ok tt, e)
  load_persisted_models (some ms) e = elim ms.list_all [
    | none ↦ (err model_store_failed, e)
    | some models ↦ activate_persisted models e
  ]

-- SetModel
unfoldable pub set_model : Model → Op (Unit {0})
set_model m e =
    notify (on_model_update [] (some m))
      (record e { default_model = some (record { model = m; source_yaml = []; revision = pos 0 }) })
