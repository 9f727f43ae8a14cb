-- ===== src/Zanzibar/Engine/State.antt =====
-- zanzibar/zanzibar.go: the state of the engine, and its operations as functions from the state to a
-- result or an error and the new state. The notifier is an interface: the state keeps the calls that
-- it has received. The tuple store is the MemoryStore.
use atol_sdk_go.Prelude.{ℤ, List, [], ◌∷◌, Option, none, Str, Map, Result, ok, err}
use atol_sdk_go.Zanzibar.Model.Types.{Model, Tuple}
use atol_sdk_go.Zanzibar.Model.Compile.{CompileError}
use atol_sdk_go.Zanzibar.Model.Validate.{ValidateError}
use atol_sdk_go.Zanzibar.Store.Memory.{MemoryStore, StoreError, new_memory_store}

-- The checker of a tenantModel is a function of its model and of the store.
pub record TenantModel : Type 0 where
  pub model : Model
  pub source_yaml : Str
  pub revision : ℤ

pub record StoredModel : Type 0 where
  pub yaml : Str
  pub revision : ℤ

-- store.ModelStore, by its answers during one operation; `none` is an error.
pub record ModelStore : Type 0 where
  pub save : Str → Str → Str → Option ℤ
  pub get : Str → Option StoredModel
  pub list_all : Option (Map StoredModel)

-- zanzibar/sync/notifier.go: the calls of ChangeNotifier and of PrecommitTupleRecorder.
pub data Event : Type 0 where
  on_tuple_write : Tuple → Event
  on_tuple_delete : Tuple → Event
  on_model_update : Str → Option Model → Event
  record_tuple_write : Tuple → Event
  record_tuple_delete : Tuple → Event

-- `events`: the latest call first.
pub record Engine : Type 0 where
  pub default_model : Option TenantModel
  pub models : Map TenantModel
  pub store : MemoryStore
  pub events : List Event

abbrev pub new_engine : Engine
new_engine = record { default_model = none; models = []; store = new_memory_store; events = [] }

pub data EngineError : Type 0 where
  compile_model : CompileError → EngineError
  revision_not_positive : EngineError
  tenant_required : EngineError
  model_store_missing : EngineError
  model_store_failed : EngineError
  invalid_revision : ℤ → EngineError
  invalid_tuple : ValidateError → EngineError
  record_failed : Tuple → EngineError
  store_failed : StoreError → EngineError
  filter_too_wide : EngineError
  outside_filter : Tuple → EngineError
  serving_unavailable : EngineError
  no_model_loaded : EngineError

abbrev pub Op : Type 0 → Type 0
Op A = Engine → Result EngineError A × Engine

infixl 5 ◌>>=◌ ◌>>◌
-- `if err != nil { return err }` and the rest.
abbrev pub ◌>>=◌ : {A B : Type 0} → Op A → (A → Op B) → Op B
(run >>= rest) e = elim (run e).0 [ err x ↦ (err x, (run e).1) | ok a ↦ rest a (run e).1 ]

abbrev pub ◌>>◌ : {B : Type 0} → Op (Unit {0}) → Op B → Op B
(run >> rest) e = (run >>= (λ _. rest)) e

abbrev pub return : {A : Type 0} → A → Op A
return a e = (ok a, e)

abbrev pub fail : {A : Type 0} → EngineError → Op A
fail x e = (err x, e)

-- A call of the notifier.
abbrev pub notify : Event → Op (Unit {0})
notify event e = (ok tt, record e { events = event ∷ e.events })
