-- ===== src/Sync/Client/State.antt =====
-- sync/sync.go and sync/status.go: the client's state, its messages, and the methods on its freshness.
-- Times are nanoseconds since the zero time.Time, given by each call's reading of the clock.
use atol_sdk_go.Prelude.{
  ℕ, suc, ℤ, pos, difference, Bool, true, false, [], Option, none, some, Str, Map, lookup, eqb,
  Result, ok, err, if◌then◌else◌,
}
use atol_sdk_go.Zanzibar.Model.Compile.{YamlModel}
use atol_sdk_go.Zanzibar.Engine.State.{Engine, EngineError, ModelStore}
use atol_sdk_go.Zanzibar.Engine.Steps.{Recorder}
use atol_sdk_go.Sync.ServingGate.{
  TenantServingGate, ServingUpdate, GateError, new_tenant_serving_gate, bind_tenant,
}

-- What the calls below the client take: of the Zanzibar engine, the YAML parser, the model store, the
-- tenant of the context and the recorder; of the gate and the tokens, ulid.ParseStrict, as the test
-- whether it accepts an identifier, and as the ulid.Time of what it parses.
pub record Setting : Type 0 where
  pub unmarshal : Str → Option YamlModel
  pub model_store : Option ModelStore
  pub context : Str
  pub recorder : Option Recorder
  pub parses : Str → Bool
  pub parse_ulid : Str → Option ℕ

-- What the client uses of the policy engine: the type of its state, the type of a data document, and
-- LoadBundle and SetPolicyData as functions from the state to an error or the new state. The value
-- `none` is Go's nil.
pub record PolicyEngine : Type 1 where
  pub State : Type 0
  pub Data : Type 0
  pub PolicyError : Type 0
  pub load_bundle : Str → Map (Option Data) → State → Result PolicyError State
  pub set_policy_data : Str → Option Data → State → Result PolicyError State

-- apiv1.TupleKey, apiv1.ModelUpdate, apiv1.PolicyBundleUpdate, by their getters.
pub record TupleKey : Type 0 where
  pub user : Str
  pub relation : Str
  pub object : Str

pub record ModelUpdate : Type 0 where
  pub authorization_model : Str
  pub revision : ℤ

pub record PolicyBundleUpdate : Type 0 where
  pub policy_bundle : Str
  pub version : ℤ

module _ (engine : PolicyEngine) where
  pub record PolicyDataUpdate : Type 0 where
    pub path : Str
    pub data_value : Option engine.Data
    pub version : ℤ

  -- The cases of StreamMutationsResponse.Mutation; `none` inside is a nil pointer, of the update or of
  -- its tuple.
  pub data Mutation : Type 0 where
    no_mutation : Mutation
    tuple_write : Option TupleKey → Mutation
    tuple_delete : Option TupleKey → Mutation
    model_update : Option ModelUpdate → Mutation
    policy_bundle_update : Option PolicyBundleUpdate → Mutation
    policy_data_update : Option PolicyDataUpdate → Mutation
    tenant_serving_state_update : Option ServingUpdate → Mutation

  pub record StreamMutationsResponse : Type 0 where
    pub tenant_id : Str
    pub continuation_token : Str
    pub mutation : Mutation

  pub data SyncError : Type 0 where
    response_nil : SyncError
    other_tenant : Str → SyncError
    zanzibar_failed : EngineError → SyncError
    policy_failed : engine.PolicyError → SyncError
    gate_failed : GateError → SyncError
    tenant_id_empty : SyncError
    serving_update_nil : SyncError
    challenge_unavailable : SyncError
    serving_state_unspecified : SyncError

  -- Client, without its URL, its HTTP client, its logger and the callback; the engines and the gate
  -- that it points to are parts of its state.
  pub record Client : Type 0 where
    pub org_id : Str
    pub zanzibar : Engine
    pub policy : engine.State
    pub serving_gate : TenantServingGate
    pub continuation_token : Str
    pub connected : Bool
    pub last_stream_activity : ℕ
    pub last_applied_server_time : ℕ
    pub rebootstraps : ℕ
    pub last_bundle_version : ℤ
    pub last_data_version : Map ℤ
    pub last_data_value : Map (Option engine.Data)
    pub baseline_data : Map (Option engine.Data)

  -- NewClient with no options: the default gate, bound to the organisation where it has a name.
  unfoldable pub new_client : Str → Str → Engine → engine.State → Client
  new_client org_id token z p = record {
    org_id = org_id;
    zanzibar = z;
    policy = p;
    serving_gate = elim (bind_tenant org_id new_tenant_serving_gate) [
      | ok bound ↦ bound
      | err e ↦ new_tenant_serving_gate
    ];
    continuation_token = token;
    connected = false;
    last_stream_activity = 0;
    last_applied_server_time = 0;
    rebootstraps = 0;
    last_bundle_version = pos 0;
    last_data_version = [];
    last_data_value = [];
    baseline_data = [];
  }

  -- `c.lastDataVersion[path]`: zero where the path has none.
  abbrev pub data_version : Str → Map ℤ → ℤ
  data_version path versions = elim (lookup path versions) [ none ↦ pos 0 | some v ↦ v ]

  abbrev pub mark_stream_open : ℕ → Client → Client
  mark_stream_open now c = record c { connected = true; last_stream_activity = now }

  abbrev pub mark_stream_closed : Client → Client
  mark_stream_closed c = record c { connected = false }

  abbrev pub mark_activity : ℕ → Client → Client
  mark_activity now c = record c { last_stream_activity = now }

  abbrev pub seed_policy_data : Map (Option engine.Data) → Client → Client
  seed_policy_data baseline c = record c { baseline_data = baseline }

  -- `parse_ulid token`: ulid.ParseStrict, and ulid.Time of what it parses.
  module _ (parse_ulid : Str → Option ℕ) where
    unfoldable pub token_server_time : Str → ℕ
    token_server_time token = elim (parse_ulid token) [ none ↦ 0 | some time ↦ time ]

    unfoldable pub set_continuation_token : Str → Client → Client
    set_continuation_token token c = record c {
      continuation_token = token;
      last_applied_server_time = token_server_time token;
    }

    unfoldable pub on_rebootstrap : Str → Client → Client
    on_rebootstrap token c = record c {
      continuation_token = token;
      last_applied_server_time = token_server_time token;
      rebootstraps = suc c.rebootstraps;
    }

  pub record Status : Type 0 where
    pub connected : Bool
    pub last_stream_activity : ℕ
    pub last_applied_at : ℕ
    pub lag : ℤ
    pub last_token : Str
    pub rebootstraps : ℕ

  -- `lag` is negative where the server's clock is ahead.
  unfoldable pub status : ℕ → Client → Status
  status now c = record {
    connected = c.connected;
    last_stream_activity = c.last_stream_activity;
    last_applied_at = c.last_applied_server_time;
    lag =
        if eqb c.last_applied_server_time 0
        then pos 0
        else difference now c.last_applied_server_time;
    last_token = c.continuation_token;
    rebootstraps = c.rebootstraps;
  }
