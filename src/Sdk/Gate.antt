-- ===== src/Sdk/Gate.antt =====
-- staleness.go and tenant_serving.go: the gates before a policy is evaluated. Times are nanoseconds since
-- the zero time.Time.
use atol_sdk_go.Prelude.{
  ℕ, ℤ, pos, less, difference, Bool, true, false, not, ◌||◌, [], List, Option, none, some, Str,
  bytes, Result, ok, err, if◌then◌else◌,
}
use atol_sdk_go.Zanzibar.Model.Types.{Tuple}
use atol_sdk_go.Sync.ServingGate.{
  TenantServingGate, TenantServingRestriction, GateError, restricted, scope_mismatch,
  require_active,
}
use atol_sdk_go.Sync.Client.State.{PolicyEngine, Client, status}
use atol_sdk_go.Decision.Log.{Logger}

pub data StalenessMode : Type 0 where
  staleness_off staleness_error staleness_fail_closed : StalenessMode

pub data SyncMode : Type 0 where
  mode_local mode_uninitialized mode_live : SyncMode

pub record StepUp : Type 0 where
  pub type_ : Str
  pub method : Str

-- policy/engine: EvalResult, and EvalInput with its map of extra input of some type X.
pub record EvalResult : Type 0 where
  pub allowed : Bool
  pub matched_rule : Str
  pub reason : Str
  pub step_up : Option StepUp
  pub trace : List Str
  pub zanzibar_calls : ℤ
  pub eval_us : ℤ
  pub evaluated_rule_paths : List Str

pub record EvalInput (X : Type 0) : Type 0 where
  pub user : Str
  pub relation : Str
  pub object : Str
  pub resource_type : Str
  pub resource_id : Str
  pub extra : Option X
  pub context_tuples : List Tuple

-- What requireServingActive returns, what the staleness gate returns, and an error of the policy.
pub data AuthError : Type 0 where
  serving_restricted : TenantServingRestriction → AuthError
  serving_scope_mismatch : AuthError
  serving_lease_unavailable : AuthError
  stale_error : ℤ → ℤ → AuthError
  policy_error : Str → AuthError

-- evaluateGated returns one of its three results.
pub data Gated : Type 0 where
  refused : AuthError → Gated
  stale_result : EvalResult → Gated
  evaluated : EvalResult → Gated

module _ (engine : PolicyEngine) where
  -- The fields of Atol that the read path uses.
  pub record Atol : Type 0 where
    pub local_only : Bool
    pub disable_sync : Bool
    pub staleness_mode : StalenessMode
    pub max_staleness : ℤ
    pub bootstrapped : Bool
    pub sync_client : Option (Client engine)
    pub serving_gate_required : Bool
    pub serving_gate : Option TenantServingGate
    pub decision_logger : Option Logger

  unfoldable pub mode : Atol → SyncMode
  mode a =
      if a.local_only || a.disable_sync
      then mode_local
      else if a.bootstrapped
      then mode_live
      else mode_uninitialized

  abbrev pub is_local : SyncMode → Bool
  is_local mode_local = true
  is_local mode_uninitialized = false
  is_local mode_live = false

  abbrev pub is_off : StalenessMode → Bool
  is_off staleness_off = true
  is_off staleness_error = false
  is_off staleness_fail_closed = false

  -- checkStale: the time since the last activity where it is stale, with zero for no such time.
  unfoldable pub check_stale : ℕ → Atol → Option ℤ
  check_stale now a =
      if is_off a.staleness_mode || not (less (pos 0) a.max_staleness)
      then none
      else if is_local (mode a)
      then none
      else if not a.bootstrapped
      then some (pos 0)
      else elim a.sync_client [
        | none ↦ some (pos 0)
        | some client ↦
            let seen = status engine now client in
            let since = difference now seen.last_stream_activity in
            if seen.connected then none else if less a.max_staleness since then some since else none
      ]

  -- The error of RequireActive, as requireServingActive passes it on.
  abbrev pub refusal : GateError → AuthError
  refusal (restricted r) = serving_restricted r
  refusal scope_mismatch = serving_scope_mismatch
  refusal _ = serving_lease_unavailable

  unfoldable pub require_serving_active : ℕ → Str → Atol → Result AuthError (Unit {0})
  require_serving_active now tenant a =
      if not a.serving_gate_required then ok tt else elim a.serving_gate [
        | none ↦ err serving_lease_unavailable
        | some gate ↦ elim (require_active now tenant gate) [
          | ok done ↦ ok tt
          | err x ↦ err (refusal x)
        ]
      ]

  abbrev pub stale_deny : EvalResult
  stale_deny = record {
    allowed = false;
    matched_rule = bytes "stale-deny";
    reason = [];
    step_up = none;
    trace = [];
    zanzibar_calls = pos 0;
    eval_us = pos 0;
    evaluated_rule_paths = [];
  }

  -- `evaluate`: Evaluate of the policy engine, with the text of its error.
  module _ {X : Type 0} (evaluate : EvalInput X → Result Str EvalResult) where
    abbrev pub evaluate_ungated : EvalInput X → Gated
    evaluate_ungated input = elim (evaluate input) [
      | err x ↦ refused (policy_error x)
      | ok r ↦ evaluated r
    ]

    -- evaluateGated, with the clock readings of the two gates.
    unfoldable pub evaluate_gated : ℕ → ℕ → Str → EvalInput X → Atol → Gated
    evaluate_gated gate_now now tenant input a = elim (require_serving_active gate_now tenant a) [
      | err x ↦ refused x
      | ok done ↦ elim (check_stale now a) [
        | none ↦ evaluate_ungated input
        | some since ↦ elim a.staleness_mode [
          | staleness_off ↦ evaluate_ungated input
          | staleness_error ↦ refused (stale_error since a.max_staleness)
          | staleness_fail_closed ↦ stale_result stale_deny
        ]
      ]
    ]
