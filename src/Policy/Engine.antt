-- ===== src/Policy/Engine.antt =====
-- policy/engine/engine.go and policy/engine/builtins.go: loading a bundle and evaluating an input. OPA is a
-- parameter: what it reads, whether it compiles and prepares, and what an evaluation asks and yields. The
-- counter of calls stays far below its int32 maximum.
use atol_sdk_go.Prelude.{
  ℕ, suc, ℤ, pos, Bool, true, false, List, [], ◌∷◌, ◌++◌, Option, none, some, Str, bytes, Map,
  Result, ok, err, if◌then◌else◌,
}
use atol_sdk_go.Zanzibar.Model.Types.{Tuple}
use atol_sdk_go.Zanzibar.Check.Checker.{CheckError, Context, Answer, found, failed, out_of_fuel}
use atol_sdk_go.Zanzibar.Engine.State.{Engine, EngineError}
use atol_sdk_go.Zanzibar.Engine.Steps.{is_empty}
use atol_sdk_go.Zanzibar.Engine.Tuples.{engine_check, engine_check_with_context_tuples}
use atol_sdk_go.Sync.Client.State.{Setting}
use atol_sdk_go.Sdk.Safeconv.{safe_int32}
use atol_sdk_go.Sdk.Gate.{EvalInput, EvalResult}
use atol_sdk_go.Policy.Document.{Value, text, Fields, no_fields, set_field, overlay_policy_data}
use atol_sdk_go.Policy.Contract.{InvalidDecision, ResultSet, decode_policy_decision}

-- An evaluation fails, yields a result set, or calls zanzibar.check and goes on with its answer.
pub data Evaluation : Type 0 where
  fails : Str → Evaluation
  yields : ResultSet → Evaluation
  asks : Value → Value → Value → (Bool → Evaluation) → Evaluation

pub record Opa : Type 1 where
  pub Modules : Type 0
  -- bundle.NewReader and Read: the modules and the data.
  pub read_bundle : Str → Result Str (Modules × Fields)
  -- A module of the bundle has the reserved package.
  pub is_reserved : Modules → Bool
  pub compile : Modules → Result Str (Unit {0})
  pub prepare : Modules → Result Str (Unit {0})
  pub eval : Modules → Fields → Fields → Evaluation

pub data LoadError : Type 0 where
  unreadable : Str → LoadError
  reserved_package : LoadError
  uncompiled : Str → LoadError

pub data CheckFailure : Type 0 where
  refused_check : EngineError → CheckFailure
  failed_check : CheckError → CheckFailure
  starved_check : CheckFailure

pub data PolicyFailure : Type 0 where
  serving_unavailable : PolicyFailure
  evaluation_failed : Str → PolicyFailure
  invalid_decision : InvalidDecision → PolicyFailure
  fallback_failed : CheckFailure → PolicyFailure
  duration_overflow : ℤ → PolicyFailure

-- evalState, without what stays the same.
pub record EvalState : Type 0 where
  pub calls : ℕ
  pub trace : List Str

abbrev pub policy_decision_query : Str
policy_decision_query = bytes "data.atol_internal_runtime.decision"

abbrev pub call_text : Str → Str → Str → Str → Str
call_text user relation object answer =
    bytes "zanzibar.check("
    ++ (user ++ (bytes ", " ++ (relation ++ (bytes ", " ++ (object ++ (bytes ") = " ++ answer))))))

abbrev pub bool_text : Bool → Str
bool_text true = bytes "true"
bool_text false = bytes "false"

-- The input map: the standard fields over the extra ones.
unfoldable pub input_map : EvalInput Fields → Fields
input_map input = set_field (bytes "user") (text input.user) (
    set_field (bytes "action") (text input.relation) (
      set_field (bytes "resource") (text input.object) (
        set_field (bytes "relation") (text input.relation) (
          set_field (bytes "object") (text input.object) (
            set_field (bytes "resource_type") (text input.resource_type) (
              set_field (bytes "resource_id") (text input.resource_id)
                (elim input.extra [ none ↦ no_fields | some extra ↦ extra ])))))))

-- The arguments of zanzibar.check, which are strings.
abbrev pub call_arguments : Value → Value → Value → Result Str (Str × Str × Str)
call_arguments (text user) (text relation) (text obj) = ok (user, relation, obj)
call_arguments (text user) (text relation) _ = err (bytes "zanzibar.check: object must be a string")
call_arguments (text user) _ _ = err (bytes "zanzibar.check: relation must be a string")
call_arguments _ _ _ = err (bytes "zanzibar.check: user must be a string")

-- What an evaluation finds around it: the Zanzibar engine's setting, the gate, what the context answers in
-- the check after n others, the fuel for each check, the texts of errors and numbers, and whether
-- strings.TrimSpace leaves nothing.
pub record Environment : Type 0 where
  pub setting : Setting
  pub gate : Option (Str → Bool)
  pub ctx : ℕ → Context
  pub fuel : ℕ
  pub error_text : CheckFailure → Str
  pub decimal : ℤ → Str
  pub blank : Str → Bool

module _ (env : Environment) where
  -- Check, or CheckWithContextTuples where there are any.
  unfoldable pub check_input :
      ℕ → List Tuple → Str → Str → Str → Engine → Result CheckFailure Bool × Engine
  check_input round tuples user relation object e =
      let w = env.setting in
      let answered : Result EngineError Answer × Engine =
        if is_empty tuples
        then engine_check w.unmarshal w.model_store w.context w.recorder env.gate (env.ctx round)
            env.fuel user relation object e
        else engine_check_with_context_tuples w.unmarshal w.model_store w.context w.recorder
            env.gate (env.ctx round) tuples env.fuel user relation object e in
      elim answered.0 [
        | err x ↦ (err (refused_check x), answered.1)
        | ok answer ↦ elim answer [
          | found allowed ↦ (ok allowed, answered.1)
          | failed x ↦ (err (failed_check x), answered.1)
          | out_of_fuel ↦ (err starved_check, answered.1)
        ]
      ]

  -- checkAccessFn on three strings: the answer, a failed check being a denial.
  unfoldable pub check_access :
      List Tuple → Str → Str → Str → EvalState → Engine → Bool × EvalState × Engine
  check_access tuples user relation object s e =
      let checked = check_input s.calls tuples user relation object e in
      let traced : Str → EvalState = λ answer. record {
        calls = suc s.calls;
        trace = s.trace ++ (call_text user relation object answer ∷ []);
      } in
      elim checked.0 [
        | err x ↦ (false, traced (bytes "error: " ++ env.error_text x), checked.1)
        | ok allowed ↦ (allowed, traced (bool_text allowed), checked.1)
      ]

  -- Eval of the prepared query, with its calls of the built-in function.
  unfoldable pub run_evaluation :
      List Tuple → Evaluation → EvalState → Engine → Result Str ResultSet × EvalState × Engine
  run_evaluation tuples (fails x) s e = (err x, s, e)
  run_evaluation tuples (yields rs) s e = (ok rs, s, e)
  run_evaluation tuples (asks user relation obj next) s e =
      elim (call_arguments user relation obj) [
        | err x ↦ (err x, s, e)
        | ok (u, r, o) ↦
            let answered = check_access tuples u r o s e in
            run_evaluation tuples (next answered.0) answered.1 answered.2
      ]

  -- fallbackCheck, after `round` checks; `elapsed` is the microseconds that it took.
  unfoldable pub fallback_check :
      ℕ → ℤ → EvalInput Fields → Engine → Result PolicyFailure EvalResult × Engine
  fallback_check round elapsed input e =
      let checked =
        check_input round input.context_tuples input.user input.relation input.object e in
      elim checked.0 [
        | err x ↦ (err (fallback_failed x), checked.1)
        | ok allowed ↦ elim (safe_int32 elapsed) [
          | err v ↦ (err (duration_overflow v), checked.1)
          | ok us ↦ (
            ok (record {
              allowed = allowed;
              matched_rule = bytes "zanzibar.check";
              reason = [];
              step_up = none;
              trace = call_text input.user input.relation input.object (bool_text allowed) ∷ [];
              zanzibar_calls = pos 1;
              eval_us = us;
              evaluated_rule_paths = [];
            }),
            checked.1,
          )
        ]
      ]

  abbrev pub decision_text : EvalResult → ℤ → Str
  decision_text d us =
      bytes "opa.eval("
      ++ (policy_decision_query
          ++ (bytes " -> "
              ++ (d.matched_rule
                  ++ (bytes ") = structured allow="
                      ++ (bool_text d.allowed
                          ++ (bytes " (" ++ (env.decimal us ++ bytes "us)")))))))

module _ (opa : Opa) where
  pub record Bundle : Type 0 where
    pub modules : opa.Modules
    pub store : Fields

  unfoldable pub load_bundle :
      Str → Map Value → Option Bundle → Result LoadError (Unit {0}) × Option Bundle
  load_bundle bundle_data policy_data current = elim (opa.read_bundle bundle_data) [
    | err x ↦ (err (unreadable x), current)
    | ok (modules, bundled) ↦
        if opa.is_reserved modules
        then (err reserved_package, current)
        else elim (opa.compile modules) [
          | err x ↦ (err (uncompiled x), current)
          | ok done ↦ (
            ok tt,
            some (record { modules = modules; store = overlay_policy_data policy_data bundled }),
          )
        ]
  ]

  module _ (env : Environment) where
    -- Evaluate, after the bundle has been pinned. A decision is nil exactly where the result is undefined.
    unfoldable pub evaluate_bundle :
        ℤ → EvalInput Fields → Bundle → Engine → Result PolicyFailure EvalResult × Engine
    evaluate_bundle elapsed input b e = elim (opa.prepare b.modules) [
      | err x ↦ (err (evaluation_failed x), e)
      | ok done ↦
          let ran =
            run_evaluation env input.context_tuples (opa.eval b.modules b.store (input_map input))
              (record { calls = 0; trace = [] }) e in
          elim ran.0 [
            | err x ↦ (err (evaluation_failed x), ran.2)
            | ok rs ↦ elim (decode_policy_decision env.blank rs) [
              | err x ↦ (err (invalid_decision x), ran.2)
              | ok none ↦ fallback_check env ran.1.calls elapsed input ran.2
              | ok (some d) ↦ elim (safe_int32 elapsed) [
                | err v ↦ (err (duration_overflow v), ran.2)
                | ok us ↦ (
                  ok (record d {
                    trace = ran.1.trace ++ (decision_text env d us ∷ []);
                    zanzibar_calls = pos ran.1.calls;
                    eval_us = us;
                    evaluated_rule_paths = policy_decision_query ∷ [];
                  }),
                  ran.2,
                )
              ]
            ]
          ]
    ]

    unfoldable pub evaluate :
        ℤ → EvalInput Fields → Option Bundle → Engine → Result PolicyFailure EvalResult × Engine
    evaluate elapsed input current e =
        if elim env.gate [ none ↦ true | some serves ↦ serves env.setting.context ]
        then elim current [
          | none ↦ fallback_check env 0 elapsed input e
          | some b ↦ evaluate_bundle elapsed input b e
        ]
        else (err serving_unavailable, e)
