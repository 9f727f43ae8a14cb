-- ===== src/Policy/Contract.antt =====
-- policy/engine/decision_contract.go. A result set is the values of the expressions of each result.
-- `blank` is whether strings.TrimSpace leaves nothing of a string.
use atol_sdk_go.Prelude.{
  Bool, true, false, pos, List, [], ◌∷◌, Option, none, some, Str, bytes, ◌==◌, Result, ok, err,
  ◌>>=◌, ◌>>◌, if◌then◌else◌,
}
use atol_sdk_go.Sdk.Gate.{StepUp, EvalResult}
use atol_sdk_go.Policy.Document.{Value, boolean, text, object, Fields, get_field}

-- ErrInvalidPolicyDecision, with what is wrong.
pub data InvalidDecision : Type 0 where
  adapter_not_object bad_matched_rule result_not_object allow_not_boolean : InvalidDecision
  reason_not_string step_up_not_object bad_step_up_type method_not_string : InvalidDecision

abbrev pub ResultSet : Type 0
ResultSet = List (List Value)

unfoldable pub defined_value : ResultSet → Option Value
defined_value [] = none
defined_value ([] ∷ more) = none
defined_value ((v ∷ vs) ∷ more) = some v

abbrev pub result_defined : ResultSet → Bool
result_defined rs = elim (defined_value rs) [ none ↦ false | some v ↦ true ]

-- `x, ok := v.(T)`, with the error where it is not ok; a missing key is a nil value.
abbrev pub as_object : InvalidDecision → Option Value → Result InvalidDecision Fields
as_object e (some (object fs)) = ok fs
as_object e _ = err e

abbrev pub as_text : InvalidDecision → Option Value → Result InvalidDecision Str
as_text e (some (text s)) = ok s
as_text e _ = err e

abbrev pub as_boolean : InvalidDecision → Option Value → Result InvalidDecision Bool
as_boolean e (some (boolean b)) = ok b
as_boolean e _ = err e

-- A string that may be missing.
abbrev pub optional_text : InvalidDecision → Option Value → Result InvalidDecision Str
optional_text e none = ok []
optional_text e (some v) = as_text e (some v)

module _ (blank : Str → Bool) where
  unfoldable pub decode_step_up : Option Value → Result InvalidDecision (Option StepUp)
  decode_step_up none = ok none
  decode_step_up (some raw) = do
    step_up ← as_object step_up_not_object (some raw)
    step_type ← as_text bad_step_up_type (get_field (bytes "type") step_up)
    if blank step_type then err bad_step_up_type else ok tt
    method ← optional_text method_not_string (get_field (bytes "method") step_up)
    ok (some (record { type_ = step_type; method = method }))

  -- The second half of decodePolicyDecision, on the value of the decision.
  unfoldable pub decode_value : Str → Fields → Result InvalidDecision EvalResult
  decode_value matched_rule value = do
    allowed ← as_boolean allow_not_boolean (get_field (bytes "allow") value)
    reason ← optional_text reason_not_string (get_field (bytes "reason") value)
    step_up ← decode_step_up (get_field (bytes "step_up") value)
    ok (record {
      allowed = allowed;
      matched_rule = matched_rule;
      reason = reason;
      step_up = step_up;
      trace = [];
      zanzibar_calls = pos 0;
      eval_us = pos 0;
      evaluated_rule_paths = [];
    })

  unfoldable pub decode_policy_decision : ResultSet → Result InvalidDecision (Option EvalResult)
  decode_policy_decision rs = elim (defined_value rs) [
    | none ↦ ok none
    | some v ↦ do
      envelope ← as_object adapter_not_object (some v)
      matched_rule ← as_text bad_matched_rule (get_field (bytes "matched_rule") envelope)
      if matched_rule == [] then err bad_matched_rule else ok tt
      value ← as_object result_not_object (get_field (bytes "result") envelope)
      decision ← decode_value matched_rule value
      ok (some decision)
  ]
