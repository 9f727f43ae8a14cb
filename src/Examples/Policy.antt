-- ===== src/Examples/Policy.antt =====
-- A bundle whose evaluation asks nothing and allows, and policy data at two paths.
use atol_sdk_go.Prelude.{
  pos, ◌≡◌, ◌≢◌, ◌↔◌, ◌⊎◌, refl, inl, inr, true, false, Bool, none, some, [], ◌∷◌, All, Str, bytes,
  str_dec, Map, lookup, Distinct, ok, arith, sym, subst, ◌∙◌,
}
use atol_sdk_go.Sdk.Gate.{EvalInput, EvalResult}
use atol_sdk_go.Policy.Document.{
  Value, text, boolean, object, Fields, field, no_fields, get_field, split, overlay_policy_data,
}
use atol_sdk_go.Policy.Paths.{AreApart, document, overlay_policy_data_lem}
use atol_sdk_go.Policy.Contract.{
  ResultSet, defined_value, decode_step_up, decode_value, decode_policy_decision,
}
use atol_sdk_go.Policy.Decisions.{IsDecision, IsFresh, decode_policy_decision_iff}
use atol_sdk_go.Policy.Engine.{
  Opa, yields, Environment, input_map, run_evaluation, evaluate_bundle, evaluate,
}
use atol_sdk_go.Policy.Decided.{standard_names, input_map_lem}
use atol_sdk_go.Sdk.Safeconv.{safe_int32}
use atol_sdk_go.Examples.Client.{setting}

abbrev pub allowing : ResultSet
allowing =
    (object (
        field (bytes "matched_rule") (text (bytes "data.atol.allow")) (
          field (bytes "result") (object (field (bytes "allow") (boolean true) no_fields))
            no_fields))
      ∷ [])
    ∷ []

abbrev pub never_blank : Str → Bool
never_blank s = false

abbrev pub decision : EvalResult
decision = record {
  allowed = true;
  matched_rule = bytes "data.atol.allow";
  reason = [];
  step_up = none;
  trace = [];
  zanzibar_calls = pos 0;
  eval_us = pos 0;
  evaluated_rule_paths = [];
}

decode_policy_decision_iff_example :
    (decode_policy_decision never_blank allowing ≡ ok (some decision)) ↔ (
      (v : Value) × (defined_value allowing ≡ some v)
      × IsDecision never_blank v decision
      × IsFresh never_blank decision)
decode_policy_decision_iff_example = decode_policy_decision_iff never_blank allowing decision

abbrev pub allowing_opa : Opa
allowing_opa = record {
  Modules = Unit {0};
  read_bundle = λ s. ok (tt, no_fields);
  is_reserved = λ m. false;
  compile = λ m. ok tt;
  prepare = λ m. ok tt;
  eval = λ m store input. yields allowing;
}

abbrev pub environment : Environment
environment = record {
  setting = setting;
  gate = some (λ s. true);
  ctx = λ n m. none;
  fuel = 3;
  error_text = λ x. [];
  decimal = λ n. [];
  blank = never_blank;
}

abbrev extra : Fields
extra =
    field (bytes "user") (text (bytes "user:mallory"))
      (field (bytes "ip") (text (bytes "::1")) no_fields)

abbrev input : EvalInput Fields
input = record {
  user = bytes "user:u";
  relation = bytes "viewer";
  object = bytes "doc:1";
  resource_type = bytes "doc";
  resource_id = bytes "1";
  extra = some extra;
  context_tuples = [];
}

input_map_lem_example :
    (get_field (bytes "user") (input_map input) ≡ some (text (bytes "user:u")))
    × (get_field (bytes "action") (input_map input) ≡ some (text (bytes "viewer")))
    × (get_field (bytes "resource") (input_map input) ≡ some (text (bytes "doc:1")))
    × (get_field (bytes "relation") (input_map input) ≡ some (text (bytes "viewer")))
    × (get_field (bytes "object") (input_map input) ≡ some (text (bytes "doc:1")))
    × (get_field (bytes "resource_type") (input_map input) ≡ some (text (bytes "doc")))
    × (get_field (bytes "resource_id") (input_map input) ≡ some (text (bytes "1")))
    × ((k : Str) (given : Fields)
        → All (λ n. n ≢ k) standard_names
        → input.extra ≡ some given
        → get_field k (input_map input) ≡ get_field k given)
input_map_lem_example = input_map_lem input

program : Unit {0}
unfolding evaluate evaluate_bundle run_evaluation decode_policy_decision decode_value decode_step_up
    defined_value get_field str_dec split lookup safe_int32
program = tt

abbrev two_paths : Map Value
two_paths = (bytes "a/b", boolean true) ∷ (bytes "a/c", boolean false) ∷ []

paths-Distinct : Distinct two_paths
unfolding program
paths-Distinct = (refl, (refl, tt))

one_of_two : (i : Str) → lookup i two_paths ≢ none → (bytes "a/b" ≡ i) ⊎ (bytes "a/c" ≡ i)
unfolding lookup
one_of_two i a = elim (str_dec (bytes "a/b") i) [
  | yes b ↦ inl b
  | no b ↦ elim (str_dec (bytes "a/c") i) [
    | yes c ↦ inr c
    | no c ↦ absurd (ground (arith, a, b, c))
  ]
]

a_b-apart : AreApart (bytes "a/b") (bytes "a/c") × AreApart (bytes "a/c") (bytes "a/b")
unfolding split
a_b-apart =
    (inr (inl (λ e. absurd (ground (arith, e)))), inr (inl (λ e. absurd (ground (arith, e)))))

paths_apart :
    (i j : Str) → lookup i two_paths ≢ none → lookup j two_paths ≢ none → i ≢ j → AreApart i j
paths_apart i j a b away = elim (one_of_two i a) [
  | inl p ↦ elim (one_of_two j b) [
    | inl q ↦ absurd (away (sym p ∙ q))
    | inr q ↦ subst (λ x. AreApart x j) p (subst (AreApart (bytes "a/b")) q a_b-apart.0)
  ]
  | inr p ↦ elim (one_of_two j b) [
    | inl q ↦ subst (λ x. AreApart x j) p (subst (AreApart (bytes "a/c")) q a_b-apart.1)
    | inr q ↦ absurd (away (sym p ∙ q))
  ]
]

overlay_policy_data_lem_example :
    ((j : Str) (v : Value)
      → lookup j two_paths ≡ some v
      → document j (overlay_policy_data two_paths no_fields) ≡ some v)
    × ((j : Str)
        → ((i : Str) → lookup i two_paths ≢ none → AreApart i j)
        → document j (overlay_policy_data two_paths no_fields) ≡ document j no_fields)
overlay_policy_data_lem_example =
    overlay_policy_data_lem two_paths no_fields paths-Distinct paths_apart
