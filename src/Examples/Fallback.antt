-- ===== src/Examples/Fallback.antt =====
-- With no bundle the tuples decide: an engine with the sample model and store, and user:u at doc:1.
use atol_sdk_go.Prelude.{
  pos, ◌≡◌, refl, ◌⊎◌, true, none, some, Option, Bool, [], ◌∷◌, ◌++◌, List, Str, bytes, str_dec,
  cut, lookup, insert, ok, arith, ap, sym, subst,
}
use atol_sdk_go.Zanzibar.Model.Types.{Tuple, matches_filter}
use atol_sdk_go.Zanzibar.Model.Keys.{
  IsClean, object_relation_key, tuple_key, parse_user_key, parse_object_key,
}
use atol_sdk_go.Zanzibar.Store.Memory.{
  write_locked, read, read_usersets, filter_tuples, scan, scan_materialized, read_indexed,
  is_userset_of,
}
use atol_sdk_go.Zanzibar.Check.Checker.{
  any_found, direct_check, userset_expansion, tuple_to_userset, direct_step, computed_step,
  lookup_step, rewrite, walk, enter, check_in, check,
}
use atol_sdk_go.Zanzibar.Check.Decides.{IsPlain}
use atol_sdk_go.Zanzibar.Check.Granted.{IsNamed}
use atol_sdk_go.Policy.Granted.{IsModelOf}
use atol_sdk_go.Zanzibar.Check.OverMemory.{all_tuples}
use atol_sdk_go.Zanzibar.Engine.State.{Engine, TenantModel, new_engine}
use atol_sdk_go.Zanzibar.Engine.Cache.{resolve_model, model_for_operation}
use atol_sdk_go.Zanzibar.Engine.Tuples.{engine_check}
use atol_sdk_go.Sdk.Gate.{
  EvalInput, EvalResult, check_stale, require_serving_active, evaluate_gated,
}
use atol_sdk_go.Sdk.Safeconv.{safe_int32}
use atol_sdk_go.Sdk.Decide.{
  Principal, Extra, Decision, parse_object, can_with_details, can, authorize,
}
use atol_sdk_go.Sdk.Granted.{
  after, policy_input, evaluate_policy, IsAskableOf, PassesGates, IsAllowed, can_input,
  authorize_input, can-granted, authorize-granted,
}
use atol_sdk_go.Policy.Document.{Fields}
use atol_sdk_go.Policy.Engine.{Environment, check_input, fallback_check, evaluate, call_text}
use atol_sdk_go.Policy.Decided.{IsDecided, IsUndecided}
use atol_sdk_go.Policy.Held.{asked, IsAskable, IsHeld, evaluate-allowed}
use atol_sdk_go.Examples.Data.{sample_model, sample_store, team_views, in_team, sample-IsValid}
use atol_sdk_go.Examples.Check.{u_views, sample-AllClean, two_tuples-IsPlain, two_tuples-IsNamed}
use atol_sdk_go.Examples.Client.{documents, setting}
use atol_sdk_go.Examples.Policy.{allowing_opa, environment}
use atol_sdk_go.Examples.Granted.{local, clock, no_extra, no_text, principal}

abbrev roomy : Environment
roomy = record environment { fuel = 9 }

abbrev sample_tenant : TenantModel
sample_tenant = record { model = sample_model; source_yaml = []; revision = pos 1 }

abbrev engine : Engine
engine = record new_engine { default_model = some sample_tenant; store = sample_store }

abbrev input : EvalInput Fields
input = record {
  user = bytes "user:u";
  relation = bytes "viewer";
  object = bytes "doc:1";
  resource_type = bytes "doc";
  resource_id = bytes "1";
  extra = none;
  context_tuples = [];
}

abbrev fell_back : EvalResult
fell_back = record {
  allowed = true;
  matched_rule = bytes "zanzibar.check";
  reason = [];
  step_up = none;
  trace = call_text (bytes "user:u") (bytes "viewer") (bytes "doc:1") (bytes "true") ∷ [];
  zanzibar_calls = pos 1;
  eval_us = pos 7;
  evaluated_rule_paths = [];
}

program : Unit {0}
unfolding str_dec cut lookup insert write_locked object_relation_key tuple_key matches_filter
    filter_tuples scan scan_materialized read_indexed read is_userset_of read_usersets any_found
    direct_check userset_expansion tuple_to_userset direct_step computed_step lookup_step rewrite
    walk enter check_in check parse_user_key parse_object_key resolve_model model_for_operation
    engine_check safe_int32 check_input fallback_check evaluate parse_object can can_with_details
    authorize evaluate_gated require_serving_active check_stale
program = tt

falls_back : (evaluate allowing_opa roomy (pos 7) input none engine) ≡ (ok fell_back, engine)
unfolding program
falls_back = refl

same_tuples :
    (context : List Tuple)
    → context ≡ []
    → all_tuples sample_store ++ context ≡ team_views ∷ in_team ∷ []
unfolding program
same_tuples context e =
    subst (λ c. all_tuples sample_store ++ c ≡ team_views ∷ in_team ∷ []) (sym e) refl

u_views-IsClean : IsClean u_views
u_views-IsClean = omega arith

-- An input that asks for that, where the engine is left with the default model.
fits :
    (i : EvalInput Fields) (e : Engine)
    → i.context_tuples ≡ []
    → asked i ≡ u_views
    → e.default_model ≡ some sample_tenant
    → IsAskable [] i sample_store e
fits i e empty asks kept = record {
  valid = sample-IsValid;
  clean = sample-AllClean;
  query = subst IsClean (sym asks) u_views-IsClean;
  plain = λ t of. subst (IsPlain t.model) (sym (same_tuples i.context_tuples empty)) (
      subst (λ x. IsPlain x.model (team_views ∷ in_team ∷ [])) (the_model t of) two_tuples-IsPlain);
  named = λ t of.
      subst (λ ts. IsNamed t.model ts (asked i)) (sym (same_tuples i.context_tuples empty))
        (subst (IsNamed t.model (team_views ∷ in_team ∷ [])) (sym asks) (
          subst (λ x. IsNamed x.model (team_views ∷ in_team ∷ []) u_views) (the_model t of)
            two_tuples-IsNamed));
}
  where
    the_model : (t : TenantModel) → IsModelOf [] e t → sample_tenant ≡ t
    the_model t of = ground (arith, of, kept)

input_fits :
    IsAskable setting.context input engine.store
      (evaluate allowing_opa roomy (pos 7) input none engine).1
unfolding program
input_fits = fits input (evaluate allowing_opa roomy (pos 7) input none engine).1 refl refl refl

evaluate-allowed_example :
    ((serves : Str → Bool) → roomy.gate ≡ some serves → serves setting.context ≡ true)
    × (IsDecided roomy allowing_opa input none engine
        ⊎ (IsUndecided roomy allowing_opa input none engine
            × IsHeld setting.context input engine.store
                (evaluate allowing_opa roomy (pos 7) input none engine).1))
evaluate-allowed_example =
    evaluate-allowed roomy allowing_opa (pos 7) input none engine fell_back input_fits
      (ap (λ x. x.0) falls_back) refl

abbrev asks_to_view : EvalInput (Extra Str)
asks_to_view = can_input (bytes "user:u") (bytes "viewer") (bytes "doc:1") []

can_view :
    (can documents
      (evaluate_policy roomy allowing_opa no_extra no_text (pos 7) none engine)
      clock
      (bytes "t")
      none
      (bytes "user:u")
      (bytes "viewer")
      (bytes "doc:1")
      []
      local).0
    ≡ ok true
unfolding program
can_view = refl

can_fits : IsAskableOf roomy allowing_opa no_extra no_text (pos 7) none engine asks_to_view
unfolding program
can_fits =
    fits (policy_input roomy allowing_opa no_extra no_text (pos 7) none engine asks_to_view)
      (after roomy allowing_opa no_extra no_text (pos 7) none engine asks_to_view) refl refl refl

can-granted_example :
    PassesGates roomy allowing_opa no_extra no_text
      (pos 7)
      none
      engine
      documents
      clock
      (bytes "t")
      local
    × IsAllowed roomy allowing_opa no_extra no_text (pos 7) none engine asks_to_view
can-granted_example =
    can-granted roomy allowing_opa no_extra no_text (pos 7) none engine documents clock (bytes "t")
      local none (bytes "user:u") (bytes "viewer") (bytes "doc:1") [] can_fits can_view

abbrev allowed : Decision
allowed = record { allow = true; reason = bytes "zanzibar.check"; step_up = none }

authorizes :
    (authorize documents
      (evaluate_policy roomy allowing_opa no_extra no_text (pos 7) none engine)
      clock
      (bytes "t")
      (some principal)
      none
      none
      (bytes "viewer")
      (bytes "doc:1")
      local).0
    ≡ ok allowed
unfolding program
authorizes = refl

abbrev principal_input : Principal → EvalInput (Extra Str)
principal_input p = authorize_input p none none (bytes "viewer") (bytes "doc:1")

principal_fits :
    (p : Principal)
    → ◌≡◌ {A = Option Principal} (some principal) (some p)
    → IsAskableOf roomy allowing_opa no_extra no_text (pos 7) none engine (principal_input p)
unfolding program
principal_fits p e =
    let same : principal ≡ p = ground (arith, e) in
    subst
      (λ x. IsAskableOf roomy allowing_opa no_extra no_text (pos 7) none engine (principal_input x))
      same
      (fits
        (policy_input roomy allowing_opa no_extra no_text (pos 7) none engine
          (principal_input principal))
        (after roomy allowing_opa no_extra no_text (pos 7) none engine (principal_input principal))
        refl refl refl)

authorize-granted_example :
    (p : Principal) × (◌≡◌ {A = Option Principal} (some principal) (some p))
    × PassesGates roomy allowing_opa no_extra no_text
        (pos 7)
        none
        engine
        documents
        clock
        (bytes "t")
        local
    × IsAllowed roomy allowing_opa no_extra no_text (pos 7) none engine (principal_input p)
authorize-granted_example =
    authorize-granted roomy allowing_opa no_extra no_text (pos 7) none engine documents clock
      (bytes "t") local (some principal) none none (bytes "viewer") (bytes "doc:1") allowed
      principal_fits authorizes refl
