-- ===== src/Sdk/Granted.antt =====
-- What Can and Authorize allow over the policy engine of policy/engine/ (atol.go, staleness.go).
use atol_sdk_go.Prelude.{
  ℤ, true, ◌≡◌, refl, ◌⊎◌, inl, inr, List, [], ◌++◌, Option, none, some, Option-cases, Str, bytes,
  Result, ok, err, Result-cases, arith,
}
use mathlib.Core.Option
use atol_sdk_go.Zanzibar.Model.Types.{Tuple}
use atol_sdk_go.Zanzibar.Engine.State.{Engine}
use atol_sdk_go.Sync.Client.State.{PolicyEngine}
use atol_sdk_go.Policy.Document.{Fields}
use atol_sdk_go.Policy.Engine.{Opa, PolicyFailure, Environment, Bundle, evaluate}
use atol_sdk_go.Policy.Held.{IsAskable, IsHeld, evaluate-allowed}
use atol_sdk_go.Policy.Decided.{IsDecided, IsUndecided}
use atol_sdk_go.Sdk.Gate.{
  EvalInput, EvalResult, StalenessMode, staleness_off, staleness_error, staleness_fail_closed,
  Gated, AuthError, policy_error, stale_error, refused, stale_result, evaluated, Atol, check_stale,
  require_serving_active, stale_deny, evaluate_gated,
}
use atol_sdk_go.Sdk.Decide.{
  Principal, Identity, Decision, Clock, Extra, extra_of, parse_object, can_with_details, can,
  authorize,
}

StalenessMode-cases :
    (m : StalenessMode)
    → (m ≡ staleness_off) ⊎ ((m ≡ staleness_error) ⊎ (m ≡ staleness_fail_closed))
StalenessMode-cases staleness_off = inl refl
StalenessMode-cases staleness_error = inr (inl refl)
StalenessMode-cases staleness_fail_closed = inr (inr refl)

-- The inputs of Can and of Authorize.
abbrev pub can_input : {X : Type 0} → Str → Str → Str → List Tuple → EvalInput (Extra X)
can_input user relation object context_tuples = record {
  user = user;
  relation = relation;
  object = object;
  resource_type = (parse_object object).0;
  resource_id = (parse_object object).1;
  extra = none;
  context_tuples = context_tuples;
}

abbrev pub authorize_input :
    {X : Type 0} → Principal → Option Identity → Option X → Str → Str → EvalInput (Extra X)
authorize_input p identity device action resource = record {
  user = bytes "user:" ++ p.user_id;
  relation = action;
  object = resource;
  resource_type = (parse_object resource).0;
  resource_id = (parse_object resource).1;
  extra = some (extra_of p action identity device);
  context_tuples = [];
}

-- The policy engine as the SDK calls it: the extra input becomes a map, and an error is a text.
module _ (env : Environment) (opa : Opa) {X : Type 0} (as_fields : Extra X → Fields)
    (error_text : PolicyFailure → Str) (elapsed : ℤ) (current : Option (Bundle opa))
    (e : Engine) where
  abbrev pub policy_input : EvalInput (Extra X) → EvalInput Fields
  policy_input input = record {
    user = input.user;
    relation = input.relation;
    object = input.object;
    resource_type = input.resource_type;
    resource_id = input.resource_id;
    extra = Option.map as_fields input.extra;
    context_tuples = input.context_tuples;
  }

  abbrev pub evaluate_policy : EvalInput (Extra X) → Result Str EvalResult
  evaluate_policy input = elim (evaluate opa env elapsed (policy_input input) current e).0 [
    | err x ↦ err (error_text x)
    | ok r ↦ ok r
  ]

  -- The state of the engine after the evaluation.
  abbrev pub after : EvalInput (Extra X) → Engine
  after input = (evaluate opa env elapsed (policy_input input) current e).1

  abbrev pub IsAskableOf : EvalInput (Extra X) → Type 0
  IsAskableOf input = IsAskable env.setting.context (policy_input input) e.store (after input)

  abbrev pub IsAllowed : EvalInput (Extra X) → Type 0
  IsAllowed input =
      IsDecided env opa (policy_input input) current e
      ⊎ (IsUndecided env opa (policy_input input) current e
          × IsHeld env.setting.context (policy_input input) e.store (after input))

  evaluate_policy-allowed :
      (input : EvalInput (Extra X)) (r : EvalResult)
      → IsAskableOf input
      → evaluate_policy input ≡ ok r
      → r.allowed ≡ true
      → IsAllowed input
  evaluate_policy-allowed input r askable h allowed =
      (evaluate-allowed env opa elapsed (policy_input input) current e r askable (ground (arith, h))
        allowed).1

  module _ (engine : PolicyEngine) (clock : Clock) (tenant : Str) (a : Atol engine) where
    -- The serving gate lets the tenant pass, and the state is not stale or staleness is not enforced.
    abbrev pub PassesGates : Type 0
    PassesGates =
        (require_serving_active engine clock.gate_now tenant a ≡ ok tt)
        × ((check_stale engine clock.stale_now a ≡ none) ⊎ (a.staleness_mode ≡ staleness_off))

    abbrev gated : EvalInput (Extra X) → Gated
    gated input =
        evaluate_gated engine evaluate_policy clock.gate_now clock.stale_now tenant input a

    -- The policy is evaluated only behind both gates; the other result denies.
    gated-cases :
        (input : EvalInput (Extra X))
        → ((x : AuthError) × (gated input ≡ refused x))
          ⊎ (gated input ≡ stale_result (stale_deny engine))
          ⊎ ((r : EvalResult) × (gated input ≡ evaluated r)
              × PassesGates
              × (evaluate_policy input ≡ ok r))
    unfolding evaluate_gated
    gated-cases input =
        elim (Result-cases (require_serving_active engine clock.gate_now tenant a)) [
          | inr (x, bad) ↦ inl (x, ground (arith, bad))
          | inl (done, active) ↦ elim (Option-cases (check_stale engine clock.stale_now a)) [
            | inl fresh ↦ elim (Result-cases (evaluate_policy input)) [
              | inr (x, bad) ↦ inl (policy_error x, ground (arith, active, fresh, bad))
              | inl (r, good) ↦
                  inr (inr (r, ground (arith, active, fresh, good), (active, inl fresh), good))
            ]
            | inr (since, stale) ↦ elim (StalenessMode-cases a.staleness_mode) [
              | inl off ↦ elim (Result-cases (evaluate_policy input)) [
                | inr (x, bad) ↦ inl (policy_error x, ground (arith, active, stale, off, bad))
                | inl (r, good) ↦
                    inr (inr (r, ground (arith, active, stale, off, good), (active, inr off), good))
              ]
              | inr (inl reports) ↦
                  inl (stale_error since a.max_staleness, ground (arith, active, stale, reports))
              | inr (inr closed) ↦ inr (inl (ground (arith, active, stale, closed)))
            ]
          ]
        ]

    -- Can answers true only behind the serving gate and the staleness gate, and then only where the policy
    -- yields a decision that allows, or, with no bundle or no decision, where the stored and the given tuples
    -- and the rules of the model that the engine has for the tenant of the evaluation, when it is over, grant
    -- the user the relation on the object. The store is valid, and the tuples, the query and that model are
    -- clean and named.
    pub can-granted :
        (principal : Option Principal) (user relation object : Str) (context_tuples : List Tuple)
        → IsAskableOf (can_input user relation object context_tuples)
        → (can engine evaluate_policy clock tenant principal user relation object context_tuples
            a).0
          ≡ ok true
        → PassesGates × IsAllowed (can_input user relation object context_tuples)
    unfolding can can_with_details
    can-granted principal user relation object context_tuples askable h =
        let input : EvalInput (Extra X) = can_input user relation object context_tuples in
        elim (gated-cases input) [
          | inl (x, bad) ↦ absurd (ground (arith, h, bad))
          | inr (inl denied) ↦ absurd (ground (arith, h, denied))
          | inr (inr (r, seen, passes, good)) ↦
              (passes, evaluate_policy-allowed input r askable good (ground (arith, h, seen)))
        ]

    -- Authorize allows only a principal, under the same conditions.
    pub authorize-granted :
        (principal : Option Principal) (identity : Option Identity) (device : Option X)
        (action resource : Str) (d : Decision)
        → ((p : Principal)
            → principal ≡ some p
            → IsAskableOf (authorize_input p identity device action resource))
        → (authorize engine evaluate_policy clock tenant principal identity device action resource
            a).0
          ≡ ok d
        → d.allow ≡ true
        → (p : Principal) × (principal ≡ some p)
          × PassesGates
          × IsAllowed (authorize_input p identity device action resource)
    unfolding authorize
    authorize-granted none identity device action resource d askable h allowed =
        absurd (ground (arith, h))
    authorize-granted (some p) identity device action resource d askable h allowed =
        let input : EvalInput (Extra X) = authorize_input p identity device action resource in
        elim (gated-cases input) [
          | inl (x, bad) ↦ absurd (ground (arith, h, bad))
          | inr (inl denied) ↦ absurd (ground (arith, h, denied, allowed))
          | inr (inr (r, seen, passes, good)) ↦ (
            p,
            refl,
            passes,
            evaluate_policy-allowed input r (askable p refl) good
                (ground (arith, h, seen, allowed)),
          )
        ]
