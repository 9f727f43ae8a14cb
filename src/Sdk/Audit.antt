-- ===== src/Sdk/Audit.antt =====
-- Every decision is logged (atol.go, with decision/logger.go).
use atol_sdk_go.Prelude.{
  ℕ, ℤ, pos, Bool, true, false, [], ◌++◌, List, Option, none, some, Str, bytes, Result, ok, err,
  ◌≡◌, refl, ◌↔◌, arith,
}
use atol_sdk_go.Zanzibar.Model.Types.{Tuple}
use atol_sdk_go.Sync.Client.State.{PolicyEngine}
use atol_sdk_go.Decision.Log.{Entry, Logger, log}
use atol_sdk_go.Sdk.Safeconv.{int32_or_zero}
use atol_sdk_go.Sdk.Gate.{
  EvalResult, EvalInput, AuthError, Gated, refused, stale_result, evaluated, Atol, evaluate_gated,
}
use atol_sdk_go.Sdk.Decide.{
  Clock, entry, parse_object, trim_prefix, Principal, Identity, Extra, extra_of, Decision,
  details_entry, details, can_with_details, can, authorize, authorize_entry, authorize_result,
}

module _ (engine : PolicyEngine) {X : Type 0}
    (evaluate : EvalInput (Extra X) → Result Str EvalResult) where
  -- A stale result denies.
  stale-denies :
      (gate_now now : ℕ) (tenant : Str) (input : EvalInput (Extra X)) (a : Atol engine)
      (r : EvalResult)
      → evaluate_gated engine evaluate gate_now now tenant input a ≡ stale_result r
      → r.allowed ≡ false
  unfolding evaluate_gated
  stale-denies gate_now now tenant input a r e = ground (arith, e)

  abbrev allows : Gated → Result AuthError Bool
  allows g = elim (details engine evaluate g) [ err x ↦ err x | ok r ↦ ok r.allowed ]

  -- The entry, for each result of the gates and the policy.
  details_entry_lem :
      (user relation object auth_method : Str) (us : ℤ) (g : Gated)
      → ((r : EvalResult) → g ≡ stale_result r → r.allowed ≡ false)
      → let e = details_entry engine evaluate user relation object auth_method us g in
        (e.relation ≡ relation) × (e.object ≡ object) × ((e.allowed ≡ true) ↔ (allows g ≡ ok true))
  details_entry_lem user relation object auth_method us (refused x) h = ground arith
  details_entry_lem user relation object auth_method us (stale_result r) h =
      ground (arith, h r refl)
  details_entry_lem user relation object auth_method us (evaluated r) h = ground arith

  authorize_entry_lem :
      (p : Principal) (action resource : Str) (us : ℤ) (g : Gated)
      → let e = authorize_entry engine evaluate p action resource us g in
        (e.relation ≡ action)
        × (e.object ≡ resource)
        × ((e.allowed ≡ true)
            ↔ ((d : Decision) × (authorize_result engine evaluate g ≡ ok d) × (d.allow ≡ true)))
  authorize_entry_lem p action resource us (refused x) =
      (refl, refl, (λ t. absurd (ground (arith, t)), λ (d, e, t). absurd (ground (arith, e))))
  authorize_entry_lem p action resource us (stale_result r) =
      (refl, refl, (λ t. absurd (ground (arith, t)), λ (d, e, t). ground (arith, e, t)))
  authorize_entry_lem p action resource us (evaluated r) =
      (refl, refl, (λ t. (_, refl, t), λ (d, e, t). ground (arith, e, t)))

  -- A call of Can logs one entry, for its relation and its object, where there is a logger; and the entry
  -- says that access is allowed exactly when Can answers that it is.
  pub can-logged :
      (clock : Clock) (tenant : Str) (principal : Option Principal) (user relation object : Str)
      (tuples : List Tuple) (a : Atol engine) (l : Logger)
      → a.decision_logger ≡ some l
      → let out = can engine evaluate clock tenant principal user relation object tuples a in
        (e : Entry) × (out.1.decision_logger ≡ some (log clock.logged_at e l))
        × (e.relation ≡ relation)
        × (e.object ≡ object)
        × ((e.allowed ≡ true) ↔ (out.0 ≡ ok true))
  unfolding can can_with_details
  can-logged clock tenant principal user relation object tuples a l h =
      let input : EvalInput (Extra X) = record {
        user = user;
        relation = relation;
        object = object;
        resource_type = (parse_object object).0;
        resource_id = (parse_object object).1;
        extra = none;
        context_tuples = tuples;
      } in
      let gated = evaluate_gated engine evaluate clock.gate_now clock.stale_now tenant input a in
      let auth_method : Str = elim principal [ none ↦ [] | some p ↦ p.auth_method ] in
      let us = int32_or_zero clock.micros in
      let name = trim_prefix user (bytes "user:") user in
      let (rel, obj, both) =
        details_entry_lem name relation object auth_method us gated
          (stale-denies clock.gate_now clock.stale_now tenant input a) in
      (
        details_entry engine evaluate name relation object auth_method us gated,
        ground (arith, h),
        rel,
        obj,
        both,
      )

  -- A call of Authorize logs one entry, for its action and its resource, where there is a logger; and the
  -- entry says that access is allowed exactly when Authorize returns a decision that allows it.
  pub authorize-logged :
      (clock : Clock) (tenant : Str) (principal : Option Principal) (identity : Option Identity)
      (device : Option X) (action resource : Str) (a : Atol engine) (l : Logger)
      → a.decision_logger ≡ some l
      → let out =
          authorize engine evaluate clock tenant principal identity device action resource a in
        (e : Entry) × (out.1.decision_logger ≡ some (log clock.logged_at e l))
        × (e.relation ≡ action)
        × (e.object ≡ resource)
        × ((e.allowed ≡ true) ↔ ((d : Decision) × (out.0 ≡ ok d) × (d.allow ≡ true)))
  unfolding authorize
  authorize-logged clock tenant none identity device action resource a l h = (
    entry [] action resource [] false (bytes "no_principal") (pos 0) (pos 0),
    ground (arith, h),
    refl,
    refl,
    (λ t. absurd (ground (arith, t)), λ (d, e, t). absurd (ground (arith, e))),
  )
  authorize-logged clock tenant (some p) identity device action resource a l h =
      let input : EvalInput (Extra X) = record {
        user = bytes "user:" ++ p.user_id;
        relation = action;
        object = resource;
        resource_type = (parse_object resource).0;
        resource_id = (parse_object resource).1;
        extra = some (extra_of p action identity device);
        context_tuples = [];
      } in
      let gated = evaluate_gated engine evaluate clock.gate_now clock.stale_now tenant input a in
      let us = int32_or_zero clock.micros in
      let (rel, obj, both) = authorize_entry_lem p action resource us gated in
      (
        authorize_entry engine evaluate p action resource us gated,
        ground (arith, h),
        rel,
        obj,
        both,
      )
