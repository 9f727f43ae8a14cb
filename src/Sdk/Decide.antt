-- ===== src/Sdk/Decide.antt =====
-- atol.go and staleness.go: CanWithDetails, Can, Authorize and the entries they log.
use atol_sdk_go.Prelude.{
  ℕ, ℤ, pos, Bool, false, [], ◌∷◌, ◌++◌, List, Option, none, some, Str, bytes, cut, ◌==◌, Result,
  ok, err, if◌then◌else◌,
}
use atol_sdk_go.Zanzibar.Model.Types.{Tuple}
use atol_sdk_go.Sync.Client.State.{PolicyEngine}
use atol_sdk_go.Decision.Log.{Entry, log}
use atol_sdk_go.Sdk.Safeconv.{int32_or_zero}
use atol_sdk_go.Sdk.Gate.{
  StepUp, EvalResult, EvalInput, AuthError, stale_error, Gated, refused, stale_result, evaluated,
  Atol, evaluate_gated,
}

-- The clock readings of one call: the gates', the microseconds of the evaluation, and the logger's.
pub record Clock : Type 0 where
  pub gate_now : ℕ
  pub stale_now : ℕ
  pub micros : ℤ
  pub logged_at : ℕ

-- parseObject cuts at the first colon.
unfoldable pub parse_object : Str → Str × Str
parse_object object = elim (cut 58 object) [ none ↦ (object, []) | some parts ↦ parts ]

-- strings.TrimPrefix(user, "user:")
unfoldable pub trim_prefix : Str → Str → Str → Str
trim_prefix whole [] s = s
trim_prefix whole (c ∷ prefix) [] = whole
trim_prefix whole (c ∷ prefix) (x ∷ s) =
    let rest = trim_prefix whole prefix s in if (c ∷ []) == (x ∷ []) then rest else whole

-- `auth_time`: its UnixNano, and none for the zero time.
pub record Principal : Type 0 where
  pub user_id : Str
  pub identity_id : Str
  pub org_id : Str
  pub email : Str
  pub email_verified : Bool
  pub auth_method : Str
  pub roles : List Str
  pub plan : Str
  pub mfa_verified : Bool
  pub trust_domain : Str
  pub auth_time : Option ℤ
  pub client_ip : Str

pub record Identity : Type 0 where
  pub id : Str
  pub scheme : Str
  pub auth_method : Str

-- The keys of the map of extra input; `none` is a key that is not set. The device context is of some
-- type X.
pub record Extra (X : Type 0) : Type 0 where
  pub org : Str
  pub action : Str
  pub roles : List Str
  pub plan : Str
  pub auth_method : Str
  pub mfa_verified : Bool
  pub trust_domain : Str
  pub client_ip : Str
  pub auth_time_ns : Option ℤ
  pub identity_id : Option Str
  pub identity_scheme : Option Str
  pub device : Option X

-- The map that Authorize builds.
abbrev pub extra_of : {X : Type 0} → Principal → Str → Option Identity → Option X → Extra X
extra_of p action identity device = record {
  org = p.org_id;
  action = action;
  roles = p.roles;
  plan = p.plan;
  auth_method = p.auth_method;
  mfa_verified = p.mfa_verified;
  trust_domain = p.trust_domain;
  client_ip = p.client_ip;
  auth_time_ns = p.auth_time;
  identity_id = elim identity [ none ↦ none | some i ↦ some i.id ];
  identity_scheme = elim identity [ none ↦ none | some i ↦ some i.scheme ];
  device = device;
}

pub record Decision : Type 0 where
  pub allow : Bool
  pub reason : Str
  pub step_up : Option StepUp

pub data AuthorizeError : Type 0 where
  no_principal : AuthorizeError
  evaluate_failed : AuthError → AuthorizeError

-- The rule that is logged for an error.
abbrev pub error_rule : AuthError → Str
error_rule (stale_error since budget) = bytes "stale-error"
error_rule _ = bytes "error"

-- An entry by what CanWithDetails, logDecision and logStaleDeny set; the logger sets the time.
abbrev pub entry : Str → Str → Str → Str → Bool → Str → ℤ → ℤ → Entry
entry user relation object auth_method allowed matched_rule eval_us zanzibar_calls = record {
  request_id = [];
  user = user;
  relation = relation;
  object = object;
  allowed = allowed;
  matched_rule = matched_rule;
  eval_us = eval_us;
  zanzibar_calls = zanzibar_calls;
  auth_method = auth_method;
  timestamp = 0;
}

module _ (engine : PolicyEngine) where
  -- A call of the decision logger, where there is one.
  abbrev pub log_entry : ℕ → Entry → Atol engine → Atol engine
  log_entry now e a = elim a.decision_logger [
    | none ↦ a
    | some l ↦ record a { decision_logger = some (log now e l) }
  ]

  module _ {X : Type 0} (evaluate : EvalInput (Extra X) → Result Str EvalResult) where
    -- The entry of CanWithDetails.
    abbrev pub details_entry : Str → Str → Str → Str → ℤ → Gated → Entry
    details_entry user relation object auth_method eval_us (refused x) =
        entry user relation object auth_method false (error_rule x) eval_us (pos 0)
    details_entry user relation object auth_method eval_us (stale_result r) =
        entry user relation object auth_method false (bytes "stale-deny") eval_us (pos 0)
    details_entry user relation object auth_method eval_us (evaluated r) =
        entry user relation object auth_method r.allowed r.matched_rule eval_us r.zanzibar_calls

    abbrev pub details : Gated → Result AuthError EvalResult
    details (refused x) = err x
    details (stale_result r) = ok r
    details (evaluated r) = ok r

    unfoldable pub can_with_details :
        Clock
        → Str
        → Option Principal
        → Str
        → Str
        → Str
        → List Tuple
        → Atol engine
        → Result AuthError EvalResult × Atol engine
    can_with_details clock tenant principal user relation object context_tuples a =
        let input : EvalInput (Extra X) = record {
          user = user;
          relation = relation;
          object = object;
          resource_type = (parse_object object).0;
          resource_id = (parse_object object).1;
          extra = none;
          context_tuples = context_tuples;
        } in
        let gated = evaluate_gated engine evaluate clock.gate_now clock.stale_now tenant input a in
        let auth_method : Str = elim principal [ none ↦ [] | some p ↦ p.auth_method ] in
        let logged =
          details_entry (trim_prefix user (bytes "user:") user) relation object auth_method
            (int32_or_zero clock.micros) gated in
        (details gated, log_entry clock.logged_at logged a)

    unfoldable pub can :
        Clock
        → Str
        → Option Principal
        → Str
        → Str
        → Str
        → List Tuple
        → Atol engine
        → Result AuthError Bool × Atol engine
    can clock tenant principal user relation object context_tuples a =
        let out = can_with_details clock tenant principal user relation object context_tuples a in
        (elim out.0 [ err x ↦ err x | ok r ↦ ok r.allowed ], out.1)

    -- The decision of Authorize for an evaluated policy.
    abbrev pub decision_of : EvalResult → Decision
    decision_of r = record {
      allow = r.allowed;
      reason = if r.reason == [] then r.matched_rule else r.reason;
      step_up = r.step_up;
    }

    -- The entry and the result of Authorize after the evaluation.
    abbrev pub authorize_entry : Principal → Str → Str → ℤ → Gated → Entry
    authorize_entry p action resource eval_us (refused x) =
        entry p.user_id action resource p.auth_method false (error_rule x) eval_us (pos 0)
    authorize_entry p action resource eval_us (stale_result r) =
        entry p.user_id action resource p.auth_method false (bytes "stale-deny") (pos 0) (pos 0)
    authorize_entry p action resource eval_us (evaluated r) =
        entry p.user_id action resource p.auth_method r.allowed r.matched_rule eval_us
          r.zanzibar_calls

    abbrev pub authorize_result : Gated → Result AuthorizeError Decision
    authorize_result (refused x) = err (evaluate_failed x)
    authorize_result (stale_result r) =
        ok (record { allow = false; reason = bytes "stale-deny"; step_up = none })
    authorize_result (evaluated r) = ok (decision_of r)

    -- Authorize, with the principal, the identity and the device of its context.
    unfoldable pub authorize :
        Clock
        → Str
        → Option Principal
        → Option Identity
        → Option X
        → Str
        → Str
        → Atol engine
        → Result AuthorizeError Decision × Atol engine
    authorize clock tenant none identity device action resource a = (
      err no_principal,
      log_entry clock.logged_at
          (entry [] action resource [] false (bytes "no_principal") (pos 0) (pos 0)) a,
    )
    authorize clock tenant (some p) identity device action resource a =
        let input : EvalInput (Extra X) = record {
          user = bytes "user:" ++ p.user_id;
          relation = action;
          object = resource;
          resource_type = (parse_object resource).0;
          resource_id = (parse_object resource).1;
          extra = some (extra_of p action identity device);
          context_tuples = [];
        } in
        let gated = evaluate_gated engine evaluate clock.gate_now clock.stale_now tenant input a in
        (
          authorize_result gated,
          log_entry clock.logged_at
              (authorize_entry p action resource (int32_or_zero clock.micros) gated) a,
        )
