-- ===== src/Sync/ServingGate.antt =====
-- sync/tenant_serving_gate.go: the gate's state and methods. Times are nanoseconds since the zero
-- time.Time. The clock is read once in a call, so it is an argument; ulid.ParseStrict of the module
-- oklog/ulid is the parameter `parses`.
use atol_sdk_go.Prelude.{
  ℕ, ◌+◌, Bool, true, false, ◌&&◌, ◌||◌, [], Option, none, some, Str, bytes, ◌==◌, ◌!=◌, ltb, leb,
  Result, ok, err, ◌>>=◌, ◌>>◌, guard, if◌then◌else◌, ℤ, pos, less, same,
}

-- maxServingLease, 30 seconds.
abbrev pub max_serving_lease : ℕ
max_serving_lease = 30000000000

pub record TenantServingRestriction : Type 0 where
  pub epoch : ℤ
  pub request_id : Str
  pub reason : Str
  pub authority_event_id : Str
  pub authority_append_ordinal : ℤ

pub data GateError : Type 0 where
  empty_tenant : GateError
  scope_mismatch : GateError
  lease_unavailable : GateError
  restricted : TenantServingRestriction → GateError
  active_required : GateError
  authority_in_lease : GateError
  challenge_mismatch : GateError
  expiration_required : GateError
  invalid_expiration : GateError
  outside_window : GateError
  restricted_required : GateError
  lease_in_restriction : GateError
  authority_required : GateError
  invalid_request_id : GateError
  invalid_event_id : GateError
  invalid_reason : GateError
  conflicting_authority : ℤ → GateError

pub record TenantServingGate : Type 0 where
  pub tenant_id : Str
  pub lease_expires_at : ℕ
  pub restriction : Option TenantServingRestriction

pub data ServingState : Type 0 where
  unspecified active restricted_state : ServingState

-- A protobuf timestamp: whether CheckValid accepts it, and the time it stands for.
pub record Timestamp : Type 0 where
  pub valid : Bool
  pub time : ℕ

-- apiv1.TenantServingStateUpdate, by its getters.
pub record ServingUpdate : Type 0 where
  pub state : ServingState
  pub epoch : ℤ
  pub restriction_request_id : Str
  pub restriction_reason : Str
  pub authority_event_id : Str
  pub authority_append_ordinal : ℤ
  pub serving_challenge : Str
  pub lease_expires_at : Option Timestamp

abbrev pub new_tenant_serving_gate : TenantServingGate
new_tenant_serving_gate = record { tenant_id = []; lease_expires_at = 0; restriction = none }

abbrev is_active : ServingState → Bool
is_active active = true
is_active unspecified = false
is_active restricted_state = false

abbrev is_restricted : ServingState → Bool
is_restricted restricted_state = true
is_restricted active = false
is_restricted unspecified = false

-- BindTenant: the error, or the new state.
unfoldable pub bind_tenant : Str → TenantServingGate → Result GateError TenantServingGate
bind_tenant tenant g =
    if tenant == []
    then err empty_tenant
    else if g.tenant_id != [] && g.tenant_id != tenant
    then err scope_mismatch
    else ok (record g { tenant_id = tenant })

unfoldable pub require_tenant_locked : Str → TenantServingGate → Result GateError (Unit {0})
require_tenant_locked tenant g =
    if g.tenant_id == []
    then err lease_unavailable
    else if tenant != [] && tenant != g.tenant_id
    then err scope_mismatch
    else ok tt

-- The tests of Renew on the update alone; the result is the expiration.
unfoldable pub lease_from_update : Str → ServingUpdate → Result GateError ℕ
lease_from_update expected update = do
  guard (is_active update.state) active_required
  guard
      (same update.epoch (pos 0)
        && (update.restriction_request_id == []
            && (update.restriction_reason == []
                && (update.authority_event_id == []
                    && same update.authority_append_ordinal (pos 0)))))
      authority_in_lease
  guard (expected != [] && update.serving_challenge == expected) challenge_mismatch
  elim update.lease_expires_at [
    | none ↦ err expiration_required
    | some expiration ↦ if expiration.valid then ok expiration.time else err invalid_expiration
  ]

-- Renew at the time `now`.
unfoldable pub renew :
    ℕ → Str → Str → Option ServingUpdate → TenantServingGate → Result GateError TenantServingGate
renew now tenant expected none g = err active_required
renew now tenant expected (some update) g = do
  expires_at ← lease_from_update expected update
  guard (ltb now expires_at && leb expires_at (now + max_serving_lease)) outside_window
  require_tenant_locked tenant g
  elim g.restriction [
    | some r ↦ err (restricted r)
    | none ↦ ok (record g { lease_expires_at = expires_at })
  ]

unfoldable pub valid_restriction_reason : Str → Bool
valid_restriction_reason reason =
    reason == bytes "admitted_target_missing"
    || (reason == bytes "admitted_source_generation_missing"
        || reason == bytes "admitted_model_revision_missing")

-- Two restrictions are equal in every field.
unfoldable pub same_restriction : TenantServingRestriction → TenantServingRestriction → Bool
same_restriction a b =
    same a.epoch b.epoch
    && (a.request_id == b.request_id
        && (a.reason == b.reason
            && (a.authority_event_id == b.authority_event_id
                && same a.authority_append_ordinal b.authority_append_ordinal)))

module _ (parses : Str → Bool) where
  unfoldable pub restriction_from_update :
      Option ServingUpdate → Result GateError TenantServingRestriction
  restriction_from_update none = err restricted_required
  restriction_from_update (some update) = do
    guard (is_restricted update.state) restricted_required
    guard (elim update.lease_expires_at [ none ↦ update.serving_challenge == [] | some _ ↦ false ])
        lease_in_restriction
    guard (less (pos 0) update.epoch && less (pos 0) update.authority_append_ordinal)
        authority_required
    guard (parses update.restriction_request_id) invalid_request_id
    guard (parses update.authority_event_id) invalid_event_id
    guard (valid_restriction_reason update.restriction_reason) invalid_reason
    ok (record {
      epoch = update.epoch;
      request_id = update.restriction_request_id;
      reason = update.restriction_reason;
      authority_event_id = update.authority_event_id;
      authority_append_ordinal = update.authority_append_ordinal;
    })

  -- The part of Restrict that compares with the restriction in force.
  unfoldable pub apply_restriction :
      TenantServingRestriction → TenantServingGate → Result GateError TenantServingGate
  apply_restriction r g =
      let set : TenantServingGate = record g { restriction = some r; lease_expires_at = 0 } in
      elim g.restriction [
        | none ↦ ok set
        | some old ↦
            if less r.epoch old.epoch
            then ok g
            else if same r.epoch old.epoch
            then if same_restriction r old then ok g else err (conflicting_authority r.epoch)
            else ok set
      ]

  unfoldable pub restrict :
      Str → Option ServingUpdate → TenantServingGate → Result GateError TenantServingGate
  restrict tenant update g = do
    r ← restriction_from_update update
    require_tenant_locked tenant g
    apply_restriction r g

-- RequireActive at the time `now`.
unfoldable pub require_active : ℕ → Str → TenantServingGate → Result GateError (Unit {0})
require_active now tenant g = do
  require_tenant_locked tenant g
  elim g.restriction [
    | some r ↦ err (restricted r)
    | none ↦ guard (ltb now g.lease_expires_at) lease_unavailable
  ]
