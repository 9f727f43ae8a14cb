-- ===== src/Examples/Sync.antt =====
-- The serving gate: it is bound, leased, and restricted.
use atol_sdk_go.Prelude.{
  ℕ, ◌+◌, ◌≤◌, ◌<◌, Bool, true, ◌≡◌, refl, ◌≢◌, [], none, some, Str, bytes, str_dec, ok, pos, arith,
}
use atol_sdk_go.Sync.ServingGate.{
  max_serving_lease, TenantServingRestriction, TenantServingGate, ServingUpdate, active,
  restricted_state, new_tenant_serving_gate, bind_tenant, require_tenant_locked, lease_from_update,
  renew, restrict, restriction_from_update, apply_restriction, valid_restriction_reason,
  same_restriction, require_active,
}
use atol_sdk_go.Sync.Leases.{
  Life, made, bound, renewed, allowed-is_leased, Call, Calls, done, next, restricted-stays,
}

abbrev always : Str → Bool
always id = true

abbrev bound_gate : TenantServingGate
bound_gate = record { tenant_id = bytes "t"; lease_expires_at = 0; restriction = none }

abbrev leased_gate : TenantServingGate
leased_gate = record { tenant_id = bytes "t"; lease_expires_at = 1010; restriction = none }

abbrev lease_update : ServingUpdate
lease_update = record {
  state = active;
  epoch = pos 0;
  restriction_request_id = [];
  restriction_reason = [];
  authority_event_id = [];
  authority_append_ordinal = pos 0;
  serving_challenge = bytes "c";
  lease_expires_at = some (record { valid = true; time = 1010 });
}

abbrev restriction_update : ServingUpdate
restriction_update = record {
  state = restricted_state;
  epoch = pos 3;
  restriction_request_id = bytes "r";
  restriction_reason = bytes "admitted_target_missing";
  authority_event_id = bytes "e";
  authority_append_ordinal = pos 4;
  serving_challenge = [];
  lease_expires_at = none;
}

abbrev the_restriction : TenantServingRestriction
the_restriction = record {
  epoch = pos 3;
  request_id = bytes "r";
  reason = bytes "admitted_target_missing";
  authority_event_id = bytes "e";
  authority_append_ordinal = pos 4;
}

abbrev restricted_gate : TenantServingGate
restricted_gate = record {
  tenant_id = bytes "t";
  lease_expires_at = 0;
  restriction = some the_restriction;
}

abbrev older_update : ServingUpdate
older_update = record restriction_update { epoch = pos 2 }

program : Unit {0}
unfolding str_dec bind_tenant require_tenant_locked lease_from_update renew valid_restriction_reason
    same_restriction restriction_from_update apply_restriction restrict require_active
program = tt

binds : bind_tenant (bytes "t") new_tenant_serving_gate ≡ ok bound_gate
unfolding program
binds = refl

renews : renew 1000 (bytes "t") (bytes "c") (some lease_update) bound_gate ≡ ok leased_gate
unfolding program
renews = refl

serves : require_active 1005 (bytes "t") leased_gate ≡ ok tt
unfolding program
serves = refl

restricts : restrict always (bytes "t") (some restriction_update) leased_gate ≡ ok restricted_gate
unfolding program
restricts = refl

ignores_older : restrict always (bytes "t") (some older_update) restricted_gate ≡ ok restricted_gate
unfolding program
ignores_older = refl

gate-Life : Life always leased_gate 1000 (some 1000)
gate-Life =
    renewed 1000 (bytes "t") (bytes "c") (some lease_update) leased_gate
      (bound (bytes "t") bound_gate (made 900) binds) (omega arith) renews

allowed-is_leased_example :
    (r : ℕ) × (some 1000 ≡ some r) × (r ≤ 1005) × (1005 < r + max_serving_lease)
allowed-is_leased_example = allowed-is_leased always 1005 (bytes "t") gate-Life (omega arith) serves

gate-Calls : Calls always leased_gate restricted_gate
gate-Calls = next done (Call.restriction (bytes "t") (some restriction_update) restricts)

gate_repeats : Calls always restricted_gate restricted_gate
gate_repeats = next done (Call.restriction (bytes "t") (some older_update) ignores_older)

restricted-stays_example : require_active 1005 (bytes "t") restricted_gate ≢ ok tt
restricted-stays_example =
    restricted-stays always 1005 (bytes "t") gate_repeats (λ e. absurd (ground arith))
