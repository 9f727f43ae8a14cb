-- ===== src/Sync/Leases.antt =====
-- The serving gate over its lifetime (sync/tenant_serving_gate.go): any sequence of its methods, at
-- the times of a clock that does not go back.
use atol_sdk_go.Prelude.{
  ℕ, ◌+◌, ◌≤◌, ◌<◌, Bool, false, ◌≡◌, refl, ◌≢◌, ◌↔◌, ◌⊎◌, inl, inr, [], Option, none, some, Str,
  ok, Result-cases, Bool-cases, less_trans, less_asym, less_total, subst, sym, ◌∙◌, ℤ, less, arith,
}
use atol_sdk_go.Sync.ServingGate.{
  max_serving_lease, TenantServingRestriction, TenantServingGate, ServingUpdate,
  new_tenant_serving_gate, bind_tenant, require_tenant_locked, lease_from_update, renew, restrict,
  restriction_from_update, apply_restriction, require_active,
}

-- RequireActive passes exactly when the gate is bound to this tenant (or the caller names none), no
-- restriction is in force, and the time is before the end of the lease.
pub require_active_iff :
    (now : ℕ) (tenant : Str) (g : TenantServingGate)
    → (require_active now tenant g ≡ ok tt) ↔ (
        (g.tenant_id ≢ [])
        × ((tenant ≡ []) ⊎ (tenant ≡ g.tenant_id))
        × (g.restriction ≡ none)
        × (now < g.lease_expires_at))
unfolding require_active require_tenant_locked
require_active_iff now tenant g = ground arith

module _ (parses : Str → Bool) where
  -- The gate after some calls that succeeded, the time of the last, and the time of the last
  -- renewal. A call that fails changes nothing.
  pub data Life : TenantServingGate → ℕ → Option ℕ → Type 0 where
    made : (t : ℕ) → Life new_tenant_serving_gate t none
    bound :
        {g : TenantServingGate} {t : ℕ} {last : Option ℕ} (tenant : Str) (g' : TenantServingGate)
        → Life g t last
        → bind_tenant tenant g ≡ ok g'
        → Life g' t last
    renewed :
        {g : TenantServingGate} {t : ℕ} {last : Option ℕ} (now : ℕ) (tenant expected : Str)
        (update : Option ServingUpdate) (g' : TenantServingGate)
        → Life g t last
        → t ≤ now
        → renew now tenant expected update g ≡ ok g'
        → Life g' now (some now)
    restricted_by :
        {g : TenantServingGate} {t : ℕ} {last : Option ℕ} (tenant : Str)
        (update : Option ServingUpdate) (g' : TenantServingGate)
        → Life g t last
        → restrict parses tenant update g ≡ ok g'
        → Life g' t last

  -- What a renewal does: the lease ends within the window and nothing else changes.
  renew_lem :
      (now : ℕ) (tenant expected : Str) (update : Option ServingUpdate) (g g' : TenantServingGate)
      → renew now tenant expected update g ≡ ok g'
      → (now < g'.lease_expires_at)
        × (g'.lease_expires_at ≤ now + max_serving_lease)
        × (g'.tenant_id ≡ g.tenant_id)
        × (g.restriction ≡ none)
        × (g'.restriction ≡ none)
  unfolding renew
  renew_lem now tenant expected none g g' h = absurd (ground arith)
  renew_lem now tenant expected (some update) g g' h =
      elim (Result-cases (lease_from_update expected update)) [
        | inl (expires, e) ↦ ground arith
        | inr (x, e) ↦ absurd (ground arith)
      ]

  restrict_lem :
      (tenant : Str) (update : Option ServingUpdate) (g g' : TenantServingGate)
      → restrict parses tenant update g ≡ ok g'
      → (g'.tenant_id ≡ g.tenant_id)
        × (g'.restriction ≢ none)
        × ((g'.lease_expires_at ≡ 0) ⊎ (g'.lease_expires_at ≡ g.lease_expires_at))
  unfolding restrict apply_restriction
  restrict_lem tenant update g g' h = elim (Result-cases (restriction_from_update parses update)) [
    | inl (r, e) ↦ ground arith
    | inr (x, e) ↦ absurd (ground arith)
  ]

  bind_lem :
      (tenant : Str) (g g' : TenantServingGate)
      → bind_tenant tenant g ≡ ok g'
      → (g'.tenant_id ≡ tenant)
        × (tenant ≢ [])
        × ((g.tenant_id ≡ []) ⊎ (g.tenant_id ≡ tenant))
        × (g'.restriction ≡ g.restriction)
        × (g'.lease_expires_at ≡ g.lease_expires_at)
  unfolding bind_tenant
  bind_lem tenant g g' h = ground arith

  -- A lease that is set was set by the last renewal, and within the window.
  abbrev IsLeased : ℕ → ℕ → Option ℕ → Type 0
  IsLeased lease t last =
      (lease ≡ 0) ⊎ (r : ℕ) × (last ≡ some r) × (r ≤ t) × (lease ≤ r + max_serving_lease)

  Life-IsLeased :
      {g : TenantServingGate} {t : ℕ} {last : Option ℕ}
      → Life g t last
      → IsLeased g.lease_expires_at t last
  Life-IsLeased (made t) = inl refl
  Life-IsLeased {t} {last} (bound {g} tenant g' life e) =
      subst (λ l. IsLeased l t last) (sym (bind_lem tenant g g' e).4) (Life-IsLeased life)
  Life-IsLeased (renewed {g} now tenant expected update g' life later e) =
      inr (now, refl, omega arith, (renew_lem now tenant expected update g g' e).1)
  Life-IsLeased {t} {last} (restricted_by {g} tenant update g' life e) =
      elim (restrict_lem tenant update g g' e).2 [
        | inl zeroed ↦ inl zeroed
        | inr kept ↦ subst (λ l. IsLeased l t last) (sym kept) (Life-IsLeased life)
      ]

  -- Fail closed: whatever was called before, a decision that the gate allows comes less than the
  -- length of the longest lease, 30 seconds, after a renewal that it accepted.
  pub allowed-is_leased :
      {g : TenantServingGate} {t : ℕ} {last : Option ℕ} (now : ℕ) (tenant : Str)
      → Life g t last
      → t ≤ now
      → require_active now tenant g ≡ ok tt
      → (r : ℕ) × (last ≡ some r) × (r ≤ now) × (now < r + max_serving_lease)
  allowed-is_leased {g} now tenant life later passed =
      let (_, _, _, before) = (require_active_iff now tenant g).0 passed in
      elim (Life-IsLeased life) [
        | inl zeroed ↦ absurd (omega arith)
        | inr (r, e, past, window) ↦ (r, e, omega arith, omega arith)
      ]

  -- One successful call, from any state.
  pub data Call (g g' : TenantServingGate) : Type 0 where
    bind : (tenant : Str) → bind_tenant tenant g ≡ ok g' → Call g g'
    lease :
        (now : ℕ) (tenant expected : Str) (update : Option ServingUpdate)
        → renew now tenant expected update g ≡ ok g'
        → Call g g'
    restriction :
        (tenant : Str) (update : Option ServingUpdate)
        → restrict parses tenant update g ≡ ok g'
        → Call g g'

  pub data Calls (g : TenantServingGate) : TenantServingGate → Type 0 where
    done : Calls g g
    next : {h k : TenantServingGate} → Calls g h → Call h k → Calls g k

  Call-sticky :
      {g g' : TenantServingGate} → Call g g' → g.restriction ≢ none → g'.restriction ≢ none
  Call-sticky {g} {g'} (Call.bind tenant e) h = ground (arith, bind_lem tenant g g' e)
  Call-sticky {g} {g'} (Call.lease now tenant expected update e) h =
      absurd (h (renew_lem now tenant expected update g g' e).3)
  Call-sticky {g} {g'} (Call.restriction tenant update e) h = (restrict_lem tenant update g g' e).1

  Calls-sticky :
      {g g' : TenantServingGate} → Calls g g' → g.restriction ≢ none → g'.restriction ≢ none
  Calls-sticky done h = h
  Calls-sticky (next cs c) h = Call-sticky c (Calls-sticky cs h)

  -- A restriction is sticky: after it no sequence of calls makes the gate allow a decision again.
  pub restricted-stays :
      {g g' : TenantServingGate} (now : ℕ) (tenant : Str)
      → Calls g g'
      → g.restriction ≢ none
      → require_active now tenant g' ≢ ok tt
  restricted-stays {g} {g'} now tenant cs h passed =
      Calls-sticky cs h ((require_active_iff now tenant g').0 passed).2

  Call-tenant :
      {g g' : TenantServingGate} → Call g g' → g.tenant_id ≢ [] → g'.tenant_id ≡ g.tenant_id
  Call-tenant {g} {g'} (Call.bind tenant e) h = ground (arith, bind_lem tenant g g' e)
  Call-tenant {g} {g'} (Call.lease now tenant expected update e) h =
      (renew_lem now tenant expected update g g' e).2
  Call-tenant {g} {g'} (Call.restriction tenant update e) h = (restrict_lem tenant update g g' e).0

  -- The tenant is written once: no sequence of calls rebinds a bound gate to another tenant.
  pub tenant-stays :
      {g g' : TenantServingGate} → Calls g g' → g.tenant_id ≢ [] → g'.tenant_id ≡ g.tenant_id
  tenant-stays done h = refl
  tenant-stays {g} (next {h = mid} cs c) h =
      let same_mid = tenant-stays cs h in Call-tenant c (λ e. h (sym same_mid ∙ e)) ∙ same_mid

  -- A restriction of at least this epoch is in force.
  abbrev pub RestrictedSince : ℤ → TenantServingGate → Type 0
  RestrictedSince epoch g =
      (r : TenantServingRestriction) × (g.restriction ≡ some r) × (less r.epoch epoch ≡ false)

  restrict-RestrictedSince :
      (epoch : ℤ) (tenant : Str) (update : Option ServingUpdate) (g g' : TenantServingGate)
      → restrict parses tenant update g ≡ ok g'
      → RestrictedSince epoch g
      → RestrictedSince epoch g'
  unfolding restrict apply_restriction
  restrict-RestrictedSince epoch tenant update g g' h (old, e, kept) =
      elim (Result-cases (restriction_from_update parses update)) [
        | inr (x, e') ↦ absurd (ground arith)
        | inl (r, e') ↦ elim (Bool-cases (less old.epoch r.epoch)) [
          | inl newer ↦ (
            r,
            ground arith,
            ground (
              arith,
              less_trans r.epoch epoch old.epoch,
              less_trans old.epoch r.epoch epoch,
              less_asym old.epoch r.epoch,
            ),
          )
          | inr older ↦ (old, ground (arith, less_total old.epoch r.epoch), kept)
        ]
      ]

  -- Epochs only grow: once a restriction of some epoch is in force, one of at least that epoch is,
  -- after every sequence of calls.
  pub epochs-stay :
      {g g' : TenantServingGate} (epoch : ℤ)
      → Calls g g'
      → RestrictedSince epoch g
      → RestrictedSince epoch g'
  epochs-stay epoch done h = h
  epochs-stay epoch (next {h = mid} {k} cs c) h = elim c [
    | Call.bind tenant e ↦
        let (r, known, kept) = epochs-stay epoch cs h in
        (r, (bind_lem tenant mid k e).3 ∙ known, kept)
    | Call.lease now tenant expected update e ↦
        let (r, known, kept) = epochs-stay epoch cs h in
        absurd (ground (arith, renew_lem now tenant expected update mid k e))
    | Call.restriction tenant update e ↦
        restrict-RestrictedSince epoch tenant update mid k e (epochs-stay epoch cs h)
  ]
