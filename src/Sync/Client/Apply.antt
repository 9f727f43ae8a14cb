-- ===== src/Sync/Client/Apply.antt =====
-- sync/sync.go: applyMutation, applyPolicyBundle and applyPolicyData. The result is the error, and the
-- client after the call.
use atol_sdk_go.Prelude.{
  ℕ, ℤ, pos, less, same, Bool, not, ◌&&◌, [], ◌∷◌, List, Option, none, some, Str, ◌==◌, ◌!=◌, Map,
  insert, Result, ok, err, if◌then◌else◌,
}
use atol_sdk_go.Zanzibar.Engine.State.{Op}
use atol_sdk_go.Zanzibar.Engine.Cache.{activate_model}
use atol_sdk_go.Zanzibar.Engine.Tuples.{write_tuple, delete_tuple}
use atol_sdk_go.Sync.ServingGate.{
  TenantServingGate, ServingUpdate, GateError, unspecified, active, restricted_state, renew,
  restrict,
}
use atol_sdk_go.Sync.Client.State.{
  Setting, PolicyEngine, PolicyBundleUpdate, PolicyDataUpdate, Mutation, no_mutation, tuple_write,
  tuple_delete, model_update, policy_bundle_update, policy_data_update, tenant_serving_state_update,
  StreamMutationsResponse, SyncError, response_nil, other_tenant, zanzibar_failed, policy_failed,
  gate_failed, tenant_id_empty, serving_update_nil, challenge_unavailable,
  serving_state_unspecified, Client, data_version,
}

-- `version != 0 && version <= last`
abbrev pub is_stale : ℤ → ℤ → Bool
is_stale version last = not (same version (pos 0)) && not (less last version)

module _ (engine : PolicyEngine) where
  abbrev pub Applied : Type 0
  Applied = Result (SyncError engine) (Unit {0}) × Client engine

  -- The loop that sets the tracked data again: the error, and the policy engine after it.
  unfoldable pub overlay :
      Map (Option engine.Data) → engine.State → Option engine.PolicyError × engine.State
  overlay [] p = (none, p)
  overlay ((path, value) ∷ more) p = elim (engine.set_policy_data path value p) [
    | err x ↦ (some x, p)
    | ok p' ↦ overlay more p'
  ]

  unfoldable pub apply_policy_bundle : Option PolicyBundleUpdate → Client engine → Applied
  apply_policy_bundle none c = (ok tt, c)
  apply_policy_bundle (some upd) c =
      if upd.policy_bundle == []
      then (ok tt, c)
      else if is_stale upd.version c.last_bundle_version
      then (ok tt, c)
      else elim (engine.load_bundle upd.policy_bundle c.baseline_data c.policy) [
        | err x ↦ (err (policy_failed x), c)
        | ok loaded ↦
            let overlaid = overlay c.last_data_value loaded in
            elim overlaid.0 [
              | some x ↦ (err (policy_failed x), record c { policy = overlaid.1 })
              | none ↦ (ok tt, record c { policy = overlaid.1; last_bundle_version = upd.version })
            ]
      ]

  unfoldable pub apply_policy_data : Option (PolicyDataUpdate engine) → Client engine → Applied
  apply_policy_data none c = (ok tt, c)
  apply_policy_data (some upd) c =
      if upd.path == []
      then (ok tt, c)
      else if is_stale upd.version (data_version engine upd.path c.last_data_version)
      then (ok tt, c)
      else elim (engine.set_policy_data upd.path upd.data_value c.policy) [
        | err x ↦ (err (policy_failed x), c)
        | ok p ↦ (
          ok tt,
          record c {
            policy = p;
            last_data_version = insert upd.path upd.version c.last_data_version;
            last_data_value = insert upd.path upd.data_value c.last_data_value;
          },
        )
      ]

  -- The result of a call of the Zanzibar engine, and of one of the gate.
  abbrev pub with_zanzibar : Op (Unit {0}) → Client engine → Applied
  with_zanzibar run c = elim (run c.zanzibar).0 [
    | err x ↦ (err (zanzibar_failed x), record c { zanzibar = (run c.zanzibar).1 })
    | ok done ↦ (ok tt, record c { zanzibar = (run c.zanzibar).1 })
  ]

  abbrev pub with_gate :
      (TenantServingGate → Result GateError TenantServingGate) → Client engine → Applied
  with_gate run c = elim (run c.serving_gate) [
    | err x ↦ (err (gate_failed x), c)
    | ok gate ↦ (ok tt, record c { serving_gate = gate })
  ]

  -- `now` is the clock.
  module _ (w : Setting) where
    unfoldable pub apply_serving_state :
        ℕ → List Str → Str → Option ServingUpdate → Client engine → Applied
    apply_serving_state now challenge tenant update c =
        if tenant == [] then (err tenant_id_empty, c) else elim update [
          | none ↦ (err serving_update_nil, c)
          | some u ↦ elim u.state [
            | active ↦ elim challenge [
              | [] ↦ (err challenge_unavailable, c)
              | expected ∷ more ↦ elim more [
                | [] ↦ with_gate (renew now tenant expected (some u)) c
                | _ ∷ _ ↦ (err challenge_unavailable, c)
              ]
            ]
            | restricted_state ↦ with_gate (restrict w.parses tenant (some u)) c
            | unspecified ↦ (err serving_state_unspecified, c)
          ]
        ]

    unfoldable pub apply_case : ℕ → List Str → Str → Mutation engine → Client engine → Applied
    apply_case now challenge tenant no_mutation c = (ok tt, c)
    apply_case now challenge tenant (tuple_write none) c = (ok tt, c)
    apply_case now challenge tenant (tuple_write (some t)) c =
        with_zanzibar
          (write_tuple w.unmarshal w.model_store w.context w.recorder t.user t.relation t.object) c
    apply_case now challenge tenant (tuple_delete none) c = (ok tt, c)
    apply_case now challenge tenant (tuple_delete (some t)) c =
        with_zanzibar
          (delete_tuple w.unmarshal w.model_store w.context w.recorder t.user t.relation t.object) c
    apply_case now challenge tenant (model_update none) c = (ok tt, c)
    apply_case now challenge tenant (model_update (some m)) c =
        if m.authorization_model == []
        then (ok tt, c)
        else with_zanzibar (activate_model w.unmarshal m.authorization_model m.revision) c
    apply_case now challenge tenant (policy_bundle_update upd) c = apply_policy_bundle upd c
    apply_case now challenge tenant (policy_data_update upd) c = apply_policy_data upd c
    apply_case now challenge tenant (tenant_serving_state_update upd) c =
        apply_serving_state now challenge tenant upd c

    unfoldable pub apply_mutation :
        ℕ → List Str → Option (StreamMutationsResponse engine) → Client engine → Applied
    apply_mutation now challenge none c = (err response_nil, c)
    apply_mutation now challenge (some msg) c =
        if msg.tenant_id != [] && msg.tenant_id != c.org_id
        then (err (other_tenant msg.tenant_id), c)
        else apply_case now challenge msg.tenant_id msg.mutation c
