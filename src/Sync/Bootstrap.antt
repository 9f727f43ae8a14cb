-- ===== src/Sync/Bootstrap.antt =====
-- bootstrap/bootstrap.go: what a snapshot does to the engines. The RPC is its answer.
use atol_sdk_go.Prelude.{
  ℤ, true, [], ◌∷◌, List, Option, none, some, Str, ◌==◌, Map, Result, ok, err, if◌then◌else◌, ◌≡◌,
  ◌≢◌, ◌⊎◌, inl, inr, ◌↔◌, arith, sym, ap, ◌∙◌, Result-cases,
}
use atol_sdk_go.Zanzibar.Model.Types.{Tuple}
use atol_sdk_go.Zanzibar.Store.Index.{find, same_keys, find-write}
use atol_sdk_go.Zanzibar.Engine.State.{Engine, EngineError, Op}
use atol_sdk_go.Zanzibar.Engine.Steps.{request_tuple}
use atol_sdk_go.Zanzibar.Engine.Cache.{is_positive, load_model, activate_model, put_default}
use atol_sdk_go.Zanzibar.Engine.Tuples.{write_tuple}
use atol_sdk_go.Zanzibar.Engine.Writes.{write_tuple_lem}
use atol_sdk_go.Sync.Client.State.{Setting, PolicyEngine, TupleKey}

module _ (engine : PolicyEngine) where
  -- GetBootstrapSnapshotResponse, by its getters; nil policy data is the empty map.
  pub record Snapshot : Type 0 where
    pub tenant_id : Str
    pub continuation_token : Str
    pub authorization_model : Str
    pub authorization_model_revision : ℤ
    pub tuples : List TupleKey
    pub policy_bundle : Str
    pub policy_data : Map (Option engine.Data)

  pub record BootstrapResult : Type 0 where
    pub continuation_token : Str
    pub tenant_id : Str
    pub authorization_model_revision : ℤ
    pub policy_data : Map (Option engine.Data)

  pub data BootstrapError : Type 0 where
    snapshot_failed : BootstrapError
    tenant_id_missing : BootstrapError
    model_failed : EngineError → BootstrapError
    tuple_failed : EngineError → BootstrapError
    bundle_failed : engine.PolicyError → BootstrapError

  module _ (w : Setting) where
    unfoldable pub load_snapshot_model : Snapshot → Op (Unit {0})
    load_snapshot_model snap e =
        if snap.authorization_model == []
        then (ok tt, e)
        else if is_positive snap.authorization_model_revision
        then activate_model w.unmarshal snap.authorization_model snap.authorization_model_revision e
        else load_model w.unmarshal snap.authorization_model e

    -- The loop over the tuples.
    unfoldable pub load_tuples : List TupleKey → Op (Unit {0})
    load_tuples [] e = (ok tt, e)
    load_tuples (t ∷ ts) e =
        let written =
          write_tuple w.unmarshal w.model_store w.context w.recorder t.user t.relation t.object e in
        elim written.0 [ err x ↦ (err x, written.1) | ok done ↦ load_tuples ts written.1 ]

    abbrev pub result_of : Snapshot → BootstrapResult
    result_of snap = record {
      continuation_token = snap.continuation_token;
      tenant_id = snap.tenant_id;
      authorization_model_revision = snap.authorization_model_revision;
      policy_data = snap.policy_data;
    }

    -- Bootstrap: `none` is an error of the RPC.
    unfoldable pub bootstrap :
        Option Snapshot
        → Engine
        → engine.State
        → Result BootstrapError BootstrapResult × Engine × engine.State
    bootstrap none e p = (err snapshot_failed, e, p)
    bootstrap (some snap) e p =
        let modelled = load_snapshot_model snap e in
        let loaded = load_tuples snap.tuples modelled.1 in
        if snap.tenant_id == [] then (err tenant_id_missing, e, p) else elim modelled.0 [
          | err x ↦ (err (model_failed x), modelled.1, p)
          | ok done ↦ elim loaded.0 [
            | err x ↦ (err (tuple_failed x), loaded.1, p)
            | ok done' ↦
                if snap.policy_bundle == []
                then (ok (result_of snap), loaded.1, p)
                else elim (engine.load_bundle snap.policy_bundle snap.policy_data p) [
                  | err x ↦ (err (bundle_failed x), loaded.1, p)
                  | ok p' ↦ (ok (result_of snap), loaded.1, p')
                ]
          ]
        ]

    model-store : (snap : Snapshot) (e : Engine) → (load_snapshot_model snap e).1.store ≡ e.store
    unfolding load_snapshot_model load_model activate_model put_default
    model-store snap e = ground arith

    -- The tuple of a key.
    abbrev pub tuple_of : TupleKey → Tuple
    tuple_of k = request_tuple k.user k.relation k.object

    -- One of the keys writes under the keys of the tuple.
    abbrev pub Writes : List TupleKey → Tuple → Type 0
    Writes [] u = ⊥
    Writes (k ∷ ks) u = (same_keys (tuple_of k) u ≡ true) ⊎ Writes ks u

    load_tuples_iff :
        (ks : List TupleKey) (e f : Engine) (u : Tuple)
        → load_tuples ks e ≡ (ok tt, f)
        → (find u f.store ≢ none) ↔ ((find u e.store ≢ none) ⊎ Writes ks u)
    unfolding load_tuples
    load_tuples_iff [] e f u h =
        let same : f.store ≡ e.store = sym (ap (λ r. r.1.store) h) in ground (arith, same)
    load_tuples_iff (k ∷ ks) e f u h =
        let e1 =
          (write_tuple w.unmarshal w.model_store w.context w.recorder k.user k.relation k.object
            e).1 in
        elim (write_tuple_lem w.unmarshal w.model_store w.context w.recorder k.user k.relation
          k.object e) [
            | inl (x, failed, same) ↦ absurd (ground (arith, h, failed))
            | inr (tm, found, valid, done, stored) ↦
                let rest : load_tuples ks e1 ≡ (ok tt, f) = ground (arith, h, done) in
                let written : find u e1.store
                    ≡ (if same_keys (tuple_of k) u then some (tuple_of k) else find u e.store) =
                  ap (find u) stored ∙ find-write (tuple_of k) u e.store in
                ground (arith, load_tuples_iff ks e1 f u rest, written)
          ]

    -- A bootstrap that succeeds holds a tuple exactly when the engine held one under its keys before, or
    -- the snapshot has one under its keys: it writes the tuples of the snapshot and removes none.
    pub bootstrap-held :
        (snap : Snapshot) (e : Engine) (p : engine.State) (r : BootstrapResult) (f : Engine)
        (q : engine.State) (u : Tuple)
        → bootstrap (some snap) e p ≡ (ok r, f, q)
        → (find u f.store ≢ none) ↔ ((find u e.store ≢ none) ⊎ Writes snap.tuples u)
    unfolding bootstrap
    bootstrap-held snap e p r f q u h =
        let e1 = (load_snapshot_model snap e).1 in
        elim (Result-cases (load_tuples snap.tuples e1).0) [
          | inr (x, failed) ↦ absurd (ground (arith, h, failed))
          | inl (done, loaded) ↦
              let state : (load_tuples snap.tuples e1).1 ≡ f = ground (arith, h, loaded) in
              let all : load_tuples snap.tuples e1 ≡ (ok tt, f) = λ i. (loaded i, state i) in
              ground (arith, load_tuples_iff snap.tuples e1 f u all, model-store snap e)
        ]
