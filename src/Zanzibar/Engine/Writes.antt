-- ===== src/Zanzibar/Engine/Writes.antt =====
-- What WriteTuple and WriteRelationships do to the store (zanzibar/zanzibar.go and
-- zanzibar/relationships.go): all or nothing, and nothing without validation.
use atol_sdk_go.Prelude.{
  ℤ, Bool, true, false, ◌≡◌, refl, ◌⊎◌, inl, inr, ◌||◌, ◌&&◌, List, [], ◌∷◌, Option, none, some,
  Str, lookup, ok, err, All, Option-cases, Result-cases, arith, ap, ◌∙◌,
}
use atol_sdk_go.Zanzibar.Model.Types.{Tuple}
use atol_sdk_go.Zanzibar.Model.Validate.{validate_tuple}
use atol_sdk_go.Zanzibar.Model.Compile.{YamlModel}
use atol_sdk_go.Zanzibar.Store.Memory.{write_locked, write_tx}
use atol_sdk_go.Zanzibar.Engine.State.{
  on_tuple_write, on_tuple_delete, TenantModel, ModelStore, Engine, EngineError, Op, ◌>>◌,
}
use atol_sdk_go.Zanzibar.Engine.Cache.{put_model, activate_model_for_tenant, model_for_operation}
use atol_sdk_go.Zanzibar.Engine.Revisions.{
  activate_lem, refresh_state, operation_state, compiled_model,
}
use atol_sdk_go.Zanzibar.Engine.Steps.{
  Recorder, is_empty, request_tuple, validate_write, validate_writes, notify_unless, notify_writes,
  notify_deletes, record_write, record_delete, record_writes, record_deletes,
}
use atol_sdk_go.Zanzibar.Engine.Tuples.{write_tuple, write_relationships}

put_model-store : (t : Str) (tm : TenantModel) (e : Engine) → (put_model t tm e).store ≡ e.store
unfolding put_model
put_model-store t tm e = ground (arith, Option-cases (lookup t e.models))

pub record_write-store :
    (n : Option Recorder) (t : Tuple) (e : Engine) → (record_write n t e).1.store ≡ e.store
unfolding record_write
record_write-store none t e = refl
record_write-store (some r) t e = ground arith

pub record_delete-store :
    (n : Option Recorder) (t : Tuple) (e : Engine) → (record_delete n t e).1.store ≡ e.store
unfolding record_delete
record_delete-store none t e = refl
record_delete-store (some r) t e = ground arith

validate_write-state :
    (tm : Option TenantModel) (t : Tuple) (e : Engine) → (validate_write tm t e).1 ≡ e
unfolding validate_write
validate_write-state none t e = refl
validate_write-state (some tm) t e = ground (arith, Result-cases (validate_tuple (some tm.model) t))

-- The tuple passes the validation under the model, if there is one.
abbrev pub Validated : Option TenantModel → Tuple → Type 0
Validated none t = Unit {0}
Validated (some tm) t = validate_tuple (some tm.model) t ≡ ok tt

validate_write-Validated :
    (tm : Option TenantModel) (t : Tuple) (e : Engine) (u : Unit {0})
    → (validate_write tm t e).0 ≡ ok u
    → Validated tm t
unfolding validate_write
validate_write-Validated none t e u h = tt
validate_write-Validated (some tm) t e u h =
    ground (arith, Result-cases (validate_tuple (some tm.model) t))

validate_writes-state :
    (tm : Option TenantModel) (ts : List Tuple) (e : Engine) → (validate_writes tm ts e).1 ≡ e
unfolding validate_writes
validate_writes-state tm [] e = refl
validate_writes-state tm (t ∷ ts) e = ground (
  arith,
  validate_write-state tm t e,
  validate_writes-state tm ts (validate_write tm t e).1,
  Result-cases (validate_write tm t e).0,
)

validate_writes-Validated :
    (tm : Option TenantModel) (ts : List Tuple) (e : Engine) (u : Unit {0})
    → (validate_writes tm ts e).0 ≡ ok u
    → All (Validated tm) ts
unfolding validate_writes
validate_writes-Validated tm [] e u h = tt
validate_writes-Validated tm (t ∷ ts) e u h = elim (Result-cases (validate_write tm t e).0) [
  | inr (x, k) ↦ absurd (ground arith)
  | inl (v, k) ↦ (
    validate_write-Validated tm t e v k,
    validate_writes-Validated tm ts (validate_write tm t e).1 u (ground arith),
  )
]

pub record_writes-store :
    (n : Option Recorder) (ts : List Tuple) (recorded : Bool) (e : Engine)
    → (record_writes n ts recorded e).1.store ≡ e.store
unfolding record_writes
record_writes-store n [] recorded e = refl
record_writes-store n (t ∷ ts) recorded e = elim (Result-cases (record_write n t e).0) [
  | inr (x, k) ↦ ground (arith, record_write-store n t e)
  | inl (used, k) ↦ ground (
    arith,
    record_write-store n t e,
    record_writes-store n ts (recorded || used) (record_write n t e).1,
  )
]

pub record_deletes-store :
    (n : Option Recorder) (ts : List Tuple) (recorded : Bool) (e : Engine)
    → (record_deletes n ts recorded e).1.store ≡ e.store
unfolding record_deletes
record_deletes-store n [] recorded e = refl
record_deletes-store n (t ∷ ts) recorded e = elim (Result-cases (record_delete n t e).0) [
  | inr (x, k) ↦ ground (arith, record_delete-store n t e)
  | inl (used, k) ↦ ground (
    arith,
    record_delete-store n t e,
    record_deletes-store n ts (recorded || used) (record_delete n t e).1,
  )
]

-- The notifications of a batch do not fail and do not touch the store.
abbrev pub Quiet : Op (Unit {0}) → Type 0
Quiet run = (e : Engine) → ((run e).0 ≡ ok tt) × ((run e).1.store ≡ e.store)

notify_writes-Quiet : (ts : List Tuple) → Quiet (notify_writes ts)
unfolding notify_writes
notify_writes-Quiet [] e = (refl, refl)
notify_writes-Quiet (t ∷ ts) e =
    notify_writes-Quiet ts (record e { events = on_tuple_write t ∷ e.events })

notify_deletes-Quiet : (ts : List Tuple) → Quiet (notify_deletes ts)
unfolding notify_deletes
notify_deletes-Quiet [] e = (refl, refl)
notify_deletes-Quiet (t ∷ ts) e =
    notify_deletes-Quiet ts (record e { events = on_tuple_delete t ∷ e.events })

notify_batch-Quiet :
    (recorded : Bool) (ws ds : List Tuple)
    → Quiet (notify_unless recorded (notify_writes ws >> notify_deletes ds))
notify_batch-Quiet true ws ds e = (refl, refl)
notify_batch-Quiet false ws ds e =
    let first = notify_writes-Quiet ws e in
    let second = notify_deletes-Quiet ds (notify_writes ws e).1 in
    (ground (arith, first, second), ground (arith, first, second))

module _ (unmarshal : Str → Option YamlModel) where
  activate-store :
      (tenant source : Str) (revision : ℤ) (e : Engine)
      → (activate_model_for_tenant unmarshal tenant source revision e).1.store ≡ e.store
  activate-store tenant source revision e = elim (activate_lem unmarshal tenant source revision) [
    | inl (x, h) ↦ ap (λ r. r.1.store) (h e)
    | inr (m, c, high, h) ↦
        ap (λ r. r.1.store) (h e) ∙ put_model-store tenant (compiled_model m source revision) e
  ]

  -- The store is not touched when a model is resolved.
  pub operation-store :
      (ms : Option ModelStore) (context : Str) (e : Engine)
      → (model_for_operation unmarshal ms context e).1.store ≡ e.store
  unfolding model_for_operation
  operation-store none context e = refl
  operation-store (some ms) context e = elim (operation_state unmarshal ms context e) [
    | inl h ↦ ap (λ x. x.store) h
    | inr h ↦ elim (refresh_state unmarshal (some ms) context context e) [
      | inl k ↦ ap (λ x. x.store) (h ∙ k)
      | inr (stored, k) ↦
          ap (λ x. x.store) (h ∙ k) ∙ activate-store context stored.yaml stored.revision e
    ]
  ]

module _ (unmarshal : Str → Option YamlModel) (ms : Option ModelStore) (context : Str)
    (n : Option Recorder) where
  -- WriteTuple: an error leaves the store as it was; otherwise the tuple of the request passed the
  -- validation under the model that the operation resolved, and the store is written with it.
  pub write_tuple_lem :
      (user relation object : Str) (e : Engine)
      → ((x : EngineError) × ((write_tuple unmarshal ms context n user relation object e).0 ≡ err x)
          × ((write_tuple unmarshal ms context n user relation object e).1.store ≡ e.store))
        ⊎ ((tm : Option TenantModel) × ((model_for_operation unmarshal ms context e).0 ≡ ok tm)
            × Validated tm (request_tuple user relation object)
            × ((write_tuple unmarshal ms context n user relation object e).0 ≡ ok tt)
            × ((write_tuple unmarshal ms context n user relation object e).1.store
                ≡ write_locked (request_tuple user relation object) e.store))
  unfolding write_tuple
  write_tuple_lem user relation object e =
      let t = request_tuple user relation object in
      let e1 = (model_for_operation unmarshal ms context e).1 in
      elim (Result-cases (model_for_operation unmarshal ms context e).0) [
        | inr (x, h) ↦ inl (x, ground arith, ground (arith, operation-store unmarshal ms context e))
        | inl (tm, h) ↦
            let e2 = (validate_write tm t e1).1 in
            elim (Result-cases (validate_write tm t e1).0) [
              | inr (x, k) ↦ inl (
                x,
                ground arith,
                ground
                    (arith, operation-store unmarshal ms context e, validate_write-state tm t e1),
              )
              | inl (u, k) ↦ elim (Result-cases (record_write n t e2).0) [
                | inr (x, l) ↦ inl (
                  x,
                  ground arith,
                  ground (
                    arith,
                    operation-store unmarshal ms context e,
                    validate_write-state tm t e1,
                    record_write-store n t e2,
                  ),
                )
                | inl (recorded, l) ↦ inr (
                  tm,
                  h,
                  validate_write-Validated tm t e1 u k,
                  ground arith,
                  ground (
                    arith,
                    operation-store unmarshal ms context e,
                    validate_write-state tm t e1,
                    record_write-store n t e2,
                  ),
                )
              ]
            ]
      ]

  -- WriteRelationships of a batch that is not empty: an error leaves the store as it was; otherwise every write
  -- passed the validation under the model that the operation resolved, and the store is that after
  -- WriteTx of the whole batch.
  pub write_relationships_lem :
      (writes ds : List Tuple) (e : Engine)
      → (is_empty writes && is_empty ds) ≡ false
      → ((x : EngineError) × ((write_relationships unmarshal ms context n writes ds e).0 ≡ err x)
          × ((write_relationships unmarshal ms context n writes ds e).1.store ≡ e.store))
        ⊎ ((tm : Option TenantModel) × ((model_for_operation unmarshal ms context e).0 ≡ ok tm)
            × All (Validated tm) writes
            × ((write_relationships unmarshal ms context n writes ds e).0 ≡ ok tt)
            × ((write_relationships unmarshal ms context n writes ds e).1.store
                ≡ write_tx writes ds e.store))
  unfolding write_relationships
  write_relationships_lem writes ds e some_tuple =
      let e1 = (model_for_operation unmarshal ms context e).1 in
      let at1 = operation-store unmarshal ms context e in
      elim (Result-cases (model_for_operation unmarshal ms context e).0) [
        | inr (x, h) ↦ inl (x, ground arith, ground (arith, at1))
        | inl (tm, h) ↦
            let e2 = (validate_writes tm writes e1).1 in
            let at2 = validate_writes-state tm writes e1 in
            elim (Result-cases (validate_writes tm writes e1).0) [
              | inr (x, k) ↦ inl (x, ground arith, ground (arith, at1, at2))
              | inl (u, k) ↦
                  let e3 = (record_writes n writes false e2).1 in
                  let at3 = record_writes-store n writes false e2 in
                  elim (Result-cases (record_writes n writes false e2).0) [
                    | inr (x, l) ↦ inl (x, ground arith, ground (arith, at1, at2, at3))
                    | inl (recorded, l) ↦
                        let e4 = (record_deletes n ds recorded e3).1 in
                        let at4 = record_deletes-store n ds recorded e3 in
                        elim (Result-cases (record_deletes n ds recorded e3).0) [
                          | inr (x, o) ↦ inl (x, ground arith, ground (arith, at1, at2, at3, at4))
                          | inl (all, o) ↦
                              let after =
                                notify_batch-Quiet all writes ds
                                  (record e4 { store = write_tx writes ds e4.store }) in
                              inr (
                                tm,
                                h,
                                validate_writes-Validated tm writes e1 u k,
                                ground (arith, after),
                                ground (arith, at1, at2, at3, at4, after),
                              )
                        ]
                  ]
            ]
      ]
