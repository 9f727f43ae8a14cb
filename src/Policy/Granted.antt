-- ===== src/Policy/Granted.antt =====
-- What a check of the policy engine has seen of the tuples (policy/engine/builtins.go, fallbackCheck).
use atol_sdk_go.Prelude.{
  ℕ, true, Bool, List, [], ◌∷◌, Option, none, some, Option-cases, Bool-cases, ◌!=◌, lookup, Str,
  str_dec, Result, ok, Result-cases, ◌≡◌, ◌≢◌, ◌⊎◌, ap, refl, inl, inr, arith, subst, ◌∙◌,
}
use atol_sdk_go.Zanzibar.Model.Types.{Tuple}
use atol_sdk_go.Zanzibar.Model.Keys.{parse_user_key, parse_object_key}
use atol_sdk_go.Zanzibar.Store.Memory.{MemoryStore}
use atol_sdk_go.Zanzibar.Check.Checker.{TupleReader, Context, Query, found, check, start_query}
use atol_sdk_go.Zanzibar.Check.Grants.{Grants}
use atol_sdk_go.Zanzibar.Check.Decides.{check_sound}
use atol_sdk_go.Zanzibar.Check.OverMemory.{memory_reader}
use atol_sdk_go.Zanzibar.Check.ContextStore.{new_context_tuple_store, check_with_context}
use atol_sdk_go.Zanzibar.Engine.State.{Engine, EngineError, ModelStore, TenantModel}
use atol_sdk_go.Zanzibar.Model.Compile.{YamlModel}
use atol_sdk_go.Zanzibar.Engine.Cache.{resolve_model, refresh_model_for_tenant, model_for_operation}
use atol_sdk_go.Zanzibar.Engine.Tuples.{engine_check, engine_check_with_context_tuples}
use atol_sdk_go.Zanzibar.Engine.Writes.{operation-store}
use atol_sdk_go.Sync.Client.State.{Setting}
use atol_sdk_go.Policy.Engine.{
  Evaluation, fails, yields, asks, EvalState, Environment, call_arguments, check_input,
  check_access, run_evaluation,
}

-- What a check reads: the stored tuples, and the ephemeral ones where there are any.
abbrev pub reader_of : List Tuple → MemoryStore → TupleReader
reader_of [] s = memory_reader s
reader_of (t ∷ ts) s = new_context_tuple_store (memory_reader s) (t ∷ ts)

-- The model that the engine has for a tenant: the one that is cached for it, or else the default model.
abbrev pub IsModelOf : Str → Engine → TenantModel → Type 0
IsModelOf tenant e t =
    ((tenant ≢ []) × (lookup tenant e.models ≡ some t))
    ⊎ (((tenant ≡ []) ⊎ (lookup tenant e.models ≡ none)) × (e.default_model ≡ some t))

resolve_model-IsModelOf :
    (tenant : Str) (e : Engine) (t : TenantModel)
    → resolve_model [] tenant e ≡ some t
    → IsModelOf tenant e t
unfolding resolve_model str_dec
resolve_model-IsModelOf [] e t h = inr (inl refl, h)
resolve_model-IsModelOf (c ∷ cs) e t h = elim (Option-cases (lookup (c ∷ cs) e.models)) [
  | inl missing ↦ inr (inr missing, ground (arith, h, missing))
  | inr (u, cached) ↦ inl (λ k. ground (arith, k), ground (arith, h, cached))
]

-- The operation goes on with the model that the engine then has for the tenant.
operation-IsModelOf :
    (unmarshal : Str → Option YamlModel) (ms : Option ModelStore) (tenant : Str) (e : Engine)
    (t : TenantModel)
    → (model_for_operation unmarshal ms tenant e).0 ≡ ok (some t)
    → IsModelOf tenant (model_for_operation unmarshal ms tenant e).1 t
unfolding model_for_operation
operation-IsModelOf unmarshal none tenant e t h =
    resolve_model-IsModelOf tenant e t (ground (arith, h))
operation-IsModelOf unmarshal (some ms) tenant e t h = elim (Bool-cases (tenant != [])) [
  | inr nobody ↦ ground (arith, nobody, h, resolve_model-IsModelOf tenant e t)
  | inl somebody ↦
      let refreshed = refresh_model_for_tenant unmarshal (some ms) tenant tenant e in
      elim (Result-cases refreshed.0) [
        | inr (x, bad) ↦ absurd (ground (arith, somebody, bad, h))
        | inl (snapshot, good) ↦
            ground (arith, somebody, good, h, resolve_model-IsModelOf tenant refreshed.1 t)
      ]
]

module _ (w : Setting) (gate : Option (Str → Bool)) (ctx : Context) (fuel : ℕ)
    (user relation object : Str) (e : Engine) where
  abbrev q : Query
  q =
      start_query (parse_user_key user).0 (parse_user_key user).1 relation
        (parse_object_key object).0 (parse_object_key object).1

  abbrev resolved : Result EngineError (Option TenantModel) × Engine
  resolved = model_for_operation w.unmarshal w.model_store w.context e

  kept : resolved.1.store ≡ e.store
  kept = operation-store w.unmarshal w.model_store w.context e

  served : (t : TenantModel) → resolved.0 ≡ ok (some t) → IsModelOf w.context resolved.1 t
  served = operation-IsModelOf w.unmarshal w.model_store w.context e

  engine_check-store :
      (engine_check w.unmarshal w.model_store w.context w.recorder gate ctx fuel user relation
        object e).1.store
      ≡ e.store
  unfolding engine_check
  engine_check-store = ground (arith, kept)

  overlay_check-store :
      (tuples : List Tuple)
      → (engine_check_with_context_tuples w.unmarshal w.model_store w.context w.recorder gate ctx
          tuples fuel user relation object e).1.store
        ≡ e.store
  unfolding engine_check_with_context_tuples
  overlay_check-store tuples = ground (arith, kept, engine_check-store)

  engine_check-granted :
      (engine_check w.unmarshal w.model_store w.context w.recorder gate ctx fuel user relation
          object e).0
        ≡ ok (found true)
      → (t : TenantModel) × IsModelOf w.context
          (engine_check w.unmarshal w.model_store w.context w.recorder gate ctx fuel user relation
            object e).1
          t
        × Grants t.model (memory_reader e.store) q
  unfolding engine_check
  engine_check-granted h = elim (Result-cases resolved.0) [
    | inr (x, bad) ↦ absurd (ground (arith, h, bad))
    | inl (tm, good) ↦ elim (Option-cases tm) [
      | inl absent ↦ absurd (ground (arith, h, good, absent))
      | inr (t, present) ↦
          let answered : check t.model (memory_reader resolved.1.store) ctx fuel
                (parse_user_key user).0 (parse_user_key user).1 relation (parse_object_key object).0
                (parse_object_key object).1
              ≡ found true =
            ground (arith, h, good, present) in
          let reached : resolved.1
              ≡ (engine_check w.unmarshal w.model_store w.context w.recorder gate ctx fuel user
                  relation object e).1 =
            ground (arith, h, good, present) in
          (
            t,
            subst (λ x. IsModelOf w.context x t) reached (served t (good ∙ ap ok present)),
            subst (λ s. Grants t.model (memory_reader s) q) kept
                (check_sound t.model (memory_reader resolved.1.store) ctx fuel
                  (parse_user_key user).0 (parse_user_key user).1 relation
                  (parse_object_key object).0 (parse_object_key object).1 answered),
          )
    ]
  ]

  overlay_check-granted :
      (c : Tuple) (cs : List Tuple)
      → (engine_check_with_context_tuples w.unmarshal w.model_store w.context w.recorder gate ctx
          (c ∷ cs)
          fuel
          user
          relation
          object
          e).0
        ≡ ok (found true)
      → (t : TenantModel) × IsModelOf w.context
          (engine_check_with_context_tuples w.unmarshal w.model_store w.context w.recorder gate ctx
            (c ∷ cs)
            fuel
            user
            relation
            object
            e).1
          t
        × Grants t.model (reader_of (c ∷ cs) e.store) q
  unfolding engine_check_with_context_tuples check_with_context
  overlay_check-granted c cs h = elim (Result-cases resolved.0) [
    | inr (x, bad) ↦ absurd (ground (arith, h, bad))
    | inl (tm, good) ↦ elim (Option-cases tm) [
      | inl absent ↦ absurd (ground (arith, h, good, absent))
      | inr (t, present) ↦
          let over = new_context_tuple_store (memory_reader resolved.1.store) (c ∷ cs) in
          let answered : check t.model over ctx fuel (parse_user_key user).0 (parse_user_key user).1
                relation (parse_object_key object).0 (parse_object_key object).1
              ≡ found true =
            ground (arith, h, good, present) in
          let reached : resolved.1
              ≡ (engine_check_with_context_tuples w.unmarshal w.model_store w.context w.recorder
                  gate ctx (c ∷ cs) fuel user relation object e).1 =
            ground (arith, h, good, present) in
          (
            t,
            subst (λ x. IsModelOf w.context x t) reached (served t (good ∙ ap ok present)),
            subst (λ s. Grants t.model (reader_of (c ∷ cs) s) q) kept
                (check_sound t.model over ctx fuel (parse_user_key user).0 (parse_user_key user).1
                  relation (parse_object_key object).0 (parse_object_key object).1 answered),
          )
    ]
  ]

module _ (env : Environment) where
  check_input-store :
      (round : ℕ) (tuples : List Tuple) (user relation object : Str) (e : Engine)
      → (check_input env round tuples user relation object e).1.store ≡ e.store
  unfolding check_input
  check_input-store round [] user relation object e = ground (
    arith,
    engine_check-store env.setting env.gate (env.ctx round) env.fuel user relation object e,
  )
  check_input-store round (c ∷ cs) user relation object e = ground (
    arith,
    overlay_check-store env.setting env.gate (env.ctx round) env.fuel user relation object e
        (c ∷ cs),
  )

  -- A check that answers true has a derivation from the stored and the ephemeral tuples and the rules of
  -- the model that the engine then has for the tenant of the context.
  pub check_input-granted :
      (round : ℕ) (tuples : List Tuple) (user relation object : Str) (e : Engine)
      → (check_input env round tuples user relation object e).0 ≡ ok true
      → (t : TenantModel) × IsModelOf env.setting.context
          (check_input env round tuples user relation object e).1
          t
        × Grants t.model (reader_of tuples e.store) (
            start_query
              (parse_user_key user).0
              (parse_user_key user).1
              relation
              (parse_object_key object).0
              (parse_object_key object).1)
  unfolding check_input
  check_input-granted round [] user relation object e h =
      let (t, of, g) =
        engine_check-granted env.setting env.gate (env.ctx round) env.fuel user relation object e
          (ground (arith, h)) in
      (t, ground (arith, h, of), g)
  check_input-granted round (c ∷ cs) user relation object e h =
      let (t, of, g) =
        overlay_check-granted env.setting env.gate (env.ctx round) env.fuel user relation object e c
          cs (ground (arith, h)) in
      (t, ground (arith, h, of), g)

  -- The calls of zanzibar.check leave the store.
  pub run_evaluation-store :
      (tuples : List Tuple) (v : Evaluation) (s : EvalState) (e : Engine)
      → (run_evaluation env tuples v s e).2.store ≡ e.store
  unfolding run_evaluation
  run_evaluation-store tuples (fails x) s e = refl
  run_evaluation-store tuples (yields rs) s e = refl
  run_evaluation-store tuples (asks user relation obj next) s e =
      elim (Result-cases (call_arguments user relation obj)) [
        | inr (x, bad) ↦ rw (bad, run_evaluation) refl
        | inl ((u, r, o), good) ↦
            let answered = check_access env tuples u r o s e in
            let rest = run_evaluation-store tuples (next answered.0) answered.1 answered.2 in
            let first : answered.2.store ≡ e.store =
              unfold check_access in ground (arith, check_input-store s.calls tuples u r o e) in
            rw (good, run_evaluation) (rest ∙ first)
      ]
