-- ===== src/Zanzibar/Engine/Revisions.antt =====
-- The activation fence of the model cache (zanzibar/zanzibar.go, ActivateModelForTenant, and
-- zanzibar/model_cache.go): revisions only grow, and activations commute.
use atol_sdk_go.Prelude.{
  less_irrefl, not_less_trans, ℤ, less, less_asym, true, false, ◌≡◌, refl, ◌⊎◌, inl, inr, [], ◌∷◌,
  Option, none, some, Str, str_dec, ◌==◌, ◌||◌, not, Map, lookup, lookup-insert, ok, err,
  Option-cases, Result-cases, Bool-cases, arith, sym, subst,
}
use atol_sdk_go.Zanzibar.Model.Types.{Model}
use atol_sdk_go.Zanzibar.Model.Compile.{YamlModel}
use atol_sdk_go.Zanzibar.Model.Passes.{compile}
use atol_sdk_go.Zanzibar.Engine.State.{
  TenantModel, StoredModel, ModelStore, Engine, EngineError, tenant_required, revision_not_positive,
  compile_model,
}
use atol_sdk_go.Zanzibar.Engine.Cache.{
  is_positive, put_model, put_default, load_model, activate_model, activate_model_for_tenant,
  next_revision, load_model_for_tenant, refresh_model_for_tenant, model_for_operation,
  activate_persisted, load_persisted_models, set_model,
}

-- Each cached model of the first engine is in the second, or one with a revision that is not less.
abbrev pub Advances : Map TenantModel → Map TenantModel → Type 0
Advances old new =
    (tenant : Str) (tm : TenantModel)
    → lookup tenant old ≡ some tm
    → (tm' : TenantModel) × (lookup tenant new ≡ some tm') × (less tm'.revision tm.revision ≡ false)

Advances-refl : (m : Map TenantModel) → Advances m m
Advances-refl m tenant tm e = (tm, e, less_irrefl tm.revision)

Advances-trans : (m n k : Map TenantModel) → Advances m n → Advances n k → Advances m k
Advances-trans m n k f g tenant tm e =
    let (tm', e', later) = f tenant tm e in
    let (tm'', e'', later') = g tenant tm' e' in
    (tm'', e'', not_less_trans tm.revision tm'.revision tm''.revision later later')

put_model-Advances :
    (tenant : Str) (tm : TenantModel) (e : Engine)
    → Advances e.models (put_model tenant tm e).models
unfolding put_model
put_model-Advances tenant tm e u old h = elim (str_dec tenant u) [
  | yes same_tenant ↦ elim (Bool-cases (less old.revision tm.revision)) [
    | inl newer ↦ (
      tm,
      ground (arith, lookup-insert tenant u tm e.models),
      less_asym old.revision tm.revision newer,
    )
    | inr stale ↦ (old, ground arith, less_irrefl old.revision)
  ]
  | no other ↦ (old, ground (arith, lookup-insert tenant u tm e.models), less_irrefl old.revision)
]

abbrev pub compiled_model : Model → Str → ℤ → TenantModel
compiled_model m source revision = record { model = m; source_yaml = source; revision = revision }

module _ (unmarshal : Str → Option YamlModel) where
  -- An activation fails and changes nothing on every engine, or it puts the compiled model on every
  -- engine.
  pub activate_lem :
      (tenant source : Str) (revision : ℤ)
      → ((x : EngineError) × ((e : Engine)
            → activate_model_for_tenant unmarshal tenant source revision e ≡ (err x, e)))
        ⊎ ((m : Model) × (compile unmarshal source ≡ ok m)
            × (is_positive revision ≡ true)
            × ((e : Engine)
                → activate_model_for_tenant unmarshal tenant source revision e
                  ≡ (ok tt, put_model tenant (compiled_model m source revision) e)))
  unfolding activate_model_for_tenant
  activate_lem tenant source revision = elim (str_dec tenant []) [
    | yes missing ↦ inl (tenant_required, λ e. ground arith)
    | no named ↦ elim (Bool-cases (is_positive revision)) [
      | inr low ↦ inl (revision_not_positive, λ e. ground arith)
      | inl high ↦ elim (Result-cases (compile unmarshal source)) [
        | inl (m, c) ↦ inr (m, c, high, λ e. ground arith)
        | inr (x, c) ↦ inl (compile_model x, λ e. ground arith)
      ]
    ]
  ]

  activate-Advances :
      (tenant source : Str) (revision : ℤ) (e : Engine)
      → Advances e.models (activate_model_for_tenant unmarshal tenant source revision e).1.models
  activate-Advances tenant source revision e = elim (activate_lem tenant source revision) [
    | inl (x, h) ↦ subst (λ r. Advances e.models r.1.models) (sym (h e)) (Advances-refl e.models)
    | inr (m, c, high, h) ↦
        subst (λ r. Advances e.models r.1.models) (sym (h e))
          (put_model-Advances tenant (compiled_model m source revision) e)
  ]

  pub refresh_state :
      (ms : Option ModelStore) (tenant context : Str) (e : Engine)
      → ((refresh_model_for_tenant unmarshal ms tenant context e).1 ≡ e)
        ⊎ ((stored : StoredModel) × ((refresh_model_for_tenant unmarshal ms tenant context e).1
              ≡ (activate_model_for_tenant unmarshal tenant stored.yaml stored.revision e).1))
  unfolding refresh_model_for_tenant
  refresh_state none tenant context e = inl (ground arith)
  refresh_state (some ms) tenant context e = elim (Option-cases (ms.get tenant)) [
    | inl failed ↦ inl (ground arith)
    | inr (stored, known) ↦
        elim (Bool-cases (stored.yaml == [] || not (is_positive stored.revision))) [
          | inl invalid ↦ inl (ground arith)
          | inr valid ↦ elim (str_dec tenant []) [
            | yes missing ↦ inl (ground arith)
            | no named ↦ inr (
              stored,
              ground (
                arith,
                Result-cases
                    (activate_model_for_tenant unmarshal tenant stored.yaml stored.revision e).0,
              ),
            )
          ]
        ]
  ]

  refresh-Advances :
      (ms : Option ModelStore) (tenant context : Str) (e : Engine)
      → Advances e.models (refresh_model_for_tenant unmarshal ms tenant context e).1.models
  refresh-Advances ms tenant context e = elim (refresh_state ms tenant context e) [
    | inl h ↦ subst (λ x. Advances e.models x.models) (sym h) (Advances-refl e.models)
    | inr (stored, h) ↦
        subst (λ x. Advances e.models x.models) (sym h)
          (activate-Advances tenant stored.yaml stored.revision e)
  ]

  pub operation_state :
      (ms : ModelStore) (context : Str) (e : Engine)
      → ((model_for_operation unmarshal (some ms) context e).1 ≡ e)
        ⊎ ((model_for_operation unmarshal (some ms) context e).1
            ≡ (refresh_model_for_tenant unmarshal (some ms) context context e).1)
  unfolding model_for_operation
  operation_state ms context e = elim (str_dec context []) [
    | yes missing ↦ inl (ground arith)
    | no named ↦ inr (
        ground
          (arith, Result-cases (refresh_model_for_tenant unmarshal (some ms) context context e).0))
  ]

  load-Advances :
      (ms : Option ModelStore) (tenant context source : Str) (e : Engine)
      → Advances e.models (load_model_for_tenant unmarshal ms tenant context source e).1.models
  unfolding load_model_for_tenant
  load-Advances ms tenant context source e =
      elim (Result-cases (next_revision unmarshal ms tenant context source e)) [
        | inr (x, h) ↦ subst (Advances e.models) (ground arith) (Advances-refl e.models)
        | inl (revision, h) ↦
            let (_, after) = activate_model_for_tenant unmarshal tenant source revision e in
            subst (Advances e.models)
              (ground (
                arith,
                Result-cases (activate_model_for_tenant unmarshal tenant source revision e).0,
              ))
              (activate-Advances tenant source revision e)
      ]

  persisted-Advances :
      (models : Map StoredModel) (e : Engine)
      → Advances e.models (activate_persisted unmarshal models e).1.models
  unfolding activate_persisted
  persisted-Advances [] e = Advances-refl e.models
  persisted-Advances ((tenant, stored) ∷ models) e =
      let first = activate_model_for_tenant unmarshal tenant stored.yaml stored.revision e in
      let step = activate-Advances tenant stored.yaml stored.revision e in
      elim (Bool-cases (stored.yaml == [] || not (is_positive stored.revision))) [
        | inl invalid ↦ subst (Advances e.models) (ground arith) (Advances-refl e.models)
        | inr valid ↦ elim (Result-cases first.0) [
          | inr (x, h) ↦ subst (Advances e.models) (ground arith) step
          | inl (u, h) ↦ subst (Advances e.models) (ground arith) (
              Advances-trans e.models first.1.models
                (activate_persisted unmarshal models first.1).1.models step
                (persisted-Advances models first.1))
        ]
      ]

  -- One model operation of the engine, whatever it returns.
  pub data Call (e : Engine) : Engine → Type 0 where
    loads : (source : Str) → Call e (load_model unmarshal source e).1
    activates :
        (source : Str) (revision : ℤ) → Call e (activate_model unmarshal source revision e).1
    sets : (m : Model) → Call e (set_model m e).1
    activates_tenant :
        (tenant source : Str) (revision : ℤ)
        → Call e (activate_model_for_tenant unmarshal tenant source revision e).1
    loads_tenant :
        (ms : Option ModelStore) (tenant context source : Str)
        → Call e (load_model_for_tenant unmarshal ms tenant context source e).1
    refreshes :
        (ms : Option ModelStore) (tenant context : Str)
        → Call e (refresh_model_for_tenant unmarshal ms tenant context e).1
    resolves :
        (ms : Option ModelStore) (context : Str)
        → Call e (model_for_operation unmarshal ms context e).1
    loads_persisted : (ms : Option ModelStore) → Call e (load_persisted_models unmarshal ms e).1

  pub data Calls (e : Engine) : Engine → Type 0 where
    done : Calls e e
    next : {f g : Engine} → Calls e f → Call f g → Calls e g

  same_models : (e f : Engine) → f.models ≡ e.models → Advances e.models f.models
  same_models e f h = subst (Advances e.models) (sym h) (Advances-refl e.models)

  Call-Advances : {e f : Engine} → Call e f → Advances e.models f.models
  unfolding load_model activate_model put_default set_model model_for_operation
      load_persisted_models
  Call-Advances {e} {f} (loads source) =
      same_models e f (ground (arith, Result-cases (compile unmarshal source)))
  Call-Advances {e} {f} (activates source revision) =
      same_models e f (ground (arith, Result-cases (compile unmarshal source)))
  Call-Advances {e} {f} (sets m) = same_models e f refl
  Call-Advances {e} (activates_tenant tenant source revision) =
      activate-Advances tenant source revision e
  Call-Advances {e} (loads_tenant ms tenant context source) =
      load-Advances ms tenant context source e
  Call-Advances {e} (refreshes ms tenant context) = refresh-Advances ms tenant context e
  Call-Advances {e} (resolves none context) = Advances-refl e.models
  Call-Advances {e} (resolves (some ms) context) = elim (operation_state ms context e) [
    | inl h ↦ subst (λ x. Advances e.models x.models) (sym h) (Advances-refl e.models)
    | inr h ↦
        subst (λ x. Advances e.models x.models) (sym h)
          (refresh-Advances (some ms) context context e)
  ]
  Call-Advances {e} (loads_persisted none) = Advances-refl e.models
  Call-Advances {e} (loads_persisted (some ms)) = elim (Option-cases ms.list_all) [
    | inl h ↦ subst (Advances e.models) (ground arith) (Advances-refl e.models)
    | inr (models, h) ↦ subst (Advances e.models) (ground arith) (persisted-Advances models e)
  ]

  -- However the model operations of the engine are interleaved, and whatever the model store answers
  -- and the documents compile to, a tenant's cached model stays or gives way to one whose revision is
  -- not less.
  pub Calls-Advances : {e f : Engine} → Calls e f → Advances e.models f.models
  Calls-Advances {e} done = Advances-refl e.models
  Calls-Advances {e} {f = g} (next {f} cs c) =
      Advances-trans e.models f.models g.models (Calls-Advances cs) (Call-Advances c)
