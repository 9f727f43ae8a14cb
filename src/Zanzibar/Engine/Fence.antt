-- ===== src/Zanzibar/Engine/Fence.antt =====
-- Activations that race (zanzibar/zanzibar.go, ActivateModelForTenant): the order does not matter.
use atol_sdk_go.Prelude.{
  not_less_trans, ℤ, less, same, less_trans, less_asym, less_total, false, ◌≡◌, inl, inr, Option,
  none, some, Str, str_dec, lookup, lookup-insert, Option-cases, if◌then◌else◌, arith, sym, ap, ◌∙◌,
}
use atol_sdk_go.Zanzibar.Model.Compile.{YamlModel}
use atol_sdk_go.Zanzibar.Engine.State.{TenantModel, Engine}
use atol_sdk_go.Zanzibar.Engine.Cache.{put_model, activate_model_for_tenant}
use atol_sdk_go.Zanzibar.Engine.Revisions.{activate_lem, compiled_model}

-- What the cache has after a put.
abbrev winner : Option TenantModel → TenantModel → TenantModel
winner none tm = tm
winner (some current) tm = if less current.revision tm.revision then tm else current

lookup-put_model :
    (t u : Str) (tm : TenantModel) (e : Engine)
    → lookup u (put_model t tm e).models ≡ elim (str_dec t u) [
      | yes _ ↦ some (winner (lookup u e.models) tm)
      | no _ ↦ lookup u e.models
    ]
unfolding put_model
lookup-put_model t u tm e =
    ground (arith, lookup-insert t u tm e.models, Option-cases (lookup t e.models))

winner_comm :
    (current : Option TenantModel) (a b : TenantModel)
    → same a.revision b.revision ≡ false
    → winner (some (winner current a)) b ≡ winner (some (winner current b)) a
winner_comm none a b h =
    ground (arith, less_total a.revision b.revision, less_asym a.revision b.revision)
winner_comm (some c) a b h = ground (
  arith,
  less_total a.revision b.revision,
  less_asym a.revision b.revision,
  less_trans c.revision a.revision b.revision,
  less_trans c.revision b.revision a.revision,
  not_less_trans a.revision c.revision b.revision,
  not_less_trans b.revision c.revision a.revision,
)

put_model_comm :
    (t u : Str) (a b : TenantModel) (e : Engine)
    → same a.revision b.revision ≡ false
    → lookup u (put_model t b (put_model t a e)).models
      ≡ lookup u (put_model t a (put_model t b e)).models
put_model_comm t u a b e h = elim (str_dec t u) [
  | yes here ↦ ground (
    arith,
    lookup-put_model t u b (put_model t a e),
    lookup-put_model t u a (put_model t b e),
    lookup-put_model t u a e,
    lookup-put_model t u b e,
    winner_comm (lookup u e.models) a b h,
  )
  | no elsewhere ↦ ground (
    arith,
    lookup-put_model t u b (put_model t a e),
    lookup-put_model t u a (put_model t b e),
    lookup-put_model t u a e,
    lookup-put_model t u b e,
  )
]

module _ (unmarshal : Str → Option YamlModel) where
  -- Two activations for one tenant with different revisions leave the same model for every tenant in
  -- either order, also where one of them is refused.
  pub activate_comm :
      (t u first second : Str) (r r' : ℤ) (e : Engine)
      → same r r' ≡ false
      → lookup u
          (activate_model_for_tenant unmarshal t second r'
            (activate_model_for_tenant unmarshal t first r e).1).1.models
        ≡ lookup u
            (activate_model_for_tenant unmarshal t first r
              (activate_model_for_tenant unmarshal t second r' e).1).1.models
  activate_comm t u first second r r' e differ =
      let one = λ (x : Engine). (activate_model_for_tenant unmarshal t first r x).1 in
      let two = λ (x : Engine). (activate_model_for_tenant unmarshal t second r' x).1 in
      elim (activate_lem unmarshal t first r) [
        | inl (x, h) ↦
            ap (λ s. lookup u s.models)
              (ap two (ap (λ p. p.1) (h e)) ∙ sym (ap (λ p. p.1) (h (two e))))
        | inr (m, c, high, h) ↦ elim (activate_lem unmarshal t second r') [
          | inl (x, k) ↦
              ap (λ s. lookup u s.models)
                (ap (λ p. p.1) (k (one e)) ∙ sym (ap one (ap (λ p. p.1) (k e))))
          | inr (n, d, high', k) ↦
              let a = compiled_model m first r in
              let b = compiled_model n second r' in
              ap (λ s. lookup u s.models)
                (ap (λ p. p.1) (k (one e)) ∙ ap (put_model t b) (ap (λ p. p.1) (h e)))
              ∙ put_model_comm t u a b e differ
              ∙ sym (
                  ap (λ s. lookup u s.models)
                    (ap (λ p. p.1) (h (two e)) ∙ ap (put_model t a) (ap (λ p. p.1) (k e))))
        ]
      ]
