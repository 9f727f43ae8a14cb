-- ===== src/Zanzibar/Engine/Deletes.antt =====
-- DeleteTuple and the minimum-holder floors of the model (zanzibar/zanzibar.go).
use atol_sdk_go.Prelude.{
  ℕ, ◌≤◌, leb, ◌≡◌, refl, ◌⊎◌, inl, inr, ◌&&◌, [], Option, Str, str_dec, ◌==◌, Lacks, ok,
  Option-cases, Result-cases, Bool-cases, if◌then◌else◌, arith, sym, subst,
}
use atol_sdk_go.Zanzibar.Model.Types.{Tuple}
use atol_sdk_go.Zanzibar.Model.Keys.{object_relation_key, IsClean, object_relation_key_injective}
use atol_sdk_go.Zanzibar.Model.Compile.{YamlModel}
use atol_sdk_go.Zanzibar.Store.Memory.{
  MemoryStore, bucket_key, delete_locked, delete_if_above, direct_holders_locked,
}
use atol_sdk_go.Zanzibar.Store.Index.{find}
use atol_sdk_go.Zanzibar.Store.Floors.{
  delete_if_above_lem, delete_if_above-keeps_floor, holders-delete, holders-delete_absent,
}
use atol_sdk_go.Zanzibar.Store.Runs.{IsSound, find-eq}
use atol_sdk_go.Zanzibar.Engine.State.{TenantModel, ModelStore, Engine}
use atol_sdk_go.Zanzibar.Engine.Cache.{model_for_operation}
use atol_sdk_go.Zanzibar.Engine.Steps.{Recorder, request_tuple, min_holders, record_delete}
use atol_sdk_go.Zanzibar.Engine.Tuples.{delete_above, delete_tuple}
use atol_sdk_go.Zanzibar.Engine.Writes.{operation-store, record_delete-store}

pub request_tuple-relation :
    (user relation object : Str) → (request_tuple user relation object).relation ≡ relation
unfolding request_tuple
request_tuple-relation user relation object = refl

-- What DeleteTuple does to the store, with the floor of its relation.
abbrev remove : Tuple → ℕ → MemoryStore → MemoryStore
remove t min s =
    if leb 1 min && t.user_relation == [] then (delete_if_above t min s).1 else delete_locked t s

-- Deleting a tuple of another bucket, or a userset tuple, leaves the direct holders as they were.
unguarded-keeps_floor :
    (t : Tuple) (floor : ℕ) (a b c : Str) (s : MemoryStore)
    → IsSound s
    → IsClean t
    → ((bucket_key t ≡ object_relation_key a b c) → t.user_relation ≡ [] → floor ≡ 0)
    → floor ≤ direct_holders_locked a b c s
    → floor ≤ direct_holders_locked a b c (delete_locked t s)
unguarded-keeps_floor t floor a b c s h clean zero_here enough = elim (Option-cases (find t s)) [
  | inl miss ↦ subst (λ k. floor ≤ k) (sym (holders-delete_absent t a b c s miss)) enough
  | inr (u, e) ↦
      ground (arith, holders-delete t u a b c s h.filed e, find-eq t u s h clean e, zero_here)
]

remove-keeps_floor :
    (t : Tuple) (min floor : ℕ) (a b c : Str) (s : MemoryStore)
    → IsSound s
    → IsClean t
    → ((bucket_key t ≡ object_relation_key a b c) → floor ≡ min)
    → floor ≤ direct_holders_locked a b c s
    → floor ≤ direct_holders_locked a b c (remove t min s)
remove-keeps_floor t min floor a b c s h clean here enough =
    elim (Bool-cases (leb 1 min && t.user_relation == [])) [
      | inr plain ↦
          subst (λ x. floor ≤ direct_holders_locked a b c x) (ground arith)
            (unguarded-keeps_floor t floor a b c s h clean (λ k direct. ground (arith, here))
              enough)
      | inl guarded ↦ elim (str_dec (bucket_key t) (object_relation_key a b c)) [
        | yes same_key ↦
            subst (λ x. floor ≤ direct_holders_locked a b c x) (ground arith)
              (subst (λ k. floor ≤ direct_holders_locked a b c (delete_if_above t k s).1)
                (here same_key) (delete_if_above-keeps_floor t floor a b c s h.filed enough))
        | no elsewhere ↦ elim (delete_if_above_lem t min s) [
          | inl (missing, e) ↦
              subst (λ x. floor ≤ direct_holders_locked a b c x) (ground arith) enough
          | inr (inl (known, low, e)) ↦
              subst (λ x. floor ≤ direct_holders_locked a b c x) (ground arith) enough
          | inr (inr (known, high, e)) ↦
              subst (λ x. floor ≤ direct_holders_locked a b c x) (ground arith)
                (unguarded-keeps_floor t floor a b c s h clean (λ k direct. absurd (elsewhere k))
                  enough)
        ]
      ]
    ]

module _ (unmarshal : Str → Option YamlModel) (ms : Option ModelStore) (context : Str)
    (n : Option Recorder) where
  -- DeleteTuple changes the store as `remove` does, or not at all.
  delete_tuple-store :
      (user relation object : Str) (e : Engine)
      → ((delete_tuple unmarshal ms context n user relation object e).1.store ≡ e.store)
        ⊎ ((tm : Option TenantModel) × ((model_for_operation unmarshal ms context e).0 ≡ ok tm)
            × ((delete_tuple unmarshal ms context n user relation object e).1.store
                ≡ remove
                    (request_tuple user relation object)
                    (min_holders tm (request_tuple user relation object).object_type relation)
                    e.store))
  unfolding delete_tuple delete_above
  delete_tuple-store user relation object e =
      let t = request_tuple user relation object in
      let e1 = (model_for_operation unmarshal ms context e).1 in
      let at1 = operation-store unmarshal ms context e in
      elim (Result-cases (model_for_operation unmarshal ms context e).0) [
        | inr (x, h) ↦ inl (ground (arith, at1))
        | inl (tm, h) ↦
            let e2 = (record_delete n t e1).1 in
            let at2 = record_delete-store n t e1 in
            elim (Result-cases (record_delete n t e1).0) [
              | inr (x, k) ↦ inl (ground (arith, at1, at2))
              | inl (recorded, k) ↦
                  let min = min_holders tm t.object_type relation in
                  elim (Bool-cases (leb 1 min && t.user_relation == [])) [
                    | inr plain ↦ inr (tm, h, ground (arith, at1, at2))
                    | inl guarded ↦ inr (
                      tm,
                      h,
                      ground (arith, at1, at2, Option-cases (delete_if_above t min e2.store).0),
                    )
                  ]
            ]
      ]

  -- DeleteTuple of a clean tuple from a sound store never takes the direct holders of an object and
  -- relation below the floor that the model of the operation gives the relation: where they were
  -- there or above, they still are, whichever tuple is deleted and whatever is returned.
  pub delete_tuple-keeps_floor :
      (user relation object a b c : Str) (tm : Option TenantModel) (e : Engine)
      → IsSound e.store
      → IsClean (request_tuple user relation object)
      → Lacks b':' a
      → Lacks b'#' b
      → (model_for_operation unmarshal ms context e).0 ≡ ok tm
      → min_holders tm a c ≤ direct_holders_locked a b c e.store
      → min_holders tm a c
        ≤ direct_holders_locked a b c
            (delete_tuple unmarshal ms context n user relation object e).1.store
  delete_tuple-keeps_floor user relation object a b c tm e h clean ha hb resolved enough =
      let t = request_tuple user relation object in
      elim (delete_tuple-store user relation object e) [
        | inl same_store ↦
            subst (λ s. min_holders tm a c ≤ direct_holders_locked a b c s) (sym same_store) enough
        | inr (tm', resolved', after) ↦
            let same_tm : tm ≡ tm' = ground (arith, resolved, resolved') in
            let same_floor : (bucket_key t ≡ object_relation_key a b c)
                → min_holders tm a c ≡ min_holders tm' t.object_type relation =
              λ k.
                let (p, q, r) =
                  object_relation_key_injective t.object_type t.object_id t.relation a b c
                    clean.object_type clean.object_id ha hb k in
                cc (p, r, same_tm, request_tuple-relation user relation object) in
            subst (λ s. min_holders tm a c ≤ direct_holders_locked a b c s) (sym after)
              (remove-keeps_floor t (min_holders tm' t.object_type relation) (min_holders tm a c) a
                b c e.store h clean same_floor enough)
      ]
