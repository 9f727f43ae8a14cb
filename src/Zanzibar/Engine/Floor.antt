-- ===== src/Zanzibar/Engine/Floor.antt =====
-- CanDelete reads the store as DeleteIfAbove does (zanzibar/relationships.go).
use atol_sdk_go.Prelude.{
  true, ◌≡◌, ◌≢◌, ◌↔◌, inl, inr, ◌&&◌, List, [], ◌∷◌, Option, none, some, Str, ◌==◌, Map, Distinct,
  lookup, Member, err, Result-cases, leb, All, All-of_Member, filter, filter-keeps_All, Lacks,
  Option-cases, Bool-cases, arith, sym, ap, ◌∙◌, subst,
}
use atol_sdk_go.Zanzibar.Model.Types.{
  Tuple, TupleFilter, matches_filter, matches_object, field_matches_self, field_matches_any,
  and_true,
}
use atol_sdk_go.Zanzibar.Model.Keys.{object_relation_key, IsClean, object_relation_key_injective}
use atol_sdk_go.Zanzibar.Store.Memory.{
  MemoryStore, values, direct_holders_locked, read, read_indexed, filter_tuples, count_direct,
  last_holder,
}
use atol_sdk_go.Zanzibar.Store.Index.{find}
use atol_sdk_go.Zanzibar.Store.Reads.{IsValid, bucket_iff}
use atol_sdk_go.Zanzibar.Store.Queries.{read_iff}
use atol_sdk_go.Zanzibar.Store.Runs.{IsSound, find-eq}
use atol_sdk_go.Zanzibar.Page.Unique.{read-plain}
use atol_sdk_go.Zanzibar.Engine.Tuples.{
  contains_direct, direct_holders, can_delete, delete_tuple, delete_above,
}
use atol_sdk_go.Zanzibar.Engine.Steps.{request_tuple, min_holders, record_delete}
use atol_sdk_go.Zanzibar.Engine.State.{ModelStore, Engine, store_failed}
use atol_sdk_go.Zanzibar.Engine.Cache.{model_for_operation}
use atol_sdk_go.Zanzibar.Engine.Writes.{operation-store}
use atol_sdk_go.Zanzibar.Engine.Deletes.{request_tuple-relation}
use atol_sdk_go.Zanzibar.Model.Compile.{YamlModel}
use atol_sdk_go.Zanzibar.Store.Floors.{delete_if_above_lem}

same_tuple :
    (t u : Tuple)
    → u.object_type ≡ t.object_type
    → u.object_id ≡ t.object_id
    → u.relation ≡ t.relation
    → u.user_type ≡ t.user_type
    → u.user_id ≡ t.user_id
    → u.user_relation ≡ t.user_relation
    → u ≡ t
same_tuple t u a b c d e f = cc (a, b, c, d, e, f)

contains_direct_iff :
    (ts : List Tuple) (t : Tuple)
    → t.user_relation ≡ []
    → (contains_direct ts t ≡ true) ↔ Member t ts
unfolding contains_direct
contains_direct_iff [] t d = ground arith
contains_direct_iff (u ∷ ts) t d = ground (arith, contains_direct_iff ts t d, same_tuple t u)

abbrev bucket_filter : Str → Str → Str → TupleFilter
bucket_filter a b c = record {
  object_type = a;
  object_id = b;
  relation = c;
  user_type = [];
  user_id = [];
  user_relation = [];
}

bucket-matches :
    (a b c : Str) (s : MemoryStore) (tuples : Map Tuple)
    → IsSound s
    → Lacks b':' a
    → Lacks b'#' b
    → lookup (object_relation_key a b c) s.by_object_relation ≡ some tuples
    → All (λ u. matches_filter u (bucket_filter a b c) ≡ true) (values tuples)
bucket-matches a b c s tuples h ha hb e =
    All-of_Member (λ u. matches_filter u (bucket_filter a b c) ≡ true) (values tuples)
      (λ u m.
        let (held, here) = (bucket_iff s (object_relation_key a b c) tuples u h.filed e).0 m in
        let clean = h.clean u held in
        let (p, q, r) =
          object_relation_key_injective u.object_type u.object_id u.relation a b c clean.object_type
            clean.object_id ha hb here in
        rw (← p, ← q, ← r) (matches_object u))

read_indexed-bucket :
    (a b c : Str) (s : MemoryStore) (tuples : Map Tuple)
    → lookup (object_relation_key a b c) s.by_object_relation ≡ some tuples
    → a ≢ []
    → b ≢ []
    → c ≢ []
    → read_indexed (bucket_filter a b c) s
      ≡ filter (λ u. matches_filter u (bucket_filter a b c)) (values tuples)
unfolding read_indexed filter_tuples
read_indexed-bucket a b c s tuples e na nb nc = ground arith

-- On a sound store without materialized tuples, at a clean object and relation with no empty field,
-- the count of CanDelete, which reads the tuples, is the count of DeleteIfAbove under the lock.
pub direct_holders_eq :
    (a b c : Str) (s : MemoryStore)
    → IsSound s
    → s.materialized ≡ []
    → Lacks b':' a
    → Lacks b'#' b
    → a ≢ []
    → b ≢ []
    → c ≢ []
    → direct_holders a b c s ≡ direct_holders_locked a b c s
unfolding direct_holders direct_holders_locked
direct_holders_eq a b c s h none_else ha hb na nb nc =
    ap count_direct (read-plain (bucket_filter a b c) s none_else)
    ∙ elim (Option-cases (lookup (object_relation_key a b c) s.by_object_relation)) [
      | inl miss ↦ unfold read_indexed in ground arith
      | inr (tuples, e) ↦
          let kept =
            filter-keeps_All (λ u. matches_filter u (bucket_filter a b c)) (values tuples)
              (bucket-matches a b c s tuples h ha hb e) in
          ap count_direct (read_indexed-bucket a b c s tuples e na nb nc ∙ kept) ∙ ground arith
    ]

-- The filter of CanDelete.
abbrev user_filter : Tuple → Str → TupleFilter
user_filter t relation = record {
  object_type = t.object_type;
  object_id = t.object_id;
  relation = relation;
  user_type = t.user_type;
  user_id = t.user_id;
  user_relation = [];
}

matches_user : (t : Tuple) → matches_filter t (user_filter t t.relation) ≡ true
unfolding matches_filter
matches_user t = and_true (field_matches_self t.object_type) (
    and_true (field_matches_self t.object_id) (
      and_true (field_matches_self t.relation) (
        and_true (field_matches_self t.user_type)
          (and_true (field_matches_self t.user_id) (field_matches_any t.user_relation)))))

no_materializer :
    (s : MemoryStore)
    → s.materialized ≡ []
    → (name : Str) (tuples : List Tuple) → lookup name s.materialized ≡ some tuples
    → ⊥
unfolding lookup
no_materializer s h name tuples e = missing (subst (λ m. lookup name m ≡ some tuples) h e)
  where
    missing : ◌≡◌ {A = Option (List Tuple)} none (some tuples) → ⊥
    missing x = ground arith

-- For a direct tuple on a sound store without materialized tuples, CanDelete finds the tuple exactly
-- when it is stored.
contains-found :
    (t : Tuple) (s : MemoryStore)
    → IsSound s
    → s.materialized ≡ []
    → IsClean t
    → t.user_relation ≡ []
    → (contains_direct (read (user_filter t t.relation) s) t ≡ true) ↔ (find t s ≢ none)
unfolding matches_filter
contains-found t s h none_else clean d =
    let valid : IsValid s = record {
      filed = h.filed;
      materializers = subst Distinct (sym none_else) tt;
    } in
    let reads = read_iff (user_filter t t.relation) s t valid in
    let (there, back) = contains_direct_iff (read (user_filter t t.relation) s) t d in
    (
      λ c. elim (reads.0 (there c)).0 [
        | inl held ↦ ground arith
        | inr (name, tuples, known, m) ↦ absurd (no_materializer s none_else name tuples known)
      ],
      λ f. elim (Option-cases (find t s)) [
        | inl e ↦ absurd (f e)
        | inr (u, e) ↦ back (reads.1 (inl (e ∙ ap some (find-eq t u s h clean e)), matches_user t))
      ],
    )

module _ (unmarshal : Str → Option YamlModel) (ms : Option ModelStore) (context : Str) where
  -- CanDelete and DeleteTuple agree, where the notifier is no recorder: for a clean tuple with no
  -- empty field of its object and relation, on a sound store without materialized tuples, CanDelete
  -- returns ErrLastHolder exactly when DeleteTuple does.
  pub can_delete_iff :
      (user relation object : Str) (e : Engine)
      → IsSound e.store
      → e.store.materialized ≡ []
      → IsClean (request_tuple user relation object)
      → (request_tuple user relation object).object_type ≢ []
      → (request_tuple user relation object).object_id ≢ []
      → relation ≢ []
      → ((can_delete unmarshal ms context none user relation object e).0
          ≡ err (store_failed last_holder))
        ↔ ((delete_tuple unmarshal ms context none user relation object e).0
            ≡ err (store_failed last_holder))
  unfolding can_delete delete_tuple delete_above record_delete
  can_delete_iff user relation object e h none_else clean na nb nc =
      let t = request_tuple user relation object in
      let e1 = (model_for_operation unmarshal ms context e).1 in
      let at1 = operation-store unmarshal ms context e in
      let h1 : IsSound e1.store = subst IsSound (sym at1) h in
      let none1 : e1.store.materialized ≡ [] = ap (λ s. s.materialized) at1 ∙ none_else in
      elim (Result-cases (model_for_operation unmarshal ms context e).0) [
        | inr (x, k) ↦ ground arith
        | inl (tm, k) ↦
            let min = min_holders tm t.object_type relation in
            elim (Bool-cases (leb 1 min && t.user_relation == [])) [
              | inr plain ↦ ground arith
              | inl guarded ↦ ground (
                arith,
                contains-found t e1.store h1 none1 clean,
                direct_holders_eq t.object_type t.object_id t.relation e1.store h1 none1
                    clean.object_type clean.object_id na nb,
                delete_if_above_lem t min e1.store,
                request_tuple-relation user relation object,
              )
            ]
      ]
