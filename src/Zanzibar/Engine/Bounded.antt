-- ===== src/Zanzibar/Engine/Bounded.antt =====
-- zanzibar/pagination.go, and boundedTupleExists and CanDeleteBounded of zanzibar/relationships.go. The
-- loops over the pages run on fuel, one for each page, and give `none` where it runs out. The tuple
-- store is the MemoryStore, which has pages, counts and a page that excludes a subject.
use atol_sdk_go.Prelude.{
  ℕ, zero, suc, ltb, ℤ, pos, Bool, true, false, not, ◌||◌, List, [], ◌∷◌, Option, none, some, Str,
  ◌==◌, ◌!=◌, Map, lookup, insert, Result, ok, err, if◌then◌else◌,
}
use atol_sdk_go.Zanzibar.Model.Types.{Tuple, TupleFilter}
use atol_sdk_go.Zanzibar.Model.Compile.{YamlModel}
use atol_sdk_go.Zanzibar.Store.Memory.{MemoryStore, values, last_holder}
use atol_sdk_go.Zanzibar.Page.Cursor.{PageError, CursorCodec, max_tuple_page_size}
use atol_sdk_go.Zanzibar.Page.Read.{
  read_page, read_page_excluding_subject, cursor_after, cursor_after_excluding_subject,
}
use atol_sdk_go.Zanzibar.Engine.State.{Engine, EngineError, ModelStore, store_failed}
use atol_sdk_go.Zanzibar.Engine.Cache.{model_for_operation}
use atol_sdk_go.Zanzibar.Engine.Steps.{request_tuple, min_holders}
use atol_sdk_go.Zanzibar.Engine.Tuples.{contains_direct}

pub data BoundedError : Type 0 where
  engine_failed : EngineError → BoundedError
  page_failed : PageError → BoundedError

-- The loop over one page: `none` where the count has passed the minimum and CanDeleteBounded returns.
unfoldable pub count_page : ℕ → ℕ → List Tuple → Option ℕ
count_page minimum direct [] = some direct
count_page minimum direct (t ∷ ts) =
    let counted = count_page minimum (suc direct) ts in
    let skipped = count_page minimum direct ts in
    if t.user_relation == [] then if ltb minimum (suc direct) then none else counted else skipped

-- The filters of CanDeleteBounded's two scans.
abbrev pub subject_filter : Tuple → TupleFilter
subject_filter target = record {
  object_type = target.object_type;
  object_id = target.object_id;
  relation = target.relation;
  user_type = target.user_type;
  user_id = target.user_id;
  user_relation = [];
}

abbrev pub holders_filter : Tuple → TupleFilter
holders_filter target = record {
  object_type = target.object_type;
  object_id = target.object_id;
  relation = target.relation;
  user_type = [];
  user_id = [];
  user_relation = [];
}

module _ (codec : CursorCodec) where
  unfoldable pub read_tuple_page :
      TupleFilter → Str → ℤ → Engine → Result PageError (List Tuple × Str)
  read_tuple_page f cursor limit e = read_page codec f cursor limit e.store

  unfoldable pub tuple_cursor_after : TupleFilter → Tuple → Result PageError Str
  tuple_cursor_after f t = cursor_after codec f t

  unfoldable pub read_tuple_page_excluding_subject :
      TupleFilter → Str → Str → Str → ℤ → Engine → Result PageError (List Tuple × Str)
  read_tuple_page_excluding_subject f user_type user_id cursor limit e =
      read_page_excluding_subject codec f user_type user_id cursor limit e.store

  unfoldable pub tuple_cursor_after_excluding_subject :
      TupleFilter → Str → Str → Tuple → Result PageError Str
  tuple_cursor_after_excluding_subject f user_type user_id t =
      cursor_after_excluding_subject codec f user_type user_id t

  unfoldable pub bounded_tuple_exists :
      TupleFilter → Tuple → MemoryStore → ℕ → Str → Option (Result PageError Bool)
  bounded_tuple_exists f target s zero cursor = none
  bounded_tuple_exists f target s (suc fuel) cursor =
      elim (read_page codec f cursor (pos max_tuple_page_size) s) [
        | err x ↦ some (err x)
        | ok (tuples, next) ↦
            let rest = bounded_tuple_exists f target s fuel next in
            if contains_direct tuples target
            then some (ok true)
            else if next == []
            then some (ok false)
            else rest
      ]

  -- The loop that counts the holders: whether there are more than the minimum.
  unfoldable pub count_pages :
      TupleFilter → ℕ → MemoryStore → ℕ → ℕ → Str → Option (Result PageError Bool)
  count_pages f minimum s zero direct cursor = none
  count_pages f minimum s (suc fuel) direct cursor =
      elim (read_page codec f cursor (pos max_tuple_page_size) s) [
        | err x ↦ some (err x)
        | ok (tuples, next) ↦ elim (count_page minimum direct tuples) [
          | none ↦ some (ok true)
          | some counted ↦
              let rest = count_pages f minimum s fuel counted next in
              if next == [] then some (ok false) else rest
        ]
      ]

  -- CanDeleteBounded after the model is known.
  unfoldable pub bounded_answer :
      ℕ → Tuple → ℕ → MemoryStore → Option (Result BoundedError (Unit {0}))
  bounded_answer fuel target minimum s =
      elim (bounded_tuple_exists (subject_filter target) target s fuel []) [
        | none ↦ none
        | some exists ↦ elim exists [
          | err x ↦ some (err (page_failed x))
          | ok found ↦
              if not found
              then some (ok tt)
              else elim (count_pages (holders_filter target) minimum s fuel 0 []) [
                | none ↦ none
                | some counted ↦ elim counted [
                  | err x ↦ some (err (page_failed x))
                  | ok more ↦
                      if more
                      then some (ok tt)
                      else some (err (engine_failed (store_failed last_holder)))
                ]
              ]
        ]
      ]

  module _ (unmarshal : Str → Option YamlModel) (ms : Option ModelStore) (context : Str) where
    unfoldable pub can_delete_bounded :
        ℕ → Str → Str → Str → Engine → Option (Result BoundedError (Unit {0})) × Engine
    can_delete_bounded fuel user relation object e =
        let t = request_tuple user relation object in
        let started = model_for_operation unmarshal ms context e in
        elim started.0 [
          | err x ↦ (some (err (engine_failed x)), started.1)
          | ok tm ↦
              if ltb (min_holders tm t.object_type relation) 1 || t.user_relation != []
              then (some (ok tt), started.1)
              else (
                bounded_answer fuel t (min_holders tm t.object_type relation) started.1.store,
                started.1,
              )
        ]

-- CountByObjectType, and CountTuples, which calls it.
unfoldable pub count_one : Str → Map ℕ → Map ℕ
count_one object_type counts = elim (lookup object_type counts) [
  | none ↦ insert object_type 1 counts
  | some n ↦ insert object_type (suc n) counts
]

unfoldable pub count_bucket : List Tuple → Map ℕ → Map ℕ
count_bucket [] counts = counts
count_bucket (t ∷ ts) counts = count_bucket ts (count_one t.object_type counts)

unfoldable pub count_buckets : Map (Map Tuple) → Map ℕ → Map ℕ
count_buckets [] counts = counts
count_buckets ((_, tuples) ∷ more) counts = count_buckets more (count_bucket (values tuples) counts)

unfoldable pub count_by_object_type : MemoryStore → Map ℕ
count_by_object_type s = count_buckets s.by_object_relation []

unfoldable pub count_tuples : Engine → Map ℕ
count_tuples e = count_by_object_type e.store
