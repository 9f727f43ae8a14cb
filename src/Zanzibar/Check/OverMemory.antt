-- ===== src/Zanzibar/Check/OverMemory.antt =====
-- Check over a MemoryStore (zanzibar/check/checker.go over zanzibar/store/memory.go).
use atol_sdk_go.Prelude.{
  ℕ, Bool, true, ◌≡◌, ◌↔◌, ◌⊎◌, inl, inr, List, [], none, Str, Member, Member-append, Member-filter,
  filter, lookup, Option-cases, Result, ok, ◌!=◌, arith,
}
use atol_sdk_go.Zanzibar.Model.Types.{Model, Tuple, TupleFilter, matches_filter}
use atol_sdk_go.Zanzibar.Model.Keys.{IsClean, object_relation_key}
use atol_sdk_go.Zanzibar.Store.Memory.{
  MemoryStore, StoreError, read, read_usersets, values, scan_materialized, is_userset_of,
}
use atol_sdk_go.Zanzibar.Store.Index.{Holds}
use atol_sdk_go.Zanzibar.Store.Reads.{Materialized, IsValid, bucket_iff, materialized_iff}
use atol_sdk_go.Zanzibar.Store.Queries.{read_iff}
use atol_sdk_go.Zanzibar.Check.Checker.{TupleReader, Context, found, start_query, check}
use atol_sdk_go.Zanzibar.Check.Grants.{Grants}
use atol_sdk_go.Zanzibar.Check.Universe.{Covers, fuel_for}
use atol_sdk_go.Zanzibar.Check.Decides.{IsPlain, check_decides}

-- MemoryStore as a store.TupleStore: its reads never fail.
abbrev pub memory_reader : MemoryStore → TupleReader
memory_reader s = record {
  read = λ f. ok (read f s);
  read_usersets = λ a b c. ok (read_usersets a b c s);
}

abbrev pub any_tuple : TupleFilter
any_tuple = record {
  object_type = [];
  object_id = [];
  relation = [];
  user_type = [];
  user_id = [];
  user_relation = [];
}

-- Read with the empty filter delivers every tuple.
abbrev pub all_tuples : MemoryStore → List Tuple
all_tuples s = read any_tuple s

pub all_tuples_iff :
    (s : MemoryStore) (t : Tuple)
    → IsValid s
    → Member t (all_tuples s) ↔ (Holds s t ⊎ Materialized s t)
unfolding matches_filter
all_tuples_iff s t v = ground (arith, read_iff any_tuple s t v)

usersets_held :
    (a b c : Str) (s : MemoryStore) (t : Tuple)
    → IsValid s
    → Member t (read_usersets a b c s)
    → Holds s t ⊎ Materialized s t
unfolding read_usersets
usersets_held a b c s t v m =
    elim (Option-cases (lookup (object_relation_key a b c) s.by_object_relation)) [
      | inl miss ↦ ground (arith, materialized_iff (is_userset_of a b c) s t v.materializers)
      | inr (tuples, e) ↦ ground (
        arith,
        Member-append t (filter (λ u. u.user_relation != []) (values tuples))
            (scan_materialized (is_userset_of a b c) s.materialized),
        Member-filter t (λ u. u.user_relation != []) (values tuples),
        bucket_iff s (object_relation_key a b c) tuples t v.filed e,
        materialized_iff (is_userset_of a b c) s t v.materializers,
      )
    ]

ok-Member :
    (xs ys : List Tuple) (t : Tuple)
    → ◌≡◌ {A = Result StoreError (List Tuple)} (ok xs) (ok ys)
    → Member t ys
    → Member t xs
ok-Member xs ys t e m = ground arith

pub memory-Covers : (s : MemoryStore) → IsValid s → Covers (memory_reader s) (all_tuples s)
memory-Covers s v = record {
  reads = λ f ts t e m.
      (all_tuples_iff s t v).1 ((read_iff f s t v).0 (ok-Member (read f s) ts t e m)).0;
  usersets = λ a b c ts t e m.
      (all_tuples_iff s t v).1
        (usersets_held a b c s t v (ok-Member (read_usersets a b c s) ts t e m));
}

-- Over a valid MemoryStore whose users, and a model whose relations, hold no separator, and with a
-- live context, Check of a clean query returns within the stated fuel, and it returns true exactly
-- when the reads of the store derive the query.
pub memory_check_derives :
    (m : Model) (s : MemoryStore) (ctx : Context)
    (user_type user_id relation object_type object_id : Str)
    → IsValid s
    → IsPlain m (all_tuples s)
    → ((n : ℕ) → ctx n ≡ none)
    → IsClean (start_query user_type user_id relation object_type object_id)
    → (b : Bool) × (check m
          (memory_reader s)
          ctx
          (fuel_for m (all_tuples s) (start_query user_type user_id relation object_type object_id))
          user_type
          user_id
          relation
          object_type
          object_id
        ≡ found b)
      × ((b ≡ true)
          ↔ ∥ Grants m
              (memory_reader s)
              (start_query user_type user_id relation object_type object_id) ∥₁)
memory_check_derives m s ctx ut ui r ot oi v plain live c =
    check_decides m (memory_reader s) ctx (all_tuples s) (memory-Covers s v) plain
      (λ f x e. ground arith) (λ x y z w e. ground arith) live
      (fuel_for m (all_tuples s) (start_query ut ui r ot oi)) ut ui r ot oi (omega arith) c
