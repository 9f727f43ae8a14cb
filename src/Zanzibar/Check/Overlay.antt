-- ===== src/Zanzibar/Check/Overlay.antt =====
-- CheckWithContext over a MemoryStore (zanzibar/check/checker.go): the ephemeral tuples count as
-- stored ones.
use atol_sdk_go.Prelude.{
  ℕ, Bool, true, ◌≡◌, refl, ◌↔◌, ◌⊎◌, inl, inr, List, ◌++◌, none, Str, filter, Member,
  Member-append, Member-filter, Result, ok, err, subst, arith,
}
use atol_sdk_go.Zanzibar.Model.Types.{Model, Tuple, TupleFilter, matches_filter}
use atol_sdk_go.Zanzibar.Model.Keys.{IsClean}
use atol_sdk_go.Zanzibar.Store.Memory.{MemoryStore, StoreError, read, is_userset_of}
use atol_sdk_go.Zanzibar.Store.Reads.{IsValid}
use atol_sdk_go.Zanzibar.Check.Checker.{TupleReader, Context, found, start_query}
use atol_sdk_go.Zanzibar.Check.Grants.{Grants}
use atol_sdk_go.Zanzibar.Check.Universe.{Covers, fuel_for}
use atol_sdk_go.Zanzibar.Check.Decides.{IsPlain, check_decides}
use atol_sdk_go.Zanzibar.Check.OverMemory.{memory_reader, all_tuples, memory-Covers}
use atol_sdk_go.Zanzibar.Check.ContextStore.{
  context_read, context_read_usersets, new_context_tuple_store, check_with_context,
}

ok_inner :
    (r : Result StoreError (List Tuple)) (context ts : List Tuple) (t : Tuple)
    → elim r as (λ x. Result StoreError (List Tuple)) [
      | err e ↦ err e
      | ok tuples ↦ ok (tuples ++ context)
    ]
      ≡ ok ts
    → Member t ts
    → Member t context ⊎ ((us : List Tuple) × (r ≡ ok us) × Member t us)
ok_inner (err e) context ts t h m = absurd (ground arith)
ok_inner (ok us) context ts t h m =
    elim ((Member-append t us context).0 (subst (λ x. Member t x) (ground arith) m)) [
      | inl held ↦ inr (us, refl, held)
      | inr added ↦ inl added
    ]

pub overlay-Covers :
    (inner : TupleReader) (context tuples : List Tuple)
    → Covers inner tuples
    → Covers (new_context_tuple_store inner context) (tuples ++ context)
unfolding context_read context_read_usersets
overlay-Covers inner context tuples c = record {
  reads = λ f ts t e m.
      (Member-append t tuples context).1
        (elim (ok_inner (inner.read f) (filter (λ u. matches_filter u f) context) ts t e m) [
          | inl added ↦ inr ((Member-filter t (λ u. matches_filter u f) context).0 added).0
          | inr (us, known, held) ↦ inl (c.reads f us t known held)
        ]);
  usersets = λ x y z ts t e m.
      (Member-append t tuples context).1
        (elim (ok_inner (inner.read_usersets x y z) (filter (is_userset_of x y z) context) ts t e
          m) [
            | inl added ↦ inr ((Member-filter t (is_userset_of x y z) context).0 added).0
            | inr (us, known, held) ↦ inl (c.usersets x y z us t known held)
          ]);
}

-- CheckWithContext over a valid MemoryStore, where the users of the stored and the ephemeral tuples
-- and the model's relations hold no separator, and with a live context: for a clean query it returns
-- within the stated fuel, and it returns true exactly when the reads of the overlay derive the query.
pub check_with_context_derives :
    (m : Model) (s : MemoryStore) (ctx : Context) (context : List Tuple)
    (user_type user_id relation object_type object_id : Str)
    → IsValid s
    → IsPlain m (all_tuples s ++ context)
    → ((n : ℕ) → ctx n ≡ none)
    → IsClean (start_query user_type user_id relation object_type object_id)
    → (b : Bool) × (check_with_context m
          (memory_reader s)
          ctx
          context
          (fuel_for m
            (all_tuples s ++ context)
            (start_query user_type user_id relation object_type object_id))
          user_type
          user_id
          relation
          object_type
          object_id
        ≡ found b)
      × ((b ≡ true)
          ↔ ∥ Grants m
              (new_context_tuple_store (memory_reader s) context)
              (start_query user_type user_id relation object_type object_id) ∥₁)
unfolding check_with_context context_read context_read_usersets
check_with_context_derives m s ctx context ut ui r ot oi v plain live c =
    check_decides m (new_context_tuple_store (memory_reader s) context) ctx
      (all_tuples s ++ context)
      (overlay-Covers (memory_reader s) context (all_tuples s) (memory-Covers s v)) plain
      (λ f x e. ground arith) (λ x y z w e. ground arith) live
      (fuel_for m (all_tuples s ++ context) (start_query ut ui r ot oi)) ut ui r ot oi (omega arith)
      c

-- What the overlay reads: the matching tuples of the store and the matching ephemeral tuples.
pub context_read_iff :
    (s : MemoryStore) (context : List Tuple) (f : TupleFilter) (t : Tuple)
    → (ts : List Tuple) × (context_read (memory_reader s) context f ≡ ok ts)
      × (Member t ts ↔ (Member t (read f s) ⊎ (Member t context × (matches_filter t f ≡ true))))
unfolding context_read
context_read_iff s context f t = (
  read f s ++ filter (λ u. matches_filter u f) context,
  refl,
  ground (
    arith,
    Member-append t (read f s) (filter (λ u. matches_filter u f) context),
    Member-filter t (λ u. matches_filter u f) context,
  ),
)
