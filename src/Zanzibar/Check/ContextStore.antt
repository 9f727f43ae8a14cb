-- ===== src/Zanzibar/Check/ContextStore.antt =====
-- zanzibar/store/context_store.go: reads of a store with ephemeral tuples laid over it, and
-- CheckWithContext of zanzibar/check/checker.go.
use atol_sdk_go.Prelude.{ℕ, List, ◌++◌, Str, filter, Result, ok, err}
use atol_sdk_go.Zanzibar.Model.Types.{Model, Tuple, TupleFilter, matches_filter}
use atol_sdk_go.Zanzibar.Store.Memory.{StoreError, is_userset_of}
use atol_sdk_go.Zanzibar.Check.Checker.{TupleReader, Context, Answer, check}

-- ContextTupleStore.Read
unfoldable pub context_read :
    TupleReader → List Tuple → TupleFilter → Result StoreError (List Tuple)
context_read inner context f = elim (inner.read f) [
  | err e ↦ err e
  | ok tuples ↦ ok (tuples ++ filter (λ t. matches_filter t f) context)
]

-- ContextTupleStore.ReadUsersets
unfoldable pub context_read_usersets :
    TupleReader → List Tuple → Str → Str → Str → Result StoreError (List Tuple)
context_read_usersets inner context object_type object_id relation =
    elim (inner.read_usersets object_type object_id relation) [
      | err e ↦ err e
      | ok tuples ↦ ok (tuples ++ filter (is_userset_of object_type object_id relation) context)
    ]

abbrev pub new_context_tuple_store : TupleReader → List Tuple → TupleReader
new_context_tuple_store inner context = record {
  read = context_read inner context;
  read_usersets = context_read_usersets inner context;
}

unfoldable pub check_with_context :
    Model → TupleReader → Context → List Tuple → ℕ → Str → Str → Str → Str → Str → Answer
check_with_context m store ctx context = check m (new_context_tuple_store store context) ctx
