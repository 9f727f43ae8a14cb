-- ===== src/Zanzibar/Store/Replace.antt =====
-- zanzibar/store/memory.go: ReplacementDiff and ReplaceTx.
use atol_sdk_go.Prelude.{
  List, [], ◌∷◌, Option, none, some, str_lt, Map, lookup, insert, Result, ok, err, if◌then◌else◌,
}
use atol_sdk_go.Zanzibar.Model.Types.{Tuple, TupleFilter, matches_filter}
use atol_sdk_go.Zanzibar.Model.Keys.{tuple_key}
use atol_sdk_go.Zanzibar.Store.Memory.{MemoryStore, StoreError, scan, write_all, delete_all}

-- The loops that fill `currentSet` and `replacementSet`.
unfoldable pub add_to_set : List Tuple → Map Tuple → Map Tuple
add_to_set [] set = set
add_to_set (t ∷ ts) set = add_to_set ts (insert (tuple_key t) t set)

abbrev pub tuple_set : List Tuple → Map Tuple
tuple_set ts = add_to_set ts []

-- The loops that collect what one set has under a key that the other lacks.
unfoldable pub only_in : Map Tuple → Map Tuple → List Tuple
only_in [] other = []
only_in ((key, t) ∷ m) other =
    let rest = only_in m other in elim (lookup key other) [ none ↦ t ∷ rest | some _ ↦ rest ]

-- sort.Slice by tuple key.
unfoldable pub insert_by_key : Tuple → List Tuple → List Tuple
insert_by_key t [] = t ∷ []
insert_by_key t (u ∷ us) =
    let rest = insert_by_key t us in
    if str_lt (tuple_key u) (tuple_key t) then u ∷ rest else t ∷ u ∷ us

unfoldable pub sort_by_key : List Tuple → List Tuple
sort_by_key [] = []
sort_by_key (t ∷ ts) = insert_by_key t (sort_by_key ts)

-- ReplacementDiff: the writes and the deletes.
unfoldable pub replacement_diff : List Tuple → List Tuple → List Tuple × List Tuple
replacement_diff current replacements = (
  sort_by_key (only_in (tuple_set replacements) (tuple_set current)),
  sort_by_key (only_in (tuple_set current) (tuple_set replacements)),
)

-- A TuplePrecommit: the error that it returns on the writes and deletes, if any.
abbrev pub TuplePrecommit : Type 0
TuplePrecommit = List Tuple → List Tuple → Option StoreError

-- `if precommit != nil { … }`
abbrev pub run_precommit : Option TuplePrecommit → List Tuple × List Tuple → Option StoreError
run_precommit none diff = none
run_precommit (some precommit) diff = precommit diff.0 diff.1

-- MemoryStore.ReplaceTx: the writes and deletes or the error, and the new state.
unfoldable pub replace_tx :
    TupleFilter
    → List Tuple
    → Option TuplePrecommit
    → MemoryStore
    → Result StoreError (List Tuple × List Tuple) × MemoryStore
replace_tx f replacements precommit s =
    let diff =
      replacement_diff (scan (λ t. matches_filter t f) s.by_object_relation) replacements in
    elim (run_precommit precommit diff) [
      | some e ↦ (err e, s)
      | none ↦ (ok diff, delete_all diff.1 (write_all diff.0 s))
    ]
