-- ===== src/Zanzibar/Check/Checker.antt =====
-- zanzibar/check/checker.go: Check and its helpers, over a model and a tuple store. The visited set
-- and the number of calls of ctx.Err() are passed along; the depth of the recursion is bounded by
-- fuel, and Zanzibar/Check/Ends.antt says how much is enough.
use atol_sdk_go.Prelude.{
  ℕ, zero, suc, Bool, true, false, List, [], ◌∷◌, Option, none, some, Str, ◌==◌, ◌!=◌, lookup,
  Result, ok, err, if◌then◌else◌,
}
use atol_sdk_go.Zanzibar.Model.Types.{FromLookup, RewriteRule, Model, Tuple, TupleFilter}
use atol_sdk_go.Zanzibar.Model.Keys.{tuple_key}
use atol_sdk_go.Zanzibar.Store.Memory.{StoreError}

-- The read half of store.TupleStore.
pub record TupleReader : Type 0 where
  pub read : TupleFilter → Result StoreError (List Tuple)
  pub read_usersets : Str → Str → Str → Result StoreError (List Tuple)

pub data ContextError : Type 0 where
  canceled deadline_exceeded : ContextError

-- What ctx.Err() says at its n-th call.
abbrev pub Context : Type 0
Context = ℕ → Option ContextError

pub data CheckError : Type 0 where
  context_done : ContextError → CheckError
  direct_check_failed : StoreError → CheckError
  read_usersets_failed : StoreError → CheckError
  read_from_failed : Str → StoreError → CheckError

pub data Answer : Type 0 where
  found : Bool → Answer
  failed : CheckError → Answer
  out_of_fuel : Answer

-- The arguments of check: userType, userID, userRelation, relation, objectType, objectID. They are
-- the fields of the tuple that would grant it directly.
abbrev pub Query : Type 0
Query = Tuple

pub record Visit : Type 0 where
  pub visited : List Str
  pub polls : ℕ

abbrev pub Search : Type 0
Search = Visit → Answer × Visit

-- `visited[key]`
abbrev pub contains : Str → List Str → Bool
contains k [] = false
contains k (j ∷ js) = let rest = contains k js in if j == k then true else rest

-- `if err != nil { return false, err }; if found { return true, nil }`, then the rest.
abbrev pub proceed : Answer × Visit → Search → Answer × Visit
proceed (found false, v) k = k v
proceed (found true, v) k = (found true, v)
proceed (failed e, v) k = (failed e, v)
proceed (out_of_fuel, v) k = (out_of_fuel, v)

-- A loop that returns at the first error or find.
unfoldable pub any_found : {A : Type 0} → (A → Search) → List A → Search
any_found f [] v = (found false, v)
any_found f (x ∷ xs) v = proceed (f x v) (λ v'. any_found f xs v')

abbrev pub is_nonempty : List Tuple → Bool
is_nonempty [] = false
is_nonempty (t ∷ ts) = true

-- The filters of directCheck and tupleToUserset, and the queries of the recursive calls.
abbrev pub direct_filter : Query → TupleFilter
direct_filter q = record {
  object_type = q.object_type;
  object_id = q.object_id;
  relation = q.relation;
  user_type = q.user_type;
  user_id = q.user_id;
  user_relation = q.user_relation;
}

abbrev pub from_filter : Query → FromLookup → TupleFilter
from_filter q fl = record {
  object_type = q.object_type;
  object_id = q.object_id;
  relation = fl.from;
  user_type = [];
  user_id = [];
  user_relation = [];
}

abbrev pub computed_query : Query → Str → Query
computed_query q rel = record q { relation = rel }

abbrev pub userset_query : Query → Tuple → Query
userset_query q us = record q {
  user_relation = [];
  relation = us.user_relation;
  object_type = us.user_type;
  object_id = us.user_id;
}

abbrev pub lookup_query : Query → FromLookup → Tuple → Query
lookup_query q fl ft = record q {
  relation = fl.lookup;
  object_type = ft.user_type;
  object_id = ft.user_id;
}

-- The query of a call of Check: the user is no userset.
abbrev pub start_query : Str → Str → Str → Str → Str → Query
start_query user_type user_id relation object_type object_id = record {
  object_type = object_type;
  object_id = object_id;
  relation = relation;
  user_type = user_type;
  user_id = user_id;
  user_relation = [];
}

module _ (m : Model) (store : TupleReader) where
  unfoldable pub direct_check : Query → Search
  direct_check q v = elim (store.read (direct_filter q)) [
    | err e ↦ (failed (direct_check_failed e), v)
    | ok tuples ↦ (found (is_nonempty tuples), v)
  ]

  -- The helpers take the recursive call as an argument.
  module _ (check : Query → Search) where
    unfoldable pub userset_expansion : Query → Search
    userset_expansion q v = elim (store.read_usersets q.object_type q.object_id q.relation) [
      | err e ↦ (failed (read_usersets_failed e), v)
      | ok usersets ↦ any_found (λ us. check (userset_query q us)) usersets v
    ]

    unfoldable pub tuple_to_userset : Query → FromLookup → Search
    tuple_to_userset q fl v = elim (store.read (from_filter q fl)) [
      | err e ↦ (failed (read_from_failed fl.from e), v)
      | ok tuples ↦ any_found (λ ft. check (lookup_query q fl ft)) tuples v
    ]

    unfoldable pub direct_step : Query → RewriteRule → Search
    direct_step q rw v =
        if rw.direct then proceed (direct_check q v) (userset_expansion q) else (found false, v)

    unfoldable pub computed_step : Query → RewriteRule → Search
    computed_step q rw v =
        if rw.computed_relation != []
        then check (computed_query q rw.computed_relation) v
        else (found false, v)

    unfoldable pub lookup_step : Query → RewriteRule → Search
    lookup_step q rw v = elim rw.from_lookup [
      | none ↦ (found false, v)
      | some fl ↦ tuple_to_userset q fl v
    ]

    -- One round of the loop over `relDef.Rewrites`.
    unfoldable pub rewrite : Query → RewriteRule → Search
    rewrite q rw v =
        proceed (direct_step q rw v)
          (λ v'. proceed (computed_step q rw v') (λ v''. lookup_step q rw v''))

    -- From the relation definition on.
    unfoldable pub walk : Query → Search
    walk q v = elim (lookup q.object_type m.types) [
      | none ↦ (found false, v)
      | some type_def ↦ elim (lookup q.relation type_def.relations) [
        | none ↦ (found false, v)
        | some rel_def ↦ any_found (rewrite q) rel_def.rewrites v
      ]
    ]

    -- From the cycle detection on.
    unfoldable pub enter : Query → Search
    enter q v =
        if contains (tuple_key q) v.visited
        then (found false, v)
        else walk q (record v { visited = tuple_key q ∷ v.visited })

  module _ (ctx : Context) where
    unfoldable pub check_in : ℕ → Query → Search
    check_in zero q v = (out_of_fuel, v)
    check_in (suc fuel) q v = elim (ctx v.polls) [
      | some e ↦ (failed (context_done e), record v { polls = suc v.polls })
      | none ↦ enter (check_in fuel) q (record v { polls = suc v.polls })
    ]

    -- Check: the visited set is empty.
    unfoldable pub check : ℕ → Str → Str → Str → Str → Str → Answer
    check fuel user_type user_id relation object_type object_id =
        (check_in fuel (start_query user_type user_id relation object_type object_id)
          (record { visited = []; polls = 0 })).0
