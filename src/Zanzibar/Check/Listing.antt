-- ===== src/Zanzibar/Check/Listing.antt =====
-- zanzibar/check/list.go: ListObjects and ListUsers. The context's answers in the round of a candidate
-- are a Context of their own: the first is that of the loop.
use atol_sdk_go.Prelude.{
  ℕ, zero, suc, true, false, List, [], ◌∷◌, ◌++◌, none, some, Str, ◌!=◌, lookup, Result, ok, err,
  if◌then◌else◌,
}
use atol_sdk_go.Zanzibar.Model.Types.{RewriteRule, Model, Tuple, user_key}
use atol_sdk_go.Zanzibar.Store.Memory.{StoreError}
use atol_sdk_go.Zanzibar.Check.Checker.{
  TupleReader, ContextError, CheckError, Context, Answer, found, failed, out_of_fuel, contains,
  check,
}

-- An end of the context comes with the result so far.
pub data ListError : Type 0 where
  list_read_failed : StoreError → ListError
  list_stopped : ContextError → List Str → ListError
  list_check_failed : CheckError → ListError
  list_out_of_fuel : ListError

-- `if !seen[key] { result = append(result, key) … }`: the result is what was seen.
abbrev pub add_unseen : Str → List Str → List Str
add_unseen key result = if contains key result then result else result ++ (key ∷ [])

-- The keys of `candidates`.
unfoldable pub add_candidates : List Tuple → List Str → List Str
add_candidates [] ids = ids
add_candidates (t ∷ ts) ids = add_candidates ts (add_unseen t.object_id ids)

unfoldable pub add_user_keys : List Tuple → List Str → List Str
add_user_keys [] result = result
add_user_keys (t ∷ ts) result = add_user_keys ts (add_unseen (user_key t) result)

unfoldable pub add_users : List Str → List Str → List Str
add_users [] result = result
add_users (u ∷ us) result = add_users us (add_unseen u result)

-- The loop over the computed relations.
unfoldable pub add_computed :
    (Str → Result ListError (List Str)) → List RewriteRule → List Str → Result ListError (List Str)
add_computed list [] result = ok result
add_computed list (rule ∷ rules) result =
    elim (if rule.computed_relation != [] then list rule.computed_relation else ok []) [
      | err e ↦ err e
      | ok computed ↦ add_computed list rules (add_users computed result)
    ]

module _ (m : Model) (store : TupleReader) where
  -- The loop over the candidates: those of them that are allowed, after those found before.
  unfoldable pub check_candidates :
      (ℕ → Context)
      → (Context → Str → Answer)
      → ℕ
      → List Str
      → List Str
      → Result ListError (List Str)
  check_candidates ctx allowed round [] result = ok result
  check_candidates ctx allowed round (id ∷ ids) result = elim (ctx round 0) [
    | some e ↦ err (list_stopped e result)
    | none ↦ elim (allowed (λ n. ctx round (suc n)) id) [
      | failed e ↦ err (list_check_failed e)
      | out_of_fuel ↦ err list_out_of_fuel
      | found true ↦ check_candidates ctx allowed (suc round) ids (result ++ (id ∷ []))
      | found false ↦ check_candidates ctx allowed (suc round) ids result
    ]
  ]

  unfoldable pub list_objects :
      (ℕ → Context) → ℕ → Str → Str → Str → Str → Result ListError (List Str)
  list_objects ctx fuel user_type user_id relation object_type =
      elim (store.read (record {
        object_type = object_type;
        object_id = [];
        relation = [];
        user_type = [];
        user_id = [];
        user_relation = [];
      })) [
        | err e ↦ err (list_read_failed e)
        | ok tuples ↦
            check_candidates ctx
              (λ c id. check m store c fuel user_type user_id relation object_type id) 0
              (add_candidates tuples []) []
      ]

  unfoldable pub list_users : ℕ → Str → Str → Str → Result ListError (List Str)
  list_users zero relation object_type object_id = err list_out_of_fuel
  list_users (suc fuel) relation object_type object_id =
      elim (store.read (record {
        object_type = object_type;
        object_id = object_id;
        relation = relation;
        user_type = [];
        user_id = [];
        user_relation = [];
      })) [
        | err e ↦ err (list_read_failed e)
        | ok tuples ↦ elim (lookup object_type m.types) [
          | none ↦ ok (add_user_keys tuples [])
          | some type_def ↦ elim (lookup relation type_def.relations) [
            | none ↦ ok (add_user_keys tuples [])
            | some rel_def ↦
                add_computed (λ r. list_users fuel r object_type object_id) rel_def.rewrites
                  (add_user_keys tuples [])
          ]
        ]
      ]
