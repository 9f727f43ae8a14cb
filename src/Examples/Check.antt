-- ===== src/Examples/Check.antt =====
-- Checks over the sample model and store.
use atol_sdk_go.Prelude.{
  Bool, true, false, ◌≡◌, refl, ◌↔◌, [], ◌∷◌, ◌++◌, none, some, Member, bytes, str_dec, lookup,
  insert, All-Member, arith, Lacks, subst, sym, inl, ◌≢◌,
}
use atol_sdk_go.Zanzibar.Model.Types.{Tuple, matches_filter}
use atol_sdk_go.Zanzibar.Model.Keys.{IsClean, object_relation_key, tuple_key}
use atol_sdk_go.Zanzibar.Store.Memory.{
  write_locked, read, read_usersets, filter_tuples, scan, scan_materialized, read_indexed,
  is_userset_of,
}
use atol_sdk_go.Zanzibar.Check.Checker.{
  Context, canceled, out_of_fuel, found, start_query, any_found, direct_check, userset_expansion,
  tuple_to_userset, direct_step, computed_step, lookup_step, rewrite, walk, enter, check_in, check,
}
use atol_sdk_go.Zanzibar.Check.Grants.{Grants}
use atol_sdk_go.Zanzibar.Check.Universe.{fuel_for, model_relations, rule_relations}
use atol_sdk_go.Zanzibar.Check.Decides.{IsPlain, check_complete, check_ends}
use atol_sdk_go.Zanzibar.Check.OverMemory.{memory_reader, all_tuples, all_tuples_iff, memory-Covers}
use atol_sdk_go.Zanzibar.Check.ContextStore.{check_with_context}
use atol_sdk_go.Zanzibar.Check.Held.{
  Stored, StoredOr, memory-Delivers, check-Granted, memory_check_decides,
  check_with_context_decides,
}
use atol_sdk_go.Zanzibar.Check.Granted.{Granted, IsSpelled, IsNamed}
use atol_sdk_go.Zanzibar.Store.Queries.{AllClean}
use atol_sdk_go.Examples.Data.{sample_model, sample_store, team_views, in_team, sample-IsValid}

abbrev pub background : Context
background = λ n. none

program : Unit {0}
unfolding str_dec lookup insert write_locked object_relation_key tuple_key matches_filter
    filter_tuples scan scan_materialized read_indexed read is_userset_of read_usersets any_found
    direct_check userset_expansion tuple_to_userset direct_step computed_step lookup_step rewrite
    walk enter check_in check
program = tt

-- user:u views doc:1 through the team; user:v does not.
member_views :
    check sample_model
      (memory_reader sample_store)
      background
      9
      (bytes "user")
      (bytes "u")
      (bytes "viewer")
      (bytes "doc")
      (bytes "1")
    ≡ found true
unfolding program
member_views = refl

other_does_not :
    check sample_model
      (memory_reader sample_store)
      background
      9
      (bytes "user")
      (bytes "v")
      (bytes "viewer")
      (bytes "doc")
      (bytes "1")
    ≡ found false
unfolding program
other_does_not = refl

sample-all : all_tuples sample_store ≡ team_views ∷ in_team ∷ []
unfolding program
sample-all = refl

pub two_tuples-IsPlain : IsPlain sample_model (team_views ∷ in_team ∷ [])
unfolding model_relations rule_relations
two_tuples-IsPlain = record {
  relations = λ s m. All-Member (Lacks b'@') (model_relations sample_model) s (omega arith) m;
  user_types =
      λ t m. All-Member (λ u. Lacks b':' u.user_type) (team_views ∷ in_team ∷ []) t (omega arith) m;
  user_ids =
      λ t m. All-Member (λ u. Lacks b'#' u.user_id) (team_views ∷ in_team ∷ []) t (omega arith) m;
  user_relations = λ t m.
      All-Member (λ u. Lacks b'@' u.user_relation) (team_views ∷ in_team ∷ []) t (omega arith) m;
}

sample-IsPlain : IsPlain sample_model (all_tuples sample_store)
sample-IsPlain = subst (IsPlain sample_model) (sym sample-all) two_tuples-IsPlain

pub sample-AllClean : AllClean sample_store
sample-AllClean t held =
    All-Member IsClean (team_views ∷ in_team ∷ []) t (omega arith)
      (subst (Member t) sample-all ((all_tuples_iff sample_store t sample-IsValid).1 (inl held)))

sample-IsSpelled : IsSpelled sample_model
sample-IsSpelled = ground arith

-- user:u may ask for the view of doc:1.
abbrev pub u_views : Tuple
u_views = start_query (bytes "user") (bytes "u") (bytes "viewer") (bytes "doc") (bytes "1")

pub two_tuples-IsNamed : IsNamed sample_model (team_views ∷ in_team ∷ []) u_views
two_tuples-IsNamed = record {
  spelled = sample-IsSpelled;
  ids = λ t m. All-Member (λ u. u.user_id ≢ []) (team_views ∷ in_team ∷ []) t (ground arith) m;
  object_id = ground arith;
  user_type = ground arith;
  user_id = ground arith;
  user_relation = refl;
  bare = λ t m.
      All-Member (λ u. u.user_type ≡ bytes "user" → u.user_id ≡ bytes "u" → u.user_relation ≡ [])
        (team_views ∷ in_team ∷ []) t (ground arith) m;
}

sample-IsNamed : IsNamed sample_model (all_tuples sample_store) u_views
sample-IsNamed = subst (λ ts. IsNamed sample_model ts u_views) (sym sample-all) two_tuples-IsNamed

memory_check_decides_example :
    (b : Bool) × (check sample_model
        (memory_reader sample_store)
        background
        (fuel_for sample_model
          (all_tuples sample_store)
          (start_query (bytes "user") (bytes "u") (bytes "viewer") (bytes "doc") (bytes "1")))
        (bytes "user")
        (bytes "u")
        (bytes "viewer")
        (bytes "doc")
        (bytes "1")
      ≡ found b)
    × ((b ≡ true)
        ↔ ∥ Granted sample_model
            (Stored sample_store)
            (start_query (bytes "user") (bytes "u") (bytes "viewer") (bytes "doc") (bytes "1")) ∥₁)
memory_check_decides_example =
    memory_check_decides sample_model sample_store background (bytes "user") (bytes "u")
      (bytes "viewer") (bytes "doc") (bytes "1") sample-IsValid sample-AllClean sample-IsPlain
      (λ n. refl) (omega arith) sample-IsNamed

check-Granted_example : Granted sample_model (Stored sample_store) u_views
check-Granted_example =
    check-Granted sample_model (Stored sample_store) (all_tuples sample_store)
      (memory_reader sample_store) background 9 (bytes "user") (bytes "u") (bytes "viewer")
      (bytes "doc") (bytes "1") (memory-Delivers sample_store sample-IsValid sample-AllClean)
      (memory-Covers sample_store sample-IsValid) sample-IsPlain (omega arith) sample-IsNamed
      member_views

check_complete_example :
    ¬ Grants sample_model
      (memory_reader sample_store)
      (start_query (bytes "user") (bytes "v") (bytes "viewer") (bytes "doc") (bytes "1"))
check_complete_example =
    check_complete sample_model (memory_reader sample_store) background (all_tuples sample_store)
      (memory-Covers sample_store sample-IsValid) sample-IsPlain 9 (bytes "user") (bytes "v")
      (bytes "viewer") (bytes "doc") (bytes "1") (omega arith) other_does_not

check_ends_example :
    check sample_model
      (memory_reader sample_store)
      (λ n. some canceled)
      (fuel_for sample_model
        (all_tuples sample_store)
        (start_query (bytes "user") (bytes "u") (bytes "viewer") (bytes "doc") (bytes "1")))
      (bytes "user")
      (bytes "u")
      (bytes "viewer")
      (bytes "doc")
      (bytes "1")
    ≢ out_of_fuel
check_ends_example =
    check_ends sample_model (memory_reader sample_store) (λ n. some canceled)
      (all_tuples sample_store) (memory-Covers sample_store sample-IsValid)
      (fuel_for sample_model (all_tuples sample_store)
        (start_query (bytes "user") (bytes "u") (bytes "viewer") (bytes "doc") (bytes "1")))
      (bytes "user") (bytes "u") (bytes "viewer") (bytes "doc") (bytes "1") (omega arith)

-- user:v is a member of the team for the duration of one check.
abbrev joins : Tuple
joins = record in_team { user_id = bytes "v" }

three_tuples-IsPlain : IsPlain sample_model (team_views ∷ in_team ∷ joins ∷ [])
unfolding model_relations rule_relations
three_tuples-IsPlain = record {
  relations = λ s m. All-Member (Lacks b'@') (model_relations sample_model) s (omega arith) m;
  user_types = λ t m.
      All-Member (λ u. Lacks b':' u.user_type) (team_views ∷ in_team ∷ joins ∷ []) t (omega arith)
        m;
  user_ids = λ t m.
      All-Member (λ u. Lacks b'#' u.user_id) (team_views ∷ in_team ∷ joins ∷ []) t (omega arith) m;
  user_relations = λ t m.
      All-Member (λ u. Lacks b'@' u.user_relation) (team_views ∷ in_team ∷ joins ∷ []) t
        (omega arith) m;
}

joined-IsPlain : IsPlain sample_model (all_tuples sample_store ++ (joins ∷ []))
joined-IsPlain =
    subst (λ ts. IsPlain sample_model (ts ++ (joins ∷ []))) (sym sample-all) three_tuples-IsPlain

abbrev v_views : Tuple
v_views = start_query (bytes "user") (bytes "v") (bytes "viewer") (bytes "doc") (bytes "1")

three_tuples-IsNamed : IsNamed sample_model (team_views ∷ in_team ∷ joins ∷ []) v_views
three_tuples-IsNamed = record {
  spelled = sample-IsSpelled;
  ids = λ t m.
      All-Member (λ u. u.user_id ≢ []) (team_views ∷ in_team ∷ joins ∷ []) t (ground arith) m;
  object_id = ground arith;
  user_type = ground arith;
  user_id = ground arith;
  user_relation = refl;
  bare = λ t m.
      All-Member (λ u. u.user_type ≡ bytes "user" → u.user_id ≡ bytes "v" → u.user_relation ≡ [])
        (team_views ∷ in_team ∷ joins ∷ []) t (ground arith) m;
}

joined-IsNamed : IsNamed sample_model (all_tuples sample_store ++ (joins ∷ [])) v_views
joined-IsNamed =
    subst (λ ts. IsNamed sample_model (ts ++ (joins ∷ [])) v_views) (sym sample-all)
      three_tuples-IsNamed

check_with_context_decides_example :
    (b : Bool) × (check_with_context sample_model
        (memory_reader sample_store)
        background
        (joins ∷ [])
        (fuel_for sample_model
          (all_tuples sample_store ++ (joins ∷ []))
          (start_query (bytes "user") (bytes "v") (bytes "viewer") (bytes "doc") (bytes "1")))
        (bytes "user")
        (bytes "v")
        (bytes "viewer")
        (bytes "doc")
        (bytes "1")
      ≡ found b)
    × ((b ≡ true)
        ↔ ∥ Granted sample_model
            (StoredOr sample_store (joins ∷ []))
            (start_query (bytes "user") (bytes "v") (bytes "viewer") (bytes "doc") (bytes "1")) ∥₁)
check_with_context_decides_example =
    check_with_context_decides sample_model sample_store background (joins ∷ []) (bytes "user")
      (bytes "v") (bytes "viewer") (bytes "doc") (bytes "1") sample-IsValid sample-AllClean
      joined-IsPlain (λ n. refl) (omega arith) joined-IsNamed
