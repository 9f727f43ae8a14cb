-- ===== src/Examples/Store.antt =====
-- The memory store at the sample tuples.
use atol_sdk_go.Prelude.{
  ℕ, true, false, ◌≤◌, ◌≡◌, refl, ◌↔◌, ◌⊎◌, [], ◌∷◌, none, some, Str, bytes, str_dec, lookup,
  insert, remove, Member, ok, err, arith,
}
use atol_sdk_go.Zanzibar.Model.Types.{Tuple, TupleFilter, matches_filter}
use atol_sdk_go.Zanzibar.Model.Keys.{object_relation_key, tuple_key, IsClean}
use atol_sdk_go.Zanzibar.Store.Memory.{
  bucket_key, MemoryStore, StoreError, new_memory_store, write_locked, delete_locked, remove_inner,
  direct_holders_locked, delete_if_above, read,
}
use atol_sdk_go.Zanzibar.Store.Index.{empty-IsFiled, Holds, IsFiled, write-IsFiled, delete-IsFiled}
use atol_sdk_go.Zanzibar.Store.Reads.{Materialized}
use atol_sdk_go.Zanzibar.Store.Queries.{read_iff}
use atol_sdk_go.Zanzibar.Store.Runs.{
  IsSound, write-IsSound, Run, stop, then_step, wrote, guarded, Run-keeps_floor,
}
use atol_sdk_go.Zanzibar.Store.Replace.{run_precommit, replace_tx}
use atol_sdk_go.Zanzibar.Store.Replaced.{replace_diff, replace_tx_lem}
use atol_sdk_go.Examples.Data.{sample_store, team_views, in_team, owns, sample-IsValid}

pub team_views-IsClean : IsClean team_views
team_views-IsClean = record {
  object_type = omega arith;
  object_id = omega arith;
  relation = omega arith;
  user_type = omega arith;
  user_id = omega arith;
}

pub in_team-IsClean : IsClean in_team
in_team-IsClean = record {
  object_type = omega arith;
  object_id = omega arith;
  relation = omega arith;
  user_type = omega arith;
  user_id = omega arith;
}

pub owns-IsClean : IsClean owns
owns-IsClean = record {
  object_type = omega arith;
  object_id = omega arith;
  relation = omega arith;
  user_type = omega arith;
  user_id = omega arith;
}

new-IsSound : IsSound new_memory_store
unfolding lookup
new-IsSound = record { filed = sample_empty; clean = λ t held. absurd (ground arith) }
  where
    sample_empty : IsFiled new_memory_store.by_object_relation
    sample_empty = empty-IsFiled

pub sample-IsSound : IsSound sample_store
sample-IsSound =
    write-IsSound in_team (write_locked team_views new_memory_store) in_team-IsClean
      (write-IsSound team_views new_memory_store team_views-IsClean new-IsSound)

write-IsFiled_example : IsFiled (write_locked owns sample_store).by_object_relation
write-IsFiled_example = write-IsFiled owns sample_store sample-IsValid.filed

delete-IsFiled_example : IsFiled (delete_locked in_team sample_store).by_object_relation
delete-IsFiled_example = delete-IsFiled in_team sample_store sample-IsValid.filed

abbrev team_members : TupleFilter
team_members = record {
  object_type = bytes "team";
  object_id = bytes "t";
  relation = bytes "member";
  user_type = [];
  user_id = [];
  user_relation = [];
}

read_iff_example : Member in_team (read team_members sample_store) ↔ (
    (Holds sample_store in_team ⊎ Materialized sample_store in_team)
    × (matches_filter in_team team_members ≡ true))
read_iff_example = read_iff team_members sample_store in_team sample-IsValid

abbrev owned_store : MemoryStore
owned_store = write_locked owns sample_store

abbrev owner_again : Tuple
owner_again = record owns { user_id = bytes "v" }

program : Unit {0}
unfolding str_dec lookup insert remove remove_inner write_locked delete_locked object_relation_key
    tuple_key direct_holders_locked delete_if_above
program = tt

one_owner : direct_holders_locked (bytes "doc") (bytes "1") (bytes "owner") owned_store ≡ 1
unfolding program
one_owner = refl

-- A second owner is written, and then the first is deleted.
abbrev owner_floor : Str → ℕ
owner_floor k = 1

abbrev two_owners : MemoryStore
two_owners = write_locked owner_again owned_store

two_steps :
    Run owner_floor owned_store (delete_if_above owns (owner_floor (bucket_key owns)) two_owners).1
two_steps =
    then_step (then_step stop (wrote owner_again owned_store owner_again-IsClean))
      (guarded owns two_owners)
  where
    owner_again-IsClean : IsClean owner_again
    owner_again-IsClean = record {
      object_type = omega arith;
      object_id = omega arith;
      relation = omega arith;
      user_type = omega arith;
      user_id = omega arith;
    }

owned-IsSound : IsSound owned_store
owned-IsSound = write-IsSound owns sample_store owns-IsClean sample-IsSound

Run-keeps_floor_example :
    1
    ≤ direct_holders_locked
        (bytes "doc")
        (bytes "1")
        (bytes "owner")
        (delete_if_above owns 1 two_owners).1
Run-keeps_floor_example =
    Run-keeps_floor (bytes "doc") (bytes "1") (bytes "owner") two_steps owned-IsSound
      (omega (arith, one_owner))

-- The tuples of documents are replaced by the owner.
abbrev all_docs : TupleFilter
all_docs = record {
  object_type = bytes "doc";
  object_id = [];
  relation = [];
  user_type = [];
  user_id = [];
  user_relation = [];
}

replace_tx_lem_example :
    ((e : StoreError) × (run_precommit none (replace_diff all_docs (owns ∷ []) sample_store)
        ≡ some e)
      × (replace_tx all_docs (owns ∷ []) none sample_store ≡ (err e, sample_store)))
    ⊎ ((run_precommit none (replace_diff all_docs (owns ∷ []) sample_store) ≡ none)
        × ((replace_tx all_docs (owns ∷ []) none sample_store).0
            ≡ ok (replace_diff all_docs (owns ∷ []) sample_store))
        × ((t : Tuple)
            → Holds (replace_tx all_docs (owns ∷ []) none sample_store).1 t ↔ (
                Member t (owns ∷ [])
                ⊎ (Holds sample_store t × (matches_filter t all_docs ≡ false)))))
replace_tx_lem_example =
    replace_tx_lem all_docs (owns ∷ []) none sample_store sample-IsSound (owns-IsClean, tt)
