-- ===== src/Examples/Data.antt =====
-- A small model (a document may be viewed by its owners, by listed users and teams, and by the
-- viewers of its folder) and a store with a few tuples, as in zanzibar/check/checker_test.go.
use atol_sdk_go.Prelude.{true, false, [], ◌∷◌, none, some, bytes}
use atol_sdk_go.Zanzibar.Model.Types.{RewriteRule, RelationDef, TypeDef, Model, Tuple}
use atol_sdk_go.Zanzibar.Store.Memory.{MemoryStore, new_memory_store, write_locked}
use atol_sdk_go.Zanzibar.Store.Index.{empty-IsFiled, write-IsFiled}
use atol_sdk_go.Zanzibar.Store.Reads.{IsValid}

abbrev pub direct_only : RewriteRule
direct_only = record { direct = true; computed_relation = []; from_lookup = none }

abbrev pub by_owner : RewriteRule
by_owner = record { direct = false; computed_relation = bytes "owner"; from_lookup = none }

abbrev pub by_folder : RewriteRule
by_folder = record {
  direct = false;
  computed_relation = [];
  from_lookup = some (record { from = bytes "parent"; lookup = bytes "viewer" });
}

abbrev pub user_relation : RelationDef
user_relation = record {
  name = [];
  direct_types = bytes "user" ∷ [];
  rewrites = direct_only ∷ [];
  min_holders = 0;
}

abbrev pub owner_relation : RelationDef
owner_relation = record user_relation { min_holders = 1 }

abbrev pub parent_relation : RelationDef
parent_relation = record user_relation { direct_types = bytes "folder" ∷ [] }

abbrev pub viewer_relation : RelationDef
viewer_relation = record {
  name = [];
  direct_types = bytes "user" ∷ bytes "team#member" ∷ [];
  rewrites = direct_only ∷ by_owner ∷ by_folder ∷ [];
  min_holders = 0;
}

abbrev pub doc_type : TypeDef
doc_type = record {
  name = bytes "doc";
  relations =
      (bytes "owner", owner_relation)
      ∷ (bytes "parent", parent_relation)
      ∷ (bytes "viewer", viewer_relation)
      ∷ [];
}

abbrev pub sample_model : Model
sample_model = record {
  version = bytes "1.0";
  types =
      (bytes "user", record { name = bytes "user"; relations = [] })
      ∷ (
        bytes "team",
        record { name = bytes "team"; relations = (bytes "member", user_relation) ∷ [] },
      )
      ∷ (
        bytes "folder",
        record { name = bytes "folder"; relations = (bytes "viewer", user_relation) ∷ [] },
      )
      ∷ (bytes "doc", doc_type)
      ∷ [];
}

-- doc:1#viewer@team:t#member and team:t#member@user:u
abbrev pub team_views : Tuple
team_views = record {
  object_type = bytes "doc";
  object_id = bytes "1";
  relation = bytes "viewer";
  user_type = bytes "team";
  user_id = bytes "t";
  user_relation = bytes "member";
}

abbrev pub in_team : Tuple
in_team = record {
  object_type = bytes "team";
  object_id = bytes "t";
  relation = bytes "member";
  user_type = bytes "user";
  user_id = bytes "u";
  user_relation = [];
}

-- doc:1#owner@user:u
abbrev pub owns : Tuple
owns = record {
  object_type = bytes "doc";
  object_id = bytes "1";
  relation = bytes "owner";
  user_type = bytes "user";
  user_id = bytes "u";
  user_relation = [];
}

abbrev pub sample_store : MemoryStore
sample_store = write_locked in_team (write_locked team_views new_memory_store)

pub sample-IsValid : IsValid sample_store
unfolding write_locked
sample-IsValid = record {
  filed =
      write-IsFiled in_team (write_locked team_views new_memory_store)
        (write-IsFiled team_views new_memory_store empty-IsFiled);
  materializers = tt;
}
