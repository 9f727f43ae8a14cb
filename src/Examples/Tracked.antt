-- ===== src/Examples/Tracked.antt =====
-- A client whose policy data stands in a nested document, and a bundle that comes with none.
use atol_sdk_go.Prelude.{
  pos, List, [], ◌∷◌, Option, none, some, Str, bytes, str_dec, lookup, insert, Map, Result, ok, err,
}
use atol_sdk_go.Zanzibar.Engine.State.{new_engine}
use atol_sdk_go.Policy.Document.{
  Value, null, text, Fields, no_fields, get_field, set_field, split, set_parts,
}
use atol_sdk_go.Policy.Paths.{at_parts}
use atol_sdk_go.Policy.Data.{Storage, DataError, patch_op, set_policy_data, policy_engine}
use atol_sdk_go.Sync.Client.State.{
  StreamMutationsResponse, Client, new_client, policy_bundle_update, PolicyDataUpdate,
}
use atol_sdk_go.Sync.Client.Apply.{
  overlay, apply_policy_bundle, apply_policy_data, apply_case, apply_mutation,
}
use atol_sdk_go.Examples.Client.{setting}

abbrev as_value : Option Str → Value
as_value none = null
as_value (some s) = text s

abbrev of_value : Option Value → Result (Unit {0}) (Option Str)
of_value (some null) = ok none
of_value (some (text s)) = ok (some s)
of_value _ = err tt

abbrev put : List Str → Option Str → Fields → Result (Unit {0}) Fields
put [] v fs = err tt
put (part ∷ parts) v fs = ok (set_parts (part ∷ parts) (as_value v) fs)

abbrev nested : Storage
nested = record {
  Store = Fields;
  Txn = Fields;
  Data = Str;
  StorageError = Unit;
  new_transaction = λ s. ok s;
  read = λ path t. of_value (at_parts path t);
  write = λ op path v t. put path v t;
  commit = λ t s. ok t;
}

-- Every bundle comes without data.
abbrev bare : Str → Map (Option Str) → Option Fields → Result (DataError nested) (Option Fields)
bare bundle baseline p = ok (some no_fields)

abbrev update : PolicyDataUpdate (policy_engine nested bare)
update = record { path = bytes "a/b"; data_value = some (bytes "v"); version = pos 1 }

abbrev with_data : Client (policy_engine nested bare)
with_data =
    (apply_policy_data (policy_engine nested bare) (some update) (
      new_client (policy_engine nested bare) (bytes "org") (bytes "t0") new_engine
        (some no_fields))).1

abbrev bundle_message : StreamMutationsResponse (policy_engine nested bare)
bundle_message = record {
  tenant_id = [];
  continuation_token = bytes "t3";
  mutation = policy_bundle_update (some (record { policy_bundle = bytes "b"; version = pos 1 }));
}

abbrev after_bundle : Client (policy_engine nested bare)
after_bundle =
    (apply_mutation (policy_engine nested bare) setting 7 (bytes "c" ∷ []) (some bundle_message)
      with_data).1

program : Unit {0}
unfolding str_dec lookup insert new_client overlay apply_policy_bundle apply_policy_data apply_case
    apply_mutation patch_op set_policy_data split set_parts get_field set_field
program = tt
