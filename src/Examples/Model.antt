-- ===== src/Examples/Model.antt =====
-- Keys, admission and compilation at small models.
use atol_sdk_go.Prelude.{
  true, false, ◌≡◌, refl, ◌↔◌, [], ◌∷◌, Option, none, some, Str, bytes, str_dec, cut, lookup,
  insert, ok, arith,
}
use atol_sdk_go.Zanzibar.Model.Types.{Model, TypeDef, RelationDef, object_key}
use atol_sdk_go.Zanzibar.Model.Keys.{parse_object_key, parse_object_key-object_key}
use atol_sdk_go.Zanzibar.Model.Validate.{validate_tuple, IsAdmitted, validate_tuple_iff}
use atol_sdk_go.Zanzibar.Model.Compile.{
  YamlModel, YamlRelationDef, direct_rule, compile_union, compile_rewrites, compile_relation,
}
use atol_sdk_go.Zanzibar.Model.Passes.{
  validate_type_ref, validate_computed, target_has, found_lookup, check_targets, validate_lookup,
  validate_rewrite, validate_relation, validate_type, validate, declare_types, set_relation,
  compile_relations, compile_types, compile,
}
use atol_sdk_go.Examples.Data.{sample_model, team_views}

parse_object_key-object_key_example :
    parse_object_key (object_key team_views) ≡ (team_views.object_type, team_views.object_id)
parse_object_key-object_key_example = parse_object_key-object_key team_views (omega arith)

validate_tuple_iff_example :
    (validate_tuple (some sample_model) team_views ≡ ok tt) ↔ IsAdmitted sample_model team_views
validate_tuple_iff_example = validate_tuple_iff sample_model team_views

-- A document has an owner at all times, and its viewers are users and owners.
abbrev raw_owner : YamlRelationDef
raw_owner = record { types = bytes "user" ∷ []; union = []; required = true }

abbrev raw_viewer : YamlRelationDef
raw_viewer = record {
  types = bytes "user" ∷ [];
  union = record { relation = bytes "owner"; from = []; lookup = [] } ∷ [];
  required = false;
}

abbrev raw_model : YamlModel
raw_model = record {
  version = [];
  types =
      (bytes "user", [])
      ∷ (bytes "doc", (bytes "owner", raw_owner) ∷ (bytes "viewer", raw_viewer) ∷ [])
      ∷ [];
}

abbrev pub parsed : Str → Option YamlModel
parsed source = some raw_model

abbrev compiled_owner : RelationDef
compiled_owner = record {
  name = [];
  direct_types = bytes "user" ∷ [];
  rewrites = direct_rule ∷ [];
  min_holders = 1;
}

abbrev compiled_viewer : RelationDef
compiled_viewer = record {
  name = [];
  direct_types = bytes "user" ∷ [];
  rewrites =
      direct_rule
      ∷ record { direct = false; computed_relation = bytes "owner"; from_lookup = none }
      ∷ [];
  min_holders = 0;
}

abbrev compiled_doc : TypeDef
compiled_doc = record {
  name = bytes "doc";
  relations = (bytes "owner", compiled_owner) ∷ (bytes "viewer", compiled_viewer) ∷ [];
}

abbrev compiled : Model
compiled = record {
  version = bytes "1.0";
  types =
      (bytes "user", record { name = bytes "user"; relations = [] })
      ∷ (bytes "doc", compiled_doc)
      ∷ [];
}

program : Unit {0}
unfolding str_dec cut lookup insert compile_union compile_rewrites compile_relation
    validate_type_ref validate_computed target_has found_lookup check_targets validate_lookup
    validate_rewrite validate_relation validate_type validate declare_types set_relation
    compile_relations compile_types compile
program = tt

doc_compiled : lookup (bytes "doc") compiled.types ≡ some compiled_doc
unfolding program
doc_compiled = refl

owner_compiled : lookup (bytes "owner") compiled_doc.relations ≡ some compiled_owner
unfolding program
owner_compiled = refl
