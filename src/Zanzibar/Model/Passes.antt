-- ===== src/Zanzibar/Model/Passes.antt =====
-- zanzibar/model/compiler.go: Compile's three passes and the validation of references.
use atol_sdk_go.Prelude.{
  Bool, true, false, List, [], ◌∷◌, Option, none, some, Str, bytes, ◌==◌, ◌!=◌, Map, lookup, insert,
  cut, Result, ok, err, ◌>>=◌, ◌>>◌, each, if◌then◌else◌,
}
use atol_sdk_go.Zanzibar.Model.Types.{FromLookup, RewriteRule, RelationDef, TypeDef, Model}
use atol_sdk_go.Zanzibar.Model.Compile.{
  CompileError, parse_yaml, unknown_type, unknown_type_relation, unknown_computed, unknown_from,
  unknown_lookup, in_relation, YamlRelationDef, YamlModel, compile_relation,
}

-- The type name before `#` in a reference: `strings.Cut` gives all of it where there is no `#`.
abbrev pub base_type : Str → Str
base_type ref = elim (cut b'#' ref) [ none ↦ ref | some (base, _) ↦ base ]

unfoldable pub validate_type_ref : Model → Str → Result CompileError (Unit {0})
validate_type_ref m ref = elim (lookup (base_type ref) m.types) [
  | none ↦ err (unknown_type (base_type ref))
  | some target ↦ elim (cut b'#' ref) [
    | none ↦ ok tt
    | some (_, rel) ↦ elim (lookup rel target.relations) [
      | none ↦ err (unknown_type_relation rel (base_type ref))
      | some _ ↦ ok tt
    ]
  ]
]

unfoldable pub validate_computed : Map RelationDef → RewriteRule → Result CompileError (Unit {0})
validate_computed relations rw =
    if rw.computed_relation != []
    then elim (lookup rw.computed_relation relations) [
      | none ↦ err (unknown_computed rw.computed_relation)
      | some _ ↦ ok tt
    ]
    else ok tt

-- The type that a reference names has the relation.
unfoldable pub target_has : Model → Str → Str → Bool
target_has m rel ref = elim (lookup (base_type ref) m.types) [
  | none ↦ false
  | some target ↦ elim (lookup rel target.relations) [ none ↦ false | some _ ↦ true ]
]

-- The loop that sets `foundLookup`.
unfoldable pub found_lookup : Model → Str → List Str → Bool
found_lookup m rel [] = false
found_lookup m rel (ref ∷ refs) =
    let rest = found_lookup m rel refs in if target_has m rel ref then true else rest

-- `!foundLookup && len(fromRel.DirectTypes) > 0` is an error.
unfoldable pub check_targets : Model → FromLookup → List Str → Result CompileError (Unit {0})
check_targets m fl [] = ok tt
check_targets m fl (ref ∷ refs) =
    if found_lookup m fl.lookup (ref ∷ refs) then ok tt else err (unknown_lookup fl.lookup)

unfoldable pub validate_lookup :
    Model → Map RelationDef → FromLookup → Result CompileError (Unit {0})
validate_lookup m relations fl = elim (lookup fl.from relations) [
  | none ↦ err (unknown_from fl.from)
  | some from_rel ↦ check_targets m fl from_rel.direct_types
]

unfoldable pub validate_rewrite :
    Model → Map RelationDef → RewriteRule → Result CompileError (Unit {0})
validate_rewrite m relations rw =
    validate_computed relations rw
    >> elim rw.from_lookup [ none ↦ ok tt | some fl ↦ validate_lookup m relations fl ]

unfoldable pub validate_relation :
    Model → Map RelationDef → Str × RelationDef → Result CompileError (Unit {0})
validate_relation m relations (rel_name, rel) =
    each (validate_type_ref m) rel.direct_types >> each (validate_rewrite m relations) rel.rewrites

unfoldable pub validate_type : Model → Str × TypeDef → Result CompileError (Unit {0})
validate_type m (type_name, td) = each (validate_relation m td.relations) td.relations

unfoldable pub validate : Model → Result CompileError (Unit {0})
validate m = each (validate_type m) m.types

-- The first pass: every type, with no relations.
unfoldable pub declare_types : Map (Map YamlRelationDef) → Map TypeDef → Map TypeDef
declare_types [] types = types
declare_types ((name, _) ∷ raw) types =
    declare_types raw (insert name (record { name = name; relations = [] }) types)

-- `m.Types[typeName].Relations[relName] = compiled`
unfoldable pub set_relation : Str → Str → RelationDef → Map TypeDef → Map TypeDef
set_relation type_name rel_name rel types = elim (lookup type_name types) [
  | none ↦ types
  | some td ↦ insert type_name (record td { relations = insert rel_name rel td.relations }) types
]

-- The second pass, over the relations of one type and over the types.
unfoldable pub compile_relations :
    Str → Map YamlRelationDef → Map TypeDef → Result CompileError (Map TypeDef)
compile_relations type_name [] types = ok types
compile_relations type_name ((rel_name, raw) ∷ rest) types = elim (compile_relation raw) [
  | err e ↦ err (in_relation type_name rel_name e)
  | ok rel ↦ compile_relations type_name rest (set_relation type_name rel_name rel types)
]

unfoldable pub compile_types :
    Map (Map YamlRelationDef) → Map TypeDef → Result CompileError (Map TypeDef)
compile_types [] types = ok types
compile_types ((type_name, raw) ∷ rest) types = do
  types' ← compile_relations type_name raw types
  compile_types rest types'

-- Compile. yaml.v3's Unmarshal is the parameter.
unfoldable pub compile : (Str → Option YamlModel) → Str → Result CompileError Model
compile unmarshal source = elim (unmarshal source) [
  | none ↦ err parse_yaml
  | some raw ↦ do
    types ← compile_types raw.types (declare_types raw.types [])
    let m : Model = record {
      version = if raw.version == [] then bytes "1.0" else raw.version;
      types = types;
    }
    validate m
    ok m
]
