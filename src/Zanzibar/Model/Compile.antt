-- ===== src/Zanzibar/Model/Compile.antt =====
-- zanzibar/model/compiler.go: the YAML document becomes a validated model. yaml.v3 parses the
-- document: what it delivers is the raw model, and for a union entry the node's kind.
use atol_sdk_go.Prelude.{
  Bool, true, false, List, [], ◌∷◌, none, some, Str, bytes, ◌==◌, ◌!=◌, Map, lookup, Result, ok,
  err, ◌>>=◌, if◌then◌else◌,
}
use atol_sdk_go.Zanzibar.Model.Types.{RewriteRule, RelationDef}

pub data CompileError : Type 0 where
  parse_yaml : CompileError
  union_entry_fields : CompileError
  union_entry_kind : CompileError
  required_not_direct : CompileError
  unknown_type : Str → CompileError
  unknown_type_relation : Str → Str → CompileError
  unknown_computed : Str → CompileError
  unknown_from : Str → CompileError
  unknown_lookup : Str → CompileError
  in_relation : Str → Str → CompileError → CompileError

pub record YamlUnionEntry : Type 0 where
  pub relation : Str
  pub from : Str
  pub lookup : Str

-- A yaml.Node: a scalar, a mapping with what decoding it into string pairs gives, or another kind.
pub data YamlNode : Type 0 where
  scalar : Str → YamlNode
  mapping : Result CompileError (Map Str) → YamlNode
  other : YamlNode

-- `m[k]`, the empty string where the key is missing.
abbrev value_at : Str → Map Str → Str
value_at k m = elim (lookup k m) [ none ↦ [] | some v ↦ v ]

-- yamlUnionEntry.UnmarshalYAML
unfoldable pub unmarshal_union_entry : YamlNode → Result CompileError YamlUnionEntry
unmarshal_union_entry (scalar v) = ok (record { relation = v; from = []; lookup = [] })
unmarshal_union_entry (mapping decoded) = do
  m ← decoded
  if value_at (bytes "from") m == []
      then err union_entry_fields
      else if value_at (bytes "lookup") m == []
      then err union_entry_fields
      else ok (record {
        relation = [];
        from = value_at (bytes "from") m;
        lookup = value_at (bytes "lookup") m;
      })
unmarshal_union_entry other = err union_entry_kind

pub record YamlRelationDef : Type 0 where
  pub types : List Str
  pub union : List YamlUnionEntry
  pub required : Bool

pub record YamlModel : Type 0 where
  pub version : Str
  pub types : Map (Map YamlRelationDef)

abbrev pub direct_rule : RewriteRule
direct_rule = record { direct = true; computed_relation = []; from_lookup = none }

-- The loop over `raw.Union`: an entry with neither field is dropped.
unfoldable pub compile_union : List YamlUnionEntry → List RewriteRule
compile_union [] = []
compile_union (e ∷ es) =
    let rest = compile_union es in
    if e.from != []
    then record {
      direct = false;
      computed_relation = [];
      from_lookup = some (record { from = e.from; lookup = e.lookup });
    }
      ∷ rest
    else if e.relation != []
    then record { direct = false; computed_relation = e.relation; from_lookup = none } ∷ rest
    else rest

unfoldable pub compile_rewrites : List Str → List YamlUnionEntry → List RewriteRule
compile_rewrites types (e ∷ es) = direct_rule ∷ compile_union (e ∷ es)
compile_rewrites (t ∷ ts) [] = direct_rule ∷ []
compile_rewrites [] [] = []

-- `len(rel.Rewrites) == 1 && rel.Rewrites[0].Direct`
abbrev pub is_pure_direct : List RewriteRule → Bool
is_pure_direct (rw ∷ []) = rw.direct
is_pure_direct (rw ∷ rw' ∷ rws) = false
is_pure_direct [] = false

unfoldable pub compile_relation : YamlRelationDef → Result CompileError RelationDef
unfolding compile_rewrites
compile_relation raw =
    let rewrites = compile_rewrites raw.types raw.union in
    let rel : RelationDef = record {
      name = [];
      direct_types = raw.types;
      rewrites = rewrites;
      min_holders = 0;
    } in
    if raw.required
    then if is_pure_direct rewrites
      then ok (record rel { min_holders = 1 })
      else err required_not_direct
    else ok rel
