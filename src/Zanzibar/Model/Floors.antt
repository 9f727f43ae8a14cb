-- ===== src/Zanzibar/Model/Floors.antt =====
-- The minimum-holder floors of a compiled model (zanzibar/model/compiler.go, `required`).
use atol_sdk_go.Prelude.{
  true, ◌≡◌, refl, ◌⊎◌, inl, inr, List, [], ◌∷◌, Option, some, Str, Map, lookup, insert,
  lookup-insert, ok, Option-cases, Result-cases, subst, arith,
}
use atol_sdk_go.Zanzibar.Model.Types.{RewriteRule, RelationDef, TypeDef, Model}
use atol_sdk_go.Zanzibar.Model.Compile.{
  YamlUnionEntry, YamlRelationDef, YamlModel, direct_rule, compile_rewrites, compile_union,
  compile_relation, is_pure_direct,
}
use atol_sdk_go.Zanzibar.Model.Passes.{
  declare_types, set_relation, compile_relations, compile_types, compile,
}

-- A relation has no floor, or one holder is required of a relation of direct tuples alone.
abbrev pub IsFloored : RelationDef → Type 0
IsFloored rel = (rel.min_holders ≡ 0) ⊎ (rel.min_holders ≡ 1) × (rel.rewrites ≡ direct_rule ∷ [])

pure_direct_rewrites :
    (types : List Str) (union : List YamlUnionEntry)
    → is_pure_direct (compile_rewrites types union) ≡ true
    → compile_rewrites types union ≡ direct_rule ∷ []
unfolding compile_rewrites
pure_direct_rewrites [] [] h = absurd (ground arith)
pure_direct_rewrites (t ∷ ts) [] h = refl
pure_direct_rewrites types (e ∷ es) h = single (compile_union (e ∷ es)) h
  where
    single :
        (rules : List RewriteRule)
        → is_pure_direct (direct_rule ∷ rules) ≡ true
        → direct_rule ∷ rules ≡ direct_rule ∷ []
    single [] p = refl
    single (r ∷ rs) p = absurd (ground arith)

compile_relation-IsFloored :
    (raw : YamlRelationDef) (rel : RelationDef) → compile_relation raw ≡ ok rel → IsFloored rel
unfolding compile_relation
compile_relation-IsFloored raw rel h = ground (arith, pure_direct_rewrites raw.types raw.union)

-- Every relation that can be looked up is floored.
abbrev Floored : Map TypeDef → Type 0
Floored types =
    (tn rn : Str) (td : TypeDef) (rel : RelationDef)
    → lookup tn types ≡ some td
    → lookup rn td.relations ≡ some rel
    → IsFloored rel

set_relation-Floored :
    (tn rn : Str) (rel : RelationDef) (types : Map TypeDef)
    → IsFloored rel
    → Floored types
    → Floored (set_relation tn rn rel types)
unfolding set_relation
set_relation-Floored tn rn rel types new old tn' rn' td' rel' ht hr =
    elim (Option-cases (lookup tn types)) [
      | inl missing ↦ old tn' rn' td' rel' (ground arith) hr
      | inr (td, found) ↦ ground (
        arith,
        lookup-insert tn tn' (record td { relations = insert rn rel td.relations }) types,
        lookup-insert rn rn' rel td.relations,
        old tn' rn' td' rel',
        old tn rn' td rel',
      )
    ]

compile_relations-Floored :
    (tn : Str) (raw : Map YamlRelationDef) (types types' : Map TypeDef)
    → compile_relations tn raw types ≡ ok types'
    → Floored types
    → Floored types'
unfolding compile_relations
compile_relations-Floored tn [] types types' h old = subst Floored (ground arith) old
compile_relations-Floored tn ((rn, raw) ∷ rest) types types' h old =
    elim (Result-cases (compile_relation raw)) [
      | inl (rel, c) ↦
          compile_relations-Floored tn rest (set_relation tn rn rel types) types' (ground arith)
            (set_relation-Floored tn rn rel types (compile_relation-IsFloored raw rel c) old)
      | inr (e, c) ↦ absurd (ground arith)
    ]

compile_types-Floored :
    (raw : Map (Map YamlRelationDef)) (types types' : Map TypeDef)
    → compile_types raw types ≡ ok types'
    → Floored types
    → Floored types'
unfolding compile_types
compile_types-Floored [] types types' h old = subst Floored (ground arith) old
compile_types-Floored ((tn, raw) ∷ rest) types types' h old =
    elim (Result-cases (compile_relations tn raw types)) [
      | inl (next, c) ↦
          compile_types-Floored rest next types' (ground arith)
            (compile_relations-Floored tn raw types next c old)
      | inr (e, c) ↦ absurd (ground arith)
    ]

declare_types-Floored :
    (raw : Map (Map YamlRelationDef)) (types : Map TypeDef)
    → Floored types
    → Floored (declare_types raw types)
unfolding declare_types
declare_types-Floored [] types old = old
declare_types-Floored ((tn, _) ∷ raw) types old =
    declare_types-Floored raw (insert tn (record { name = tn; relations = [] }) types)
      (λ tn' rn' td' rel' ht hr.
        unfold lookup in
        ground (
          arith,
          lookup-insert tn tn' (record { name = tn; relations = [] }) types,
          old tn' rn' td' rel',
        ))

-- In every model that Compile returns, a relation's floor is 0, or it is 1 and the relation has
-- the single rule of direct tuples.
pub compile-IsFloored :
    (unmarshal : Str → Option YamlModel) (source : Str) (m : Model) (tn rn : Str) (td : TypeDef)
    (rel : RelationDef)
    → compile unmarshal source ≡ ok m
    → lookup tn m.types ≡ some td
    → lookup rn td.relations ≡ some rel
    → IsFloored rel
unfolding compile
compile-IsFloored unmarshal source m tn rn td rel h ht hr = elim (Option-cases (unmarshal source)) [
  | inl e ↦ absurd (ground arith)
  | inr (raw, e) ↦ elim (Result-cases (compile_types raw.types (declare_types raw.types []))) [
    | inl (types, c) ↦
        compile_types-Floored raw.types (declare_types raw.types []) types c
          (declare_types-Floored raw.types []
            (λ _ _ _ _ missing. unfold lookup in absurd (ground arith)))
          tn rn td rel (ground arith) hr
    | inr (x, c) ↦ absurd (ground arith)
  ]
]
