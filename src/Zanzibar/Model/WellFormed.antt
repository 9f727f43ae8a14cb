-- ===== src/Zanzibar/Model/WellFormed.antt =====
-- What a model that Compile returns satisfies.
use atol_sdk_go.Prelude.{
  true, ◌≡◌, refl, ◌≢◌, ◌⊎◌, inl, inr, List, [], ◌∷◌, none, some, Str, Map, lookup, cut, ok, each,
  each-Member, >>-ok, Bool-cases, Member, Option-cases, arith,
}
use atol_sdk_go.Zanzibar.Model.Types.{FromLookup, RewriteRule, RelationDef, TypeDef, Model}
use atol_sdk_go.Zanzibar.Model.Passes.{
  base_type, validate_type_ref, validate_computed, target_has, found_lookup, check_targets,
  validate_lookup, validate_rewrite, validate_relation, validate_type, validate,
}

-- A reference "type" or "type#relation" names a declared type, and a declared relation of it.
abbrev pub RefResolves : Model → Str → Type 0
RefResolves m ref =
    (td : TypeDef) × (lookup (base_type ref) m.types ≡ some td)
    × ((base rel : Str) → cut b'#' ref ≡ some (base, rel) → lookup rel td.relations ≢ none)

-- A computed relation is declared on the same type.
abbrev pub ComputedResolves : Map RelationDef → RewriteRule → Type 0
ComputedResolves relations rw =
    rw.computed_relation ≢ [] → lookup rw.computed_relation relations ≢ none

-- The `from` relation is declared on the same type; if it lists types, then one of them has the
-- `lookup` relation.
abbrev pub LookupResolves : Model → Map RelationDef → RewriteRule → Type 0
LookupResolves m relations rw =
    (fl : FromLookup)
    → rw.from_lookup ≡ some fl
    → (from_rel : RelationDef) × (lookup fl.from relations ≡ some from_rel)
      × ((from_rel.direct_types ≡ [])
          ⊎ ((ref : Str) × Member ref from_rel.direct_types × (target_has m fl.lookup ref ≡ true)))

-- The references in the model resolve, as far as Compile asks it.
pub record IsWellFormed (m : Model) : Type 0 where
  pub refs :
      (tn : Str) (td : TypeDef) (rn : Str) (rel : RelationDef) (ref : Str)
      → Member (tn, td) m.types
      → Member (rn, rel) td.relations
      → Member ref rel.direct_types
      → RefResolves m ref
  pub rewrites :
      (tn : Str) (td : TypeDef) (rn : Str) (rel : RelationDef) (rule : RewriteRule)
      → Member (tn, td) m.types
      → Member (rn, rel) td.relations
      → Member rule rel.rewrites
      → ComputedResolves td.relations rule × LookupResolves m td.relations rule

type_ref-RefResolves : (m : Model) (ref : Str) → validate_type_ref m ref ≡ ok tt → RefResolves m ref
unfolding validate_type_ref
type_ref-RefResolves m ref h = elim (Option-cases (lookup (base_type ref) m.types)) [
  | inl e ↦ absurd (ground arith)
  | inr (td, e) ↦ (td, e, λ base rel c missing. ground arith)
]

computed-ComputedResolves :
    (relations : Map RelationDef) (rule : RewriteRule)
    → validate_computed relations rule ≡ ok tt
    → ComputedResolves relations rule
unfolding validate_computed
computed-ComputedResolves relations rule h n missing = ground arith

found_lookup-Member :
    (m : Model) (rel : Str) (refs : List Str)
    → found_lookup m rel refs ≡ true
    → (ref : Str) × Member ref refs × (target_has m rel ref ≡ true)
unfolding found_lookup
found_lookup-Member m rel [] h = absurd (ground arith)
found_lookup-Member m rel (ref ∷ refs) h = elim (Bool-cases (target_has m rel ref)) [
  | inl e ↦ (ref, inl refl, e)
  | inr e ↦ let (r, mem, has) = found_lookup-Member m rel refs (rw e at h) in (r, inr mem, has)
]

rewrite-computed :
    (m : Model) (relations : Map RelationDef) (rule : RewriteRule)
    → validate_rewrite m relations rule ≡ ok tt
    → validate_computed relations rule ≡ ok tt
unfolding validate_rewrite
rewrite-computed m relations rule h = ground arith

lookup-LookupResolves :
    (m : Model) (relations : Map RelationDef) (rule : RewriteRule)
    → validate_rewrite m relations rule ≡ ok tt
    → LookupResolves m relations rule
unfolding validate_rewrite validate_lookup check_targets
lookup-LookupResolves m relations rule h fl e = elim (Option-cases (lookup fl.from relations)) [
  | inl missing ↦ absurd (ground arith)
  | inr (from_rel, known) ↦
      (from_rel, known, by_types from_rel.direct_types (checked from_rel known))
]
  where
    accepted : validate_lookup m relations fl ≡ ok tt
    accepted = ground arith

    checked :
        (from_rel : RelationDef)
        → lookup fl.from relations ≡ some from_rel
        → check_targets m fl from_rel.direct_types ≡ ok tt
    checked from_rel known = ground (arith, accepted)

    by_types :
        (refs : List Str)
        → check_targets m fl refs ≡ ok tt
        → (refs ≡ []) ⊎ ((ref : Str) × Member ref refs × (target_has m fl.lookup ref ≡ true))
    by_types [] c = inl refl
    by_types (r ∷ rs) c = inr (found_lookup-Member m fl.lookup (r ∷ rs) (ground arith))

-- The validation pass accepts only models in which every reference resolves.
pub validate-IsWellFormed : (m : Model) → validate m ≡ ok tt → IsWellFormed m
unfolding validate validate_type validate_relation
validate-IsWellFormed m h = record {
  refs = λ tn td rn rel ref mt mr md.
      type_ref-RefResolves m ref
        (each-Member (validate_type_ref m) rel.direct_types ref (accepted tn td rn rel mt mr).0 md);
  rewrites = λ tn td rn rel rule mt mr mw.
      let passed =
        each-Member (validate_rewrite m td.relations) rel.rewrites rule
          (accepted tn td rn rel mt mr).1 mw in
      (
        computed-ComputedResolves td.relations rule (rewrite-computed m td.relations rule passed),
        lookup-LookupResolves m td.relations rule passed,
      );
}
  where
    accepted :
        (tn : Str) (td : TypeDef) (rn : Str) (rel : RelationDef)
        → Member (tn, td) m.types
        → Member (rn, rel) td.relations
        → (each (validate_type_ref m) rel.direct_types ≡ ok tt)
          × (each (validate_rewrite m td.relations) rel.rewrites ≡ ok tt)
    accepted tn td rn rel mt mr = >>-ok _ _ (
        each-Member (validate_relation m td.relations) td.relations (rn, rel)
          (each-Member (validate_type m) m.types (tn, td) h mt) mr)
