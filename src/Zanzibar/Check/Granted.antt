-- ===== src/Zanzibar/Check/Granted.antt =====
-- What a check means: the tuples that are held and the rules of the model grant a user a relation on
-- an object, said of the tuples themselves, without filters, reads or queries of the checker.
use atol_sdk_go.Prelude.{
  true, ◌≡◌, ◌≢◌, ◌↔◌, ◌⊎◌, List, [], some, Str, Lacks, All, All-Member, lookup, Member,
  Member_of_lookup, ok,
}
use atol_sdk_go.Zanzibar.Model.Types.{
  FromLookup, RewriteRule, RelationDef, TypeDef, Model, Tuple, TupleFilter,
}
use atol_sdk_go.Zanzibar.Check.Checker.{TupleReader, Query}

-- The tuple is of this relation on the object of the query.
abbrev pub IsOn : Tuple → Query → Str → Type 0
IsOn t q relation =
    (t.object_type ≡ q.object_type) × (t.object_id ≡ q.object_id) × (t.relation ≡ relation)

-- The same user, for this relation on this object.
abbrev pub asked_of : Query → Str → Str → Str → Query
asked_of q relation object_type object_id = record {
  object_type = object_type;
  object_id = object_id;
  relation = relation;
  user_type = q.user_type;
  user_id = q.user_id;
  user_relation = q.user_relation;
}

module _ (m : Model) where
  -- The rule is one of the rewrites of the query's relation.
  abbrev pub HasRewrite : Query → RewriteRule → Type 0
  HasRewrite q rule =
      (type_def : TypeDef) × (rel_def : RelationDef) × (lookup q.object_type m.types
        ≡ some type_def)
      × (lookup q.relation type_def.relations ≡ some rel_def)
      × Member rule rel_def.rewrites

  module _ (held : Tuple → Type 0) where
    -- A query is the tuple (user, relation, object). It is granted where a direct relation holds that
    -- very tuple, or a tuple whose user is a userset that grants it; where another relation on the object
    -- grants it; or where the object has a `from` tuple, and the object that this tuple names as its user
    -- grants the `lookup` relation.
    pub data Granted : Query → Type 0 where
      stored :
          {q : Query} (rule : RewriteRule)
          → HasRewrite q rule
          → rule.direct ≡ true
          → held q
          → Granted q
      userset :
          {q : Query} (rule : RewriteRule) (us : Tuple)
          → HasRewrite q rule
          → rule.direct ≡ true
          → held us
          → IsOn us q q.relation
          → us.user_relation ≢ []
          → Granted (asked_of q us.user_relation us.user_type us.user_id)
          → Granted q
      computed :
          {q : Query} (rule : RewriteRule)
          → HasRewrite q rule
          → rule.computed_relation ≢ []
          → Granted (asked_of q rule.computed_relation q.object_type q.object_id)
          → Granted q
      parent :
          {q : Query} (rule : RewriteRule) (fl : FromLookup) (ft : Tuple)
          → HasRewrite q rule
          → rule.from_lookup ≡ some fl
          → held ft
          → IsOn ft q fl.from
          → Granted (asked_of q fl.lookup ft.user_type ft.user_id)
          → Granted q

-- An empty part of a filter leaves the part of the tuple open.
abbrev pub Selects : Str → Str → Type 0
Selects wanted part = (wanted ≡ []) ⊎ (part ≡ wanted)

abbrev pub Fits : Tuple → TupleFilter → Type 0
Fits t f =
    Selects f.object_type t.object_type
    × Selects f.object_id t.object_id
    × Selects f.relation t.relation
    × Selects f.user_type t.user_type
    × Selects f.user_id t.user_id
    × Selects f.user_relation t.user_relation

-- What the reads of a store mean: they deliver the held tuples that fit, and the held usersets on an
-- object whose name holds no key separator.
pub record Delivers (held : Tuple → Type 0) (store : TupleReader) : Type 0 where
  pub reads :
      (f : TupleFilter) (ts : List Tuple) (t : Tuple)
      → store.read f ≡ ok ts
      → Member t ts ↔ (held t × Fits t f)
  pub usersets :
      (q : Query) (ts : List Tuple) (t : Tuple)
      → Lacks b':' q.object_type
      → Lacks b'#' q.object_id
      → store.read_usersets q.object_type q.object_id q.relation ≡ ok ts
      → Member t ts ↔ (held t × IsOn t q q.relation × (t.user_relation ≢ []))

-- A type, a relation and the `from` of a rule have names.
abbrev pub IsSpelledRule : RewriteRule → Type 0
IsSpelledRule rule = (fl : FromLookup) → rule.from_lookup ≡ some fl → fl.from ≢ []

abbrev pub IsSpelledRelation : Str × RelationDef → Type 0
IsSpelledRelation (name, rel) = (name ≢ []) × All IsSpelledRule rel.rewrites

abbrev pub IsSpelledType : Str × TypeDef → Type 0
IsSpelledType (name, td) = (name ≢ []) × All IsSpelledRelation td.relations

abbrev pub IsSpelled : Model → Type 0
IsSpelled m = All IsSpelledType m.types

pub IsSpelled-HasRewrite :
    (m : Model) (q : Query) (rule : RewriteRule)
    → IsSpelled m
    → HasRewrite m q rule
    → (q.object_type ≢ []) × (q.relation ≢ []) × IsSpelledRule rule
IsSpelled-HasRewrite m q rule spelled (td, rd, known, known', mem) =
    let (named, relations) =
      All-Member IsSpelledType m.types (q.object_type, td) spelled
        (Member_of_lookup q.object_type td m.types known) in
    let (named', rules) =
      All-Member IsSpelledRelation td.relations (q.relation, rd) relations
        (Member_of_lookup q.relation rd td.relations known') in
    (named, named', All-Member IsSpelledRule rd.rewrites rule rules mem)

-- What a query and the tuples must be for the checker's filters to ask what they mean, since an empty
-- part of a filter leaves it open: the model, the user, the object and the users of the tuples have
-- names, the user is no userset, and no tuple has a userset of the user's own object.
pub record IsNamed (m : Model) (tuples : List Tuple) (q : Query) : Type 0 where
  pub spelled : IsSpelled m
  pub ids : (t : Tuple) → Member t tuples → t.user_id ≢ []
  pub object_id : q.object_id ≢ []
  pub user_type : q.user_type ≢ []
  pub user_id : q.user_id ≢ []
  pub user_relation : q.user_relation ≡ []
  pub bare :
      (t : Tuple)
      → Member t tuples
      → t.user_type ≡ q.user_type
      → t.user_id ≡ q.user_id
      → t.user_relation ≡ []
