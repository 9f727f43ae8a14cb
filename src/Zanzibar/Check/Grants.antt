-- ===== src/Zanzibar/Check/Grants.antt =====
-- The derivations that a check looks for, without a traversal order, in the checker's own reads and
-- queries. Zanzibar/Check/Granted.antt says what they mean of the tuples, and Meaning.antt that they do.
use atol_sdk_go.Prelude.{true, ◌≡◌, ◌≢◌, List, [], some, lookup, Member, ok}
use atol_sdk_go.Zanzibar.Model.Types.{FromLookup, RewriteRule, RelationDef, TypeDef, Model, Tuple}
use atol_sdk_go.Zanzibar.Check.Checker.{
  TupleReader, Query, direct_filter, from_filter, computed_query, userset_query, lookup_query,
}

module _ (m : Model) (store : TupleReader) where
  -- The rule is one of the rewrites of the query's relation.
  abbrev pub HasRule : Query → RewriteRule → Type 0
  HasRule q rw =
      (type_def : TypeDef) × (rel_def : RelationDef) × (lookup q.object_type m.types
        ≡ some type_def)
      × (lookup q.relation type_def.relations ≡ some rel_def)
      × Member rw rel_def.rewrites

  -- A rule of direct tuples, and a tuple that matches the query.
  abbrev pub Direct : Query → Type 0
  Direct q =
      (rw : RewriteRule) × (tuples : List Tuple) × HasRule q rw
      × (rw.direct ≡ true)
      × (store.read (direct_filter q) ≡ ok tuples)
      × (tuples ≢ [])

  -- Where a rule leads: to the userset of a stored tuple, to another relation of the object, or to
  -- the object that a `from` tuple names.
  pub data Leads (q r : Query) : Type 0 where
    userset :
        (rw : RewriteRule) (us : Tuple) (usersets : List Tuple)
        → HasRule q rw
        → rw.direct ≡ true
        → store.read_usersets q.object_type q.object_id q.relation ≡ ok usersets
        → Member us usersets
        → r ≡ userset_query q us
        → Leads q r
    computed :
        (rw : RewriteRule)
        → HasRule q rw
        → rw.computed_relation ≢ []
        → r ≡ computed_query q rw.computed_relation
        → Leads q r
    from_lookup :
        (rw : RewriteRule) (fl : FromLookup) (ft : Tuple) (tuples : List Tuple)
        → HasRule q rw
        → rw.from_lookup ≡ some fl
        → store.read (from_filter q fl) ≡ ok tuples
        → Member ft tuples
        → r ≡ lookup_query q fl ft
        → Leads q r

  pub data Grants : Query → Type 0 where
    direct : {q : Query} → Direct q → Grants q
    through : {q : Query} (r : Query) → Leads q r → Grants r → Grants q
