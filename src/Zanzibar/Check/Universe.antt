-- ===== src/Zanzibar/Check/Universe.antt =====
-- The queries that a check can reach: finitely many, from the relations that the model and the
-- tuples name and from the objects that the tuples name (zanzibar/check/checker.go).
use atol_sdk_go.Prelude.{
  ℕ, suc, ◌≡◌, refl, inl, inr, List, [], ◌∷◌, ◌++◌, map, none, some, Str, Member, Member-append,
  Member-map, concat_map, Member-concat_map, Member_of_lookup, length, ok, arith, sym, ap, subst,
}
use atol_sdk_go.Zanzibar.Model.Types.{
  FromLookup, RewriteRule, RelationDef, TypeDef, Model, Tuple, TupleFilter,
}
use atol_sdk_go.Zanzibar.Model.Keys.{tuple_key}
use atol_sdk_go.Zanzibar.Check.Checker.{TupleReader, Query}
use atol_sdk_go.Zanzibar.Check.Grants.{HasRule, Leads}

-- The relations that a rule goes on to.
unfoldable pub rule_relations : RewriteRule → List Str
rule_relations rule = elim rule.from_lookup [
  | none ↦ rule.computed_relation ∷ []
  | some fl ↦ rule.computed_relation ∷ fl.lookup ∷ []
]

pub computed-Member : (rule : RewriteRule) → Member rule.computed_relation (rule_relations rule)
unfolding rule_relations
computed-Member rule = ground arith

pub lookup-Member :
    (rule : RewriteRule) (fl : FromLookup)
    → rule.from_lookup ≡ some fl
    → Member fl.lookup (rule_relations rule)
unfolding rule_relations
lookup-Member rule fl e = ground arith

unfoldable pub model_relations : Model → List Str
model_relations m =
    concat_map
      (λ (e : Str × TypeDef).
        concat_map (λ (r : Str × RelationDef). concat_map rule_relations r.1.rewrites)
          e.1.relations)
      m.types

-- All that the store delivers is among the tuples.
pub record Covers (store : TupleReader) (tuples : List Tuple) : Type 0 where
  pub reads :
      (f : TupleFilter) (ts : List Tuple) (t : Tuple)
      → store.read f ≡ ok ts
      → Member t ts
      → Member t tuples
  pub usersets :
      (a b c : Str) (ts : List Tuple) (t : Tuple)
      → store.read_usersets a b c ≡ ok ts
      → Member t ts
      → Member t tuples

module _ (m : Model) (tuples : List Tuple) (q : Query) where
  unfoldable pub relations : List Str
  relations = q.relation ∷ (model_relations m ++ map (λ t. t.user_relation) tuples)

  unfoldable pub objects : List (Str × Str)
  objects = (q.object_type, q.object_id) ∷ map (λ t. (t.user_type, t.user_id)) tuples

  unfoldable pub user_relations : List Str
  user_relations = q.user_relation ∷ [] ∷ []

  -- The reachable query with this user relation, object and relation.
  unfoldable pub query_at : Str → Str → Str × Str → Query
  query_at user_relation relation object = record q {
    user_relation = user_relation;
    relation = relation;
    object_type = object.0;
    object_id = object.1;
  }

  -- The visit keys of all of them.
  unfoldable pub universe : List Str
  universe =
      concat_map
        (λ u. concat_map (λ r. concat_map (λ o. tuple_key (query_at u r o) ∷ []) objects) relations)
        user_relations

  -- Fuel that is enough for a check of `q`.
  abbrev pub fuel_for : ℕ
  fuel_for = suc (length universe)

  pub record IsReachable (r : Query) : Type 0 where
    pub user_type : r.user_type ≡ q.user_type
    pub user_id : r.user_id ≡ q.user_id
    pub user_relation : Member r.user_relation user_relations
    pub relation : Member r.relation relations
    pub object : Member (r.object_type, r.object_id) objects

  pub start-IsReachable : IsReachable q
  unfolding relations objects user_relations
  start-IsReachable = record {
    user_type = refl;
    user_id = refl;
    user_relation = inl refl;
    relation = inl refl;
    object = inl refl;
  }

  same_query :
      (r : Query)
      → IsReachable r
      → r ≡ query_at r.user_relation r.relation (r.object_type, r.object_id)
  unfolding query_at
  same_query r h = ground arith

  pub IsReachable-universe : (r : Query) → IsReachable r → Member (tuple_key r) universe
  unfolding universe query_at
  IsReachable-universe r h =
      Member-concat_map
        (λ u. concat_map (λ s. concat_map (λ o. tuple_key (query_at u s o) ∷ []) objects) relations)
        user_relations r.user_relation (tuple_key r) h.user_relation
        (Member-concat_map
          (λ s. concat_map (λ o. tuple_key (query_at r.user_relation s o) ∷ []) objects) relations
          r.relation (tuple_key r) h.relation
          (Member-concat_map (λ o. tuple_key (query_at r.user_relation r.relation o) ∷ []) objects
            (r.object_type, r.object_id) (tuple_key r) h.object
            (inl (ap tuple_key (same_query r h)))))

  pub rule-Member :
      (store : TupleReader) (r : Query) (rule : RewriteRule) (s : Str)
      → HasRule m store r rule
      → Member s (rule_relations rule)
      → Member s (model_relations m)
  unfolding model_relations
  rule-Member store r rule s (td, rd, known, known', mem) h =
      Member-concat_map
        (λ (e : Str × TypeDef).
          concat_map (λ (p : Str × RelationDef). concat_map rule_relations p.1.rewrites)
            e.1.relations)
        m.types (r.object_type, td) s (Member_of_lookup r.object_type td m.types known)
        (Member-concat_map (λ (p : Str × RelationDef). concat_map rule_relations p.1.rewrites)
          td.relations (r.relation, rd) s (Member_of_lookup r.relation rd td.relations known')
          (Member-concat_map rule_relations rd.rewrites rule s mem h))

  of_model : (s : Str) → Member s (model_relations m) → Member s relations
  unfolding relations
  of_model s h =
      inr ((Member-append s (model_relations m) (map (λ t. t.user_relation) tuples)).1 (inl h))

  -- What a reachable query leads to is reachable.
  pub IsReachable-Leads :
      (store : TupleReader) (r s : Query)
      → Covers store tuples
      → IsReachable r
      → Leads m store r s
      → IsReachable s
  unfolding relations objects user_relations rule_relations
  IsReachable-Leads store r s covers h (Leads.userset rule us ts has d read mem e) =
      let t = covers.usersets r.object_type r.object_id r.relation ts us read mem in
      subst IsReachable (sym e) (record {
        user_type = h.user_type;
        user_id = h.user_id;
        user_relation = inr (inl refl);
        relation = inr (
            (Member-append us.user_relation (model_relations m)
                (map (λ t. t.user_relation) tuples)).1
              (inr (Member-map (λ t. t.user_relation) tuples us t)));
        object = inr (Member-map (λ t. (t.user_type, t.user_id)) tuples us t);
      })
  IsReachable-Leads store r s covers h (Leads.computed rule has n e) =
      subst IsReachable (sym e) (record {
        user_type = h.user_type;
        user_id = h.user_id;
        user_relation = h.user_relation;
        relation =
            of_model rule.computed_relation
              (rule-Member store r rule rule.computed_relation has (computed-Member rule));
        object = h.object;
      })
  IsReachable-Leads store r s covers h (Leads.from_lookup rule fl ft ts has present read mem e) =
      subst IsReachable (sym e) (record {
        user_type = h.user_type;
        user_id = h.user_id;
        user_relation = h.user_relation;
        relation =
            of_model fl.lookup
              (rule-Member store r rule fl.lookup has (lookup-Member rule fl present));
        object =
            inr (
              Member-map (λ t. (t.user_type, t.user_id)) tuples ft (covers.reads _ ts ft read mem));
      })
