-- ===== src/Sdk/AccessList.antt =====
-- access_list.go: ReadRelationships, over Engine.ReadTuples and the MemoryStore.
use atol_sdk_go.Prelude.{
  true, ◌≡◌, ◌↔◌, ◌⊎◌, inl, inr, refl, arith, List, [], ◌∷◌, Member, none, some, Str, ◌==◌, Result,
  ok, err, if◌then◌else◌, map, ap, sym, subst, Option-cases,
}
use atol_sdk_go.Zanzibar.Model.Types.{Tuple, TupleFilter, matches_filter, user_key, object_key}
use atol_sdk_go.Zanzibar.Model.Keys.{parse_user_key}
use atol_sdk_go.Zanzibar.Store.Memory.{read}
use atol_sdk_go.Zanzibar.Store.Index.{Holds}
use atol_sdk_go.Zanzibar.Store.Reads.{IsValid, Materialized}
use atol_sdk_go.Zanzibar.Store.Queries.{read_iff}
use atol_sdk_go.Zanzibar.Engine.State.{Engine}
use atol_sdk_go.Zanzibar.Engine.Cache.{get_model}
use atol_sdk_go.Sdk.Decide.{parse_object}

pub record Relationship : Type 0 where
  pub subject : Str
  pub relation : Str
  pub object : Str

pub record RelationshipFilter : Type 0 where
  pub object : Str
  pub relation : Str
  pub subject : Str

pub data ReadError : Type 0 where
  no_model_loaded : ReadError

unfoldable pub tuple_filter : RelationshipFilter → TupleFilter
tuple_filter f =
    let of_subject : Str × Str × Str =
      if f.subject == [] then ([], [], []) else parse_user_key f.subject in
    let of_object : Str × Str = if f.object == [] then ([], []) else parse_object f.object in
    record {
      object_type = of_object.0;
      object_id = of_object.1;
      relation = f.relation;
      user_type = of_subject.0;
      user_id = of_subject.1;
      user_relation = of_subject.2;
    }

abbrev pub relationship : Tuple → Relationship
relationship t = record { subject = user_key t; relation = t.relation; object = object_key t }

unfoldable pub read_relationships :
    RelationshipFilter → Engine → Result ReadError (List Relationship)
read_relationships f e = elim (get_model e) [
  | none ↦ err no_model_loaded
  | some m ↦ ok (map relationship (read (tuple_filter f) e.store))
]

Member-map :
    (r : Relationship) (ts : List Tuple)
    → Member r (map relationship ts)
    → (t : Tuple) × Member t ts × (r ≡ relationship t)
Member-map r [] m = absurd m
Member-map r (t ∷ ts) (inl e) = (t, inl refl, e)
Member-map r (t ∷ ts) (inr m) = let (u, k, e) = Member-map r ts m in (u, inr k, e)

map-Member :
    (t : Tuple) (ts : List Tuple) → Member t ts → Member (relationship t) (map relationship ts)
map-Member t [] m = absurd m
map-Member t (u ∷ ts) (inl e) = inl (ap relationship e)
map-Member t (u ∷ ts) (inr m) = inr (map-Member t ts m)

-- With a default model and a valid store, ReadRelationships lists exactly the relationships of the stored
-- and materialized tuples that match its filter.
pub read_relationships_iff :
    (f : RelationshipFilter) (e : Engine) (out : List Relationship) (r : Relationship)
    → IsValid e.store
    → read_relationships f e ≡ ok out
    → Member r out ↔ (
        (t : Tuple) × ((Holds e.store t ⊎ Materialized e.store t)
          × (matches_filter t (tuple_filter f) ≡ true))
        × (r ≡ relationship t))
unfolding read_relationships
read_relationships_iff f e out r valid h = elim (Option-cases (get_model e)) [
  | inl miss ↦ absurd (ground (arith, h, miss))
  | inr (m, found) ↦
      let listed : out ≡ map relationship (read (tuple_filter f) e.store) =
        ground (arith, h, found) in
      (
        λ k.
            let (t, at, same) =
              Member-map r (read (tuple_filter f) e.store) (subst (Member r) listed k) in
            (t, (read_iff (tuple_filter f) e.store t valid).0 at, same),
        λ (t, held, same).
            subst (λ v. Member v out) (sym same)
              (subst (Member (relationship t)) (sym listed) (
                map-Member t (read (tuple_filter f) e.store)
                  ((read_iff (tuple_filter f) e.store t valid).1 held))),
      )
]
