-- ===== src/Zanzibar/Model/Types.antt =====
-- zanzibar/model/types.go: the compiled model, relationship tuples, filters, and the user and
-- object keys. The filter test is that of zanzibar/store/memory.go.
use atol_sdk_go.Prelude.{
  ℕ, Bool, true, ◌≡◌, refl, ◌&&◌, ◌||◌, List, [], ◌∷◌, ◌++◌, Option, Str, ◌==◌, ◌!=◌, Map, str_dec,
  if◌then◌else◌, arith,
}

pub record FromLookup : Type 0 where
  pub from : Str
  pub lookup : Str

pub record RewriteRule : Type 0 where
  pub direct : Bool
  pub computed_relation : Str
  pub from_lookup : Option FromLookup

pub record RelationDef : Type 0 where
  pub name : Str
  pub direct_types : List Str
  pub rewrites : List RewriteRule
  pub min_holders : ℕ

pub record TypeDef : Type 0 where
  pub name : Str
  pub relations : Map RelationDef

pub record Model : Type 0 where
  pub version : Str
  pub types : Map TypeDef

pub record Tuple : Type 0 where
  pub object_type : Str
  pub object_id : Str
  pub relation : Str
  pub user_type : Str
  pub user_id : Str
  pub user_relation : Str

-- An empty field matches any value.
pub record TupleFilter : Type 0 where
  pub object_type : Str
  pub object_id : Str
  pub relation : Str
  pub user_type : Str
  pub user_id : Str
  pub user_relation : Str

-- Tuple.UserKey
unfoldable pub user_key : Tuple → Str
user_key t =
    if t.user_relation != []
    then t.user_type ++ (b':' ∷ (t.user_id ++ (b'#' ∷ t.user_relation)))
    else t.user_type ++ (b':' ∷ t.user_id)

-- Tuple.ObjectKey
unfoldable pub object_key : Tuple → Str
object_key t = t.object_type ++ (b':' ∷ t.object_id)

-- One field of a filter.
abbrev pub field_matches : Str → Str → Bool
field_matches wanted value = wanted == [] || value == wanted

unfoldable pub matches_filter : Tuple → TupleFilter → Bool
matches_filter t f =
    field_matches f.object_type t.object_type
    && (field_matches f.object_id t.object_id
        && (field_matches f.relation t.relation
            && (field_matches f.user_type t.user_type
                && (field_matches f.user_id t.user_id
                    && field_matches f.user_relation t.user_relation))))

pub field_matches_self : (v : Str) → field_matches v v ≡ true
field_matches_self v = ground arith

pub field_matches_any : (v : Str) → field_matches [] v ≡ true
unfolding str_dec
field_matches_any v = refl

pub and_true : {a b : Bool} → a ≡ true → b ≡ true → (a && b) ≡ true
and_true p q = ground arith

-- A filter that names the object and relation of a tuple, and no user, matches it.
pub matches_object :
    (t : Tuple)
    → matches_filter t (record {
      object_type = t.object_type;
      object_id = t.object_id;
      relation = t.relation;
      user_type = [];
      user_id = [];
      user_relation = [];
    })
      ≡ true
unfolding matches_filter
matches_object t = and_true (field_matches_self t.object_type) (
    and_true (field_matches_self t.object_id) (
      and_true (field_matches_self t.relation) (
        and_true (field_matches_any t.user_type)
          (and_true (field_matches_any t.user_id) (field_matches_any t.user_relation)))))
