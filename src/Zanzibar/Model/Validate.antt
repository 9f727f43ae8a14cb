-- ===== src/Zanzibar/Model/Validate.antt =====
-- zanzibar/model/validate.go: which tuples a compiled model admits. The model pointer is nil where
-- no model is set.
use atol_sdk_go.Prelude.{
  Bool, true, false, ◌≡◌, refl, ◌↔◌, ◌⊎◌, inl, inr, ◌||◌, List, [], ◌∷◌, ◌++◌, Option, none, some,
  Str, ◌==◌, ◌!=◌, lookup, Member, Result, ok, err, ◌>>◌, guard, Option-cases, if◌then◌else◌, arith,
}
use atol_sdk_go.Zanzibar.Model.Types.{Model, TypeDef, RelationDef, Tuple}

-- The errors, by what they report.
pub data ValidateError : Type 0 where
  unknown_object_type : Str → ValidateError
  unknown_relation : Str → Str → ValidateError
  user_type_not_allowed : Str → ValidateError
  unknown_user_type : Str → ValidateError
  unknown_user_relation : Str → Str → ValidateError

-- The reference of the tuple's user: "type" or "type#relation".
abbrev pub user_ref : Tuple → Str
user_ref t = if t.user_relation != [] then t.user_type ++ (b'#' ∷ t.user_relation) else t.user_type

-- The loop over `rel.DirectTypes`.
unfoldable pub is_allowed : Str → Str → List Str → Bool
is_allowed ref user_type [] = false
is_allowed ref user_type (dt ∷ dts) =
    let rest = is_allowed ref user_type dts in if dt == ref || dt == user_type then true else rest

unfoldable pub validate_direct : RelationDef → Tuple → Result ValidateError (Unit {0})
validate_direct rel t = elim rel.direct_types [
  | [] ↦ ok tt
  | dt ∷ dts ↦
      guard (is_allowed (user_ref t) t.user_type (dt ∷ dts)) (user_type_not_allowed (user_ref t))
]

unfoldable pub validate_userset : Model → Tuple → Result ValidateError (Unit {0})
validate_userset m t =
    if t.user_relation != []
    then elim (lookup t.user_type m.types) [
      | none ↦ err (unknown_user_type t.user_type)
      | some user_type ↦ elim (lookup t.user_relation user_type.relations) [
        | none ↦ err (unknown_user_relation t.user_relation t.user_type)
        | some _ ↦ ok tt
      ]
    ]
    else ok tt

unfoldable pub validate_tuple : Option Model → Tuple → Result ValidateError (Unit {0})
validate_tuple none t = ok tt
validate_tuple (some m) t = elim (lookup t.object_type m.types) [
  | none ↦ err (unknown_object_type t.object_type)
  | some object_type ↦ elim (lookup t.relation object_type.relations) [
    | none ↦ err (unknown_relation t.relation t.object_type)
    | some rel ↦ validate_direct rel t >> validate_userset m t
  ]
]

-- What a tuple must satisfy under a model: its relation is declared, its user is of a type that the
-- relation names, if it names any, and a userset's relation is declared.
pub record IsAdmitted (m : Model) (t : Tuple) : Type 0 where
  pub object_type : TypeDef
  pub object_type_known : lookup t.object_type m.types ≡ some object_type
  pub rel : RelationDef
  pub relation_known : lookup t.relation object_type.relations ≡ some rel
  pub user_allowed :
      (rel.direct_types ≡ [])
      ⊎ Member (user_ref t) rel.direct_types
      ⊎ Member t.user_type rel.direct_types
  pub userset_known :
      (t.user_relation ≡ [])
      ⊎ ((u : TypeDef) × (r : RelationDef) × (lookup t.user_type m.types ≡ some u)
          × (lookup t.user_relation u.relations ≡ some r))

is_allowed_iff :
    (ref user_type : Str) (dts : List Str)
    → (is_allowed ref user_type dts ≡ true) ↔ (Member ref dts ⊎ Member user_type dts)
unfolding is_allowed
is_allowed_iff ref user_type [] = ground arith
is_allowed_iff ref user_type (dt ∷ dts) = ground (arith, is_allowed_iff ref user_type dts)

validate_direct_iff :
    (rel : RelationDef) (t : Tuple)
    → (validate_direct rel t ≡ ok tt) ↔ (
        (rel.direct_types ≡ [])
        ⊎ Member (user_ref t) rel.direct_types
        ⊎ Member t.user_type rel.direct_types)
unfolding validate_direct
validate_direct_iff rel t = by_types rel.direct_types refl
  where
    by_types :
        (dts : List Str)
        → rel.direct_types ≡ dts
        → (validate_direct rel t ≡ ok tt) ↔ (
            (rel.direct_types ≡ [])
            ⊎ Member (user_ref t) rel.direct_types
            ⊎ Member t.user_type rel.direct_types)
    by_types [] e = ground arith
    by_types (dt ∷ dts) e = ground (arith, is_allowed_iff (user_ref t) t.user_type (dt ∷ dts))

validate_userset_iff :
    (m : Model) (t : Tuple)
    → (validate_userset m t ≡ ok tt) ↔ (
        (t.user_relation ≡ [])
        ⊎ ((u : TypeDef) × (r : RelationDef) × (lookup t.user_type m.types ≡ some u)
            × (lookup t.user_relation u.relations ≡ some r)))
unfolding validate_userset
validate_userset_iff m t = ground arith

validated-IsAdmitted : (m : Model) (t : Tuple) → validate_tuple (some m) t ≡ ok tt → IsAdmitted m t
unfolding validate_tuple
validated-IsAdmitted m t h = elim (Option-cases (lookup t.object_type m.types)) [
  | inl e ↦ absurd (ground arith)
  | inr (object_type, e) ↦ elim (Option-cases (lookup t.relation object_type.relations)) [
    | inl e' ↦ absurd (ground arith)
    | inr (rel, e') ↦ record {
      object_type = object_type;
      object_type_known = e;
      rel = rel;
      relation_known = e';
      user_allowed = ground (arith, validate_direct_iff rel t);
      userset_known = ground (arith, validate_userset_iff m t);
    }
  ]
]

-- With a model set, ValidateTuple accepts a tuple exactly when its object type and relation are
-- declared, its user is of a kind that the relation lists (or the relation lists none), and the
-- relation of a userset user is declared on the user's type.
pub validate_tuple_iff :
    (m : Model) (t : Tuple) → (validate_tuple (some m) t ≡ ok tt) ↔ IsAdmitted m t
validate_tuple_iff m t = (
  validated-IsAdmitted m t,
  λ a.
      unfold validate_tuple in
      ground (
        arith,
        validate_direct_iff a.rel t,
        validate_userset_iff m t,
        a.object_type_known,
        a.relation_known,
        a.user_allowed,
        a.userset_known,
      ),
)
