-- ===== src/Zanzibar/Model/Keys.antt =====
-- The string keys under which tuples are filed and visits are remembered: fmt.Sprintf and `+` in
-- zanzibar/store/memory.go and zanzibar/check/checker.go, and the parsers of the latter.
use atol_sdk_go.Prelude.{
  ◌≡◌, [], ◌∷◌, ◌++◌, none, some, Str, Lacks, cut, cut-append, cut_lacks, join_injective, arith,
}
use atol_sdk_go.Zanzibar.Model.Types.{Tuple, user_key, object_key}

-- "type:id#relation"
unfoldable pub object_relation_key : Str → Str → Str → Str
object_relation_key object_type object_id relation =
    object_type ++ (b':' ∷ (object_id ++ (b'#' ∷ relation)))

-- "type:id#relation@type:id#relation"
unfoldable pub tuple_key : Tuple → Str
tuple_key t =
    t.object_type
    ++ (b':'
        ∷ (t.object_id
            ++ (b'#'
                ∷ (t.relation
                    ++ (b'@'
                        ∷ (t.user_type ++ (b':' ∷ (t.user_id ++ (b'#' ∷ t.user_relation)))))))))

-- ParseUserKey: type, id and relation.
unfoldable pub parse_user_key : Str → Str × Str × Str
parse_user_key key = elim (cut b':' key) [
  | none ↦ (key, [], [])
  | some (user_type, rest) ↦ elim (cut b'#' rest) [
    | none ↦ (user_type, rest, [])
    | some (user_id, user_relation) ↦ (user_type, user_id, user_relation)
  ]
]

-- ParseObjectKey: type and id.
unfoldable pub parse_object_key : Str → Str × Str
parse_object_key key = elim (cut b':' key) [ none ↦ (key, []) | some (t, i) ↦ (t, i) ]

-- No field holds the separator that ends it in a key.
pub record IsClean (t : Tuple) : Type 0 where
  pub object_type : Lacks b':' t.object_type
  pub object_id : Lacks b'#' t.object_id
  pub relation : Lacks b'@' t.relation
  pub user_type : Lacks b':' t.user_type
  pub user_id : Lacks b'#' t.user_id

-- Where types have no `:` and ids no `#`, the bucket key determines type, id and relation.
pub object_relation_key_injective :
    (a b c x y z : Str)
    → Lacks b':' a
    → Lacks b'#' b
    → Lacks b':' x
    → Lacks b'#' y
    → object_relation_key a b c ≡ object_relation_key x y z
    → (a ≡ x) × (b ≡ y) × (c ≡ z)
unfolding object_relation_key
object_relation_key_injective a b c x y z ha hb hx hy e =
    let (p, rest) = join_injective b':' a _ x _ ha hx e in
    let (q, r) = join_injective b'#' b c y z hb hy rest in (p, q, r)

-- Two clean tuples with one key are one tuple.
pub tuple_key_injective : (t u : Tuple) → IsClean t → IsClean u → tuple_key t ≡ tuple_key u → t ≡ u
unfolding tuple_key
tuple_key_injective t u c d e =
    let (p₁, e₁) = join_injective b':' _ _ _ _ c.object_type d.object_type e in
    let (p₂, e₂) = join_injective b'#' _ _ _ _ c.object_id d.object_id e₁ in
    let (p₃, e₃) = join_injective b'@' _ _ _ _ c.relation d.relation e₂ in
    let (p₄, e₄) = join_injective b':' _ _ _ _ c.user_type d.user_type e₃ in
    let (p₅, p₆) = join_injective b'#' _ _ _ _ c.user_id d.user_id e₄ in ground arith

-- ParseUserKey reads back what UserKey prints.
pub parse_user_key-user_key :
    (t : Tuple)
    → Lacks b':' t.user_type
    → Lacks b'#' t.user_id
    → parse_user_key (user_key t) ≡ (t.user_type, t.user_id, t.user_relation)
unfolding parse_user_key user_key
parse_user_key-user_key t h k = ground (
  arith,
  cut-append b':' t.user_type (t.user_id ++ (b'#' ∷ t.user_relation)) h,
  cut-append b':' t.user_type t.user_id h,
  cut-append b'#' t.user_id t.user_relation k,
  cut_lacks b'#' t.user_id k,
)

-- ParseObjectKey reads back what ObjectKey prints.
pub parse_object_key-object_key :
    (t : Tuple)
    → Lacks b':' t.object_type
    → parse_object_key (object_key t) ≡ (t.object_type, t.object_id)
unfolding parse_object_key object_key
parse_object_key-object_key t h = ground (arith, cut-append b':' t.object_type t.object_id h)
