-- ===== src/Policy/Document.antt =====
-- Go values of type any as OPA delivers and takes them, and policy/engine/engine.go: setNestedData. No map
-- is shared between two places, so a change in place is a new value at its place.
use atol_sdk_go.Prelude.{
  ℕ, Bool, eqb, List, [], ◌∷◌, Option, none, some, Str, ◌==◌, Map, if◌then◌else◌, ◌≡◌, arith,
}

mutual
  pub data Value : Type 0 where
    null : Value
    boolean : Bool → Value
    number : Str → Value
    text : Str → Value
    array : Values → Value
    object : Fields → Value

  pub data Values : Type 0 where
    no_values : Values
    value : Value → Values → Values

  -- map[string]any
  pub data Fields : Type 0 where
    no_fields : Fields
    field : Str → Value → Fields → Fields

unfoldable pub get_field : Str → Fields → Option Value
get_field k no_fields = none
get_field k (field j v fs) = let rest = get_field k fs in if j == k then some v else rest

unfoldable pub set_field : Str → Value → Fields → Fields
set_field k w no_fields = field k w no_fields
set_field k w (field j v fs) =
    let rest = set_field k w fs in if j == k then field j w fs else field j v rest

-- strings.Split(path, "/")
unfoldable pub split : ℕ → Str → List Str
split c [] = [] ∷ []
split c (b ∷ s) = elim (split c s) [
  | [] ↦ []
  | part ∷ parts ↦ if eqb b c then [] ∷ (part ∷ parts) else (b ∷ part) ∷ parts
]

abbrev pub slash : ℕ
slash = b'/'

-- `current[part]`, where it is a map, and the new map that takes its place where it is not.
abbrev pub fields_in : Option Value → Fields
fields_in (some (object fs)) = fs
fields_in _ = no_fields

-- The loop of setNestedData over the parts.
unfoldable pub set_parts : List Str → Value → Fields → Fields
set_parts [] v fs = fs
set_parts (part ∷ []) v fs = set_field part v fs
set_parts (part ∷ next ∷ parts) v fs =
    set_field part (object (set_parts (next ∷ parts) v (fields_in (get_field part fs)))) fs

unfoldable pub set_nested_data : Str → Value → Fields → Fields
set_nested_data path v fs = set_parts (split slash path) v fs

-- The loop of LoadBundle over the policy data.
unfoldable pub overlay_policy_data : Map Value → Fields → Fields
overlay_policy_data [] fs = fs
overlay_policy_data ((path, v) ∷ more) fs = overlay_policy_data more (set_nested_data path v fs)

pub get-set_field :
    (k j : Str) (w : Value) (fs : Fields)
    → get_field j (set_field k w fs) ≡ (if k == j then some w else get_field j fs)
unfolding get_field set_field
get-set_field k j w no_fields = ground arith
get-set_field k j w (field i v fs) = ground (arith, get-set_field k j w fs)
