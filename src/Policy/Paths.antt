-- ===== src/Policy/Paths.antt =====
-- What setNestedData and the overlay of LoadBundle do to the document at each path (policy/engine/engine.go).
use atol_sdk_go.Prelude.{
  ℕ, List, [], ◌∷◌, Option, none, some, Str, str_dec, Map, lookup, Distinct, ◌≡◌, ◌≢◌, refl, ◌⊎◌,
  inl, inr, arith, sym, ap, ◌∙◌,
}
use atol_sdk_go.Policy.Document.{
  Value, object, Fields, get_field, set_field, split, slash, fields_in, set_parts, set_nested_data,
  overlay_policy_data, get-set_field,
}

-- The document at a path: what a policy reads at it.
abbrev pub at_parts : List Str → Fields → Option Value
at_parts [] fs = none
at_parts (part ∷ []) fs = get_field part fs
at_parts (part ∷ next ∷ parts) fs = at_parts (next ∷ parts) (fields_in (get_field part fs))

abbrev pub document : Str → Fields → Option Value
document path fs = at_parts (split slash path) fs

-- Neither path is inside the other: they part at some part.
abbrev pub ArePartsApart : List Str → List Str → Type 0
ArePartsApart [] js = ⊥
ArePartsApart (i ∷ is) [] = ⊥
ArePartsApart (i ∷ is) (j ∷ js) = (i ≢ j) ⊎ ArePartsApart is js

abbrev pub AreApart : Str → Str → Type 0
AreApart i j = ArePartsApart (split slash i) (split slash j)

split-ne-nil : (c : ℕ) (s : Str) → split c s ≢ []
unfolding split
split-ne-nil c [] e = ground (arith, e)
split-ne-nil c (b ∷ s) e = ground (arith, e, split-ne-nil c s)

pub at-set_parts :
    (is : List Str) (v : Value) (fs : Fields) → is ≢ [] → at_parts is (set_parts is v fs) ≡ some v
unfolding set_parts
at-set_parts [] v fs some_part = absurd (some_part refl)
at-set_parts (i ∷ []) v fs some_part = ground (arith, get-set_field i i v fs)
at-set_parts (i ∷ k ∷ is) v fs some_part =
    let inner = set_parts (k ∷ is) v (fields_in (get_field i fs)) in
    let here : get_field i (set_field i (object inner) fs) ≡ some (object inner) =
      ground (arith, get-set_field i i (object inner) fs) in
    rw here (at-set_parts (k ∷ is) v (fields_in (get_field i fs)) (λ e. absurd (cc)))

-- What stands at a path depends on the field of its first part.
at-same :
    (j : Str) (js : List Str) (fs gs : Fields)
    → get_field j fs ≡ get_field j gs
    → at_parts (j ∷ js) fs ≡ at_parts (j ∷ js) gs
at-same j [] fs gs e = e
at-same j (k ∷ js) fs gs e = ap (λ o. at_parts (k ∷ js) (fields_in o)) e

field_apart :
    (i j : Str) (w : Value) (fs : Fields) → i ≢ j → get_field j (set_field i w fs) ≡ get_field j fs
field_apart i j w fs away = ground (arith, get-set_field i j w fs, away)

pub at-set_parts_apart :
    (is js : List Str) (v : Value) (fs : Fields)
    → ArePartsApart is js
    → at_parts js (set_parts is v fs) ≡ at_parts js fs
unfolding set_parts
at-set_parts_apart [] js v fs apart = absurd apart
at-set_parts_apart (i ∷ is) [] v fs apart = absurd apart
at-set_parts_apart (i ∷ []) (j ∷ js) v fs (inl away) =
    at-same j js (set_field i v fs) fs (field_apart i j v fs away)
at-set_parts_apart (i ∷ []) (j ∷ js) v fs (inr more) = absurd more
at-set_parts_apart (i ∷ l ∷ is) (j ∷ js) v fs (inl away) =
    let inner = set_parts (l ∷ is) v (fields_in (get_field i fs)) in
    at-same j js (set_field i (object inner) fs) fs (field_apart i j (object inner) fs away)
at-set_parts_apart (i ∷ l ∷ is) (j ∷ []) v fs (inr more) = absurd more
at-set_parts_apart (i ∷ l ∷ is) (j ∷ k ∷ js) v fs (inr more) =
    let inner = set_parts (l ∷ is) v (fields_in (get_field i fs)) in
    elim (str_dec i j) [
      | no away ↦
          at-same j (k ∷ js) (set_field i (object inner) fs) fs
            (field_apart i j (object inner) fs away)
      | yes here ↦
          let there : get_field j (set_field i (object inner) fs) ≡ some (object inner) =
            ground (arith, get-set_field i j (object inner) fs, here) in
          ap (λ o. at_parts (k ∷ js) (fields_in o)) there
          ∙ at-set_parts_apart (l ∷ is) (k ∷ js) v (fields_in (get_field i fs)) more
          ∙ ap (λ x. at_parts (k ∷ js) (fields_in (get_field x fs))) here
    ]

document-set :
    (path : Str) (v : Value) (fs : Fields) → document path (set_nested_data path v fs) ≡ some v
unfolding set_nested_data
document-set path v fs = at-set_parts (split slash path) v fs (split-ne-nil slash path)

document-set_apart :
    (path other : Str) (v : Value) (fs : Fields)
    → AreApart path other
    → document other (set_nested_data path v fs) ≡ document other fs
unfolding set_nested_data
document-set_apart path other v fs apart =
    at-set_parts_apart (split slash path) (split slash other) v fs apart

-- The overlay leaves the document at a path that is apart from all of its paths.
overlay_keeps :
    (m : Map Value) (fs : Fields) (j : Str)
    → ((i : Str) → lookup i m ≢ none → AreApart i j)
    → document j (overlay_policy_data m fs) ≡ document j fs
unfolding overlay_policy_data lookup
overlay_keeps [] fs j apart = refl
overlay_keeps ((i, v) ∷ m) fs j apart =
    overlay_keeps m (set_nested_data i v fs) j (λ k found. apart k (ground (arith, found)))
    ∙ document-set_apart i j v fs (apart i (ground arith))

-- Where the paths of the policy data are apart, LoadBundle's overlay puts each of its values at its path,
-- over whatever the data of the bundle had there, and leaves the document at every path that is apart from
-- them all.
pub overlay_policy_data_lem :
    (m : Map Value) (fs : Fields)
    → Distinct m
    → ((i j : Str) → lookup i m ≢ none → lookup j m ≢ none → i ≢ j → AreApart i j)
    → ((j : Str) (v : Value) → lookup j m ≡ some v → document j (overlay_policy_data m fs) ≡ some v)
      × ((j : Str)
          → ((i : Str) → lookup i m ≢ none → AreApart i j)
          → document j (overlay_policy_data m fs) ≡ document j fs)
unfolding overlay_policy_data lookup
overlay_policy_data_lem [] fs d separate =
    ((λ j v found. absurd (ground (arith, found))), λ j apart. refl)
overlay_policy_data_lem ((i, w) ∷ m) fs d separate =
    let others =
      overlay_policy_data_lem m (set_nested_data i w fs) d.1
        (λ k l a b. separate k l (ground (arith, a)) (ground (arith, b))) in
    (
      λ j v found. elim (str_dec i j) [
        | no away ↦ others.0 j v (ground (arith, found, away))
        | yes here ↦
            overlay_keeps m (set_nested_data i w fs) j (λ k other.
              separate k j (ground (arith, other)) (ground (arith, found))
                (λ met. other (ap (λ x. lookup x m) (met ∙ sym here) ∙ d.0)))
            ∙ ap (λ x. document x (set_nested_data i w fs)) (sym here)
            ∙ document-set i w fs
            ∙ ground (arith, found, here)
      ],
      λ j apart. overlay_keeps ((i, w) ∷ m) fs j apart,
    )
