-- ===== src/Zanzibar/Store/Diff.antt =====
-- ReplacementDiff (zanzibar/store/memory.go): which tuples are written and which are deleted.
use atol_sdk_go.Prelude.{
  ◌≡◌, ◌↔◌, ◌⊎◌, inl, inr, List, [], ◌∷◌, none, some, Str, Map, lookup, insert, lookup-insert,
  Distinct, insert-Distinct, Member_of_lookup, lookup_of_Member, Member, All, All-Member,
  Option-cases, arith, sym, subst, ap,
}
use atol_sdk_go.Zanzibar.Model.Types.{Tuple}
use atol_sdk_go.Zanzibar.Model.Keys.{tuple_key, IsClean, tuple_key_injective}
use atol_sdk_go.Zanzibar.Store.Replace.{
  add_to_set, tuple_set, only_in, insert_by_key, sort_by_key, replacement_diff,
}

Member-insert_by_key :
    (u t : Tuple) (us : List Tuple) → Member u (insert_by_key t us) ↔ ((u ≡ t) ⊎ Member u us)
unfolding insert_by_key
Member-insert_by_key u t [] = ground arith
Member-insert_by_key u t (v ∷ us) = ground (arith, Member-insert_by_key u t us)

Member-sort_by_key : (u : Tuple) (ts : List Tuple) → Member u (sort_by_key ts) ↔ Member u ts
unfolding sort_by_key
Member-sort_by_key u [] = ground arith
Member-sort_by_key u (t ∷ ts) =
    ground (arith, Member-insert_by_key u t (sort_by_key ts), Member-sort_by_key u ts)

add_to_set-Distinct : (ts : List Tuple) (m : Map Tuple) → Distinct m → Distinct (add_to_set ts m)
unfolding add_to_set
add_to_set-Distinct [] m d = d
add_to_set-Distinct (t ∷ ts) m d =
    add_to_set-Distinct ts (insert (tuple_key t) t m) (insert-Distinct (tuple_key t) t m d)

add_to_set-origin :
    (ts : List Tuple) (m : Map Tuple) (k : Str) (v : Tuple)
    → lookup k (add_to_set ts m) ≡ some v
    → ((k ≡ tuple_key v) × Member v ts) ⊎ (lookup k m ≡ some v)
unfolding add_to_set
add_to_set-origin [] m k v e = inr e
add_to_set-origin (t ∷ ts) m k v e = elim (add_to_set-origin ts (insert (tuple_key t) t m) k v e) [
  | inl (here, later) ↦ inl (here, inr later)
  | inr old ↦ ground (arith, lookup-insert (tuple_key t) k t m)
]

add_to_set-has :
    (ts : List Tuple) (m : Map Tuple) (u : Tuple)
    → All IsClean ts
    → IsClean u
    → Member u ts ⊎ (lookup (tuple_key u) m ≡ some u)
    → lookup (tuple_key u) (add_to_set ts m) ≡ some u
unfolding add_to_set
add_to_set-has [] m u c d (inl h) = absurd h
add_to_set-has [] m u c d (inr e) = e
add_to_set-has (t ∷ ts) m u c d h = add_to_set-has ts (insert (tuple_key t) t m) u c.1 d (
    ground (arith, lookup-insert (tuple_key t) (tuple_key u) t m, tuple_key_injective t u c.0 d, h))

-- The set of a list of clean tuples has exactly these under their keys.
tuple_set_iff :
    (ts : List Tuple) (u : Tuple)
    → All IsClean ts
    → IsClean u
    → (lookup (tuple_key u) (tuple_set ts) ≡ none) ↔ (¬ Member u ts)
unfolding lookup
tuple_set_iff ts u c d = (
  λ e m. absurd (ground (arith, add_to_set-has ts [] u c d (inl m))),
  λ h. elim (Option-cases (lookup (tuple_key u) (tuple_set ts))) [
    | inl e ↦ e
    | inr (v, e) ↦ elim (add_to_set-origin ts [] (tuple_key u) v e) [
      | inr old ↦ absurd (ground arith)
      | inl (same, m) ↦ absurd (
          h (
            subst (λ x. Member x ts)
              (tuple_key_injective v u (All-Member IsClean ts v c m) d (sym same)) m))
    ]
  ],
)

only_in_missing :
    (j : Str) (v : Tuple) (m other : Map Tuple)
    → lookup j other ≡ none
    → only_in ((j, v) ∷ m) other ≡ v ∷ only_in m other
unfolding only_in
only_in_missing j v m other h = ground arith

only_in_found :
    (j : Str) (v w : Tuple) (m other : Map Tuple)
    → lookup j other ≡ some w
    → only_in ((j, v) ∷ m) other ≡ only_in m other
unfolding only_in
only_in_found j v w m other h = ground arith

-- Whether a clean tuple is among clean tuples is decided by their keys.
pub Member-cases :
    (ts : List Tuple) (t : Tuple) → All IsClean ts → IsClean t → Member t ts ⊎ (¬ Member t ts)
unfolding lookup
Member-cases ts t c d = elim (Option-cases (lookup (tuple_key t) (tuple_set ts))) [
  | inl e ↦ inr ((tuple_set_iff ts t c d).0 e)
  | inr (v, e) ↦ elim (add_to_set-origin ts [] (tuple_key t) v e) [
    | inr old ↦ absurd (ground arith)
    | inl (same, m) ↦ inl (
        subst (λ x. Member x ts)
          (tuple_key_injective v t (All-Member IsClean ts v c m) d (sym same)) m)
  ]
]

abbrev OnlyIn : Str → Tuple → Map Tuple → Map Tuple → Tuple → List Tuple → Type 0
OnlyIn j v m other t xs =
    Member t xs ↔ ((k : Str) × Member (k, t) ((j, v) ∷ m) × (lookup k other ≡ none))

only_in_iff :
    (m other : Map Tuple) (t : Tuple)
    → Member t (only_in m other) ↔ ((k : Str) × Member (k, t) m × (lookup k other ≡ none))
unfolding only_in
only_in_iff [] other t = (λ h. absurd h, λ (k, h, e). absurd h)
only_in_iff ((j, v) ∷ m) other t = elim (Option-cases (lookup j other)) [
  | inl missing ↦ subst (OnlyIn j v m other t) (sym (only_in_missing j v m other missing)) (
      (
        λ h. elim h [
          | inl e ↦ (j, inl (ap (λ x. (j, x)) e), missing)
          | inr later ↦ let (k, mem, gone) = (only_in_iff m other t).0 later in (k, inr mem, gone)
        ],
        λ (k, mem, gone). elim mem [
          | inl e ↦ inl (ap (λ x. x.1) e)
          | inr later ↦ inr ((only_in_iff m other t).1 (k, later, gone))
        ],
      ))
  | inr (w, found) ↦ subst (OnlyIn j v m other t) (sym (only_in_found j v w m other found)) (
      (
        λ h. let (k, mem, gone) = (only_in_iff m other t).0 h in (k, inr mem, gone),
        λ (k, mem, gone). elim mem [
          | inl e ↦ absurd (ground (arith, ap (λ x. x.0) e))
          | inr later ↦ (only_in_iff m other t).1 (k, later, gone)
        ],
      ))
]

pub only_in-tuple_set :
    (ts us : List Tuple) (t : Tuple)
    → All IsClean ts
    → All IsClean us
    → Member t (only_in (tuple_set ts) (tuple_set us)) ↔ (Member t ts × (¬ Member t us))
unfolding lookup
only_in-tuple_set ts us t c d = (
  λ h.
      let (k, mem, gone) = (only_in_iff (tuple_set ts) (tuple_set us) t).0 h in
      let e = lookup_of_Member k t (tuple_set ts) distinct mem in
      elim (add_to_set-origin ts [] k t e) [
        | inr old ↦ absurd (ground arith)
        | inl (here, m) ↦ (
          m,
          (tuple_set_iff us t d (All-Member IsClean ts t c m)).0
              (subst (λ x. lookup x (tuple_set us) ≡ none) here gone),
        )
      ],
  λ (m, outside).
      let clean = All-Member IsClean ts t c m in
      let e = add_to_set-has ts [] t c clean (inl m) in
      (only_in_iff (tuple_set ts) (tuple_set us) t).1 (
        tuple_key t,
        Member_of_lookup (tuple_key t) t (tuple_set ts) e,
        (tuple_set_iff us t d clean).1 outside,
      ),
)
  where
    distinct : Distinct (tuple_set ts)
    distinct = add_to_set-Distinct ts [] tt

-- The diff of clean tuples: the replacements that are not current are written, and the current
-- tuples that are not replacements are deleted.
pub replacement_diff_iff :
    (current replacements : List Tuple) (t : Tuple)
    → All IsClean current
    → All IsClean replacements
    → (Member t (replacement_diff current replacements).0
        ↔ (Member t replacements × (¬ Member t current)))
      × (Member t (replacement_diff current replacements).1
          ↔ (Member t current × (¬ Member t replacements)))
unfolding replacement_diff
replacement_diff_iff current replacements t c d = (
  ground (
    arith,
    Member-sort_by_key t (only_in (tuple_set replacements) (tuple_set current)),
    only_in-tuple_set replacements current t d c,
  ),
  ground (
    arith,
    Member-sort_by_key t (only_in (tuple_set current) (tuple_set replacements)),
    only_in-tuple_set current replacements t c d,
  ),
)
