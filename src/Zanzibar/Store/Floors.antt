-- ===== src/Zanzibar/Store/Floors.antt =====
-- The minimum-holder floor: DeleteIfAbove and the count of direct holders
-- (zanzibar/store/memory.go).
use atol_sdk_go.Prelude.{
  ℕ, ◌+◌, ◌≤◌, ◌<◌, ◌≡◌, refl, ◌≢◌, ◌⊎◌, inl, inr, [], ◌∷◌, none, some, Str, ◌==◌, Map, lookup,
  insert, remove, Distinct, Option-cases, if◌then◌else◌, arith,
}
use atol_sdk_go.Zanzibar.Model.Types.{Tuple}
use atol_sdk_go.Zanzibar.Model.Keys.{object_relation_key, tuple_key}
use atol_sdk_go.Zanzibar.Store.Memory.{
  MemoryStore, bucket_key, inner, values, count_direct, direct_holders_locked, last_holder,
  delete_locked, delete_if_above, write_locked,
}
use atol_sdk_go.Zanzibar.Store.Index.{
  find, IsFiled, inner-Distinct, inner-remove_inner, inner-write,
}

-- The direct holders of the object and relation of a tuple.
abbrev pub holders : Tuple → MemoryStore → ℕ
holders t s = direct_holders_locked t.object_type t.object_id t.relation s

direct_holders-inner :
    (a b c : Str) (s : MemoryStore)
    → direct_holders_locked a b c s
      ≡ count_direct (values (inner (object_relation_key a b c) s.by_object_relation))
unfolding direct_holders_locked
direct_holders-inner a b c s = ground arith

-- What one tuple adds to the count.
abbrev weight : Tuple → ℕ
weight t = if t.user_relation == [] then 1 else 0

remove_absent : (j : Str) (b : Map Tuple) → lookup j b ≡ none → remove j b ≡ b
unfolding lookup remove
remove_absent j [] e = refl
remove_absent j ((i, u) ∷ b) e = ground (arith, remove_absent j b)

count-remove :
    (j : Str) (b : Map Tuple) (t : Tuple)
    → Distinct b
    → lookup j b ≡ some t
    → count_direct (values (remove j b)) + weight t ≡ count_direct (values b)
unfolding lookup remove
count-remove j [] t d e = absurd (ground arith)
count-remove j ((i, u) ∷ b) t d e = ground (arith, count-remove j b t d.1, remove_absent j b)

-- DeleteIfAbove on every branch: a tuple that is not stored is left alone with no error; at or
-- below the floor the error is ErrLastHolder and nothing changes; above it the tuple is deleted.
pub delete_if_above_lem :
    (t : Tuple) (min : ℕ) (s : MemoryStore)
    → ((find t s ≡ none) × (delete_if_above t min s ≡ (none, s)))
      ⊎ ((find t s ≢ none)
          × (holders t s ≤ min)
          × (delete_if_above t min s ≡ (some last_holder, s)))
      ⊎ ((find t s ≢ none)
          × (min < holders t s)
          × (delete_if_above t min s ≡ (none, delete_locked t s)))
unfolding delete_if_above lookup
delete_if_above_lem t min s = ground arith

-- The count after a deletion.
pub holders-delete :
    (t u : Tuple) (a b c : Str) (s : MemoryStore)
    → IsFiled s.by_object_relation
    → find t s ≡ some u
    → direct_holders_locked a b c (delete_locked t s)
        + (if bucket_key t == object_relation_key a b c then weight u else 0)
      ≡ direct_holders_locked a b c s
unfolding delete_locked
holders-delete t u a b c s h e =
    let k = object_relation_key a b c in
    ground (
      arith,
      direct_holders-inner a b c s,
      direct_holders-inner a b c (delete_locked t s),
      inner-remove_inner (bucket_key t) (tuple_key t) k s.by_object_relation,
      count-remove (tuple_key t) (inner k s.by_object_relation) u
          (inner-Distinct s.by_object_relation k h),
    )

-- On a well filed store DeleteIfAbove never takes the direct holders of an object and relation below
-- the floor: where they were at the floor or above, they still are, whichever tuple is deleted.
pub delete_if_above-keeps_floor :
    (t : Tuple) (min : ℕ) (a b c : Str) (s : MemoryStore)
    → IsFiled s.by_object_relation
    → min ≤ direct_holders_locked a b c s
    → min ≤ direct_holders_locked a b c (delete_if_above t min s).1
delete_if_above-keeps_floor t min a b c s h enough = elim (Option-cases (find t s)) [
  | inl miss ↦ ground (arith, delete_if_above_lem t min s)
  | inr (u, e) ↦ ground (
    arith,
    delete_if_above_lem t min s,
    holders-delete t u a b c s h e,
    direct_holders-inner a b c s,
    direct_holders-inner t.object_type t.object_id t.relation s,
  )
]

count-insert :
    (j : Str) (b : Map Tuple) (t : Tuple)
    → ((u : Tuple) → lookup j b ≡ some u → weight u ≤ weight t)
    → count_direct (values b) ≤ count_direct (values (insert j t b))
unfolding lookup insert
count-insert j [] t same = omega arith
count-insert j ((i, u) ∷ b) t same = ground (arith, count-insert j b t, same u)

-- Writing a tuple takes no holder away, unless it replaces a direct tuple by a userset one under
-- the same key.
pub holders-write :
    (t : Tuple) (a b c : Str) (s : MemoryStore)
    → ((u : Tuple) → find t s ≡ some u → u ≡ t)
    → direct_holders_locked a b c s ≤ direct_holders_locked a b c (write_locked t s)
holders-write t a b c s same = ground (
  arith,
  direct_holders-inner a b c s,
  direct_holders-inner a b c (write_locked t s),
  inner-write t (object_relation_key a b c) s,
  count-insert (tuple_key t) (inner (bucket_key t) s.by_object_relation) t
      (λ u e. rw (same u e) (omega arith)),
)

-- Deleting what is not stored changes no count.
pub holders-delete_absent :
    (t : Tuple) (a b c : Str) (s : MemoryStore)
    → find t s ≡ none
    → direct_holders_locked a b c (delete_locked t s) ≡ direct_holders_locked a b c s
unfolding delete_locked
holders-delete_absent t a b c s e =
    let k = object_relation_key a b c in
    ground (
      arith,
      direct_holders-inner a b c s,
      direct_holders-inner a b c (delete_locked t s),
      inner-remove_inner (bucket_key t) (tuple_key t) k s.by_object_relation,
      remove_absent (tuple_key t) (inner k s.by_object_relation),
    )
