-- ===== src/Zanzibar/Store/Index.antt =====
-- The primary index of MemoryStore: which tuples are stored, and the invariant that files each
-- tuple under its own keys (zanzibar/store/memory.go, writeLocked and deleteLocked).
use atol_sdk_go.Prelude.{
  Bool, ◌≡◌, ◌≢◌, ◌⊎◌, inl, inr, ◌&&◌, [], ◌∷◌, Option, none, some, Str, ◌==◌, Map, lookup, insert,
  remove, lookup-insert, lookup-remove, Distinct, insert-Distinct, remove-Distinct, Option-cases,
  if◌then◌else◌, arith,
}
use atol_sdk_go.Zanzibar.Model.Types.{Tuple}
use atol_sdk_go.Zanzibar.Model.Keys.{tuple_key}
use atol_sdk_go.Zanzibar.Store.Memory.{
  MemoryStore, bucket_key, inner, prune, remove_inner, write_locked, delete_locked,
}

-- What the index has under the keys of a tuple.
abbrev pub find : Tuple → MemoryStore → Option Tuple
find t s = lookup (tuple_key t) (inner (bucket_key t) s.by_object_relation)

-- The tuple is in the index.
abbrev pub Holds : MemoryStore → Tuple → Type 0
Holds s t = find t s ≡ some t

-- Two tuples share both keys.
abbrev pub same_keys : Tuple → Tuple → Bool
same_keys t u = bucket_key t == bucket_key u && tuple_key t == tuple_key u

module _ {V : Type 0} where
  inner-prune :
      (k i : Str) (b : Map V) (m : Map (Map V))
      → inner i (prune k b m) ≡ (if k == i then b else inner i m)
  inner-prune k i [] m = ground (arith, lookup-remove k i m)
  inner-prune k i (e ∷ b) m = ground (arith, lookup-insert k i (e ∷ b) m)

  pub inner-remove_inner :
      (k j i : Str) (m : Map (Map V))
      → inner i (remove_inner k j m) ≡ (if k == i then remove j (inner i m) else inner i m)
  unfolding remove_inner remove
  inner-remove_inner k j i m = elim (Option-cases (lookup k m)) [
    | inl e ↦ ground arith
    | inr (b, e) ↦ ground (arith, inner-prune k i (remove j b) m)
  ]

-- The buckets after a write.
pub inner-write :
    (t : Tuple) (k : Str) (s : MemoryStore)
    → inner k (write_locked t s).by_object_relation ≡ (
        if bucket_key t == k
        then insert (tuple_key t) t (inner (bucket_key t) s.by_object_relation)
        else inner k s.by_object_relation)
unfolding write_locked
inner-write t k s = ground (
  arith,
  lookup-insert (bucket_key t) k
      (insert (tuple_key t) t (inner (bucket_key t) s.by_object_relation)) s.by_object_relation,
)

-- Writing stores the tuple under its keys and leaves every other tuple alone.
pub find-write :
    (t u : Tuple) (s : MemoryStore)
    → find u (write_locked t s) ≡ (if same_keys t u then some t else find u s)
unfolding write_locked
find-write t u s = ground (
  arith,
  lookup-insert (bucket_key t) (bucket_key u)
      (insert (tuple_key t) t (inner (bucket_key t) s.by_object_relation)) s.by_object_relation,
  lookup-insert (tuple_key t) (tuple_key u) t (inner (bucket_key t) s.by_object_relation),
)

-- Deleting removes the tuple under its keys and leaves every other tuple alone.
pub find-delete :
    (t u : Tuple) (s : MemoryStore)
    → find u (delete_locked t s) ≡ (if same_keys t u then none else find u s)
unfolding delete_locked
find-delete t u s = ground (
  arith,
  inner-remove_inner (bucket_key t) (tuple_key t) (bucket_key u) s.by_object_relation,
  lookup-remove (tuple_key t) (tuple_key u) (inner (bucket_key u) s.by_object_relation),
)

-- Every bucket is non-empty and has each key once, and every tuple stands under its own keys.
pub record IsFiled (m : Map (Map Tuple)) : Type 0 where
  pub distinct : Distinct m
  pub buckets : (k : Str) (b : Map Tuple) → lookup k m ≡ some b → Distinct b × (b ≢ [])
  pub filed :
      (k j : Str) (b : Map Tuple) (t : Tuple)
      → lookup k m ≡ some b
      → lookup j b ≡ some t
      → (bucket_key t ≡ k) × (tuple_key t ≡ j)

pub empty-IsFiled : IsFiled []
unfolding lookup
empty-IsFiled = record {
  distinct = tt;
  buckets = λ k b e. absurd (ground arith);
  filed = λ k j b t e _. absurd (ground arith);
}

insert-ne-nil : {V : Type 0} (k : Str) (v : V) (m : Map V) → insert k v m ≢ []
unfolding insert
insert-ne-nil k v [] e = cc
insert-ne-nil k v ((j, w) ∷ m) e = ground arith

pub inner-Distinct : (m : Map (Map Tuple)) (k : Str) → IsFiled m → Distinct (inner k m)
inner-Distinct m k h = elim (Option-cases (lookup k m)) [
  | inl e ↦ rw (e, inner) tt
  | inr (b, e) ↦ rw (e, inner) (h.buckets k b e).0
]

inner-filed :
    (m : Map (Map Tuple)) (k j : Str) (t : Tuple)
    → IsFiled m
    → lookup j (inner k m) ≡ some t
    → (bucket_key t ≡ k) × (tuple_key t ≡ j)
inner-filed m k j t h e = elim (Option-cases (lookup k m)) [
  | inl miss ↦ unfold lookup in absurd (ground arith)
  | inr (b, found) ↦ h.filed k j b t found (ground arith)
]

-- Writing keeps the index well filed.
pub write-IsFiled :
    (t : Tuple) (s : MemoryStore)
    → IsFiled s.by_object_relation
    → IsFiled (write_locked t s).by_object_relation
unfolding write_locked
write-IsFiled t s h =
    let k = bucket_key t in
    let old = inner k s.by_object_relation in
    let new = insert (tuple_key t) t old in
    record {
      distinct = insert-Distinct k new s.by_object_relation h.distinct;
      buckets = λ i b e. ground (
        arith,
        lookup-insert k i new s.by_object_relation,
        insert-Distinct (tuple_key t) t old (inner-Distinct s.by_object_relation k h),
        insert-ne-nil (tuple_key t) t old,
        h.buckets i b,
      );
      filed = λ i j b u e f. ground (
        arith,
        lookup-insert k i new s.by_object_relation,
        lookup-insert (tuple_key t) j t old,
        inner-filed s.by_object_relation k j u h,
        h.filed i j b u,
      );
    }

lookup-prune :
    (k i : Str) (rest b : Map Tuple) (m : Map (Map Tuple))
    → lookup i (prune k rest m) ≡ some b
    → (lookup i m ≡ some b) ⊎ (k ≡ i) × (b ≢ []) × (b ≡ rest)
lookup-prune k i [] b m e = ground (arith, lookup-remove k i m)
lookup-prune k i (x ∷ xs) b m e = ground (arith, lookup-insert k i (x ∷ xs) m)

prune-Distinct :
    (k : Str) (rest : Map Tuple) (m : Map (Map Tuple)) → Distinct m → Distinct (prune k rest m)
prune-Distinct k [] m h = remove-Distinct k m h
prune-Distinct k (x ∷ xs) m h = insert-Distinct k (x ∷ xs) m h

-- A bucket after a deletion is an old one, or what the deletion leaves of an old one.
lookup-remove_inner :
    (k j i : Str) (b : Map Tuple) (m : Map (Map Tuple))
    → lookup i (remove_inner k j m) ≡ some b
    → (lookup i m ≡ some b)
      ⊎ (old : Map Tuple) × (lookup i m ≡ some old) × (b ≢ []) × (b ≡ remove j old)
unfolding remove_inner
lookup-remove_inner k j i b m e = elim (Option-cases (lookup k m)) [
  | inl miss ↦ inl (ground arith)
  | inr (old, found) ↦ elim (lookup-prune k i (remove j old) b m (ground arith)) [
    | inl same ↦ inl same
    | inr (here, full, left) ↦ inr (old, ground arith, full, left)
  ]
]

remove_inner-Distinct :
    (k j : Str) (m : Map (Map Tuple)) → Distinct m → Distinct (remove_inner k j m)
unfolding remove_inner
remove_inner-Distinct k j m h = elim (Option-cases (lookup k m)) [
  | inl miss ↦ ground arith
  | inr (old, found) ↦ ground (arith, prune-Distinct k (remove j old) m h)
]

-- Deleting keeps the index well filed.
pub delete-IsFiled :
    (t : Tuple) (s : MemoryStore)
    → IsFiled s.by_object_relation
    → IsFiled (delete_locked t s).by_object_relation
unfolding delete_locked
delete-IsFiled t s h = record {
  distinct = remove_inner-Distinct (bucket_key t) (tuple_key t) s.by_object_relation h.distinct;
  buckets = λ i b e.
      elim (lookup-remove_inner (bucket_key t) (tuple_key t) i b s.by_object_relation e) [
        | inl same ↦ h.buckets i b same
        | inr (old, found, full, left) ↦
            (rw left (remove-Distinct (tuple_key t) old (h.buckets i old found).0), full)
      ];
  filed = λ i j b u e f.
      elim (lookup-remove_inner (bucket_key t) (tuple_key t) i b s.by_object_relation e) [
        | inl same ↦ h.filed i j b u same f
        | inr (old, found, full, left) ↦
            h.filed i j old u found (ground (arith, lookup-remove (tuple_key t) j old))
      ];
}

-- A tuple whose bucket is missing is not held.
pub missing-not_Holds :
    (t : Tuple) (s : MemoryStore) → lookup (bucket_key t) s.by_object_relation ≡ none → ¬ Holds s t
unfolding lookup
missing-not_Holds t s miss e = ground arith

-- What is found under the keys of a tuple is filed under those keys.
pub find-filed :
    (t u : Tuple) (s : MemoryStore)
    → IsFiled s.by_object_relation
    → find t s ≡ some u
    → (bucket_key u ≡ bucket_key t) × (tuple_key u ≡ tuple_key t)
find-filed t u s h e = inner-filed s.by_object_relation (bucket_key t) (tuple_key t) u h e

pub find-Holds :
    (t u : Tuple) (s : MemoryStore) → IsFiled s.by_object_relation → find t s ≡ some u → Holds s u
find-Holds t u s h e = ground (arith, find-filed t u s h e)
