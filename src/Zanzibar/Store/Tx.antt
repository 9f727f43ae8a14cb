-- ===== src/Zanzibar/Store/Tx.antt =====
-- WriteTx of MemoryStore: what is stored after all writes and then all deletes
-- (zanzibar/store/memory.go).
use atol_sdk_go.Prelude.{
  true, ◌≡◌, ◌≢◌, ◌↔◌, ◌⊎◌, inl, inr, List, [], ◌∷◌, Member, All, Bool-cases, arith, sym, subst, ap,
}
use atol_sdk_go.Zanzibar.Model.Types.{Tuple}
use atol_sdk_go.Zanzibar.Model.Keys.{IsClean, tuple_key_injective}
use atol_sdk_go.Zanzibar.Store.Memory.{
  MemoryStore, write_locked, delete_locked, write_all, delete_all, write_tx,
}
use atol_sdk_go.Zanzibar.Store.Index.{Holds, same_keys, find-write, find-delete}
use atol_sdk_go.Zanzibar.Store.Runs.{IsSound, write-IsSound, delete-IsSound}

same_keys-eq : (t u : Tuple) → IsClean t → IsClean u → same_keys t u ≡ true → t ≡ u
same_keys-eq t u c d e = tuple_key_injective t u c d (ground arith)

same_keys_refl : (t : Tuple) → same_keys t t ≡ true
same_keys_refl t = ground arith

-- After a write exactly the written tuple is stored besides what was.
pub Holds-write :
    (t u : Tuple) (s : MemoryStore)
    → IsSound s
    → IsClean t
    → Holds (write_locked t s) u ↔ ((u ≡ t) ⊎ Holds s u)
Holds-write t u s h c = (
  λ held. elim (Bool-cases (same_keys t u)) [
    | inl same ↦ inl (ground (arith, find-write t u s))
    | inr other ↦ inr (ground (arith, find-write t u s))
  ],
  λ either. elim either [
    | inl e ↦
        subst (λ x. Holds (write_locked t s) x) (sym e)
          (ground (arith, find-write t t s, same_keys_refl t))
    | inr held ↦ elim (Bool-cases (same_keys t u)) [
      | inl same ↦
          subst (λ x. Holds (write_locked t s) x) (same_keys-eq t u c (h.clean u held) same)
            (ground (arith, find-write t t s, same_keys_refl t))
      | inr other ↦ ground (arith, find-write t u s)
    ]
  ],
)

-- After a delete exactly the deleted tuple is gone.
pub Holds-delete :
    (t u : Tuple) (s : MemoryStore)
    → IsSound s
    → IsClean t
    → Holds (delete_locked t s) u ↔ (Holds s u × (u ≢ t))
Holds-delete t u s h c = (
  λ held. elim (Bool-cases (same_keys t u)) [
    | inl same ↦ absurd (ground (arith, find-delete t u s))
    | inr other ↦
        (ground (arith, find-delete t u s), λ e. cc (ap (same_keys t) e, same_keys_refl t, other))
  ],
  λ (held, differs). elim (Bool-cases (same_keys t u)) [
    | inl same ↦ absurd (differs (sym (same_keys-eq t u c (h.clean u held) same)))
    | inr other ↦ ground (arith, find-delete t u s)
  ],
)

pub write_all-IsSound :
    (ts : List Tuple) (s : MemoryStore) → All IsClean ts → IsSound s → IsSound (write_all ts s)
unfolding write_all
write_all-IsSound [] s c h = h
write_all-IsSound (t ∷ ts) s c h =
    write_all-IsSound ts (write_locked t s) c.1 (write-IsSound t s c.0 h)

pub Holds-write_all :
    (ts : List Tuple) (u : Tuple) (s : MemoryStore)
    → All IsClean ts
    → IsSound s
    → Holds (write_all ts s) u ↔ (Member u ts ⊎ Holds s u)
unfolding write_all
Holds-write_all [] u s c h = (λ held. inr held, λ e. ground arith)
Holds-write_all (t ∷ ts) u s c h =
    let rest = Holds-write_all ts u (write_locked t s) c.1 (write-IsSound t s c.0 h) in
    let first = Holds-write t u s h c.0 in ground (arith, rest, first)

pub Holds-delete_all :
    (ts : List Tuple) (u : Tuple) (s : MemoryStore)
    → All IsClean ts
    → IsSound s
    → Holds (delete_all ts s) u ↔ (Holds s u × (¬ Member u ts))
unfolding delete_all
Holds-delete_all [] u s c h = ground arith
Holds-delete_all (t ∷ ts) u s c h =
    let rest = Holds-delete_all ts u (delete_locked t s) c.1 (delete-IsSound t s h) in
    let first = Holds-delete t u s h c.0 in ground (arith, rest, first)

-- WriteTx on a sound store, with clean writes and deletes: a tuple is stored afterwards exactly
-- when it was written or already stored, and is not among the deletes, which win.
pub Holds-write_tx :
    (writes deletes : List Tuple) (u : Tuple) (s : MemoryStore)
    → All IsClean writes
    → All IsClean deletes
    → IsSound s
    → Holds (write_tx writes deletes s) u ↔ ((Member u writes ⊎ Holds s u) × (¬ Member u deletes))
unfolding write_tx
Holds-write_tx ws ds u s cw cd h =
    let after = Holds-delete_all ds u (write_all ws s) cd (write_all-IsSound ws s cw h) in
    let before = Holds-write_all ws u s cw h in ground (arith, after, before)
