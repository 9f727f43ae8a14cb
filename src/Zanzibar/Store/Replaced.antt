-- ===== src/Zanzibar/Store/Replaced.antt =====
-- ReplaceTx of MemoryStore (zanzibar/store/memory.go): what is stored afterwards.
use atol_sdk_go.Prelude.{
  false, ◌≡◌, ◌↔◌, ◌⊎◌, inl, inr, List, Option, none, some, Member, All, All-Member, All-of_Member,
  Option-cases, Bool-cases, ok, err, arith, sym, subst, ap,
}
use atol_sdk_go.Zanzibar.Model.Types.{Tuple, TupleFilter, matches_filter}
use atol_sdk_go.Zanzibar.Model.Keys.{IsClean}
use atol_sdk_go.Zanzibar.Store.Memory.{MemoryStore, StoreError, scan, write_all, delete_all}
use atol_sdk_go.Zanzibar.Store.Index.{Holds}
use atol_sdk_go.Zanzibar.Store.Reads.{scan_iff}
use atol_sdk_go.Zanzibar.Store.Runs.{IsSound}
use atol_sdk_go.Zanzibar.Store.Tx.{Holds-write_all, Holds-delete_all, write_all-IsSound}
use atol_sdk_go.Zanzibar.Store.Replace.{replacement_diff, TuplePrecommit, run_precommit, replace_tx}
use atol_sdk_go.Zanzibar.Store.Diff.{Member-cases, replacement_diff_iff}

-- The diff of a replacement against the stored tuples that match the filter.
abbrev pub replace_diff : TupleFilter → List Tuple → MemoryStore → List Tuple × List Tuple
replace_diff f replacements s =
    replacement_diff (scan (λ t. matches_filter t f) s.by_object_relation) replacements

replace_tx_refused :
    (f : TupleFilter) (replacements : List Tuple) (precommit : Option TuplePrecommit)
    (s : MemoryStore) (e : StoreError)
    → run_precommit precommit (replace_diff f replacements s) ≡ some e
    → replace_tx f replacements precommit s ≡ (err e, s)
unfolding replace_tx
replace_tx_refused f replacements precommit s e h = ground arith

replace_tx_passed :
    (f : TupleFilter) (replacements : List Tuple) (precommit : Option TuplePrecommit)
    (s : MemoryStore)
    → run_precommit precommit (replace_diff f replacements s) ≡ none
    → replace_tx f replacements precommit s ≡ (
      ok (replace_diff f replacements s),
      delete_all (replace_diff f replacements s).1 (write_all (replace_diff f replacements s).0 s),
    )
unfolding replace_tx
replace_tx_passed f replacements precommit s h = ground arith

replaced_iff :
    (f : TupleFilter) (replacements : List Tuple) (s : MemoryStore) (t : Tuple)
    → IsSound s
    → All IsClean replacements
    → Holds
        (delete_all
          (replace_diff f replacements s).1
          (write_all (replace_diff f replacements s).0 s))
        t
      ↔ (Member t replacements ⊎ (Holds s t × (matches_filter t f ≡ false)))
replaced_iff f replacements s t h c =
    let writes = (replace_diff f replacements s).0 in
    let deletes = (replace_diff f replacements s).1 in
    let deleted =
      Holds-delete_all deletes t (write_all writes s) deletes-IsClean
        (write_all-IsSound writes s writes-IsClean h) in
    let written = Holds-write_all writes t s writes-IsClean h in
    let (is_write, is_delete) = replacement_diff_iff current replacements t current-IsClean c in
    let is_current = scan_iff (λ v. matches_filter v f) s t h.filed in
    (
      λ after. elim (written.0 (deleted.0 after).0) [
        | inl m ↦ inl (is_write.0 m).0
        | inr held ↦ elim (Member-cases replacements t c (h.clean t held)) [
          | inl m ↦ inl m
          | inr outside ↦ elim (Bool-cases (matches_filter t f)) [
            | inl matching ↦
                absurd ((deleted.0 after).1 (is_delete.1 (is_current.1 (held, matching), outside)))
            | inr other ↦ inr (held, other)
          ]
        ]
      ],
      λ before. elim before [
        | inl m ↦ deleted.1 (
          elim (Member-cases current t current-IsClean (All-Member IsClean replacements t c m)) [
            | inl known ↦ written.1 (inr (is_current.0 known).0)
            | inr new ↦ written.1 (inl (is_write.1 (m, new)))
          ],
          λ gone. (is_delete.0 gone).1 m,
        )
        | inr (held, other) ↦ deleted.1 (
          written.1 (inr held),
          λ gone. absurd (ground (arith, (is_current.0 (is_delete.0 gone).0).1)),
        )
      ],
    )
  where
    current : List Tuple
    current = scan (λ u. matches_filter u f) s.by_object_relation

    current-IsClean : All IsClean current
    current-IsClean =
        All-of_Member IsClean current
          (λ u m. h.clean u ((scan_iff (λ v. matches_filter v f) s u h.filed).0 m).0)

    writes-IsClean : All IsClean (replace_diff f replacements s).0
    writes-IsClean = All-of_Member IsClean (replace_diff f replacements s).0 (λ u m.
        All-Member IsClean replacements u c
          ((replacement_diff_iff current replacements u current-IsClean c).0.0 m).0)

    deletes-IsClean : All IsClean (replace_diff f replacements s).1
    deletes-IsClean = All-of_Member IsClean (replace_diff f replacements s).1 (λ u m.
        All-Member IsClean current u current-IsClean
          ((replacement_diff_iff current replacements u current-IsClean c).1.0 m).0)

-- ReplaceTx on a sound store with clean replacements. Where the precommit refuses the diff of the
-- current tuples that match the filter, ReplaceTx returns its error and the store is as it was.
-- Otherwise it returns the diff, and exactly the replacements and the tuples that do not match the
-- filter are stored afterwards.
pub replace_tx_lem :
    (f : TupleFilter) (replacements : List Tuple) (precommit : Option TuplePrecommit)
    (s : MemoryStore)
    → IsSound s
    → All IsClean replacements
    → ((e : StoreError) × (run_precommit precommit (replace_diff f replacements s) ≡ some e)
        × (replace_tx f replacements precommit s ≡ (err e, s)))
      ⊎ ((run_precommit precommit (replace_diff f replacements s) ≡ none)
          × ((replace_tx f replacements precommit s).0 ≡ ok (replace_diff f replacements s))
          × ((t : Tuple)
              → Holds (replace_tx f replacements precommit s).1 t
                ↔ (Member t replacements ⊎ (Holds s t × (matches_filter t f ≡ false)))))
replace_tx_lem f replacements precommit s h c =
    elim (Option-cases (run_precommit precommit (replace_diff f replacements s))) [
      | inr (e, refused) ↦ inl (e, refused, replace_tx_refused f replacements precommit s e refused)
      | inl passed ↦
          let after = replace_tx_passed f replacements precommit s passed in
          inr (
            passed,
            ap (λ x. x.0) after,
            λ t.
                subst
                  (λ x.
                    Holds x t
                    ↔ (Member t replacements ⊎ (Holds s t × (matches_filter t f ≡ false))))
                  (ap (λ x. x.1) (sym after)) (replaced_iff f replacements s t h c),
          )
    ]
