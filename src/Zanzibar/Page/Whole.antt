-- ===== src/Zanzibar/Page/Whole.antt =====
-- Following the cursors of ReadPage to the end (zanzibar/store/memory.go).
use atol_sdk_go.Prelude.{
  take-drop, length-drop, append_nil, ℕ, zero, suc, ◌+◌, ◌≤◌, ◌<◌, pos, Bool, true, ◌≡◌, ◌≢◌, refl,
  inl, inr, ◌↔◌, List, [], ◌∷◌, ◌++◌, length, length-filter, take, filter, Member, Option, none,
  some, Str, str_dec, ◌==◌, ok, err, if◌then◌else◌, arith, sym, ap, subst, ◌∙◌,
}
use atol_sdk_go.Zanzibar.Model.Types.{Tuple, TupleFilter, matches_filter}
use atol_sdk_go.Zanzibar.Store.Memory.{MemoryStore, scan, scan_materialized}
use atol_sdk_go.Zanzibar.Store.Index.{Holds, IsFiled}
use atol_sdk_go.Zanzibar.Store.Reads.{scan_iff}
use atol_sdk_go.Zanzibar.Page.Cursor.{CursorCodec, max_tuple_page_size, IsPrinted}
use atol_sdk_go.Zanzibar.Page.Read.{cursor_tuple, insert_tuple, read_page}
use atol_sdk_go.Zanzibar.Page.Sorted.{sort_tuples, follows, length-insert_tuple}
use atol_sdk_go.Zanzibar.Page.Strict.{NoDup, Strict}
use atol_sdk_go.Zanzibar.Page.Next.{remaining, remaining-Strict, Member-remaining}
use atol_sdk_go.Zanzibar.Page.Scan.{candidates, IsScannable, page_in_lem}
use atol_sdk_go.Zanzibar.Page.Distinct.{filed-NoDup}

length-sort_tuples :
    (ts sorted : List Tuple) → length (sort_tuples ts sorted) ≡ length ts + length sorted
unfolding sort_tuples
length-sort_tuples [] sorted = omega arith
length-sort_tuples (t ∷ ts) sorted =
    omega (arith, length-sort_tuples ts (insert_tuple t sorted), length-insert_tuple t sorted)

-- What is left is no more than all.
pub length-remaining :
    (cands : List Tuple) (after : Option Tuple) → length (remaining cands after) ≤ length cands
length-remaining cands after = omega (
  arith,
  length-sort_tuples (filter (follows after) cands) [],
  length-filter (follows after) cands,
)

module _ (codec : CursorCodec) (f : TupleFilter) (s : MemoryStore) (limit : ℕ) where
  -- A caller that follows the cursors to the end; `none` is an error or the end of the fuel.
  unfoldable pub all_pages : ℕ → Str → Option (List Tuple)
  all_pages zero cursor = none
  all_pages (suc fuel) cursor = elim (read_page codec f cursor (pos limit) s) [
    | err e ↦ none
    | ok (page, next) ↦
        let rest = all_pages fuel next in
        if next == [] then some page else elim rest [ none ↦ none | some ts ↦ some (page ++ ts) ]
  ]

  abbrev pub matching : List Tuple
  matching = candidates (λ t. matches_filter t f) s

  all_pages_last :
      (fuel : ℕ) (cursor : Str) (page : List Tuple)
      → read_page codec f cursor (pos limit) s ≡ ok (page, [])
      → all_pages (suc fuel) cursor ≡ some page
  unfolding all_pages
  all_pages_last fuel cursor page e = ground (arith, e)

  all_pages_more :
      (fuel : ℕ) (cursor next : Str) (page others : List Tuple)
      → read_page codec f cursor (pos limit) s ≡ ok (page, next)
      → next ≢ []
      → all_pages fuel next ≡ some others
      → all_pages (suc fuel) cursor ≡ some (page ++ others)
  unfolding all_pages
  all_pages_more fuel cursor next page others e full rest = ground (arith, e, full, rest)

  pub all_pages_lem :
      (fuel : ℕ) (cursor : Str) (after : Option Tuple)
      → IsScannable codec [] (λ t. matches_filter t f) f s
      → 1 ≤ limit
      → limit ≤ max_tuple_page_size
      → cursor_tuple codec cursor [] f ≡ ok after
      → length (remaining matching after) < fuel
      → all_pages fuel cursor ≡ some (remaining matching after)
  unfolding read_page
  all_pages_lem zero cursor after h low high at enough = absurd (omega arith)
  all_pages_lem (suc fuel) cursor after h low high at enough =
      elim (page_in_lem codec [] (λ t. matches_filter t f) f s cursor limit after h low high at) [
        | inl (fits, e) ↦ all_pages_last fuel cursor (remaining matching after) e
        | inr (last, next, more, e, full, at', goes_on) ↦
            let left = remaining matching after in
            let rest =
              all_pages_lem fuel next (some last) h low high at'
                (omega (arith, ap length goes_on, length-drop limit left)) in
            all_pages_more fuel cursor next (take limit left) (remaining matching (some last)) e
              full rest
            ∙ ap (λ ts. some (take limit left ++ ts)) goes_on
            ∙ ap some (take-drop limit left)
      ]

  -- Without materialized tuples, the candidates of a page are those of the index.
  plain : s.materialized ≡ [] → matching ≡ scan (λ t. matches_filter t f) s.by_object_relation
  unfolding scan_materialized
  plain none_else =
      ap (λ m. scan kept s.by_object_relation ++ scan_materialized kept m) none_else
      ∙ append_nil (scan kept s.by_object_relation)
    where
      kept : Tuple → Bool
      kept t = matches_filter t f

  pub Member-matching :
      (t : Tuple)
      → IsFiled s.by_object_relation
      → s.materialized ≡ []
      → Member t matching ↔ (Holds s t × (matches_filter t f ≡ true))
  Member-matching t filed none_else =
      let (to, from) = scan_iff (λ u. matches_filter u f) s t filed in
      (
        λ m. to (subst (Member t) (plain none_else) m),
        λ h. subst (Member t) (sym (plain none_else)) (from h),
      )

  pub matching-NoDup : IsFiled s.by_object_relation → s.materialized ≡ [] → NoDup matching
  matching-NoDup filed none_else =
      subst NoDup (sym (plain none_else))
        (filed-NoDup (λ t. matches_filter t f) s.by_object_relation filed)

  pub matching-IsScannable :
      IsFiled s.by_object_relation
      → s.materialized ≡ []
      → ((t : Tuple) → Member t matching → IsPrinted codec [] f t)
      → IsScannable codec [] (λ t. matches_filter t f) f s
  matching-IsScannable filed none_else printed = record {
    distinct = matching-NoDup filed none_else;
    matching = λ t m. ((Member-matching t filed none_else).0 m).1;
    printed = printed;
  }

  -- Following the cursors of ReadPage from the first page ends, within one more page than there are
  -- matching tuples, and delivers each stored tuple that matches the filter once, in the order
  -- TupleLess, where the limit is in range, the index is well filed, nothing is materialized, and the
  -- cursor of each matching tuple can be read back.
  pub pages_deliver :
      IsFiled s.by_object_relation
      → s.materialized ≡ []
      → ((t : Tuple) → Member t matching → IsPrinted codec [] f t)
      → 1 ≤ limit
      → limit ≤ max_tuple_page_size
      → (all : List Tuple) × (all_pages (suc (length matching)) [] ≡ some all)
        × Strict all
        × ((t : Tuple) → Member t all ↔ (Holds s t × (matches_filter t f ≡ true)))
  unfolding cursor_tuple str_dec
  pages_deliver filed none_else printed low high =
      let once = matching-NoDup filed none_else in
      (
        remaining matching none,
        all_pages_lem (suc (length matching)) [] none (matching-IsScannable filed none_else printed)
            low high refl (omega (arith, length-remaining matching none)),
        remaining-Strict matching once none,
        λ t.
            ground
              (arith, Member-remaining matching once none t, Member-matching t filed none_else),
      )
