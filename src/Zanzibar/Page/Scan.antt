-- ===== src/Zanzibar/Page/Scan.antt =====
-- The scan of all pages (zanzibar/store/memory.go, ReadPage, as boundedTupleExists and CanDeleteBounded of
-- zanzibar/relationships.go follow its cursors).
use atol_sdk_go.Prelude.{
  drop, ℕ, zero, suc, ◌+◌, ◌≤◌, ◌<◌, pos, Bool, true, ◌≡◌, ◌≢◌, refl, ◌⊎◌, inl, inr, List, [], ◌∷◌,
  ◌++◌, length, take, Member, Option, some, Str, ok, arith, ap, ◌∙◌,
}
use native.Mathlib.Decide.{dec_lt}
use atol_sdk_go.Zanzibar.Model.Types.{Tuple, TupleFilter, matches_filter}
use atol_sdk_go.Zanzibar.Store.Memory.{MemoryStore, scan, scan_materialized}
use atol_sdk_go.Zanzibar.Page.Cursor.{
  CursorCodec, max_tuple_page_size, validate_tuple_page_limit, IsPrinted, decode-encode,
}
use atol_sdk_go.Zanzibar.Page.Read.{insert_all, cursor_tuple, cut_page, page_in}
use atol_sdk_go.Zanzibar.Page.Sorted.{take-take, take_short, insert_all-sort_tuples}
use atol_sdk_go.Zanzibar.Page.Strict.{NoDup}
use atol_sdk_go.Zanzibar.Page.Next.{remaining, remaining_next}

length-take_long : (n : ℕ) (xs : List Tuple) → n ≤ length xs → length (take n xs) ≡ n
length-take_long zero xs h = refl
length-take_long (suc n) [] h = absurd (omega arith)
length-take_long (suc n) (x ∷ xs) h = omega (arith, length-take_long n xs)

-- The tuples that a page method goes through.
abbrev pub candidates : (Tuple → Bool) → MemoryStore → List Tuple
candidates keep s = scan keep s.by_object_relation ++ scan_materialized keep s.materialized

module _ (codec : CursorCodec) (scope : Str) (keep : Tuple → Bool) (f : TupleFilter)
    (s : MemoryStore) where
  -- A page scan can go on: no tuple comes twice, each matches the filter, and its cursor can be read.
  pub record IsScannable : Type 0 where
    pub distinct : NoDup (candidates keep s)
    pub matching : (t : Tuple) → Member t (candidates keep s) → matches_filter t f ≡ true
    pub printed : (t : Tuple) → Member t (candidates keep s) → IsPrinted codec scope f t

  -- The page at a cursor: all that is left, and no cursor; or the first tuples of what is left, with
  -- the cursor at which the others are left.
  pub page_in_lem :
      (cursor : Str) (n : ℕ) (after : Option Tuple)
      → IsScannable
      → 1 ≤ n
      → n ≤ max_tuple_page_size
      → cursor_tuple codec cursor scope f ≡ ok after
      → ((length (remaining (candidates keep s) after) ≤ n)
          × (page_in codec scope keep f cursor (pos n) s
              ≡ ok (remaining (candidates keep s) after, [])))
        ⊎ ((last : Tuple) × (next : Str) × (n < length (remaining (candidates keep s) after))
            × (page_in codec scope keep f cursor (pos n) s
                ≡ ok (take n (remaining (candidates keep s) after), next))
            × (next ≢ [])
            × (cursor_tuple codec next scope f ≡ ok (some last))
            × (remaining (candidates keep s) (some last)
                ≡ drop n (remaining (candidates keep s) after)))
  unfolding page_in cut_page validate_tuple_page_limit cursor_tuple
  page_in_lem cursor zero after h low high at = absurd (omega arith)
  page_in_lem cursor (suc k) after h low high at =
      let n = suc k in
      let left = remaining (candidates keep s) after in
      let built : insert_all after (n + 1) (candidates keep s) [] ≡ take (suc n) left =
        ap (λ m. insert_all after m (candidates keep s) []) (omega arith)
        ∙ insert_all-sort_tuples after (suc n) (candidates keep s) [] in
      elim (dec_lt n (length left)) [
        | no fits ↦
            let whole : take (suc n) left ≡ left = take_short (suc n) left (omega arith) in
            inl (omega arith, ground (arith, built, whole, at))
        | yes more ↦
            let (last, ends, held, goes_on) =
              remaining_next (candidates keep s) h.distinct k after (omega arith) in
            let (next, full, encoded, decoded, _) =
              decode-encode codec scope f last scope f (h.matching last held)
                (h.printed last held) in
            inr (
              last,
              next,
              omega arith,
              ground (
                arith,
                built,
                at,
                take-take n left,
                length-take_long (suc n) left,
                ends,
                encoded,
              ),
              full,
              ground (arith, decoded, full),
              goes_on,
            )
      ]
