-- ===== src/Zanzibar/Engine/Pages.antt =====
-- CanDeleteBounded, which goes through pages, against CanDelete, which reads all tuples at once
-- (zanzibar/relationships.go).
use atol_sdk_go.Prelude.{
  ℕ, zero, suc, ◌+◌, ◌≤◌, ◌<◌, ltb, pos, ◌||◌, List, [], ◌∷◌, ◌++◌, length, take, take-drop,
  length-drop, Member, Option, none, some, Str, str_dec, ◌==◌, ok, if◌then◌else◌, ◌≡◌, ◌≢◌, refl,
  inl, inr, ap, ◌∙◌, arith, Bool-cases,
}
use atol_sdk_go.Zanzibar.Model.Types.{Tuple, TupleFilter, matches_filter}
use atol_sdk_go.Zanzibar.Store.Memory.{MemoryStore, count_direct, read}
use atol_sdk_go.Zanzibar.Store.Index.{IsFiled}
use atol_sdk_go.Zanzibar.Page.Cursor.{CursorCodec, max_tuple_page_size, IsPrinted}
use atol_sdk_go.Zanzibar.Page.Read.{read_page, insert_tuple, cursor_tuple}
use atol_sdk_go.Zanzibar.Page.Sorted.{sort_tuples}
use atol_sdk_go.Zanzibar.Page.Next.{remaining}
use atol_sdk_go.Zanzibar.Page.Scan.{IsScannable, page_in_lem}
use atol_sdk_go.Zanzibar.Page.Whole.{matching, matching-IsScannable, length-remaining}
use atol_sdk_go.Zanzibar.Page.Unique.{remaining-read}
use atol_sdk_go.Zanzibar.Engine.Tuples.{contains_direct}
use atol_sdk_go.Zanzibar.Engine.Bounded.{count_page, bounded_tuple_exists, count_pages}

contains_direct-append :
    (xs ys : List Tuple) (t : Tuple)
    → contains_direct (xs ++ ys) t ≡ contains_direct xs t || contains_direct ys t
unfolding contains_direct
contains_direct-append [] ys t = refl
contains_direct-append (x ∷ xs) ys t = ground (arith, contains_direct-append xs ys t)

contains_direct-insert_tuple :
    (u : Tuple) (xs : List Tuple) (t : Tuple)
    → contains_direct (insert_tuple u xs) t ≡ contains_direct (u ∷ xs) t
unfolding contains_direct insert_tuple
contains_direct-insert_tuple u [] t = refl
contains_direct-insert_tuple u (x ∷ xs) t = ground (arith, contains_direct-insert_tuple u xs t)

contains_direct-sort_tuples :
    (ts sorted : List Tuple) (t : Tuple)
    → contains_direct (sort_tuples ts sorted) t ≡ contains_direct ts t || contains_direct sorted t
unfolding contains_direct sort_tuples
contains_direct-sort_tuples [] sorted t = refl
contains_direct-sort_tuples (u ∷ ts) sorted t = ground (
  arith,
  contains_direct-sort_tuples ts (insert_tuple u sorted) t,
  contains_direct-insert_tuple u sorted t,
)

count_direct-append :
    (xs ys : List Tuple) → count_direct (xs ++ ys) ≡ count_direct xs + count_direct ys
count_direct-append [] ys = omega arith
count_direct-append (x ∷ xs) ys = ground (arith, count_direct-append xs ys)

count_direct-insert_tuple :
    (u : Tuple) (xs : List Tuple) → count_direct (insert_tuple u xs) ≡ count_direct (u ∷ xs)
unfolding insert_tuple
count_direct-insert_tuple u [] = refl
count_direct-insert_tuple u (x ∷ xs) = ground (arith, count_direct-insert_tuple u xs)

count_direct-sort_tuples :
    (ts sorted : List Tuple)
    → count_direct (sort_tuples ts sorted) ≡ count_direct ts + count_direct sorted
unfolding sort_tuples
count_direct-sort_tuples [] sorted = omega arith
count_direct-sort_tuples (u ∷ ts) sorted =
    ground (
      arith,
      count_direct-sort_tuples ts (insert_tuple u sorted),
      count_direct-insert_tuple u sorted,
    )

count_page_lem :
    (minimum direct : ℕ) (ts : List Tuple)
    → direct ≤ minimum
    → count_page minimum direct ts
      ≡ (if ltb minimum (direct + count_direct ts) then none else some (direct + count_direct ts))
unfolding count_page
count_page_lem minimum direct [] h = ground (arith, h)
count_page_lem minimum direct (t ∷ ts) h = elim (Bool-cases (t.user_relation == [])) [
  | inr userset ↦ ground (arith, userset, count_page_lem minimum direct ts h)
  | inl plain ↦ elim (Bool-cases (ltb minimum (suc direct))) [
    | inl past ↦ ground (arith, plain, past)
    | inr fits ↦
        ground (arith, plain, fits, count_page_lem minimum (suc direct) ts (ground (arith, fits)))
  ]
]

module _ (codec : CursorCodec) (f : TupleFilter) (s : MemoryStore) where
  abbrev pub cands : List Tuple
  cands = matching codec f s max_tuple_page_size

  exists_last :
      (t : Tuple) (fuel : ℕ) (cursor : Str) (page : List Tuple)
      → read_page codec f cursor (pos max_tuple_page_size) s ≡ ok (page, [])
      → bounded_tuple_exists codec f t s (suc fuel) cursor ≡ some (ok (contains_direct page t))
  unfolding bounded_tuple_exists str_dec
  exists_last t fuel cursor page e = ground (arith, e)

  exists_more :
      (t : Tuple) (fuel : ℕ) (cursor next : Str) (page others : List Tuple)
      → read_page codec f cursor (pos max_tuple_page_size) s ≡ ok (page, next)
      → next ≢ []
      → bounded_tuple_exists codec f t s fuel next ≡ some (ok (contains_direct others t))
      → bounded_tuple_exists codec f t s (suc fuel) cursor
        ≡ some (ok (contains_direct (page ++ others) t))
  unfolding bounded_tuple_exists
  exists_more t fuel cursor next page others e full rest =
      ground (arith, e, full, rest, contains_direct-append page others t)

  count_last :
      (minimum direct fuel : ℕ) (cursor : Str) (page : List Tuple)
      → direct ≤ minimum
      → read_page codec f cursor (pos max_tuple_page_size) s ≡ ok (page, [])
      → count_pages codec f minimum s (suc fuel) direct cursor
        ≡ some (ok (ltb minimum (direct + count_direct page)))
  unfolding count_pages str_dec
  count_last minimum direct fuel cursor page h e =
      ground (arith, e, count_page_lem minimum direct page h)

  count_more :
      (minimum direct fuel : ℕ) (cursor next : Str) (page others : List Tuple)
      → direct ≤ minimum
      → read_page codec f cursor (pos max_tuple_page_size) s ≡ ok (page, next)
      → next ≢ []
      → (direct + count_direct page ≤ minimum
          → count_pages codec f minimum s fuel (direct + count_direct page) next
            ≡ some (ok (ltb minimum (direct + count_direct page + count_direct others))))
      → count_pages codec f minimum s (suc fuel) direct cursor
        ≡ some (ok (ltb minimum (direct + count_direct (page ++ others))))
  unfolding count_pages
  count_more minimum direct fuel cursor next page others h e full rest =
      elim (Bool-cases (ltb minimum (direct + count_direct page))) [
        | inl past ↦ ground (
          arith,
          e,
          full,
          past,
          count_page_lem minimum direct page h,
          count_direct-append page others,
        )
        | inr fits ↦
            let more = rest (ground (arith, fits)) in
            ground (
              arith,
              e,
              full,
              fits,
              more,
              count_page_lem minimum direct page h,
              count_direct-append page others,
            )
      ]

  exists_lem :
      (t : Tuple) (fuel : ℕ) (cursor : Str) (after : Option Tuple)
      → IsScannable codec [] (λ u. matches_filter u f) f s
      → cursor_tuple codec cursor [] f ≡ ok after
      → length (remaining cands after) < fuel
      → bounded_tuple_exists codec f t s fuel cursor
        ≡ some (ok (contains_direct (remaining cands after) t))
  unfolding read_page
  exists_lem t zero cursor after h at enough = absurd (omega arith)
  exists_lem t (suc fuel) cursor after h at enough =
      elim (page_in_lem codec [] (λ u. matches_filter u f) f s cursor max_tuple_page_size after h
        (omega arith) (omega arith) at) [
          | inl (fits, e) ↦ exists_last t fuel cursor (remaining cands after) e
          | inr (last, next, more, e, full, at', goes_on) ↦
              let left = remaining cands after in
              exists_more t fuel cursor next (take max_tuple_page_size left)
                (remaining cands (some last)) e full
                (exists_lem t fuel next (some last) h at'
                  (omega (arith, ap length goes_on, length-drop max_tuple_page_size left)))
              ∙ ap (λ ts. some (ok (contains_direct (take max_tuple_page_size left ++ ts) t)))
                  goes_on
              ∙ ap (λ ts. some (ok (contains_direct ts t))) (take-drop max_tuple_page_size left)
        ]

  count_lem :
      (minimum direct fuel : ℕ) (cursor : Str) (after : Option Tuple)
      → direct ≤ minimum
      → IsScannable codec [] (λ u. matches_filter u f) f s
      → cursor_tuple codec cursor [] f ≡ ok after
      → length (remaining cands after) < fuel
      → count_pages codec f minimum s fuel direct cursor
        ≡ some (ok (ltb minimum (direct + count_direct (remaining cands after))))
  unfolding read_page
  count_lem minimum direct zero cursor after low h at enough = absurd (omega arith)
  count_lem minimum direct (suc fuel) cursor after low h at enough =
      elim (page_in_lem codec [] (λ u. matches_filter u f) f s cursor max_tuple_page_size after h
        (omega arith) (omega arith) at) [
          | inl (fits, e) ↦ count_last minimum direct fuel cursor (remaining cands after) low e
          | inr (last, next, more, e, full, at', goes_on) ↦
              let left = remaining cands after in
              let page = take max_tuple_page_size left in
              count_more minimum direct fuel cursor next page (remaining cands (some last)) low e
                full
                (λ fits.
                  count_lem minimum (direct + count_direct page) fuel next (some last) fits h at'
                    (omega (arith, ap length goes_on, length-drop max_tuple_page_size left)))
              ∙ ap (λ ts. some (ok (ltb minimum (direct + count_direct (page ++ ts))))) goes_on
              ∙ ap (λ ts. some (ok (ltb minimum (direct + count_direct ts))))
                  (take-drop max_tuple_page_size left)
        ]

  -- From the first page, both loops find what Read finds.
  pub exists-read :
      (t : Tuple) (fuel : ℕ)
      → IsFiled s.by_object_relation
      → s.materialized ≡ []
      → ((u : Tuple) → Member u cands → IsPrinted codec [] f u)
      → length cands < fuel
      → bounded_tuple_exists codec f t s fuel [] ≡ some (ok (contains_direct (read f s) t))
  unfolding cursor_tuple str_dec contains_direct
  exists-read t fuel filed none_else printed enough =
      exists_lem t fuel [] none
        (matching-IsScannable codec f s max_tuple_page_size filed none_else printed) refl
        (omega (arith, enough, length-remaining cands none))
      ∙ ap (λ ts. some (ok (contains_direct ts t)))
          (remaining-read codec f s max_tuple_page_size filed none_else)
      ∙ ap (λ b. some (ok b)) (ground (arith, contains_direct-sort_tuples (read f s) [] t))

  pub count-read :
      (minimum fuel : ℕ)
      → IsFiled s.by_object_relation
      → s.materialized ≡ []
      → ((u : Tuple) → Member u cands → IsPrinted codec [] f u)
      → length cands < fuel
      → count_pages codec f minimum s fuel 0 [] ≡ some (ok (ltb minimum (count_direct (read f s))))
  unfolding cursor_tuple str_dec
  count-read minimum fuel filed none_else printed enough =
      count_lem minimum 0 fuel [] none (omega arith)
        (matching-IsScannable codec f s max_tuple_page_size filed none_else printed) refl
        (omega (arith, enough, length-remaining cands none))
      ∙ ap (λ ts. some (ok (ltb minimum (0 + count_direct ts))))
          (remaining-read codec f s max_tuple_page_size filed none_else)
      ∙ ap (λ k. some (ok (ltb minimum k))) (omega (arith, count_direct-sort_tuples (read f s) []))
