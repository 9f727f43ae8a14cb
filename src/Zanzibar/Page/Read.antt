-- ===== src/Zanzibar/Page/Read.antt =====
-- zanzibar/store/memory.go: ReadPage, ReadPageExcludingSubject and their cursors. sort.Search of the Go
-- library returns the first position whose test holds, where the page is in order.
use atol_sdk_go.Prelude.{
  ℕ, suc, ◌+◌, ℤ, leb, ltb, eqb, Bool, false, not, ◌&&◌, ◌||◌, List, [], ◌∷◌, ◌++◌, length, take,
  Option, none, some, Str, ◌==◌, ◌!=◌, Result, ok, err, if◌then◌else◌,
}
use atol_sdk_go.Zanzibar.Model.Types.{Tuple, TupleFilter, matches_filter}
use atol_sdk_go.Zanzibar.Store.Memory.{MemoryStore, scan, scan_materialized}
use atol_sdk_go.Zanzibar.Page.Order.{tuple_less}
use atol_sdk_go.Zanzibar.Page.Cursor.{
  PageError, invalid_cursor, CursorCodec, validate_tuple_page_limit, encode_tuple_page_cursor,
  decode_tuple_page_cursor, excluding_subject_cursor_scope,
}

-- The position of sort.Search, and the page with the tuple moved in there.
unfoldable pub position : Tuple → List Tuple → ℕ
position t [] = 0
position t (u ∷ us) = let rest = position t us in if tuple_less u t then suc rest else 0

unfoldable pub insert_tuple : Tuple → List Tuple → List Tuple
insert_tuple t [] = t ∷ []
insert_tuple t (u ∷ us) =
    let rest = insert_tuple t us in if tuple_less u t then u ∷ rest else t ∷ u ∷ us

-- `hasAfter && !TupleLess(after, tuple)`
abbrev pub is_before : Option Tuple → Tuple → Bool
is_before none t = false
is_before (some after) t = not (tuple_less after t)

unfoldable pub insert_bounded_page_tuple : Option Tuple → ℕ → Tuple → List Tuple → List Tuple
insert_bounded_page_tuple after capacity t page =
    if is_before after t
    then page
    else if eqb (length page) capacity && eqb (position t page) (length page)
    then page
    else if ltb capacity (length (insert_tuple t page))
    then take capacity (insert_tuple t page)
    else insert_tuple t page

-- The loops over the tuples that pass the tests.
unfoldable pub insert_all : Option Tuple → ℕ → List Tuple → List Tuple → List Tuple
insert_all after capacity [] page = page
insert_all after capacity (t ∷ ts) page =
    insert_all after capacity ts (insert_bounded_page_tuple after capacity t page)

-- `page[len(page)-1]`
unfoldable pub last_tuple : List Tuple → Option Tuple
last_tuple [] = none
last_tuple (t ∷ []) = some t
last_tuple (t ∷ u ∷ us) = last_tuple (u ∷ us)

module _ (codec : CursorCodec) where
  unfoldable pub cursor_tuple : Str → Str → TupleFilter → Result PageError (Option Tuple)
  cursor_tuple cursor scope f =
      if cursor == [] then ok none else elim (decode_tuple_page_cursor codec cursor scope f) [
        | err e ↦ err e
        | ok after ↦ ok (some after)
      ]

  -- The end of both page methods: the page and the next cursor.
  unfoldable pub cut_page : Str → TupleFilter → ℕ → List Tuple → Result PageError (List Tuple × Str)
  cut_page scope f limit result =
      if leb (length result) limit then ok (result, []) else elim (last_tuple (take limit result)) [
        | none ↦ ok ([], [])
        | some last ↦ elim (encode_tuple_page_cursor codec scope f last) [
          | err e ↦ err e
          | ok next ↦ ok (take limit result, next)
        ]
      ]

  -- What the two page methods share: they differ in the scope and in the test.
  unfoldable pub page_in :
      Str
      → (Tuple → Bool)
      → TupleFilter
      → Str
      → ℤ
      → MemoryStore
      → Result PageError (List Tuple × Str)
  page_in scope keep f cursor limit s = elim (validate_tuple_page_limit limit) [
    | err e ↦ err e
    | ok n ↦ elim (cursor_tuple cursor scope f) [
      | err e ↦ err e
      | ok after ↦ cut_page scope f n (
          insert_all after (n + 1)
            (scan keep s.by_object_relation ++ scan_materialized keep s.materialized) [])
    ]
  ]

  unfoldable pub read_page :
      TupleFilter → Str → ℤ → MemoryStore → Result PageError (List Tuple × Str)
  read_page f cursor limit s = page_in [] (λ t. matches_filter t f) f cursor limit s

  abbrev pub is_other_subject : Str → Str → Tuple → Bool
  is_other_subject user_type user_id t = t.user_type != user_type || t.user_id != user_id

  unfoldable pub read_page_excluding_subject :
      TupleFilter → Str → Str → Str → ℤ → MemoryStore → Result PageError (List Tuple × Str)
  read_page_excluding_subject f user_type user_id cursor limit s =
      page_in (excluding_subject_cursor_scope [] user_type user_id)
        (λ t. matches_filter t f && is_other_subject user_type user_id t) f cursor limit s

  unfoldable pub cursor_after : TupleFilter → Tuple → Result PageError Str
  cursor_after f t = encode_tuple_page_cursor codec [] f t

  unfoldable pub cursor_after_excluding_subject :
      TupleFilter → Str → Str → Tuple → Result PageError Str
  cursor_after_excluding_subject f user_type user_id t =
      if t.user_type == user_type && t.user_id == user_id
      then err invalid_cursor
      else encode_tuple_page_cursor codec (excluding_subject_cursor_scope [] user_type user_id) f t
