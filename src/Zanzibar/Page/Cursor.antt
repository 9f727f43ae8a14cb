-- ===== src/Zanzibar/Page/Cursor.antt =====
-- zanzibar/store/store.go: page limits and page cursors. encoding/json, base64 and SHA-256 are those of
-- the Go library: a CursorCodec is what they answer.
use atol_sdk_go.Prelude.{
  ℕ, ◌≤◌, ◌≡◌, ◌≢◌, arith, ℤ, pos, negsuc, same, ltb, Bool, Bool-cases, true, str_dec, ◌⊎◌, inl,
  inr, not, ◌||◌, List, [], ◌∷◌, ◌++◌, length, Option, none, some, Str, bytes, ◌==◌, Result, ok,
  err, if◌then◌else◌,
}
use atol_sdk_go.Zanzibar.Model.Types.{Tuple, TupleFilter, matches_filter}

abbrev pub max_tuple_page_size : ℕ
max_tuple_page_size = 500

abbrev pub max_tuple_cursor_len : ℕ
max_tuple_cursor_len = 4096

pub data PageError : Type 0 where
  invalid_limit : PageError
  invalid_cursor : PageError
  encode_failed : PageError

-- [6]string: the entries by their index.
pub record PageKey : Type 0 where
  pub at_0 : Str
  pub at_1 : Str
  pub at_2 : Str
  pub at_3 : Str
  pub at_4 : Str
  pub at_5 : Str

-- tuplePageCursor
pub record PageCursor : Type 0 where
  pub version : ℤ
  pub scope : Str
  pub key : PageKey

-- The array that EncodeTuplePageCursor fills, and the tuple that DecodeTuplePageCursor takes from one.
abbrev pub key_of : Tuple → PageKey
key_of t = record {
  at_0 = t.object_type;
  at_1 = t.object_id;
  at_2 = t.relation;
  at_3 = t.user_type;
  at_4 = t.user_id;
  at_5 = t.user_relation;
}

abbrev pub tuple_of : PageKey → Tuple
tuple_of k = record {
  object_type = k.at_0;
  object_id = k.at_1;
  relation = k.at_2;
  user_type = k.at_3;
  user_id = k.at_4;
  user_relation = k.at_5;
}

-- json.Marshal of a cursor; the decoder with DisallowUnknownFields, with whether nothing follows the
-- value; the two directions of base64.RawURLEncoding; the hexadecimal SHA-256 digest.
pub record CursorCodec : Type 0 where
  pub marshal : PageCursor → Option Str
  pub decode : Str → Option (PageCursor × Bool)
  pub encode_to_string : Str → Str
  pub decode_string : Str → Option Str
  pub sha256_hex : Str → Str

-- ValidateTuplePageLimit: the limit, where it is in range.
unfoldable pub validate_tuple_page_limit : ℤ → Result PageError ℕ
validate_tuple_page_limit (pos n) =
    if ltb n 1 || ltb max_tuple_page_size n then err invalid_limit else ok n
validate_tuple_page_limit (negsuc n) = err invalid_limit

-- strings.Join with a zero byte.
unfoldable pub join_zero : List Str → Str
join_zero [] = []
join_zero (s ∷ []) = s
join_zero (s ∷ t ∷ ts) = s ++ (0 ∷ join_zero (t ∷ ts))

-- ExcludingSubjectCursorScope
unfoldable pub excluding_subject_cursor_scope : Str → Str → Str → Str
excluding_subject_cursor_scope tenant_scope user_type user_id =
    tenant_scope ++ (0 ∷ (bytes "exclude-subject" ++ (0 ∷ (user_type ++ (0 ∷ user_id)))))

module _ (codec : CursorCodec) where
  unfoldable pub tuple_page_scope : Str → TupleFilter → Str
  tuple_page_scope tenant_scope f = codec.sha256_hex (
      join_zero (
        tenant_scope ∷ f.object_type ∷ f.object_id ∷ f.relation ∷ f.user_type ∷ f.user_id
        ∷ f.user_relation ∷ []))

  abbrev pub cursor_of : Str → TupleFilter → Tuple → PageCursor
  cursor_of tenant_scope f t = record {
    version = pos 1;
    scope = tuple_page_scope tenant_scope f;
    key = key_of t;
  }

  -- EncodeTuplePageCursor
  unfoldable pub encode_tuple_page_cursor : Str → TupleFilter → Tuple → Result PageError Str
  encode_tuple_page_cursor tenant_scope f t =
      if matches_filter t f
      then elim (codec.marshal (cursor_of tenant_scope f t)) [
        | none ↦ err encode_failed
        | some raw ↦ ok (codec.encode_to_string raw)
      ]
      else err invalid_cursor

  -- DecodeTuplePageCursor
  unfoldable pub decode_tuple_page_cursor : Str → Str → TupleFilter → Result PageError Tuple
  decode_tuple_page_cursor cursor tenant_scope f =
      if cursor == [] || ltb max_tuple_cursor_len (length cursor)
      then err invalid_cursor
      else elim (codec.decode_string cursor) [
        | none ↦ err invalid_cursor
        | some raw ↦ elim (codec.decode raw) [
          | none ↦ err invalid_cursor
          | some (decoded, at_end) ↦
              if not at_end
              then err invalid_cursor
              else if not (same decoded.version (pos 1))
                  || not (decoded.scope == tuple_page_scope tenant_scope f)
              then err invalid_cursor
              else if not (matches_filter (tuple_of decoded.key) f)
              then err invalid_cursor
              else ok (tuple_of decoded.key)
        ]
      ]

  -- What the round trip needs of the codec at one tuple: that the Go library reads back what it
  -- writes, and that the cursor is not longer than Decode admits.
  pub record IsPrinted (tenant_scope : Str) (f : TupleFilter) (t : Tuple) : Type 0 where
    pub raw : Str
    pub marshalled : codec.marshal (cursor_of tenant_scope f t) ≡ some raw
    pub unmarshalled : codec.decode raw ≡ some (cursor_of tenant_scope f t, true)
    pub decoded : codec.decode_string (codec.encode_to_string raw) ≡ some raw
    pub not_empty : codec.encode_to_string raw ≢ []
    pub short : length (codec.encode_to_string raw) ≤ max_tuple_cursor_len

  pub decode-encode :
      (tenant_scope : Str) (f : TupleFilter) (t : Tuple) (other_scope : Str) (g : TupleFilter)
      → matches_filter t f ≡ true
      → IsPrinted tenant_scope f t
      → (cursor : Str) × (cursor ≢ [])
        × (encode_tuple_page_cursor tenant_scope f t ≡ ok cursor)
        × (decode_tuple_page_cursor cursor tenant_scope f ≡ ok t)
        × ((decode_tuple_page_cursor cursor other_scope g ≡ err invalid_cursor)
            ⊎ ((tuple_page_scope tenant_scope f ≡ tuple_page_scope other_scope g)
                × (matches_filter t g ≡ true)
                × (decode_tuple_page_cursor cursor other_scope g ≡ ok t)))
  unfolding encode_tuple_page_cursor decode_tuple_page_cursor
  decode-encode scope f t other g m p = (
    codec.encode_to_string p.raw,
    p.not_empty,
    ground (arith, p.marshalled),
    ground (arith, p.unmarshalled, p.decoded, p.not_empty, p.short),
    elim (str_dec (tuple_page_scope scope f) (tuple_page_scope other g)) [
      | no apart ↦ inl (ground (arith, p.unmarshalled, p.decoded, p.not_empty, p.short, apart))
      | yes same ↦ elim (Bool-cases (matches_filter t g)) [
        | inl fits ↦ inr (
          same,
          fits,
          ground (arith, p.unmarshalled, p.decoded, p.not_empty, p.short, same, fits),
        )
        | inr misses ↦
            inl (ground (arith, p.unmarshalled, p.decoded, p.not_empty, p.short, same, misses))
      ]
    ],
  )
