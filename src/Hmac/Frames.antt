-- ===== src/Hmac/Frames.antt =====
-- The fields of a frame (hmac/stream.go, marshalStreamFrame) where readFrame looks for them.
use atol_sdk_go.Prelude.{
  ℕ, ◌+◌, ◌-◌, ◌^◌, ◌<◌, ◌≤◌, [], ◌∷◌, ◌++◌, length, take, drop, Str, ◌≡◌, refl, ap, ◌∙◌, arith,
  append_assoc, length-append,
}
use atol_sdk_go.Hmac.Bytes.{put_be, uint, uint-put_be, get_be, slice, take_at, drop_at, drop_past}
use atol_sdk_go.Hmac.Stream.{max_stream_payload_size, authenticated, fields_of, stream_magic}

module _ (kind flags sequence : ℕ) (previous payload : Str) (long : length previous ≡ 32) where
  length-authenticated :
      length (authenticated kind flags sequence previous payload) ≡ length payload + 50
  unfolding authenticated put_be
  length-authenticated =
      omega (arith, long, length-append previous (put_be 4 (length payload) ++ payload))

  module _ (mac : Str) where
    abbrev frame : Str
    frame = authenticated kind flags sequence previous payload ++ mac

    abbrev rest : Str
    rest = (put_be 4 (length payload) ++ payload) ++ mac

    kind_field : slice 4 5 frame ≡ kind ∷ []
    unfolding authenticated
    kind_field = refl

    flags_field : slice 5 6 frame ≡ flags ∷ []
    unfolding authenticated
    flags_field = refl

    magic_field : slice 0 4 frame ≡ stream_magic
    unfolding authenticated
    magic_field = refl

    regroup : (previous ++ (put_be 4 (length payload) ++ payload)) ++ mac ≡ previous ++ rest
    regroup = append_assoc previous (put_be 4 (length payload) ++ payload) mac

    previous_field : slice 14 46 frame ≡ previous
    unfolding authenticated put_be
    previous_field = ap (take 32) regroup ∙ take_at 32 previous rest long

    length_field : slice 46 50 frame ≡ put_be 4 (length payload)
    unfolding authenticated put_be
    length_field =
        ap (λ s. take 4 (drop 32 s)) regroup ∙ ap (take 4) (drop_at 32 previous rest long)

    payload_field : slice 50 (length payload + 50) frame ≡ payload
    unfolding authenticated put_be
    payload_field =
        ap (λ s. take (length payload + 50 - 50) (drop 36 s)) regroup
        ∙ ap (take (length payload + 50 - 50)) (drop_past 32 4 previous rest long)
        ∙ ap (λ n. take n (payload ++ mac)) (omega arith)
        ∙ take_at (length payload) payload mac refl

    sequence_field : slice 6 14 frame ≡ put_be 8 sequence
    unfolding authenticated put_be
    sequence_field = refl

    mac_field : drop (length payload + 50) frame ≡ mac
    mac_field =
        drop_at (length payload + 50) (authenticated kind flags sequence previous payload) mac
          length-authenticated

    covered_field :
        take (length payload + 50) frame ≡ authenticated kind flags sequence previous payload
    covered_field =
        take_at (length payload + 50) (authenticated kind flags sequence previous payload) mac
          length-authenticated

pub one_byte : (b : ℕ) → uint (b ∷ []) ≡ b
unfolding get_be
one_byte b = omega arith

module _ (kind flags sequence : ℕ) (previous payload mac : Str) (long : length previous ≡ 32)
    (sized : length mac ≡ 32) (fits : length payload ≤ max_stream_payload_size)
    (bounded : sequence < 2 ^ 64) where
  abbrev pub covered : Str
  covered = authenticated kind flags sequence previous payload

  pub length-frame : length (covered ++ mac) ≡ length payload + 82
  length-frame = omega (
    arith,
    sized,
    length-append covered mac,
    length-authenticated kind flags sequence previous payload long,
  )

  offset : length (covered ++ mac) - 32 ≡ length payload + 50
  offset = omega (arith, length-frame)

  -- The fields of a frame that marshalStreamFrame wrote are what it was given.
  pub fields_of-authenticated : fields_of (covered ++ mac) ≡ record {
    frame_length = length payload + 82;
    magic = stream_magic;
    kind = kind;
    original_flags = flags;
    sequence = sequence;
    previous = previous;
    payload_length = length payload;
    payload = payload;
    covered = covered;
    mac = mac;
  }
  unfolding fields_of
  fields_of-authenticated = λ i. record {
    frame_length = length-frame i;
    magic = magic_field kind flags sequence previous payload long mac i;
    kind = (ap uint (kind_field kind flags sequence previous payload long mac) ∙ one_byte kind) i;
    original_flags =
        (ap uint (flags_field kind flags sequence previous payload long mac) ∙ one_byte flags) i;
    sequence =
        (ap uint (sequence_field kind flags sequence previous payload long mac)
            ∙ uint-put_be 8 sequence bounded)
          i;
    previous = previous_field kind flags sequence previous payload long mac i;
    payload_length =
        (ap uint (length_field kind flags sequence previous payload long mac)
            ∙ uint-put_be 4 (length payload) (omega arith))
          i;
    payload =
        (ap (λ n. slice 50 n (covered ++ mac)) offset
            ∙ payload_field kind flags sequence previous payload long mac)
          i;
    covered =
        (ap (λ n. take n (covered ++ mac)) offset
            ∙ covered_field kind flags sequence previous payload long mac)
          i;
    mac =
        (ap (λ n. drop n (covered ++ mac)) offset
            ∙ mac_field kind flags sequence previous payload long mac)
          i;
  }
