-- ===== src/Hmac/Steps.antt =====
-- The reader over the frames that the encoder writes (hmac/stream.go, readFrame), one at a time.
use atol_sdk_go.Prelude.{
  ℕ, zero, suc, ◌+◌, ◌%◌, ◌^◌, ◌<◌, ◌≤◌, true, List, [], ◌∷◌, ◌++◌, length, Str, bytes, ◌≡◌, refl,
  ap, ◌∙◌, ok, err, if◌then◌else◌, arith, append_assoc,
}
use atol_sdk_go.Hmac.Bytes.{
  put_be, length-put_be, uint, uint-put_be, read_full, full, read_full-append,
}
use atol_sdk_go.Hmac.Stream.{
  max_stream_payload_size, stream_frame_data, stream_frame_close, StreamError, authenticated,
  write_outer_frame, VerifiedStreamReader, fields_of, frame_mac, marshal_stream_frame,
  verify_fields, read_frame,
}
use atol_sdk_go.Hmac.Frames.{fields_of-authenticated, length-frame, one_byte}

-- An envelope of the Connect protocol: a flags byte, and a payload with its length before it.
pub record Envelope : Type 0 where
  pub flags : ℕ
  pub payload : Str

abbrev pub envelope_bytes : Envelope → Str
envelope_bytes e = e.flags ∷ (put_be 4 (length e.payload) ++ e.payload)

abbrev pub Fits : Envelope → Type 0
Fits e = length e.payload ≤ max_stream_payload_size

-- How a stream of reads ends: with EOF, with an error, or not within the fuel.
pub data End : Type 0 where
  finished : End
  failed : StreamError → End
  starved : End

module _ (hmac : Str → Str → Str) (key : Str) where
  -- What the reader still delivers after its pending bytes, and how that ends.
  unfoldable pub deliver : ℕ → VerifiedStreamReader → Str × End
  deliver zero r = ([], starved)
  deliver (suc fuel) r = if r.closed then ([], finished) else elim (read_frame hmac key r).0 [
    | err e ↦ ([], failed e)
    | ok done ↦
        let r' = (read_frame hmac key r).1 in
        let next = deliver fuel (record r' { pending = [] }) in (r'.pending ++ next.0, next.1)
  ]

  abbrev pub covered_data : ℕ → Str → Envelope → Str
  covered_data sequence previous e =
      authenticated stream_frame_data e.flags sequence previous e.payload

  -- The frames that the envelopes become.
  unfoldable pub wire : ℕ → Str → List Envelope → Str
  wire sequence previous [] =
      write_outer_frame (marshal_stream_frame hmac key stream_frame_close 0 sequence previous []).0
  wire sequence previous (e ∷ es) =
      let frame =
        marshal_stream_frame hmac key stream_frame_data e.flags sequence previous e.payload in
      write_outer_frame frame.0 ++ wire (sequence + 1) frame.1 es

  -- The outer header of a frame names its length.
  read_outer :
      (f rest : Str) (r : VerifiedStreamReader)
      → 82 ≤ length f
      → length f ≤ 82 + max_stream_payload_size
      → r.source ≡ write_outer_frame f ++ rest
      → read_frame hmac key r ≡ verify_fields hmac key (fields_of f) (record r { source = rest })
  unfolding read_frame write_outer_frame
  read_outer f rest r least most source =
      let outer : Str = 0 ∷ put_be 4 (length f) in
      let header : read_full 5 r.source ≡ full outer (f ++ rest) =
        ap (read_full 5) (source ∙ append_assoc outer f rest)
        ∙ read_full-append 5 outer (f ++ rest) (omega (arith, length-put_be 4 (length f))) in
      let size : uint (put_be 4 (length f)) ≡ length f = uint-put_be 4 (length f) (omega arith) in
      let body : read_full (uint (put_be 4 (length f))) (f ++ rest) ≡ full f rest =
        ap (λ n. read_full n (f ++ rest)) size ∙ read_full-append (length f) f rest refl in
      rw (header, read_frame) (ground (arith, size, body, one_byte 0))

  module _ (sized : (k m : Str) → length (hmac k m) ≡ 32) where
    pub length-frame_mac : (m : Str) → length (frame_mac hmac key m) ≡ 32
    unfolding frame_mac
    length-frame_mac m = sized key (bytes "atol-stream-frame/v1" ++ (0 ∷ m))

    module _ (kind flags : ℕ) (previous payload rest : Str) (r : VerifiedStreamReader)
        (fits : length payload ≤ max_stream_payload_size) (long : length previous ≡ 32)
        (bounded : r.sequence < 2 ^ 64) (chained : r.previous ≡ previous)
        (source : r.source
          ≡ write_outer_frame
              (marshal_stream_frame hmac key kind flags r.sequence previous payload).0
            ++ rest) where
      abbrev pub covered : Str
      covered = authenticated kind flags r.sequence previous payload

      read_marshalled :
          read_frame hmac key r
          ≡ verify_fields hmac key
              (record {
                frame_length = length payload + 82;
                magic = bytes "ATH1";
                kind = kind;
                original_flags = flags;
                sequence = r.sequence;
                previous = previous;
                payload_length = length payload;
                payload = payload;
                covered = covered;
                mac = frame_mac hmac key covered;
              })
              (record r { source = rest })
      unfolding marshal_stream_frame
      read_marshalled =
          let mac = frame_mac hmac key covered in
          let size : length (covered ++ mac) ≡ length payload + 82 =
            length-frame kind flags r.sequence previous payload mac long (length-frame_mac covered)
              fits bounded in
          read_outer (covered ++ mac) rest r (omega (arith, size)) (omega (arith, size)) source
          ∙ ap (λ f. verify_fields hmac key f (record r { source = rest }))
              (fields_of-authenticated kind flags r.sequence previous payload mac long
                (length-frame_mac covered) fits bounded)

      pub read_data :
          kind ≡ stream_frame_data
          → read_frame hmac key r ≡ (
            ok tt,
            record r {
              source = rest;
              previous = frame_mac hmac key covered;
              sequence = (r.sequence + 1) % 2 ^ 64;
              pending = flags ∷ (put_be 4 (length payload) ++ payload);
            },
          )
      read_data is_data = read_marshalled ∙ unfold verify_fields in ground arith

      pub read_close :
          kind ≡ stream_frame_close
          → flags ≡ 0
          → payload ≡ []
          → rest ≡ []
          → read_frame hmac key r ≡ (
            ok tt,
            record r {
              source = rest;
              previous = frame_mac hmac key covered;
              sequence = (r.sequence + 1) % 2 ^ 64;
              closed = true;
            },
          )
      read_close is_close plain empty last = read_marshalled ∙ unfold verify_fields in ground arith
