-- ===== src/Hmac/Stream.antt =====
-- hmac/stream.go: the frames, the encoder and the verified reader. The keyed hash is a parameter. The
-- target of the encoder takes every write, and its output is what was written.
use atol_sdk_go.Prelude.{
  ℕ, zero, suc, ◌+◌, ◌-◌, ◌*◌, ◌%◌, ◌^◌, ltb, eqb, Bool, true, false, ◌||◌, not, [], ◌∷◌, ◌++◌,
  length, take, drop, Option, none, some, Str, bytes, ◌!=◌, Result, ok, err, if◌then◌else◌,
}
use mathlib.Core.Option
use atol_sdk_go.Zanzibar.Check.Checker.{ContextError, Context}
use atol_sdk_go.Hmac.Bytes.{put_be, uint, slice, full, at_eof, cut_short, read_full}

abbrev pub max_stream_payload_size : ℕ
max_stream_payload_size = 5 * 1048576

abbrev pub stream_mac_size : ℕ
stream_mac_size = 32

-- 4 + 1 + 1 + 8 + streamMACSize + 4 + streamMACSize
abbrev pub stream_fixed_size : ℕ
stream_fixed_size = 82

abbrev pub stream_magic : Str
stream_magic = bytes "ATH1"

abbrev pub stream_frame_data : ℕ
stream_frame_data = 0

abbrev pub stream_frame_close : ℕ
stream_frame_close = 1

pub data StreamError : Type 0 where
  malformed bad_integrity bad_sequence stream_truncated : StreamError
  cancelled : ContextError → StreamError

-- make([]byte, streamMACSize)
abbrev pub no_mac : Str
no_mac = put_be 32 0

-- The part of a frame that is authenticated: all but its MAC.
unfoldable pub authenticated : ℕ → ℕ → ℕ → Str → Str → Str
authenticated kind flags sequence previous payload =
    stream_magic
    ++ (kind ∷ flags ∷ (put_be 8 sequence ++ (previous ++ (put_be 4 (length payload) ++ payload))))

unfoldable pub write_outer_frame : Str → Str
write_outer_frame frame = 0 ∷ (put_be 4 (length frame) ++ frame)

-- verifiedStreamReader; its source is the bytes that it still delivers.
pub record VerifiedStreamReader : Type 0 where
  pub source : Str
  pub sequence : ℕ
  pub previous : Str
  pub pending : Str
  pub closed : Bool

abbrev pub new_verified_stream_body : Str → VerifiedStreamReader
new_verified_stream_body source = record {
  source = source;
  sequence = 0;
  previous = no_mac;
  pending = [];
  closed = false;
}

-- What a round of the encoder comes to: its last write and its error, or a frame, its MAC and the rest.
pub data Round : Type 0 where
  stop : Str → Option StreamError → Round
  go_on : Str → Str → Str → Round

-- What Read answers: bytes, EOF, or an error.
pub data ReadResult : Type 0 where
  delivered : Str → ReadResult
  eof : ReadResult
  read_failed : StreamError → ReadResult

-- The parts of a frame that readFrame cuts out.
pub record Fields : Type 0 where
  pub frame_length : ℕ
  pub magic : Str
  pub kind : ℕ
  pub original_flags : ℕ
  pub sequence : ℕ
  pub previous : Str
  pub payload_length : ℕ
  pub payload : Str
  pub covered : Str
  pub mac : Str

unfoldable pub fields_of : Str → Fields
fields_of frame =
    let mac_offset = length frame - stream_mac_size in
    record {
      frame_length = length frame;
      magic = slice 0 4 frame;
      kind = uint (slice 4 5 frame);
      original_flags = uint (slice 5 6 frame);
      sequence = uint (slice 6 14 frame);
      previous = slice 14 46 frame;
      payload_length = uint (slice 46 50 frame);
      payload = slice 50 mac_offset frame;
      covered = take mac_offset frame;
      mac = drop mac_offset frame;
    }

module _ (hmac : Str → Str → Str) where
  unfoldable pub frame_mac : Str → Str → Str
  frame_mac key authenticated_frame =
      hmac key (bytes "atol-stream-frame/v1" ++ (0 ∷ authenticated_frame))

  -- The frame, and its MAC.
  unfoldable pub marshal_stream_frame : Str → ℕ → ℕ → ℕ → Str → Str → Str × Str
  marshal_stream_frame key kind flags sequence previous payload =
      let covered = authenticated kind flags sequence previous payload in
      (covered ++ frame_mac key covered, frame_mac key covered)

  unfoldable pub encode_round : Option ContextError → Str → ℕ → Str → Str → Round
  encode_round done key sequence previous source = elim done [
    | some e ↦ stop [] (some (cancelled e))
    | none ↦ elim (read_full 5 source) [
      | at_eof ↦
          stop
            (write_outer_frame
              (marshal_stream_frame key stream_frame_close 0 sequence previous []).0)
            none
      | cut_short ↦ stop [] (some malformed)
      | full header rest ↦
          if ltb max_stream_payload_size (uint (drop 1 header))
          then stop [] (some malformed)
          else elim (read_full (uint (drop 1 header)) rest) [
            | at_eof ↦ stop [] (some malformed)
            | cut_short ↦ stop [] (some malformed)
            | full payload rest' ↦
                let frame =
                  marshal_stream_frame key stream_frame_data (uint (take 1 header)) sequence
                    previous payload in
                go_on (write_outer_frame frame.0) frame.1 rest'
          ]
    ]
  ]

  -- The loop of encodeStream, from its round `round` on: what it writes, and its error. `none` in the
  -- first place is a loop that has run out of fuel.
  unfoldable pub encode_loop :
      ℕ → Context → ℕ → Str → ℕ → Str → Str → Option (Str × Option StreamError)
  encode_loop zero ctx round key sequence previous source = none
  encode_loop (suc fuel) ctx round key sequence previous source =
      elim (encode_round (ctx round) key sequence previous source) [
        | stop out e ↦ some (out, e)
        | go_on out mac rest ↦
            Option.map (λ w. (out ++ w.0, w.1))
              (encode_loop fuel ctx (suc round) key ((sequence + 1) % 2 ^ 64) mac rest)
      ]

  -- Each round but the last takes five bytes at least.
  unfoldable pub encode_stream : Context → Str → Str → Option (Str × Option StreamError)
  encode_stream ctx source key = encode_loop (suc (length source)) ctx 0 key 0 no_mac source

  -- The checks of readFrame once the frame has been read, and what they do.
  unfoldable pub verify_fields :
      Str → Fields → VerifiedStreamReader → Result StreamError (Unit {0}) × VerifiedStreamReader
  verify_fields key f r =
      let want_mac = frame_mac key f.covered in
      let accepted : VerifiedStreamReader = record r {
        previous = want_mac;
        sequence = (r.sequence + 1) % 2 ^ 64;
      } in
      if f.magic != stream_magic
      then (err malformed, r)
      else if not (eqb f.sequence r.sequence) || (f.previous != r.previous)
      then (err bad_sequence, r)
      else if not (eqb (f.payload_length + stream_fixed_size) f.frame_length)
      then (err malformed, r)
      else if f.mac != want_mac
      then (err bad_integrity, r)
      else if eqb f.kind stream_frame_data
      then (
        ok tt,
        record accepted { pending = f.original_flags ∷ (put_be 4 f.payload_length ++ f.payload) },
      )
      else if eqb f.kind stream_frame_close
      then if not (eqb f.original_flags 0) || not (eqb f.payload_length 0)
        then (err malformed, accepted)
        else if r.source != []
        then (err malformed, record accepted { source = drop 1 r.source })
        else (ok tt, record accepted { closed = true })
      else (err malformed, accepted)

  unfoldable pub read_frame :
      Str → VerifiedStreamReader → Result StreamError (Unit {0}) × VerifiedStreamReader
  read_frame key r = elim (read_full 5 r.source) [
    | at_eof ↦ (err stream_truncated, record r { source = [] })
    | cut_short ↦ (err malformed, record r { source = [] })
    | full outer rest ↦
        if not (eqb (uint (take 1 outer)) 0)
          || (ltb (uint (drop 1 outer)) stream_fixed_size
              || ltb (stream_fixed_size + max_stream_payload_size) (uint (drop 1 outer)))
        then (err malformed, record r { source = rest })
        else elim (read_full (uint (drop 1 outer)) rest) [
          | at_eof ↦ (err malformed, record r { source = [] })
          | cut_short ↦ (err malformed, record r { source = [] })
          | full frame rest' ↦ verify_fields key (fields_of frame) (record r { source = rest' })
        ]
  ]

  abbrev pub hand_out : ℕ → VerifiedStreamReader → ReadResult × VerifiedStreamReader
  hand_out n r = (delivered (take n r.pending), record r { pending = drop n r.pending })

  -- Read into a target of n bytes. Its loop ends in the second round: a frame leaves bytes or closes.
  unfoldable pub read_loop :
      ℕ → Str → ℕ → VerifiedStreamReader → Option (ReadResult × VerifiedStreamReader)
  read_loop zero key n r = none
  read_loop (suc fuel) key n r =
      if not (eqb (length r.pending) 0)
      then some (hand_out n r)
      else if r.closed
      then some (eof, r)
      else elim (read_frame key r).0 [
        | err e ↦ some (read_failed e, (read_frame key r).1)
        | ok done ↦ read_loop fuel key n (read_frame key r).1
      ]

  unfoldable pub read_verified :
      Str → ℕ → VerifiedStreamReader → Option (ReadResult × VerifiedStreamReader)
  read_verified = read_loop 2
