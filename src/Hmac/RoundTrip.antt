-- ===== src/Hmac/RoundTrip.antt =====
-- A signed stream is read back (hmac/stream.go, encodeStream and verifiedStreamReader).
use atol_sdk_go.Prelude.{
  ℕ, zero, suc, ◌+◌, ◌%◌, ◌^◌, ◌<◌, ◌≤◌, true, false, List, [], ◌∷◌, ◌++◌, length, All, concat_map,
  none, some, Str, ◌≡◌, refl, ap, sym, ◌∙◌, ok, arith, append_assoc, append_nil, length-append,
}
use atol_sdk_go.Zanzibar.Check.Checker.{Context}
use atol_sdk_go.Hmac.Bytes.{
  put_be, length-put_be, uint, uint-put_be, read_full, full, read_full-append,
}
use atol_sdk_go.Hmac.Stream.{
  stream_frame_data, stream_frame_close, authenticated, no_mac, write_outer_frame,
  VerifiedStreamReader, new_verified_stream_body, frame_mac, marshal_stream_frame, encode_loop,
  encode_stream, encode_round, stop, go_on, read_frame,
}
use atol_sdk_go.Hmac.Frames.{one_byte}
use atol_sdk_go.Hmac.Steps.{
  Envelope, envelope_bytes, Fits, End, finished, deliver, wire, covered_data, length-frame_mac,
  read_data, read_close,
}

abbrev pub stream_bytes : List Envelope → Str
stream_bytes es = concat_map envelope_bytes es

module _ (hmac : Str → Str → Str) (key : Str) where
  abbrev pub drained : VerifiedStreamReader → VerifiedStreamReader
  drained r = record r { pending = [] }

  pub deliver_step :
      (fuel : ℕ) (r r1 : VerifiedStreamReader)
      → r.closed ≡ false
      → read_frame hmac key r ≡ (ok tt, r1)
      → deliver hmac key (suc fuel) r ≡ (
        r1.pending ++ (deliver hmac key fuel (drained r1)).0,
        (deliver hmac key fuel (drained r1)).1,
      )
  unfolding deliver
  deliver_step fuel r r1 open_still e = ground (arith, open_still, e)

  pub deliver-closed :
      (fuel : ℕ) (r : VerifiedStreamReader)
      → r.closed ≡ true
      → 0 < fuel
      → deliver hmac key fuel r ≡ ([], finished)
  unfolding deliver
  deliver-closed zero r e h = absurd (omega arith)
  deliver-closed (suc fuel) r e h = ground arith

  pub deliver-nothing :
      (fuel : ℕ) (r : VerifiedStreamReader) → r.closed ≡ true → (deliver hmac key fuel r).0 ≡ []
  unfolding deliver
  deliver-nothing zero r e = refl
  deliver-nothing (suc fuel) r e = ground arith

  module _ (sized : (k m : Str) → length (hmac k m) ≡ 32) where
    deliver-wire :
        (es : List Envelope) (fuel : ℕ) (r : VerifiedStreamReader)
        → All Fits es
        → r.sequence + length es < 2 ^ 64
        → length r.previous ≡ 32
        → r.source ≡ wire hmac key r.sequence r.previous es
        → r.closed ≡ false
        → r.pending ≡ []
        → length es + 1 < fuel
        → deliver hmac key fuel r ≡ (stream_bytes es, finished)
    unfolding wire marshal_stream_frame
    deliver-wire es zero r fits bounded long source opened empty enough = absurd (omega arith)
    deliver-wire [] (suc fuel) r fits bounded long source opened empty enough =
        let read =
          read_close hmac key sized stream_frame_close 0 r.previous [] [] r (omega arith) long
            (omega arith) refl
            (source
              ∙ sym (
                  append_nil (
                    write_outer_frame
                      (marshal_stream_frame hmac key stream_frame_close 0 r.sequence r.previous
                        []).0)))
            refl refl refl refl in
        deliver_step fuel r _ opened read
        ∙ ground (
          arith,
          empty,
          deliver-closed fuel
              (record {
                source = [];
                sequence = (r.sequence + 1) % 2 ^ 64;
                previous =
                    frame_mac hmac key
                      (authenticated stream_frame_close 0 r.sequence r.previous []);
                pending = [];
                closed = true;
              })
              refl (omega arith),
        )
    deliver-wire (e ∷ es) (suc fuel) r fits bounded long source opened empty enough =
        let tag = frame_mac hmac key (covered_data hmac key r.sequence r.previous e) in
        let rest = wire hmac key (r.sequence + 1) tag es in
        let read =
          read_data hmac key sized stream_frame_data e.flags r.previous e.payload rest r fits.0 long
            (omega arith) refl source refl in
        let next : VerifiedStreamReader = record {
          source = rest;
          sequence = (r.sequence + 1) % 2 ^ 64;
          previous = tag;
          pending = [];
          closed = r.closed;
        } in
        let counted : (r.sequence + 1) % 2 ^ 64 ≡ r.sequence + 1 = omega arith in
        let others =
          deliver-wire es fuel next fits.1 (omega arith)
            (length-frame_mac hmac key sized (covered_data hmac key r.sequence r.previous e))
            (ap (λ n. wire hmac key n tag es) (sym counted)) opened refl (omega arith) in
        deliver_step fuel r _ opened read
        ∙ ap (λ (d : Str × End). (envelope_bytes e ++ d.0, d.1)) others

    module _ (ctx : Context) (live : (n : ℕ) → ctx n ≡ none) where
      -- One round of the encoder on an envelope.
      encode_data :
          (e : Envelope) (more : Str) (round sequence : ℕ) (previous : Str)
          → Fits e
          → encode_round hmac (ctx round) key sequence previous (envelope_bytes e ++ more)
            ≡ go_on
                (write_outer_frame
                  (marshal_stream_frame hmac key stream_frame_data e.flags sequence previous
                    e.payload).0)
                (marshal_stream_frame hmac key stream_frame_data e.flags sequence previous
                  e.payload).1
                more
      unfolding encode_round
      encode_data e more round sequence previous fits =
          let head : Str = e.flags ∷ put_be 4 (length e.payload) in
          let header : read_full 5 (envelope_bytes e ++ more) ≡ full head (e.payload ++ more) =
            ap (read_full 5) (append_assoc head e.payload more)
            ∙ read_full-append 5 head (e.payload ++ more)
                (omega (arith, length-put_be 4 (length e.payload))) in
          let size : uint (put_be 4 (length e.payload)) ≡ length e.payload =
            uint-put_be 4 (length e.payload) (omega arith) in
          let body : read_full (uint (put_be 4 (length e.payload))) (e.payload ++ more)
              ≡ full e.payload more =
            ap (λ n. read_full n (e.payload ++ more)) size
            ∙ read_full-append (length e.payload) e.payload more refl in
          rw (live round, encode_round)
            (rw (header, encode_round) (ground (arith, size, body, one_byte e.flags)))

      -- The round at the end of the source.
      encode_close :
          (round sequence : ℕ) (previous : Str)
          → encode_round hmac (ctx round) key sequence previous []
            ≡ stop
                (write_outer_frame
                  (marshal_stream_frame hmac key stream_frame_close 0 sequence previous []).0)
                none
      unfolding encode_round read_full
      encode_close round sequence previous = rw (live round, encode_round) refl

      encode_loop-wire :
          (es : List Envelope) (fuel round sequence : ℕ) (previous : Str)
          → All Fits es
          → sequence + length es < 2 ^ 64
          → length es < fuel
          → encode_loop hmac fuel ctx round key sequence previous (stream_bytes es)
            ≡ some (wire hmac key sequence previous es, none)
      unfolding encode_loop wire
      encode_loop-wire es zero round sequence previous fits bounded enough = absurd (omega arith)
      encode_loop-wire [] (suc fuel) round sequence previous fits bounded enough =
          rw (encode_close round sequence previous, encode_loop) refl
      encode_loop-wire (e ∷ es) (suc fuel) round sequence previous fits bounded enough =
          let tag =
            (marshal_stream_frame hmac key stream_frame_data e.flags sequence previous
              e.payload).1 in
          let counted : (sequence + 1) % 2 ^ 64 ≡ sequence + 1 = omega arith in
          let others =
            encode_loop-wire es fuel (suc round) (sequence + 1) tag fits.1 (omega arith)
              (omega arith) in
          rw (encode_data e (stream_bytes es) round sequence previous fits.0, encode_loop)
            (rw counted (rw others refl))

      bytes_least : (es : List Envelope) → length es ≤ length (stream_bytes es)
      bytes_least [] = omega arith
      bytes_least (e ∷ es) = omega (
        arith,
        bytes_least es,
        length-append (put_be 4 (length e.payload) ++ e.payload) (stream_bytes es),
      )

      -- Whatever envelopes are sent, under any hash of 32 bytes and while the context lives: the encoder
      -- ends without an error, and the reader delivers the bytes of the envelopes from what it wrote, and
      -- then EOF. No payload is above the maximum, and there are fewer than 2^64 envelopes.
      pub deliver-encode_stream :
          (es : List Envelope)
          → All Fits es
          → length es < 2 ^ 64
          → (out : Str) × (encode_stream hmac ctx (stream_bytes es) key ≡ some (out, none))
            × (deliver hmac key (length es + 2) (new_verified_stream_body out)
                ≡ (stream_bytes es, finished))
      unfolding encode_stream
      deliver-encode_stream es fits bounded = (
        wire hmac key 0 no_mac es,
        encode_loop-wire es (suc (length (stream_bytes es))) 0 0 no_mac fits (omega arith)
            (omega (arith, bytes_least es)),
        deliver-wire es (length es + 2) (new_verified_stream_body (wire hmac key 0 no_mac es)) fits
            (omega arith) (length-put_be 32 0) refl refl refl (omega arith),
      )
