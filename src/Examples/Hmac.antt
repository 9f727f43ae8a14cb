-- ===== src/Examples/Hmac.antt =====
-- A stream of one envelope under a hash that is the length of its input, the stream cut off after its
-- first frame, and that with a forged frame after it.
use atol_sdk_go.Prelude.{
  ◌+◌, ◌≡◌, refl, inl, none, some, List, [], ◌∷◌, ◌++◌, length, All, Str, bytes, str_dec, arith,
}
use atol_sdk_go.Zanzibar.Check.Checker.{Context}
use atol_sdk_go.Hmac.Bytes.{put_be, get_be, read_full, length-put_be}
use atol_sdk_go.Hmac.Stream.{
  encode_stream, new_verified_stream_body, authenticated, write_outer_frame, marshal_stream_frame,
  frame_mac, no_mac,
}
use atol_sdk_go.Hmac.Steps.{Envelope, deliver, finished}
use atol_sdk_go.Hmac.RoundTrip.{stream_bytes, deliver-encode_stream}
use atol_sdk_go.Hmac.Accepted.{messages}
use atol_sdk_go.Hmac.Unforged.{frames, IsUnforged, deliver_authentic}

abbrev pub length_hash : Str → Str → Str
length_hash k m = put_be 32 (length m)

length-length_hash : (k m : Str) → length (length_hash k m) ≡ 32
length-length_hash k m = length-put_be 32 (length m)

abbrev envelopes : List Envelope
envelopes = record { flags = 0; payload = bytes "hi" } ∷ []

abbrev live : Context
live n = none

deliver-encode_stream_example :
    (out : Str) × (encode_stream length_hash live (stream_bytes envelopes) (bytes "k")
      ≡ some (out, none))
    × (deliver length_hash (bytes "k") (length envelopes + 2) (new_verified_stream_body out)
        ≡ (stream_bytes envelopes, finished))
deliver-encode_stream_example =
    deliver-encode_stream length_hash (bytes "k") length-length_hash live (λ n. refl) envelopes
      (omega arith) (omega arith)

abbrev pub cut_off : Str
cut_off =
    write_outer_frame (marshal_stream_frame length_hash (bytes "k") 0 0 0 no_mac (bytes "hi")).0

-- A frame that is all zeros, which nobody has computed a MAC of.
abbrev forged : Str
forged = put_be 90 0

abbrev tampered : Str
tampered = cut_off ++ write_outer_frame forged

program : Unit {0}
unfolding frames messages read_full get_be put_be authenticated frame_mac marshal_stream_frame
    write_outer_frame str_dec
program = tt

tampered-frames :
    frames 3 tampered
    ≡ (marshal_stream_frame length_hash (bytes "k") 0 0 0 no_mac (bytes "hi")).0 ∷ forged ∷ []
unfolding program
tampered-frames = refl

tampered-IsUnforged :
    All
      (IsUnforged length_hash (bytes "k") (messages length_hash (bytes "k") 0 no_mac envelopes))
      (frames 3 tampered)
unfolding program
tampered-IsUnforged = (λ e. inl refl, (λ e. absurd (ground (arith, e)), tt))

deliver_authentic_example :
    (rest : Str) × (stream_bytes envelopes
      ≡ (deliver length_hash (bytes "k") 3 (new_verified_stream_body tampered)).0 ++ rest)
    × ((deliver length_hash (bytes "k") 3 (new_verified_stream_body tampered)).1 ≡ finished
        → rest ≡ [])
deliver_authentic_example =
    deliver_authentic length_hash (bytes "k") length-length_hash envelopes 3 tampered (omega arith)
      (omega arith) tampered-IsUnforged
