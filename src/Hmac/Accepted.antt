-- ===== src/Hmac/Accepted.antt =====
-- The frames that the verified reader accepts, and those that the sender writes (hmac/stream.go).
use atol_sdk_go.Prelude.{
  ℕ, zero, suc, ◌+◌, ◌-◌, ◌^◌, ◌<◌, ◌≤◌, true, List, [], ◌∷◌, ◌++◌, length, take, drop, take-drop,
  All, Member, Str, ◌≡◌, refl, ap, sym, subst, ◌∙◌, ◌⊎◌, inl, inr, ok, err, if◌then◌else◌, arith,
}
use atol_sdk_go.Hmac.Bytes.{uint, Filled, full, at_eof, cut_short, read_full}
use atol_sdk_go.Hmac.Stream.{
  max_stream_payload_size, stream_frame_data, stream_frame_close, authenticated,
  VerifiedStreamReader, Fields, fields_of, frame_mac, verify_fields, read_frame,
}
use atol_sdk_go.Hmac.Frames.{fields_of-authenticated}
use atol_sdk_go.Hmac.Steps.{Envelope, envelope_bytes, Fits, covered_data, length-frame_mac}
use atol_sdk_go.Hmac.RoundTrip.{drained}

pub Filled-cases :
    (x : Filled) → ((s : Str) × (t : Str) × (x ≡ full s t)) ⊎ ((x ≡ at_eof) ⊎ (x ≡ cut_short))
Filled-cases (full s t) = inl (s, t, refl)
Filled-cases at_eof = inr (inl refl)
Filled-cases cut_short = inr (inr refl)

-- The authenticated part of the frame that stands first in a source.
unfoldable pub covered_of : Str → Str
covered_of source = elim (read_full 5 source) [
  | full outer rest ↦ elim (read_full (uint (drop 1 outer)) rest) [
    | full frame rest' ↦ take (length frame - 32) frame
    | _ ↦ []
  ]
  | _ ↦ []
]

module _ (hmac : Str → Str → Str) (key : Str) where
  -- The authenticated parts of the frames that the reader accepts.
  unfoldable pub accepted : ℕ → VerifiedStreamReader → List Str
  accepted zero r = []
  accepted (suc fuel) r = if r.closed then [] else elim (read_frame hmac key r).0 [
    | err e ↦ []
    | ok done ↦ covered_of r.source ∷ accepted fuel (drained hmac key (read_frame hmac key r).1)
  ]

  -- The authenticated parts of the frames of the envelopes, which the sender has computed a MAC of.
  unfoldable pub messages : ℕ → Str → List Envelope → List Str
  messages sequence previous [] = authenticated stream_frame_close 0 sequence previous [] ∷ []
  messages sequence previous (e ∷ es) =
      let covered = covered_data hmac key sequence previous e in
      covered ∷ messages (sequence + 1) (frame_mac hmac key covered) es

  abbrev pub sequence_of : Str → ℕ
  sequence_of m = (fields_of (m ++ frame_mac hmac key m)).sequence

  pub verify_fields-ok :
      (f : Fields) (r r' : VerifiedStreamReader)
      → verify_fields hmac key f r ≡ (ok tt, r')
      → (f.sequence ≡ r.sequence) × (f.mac ≡ frame_mac hmac key f.covered)
  unfolding verify_fields
  verify_fields-ok f r r' h = ground (arith, h)

  -- A frame that is accepted carries the MAC of its authenticated part, and the next sequence number.
  pub read_frame-ok :
      (r r' : VerifiedStreamReader)
      → read_frame hmac key r ≡ (ok tt, r')
      → (rest : Str) × (verify_fields hmac key
            (fields_of (covered_of r.source ++ frame_mac hmac key (covered_of r.source)))
            (record r { source = rest })
          ≡ (ok tt, r'))
        × (sequence_of (covered_of r.source) ≡ r.sequence)
  unfolding read_frame covered_of fields_of
  read_frame-ok r r' h = elim (Filled-cases (read_full 5 r.source)) [
    | inr bad ↦ absurd (ground (arith, h, bad))
    | inl (outer, rest, got) ↦ elim (Filled-cases (read_full (uint (drop 1 outer)) rest)) [
      | inr bad ↦ absurd (ground (arith, h, got, bad))
      | inl (f, rest', body) ↦
          let m : covered_of r.source ≡ take (length f - 32) f = ground (arith, got, body) in
          let checked : verify_fields hmac key (fields_of f) (record r { source = rest' })
              ≡ (ok tt, r') =
            ground (arith, h, got, body) in
          let (sequence, mac) =
            verify_fields-ok (fields_of f) (record r { source = rest' }) r' checked in
          let whole : f ≡ covered_of r.source ++ frame_mac hmac key (covered_of r.source) =
            sym (take-drop (length f - 32) f)
            ∙ ap (λ t. take (length f - 32) f ++ t) mac
            ∙ sym (ap (λ c. c ++ frame_mac hmac key c) m) in
          (
            rest',
            subst
                (λ x.
                  verify_fields hmac key (fields_of x) (record r { source = rest' }) ≡ (ok tt, r'))
                whole checked,
            ap (λ x. (fields_of x).sequence) (sym whole) ∙ sequence,
          )
    ]
  ]

  module _ (sized : (k m : Str) → length (hmac k m) ≡ 32) where
    sequence_of-authenticated :
        (kind flags sequence : ℕ) (previous payload : Str)
        → length previous ≡ 32
        → length payload ≤ max_stream_payload_size
        → sequence < 2 ^ 64
        → sequence_of (authenticated kind flags sequence previous payload) ≡ sequence
    sequence_of-authenticated kind flags sequence previous payload long fits bounded =
        let m = authenticated kind flags sequence previous payload in
        ap (λ f. f.sequence)
          (fields_of-authenticated kind flags sequence previous payload (frame_mac hmac key m) long
            (length-frame_mac hmac key sized m) fits bounded)

    abbrev pub head_message : ℕ → Str → List Envelope → Str
    head_message sequence previous [] = authenticated stream_frame_close 0 sequence previous []
    head_message sequence previous (e ∷ es) = covered_data hmac key sequence previous e

    pub head_sequence :
        (es : List Envelope) (sequence : ℕ) (previous : Str)
        → All Fits es
        → sequence + length es < 2 ^ 64
        → length previous ≡ 32
        → sequence_of (head_message sequence previous es) ≡ sequence
    head_sequence [] sequence previous fits bounded long =
        sequence_of-authenticated stream_frame_close 0 sequence previous [] long (omega arith)
          (omega arith)
    head_sequence (e ∷ es) sequence previous fits bounded long =
        sequence_of-authenticated stream_frame_data e.flags sequence previous e.payload long fits.0
          (omega arith)

    -- The messages after the first have later sequence numbers.
    pub later :
        (es : List Envelope) (sequence : ℕ) (previous m : Str)
        → All Fits es
        → sequence + length es < 2 ^ 64
        → length previous ≡ 32
        → Member m (messages sequence previous es)
        → (m ≡ head_message sequence previous es) ⊎ (sequence < sequence_of m)
    unfolding messages
    later [] sequence previous m fits bounded long (inl same) = inl same
    later [] sequence previous m fits bounded long (inr more) = absurd more
    later (e ∷ es) sequence previous m fits bounded long (inl same) = inl same
    later (e ∷ es) sequence previous m fits bounded long (inr more) =
        let tag = frame_mac hmac key (covered_data hmac key sequence previous e) in
        let tag_long =
          length-frame_mac hmac key sized (covered_data hmac key sequence previous e) in
        elim (later es (sequence + 1) tag m fits.1 (omega arith) tag_long more) [
          | inr after ↦ inr (omega arith)
          | inl same ↦ inr (
              omega (
                arith,
                ap sequence_of same,
                head_sequence es (sequence + 1) tag fits.1 (omega arith) tag_long,
              ))
        ]

    -- Accepting the frame of the next envelope, and accepting the closing frame.
    pub accepted_data :
        (e : Envelope) (r r' : VerifiedStreamReader) (rest : Str)
        → Fits e
        → length r.previous ≡ 32
        → r.sequence + 1 < 2 ^ 64
        → verify_fields hmac key
            (fields_of (
              covered_data hmac key r.sequence r.previous e
              ++ frame_mac hmac key (covered_data hmac key r.sequence r.previous e)))
            (record r { source = rest })
          ≡ (ok tt, r')
        → (r'.previous ≡ frame_mac hmac key (covered_data hmac key r.sequence r.previous e))
          × (r'.sequence ≡ r.sequence + 1)
          × (r'.pending ≡ envelope_bytes e)
          × (r'.closed ≡ r.closed)
    unfolding verify_fields
    accepted_data e r r' rest fits long bounded h =
        let c = covered_data hmac key r.sequence r.previous e in
        let known =
          fields_of-authenticated stream_frame_data e.flags r.sequence r.previous e.payload
            (frame_mac hmac key c) long (length-frame_mac hmac key sized c) fits (omega arith) in
        let g =
          subst (λ f. verify_fields hmac key f (record r { source = rest }) ≡ (ok tt, r')) known
            h in
        (ground (arith, g), ground (arith, g), ground (arith, g), ground (arith, g))

    pub accepted_close :
        (r r' : VerifiedStreamReader) (rest : Str)
        → length r.previous ≡ 32
        → r.sequence < 2 ^ 64
        → verify_fields hmac key
            (fields_of (
              authenticated stream_frame_close 0 r.sequence r.previous []
              ++ frame_mac hmac key (authenticated stream_frame_close 0 r.sequence r.previous [])))
            (record r { source = rest })
          ≡ (ok tt, r')
        → (r'.closed ≡ true) × (r'.pending ≡ r.pending)
    unfolding verify_fields
    accepted_close r r' rest long bounded h =
        let c = authenticated stream_frame_close 0 r.sequence r.previous [] in
        let known =
          fields_of-authenticated stream_frame_close 0 r.sequence r.previous []
            (frame_mac hmac key c) long (length-frame_mac hmac key sized c) (omega arith) bounded in
        let g =
          subst (λ f. verify_fields hmac key f (record r { source = rest }) ≡ (ok tt, r')) known
            h in
        (ground (arith, g), ground (arith, g))
