-- ===== src/Hmac/Authentic.antt =====
-- What the verified reader delivers is what was sent, in order (hmac/stream.go, readFrame).
use atol_sdk_go.Prelude.{
  ℕ, zero, suc, ◌+◌, ◌^◌, ◌<◌, ◌≤◌, false, List, [], ◌∷◌, ◌++◌, length, All, Member, Str, ◌≡◌, refl,
  ap, sym, subst, ◌∙◌, ◌⊎◌, inl, inr, ok, Result-cases, arith, append_assoc, append_nil,
}
use atol_sdk_go.Hmac.Bytes.{length-put_be}
use atol_sdk_go.Hmac.Stream.{
  StreamError, no_mac, VerifiedStreamReader, new_verified_stream_body, fields_of, frame_mac,
  verify_fields, read_frame,
}
use atol_sdk_go.Hmac.Steps.{
  Envelope, envelope_bytes, Fits, End, finished, failed, deliver, covered_data, length-frame_mac,
}
use atol_sdk_go.Hmac.RoundTrip.{stream_bytes, drained, deliver_step, deliver-nothing}
use atol_sdk_go.Hmac.Accepted.{
  covered_of, accepted, messages, sequence_of, head_message, read_frame-ok, later, head_sequence,
  accepted_data, accepted_close,
}

module _ (hmac : Str → Str → Str) (key : Str) where
  module _ (sized : (k m : Str) → length (hmac k m) ≡ 32) where
    module _ (all : List Str) where
      -- A reader before the envelopes `left`: the messages that the sender has computed a MAC of are, from
      -- its sequence number on, those of these envelopes.
      record Awaits (left : List Envelope) (r : VerifiedStreamReader) : Type 0 where
        tail :
            (m : Str)
            → Member m all
            → r.sequence ≤ sequence_of hmac key m
            → Member m (messages hmac key r.sequence r.previous left)
        fits : All Fits left
        bounded : r.sequence + length left < 2 ^ 64
        long : length r.previous ≡ 32
        open_still : r.closed ≡ false
        empty : r.pending ≡ []

      -- The next frame is refused, or it is that of the first envelope that is left.
      next_frame :
          (left : List Envelope) (fuel : ℕ) (r : VerifiedStreamReader)
          → Awaits left r
          → All (λ m. Member m all) (accepted hmac key (suc fuel) r)
          → ((x : StreamError) × (deliver hmac key (suc fuel) r ≡ ([], failed x)))
            ⊎ ((r' : VerifiedStreamReader) × (rest : Str) × (read_frame hmac key r ≡ (ok tt, r'))
                × (verify_fields hmac key
                      (fields_of (
                        head_message hmac key sized r.sequence r.previous left
                        ++ frame_mac hmac key
                            (head_message hmac key sized r.sequence r.previous left)))
                      (record r { source = rest })
                    ≡ (ok tt, r'))
                × All (λ m. Member m all) (accepted hmac key fuel (drained hmac key r')))
      unfolding accepted deliver
      next_frame left fuel r w sent = elim (Result-cases (read_frame hmac key r).0) [
        | inr (x, bad) ↦ inl (x, ground (arith, bad, w.open_still))
        | inl (done, fine) ↦
            let r' = (read_frame hmac key r).1 in
            let m = covered_of r.source in
            let read : read_frame hmac key r ≡ (ok tt, r') = λ i. (fine i, r') in
            let (rest, verified, in_order) = read_frame-ok hmac key r r' read in
            let same_list : accepted hmac key (suc fuel) r
                ≡ m ∷ accepted hmac key fuel (drained hmac key r') =
              ground (arith, w.open_still, fine) in
            let both = subst (All (λ x. Member x all)) same_list sent in
            let here = w.tail m both.0 (omega (arith, in_order)) in
            elim (later hmac key sized left r.sequence r.previous m w.fits w.bounded w.long here) [
              | inr late ↦ absurd (omega (arith, late, in_order))
              | inl same ↦ inr (
                r',
                rest,
                read,
                subst
                    (λ c.
                      verify_fields hmac key (fields_of (c ++ frame_mac hmac key c))
                        (record r { source = rest })
                      ≡ (ok tt, r'))
                    same verified,
                both.1,
              )
            ]
      ]

      Awaits-next :
          (e : Envelope) (es : List Envelope) (r r' : VerifiedStreamReader)
          → Awaits (e ∷ es) r
          → r'.previous ≡ frame_mac hmac key (covered_data hmac key r.sequence r.previous e)
          → r'.sequence ≡ r.sequence + 1
          → r'.closed ≡ r.closed
          → Awaits es (drained hmac key r')
      unfolding messages
      Awaits-next e es r r' w previous sequence closed = record {
        tail = λ m known least. elim (w.tail m known (omega (arith, sequence, least))) [
          | inl same ↦ absurd (
              omega (
                arith,
                sequence,
                least,
                ap (sequence_of hmac key) same,
                head_sequence hmac key sized (e ∷ es) r.sequence r.previous w.fits w.bounded w.long,
              ))
          | inr more ↦
              subst (λ q. Member m (messages hmac key r'.sequence q es)) (sym previous)
                (subst
                  (λ n. Member m (
                    messages hmac key n
                      (frame_mac hmac key (covered_data hmac key r.sequence r.previous e)) es))
                  (sym sequence) more)
        ];
        fits = w.fits.1;
        bounded = omega (arith, sequence, w.bounded);
        long =
            ap length previous
            ∙ length-frame_mac hmac key sized (covered_data hmac key r.sequence r.previous e);
        open_still = closed ∙ w.open_still;
        empty = refl;
      }

      abbrev pub IsFromStart : List Envelope → Str × End → Type 0
      IsFromStart left d =
          (rest : Str) × (stream_bytes left ≡ d.0 ++ rest) × (d.1 ≡ finished → rest ≡ [])

      deliver-IsFromStart :
          (left : List Envelope) (fuel : ℕ) (r : VerifiedStreamReader)
          → Awaits left r
          → All (λ m. Member m all) (accepted hmac key fuel r)
          → IsFromStart left (deliver hmac key fuel r)
      unfolding deliver
      deliver-IsFromStart left zero r w sent =
          (stream_bytes left, refl, λ e. absurd (ground (arith, e)))
      deliver-IsFromStart [] (suc fuel) r w sent = elim (next_frame [] fuel r w sent) [
        | inl (x, bad) ↦ subst (IsFromStart []) (sym bad) ([], refl, λ e. refl)
        | inr (r', rest, read, verified, others) ↦
            let (closed, pending) =
              accepted_close hmac key sized r r' rest w.long (omega (arith, w.bounded)) verified in
            let nothing : (deliver hmac key (suc fuel) r).0 ≡ [] =
              ap (λ d. d.0) (deliver_step hmac key fuel r r' w.open_still read)
              ∙ ap (λ p. p ++ (deliver hmac key fuel (drained hmac key r')).0) (pending ∙ w.empty)
              ∙ deliver-nothing hmac key fuel (drained hmac key r') closed in
            ([], sym (append_nil _ ∙ nothing), λ e. refl)
      ]
      deliver-IsFromStart (e ∷ es) (suc fuel) r w sent = elim (next_frame (e ∷ es) fuel r w sent) [
        | inl (x, bad) ↦
            subst (IsFromStart (e ∷ es)) (sym bad)
              (stream_bytes (e ∷ es), refl, λ e. absurd (ground (arith, e)))
        | inr (r', rest, read, verified, others) ↦
            let (previous, sequence, pending, closed) =
              accepted_data hmac key sized e r r' rest w.fits.0 w.long (omega (arith, w.bounded))
                verified in
            let (more, bytes_of, ended) =
              deliver-IsFromStart es fuel (drained hmac key r')
                (Awaits-next e es r r' w previous sequence closed) others in
            subst (IsFromStart (e ∷ es)) (sym (deliver_step hmac key fuel r r' w.open_still read)) (
              more,
              ap (λ s. envelope_bytes e ++ s) bytes_of
                  ∙ sym (
                      append_assoc (envelope_bytes e)
                        (deliver hmac key fuel (drained hmac key r')).0 more)
                  ∙ ap (λ p. (p ++ (deliver hmac key fuel (drained hmac key r')).0) ++ more)
                      (sym pending),
              ended,
            )
      ]

    -- Where the reader accepts only what the sender has computed a MAC of, what it delivers is what was sent.
    pub accepted-IsFromStart :
        (es : List Envelope) (fuel : ℕ) (source : Str)
        → All Fits es
        → length es < 2 ^ 64
        → All
            (λ m. Member m (messages hmac key 0 no_mac es))
            (accepted hmac key fuel (new_verified_stream_body source))
        → IsFromStart
            (messages hmac key 0 no_mac es)
            es
            (deliver hmac key fuel (new_verified_stream_body source))
    accepted-IsFromStart es fuel source fits bounded sent =
        deliver-IsFromStart (messages hmac key 0 no_mac es) es fuel
          (new_verified_stream_body source)
          (record {
            tail = λ m known least. known;
            fits = fits;
            bounded = omega arith;
            long = length-put_be 32 0;
            open_still = refl;
            empty = refl;
          })
          sent
