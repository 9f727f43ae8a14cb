-- ===== src/Hmac/Reads.antt =====
-- Read hands out the stream piece by piece (hmac/stream.go, verifiedStreamReader.Read).
use atol_sdk_go.Prelude.{
  ℕ, zero, suc, ◌<◌, true, Bool-cases, [], ◌∷◌, ◌++◌, length, take, drop, take-drop, some, Str,
  str_dec, ◌≡◌, ◌≢◌, refl, ◌⊎◌, inl, inr, ok, Result-cases, arith, ap, sym, ◌∙◌, append_assoc,
}
use atol_sdk_go.Hmac.Stream.{
  VerifiedStreamReader, verify_fields, read_frame, ReadResult, delivered, eof, read_failed,
  read_loop, read_verified, Fields, fields_of, frame_mac,
}
use atol_sdk_go.Hmac.Steps.{End, finished, failed, deliver}
use atol_sdk_go.Hmac.RoundTrip.{drained, deliver_step, deliver-closed}
use atol_sdk_go.Hmac.Accepted.{covered_of, read_frame-ok}

length-ne-zero : (s : Str) → s ≢ [] → length s ≢ 0
length-ne-zero [] h e = absurd (h refl)
length-ne-zero (b ∷ s) h e = absurd (omega (arith, e))

module _ (hmac : Str → Str → Str) (key : Str) where
  -- The pending bytes and the rest of the stream.
  abbrev pub remaining : ℕ → VerifiedStreamReader → Str × End
  remaining fuel r = (
    r.pending ++ (deliver hmac key fuel (drained hmac key r)).0,
    (deliver hmac key fuel (drained hmac key r)).1,
  )

  abbrev pub prepend : Str → Str × End → Str × End
  prepend s d = (s ++ d.0, d.1)

  -- What an answer of Read says of the stream.
  abbrev pub Agrees : ℕ → VerifiedStreamReader → ReadResult → VerifiedStreamReader → Type 0
  Agrees fuel r (delivered s) r' =
      (s ≢ [])
      × ((remaining (suc (suc fuel)) r ≡ prepend s (remaining (suc (suc fuel)) r'))
          ⊎ (remaining (suc (suc fuel)) r ≡ prepend s (remaining (suc fuel) r')))
  Agrees fuel r eof r' = remaining (suc (suc fuel)) r ≡ ([], finished)
  Agrees fuel r (read_failed e) r' = remaining (suc (suc fuel)) r ≡ ([], failed e)

  -- A frame that is accepted leaves bytes, or closes the stream.
  verify_fields-progress :
      (f : Fields) (r r' : VerifiedStreamReader)
      → verify_fields hmac key f r ≡ (ok tt, r')
      → (r'.pending ≢ []) ⊎ ((r'.closed ≡ true) × (r'.pending ≡ r.pending))
  unfolding verify_fields
  verify_fields-progress f r r' h = elim (str_dec r'.pending []) [
    | no p ↦ inl p
    | yes p ↦ inr (ground (arith, h, p))
  ]

  hand_out-remaining :
      (fuel n : ℕ) (r : VerifiedStreamReader)
      → remaining fuel r
        ≡ prepend (take n r.pending) (remaining fuel (record r { pending = drop n r.pending }))
  hand_out-remaining fuel n r =
      ap (λ p. prepend p (deliver hmac key fuel (drained hmac key r))) (sym (take-drop n r.pending))
      ∙ ap (λ s. (s, (deliver hmac key fuel (drained hmac key r)).1))
          (append_assoc (take n r.pending) (drop n r.pending)
            (deliver hmac key fuel (drained hmac key r)).0)

  abbrev handed : ℕ → VerifiedStreamReader → VerifiedStreamReader
  handed n r = record r { pending = drop n r.pending }

  take-ne-nil : (n : ℕ) (s : Str) → 0 < n → s ≢ [] → take n s ≢ []
  take-ne-nil zero s h some_left e = absurd (omega arith)
  take-ne-nil (suc n) [] h some_left e = absurd (some_left refl)
  take-ne-nil (suc n) (b ∷ s) h some_left e = absurd (cc)

  read_loop-pending :
      (fuel n : ℕ) (r : VerifiedStreamReader)
      → r.pending ≢ []
      → read_loop hmac (suc fuel) key n r ≡ some (delivered (take n r.pending), handed n r)
  unfolding read_loop
  read_loop-pending fuel n r some_left =
      let long : length r.pending ≢ 0 = length-ne-zero r.pending some_left in ground (arith, long)

  remaining-empty :
      (fuel : ℕ) (r : VerifiedStreamReader)
      → r.pending ≡ []
      → remaining fuel r ≡ deliver hmac key fuel (drained hmac key r)
  remaining-empty fuel r empty =
      ap (λ p. prepend p (deliver hmac key fuel (drained hmac key r))) empty

  remaining-closed :
      (fuel : ℕ) (r : VerifiedStreamReader)
      → r.pending ≡ []
      → r.closed ≡ true
      → remaining (suc fuel) r ≡ ([], finished)
  remaining-closed fuel r empty closed =
      remaining-empty (suc fuel) r empty
      ∙ deliver-closed hmac key (suc fuel) (drained hmac key r) closed (omega arith)

  -- Read into a target that is not empty always returns: bytes, the next of the stream; EOF, where the stream
  -- has ended; or an error, where the stream fails there. It never returns no bytes without an error.
  pub read_verified-Agrees :
      (fuel n : ℕ) (r : VerifiedStreamReader)
      → 0 < n
      → (answer : ReadResult) × (r' : VerifiedStreamReader) × (read_verified hmac key n r
          ≡ some (answer, r'))
        × Agrees fuel r answer r'
  unfolding read_verified
  read_verified-Agrees fuel n r room = elim (str_dec r.pending []) [
    | no some_left ↦ (
      delivered (take n r.pending),
      handed n r,
      read_loop-pending 1 n r some_left,
      (take-ne-nil n r.pending room some_left, inl (hand_out-remaining (suc (suc fuel)) n r)),
    )
    | yes empty ↦ elim (Bool-cases r.closed) [
      | inl closed ↦ (
        eof,
        r,
        unfold read_loop in ground (arith, empty, closed),
        remaining-closed (suc fuel) r empty closed,
      )
      | inr opened ↦
          let r1 = (read_frame hmac key r).1 in
          let same : drained hmac key r ≡ r = λ i. record r { pending = sym empty i } in
          elim (Result-cases (read_frame hmac key r).0) [
            | inr (e, bad) ↦ (
              read_failed e,
              r1,
              unfold read_loop in ground (arith, empty, opened, bad),
              remaining-empty (suc (suc fuel)) r empty
                  ∙ ap (deliver hmac key (suc (suc fuel))) same
                  ∙ unfold deliver in ground (arith, opened, bad),
            )
            | inl (done, fine) ↦
                let read : read_frame hmac key r ≡ (ok tt, r1) = λ i. (fine i, r1) in
                let step : remaining (suc (suc fuel)) r ≡ remaining (suc fuel) r1 =
                  remaining-empty (suc (suc fuel)) r empty
                  ∙ ap (deliver hmac key (suc (suc fuel))) same
                  ∙ deliver_step hmac key (suc fuel) r r1 opened read in
                let (rest, verified, in_order) = read_frame-ok hmac key r r1 read in
                let again : read_loop hmac 2 key n r ≡ read_loop hmac 1 key n r1 =
                  unfold read_loop in ground (arith, empty, opened, fine) in
                elim (verify_fields-progress
                  (fields_of (covered_of r.source ++ frame_mac hmac key (covered_of r.source)))
                  (record r { source = rest }) r1 verified) [
                    | inl some_left ↦ (
                      delivered (take n r1.pending),
                      handed n r1,
                      again ∙ read_loop-pending 0 n r1 some_left,
                      (
                        take-ne-nil n r1.pending room some_left,
                        inr (step ∙ hand_out-remaining (suc fuel) n r1),
                      ),
                    )
                    | inr (closed, kept) ↦ (
                      eof,
                      r1,
                      again ∙ (unfold read_loop in ground (arith, empty, closed, kept)),
                      step ∙ remaining-closed fuel r1 (kept ∙ empty) closed,
                    )
                  ]
          ]
    ]
  ]
