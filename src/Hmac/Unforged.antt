-- ===== src/Hmac/Unforged.antt =====
-- What the verified reader delivers is what was sent, in order (hmac/stream.go, readFrame), where nobody
-- else can compute the MAC of a frame.
use atol_sdk_go.Prelude.{
  ℕ, zero, suc, ◌-◌, ◌^◌, ◌<◌, List, [], ◌∷◌, ◌++◌, length, take, drop, All, Member, Str, ◌≡◌, inl,
  inr, ok, Result-cases, Bool-cases, arith, sym, subst,
}
use atol_sdk_go.Hmac.Bytes.{uint, full, read_full}
use atol_sdk_go.Hmac.Stream.{
  no_mac, VerifiedStreamReader, new_verified_stream_body, Fields, fields_of, frame_mac,
  verify_fields, read_frame,
}
use atol_sdk_go.Hmac.Steps.{Envelope, Fits, finished, deliver}
use atol_sdk_go.Hmac.RoundTrip.{stream_bytes, drained}
use atol_sdk_go.Hmac.Accepted.{Filled-cases, covered_of, accepted, messages, verify_fields-ok}
use atol_sdk_go.Hmac.Authentic.{accepted-IsFromStart}

-- The frames that stand in some bytes, cut by their outer lengths alone: nothing of them is verified.
unfoldable pub frames : ℕ → Str → List Str
frames zero source = []
frames (suc fuel) source = elim (read_full 5 source) [
  | full outer rest ↦ elim (read_full (uint (drop 1 outer)) rest) [
    | full frame rest' ↦ frame ∷ frames fuel rest'
    | _ ↦ []
  ]
  | _ ↦ []
]

-- The part of a frame that its MAC is of, and the MAC that it carries.
abbrev pub body_of : Str → Str
body_of frame = take (length frame - 32) frame

abbrev pub tag_of : Str → Str
tag_of frame = drop (length frame - 32) frame

module _ (hmac : Str → Str → Str) (key : Str) where
  -- The frame has a right MAC only where it is of one of the messages.
  abbrev pub IsUnforged : List Str → Str → Type 0
  IsUnforged sent frame =
      tag_of frame ≡ frame_mac hmac key (body_of frame) → Member (body_of frame) sent

  verify_fields-source :
      (f : Fields) (r r' : VerifiedStreamReader)
      → verify_fields hmac key f r ≡ (ok tt, r')
      → r'.source ≡ r.source
  unfolding verify_fields
  verify_fields-source f r r' h = ground (arith, h)

  -- A frame that is read is the first in the bytes, it has a right MAC, and the next one follows it.
  read_frame-frames :
      (r r' : VerifiedStreamReader) (fuel : ℕ)
      → read_frame hmac key r ≡ (ok tt, r')
      → (f : Str) × (frames (suc fuel) r.source ≡ f ∷ frames fuel r'.source)
        × (covered_of r.source ≡ body_of f)
        × (tag_of f ≡ frame_mac hmac key (body_of f))
  unfolding read_frame covered_of frames fields_of
  read_frame-frames r r' fuel h = elim (Filled-cases (read_full 5 r.source)) [
    | inr bad ↦ absurd (ground (arith, h, bad))
    | inl (outer, rest, got) ↦ elim (Filled-cases (read_full (uint (drop 1 outer)) rest)) [
      | inr bad ↦ absurd (ground (arith, h, got, bad))
      | inl (f, rest', whole) ↦
          let checked : verify_fields hmac key (fields_of f) (record r { source = rest' })
              ≡ (ok tt, r') =
            ground (arith, h, got, whole) in
          let left = verify_fields-source (fields_of f) (record r { source = rest' }) r' checked in
          (
            f,
            ground (arith, got, whole, left),
            ground (arith, got, whole),
            (verify_fields-ok hmac key (fields_of f) (record r { source = rest' }) r' checked).1,
          )
    ]
  ]

  -- So the reader accepts nothing but messages.
  accepted-sent :
      (sent : List Str) (fuel : ℕ) (r : VerifiedStreamReader)
      → All (IsUnforged sent) (frames fuel r.source)
      → All (λ m. Member m sent) (accepted hmac key fuel r)
  unfolding accepted
  accepted-sent sent zero r unforged = tt
  accepted-sent sent (suc fuel) r unforged = elim (Bool-cases r.closed) [
    | inl closed ↦ ground (arith, closed)
    | inr still ↦ elim (Result-cases (read_frame hmac key r).0) [
      | inr (x, bad) ↦ ground (arith, still, bad)
      | inl (done, fine) ↦
          let r' = (read_frame hmac key r).1 in
          let (f, first, covered, tagged) = read_frame-frames r r' fuel (λ i. (fine i, r')) in
          let (here, later) = subst (All (IsUnforged sent)) first unforged in
          let mine : Member (covered_of r.source) sent =
            subst (λ m. Member m sent) (sym covered) (here tagged) in
          let rest = accepted-sent sent fuel (drained hmac key r') later in
          ground (arith, still, fine, mine, rest)
    ]
  ]

  module _ (sized : (k m : Str) → length (hmac k m) ≡ 32) where
    -- Whatever bytes arrive: where a frame in them has a right MAC only if the sender has computed it for the
    -- stream (nobody else has the key), what the reader delivers is what was sent, from the start and in
    -- order, and it reports EOF only after all of it. So no frame is lost, repeated, moved, altered or cut
    -- off unseen. The sender's envelopes are fewer than 2^64, and none is above the maximum.
    pub deliver_authentic :
        (es : List Envelope) (fuel : ℕ) (source : Str)
        → All Fits es
        → length es < 2 ^ 64
        → All (IsUnforged (messages hmac key 0 no_mac es)) (frames fuel source)
        → (rest : Str) × (stream_bytes es
            ≡ (deliver hmac key fuel (new_verified_stream_body source)).0 ++ rest)
          × ((deliver hmac key fuel (new_verified_stream_body source)).1 ≡ finished → rest ≡ [])
    deliver_authentic es fuel source fits bounded unforged =
        accepted-IsFromStart hmac key sized es fuel source fits bounded (
          accepted-sent (messages hmac key 0 no_mac es) fuel (new_verified_stream_body source)
            unforged)
