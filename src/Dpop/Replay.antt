-- ===== src/Dpop/Replay.antt =====
-- A proof is accepted once (dpop.go): validateString over the in-memory guard.
use atol_sdk_go.Prelude.{
  not_less_trans, ℤ, less, Bool, true, false, List, [], ◌∷◌, Option, some, Str, Result, ok, Map,
  lookup, lookup-insert, ◌≡◌, ◌≢◌, inl, inr, All, arith, sym, ap, subst, ◌∙◌, Option-cases,
  Result-cases,
}
use atol_sdk_go.Dpop.Guard.{MemoryReplayGuard, prune_expired, check_and_record}
use atol_sdk_go.Dpop.Validate.{
  Libraries, DpopError, Claims, DpopValidator, DpopProof, proof_key, check_claims, read_proof,
  validate_string, expiry,
}

lookup-prune_expired :
    (now t : ℤ) (jti : Str) (m : Map ℤ)
    → lookup jti m ≡ some t
    → less t now ≡ false
    → lookup jti (prune_expired now m) ≡ some t
unfolding prune_expired lookup
lookup-prune_expired now t jti [] found fresh = cc
lookup-prune_expired now t jti ((j, u) ∷ m) found fresh =
    ground (arith, lookup-prune_expired now t jti m)

-- A record that has not expired stays.
check_and_record-keeps :
    (now t expires_at : ℤ) (jti other : Str) (g : MemoryReplayGuard)
    → lookup jti g.seen ≡ some t
    → less t now ≡ false
    → lookup jti (check_and_record now other expires_at g).1.seen ≡ some t
unfolding check_and_record
check_and_record-keeps now t expires_at jti other g found fresh = ground (
  arith,
  lookup-prune_expired now t jti g.seen found fresh,
  lookup-insert other jti expires_at (prune_expired now g.seen),
)

abbrev pub memory_check : ℤ → Str → ℤ → MemoryReplayGuard → Option Bool × MemoryReplayGuard
memory_check now jti expires_at g =
    let checked = check_and_record now jti expires_at g in (some checked.0, checked.1)

-- A call of validateString, with the clock it reads and the clock that its guard reads.
pub record Call : Type 0 where
  pub now : ℤ
  pub guard_now : ℤ
  pub raw : Str
  pub htm : Str
  pub htu : Str
  pub expected_jkt : Str
  pub access_token : Str

earlier :
    (limit now : ℤ) (cs : List Call)
    → less limit now ≡ false
    → All (λ c. less now c.guard_now ≡ false) cs
    → All (λ c. less limit c.guard_now ≡ false) cs
earlier limit now [] h k = tt
earlier limit now (c ∷ cs) h k =
    (not_less_trans c.guard_now now limit k.0 h, earlier limit now cs h k.1)

module _ (libs : Libraries) (v : DpopValidator) where
  unfoldable pub attempt : Call → MemoryReplayGuard → Result DpopError DpopProof × MemoryReplayGuard
  attempt c g =
      validate_string libs (memory_check c.guard_now) v c.now c.raw c.htm c.htu c.expected_jkt
        c.access_token g

  -- The guard after some calls.
  unfoldable pub after : List Call → MemoryReplayGuard → MemoryReplayGuard
  after [] g = g
  after (c ∷ cs) g = after cs (attempt c g).1

  -- What an accepted call has read.
  accepted :
      (c : Call) (g : MemoryReplayGuard) (p : DpopProof)
      → (attempt c g).0 ≡ ok p
      → (key : libs.Key) × (claims : Claims) × (read_proof libs v c.now c.raw c.htm c.htu
            c.access_token
          ≡ ok (key, claims))
        × ((check_and_record c.guard_now claims.jti (expiry libs v claims) g).0 ≡ true)
        × ((attempt c g).1 ≡ (check_and_record c.guard_now claims.jti (expiry libs v claims) g).1)
  unfolding attempt validate_string
  accepted c g p e =
      elim (Result-cases (read_proof libs v c.now c.raw c.htm c.htu c.access_token)) [
        | inr (x, failed) ↦ absurd (ground (arith, e, failed))
        | inl ((key, claims), read) ↦
            (key, claims, read, ground (arith, e, read), ground (arith, e, read))
      ]

  attempt-keeps :
      (c : Call) (jti : Str) (t : ℤ) (g : MemoryReplayGuard)
      → lookup jti g.seen ≡ some t
      → less t c.guard_now ≡ false
      → lookup jti (attempt c g).1.seen ≡ some t
  unfolding attempt validate_string
  attempt-keeps c jti t g found fresh =
      elim (Result-cases (read_proof libs v c.now c.raw c.htm c.htu c.access_token)) [
        | inr (x, failed) ↦ ground (arith, found, failed)
        | inl ((key, claims), read) ↦ ground (
          arith,
          read,
          check_and_record-keeps c.guard_now t (expiry libs v claims) jti claims.jti g found fresh,
        )
      ]

  after-keeps :
      (cs : List Call) (jti : Str) (t : ℤ) (g : MemoryReplayGuard)
      → lookup jti g.seen ≡ some t
      → All (λ c. less t c.guard_now ≡ false) cs
      → lookup jti (after cs g).seen ≡ some t
  unfolding after
  after-keeps [] jti t g found h = found
  after-keeps (c ∷ cs) jti t g found h =
      after-keeps cs jti t (attempt c g).1 (attempt-keeps c jti t g found h.0) h.1

  recorded :
      (now t : ℤ) (jti : Str) (g : MemoryReplayGuard)
      → (check_and_record now jti t g).0 ≡ true
      → lookup jti (check_and_record now jti t g).1.seen ≡ some t
  unfolding check_and_record
  recorded now t jti g fresh =
      ground (arith, fresh, lookup-insert jti jti t (prune_expired now g.seen))

  refused :
      (now t u : ℤ) (jti : Str) (g : MemoryReplayGuard)
      → lookup jti g.seen ≡ some t
      → less t now ≡ false
      → (check_and_record now jti u g).0 ≡ false
  unfolding check_and_record
  refused now t u jti g found fresh =
      ground (arith, lookup-prune_expired now t jti g.seen found fresh)

  -- What an accepted proof has passed.
  read_lem :
      (now : ℤ) (raw htm htu token : Str) (k : libs.Key) (x : Claims)
      → read_proof libs v now raw htm htu token ≡ ok (k, x)
      → (t : libs.Token) × (libs.parse_signed raw ≡ some t)
        × (proof_key libs t ≡ ok k)
        × (libs.verified_claims t k ≡ some x)
        × (check_claims libs v now htm htu token x ≡ ok tt)
  unfolding read_proof
  read_lem now raw htm htu token k x e = elim (Option-cases (libs.parse_signed raw)) [
    | inl none_read ↦ absurd (ground (arith, e, none_read))
    | inr (t, parsed) ↦ elim (Result-cases (proof_key libs t)) [
      | inr (bad, failed) ↦ absurd (ground (arith, e, parsed, failed))
      | inl (key, keyed) ↦ elim (Option-cases (libs.verified_claims t key)) [
        | inl unverified ↦ absurd (ground (arith, e, parsed, keyed, unverified))
        | inr (claims, verified) ↦
            elim (Result-cases (check_claims libs v now htm htu token claims)) [
              | inr (bad, failed) ↦ absurd (ground (arith, e, parsed, keyed, verified, failed))
              | inl (done, passed) ↦
                  let same_key : key ≡ k = ground (arith, e, parsed, keyed, verified, passed) in
                  let same_claims : claims ≡ x =
                    ground (arith, e, parsed, keyed, verified, passed) in
                  (
                    t,
                    parsed,
                    keyed ∙ ap ok same_key,
                    subst (λ j. libs.verified_claims t j ≡ some claims) same_key verified
                        ∙ ap some same_claims,
                    subst (λ z. check_claims libs v now htm htu token z ≡ ok tt) same_claims passed,
                  )
            ]
      ]
    ]
  ]

  unexpired :
      (now : ℤ) (htm htu token : Str) (x : Claims)
      → check_claims libs v now htm htu token x ≡ ok tt
      → less (expiry libs v x) now ≡ false
  unfolding check_claims
  unexpired now htm htu token x e = ground arith

  same_claims :
      (raw : Str) (t u : libs.Token) (k l : libs.Key) (x y : Claims)
      → libs.parse_signed raw ≡ some t
      → libs.parse_signed raw ≡ some u
      → proof_key libs t ≡ ok k
      → proof_key libs u ≡ ok l
      → libs.verified_claims t k ≡ some x
      → libs.verified_claims u l ≡ some y
      → x ≡ y
  same_claims raw t u k l x y a b c d e f = cc

  -- Once validateString, over the in-memory guard, has accepted a proof, no later call
  -- accepts the same proof, whatever method, URI, key binding and access token either names:
  -- where the guard of the later call reads the time at which the call tests the proof's age,
  -- and no guard in between reads a later one.
  pub attempt-once :
      (first second : Call) (between : List Call) (g : MemoryReplayGuard) (p q : DpopProof)
      → (attempt first g).0 ≡ ok p
      → second.raw ≡ first.raw
      → second.guard_now ≡ second.now
      → All (λ c. less second.now c.guard_now ≡ false) between
      → (attempt second (after between (attempt first g).1)).0 ≢ ok q
  attempt-once first second between g p q accepts same_raw same_clock in_order again =
      let (k, x, read, fresh, next) = accepted first g p accepts in
      let (l, y, read', fresh', next') =
        accepted second (after between (attempt first g).1) q again in
      let (t, parsed, keyed, verified, passed) =
        read_lem first.now first.raw first.htm first.htu first.access_token k x read in
      let (u, parsed', keyed', verified', passed') =
        read_lem second.now second.raw second.htm second.htu second.access_token l y read' in
      let equal : x ≡ y =
        same_claims first.raw t u k l x y parsed
          (subst (λ r. libs.parse_signed r ≡ some u) same_raw parsed') keyed keyed' verified
          verified' in
      let alive : less (expiry libs v x) second.now ≡ false =
        subst (λ z. less (expiry libs v z) second.now ≡ false) (sym equal)
          (unexpired second.now second.htm second.htu second.access_token y passed') in
      let kept =
        after-keeps between x.jti (expiry libs v x) (attempt first g).1
          (subst (λ h. lookup x.jti h.seen ≡ some (expiry libs v x)) (sym next)
            (recorded first.guard_now (expiry libs v x) x.jti g fresh))
          (earlier (expiry libs v x) second.now between alive in_order) in
      let stopped =
        refused second.now (expiry libs v x) (expiry libs v x) x.jti
          (after between (attempt first g).1) kept alive in
      let passes =
        subst
          (λ n.
            (check_and_record n x.jti (expiry libs v x) (after between (attempt first g).1)).0
            ≡ true)
          same_clock
          (subst
            (λ z.
              (check_and_record second.guard_now z.jti (expiry libs v z)
                (after between (attempt first g).1)).0
              ≡ true)
            (sym equal) fresh') in
      cc
