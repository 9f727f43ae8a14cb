-- ===== src/Sync/Client/Waits.antt =====
-- The pace of Run (sync/sync.go): when it connects again, and what it waits before.
use atol_sdk_go.Prelude.{
  inl, inr, ℕ, suc, ◌*◌, ◌^◌, ltb, Bool, true, false, List, [], ◌∷◌, ◌++◌, length, All, Option,
  none, some, Option-cases, Bool-cases, Str, ◌≡◌, refl, ap, sym, subst, arith, if◌then◌else◌,
}
use atol_sdk_go.Sync.Client.State.{Setting, PolicyEngine, Client}
use atol_sdk_go.Sync.Client.Stream.{
  second, max_backoff, next_backoff, Attempt, Activity, connects, reloads, waits, StreamError,
  stream, rebootstrap, run_loop, run,
}

-- The wait after n failures in a row before it: 2^n seconds, and at most 30.
abbrev pub delay : ℕ → ℕ
delay n = if ltb max_backoff (second * 2 ^ n) then max_backoff else second * 2 ^ n

pow_suc : (n : ℕ) → 2 ^ suc n ≡ 2 * 2 ^ n
pow_suc n = omega arith

next_backoff-delay : (n : ℕ) → next_backoff (delay n) ≡ delay (suc n)
next_backoff-delay n = ground (arith, pow_suc n)

module _ (engine : PolicyEngine) where
  -- A pace after n failures in a row. A stream that ends with no error is opened again at once; after any
  -- other failure Run waits before it connects again, and a refused token has it call the callback before.
  -- A stream that ends with no error and a callback that succeeds start the count anew.
  pub data IsPaced : ℕ → List (Activity engine) → Type 0 where
    ended : {n : ℕ} → IsPaced n []
    clean :
        {n : ℕ} (rest : List (Activity engine))
        → IsPaced 0 rest
        → IsPaced n (connects false none ∷ rest)
    retried :
        {n : ℕ} (x : StreamError engine) (rest : List (Activity engine))
        → IsPaced (suc n) rest
        → IsPaced n (connects false (some x) ∷ waits (delay n) ∷ rest)
    refused :
        {n : ℕ} (x : Option (StreamError engine)) (rest : List (Activity engine))
        → IsPaced (suc n) rest
        → IsPaced n (connects true x ∷ reloads none ∷ waits (delay n) ∷ rest)
    renewed :
        {n : ℕ} (x : Option (StreamError engine)) (token : Str) (rest : List (Activity engine))
        → IsPaced 1 rest
        → IsPaced n (connects true x ∷ reloads (some token) ∷ waits (delay 0) ∷ rest)

  abbrev pub connections : List (Activity engine) → ℕ
  connections [] = 0
  connections (connects _ _ ∷ xs) = suc (connections xs)
  connections (reloads _ ∷ xs) = connections xs
  connections (waits _ ∷ xs) = connections xs

  -- The context is not done in the pass.
  abbrev pub IsLive : Attempt engine → Type 0
  IsLive a =
      (a.done_before_stream ≡ false) × (a.done_after_stream ≡ false) × (a.done_in_wait ≡ false)

  -- The loop goes on after so many passes.
  abbrev pub GoesOn : ℕ → ℕ → List (Activity engine) × Client engine × Bool → Type 0
  GoesOn n passes r = IsPaced n r.0 × (connections r.0 ≡ passes) × (r.2 ≡ false)

  module _ (w : Setting) where
    -- A pass, and the rest of the loop after it.
    unfoldable passed :
        (before : List (Activity engine)) (attempts : List (Attempt engine)) (backoff : ℕ)
        (c : Client engine)
        → List (Activity engine) × Client engine × Bool
    passed before attempts backoff c =
        let rest = run_loop engine w true attempts backoff c in (before ++ rest.0, rest.1, rest.2)

    loop-GoesOn :
        (n : ℕ) (attempts : List (Attempt engine)) (c : Client engine)
        → All IsLive attempts
        → GoesOn n (length attempts) (run_loop engine w true attempts (delay n) c)
    unfolding run_loop passed
    loop-GoesOn n [] c live = (ended, refl, refl)
    loop-GoesOn n (a ∷ more) c ((before, after, waiting), live) =
        let tried = stream engine w a.connection c in
        let answered = rebootstrap engine w a tried.2 in
        let result = run_loop engine w true (a ∷ more) (delay n) c in
        elim (Bool-cases tried.0) [
          | inl refuses ↦ elim (Option-cases a.new_token) [
            | inl fails ↦
                let same : passed (connects true tried.1 ∷ reloads none ∷ waits (delay n) ∷ []) more
                      (next_backoff (delay n)) answered
                    ≡ result =
                  ground (arith, before, after, waiting, refuses, fails) in
                let (paced, count, goes) =
                  subst (λ b. GoesOn (suc n) (length more) (run_loop engine w true more b answered))
                    (sym (next_backoff-delay n)) (loop-GoesOn (suc n) more answered live) in
                subst (GoesOn n (suc (length more))) same
                  (refused tried.1 _ paced, ap suc count, goes)
            | inr (token, renews) ↦
                let same : passed
                      (connects true tried.1 ∷ reloads (some token) ∷ waits (delay 0) ∷ []) more
                      (next_backoff (delay 0)) answered
                    ≡ result =
                  ground (arith, before, after, waiting, refuses, renews) in
                let (paced, count, goes) = loop-GoesOn 1 more answered live in
                subst (GoesOn n (suc (length more))) same
                  (renewed tried.1 token _ paced, ap suc count, goes)
          ]
          | inr held ↦ elim (Option-cases tried.1) [
            | inl ends ↦
                let same : passed (connects false none ∷ []) more second tried.2 ≡ result =
                  ground (arith, before, after, waiting, held, ends) in
                let (paced, count, goes) = loop-GoesOn 0 more tried.2 live in
                subst (GoesOn n (suc (length more))) same (clean _ paced, ap suc count, goes)
            | inr (x, breaks) ↦
                let same : passed (connects false (some x) ∷ waits (delay n) ∷ []) more
                      (next_backoff (delay n)) tried.2
                    ≡ result =
                  ground (arith, before, after, waiting, held, breaks) in
                let (paced, count, goes) =
                  subst (λ b. GoesOn (suc n) (length more) (run_loop engine w true more b tried.2))
                    (sym (next_backoff-delay n)) (loop-GoesOn (suc n) more tried.2 live) in
                subst (GoesOn n (suc (length more))) same (retried x _ paced, ap suc count, goes)
          ]
        ]

    -- With a callback, and while the context is not done, Run goes on: over any passes it connects once in
    -- each, and its pace is this. A stream that ends with no error is opened again at once; after n other
    -- failures in a row and one more it waits 2^n seconds, and at most 30, before it connects again; a refused
    -- token has it call the callback before the wait; and the count starts anew after a stream that ends with
    -- no error, or a callback that succeeds.
    pub run-IsPaced :
        (attempts : List (Attempt engine)) (c : Client engine)
        → All IsLive attempts
        → IsPaced 0 (run engine w true attempts c).0
          × (connections (run engine w true attempts c).0 ≡ length attempts)
          × ((run engine w true attempts c).2 ≡ false)
    unfolding run
    run-IsPaced attempts c live = loop-GoesOn 0 attempts c live
