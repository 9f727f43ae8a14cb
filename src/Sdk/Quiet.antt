-- ===== src/Sdk/Quiet.antt =====
-- A gated read after the stream has gone quiet (staleness.go over sync/sync.go).
use atol_sdk_go.Prelude.{
  ℕ, ◌+◌, ◌≤◌, ◌<◌, ℤ, pos, difference, false, [], ◌∷◌, List, All, none, some, Str, Result, err,
  ◌≡◌, ◌≢◌, refl, ◌⊎◌, inl, inr, arith, Result-cases, Bool-cases,
}
use atol_sdk_go.Sync.Client.State.{
  Setting, PolicyEngine, Client, status, mark_stream_open, set_continuation_token,
}
use atol_sdk_go.Sync.Client.Stream.{
  Receipt, Connection, applied, advance_token, receive_all, stream,
}
use atol_sdk_go.Sync.Client.Token.{applied-token}
use atol_sdk_go.Sdk.Gate.{
  StalenessMode, staleness_off, staleness_error, staleness_fail_closed, EvalResult, EvalInput,
  AuthError, refused, stale_result, stale_error, stale_deny, Atol, mode, check_stale,
  require_serving_active, evaluate_gated,
}

mode-cases :
    (m : StalenessMode) → m ≢ staleness_off → (m ≡ staleness_error) ⊎ (m ≡ staleness_fail_closed)
mode-cases staleness_off h = absurd (h refl)
mode-cases staleness_error h = inl refl
mode-cases staleness_fail_closed h = inr refl

module _ (engine : PolicyEngine) (w : Setting) where
  advance-activity :
      (token : Str) (c : Client engine)
      → (advance_token engine w token c).last_stream_activity ≡ c.last_stream_activity
  unfolding set_continuation_token
  advance-activity token c = ground arith

  receive_all-activity :
      (challenge : Str) (rs : List (Receipt engine)) (c : Client engine) (limit : ℕ)
      → c.last_stream_activity ≤ limit
      → All (λ r. r.received_at ≤ limit) rs
      → (receive_all engine w challenge rs c).1.last_stream_activity ≤ limit
  unfolding receive_all
  receive_all-activity challenge [] c limit low h = low
  receive_all-activity challenge (r ∷ rs) c limit low h =
      let first = applied engine w challenge r c in
      let next = advance_token engine w r.msg.continuation_token first.1 in
      let seen : first.1.last_stream_activity ≤ limit =
        omega (arith, (applied-token engine w challenge r c).1, h.0) in
      elim (Result-cases first.0) [
        | inr (x, e) ↦ ground (arith, e, seen)
        | inl (done, e) ↦
            let rest =
              receive_all-activity challenge rs next limit
                (omega (arith, seen, advance-activity r.msg.continuation_token first.1)) h.1 in
            ground (arith, e, rest)
      ]

  -- After a connection that was opened has ended, the client is not connected, and its last activity is
  -- not after the last message.
  stream-quiet :
      (k : Connection engine) (c : Client engine) (challenge : Str) (limit : ℕ)
      → k.challenge ≡ some challenge
      → k.open_error ≡ none
      → k.opened_at ≤ limit
      → All (λ r. r.received_at ≤ limit) k.receipts
      → ((stream engine w k c).2.connected ≡ false)
        × ((stream engine w k c).2.last_stream_activity ≤ limit)
  unfolding stream
  stream-quiet k c challenge limit given opens start h =
      let seen =
        receive_all-activity challenge k.receipts (mark_stream_open engine k.opened_at c) limit
          start h in
      ground (arith, given, opens, seen)

  module _ {X : Type 0} (evaluate : EvalInput X → Result Str EvalResult) where
    stale_at :
        (a : Atol engine) (client : Client engine) (now budget limit : ℕ)
        → a.sync_client ≡ some client
        → a.local_only ≡ false
        → a.disable_sync ≡ false
        → a.staleness_mode ≢ staleness_off
        → a.max_staleness ≡ pos budget
        → 0 < budget
        → client.connected ≡ false
        → client.last_stream_activity ≤ limit
        → limit + budget < now
        → (since : ℤ) × (check_stale engine now a ≡ some since)
    unfolding check_stale mode status
    stale_at a client now budget limit e local enabled on is_budget some_budget closed quiet late =
        elim (Bool-cases a.bootstrapped) [
          | inr never ↦ (pos 0, ground (arith, local, enabled, on, is_budget, some_budget, never))
          | inl ready ↦ (
            difference now client.last_stream_activity,
            ground
                (arith, e, local, enabled, on, is_budget, some_budget, ready, closed, quiet, late),
          )
        ]

    -- Where sync is neither local-only nor disabled and the staleness gate is on with a
    -- positive budget, a gated read on a client whose connection was opened and has ended, at
    -- a time that is later than its opening and its messages by more than the budget: it is
    -- refused by the serving gate; or it returns the staleness error, in that mode; or it
    -- denies, in the other.
    pub quiet-refuses :
        (k : Connection engine) (c : Client engine) (challenge : Str) (limit : ℕ) (a : Atol engine)
        (gate_now now budget : ℕ) (tenant : Str) (input : EvalInput X)
        → k.challenge ≡ some challenge
        → k.open_error ≡ none
        → k.opened_at ≤ limit
        → All (λ r. r.received_at ≤ limit) k.receipts
        → a.sync_client ≡ some (stream engine w k c).2
        → a.local_only ≡ false
        → a.disable_sync ≡ false
        → a.staleness_mode ≢ staleness_off
        → a.max_staleness ≡ pos budget
        → 0 < budget
        → limit + budget < now
        → ((x : AuthError) × (require_serving_active engine gate_now tenant a ≡ err x)
            × (evaluate_gated engine evaluate gate_now now tenant input a ≡ refused x))
          ⊎ ((a.staleness_mode ≡ staleness_error)
              × (since : ℤ) × (evaluate_gated engine evaluate gate_now now tenant input a
                  ≡ refused (stale_error since a.max_staleness)))
          ⊎ ((a.staleness_mode ≡ staleness_fail_closed)
              × (evaluate_gated engine evaluate gate_now now tenant input a
                  ≡ stale_result (stale_deny engine)))
    unfolding evaluate_gated
    quiet-refuses k c challenge limit a gate_now now budget tenant input given opens start h client
          local enabled on budget_is some_budget late =
        let (closed, quiet) = stream-quiet k c challenge limit given opens start h in
        let (since, stale) =
          stale_at a (stream engine w k c).2 now budget limit client local enabled on budget_is
            some_budget closed quiet late in
        elim (Result-cases (require_serving_active engine gate_now tenant a)) [
          | inr (x, e) ↦ inl (x, e, ground (arith, e))
          | inl (done, e) ↦ elim (mode-cases a.staleness_mode on) [
            | inl m ↦ inr (inl (m, since, ground (arith, e, stale, m)))
            | inr m ↦ inr (inr (m, ground (arith, e, stale, m)))
          ]
        ]
