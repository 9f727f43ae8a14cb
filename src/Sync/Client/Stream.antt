-- ===== src/Sync/Client/Stream.antt =====
-- sync/sync.go: stream and Run. The answers of the outer world (the challenge's random bytes, the
-- stream's messages and its end, the rebootstrap callback, the context) are arguments of each attempt.
use atol_sdk_go.Prelude.{
  ℕ, ◌*◌, ltb, Bool, true, false, [], ◌∷◌, List, Option, none, some, Str, ◌!=◌, Map, Result, ok,
  err, if◌then◌else◌,
}
use atol_sdk_go.Zanzibar.Engine.State.{Engine}
use atol_sdk_go.Sync.Client.State.{
  Setting, PolicyEngine, StreamMutationsResponse, SyncError, Client, mark_stream_open,
  mark_stream_closed, mark_activity, set_continuation_token, on_rebootstrap,
}
use atol_sdk_go.Sync.Client.Apply.{apply_mutation}

-- time.Second and maxBackoff, in nanoseconds.
abbrev pub second : ℕ
second = 1000000000

abbrev pub max_backoff : ℕ
max_backoff = 30000000000

-- The doubling at the end of the loop.
abbrev pub next_backoff : ℕ → ℕ
next_backoff backoff = if ltb max_backoff (backoff * 2) then max_backoff else backoff * 2

-- A failed call: whether connect.CodeOf says FailedPrecondition.
pub record CallError : Type 0 where
  pub failed_precondition : Bool

module _ (engine : PolicyEngine) where
  pub data StreamError : Type 0 where
    no_challenge : StreamError
    call_failed : CallError → StreamError
    apply_failed : SyncError engine → StreamError

  -- A message with the clock at its receipt, and when it is applied.
  pub record Receipt : Type 0 where
    pub received_at : ℕ
    pub applied_at : ℕ
    pub msg : StreamMutationsResponse engine

  -- newServingChallenge, the opening of the stream, its messages, and stream.Err at its end.
  pub record Connection : Type 0 where
    pub challenge : Option Str
    pub open_error : Option CallError
    pub opened_at : ℕ
    pub receipts : List Receipt
    pub end_error : Option CallError

  -- One pass of Run's loop: whether the context is done before the connection, the connection, whether the
  -- context is done after it, what a call of the rebootstrap callback answers (the engines, the seeded data, and the token or an error), and whether
  -- the context is done in the wait.
  pub record Attempt : Type 0 where
    pub done_before_stream : Bool
    pub connection : Connection
    pub done_after_stream : Bool
    pub reloaded_zanzibar : Engine
    pub reloaded_policy : engine.State
    pub reloaded_baseline : Map (Option engine.Data)
    pub new_token : Option Str
    pub done_in_wait : Bool

  -- What Run does: a connection with its result (tokenRefused, err), a call of the callback with its answer,
  -- and the beginning of a wait.
  pub data Activity : Type 0 where
    connects : Bool → Option StreamError → Activity
    reloads : Option Str → Activity
    waits : ℕ → Activity

  module _ (w : Setting) where
    abbrev pub applied :
        Str → Receipt → Client engine → Result (SyncError engine) (Unit {0}) × Client engine
    applied challenge r c =
        apply_mutation engine w r.applied_at (challenge ∷ []) (some r.msg)
          (mark_activity engine r.received_at c)

    abbrev pub advance_token : Str → Client engine → Client engine
    advance_token token c =
        if token != [] then set_continuation_token engine w.parse_ulid token c else c

    -- `for stream.Receive()`: the error of the first message that cannot be applied.
    unfoldable pub receive_all :
        Str → List Receipt → Client engine → Option (SyncError engine) × Client engine
    receive_all challenge [] c = (none, c)
    receive_all challenge (r ∷ rs) c = elim (applied challenge r c).0 [
      | err x ↦ (some x, (applied challenge r c).1)
      | ok done ↦
          receive_all challenge rs
            (advance_token r.msg.continuation_token (applied challenge r c).1)
    ]

    -- (tokenRefused, err), and the client.
    unfoldable pub stream : Connection → Client engine → Bool × Option StreamError × Client engine
    stream k c = elim k.challenge [
      | none ↦ (false, some no_challenge, c)
      | some challenge ↦ elim k.open_error [
        | some x ↦ (x.failed_precondition, some (call_failed x), c)
        | none ↦
            let received =
              receive_all challenge k.receipts (mark_stream_open engine k.opened_at c) in
            let closed = mark_stream_closed engine received.1 in
            elim received.0 [
              | some x ↦ (true, some (apply_failed x), closed)
              | none ↦ elim k.end_error [
                | some x ↦ (x.failed_precondition, some (call_failed x), closed)
                | none ↦ (false, none, closed)
              ]
            ]
      ]
    ]

    -- A call of the callback, and onRebootstrap where it succeeds.
    unfoldable pub rebootstrap : Attempt → Client engine → Client engine
    rebootstrap a c =
        let reloaded : Client engine = record c {
          zanzibar = a.reloaded_zanzibar;
          policy = a.reloaded_policy;
          baseline_data = a.reloaded_baseline;
        } in
        elim a.new_token [
          | none ↦ reloaded
          | some token ↦ on_rebootstrap engine w.parse_ulid token reloaded
        ]

    -- The end of a pass: the wait, and the rest of the loop with the doubled backoff.
    abbrev pub pause :
        (ℕ → Client engine → List Activity × Client engine × Bool)
        → Attempt
        → ℕ
        → Client engine
        → List Activity × Client engine × Bool
    pause loop a backoff c =
        let rest = loop (next_backoff backoff) c in
        if a.done_in_wait
        then (waits backoff ∷ [], c, true)
        else (waits backoff ∷ rest.0, rest.1, rest.2)

    abbrev pub after_activity :
        Activity → List Activity × Client engine × Bool → List Activity × Client engine × Bool
    after_activity x rest = (x ∷ rest.0, rest.1, rest.2)

    -- The loop of Run over some passes, from a backoff; `has_callback`: `c.rebootstrap != nil`. The
    -- result is what it did, the client, and whether the loop has returned.
    unfoldable pub run_loop :
        Bool → List Attempt → ℕ → Client engine → List Activity × Client engine × Bool
    run_loop has_callback [] backoff c = ([], c, false)
    run_loop has_callback (a ∷ more) backoff c =
        let tried = stream a.connection c in
        let answered = rebootstrap a tried.2 in
        let renewed = pause (run_loop has_callback more) a second answered in
        let refused_again = pause (run_loop has_callback more) a backoff answered in
        let failed = pause (run_loop has_callback more) a backoff tried.2 in
        let again = run_loop has_callback more second tried.2 in
        if a.done_before_stream
        then ([], c, true)
        else after_activity (connects tried.0 tried.1) (
            if a.done_after_stream
            then ([], tried.2, true)
            else if tried.0
            then if has_callback
              then after_activity (reloads a.new_token)
                  (elim a.new_token [ none ↦ refused_again | some token ↦ renewed ])
              else ([], tried.2, true)
            else elim tried.1 [ none ↦ again | some x ↦ failed ])

    unfoldable pub run : Bool → List Attempt → Client engine → List Activity × Client engine × Bool
    run has_callback attempts c = run_loop has_callback attempts second c
