-- ===== src/Decision/Log.antt =====
-- decision/buffer.go and decision/logger.go. A capacity or a batch size below zero makes Go panic, so
-- these are numbers from zero; the counters are uint64. Times are nanoseconds since the zero time.Time.
use atol_sdk_go.Prelude.{
  ℕ, ◌+◌, ◌%◌, ◌^◌, leb, ltb, eqb, Bool, true, false, List, [], ◌∷◌, ◌++◌, length, take, drop,
  Option, none, some, Str, ℤ, if◌then◌else◌,
}

pub record Entry : Type 0 where
  pub request_id : Str
  pub user : Str
  pub relation : Str
  pub object : Str
  pub allowed : Bool
  pub matched_rule : Str
  pub eval_us : ℤ
  pub zanzibar_calls : ℤ
  pub auth_method : Str
  pub timestamp : ℕ

pub record Buffer : Type 0 where
  pub entries : List Entry
  pub size : ℕ

abbrev pub new_buffer : ℕ → Buffer
new_buffer size = record { entries = []; size = size }

-- Push: whether the entry was kept.
unfoldable pub push : Entry → Buffer → Bool × Buffer
push e b =
    if leb b.size (length b.entries)
    then (false, b)
    else (true, record b { entries = b.entries ++ (e ∷ []) })

unfoldable pub drain : ℕ → Buffer → List Entry × Buffer
drain n b =
    if eqb (length b.entries) 0
    then ([], b)
    else let m = if ltb (length b.entries) n then length b.entries else n in
      (take m b.entries, record b { entries = drop m b.entries })

-- Logger, without its sink, its ticker and its zap logger.
pub record Logger : Type 0 where
  pub buffer : Buffer
  pub flush_size : ℕ
  pub dropped : ℕ
  pub reported_drops : ℕ
  pub send_failures : ℕ

unfoldable pub new_logger : ℕ → ℕ → Logger
new_logger buffer_size flush_size = record {
  buffer = new_buffer buffer_size;
  flush_size = flush_size;
  dropped = 0;
  reported_drops = 0;
  send_failures = 0;
}

-- `atomic.Uint64.Add(1)`
abbrev pub add_one : ℕ → ℕ
add_one counter = (counter + 1) % 2 ^ 64

abbrev pub stamp : ℕ → Entry → Entry
stamp now e = if eqb e.timestamp 0 then record e { timestamp = now } else e

unfoldable pub log : ℕ → Entry → Logger → Logger
log now e l =
    let pushed = push (stamp now e) l.buffer in
    if pushed.0
    then record l { buffer = pushed.1 }
    else record l { buffer = pushed.1; dropped = add_one l.dropped }

abbrev pub report_drops : Logger → Logger
report_drops l =
    if ltb l.reported_drops l.dropped then record l { reported_drops = l.dropped } else l

-- flush, where the sink answers `accepts`: the batch that it was sent, and the logger.
unfoldable pub flush : Bool → Logger → Option (List Entry) × Logger
flush accepts l =
    let reported = report_drops l in
    let drained = drain reported.flush_size reported.buffer in
    if eqb (length drained.0) 0
    then (none, record reported { buffer = drained.1 })
    else if accepts
    then (some drained.0, record reported { buffer = drained.1 })
    else (
      some drained.0,
      record reported { buffer = drained.1; send_failures = add_one reported.send_failures },
    )

-- Stop, after the flush loop has returned.
unfoldable pub stop : Bool → Logger → Option (List Entry) × Logger
stop accepts l = flush accepts l

-- A call of Log at a time, or a tick of the flush loop with the sink's answer.
pub data Call : Type 0 where
  logged : ℕ → Entry → Call
  ticked : Bool → Call

-- The logger after some calls, and the batches that the sink was sent, with its answers.
unfoldable pub run : List Call → Logger → List (List Entry × Bool) × Logger
run [] l = ([], l)
run (logged now e ∷ calls) l = run calls (log now e l)
run (ticked accepts ∷ calls) l =
    let flushed = flush accepts l in
    let rest = run calls flushed.1 in
    elim flushed.0 [ none ↦ rest | some batch ↦ ((batch, accepts) ∷ rest.0, rest.1) ]
