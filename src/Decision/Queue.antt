-- ===== src/Decision/Queue.antt =====
-- The decision log as a bounded queue (decision/buffer.go, decision/logger.go).
use atol_sdk_go.Prelude.{
  ℕ, ◌+◌, ◌-◌, ◌%◌, ◌^◌, ◌≤◌, ◌<◌, ltb, Bool, List, [], ◌∷◌, ◌++◌, length, take-drop, length-drop,
  append_assoc, length-append, append_nil, ◌⊎◌, inl, inr, Option, none, some, ◌≡◌, refl, ◌↔◌, arith,
  sym, ap, subst, ◌∙◌, if◌then◌else◌,
}
use atol_sdk_go.Decision.Log.{
  Entry, Buffer, push, drain, Logger, new_logger, stamp, log, flush, stop, Call, logged, ticked,
  run, add_one,
}

-- The specification: which entries a queue of this capacity keeps, when it holds `waiting` entries and
-- gives up to `batch` of them at a tick.
abbrev pub kept : ℕ → ℕ → ℕ → List Call → List Entry
kept capacity batch waiting [] = []
kept capacity batch waiting (logged now e ∷ calls) =
    let with_it = kept capacity batch (waiting + 1) calls in
    let without = kept capacity batch waiting calls in
    if ltb waiting capacity then stamp now e ∷ with_it else without
kept capacity batch waiting (ticked accepts ∷ calls) = kept capacity batch (waiting - batch) calls

-- How many entries it refuses.
abbrev pub refused_count : ℕ → ℕ → ℕ → List Call → ℕ
refused_count capacity batch waiting [] = 0
refused_count capacity batch waiting (logged now e ∷ calls) =
    let with_it = refused_count capacity batch (waiting + 1) calls in
    let without = refused_count capacity batch waiting calls in
    if ltb waiting capacity then with_it else without + 1
refused_count capacity batch waiting (ticked accepts ∷ calls) =
    refused_count capacity batch (waiting - batch) calls

-- The entries that Log is given.
abbrev logged_entries : List Call → ℕ
logged_entries [] = 0
logged_entries (logged now e ∷ calls) = logged_entries calls + 1
logged_entries (ticked accepts ∷ calls) = logged_entries calls

abbrev pub sent : List (List Entry × Bool) → List Entry
sent [] = []
sent ((batch, accepts) ∷ more) = batch ++ sent more

nil_of_length : (es : List Entry) → length es ≡ 0 → es ≡ []
nil_of_length [] h = refl
nil_of_length (e ∷ es) h = absurd (omega arith)

drain_lem :
    (n : ℕ) (b : Buffer)
    → ((drain n b).0 ++ (drain n b).1.entries ≡ b.entries)
      × (length (drain n b).1.entries ≡ length b.entries - n)
      × ((drain n b).1.size ≡ b.size)
unfolding drain
drain_lem n b =
    let m = if ltb (length b.entries) n then length b.entries else n in
    ground (arith, take-drop m b.entries, length-drop m b.entries, nil_of_length b.entries)

-- What one flush does.
abbrev batch_of : Option (List Entry) → List Entry
batch_of none = []
batch_of (some batch) = batch

flush_lem :
    (accepts : Bool) (l : Logger)
    → (batch_of (flush accepts l).0 ++ (flush accepts l).1.buffer.entries ≡ l.buffer.entries)
      × (length (flush accepts l).1.buffer.entries ≡ length l.buffer.entries - l.flush_size)
      × ((flush accepts l).1.buffer.size ≡ l.buffer.size)
      × ((flush accepts l).1.flush_size ≡ l.flush_size)
      × ((flush accepts l).1.dropped ≡ l.dropped)
unfolding flush
flush_lem accepts l =
    let drained = drain l.flush_size l.buffer in
    ground (arith, drain_lem l.flush_size l.buffer, nil_of_length drained.0)

log_lem :
    (now : ℕ) (e : Entry) (l : Logger)
    → ((length l.buffer.entries < l.buffer.size)
        × (log now e l ≡ record l {
          buffer = record l.buffer { entries = l.buffer.entries ++ (stamp now e ∷ []) };
        }))
      ⊎ ((l.buffer.size ≤ length l.buffer.entries)
          × (log now e l ≡ record l { dropped = add_one l.dropped }))
unfolding log push
log_lem now e l = ground arith

-- What the run leaves, against the specification from the same state.
abbrev Implements : Logger → List Call → List (List Entry × Bool) × Logger → Type 0
Implements l calls (batches, end_) =
    (sent batches ++ end_.buffer.entries
      ≡ l.buffer.entries ++ kept l.buffer.size l.flush_size (length l.buffer.entries) calls)
    × (end_.dropped
        ≡ (l.dropped + refused_count l.buffer.size l.flush_size (length l.buffer.entries) calls)
          % 2 ^ 64)
    × (length end_.buffer.entries ≤ l.buffer.size)

logged-Implements :
    (now : ℕ) (e : Entry) (calls : List Call) (l : Logger) (out : List (List Entry × Bool) × Logger)
    → length l.buffer.entries < l.buffer.size
    → Implements
        (record l { buffer = record l.buffer { entries = l.buffer.entries ++ (stamp now e ∷ []) } })
        calls
        out
    → Implements l (logged now e ∷ calls) out
logged-Implements now e calls l (batches, end_) room (order, count, fits) =
    let longer : length (l.buffer.entries ++ (stamp now e ∷ [])) ≡ length l.buffer.entries + 1 =
      length-append l.buffer.entries (stamp now e ∷ []) in
    let split = append_assoc l.buffer.entries (stamp now e ∷ []) in
    let order' =
      subst
        (λ k.
          sent batches ++ end_.buffer.entries
          ≡ (l.buffer.entries ++ (stamp now e ∷ [])) ++ kept l.buffer.size l.flush_size k calls)
        longer order in
    let count' =
      subst
        (λ k.
          end_.dropped ≡ (l.dropped + refused_count l.buffer.size l.flush_size k calls) % 2 ^ 64)
        longer count in
    let after = kept l.buffer.size l.flush_size (length l.buffer.entries + 1) calls in
    (ground (arith, order', split after, room), ground (arith, count', room), fits)

dropped-Implements :
    (now : ℕ) (e : Entry) (calls : List Call) (l : Logger) (out : List (List Entry × Bool) × Logger)
    → l.buffer.size ≤ length l.buffer.entries
    → Implements (record l { dropped = add_one l.dropped }) calls out
    → Implements l (logged now e ∷ calls) out
dropped-Implements now e calls l (batches, end_) full (order, count, fits) =
    (ground (arith, order, full), ground (arith, count, full), fits)

-- The run's result after a flush.
abbrev goes_on :
    Bool
    → Option (List Entry)
    → List (List Entry × Bool) × Logger
    → List (List Entry × Bool) × Logger
goes_on accepts none rest = rest
goes_on accepts (some batch) rest = ((batch, accepts) ∷ rest.0, rest.1)

flushed-Implements :
    (accepts : Bool) (calls : List Call) (l m : Logger) (batch : Option (List Entry))
    (out : List (List Entry × Bool) × Logger)
    → batch_of batch ++ m.buffer.entries ≡ l.buffer.entries
    → length m.buffer.entries ≡ length l.buffer.entries - l.flush_size
    → m.buffer.size ≡ l.buffer.size
    → m.flush_size ≡ l.flush_size
    → m.dropped ≡ l.dropped
    → Implements m calls out
    → Implements l (ticked accepts ∷ calls) (goes_on accepts batch out)
flushed-Implements accepts calls l m none (batches, end_) all shorter size n drops
      (order, count, fits) =
    (
      ground (arith, order, all, shorter, size, n),
      ground (arith, count, shorter, size, n, drops),
      omega (arith, fits, size),
    )
flushed-Implements accepts calls l m (some b) (batches, end_) all shorter size n drops
      (order, count, fits) =
    let later = kept m.buffer.size m.flush_size (length m.buffer.entries) calls in
    let same_later : later
        ≡ kept l.buffer.size l.flush_size (length l.buffer.entries - l.flush_size) calls =
      ground (arith, shorter, size, n) in
    (
      append_assoc b (sent batches) end_.buffer.entries
          ∙ ap (λ es. b ++ es) order
          ∙ sym (append_assoc b m.buffer.entries later)
          ∙ ap (λ es. es ++ later) all
          ∙ ap (λ es. l.buffer.entries ++ es) same_later,
      ground (arith, count, shorter, size, n, drops),
      omega (arith, fits, size),
    )

run_ticked :
    (accepts : Bool) (calls : List Call) (l : Logger)
    → run (ticked accepts ∷ calls) l
      ≡ goes_on accepts (flush accepts l).0 (run calls (flush accepts l).1)
unfolding run
run_ticked accepts calls l = ground arith

run-Implements :
    (calls : List Call) (l : Logger)
    → length l.buffer.entries ≤ l.buffer.size
    → l.dropped < 2 ^ 64
    → Implements l calls (run calls l)
unfolding run
run-Implements [] l fits small = (sym (append_nil l.buffer.entries), omega (arith, small), fits)
run-Implements (logged now e ∷ calls) l fits small = elim (log_lem now e l) [
  | inl (room, e') ↦
      let next : Logger = record l {
        buffer = record l.buffer { entries = l.buffer.entries ++ (stamp now e ∷ []) };
      } in
      subst (λ k. Implements l (logged now e ∷ calls) (run calls k)) (sym e')
        (logged-Implements now e calls l (run calls next) room (
          run-Implements calls next
            (omega (arith, room, length-append l.buffer.entries (stamp now e ∷ []))) small))
  | inr (full, e') ↦
      let next : Logger = record l { dropped = add_one l.dropped } in
      subst (λ k. Implements l (logged now e ∷ calls) (run calls k)) (sym e')
        (dropped-Implements now e calls l (run calls next) full
          (run-Implements calls next fits (omega arith)))
]
run-Implements (ticked accepts ∷ calls) l fits small =
    let (order, shorter, size, batch, same_drops) = flush_lem accepts l in
    subst (Implements l (ticked accepts ∷ calls)) (sym (run_ticked accepts calls l)) (
      flushed-Implements accepts calls l (flush accepts l).1 (flush accepts l).0
        (run calls (flush accepts l).1) order shorter size batch same_drops
        (run-Implements calls (flush accepts l).1 (omega (arith, shorter, size, fits))
          (omega (arith, same_drops, small))))

-- Any calls of a new log: the entries of the batches that the sink was sent, in order, and then those
-- that wait, are exactly the entries that a queue of this capacity keeps, in the order of the calls; the
-- counter of drops is the number that it refuses, modulo 2 ^ 64; no more wait than the capacity.
pub run_new :
    (calls : List Call) (capacity batch : ℕ)
    → let out = run calls (new_logger capacity batch) in
      (sent out.0 ++ out.1.buffer.entries ≡ kept capacity batch 0 calls)
      × (out.1.dropped ≡ refused_count capacity batch 0 calls % 2 ^ 64)
      × (length out.1.buffer.entries ≤ capacity)
unfolding new_logger
run_new calls capacity batch = ground (arith, run-Implements calls (new_logger capacity batch))

-- Every entry that Log is given is either kept or refused_count.
kept_refused :
    (capacity batch waiting : ℕ) (calls : List Call)
    → length (kept capacity batch waiting calls) + refused_count capacity batch waiting calls
      ≡ logged_entries calls
kept_refused capacity batch waiting [] = refl
kept_refused capacity batch waiting (logged now e ∷ calls) = ground (
  arith,
  kept_refused capacity batch (waiting + 1) calls,
  kept_refused capacity batch waiting calls,
)
kept_refused capacity batch waiting (ticked accepts ∷ calls) =
    kept_refused capacity batch (waiting - batch) calls

-- After Stop, exactly the entries past the first batch still wait, unsent, and nothing waits only where
-- all fit into one batch.
pub stop_lem :
    (accepts : Bool) (l : Logger)
    → (length (stop accepts l).1.buffer.entries ≡ length l.buffer.entries - l.flush_size)
      × (((stop accepts l).1.buffer.entries ≡ []) ↔ (length l.buffer.entries ≤ l.flush_size))
unfolding stop
stop_lem accepts l =
    ground (arith, flush_lem accepts l, nil_of_length (flush accepts l).1.buffer.entries)
