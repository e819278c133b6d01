-- ===== src/Diag/Worker.antt =====
-- shared/diagnostics/src/worker.rs: the queue of lines between the threads that log and the one that
-- writes. Each operation on an atomic or on the channel is a step, so any interleaving of the threads
-- is a list of steps: what stands between two steps of a thread is counted in the state. The two
-- counters of drops are atomics of their own that nothing orders (`Relaxed`), so what is still to be
-- added to the one and to the other is added in any order.
use moq_cast_desktop.Base.{
  ℕ, ◌+◌, ◌-◌, ◌/◌, ◌%◌, ◌^◌, ◌==◌, max, Bool, true, false, if◌then◌else◌, ◌&&◌, not, ltb, List, [],
  ◌∷◌, ◌++◌, length, Option, none, some,
}
use moq_cast_desktop.Base.Bytes.{bytes}

pub record Line : Type 0 where
  pub line : List ℕ
  pub detail : Bool

-- `io::Error`, as its kind and its text
pub record IoError : Type 0 where
  pub kind : ℕ
  pub message : List ℕ

pub data Command : Type 0 where
  line : Line → Command
  export shutdown : Command

-- What the worker's thread is about: waiting, handling a command, writing a line whose place is given
-- back, or gone with the receiver.
pub data Thread : Type 0 where
  waiting ended : Thread
  handling : Command → Thread
  writing : Line → Thread

-- `Writer` and `run`. `reserved` counts the threads that have a place for a detail and have not sent
-- it, `refused` those whose detail was not taken and who have not given the place back,
-- `uncounted_drops` and `uncounted_details` what is still to be added to `dropped` and to
-- `detail_dropped` for lines that were not taken. `output` and `details` are what the sinks were given,
-- `answers` what was answered to exports: an error, or none.
pub record Worker : Type 0 where
  pub capacity : ℕ
  pub queue : List Command
  pub thread : Thread
  pub dropped : ℕ
  pub detail_dropped : ℕ
  pub detail_pending : ℕ
  pub detail_capacity : ℕ
  pub reserved : ℕ
  pub refused : ℕ
  pub uncounted_drops : ℕ
  pub uncounted_details : ℕ
  pub failure : Option IoError
  pub has_details : Bool
  pub output : List (List ℕ)
  pub details : List (List ℕ)
  pub answers : List (Option IoError)

-- `Writer::spawn`
unfoldable pub spawn : ℕ → Bool → Worker
spawn capacity has_details = record {
  capacity = max capacity 2;
  queue = [];
  thread = waiting;
  dropped = 0;
  detail_dropped = 0;
  detail_pending = 0;
  detail_capacity = max capacity 2 / 2;
  reserved = 0;
  refused = 0;
  uncounted_drops = 0;
  uncounted_details = 0;
  failure = none;
  has_details = has_details;
  output = [];
  details = [];
  answers = [];
}

-- `fetch_add(1)` on a u64, `fetch_sub(1)` on a usize
abbrev pub fetch_add : ℕ → ℕ
fetch_add n = (n + 1) % 2 ^ 64

abbrev pub fetch_sub : ℕ → ℕ
fetch_sub n = (n + (2 ^ 64 - 1)) % 2 ^ 64

abbrev pub is_ended : Thread → Bool
is_ended ended = true
is_ended _ = false

-- `try_send` succeeds.
unfoldable pub accepts : Worker → Bool
accepts w = not (is_ended w.thread) && ltb (length w.queue) w.capacity

abbrev pub push : Worker → Command → Worker
push w command = record w { queue = w.queue ++ (command ∷ []) }

-- `enqueue` of a detail, up to the reservation: without one the drop is to be counted.
unfoldable pub reserve : Worker → Worker
reserve w =
    if ltb w.detail_pending w.detail_capacity
    then record w { detail_pending = w.detail_pending + 1; reserved = w.reserved + 1 }
    else record w {
      uncounted_drops = w.uncounted_drops + 1;
      uncounted_details = w.uncounted_details + 1;
    }

-- `try_send` by a thread with a reservation
unfoldable pub send_detail : Worker → List ℕ → Worker
unfolding accepts
send_detail w bytes =
    if w.reserved == 0
    then w
    else if accepts w
    then record (push w (line (record { line = bytes; detail = true }))) {
      reserved = w.reserved - 1;
    }
    else record w { reserved = w.reserved - 1; refused = w.refused + 1 }

-- The place is given back, and the drop is to be counted.
unfoldable pub give_back : Worker → Worker
give_back w = if w.refused == 0 then w else record w {
  refused = w.refused - 1;
  detail_pending = fetch_sub w.detail_pending;
  uncounted_drops = w.uncounted_drops + 1;
  uncounted_details = w.uncounted_details + 1;
}

-- `count_drop`: the counter of all drops
unfoldable pub count_drop : Worker → Worker
count_drop w =
    if w.uncounted_drops == 0
    then w
    else record w { uncounted_drops = w.uncounted_drops - 1; dropped = fetch_add w.dropped }

-- `count_drop` of a detail: the counter of the details
unfoldable pub count_detail : Worker → Worker
count_detail w = if w.uncounted_details == 0 then w else record w {
  uncounted_details = w.uncounted_details - 1;
  detail_dropped = fetch_add w.detail_dropped;
}

-- `write_line`
unfoldable pub write_line : Worker → List ℕ → Worker
unfolding accepts
write_line w bytes =
    if accepts w
    then push w (line (record { line = bytes; detail = false }))
    else record w { uncounted_drops = w.uncounted_drops + 1 }

-- The blocking `send` of an export or of the guard's shutdown, at the time when there is room for it.
unfoldable pub send : Worker → Command → Worker
unfolding accepts
send w command = if accepts w then push w command else w

-- `receiver.recv()`, where there is a command
unfoldable pub receive : Worker → Worker
receive w = elim w.thread [
  | ended ↦ w
  | handling command ↦ w
  | writing l ↦ w
  | waiting ↦ elim w.queue [
    | [] ↦ w
    | command ∷ queue ↦ record w { queue = queue; thread = handling command }
  ]
]

-- `Command::Line`: the place of a detail is given back before the line is written.
unfoldable pub release : Worker → Worker
release w = elim w.thread [
  | ended ↦ w
  | waiting ↦ w
  | writing l ↦ w
  | handling command ↦ elim command [
    | export ↦ w
    | shutdown ↦ w
    | line l ↦ record w {
      thread = writing l;
      detail_pending = if l.detail then fetch_sub w.detail_pending else w.detail_pending;
    }
  ]
]

-- What the sinks answer: to `write_all`, to the `flush` of the output and of the details, and what
-- `export::export` returns. Each is an error, or none.
pub record SinkAnswers : Type 0 where
  pub write : Option IoError
  pub flush_output : Option IoError
  pub flush_details : Option IoError
  pub export : Option IoError

-- `OutputFailure::from_error` of the error with its new text
unfoldable pub output_failure : Bool → IoError → IoError
output_failure detail error = record {
  kind = error.kind;
  message =
      (if detail then bytes "detail" else bytes "lifecycle")
      ++ (bytes " log output failed: " ++ error.message);
}

-- `Command::Line`: the write, and the failure that is kept
unfoldable pub handle_line : Worker → Line → Option IoError → Worker
unfolding output_failure
handle_line w l answer =
    let to_details = l.detail && w.has_details in
    record w {
      thread = waiting;
      output = if to_details then w.output else w.output ++ (l.line ∷ []);
      details = if to_details then w.details ++ (l.line ∷ []) else w.details;
      failure = elim answer [
        | none ↦ w.failure
        | some error ↦ some (output_failure l.detail error)
      ];
    }

-- The result of an export: of the flushes, then the failure that is kept, then the export's own.
unfoldable pub export_result : Worker → SinkAnswers → Option IoError
export_result w a = elim a.flush_output [
  | some error ↦ some error
  | none ↦ elim (if w.has_details then a.flush_details else none) [
    | some error ↦ some error
    | none ↦ elim w.failure [ some failure ↦ some failure | none ↦ a.export ]
  ]
]

-- The body of the loop, for the command that was received: of a line, what follows `release`.
unfoldable pub handle : Worker → SinkAnswers → Worker
unfolding handle_line export_result
handle w a = elim w.thread [
  | waiting ↦ w
  | ended ↦ w
  | writing l ↦ handle_line w l a.write
  | handling command ↦ elim command [
    | line l ↦ w
    | export ↦ record w { thread = waiting; answers = w.answers ++ (export_result w a ∷ []) }
    | shutdown ↦ record w { thread = ended; queue = [] }
  ]
]

pub data Step : Type 0 where
  reserves gives_back counts_drop counts_detail asks_export asks_shutdown receives releases : Step
  sends_detail : List ℕ → Step
  writes_line : List ℕ → Step
  handles : SinkAnswers → Step

unfoldable pub step : Worker → Step → Worker
unfolding reserve give_back count_drop count_detail send receive release send_detail write_line
    handle
step w reserves = reserve w
step w gives_back = give_back w
step w counts_drop = count_drop w
step w counts_detail = count_detail w
step w asks_export = send w export
step w asks_shutdown = send w shutdown
step w receives = receive w
step w releases = release w
step w (sends_detail bytes) = send_detail w bytes
step w (writes_line bytes) = write_line w bytes
step w (handles a) = handle w a

unfoldable pub run : Worker → List Step → Worker
unfolding step
run w [] = w
run w (s ∷ steps) = run (step w s) steps
