-- ===== src/Diag/Order.antt =====
-- shared/diagnostics/src/worker.rs: the lines that are taken reach their sink, in the order in which
-- they were taken.
use moq_cast_desktop.Base.{
  ℕ, ◌+◌, ◌==◌, ◌≡◌, refl, sym, ap, ◌∙◌, Bool, true, false, if◌then◌else◌, ◌&&◌, not, all, List, [],
  ◌∷◌, ◌++◌, length, Option, arith, ◌-◌, Bool-cases, inl, inr,
}
use mathlib.Core.Bool.{true≢false}
use mathlib.Core.List.{append-nil, append_assoc}
use moq_cast_desktop.Diag.Worker.{
  Worker, Line, Command, line, export, shutdown, Thread, waiting, handling, writing, ended, IoError,
  SinkAnswers, spawn, is_ended, accepts, push, reserve, send_detail, give_back, count_drop, release,
  count_detail, write_line, send, receive, handle_line, handle, Step, reserves, gives_back,
  counts_drop, releases, counts_detail, asks_export, asks_shutdown, receives, sends_detail,
  writes_line, handles, step, run, export_result, fetch_sub,
}

-- Whether a line goes to the sink of the details, or else to the output.
abbrev pub goes : Bool → Bool → Line → Bool
goes d has_details l = if d then l.detail && has_details else not (l.detail && has_details)

abbrev pub sink : Bool → Worker → List (List ℕ)
sink d w = if d then w.details else w.output

module _ (d : Bool) where
  -- What a line, a command, or a queue brings to the sink.
  abbrev pub part : Bool → Line → List (List ℕ)
  part has_details l = if goes d has_details l then l.line ∷ [] else []

  abbrev pub part_of : Bool → Command → List (List ℕ)
  part_of has_details (line l) = part has_details l
  part_of has_details _ = []

  unfoldable pub parts : Bool → List Command → List (List ℕ)
  parts has_details [] = []
  parts has_details (c ∷ q) = part_of has_details c ++ parts has_details q

  abbrev pub in_hand : Bool → Thread → List (List ℕ)
  in_hand has_details (handling c) = part_of has_details c
  in_hand has_details (writing l) = part has_details l
  in_hand has_details _ = []

  -- What the sink has, and what is on its way to it.
  abbrev pub total : Worker → List (List ℕ)
  total w = sink d w ++ (in_hand w.has_details w.thread ++ parts w.has_details w.queue)

  -- What a step brings into the queue: a line, where `try_send` takes it.
  abbrev pub sent : Worker → Step → List (List ℕ)
  sent w (writes_line bytes) =
      if accepts w then part w.has_details (record { line = bytes; detail = false }) else []
  sent w (sends_detail bytes) =
      if w.reserved == 0
      then []
      else if accepts w
      then part w.has_details (record { line = bytes; detail = true })
      else []
  sent w _ = []

  unfoldable pub all_sent : Worker → List Step → List (List ℕ)
  unfolding step
  all_sent w [] = []
  all_sent w (s ∷ steps) = sent w s ++ all_sent (step w s) steps

  parts-snoc :
      (b : Bool) (q : List Command) (c : Command)
      → parts b (q ++ (c ∷ [])) ≡ parts b q ++ part_of b c
  unfolding parts
  parts-snoc b [] c = append-nil (part_of b c)
  parts-snoc b (x ∷ q) c =
      ap (λ r. part_of b x ++ r) (parts-snoc b q c)
      ∙ sym (append_assoc (part_of b x) (parts b q) (part_of b c))

  push-total : (w : Worker) (c : Command) → total (push w c) ≡ total w ++ part_of w.has_details c
  push-total w c =
      let b = w.has_details in
      let h = in_hand b w.thread in
      ap (λ r. sink d w ++ (h ++ r)) (parts-snoc b w.queue c)
      ∙ ap (λ r. sink d w ++ r) (sym (append_assoc h (parts b w.queue) (part_of b c)))
      ∙ sym (append_assoc (sink d w) (h ++ parts b w.queue) (part_of b c))

  handle_line-sink :
      (w : Worker) (l : Line) (answer : Option IoError) (P : List (List ℕ))
      → sink d (handle_line w l answer) ++ P ≡ sink d w ++ (part w.has_details l ++ P)
  unfolding handle_line
  handle_line-sink w l answer P = go d (l.detail && w.has_details)
    where
      go :
          (d t : Bool)
          → (if d
                then (if t then w.details ++ (l.line ∷ []) else w.details)
                else (if t then w.output else w.output ++ (l.line ∷ [])))
              ++ P
            ≡ (if d then w.details else w.output)
              ++ ((if (if d then t else not t) then l.line ∷ [] else []) ++ P)
      go true true = append_assoc w.details (l.line ∷ []) P
      go true false = refl
      go false true = refl
      go false false = append_assoc w.output (l.line ∷ []) P

  handle_line-total :
      (w : Worker) (l : Line) (answer : Option IoError)
      → total (handle_line w l answer)
        ≡ sink d w ++ (part w.has_details l ++ parts w.has_details w.queue)
  unfolding handle_line
  handle_line-total w l answer = handle_line-sink w l answer (parts w.has_details w.queue)

  -- A step brings what it sends, as long as the worker is there.
  Brings : Worker → Step → Type 0
  unfolding step
  Brings w s = total (step w s) ≡ total w ++ sent w s

  handle-total :
      (w : Worker) (a : SinkAnswers)
      → is_ended (handle w a).thread ≡ false
      → total (handle w a) ≡ total w
  unfolding handle
  handle-total w a alive = go w.thread alive
    where
      go :
          (t : Thread)
          → is_ended (handle (record w { thread = t }) a).thread ≡ false
          → total (handle (record w { thread = t }) a) ≡ total (record w { thread = t })
      go waiting e = refl
      go ended e = refl
      go (handling (line l)) e = refl
      go (writing l) e = handle_line-total (record w { thread = writing l }) l a.write
      go (handling export) e = refl
      go (handling shutdown) e = absurd (true≢false e)

  receive-total : (w : Worker) → total (receive w) ≡ total w
  unfolding receive parts
  receive-total w = go w.thread w.queue
    where
      go :
          (t : Thread) (q : List Command)
          → total (receive (record w { thread = t; queue = q }))
            ≡ total (record w { thread = t; queue = q })
      go ended q = refl
      go (handling c) q = refl
      go (writing l) q = refl
      go waiting [] = refl
      go waiting (c ∷ q) = refl

  release-total : (w : Worker) → total (release w) ≡ total w
  unfolding release
  release-total w = go w.thread
    where
      go :
          (t : Thread) → total (release (record w { thread = t })) ≡ total (record w { thread = t })
      go ended = refl
      go waiting = refl
      go (writing l) = refl
      go (handling (line l)) = refl
      go (handling export) = refl
      go (handling shutdown) = refl

  push_if-total :
      (w : Worker) (c : Command) (b : Bool) (w' : Worker)
      → total w' ≡ total w
      → total (if b then push w c else w') ≡ total w ++ (if b then part_of w.has_details c else [])
  push_if-total w c true w' e = push-total w c
  push_if-total w c false w' e = e ∙ sym (append-nil (total w))

  silent : (w w' : Worker) → total w' ≡ total w → total w' ≡ total w ++ []
  silent w w' e = e ∙ sym (append-nil (total w))

  reserve-total : (w : Worker) → total (reserve w) ≡ total w
  unfolding reserve
  reserve-total w = ground arith

  give_back-total : (w : Worker) → total (give_back w) ≡ total w
  unfolding give_back
  give_back-total w = ground arith

  count_drop-total : (w : Worker) → total (count_drop w) ≡ total w
  unfolding count_drop
  count_drop-total w = ground arith

  count_detail-total : (w : Worker) → total (count_detail w) ≡ total w
  unfolding count_detail
  count_detail-total w = ground arith

  send-total :
      (w : Worker) (c : Command) → part_of w.has_details c ≡ [] → total (send w c) ≡ total w
  unfolding send
  send-total w c e = go (accepts w)
    where
      go : (b : Bool) → total (if b then push w c else w) ≡ total w
      go true = push-total w c ∙ ap (λ r. total w ++ r) e ∙ append-nil (total w)
      go false = refl

  write_line-total :
      (w : Worker) (bytes : List ℕ)
      → total (write_line w bytes) ≡ total w ++ sent w (writes_line bytes)
  unfolding write_line
  write_line-total w bytes =
      push_if-total w (line (record { line = bytes; detail = false })) (accepts w)
        (record w { uncounted_drops = w.uncounted_drops + 1 }) refl

  send_detail-total :
      (w : Worker) (bytes : List ℕ)
      → total (send_detail w bytes) ≡ total w ++ sent w (sends_detail bytes)
  unfolding send_detail
  send_detail-total w bytes = go (w.reserved == 0) (accepts w)
    where
      c : Command
      c = line (record { line = bytes; detail = true })

      go :
          (z k : Bool)
          → total (
              if z
              then w
              else (if k
                  then record (push w c) { reserved = w.reserved - 1 }
                  else record w { reserved = w.reserved - 1; refused = w.refused + 1 }))
            ≡ total w ++ (if z then [] else (if k then part_of w.has_details c else []))
      go true k = sym (append-nil (total w))
      go false true = push-total w c
      go false false = sym (append-nil (total w))

  step-total :
      (w : Worker) (s : Step)
      → is_ended (step w s).thread ≡ false
      → total (step w s) ≡ total w ++ sent w s
  unfolding step
  step-total w reserves e = silent w (reserve w) (reserve-total w)
  step-total w gives_back e = silent w (give_back w) (give_back-total w)
  step-total w counts_drop e = silent w (count_drop w) (count_drop-total w)
  step-total w counts_detail e = silent w (count_detail w) (count_detail-total w)
  step-total w asks_export e = silent w (send w export) (send-total w export refl)
  step-total w asks_shutdown e = silent w (send w shutdown) (send-total w shutdown refl)
  step-total w receives e = silent w (receive w) (receive-total w)
  step-total w releases e = silent w (release w) (release-total w)
  step-total w (sends_detail bytes) e = send_detail-total w bytes
  step-total w (writes_line bytes) e = write_line-total w bytes
  step-total w (handles a) e = silent w (handle w a) (handle-total w a e)

  -- A worker that has ended stays so.
  step-ended :
      (w : Worker) (s : Step) → is_ended w.thread ≡ true → is_ended (step w s).thread ≡ true
  unfolding step reserve give_back count_drop count_detail send receive release send_detail
      write_line handle
  step-ended w s e = ground arith

  run-ended :
      (w : Worker) (steps : List Step)
      → is_ended w.thread ≡ true
      → is_ended (run w steps).thread ≡ true
  unfolding run
  run-ended w [] e = e
  run-ended w (s ∷ steps) e = run-ended (step w s) steps (step-ended w s e)

  run-total :
      (w : Worker) (steps : List Step)
      → is_ended (run w steps).thread ≡ false
      → total (run w steps) ≡ total w ++ all_sent w steps
  unfolding run all_sent
  run-total w [] e = sym (append-nil (total w))
  run-total w (s ∷ steps) e = elim (Bool-cases (is_ended (step w s).thread)) [
    | inl over ↦ absurd (true≢false (sym (run-ended (step w s) steps over) ∙ e))
    | inr alive ↦
        run-total (step w s) steps e
        ∙ ap (λ r. r ++ all_sent (step w s) steps) (step-total w s alive)
        ∙ append_assoc (total w) (sent w s) (all_sent (step w s) steps)
  ]

  spawn-total : (capacity : ℕ) (has_details : Bool) → total (spawn capacity has_details) ≡ []
  unfolding spawn parts
  spawn-total capacity has_details = go d
    where
      nothing : List (List ℕ)
      nothing = []

      go : (d : Bool) → (if d then nothing else nothing) ++ [] ≡ nothing
      go true = refl
      go false = refl

  -- While the worker is there, what a sink was given (the output, or the details'), followed by what
  -- is in hand and in the queue for it, is exactly the lines for it that try_send took, in their
  -- order: no line that is taken is lost, doubled or overtaken, and the details go to their own sink
  -- where there is one, and else to the output.
  pub sink_in_order :
      (capacity : ℕ) (has_details : Bool) (steps : List Step)
      → let w = run (spawn capacity has_details) steps in
        is_ended w.thread ≡ false
        → sink d w ++ (in_hand w.has_details w.thread ++ parts w.has_details w.queue)
          ≡ all_sent (spawn capacity has_details) steps
  sink_in_order capacity has_details steps e =
      run-total (spawn capacity has_details) steps e
      ∙ ap (λ r. r ++ all_sent (spawn capacity has_details) steps)
          (spawn-total capacity has_details)

-- The worker's own turns, one for each answer of the sinks.
unfoldable pub rounds : List SinkAnswers → List Step
rounds [] = []
rounds (a ∷ answers) = receives ∷ releases ∷ handles a ∷ rounds answers

abbrev pub is_shutdown : Command → Bool
is_shutdown shutdown = true
is_shutdown _ = false

-- A worker that is waiting with a shutdown in its queue ends after one turn for each command up to
-- it, whatever its sinks answer, and each sink has been given all lines for it that were queued
-- before the shutdown.
pub shutdown_ends :
    (d : Bool) (w : Worker) (q rest : List Command) (answers : List SinkAnswers)
    → all (λ c. not (is_shutdown c)) q ≡ true
    → length answers ≡ length q + 1
    → let w' =
        run (record w { thread = waiting; queue = q ++ (shutdown ∷ rest) }) (rounds answers) in
      (w'.thread ≡ ended) × (sink d w' ≡ sink d w ++ parts d w.has_details q)
unfolding run rounds step receive release handle handle_line parts
shutdown_ends d w [] rest [] h n = absurd (omega arith)
shutdown_ends d w [] rest (a ∷ []) h n = (refl, sym (append-nil (sink d w)))
shutdown_ends d w [] rest (a ∷ (b ∷ answers)) h n = absurd (omega arith)
shutdown_ends d w (c ∷ q) rest [] h n = absurd (omega arith)
shutdown_ends d w (line l ∷ q) rest (a ∷ answers) h n =
    let w' =
      handle_line
        (record w {
          detail_pending = if l.detail then fetch_sub w.detail_pending else w.detail_pending;
        })
        l a.write in
    let (e, s) = shutdown_ends d w' q rest answers h (omega arith) in
    (e, s ∙ handle_line-sink d w l a.write (parts d w.has_details q))
shutdown_ends d w (export ∷ q) rest (a ∷ answers) h n =
    shutdown_ends d (record w { answers = w.answers ++ (export_result w a ∷ []) }) q rest answers h
      (omega arith)
shutdown_ends d w (shutdown ∷ q) rest (a ∷ answers) h n = absurd (true≢false (sym h))
