-- ===== src/Diag/Queue.antt =====
-- shared/diagnostics/src/worker.rs: the bounds of the queue, and what it reserves.
use moq_cast_desktop.Base.{
  ℕ, ◌+◌, ◌-◌, ◌/◌, ◌^◌, ◌≤◌, ◌<◌, ◌≡◌, refl, Bool, true, false, if◌then◌else◌, ◌&&◌, not, ltb,
  List, [], ◌∷◌, ◌++◌, length, length-append, arith,
}
use moq_cast_desktop.Diag.Worker.{
  Worker, Command, line, export, shutdown, Thread, handling, SinkAnswers, spawn, is_ended, accepts,
  push, reserve, send_detail, give_back, count_drop, release, count_detail, write_line, send,
  receive, handle_line, handle, Step, reserves, gives_back, counts_drop, releases, counts_detail,
  asks_export, asks_shutdown, receives, sends_detail, writes_line, handles, step, run,
}

abbrev pub detail_of : Command → ℕ
detail_of (line l) = if l.detail then 1 else 0
detail_of _ = 0

unfoldable pub count_details : List Command → ℕ
count_details [] = 0
count_details (c ∷ q) = detail_of c + count_details q

abbrev pub in_hand : Thread → ℕ
in_hand (handling c) = detail_of c
in_hand _ = 0

count_details-snoc :
    (q : List Command) (c : Command) → count_details (q ++ (c ∷ [])) ≡ count_details q + detail_of c
unfolding count_details
count_details-snoc [] c = omega arith
count_details-snoc (d ∷ q) c = omega (arith, count_details-snoc q c)

-- Every place for a detail is with a line in the queue or in hand, or with a thread that holds it.
pub record IsSane (w : Worker) : Type 0 where
  pub sized : w.capacity < 2 ^ 64
  pub half : w.detail_capacity ≡ w.capacity / 2
  pub fits : length w.queue ≤ w.capacity
  pub limited : w.detail_pending ≤ w.detail_capacity
  pub covered : count_details w.queue + in_hand w.thread + w.reserved + w.refused ≤ w.detail_pending
  pub exact :
      is_ended w.thread ≡ false
      → w.detail_pending ≡ count_details w.queue + in_hand w.thread + w.reserved + w.refused

reserve-IsSane : (w : Worker) → IsSane w → IsSane (reserve w)
unfolding reserve
reserve-IsSane w h = ground arith

write_line-IsSane : (w : Worker) (bytes : List ℕ) → IsSane w → IsSane (write_line w bytes)
unfolding write_line accepts
write_line-IsSane w bytes h =
    let c = line (record { line = bytes; detail = false }) in
    ground (arith, count_details-snoc w.queue c, length-append w.queue (c ∷ []))

send_detail-IsSane : (w : Worker) (bytes : List ℕ) → IsSane w → IsSane (send_detail w bytes)
unfolding send_detail accepts
send_detail-IsSane w bytes h =
    let c = line (record { line = bytes; detail = true }) in
    ground (arith, count_details-snoc w.queue c, length-append w.queue (c ∷ []))

send-IsSane : (w : Worker) (c : Command) → detail_of c ≡ 0 → IsSane w → IsSane (send w c)
unfolding send accepts
send-IsSane w c z h = ground (arith, count_details-snoc w.queue c, length-append w.queue (c ∷ []))

give_back-IsSane : (w : Worker) → IsSane w → IsSane (give_back w)
unfolding give_back
give_back-IsSane w h = ground arith

count_drop-IsSane : (w : Worker) → IsSane w → IsSane (count_drop w)
unfolding count_drop
count_drop-IsSane w h = ground arith

count_detail-IsSane : (w : Worker) → IsSane w → IsSane (count_detail w)
unfolding count_detail
count_detail-IsSane w h = ground arith

receive-IsSane : (w : Worker) → IsSane w → IsSane (receive w)
unfolding receive count_details
receive-IsSane w h = ground arith

release-IsSane : (w : Worker) → IsSane w → IsSane (release w)
unfolding release
release-IsSane w h = ground arith

handle-IsSane : (w : Worker) (a : SinkAnswers) → IsSane w → IsSane (handle w a)
unfolding handle handle_line count_details
handle-IsSane w a h = ground arith

step-IsSane : (w : Worker) (s : Step) → IsSane w → IsSane (step w s)
unfolding step
step-IsSane w reserves h = reserve-IsSane w h
step-IsSane w gives_back h = give_back-IsSane w h
step-IsSane w counts_drop h = count_drop-IsSane w h
step-IsSane w counts_detail h = count_detail-IsSane w h
step-IsSane w asks_export h = send-IsSane w export refl h
step-IsSane w asks_shutdown h = send-IsSane w shutdown refl h
step-IsSane w receives h = receive-IsSane w h
step-IsSane w releases h = release-IsSane w h
step-IsSane w (sends_detail bytes) h = send_detail-IsSane w bytes h
step-IsSane w (writes_line bytes) h = write_line-IsSane w bytes h
step-IsSane w (handles a) h = handle-IsSane w a h

run-IsSane : (w : Worker) (steps : List Step) → IsSane w → IsSane (run w steps)
unfolding run
run-IsSane w [] h = h
run-IsSane w (s ∷ steps) h = run-IsSane (step w s) steps (step-IsSane w s h)

spawn-IsSane : (capacity : ℕ) (b : Bool) → capacity < 2 ^ 64 → IsSane (spawn capacity b)
unfolding spawn count_details
spawn-IsSane capacity b small = ground arith

count-detail-others : (q : List Command) → count_details q ≤ length q
unfolding count_details
count-detail-others [] = omega arith
count-detail-others (c ∷ q) = ground (arith, count-detail-others q)

-- In every interleaving the queue holds no more commands than its capacity, and no more details than
-- the counter of pending ones has, which never exceeds half of the capacity; so its subtractions
-- never pass zero.
pub reserves_half :
    (capacity : ℕ) (has_details : Bool) (steps : List Step)
    → capacity < 2 ^ 64
    → let w = run (spawn capacity has_details) steps in
      (length w.queue ≤ w.capacity)
      × (count_details w.queue ≤ w.detail_pending)
      × (w.detail_pending ≤ w.capacity / 2)
reserves_half capacity has_details steps small =
    let h =
      run-IsSane (spawn capacity has_details) steps (spawn-IsSane capacity has_details small) in
    (h.fits, omega (arith, h.covered), omega (arith, h.limited, h.half))

-- Whatever the logging threads and the worker do, and however their atomic operations interleave:
-- while the worker is there and fewer than half of the places of its queue (rounded up) hold
-- anything else than details, a lifecycle line is taken, however many details there are.
pub lifecycle_room :
    (capacity : ℕ) (has_details : Bool) (steps : List Step) (bytes : List ℕ)
    → capacity < 2 ^ 64
    → let w = run (spawn capacity has_details) steps in
      is_ended w.thread ≡ false
      → length w.queue - count_details w.queue < w.capacity - w.capacity / 2
      → write_line w bytes ≡ push w (line (record { line = bytes; detail = false }))
unfolding write_line accepts
lifecycle_room capacity has_details steps bytes small =
    let w = run (spawn capacity has_details) steps in
    room w (run-IsSane (spawn capacity has_details) steps (spawn-IsSane capacity has_details small))
  where
    room :
        (w : Worker)
        → IsSane w
        → is_ended w.thread ≡ false
        → length w.queue - count_details w.queue < w.capacity - w.capacity / 2
        → (if not (is_ended w.thread) && ltb (length w.queue) w.capacity
            then push w (line (record { line = bytes; detail = false }))
            else record w { uncounted_drops = w.uncounted_drops + 1 })
          ≡ push w (line (record { line = bytes; detail = false }))
    room w h alive few =
        let full : ltb (length w.queue) w.capacity ≡ true = ground arith in rw (alive, full) refl
