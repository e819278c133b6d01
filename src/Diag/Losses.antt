-- ===== src/Diag/Losses.antt =====
-- shared/diagnostics/src/worker.rs: the counters of the lines that were not taken.
use moq_cast_desktop.Base.{
  ℕ, ◌+◌, ◌^◌, ◌≤◌, ◌<◌, ◌==◌, ◌≡◌, refl, Bool, true, false, if◌then◌else◌, leb, List, [], ◌∷◌,
  length, arith,
}
use moq_cast_desktop.Diag.Worker.{
  Worker, spawn, accepts, reserve, send_detail, give_back, count_drop, count_detail, write_line,
  send, receive, release, handle_line, handle, Step, reserves, sends_detail, writes_line, step, run,
}

-- The lines that a step refuses: a detail for which no place is reserved, and a line that `try_send`
-- does not take; with the flag, the details among them.
abbrev pub lost : Bool → Worker → Step → ℕ
lost d w reserves = if leb w.detail_capacity w.detail_pending then 1 else 0
lost d w (sends_detail bytes) = if w.reserved == 0 then 0 else if accepts w then 0 else 1
lost d w (writes_line bytes) = if d then 0 else if accepts w then 0 else 1
lost d w _ = 0

unfoldable pub all_lost : Bool → Worker → List Step → ℕ
unfolding step
all_lost d w [] = 0
all_lost d w (s ∷ steps) = lost d w s + all_lost d (step w s) steps

-- What is counted, and what is still to be counted.
abbrev pub counted : Bool → Worker → ℕ
counted true w = w.detail_dropped + w.uncounted_details + w.refused
counted false w = w.dropped + w.uncounted_drops + w.refused

step-counted :
    (d : Bool) (w : Worker) (s : Step)
    → counted d w < 2 ^ 64
    → counted d (step w s) ≡ counted d w + lost d w s
unfolding step reserve give_back count_drop count_detail send receive release send_detail write_line
    handle handle_line
step-counted true w s h = ground arith
step-counted false w s h = ground arith

lost-le : (d : Bool) (w : Worker) (s : Step) → lost d w s ≤ 1
lost-le d w s = ground arith

run-counted :
    (d : Bool) (w : Worker) (steps : List Step)
    → counted d w + length steps < 2 ^ 64
    → counted d (run w steps) ≡ counted d w + all_lost d w steps
unfolding run all_lost
run-counted d w [] h = omega arith
run-counted d w (s ∷ steps) h =
    let e = step-counted d w s (omega arith) in
    omega (arith, e, run-counted d (step w s) steps (omega (arith, e, lost-le d w s)))

spawn-counted :
    (d : Bool) (capacity : ℕ) (has_details : Bool) → counted d (spawn capacity has_details) ≡ 0
unfolding spawn
spawn-counted true capacity has_details = refl
spawn-counted false capacity has_details = refl

-- In every interleaving of fewer than 2^64 steps, each line that is not taken (a detail without a
-- place, or a line that try_send refuses) is counted exactly once in dropped, and each detail among
-- them exactly once in detail_dropped, if what the threads have still to give back or to count is
-- added.
pub losses_counted :
    (capacity : ℕ) (has_details : Bool) (steps : List Step)
    → length steps < 2 ^ 64
    → let start = spawn capacity has_details in
      let w = run start steps in
      (w.dropped + w.uncounted_drops + w.refused ≡ all_lost false start steps)
      × (w.detail_dropped + w.uncounted_details + w.refused ≡ all_lost true start steps)
losses_counted capacity has_details steps h =
    let start = spawn capacity has_details in
    let e = spawn-counted false capacity has_details in
    let f = spawn-counted true capacity has_details in
    (
      omega (arith, e, run-counted false start steps (omega (arith, e))),
      omega (arith, f, run-counted true start steps (omega (arith, f))),
    )
