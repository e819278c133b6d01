-- ===== src/Diag/WorkerTests.antt =====
-- Runs of the diagnostics worker, and instances of its theorems.
use moq_cast_desktop.Base.{
  ◌+◌, ◌/◌, ◌≡◌, ◌≤◌, refl, true, false, List, [], ◌∷◌, ◌++◌, length, all, Option, none, some,
  is_some, arith,
}
use moq_cast_desktop.Base.Bytes.{bytes}
use moq_cast_desktop.Diag.Worker.{
  Worker, Command, line, shutdown, waiting, writing, ended, IoError, SinkAnswers, spawn, push,
  write_line, handle, Step, reserves, counts_drop, counts_detail, releases, asks_export, receives,
  sends_detail, writes_line, handles, run,
}
use moq_cast_desktop.Diag.Queue.{count_details, reserves_half, lifecycle_room}
use moq_cast_desktop.Diag.Losses.{all_lost, losses_counted}
use moq_cast_desktop.Diag.Barrier.{failed_write}
use moq_cast_desktop.Diag.Order.{
  sink, in_hand, parts, all_sent, sink_in_order, rounds, shutdown_ends,
}

-- The worker's queue under pressure: the first detail finds no place, a line and a detail do.
abbrev good : SinkAnswers
good = record { write = none; flush_output = none; flush_details = none; export = none }

abbrev full_disk : IoError
full_disk = record { kind = 28; message = bytes "no space left" }

abbrev bad : SinkAnswers
bad = record { write = some full_disk; flush_output = none; flush_details = none; export = none }

abbrev pressure : List Step
pressure =
    reserves
    ∷ reserves
    ∷ sends_detail (bytes "packet")
    ∷ writes_line (bytes "connected")
    ∷ writes_line (bytes "lost")
    ∷ counts_detail
    ∷ counts_drop
    ∷ receives
    ∷ releases
    ∷ counts_drop
    ∷ handles good
    ∷ []

abbrev pressed : Worker
pressed = run (spawn 2 true) pressure

pressed_losses :
    (pressed.dropped ≡ 2) × (pressed.detail_dropped ≡ 1) × (pressed.details ≡ bytes "packet" ∷ [])
unfolding run spawn
pressed_losses = (refl, refl, refl)

losses_counted_example :
    (pressed.dropped + pressed.uncounted_drops + pressed.refused
      ≡ all_lost false (spawn 2 true) pressure)
    × (pressed.detail_dropped + pressed.uncounted_details + pressed.refused
        ≡ all_lost true (spawn 2 true) pressure)
losses_counted_example = losses_counted 2 true pressure (omega arith)

reserves_half_example :
    (length pressed.queue ≤ pressed.capacity)
    × (count_details pressed.queue ≤ pressed.detail_pending)
    × (pressed.detail_pending ≤ pressed.capacity / 2)
reserves_half_example = reserves_half 2 true pressure (omega arith)

lifecycle_room_example :
    let w = run (spawn 2 true) (reserves ∷ sends_detail (bytes "packet") ∷ []) in
    write_line w (bytes "connected")
    ≡ push w (line (record { line = bytes "connected"; detail = false }))
unfolding run spawn count_details
lifecycle_room_example =
    lifecycle_room 2 true (reserves ∷ sends_detail (bytes "packet") ∷ []) (bytes "connected")
      (omega arith) refl (omega arith)

abbrev midway : Worker
midway = record (spawn 2 true) { thread = writing (record { line = bytes "x"; detail = false }) }

failed_write_example :
    (new : List (Option IoError)) × ((run
        (handle midway bad)
        (asks_export ∷ receives ∷ handles good ∷ [])).answers
      ≡ midway.answers ++ new)
    × (all is_some new ≡ true)
unfolding spawn
failed_write_example =
    failed_write midway (record { line = bytes "x"; detail = false }) full_disk bad
      (asks_export ∷ receives ∷ handles good ∷ []) refl refl

sink_in_order_example :
    sink true pressed
      ++ (in_hand true pressed.has_details pressed.thread
          ++ parts true pressed.has_details pressed.queue)
    ≡ all_sent true (spawn 2 true) pressure
unfolding run spawn
sink_in_order_example = sink_in_order true 2 true pressure refl

abbrev last : Command
last = line (record { line = bytes "bye"; detail = false })

shutdown_ends_example :
    let w' =
      run
        (record (spawn 2 true) { thread = waiting; queue = (last ∷ []) ++ (shutdown ∷ []) })
        (rounds (good ∷ good ∷ [])) in
    (w'.thread ≡ ended)
    × (sink false w'
        ≡ sink false (spawn 2 true) ++ parts false (spawn 2 true).has_details (last ∷ []))
shutdown_ends_example =
    shutdown_ends false (spawn 2 true) (last ∷ []) [] (good ∷ good ∷ []) refl refl
