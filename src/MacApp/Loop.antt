-- ===== src/MacApp/Loop.antt =====
-- mac/src/runtime.rs: the turns of the owner's loop while the services do not run, and the loop.
use moq_cast_desktop.Base.{Bool, true, false, List, [], ◌∷◌, if◌then◌else◌}
use moq_cast_desktop.MacApp.Lifecycle.{begin, apply, RuntimePhase}
use moq_cast_desktop.MacApp.Snapshot.{Media, default_media}
use moq_cast_desktop.MacApp.Nearby.{
  default_nearby, NetworkGenerations, mark_network_failed, mark_network_stopped,
}
use moq_cast_desktop.MacApp.NetworkEvents.{network_started}
use moq_cast_desktop.MacApp.Control.{
  App, Input, Answers, Owner, go_on, restart, teardown_media, stop_owner, suspend_owner, serve,
  stop_network, restart_network, shutdown, command, commands_closed, suspend, resume, queue_empty,
  start_ok, start_failed, starting, serving, recovering, off, suspended, ended,
}

-- While the services are being started.
unfoldable pub start_up : NetworkGenerations → App → Answers → Input → Owner
unfolding network_started mark_network_failed teardown_media stop_owner restart mark_network_stopped
    suspend_owner
start_up g s a (start_ok local_id) =
    go_on (serving g false) (network_started s.nearby g local_id) s.media
start_up g s a (start_failed issue) =
    go_on (recovering false) (mark_network_failed s.nearby g issue).0 s.media
start_up g s a (command shutdown) = stop_owner s.nearby (teardown_media s.media a)
start_up g s a commands_closed = stop_owner s.nearby (teardown_media s.media a)
start_up g s a (command restart_network) = restart s.nearby s.media
start_up g s a (command stop_network) =
    go_on off (mark_network_stopped s.nearby) (teardown_media s.media a)
start_up g s a suspend = suspend_owner true s.nearby (teardown_media s.media a)
start_up g s a _ = go_on (starting g) s.nearby s.media

abbrev pub tear_if : Bool → Media → Answers → Media
tear_if torn m a = if torn then m else teardown_media m a

-- `wait_for_network_restart` after a failure: the media may still have to be torn down.
unfoldable pub recover : Bool → App → Answers → Input → Owner
unfolding restart stop_owner suspend_owner
recover torn s a (command restart_network) = restart s.nearby s.media
recover torn s a (command shutdown) = stop_owner s.nearby (tear_if torn s.media a)
recover torn s a commands_closed = stop_owner s.nearby (tear_if torn s.media a)
recover torn s a suspend = suspend_owner true s.nearby (tear_if torn s.media a)
recover torn s a _ = go_on (recovering torn) s.nearby s.media

-- `wait_while_network_stopped`
unfoldable pub stay_off : App → Input → Owner
unfolding restart stop_owner suspend_owner
stay_off s (command restart_network) = restart s.nearby s.media
stay_off s (command shutdown) = stop_owner s.nearby s.media
stay_off s commands_closed = stop_owner s.nearby s.media
stay_off s suspend = suspend_owner false s.nearby s.media
stay_off s _ = go_on off s.nearby s.media

-- The system is awake again, and no command is queued.
unfoldable pub wake_up : Bool → App → Owner
unfolding restart mark_network_stopped begin
wake_up wanted s =
    let n = s.nearby in
    let awake = record n { runtime = begin n.runtime RuntimePhase.ready } in
    if wanted then restart awake s.media else go_on off (mark_network_stopped awake) s.media

-- `wait_while_suspended`. Once resumed it takes the queued commands, and no system event.
unfoldable pub sleep : Bool → Bool → App → Input → Owner
unfolding stop_owner wake_up
sleep wanted resumed s (command shutdown) = stop_owner s.nearby s.media
sleep wanted resumed s commands_closed = stop_owner s.nearby s.media
sleep wanted resumed s (command restart_network) = go_on (suspended true resumed) s.nearby s.media
sleep wanted resumed s (command stop_network) = go_on (suspended false resumed) s.nearby s.media
sleep wanted resumed s queue_empty =
    if resumed then wake_up wanted s else go_on (suspended wanted resumed) s.nearby s.media
sleep wanted resumed s resume = go_on (suspended wanted true) s.nearby s.media
sleep wanted resumed s _ = go_on (suspended wanted resumed) s.nearby s.media

unfoldable pub turn : Owner → Answers → Input → Owner
unfolding start_up serve recover stay_off sleep
turn o a input = elim o.control [
  | starting g ↦ start_up g o.app a input
  | serving g scanned ↦ serve g scanned o.app a input
  | recovering torn ↦ recover torn o.app a input
  | off ↦ stay_off o.app input
  | suspended wanted resumed ↦ sleep wanted resumed o.app input
  | ended ↦ o
]

-- The first part of `run`, up to the first start.
unfoldable pub start_owner : Owner
unfolding begin apply restart
start_owner =
    let n = default_nearby in
    let started = begin n.runtime RuntimePhase.starting in
    restart (record n { runtime = (apply started started.generation RuntimePhase.ready).0 })
      default_media

unfoldable pub run : Owner → List (Answers × Input) → Owner
unfolding turn
run o [] = o
run o ((a, input) ∷ inputs) = run (turn o a input) inputs
