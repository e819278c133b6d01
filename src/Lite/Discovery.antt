-- ===== src/Lite/Discovery.antt =====
-- windows-lite/src/discovery.rs: the discovery worker. Its environment (the daemon, its monitor, the
-- stop channel and the clock) is a list of rounds, one for each turn of the loop.
use moq_cast_desktop.Base.{
  ℕ, ◌+◌, ◌%◌, ◌^◌, Bool, true, false, List, [], ◌∷◌, secs, ◌*◌, if◌then◌else◌,
}
use moq_cast_desktop.Lite.Target.{ResolvedRecord}
use moq_cast_desktop.Lite.Registry.{
  Registry, RegistryChange, Lifecycle, Snapshot, unchanged, updated, starting, browsing, degraded,
  stopping, stopped, failed, found_name, resolved_record, removed_name, expire, snapshot, clear,
  starting_snapshot,
}

abbrev pub presence_lease : ℕ
presence_lease = secs (75 * 60)

pub data RunExit : Type 0 where
  stop_requested discovery_failed : RunExit

-- What `recv_timeout` returns: `ServiceEvent`s by the handler's arms, `tick` for any other event and
-- for a timeout, `disconnected` for the closed channel.
pub data ServiceEvent : Type 0 where
  service_found : List ℕ → ServiceEvent
  service_resolved : ResolvedRecord → ServiceEvent
  service_removed : List ℕ → ServiceEvent
  search_started search_stopped tick disconnected : ServiceEvent

-- One turn of the loop: whether a stop was asked for, for each daemon event that the monitor holds
-- whether it is an error, the service event, and the time at which it is handled.
pub record Round : Type 0 where
  pub stop : Bool
  pub monitor : List Bool
  pub event : ServiceEvent
  pub now : ℕ

-- The worker's variables, with the shared `latest` and the number of calls of `wake`.
pub record Worker : Type 0 where
  pub registry : Registry
  pub revision : ℕ
  pub lifecycle : Lifecycle
  pub latest : Snapshot
  pub wakes : ℕ

unfoldable pub publish : Worker → Lifecycle → Worker
publish w lifecycle =
    let revision = (w.revision + 1) % 2 ^ 64 in
    record w {
      revision = revision;
      latest = snapshot w.registry revision lifecycle;
      wakes = w.wakes + 1;
    }

abbrev pub is_degraded : Lifecycle → Bool
is_degraded degraded = true
is_degraded _ = false

-- The body of the monitor's loop, for one daemon event.
unfoldable pub monitor_event : Worker → Bool → Worker
monitor_event w false = w
monitor_event w true =
    if is_degraded w.lifecycle then w else publish (record w { lifecycle = degraded }) degraded

unfoldable pub drain_monitor : Worker → List Bool → Worker
drain_monitor w [] = w
drain_monitor w (e ∷ es) = drain_monitor (monitor_event w e) es

-- The `match` on the service event: the new state and the change, or the exit.
pub data Handled : Type 0 where
  go : Worker → RegistryChange → Handled
  exit : RunExit → Handled

abbrev pub with_registry : Worker → Registry × RegistryChange → Handled
with_registry w (r, change) = go (record w { registry = r }) change

unfoldable pub handle : Worker → ServiceEvent → ℕ → Handled
handle w (service_found name) now = with_registry w (found_name w.registry name now presence_lease)
handle w (service_resolved rec) now =
    with_registry w (resolved_record w.registry rec now presence_lease)
handle w (service_removed name) now = with_registry w (removed_name w.registry name)
handle w search_started now = go (record w { lifecycle = browsing }) updated
handle w search_stopped now = exit discovery_failed
handle w tick now = with_registry w (expire w.registry now)
handle w disconnected now = exit discovery_failed

abbrev pub is_unchanged : RegistryChange → Bool
is_unchanged unchanged = true
is_unchanged _ = false

-- `if changed != RegistryChange::Unchanged { publish(…) }`
unfoldable pub settle : Worker → RegistryChange → Worker
settle w change = if is_unchanged change then w else publish w w.lifecycle

-- The way out of the loop: `Stopping` is published on a request only, then the registry is cleared
-- and the last lifecycle published.
unfoldable pub finish_run : Worker → RunExit → Worker
finish_run w stop_requested = publish (record w { registry = clear w.registry }) stopped
finish_run w discovery_failed = publish (record w { registry = clear w.registry }) failed

unfoldable pub leave : Worker → RunExit → Worker
leave w stop_requested = finish_run (publish w stopping) stop_requested
leave w discovery_failed = finish_run w discovery_failed

pub data Turn : Type 0 where
  continue : Worker → Turn
  done : Worker → Turn

-- What becomes of a handled event: the registry is settled, or the loop is left.
unfoldable pub resume : Worker → Handled → Turn
resume w (go w' change) = continue (settle w' change)
resume w (exit reason) = done (leave w reason)

-- What follows the monitor's loop in one turn.
unfoldable pub after_monitor : Worker → ServiceEvent → ℕ → Turn
unfolding resume
after_monitor w event now = resume w (handle w event now)

-- One turn of the loop.
unfoldable pub turn : Worker → Round → Turn
turn w round =
    if round.stop
    then done (leave w stop_requested)
    else after_monitor (drain_monitor w round.monitor) round.event round.now

-- The loop over the rounds that the environment brings.
unfoldable pub run_loop : Worker → List Round → Turn
run_loop w [] = continue w
run_loop w (round ∷ rounds) = elim (turn w round) [
  | continue w' ↦ run_loop w' rounds
  | done w' ↦ done w'
]

-- `run` up to its loop, after the daemon and the browse were opened.
unfoldable pub start : Worker
unfolding publish
start =
    publish
      (record {
        registry = record { entries = [] };
        revision = 0;
        lifecycle = browsing;
        latest = starting_snapshot;
        wakes = 0;
      })
      browsing

-- How the daemon was opened.
pub data Opening : Type 0 where
  no_daemon no_browse opened : Opening

-- `run`
unfoldable pub run : Opening → List Round → Turn
unfolding start publish
run opened rounds = run_loop start rounds
run _ rounds = done (publish idle failed)
  where
    idle : Worker
    idle = record {
      registry = record { entries = [] };
      revision = 0;
      lifecycle = starting;
      latest = starting_snapshot;
      wakes = 0;
    }
