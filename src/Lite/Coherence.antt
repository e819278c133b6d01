-- ===== src/Lite/Coherence.antt =====
-- windows-lite/src/discovery.rs: what the published snapshot shows is what the registry holds.
use moq_cast_desktop.Base.{
  ℕ, ◌≡◌, ◌⊎◌, refl, sym, ◌∙◌, Bool, true, false, List, [], ◌∷◌, arith, Bool-cases, inl, inr,
}
use moq_cast_desktop.Lite.Registry.{
  Registry, RegistryChange, added, updated, removed, unchanged, degraded, stopping, stopped, failed,
  snapshot, clear, found_name, resolved_record, removed_name, expire, collect,
}
use moq_cast_desktop.Lite.Reports.{
  found_name-view, resolved_record-view, removed_name-view, expire-view, snapshot_of_view, view,
}
use moq_cast_desktop.Lite.Valid.{
  IsValid, found_name-IsValid, resolved_record-IsValid, removed_name-IsValid, expire-IsValid,
}
use moq_cast_desktop.Lite.Discovery.{
  Worker, Round, Turn, continue, done, Handled, go, exit, RunExit, stop_requested, discovery_failed,
  ServiceEvent, service_found, service_resolved, service_removed, search_started, search_stopped,
  tick, disconnected, publish, monitor_event, drain_monitor, handle, settle, finish_run, leave,
  after_monitor, resume, turn, run_loop, start, run, Opening, no_daemon, no_browse, opened,
  presence_lease, is_degraded, with_registry,
}

-- Between two turns: the registry is valid and the shared snapshot is the registry's own.
pub record IsCoherent (w : Worker) : Type 0 where
  pub valid : IsValid w.registry
  pub fresh : w.latest ≡ snapshot w.registry w.revision w.lifecycle

-- After the loop: nothing is shown any more, and the lifecycle says why.
pub record IsOver (w : Worker) : Type 0 where
  pub no_devices : w.latest.devices ≡ []
  pub no_targets : w.latest.watch_targets ≡ []
  pub ended : (w.latest.lifecycle ≡ stopped) ⊎ (w.latest.lifecycle ≡ failed)

publish-IsCoherent : (w : Worker) → IsValid w.registry → IsCoherent (publish w w.lifecycle)
unfolding publish
publish-IsCoherent w v = record { valid = v; fresh = refl }

monitor_event-IsCoherent : (w : Worker) (e : Bool) → IsCoherent w → IsCoherent (monitor_event w e)
unfolding monitor_event
monitor_event-IsCoherent w false c = c
monitor_event-IsCoherent w true c = elim (Bool-cases (is_degraded w.lifecycle)) [
  | inl q ↦ rw q c
  | inr q ↦ rw q (publish-IsCoherent (record w { lifecycle = degraded }) c.valid)
]

drain_monitor-IsCoherent :
    (w : Worker) (es : List Bool) → IsCoherent w → IsCoherent (drain_monitor w es)
unfolding drain_monitor
drain_monitor-IsCoherent w [] c = c
drain_monitor-IsCoherent w (e ∷ es) c =
    drain_monitor-IsCoherent (monitor_event w e) es (monitor_event-IsCoherent w e c)

-- What a handled event leaves to `settle`: a valid registry, and a reported change if the shared
-- snapshot is out of date.
abbrev AwaitsSettle : Handled → Type 0
AwaitsSettle (go w change) =
    IsValid w.registry
    × (change ≡ unchanged → w.latest ≡ snapshot w.registry w.revision w.lifecycle)
AwaitsSettle (exit reason) = Unit

with_registry-AwaitsSettle :
    (w : Worker) (p : Registry × RegistryChange)
    → IsCoherent w
    → IsValid p.0
    → (p.1 ≡ unchanged → view p.0 ≡ view w.registry)
    → AwaitsSettle (with_registry w p)
with_registry-AwaitsSettle w (r, change) c v h =
    (v, λ q. c.fresh ∙ sym (snapshot_of_view r w.registry w.revision w.lifecycle (h q)))

handle-AwaitsSettle :
    (w : Worker) (event : ServiceEvent) (now : ℕ) → IsCoherent w → AwaitsSettle (handle w event now)
unfolding handle
handle-AwaitsSettle w (service_found name) now c =
    with_registry-AwaitsSettle w (found_name w.registry name now presence_lease) c
      (found_name-IsValid w.registry name now presence_lease c.valid)
      (λ _. found_name-view w.registry name now presence_lease c.valid.sorted)
handle-AwaitsSettle w (service_resolved rec) now c =
    with_registry-AwaitsSettle w (resolved_record w.registry rec now presence_lease) c
      (resolved_record-IsValid w.registry rec now presence_lease c.valid)
      (resolved_record-view w.registry rec now presence_lease c.valid.sorted)
handle-AwaitsSettle w (service_removed name) now c =
    with_registry-AwaitsSettle w (removed_name w.registry name) c
      (removed_name-IsValid w.registry name c.valid) (removed_name-view w.registry name)
handle-AwaitsSettle w search_started now c = (c.valid, λ q. cc)
handle-AwaitsSettle w search_stopped now c = tt
handle-AwaitsSettle w tick now c =
    with_registry-AwaitsSettle w (expire w.registry now) c (expire-IsValid w.registry now c.valid)
      (expire-view w.registry now)
handle-AwaitsSettle w disconnected now c = tt

settle-IsCoherent :
    (w : Worker) (change : RegistryChange)
    → AwaitsSettle (go w change)
    → IsCoherent (settle w change)
unfolding settle
settle-IsCoherent w added (v, h) = publish-IsCoherent w v
settle-IsCoherent w updated (v, h) = publish-IsCoherent w v
settle-IsCoherent w removed (v, h) = publish-IsCoherent w v
settle-IsCoherent w unchanged (v, h) = record { valid = v; fresh = h refl }

finish_run-IsOver : (w : Worker) (reason : RunExit) → IsOver (finish_run w reason)
unfolding finish_run publish snapshot collect clear
finish_run-IsOver w stop_requested = record {
  no_devices = refl;
  no_targets = refl;
  ended = inl refl;
}
finish_run-IsOver w discovery_failed = record {
  no_devices = refl;
  no_targets = refl;
  ended = inr refl;
}

leave-IsOver : (w : Worker) (reason : RunExit) → IsOver (leave w reason)
unfolding leave
leave-IsOver w stop_requested = finish_run-IsOver (publish w stopping) stop_requested
leave-IsOver w discovery_failed = finish_run-IsOver w discovery_failed

-- What holds of a turn's outcome.
abbrev pub IsSound : Turn → Type 0
IsSound (continue w) = IsCoherent w
IsSound (done w) = IsOver w

resume-IsSound : (w : Worker) (h : Handled) → AwaitsSettle h → IsSound (resume w h)
unfolding resume
resume-IsSound w (go w' change) a = settle-IsCoherent w' change a
resume-IsSound w (exit reason) a = leave-IsOver w reason

turn-IsSound : (w : Worker) (round : Round) → IsCoherent w → IsSound (turn w round)
unfolding turn after_monitor
turn-IsSound w round c = elim (Bool-cases round.stop) [
  | inl q ↦ rw (q, turn) (leave-IsOver w stop_requested)
  | inr q ↦
      let w' = drain_monitor w round.monitor in
      rw (q, turn)
        (resume-IsSound w' (handle w' round.event round.now) (
          handle-AwaitsSettle w' round.event round.now
            (drain_monitor-IsCoherent w round.monitor c)))
]

Turn-cases : (t : Turn) → ((w : Worker) × (t ≡ continue w)) ⊎ ((w : Worker) × (t ≡ done w))
Turn-cases (continue w) = inl (w, refl)
Turn-cases (done w) = inr (w, refl)

run_loop-IsSound : (w : Worker) (rounds : List Round) → IsCoherent w → IsSound (run_loop w rounds)
unfolding run_loop
run_loop-IsSound w [] c = c
run_loop-IsSound w (round ∷ rounds) c = elim (Turn-cases (turn w round)) [
  | inl (w', q) ↦ rw (q, run_loop) (run_loop-IsSound w' rounds (rw q at (turn-IsSound w round c)))
  | inr (w', q) ↦ rw (q, run_loop) (rw q at (turn-IsSound w round c))
]

start-IsCoherent : IsCoherent start
unfolding start publish
start-IsCoherent = record {
  valid = record { sorted = tt; bounded = omega arith; good = tt };
  fresh = refl;
}

-- Whatever the environment does, and however often the loop turns: while the worker runs, its
-- registry is valid and the snapshot that it shares is the registry's own, at the worker's revision
-- and lifecycle; once it is over, the shared snapshot shows no device and no target, and its
-- lifecycle is `Stopped` or `Failed`.
pub run-IsSound : (opening : Opening) (rounds : List Round) → IsSound (run opening rounds)
unfolding run publish snapshot collect
run-IsSound opened rounds = run_loop-IsSound start rounds start-IsCoherent
run-IsSound no_daemon rounds = record { no_devices = refl; no_targets = refl; ended = inr refl }
run-IsSound no_browse rounds = record { no_devices = refl; no_targets = refl; ended = inr refl }
