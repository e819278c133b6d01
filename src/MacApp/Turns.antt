-- ===== src/MacApp/Turns.antt =====
-- mac/src/runtime.rs: every turn of the loop keeps what holds at each `await`.
use moq_cast_desktop.Base.{ℕ, ◌≡◌, Bool, true, false, List, if◌then◌else◌, arith}
use moq_cast_desktop.MacApp.Lifecycle.{begin, apply, RuntimePhase}
use moq_cast_desktop.MacApp.Snapshot.{Media}
use moq_cast_desktop.MacApp.Coherent.{IsCoherent}
use moq_cast_desktop.MacApp.Nearby.{NetworkGenerations, is_current}
use moq_cast_desktop.MacApp.NetworkEvents.{network_started}
use moq_cast_desktop.MacApp.Control.{
  App, RuntimeCommand, Input, Answers, starting, serving, recovering, off, suspended, go_on,
  teardown_media, command, commands_closed, suspend, resume, queue_empty, start_ok, start_failed,
  network, services_closed, playback, publication, initial_scan_finished, watch_screen,
  set_playback_volume, select_share_source, set_share_system_audio, stop_watching, start_sharing,
  stop_sharing, stop_network, restart_network, shutdown,
}
use moq_cast_desktop.MacApp.Loop.{start_up, tear_if, recover, stay_off, wake_up, sleep}
use moq_cast_desktop.MacApp.Rest.{
  AtRest, Holds, IsSound, teardown_media_sound, restart-IsSound, stop_owner-IsSound,
  suspend_owner-IsSound, off-IsSound, failed-IsSound,
}

network_started-IsSound :
    (g : NetworkGenerations) (s : App) (local_id : List ℕ)
    → IsCoherent s.media
    → s.nearby.nearby_stopping ≡ false
    → is_current s.nearby g ≡ true
    → IsSound (go_on (serving g false) (network_started s.nearby g local_id) s.media)
unfolding network_started apply
network_started-IsSound g s local_id c st current = record {
  coherent = c;
  steady = st;
  stands = ground arith;
}

pub start_up-IsSound :
    (g : NetworkGenerations) (s : App) (a : Answers) (input : Input)
    → IsCoherent s.media
    → s.nearby.nearby_stopping ≡ false
    → Holds (starting g) s
    → IsSound (start_up g s a input)
unfolding start_up
start_up-IsSound g s a input c st (r, closed, vacant, current) = go input
  where
    torn : IsCoherent (teardown_media s.media a) × AtRest (teardown_media s.media a)
    torn = teardown_media_sound s.media a c

    stays : IsSound (go_on (starting g) s.nearby s.media)
    stays = record { coherent = c; steady = st; stands = (r, closed, vacant, current) }

    go_command : (k : RuntimeCommand) → IsSound (start_up g s a (command k))
    go_command shutdown = stop_owner-IsSound s.nearby (teardown_media s.media a) st torn.0
    go_command restart_network = restart-IsSound s.nearby s.media st c r
    go_command stop_network = off-IsSound s.nearby (teardown_media s.media a) torn.0 torn.1
    go_command (watch_screen peer path) = stays
    go_command (set_playback_volume generation percent) = stays
    go_command (select_share_source selection) = stays
    go_command (set_share_system_audio enabled) = stays
    go_command stop_watching = stays
    go_command start_sharing = stays
    go_command stop_sharing = stays

    go : (input : Input) → IsSound (start_up g s a input)
    go (command k) = go_command k
    go (start_ok local_id) = network_started-IsSound g s local_id c st current
    go (start_failed issue) = failed-IsSound false s.nearby s.media g issue st current c r
    go commands_closed = stop_owner-IsSound s.nearby (teardown_media s.media a) st torn.0
    go suspend = suspend_owner-IsSound true s.nearby (teardown_media s.media a) st torn.0 torn.1
    go services_closed = stays
    go (network event) = stays
    go (playback event) = stays
    go (publication event) = stays
    go initial_scan_finished = stays
    go resume = stays
    go queue_empty = stays

tear_if_sound :
    (b : Bool) (m : Media) (a : Answers)
    → IsCoherent m
    → AtRest m
    → IsCoherent (tear_if b m a) × AtRest (tear_if b m a)
tear_if_sound true m a c r = (c, r)
tear_if_sound false m a c r = teardown_media_sound m a c

pub recover-IsSound :
    (b : Bool) (s : App) (a : Answers) (input : Input)
    → IsCoherent s.media
    → s.nearby.nearby_stopping ≡ false
    → Holds (recovering b) s
    → IsSound (recover b s a input)
unfolding recover
recover-IsSound b s a input c st (r, closed, vacant) = go input
  where
    torn : IsCoherent (tear_if b s.media a) × AtRest (tear_if b s.media a)
    torn = tear_if_sound b s.media a c r

    stays : IsSound (go_on (recovering b) s.nearby s.media)
    stays = record { coherent = c; steady = st; stands = (r, closed, vacant) }

    go_command : (k : RuntimeCommand) → IsSound (recover b s a (command k))
    go_command restart_network = restart-IsSound s.nearby s.media st c r
    go_command shutdown = stop_owner-IsSound s.nearby (tear_if b s.media a) st torn.0
    go_command stop_network = stays
    go_command (watch_screen peer path) = stays
    go_command (set_playback_volume generation percent) = stays
    go_command (select_share_source selection) = stays
    go_command (set_share_system_audio enabled) = stays
    go_command stop_watching = stays
    go_command start_sharing = stays
    go_command stop_sharing = stays

    go : (input : Input) → IsSound (recover b s a input)
    go (command k) = go_command k
    go commands_closed = stop_owner-IsSound s.nearby (tear_if b s.media a) st torn.0
    go suspend = suspend_owner-IsSound true s.nearby (tear_if b s.media a) st torn.0 torn.1
    go (start_ok local_id) = stays
    go (start_failed issue) = stays
    go services_closed = stays
    go (network event) = stays
    go (playback event) = stays
    go (publication event) = stays
    go initial_scan_finished = stays
    go resume = stays
    go queue_empty = stays

pub stay_off-IsSound :
    (s : App) (input : Input)
    → IsCoherent s.media
    → s.nearby.nearby_stopping ≡ false
    → Holds off s
    → IsSound (stay_off s input)
unfolding stay_off
stay_off-IsSound s input c st (r, closed, vacant) = go input
  where
    stays : IsSound (go_on off s.nearby s.media)
    stays = record { coherent = c; steady = st; stands = (r, closed, vacant) }

    go_command : (k : RuntimeCommand) → IsSound (stay_off s (command k))
    go_command restart_network = restart-IsSound s.nearby s.media st c r
    go_command shutdown = stop_owner-IsSound s.nearby s.media st c
    go_command stop_network = stays
    go_command (watch_screen peer path) = stays
    go_command (set_playback_volume generation percent) = stays
    go_command (select_share_source selection) = stays
    go_command (set_share_system_audio enabled) = stays
    go_command stop_watching = stays
    go_command start_sharing = stays
    go_command stop_sharing = stays

    go : (input : Input) → IsSound (stay_off s input)
    go (command k) = go_command k
    go commands_closed = stop_owner-IsSound s.nearby s.media st c
    go suspend = suspend_owner-IsSound false s.nearby s.media st c r
    go (start_ok local_id) = stays
    go (start_failed issue) = stays
    go services_closed = stays
    go (network event) = stays
    go (playback event) = stays
    go (publication event) = stays
    go initial_scan_finished = stays
    go resume = stays
    go queue_empty = stays

wake_up-IsSound :
    (wanted : Bool) (s : App)
    → IsCoherent s.media
    → s.nearby.nearby_stopping ≡ false
    → AtRest s.media
    → IsSound (wake_up wanted s)
unfolding wake_up
wake_up-IsSound true s c st r =
    restart-IsSound (record s.nearby { runtime = begin s.nearby.runtime RuntimePhase.ready })
      s.media st c r
wake_up-IsSound false s c st r =
    off-IsSound (record s.nearby { runtime = begin s.nearby.runtime RuntimePhase.ready }) s.media c
      r

pub sleep-IsSound :
    (wanted resumed : Bool) (s : App) (input : Input)
    → IsCoherent s.media
    → s.nearby.nearby_stopping ≡ false
    → Holds (suspended wanted resumed) s
    → IsSound (sleep wanted resumed s input)
unfolding sleep
sleep-IsSound wanted resumed s input c st (r, closed, vacant) = go input
  where
    stays : (w u : Bool) → IsSound (go_on (suspended w u) s.nearby s.media)
    stays w u = record { coherent = c; steady = st; stands = (r, closed, vacant) }

    woken :
        (u : Bool)
        → IsSound (if u then wake_up wanted s else go_on (suspended wanted u) s.nearby s.media)
    woken true = wake_up-IsSound wanted s c st r
    woken false = stays wanted false

    go_command : (k : RuntimeCommand) → IsSound (sleep wanted resumed s (command k))
    go_command shutdown = stop_owner-IsSound s.nearby s.media st c
    go_command restart_network = stays true resumed
    go_command stop_network = stays false resumed
    go_command (watch_screen peer path) = stays wanted resumed
    go_command (set_playback_volume generation percent) = stays wanted resumed
    go_command (select_share_source selection) = stays wanted resumed
    go_command (set_share_system_audio enabled) = stays wanted resumed
    go_command stop_watching = stays wanted resumed
    go_command start_sharing = stays wanted resumed
    go_command stop_sharing = stays wanted resumed

    go : (input : Input) → IsSound (sleep wanted resumed s input)
    go (command k) = go_command k
    go commands_closed = stop_owner-IsSound s.nearby s.media st c
    go queue_empty = woken resumed
    go resume = stays wanted true
    go suspend = stays wanted resumed
    go (start_ok local_id) = stays wanted resumed
    go (start_failed issue) = stays wanted resumed
    go services_closed = stays wanted resumed
    go (network event) = stays wanted resumed
    go (playback event) = stays wanted resumed
    go (publication event) = stays wanted resumed
    go initial_scan_finished = stays wanted resumed
