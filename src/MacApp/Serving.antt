-- ===== src/MacApp/Serving.antt =====
-- mac/src/runtime.rs: a turn of the loop while the services run keeps what holds at each `await`.
use moq_cast_desktop.Base.{ℕ, ◌≡◌, ◌∙◌, refl, Bool, true, false, ◌&&◌, List, if◌then◌else◌, arith}
use moq_cast_desktop.Peers.Facts
use moq_cast_desktop.MacApp.Lifecycle.{Lifecycle, apply, NearbyIssue}
use moq_cast_desktop.MacApp.Snapshot.{Media}
use moq_cast_desktop.MacApp.Media.{
  step, watches_screen, starts_sharing, stops_watching, selects_source, sets_system_audio,
  stops_sharing, plays, publishes,
}
use moq_cast_desktop.MacApp.Coherent.{IsCoherent, step-IsCoherent}
use moq_cast_desktop.MacApp.Nearby.{Nearby, NetworkGenerations, access, can_watch, is_current}
use moq_cast_desktop.MacApp.NetworkEvents.{
  NetworkEvent, apply_network_event, network_event, refresh_discovery_result, scan_result,
  peer_changed, peer_removed, screen_changed, changed, removed, inbound_count, inbound_rejected,
  screen, discovery_ended, listener_ended,
}
use moq_cast_desktop.MacApp.Control.{
  App, RuntimeCommand, Input, Answers, serving, go_on, teardown_media, services_stopped,
  leave_services, RecoveryAction, restarts, turns_off, suspends, shuts_down, fails, start_watch,
  start_share, serve_command, serve, command, commands_closed, suspend, resume, queue_empty,
  start_ok, start_failed, network, services_closed, playback, publication, initial_scan_finished,
  watch_screen, set_playback_volume, select_share_source, set_share_system_audio, stop_watching,
  start_sharing, stop_sharing, stop_network, restart_network, shutdown,
}
use moq_cast_desktop.MacApp.Rest.{
  IsSound, teardown_media_sound, restart-IsSound, stop_owner-IsSound, suspend_owner-IsSound,
  failed-IsSound, turn_off-IsSound,
}

same_generation :
    {P : Type 0}
    → (l : Lifecycle P) (g : ℕ) (phase : P) → (apply l g phase).0.generation ≡ l.generation
unfolding apply
same_generation l g phase = ground arith

-- The events of the services start no new generation, and do not touch the stopping mark.
abbrev pub IsSameRun : Nearby → Nearby → Type 0
IsSameRun n n' =
    (n'.discovery.generation ≡ n.discovery.generation)
    × (n'.session.generation ≡ n.session.generation)
    × (n'.nearby_stopping ≡ n.nearby_stopping)

refresh_discovery_result-IsSameRun :
    (n : Nearby) (g : ℕ) (scanned : Bool) → IsSameRun n (refresh_discovery_result n g scanned)
unfolding refresh_discovery_result apply
refresh_discovery_result-IsSameRun n g scanned = ground arith

peer_removed-IsSameRun : (n : Nearby) (id : List ℕ) → IsSameRun n (peer_removed n id)
unfolding peer_removed
peer_removed-IsSameRun n id = ground arith

network_event-IsSameRun :
    (n : Nearby) (g : NetworkGenerations) (event : NetworkEvent)
    → IsSameRun n (network_event n g event)
unfolding network_event peer_changed screen_changed apply
network_event-IsSameRun n g (changed status) = ground arith
network_event-IsSameRun n g (removed id) = peer_removed-IsSameRun n id
network_event-IsSameRun n g (inbound_count count) = (refl, refl, refl)
network_event-IsSameRun n g inbound_rejected = (refl, refl, refl)
network_event-IsSameRun n g (screen u) = (refl, refl, refl)
network_event-IsSameRun n g discovery_ended = ground arith
network_event-IsSameRun n g listener_ended = ground arith

apply_network_event-IsSameRun :
    (n : Nearby) (g : NetworkGenerations) (event : NetworkEvent)
    → IsSameRun n (apply_network_event n g event)
unfolding apply_network_event
apply_network_event-IsSameRun n g event = go (is_current n g) (network_event-IsSameRun n g event)
  where
    go :
        (b : Bool)
        → IsSameRun n (network_event n g event)
        → IsSameRun n (if b then network_event n g event else n)
    go true h = h
    go false h = (refl, refl, refl)

-- A turn while the services run, which leaves them running.
serving-IsSound :
    (n n' : Nearby) (m : Media) (g : NetworkGenerations) (scanned : Bool)
    → IsCoherent m
    → n.nearby_stopping ≡ false
    → is_current n g ≡ true
    → IsSameRun n n'
    → IsSound (go_on (serving g scanned) n' m)
serving-IsSound n n' m g scanned c st current (d, s, k) = record {
  coherent = c;
  steady = cc;
  stands = cc;
}

services_stopped-IsSameRun : (n : Nearby) (a : Answers) → IsSameRun n (services_stopped n a)
unfolding services_stopped
services_stopped-IsSameRun n a = ground arith

stays-is_current :
    (n n' : Nearby) (g : NetworkGenerations)
    → IsSameRun n n'
    → is_current n g ≡ true
    → is_current n' g ≡ true
stays-is_current n n' g (d, s, k) current = cc

leave_services-IsSound :
    (g : NetworkGenerations) (n : Nearby) (m : Media) (a : Answers) (action : RecoveryAction)
    → IsCoherent m
    → n.nearby_stopping ≡ false
    → is_current n g ≡ true
    → IsSound (leave_services g n m a action)
unfolding leave_services
leave_services-IsSound g n m a turns_off c st current =
    turn_off-IsSound (record n { nearby_stopping = true }) m a c
leave_services-IsSound g n m a shuts_down c st current =
    let (d, s, k) = services_stopped-IsSameRun n a in
    stop_owner-IsSound (services_stopped n a) (teardown_media m a) (k ∙ st)
      (teardown_media_sound m a c).0
leave_services-IsSound g n m a restarts c st current =
    let (d, s, k) = services_stopped-IsSameRun n a in
    let (c', r) = teardown_media_sound m a c in
    restart-IsSound (services_stopped n a) (teardown_media m a) (k ∙ st) c' r
leave_services-IsSound g n m a suspends c st current =
    let (d, s, k) = services_stopped-IsSameRun n a in
    let (c', r) = teardown_media_sound m a c in
    suspend_owner-IsSound true (services_stopped n a) (teardown_media m a) (k ∙ st) c' r
leave_services-IsSound g n m a fails c st current =
    let (d, s, k) = services_stopped-IsSameRun n a in
    let (c', r) = teardown_media_sound m a c in
    failed-IsSound true (services_stopped n a) (teardown_media m a) g NearbyIssue.services_stopped
      (k ∙ st) (stays-is_current n (services_stopped n a) g (d, s, k) current) c' r

start_watch-IsCoherent :
    (n : Nearby) (m : Media) (a : Answers) (peer path : List ℕ)
    → IsCoherent m
    → IsCoherent (start_watch n m a peer path)
unfolding start_watch step
start_watch-IsCoherent n m a peer path c =
    go (can_watch n m peer path && a.broadcast) (step-IsCoherent m (watches_screen peer path) c)
  where
    go :
        (b : Bool)
        → IsCoherent (step m (watches_screen peer path))
        → IsCoherent (if b then step m (watches_screen peer path) else m)
    go true h = h
    go false h = c

start_share-IsCoherent : (n : Nearby) (m : Media) → IsCoherent m → IsCoherent (start_share n m)
unfolding start_share step
start_share-IsCoherent n m c = go (Facts.publish (access n m)) (step-IsCoherent m starts_sharing c)
  where
    go :
        (b : Bool)
        → IsCoherent (step m starts_sharing)
        → IsCoherent (if b then step m starts_sharing else m)
    go true h = h
    go false h = c

serve_command-IsSound :
    (g : NetworkGenerations) (scanned : Bool) (s : App) (a : Answers) (c : RuntimeCommand)
    → IsCoherent s.media
    → s.nearby.nearby_stopping ≡ false
    → is_current s.nearby g ≡ true
    → IsSound (serve_command g scanned s a c)
unfolding serve_command
serve_command-IsSound g scanned s a c h st current = go c
  where
    stays : (m : Media) → IsCoherent m → IsSound (go_on (serving g scanned) s.nearby m)
    stays m h' = serving-IsSound s.nearby s.nearby m g scanned h' st current (refl, refl, refl)

    go : (c : RuntimeCommand) → IsSound (serve_command g scanned s a c)
    go shutdown = leave_services-IsSound g s.nearby s.media a shuts_down h st current
    go restart_network = leave_services-IsSound g s.nearby s.media a restarts h st current
    go stop_network = leave_services-IsSound g s.nearby s.media a turns_off h st current
    go (watch_screen peer path) =
        stays (start_watch s.nearby s.media a peer path)
          (start_watch-IsCoherent s.nearby s.media a peer path h)
    go (set_playback_volume generation percent) = stays s.media h
    go stop_watching =
        stays (step s.media (stops_watching a.playback_stop))
          (step-IsCoherent s.media (stops_watching a.playback_stop) h)
    go (select_share_source selection) =
        stays (step s.media (selects_source selection))
          (step-IsCoherent s.media (selects_source selection) h)
    go (set_share_system_audio enabled) =
        stays (step s.media (sets_system_audio enabled))
          (step-IsCoherent s.media (sets_system_audio enabled) h)
    go start_sharing =
        stays (start_share s.nearby s.media) (start_share-IsCoherent s.nearby s.media h)
    go stop_sharing = stays (step s.media stops_sharing) (step-IsCoherent s.media stops_sharing h)

pub serve-IsSound :
    (g : NetworkGenerations) (scanned : Bool) (s : App) (a : Answers) (input : Input)
    → IsCoherent s.media
    → s.nearby.nearby_stopping ≡ false
    → is_current s.nearby g ≡ true
    → IsSound (serve g scanned s a input)
unfolding serve
serve-IsSound g scanned s a input h st current = go input
  where
    stays : (m : Media) → IsCoherent m → IsSound (go_on (serving g scanned) s.nearby m)
    stays m h' = serving-IsSound s.nearby s.nearby m g scanned h' st current (refl, refl, refl)

    go : (input : Input) → IsSound (serve g scanned s a input)
    go (command c) = serve_command-IsSound g scanned s a c h st current
    go commands_closed = leave_services-IsSound g s.nearby s.media a shuts_down h st current
    go suspend = leave_services-IsSound g s.nearby s.media a suspends h st current
    go services_closed = leave_services-IsSound g s.nearby s.media a fails h st current
    go (network event) =
        let n' = apply_network_event s.nearby g event in
        let (d, e, k) = apply_network_event-IsSameRun s.nearby g event in
        let (d', e', k') = refresh_discovery_result-IsSameRun n' g.discovery scanned in
        serving-IsSound s.nearby (refresh_discovery_result n' g.discovery scanned) s.media g scanned
          h st current (d' ∙ d, e' ∙ e, k' ∙ k)
    go (playback event) =
        stays (step s.media (plays event)) (step-IsCoherent s.media (plays event) h)
    go (publication event) =
        stays (step s.media (publishes event)) (step-IsCoherent s.media (publishes event) h)
    go initial_scan_finished =
        serving-IsSound s.nearby
          (record s.nearby {
            discovery = (apply s.nearby.discovery g.discovery (scan_result s.nearby)).0;
          })
          s.media g true h st current
          (same_generation s.nearby.discovery g.discovery (scan_result s.nearby), refl, refl)
    go resume = stays s.media h
    go queue_empty = stays s.media h
    go (start_ok local_id) = stays s.media h
    go (start_failed issue) = stays s.media h
