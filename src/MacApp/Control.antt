-- ===== src/MacApp/Control.antt =====
-- mac/src/runtime.rs: the owner's loop (`run`, `ServiceRun::run` and the functions that wait) as a
-- state machine. The state tells at which `await` the loop stands, and one step takes it to the next
-- one at which an input can come. What playback and the services answer as they are stopped is part of
-- the step. Frames and publishing the snapshot are left out: it is published as it stands after each
-- step.
use moq_cast_desktop.Base.{
  ℕ, Bool, true, false, ◌&&◌, List, [], Option, none, some, is_some, if◌then◌else◌,
}
use moq_cast_desktop.Base.Bytes.{bytes}
use moq_cast_desktop.Peers.Facts
use moq_cast_desktop.MacApp.Lifecycle.{begin, apply, MediaPhase, SessionPhase, NearbyIssue}
use moq_cast_desktop.MacApp.Snapshot.{Media, Selection, clear_media}
use moq_cast_desktop.MacApp.Watch.{begin_watch}
use moq_cast_desktop.MacApp.Share.{begin_share}
use moq_cast_desktop.MacApp.Media.{
  PlaybackEvent, PublicationEvent, stops_watching, selects_source, sets_system_audio, stops_sharing,
  plays, publishes, step,
}
use moq_cast_desktop.MacApp.Nearby.{
  Nearby, NetworkGenerations, access, can_watch, begin_network_start, mark_network_failed,
  mark_network_stopped,
}
use moq_cast_desktop.MacApp.NetworkEvents.{
  NetworkEvent, apply_network_event, refresh_discovery_result, suspend_snapshot, stop_nearby,
  scan_result,
}
use moq_cast_desktop.MacApp.Cleanup.{add_result, finish}

-- `AppSnapshot`
pub record App : Type 0 where
  pub nearby : Nearby
  pub media : Media

pub data RuntimeCommand : Type 0 where
  watch_screen : List ℕ → List ℕ → RuntimeCommand
  set_playback_volume : ℕ → ℕ → RuntimeCommand
  select_share_source : Selection → RuntimeCommand
  set_share_system_audio : Bool → RuntimeCommand
  stop_watching start_sharing stop_sharing stop_network restart_network shutdown : RuntimeCommand

pub data Input : Type 0 where
  command : RuntimeCommand → Input
  commands_closed suspend resume queue_empty : Input
  start_ok : List ℕ → Input
  start_failed : NearbyIssue → Input
  network : NetworkEvent → Input
  services_closed : Input
  playback : PlaybackEvent → Input
  publication : PublicationEvent → Input
  initial_scan_finished : Input

-- What the outside answers within a step: whether there is a broadcast to watch, and the errors, or
-- none, with which the playback and the services stop.
pub record Answers : Type 0 where
  pub broadcast : Bool
  pub playback_stop : Option (List ℕ)
  pub services_shutdown : Option (List ℕ)

-- `starting`: the services are being started. `serving`: they run. `recovering`: they have failed, and
-- the media are torn down, or not. `off`: `wait_while_network_stopped`. `suspended`:
-- `wait_while_suspended`, with its variables. `ended`: the loop has returned.
pub data Control : Type 0 where
  starting : NetworkGenerations → Control
  serving : NetworkGenerations → Bool → Control
  recovering : Bool → Control
  off : Control
  suspended : Bool → Bool → Control
  ended : Control

pub record Owner : Type 0 where
  pub control : Control
  pub app : App

abbrev pub go_on : Control → Nearby → Media → Owner
go_on control nearby media = record {
  control = control;
  app = record { nearby = nearby; media = media };
}

-- The top of the loop: a new start of the services.
unfoldable pub restart : Nearby → Media → Owner
unfolding begin_network_start
restart n m = let (n', g) = begin_network_start n in go_on (starting g) n' m

unfoldable pub teardown_media : Media → Answers → Media
unfolding clear_media
teardown_media m a = elim a.playback_stop [
  | none ↦ clear_media m MediaPhase.idle none
  | some error ↦ clear_media (clear_media m MediaPhase.idle none) MediaPhase.idle (some error)
]

-- `stop_snapshot`, and the return
unfoldable pub stop_owner : Nearby → Media → Owner
unfolding stop_nearby clear_media
stop_owner n m = go_on ended (stop_nearby n) (clear_media m MediaPhase.idle none)

unfoldable pub suspend_owner : Bool → Nearby → Media → Owner
unfolding suspend_snapshot
suspend_owner wanted n m = go_on (suspended wanted false) (suspend_snapshot n) m

-- The end of `complete_network_turn_off`, with the errors of the cleanup.
unfoldable pub report_cleanup : Nearby → Media → Option (List ℕ) → Nearby × Media
unfolding begin
report_cleanup n m error = (
  (if is_some error
      then record n {
        session = begin n.session SessionPhase.failed;
        nearby_issue = some NearbyIssue.shutdown_failed;
      }
      else n),
  record m { media_error = error },
)

unfoldable pub complete_network_turn_off : Nearby → Media → Answers → Nearby × Media
unfolding teardown_media mark_network_stopped report_cleanup add_result finish
complete_network_turn_off n m a =
    let torn = teardown_media m a in
    let errors =
      add_result (add_result [] (bytes "media") torn.media_error) (bytes "services")
        a.services_shutdown in
    report_cleanup (mark_network_stopped n) torn (finish errors)

-- How the run of the services ends: `RecoveryAction`.
pub data RecoveryAction : Type 0 where
  restarts turns_off suspends shuts_down fails : RecoveryAction

-- The services are shut down, with an error or none.
unfoldable pub services_stopped : Nearby → Answers → Nearby
services_stopped n a =
    if is_some a.services_shutdown
    then record n { nearby_issue = some NearbyIssue.shutdown_failed }
    else n

-- The part of `run` after `ServiceRun::run`.
unfoldable pub leave_services :
    NetworkGenerations → Nearby → Media → Answers → RecoveryAction → Owner
unfolding complete_network_turn_off teardown_media services_stopped stop_owner restart suspend_owner
    mark_network_failed
leave_services g n m a turns_off =
    let (n', m') = complete_network_turn_off (record n { nearby_stopping = true }) m a in
    go_on off n' m'
leave_services g n m a shuts_down = stop_owner (services_stopped n a) (teardown_media m a)
leave_services g n m a restarts = restart (services_stopped n a) (teardown_media m a)
leave_services g n m a suspends = suspend_owner true (services_stopped n a) (teardown_media m a)
leave_services g n m a fails =
    go_on (recovering true)
      (mark_network_failed (services_stopped n a) g NearbyIssue.services_stopped).0
      (teardown_media m a)

unfoldable pub start_watch : Nearby → Media → Answers → List ℕ → List ℕ → Media
unfolding can_watch begin_watch
start_watch n m a peer path =
    if can_watch n m peer path && a.broadcast then (begin_watch m peer path).0 else m

unfoldable pub start_share : Nearby → Media → Media
unfolding access begin_share Facts.publish
start_share n m = if Facts.publish (access n m) then (begin_share m).0 else m

-- A command while the services run. The volume is the playback's own.
unfoldable pub serve_command : NetworkGenerations → Bool → App → Answers → RuntimeCommand → Owner
unfolding leave_services start_watch start_share step
serve_command g scanned s a shutdown = leave_services g s.nearby s.media a shuts_down
serve_command g scanned s a restart_network = leave_services g s.nearby s.media a restarts
serve_command g scanned s a stop_network = leave_services g s.nearby s.media a turns_off
serve_command g scanned s a (watch_screen peer path) =
    go_on (serving g scanned) s.nearby (start_watch s.nearby s.media a peer path)
serve_command g scanned s a (set_playback_volume generation percent) =
    go_on (serving g scanned) s.nearby s.media
serve_command g scanned s a stop_watching =
    go_on (serving g scanned) s.nearby (step s.media (stops_watching a.playback_stop))
serve_command g scanned s a (select_share_source selection) =
    go_on (serving g scanned) s.nearby (step s.media (selects_source selection))
serve_command g scanned s a (set_share_system_audio enabled) =
    go_on (serving g scanned) s.nearby (step s.media (sets_system_audio enabled))
serve_command g scanned s a start_sharing =
    go_on (serving g scanned) s.nearby (start_share s.nearby s.media)
serve_command g scanned s a stop_sharing =
    go_on (serving g scanned) s.nearby (step s.media stops_sharing)

-- `ServiceRun::run`, one turn. Inputs that cannot come there change nothing.
unfoldable pub serve : NetworkGenerations → Bool → App → Answers → Input → Owner
unfolding serve_command leave_services apply_network_event refresh_discovery_result step apply
serve g scanned s a (command c) = serve_command g scanned s a c
serve g scanned s a commands_closed = leave_services g s.nearby s.media a shuts_down
serve g scanned s a suspend = leave_services g s.nearby s.media a suspends
serve g scanned s a services_closed = leave_services g s.nearby s.media a fails
serve g scanned s a (network event) =
    go_on (serving g scanned)
      (refresh_discovery_result (apply_network_event s.nearby g event) g.discovery scanned) s.media
serve g scanned s a (playback event) =
    go_on (serving g scanned) s.nearby (step s.media (plays event))
serve g scanned s a (publication event) =
    go_on (serving g scanned) s.nearby (step s.media (publishes event))
serve g scanned s a initial_scan_finished =
    let n = s.nearby in
    go_on (serving g true)
      (record n { discovery = (apply n.discovery g.discovery (scan_result n)).0 }) s.media
serve g scanned s a _ = go_on (serving g scanned) s.nearby s.media
