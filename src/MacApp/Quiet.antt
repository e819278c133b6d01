-- ===== src/MacApp/Quiet.antt =====
-- mac/src/runtime.rs: a network that the user has turned off.
use moq_cast_desktop.Base.{
  ◌≡◌, Bool, true, false, ◌&&◌, ◌||◌, not, List, [], ◌∷◌, none, some, is_some, if◌then◌else◌, arith,
}
use moq_cast_desktop.MacApp.Lifecycle.{begin, MediaPhase, SessionPhase, NearbyIssue}
use moq_cast_desktop.MacApp.Snapshot.{
  Media, clear_media, clear_media_fields, reset_if, reset_share_audio,
}
use moq_cast_desktop.MacApp.Nearby.{Nearby, mark_network_stopped}
use moq_cast_desktop.MacApp.Cleanup.{finish, add_result}
use moq_cast_desktop.MacApp.Control.{
  Input, Answers, Control, off, suspended, ended, Owner, complete_network_turn_off, report_cleanup,
  teardown_media, command, restart_network,
}
use moq_cast_desktop.MacApp.Loop.{stay_off, wake_up, sleep, turn, run}

-- The services do not run, and are not to be started without a command.
abbrev pub is_silent : Control → Bool
is_silent off = true
is_silent (suspended wanted resumed) = not wanted
is_silent ended = true
is_silent _ = false

abbrev pub asks_start : Input → Bool
asks_start (command restart_network) = true
asks_start _ = false

-- `inputs.all(|input| !asks_start(input))`
abbrev pub asks_no_start : List (Answers × Input) → Bool
asks_no_start [] = true
asks_no_start ((a, input) ∷ inputs) = not (asks_start input) && asks_no_start inputs

turn-is_silent :
    (o : Owner) (a : Answers) (input : Input)
    → is_silent o.control ≡ true
    → asks_start input ≡ false
    → is_silent (turn o a input).control ≡ true
unfolding turn stay_off sleep wake_up
turn-is_silent o a input h k = ground arith

-- Once the network is off on the Mac (turned off, suspended with no wish to start it, or the loop
-- has returned), it stays so whatever else comes, sleeping and waking included, until a command asks
-- for a restart.
pub off_stays_off :
    (o : Owner) (inputs : List (Answers × Input))
    → is_silent o.control ≡ true
    → asks_no_start inputs ≡ true
    → is_silent (run o inputs).control ≡ true
unfolding run
off_stays_off o [] h k = h
off_stays_off o ((a, input) ∷ inputs) h k =
    off_stays_off (turn o a input) inputs (turn-is_silent o a input h (ground arith)) (ground arith)

-- Whether something went wrong as the owners were stopped.
abbrev pub went_wrong : Answers → Bool
went_wrong a = is_some a.playback_stop || is_some a.services_shutdown

-- Turning the network off on the Mac ends with the media at rest and without an owner and the
-- network no longer marked as stopping, whatever fails; a failure of the playback or of the
-- services, and only one, leaves an error in the snapshot, the session failed and the issue of a
-- failed shutdown.
pub turn_off_reports :
    (n : Nearby) (m : Media) (a : Answers)
    → let (n', m') = complete_network_turn_off n m a in
      (is_some m'.media_error ≡ went_wrong a)
      × (n'.session.phase ≡ (if went_wrong a then SessionPhase.failed else SessionPhase.stopped))
      × (n'.nearby_issue ≡ (if went_wrong a then some NearbyIssue.shutdown_failed else none))
      × (n'.nearby_stopping ≡ false)
      × (m'.media.phase ≡ MediaPhase.idle)
      × (m'.media_owner ≡ none)
unfolding complete_network_turn_off report_cleanup teardown_media mark_network_stopped finish
    add_result begin clear_media clear_media_fields reset_if reset_share_audio
turn_off_reports n m a = ground arith
