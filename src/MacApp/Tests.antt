-- ===== src/MacApp/Tests.antt =====
-- Runs of the Mac application's media, and instances of their theorems.
use moq_cast_desktop.Base.{
  ◌≡◌, refl, true, false, List, [], ◌∷◌, none, some, is_some, if◌then◌else◌, arith,
}
use moq_cast_desktop.Base.Bytes.{bytes}
use moq_cast_desktop.MacApp.Lifecycle.{MediaPhase}
use moq_cast_desktop.MacApp.Snapshot.{Media, Selection, default_media, supports_system_audio}
use moq_cast_desktop.MacApp.Share.{AudioStatus}
use moq_cast_desktop.MacApp.Media.{
  PlaybackEvent, PublicationEvent, apply_playback_event, apply_publication_event, MediaOp,
  watches_screen, stops_watching, selects_source, sets_system_audio, starts_sharing, plays,
  publishes, step, run,
}
use moq_cast_desktop.MacApp.Coherent.{run-IsCoherent}
use moq_cast_desktop.MacApp.Stale.{over_forever}
use moq_cast_desktop.MacApp.Nearby.{default_nearby, ScreenAvailability}
use moq_cast_desktop.MacApp.NetworkEvents.{screen, inbound_count}
use moq_cast_desktop.MacApp.Control.{
  Input, Answers, Owner, complete_network_turn_off, command, suspend, resume, queue_empty, start_ok,
  network, playback, watch_screen, stop_network, restart_network,
}
use moq_cast_desktop.MacApp.Loop.{start_owner}
use moq_cast_desktop.MacApp.Loop
use moq_cast_desktop.MacApp.Rest.{IsSound}
use moq_cast_desktop.MacApp.Reached.{reached-IsSound}
use moq_cast_desktop.MacApp.Quiet.{is_silent, off_stays_off, went_wrong, turn_off_reports}
use moq_cast_desktop.MacApp.Lifecycle.{SessionPhase, NearbyIssue}
use moq_cast_desktop.Remote.Paths.{for_peer}

abbrev watching : List MediaOp
watching =
    watches_screen (bytes "tv") (bytes "moqcast.screen/tv")
    ∷ plays (PlaybackEvent.started 1 (bytes "h264") 1920 1080)
    ∷ []

abbrev watched : Media
watched = run default_media watching

sharing_follows :
    (run default_media (
      selects_source (Selection.display 1 true (bytes "main"))
      ∷ sets_system_audio true
      ∷ starts_sharing
      ∷ publishes (PublicationEvent.announced 1 (bytes "p") AudioStatus.included)
      ∷ [])).media.phase
    ≡ MediaPhase.sharing
unfolding run supports_system_audio
sharing_follows = refl

abbrev late : PlaybackEvent
late = PlaybackEvent.ended 1 (some (bytes "decoder failed"))

abbrev foreign : PublicationEvent
foreign = PublicationEvent.audio_failed 1 (bytes "no device")

over_forever_example :
    let s' =
      run
        (step watched (stops_watching none))
        (watches_screen (bytes "pc") (bytes "moqcast.screen/pc") ∷ []) in
    (apply_playback_event s' late ≡ (s', false)) × (apply_publication_event s' foreign ≡ s')
unfolding run
over_forever_example =
    over_forever watched (stops_watching none)
      (watches_screen (bytes "pc") (bytes "moqcast.screen/pc") ∷ []) late foreign
      (run-IsCoherent watching) (λ e. cc e) (omega arith) (omega arith)

abbrev fine : Answers
fine = record { broadcast = true; playback_stop = none; services_shutdown = none }

abbrev broken : Answers
broken = record {
  broadcast = true;
  playback_stop = some (bytes "decoder");
  services_shutdown = none;
}

-- The services start, a screen appears and is watched, and the network is turned off.
abbrev evening : List (Answers × Input)
evening =
    (fine, start_ok (bytes "me"))
    ∷ (
      fine,
      network (
          screen (record {
            path = for_peer (bytes "tv");
            view = record { peer_id = bytes "tv"; availability = ScreenAvailability.available };
          })),
    )
    ∷ (fine, command (watch_screen (bytes "tv") (for_peer (bytes "tv"))))
    ∷ (fine, playback (PlaybackEvent.started 1 (bytes "h264") 1920 1080))
    ∷ []

evening_watches : (Loop.run start_owner evening).app.media.media.phase ≡ MediaPhase.watching
unfolding Loop.run start_owner for_peer
evening_watches = refl

reached-IsSound_example : IsSound (Loop.run start_owner evening)
reached-IsSound_example = reached-IsSound evening

abbrev turned_off : Owner
turned_off =
    Loop.run start_owner ((fine, start_ok (bytes "me")) ∷ (broken, command stop_network) ∷ [])

abbrev night : List (Answers × Input)
night =
    (fine, suspend) ∷ (fine, network (inbound_count 2)) ∷ (fine, resume) ∷ (fine, queue_empty) ∷ []

off_stays_off_example : is_silent (Loop.run turned_off night).control ≡ true
unfolding Loop.run start_owner
off_stays_off_example = off_stays_off turned_off night refl refl

-- The same night, but the network is asked for while the system sleeps.
night_restarts :
    is_silent
      (Loop.run turned_off (
        (fine, suspend)
        ∷ (fine, command restart_network)
        ∷ (fine, resume)
        ∷ (fine, queue_empty)
        ∷ [])).control
    ≡ false
unfolding Loop.run start_owner
night_restarts = refl

turn_off_reports_example :
    let (n', m') = complete_network_turn_off default_nearby watched broken in
    (is_some m'.media_error ≡ went_wrong broken)
    × (n'.session.phase ≡ (if went_wrong broken then SessionPhase.failed else SessionPhase.stopped))
    × (n'.nearby_issue ≡ (if went_wrong broken then some NearbyIssue.shutdown_failed else none))
    × (n'.nearby_stopping ≡ false)
    × (m'.media.phase ≡ MediaPhase.idle)
    × (m'.media_owner ≡ none)
turn_off_reports_example = turn_off_reports default_nearby watched broken
