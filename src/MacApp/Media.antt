-- ===== src/MacApp/Media.antt =====
-- mac/src/runtime.rs: the events of playback and publication, and the steps that the snapshot's media
-- take. Stopping waits for the playback in place, so no other input comes between its two halves.
use moq_cast_desktop.Base.{ℕ, Bool, false, List, [], ◌∷◌, Option}
use moq_cast_desktop.MacApp.Lifecycle.{MediaPhase}
use moq_cast_desktop.MacApp.Snapshot.{Media, AudioSnapshot, Selection, clear_media}
use moq_cast_desktop.MacApp.Watch.{
  begin_watch, playback_started, playback_video_changed, playback_ended, playback_audio_changed,
  stop_watch,
}
use moq_cast_desktop.MacApp.Share.{
  AudioStatus, Failure, select_share_source, set_share_system_audio, begin_share,
  publication_announced, publication_audio_failed, publication_ended, stop_share,
}

-- `playback::Event`
pub data PlaybackEvent : Type 0 where
  started : ℕ → List ℕ → ℕ → ℕ → PlaybackEvent
  video_changed : ℕ → List ℕ → List ℕ → ℕ → ℕ → PlaybackEvent
  audio : ℕ → AudioSnapshot → PlaybackEvent
  ended : ℕ → Option (List ℕ) → PlaybackEvent

-- `publication::Event`
pub data PublicationEvent : Type 0 where
  announced : ℕ → List ℕ → AudioStatus → PublicationEvent
  audio_failed : ℕ → List ℕ → PublicationEvent
  ended : ℕ → Option Failure → PublicationEvent

-- The result says whether the frame that is shown is taken away.
unfoldable pub apply_playback_event : Media → PlaybackEvent → Media × Bool
unfolding playback_started playback_video_changed playback_audio_changed playback_ended
apply_playback_event s (PlaybackEvent.started generation decoder width height) =
    ((playback_started s generation decoder width height).0, false)
apply_playback_event s (PlaybackEvent.video_changed generation decoder codec width height) =
    ((playback_video_changed s generation decoder codec width height).0, false)
apply_playback_event s (PlaybackEvent.audio generation snapshot) =
    ((playback_audio_changed s generation snapshot).0, false)
apply_playback_event s (PlaybackEvent.ended generation result) = playback_ended s generation result

unfoldable pub apply_publication_event : Media → PublicationEvent → Media
unfolding publication_announced publication_audio_failed publication_ended
apply_publication_event s (PublicationEvent.announced generation path status) =
    (publication_announced s generation path status).0
apply_publication_event s (PublicationEvent.audio_failed generation message) =
    (publication_audio_failed s generation message).0
apply_publication_event s (PublicationEvent.ended generation result) =
    (publication_ended s generation result).0

-- What the owner does with the media: commands, events, and the clearing at shutdown.
pub data MediaOp : Type 0 where
  watches_screen : List ℕ → List ℕ → MediaOp
  stops_watching : Option (List ℕ) → MediaOp
  selects_source : Selection → MediaOp
  sets_system_audio : Bool → MediaOp
  starts_sharing stops_sharing : MediaOp
  clears : Option (List ℕ) → MediaOp
  plays : PlaybackEvent → MediaOp
  publishes : PublicationEvent → MediaOp

unfoldable pub step : Media → MediaOp → Media
unfolding begin_watch stop_watch select_share_source set_share_system_audio begin_share stop_share
    apply_playback_event apply_publication_event clear_media
step s (watches_screen peer path) = (begin_watch s peer path).0
step s (stops_watching result) = stop_watch s result
step s (selects_source selection) = (select_share_source s selection).0
step s (sets_system_audio enabled) = (set_share_system_audio s enabled).0
step s starts_sharing = (begin_share s).0
step s stops_sharing = stop_share s
step s (clears error) = clear_media s MediaPhase.idle error
step s (plays event) = (apply_playback_event s event).0
step s (publishes event) = apply_publication_event s event

unfoldable pub run : Media → List MediaOp → Media
unfolding step
run s [] = s
run s (op ∷ ops) = run (step s op) ops
