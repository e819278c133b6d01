-- ===== src/MacApp/Coherent.antt =====
-- mac/src/runtime.rs: the invariant of the snapshot's media.
use moq_cast_desktop.Base.{
  ℕ, ◌≡◌, ◌≢◌, Bool, true, false, List, [], ◌∷◌, Option, none, is_some, is_some_and, arith,
}
use moq_cast_desktop.MacApp.Lifecycle.{begin, apply, MediaPhase, MediaOwner, ShareAudioPhase}
use moq_cast_desktop.MacApp.Snapshot.{
  Media, AudioSnapshot, Selection, supports_system_audio, default_media, clear_media,
  clear_media_fields, reset_if, reset_share_audio, is_watch, is_share, is_failed, in_share,
}
use moq_cast_desktop.MacApp.Watch.{
  begin_watch, playback_started, playback_video_changed, playback_ended, playback_audio_changed,
  stop_watch, begin_stop_watch, finish_stop_media, fail_watch,
}
use moq_cast_desktop.MacApp.Share.{
  AudioStatus, Failure, select_share_source, set_share_system_audio, begin_share, share_selected,
  publication_announced, announce_audio, publication_audio_failed, publication_ended, fail_share,
  stop_share, begin_stop_share,
}
use moq_cast_desktop.MacApp.Media.{
  PlaybackEvent, PublicationEvent, apply_playback_event, apply_publication_event, MediaOp,
  watches_screen, stops_watching, selects_source, sets_system_audio, starts_sharing, stops_sharing,
  clears, plays, publishes, step, run,
}

-- The owner that a phase needs: none at rest, and either where it does not tell.
abbrev pub Fits : MediaPhase → Option MediaOwner → Type 0
Fits MediaPhase.idle o = o ≡ none
Fits MediaPhase.preparing_watch o = is_watch o ≡ true
Fits MediaPhase.watching o = is_watch o ≡ true
Fits MediaPhase.preparing_share o = is_share o ≡ true
Fits MediaPhase.sharing o = is_share o ≡ true
Fits MediaPhase.stopping o = is_some o ≡ true
Fits MediaPhase.failed o = is_some o ≡ true

-- System audio is being prepared or included.
abbrev pub is_running : ShareAudioPhase → Bool
is_running ShareAudioPhase.preparing = true
is_running ShareAudioPhase.included = true
is_running _ = false

pub record IsCoherent (s : Media) : Type 0 where
  pub owned : Fits s.media.phase s.media_owner
  pub settled : s.media.phase ≢ MediaPhase.stopping
  pub named : is_some s.media_peer ≡ is_watch s.media_owner
  pub placed : is_watch s.media_owner ≡ true → is_some s.media_path ≡ true
  pub explained : is_failed s.media.phase ≡ true → is_some s.media_error ≡ true
  pub captured :
      s.share_system_audio ≡ true → is_some_and supports_system_audio s.share_selection ≡ true
  pub heard : is_running s.share_audio ≡ true → in_share s.media.phase ≡ true

begin_watch-IsCoherent :
    (s : Media) (peer path : List ℕ) → IsCoherent s → IsCoherent (begin_watch s peer path).0
unfolding begin_watch
begin_watch-IsCoherent s peer path c = ground arith

playback_started-IsCoherent :
    (s : Media) (g : ℕ) (decoder : List ℕ) (w h : ℕ)
    → IsCoherent s
    → IsCoherent (playback_started s g decoder w h).0
unfolding playback_started apply
playback_started-IsCoherent s g decoder w h c = ground arith

playback_video_changed-IsCoherent :
    (s : Media) (g : ℕ) (decoder codec : List ℕ) (w h : ℕ)
    → IsCoherent s
    → IsCoherent (playback_video_changed s g decoder codec w h).0
unfolding playback_video_changed
playback_video_changed-IsCoherent s g decoder codec w h c = ground arith

pub clear_media-IsCoherent :
    (s : Media) (error : Option (List ℕ))
    → IsCoherent s
    → IsCoherent (clear_media s MediaPhase.idle error)
unfolding clear_media reset_if reset_share_audio clear_media_fields begin
clear_media-IsCoherent s error c = ground arith

fail_watch-IsCoherent :
    (s : Media) (error : List ℕ)
    → IsCoherent s
    → is_watch s.media_owner ≡ true
    → IsCoherent (fail_watch s s.media.generation error)
unfolding fail_watch apply
fail_watch-IsCoherent s error c h = ground arith

playback_ended-IsCoherent :
    (s : Media) (g : ℕ) (result : Option (List ℕ))
    → IsCoherent s
    → IsCoherent (playback_ended s g result).0
unfolding playback_ended fail_watch apply clear_media reset_if reset_share_audio clear_media_fields
    begin
playback_ended-IsCoherent s g result c = ground arith

playback_audio_changed-IsCoherent :
    (s : Media) (g : ℕ) (audio : AudioSnapshot)
    → IsCoherent s
    → IsCoherent (playback_audio_changed s g audio).0
unfolding playback_audio_changed
playback_audio_changed-IsCoherent s g audio c = ground arith

stop_watch-IsCoherent :
    (s : Media) (result : Option (List ℕ)) → IsCoherent s → IsCoherent (stop_watch s result)
unfolding stop_watch begin_stop_watch finish_stop_media fail_watch apply reset_if reset_share_audio
    clear_media_fields begin
stop_watch-IsCoherent s result c = ground arith

select_share_source-IsCoherent :
    (s : Media) (selection : Selection)
    → IsCoherent s
    → IsCoherent (select_share_source s selection).0
unfolding select_share_source
select_share_source-IsCoherent s selection c = ground arith

set_share_system_audio-IsCoherent :
    (s : Media) (enabled : Bool) → IsCoherent s → IsCoherent (set_share_system_audio s enabled).0
unfolding set_share_system_audio
set_share_system_audio-IsCoherent s enabled c = ground arith

begin_share-IsCoherent : (s : Media) → IsCoherent s → IsCoherent (begin_share s).0
unfolding begin_share share_selected begin
begin_share-IsCoherent s c = ground arith

publication_announced-IsCoherent :
    (s : Media) (g : ℕ) (path : List ℕ) (status : AudioStatus)
    → IsCoherent s
    → IsCoherent (publication_announced s g path status).0
unfolding publication_announced apply announce_audio
publication_announced-IsCoherent s g path AudioStatus.off c = ground arith
publication_announced-IsCoherent s g path AudioStatus.included c = ground arith
publication_announced-IsCoherent s g path (AudioStatus.unavailable message) c = ground arith

publication_audio_failed-IsCoherent :
    (s : Media) (g : ℕ) (message : List ℕ)
    → IsCoherent s
    → IsCoherent (publication_audio_failed s g message).0
unfolding publication_audio_failed
publication_audio_failed-IsCoherent s g message c = ground arith

publication_ended-IsCoherent :
    (s : Media) (g : ℕ) (result : Option Failure)
    → IsCoherent s
    → IsCoherent (publication_ended s g result).0
unfolding publication_ended fail_share apply clear_media reset_if reset_share_audio
    clear_media_fields begin
publication_ended-IsCoherent s g result c = ground arith

stop_share-IsCoherent : (s : Media) → IsCoherent s → IsCoherent (stop_share s)
unfolding stop_share begin_stop_share finish_stop_media apply reset_if reset_share_audio
    clear_media_fields begin
stop_share-IsCoherent s c = ground arith

pub step-IsCoherent : (s : Media) (op : MediaOp) → IsCoherent s → IsCoherent (step s op)
unfolding step apply_playback_event apply_publication_event
step-IsCoherent s (watches_screen peer path) c = begin_watch-IsCoherent s peer path c
step-IsCoherent s (stops_watching result) c = stop_watch-IsCoherent s result c
step-IsCoherent s (selects_source selection) c = select_share_source-IsCoherent s selection c
step-IsCoherent s (sets_system_audio enabled) c = set_share_system_audio-IsCoherent s enabled c
step-IsCoherent s starts_sharing c = begin_share-IsCoherent s c
step-IsCoherent s stops_sharing c = stop_share-IsCoherent s c
step-IsCoherent s (clears error) c = clear_media-IsCoherent s error c
step-IsCoherent s (plays (PlaybackEvent.started g decoder w h)) c =
    playback_started-IsCoherent s g decoder w h c
step-IsCoherent s (plays (PlaybackEvent.video_changed g decoder codec w h)) c =
    playback_video_changed-IsCoherent s g decoder codec w h c
step-IsCoherent s (plays (PlaybackEvent.audio g snapshot)) c =
    playback_audio_changed-IsCoherent s g snapshot c
step-IsCoherent s (plays (PlaybackEvent.ended g result)) c = playback_ended-IsCoherent s g result c
step-IsCoherent s (publishes (PublicationEvent.announced g path status)) c =
    publication_announced-IsCoherent s g path status c
step-IsCoherent s (publishes (PublicationEvent.audio_failed g message)) c =
    publication_audio_failed-IsCoherent s g message c
step-IsCoherent s (publishes (PublicationEvent.ended g result)) c =
    publication_ended-IsCoherent s g result c

run_all-IsCoherent : (s : Media) (ops : List MediaOp) → IsCoherent s → IsCoherent (run s ops)
unfolding run
run_all-IsCoherent s [] c = c
run_all-IsCoherent s (op ∷ ops) c = run_all-IsCoherent (step s op) ops (step-IsCoherent s op c)

-- Whatever commands and events come, and in whatever order.
pub run-IsCoherent : (ops : List MediaOp) → IsCoherent (run default_media ops)
run-IsCoherent ops = run_all-IsCoherent default_media ops (ground arith)
