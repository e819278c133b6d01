-- ===== src/MacApp/Share.antt =====
-- mac/src/runtime.rs: what the snapshot does with the screen that is shared.
use moq_cast_desktop.Base.{
  ℕ, ◌==◌, Bool, true, false, ◌&&◌, ◌||◌, not, List, Option, none, some, is_some_and, if◌then◌else◌,
}
use moq_cast_desktop.MacApp.Lifecycle.{begin, apply, MediaPhase, MediaOwner, ShareAudioPhase}
use moq_cast_desktop.MacApp.Snapshot.{
  Media, Selection, supports_system_audio, is_share, is_idle, is_failed, is_preparing_share,
  in_share, clear_media, reset_share_audio,
}
use moq_cast_desktop.MacApp.Watch.{finish_stop_media}

unfoldable pub select_share_source : Media → Selection → Media × Bool
select_share_source s selection =
    if is_idle s.media.phase || is_failed s.media.phase
    then (
      record s {
        share_selection = some selection;
        share_system_audio = false;
        share_audio = ShareAudioPhase.off;
        share_audio_error = none;
      },
      true,
    )
    else (s, false)

unfoldable pub set_share_system_audio : Media → Bool → Media × Bool
set_share_system_audio s enabled =
    if not (is_idle s.media.phase)
      || (enabled && not (is_some_and supports_system_audio s.share_selection))
    then (s, false)
    else (
      record s {
        share_system_audio = enabled;
        share_audio = ShareAudioPhase.off;
        share_audio_error = none;
      },
      true,
    )

-- `ShareStart`
pub record ShareStart : Type 0 where
  pub generation : ℕ
  pub selection : Selection
  pub system_audio : Bool

-- The last part of `begin_share`, with the selection that there is.
unfoldable pub share_selected : Media → Selection → Media × Option ShareStart
unfolding begin
share_selected s selection =
    let media = begin s.media MediaPhase.preparing_share in
    (
      record s {
        media = media;
        media_owner = some MediaOwner.share;
        media_peer = none;
        media_path = none;
        media_decoder = none;
        media_video_codec = none;
        media_width = none;
        media_height = none;
        media_error = none;
        share_audio =
            if s.share_system_audio then ShareAudioPhase.preparing else ShareAudioPhase.off;
        share_audio_error = none;
      },
      some (record {
        generation = media.generation;
        selection = selection;
        system_audio = s.share_system_audio;
      }),
    )

unfoldable pub begin_share : Media → Media × Option ShareStart
unfolding share_selected
begin_share s =
    if is_idle s.media.phase
    then elim s.share_selection [ none ↦ (s, none) | some selection ↦ share_selected s selection ]
    else (s, none)

-- `publication::AudioStatus`
pub data AudioStatus : Type 0 where
  off included : AudioStatus
  unavailable : List ℕ → AudioStatus

-- The `match` of `publication_announced`.
unfoldable pub announce_audio : Media → AudioStatus → Media
announce_audio s AudioStatus.off = record s {
  share_audio = ShareAudioPhase.off;
  share_audio_error = none;
}
announce_audio s AudioStatus.included = record s {
  share_audio = ShareAudioPhase.included;
  share_audio_error = none;
}
announce_audio s (AudioStatus.unavailable message) = record s {
  share_audio = ShareAudioPhase.failed;
  share_audio_error = some message;
}

unfoldable pub publication_announced : Media → ℕ → List ℕ → AudioStatus → Media × Bool
unfolding apply announce_audio
publication_announced s generation path audio =
    let (media, applied) = apply s.media generation MediaPhase.sharing in
    if is_share s.media_owner && is_preparing_share s.media.phase && applied
    then (announce_audio (record s { media = media; media_path = some path }) audio, true)
    else (s, false)

-- The guard that the other events of the publication share.
abbrev pub shares : Media → ℕ → Bool
shares s generation =
    is_share s.media_owner && (s.media.generation == generation) && in_share s.media.phase

unfoldable pub publication_audio_failed : Media → ℕ → List ℕ → Media × Bool
publication_audio_failed s generation message =
    if shares s generation
    then (record s { share_audio = ShareAudioPhase.failed; share_audio_error = some message }, true)
    else (s, false)

-- `publication::Failure`
pub record Failure : Type 0 where
  pub message : List ℕ
  pub source_unavailable : Bool

unfoldable pub fail_share : Media → ℕ → Failure → Media
unfolding apply reset_share_audio
fail_share s generation error =
    let failed = record s {
      media = (apply s.media generation MediaPhase.failed).0;
      media_path = none;
      media_error = some error.message;
      share_audio = ShareAudioPhase.off;
      share_audio_error = none;
    } in
    if error.source_unavailable
    then reset_share_audio (record failed { share_selection = none })
    else failed

-- The result of the publication is a failure, or none.
unfoldable pub publication_ended : Media → ℕ → Option Failure → Media × Bool
unfolding clear_media fail_share
publication_ended s generation result =
    if shares s generation
    then elim result [
      | none ↦ (clear_media s MediaPhase.idle none, true)
      | some error ↦ (fail_share s generation error, true)
    ]
    else (s, false)

unfoldable pub begin_stop_share : Media → Media × Option ℕ
unfolding begin
begin_stop_share s =
    let media = begin s.media MediaPhase.stopping in
    if is_share s.media_owner && (in_share s.media.phase || is_failed s.media.phase)
    then (record s { media = media }, some media.generation)
    else (s, none)

unfoldable pub stop_share : Media → Media
unfolding begin_stop_share finish_stop_media
stop_share s = elim (begin_stop_share s).1 [
  | none ↦ (begin_stop_share s).0
  | some generation ↦ (finish_stop_media (begin_stop_share s).0 generation).0
]
