-- ===== src/MacApp/Watch.antt =====
-- mac/src/runtime.rs: what the snapshot does with a watched screen. A Boolean result says whether the
-- call applied.
use moq_cast_desktop.Base.{
  ℕ, ◌==◌, Bool, true, false, ◌&&◌, ◌||◌, List, Option, none, some, if◌then◌else◌,
}
use moq_cast_desktop.MacApp.Lifecycle.{begin, apply, MediaPhase, MediaOwner}
use moq_cast_desktop.MacApp.Snapshot.{
  Media, AudioSnapshot, default_audio, is_watch, is_share, is_idle, is_failed, in_watch,
  clear_media, clear_media_fields, reset_if, reset_share_audio,
}

unfoldable pub begin_watch : Media → List ℕ → List ℕ → Media × Option ℕ
unfolding begin
begin_watch s peer path =
    let media = begin s.media MediaPhase.preparing_watch in
    if is_idle s.media.phase
    then (
      record s {
        media = media;
        media_owner = some MediaOwner.watch;
        media_peer = some peer;
        media_path = some path;
        media_decoder = none;
        media_video_codec = none;
        media_width = none;
        media_height = none;
        media_error = none;
        watch_audio = default_audio;
      },
      some media.generation,
    )
    else (s, none)

-- The guard that the events of playback share.
abbrev pub watches : Media → ℕ → Bool
watches s generation =
    is_watch s.media_owner && (s.media.generation == generation) && in_watch s.media.phase

unfoldable pub playback_started : Media → ℕ → List ℕ → ℕ → ℕ → Media × Bool
unfolding apply
playback_started s generation decoder width height =
    let (media, applied) = apply s.media generation MediaPhase.watching in
    if is_watch s.media_owner && in_watch s.media.phase && applied
    then (
      record s {
        media = media;
        media_decoder = some decoder;
        media_width = some width;
        media_height = some height;
      },
      true,
    )
    else (s, false)

unfoldable pub playback_video_changed : Media → ℕ → List ℕ → List ℕ → ℕ → ℕ → Media × Bool
playback_video_changed s generation decoder codec width height =
    if watches s generation
    then (
      record s {
        media_decoder = some decoder;
        media_video_codec = some codec;
        media_width = some width;
        media_height = some height;
      },
      true,
    )
    else (s, false)

-- How a watch fails: by an end with an error, or as it is stopped.
unfoldable pub fail_watch : Media → ℕ → List ℕ → Media
unfolding apply
fail_watch s generation error = record s {
  media = (apply s.media generation MediaPhase.failed).0;
  media_decoder = none;
  media_video_codec = none;
  media_width = none;
  media_height = none;
  media_error = some error;
  watch_audio = default_audio;
}

-- The result of the playback is an error, or none.
unfoldable pub playback_ended : Media → ℕ → Option (List ℕ) → Media × Bool
unfolding clear_media fail_watch
playback_ended s generation result =
    if watches s generation
    then elim result [
      | none ↦ (clear_media s MediaPhase.idle none, true)
      | some error ↦ (fail_watch s generation error, true)
    ]
    else (s, false)

unfoldable pub playback_audio_changed : Media → ℕ → AudioSnapshot → Media × Bool
playback_audio_changed s generation audio =
    if watches s generation then (record s { watch_audio = audio }, true) else (s, false)

unfoldable pub begin_stop_watch : Media → Media × Option ℕ
unfolding begin
begin_stop_watch s =
    let media = begin s.media MediaPhase.stopping in
    if is_watch s.media_owner && (in_watch s.media.phase || is_failed s.media.phase)
    then (record s { media = media }, some media.generation)
    else (s, none)

unfoldable pub finish_stop_media : Media → ℕ → Media × Bool
unfolding apply clear_media_fields reset_share_audio reset_if
finish_stop_media s generation =
    let reset = is_share s.media_owner in
    let (media, applied) = apply s.media generation MediaPhase.idle in
    if applied
    then (reset_if reset (clear_media_fields (record s { media = media }) none), true)
    else (s, false)

-- `stop_watch`: the playback has stopped, with an error or none.
unfoldable pub stop_watch : Media → Option (List ℕ) → Media
unfolding begin_stop_watch finish_stop_media fail_watch
stop_watch s result = elim (begin_stop_watch s).1 [
  | none ↦ (begin_stop_watch s).0
  | some generation ↦ elim result [
    | none ↦ (finish_stop_media (begin_stop_watch s).0 generation).0
    | some error ↦ fail_watch (begin_stop_watch s).0 generation error
  ]
]
