-- ===== src/MacApp/Snapshot.antt =====
-- mac/src/runtime.rs: the snapshot, with the types of playback.rs and publication.rs that stand in it.
use moq_cast_desktop.Base.{ℕ, Bool, true, false, List, Option, none, some, if◌then◌else◌}
use moq_cast_desktop.MacApp.Lifecycle.{
  Lifecycle, new_lifecycle, begin, MediaPhase, MediaOwner, ShareAudioPhase, AudioPhase,
}

-- `publication::Selection`
pub data Selection : Type 0 where
  display : ℕ → Bool → List ℕ → Selection
  window : ℕ → List ℕ → Selection

unfoldable pub supports_system_audio : Selection → Bool
supports_system_audio (display id primary label) = primary
supports_system_audio (window id label) = false

-- `playback::AudioSnapshot`
pub record AudioSnapshot : Type 0 where
  pub phase : AudioPhase
  pub track : Option (List ℕ)
  pub codec : Option (List ℕ)
  pub sample_rate : Option ℕ
  pub channels : Option ℕ
  pub last_error : Option (List ℕ)

abbrev pub default_audio : AudioSnapshot
default_audio = record {
  phase = AudioPhase.idle;
  track = none;
  codec = none;
  sample_rate = none;
  channels = none;
  last_error = none;
}

-- The fields of `AppSnapshot` that are about media. The others, which the nearby services change,
-- stand in `Nearby`.
pub record Media : Type 0 where
  pub media : Lifecycle MediaPhase
  pub media_peer : Option (List ℕ)
  pub media_path : Option (List ℕ)
  pub media_owner : Option MediaOwner
  pub share_selection : Option Selection
  pub share_system_audio : Bool
  pub share_audio : ShareAudioPhase
  pub share_audio_error : Option (List ℕ)
  pub watch_audio : AudioSnapshot
  pub media_decoder : Option (List ℕ)
  pub media_video_codec : Option (List ℕ)
  pub media_width : Option ℕ
  pub media_height : Option ℕ
  pub media_error : Option (List ℕ)

abbrev pub default_media : Media
default_media = record {
  media = new_lifecycle MediaPhase.idle;
  media_peer = none;
  media_path = none;
  media_owner = none;
  share_selection = none;
  share_system_audio = false;
  share_audio = ShareAudioPhase.off;
  share_audio_error = none;
  watch_audio = default_audio;
  media_decoder = none;
  media_video_codec = none;
  media_width = none;
  media_height = none;
  media_error = none;
}

-- `self.media_owner == Some(MediaOwner::Watch)`, and for `Share`
abbrev pub is_watch : Option MediaOwner → Bool
is_watch (some MediaOwner.watch) = true
is_watch _ = false

abbrev pub is_share : Option MediaOwner → Bool
is_share (some MediaOwner.share) = true
is_share _ = false

abbrev pub is_idle : MediaPhase → Bool
is_idle MediaPhase.idle = true
is_idle _ = false

abbrev pub is_failed : MediaPhase → Bool
is_failed MediaPhase.failed = true
is_failed _ = false

-- `matches!(phase, PreparingWatch | Watching)`, and for sharing
abbrev pub in_watch : MediaPhase → Bool
in_watch MediaPhase.preparing_watch = true
in_watch MediaPhase.watching = true
in_watch _ = false

abbrev pub is_preparing_share : MediaPhase → Bool
is_preparing_share MediaPhase.preparing_share = true
is_preparing_share _ = false

abbrev pub in_share : MediaPhase → Bool
in_share MediaPhase.preparing_share = true
in_share MediaPhase.sharing = true
in_share _ = false

unfoldable pub reset_share_audio : Media → Media
reset_share_audio s = record s {
  share_system_audio = false;
  share_audio = ShareAudioPhase.off;
  share_audio_error = none;
}

unfoldable pub clear_media_fields : Media → Option (List ℕ) → Media
clear_media_fields s error = record s {
  media_owner = none;
  media_peer = none;
  media_path = none;
  media_decoder = none;
  media_video_codec = none;
  media_width = none;
  media_height = none;
  media_error = error;
  watch_audio = default_audio;
}

-- `if reset_share_audio { self.reset_share_audio() }`
unfoldable pub reset_if : Bool → Media → Media
unfolding reset_share_audio
reset_if reset s = if reset then reset_share_audio s else s

unfoldable pub clear_media : Media → MediaPhase → Option (List ℕ) → Media
unfolding clear_media_fields reset_share_audio reset_if begin
clear_media s phase error =
    reset_if (is_share s.media_owner)
      (clear_media_fields (record s { media = begin s.media phase }) error)
