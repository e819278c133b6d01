-- ===== src/LinuxSync/Clock.antt =====
-- linux/src/runtime/playback_sync.rs: the clock, and the media clock that audio generations own. The
-- mutex serialises the operations, so each is one step. `Notify` of tokio holds at most one permit,
-- which `notify_one` stores and a waiter takes. The notification, which follows the release of the
-- mutex, is a part of the step: other threads are not shown between the two.
use moq_cast_desktop.Base.{
  ℕ, ◌-◌, ◌*◌, ◌/◌, ◌^◌, min, Bool, true, false, ◌||◌, Option, none, some, ◌==◌, if◌then◌else◌,
  is_some, is_some_and, keep_if, micros, saturating_add, saturating_sub, u64_max,
}

pub record Clock : Type 0 where
  pub media : ℕ
  pub wall : ℕ

unfoldable pub now_at : Clock → ℕ → ℕ
now_at c wall = saturating_add c.media (saturating_sub wall c.wall)

pub record AudioState : Type 0 where
  pub generation : ℕ
  pub anchor : Option Clock

pub record MediaClock : Type 0 where
  pub audio : Option AudioState
  pub permit : Bool

abbrev pub new_media_clock : MediaClock
new_media_clock = record { audio = none; permit = false }

-- `if notify { self.changed.notify_one() }`
abbrev pub notify_if : Bool → MediaClock → MediaClock
notify_if notify c = record c { permit = c.permit || notify }

abbrev pub has_anchor : AudioState → Bool
has_anchor s = is_some s.anchor

-- `MediaClock::audio`: a new generation takes the clock over. The lease is its generation.
unfoldable pub take_lease : MediaClock → ℕ → MediaClock × ℕ
take_lease c generation =
    let notify = is_some_and has_anchor c.audio in
    let fresh : AudioState = record { generation = generation; anchor = none } in
    (notify_if notify (record c { audio = some fresh }), generation)

unfoldable pub audio_anchor : MediaClock → Option Clock
audio_anchor c = elim c.audio [ none ↦ none | some s ↦ s.anchor ]

-- The state that the generation owns, if it does.
abbrev pub owned : MediaClock → ℕ → Option AudioState
owned c generation = keep_if (λ s. s.generation == generation) c.audio

unfoldable pub anchor_audio : MediaClock → ℕ → Clock → MediaClock × Bool
anchor_audio c generation anchor = elim (owned c generation) [
  | none ↦ (c, false)
  | some s ↦
      let notify = if is_some s.anchor then false else true in
      (notify_if notify (record c { audio = some (record s { anchor = some anchor }) }), true)
]

unfoldable pub clear_audio : MediaClock → ℕ → MediaClock × Bool
clear_audio c generation = elim (owned c generation) [
  | none ↦ (c, false)
  | some s ↦ (notify_if (is_some s.anchor) (record c { audio = none }), true)
]

unfoldable pub invalidate_audio : MediaClock → ℕ → MediaClock × Bool
invalidate_audio c generation = elim (owned c generation) [
  | none ↦ (c, false)
  | some s ↦
      (notify_if (is_some s.anchor) (record c { audio = some (record s { anchor = none }) }), true)
]

-- `end.saturating_sub(buffered)`
unfoldable pub audio_media_position : ℕ → ℕ → ℕ
audio_media_position end buffered = saturating_sub end buffered

-- `AudioLease::anchor`
unfoldable pub lease_anchor : MediaClock → ℕ → ℕ → ℕ → ℕ → MediaClock × Bool
unfolding anchor_audio
lease_anchor c lease end buffered wall =
    anchor_audio c lease (record { media = audio_media_position end buffered; wall = wall })

-- `AudioLease::invalidate`
unfoldable pub lease_invalidate : MediaClock → ℕ → MediaClock × Bool
unfolding invalidate_audio
lease_invalidate c lease = invalidate_audio c lease

-- `Drop for AudioLease`
unfoldable pub drop_lease : MediaClock → ℕ → MediaClock
unfolding clear_audio
drop_lease c lease = (clear_audio c lease).0

-- A waiter of `changed` takes the permit.
unfoldable pub changed : MediaClock → MediaClock
changed c = record c { permit = false }

unfoldable pub timestamp_from_micros : ℕ → ℕ
timestamp_from_micros us = micros (min us u64_max)

-- The frame's timestamp is given in microseconds; `size_of::<f32>()` is 4.
unfoldable pub pcm_frame_end : ℕ → ℕ → ℕ → ℕ → ℕ
unfolding timestamp_from_micros
pcm_frame_end timestamp_us bytes sample_rate channels =
    let stride = min (channels * 4) (2 ^ 128 - 1) in
    if stride == 0 || sample_rate == 0
    then timestamp_from_micros timestamp_us
    else let samples = bytes / stride in
      let us = min (samples * 1_000_000) (2 ^ 128 - 1) / sample_rate in
      saturating_add (timestamp_from_micros timestamp_us) (timestamp_from_micros us)
