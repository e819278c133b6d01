-- ===== src/WinSync/Audio.antt =====
-- windows/src/playback/sync.rs: the audio timeline, the trust in the output, the anchor of the audio
-- clock and the channel that carries it.
use moq_cast_desktop.Base.{
  ℕ, ◌+◌, ◌-◌, ◌*◌, ◌/◌, ◌^◌, min, Bool, true, false, ◌&&◌, ◌||◌, not, Option, none, some, ltb,
  ◌==◌, if◌then◌else◌, is_some_and, millis, secs, micros, saturating_add, saturating_sub, u64_max,
}

abbrev pub max_clock_age : ℕ
max_clock_age = millis 250

abbrev pub max_audio_pts_gap : ℕ
max_audio_pts_gap = millis 250

-- `previous` holds the start and the end of the last frame.
pub record AudioTimeline : Type 0 where
  pub previous : Option (ℕ × ℕ)
  pub discontinuous : Bool

abbrev pub new_timeline : AudioTimeline
new_timeline = record { previous = none; discontinuous = false }

abbrev pub breaks : ℕ → ℕ × ℕ → Bool
breaks pts (start, end) = ltb pts start || ltb max_audio_pts_gap (saturating_sub pts end)

unfoldable pub observe : AudioTimeline → ℕ → ℕ → AudioTimeline × Bool
observe t pts duration =
    let broken = is_some_and (breaks pts) t.previous in
    (
      record {
        previous = some (pts, saturating_add pts duration);
        discontinuous = t.discontinuous || broken;
      },
      broken && not t.discontinuous,
    )

unfoldable pub is_continuous : AudioTimeline → Bool
is_continuous t = not t.discontinuous

pub record AudioOutputTrust : Type 0 where
  pub dropped : Bool

unfoldable pub observe_output : AudioOutputTrust → ℕ → ℕ → ℕ → AudioOutputTrust × Bool
observe_output t buffered_before accepted_sample_frames dropped_sample_frames =
    if ltb 0 dropped_sample_frames
    then (record { dropped = true }, false)
    else if accepted_sample_frames == 0
    then (t, false)
    else if t.dropped
    then (if not (buffered_before == 0) then (t, false) else (record { dropped = false }, true))
    else (t, true)

-- `u128` products saturate; `checked_div` by 0 gives the default, 0.
unfoldable pub accepted_pcm_end : ℕ → ℕ → ℕ → ℕ
accepted_pcm_end start frames sample_rate =
    let product = min (frames * 1_000_000) (2 ^ 128 - 1) in
    let us = if sample_rate == 0 then 0 else product / sample_rate in
    saturating_add start (micros (min us u64_max))

pub record AudioAnchor : Type 0 where
  pub position : ℕ
  pub end : ℕ
  pub observed : ℕ

unfoldable pub new_anchor : ℕ → ℕ → ℕ → Option AudioAnchor
new_anchor end buffered observed =
    if buffered == 0 || ltb (secs 1) buffered || ltb end buffered
    then none
    else some (record { position = end - buffered; end = end; observed = observed })

unfoldable pub position_at : AudioAnchor → ℕ → Option ℕ
position_at a now =
    let elapsed = saturating_sub now a.observed in
    let position = saturating_add a.position elapsed in
    if ltb elapsed max_clock_age && ltb position a.end then some position else none

unfoldable pub expires : AudioAnchor → ℕ
expires a = a.observed + min max_clock_age (a.end - a.position)

-- The value in the `watch` channel, which the writer alone replaces.
pub record AudioClock : Type 0 where
  pub anchor : Option AudioAnchor

-- `AudioClockWriter::update`
unfoldable pub update_clock : AudioClock → Option AudioAnchor → AudioClock
update_clock c anchor = record { anchor = anchor }

-- `AudioClockWriter::observe_source`
unfoldable pub observe_source :
    AudioClock → AudioTimeline → ℕ → ℕ → (AudioClock × AudioTimeline) × Bool
unfolding observe update_clock
observe_source c t pts duration =
    let (t', broken) = observe t pts duration in
    ((if broken then update_clock c none else c, t'), broken)

-- `Drop for AudioClockWriter`
unfoldable pub drop_writer : AudioClock → AudioClock
unfolding update_clock
drop_writer c = update_clock c none
