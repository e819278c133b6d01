-- ===== src/Continuity/Tracker.antt =====
-- linux/src/runtime/playback_audio_continuity.rs: the frame timing, the metrics and the tracker. The
-- clock that the code reads by a closure is the instant that it returns.
use moq_cast_desktop.Base.{
  ℕ, ◌-◌, ◌*◌, ◌/◌, ◌^◌, ◌==◌, min, max, Bool, true, false, if◌then◌else◌, ltb, leb, Option, none,
  some, secs, millis, micros, saturating_add, saturating_sub, saturating_add_u64, u64_max,
}

abbrev pub summary_interval : ℕ
summary_interval = secs 10

abbrev pub pts_rounding_tolerance : ℕ
pts_rounding_tolerance = millis 1

-- `AUDIO_PACING_CEILING` of playback_sync.rs
abbrev pub audio_pacing_ceiling : ℕ
audio_pacing_ceiling = secs 1

-- `size_of::<f32>()` is 4, and a `usize` has 64 bits.
unfoldable pub pcm_sample_frames : ℕ → ℕ → ℕ
pcm_sample_frames bytes channels =
    let stride = min (channels * 4) u64_max in
    if stride == 0 then 0 else min (bytes / stride) u64_max

unfoldable pub pcm_duration : ℕ → ℕ → ℕ
pcm_duration sample_frames sample_rate =
    if sample_rate == 0
    then 0
    else let us = min (sample_frames * 1_000_000) (2 ^ 128 - 1) / sample_rate in
      micros (min us u64_max)

unfoldable pub pacing_delay : ℕ → Option ℕ
pacing_delay buffered =
    if ltb audio_pacing_ceiling buffered then some (buffered - audio_pacing_ceiling) else none

pub record FrameTiming : Type 0 where
  pub start : ℕ
  pub end : ℕ
  pub sample_frames : ℕ

unfoldable pub new_timing : ℕ → ℕ → ℕ → ℕ → FrameTiming
unfolding pcm_sample_frames pcm_duration
new_timing start bytes sample_rate channels =
    let sample_frames = pcm_sample_frames bytes channels in
    let duration = pcm_duration sample_frames sample_rate in
    record { start = start; end = saturating_add start duration; sample_frames = sample_frames }

pub record Metrics : Type 0 where
  pub observed_buffered_current : Option ℕ
  pub post_submit_buffered_min : Option ℕ
  pub post_submit_buffered_max : Option ℕ
  pub decoded_frames : ℕ
  pub pcm_sample_frames : ℕ
  pub sink_write_attempts : ℕ
  pub sink_write_failures : ℕ
  pub dropped_sample_frames : ℕ
  pub submitted_chunks : ℕ
  pub submitted_bytes : ℕ
  pub submitted_sample_frames : ℕ
  pub submitted_duration : ℕ
  pub max_submitted_chunk_duration : ℕ
  pub pts_gap_count : ℕ
  pub pts_regression_count : ℕ
  pub max_pts_gap : ℕ
  pub max_pts_regression : ℕ
  pub pacing_delay_requested_count : ℕ
  pub pacing_delay_requested_total : ℕ
  pub pacing_delay_requested_max : ℕ

abbrev pub default_metrics : Metrics
default_metrics = record {
  observed_buffered_current = none;
  post_submit_buffered_min = none;
  post_submit_buffered_max = none;
  decoded_frames = 0;
  pcm_sample_frames = 0;
  sink_write_attempts = 0;
  sink_write_failures = 0;
  dropped_sample_frames = 0;
  submitted_chunks = 0;
  submitted_bytes = 0;
  submitted_sample_frames = 0;
  submitted_duration = 0;
  max_submitted_chunk_duration = 0;
  pts_gap_count = 0;
  pts_regression_count = 0;
  max_pts_gap = 0;
  max_pts_regression = 0;
  pacing_delay_requested_count = 0;
  pacing_delay_requested_total = 0;
  pacing_delay_requested_max = 0;
}

-- The path, the track and the codec are only logged, and the teardown is shared: it is passed on its
-- own.
pub record Tracker : Type 0 where
  pub generation : ℕ
  pub selected_at : ℕ
  pub last_summary_at : ℕ
  pub last_expected_pts : Option ℕ
  pub first_decoded : Bool
  pub first_submitted : Bool
  pub logged_gap : Bool
  pub logged_regression : Bool
  pub logged_pacing_delay_requested : Bool
  pub metrics : Metrics

unfoldable pub new_tracker : ℕ → ℕ → Tracker
new_tracker generation selected_at = record {
  generation = generation;
  selected_at = selected_at;
  last_summary_at = selected_at;
  last_expected_pts = none;
  first_decoded = false;
  first_submitted = false;
  logged_gap = false;
  logged_regression = false;
  logged_pacing_delay_requested = false;
  metrics = default_metrics;
}

unfoldable pub observe_gap : Tracker → ℕ → Tracker
observe_gap t gap =
    let m = t.metrics in
    record t {
      logged_gap = true;
      metrics = record m {
        pts_gap_count = saturating_add_u64 m.pts_gap_count 1;
        max_pts_gap = max m.max_pts_gap gap;
      };
    }

unfoldable pub observe_regression : Tracker → ℕ → Tracker
observe_regression t regression =
    let m = t.metrics in
    record t {
      logged_regression = true;
      metrics = record m {
        pts_regression_count = saturating_add_u64 m.pts_regression_count 1;
        max_pts_regression = max m.max_pts_regression regression;
      };
    }

-- The frame's start against the end of the frame before.
unfoldable pub judge_pts : Tracker → ℕ → Option ℕ → Tracker
unfolding observe_gap observe_regression
judge_pts t start none = t
judge_pts t start (some expected) =
    if ltb (saturating_add expected pts_rounding_tolerance) start
    then observe_gap t (saturating_sub start expected)
    else if ltb (saturating_add start pts_rounding_tolerance) expected
    then observe_regression t (saturating_sub expected start)
    else t

unfoldable pub count_frame : Tracker → FrameTiming → Tracker
count_frame t timing =
    let m = t.metrics in
    record t {
      metrics = record m {
        decoded_frames = saturating_add_u64 m.decoded_frames 1;
        pcm_sample_frames = saturating_add_u64 m.pcm_sample_frames timing.sample_frames;
      };
    }

-- The result is the time to the first decoded frame, for that frame.
unfoldable pub observe_frame : Tracker → FrameTiming → ℕ → Tracker × Option ℕ
unfolding count_frame judge_pts
observe_frame t timing now =
    let judged = judge_pts (count_frame t timing) timing.start t.last_expected_pts in
    let expecting = record judged { last_expected_pts = some timing.end } in
    if expecting.first_decoded
    then (expecting, none)
    else (record expecting { first_decoded = true }, some (saturating_sub now t.selected_at))

-- `map_or(buffered, |current| cmp::min(current, buffered))`, and for the maximum
abbrev pub lower_of : Option ℕ → ℕ → ℕ
lower_of none buffered = buffered
lower_of (some current) buffered = min current buffered

abbrev pub upper_of : Option ℕ → ℕ → ℕ
upper_of none buffered = buffered
upper_of (some current) buffered = max current buffered

unfoldable pub observe_buffered : Tracker → ℕ → Tracker
observe_buffered t buffered =
    let m = record t.metrics { observed_buffered_current = some buffered } in
    if t.first_submitted
    then record t {
      metrics = record m {
        post_submit_buffered_min = some (lower_of m.post_submit_buffered_min buffered);
        post_submit_buffered_max = some (upper_of m.post_submit_buffered_max buffered);
      };
    }
    else record t { metrics = m }

unfoldable pub observe_pacing_delay_requested : Tracker → ℕ → Tracker
observe_pacing_delay_requested t delay =
    let m = t.metrics in
    record t {
      logged_pacing_delay_requested = true;
      metrics = record m {
        pacing_delay_requested_count = saturating_add_u64 m.pacing_delay_requested_count 1;
        pacing_delay_requested_total = saturating_add m.pacing_delay_requested_total delay;
        pacing_delay_requested_max = max m.pacing_delay_requested_max delay;
      };
    }

unfoldable pub summary_due : Tracker → ℕ → Bool
summary_due t now = leb summary_interval (saturating_sub now t.last_summary_at)

unfoldable pub mark_summary : Tracker → ℕ → Tracker
mark_summary t now = record t { last_summary_at = now }

-- The result is whether a summary is logged.
unfoldable pub maybe_log_summary : Tracker → ℕ → Tracker × Bool
unfolding summary_due mark_summary
maybe_log_summary t now = if summary_due t now then (mark_summary t now, true) else (t, false)
