-- ===== src/Continuity/Writes.antt =====
-- linux/src/runtime/playback_audio_continuity.rs: what a write to the sink is counted as.
use moq_cast_desktop.Base.{
  ℕ, ◌+◌, ◌*◌, ◌==◌, ◌≤◌, ◌≡◌, inl, inr, refl, min, max, true, if◌then◌else◌, Option, none, some,
  arith, saturating_add, saturating_sub, saturating_add_u64, u64_max, Bool-cases,
}
use moq_cast_desktop.Continuity.Tracker.{Tracker, Metrics, pcm_sample_frames, pcm_duration}

unfoldable pub write_failed : Tracker → Tracker
write_failed t =
    let m = t.metrics in
    record t {
      metrics = record m {
        sink_write_attempts = saturating_add_u64 m.sink_write_attempts 1;
        sink_write_failures = saturating_add_u64 m.sink_write_failures 1;
      };
    }

-- The attempt, and the sample frames that the sink did not accept.
unfoldable pub write_returned : Tracker → ℕ → ℕ → Tracker
write_returned t requested accepted =
    let m = t.metrics in
    record t {
      metrics = record m {
        sink_write_attempts = saturating_add_u64 m.sink_write_attempts 1;
        dropped_sample_frames =
            saturating_add_u64 m.dropped_sample_frames (saturating_sub requested accepted);
      };
    }

-- `size_of::<f32>()` is 4.
unfoldable pub submit : Tracker → ℕ → ℕ → ℕ → Tracker
unfolding pcm_duration
submit t sample_frames sample_rate channels =
    let m = t.metrics in
    let duration = pcm_duration sample_frames sample_rate in
    let submitted_bytes = min (min (sample_frames * channels) u64_max * 4) u64_max in
    record t {
      metrics = record m {
        submitted_chunks = saturating_add_u64 m.submitted_chunks 1;
        submitted_bytes = saturating_add_u64 m.submitted_bytes submitted_bytes;
        submitted_sample_frames = saturating_add_u64 m.submitted_sample_frames sample_frames;
        submitted_duration = saturating_add m.submitted_duration duration;
        max_submitted_chunk_duration = max m.max_submitted_chunk_duration duration;
      };
    }

-- The result is the time to the first write that was accepted, for that write.
unfoldable pub first_submission : Tracker → ℕ → Tracker × Option ℕ
first_submission t now =
    if t.first_submitted
    then (t, none)
    else (record t { first_submitted = true }, some (saturating_sub now t.selected_at))

-- A write that returned: no more sample frames count as accepted than were requested.
unfoldable pub observe_accepted : Tracker → ℕ → ℕ → ℕ → ℕ → ℕ → Tracker × Option ℕ
unfolding write_returned submit first_submission
observe_accepted t requested sample_rate channels accepted now =
    let sample_frames = min (min accepted u64_max) requested in
    let returned = write_returned t requested sample_frames in
    if sample_frames == 0
    then (returned, none)
    else first_submission (submit returned sample_frames sample_rate channels) now

-- The accepted sample frames are none where the write failed.
unfoldable pub observe_write : Tracker → ℕ → ℕ → ℕ → Option ℕ → ℕ → Tracker × Option ℕ
unfolding write_failed observe_accepted pcm_sample_frames
observe_write t bytes sample_rate channels none now = (write_failed t, none)
observe_write t bytes sample_rate channels (some accepted) now =
    observe_accepted t (pcm_sample_frames bytes channels) sample_rate channels accepted now

-- The sample frames that are counted as submitted or dropped.
abbrev pub accounted : Metrics → ℕ
accounted m = m.submitted_sample_frames + m.dropped_sample_frames

first_submission-metrics : (t : Tracker) (now : ℕ) → (first_submission t now).0.metrics ≡ t.metrics
unfolding first_submission
first_submission-metrics t now = ground arith

observe_accepted-accounts :
    (t : Tracker) (requested sample_rate channels accepted now : ℕ)
    → accounted t.metrics + requested ≤ u64_max
    → accounted (observe_accepted t requested sample_rate channels accepted now).0.metrics
      ≡ accounted t.metrics + requested
unfolding observe_accepted write_returned submit saturating_add_u64
observe_accepted-accounts t requested sample_rate channels accepted now bound =
    let sample_frames = min (min accepted u64_max) requested in
    let submitted =
      submit (write_returned t requested sample_frames) sample_frames sample_rate channels in
    elim (Bool-cases (sample_frames == 0)) [
      | inl e ↦ rw e (ground arith)
      | inr e ↦ rw e (rw (first_submission-metrics submitted now) (ground arith))
    ]

-- How often writes were attempted, and how often they failed.
abbrev pub CountsWrite : Metrics → Metrics → ℕ → Type 0
CountsWrite m m' failed =
    (m'.sink_write_attempts ≡ min (m.sink_write_attempts + 1) u64_max)
    × (m'.sink_write_failures ≡ min (m.sink_write_failures + failed) u64_max)

observe_accepted-counts :
    (t : Tracker) (requested sample_rate channels accepted now : ℕ)
    → t.metrics.sink_write_failures ≤ u64_max
    → CountsWrite t.metrics
        (observe_accepted t requested sample_rate channels accepted now).0.metrics
        0
unfolding observe_accepted write_returned submit saturating_add_u64
observe_accepted-counts t requested sample_rate channels accepted now bound =
    let sample_frames = min (min accepted u64_max) requested in
    let submitted =
      submit (write_returned t requested sample_frames) sample_frames sample_rate channels in
    elim (Bool-cases (sample_frames == 0)) [
      | inl e ↦ rw e (ground arith)
      | inr e ↦ rw e (rw (first_submission-metrics submitted now) (ground arith))
    ]

-- Every write, returned or failed, is counted as one attempt; every sample frame of a write that
-- returned is counted once, as submitted or as dropped, whatever number the sink says it accepted,
-- as long as the counts stay below the end of u64, and no failure is counted; a write that fails is
-- counted as one failure, and none of its sample frames and no chunk. Attempts and failures saturate
-- at the end of u64.
pub observe_write-accounts :
    (t : Tracker) (bytes sample_rate channels accepted now : ℕ)
    → accounted t.metrics + pcm_sample_frames bytes channels ≤ u64_max
    → t.metrics.sink_write_failures ≤ u64_max
    → let returned = (observe_write t bytes sample_rate channels (some accepted) now).0.metrics in
      let failed = (observe_write t bytes sample_rate channels none now).0.metrics in
      (accounted returned ≡ accounted t.metrics + pcm_sample_frames bytes channels)
      × CountsWrite t.metrics returned 0
      × (accounted failed ≡ accounted t.metrics)
      × CountsWrite t.metrics failed 1
      × (failed.submitted_chunks ≡ t.metrics.submitted_chunks)
unfolding observe_write write_failed saturating_add_u64
observe_write-accounts t bytes sample_rate channels accepted now bound few =
    let requested = pcm_sample_frames bytes channels in
    (
      observe_accepted-accounts t requested sample_rate channels accepted now bound,
      observe_accepted-counts t requested sample_rate channels accepted now few,
      refl,
      (refl, refl),
      refl,
    )
