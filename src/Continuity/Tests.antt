-- ===== src/Continuity/Tests.antt =====
-- Runs of the continuity tracker, and instances of its theorems.
use moq_cast_desktop.Base.{
  ℕ, ◌+◌, ◌≡◌, ◌≤◌, refl, true, List, [], ◌∷◌, none, some, arith, All, millis, saturating_add,
  saturating_add_u64,
}
use moq_cast_desktop.Continuity.Teardown.{
  new_control, TeardownOp, sets_owner_reason, finishes, drops, owner_stop, ended, run, run-once,
  was_emitted,
}
use moq_cast_desktop.Continuity.Tracker.{
  Tracker, FrameTiming, new_tracker, new_timing, pcm_sample_frames, pacing_delay,
}
use moq_cast_desktop.Continuity.Writes.{
  observe_write, accounted, CountsWrite, observe_write-accounts,
}
use moq_cast_desktop.Continuity.Stream.{
  observe_frames, break_count, breaks, observe_frames-breaks, InWindow, observe_all_buffered,
  observe_all_buffered-InWindow,
}

abbrev teardown : List TeardownOp
teardown = sets_owner_reason owner_stop ∷ finishes ended ∷ drops ∷ []

run-once_example :
    (was_emitted new_control + (run new_control teardown).1
      ≡ was_emitted (run new_control teardown).0)
    × (was_emitted (run new_control teardown).0 ≤ 1)
run-once_example = run-once new_control teardown

logged_once : (run new_control teardown).1 ≡ 1
unfolding run
logged_once = refl

abbrev tracker : Tracker
tracker = new_tracker 1 0

observe_write-accounts_example :
    let returned = (observe_write tracker 3840 48000 2 (some 400) 5).0.metrics in
    let failed = (observe_write tracker 3840 48000 2 none 5).0.metrics in
    (accounted returned ≡ accounted tracker.metrics + pcm_sample_frames 3840 2)
    × CountsWrite tracker.metrics returned 0
    × (accounted failed ≡ accounted tracker.metrics)
    × CountsWrite tracker.metrics failed 1
    × (failed.submitted_chunks ≡ tracker.metrics.submitted_chunks)
unfolding new_tracker pcm_sample_frames
observe_write-accounts_example =
    observe_write-accounts tracker 3840 48000 2 400 5 (omega arith) (omega arith)

abbrev frames : List (FrameTiming × ℕ)
frames =
    (record { start = 0; end = millis 10; sample_frames = 480 }, 1)
    ∷ (record { start = millis 10; end = millis 20; sample_frames = 480 }, 2)
    ∷ (record { start = millis 40; end = millis 50; sample_frames = 480 }, 3)
    ∷ []

observe_frames-breaks_example :
    break_count (observe_frames tracker frames).metrics
    ≡ break_count tracker.metrics + breaks tracker.last_expected_pts frames
unfolding new_tracker
observe_frames-breaks_example =
    observe_frames-breaks tracker frames (omega arith) (omega arith) (omega arith)

one_gap : break_count (observe_frames tracker frames).metrics ≡ 1
unfolding observe_frames new_tracker saturating_add saturating_add_u64
one_gap = refl

abbrev playing : Tracker
playing = record (new_tracker 1 0) { first_submitted = true }

observe_all_buffered-InWindow_example :
    let t = observe_all_buffered playing (millis 300 ∷ millis 100 ∷ millis 200 ∷ []) in
    All (InWindow t.metrics) (millis 300 ∷ millis 100 ∷ millis 200 ∷ [])
observe_all_buffered-InWindow_example =
    observe_all_buffered-InWindow playing (millis 300 ∷ millis 100 ∷ millis 200 ∷ []) refl

delay_to_ceiling : pacing_delay (millis 1250) ≡ some (millis 250)
unfolding pacing_delay
delay_to_ceiling = refl

frame_of_bytes : (new_timing 0 3840 48000 2).end ≡ millis 10
unfolding new_timing saturating_add
frame_of_bytes = refl
