-- ===== src/Continuity/Stream.antt =====
-- linux/src/runtime/playback_audio_continuity.rs: what a whole stream of frames and of buffer
-- observations is counted as.
use moq_cast_desktop.Base.{
  ℕ, ◌+◌, ◌≤◌, ◌≡◌, ◌||◌, inl, inr, refl, Bool, true, false, if◌then◌else◌, ltb, List, [], ◌∷◌,
  length, Option, none, some, arith, All, saturating_add, saturating_add_u64, u64_max, Bool-cases,
  duration_max,
}
use moq_cast_desktop.Continuity.Tracker.{
  Tracker, Metrics, FrameTiming, observe_frame, count_frame, judge_pts, observe_gap,
  observe_regression, observe_buffered, lower_of, upper_of, pts_rounding_tolerance,
}

-- Frames, each with the instant at which it is observed.
unfoldable pub observe_frames : Tracker → List (FrameTiming × ℕ) → Tracker
unfolding observe_frame
observe_frames t [] = t
observe_frames t ((timing, now) ∷ frames) = observe_frames (observe_frame t timing now).0 frames

-- A start is off if it is more than the tolerance of 1 ms away from where it was expected.
abbrev pub is_off : Option ℕ → ℕ → Bool
is_off none start = false
is_off (some expected) start =
    ltb (expected + pts_rounding_tolerance) start || ltb (start + pts_rounding_tolerance) expected

-- The frames whose start is off.
unfoldable pub breaks : Option ℕ → List (FrameTiming × ℕ) → ℕ
breaks expected [] = 0
breaks expected ((timing, now) ∷ frames) =
    (if is_off expected timing.start then 1 else 0) + breaks (some timing.end) frames

abbrev pub break_count : Metrics → ℕ
break_count m = m.pts_gap_count + m.pts_regression_count

abbrev pub Fits : Option ℕ → Type 0
Fits none = 0 ≤ 0
Fits (some expected) = expected ≤ duration_max

judge_pts-counts :
    (t : Tracker) (start : ℕ) (expected : Option ℕ)
    → start ≤ duration_max
    → Fits expected
    → break_count t.metrics + 1 ≤ u64_max
    → break_count (judge_pts t start expected).metrics
      ≡ break_count t.metrics + (if is_off expected start then 1 else 0)
unfolding judge_pts observe_gap observe_regression saturating_add saturating_add_u64
judge_pts-counts t start none fit fit' bound = omega arith
judge_pts-counts t start (some expected) fit fit' bound = ground arith

observe_frame-counts :
    (t : Tracker) (timing : FrameTiming) (now : ℕ)
    → timing.start ≤ duration_max
    → Fits t.last_expected_pts
    → break_count t.metrics + 1 ≤ u64_max
    → (break_count (observe_frame t timing now).0.metrics
        ≡ break_count t.metrics + (if is_off t.last_expected_pts timing.start then 1 else 0))
      × ((observe_frame t timing now).0.last_expected_pts ≡ some timing.end)
unfolding observe_frame count_frame
observe_frame-counts t timing now fit fit' bound =
    let counts =
      judge_pts-counts (count_frame t timing) timing.start t.last_expected_pts fit fit' bound in
    elim (Bool-cases
      (judge_pts (count_frame t timing) timing.start t.last_expected_pts).first_decoded) [
        | inl e ↦ rw e (counts, refl)
        | inr e ↦ rw e (counts, refl)
      ]

-- Over any stream of frames whose times are durations, and as long as the counts stay below the end
-- of u64, the gaps and the regressions together count the frames whose start is more than 1 ms off
-- the end of the frame before.
pub observe_frames-breaks :
    (t : Tracker) (frames : List (FrameTiming × ℕ))
    → All (λ f. (f.0.start ≤ duration_max) × (f.0.end ≤ duration_max)) frames
    → Fits t.last_expected_pts
    → break_count t.metrics + length frames ≤ u64_max
    → break_count (observe_frames t frames).metrics
      ≡ break_count t.metrics + breaks t.last_expected_pts frames
unfolding observe_frames breaks
observe_frames-breaks t [] fits fit bound = omega arith
observe_frames-breaks t ((timing, now) ∷ frames) fits fit bound =
    let (counts, expects) = observe_frame-counts t timing now fits.0.0 fit (omega arith) in
    let t' = (observe_frame t timing now).0 in
    let step : break_count t.metrics + (if is_off t.last_expected_pts timing.start then 1 else 0)
        ≤ break_count t.metrics + 1 =
      ground arith in
    let rest =
      observe_frames-breaks t' frames fits.1 (rw expects fits.0.1) (omega (arith, counts, step)) in
    let rest' : break_count (observe_frames t' frames).metrics
        ≡ break_count t'.metrics + breaks (some timing.end) frames =
      rw expects at rest in
    omega (arith, rest', counts)

-- Observations of the buffer, in order.
unfoldable pub observe_all_buffered : Tracker → List ℕ → Tracker
unfolding observe_buffered
observe_all_buffered t [] = t
observe_all_buffered t (b ∷ bs) = observe_all_buffered (observe_buffered t b) bs

abbrev pub Lower : Option ℕ → ℕ → Type 0
Lower none b = 1 ≤ 0
Lower (some lower) b = lower ≤ b

abbrev pub Upper : Option ℕ → ℕ → Type 0
Upper none b = 1 ≤ 0
Upper (some upper) b = b ≤ upper

-- The value lies within the reported bounds.
abbrev pub InWindow : Metrics → ℕ → Type 0
InWindow m b = Lower m.post_submit_buffered_min b × Upper m.post_submit_buffered_max b

Lower-step : (o : Option ℕ) (b c : ℕ) → Lower o b → Lower (some (lower_of o c)) b
Lower-step none b c h = omega arith
Lower-step (some l) b c h = omega arith

Upper-step : (o : Option ℕ) (b c : ℕ) → Upper o b → Upper (some (upper_of o c)) b
Upper-step none b c h = omega arith
Upper-step (some l) b c h = omega arith

lower_of-le : (o : Option ℕ) (b : ℕ) → lower_of o b ≤ b
lower_of-le none b = omega arith
lower_of-le (some l) b = omega arith

upper_of-ge : (o : Option ℕ) (b : ℕ) → b ≤ upper_of o b
upper_of-ge none b = omega arith
upper_of-ge (some l) b = omega arith

observe_buffered-InWindow :
    (t : Tracker) (b : ℕ)
    → t.first_submitted ≡ true
    → InWindow (observe_buffered t b).metrics b
      × ((c : ℕ) → InWindow t.metrics c → InWindow (observe_buffered t b).metrics c)
      × ((observe_buffered t b).first_submitted ≡ true)
unfolding observe_buffered
observe_buffered-InWindow t b h =
    let m = t.metrics in
    rw h (
      (lower_of-le m.post_submit_buffered_min b, upper_of-ge m.post_submit_buffered_max b),
      λ c w. (
        Lower-step m.post_submit_buffered_min c b w.0,
        Upper-step m.post_submit_buffered_max c b w.1,
      ),
      refl,
    )

keeps_window :
    (t : Tracker) (bs : List ℕ) (c : ℕ)
    → t.first_submitted ≡ true
    → InWindow t.metrics c
    → InWindow (observe_all_buffered t bs).metrics c
unfolding observe_all_buffered
keeps_window t [] c h w = w
keeps_window t (b ∷ bs) c h w =
    let (own, keeps, submitted) = observe_buffered-InWindow t b h in
    keeps_window (observe_buffered t b) bs c submitted (keeps c w)

-- Once PCM was submitted, every buffered duration that is observed lies between the minimum and the
-- maximum that the summaries report from then on.
pub observe_all_buffered-InWindow :
    (t : Tracker) (bs : List ℕ)
    → t.first_submitted ≡ true
    → All (InWindow (observe_all_buffered t bs).metrics) bs
unfolding observe_all_buffered
observe_all_buffered-InWindow t [] h = tt
observe_all_buffered-InWindow t (b ∷ bs) h =
    let (own, keeps, submitted) = observe_buffered-InWindow t b h in
    (
      keeps_window (observe_buffered t b) bs b submitted own,
      observe_all_buffered-InWindow (observe_buffered t b) bs submitted,
    )
