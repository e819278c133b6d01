-- ===== src/MacSync/Video.antt =====
-- mac/src/playback/sync.rs: the video scheduler.
use moq_cast_desktop.Base.{
  ℕ, ◌+◌, Bool, true, false, List, [], ◌∷◌, Option, none, some, length, ltb, leb, ◌==◌,
  if◌then◌else◌, is_some, is_some_and, millis, saturating_add, saturating_sub, checked_add,
}
use moq_cast_desktop.LinuxSync.Clock.{Clock, now_at}

abbrev pub max_video_frames : ℕ
max_video_frames = 30

abbrev pub video_fallback_latency_ceiling : ℕ
video_fallback_latency_ceiling = millis 33

abbrev pub video_early_tolerance : ℕ
video_early_tolerance = millis 2

pub record Scheduled {ℓ} (T : Type ℓ) : Type ℓ where
  pub timestamp : ℕ
  pub value : T

pub data ClockSource : Type 0 where
  audio_source video_fallback : ClockSource

pub record VideoScheduler {ℓ} (T : Type ℓ) : Type ℓ where
  pub queue : List (Scheduled T)
  pub fallback : Option Clock
  pub source : Option ClockSource
  pub last_presented : Option ℕ

pub record VideoAdvance {ℓ} (T : Type ℓ) : Type ℓ where
  pub due : Option T
  pub deadline : Option ℕ
  pub source_changed : Option ClockSource
  pub skipped_due : ℕ

pub record VideoPush {ℓ} (T : Type ℓ) : Type ℓ where
  pub dropped : Option T
  pub accepted : Bool
  pub fallback_reanchored : Bool

abbrev pub is_due : Option ℕ → ℕ → Bool
is_due none timestamp = true
is_due (some now) timestamp = leb timestamp (saturating_add now video_early_tolerance)

abbrev pub clock_now : Option Clock → ℕ → Option ℕ
clock_now none wall = none
clock_now (some clock) wall = some (now_at clock wall)

abbrev pub or_clock : Option Clock → Option Clock → Option Clock
or_clock none fallback = fallback
or_clock (some audio) fallback = some audio

abbrev pub source_of : Option Clock → ClockSource
source_of none = video_fallback
source_of (some _) = audio_source

-- `self.source != Some(source)`, negated
abbrev pub same_source : Option ClockSource → ClockSource → Bool
same_source (some audio_source) audio_source = true
same_source (some video_fallback) video_fallback = true
same_source _ _ = false

-- `reanchor_fallback`: the fallback clock, and whether it was moved.
unfoldable pub reanchor_fallback : Option Clock → ℕ → ℕ → Option Clock × Bool
reanchor_fallback none timestamp wall = (none, false)
reanchor_fallback (some fallback) timestamp wall =
    if leb timestamp (saturating_add (now_at fallback wall) video_fallback_latency_ceiling)
    then (some fallback, false)
    else (
      some
          (record { media = saturating_sub timestamp video_fallback_latency_ceiling; wall = wall }),
      true,
    )

module _ {ℓ} {T : Type ℓ} where
  abbrev pub new_scheduler : VideoScheduler T
  new_scheduler = record { queue = []; fallback = none; source = none; last_presented = none }

  -- The frame is put before the first one with a later timestamp, or at the end.
  unfoldable pub insert_frame : Scheduled T → List (Scheduled T) → List (Scheduled T)
  insert_frame frame [] = frame ∷ []
  insert_frame frame (g ∷ q) =
      if ltb frame.timestamp g.timestamp then frame ∷ (g ∷ q) else g ∷ insert_frame frame q

  abbrev pub refused : T → VideoPush T
  refused value = record { dropped = some value; accepted = false; fallback_reanchored = false }

  -- The end of `push`, with the queue that the frame enters and the frame that left it.
  unfoldable pub accept_frame :
      VideoScheduler T → List (Scheduled T) → Option T → ℕ → T → ℕ → VideoScheduler T × VideoPush T
  unfolding insert_frame reanchor_fallback
  accept_frame s q dropped timestamp value wall =
      let (fallback, reanchored) = reanchor_fallback s.fallback timestamp wall in
      (
        record s {
          queue = insert_frame (record { timestamp = timestamp; value = value }) q;
          fallback = fallback;
        },
        record { dropped = dropped; accepted = true; fallback_reanchored = reanchored },
      )

  -- `push` into a full queue: by its first frame. (A full queue has one.)
  unfoldable pub push_full :
      VideoScheduler T → List (Scheduled T) → ℕ → T → ℕ → VideoScheduler T × VideoPush T
  unfolding accept_frame
  push_full s [] timestamp value wall = (s, refused value)
  push_full s (oldest ∷ q) timestamp value wall =
      if leb timestamp oldest.timestamp
      then (s, refused value)
      else accept_frame s q (some oldest.value) timestamp value wall

  unfoldable pub push : VideoScheduler T → ℕ → T → ℕ → VideoScheduler T × VideoPush T
  unfolding push_full
  push s timestamp value wall =
      if is_some_and (λ presented. leb timestamp presented) s.last_presented
      then (s, refused value)
      else if length s.queue == max_video_frames
      then push_full s s.queue timestamp value wall
      else accept_frame s s.queue none timestamp value wall

  unfoldable pub reset : VideoScheduler T → VideoScheduler T
  reset s = record { queue = []; fallback = none; source = none; last_presented = none }

  unfoldable pub reset_fallback : VideoScheduler T → VideoScheduler T
  reset_fallback s = record s { fallback = none }

  -- A change of the clock's source forgets the fallback clock, and is reported.
  unfoldable pub switch_source :
      VideoScheduler T → ClockSource → VideoScheduler T × Option ClockSource
  switch_source s source =
      if same_source s.source source
      then (s, none)
      else (record s { fallback = none; source = some source }, some source)

  abbrev pub front_clock : List (Scheduled T) → ℕ → Option Clock
  front_clock [] wall = none
  front_clock (frame ∷ _) wall = some (record { media = frame.timestamp; wall = wall })

  unfoldable pub start_fallback : VideoScheduler T → Option Clock → ℕ → VideoScheduler T
  start_fallback s (some audio) wall = s
  start_fallback s none wall =
      if is_some s.fallback then s else record s { fallback = front_clock s.queue wall }

-- The variables of the loop of `advance`.
pub record Loop {ℓ} (T : Type ℓ) : Type ℓ where
  pub queue : List (Scheduled T)
  pub last_presented : Option ℕ
  pub due : Option T
  pub skipped_due : ℕ

module _ {ℓ} {T : Type ℓ} where
  -- The `while` loop of `advance`. At most the thirty frames of the queue are skipped.
  unfoldable pub drain : Option ℕ → List (Scheduled T) → Option ℕ → Option T → ℕ → Loop T
  drain now [] last due skipped = record {
    queue = [];
    last_presented = last;
    due = due;
    skipped_due = skipped;
  }
  drain now (frame ∷ q) last due skipped =
      if is_due now frame.timestamp
      then drain now q (some frame.timestamp) (some frame.value)
          (if is_some due then skipped + 1 else skipped)
      else record { queue = frame ∷ q; last_presented = last; due = due; skipped_due = skipped }

  unfoldable pub next_deadline : Option Clock → List (Scheduled T) → ℕ → Option ℕ
  next_deadline (some clock) (next ∷ _) wall =
      checked_add wall (saturating_sub next.timestamp (now_at clock wall))
  next_deadline _ _ wall = none

  -- The state with which the loop of `advance` starts.
  unfoldable pub prepare : VideoScheduler T → Option Clock → ℕ → VideoScheduler T
  unfolding switch_source start_fallback
  prepare s audio wall = start_fallback (switch_source s (source_of audio)).0 audio wall

  -- The loop that one call of `advance` runs.
  unfoldable pub run_drain : VideoScheduler T → Option Clock → ℕ → Loop T
  unfolding prepare drain
  run_drain s audio wall =
      let p = prepare s audio wall in
      drain (clock_now (or_clock audio p.fallback) wall) p.queue p.last_presented none 0

  unfoldable pub advance : VideoScheduler T → Option Clock → ℕ → VideoScheduler T × VideoAdvance T
  unfolding run_drain next_deadline
  advance s audio wall =
      let p = prepare s audio wall in
      let l = run_drain s audio wall in
      (
        record p { queue = l.queue; last_presented = l.last_presented },
        record {
          due = l.due;
          deadline = next_deadline (or_clock audio p.fallback) l.queue wall;
          source_changed = (switch_source s (source_of audio)).1;
          skipped_due = l.skipped_due;
        },
      )
