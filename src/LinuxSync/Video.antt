-- ===== src/LinuxSync/Video.antt =====
-- linux/src/runtime/playback_sync.rs: the video scheduler.
use moq_cast_desktop.Base.{
  ℕ, Bool, true, false, not, List, [], ◌∷◌, ◌++◌, Option, none, some, length, ltb, leb,
  if◌then◌else◌, is_some, millis, saturating_add, saturating_sub, checked_add,
}
use moq_cast_desktop.LinuxSync.Clock.{Clock, now_at}

abbrev pub max_video_frames : ℕ
max_video_frames = 30

abbrev pub video_early_tolerance : ℕ
video_early_tolerance = millis 2

pub record Scheduled {ℓ} (T : Type ℓ) : Type ℓ where
  pub timestamp : ℕ
  pub value : T

pub record VideoScheduler {ℓ} (T : Type ℓ) : Type ℓ where
  pub queue : List (Scheduled T)
  pub fallback : Option Clock
  pub using_audio : Bool

pub record VideoAdvance {ℓ} (T : Type ℓ) : Type ℓ where
  pub due : Option T
  pub deadline : Option ℕ

-- The test of the loop of `advance`: with no clock every frame is due.
abbrev pub is_due : Option ℕ → ℕ → Bool
is_due none timestamp = true
is_due (some now) timestamp = leb timestamp (saturating_add now video_early_tolerance)

-- `clock.map(|clock| clock.now_at(wall))`
abbrev pub clock_now : Option Clock → ℕ → Option ℕ
clock_now none wall = none
clock_now (some clock) wall = some (now_at clock wall)

-- `audio.or(self.fallback)`
abbrev pub or_clock : Option Clock → Option Clock → Option Clock
or_clock none fallback = fallback
or_clock (some audio) fallback = some audio

-- `a != b` of two flags
abbrev pub differs : Bool → Bool → Bool
differs true b = not b
differs false b = b

module _ {ℓ} {T : Type ℓ} where
  abbrev pub new_scheduler : VideoScheduler T
  new_scheduler = record { queue = []; fallback = none; using_audio = false }

  unfoldable pub has_capacity : VideoScheduler T → Bool
  has_capacity s = ltb (length s.queue) max_video_frames

  -- `Err(value)` hands the frame back: the flag is false.
  unfoldable pub push : VideoScheduler T → ℕ → T → VideoScheduler T × Bool
  unfolding has_capacity
  push s timestamp value = if not (has_capacity s) then (s, false) else (
    record s { queue = s.queue ++ (record { timestamp = timestamp; value = value } ∷ []) },
    true,
  )

  unfoldable pub reset : VideoScheduler T → VideoScheduler T
  reset s = record s { queue = []; fallback = none }

  unfoldable pub reset_fallback : VideoScheduler T → VideoScheduler T
  reset_fallback s = record s { fallback = none }

  -- The first `if` of `advance`: a change of the clock's source forgets the fallback clock.
  unfoldable pub switch_source : VideoScheduler T → Bool → VideoScheduler T
  switch_source s has_audio =
      if differs has_audio s.using_audio
      then record s { fallback = none; using_audio = has_audio }
      else s

  -- A clock that starts at the front frame.
  abbrev pub front_clock : List (Scheduled T) → ℕ → Option Clock
  front_clock [] wall = none
  front_clock (frame ∷ _) wall = some (record { media = frame.timestamp; wall = wall })

  -- The second `if` of `advance`: without audio the fallback clock starts at the front frame.
  unfoldable pub start_fallback : VideoScheduler T → Option Clock → ℕ → VideoScheduler T
  start_fallback s (some audio) wall = s
  start_fallback s none wall =
      if is_some s.fallback then s else record s { fallback = front_clock s.queue wall }

  -- The `while` loop of `advance`: the queue that is left, and the last frame that was due.
  unfoldable pub drain : Option ℕ → List (Scheduled T) → Option T → List (Scheduled T) × Option T
  drain now [] due = ([], due)
  drain now (frame ∷ q) due =
      if is_due now frame.timestamp then drain now q (some frame.value) else (frame ∷ q, due)

  unfoldable pub next_deadline : Option Clock → List (Scheduled T) → ℕ → Option ℕ
  next_deadline (some clock) (next ∷ _) wall =
      checked_add wall (saturating_sub next.timestamp (now_at clock wall))
  next_deadline _ _ wall = none

  -- The state with which the loop of `advance` starts.
  unfoldable pub prepare : VideoScheduler T → Option Clock → ℕ → VideoScheduler T
  unfolding switch_source start_fallback
  prepare s audio wall = start_fallback (switch_source s (is_some audio)) audio wall

  unfoldable pub advance : VideoScheduler T → Option Clock → ℕ → VideoScheduler T × VideoAdvance T
  unfolding prepare drain next_deadline
  advance s audio wall =
      let s' = prepare s audio wall in
      let clock = or_clock audio s'.fallback in
      let (queue, due) = drain (clock_now clock wall) s'.queue none in
      (record s' { queue = queue }, record { due = due; deadline = next_deadline clock queue wall })
