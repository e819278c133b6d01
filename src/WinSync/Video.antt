-- ===== src/WinSync/Video.antt =====
-- windows/src/playback/sync.rs: the video scheduler.
use moq_cast_desktop.Base.{
  ℕ, ◌+◌, ◌/◌, ◌%◌, ◌^◌, min, max, Bool, ◌||◌, List, [], ◌∷◌, ◌++◌, Option, none, some, length, ltb,
  leb, if◌then◌else◌, is_some, is_some_and, millis, saturating_add, saturating_sub,
}
use moq_cast_desktop.Base.Int.{ℤ, sub_ℕ}
use moq_cast_desktop.WinSync.Audio.{AudioAnchor, position_at, expires}

abbrev pub max_video_frames : ℕ
max_video_frames = 8

abbrev pub max_video_residence : ℕ
max_video_residence = millis 250

abbrev pub video_late_limit : ℕ
video_late_limit = millis 100

abbrev pub video_early_tolerance : ℕ
video_early_tolerance = millis 2

pub record Queued {ℓ} (T : Type ℓ) : Type ℓ where
  pub pts : ℕ
  pub inserted : ℕ
  pub value : T

-- `peak_queue` is a `usize`, the others are `u64` counters.
pub record Stats : Type 0 where
  pub selected : ℕ
  pub late : ℕ
  pub superseded : ℕ
  pub capacity : ℕ
  pub expired : ℕ
  pub nonmonotonic : ℕ
  pub resets : ℕ
  pub peak_queue : ℕ

abbrev pub new_stats : Stats
new_stats = record {
  selected = 0;
  late = 0;
  superseded = 0;
  capacity = 0;
  expired = 0;
  nonmonotonic = 0;
  resets = 0;
  peak_queue = 0;
}

-- `+= 1` on a `u64`
abbrev pub inc : ℕ → ℕ
inc n = (n + 1) % 2 ^ 64

pub record VideoScheduler {ℓ} (T : Type ℓ) : Type ℓ where
  pub queue : List (Queued T)
  pub last_presented : Option ℕ
  pub stats : Stats

pub record Advance {ℓ} (T : Type ℓ) : Type ℓ where
  pub frame : Option T
  pub deadline : Option ℕ
  pub audio_master : Bool
  pub delta_us : Option ℤ

-- What the loop of `advance` does with the frame at the front.
pub data Verdict : Type 0 where
  expire late wait present : Verdict

-- The tests of the loop's body, in their order.
unfoldable pub against_audio : Option ℕ → ℕ → Verdict
against_audio none pts = present
against_audio (some audio) pts =
    if ltb video_late_limit (saturating_sub audio pts)
    then late
    else if ltb (saturating_add audio video_early_tolerance) pts
    then wait
    else present

-- The variables of the loop of `advance`: the queue that is left, the frame that is due, the
-- counters.
pub record Loop {ℓ} (T : Type ℓ) : Type ℓ where
  pub queue : List (Queued T)
  pub due : Option (Queued T)
  pub stats : Stats

-- `anchor.and_then(|clock| clock.position_at(now))`
abbrev pub audio_position : Option AudioAnchor → ℕ → Option ℕ
audio_position none now = none
audio_position (some clock) now = position_at clock now

module _ {ℓ} {T : Type ℓ} where
  abbrev pub new_scheduler : VideoScheduler T
  new_scheduler = record { queue = []; last_presented = none; stats = new_stats }

  -- `VecDeque::back`
  abbrev pub back : List (Queued T) → Option (Queued T)
  back [] = none
  back (f ∷ []) = some f
  back (f ∷ (g ∷ q)) = back (g ∷ q)

  -- The first test of `push`.
  abbrev pub is_nonmonotonic : VideoScheduler T → ℕ → Bool
  is_nonmonotonic s pts =
      is_some_and (λ last. leb pts last) s.last_presented
      || is_some_and (λ (last : Queued T). leb pts last.pts) (back s.queue)

  -- The `while` loop of `push`, with the counter that it raises.
  unfoldable pub make_room : ℕ → List (Queued T) → ℕ → List (Queued T) × ℕ
  make_room pts [] capacity = ([], capacity)
  make_room pts (first ∷ q) capacity =
      if leb max_video_frames (length (first ∷ q))
        || ltb max_video_residence (saturating_sub pts first.pts)
      then make_room pts q (inc capacity)
      else (first ∷ q, capacity)

  -- What `push` does with a frame that it takes.
  unfoldable pub enqueue : VideoScheduler T → ℕ → T → ℕ → VideoScheduler T
  enqueue s pts value now =
      let (kept, capacity) = make_room pts s.queue s.stats.capacity in
      let queue = kept ++ (record { pts = pts; inserted = now; value = value } ∷ []) in
      let stats = s.stats in
      record s {
        queue = queue;
        stats = record stats {
          capacity = capacity;
          peak_queue = max stats.peak_queue (length queue);
        };
      }

  unfoldable pub push : VideoScheduler T → ℕ → T → ℕ → VideoScheduler T
  unfolding enqueue
  push s pts value now =
      let stats = s.stats in
      if is_nonmonotonic s pts
      then record s { stats = record stats { nonmonotonic = inc stats.nonmonotonic } }
      else enqueue s pts value now

  unfoldable pub reset : VideoScheduler T → VideoScheduler T
  reset s =
      let stats = s.stats in
      record {
        queue = [];
        last_presented = none;
        stats = record stats { resets = inc stats.resets };
      }

  unfoldable pub take_stats : VideoScheduler T → VideoScheduler T × Stats
  take_stats s = (record s { stats = new_stats }, s.stats)

  unfoldable pub judge : Option ℕ → ℕ → Queued T → Verdict
  unfolding against_audio
  judge audio now front =
      if leb max_video_residence (saturating_sub now front.inserted)
      then expire
      else against_audio audio front.pts

  abbrev pub supersede : Option (Queued T) → Stats → Stats
  supersede due stats =
      if is_some due then record stats { superseded = inc stats.superseded } else stats

  -- The `while let` loop of `advance`.
  unfoldable pub select : Option ℕ → ℕ → List (Queued T) → Option (Queued T) → Stats → Loop T
  select audio now [] due stats = record { queue = []; due = due; stats = stats }
  select audio now (front ∷ q) due stats = elim (judge audio now front) [
    | expire ↦ select audio now q due (record stats { expired = inc stats.expired })
    | late ↦ select audio now q due (record stats { late = inc stats.late })
    | wait ↦ record { queue = front ∷ q; due = due; stats = stats }
    | present ↦ select audio now q (some front) (supersede due stats)
  ]

  -- `self.queue.front().and_then(…)`: when the next frame has to be looked at again.
  unfoldable pub next_deadline : List (Queued T) → Option ℕ → Option AudioAnchor → ℕ → Option ℕ
  next_deadline (next ∷ _) (some audio) (some anchor) now =
      let limit = min (next.inserted + max_video_residence) (expires anchor) in
      let early = saturating_sub next.pts (saturating_add audio video_early_tolerance) in
      some (now + min early (saturating_sub limit now))
  next_deadline _ _ _ now = none

  -- The frame's microseconds less the audio's.
  abbrev pub delta : Option (Queued T) → Option ℕ → Option ℤ
  delta (some frame) (some audio) = some (sub_ℕ (frame.pts / 1_000) (audio / 1_000))
  delta _ _ = none

  -- What `advance` writes back of a loop that has ended, given the frame that is due.
  abbrev pub write_back : Option ℕ → List (Queued T) → Option (Queued T) → Stats → VideoScheduler T
  write_back last queue none stats = record { queue = queue; last_presented = last; stats = stats }
  write_back last queue (some frame) stats = record {
    queue = queue;
    last_presented = some frame.pts;
    stats = record stats { selected = inc stats.selected };
  }

  abbrev pub frame_value : Option (Queued T) → Option T
  frame_value none = none
  frame_value (some frame) = some frame.value

  unfoldable pub advance : VideoScheduler T → Option AudioAnchor → ℕ → VideoScheduler T × Advance T
  unfolding select next_deadline
  advance s anchor now =
      let audio = audio_position anchor now in
      let l = select audio now s.queue none s.stats in
      (
        write_back s.last_presented l.queue l.due l.stats,
        record {
          frame = frame_value l.due;
          deadline = next_deadline l.queue audio anchor now;
          audio_master = is_some audio;
          delta_us = delta l.due audio;
        },
      )
