-- ===== src/LinuxSync/Pacing.antt =====
-- linux/src/runtime/playback_sync.rs: what `advance` takes from the queue and when it wants to be
-- called again.
use mathlib.Core.Path.{subst}
use moq_cast_desktop.Base.{
  ℕ, ◌+◌, ◌-◌, ◌≡◌, ◌≤◌, ◌<◌, refl, ap, true, false, List, [], ◌∷◌, ◌++◌, Option, none, some, arith,
  All, length, length-append, leb, is_some, Bool-cases, inl, inr, ◌⊎◌, duration_max, saturating_add,
  instant_max, checked_add, if◌then◌else◌,
}
use moq_cast_desktop.LinuxSync.Clock.{Clock, now_at}
use moq_cast_desktop.LinuxSync.Video.{
  Scheduled, VideoScheduler, push, is_due, clock_now, or_clock, drain, next_deadline, prepare,
  advance, max_video_frames, video_early_tolerance, switch_source, start_fallback,
}

module _ {ℓ} {T : Type ℓ} where
  -- The value of the last frame, or what was there before.
  abbrev pub last_value : List (Scheduled T) → Option T → Option T
  last_value [] due = due
  last_value (f ∷ q) due = last_value q (some f.value)

  -- The queue is empty, or its first frame is not due.
  abbrev pub Waits : Option ℕ → List (Scheduled T) → Type 0
  Waits now [] = Unit
  Waits now (f ∷ q) = is_due now f.timestamp ≡ false

  -- The queue is what is taken, then what is left: all that is taken is due, the last of it is
  -- returned, and what is left waits.
  pub record Drains (now : Option ℕ) (q : List (Scheduled T)) (due : Option T)
      (r : List (Scheduled T) × Option T) : Type ℓ where
    pub taken : List (Scheduled T)
    pub splits : q ≡ taken ++ r.0
    pub all_due : All (λ f. is_due now f.timestamp ≡ true) taken
    pub returns : r.1 ≡ last_value taken due
    pub waits : Waits now r.0

  drain-Drains :
      (now : Option ℕ) (q : List (Scheduled T)) (due : Option T)
      → Drains now q due (drain now q due)
  unfolding drain
  drain-Drains now [] due = record {
    taken = [];
    splits = refl;
    all_due = tt;
    returns = refl;
    waits = tt;
  }
  drain-Drains now (f ∷ q) due = elim (Bool-cases (is_due now f.timestamp)) [
    | inl e ↦
        let rest = drain-Drains now q (some f.value) in
        rw (e, drain)
          (record {
            taken = f ∷ rest.taken;
            splits = ap (◌∷◌ f) rest.splits;
            all_due = (e, rest.all_due);
            returns = rest.returns;
            waits = rest.waits;
          })
    | inr e ↦
        rw (e, drain)
          (record { taken = []; splits = refl; all_due = tt; returns = refl; waits = e })
  ]

  prepare-queue :
      (s : VideoScheduler T) (audio : Option Clock) (wall : ℕ)
      → (prepare s audio wall).queue ≡ s.queue
  unfolding prepare switch_source start_fallback
  prepare-queue s none wall = ground arith
  prepare-queue s (some audio) wall = ground arith

  -- With frames in the queue there is a clock.
  prepare-clock :
      (s : VideoScheduler T) (audio : Option Clock) (wall : ℕ) (f : Scheduled T)
      (q : List (Scheduled T))
      → s.queue ≡ f ∷ q
      → is_some (or_clock audio (prepare s audio wall).fallback) ≡ true
  unfolding prepare switch_source start_fallback
  prepare-clock s none wall f q e = ground arith
  prepare-clock s (some audio) wall f q e = refl

  -- A timestamp is a duration.
  abbrev pub AllFit : List (Scheduled T) → Type 0
  AllFit q = All (λ f. f.timestamp ≤ duration_max) q

  -- The deadline by the queue that is left: none if it is empty. Else the clock is more than the
  -- tolerance before the first frame's time, and the deadline lies as far ahead as the frame is from
  -- the clock, as long as that is an instant.
  abbrev pub Wakes : Option ℕ → ℕ → List (Scheduled T) → Option ℕ → Type 0
  Wakes now wall [] d = d ≡ none
  Wakes now wall (f ∷ q) d =
      (n : ℕ) × (now ≡ some n)
      × (n + video_early_tolerance < f.timestamp)
      × (d ≡ (
          if leb (wall + (f.timestamp - n)) instant_max
          then some (wall + (f.timestamp - n))
          else none))

  next_deadline-Wakes :
      (clock : Option Clock) (q : List (Scheduled T)) (wall : ℕ)
      → AllFit q
      → Waits (clock_now clock wall) q
      → Wakes (clock_now clock wall) wall q (next_deadline clock q wall)
  unfolding next_deadline checked_add saturating_add
  next_deadline-Wakes none [] wall fit w = refl
  next_deadline-Wakes none (f ∷ q) wall fit w = cc
  next_deadline-Wakes (some c) [] wall fit w = refl
  next_deadline-Wakes (some c) (f ∷ q) wall fit w =
      (now_at c wall, refl, ground (arith, fit.0, w), refl)

  AllFit-append : (xs ys : List (Scheduled T)) → AllFit (xs ++ ys) → AllFit ys
  AllFit-append [] ys h = h
  AllFit-append (f ∷ xs) ys h = AllFit-append xs ys h.1

  -- One call of advance: by the clock of the call (the audio's, else the fallback), which there is
  -- if a frame is queued, it takes the frames that are due from the front of the queue, up to the
  -- first that is not, and returns the last of them. If no frame is left there is no deadline; else
  -- the clock is more than the tolerance of 2 ms before the first frame that is left, and the
  -- deadline lies as far ahead of now as that frame lies ahead of the clock, or is none if that is
  -- past the last instant. The timestamps are durations.
  pub advance_lem :
      (s : VideoScheduler T) (audio : Option Clock) (wall : ℕ)
      → AllFit s.queue
      → let (s', r) = advance s audio wall in
        let clock = or_clock audio (prepare s audio wall).fallback in
        Drains (clock_now clock wall) s.queue none (s'.queue, r.due)
        × Wakes (clock_now clock wall) wall s'.queue r.deadline
        × ((is_some clock ≡ true) ⊎ (s.queue ≡ []))
  unfolding advance
  advance_lem s audio wall fit =
      let p = prepare s audio wall in
      let clock = or_clock audio p.fallback in
      rw (prepare-queue s audio wall) (
        let drained = drain-Drains (clock_now clock wall) s.queue none in
        (
          drained,
          next_deadline-Wakes clock (drain (clock_now clock wall) s.queue none).0 wall
              (AllFit-append drained.taken _ (subst AllFit drained.splits fit)) drained.waits,
          clocked s.queue refl,
        ))
    where
      clocked :
          (q : List (Scheduled T))
          → s.queue ≡ q
          → (is_some (or_clock audio (prepare s audio wall).fallback) ≡ true) ⊎ (s.queue ≡ [])
      clocked [] e = inr e
      clocked (f ∷ q) e = inl (prepare-clock s audio wall f q e)

  is_some-drain :
      (now : Option ℕ) (q : List (Scheduled T)) (due : Option T)
      → is_some due ≡ true
      → is_some (drain now q due).1 ≡ true
  unfolding drain
  is_some-drain now [] due h = h
  is_some-drain now (f ∷ q) due h = ground (arith, is_some-drain now q (some f.value) refl)

  prepare-fresh :
      (s : VideoScheduler T) (wall : ℕ) (f : Scheduled T) (q : List (Scheduled T))
      → s.queue ≡ f ∷ q
      → (s.fallback ≡ none) ⊎ (s.using_audio ≡ true)
      → (prepare s none wall).fallback ≡ some (record { media = f.timestamp; wall = wall })
  unfolding prepare switch_source start_fallback
  prepare-fresh s wall f q e fresh = ground arith

  due_at_once :
      (f : Scheduled T) (wall : ℕ)
      → f.timestamp ≤ duration_max
      → is_due (some (now_at (record { media = f.timestamp; wall = wall }) wall)) f.timestamp ≡ true
  unfolding now_at saturating_add
  due_at_once f wall fit = ground arith

  now_at-start :
      (f : Scheduled T) (wall : ℕ)
      → f.timestamp ≤ duration_max
      → now_at (record { media = f.timestamp; wall = wall }) wall ≡ f.timestamp
  unfolding now_at saturating_add
  now_at-start f wall fit = ground arith

  -- Without audio a fallback clock that has to be started afresh starts at the first frame of the
  -- queue, whose timestamp is a duration, and at the time of the call; the frames due by that
  -- frame's timestamp are taken, and one is presented.
  pub fallback_presents :
      (s : VideoScheduler T) (wall : ℕ) (f : Scheduled T) (q : List (Scheduled T))
      → s.queue ≡ f ∷ q
      → f.timestamp ≤ duration_max
      → (s.fallback ≡ none) ⊎ (s.using_audio ≡ true)
      → let (s', r) = advance s none wall in
        (s'.fallback ≡ some (record { media = f.timestamp; wall = wall }))
        × Drains (some f.timestamp) s.queue none (s'.queue, r.due)
        × (is_some r.due ≡ true)
  unfolding advance drain
  fallback_presents s wall f q e fit fresh =
      let set = prepare-fresh s wall f q e fresh in
      let starts = now_at-start f wall fit in
      (
        set,
        rw (set, prepare-queue s none wall, starts) (drain-Drains (some f.timestamp) s.queue none),
        rw (set, prepare-queue s none wall)
            (rw e (
              rw (due_at_once f wall fit) (
                is_some-drain (some (now_at (record { media = f.timestamp; wall = wall }) wall)) q
                  (some f.value) refl))),
      )

  -- A queue of at most thirty frames stays one. A frame is taken exactly if one more would still be
  -- at most thirty, and is then the last of the queue; else nothing changes.
  pub push-capacity :
      (s : VideoScheduler T) (timestamp : ℕ) (value : T)
      → length s.queue ≤ max_video_frames
      → (length (push s timestamp value).0.queue ≤ max_video_frames)
        × ((push s timestamp value).1 ≡ false → (push s timestamp value).0 ≡ s)
        × ((push s timestamp value).1 ≡ true
            → (push s timestamp value).0.queue
              ≡ s.queue ++ (record { timestamp = timestamp; value = value } ∷ []))
        × ((push s timestamp value).1 ≡ leb (length s.queue + 1) max_video_frames)
  unfolding push
  push-capacity s timestamp value h =
      let frame : Scheduled T = record { timestamp = timestamp; value = value } in
      (ground (arith, length-append s.queue (frame ∷ [])), ground arith, ground arith, ground arith)
