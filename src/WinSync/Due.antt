-- ===== src/WinSync/Due.antt =====
-- windows/src/playback/sync.rs: what `advance` presents and when it wants to be called again.
use moq_cast_desktop.Base.{
  ℕ, ◌+◌, ◌≡◌, ◌≢◌, ◌≤◌, ◌<◌, refl, ap, ◌++◌, ◌⊎◌, inl, inr, length, List, [], ◌∷◌, Option, none,
  some, arith, min, saturating_add, saturating_sub, duration_max,
}
use moq_cast_desktop.WinSync.Audio.{AudioAnchor, position_at, expires}
use moq_cast_desktop.WinSync.Loops.{select_inv, Stopped}
use moq_cast_desktop.WinSync.Video.{
  Queued, Verdict, expire, late, Loop, inc, supersede, VideoScheduler, Stats, Advance, wait,
  present, judge, against_audio, select, advance, write_back, frame_value, next_deadline,
  audio_position, max_video_residence, video_late_limit, video_early_tolerance,
}

-- The frame may be shown: it is fresh, and against an audio position it is at most 100 ms late and
-- at most 2 ms early.
abbrev pub InTime : Option ℕ → ℕ → Type 0
InTime none pts = Unit
InTime (some audio) pts = (audio ≤ pts + video_late_limit) × (pts ≤ audio + video_early_tolerance)

module _ {ℓ} {T : Type ℓ} where
  pub record IsTimely (audio : Option ℕ) (now : ℕ) (f : Queued T) : Type 0 where
    pub fresh : now < f.inserted + max_video_residence
    pub in_time : InTime audio f.pts

  judge-IsTimely :
      (audio : Option ℕ) (now : ℕ) (f : Queued T)
      → judge audio now f ≡ present
      → IsTimely audio now f
  unfolding judge against_audio saturating_add
  judge-IsTimely none now f h = record { fresh = ground arith; in_time = tt }
  judge-IsTimely (some audio) now f h = record {
    fresh = ground arith;
    in_time = (ground arith, ground arith);
  }

  -- A frame that waits is fresh, and early against the audio.
  judge-wait :
      (p now : ℕ) (f : Queued T)
      → judge (some p) now f ≡ wait
      → (now < f.inserted + max_video_residence) × (saturating_add p video_early_tolerance < f.pts)
  unfolding judge against_audio
  judge-wait p now f h = (ground arith, ground arith)

  -- Without an audio position no frame waits.
  judge-ne-wait : (now : ℕ) (f : Queued T) → judge none now f ≢ wait
  unfolding judge against_audio
  judge-ne-wait now f h = ground arith

  abbrev AllTimely : Option ℕ → ℕ → Option (Queued T) → Type 0
  AllTimely audio now none = Unit
  AllTimely audio now (some f) = IsTimely audio now f

  select-outcome :
      (s : VideoScheduler T) (audio : Option ℕ) (now : ℕ)
      → let l = select audio now s.queue none s.stats in
        AllTimely audio now l.due × Stopped audio now l.queue
  select-outcome s audio now =
      select_inv audio now (λ _ due _. AllTimely audio now due) (λ f q due _ _ h. h)
        (λ f q due _ _ h. h) (λ f q due _ e h. judge-IsTimely audio now f e) s.queue none s.stats tt

module _ {ℓ} {T : Type ℓ} where
  -- The frame is one of the queue's.
  abbrev pub Among : List (Queued T) → Queued T → Type ℓ
  Among q f = (before : List (Queued T)) × (after : List (Queued T)) × (q ≡ before ++ (f ∷ after))

  -- What is due in the end is one of the frames, or what was due before.
  abbrev pub DueFrom : List (Queued T) → Option (Queued T) → Option (Queued T) → Type ℓ
  DueFrom q due none = due ≡ none
  DueFrom q due (some f) = (due ≡ some f) ⊎ Among q f

  DueFrom-cons :
      (g : Queued T) (q : List (Queued T)) (due o : Option (Queued T))
      → DueFrom q due o
      → DueFrom (g ∷ q) due o
  DueFrom-cons g q due none h = h
  DueFrom-cons g q due (some f) (inl e) = inl e
  DueFrom-cons g q due (some f) (inr (before, after, e)) = inr (g ∷ before, after, ap (◌∷◌ g) e)

  DueFrom-present :
      (g : Queued T) (q : List (Queued T)) (due o : Option (Queued T))
      → DueFrom q (some g) o
      → DueFrom (g ∷ q) due o
  DueFrom-present g q due none h = cc h
  DueFrom-present g q due (some f) (inl e) = inr ([], q, cc e)
  DueFrom-present g q due (some f) (inr (before, after, e)) = inr (g ∷ before, after, ap (◌∷◌ g) e)

  select-DueFrom :
      (audio : Option ℕ) (now : ℕ) (q : List (Queued T)) (due : Option (Queued T)) (stats : Stats)
      → DueFrom q due (select audio now q due stats).due
  unfolding select
  select-DueFrom audio now [] due stats = kept due
    where
      kept : (o : Option (Queued T)) → DueFrom [] o o
      kept none = refl
      kept (some f) = inl refl
  select-DueFrom audio now (g ∷ q) due stats =
      go (judge audio now g)
        (select-DueFrom audio now q due (record stats { expired = inc stats.expired }))
        (select-DueFrom audio now q due (record stats { late = inc stats.late }))
        (select-DueFrom audio now q (some g) (supersede due stats))
    where
      kept : (o : Option (Queued T)) → DueFrom (g ∷ q) o o
      kept none = refl
      kept (some f) = inl refl

      after_expire : Loop T
      after_expire = select audio now q due (record stats { expired = inc stats.expired })

      after_late : Loop T
      after_late = select audio now q due (record stats { late = inc stats.late })

      after_present : Loop T
      after_present = select audio now q (some g) (supersede due stats)

      go :
          (v : Verdict)
          → DueFrom q due after_expire.due
          → DueFrom q due after_late.due
          → DueFrom q (some g) after_present.due
          → DueFrom
              (g ∷ q)
              due
              (elim v as (λ x. Loop T) [
                | expire ↦ after_expire
                | late ↦ after_late
                | wait ↦ record { queue = g ∷ q; due = due; stats = stats }
                | present ↦ after_present
              ]).due
      go expire h k l = DueFrom-cons g q due after_expire.due h
      go late h k l = DueFrom-cons g q due after_late.due k
      go wait h k l = kept due
      go present h k l = DueFrom-present g q due after_present.due l

-- A position that the clock gives is not yet at the end of what was buffered, and the clock does not
-- expire before now.
position_at-bounds :
    (a : AudioAnchor) (now p : ℕ)
    → a.end ≤ duration_max
    → position_at a now ≡ some p
    → now < expires a
unfolding position_at expires saturating_add
position_at-bounds a now p fits h = ground arith

-- The anchor's end is a duration.
abbrev pub Fits : Option AudioAnchor → Type 0
Fits none = Unit
Fits (some a) = a.end ≤ duration_max

abbrev pub BoundBy : Option AudioAnchor → ℕ → Type 0
BoundBy none t = Unit
BoundBy (some a) t = t ≤ expires a

module _ {ℓ} {T : Type ℓ} where
  -- What is presented: nothing, or a frame in time, which is now the one presented last.
  abbrev pub Presents :
      Option ℕ → ℕ → List (Queued T) → Option (Queued T) → VideoScheduler T → Advance T → Type ℓ
  Presents audio now queue none s' r = (r.frame ≡ none)
  Presents audio now queue (some f) s' r =
      Among queue f
      × (r.frame ≡ some f.value)
      × (s'.last_presented ≡ some f.pts)
      × IsTimely audio now f

  write_back-Presents :
      (last : Option ℕ) (audio : Option ℕ) (now : ℕ) (queue q : List (Queued T))
      (due : Option (Queued T)) (stats : Stats) (r : Advance T)
      → r.frame ≡ frame_value due
      → AllTimely audio now due
      → DueFrom queue none due
      → Presents audio now queue due (write_back last q due stats) r
  write_back-Presents last audio now queue q none stats r e t from = e
  write_back-Presents last audio now queue q (some f) stats r e t (inl e') = cc e'
  write_back-Presents last audio now queue q (some f) stats r e t (inr among) = (among, e, refl, t)

  -- When `advance` wants to be called again. With no audio position the queue is drained and there
  -- is no deadline. With one there is a deadline exactly if frames are left, and it lies ahead, at
  -- most at the time when the next frame or the clock expires.
  abbrev pub Schedules : Option AudioAnchor → Option ℕ → ℕ → List (Queued T) → Option ℕ → Type 0
  Schedules anchor none now q d = (length q ≡ 0) × (d ≡ none)
  Schedules anchor (some p) now [] d = d ≡ none
  Schedules anchor (some p) now (f ∷ q) d =
      (t : ℕ) × (d ≡ some t) × (now < t) × (t ≤ f.inserted + max_video_residence) × BoundBy anchor t

  next_deadline-Schedules :
      (anchor : Option AudioAnchor) (audio : Option ℕ) (now : ℕ) (q : List (Queued T))
      → Fits anchor
      → audio_position anchor now ≡ audio
      → Stopped audio now q
      → Schedules anchor audio now q (next_deadline q audio anchor now)
  unfolding next_deadline
  next_deadline-Schedules anchor none now [] fits e st = (refl, refl)
  next_deadline-Schedules anchor none now (f ∷ q) fits e st = absurd (judge-ne-wait now f st)
  next_deadline-Schedules anchor (some p) now [] fits e st = refl
  next_deadline-Schedules none (some p) now (f ∷ q) fits e st = cc
  next_deadline-Schedules (some a) (some p) now (f ∷ q) fits e st =
      let (fresh, early) = judge-wait p now f st in
      let alive = position_at-bounds a now p fits e in
      (
        now
            + min (saturating_sub f.pts (saturating_add p video_early_tolerance))
                (saturating_sub (min (f.inserted + max_video_residence) (expires a)) now),
        refl,
        omega arith,
        omega arith,
        omega arith,
      )

  write_back-queue :
      (last : Option ℕ) (q : List (Queued T)) (due : Option (Queued T)) (stats : Stats)
      → (write_back last q due stats).queue ≡ q
  write_back-queue last q none stats = refl
  write_back-queue last q (some f) stats = refl

  -- One call of `advance`, whatever the queue holds, with an anchor whose end is a duration: a frame
  -- that it returns is one of the queue's, was put into the queue less than 250 ms ago and, against an
  -- audio position, is at most 100 ms late and 2 ms early, and is the one presented last from then on. With no audio position the queue is drained and no deadline is set;
  -- with one, a deadline is set exactly if frames are left, and it lies strictly ahead, no later than
  -- the first frame's or the clock's expiry.
  pub advance_timely :
      (s : VideoScheduler T) (anchor : Option AudioAnchor) (now : ℕ)
      → Fits anchor
      → let (s', r) = advance s anchor now in
        let audio = audio_position anchor now in
        ((due : Option (Queued T)) × Presents audio now s.queue due s' r)
        × Schedules anchor audio now s'.queue r.deadline
  unfolding advance
  advance_timely s anchor now fits =
      let audio = audio_position anchor now in
      let l = select audio now s.queue none s.stats in
      let (timely, stopped) = select-outcome s audio now in
      (
        (
          l.due,
          write_back-Presents s.last_presented audio now s.queue l.queue l.due l.stats _ refl timely
              (select-DueFrom audio now s.queue none s.stats),
        ),
        rw (write_back-queue s.last_presented l.queue l.due l.stats)
            (next_deadline-Schedules anchor audio now l.queue fits refl stopped),
      )
