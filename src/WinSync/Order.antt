-- ===== src/WinSync/Order.antt =====
-- windows/src/playback/sync.rs: the scheduler's queue is bounded and in the order of presentation,
-- and frames are presented in that order.
use moq_cast_desktop.Base.{
  ℕ, ◌≡◌, ◌≤◌, ◌<◌, refl, false, List, [], ◌∷◌, ◌++◌, Option, none, some, arith, length,
  length-append, leb, is_some_and, Bool-cases, inl, inr,
}
use moq_cast_desktop.WinSync.Audio.{AudioAnchor}
use moq_cast_desktop.WinSync.Loops.{make_room-suffix, select_inv}
use moq_cast_desktop.WinSync.Video.{
  Queued, VideoScheduler, Stats, back, make_room, enqueue, push, reset, take_stats, select,
  write_back, advance, is_nonmonotonic, max_video_frames, inc, audio_position,
}

module _ {ℓ} {T : Type ℓ} where
  -- Every frame's timestamp is above the bound.
  abbrev pub Above : Option ℕ → List (Queued T) → Type 0
  Above none q = Unit
  Above (some p) [] = Unit
  Above (some p) (f ∷ q) = (p < f.pts) × Above (some p) q

  -- Timestamps strictly increase.
  abbrev pub IsOrdered : List (Queued T) → Type 0
  IsOrdered [] = Unit
  IsOrdered (f ∷ q) = Above (some f.pts) q × IsOrdered q

  -- Between two calls.
  pub record IsValid (s : VideoScheduler T) : Type 0 where
    pub ordered : IsOrdered s.queue
    pub upcoming : Above s.last_presented s.queue
    pub bounded : length s.queue ≤ max_video_frames

  Above-tail : (o : Option ℕ) (f : Queued T) (q : List (Queued T)) → Above o (f ∷ q) → Above o q
  Above-tail none f q a = tt
  Above-tail (some p) f q a = a.1

  Above-head : (p : ℕ) (f : Queued T) (q : List (Queued T)) → Above (some p) (f ∷ q) → p < f.pts
  Above-head p f q a = a.0

  make_room-length :
      (pts : ℕ) (q : List (Queued T)) (c : ℕ) → length (make_room pts q c).0 < max_video_frames
  unfolding make_room
  make_room-length pts [] c = omega arith
  make_room-length pts (f ∷ q) c = ground (arith, make_room-length pts q (inc c))

  -- No frame of the queue is at or above the timestamp, by the last one.
  abbrev TopsBack : ℕ → List (Queued T) → Type 0
  TopsBack pts q = is_some_and (λ (last : Queued T). leb pts last.pts) (back q) ≡ false

  TopsBack-tail :
      (pts : ℕ) (f : Queued T) (q : List (Queued T)) → TopsBack pts (f ∷ q) → TopsBack pts q
  TopsBack-tail pts f [] h = refl
  TopsBack-tail pts f (g ∷ q) h = h

  first_lt :
      (pts : ℕ) (f : Queued T) (q : List (Queued T))
      → IsOrdered (f ∷ q)
      → TopsBack pts (f ∷ q)
      → f.pts < pts
  first_lt pts f [] o h = ground arith
  first_lt pts f (g ∷ q) o h = omega (arith, first_lt pts g q o.1 h)

  append-Above :
      (o : Option ℕ) (q : List (Queued T)) (f : Queued T)
      → Above o q
      → is_some_and (λ last. leb f.pts last) o ≡ false
      → Above o (q ++ (f ∷ []))
  append-Above none q f a b = tt
  append-Above (some p) [] f a b = (ground arith, tt)
  append-Above (some p) (g ∷ q) f a b = (a.0, append-Above (some p) q f a.1 b)

  append-IsOrdered :
      (q : List (Queued T)) (f : Queued T)
      → IsOrdered q
      → TopsBack f.pts q
      → IsOrdered (q ++ (f ∷ []))
  append-IsOrdered [] f o h = (tt, tt)
  append-IsOrdered (g ∷ q) f o h = (
    append-Above (some g.pts) q f o.0 (not_leb (first_lt f.pts g q o h)),
    append-IsOrdered q f o.1 (TopsBack-tail f.pts g q h),
  )
    where
      not_leb : g.pts < f.pts → leb f.pts g.pts ≡ false
      not_leb h = ground arith

  pub enqueue-IsValid :
      (s : VideoScheduler T) (pts : ℕ) (value : T) (now : ℕ)
      → IsValid s
      → is_nonmonotonic s pts ≡ false
      → IsValid (enqueue s pts value now)
  unfolding enqueue
  enqueue-IsValid s pts value now v h =
      let frame : Queued T = record { pts = pts; inserted = now; value = value } in
      let kept = (make_room pts s.queue s.stats.capacity).0 in
      let c = s.stats.capacity in
      record {
        ordered =
            append-IsOrdered kept frame
              (make_room-suffix IsOrdered (λ f q o. o.1) pts s.queue c v.ordered)
              (make_room-suffix (TopsBack pts) (TopsBack-tail pts) pts s.queue c (tests s pts h).1);
        upcoming =
            append-Above s.last_presented kept frame
              (make_room-suffix (Above s.last_presented) (Above-tail s.last_presented) pts s.queue c
                v.upcoming)
              (tests s pts h).0;
        bounded = omega (arith, length-append kept (frame ∷ []), make_room-length pts s.queue c);
      }
    where
      tests :
          (s : VideoScheduler T) (pts : ℕ)
          → is_nonmonotonic s pts ≡ false
          → (is_some_and (λ last. leb pts last) s.last_presented ≡ false) × TopsBack pts s.queue
      tests s pts h = ground arith

  -- The new frame is taken only above everything that was queued or presented, and room is made
  -- for it first.
  pub push-IsValid :
      (s : VideoScheduler T) (pts : ℕ) (value : T) (now : ℕ)
      → IsValid s
      → IsValid (push s pts value now)
  unfolding push
  push-IsValid s pts value now v = elim (Bool-cases (is_nonmonotonic s pts)) [
    | inl e ↦
        rw (e, push) (record { ordered = v.ordered; upcoming = v.upcoming; bounded = v.bounded })
    | inr e ↦ rw (e, push) (enqueue-IsValid s pts value now v e)
  ]

  pub reset-IsValid : (s : VideoScheduler T) → IsValid (reset s)
  unfolding reset
  reset-IsValid s = record { ordered = tt; upcoming = tt; bounded = omega arith }

  -- The last frame that was let through: the one that is due, or the one presented before.
  abbrev latest_of : Option ℕ → Option (Queued T) → Option ℕ
  latest_of last none = last
  latest_of last (some f) = some f.pts

  -- The frame that is due comes after the one presented before.
  abbrev pub Follows : Option ℕ → Option (Queued T) → Type 0
  Follows last none = Unit
  Follows none (some f) = Unit
  Follows (some p) (some f) = p < f.pts

  record Selecting (last : Option ℕ) (n : ℕ) (q : List (Queued T)) (due : Option (Queued T))
      : Type 0 where
    ordered : IsOrdered q
    upcoming : Above (latest_of last due) q
    follows : Follows last due
    later : Above last q
    bounded : length q ≤ n

  Follows-head :
      (last : Option ℕ) (f : Queued T) (q : List (Queued T))
      → Above last (f ∷ q)
      → Follows last (some f)
  Follows-head none f q a = tt
  Follows-head (some p) f q a = a.0

  Selecting-drop :
      (last : Option ℕ) (n : ℕ) (f : Queued T) (q : List (Queued T)) (due : Option (Queued T))
      → Selecting last n (f ∷ q) due
      → Selecting last n q due
  Selecting-drop last n f q due h = record {
    ordered = h.ordered.1;
    upcoming = Above-tail (latest_of last due) f q h.upcoming;
    follows = h.follows;
    later = Above-tail last f q h.later;
    bounded = omega (arith, h.bounded);
  }

  Selecting-take :
      (last : Option ℕ) (n : ℕ) (f : Queued T) (q : List (Queued T)) (due : Option (Queued T))
      → Selecting last n (f ∷ q) due
      → Selecting last n q (some f)
  Selecting-take last n f q due h = record {
    ordered = h.ordered.1;
    upcoming = h.ordered.0;
    follows = Follows-head last f q h.later;
    later = Above-tail last f q h.later;
    bounded = omega (arith, h.bounded);
  }

  select-Selecting :
      (s : VideoScheduler T) (audio : Option ℕ) (now : ℕ)
      → IsValid s
      → let l = select audio now s.queue none s.stats in
        Selecting s.last_presented max_video_frames l.queue l.due
  select-Selecting s audio now v =
      (select_inv audio now (λ q due _. Selecting s.last_presented max_video_frames q due)
        (λ f q due _ _ h. Selecting-drop s.last_presented max_video_frames f q due h)
        (λ f q due _ _ h. Selecting-drop s.last_presented max_video_frames f q due h)
        (λ f q due _ _ h. Selecting-take s.last_presented max_video_frames f q due h) s.queue none
        s.stats
        (record {
          ordered = v.ordered;
          upcoming = v.upcoming;
          follows = tt;
          later = v.upcoming;
          bounded = v.bounded;
        })).0

  write_back-IsValid :
      (last : Option ℕ) (q : List (Queued T)) (due : Option (Queued T)) (stats : Stats)
      → Selecting last max_video_frames q due
      → IsValid (write_back last q due stats)
  write_back-IsValid last q none stats h = record {
    ordered = h.ordered;
    upcoming = h.upcoming;
    bounded = h.bounded;
  }
  write_back-IsValid last q (some f) stats h = record {
    ordered = h.ordered;
    upcoming = h.upcoming;
    bounded = h.bounded;
  }

  -- `advance` keeps the invariant.
  pub advance-IsValid :
      (s : VideoScheduler T) (anchor : Option AudioAnchor) (now : ℕ)
      → IsValid s
      → IsValid (advance s anchor now).0
  unfolding advance
  advance-IsValid s anchor now v =
      let l = select (audio_position anchor now) now s.queue none s.stats in
      write_back-IsValid s.last_presented l.queue l.due l.stats
        (select-Selecting s (audio_position anchor now) now v)

  -- The frame that is due follows the one presented last.
  pub select-Follows :
      (s : VideoScheduler T) (audio : Option ℕ) (now : ℕ)
      → IsValid s
      → Follows s.last_presented (select audio now s.queue none s.stats).due
  select-Follows s audio now v = (select-Selecting s audio now v).follows

  pub push-last_presented :
      (s : VideoScheduler T) (pts : ℕ) (value : T) (now : ℕ)
      → (push s pts value now).last_presented ≡ s.last_presented
  unfolding push
  push-last_presented s pts value now = ground arith

  pub take_stats-IsValid : (s : VideoScheduler T) → IsValid s → IsValid (take_stats s).0
  unfolding take_stats
  take_stats-IsValid s v = record {
    ordered = v.ordered;
    upcoming = v.upcoming;
    bounded = v.bounded;
  }
