-- ===== src/MacSync/Order.antt =====
-- mac/src/playback/sync.rs: the queue is bounded and in the order of its timestamps, and lies behind
-- what was presented.
use mathlib.Core.Path.{subst}
use moq_cast_desktop.Base.{
  ℕ, suc, ◌+◌, ◌≡◌, ◌≤◌, ◌<◌, refl, true, false, List, [], ◌∷◌, Option, none, some, arith, All,
  All-map, length, ltb, leb, ◌==◌, if◌then◌else◌, is_some, is_some_and, Bool-cases, inl, inr, ◌⊎◌,
}
use moq_cast_desktop.LinuxSync.Clock.{Clock}
use moq_cast_desktop.MacSync.Video.{
  Scheduled, VideoScheduler, is_due, insert_frame, accept_frame, push_full, push, drain, prepare,
  run_drain, advance, switch_source, start_fallback, max_video_frames, or_clock, clock_now,
}

module _ {ℓ} {T : Type ℓ} where
  -- Timestamps never decrease.
  abbrev pub IsOrdered : List (Scheduled T) → Type 0
  IsOrdered [] = Unit
  IsOrdered (f ∷ q) = All (λ g. f.timestamp ≤ g.timestamp) q × IsOrdered q

  abbrev pub After : Option ℕ → Scheduled T → Type 0
  After none f = Unit
  After (some p) f = p < f.timestamp

  pub record IsOrderly (s : VideoScheduler T) : Type 0 where
    pub ordered : IsOrdered s.queue
    pub upcoming : All (After s.last_presented) s.queue
    pub bounded : length s.queue ≤ max_video_frames

  All-insert_frame {κ} :
      (P : Scheduled T → Type κ) (f : Scheduled T) (q : List (Scheduled T))
      → P f
      → All P q
      → All P (insert_frame f q)
  unfolding insert_frame
  All-insert_frame P f [] h a = (h, tt)
  All-insert_frame P f (g ∷ q) h a = ground (arith, All-insert_frame P f q h a.1)

  length-insert_frame :
      (f : Scheduled T) (q : List (Scheduled T)) → length (insert_frame f q) ≡ suc (length q)
  unfolding insert_frame
  length-insert_frame f [] = refl
  length-insert_frame f (g ∷ q) = ground (arith, length-insert_frame f q)

  insert_frame-IsOrdered :
      (f : Scheduled T) (q : List (Scheduled T)) → IsOrdered q → IsOrdered (insert_frame f q)
  unfolding insert_frame
  insert_frame-IsOrdered f [] o = (tt, tt)
  insert_frame-IsOrdered f (g ∷ q) o = elim (Bool-cases (ltb f.timestamp g.timestamp)) [
    | inl e ↦ rw (e, insert_frame) ((ground arith, All-map _ _ q (λ h le. ground arith) o.0), o)
    | inr e ↦
        rw (e, insert_frame)
          (
            All-insert_frame (λ h. g.timestamp ≤ h.timestamp) f q (ground arith) o.0,
            insert_frame-IsOrdered f q o.1,
          )
  ]

  accept_frame-IsOrderly :
      (s : VideoScheduler T) (q : List (Scheduled T)) (dropped : Option T) (timestamp : ℕ)
      (value : T) (wall : ℕ)
      → IsOrdered q
      → All (After s.last_presented) q
      → suc (length q) ≤ max_video_frames
      → After s.last_presented (record { timestamp = timestamp; value = value })
      → IsOrderly (accept_frame s q dropped timestamp value wall).0
  unfolding accept_frame
  accept_frame-IsOrderly s q dropped timestamp value wall o a room h =
      let frame : Scheduled T = record { timestamp = timestamp; value = value } in
      record {
        ordered = insert_frame-IsOrdered frame q o;
        upcoming = All-insert_frame (After s.last_presented) frame q h a;
        bounded = omega (arith, length-insert_frame frame q);
      }

  push_full-IsOrderly :
      (s : VideoScheduler T) (q : List (Scheduled T)) (timestamp : ℕ) (value : T) (wall : ℕ)
      → IsOrderly s
      → s.queue ≡ q
      → After s.last_presented (record { timestamp = timestamp; value = value })
      → IsOrderly (push_full s q timestamp value wall).0
  unfolding push_full
  push_full-IsOrderly s [] timestamp value wall v e h = v
  push_full-IsOrderly s (oldest ∷ q) timestamp value wall v e h =
      elim (Bool-cases (leb timestamp oldest.timestamp)) [
        | inl t ↦ rw (t, push_full) v
        | inr t ↦
            let ordered : IsOrdered (oldest ∷ q) = rw e at (v.ordered) in
            let upcoming : All (After s.last_presented) (oldest ∷ q) =
              subst (All (After s.last_presented)) e v.upcoming in
            let bounded : suc (length q) ≤ max_video_frames = rw e at (v.bounded) in
            rw (t, push_full)
              (accept_frame-IsOrderly s q (some oldest.value) timestamp value wall ordered.1
                upcoming.1 bounded h)
      ]

  After-accepted :
      (o : Option ℕ) (timestamp : ℕ) (value : T)
      → is_some_and (λ presented. leb timestamp presented) o ≡ false
      → After o (record { timestamp = timestamp; value = value })
  After-accepted none timestamp value h = tt
  After-accepted (some p) timestamp value h = ground arith

  -- push keeps the scheduler orderly on every branch: at most thirty frames are queued, in the order
  -- of their timestamps and all of them above that of the frame presented last.
  pub push-IsOrderly :
      (s : VideoScheduler T) (timestamp : ℕ) (value : T) (wall : ℕ)
      → IsOrderly s
      → IsOrderly (push s timestamp value wall).0
  unfolding push
  push-IsOrderly s timestamp value wall v =
      elim (Bool-cases (is_some_and (λ presented. leb timestamp presented) s.last_presented)) [
        | inl e ↦ rw (e, push) v
        | inr e ↦ elim (Bool-cases (length s.queue == max_video_frames)) [
          | inl full ↦
              rw (e, push)
                (rw full (
                  push_full-IsOrderly s s.queue timestamp value wall v refl
                    (After-accepted s.last_presented timestamp value e)))
          | inr room ↦
              rw (e, push)
                (rw room (
                  accept_frame-IsOrderly s s.queue none timestamp value wall v.ordered v.upcoming
                    (below full_bound room) (After-accepted s.last_presented timestamp value e)))
        ]
      ]
    where
      full_bound : length s.queue ≤ max_video_frames
      full_bound = v.bounded

      below :
          length s.queue ≤ max_video_frames
          → (length s.queue == max_video_frames) ≡ false
          → suc (length s.queue) ≤ max_video_frames
      below h k = ground arith

  above_due :
      (now : Option ℕ) (p : ℕ) (f : Scheduled T)
      → is_due now p ≡ true
      → is_due now f.timestamp ≡ false
      → p < f.timestamp
  above_due none p f h k = cc
  above_due (some now) p f h k = ground arith

  All-above :
      (p : ℕ) (f : Scheduled T) (q : List (Scheduled T))
      → p < f.timestamp
      → All (λ g. f.timestamp ≤ g.timestamp) q
      → All (After (some p)) (f ∷ q)
  All-above p f q h a = (h, All-map _ _ q (λ g le. omega arith) a)

  -- The bound that the loop works with: what was presented before, or a frame that was due.
  Behind : Option ℕ → Option ℕ → List (Scheduled T) → Type 0
  Behind now none q = Unit
  Behind now (some p) q = All (After (some p)) q ⊎ (is_due now p ≡ true)

  drain-valid :
      (now : Option ℕ) (q : List (Scheduled T)) (last : Option ℕ) (due : Option T) (skipped : ℕ)
      → IsOrdered q
      → Behind now last q
      → length q ≤ max_video_frames
      → let l = drain now q last due skipped in
        IsOrdered l.queue
        × All (After l.last_presented) l.queue
        × (length l.queue ≤ max_video_frames)
  unfolding drain Behind
  drain-valid now [] last due skipped o b n = (tt, tt, n)
  drain-valid now (f ∷ q) last due skipped o b n = elim (Bool-cases (is_due now f.timestamp)) [
    | inl e ↦
        rw (e, drain)
          (drain-valid now q (some f.timestamp) (some f.value)
            (if is_some due then skipped + 1 else skipped) o.1 (inr e) (omega arith))
    | inr e ↦ rw (e, drain) (o, stopped last b e, n)
  ]
    where
      stopped :
          (last : Option ℕ)
          → Behind now last (f ∷ q)
          → is_due now f.timestamp ≡ false
          → All (After last) (f ∷ q)
      stopped none b e = (tt, All-map _ _ q (λ g le. tt) o.0)
      stopped (some p) (inl a) e = a
      stopped (some p) (inr d) e = All-above p f q (above_due now p f d e) o.0

  prepare-queue :
      (s : VideoScheduler T) (audio : Option Clock) (wall : ℕ)
      → ((prepare s audio wall).queue ≡ s.queue)
        × ((prepare s audio wall).last_presented ≡ s.last_presented)
  unfolding prepare switch_source start_fallback
  prepare-queue s none wall = (ground arith, ground arith)
  prepare-queue s (some audio) wall = (ground arith, ground arith)

  -- The clock by which one call of `advance` runs its loop.
  abbrev pub call_clock : VideoScheduler T → Option Clock → ℕ → Option ℕ
  call_clock s audio wall = clock_now (or_clock audio (prepare s audio wall).fallback) wall

  pub run_drain_lem :
      (s : VideoScheduler T) (audio : Option Clock) (wall : ℕ)
      → run_drain s audio wall ≡ drain (call_clock s audio wall) s.queue s.last_presented none 0
  unfolding run_drain
  run_drain_lem s audio wall = rw ((prepare-queue s audio wall).0, (prepare-queue s audio wall).1)

  Behind-valid : (now o : Option ℕ) (q : List (Scheduled T)) → All (After o) q → Behind now o q
  unfolding Behind
  Behind-valid now none q a = tt
  Behind-valid now (some p) q a = inl a

  -- advance keeps the scheduler orderly: at most thirty frames are queued, in the order of their
  -- timestamps and all of them above that of the frame presented last.
  pub advance-IsOrderly :
      (s : VideoScheduler T) (audio : Option Clock) (wall : ℕ)
      → IsOrderly s
      → IsOrderly (advance s audio wall).0
  unfolding advance
  advance-IsOrderly s audio wall v = rw (run_drain_lem s audio wall) (
      let now = call_clock s audio wall in
      let (ordered, upcoming, bounded) =
        drain-valid now s.queue s.last_presented none 0 v.ordered
          (Behind-valid now s.last_presented s.queue v.upcoming) v.bounded in
      record { ordered = ordered; upcoming = upcoming; bounded = bounded })
