-- ===== src/MacSync/Presented.antt =====
-- mac/src/playback/sync.rs: what the scheduler presents over any sequence of calls, how many frames
-- one call skips, and how far the fallback clock may lag.
use mathlib.Core.Path.{subst}
use moq_cast_desktop.Base.{
  ℕ, ◌+◌, ◌≡◌, ◌≤◌, ◌<◌, refl, true, List, [], ◌∷◌, ◌++◌, Option, none, some, arith, All, length,
  leb, if◌then◌else◌, is_some, is_some_and, ◌==◌, leb→le, Bool-cases, inl, inr, ◌⊎◌, saturating_add,
  duration_max,
}
use moq_cast_desktop.LinuxSync.Clock.{Clock, now_at}
use moq_cast_desktop.MacSync.Video.{
  Scheduled, VideoScheduler, is_due, accept_frame, push_full, push, drain, max_video_frames,
  advance, reset_fallback, reanchor_fallback, video_fallback_latency_ceiling,
}
use moq_cast_desktop.MacSync.Order.{
  IsOrderly, After, push-IsOrderly, advance-IsOrderly, run_drain_lem, call_clock,
}

-- The calls of a playback between two resets.
pub data Call {ℓ} (T : Type ℓ) : Type ℓ where
  pushes : ℕ → T → ℕ → Call T
  advances : Option Clock → ℕ → Call T
  resets_fallback : Call T

-- The timestamps strictly increase, and lie above the bound if there is one.
abbrev pub Increasing : Option ℕ → List ℕ → Type 0
Increasing o [] = Unit
Increasing none (p ∷ ps) = Increasing (some p) ps
Increasing (some l) (p ∷ ps) = (l < p) × Increasing (some p) ps

abbrev pub Exceeds : Option ℕ → ℕ → Type 0
Exceeds none p = Unit
Exceeds (some l) p = l < p

module _ {ℓ} {T : Type ℓ} where
  abbrev pub shown : Option T → Option ℕ → List ℕ
  shown none last = []
  shown (some _) none = []
  shown (some _) (some p) = p ∷ []

  -- The timestamps of the frames that are returned, in order.
  unfoldable pub presented_frames : VideoScheduler T → List (Call T) → List ℕ
  presented_frames s [] = []
  presented_frames s (pushes timestamp value wall ∷ calls) =
      presented_frames (push s timestamp value wall).0 calls
  presented_frames s (resets_fallback ∷ calls) = presented_frames (reset_fallback s) calls
  presented_frames s (advances audio wall ∷ calls) =
      let (s', r) = advance s audio wall in
      shown r.due s'.last_presented ++ presented_frames s' calls

  -- Either nothing is due and nothing was presented since, or what is due exceeds it.
  abbrev Follows : Option ℕ → Option T → Option ℕ → Type ℓ
  Follows last0 due last =
      ((due ≡ none) × (last ≡ last0))
      ⊎ ((v : T) × (p : ℕ) × (due ≡ some v) × (last ≡ some p) × Exceeds last0 p)

  After-Exceeds : (o : Option ℕ) (f : Scheduled T) → After o f → Exceeds o f.timestamp
  After-Exceeds none f a = tt
  After-Exceeds (some p) f a = a

  drain-Follows :
      (last0 now : Option ℕ) (q : List (Scheduled T)) (last : Option ℕ) (due : Option T) (n : ℕ)
      → All (After last0) q
      → Follows last0 due last
      → Follows last0 (drain now q last due n).due (drain now q last due n).last_presented
  unfolding drain
  drain-Follows last0 now [] last due n a h = h
  drain-Follows last0 now (f ∷ q) last due n a h = elim (Bool-cases (is_due now f.timestamp)) [
    | inl e ↦
        rw (e, drain)
          (drain-Follows last0 now q (some f.timestamp) (some f.value)
            (if is_some due then n + 1 else n) a.1
            (inr (f.value, f.timestamp, refl, refl, After-Exceeds last0 f a.0)))
    | inr e ↦ rw (e, drain) h
  ]

  Follows-Increasing :
      (last0 last : Option ℕ) (due : Option T) (ps : List ℕ)
      → Follows last0 due last
      → Increasing last ps
      → Increasing last0 (shown due last ++ ps)
  Follows-Increasing last0 last due ps (inl (e, k)) h = rw e (rw k at h)
  Follows-Increasing none last due ps (inr (v, p, e, k, x)) h = rw (e, k) (rw k at h)
  Follows-Increasing (some l) last due ps (inr (v, p, e, k, x)) h = rw (e, k) (x, (rw k at h))

  advance-Follows :
      (s : VideoScheduler T) (audio : Option Clock) (wall : ℕ)
      → IsOrderly s
      → Follows s.last_presented
          (advance s audio wall).1.due
          (advance s audio wall).0.last_presented
  unfolding advance
  advance-Follows s audio wall v = rw (run_drain_lem s audio wall) (
      drain-Follows s.last_presented (call_clock s audio wall) s.queue s.last_presented none 0
        v.upcoming (inl (refl, refl)))

  push_full-last_presented :
      (s : VideoScheduler T) (q : List (Scheduled T)) (timestamp : ℕ) (value : T) (wall : ℕ)
      → (push_full s q timestamp value wall).0.last_presented ≡ s.last_presented
  unfolding push_full accept_frame
  push_full-last_presented s [] timestamp value wall = refl
  push_full-last_presented s (oldest ∷ q) timestamp value wall = ground arith

  push-last_presented :
      (s : VideoScheduler T) (timestamp : ℕ) (value : T) (wall : ℕ)
      → (push s timestamp value wall).0.last_presented ≡ s.last_presented
  unfolding push
  push-last_presented s timestamp value wall =
      ground (arith, push_full-last_presented s s.queue timestamp value wall)

  -- From an orderly scheduler, frames are presented in strictly increasing order of their
  -- timestamps, whatever the order in which they were pushed, whatever clock each call is given and
  -- however often the fallback clock is reset.
  pub presented_frames-Increasing :
      (s : VideoScheduler T) (calls : List (Call T))
      → IsOrderly s
      → Increasing s.last_presented (presented_frames s calls)
  unfolding presented_frames reset_fallback
  presented_frames-Increasing s [] v = tt
  presented_frames-Increasing s (pushes timestamp value wall ∷ calls) v =
      subst (λ o. Increasing o (presented_frames (push s timestamp value wall).0 calls))
        (push-last_presented s timestamp value wall)
        (presented_frames-Increasing (push s timestamp value wall).0 calls
          (push-IsOrderly s timestamp value wall v))
  presented_frames-Increasing s (resets_fallback ∷ calls) v =
      presented_frames-Increasing (reset_fallback s) calls
        (record { ordered = v.ordered; upcoming = v.upcoming; bounded = v.bounded })
  presented_frames-Increasing s (advances audio wall ∷ calls) v =
      let s' = (advance s audio wall).0 in
      Follows-Increasing s.last_presented s'.last_presented (advance s audio wall).1.due
        (presented_frames s' calls) (advance-Follows s audio wall v)
        (presented_frames-Increasing s' calls (advance-IsOrderly s audio wall v))

  drain-accounts :
      (now : Option ℕ) (q : List (Scheduled T)) (last : Option ℕ) (due : Option T) (n : ℕ)
      → let l = drain now q last due n in
        l.skipped_due + (if is_some l.due then 1 else 0) + length l.queue
        ≡ n + (if is_some due then 1 else 0) + length q
  unfolding drain
  drain-accounts now [] last due n = refl
  drain-accounts now (f ∷ q) last due n = ground (
    arith,
    drain-accounts now q (some f.timestamp) (some f.value) (if is_some due then n + 1 else n),
  )

  -- Every frame that one call of advance takes from the queue is returned or counted as skipped.
  pub advance-accounts :
      (s : VideoScheduler T) (audio : Option Clock) (wall : ℕ)
      → let (s', r) = advance s audio wall in
        r.skipped_due + (if is_some r.due then 1 else 0) + length s'.queue ≡ length s.queue
  unfolding advance
  advance-accounts s audio wall =
      rw (run_drain_lem s audio wall)
        (omega (arith, drain-accounts (call_clock s audio wall) s.queue s.last_presented none 0))

-- The fallback clock, where there is one, is at most the ceiling behind the timestamp.
abbrev pub KeepsUp : Option Clock → ℕ → ℕ → Type 0
KeepsUp none timestamp wall = Unit
KeepsUp (some c) timestamp wall =
    timestamp ≤ saturating_add (now_at c wall) video_fallback_latency_ceiling

reanchor_fallback-KeepsUp :
    (fallback : Option Clock) (timestamp wall : ℕ)
    → timestamp ≤ duration_max
    → KeepsUp (reanchor_fallback fallback timestamp wall).0 timestamp wall
unfolding reanchor_fallback now_at saturating_add
reanchor_fallback-KeepsUp none timestamp wall fit = tt
reanchor_fallback-KeepsUp (some c) timestamp wall fit =
    elim (Bool-cases
      (leb timestamp (saturating_add (now_at c wall) video_fallback_latency_ceiling))) [
        | inl e ↦ rw (e, reanchor_fallback) (leb→le timestamp _ e)
        | inr e ↦ rw (e, reanchor_fallback) (omega arith)
      ]

module _ {ℓ} {T : Type ℓ} where
  push_full-KeepsUp :
      (s : VideoScheduler T) (q : List (Scheduled T)) (timestamp : ℕ) (value : T) (wall : ℕ)
      → timestamp ≤ duration_max
      → (push_full s q timestamp value wall).1.accepted ≡ true
      → KeepsUp (push_full s q timestamp value wall).0.fallback timestamp wall
  unfolding push_full accept_frame
  push_full-KeepsUp s [] timestamp value wall fit h = cc
  push_full-KeepsUp s (oldest ∷ q) timestamp value wall fit h =
      elim (Bool-cases (leb timestamp oldest.timestamp)) [
        | inl e ↦ cc (rw (e, push_full) at h)
        | inr e ↦ rw (e, push_full) (reanchor_fallback-KeepsUp s.fallback timestamp wall fit)
      ]

  -- After a frame whose timestamp is a duration was accepted, the fallback clock, if there is one,
  -- is at most 33 ms behind it: a burst of frames cannot build up latency.
  pub push-KeepsUp :
      (s : VideoScheduler T) (timestamp : ℕ) (value : T) (wall : ℕ)
      → timestamp ≤ duration_max
      → (push s timestamp value wall).1.accepted ≡ true
      → KeepsUp (push s timestamp value wall).0.fallback timestamp wall
  unfolding push accept_frame
  push-KeepsUp s timestamp value wall fit h =
      elim (Bool-cases (is_some_and (λ presented. leb timestamp presented) s.last_presented)) [
        | inl e ↦ cc (rw (e, push) at h)
        | inr e ↦ elim (Bool-cases (length s.queue == max_video_frames)) [
          | inl full ↦
              rw (e, push)
                (rw full (
                  push_full-KeepsUp s s.queue timestamp value wall fit
                    (rw full at (rw (e, push) at h))))
          | inr room ↦
              rw (e, push) (rw room (reanchor_fallback-KeepsUp s.fallback timestamp wall fit))
        ]
      ]
