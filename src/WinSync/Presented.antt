-- ===== src/WinSync/Presented.antt =====
-- windows/src/playback/sync.rs: the frames that a playback presents, over any sequence of calls.
use mathlib.Core.Path.{subst}
use moq_cast_desktop.Base.{ℕ, ◌<◌, List, [], ◌∷◌, ◌++◌, Option, none, some}
use moq_cast_desktop.WinSync.Audio.{AudioAnchor}
use moq_cast_desktop.WinSync.Video.{
  Queued, VideoScheduler, Stats, push, advance, take_stats, select, write_back, frame_value,
  audio_position,
}
use moq_cast_desktop.WinSync.Order.{
  IsValid, Follows, select-Follows, push-last_presented, push-IsValid, advance-IsValid,
  take_stats-IsValid,
}

-- The calls of a playback between two resets.
pub data Call {ℓ} (T : Type ℓ) : Type ℓ where
  pushes : ℕ → T → ℕ → Call T
  advances : Option AudioAnchor → ℕ → Call T
  takes_stats : Call T

-- The timestamps strictly increase, and lie above the bound if there is one.
abbrev pub Increasing : Option ℕ → List ℕ → Type 0
Increasing o [] = Unit
Increasing none (p ∷ ps) = Increasing (some p) ps
Increasing (some l) (p ∷ ps) = (l < p) × Increasing (some p) ps

module _ {ℓ} {T : Type ℓ} where
  -- What one call of `advance` presents: the timestamp of the frame that it returns, if any.
  abbrev pub shown : Option T → Option ℕ → List ℕ
  shown none last = []
  shown (some _) none = []
  shown (some _) (some p) = p ∷ []

  -- The timestamps that are presented, in order.
  unfoldable pub presented : VideoScheduler T → List (Call T) → List ℕ
  presented s [] = []
  presented s (pushes pts value now ∷ calls) = presented (push s pts value now) calls
  presented s (takes_stats ∷ calls) = presented (take_stats s).0 calls
  presented s (advances anchor now ∷ calls) =
      let (s', a) = advance s anchor now in shown a.frame s'.last_presented ++ presented s' calls

  write_back-Increasing :
      (last : Option ℕ) (q : List (Queued T)) (due : Option (Queued T)) (stats : Stats)
      (ps : List ℕ)
      → Follows last due
      → Increasing (write_back last q due stats).last_presented ps
      → Increasing last (shown (frame_value due) (write_back last q due stats).last_presented ++ ps)
  write_back-Increasing last q none stats ps h i = i
  write_back-Increasing none q (some f) stats ps h i = i
  write_back-Increasing (some p) q (some f) stats ps h i = (h, i)

  advance-Increasing :
      (s : VideoScheduler T) (anchor : Option AudioAnchor) (now : ℕ) (ps : List ℕ)
      → IsValid s
      → Increasing (advance s anchor now).0.last_presented ps
      → Increasing s.last_presented
          (shown (advance s anchor now).1.frame (advance s anchor now).0.last_presented ++ ps)
  unfolding advance
  advance-Increasing s anchor now ps v i =
      let l = select (audio_position anchor now) now s.queue none s.stats in
      write_back-Increasing s.last_presented l.queue l.due l.stats ps
        (select-Follows s (audio_position anchor now) now v) i

  -- Whatever is pushed, in whatever order and at whatever time, and whatever the audio clock says,
  -- the frames that are presented until the next reset have strictly increasing timestamps, above
  -- that of the frame presented last before.
  pub presented-Increasing :
      (s : VideoScheduler T) (calls : List (Call T))
      → IsValid s
      → Increasing s.last_presented (presented s calls)
  unfolding presented take_stats
  presented-Increasing s [] v = tt
  presented-Increasing s (pushes pts value now ∷ calls) v =
      subst (λ o. Increasing o (presented (push s pts value now) calls))
        (push-last_presented s pts value now)
        (presented-Increasing (push s pts value now) calls (push-IsValid s pts value now v))
  presented-Increasing s (takes_stats ∷ calls) v =
      presented-Increasing (take_stats s).0 calls (take_stats-IsValid s v)
  presented-Increasing s (advances anchor now ∷ calls) v =
      advance-Increasing s anchor now (presented (advance s anchor now).0 calls) v
        (presented-Increasing (advance s anchor now).0 calls (advance-IsValid s anchor now v))
