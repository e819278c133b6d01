-- ===== src/MacSync/Tests.antt =====
-- Runs of the macOS scheduler, and instances of its theorems.
use moq_cast_desktop.Base.{ℕ, List, [], ◌∷◌, none, some, arith, millis}
use moq_cast_desktop.MacSync.Video.{VideoScheduler, new_scheduler, push}
use moq_cast_desktop.MacSync.Order.{IsOrderly, push-IsOrderly}
use moq_cast_desktop.MacSync.Presented.{
  Call, pushes, advances, resets_fallback, presented_frames, Increasing,
  presented_frames-Increasing,
}

abbrev fresh : VideoScheduler ℕ
fresh = new_scheduler

fresh-IsOrderly : IsOrderly fresh
fresh-IsOrderly = record { ordered = tt; upcoming = tt; bounded = omega arith }

abbrev one : VideoScheduler ℕ
one = (push fresh (millis 500) 1 0).0

one-IsOrderly : IsOrderly one
one-IsOrderly = push-IsOrderly fresh (millis 500) 1 0 fresh-IsOrderly

push-IsOrderly_example : IsOrderly (push one (millis 400) 2 1).0
push-IsOrderly_example = push-IsOrderly one (millis 400) 2 1 one-IsOrderly

abbrev calls : List (Call ℕ)
calls =
    pushes (millis 500) 1 0
    ∷ pushes (millis 400) 2 0
    ∷ advances none 0
    ∷ resets_fallback
    ∷ pushes (millis 450) 3 0
    ∷ advances (some (record { media = millis 490; wall = 0 })) (millis 20)
    ∷ []

presented_frames-Increasing_example : Increasing none (presented_frames fresh calls)
presented_frames-Increasing_example = presented_frames-Increasing fresh calls fresh-IsOrderly

abbrev lagging : VideoScheduler ℕ
lagging = record fresh { fallback = some (record { media = 0; wall = 0 }) }
