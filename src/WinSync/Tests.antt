-- ===== src/WinSync/Tests.antt =====
-- Runs of the Windows playback clock and scheduler, and instances of their theorems.
use moq_cast_desktop.Base.{
  not, true, ℕ, ◌≡◌, refl, false, List, [], ◌∷◌, Option, none, some, arith, millis, saturating_add,
}
use moq_cast_desktop.WinSync.Audio.{
  new_timeline, is_continuous, AudioOutputTrust, AudioAnchor, new_anchor, position_at,
  max_clock_age,
}
use moq_cast_desktop.WinSync.Video.{
  VideoScheduler, Queued, new_scheduler, push, advance, select, judge, against_audio, next_deadline,
  enqueue, make_room, audio_position, reset,
}
use moq_cast_desktop.WinSync.Clock.{
  observe_all, observe_all_first, first_jump, has_jump, any_trusted, drop_distrusts,
}
use moq_cast_desktop.WinSync.Order.{IsValid, push-IsValid}
use moq_cast_desktop.WinSync.Presented.{
  Call, pushes, advances, takes_stats, presented, Increasing, presented-Increasing,
}
use moq_cast_desktop.WinSync.Due.{Presents, Schedules, advance_timely}

abbrev frames_a : List (ℕ × ℕ)
frames_a = (millis 1000, millis 10) ∷ (millis 900, millis 10) ∷ (millis 2000, millis 10) ∷ []

one_break :
    first_jump (millis 1000, millis 10) ((millis 900, millis 10) ∷ (millis 2000, millis 10) ∷ [])
    ≡ true ∷ false ∷ []
unfolding first_jump
one_break = refl

observe_all_first_example :
    let (t, reported) = observe_all new_timeline frames_a in
    (reported
      ≡ false
        ∷ first_jump
            (millis 1000, millis 10)
            ((millis 900, millis 10) ∷ (millis 2000, millis 10) ∷ []))
    × (is_continuous t
        ≡ not (
            has_jump
              (millis 1000, millis 10)
              ((millis 900, millis 10) ∷ (millis 2000, millis 10) ∷ [])))
observe_all_first_example =
    observe_all_first (millis 1000, millis 10)
      ((millis 900, millis 10) ∷ (millis 2000, millis 10) ∷ [])

abbrev anchor_a : AudioAnchor
anchor_a = record { position = millis 1000; end = millis 1100; observed = 5 }

drop_distrusts_example :
    any_trusted (record { dropped = false }) ((30, 240, 240) ∷ (20, 0, 480) ∷ (10, 480, 0) ∷ [])
    ≡ false
drop_distrusts_example =
    drop_distrusts (record { dropped = false }) 30 240 240 ((20, 0, 480) ∷ (10, 480, 0) ∷ [])
      (omega arith) (omega arith)

abbrev fresh : VideoScheduler ℕ
fresh = new_scheduler

fresh-IsValid : IsValid fresh
fresh-IsValid = record { ordered = tt; upcoming = tt; bounded = omega arith }

abbrev one : VideoScheduler ℕ
one = push fresh (millis 1000) 1 0

one-IsValid : IsValid one
one-IsValid = push-IsValid fresh (millis 1000) 1 0 fresh-IsValid

push-IsValid_example : IsValid (push one (millis 1010) 2 1)
push-IsValid_example = push-IsValid one (millis 1010) 2 1 one-IsValid

abbrev calls_a : List (Call ℕ)
calls_a =
    pushes (millis 1000) 1 0
    ∷ pushes (millis 900) 2 0
    ∷ pushes (millis 1050) 3 0
    ∷ advances (some anchor_a) 5
    ∷ takes_stats
    ∷ advances none 6
    ∷ []

presented-Increasing_example : Increasing none (presented fresh calls_a)
presented-Increasing_example = presented-Increasing fresh calls_a fresh-IsValid

presents_two : presented fresh calls_a ≡ millis 1000 ∷ millis 1050 ∷ []
unfolding presented push enqueue make_room advance judge against_audio position_at saturating_add
    moq_cast_desktop.WinSync.Audio.expires moq_cast_desktop.WinSync.Video.take_stats
presents_two = refl

advance_timely_example :
    let (s', r) = advance one (some anchor_a) 5 in
    let audio = audio_position (some anchor_a) 5 in
    ((due : Option (Queued ℕ)) × Presents audio 5 one.queue due s' r)
    × Schedules (some anchor_a) audio 5 s'.queue r.deadline
advance_timely_example = advance_timely one (some anchor_a) 5 (omega arith)
