-- ===== src/LinuxSync/Tests.antt =====
-- Runs of the Linux media clock and scheduler, and instances of their theorems.
use moq_cast_desktop.Base.{
  ℕ, ◌≡◌, ◌⊎◌, inl, refl, true, false, List, [], ◌∷◌, none, some, arith, is_some, millis,
}
use moq_cast_desktop.LinuxSync.Clock.{
  MediaClock, new_media_clock, take_lease, audio_anchor, lease_anchor,
}
use moq_cast_desktop.LinuxSync.Ownership.{
  LeaseOp, anchors, drops, apply_all, newest_lease_anchors, by_lease, step, step_notifies,
}
use moq_cast_desktop.LinuxSync.Video.{
  VideoScheduler, advance, or_clock, clock_now, prepare, Scheduled,
}
use moq_cast_desktop.LinuxSync.Pacing.{Drains, Wakes, advance_lem, fallback_presents}

abbrev stale : List (ℕ × LeaseOp)
stale = (4, anchors (millis 9000) 0 1) ∷ (4, drops) ∷ []

newest_lease_anchors_example :
    let c' = apply_all (take_lease (take_lease new_media_clock 4).0 5).0 stale in
    (audio_anchor (lease_anchor c' 5 (millis 2000) (millis 125) 7).0
      ≡ some (record { media = millis 1875; wall = 7 }))
    × ((lease_anchor c' 5 (millis 2000) (millis 125) 7).1 ≡ true)
newest_lease_anchors_example =
    newest_lease_anchors (take_lease new_media_clock 4).0 5 stale (millis 2000) (millis 125) 7
      (omega arith)

abbrev owned_clock : MediaClock
owned_clock = (take_lease new_media_clock 4).0

step_notifies_example :
    ((is_some (audio_anchor (step owned_clock (by_lease 4 (anchors 9 1 2))))
        ≡ is_some (audio_anchor owned_clock))
      ⊎ ((step owned_clock (by_lease 4 (anchors 9 1 2))).permit ≡ true))
    × (owned_clock.permit ≡ true → (step owned_clock (by_lease 4 (anchors 9 1 2))).permit ≡ true)
step_notifies_example = step_notifies owned_clock (by_lease 4 (anchors 9 1 2))

abbrev frame_a : Scheduled ℕ
frame_a = record { timestamp = millis 1000; value = 1 }

abbrev frame_b : Scheduled ℕ
frame_b = record { timestamp = millis 1040; value = 2 }

abbrev two : VideoScheduler ℕ
two = record { queue = frame_a ∷ frame_b ∷ []; fallback = none; using_audio = false }

advance_lem_example :
    let (s', r) = advance two none 9 in
    let clock = or_clock none (prepare two none 9).fallback in
    Drains (clock_now clock 9) two.queue none (s'.queue, r.due)
    × Wakes (clock_now clock 9) 9 s'.queue r.deadline
    × ((is_some clock ≡ true) ⊎ (two.queue ≡ []))
advance_lem_example = advance_lem two none 9 (omega arith)

fallback_presents_example :
    let (s', r) = advance two none 9 in
    (s'.fallback ≡ some (record { media = millis 1000; wall = 9 }))
    × Drains (some (millis 1000)) two.queue none (s'.queue, r.due)
    × (is_some r.due ≡ true)
fallback_presents_example =
    fallback_presents two 9 frame_a (frame_b ∷ []) refl (omega arith) (inl refl)
