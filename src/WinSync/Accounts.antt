-- ===== src/WinSync/Accounts.antt =====
-- windows/src/playback/sync.rs: the scheduler's counters account for every frame.
use moq_cast_desktop.Base.{
  ℕ, ◌+◌, ◌%◌, ◌^◌, ◌≡◌, refl, ◌∙◌, List, [], ◌∷◌, Option, none, some, arith, length, length-append,
  Bool-cases, inl, inr, ◌||◌, ltb, leb, saturating_sub,
}
use moq_cast_desktop.WinSync.Audio.{AudioAnchor}
use moq_cast_desktop.WinSync.Loops.{select_inv}
use moq_cast_desktop.WinSync.Video.{
  Queued, VideoScheduler, Stats, make_room, enqueue, push, select, supersede, write_back, advance,
  is_nonmonotonic, max_video_frames, max_video_residence, inc, audio_position,
}

-- The frames that were selected, or dropped for one of the reasons that are counted.
abbrev pub accounted : Stats → ℕ
accounted s = s.selected + s.late + s.superseded + s.capacity + s.expired + s.nonmonotonic

-- The counters are `u64`, so the accounts are kept modulo 2^64.
infix 4 ◌≈◌
abbrev pub ◌≈◌ : ℕ → ℕ → Type 0
a ≈ b = a % 2 ^ 64 ≡ b % 2 ^ 64

module _ {ℓ} {T : Type ℓ} where
  -- Every frame that was handed over is queued or accounted for.
  abbrev pub handed : VideoScheduler T → ℕ
  handed s = length s.queue + accounted s.stats

  abbrev held : Option (Queued T) → ℕ
  held none = 0
  held (some f) = 1

  make_room-accounts :
      (pts : ℕ) (q : List (Queued T)) (c : ℕ)
      → length (make_room pts q c).0 + (make_room pts q c).1 ≈ length q + c
  unfolding make_room
  make_room-accounts pts [] c = refl
  make_room-accounts pts (f ∷ q) c =
      elim (Bool-cases (
        leb max_video_frames (length (f ∷ q))
        || ltb max_video_residence (saturating_sub pts f.pts))) [
          | inl e ↦ rw (e, make_room) (omega (arith, make_room-accounts pts q (inc c)))
          | inr e ↦ rw (e, make_room)
        ]

  -- Every call of `push` hands one frame over: it is queued, in the place of those that are counted
  -- as dropped for capacity, or counted as out of order.
  pub push-handed :
      (s : VideoScheduler T) (pts : ℕ) (value : T) (now : ℕ)
      → handed (push s pts value now) ≈ handed s + 1
  unfolding push enqueue
  push-handed s pts value now = elim (Bool-cases (is_nonmonotonic s pts)) [
    | inl e ↦ rw (e, push) (omega arith)
    | inr e ↦
        let room = make_room pts s.queue s.stats.capacity in
        let frame : Queued T = record { pts = pts; inserted = now; value = value } in
        rw (e, push)
          (omega (
            arith,
            make_room-accounts pts s.queue s.stats.capacity,
            length-append room.0 (frame ∷ []),
          ))
  ]

  supersede-accounted :
      (due : Option (Queued T)) (s : Stats) → accounted (supersede due s) ≈ accounted s + held due
  supersede-accounted none s = omega arith
  supersede-accounted (some f) s = omega arith

  write_back-handed :
      (last : Option ℕ) (q : List (Queued T)) (due : Option (Queued T)) (stats : Stats)
      → handed (write_back last q due stats) ≈ length q + accounted stats + held due
  write_back-handed last q none stats = omega arith
  write_back-handed last q (some f) stats = omega arith

  -- `advance` moves frames from the queue to the counters, and neither loses nor invents one.
  pub advance-handed :
      (s : VideoScheduler T) (anchor : Option AudioAnchor) (now : ℕ)
      → handed (advance s anchor now).0 ≈ handed s
  unfolding advance
  advance-handed s anchor now =
      let audio = audio_position anchor now in
      let l = select audio now s.queue none s.stats in
      write_back-handed s.last_presented l.queue l.due l.stats
      ∙ (select_inv audio now (λ q due stats. length q + accounted stats + held due ≈ handed s)
          (λ f q due stats _ h. omega arith) (λ f q due stats _ h. omega arith)
          (λ f q due stats _ h. omega (arith, supersede-accounted due stats)) s.queue none s.stats
          (omega arith)).0
