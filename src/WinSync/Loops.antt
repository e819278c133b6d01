-- ===== src/WinSync/Loops.antt =====
-- windows/src/playback/sync.rs: the rules by which properties are carried through the two loops of
-- the scheduler.
use moq_cast_desktop.Base.{
  ℕ, ◌≡◌, refl, ◌||◌, List, [], ◌∷◌, Option, some, length, ltb, leb, saturating_sub, Bool-cases,
  inl, inr, ◌⊎◌,
}
use moq_cast_desktop.WinSync.Video.{
  Queued, Stats, Verdict, expire, late, wait, present, make_room, judge, select, supersede,
  max_video_frames, max_video_residence, inc,
}

pub Verdict-cases : (v : Verdict) → (v ≡ expire) ⊎ ((v ≡ late) ⊎ ((v ≡ wait) ⊎ (v ≡ present)))
Verdict-cases expire = inl refl
Verdict-cases late = inr (inl refl)
Verdict-cases wait = inr (inr (inl refl))
Verdict-cases present = inr (inr (inr refl))

module _ {ℓ} {T : Type ℓ} where
  -- The loop ends at the end of the queue, or at a frame that has to wait.
  abbrev pub Stopped : Option ℕ → ℕ → List (Queued T) → Type 0
  Stopped audio now [] = Unit
  Stopped audio now (f ∷ q) = judge audio now f ≡ wait

module _ {ℓ κ} {T : Type ℓ} where
  -- What survives the loss of the front survives `make_room`.
  pub make_room-suffix :
      (P : List (Queued T) → Type κ)
      → ((f : Queued T) (q : List (Queued T)) → P (f ∷ q) → P q)
      → (pts : ℕ) (q : List (Queued T)) (c : ℕ) → P q
      → P (make_room pts q c).0
  unfolding make_room
  make_room-suffix P pop pts [] c h = h
  make_room-suffix P pop pts (f ∷ q) c h =
      elim (Bool-cases (
        leb max_video_frames (length (f ∷ q))
        || ltb max_video_residence (saturating_sub pts f.pts))) [
          | inl e ↦ rw (e, make_room) (make_room-suffix P pop pts q (inc c) (pop f q h))
          | inr e ↦ rw (e, make_room) h
        ]

  -- The rule of the loop of `advance`.
  pub select_inv :
      (audio : Option ℕ) (now : ℕ) (P : List (Queued T) → Option (Queued T) → Stats → Type κ)
      → ((f : Queued T) (q : List (Queued T)) (due : Option (Queued T)) (s : Stats)
          → judge audio now f ≡ expire
          → P (f ∷ q) due s
          → P q due (record s { expired = inc s.expired }))
      → ((f : Queued T) (q : List (Queued T)) (due : Option (Queued T)) (s : Stats)
          → judge audio now f ≡ late
          → P (f ∷ q) due s
          → P q due (record s { late = inc s.late }))
      → ((f : Queued T) (q : List (Queued T)) (due : Option (Queued T)) (s : Stats)
          → judge audio now f ≡ present
          → P (f ∷ q) due s
          → P q (some f) (supersede due s))
      → (q : List (Queued T)) (due : Option (Queued T)) (s : Stats) → P q due s
      → P
          (select audio now q due s).queue
          (select audio now q due s).due
          (select audio now q due s).stats
        × Stopped audio now (select audio now q due s).queue
  unfolding select
  select_inv audio now P ex la pr [] due s h = (h, tt)
  select_inv audio now P ex la pr (f ∷ q) due s h = elim (Verdict-cases (judge audio now f)) [
    | inl e ↦
        rw (e, select)
          (select_inv audio now P ex la pr q due (record s { expired = inc s.expired })
            (ex f q due s e h))
    | inr (inl e) ↦
        rw (e, select)
          (select_inv audio now P ex la pr q due (record s { late = inc s.late })
            (la f q due s e h))
    | inr (inr (inl e)) ↦ rw (e, select) (h, e)
    | inr (inr (inr e)) ↦
        rw (e, select)
          (select_inv audio now P ex la pr q (some f) (supersede due s) (pr f q due s e h))
  ]
