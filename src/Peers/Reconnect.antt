-- ===== src/Peers/Reconnect.antt =====
-- shared/lan-state/src/bandwidth.rs: what a view shows after its connection was made anew or closed.
use moq_cast_desktop.Base.{
  ℕ, ◌==◌, ◌≡◌, ◌≢◌, ◌<◌, ◌⊎◌, inl, inr, refl, false, if◌then◌else◌, some, List, [], ◌∷◌, arith,
  All, Bool-cases, Option-cases, ==_iff,
}
use moq_cast_desktop.Peers.Bandwidth.{
  Sample, Store, default_sample, set_cell, observe, view, sample_of, reset, update_state, update,
  drop_observation,
}

-- What the owners of observations do.
pub data Op : Type 0 where
  observes : Op
  resets : ℕ → ℕ → Op
  updates : ℕ → ℕ → Sample → Op
  closes : ℕ → Op

unfoldable pub step : Store → Op → Store
unfolding observe reset update drop_observation
step s observes = (observe s).0
step s (resets id epoch) = reset s id epoch
step s (updates id epoch sample) = update s id epoch sample
step s (closes id) = drop_observation s id

unfoldable pub run : Store → List Op → Store
unfolding step
run s [] = s
run s (op ∷ ops) = run (step s op) ops

-- Operations that do not concern the observation in the epoch: those of other observations, and
-- updates of another epoch.
abbrev pub IsForeign : ℕ → ℕ → Op → Type 0
IsForeign id epoch observes = id ≡ id
IsForeign id epoch (resets j e) = j ≢ id
IsForeign id epoch (updates j e sample) = (j ≢ id) ⊎ (e ≢ epoch)
IsForeign id epoch (closes j) = j ≢ id

-- The observation is in the epoch and has the sample.
pub record Shows (id epoch : ℕ) (sample : Sample) (s : Store) : Type 0 where
  pub allocated : id < s.next
  pub cell : s.cells id ≡ some (record { epoch = epoch; sample = sample })

update-cells :
    (s : Store) (j e : ℕ) (new : Sample) (id : ℕ)
    → (j == id) ≡ false
    → (update s j e new).cells id ≡ s.cells id
unfolding update set_cell
update-cells s j e new id other = elim (Option-cases (s.cells j)) [
  | inl c ↦ rw (c, update) refl
  | inr (state, c) ↦ rw (c, update) (rw other refl)
]

update-next : (s : Store) (j e : ℕ) (new : Sample) → (update s j e new).next ≡ s.next
unfolding update set_cell
update-next s j e new = elim (Option-cases (s.cells j)) [
  | inl c ↦ rw (c, update) refl
  | inr (state, c) ↦ rw (c, update) refl
]

-- What an update does to the cell of its own observation.
update-own :
    (s : Store) (id e epoch : ℕ) (new sample : Sample)
    → s.cells id ≡ some (record { epoch = epoch; sample = sample })
    → (update s id e new).cells id
      ≡ some (record { epoch = epoch; sample = if epoch == e then new else sample })
unfolding update set_cell update_state
update-own s id e epoch new sample c = rw (c, update) (ground arith)

step-Shows :
    (id epoch : ℕ) (sample : Sample) (s : Store) (op : Op)
    → IsForeign id epoch op
    → Shows id epoch sample s
    → Shows id epoch sample (step s op)
unfolding step observe reset update drop_observation set_cell update_state
step-Shows id epoch sample s observes h w =
    let a = w.allocated in record { allocated = omega arith; cell = ground (arith, w.cell) }
step-Shows id epoch sample s (resets j e) h w = record {
  allocated = w.allocated;
  cell = ground (arith, w.cell);
}
step-Shows id epoch sample s (closes j) h w = record {
  allocated = w.allocated;
  cell = ground (arith, w.cell);
}
step-Shows id epoch sample s (updates j e new) h w = record {
  allocated = rw (update-next s j e new) w.allocated;
  cell = elim (Bool-cases (j == id)) [
    | inr other ↦ rw (update-cells s j e new id other) w.cell
    | inl same ↦ stale (cc ((==_iff j id).0 same))
  ];
}
  where
    stale : j ≡ id → (update s j e new).cells id ≡ some (record { epoch = epoch; sample = sample })
    stale eq =
        let other_epoch : (epoch == e) ≡ false = ground (arith, h, eq) in
        rw eq (rw (update-own s id e epoch new sample w.cell) (rw other_epoch refl))

run-Shows :
    (id epoch : ℕ) (sample : Sample) (s : Store) (ops : List Op)
    → All (IsForeign id epoch) ops
    → Shows id epoch sample s
    → Shows id epoch sample (run s ops)
unfolding run
run-Shows id epoch sample s [] h w = w
run-Shows id epoch sample s (op ∷ ops) h w =
    run-Shows id epoch sample (step s op) ops h.1 (step-Shows id epoch sample s op h.0 w)

-- A reconnection shows nothing of the old one: after a reset to an epoch, and whatever other
-- observations do and whatever results of other epochs arrive, the view shows no estimates; and a
-- sample of the epoch is then what the view shows, whatever of that kind follows.
pub reconnect_isolates :
    (s : Store) (id epoch : ℕ) (sample : Sample) (ops later : List Op)
    → id < s.next
    → All (IsForeign id epoch) ops
    → All (IsForeign id epoch) later
    → let quiet = run (reset s id epoch) ops in
      (sample_of quiet (view id) ≡ default_sample)
      × (sample_of (run (update quiet id epoch sample) later) (view id) ≡ sample)
unfolding view sample_of reset set_cell
reconnect_isolates s id epoch sample ops later live foreign foreign' =
    let start : Shows id epoch default_sample (reset s id epoch) = record {
      allocated = live;
      cell = ground arith;
    } in
    let quiet = run-Shows id epoch default_sample (reset s id epoch) ops foreign start in
    let shown : Shows id epoch sample (update (run (reset s id epoch) ops) id epoch sample) =
      record {
        allocated = rw (update-next (run (reset s id epoch) ops) id epoch sample) quiet.allocated;
        cell = ground (
          arith,
          update-own (run (reset s id epoch) ops) id epoch epoch sample default_sample quiet.cell,
        );
      } in
    let end = run-Shows id epoch sample _ later foreign' shown in
    (rw (quiet.cell, sample_of) refl, rw (end.cell, sample_of) refl)
