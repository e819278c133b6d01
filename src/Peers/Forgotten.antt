-- ===== src/Peers/Forgotten.antt =====
-- mac/src/network/session/state.rs: results of an older generation come too late, also after the
-- peer was forgotten and began anew.
use moq_cast_desktop.Base.{
  ℕ, ◌≤◌, ◌<◌, ◌==◌, ◌≡◌, ◌⊎◌, inl, inr, refl, true, Option, none, some, List, [], ◌∷◌, arith,
  saturating_add_u64, u64_max, Bool-cases, Option-cases, ==_iff,
}
use moq_cast_desktop.Base.Bytes.{bytes_eq, bytes_eq_sound, bytes_eq_refl}
use moq_cast_desktop.Base.Map.{
  BTreeMap, get, remove, get-insert, get-remove_self, get-remove_ne, IsSorted, insert-IsSorted,
  remove-IsSorted,
}
use moq_cast_desktop.Peers.Transport.{
  TransportState, TransportPhase, connecting, outbound, PeerOp, begins, transitions, ends,
}
use moq_cast_desktop.Peers.Mac.{
  PeerStates, state_of, fresh_generation, put, begin, transition, disconnect, step, run,
}

-- The peer is not known, or by a generation later than `g`.
abbrev pub IsLater : ℕ → Option TransportState → Type 0
IsLater g none = 0 ≤ 0
IsLater g (some state) = g < state.generation

-- The keys of the map are sorted, the counter is at least `n`, and no generation that the peer is
-- known by is `g` or less.
pub record IsAfter (g : ℕ) (p : List ℕ) (s : PeerStates) : Type 0 where
  pub sorted : IsSorted s.states
  pub counted : g ≤ s.next_generation
  pub later : IsLater g (state_of s p)

put-IsLater :
    (s : PeerStates) (p q : List ℕ) (g : ℕ) (state : TransportState)
    → (bytes_eq q p ≡ true → g < state.generation)
    → IsLater g (state_of s p)
    → IsLater g (state_of (put s q state) p)
unfolding state_of put
put-IsLater s p q g state new later =
    rw (get-insert p q state s.states)
      (elim (Bool-cases (bytes_eq q p)) [ inl e ↦ rw e (new e) | inr e ↦ rw e later ])

put-IsAfter :
    (s : PeerStates) (p q : List ℕ) (g : ℕ) (state : TransportState)
    → (bytes_eq q p ≡ true → g < state.generation)
    → IsAfter g p s
    → IsAfter g p (put s q state)
unfolding put
put-IsAfter s p q g state new a = record {
  sorted = insert-IsSorted q state s.states a.sorted;
  counted = a.counted;
  later = put-IsLater s p q g state new a.later;
}

remove-IsLater :
    (p q : List ℕ) (g : ℕ) (m : BTreeMap TransportState)
    → IsSorted m
    → IsLater g (get p m)
    → IsLater g (get p (remove q m))
remove-IsLater p q g m sorted later = elim (Bool-cases (bytes_eq q p)) [
  | inl e ↦ rw (bytes_eq_sound q p e) (rw (get-remove_self p m sorted) (omega arith))
  | inr e ↦ rw (get-remove_ne p q m e) later
]

fresh_generation-IsAfter :
    (s : PeerStates) (p : List ℕ) (g : ℕ)
    → g < u64_max
    → IsAfter g p s
    → IsAfter g p (fresh_generation s).0 × (g < (fresh_generation s).1)
unfolding fresh_generation saturating_add_u64 state_of
fresh_generation-IsAfter s p g bound a =
    let c = a.counted in
    (record { sorted = a.sorted; counted = omega arith; later = a.later }, omega arith)

step-IsAfter :
    (s : PeerStates) (p : List ℕ) (g : ℕ) (op : PeerOp)
    → g < u64_max
    → IsAfter g p s
    → IsAfter g p (step s op)
unfolding step begin
step-IsAfter s p g (begins q) bound a =
    let (a', fresh) = fresh_generation-IsAfter s p g bound a in
    put-IsAfter (fresh_generation s).0 p q g (outbound (fresh_generation s).1 connecting)
      (λ h. fresh) a'
step-IsAfter s p g (ends q) bound a = elim (Option-cases (state_of s q)) [
  | inl e ↦ rw (e, step, disconnect) a
  | inr (known, e) ↦
      rw (e, step, disconnect)
        (let forgotten : IsAfter g p (record s { states = remove q s.states }) = record {
          sorted = remove-IsSorted q s.states a.sorted;
          counted = a.counted;
          later = remove-IsLater p q g s.states a.sorted a.later;
        } in
          (fresh_generation-IsAfter (record s { states = remove q s.states }) p g bound
            forgotten).0)
]
step-IsAfter s p g (transitions q generation phase) bound a = elim (Option-cases (state_of s q)) [
  | inl e ↦ rw (e, step, transition) a
  | inr (known, e) ↦ elim (Bool-cases (known.generation == generation)) [
    | inl same ↦
        rw (e, step, transition)
          (rw same (
            put-IsAfter s p q g (outbound generation phase)
              (λ h. kept s p q g known generation h e same a.later) a))
    | inr other ↦ rw (e, step, transition) (rw other a)
  ]
]
  where
    kept :
        (s : PeerStates) (p q : List ℕ) (g : ℕ) (known : TransportState) (generation : ℕ)
        → bytes_eq q p ≡ true
        → state_of s q ≡ some known
        → (known.generation == generation) ≡ true
        → IsLater g (state_of s p)
        → g < generation
    kept s p q g known generation h e same later =
        let e' : state_of s p ≡ some known = rw (bytes_eq_sound q p h) at e in
        let later' : g < known.generation = rw e' at later in
        let same' : known.generation ≡ generation = (==_iff known.generation generation).0 same in
        omega arith

run-IsAfter :
    (s : PeerStates) (p : List ℕ) (g : ℕ) (ops : List PeerOp)
    → g < u64_max
    → IsAfter g p s
    → IsAfter g p (run s ops)
unfolding run
run-IsAfter s p g [] bound a = a
run-IsAfter s p g (op ∷ ops) bound a =
    run-IsAfter (step s op) p g ops bound (step-IsAfter s p g op bound a)

refuse_earlier :
    (s : PeerStates) (p : List ℕ) (g : ℕ) (phase : TransportPhase)
    → IsLater g (state_of s p)
    → transition s p g phase ≡ (s, none)
unfolding transition
refuse_earlier s p g phase later = elim (Option-cases (state_of s p)) [
  | inl e ↦ rw (e, transition) refl
  | inr (known, e) ↦
      let later' : g < known.generation = rw e at later in rw (e, transition) (ground arith)
]

-- The keys of the map are sorted, and the counter is at least `g`.
abbrev Counts : ℕ → PeerStates → Type 0
Counts g s = IsSorted s.states × (g ≤ s.next_generation)

fresh_generation-Counts :
    (s : PeerStates) (g : ℕ) → g ≤ u64_max → Counts g s → Counts g (fresh_generation s).0
unfolding fresh_generation saturating_add_u64
fresh_generation-Counts s g bound c = (c.0, (let h = c.1 in omega arith))

step-Counts :
    (s : PeerStates) (g : ℕ) (op : PeerOp) → g ≤ u64_max → Counts g s → Counts g (step s op)
unfolding step begin put
step-Counts s g (begins q) bound c =
    let (sorted, counted) = fresh_generation-Counts s g bound c in
    (
      insert-IsSorted q (outbound (fresh_generation s).1 connecting) (fresh_generation s).0.states
          sorted,
      counted,
    )
step-Counts s g (ends q) bound c = elim (Option-cases (state_of s q)) [
  | inl e ↦ rw (e, step, disconnect) c
  | inr (known, e) ↦
      rw (e, step, disconnect)
        (fresh_generation-Counts (record s { states = remove q s.states }) g bound
          (remove-IsSorted q s.states c.0, c.1))
]
step-Counts s g (transitions q generation phase) bound c = elim (Option-cases (state_of s q)) [
  | inl e ↦ rw (e, step, transition) c
  | inr (known, e) ↦ elim (Bool-cases (known.generation == generation)) [
    | inl same ↦
        rw (e, step, transition)
          (rw same (insert-IsSorted q (outbound generation phase) s.states c.0, c.1))
    | inr other ↦ rw (e, step, transition) (rw other c)
  ]
]

run-Counts :
    (s : PeerStates) (g : ℕ) (ops : List PeerOp) → g ≤ u64_max → Counts g s → Counts g (run s ops)
unfolding run
run-Counts s g [] bound c = c
run-Counts s g (op ∷ ops) bound c = run-Counts (step s op) g ops bound (step-Counts s g op bound c)

-- A new attempt, or the end of the connection, makes every generation so far an earlier one.
renew-IsAfter :
    (s : PeerStates) (p : List ℕ) (g : ℕ)
    → s.next_generation < u64_max
    → Counts g s
    → IsAfter g p (step s (begins p)) × IsAfter g p (step s (ends p))
unfolding step begin put disconnect state_of fresh_generation saturating_add_u64 outbound
renew-IsAfter s p g bound c =
    let n = saturating_add_u64 s.next_generation 1 in
    let h = c.1 in
    (
      record {
        sorted = insert-IsSorted p (outbound n connecting) s.states c.0;
        counted = omega arith;
        later =
            rw (get-insert p p (outbound n connecting) s.states)
              (rw (bytes_eq_refl p) (omega arith));
      },
      elim (Option-cases (state_of s p)) [
        | inl e ↦
            rw (e, step, disconnect)
              (record { sorted = c.0; counted = c.1; later = rw e (omega arith) })
        | inr (known, e) ↦
            rw (e, step, disconnect)
              (record {
                sorted = remove-IsSorted p s.states c.0;
                counted = omega arith;
                later = rw (get-remove_self p s.states c.0) (omega arith);
              })
      ],
    )

begin-Counts :
    (s : PeerStates) (p : List ℕ)
    → IsSorted s.states
    → Counts (begin s p).1.generation (begin s p).0 × ((begin s p).1.generation ≤ u64_max)
unfolding begin put outbound fresh_generation saturating_add_u64
begin-Counts s p sorted =
    let n = saturating_add_u64 s.next_generation 1 in
    ((insert-IsSorted p (outbound n connecting) s.states sorted, omega arith), omega arith)

-- On the Mac a result of an attempt comes too late once a new attempt was begun or the connection
-- was ended, also if the peer was forgotten and began anew: its generation is refused and changes
-- nothing, whatever happens before and after that to this peer and others, as long as the counter is
-- below the end of u64 at the renewal.
pub forgotten_result_refused :
    (s : PeerStates) (p : List ℕ) (before : List PeerOp) (renewal : PeerOp) (after : List PeerOp)
    (phase : TransportPhase)
    → IsSorted s.states
    → (run (begin s p).0 before).next_generation < u64_max
    → (renewal ≡ begins p) ⊎ (renewal ≡ ends p)
    → let s' = run (step (run (begin s p).0 before) renewal) after in
      transition s' p (begin s p).1.generation phase ≡ (s', none)
forgotten_result_refused s p before renewal after phase sorted bound renews =
    let g = (begin s p).1.generation in
    let r = run (begin s p).0 before in
    let (counts, most) = begin-Counts s p sorted in
    let counted : Counts g r = run-Counts (begin s p).0 g before most counts in
    let h : g ≤ r.next_generation = counted.1 in
    let (began, ended) = renew-IsAfter r p g bound counted in
    let a : IsAfter g p (step r renewal) = elim renews [
      | inl e ↦ rw e began
      | inr e ↦ rw e ended
    ] in
    refuse_earlier (run (step r renewal) after) p g phase
      (run-IsAfter (step r renewal) p g after (omega (arith, h, bound)) a).later
