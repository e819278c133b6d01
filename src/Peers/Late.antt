-- ===== src/Peers/Late.antt =====
-- windows/src/session/state.rs: results of an older generation come too late, those of the present
-- one are recorded.
use moq_cast_desktop.Base.{
  ℕ, ◌≤◌, ◌<◌, ◌==◌, ◌≡◌, ◌⊎◌, inl, inr, refl, true, if◌then◌else◌, Option, none, some, List, [],
  ◌∷◌, arith, saturating_add_u64, u64_max, Bool-cases, Option-cases, ==_iff,
}
use moq_cast_desktop.Base.Bytes.{bytes_eq, bytes_eq_sound, bytes_eq_refl}
use moq_cast_desktop.Base.Map.{get-insert}
use moq_cast_desktop.Peers.Transport.{
  TransportState, TransportPhase, connecting, disconnected, outbound, PeerOp, begins, transitions,
  ends,
}
use moq_cast_desktop.Peers.Windows.{
  PeerStates, state_of, generation_after, next_generation, put, begin, transition, disconnect, step,
  run,
}

-- A generation of the peer that is over: its present generation is a later one.
abbrev pub IsPast : ℕ → Option TransportState → Type 0
IsPast g none = 1 ≤ 0
IsPast g (some state) = g < state.generation

state_of-put :
    (s : PeerStates) (p q : List ℕ) (state : TransportState)
    → state_of (put s q state) p ≡ (if bytes_eq q p then some state else state_of s p)
unfolding state_of put
state_of-put s p q state = get-insert p q state s.states

put-IsPast :
    (s : PeerStates) (p q : List ℕ) (g : ℕ) (state : TransportState)
    → (bytes_eq q p ≡ true → g < state.generation)
    → IsPast g (state_of s p)
    → IsPast g (state_of (put s q state) p)
put-IsPast s p q g state new past =
    rw (state_of-put s p q state)
      (elim (Bool-cases (bytes_eq q p)) [ inl e ↦ rw e (new e) | inr e ↦ rw e past ])

generation_after-lt :
    (o : Option TransportState) (g : ℕ) → g < u64_max → IsPast g o → g < generation_after o
unfolding generation_after saturating_add_u64
generation_after-lt none g bound past = omega arith
generation_after-lt (some state) g bound past = omega arith

next_generation-lt :
    (s : PeerStates) (p q : List ℕ) (g : ℕ)
    → g < u64_max
    → IsPast g (state_of s p)
    → bytes_eq q p ≡ true
    → g < next_generation s q
unfolding next_generation
next_generation-lt s p q g bound past e =
    rw (bytes_eq_sound q p e) (generation_after-lt (state_of s p) g bound past)

-- A transition keeps the generation.
kept_generation :
    (s : PeerStates) (p q : List ℕ) (g : ℕ) (known : TransportState) (generation : ℕ)
    → bytes_eq q p ≡ true
    → state_of s q ≡ some known
    → (known.generation == generation) ≡ true
    → IsPast g (state_of s p)
    → g < generation
kept_generation s p q g known generation h e same past =
    let q_is_p : q ≡ p = bytes_eq_sound q p h in
    let e' : state_of s p ≡ some known = rw q_is_p at e in
    let past' : g < known.generation = rw e' at past in
    let same' : known.generation ≡ generation = (==_iff known.generation generation).0 same in
    omega arith

step-IsPast :
    (s : PeerStates) (p : List ℕ) (g : ℕ) (op : PeerOp)
    → g < u64_max
    → IsPast g (state_of s p)
    → IsPast g (state_of (step s op) p)
unfolding step begin disconnect transition outbound
step-IsPast s p g (begins q) bound past =
    put-IsPast s p q g (outbound (next_generation s q) connecting)
      (next_generation-lt s p q g bound past) past
step-IsPast s p g (ends q) bound past = elim (Option-cases (state_of s q)) [
  | inl e ↦ rw (e, step, disconnect) past
  | inr (known, e) ↦
      rw (e, step, disconnect)
        (put-IsPast s p q g (outbound (next_generation s q) disconnected)
          (next_generation-lt s p q g bound past) past)
]
step-IsPast s p g (transitions q generation phase) bound past = elim (Option-cases (state_of s q)) [
  | inl e ↦ rw (e, step, transition) past
  | inr (known, e) ↦ elim (Bool-cases (known.generation == generation)) [
    | inl same ↦
        rw (e, step, transition)
          (rw same (
            put-IsPast s p q g (outbound generation phase)
              (λ h. kept_generation s p q g known generation h e same past) past))
    | inr other ↦ rw (e, step, transition) (rw other past)
  ]
]

run-IsPast :
    (s : PeerStates) (p : List ℕ) (g : ℕ) (ops : List PeerOp)
    → g < u64_max
    → IsPast g (state_of s p)
    → IsPast g (state_of (run s ops) p)
unfolding run
run-IsPast s p g [] bound past = past
run-IsPast s p g (op ∷ ops) bound past =
    run-IsPast (step s op) p g ops bound (step-IsPast s p g op bound past)

refuse_past :
    (s : PeerStates) (p : List ℕ) (g : ℕ) (phase : TransportPhase)
    → IsPast g (state_of s p)
    → transition s p g phase ≡ (s, none)
unfolding transition
refuse_past s p g phase past = elim (Option-cases (state_of s p)) [
  | inl e ↦ rw (e, transition) refl
  | inr (known, e) ↦
      let past' : g < known.generation = rw e at past in rw (e, transition) (ground arith)
]

-- What begins or ends a connection attempt makes the generation before a past one.
renew-IsPast :
    (s : PeerStates) (p : List ℕ) (known : TransportState)
    → state_of s p ≡ some known
    → known.generation < u64_max
    → IsPast known.generation (state_of (step s (begins p)) p)
      × IsPast known.generation (state_of (step s (ends p)) p)
unfolding step begin disconnect next_generation generation_after outbound saturating_add_u64
renew-IsPast s p known e bound =
    let renewed : (phase : TransportPhase)
        → IsPast known.generation (state_of (put s p (outbound (next_generation s p) phase)) p) =
      λ phase.
        rw (state_of-put s p p (outbound (next_generation s p) phase))
          (rw (bytes_eq_refl p) (rw e (omega arith))) in
    (renewed connecting, rw (e, step, disconnect) (renewed disconnected))

-- On Windows a result of an attempt comes too late once a new attempt was begun or the connection
-- was ended: its generation, if it is below the end of u64, is refused and changes nothing, whatever
-- happens in between to this peer and others.
pub late_result_refused :
    (s : PeerStates) (p : List ℕ) (known : TransportState) (renewal : PeerOp) (ops : List PeerOp)
    (phase : TransportPhase)
    → state_of s p ≡ some known
    → known.generation < u64_max
    → (renewal ≡ begins p) ⊎ (renewal ≡ ends p)
    → let s' = run (step s renewal) ops in transition s' p known.generation phase ≡ (s', none)
late_result_refused s p known renewal ops phase e bound renews =
    let (began, ended) = renew-IsPast s p known e bound in
    let past : IsPast known.generation (state_of (step s renewal) p) = elim renews [
      | inl r ↦ rw r began
      | inr r ↦ rw r ended
    ] in
    refuse_past (run (step s renewal) ops) p known.generation phase
      (run-IsPast (step s renewal) p known.generation ops bound past)
