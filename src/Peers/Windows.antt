-- ===== src/Peers/Windows.antt =====
-- windows/src/session/state.rs: the transport state of every peer, guarded by a generation that
-- each peer counts on its own. A result that reports for an older generation comes too late.
use moq_cast_desktop.Base.{
  ℕ, ◌==◌, if◌then◌else◌, Option, none, some, List, [], ◌∷◌, saturating_add_u64,
}
use moq_cast_desktop.Base.Map.{BTreeMap, get, insert}
use moq_cast_desktop.Peers.Transport.{
  TransportState, TransportPhase, connecting, disconnected, outbound, PeerOp, begins, transitions,
  ends,
}

pub record PeerStates : Type 0 where
  pub states : BTreeMap TransportState

-- `PeerStates::get`
unfoldable pub state_of : PeerStates → List ℕ → Option TransportState
unfolding get
state_of s peer = get peer s.states

-- `map_or(1, |state| state.generation.saturating_add(1))`
unfoldable pub generation_after : Option TransportState → ℕ
unfolding saturating_add_u64
generation_after none = 1
generation_after (some state) = saturating_add_u64 state.generation 1

unfoldable pub next_generation : PeerStates → List ℕ → ℕ
unfolding state_of generation_after
next_generation s peer = generation_after (state_of s peer)

-- `self.states.insert(peer.to_owned(), state)`
unfoldable pub put : PeerStates → List ℕ → TransportState → PeerStates
unfolding insert
put s peer state = record { states = insert peer state s.states }

unfoldable pub begin : PeerStates → List ℕ → PeerStates × TransportState
unfolding put next_generation outbound
begin s peer = let state = outbound (next_generation s peer) connecting in (put s peer state, state)

unfoldable pub transition :
    PeerStates → List ℕ → ℕ → TransportPhase → PeerStates × Option TransportState
unfolding put state_of outbound
transition s peer generation phase = elim (state_of s peer) [
  | none ↦ (s, none)
  | some current ↦
      if current.generation == generation
      then (put s peer (outbound generation phase), some (outbound generation phase))
      else (s, none)
]

unfoldable pub disconnect : PeerStates → List ℕ → PeerStates × Option TransportState
unfolding put state_of next_generation outbound
disconnect s peer = elim (state_of s peer) [
  | none ↦ (s, none)
  | some known ↦
      let state = outbound (next_generation s peer) disconnected in (put s peer state, some state)
]

unfoldable pub step : PeerStates → PeerOp → PeerStates
unfolding begin transition disconnect
step s (begins peer) = (begin s peer).0
step s (transitions peer generation phase) = (transition s peer generation phase).0
step s (ends peer) = (disconnect s peer).0

unfoldable pub run : PeerStates → List PeerOp → PeerStates
unfolding step
run s [] = s
run s (op ∷ ops) = run (step s op) ops
