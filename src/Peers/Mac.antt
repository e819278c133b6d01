-- ===== src/Peers/Mac.antt =====
-- mac/src/network/session/state.rs: the transport state of every peer, guarded by one generation
-- counter for all of them; a peer whose connection was ended is forgotten.
use moq_cast_desktop.Base.{
  ℕ, ◌==◌, if◌then◌else◌, Option, none, some, List, [], ◌∷◌, saturating_add_u64,
}
use moq_cast_desktop.Base.Map.{BTreeMap, get, insert, remove}
use moq_cast_desktop.Peers.Transport.{
  TransportState, TransportPhase, connecting, disconnected, outbound, PeerOp, begins, transitions,
  ends,
}

pub record PeerStates : Type 0 where
  pub next_generation : ℕ
  pub states : BTreeMap TransportState

-- `PeerStates::get`
unfoldable pub state_of : PeerStates → List ℕ → Option TransportState
unfolding get
state_of s peer = get peer s.states

unfoldable pub fresh_generation : PeerStates → PeerStates × ℕ
unfolding saturating_add_u64
fresh_generation s =
    let fresh = saturating_add_u64 s.next_generation 1 in
    (record s { next_generation = fresh }, fresh)

-- `self.states.insert(peer.to_owned(), state)`
unfoldable pub put : PeerStates → List ℕ → TransportState → PeerStates
unfolding insert
put s peer state = record s { states = insert peer state s.states }

unfoldable pub begin : PeerStates → List ℕ → PeerStates × TransportState
unfolding put fresh_generation outbound
begin s peer =
    let (s', generation) = fresh_generation s in
    let state = outbound generation connecting in (put s' peer state, state)

unfoldable pub transition :
    PeerStates → List ℕ → ℕ → TransportPhase → PeerStates × Option TransportState
unfolding put state_of outbound
transition s peer generation phase = elim (state_of s peer) [
  | none ↦ (s, none)
  | some current ↦
      if current.generation == generation
      then (put s peer (outbound generation phase), some (outbound generation phase))
      else (s, none)
]

unfoldable pub disconnect : PeerStates → List ℕ → PeerStates × Option TransportState
unfolding remove state_of fresh_generation outbound
disconnect s peer = elim (state_of s peer) [
  | none ↦ (s, none)
  | some known ↦
      let (s', generation) = fresh_generation (record s { states = remove peer s.states }) in
      (s', some (outbound generation disconnected))
]

unfoldable pub step : PeerStates → PeerOp → PeerStates
unfolding begin transition disconnect
step s (begins peer) = (begin s peer).0
step s (transitions peer generation phase) = (transition s peer generation phase).0
step s (ends peer) = (disconnect s peer).0

unfoldable pub run : PeerStates → List PeerOp → PeerStates
unfolding step
run s [] = s
run s (op ∷ ops) = run (step s op) ops
