-- ===== src/Peers/Transport.antt =====
-- The transport states that windows/src/session/state.rs and mac/src/network/session/state.rs
-- declare alike.
use moq_cast_desktop.Base.{ℕ, List}

pub data TransportDirection : Type 0 where
  inbound_way outbound_way : TransportDirection

pub data TransportPhase : Type 0 where
  connecting connected rejected failed disconnected : TransportPhase

pub record TransportState : Type 0 where
  pub generation : ℕ
  pub direction : TransportDirection
  pub phase : TransportPhase

unfoldable pub inbound : ℕ → TransportPhase → TransportState
inbound generation phase = record {
  generation = generation;
  direction = inbound_way;
  phase = phase;
}

unfoldable pub outbound : ℕ → TransportPhase → TransportState
outbound generation phase = record {
  generation = generation;
  direction = outbound_way;
  phase = phase;
}

-- An operation of a session on the transport states of its peers.
pub data PeerOp : Type 0 where
  begins : List ℕ → PeerOp
  transitions : List ℕ → ℕ → TransportPhase → PeerOp
  ends : List ℕ → PeerOp

abbrev pub peer_of : PeerOp → List ℕ
peer_of (begins peer) = peer
peer_of (transitions peer generation phase) = peer
peer_of (ends peer) = peer
