-- ===== src/Peers/Tests.antt =====
-- Runs of the peer states, and instances of their theorems.
use moq_cast_desktop.Base.{
  ◌≡◌, inl, inr, refl, true, false, List, [], ◌∷◌, none, some, arith, ltb→lt,
}
use moq_cast_desktop.Base.Bytes.{bytes}
use moq_cast_desktop.Peers.Facts.{
  Peer, connected, disconnected, visible, status, is_stale, not_discovered, is_active, watch,
  row_connected,
}
use moq_cast_desktop.Peers.Bandwidth.{
  Sample, Store, default_sample, observe, view, sample_of, reset, update,
}
use moq_cast_desktop.Peers.Reconnect.{Op, observes, updates, run, reconnect_isolates}
use moq_cast_desktop.Peers.Transport.{
  TransportState, PeerOp, begins, transitions, ends, connected, failed, outbound, connecting,
}
use moq_cast_desktop.Peers.Windows
use moq_cast_desktop.Peers.Late.{late_result_refused}
use moq_cast_desktop.Peers.Mac
use moq_cast_desktop.Peers.Forgotten.{forgotten_result_refused}

abbrev ghost : Peer
ghost = record {
  discovered = false;
  connection = moq_cast_desktop.Peers.Facts.disconnected;
  available = false;
}

abbrev watched : Peer
watched = record {
  discovered = true;
  connection = moq_cast_desktop.Peers.Facts.connected;
  available = false;
}

abbrev empty : Store
empty = record { next = 0; cells = λ id. none }

abbrev estimate : Sample
estimate = record { send_bps = some 123; recv_bps = some 456 }

abbrev two_links : Store
two_links = (observe (observe empty).0).0

abbrev meanwhile : List Op
meanwhile = observes ∷ updates 0 1 estimate ∷ updates 1 2 estimate ∷ []

abbrev afterwards : List Op
afterwards = updates 0 1 default_sample ∷ []

reconnect_isolates_example :
    let quiet = run (reset two_links 0 2) meanwhile in
    (sample_of quiet (view 0) ≡ default_sample)
    × (sample_of (run (update quiet 0 2 estimate) afterwards) (view 0) ≡ estimate)
unfolding observe
reconnect_isolates_example =
    reconnect_isolates two_links 0 2 estimate meanwhile afterwards (omega arith)
      (refl, (inr (omega arith), (inl (omega arith), tt))) (inr (omega arith), tt)

abbrev first_attempt : Windows.PeerStates
first_attempt = (Windows.begin (record { states = [] }) (bytes "peer")).0

abbrev dialled : TransportState
dialled = outbound 1 connecting

abbrev noise : List PeerOp
noise = begins (bytes "other") ∷ transitions (bytes "peer") 2 connected ∷ []

late_result_refused_example :
    let s' = Windows.run (Windows.step first_attempt (begins (bytes "peer"))) noise in
    Windows.transition s' (bytes "peer") 1 failed ≡ (s', none)
unfolding Windows.state_of Windows.begin
late_result_refused_example =
    late_result_refused first_attempt (bytes "peer") dialled (begins (bytes "peer")) noise failed
      refl (omega arith) (inl refl)

abbrev nobody : Mac.PeerStates
nobody = record { next_generation = 0; states = [] }

forgotten_result_refused_example :
    let s' =
      Mac.run
        (Mac.step (Mac.run (Mac.begin nobody (bytes "peer")).0 noise) (ends (bytes "peer")))
        (begins (bytes "peer") ∷ []) in
    Mac.transition s' (bytes "peer") (Mac.begin nobody (bytes "peer")).1.generation connected
    ≡ (s', none)
unfolding Mac.run Mac.begin
forgotten_result_refused_example =
    forgotten_result_refused nobody (bytes "peer") noise (ends (bytes "peer"))
      (begins (bytes "peer") ∷ []) connected tt (ltb→lt _ _ refl) (inr refl)
