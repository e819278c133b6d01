-- ===== src/WinApp/Snapshot.antt =====
-- windows/src/runtime.rs: the snapshot, and what its operations do with the rows of the devices. (Left
-- out are the names that only stand in it: the device's own, the version, and the shortened id of the
-- session.)
use moq_cast_desktop.Base.{
  ℕ, Bool, true, false, ◌&&◌, not, List, [], ◌∷◌, Option, none, some, is_some, is_some_and,
  if◌then◌else◌,
}
use moq_cast_desktop.Base.Bytes.{bytes_eq}
use moq_cast_desktop.Base.Map.{BTreeMap, get, remove, retain_values}
use moq_cast_desktop.Peers.Facts.{Connection, Peer, visible, Access, watch}
use moq_cast_desktop.Remote.Directory.{ScreenAvailability, RemoteScreenView}

pub data DiscoveryState : Type 0 where
  starting ready empty stopping failed stopped : DiscoveryState

-- `DiscoveryState::is_active`
unfoldable pub is_active : DiscoveryState → Bool
is_active DiscoveryState.starting = true
is_active DiscoveryState.ready = true
is_active DiscoveryState.empty = true
is_active _ = false

pub data TransportDirectionView : Type 0 where
  inbound_view outbound_view : TransportDirectionView

pub data TransportPhaseView : Type 0 where
  waiting connecting connected rejected failed disconnected : TransportPhaseView

pub record TransportView : Type 0 where
  pub generation : ℕ
  pub direction : Option TransportDirectionView
  pub phase : TransportPhaseView

-- `TransportView::default`
abbrev pub default_transport : TransportView
default_transport = record { generation = 0; direction = none; phase = TransportPhaseView.waiting }

-- The view of the bandwidth is the number of its cell, where there is one.
pub record PeerView : Type 0 where
  pub bandwidth : Option ℕ
  pub id : List ℕ
  pub candidates : List (List ℕ)
  pub should_dial : Bool
  pub authenticated_discovery : Bool
  pub tls_pinned : Bool
  pub present : Bool
  pub transport : TransportView
  pub screen : ScreenAvailability

-- `match self.transport.phase`
abbrev pub phase_connection : TransportPhaseView → Connection
phase_connection TransportPhaseView.waiting = Connection.unknown
phase_connection TransportPhaseView.connecting = Connection.connecting
phase_connection TransportPhaseView.connected = Connection.connected
phase_connection TransportPhaseView.rejected = Connection.rejected
phase_connection TransportPhaseView.failed = Connection.failed
phase_connection TransportPhaseView.disconnected = Connection.disconnected

abbrev pub is_outbound : Option TransportDirectionView → Bool
is_outbound (some TransportDirectionView.outbound_view) = true
is_outbound _ = false

abbrev pub is_available : ScreenAvailability → Bool
is_available ScreenAvailability.available = true
is_available _ = false

-- `PeerView::facts`
unfoldable pub facts : PeerView → Peer
facts p = record {
  discovered = p.present;
  connection =
      if is_outbound p.transport.direction
      then phase_connection p.transport.phase
      else Connection.unknown;
  available = is_available p.screen;
}

-- `crate::media::MediaPhase` and `ViewPhase`
pub data MediaPhase : Type 0 where
  idle preparing sharing stopping failed : MediaPhase

pub data ViewPhase : Type 0 where
  idle preparing viewing stopping failed : ViewPhase

pub record RuntimeSnapshot : Type 0 where
  pub discovery : DiscoveryState
  pub media : MediaPhase
  pub view : ViewPhase
  pub remote_screens : BTreeMap RemoteScreenView
  pub peers : BTreeMap PeerView
  pub inbound_sessions : ℕ
  pub listener : Option (List ℕ)
  pub local_id : Option (List ℕ)
  pub last_error : Option (List ℕ)
  pub stopping : Bool

abbrev pub default_snapshot : RuntimeSnapshot
default_snapshot = record {
  discovery = DiscoveryState.starting;
  media = MediaPhase.idle;
  view = ViewPhase.idle;
  remote_screens = [];
  peers = [];
  inbound_sessions = 0;
  listener = none;
  local_id = none;
  last_error = none;
  stopping = false;
}

abbrev pub is_leaving : DiscoveryState → Bool
is_leaving DiscoveryState.stopping = true
is_leaving DiscoveryState.stopped = true
is_leaving _ = false

abbrev pub media_rests : MediaPhase → Bool
media_rests MediaPhase.idle = true
media_rests MediaPhase.failed = true
media_rests _ = false

abbrev pub view_rests : ViewPhase → Bool
view_rests ViewPhase.idle = true
view_rests ViewPhase.failed = true
view_rests _ = false

unfoldable pub access : RuntimeSnapshot → Access
access s = record {
  ready = is_some s.local_id && not s.stopping && not (is_leaving s.discovery);
  media_idle = media_rests s.media && view_rests s.view;
}

unfoldable pub can_watch : RuntimeSnapshot → List ℕ → Bool
unfolding access watch get
can_watch s path = watch (access s) (
    is_some_and (λ (screen : RemoteScreenView). is_available screen.availability)
      (get path s.remote_screens))

unfoldable pub begin_scan : RuntimeSnapshot → RuntimeSnapshot
begin_scan s = record s { discovery = DiscoveryState.starting; last_error = none }

unfoldable pub started_scan : RuntimeSnapshot → List ℕ → List ℕ → RuntimeSnapshot
started_scan s listener local_id = record s {
  discovery = DiscoveryState.empty;
  listener = some listener;
  local_id = some local_id;
  last_error = none;
}

unfoldable pub begin_stop_scan : RuntimeSnapshot → RuntimeSnapshot × Bool
unfolding is_active
begin_stop_scan s =
    if is_active s.discovery
    then (record s { discovery = DiscoveryState.stopping; last_error = none }, true)
    else (s, false)

unfoldable pub clear_lan_state : RuntimeSnapshot → RuntimeSnapshot
clear_lan_state s = record s {
  peers = [];
  remote_screens = [];
  inbound_sessions = 0;
  listener = none;
  local_id = none;
}

unfoldable pub stopped_scan : RuntimeSnapshot → RuntimeSnapshot
unfolding clear_lan_state
stopped_scan s = record (clear_lan_state s) {
  discovery = DiscoveryState.stopped;
  last_error = none;
}

unfoldable pub failed_scan : RuntimeSnapshot → List ℕ → RuntimeSnapshot
unfolding clear_lan_state
failed_scan s message = record (clear_lan_state s) {
  discovery = DiscoveryState.failed;
  last_error = some message;
}

abbrev pub is_visible : PeerView → Bool
unfolding facts visible
is_visible p = visible (facts p)

unfoldable pub peer_remains_visible : RuntimeSnapshot → List ℕ → Bool
unfolding get facts visible
peer_remains_visible s peer = is_some_and (λ p. visible (facts p)) (get peer s.peers)

-- The row goes, with the screens of its peer.
unfoldable pub remove_peer : RuntimeSnapshot → List ℕ → RuntimeSnapshot
unfolding remove retain_values
remove_peer s peer = record s {
  peers = remove peer s.peers;
  remote_screens =
      retain_values (λ (screen : RemoteScreenView). not (bytes_eq screen.peer_id peer))
        s.remote_screens;
}

unfoldable pub prune_inactive_peer : RuntimeSnapshot → List ℕ → RuntimeSnapshot
unfolding peer_remains_visible remove_peer
prune_inactive_peer s peer = if peer_remains_visible s peer then s else remove_peer s peer

-- The keys, which are taken before the first row goes.
unfoldable pub keys {ℓ} : {V : Type ℓ} → BTreeMap V → List (List ℕ)
keys [] = []
keys ((k, v) ∷ m) = k ∷ keys m

unfoldable pub prune_all : RuntimeSnapshot → List (List ℕ) → RuntimeSnapshot
unfolding prune_inactive_peer
prune_all s [] = s
prune_all s (peer ∷ peers) = prune_all (prune_inactive_peer s peer) peers

unfoldable pub prune_inactive_peers : RuntimeSnapshot → RuntimeSnapshot
unfolding prune_all keys
prune_inactive_peers s = prune_all s (keys s.peers)

unfoldable pub set_inbound_session_count : RuntimeSnapshot → ℕ → RuntimeSnapshot
unfolding prune_inactive_peers
set_inbound_session_count s count = prune_inactive_peers (record s { inbound_sessions = count })
