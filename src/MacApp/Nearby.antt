-- ===== src/MacApp/Nearby.antt =====
-- mac/src/runtime.rs: the rest of the snapshot, which the nearby services change, and the handlers of
-- their events. (The fields `capture`, `decoder` and `local_device_name` never change, and are left
-- out.)
use moq_cast_desktop.Base.{
  ℕ, ◌==◌, Bool, true, false, ◌&&◌, not, List, [], Option, none, some, is_some, is_some_and,
  if◌then◌else◌,
}
use moq_cast_desktop.Base.Bytes.{bytes_eq}
use moq_cast_desktop.Base.Map.{BTreeMap, get}
use moq_cast_desktop.Peers.Facts.{Connection, Access, watch}
use moq_cast_desktop.Remote.Paths.{for_peer}
use moq_cast_desktop.MacApp.Lifecycle.{
  Lifecycle, new_lifecycle, begin, apply, RuntimePhase, DiscoveryPhase, SessionPhase, NearbyIssue,
}
use moq_cast_desktop.MacApp.Snapshot.{Media, is_idle}

-- `network::PeerSession`
pub data PeerSession : Type 0 where
  waiting connecting connected rejected failed disconnected : PeerSession

unfoldable pub connection_of : PeerSession → Connection
connection_of PeerSession.waiting = Connection.unknown
connection_of PeerSession.connecting = Connection.connecting
connection_of PeerSession.connected = Connection.connected
connection_of PeerSession.rejected = Connection.rejected
connection_of PeerSession.failed = Connection.failed
connection_of PeerSession.disconnected = Connection.disconnected

-- The view of the bandwidth is the number of its cell, where there is one.
pub record PeerSnapshot : Type 0 where
  pub bandwidth : Option ℕ
  pub ordinal : ℕ
  pub discovered : Bool
  pub session : PeerSession

pub data ScreenAvailability : Type 0 where
  unavailable available withdrawn : ScreenAvailability

pub record ScreenView : Type 0 where
  pub peer_id : List ℕ
  pub availability : ScreenAvailability

pub record Nearby : Type 0 where
  pub runtime : Lifecycle RuntimePhase
  pub discovery : Lifecycle DiscoveryPhase
  pub session : Lifecycle SessionPhase
  pub local_peer_id : Option (List ℕ)
  pub peers : BTreeMap PeerSnapshot
  pub remote_screens : BTreeMap ScreenView
  pub inbound_sessions : ℕ
  pub nearby_stopping : Bool
  pub nearby_issue : Option NearbyIssue

abbrev pub default_nearby : Nearby
default_nearby = record {
  runtime = new_lifecycle RuntimePhase.starting;
  discovery = new_lifecycle DiscoveryPhase.starting;
  session = new_lifecycle SessionPhase.starting;
  local_peer_id = none;
  peers = [];
  remote_screens = [];
  inbound_sessions = 0;
  nearby_stopping = false;
  nearby_issue = none;
}

abbrev pub is_listening : SessionPhase → Bool
is_listening SessionPhase.listening = true
is_listening _ = false

abbrev pub is_available : ScreenAvailability → Bool
is_available ScreenAvailability.available = true
is_available _ = false

unfoldable pub access : Nearby → Media → Access
access n m = record {
  ready = is_listening n.session.phase && not n.nearby_stopping;
  media_idle = is_idle m.media.phase;
}

-- The screen under the path is the peer's, and is available.
abbrev pub shows : Option ScreenView → List ℕ → Bool
shows o peer =
    is_some_and
      (λ (screen : ScreenView). bytes_eq screen.peer_id peer && is_available screen.availability) o

unfoldable pub can_watch : Nearby → Media → List ℕ → List ℕ → Bool
unfolding access watch for_peer get
can_watch n m peer path = watch (access n m) (
    is_some (get peer n.peers)
    && bytes_eq path (for_peer peer)
    && shows (get path n.remote_screens) peer)

-- `NetworkGenerations`
pub record NetworkGenerations : Type 0 where
  pub discovery : ℕ
  pub session : ℕ

unfoldable pub begin_network_start : Nearby → Nearby × NetworkGenerations
unfolding begin
begin_network_start n =
    let discovery = begin n.discovery DiscoveryPhase.starting in
    let session = begin n.session SessionPhase.starting in
    (
      record n {
        local_peer_id = none;
        peers = [];
        remote_screens = [];
        inbound_sessions = 0;
        nearby_issue = none;
        discovery = discovery;
        session = session;
      },
      record { discovery = discovery.generation; session = session.generation },
    )

-- The guard of the events of the services.
abbrev pub is_current : Nearby → NetworkGenerations → Bool
is_current n g = (n.discovery.generation == g.discovery) && (n.session.generation == g.session)

unfoldable pub mark_network_failed : Nearby → NetworkGenerations → NearbyIssue → Nearby × Bool
unfolding apply
mark_network_failed n g issue =
    if is_current n g
    then (
      record n {
        peers = [];
        remote_screens = [];
        inbound_sessions = 0;
        local_peer_id = none;
        discovery = (apply n.discovery g.discovery DiscoveryPhase.failed).0;
        session = (apply n.session g.session SessionPhase.failed).0;
        nearby_issue = some issue;
      },
      true,
    )
    else (n, false)

unfoldable pub mark_network_stopped : Nearby → Nearby
unfolding begin
mark_network_stopped n = record n {
  nearby_stopping = false;
  local_peer_id = none;
  peers = [];
  remote_screens = [];
  inbound_sessions = 0;
  discovery = begin n.discovery DiscoveryPhase.stopped;
  session = begin n.session SessionPhase.stopped;
  nearby_issue = none;
}
