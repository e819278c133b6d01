-- ===== src/MacApp/NetworkEvents.antt =====
-- mac/src/runtime.rs: the handlers of the events of the nearby services, and what suspending and
-- stopping leave.
use moq_cast_desktop.Base.{
  ℕ, max, Bool, true, false, ◌&&◌, ◌||◌, not, List, [], ◌∷◌, Option, none, some, is_some,
  is_some_and, if◌then◌else◌, saturating_add_u64,
}
use moq_cast_desktop.Base.Bytes.{bytes_eq}
use moq_cast_desktop.Base.Map.{BTreeMap, get, insert, remove, update}
use moq_cast_desktop.Peers.Facts.{visible}
use moq_cast_desktop.MacApp.Lifecycle.{
  begin, apply, RuntimePhase, DiscoveryPhase, SessionPhase, NearbyIssue,
}
use moq_cast_desktop.MacApp.Nearby.{
  PeerSession, connection_of, PeerSnapshot, ScreenView, Nearby, is_available, NetworkGenerations,
  is_current,
}

-- The services have started, under the local peer's id.
unfoldable pub network_started : Nearby → NetworkGenerations → List ℕ → Nearby
unfolding apply
network_started n g local_id = record n {
  local_peer_id = some local_id;
  discovery = (apply n.discovery g.discovery DiscoveryPhase.scanning).0;
  session = (apply n.session g.session SessionPhase.listening).0;
  nearby_issue = none;
}

-- `values().any(…)`
abbrev pub any_value {ℓ} : {V : Type ℓ} → (V → Bool) → BTreeMap V → Bool
any_value p [] = false
any_value p ((k, v) ∷ m) = p v || any_value p m

unfoldable pub has_available_screen : Nearby → List ℕ → Bool
has_available_screen n peer =
    any_value
      (λ (screen : ScreenView). bytes_eq screen.peer_id peer && is_available screen.availability)
      n.remote_screens

-- `network::PeerStatus`, the fields that the snapshot takes.
pub record PeerStatus : Type 0 where
  pub id : List ℕ
  pub view : PeerSnapshot

abbrev pub is_connected : PeerSession → Bool
is_connected PeerSession.connected = true
is_connected _ = false

abbrev pub is_rejection : Option NearbyIssue → Bool
is_rejection (some NearbyIssue.device_rejected) = true
is_rejection _ = false

unfoldable pub peer_changed : Nearby → NetworkGenerations → PeerStatus → Nearby
unfolding insert apply
peer_changed n g status = record n {
  peers = insert status.id status.view n.peers;
  nearby_issue =
      if is_connected status.view.session && is_rejection n.nearby_issue
      then none
      else n.nearby_issue;
  discovery =
      if status.view.discovered
      then (apply n.discovery g.discovery DiscoveryPhase.ready).0
      else n.discovery;
}

abbrev pub undiscovered : PeerSnapshot → PeerSnapshot
undiscovered peer = record peer { discovered = false }

unfoldable pub peer_removed : Nearby → List ℕ → Nearby
unfolding has_available_screen get update remove
peer_removed n id =
    if has_available_screen n id
    then elim (get id n.peers) [
      | none ↦ n
      | some peer ↦ record n { peers = update id (undiscovered peer) n.peers }
    ]
    else record n { peers = remove id n.peers }

-- `values().map(|peer| peer.ordinal).max().unwrap_or(0)`
unfoldable pub max_ordinal : BTreeMap PeerSnapshot → ℕ
max_ordinal [] = 0
max_ordinal ((k, peer) ∷ m) = max peer.ordinal (max_ordinal m)

-- `remote::Update`
pub record ScreenUpdate : Type 0 where
  pub path : List ℕ
  pub view : ScreenView

-- A row for a peer whose screen is announced, and which is not known yet.
abbrev pub announced_peer : BTreeMap PeerSnapshot → PeerSnapshot
announced_peer peers = record {
  bandwidth = none;
  ordinal = saturating_add_u64 (max_ordinal peers) 1;
  discovered = false;
  session = PeerSession.waiting;
}

-- Whether the row would still be shown without the screen.
abbrev pub remains_visible : PeerSnapshot → Bool
remains_visible peer = visible (record {
  discovered = peer.discovered;
  connection = connection_of peer.session;
  available = false;
})

unfoldable pub screen_peers : BTreeMap PeerSnapshot → List ℕ → Bool → BTreeMap PeerSnapshot
unfolding get insert remove max_ordinal visible connection_of
screen_peers peers id is_here =
    if is_here
    then if is_some (get id peers) then peers else insert id (announced_peer peers) peers
    else if is_some_and (λ peer. not (remains_visible peer)) (get id peers)
    then remove id peers
    else peers

unfoldable pub screen_changed : Nearby → ScreenUpdate → Nearby
unfolding insert screen_peers
screen_changed n u = record n {
  remote_screens = insert u.path u.view n.remote_screens;
  peers = screen_peers n.peers u.view.peer_id (is_available u.view.availability);
}

-- `network::Event`
pub data NetworkEvent : Type 0 where
  changed : PeerStatus → NetworkEvent
  removed : List ℕ → NetworkEvent
  inbound_count : ℕ → NetworkEvent
  inbound_rejected discovery_ended listener_ended : NetworkEvent
  screen : ScreenUpdate → NetworkEvent

unfoldable pub network_event : Nearby → NetworkGenerations → NetworkEvent → Nearby
unfolding peer_changed peer_removed screen_changed apply
network_event n g (changed status) = peer_changed n g status
network_event n g (removed id) = peer_removed n id
network_event n g (inbound_count count) = record n { inbound_sessions = count }
network_event n g inbound_rejected = record n { nearby_issue = some NearbyIssue.device_rejected }
network_event n g (screen u) = screen_changed n u
network_event n g discovery_ended = record n {
  discovery = (apply n.discovery g.discovery DiscoveryPhase.failed).0;
  nearby_issue = some NearbyIssue.discovery_stopped;
}
network_event n g listener_ended = record n {
  session = (apply n.session g.session SessionPhase.failed).0;
  nearby_issue = some NearbyIssue.listener_stopped;
}

unfoldable pub apply_network_event : Nearby → NetworkGenerations → NetworkEvent → Nearby
unfolding network_event
apply_network_event n g event = if is_current n g then network_event n g event else n

abbrev pub is_discovered : PeerSnapshot → Bool
is_discovered peer = peer.discovered

-- `if peers.values().any(discovered) { Ready } else { Empty }`
abbrev pub scan_result : Nearby → DiscoveryPhase
scan_result n =
    if any_value is_discovered n.peers then DiscoveryPhase.ready else DiscoveryPhase.empty

abbrev pub is_over : DiscoveryPhase → Bool
is_over DiscoveryPhase.failed = true
is_over DiscoveryPhase.stopped = true
is_over _ = false

unfoldable pub refresh_discovery_result : Nearby → ℕ → Bool → Nearby
unfolding apply
refresh_discovery_result n generation scanned =
    if not scanned || is_over n.discovery.phase
    then n
    else record n { discovery = (apply n.discovery generation (scan_result n)).0 }

unfoldable pub suspend_snapshot : Nearby → Nearby
unfolding begin
suspend_snapshot n = record n {
  local_peer_id = none;
  runtime = begin n.runtime RuntimePhase.suspended;
  discovery = begin n.discovery DiscoveryPhase.stopped;
  session = begin n.session SessionPhase.stopped;
  peers = [];
  remote_screens = [];
  inbound_sessions = 0;
  nearby_issue = none;
}

-- `stop_snapshot`, but for the media, which it clears.
unfoldable pub stop_nearby : Nearby → Nearby
unfolding begin
stop_nearby n = record n {
  local_peer_id = none;
  runtime = begin n.runtime RuntimePhase.stopped;
  discovery = begin n.discovery DiscoveryPhase.stopped;
  session = begin n.session SessionPhase.stopped;
}
