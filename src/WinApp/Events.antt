-- ===== src/WinApp/Events.antt =====
-- windows/src/runtime.rs: what the events of the registry, of the directory and of the sessions do to
-- the snapshot. The ids are those that sanitize_identity has given.
use moq_cast_desktop.Base.{
  ℕ, ◌-◌, Bool, true, false, ◌&&◌, ◌||◌, List, [], ◌∷◌, Option, none, some, is_some_and,
  if◌then◌else◌, ltb, leb, saturating_add_u64,
}
use moq_cast_desktop.Base.Map.{BTreeMap, get, insert, update}
use moq_cast_desktop.Remote.Paths.{for_peer}
use moq_cast_desktop.Remote.Directory.{ScreenAvailability, RemoteScreenView, Update}
use moq_cast_desktop.Base.Bytes.{bytes_eq}
use moq_cast_desktop.WinApp.Snapshot.{
  DiscoveryState, TransportDirectionView, TransportPhaseView, TransportView, default_transport,
  PeerView, is_available, RuntimeSnapshot, stopped_scan, failed_scan, prune_inactive_peer,
  set_inbound_session_count, begin_scan, started_scan, begin_stop_scan,
}

-- registry.rs: `PeerSummary`, `RegistryChange`
pub record PeerSummary : Type 0 where
  pub id : List ℕ
  pub candidates : List (List ℕ)
  pub should_dial : Bool
  pub authenticated_discovery : Bool
  pub tls_pinned : Bool

pub data RegistryChange : Type 0 where
  added updated : PeerSummary → RegistryChange
  removed : List ℕ → RegistryChange
  unchanged ignored_self : RegistryChange

abbrev pub availability_of : Option RemoteScreenView → ScreenAvailability
availability_of none = ScreenAvailability.unavailable
availability_of (some screen) = screen.availability

-- `and_modify`
unfoldable pub refreshed : PeerView → PeerSummary → ScreenAvailability → PeerView
refreshed peer summary screen = record peer {
  candidates = summary.candidates;
  should_dial = summary.should_dial;
  authenticated_discovery = summary.authenticated_discovery;
  tls_pinned = summary.tls_pinned;
  present = true;
  screen = screen;
}

-- `or_insert`
unfoldable pub discovered : PeerSummary → ScreenAvailability → PeerView
discovered summary screen = record {
  bandwidth = none;
  id = summary.id;
  candidates = summary.candidates;
  should_dial = summary.should_dial;
  authenticated_discovery = summary.authenticated_discovery;
  tls_pinned = summary.tls_pinned;
  present = true;
  transport = default_transport;
  screen = screen;
}

unfoldable pub upsert : RuntimeSnapshot → PeerSummary → RuntimeSnapshot
unfolding get insert update for_peer refreshed discovered
upsert s summary =
    let screen = availability_of (get (for_peer summary.id) s.remote_screens) in
    elim (get summary.id s.peers) [
      | some peer ↦ record s { peers = update summary.id (refreshed peer summary screen) s.peers }
      | none ↦ record s { peers = insert summary.id (discovered summary screen) s.peers }
    ]

abbrev pub lost : PeerView → PeerView
lost peer = record peer { present = false; candidates = [] }

unfoldable pub remove_presence : RuntimeSnapshot → List ℕ → RuntimeSnapshot
unfolding get update prune_inactive_peer
remove_presence s id =
    prune_inactive_peer
      (elim (get id s.peers) [
        | some peer ↦ record s { peers = update id (lost peer) s.peers }
        | none ↦ s
      ])
      id

abbrev pub any_present : BTreeMap PeerView → Bool
any_present [] = false
any_present ((k, p) ∷ m) = p.present || any_present m

-- The state after a change of the registry
unfoldable pub found_result : RuntimeSnapshot → RuntimeSnapshot
found_result s = record s {
  discovery = if any_present s.peers then DiscoveryState.ready else DiscoveryState.empty;
}

unfoldable pub apply_registry : RuntimeSnapshot → RegistryChange → RuntimeSnapshot
unfolding upsert remove_presence found_result
apply_registry s (added summary) = found_result (upsert s summary)
apply_registry s (updated summary) = found_result (upsert s summary)
apply_registry s (removed id) = found_result (remove_presence s id)
apply_registry s unchanged = s
apply_registry s ignored_self = s

-- A row for a screen whose peer is not known.
abbrev pub route_only : List ℕ → ScreenAvailability → PeerView
route_only id screen = record {
  bandwidth = none;
  id = id;
  candidates = [];
  should_dial = false;
  authenticated_discovery = false;
  tls_pinned = false;
  present = false;
  transport = default_transport;
  screen = screen;
}

abbrev pub same_availability : ScreenAvailability → ScreenAvailability → Bool
same_availability ScreenAvailability.unavailable ScreenAvailability.unavailable = true
same_availability ScreenAvailability.available ScreenAvailability.available = true
same_availability ScreenAvailability.withdrawn ScreenAvailability.withdrawn = true
same_availability _ _ = false

abbrev pub same_view : RemoteScreenView → RemoteScreenView → Bool
same_view a b = bytes_eq a.peer_id b.peer_id && same_availability a.availability b.availability

abbrev pub with_screen : ScreenAvailability → PeerView → PeerView
with_screen screen peer = record peer { screen = screen }

-- The row of the screen's peer: made where there is none for a screen that is there, and pruned.
unfoldable pub show_screen : RuntimeSnapshot → List ℕ → ScreenAvailability → RuntimeSnapshot
unfolding get insert update prune_inactive_peer
show_screen s id screen = elim (get id s.peers) [
  | some peer ↦
      prune_inactive_peer (record s { peers = update id (with_screen screen peer) s.peers }) id
  | none ↦
      if is_available screen
      then prune_inactive_peer (record s { peers = insert id (route_only id screen) s.peers }) id
      else s
]

unfoldable pub update_remote_screen : RuntimeSnapshot → Update → RuntimeSnapshot × Bool
unfolding get insert show_screen
update_remote_screen s u =
    if is_some_and (λ screen. same_view screen u.view) (get u.path s.remote_screens)
    then (s, false)
    else (
      show_screen (record s { remote_screens = insert u.path u.view s.remote_screens })
          u.view.peer_id u.view.availability,
      true,
    )

abbrev pub may_connect : TransportPhaseView → Bool
may_connect TransportPhaseView.connected = false
may_connect TransportPhaseView.rejected = false
may_connect _ = true

unfoldable pub should_auto_connect : RuntimeSnapshot → List ℕ → Bool
unfolding get
should_auto_connect s peer =
    is_some_and (λ (p : PeerView). p.present && p.should_dial && may_connect p.transport.phase)
      (get peer s.peers)

abbrev pub is_connecting : TransportPhaseView → Bool
is_connecting TransportPhaseView.connecting = true
is_connecting _ = false

abbrev pub dialled : PeerView → PeerView
dialled p = record p {
  transport = record {
    generation = saturating_add_u64 p.transport.generation 1;
    direction = some TransportDirectionView.outbound_view;
    phase = TransportPhaseView.connecting;
  };
}

unfoldable pub begin_auto_connect : RuntimeSnapshot → List ℕ → RuntimeSnapshot × Option ℕ
unfolding should_auto_connect get update
begin_auto_connect s peer =
    if should_auto_connect s peer
    then elim (get peer s.peers) [
      | none ↦ (s, none)
      | some current ↦
          if is_connecting current.transport.phase
          then (s, some current.transport.generation)
          else (
            record s { peers = update peer (dialled current) s.peers },
            some (saturating_add_u64 current.transport.generation 1),
          )
    ]
    else (s, none)

unfoldable pub apply_transport : RuntimeSnapshot → List ℕ → TransportView → RuntimeSnapshot
unfolding get update prune_inactive_peer
apply_transport s peer u = elim (get peer s.peers) [
  | none ↦ s
  | some current ↦
      if ltb u.generation current.transport.generation
      then s
      else prune_inactive_peer
          (record s { peers = update peer (record current { transport = u }) s.peers }) peer
]

-- The new view of the bandwidth, where the update is not older.
unfoldable pub measure : RuntimeSnapshot → List ℕ → ℕ → Option ℕ → RuntimeSnapshot
unfolding get update
measure s peer generation bandwidth = elim (get peer s.peers) [
  | none ↦ s
  | some current ↦
      if leb current.transport.generation generation
      then record s { peers = update peer (record current { bandwidth = bandwidth }) s.peers }
      else s
]

-- `TransportUpdate`: of a peer's session, or the phase of an inbound one.
pub data TransportUpdate : Type 0 where
  of_peer : List ℕ → TransportView → Option ℕ → TransportUpdate
  of_inbound : TransportPhaseView → TransportUpdate

unfoldable pub inbound_count : ℕ → TransportPhaseView → ℕ
unfolding saturating_add_u64
inbound_count n TransportPhaseView.connected = saturating_add_u64 n 1
inbound_count n TransportPhaseView.disconnected = n - 1
inbound_count n _ = n

unfoldable pub apply_session_update : RuntimeSnapshot → TransportUpdate → RuntimeSnapshot
unfolding apply_transport measure set_inbound_session_count inbound_count
apply_session_update s (of_peer peer view bandwidth) =
    apply_transport (measure s peer view.generation bandwidth) peer view
apply_session_update s (of_inbound phase) =
    set_inbound_session_count s (inbound_count s.inbound_sessions phase)

-- `RuntimeSnapshot::shutdown`
unfoldable pub shut_down : RuntimeSnapshot → RuntimeSnapshot
unfolding failed_scan stopped_scan
shut_down s =
    let s' = record s { stopping = true } in
    elim s.last_error [ some error ↦ failed_scan s' error | none ↦ stopped_scan s' ]

pub data SnapshotOp : Type 0 where
  begins_scan stops_scan stopped_scanning shuts_down : SnapshotOp
  started_scanning : List ℕ → List ℕ → SnapshotOp
  failed_scanning : List ℕ → SnapshotOp
  registers : RegistryChange → SnapshotOp
  updates_screen : Update → SnapshotOp
  connects : List ℕ → SnapshotOp
  transports : TransportUpdate → SnapshotOp

unfoldable pub step : RuntimeSnapshot → SnapshotOp → RuntimeSnapshot
unfolding begin_scan begin_stop_scan stopped_scan shut_down started_scan failed_scan apply_registry
    update_remote_screen begin_auto_connect apply_session_update
step s begins_scan = begin_scan s
step s stops_scan = (begin_stop_scan s).0
step s stopped_scanning = stopped_scan s
step s shuts_down = shut_down s
step s (started_scanning listener local_id) = started_scan s listener local_id
step s (failed_scanning message) = failed_scan s message
step s (registers change) = apply_registry s change
step s (updates_screen u) = (update_remote_screen s u).0
step s (connects peer) = (begin_auto_connect s peer).0
step s (transports u) = apply_session_update s u

unfoldable pub run : RuntimeSnapshot → List SnapshotOp → RuntimeSnapshot
unfolding step
run s [] = s
run s (op ∷ ops) = run (step s op) ops
