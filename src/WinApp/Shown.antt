-- ===== src/WinApp/Shown.antt =====
-- windows/src/runtime.rs: every operation keeps the rows that are shown, and no others.
use moq_cast_desktop.Base.{
  ℕ, ◌≡◌, refl, Bool, true, false, List, [], ◌∷◌, Option, none, some, if◌then◌else◌, ltb, leb,
  saturating_add_u64, arith,
}
use moq_cast_desktop.Base.Bytes.{bytes_eq_refl}
use moq_cast_desktop.Base.Map.{BTreeMap, get, insert, update}
use moq_cast_desktop.Peers.Facts.{visible}
use moq_cast_desktop.Remote.Paths.{for_peer}
use moq_cast_desktop.Remote.Directory.{ScreenAvailability, Update}
use moq_cast_desktop.WinApp.Snapshot.{
  TransportView, PeerView, is_available, facts, RuntimeSnapshot, default_snapshot, stopped_scan,
  failed_scan, clear_lan_state, prune_inactive_peer, set_inbound_session_count,
  prune_inactive_peers, keys, begin_scan, started_scan, begin_stop_scan,
}
use moq_cast_desktop.WinApp.Events.{
  PeerSummary, RegistryChange, added, updated, removed, unchanged, ignored_self, availability_of,
  refreshed, discovered, upsert, lost, remove_presence, found_result, apply_registry, route_only,
  with_screen, show_screen, update_remote_screen, should_auto_connect, dialled, is_connecting,
  begin_auto_connect, apply_transport, measure, TransportUpdate, of_peer, of_inbound,
  apply_session_update, shut_down, inbound_count, SnapshotOp, begins_scan, stops_scan,
  stopped_scanning, shuts_down, started_scanning, failed_scanning, registers, updates_screen,
  connects, transports, step, run,
}
use moq_cast_desktop.WinApp.Rows.{
  shown, all_shown, others_shown, all_shown-insert, all_shown-update, others_shown-update,
  others_shown_of_all, prune-shown, prune_all-shown,
}

shown_of_get :
    (id : List ℕ) (p : PeerView) (m : BTreeMap PeerView)
    → all_shown m ≡ true
    → get id m ≡ some p
    → shown p ≡ true
unfolding get
shown_of_get id p [] a h = cc
shown_of_get id p ((k, q) ∷ m) a h = ground (arith, shown_of_get id p m)

refreshed-shown :
    (p : PeerView) (summary : PeerSummary) (screen : ScreenAvailability)
    → shown (refreshed p summary screen) ≡ true
unfolding refreshed facts visible
refreshed-shown p summary screen = ground arith

discovered-shown :
    (summary : PeerSummary) (screen : ScreenAvailability) → shown (discovered summary screen) ≡ true
unfolding discovered facts visible
discovered-shown summary screen = ground arith

dialled-shown : (p : PeerView) → shown (dialled p) ≡ true
unfolding facts visible
dialled-shown p = ground arith

upsert-shown :
    (s : RuntimeSnapshot) (summary : PeerSummary)
    → all_shown s.peers ≡ true
    → all_shown (upsert s summary).peers ≡ true
unfolding upsert
upsert-shown s summary a = go (get summary.id s.peers)
  where
    screen : ScreenAvailability
    screen = availability_of (get (for_peer summary.id) s.remote_screens)

    go :
        (o : Option PeerView)
        → all_shown
            (elim o as (λ x. RuntimeSnapshot) [
              | some peer ↦ record s {
                peers = update summary.id (refreshed peer summary screen) s.peers;
              }
              | none ↦ record s { peers = insert summary.id (discovered summary screen) s.peers }
            ]).peers
          ≡ true
    go (some peer) =
        all_shown-update summary.id (refreshed peer summary screen) s.peers
          (refreshed-shown peer summary screen) a
    go none =
        all_shown-insert summary.id (discovered summary screen) s.peers
          (discovered-shown summary screen) a

remove_presence-shown :
    (s : RuntimeSnapshot) (id : List ℕ)
    → all_shown s.peers ≡ true
    → all_shown (remove_presence s id).peers ≡ true
unfolding remove_presence
remove_presence-shown s id a = go (get id s.peers)
  where
    go :
        (o : Option PeerView)
        → all_shown
            (prune_inactive_peer
              (elim o as (λ x. RuntimeSnapshot) [
                | some peer ↦ record s { peers = update id (lost peer) s.peers }
                | none ↦ s
              ])
              id).peers
          ≡ true
    go (some peer) =
        prune-shown (record s { peers = update id (lost peer) s.peers }) id
          (others_shown-update id (lost peer) s.peers a)
    go none = prune-shown s id (others_shown_of_all id s.peers a)

apply_registry-shown :
    (s : RuntimeSnapshot) (change : RegistryChange)
    → all_shown s.peers ≡ true
    → all_shown (apply_registry s change).peers ≡ true
unfolding apply_registry found_result
apply_registry-shown s (added summary) a = upsert-shown s summary a
apply_registry-shown s (updated summary) a = upsert-shown s summary a
apply_registry-shown s (removed id) a = remove_presence-shown s id a
apply_registry-shown s unchanged a = a
apply_registry-shown s ignored_self a = a

others_shown-insert :
    (id : List ℕ) (p : PeerView) (m : BTreeMap PeerView)
    → all_shown m ≡ true
    → others_shown id (insert id p m) ≡ true
unfolding insert
others_shown-insert id p [] a = ground (arith, bytes_eq_refl id)
others_shown-insert id p ((k, q) ∷ m) a =
    ground (arith, others_shown-insert id p m, bytes_eq_refl id)

show_screen-shown :
    (s : RuntimeSnapshot) (id : List ℕ) (screen : ScreenAvailability)
    → all_shown s.peers ≡ true
    → all_shown (show_screen s id screen).peers ≡ true
unfolding show_screen
show_screen-shown s id screen a = go (get id s.peers) (is_available screen)
  where
    go :
        (o : Option PeerView) (b : Bool)
        → all_shown
            (elim o as (λ x. RuntimeSnapshot) [
              | some peer ↦
                  prune_inactive_peer
                    (record s { peers = update id (with_screen screen peer) s.peers })
                    id
              | none ↦
                  if b
                  then prune_inactive_peer
                      (record s { peers = insert id (route_only id screen) s.peers })
                      id
                  else s
            ]).peers
          ≡ true
    go (some peer) b =
        prune-shown (record s { peers = update id (with_screen screen peer) s.peers }) id
          (others_shown-update id (with_screen screen peer) s.peers a)
    go none true =
        prune-shown (record s { peers = insert id (route_only id screen) s.peers }) id
          (others_shown-insert id (route_only id screen) s.peers a)
    go none false = a

update_remote_screen-shown :
    (s : RuntimeSnapshot) (u : Update)
    → all_shown s.peers ≡ true
    → all_shown (update_remote_screen s u).0.peers ≡ true
unfolding update_remote_screen
update_remote_screen-shown s u a = ground (
  arith,
  show_screen-shown (record s { remote_screens = insert u.path u.view s.remote_screens })
      u.view.peer_id u.view.availability a,
)

begin_auto_connect-shown :
    (s : RuntimeSnapshot) (id : List ℕ)
    → all_shown s.peers ≡ true
    → all_shown (begin_auto_connect s id).0.peers ≡ true
unfolding begin_auto_connect
begin_auto_connect-shown s id a = go (should_auto_connect s id) (get id s.peers)
  where
    go :
        (b : Bool) (o : Option PeerView)
        → all_shown
            (if b
              then elim o as (λ x. RuntimeSnapshot × Option ℕ) [
                | none ↦ (s, none)
                | some current ↦
                    if is_connecting current.transport.phase
                    then (s, some current.transport.generation)
                    else (
                      record s { peers = update id (dialled current) s.peers },
                      some (saturating_add_u64 current.transport.generation 1),
                    )
              ]
              else (s, none)).0.peers
          ≡ true
    go false o = a
    go true none = a
    go true (some current) =
        ground (arith, all_shown-update id (dialled current) s.peers (dialled-shown current) a)

same_shown :
    (p : PeerView) (bandwidth : Option ℕ)
    → shown p ≡ true
    → shown (record p { bandwidth = bandwidth }) ≡ true
unfolding facts visible
same_shown p bandwidth h = h

measure-shown :
    (s : RuntimeSnapshot) (id : List ℕ) (generation : ℕ) (bandwidth : Option ℕ)
    → all_shown s.peers ≡ true
    → all_shown (measure s id generation bandwidth).peers ≡ true
unfolding measure
measure-shown s id generation bandwidth a = go (get id s.peers) refl
  where
    go :
        (o : Option PeerView)
        → get id s.peers ≡ o
        → all_shown
            (elim o as (λ x. RuntimeSnapshot) [
              | none ↦ s
              | some current ↦
                  if leb current.transport.generation generation
                  then record s {
                    peers = update id (record current { bandwidth = bandwidth }) s.peers;
                  }
                  else s
            ]).peers
          ≡ true
    go none e = a
    go (some current) e = ground (
      arith,
      all_shown-update id (record current { bandwidth = bandwidth }) s.peers
          (same_shown current bandwidth (shown_of_get id current s.peers a e)) a,
    )

apply_transport-shown :
    (s : RuntimeSnapshot) (id : List ℕ) (view : TransportView)
    → all_shown s.peers ≡ true
    → all_shown (apply_transport s id view).peers ≡ true
unfolding apply_transport
apply_transport-shown s id view a = go (get id s.peers)
  where
    go :
        (o : Option PeerView)
        → all_shown
            (elim o as (λ x. RuntimeSnapshot) [
              | none ↦ s
              | some current ↦
                  if ltb view.generation current.transport.generation
                  then s
                  else prune_inactive_peer
                      (record s { peers = update id (record current { transport = view }) s.peers })
                      id
            ]).peers
          ≡ true
    go none = a
    go (some current) = ground (
      arith,
      prune-shown (record s { peers = update id (record current { transport = view }) s.peers }) id
          (others_shown-update id (record current { transport = view }) s.peers a),
    )

apply_session_update-shown :
    (s : RuntimeSnapshot) (u : TransportUpdate)
    → all_shown s.peers ≡ true
    → all_shown (apply_session_update s u).peers ≡ true
unfolding apply_session_update set_inbound_session_count prune_inactive_peers
apply_session_update-shown s (of_peer peer view bandwidth) a =
    apply_transport-shown (measure s peer view.generation bandwidth) peer view
      (measure-shown s peer view.generation bandwidth a)
apply_session_update-shown s (of_inbound phase) a =
    prune_all-shown (record s { inbound_sessions = inbound_count s.inbound_sessions phase })
      (keys s.peers) a

step-shown :
    (s : RuntimeSnapshot) (op : SnapshotOp)
    → all_shown s.peers ≡ true
    → all_shown (step s op).peers ≡ true
unfolding step begin_scan begin_stop_scan stopped_scan failed_scan clear_lan_state shut_down
    started_scan
step-shown s begins_scan a = a
step-shown s stops_scan a = ground arith
step-shown s stopped_scanning a = refl
step-shown s shuts_down a = ground arith
step-shown s (started_scanning listener local_id) a = a
step-shown s (failed_scanning message) a = refl
step-shown s (registers change) a = apply_registry-shown s change a
step-shown s (updates_screen u) a = update_remote_screen-shown s u a
step-shown s (connects peer) a = begin_auto_connect-shown s peer a
step-shown s (transports u) a = apply_session_update-shown s u a

run-shown :
    (s : RuntimeSnapshot) (ops : List SnapshotOp)
    → all_shown s.peers ≡ true
    → all_shown (run s ops).peers ≡ true
unfolding run
run-shown s [] a = a
run-shown s (op ∷ ops) a = run-shown (step s op) ops (step-shown s op a)

-- Whatever the registry, the directory of screens, the sessions and the commands do to the Windows
-- application's snapshot, and in whatever order, every row of a device that it lists is one to show:
-- the device is present, or its screen is available, or an outbound session is being made or is
-- there; no row stays whose last reason has gone.
pub rows_shown : (ops : List SnapshotOp) → all_shown (run default_snapshot ops).peers ≡ true
rows_shown ops = run-shown default_snapshot ops refl
