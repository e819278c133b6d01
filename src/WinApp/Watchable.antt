-- ===== src/WinApp/Watchable.antt =====
-- windows/src/runtime.rs: every operation keeps the rows and the screens in agreement, so what can
-- be watched has a row.
use Prim.{tt}
use moq_cast_desktop.Base.{
  ℕ, ◌≡◌, refl, sym, ap, ◌∙◌, Bool, true, false, List, [], ◌∷◌, Option, none, some, is_some,
  is_some_and, if◌then◌else◌, arith, ltb, leb, all, saturating_add_u64,
}
use mathlib.Core.Bool.{false≢true}
use moq_cast_desktop.Base.Map.{get, update}
use moq_cast_desktop.Peers.Facts.{watch}
use moq_cast_desktop.Remote.Paths.{for_peer}
use moq_cast_desktop.Remote.Directory.{RemoteScreenView}
use moq_cast_desktop.WinApp.Snapshot.{
  DiscoveryState, TransportView, PeerView, is_active, is_available, can_watch, access,
  RuntimeSnapshot, default_snapshot, stopped_scan, failed_scan, prune_inactive_peer,
  set_inbound_session_count, prune_inactive_peers, keys, begin_scan, started_scan, begin_stop_scan,
}
use moq_cast_desktop.WinApp.Events.{
  availability_of, should_auto_connect, dialled, is_connecting, begin_auto_connect, apply_transport,
  measure, of_peer, of_inbound, apply_session_update, shut_down, inbound_count, SnapshotOp,
  begins_scan, stops_scan, stopped_scanning, shuts_down, started_scanning, failed_scanning,
  registers, updates_screen, connects, transports, step, run,
}
use moq_cast_desktop.WinApp.Routes.{IsAgreed, prune-IsAgreed, replace-IsAgreed}
use moq_cast_desktop.WinApp.Agreed.{
  others-IsAgreed, cleared-IsAgreed, prune_all-IsAgreed, apply_registry-IsAgreed, is_named,
  update_remote_screen-IsAgreed,
}

begin_auto_connect-IsAgreed :
    (s : RuntimeSnapshot) (id : List ℕ) → IsAgreed s → IsAgreed (begin_auto_connect s id).0
unfolding begin_auto_connect
begin_auto_connect-IsAgreed s id h = go (should_auto_connect s id) (get id s.peers) refl
  where
    go :
        (b : Bool) (o : Option PeerView)
        → get id s.peers ≡ o
        → IsAgreed
            (if b
              then elim o as (λ x. RuntimeSnapshot × Option ℕ) [
                | none ↦ (s, none)
                | some current ↦
                    if is_connecting current.transport.phase
                    then (s, some current.transport.generation)
                    else (
                      record s { peers = update id (dialled current) s.peers },
                      some (saturating_add_u64 current.transport.generation 1),
                    )
              ]
              else (s, none)).0
    go false o e = h
    go true none e = h
    go true (some current) e = pick (is_connecting current.transport.phase)
      where
        made : Bool → RuntimeSnapshot × Option ℕ
        made b = if b then (s, some current.transport.generation) else (
          record s { peers = update id (dialled current) s.peers },
          some (saturating_add_u64 current.transport.generation 1),
        )

        pick : (b : Bool) → IsAgreed (made b).0
        pick true = h
        pick false = replace-IsAgreed s id current (dialled current) h e (h.agreed id current e)

measure-IsAgreed :
    (s : RuntimeSnapshot) (id : List ℕ) (g : ℕ) (b : Option ℕ)
    → IsAgreed s
    → IsAgreed (measure s id g b)
unfolding measure
measure-IsAgreed s id g b h = go (get id s.peers) refl
  where
    go :
        (o : Option PeerView)
        → get id s.peers ≡ o
        → IsAgreed (elim o as (λ x. RuntimeSnapshot) [
          | none ↦ s
          | some current ↦
              if leb current.transport.generation g
              then record s { peers = update id (record current { bandwidth = b }) s.peers }
              else s
        ])
    go none e = h
    go (some current) e = pick (leb current.transport.generation g)
      where
        pick :
            (t : Bool)
            → IsAgreed (
                if t
                then record s { peers = update id (record current { bandwidth = b }) s.peers }
                else s)
        pick true =
            replace-IsAgreed s id current (record current { bandwidth = b }) h e
              (h.agreed id current e)
        pick false = h

apply_transport-IsAgreed :
    (s : RuntimeSnapshot) (id : List ℕ) (view : TransportView)
    → IsAgreed s
    → IsAgreed (apply_transport s id view)
unfolding apply_transport
apply_transport-IsAgreed s id view h = go (get id s.peers) refl
  where
    changed : PeerView → RuntimeSnapshot
    changed current = record s { peers = update id (record current { transport = view }) s.peers }

    go :
        (o : Option PeerView)
        → get id s.peers ≡ o
        → IsAgreed (elim o as (λ x. RuntimeSnapshot) [
          | none ↦ s
          | some current ↦
              if ltb view.generation current.transport.generation
              then s
              else prune_inactive_peer (changed current) id
        ])
    go none e = h
    go (some current) e = pick (ltb view.generation current.transport.generation)
      where
        pick : (t : Bool) → IsAgreed (if t then s else prune_inactive_peer (changed current) id)
        pick true = h
        pick false = prune-IsAgreed (changed current) id (
            replace-IsAgreed s id current (record current { transport = view }) h e
              (h.agreed id current e))

stop_scan-IsAgreed : (s : RuntimeSnapshot) → IsAgreed s → IsAgreed (begin_stop_scan s).0
unfolding begin_stop_scan
stop_scan-IsAgreed s h = go (is_active s.discovery)
  where
    made : Bool → RuntimeSnapshot × Bool
    made b =
        if b
        then (record s { discovery = DiscoveryState.stopping; last_error = none }, true)
        else (s, false)

    go : (b : Bool) → IsAgreed (made b).0
    go true =
        others-IsAgreed s DiscoveryState.stopping s.inbound_sessions s.listener s.local_id none
          s.stopping h
    go false = h

shut_down-IsAgreed : (s : RuntimeSnapshot) → IsAgreed (shut_down s)
unfolding shut_down failed_scan stopped_scan
shut_down-IsAgreed s = go s.last_error
  where
    t : RuntimeSnapshot
    t = record s { stopping = true }

    go :
        (e : Option (List ℕ))
        → IsAgreed (elim e as (λ x. RuntimeSnapshot) [
          | some error ↦ failed_scan t error
          | none ↦ stopped_scan t
        ])
    go (some error) = cleared-IsAgreed t DiscoveryState.failed (some error)
    go none = cleared-IsAgreed t DiscoveryState.stopped none

step-IsAgreed :
    (s : RuntimeSnapshot) (op : SnapshotOp) → is_named op ≡ true → IsAgreed s → IsAgreed (step s op)
unfolding step begin_scan begin_stop_scan stopped_scan failed_scan shut_down started_scan
    apply_session_update set_inbound_session_count prune_inactive_peers
step-IsAgreed s begins_scan n h =
    others-IsAgreed s DiscoveryState.starting s.inbound_sessions s.listener s.local_id none
      s.stopping h
step-IsAgreed s stops_scan n h = stop_scan-IsAgreed s h
step-IsAgreed s stopped_scanning n h = cleared-IsAgreed s DiscoveryState.stopped none
step-IsAgreed s shuts_down n h = shut_down-IsAgreed s
step-IsAgreed s (started_scanning listener local_id) n h =
    others-IsAgreed s DiscoveryState.empty s.inbound_sessions (some listener) (some local_id) none
      s.stopping h
step-IsAgreed s (failed_scanning message) n h =
    cleared-IsAgreed s DiscoveryState.failed (some message)
step-IsAgreed s (registers change) n h = apply_registry-IsAgreed s change h
step-IsAgreed s (updates_screen u) n h = update_remote_screen-IsAgreed s u n h
step-IsAgreed s (connects peer) n h = begin_auto_connect-IsAgreed s peer h
step-IsAgreed s (transports (of_peer peer view bandwidth)) n h =
    apply_transport-IsAgreed (measure s peer view.generation bandwidth) peer view
      (measure-IsAgreed s peer view.generation bandwidth h)
step-IsAgreed s (transports (of_inbound phase)) n h =
    prune_all-IsAgreed (record s { inbound_sessions = inbound_count s.inbound_sessions phase })
      (keys s.peers)
      (others-IsAgreed s s.discovery (inbound_count s.inbound_sessions phase) s.listener s.local_id
        s.last_error s.stopping h)

run-IsAgreed :
    (s : RuntimeSnapshot) (ops : List SnapshotOp)
    → all is_named ops ≡ true
    → IsAgreed s
    → IsAgreed (run s ops)
unfolding run
run-IsAgreed s [] n h = h
run-IsAgreed s (op ∷ ops) n h =
    let both : (is_named op ≡ true) × (all is_named ops ≡ true) = ground arith in
    run-IsAgreed (step s op) ops both.1 (step-IsAgreed s op both.0 h)

default-IsAgreed : IsAgreed default_snapshot
unfolding get
default-IsAgreed = record {
  rows_sorted = tt;
  screens_sorted = tt;
  named = λ path v g. cc g;
  agreed = λ id p g. cc g;
  covered = λ path v g a. cc g;
}

watchable_row :
    (s : RuntimeSnapshot) (path : List ℕ)
    → IsAgreed s
    → can_watch s path ≡ true
    → (id : List ℕ) × (p : PeerView) × (path ≡ for_peer id)
      × (get id s.peers ≡ some p)
      × (is_available p.screen ≡ true)
unfolding can_watch watch
watchable_row s path h w = go (get path s.remote_screens) refl w
  where
    go :
        (o : Option RemoteScreenView)
        → get path s.remote_screens ≡ o
        → watch
            (access s)
            (is_some_and (λ (screen : RemoteScreenView). is_available screen.availability) o)
          ≡ true
        → (id : List ℕ) × (p : PeerView) × (path ≡ for_peer id)
          × (get id s.peers ≡ some p)
          × (is_available p.screen ≡ true)
    go none e w = let no : ⊥ = ground arith in absurd no
    go (some v) e w = row (get v.peer_id s.peers) refl
      where
        there : is_available v.availability ≡ true
        there = ground arith

        named : path ≡ for_peer v.peer_id
        named = h.named path v e

        row :
            (o : Option PeerView)
            → get v.peer_id s.peers ≡ o
            → (id : List ℕ) × (p : PeerView) × (path ≡ for_peer id)
              × (get id s.peers ≡ some p)
              × (is_available p.screen ≡ true)
        row none g = absurd (false≢true (ap is_some (sym g) ∙ h.covered path v e there))
        row (some p) g = (v.peer_id, p, named, g, ap is_available same ∙ there)
          where
            same : p.screen ≡ v.availability
            same =
                h.agreed v.peer_id p g
                ∙ ap (λ q. availability_of (get q s.remote_screens)) (sym named)
                ∙ ap availability_of e

-- Whatever operations on the Windows application's snapshot, in whatever order, where every update
-- of a screen is under the path of its peer: whenever a path can be watched, it is the path of a
-- peer that has a row, and that row has the screen as available.
pub watchable_rows :
    (ops : List SnapshotOp) (path : List ℕ)
    → all is_named ops ≡ true
    → can_watch (run default_snapshot ops) path ≡ true
    → (id : List ℕ) × (p : PeerView) × (path ≡ for_peer id)
      × (get id (run default_snapshot ops).peers ≡ some p)
      × (is_available p.screen ≡ true)
watchable_rows ops path n w =
    watchable_row (run default_snapshot ops) path
      (run-IsAgreed default_snapshot ops n default-IsAgreed) w
