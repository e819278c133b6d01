-- ===== src/WinApp/Agreed.antt =====
-- windows/src/runtime.rs: the events that keep the rows and the screens in agreement.
use Prim.{tt}
use moq_cast_desktop.Base.{
  ℕ, ◌≡◌, refl, sym, Bool, true, false, List, [], ◌∷◌, Option, none, some, is_some_and,
  if◌then◌else◌,
}
use moq_cast_desktop.Base.Bytes.{bytes_eq, bytes_eq_sound}
use moq_cast_desktop.Base.Map.{get, insert, update, insert-eq-update}
use moq_cast_desktop.Remote.Paths.{for_peer}
use moq_cast_desktop.Remote.Directory.{ScreenAvailability, Update}
use moq_cast_desktop.WinApp.Snapshot.{
  DiscoveryState, PeerView, is_available, RuntimeSnapshot, clear_lan_state, prune_inactive_peer,
  prune_all,
}
use moq_cast_desktop.WinApp.Events.{
  PeerSummary, RegistryChange, added, updated, removed, unchanged, ignored_self, availability_of,
  refreshed, discovered, upsert, lost, remove_presence, found_result, apply_registry, route_only,
  with_screen, same_view, show_screen, update_remote_screen, SnapshotOp, updates_screen,
}
use moq_cast_desktop.WinApp.Screens.{screens_with, with_row-IsAgreed, without_row-IsAgreed}
use moq_cast_desktop.WinApp.Routes.{IsAgreed, put-IsAgreed, prune-IsAgreed, replace-IsAgreed}

-- The fields besides the rows and the screens do not matter.
pub others-IsAgreed :
    (s : RuntimeSnapshot) (d : DiscoveryState) (n : ℕ) (l i e : Option (List ℕ)) (b : Bool)
    → IsAgreed s
    → IsAgreed (record s {
      discovery = d;
      inbound_sessions = n;
      listener = l;
      local_id = i;
      last_error = e;
      stopping = b;
    })
others-IsAgreed s d n l i e b h = record {
  rows_sorted = h.rows_sorted;
  screens_sorted = h.screens_sorted;
  named = h.named;
  agreed = h.agreed;
  covered = h.covered;
}

pub cleared-IsAgreed :
    (s : RuntimeSnapshot) (d : DiscoveryState) (e : Option (List ℕ))
    → IsAgreed (record (clear_lan_state s) { discovery = d; last_error = e })
unfolding clear_lan_state get
cleared-IsAgreed s d e = record {
  rows_sorted = tt;
  screens_sorted = tt;
  named = λ path v g. cc g;
  agreed = λ id p g. cc g;
  covered = λ path v g a. cc g;
}

pub prune_all-IsAgreed :
    (s : RuntimeSnapshot) (ids : List (List ℕ)) → IsAgreed s → IsAgreed (prune_all s ids)
unfolding prune_all
prune_all-IsAgreed s [] h = h
prune_all-IsAgreed s (id ∷ ids) h =
    prune_all-IsAgreed (prune_inactive_peer s id) ids (prune-IsAgreed s id h)

upsert-IsAgreed :
    (s : RuntimeSnapshot) (summary : PeerSummary) → IsAgreed s → IsAgreed (upsert s summary)
unfolding upsert refreshed discovered
upsert-IsAgreed s summary h = go (get summary.id s.peers) refl
  where
    screen : ScreenAvailability
    screen = availability_of (get (for_peer summary.id) s.remote_screens)

    go :
        (o : Option PeerView)
        → get summary.id s.peers ≡ o
        → IsAgreed (elim o as (λ x. RuntimeSnapshot) [
          | some peer ↦ record s {
            peers = update summary.id (refreshed peer summary screen) s.peers;
          }
          | none ↦ record s { peers = insert summary.id (discovered summary screen) s.peers }
        ])
    go (some peer) e = replace-IsAgreed s summary.id peer (refreshed peer summary screen) h e refl
    go none e = put-IsAgreed s summary.id (discovered summary screen) h refl

remove_presence-IsAgreed :
    (s : RuntimeSnapshot) (id : List ℕ) → IsAgreed s → IsAgreed (remove_presence s id)
unfolding remove_presence
remove_presence-IsAgreed s id h = go (get id s.peers) refl
  where
    go :
        (o : Option PeerView)
        → get id s.peers ≡ o
        → IsAgreed (
            prune_inactive_peer
              (elim o as (λ x. RuntimeSnapshot) [
                | some peer ↦ record s { peers = update id (lost peer) s.peers }
                | none ↦ s
              ])
              id)
    go (some peer) e =
        prune-IsAgreed (record s { peers = update id (lost peer) s.peers }) id
          (replace-IsAgreed s id peer (lost peer) h e (h.agreed id peer e))
    go none e = prune-IsAgreed s id h

pub apply_registry-IsAgreed :
    (s : RuntimeSnapshot) (change : RegistryChange)
    → IsAgreed s
    → IsAgreed (apply_registry s change)
unfolding apply_registry found_result
apply_registry-IsAgreed s change h = go change
  where
    result : (t : RuntimeSnapshot) → IsAgreed t → IsAgreed (found_result t)
    result t k =
        others-IsAgreed t (found_result t).discovery t.inbound_sessions t.listener t.local_id
          t.last_error t.stopping k

    go : (change : RegistryChange) → IsAgreed (apply_registry s change)
    go (added summary) = result (upsert s summary) (upsert-IsAgreed s summary h)
    go (updated summary) = result (upsert s summary) (upsert-IsAgreed s summary h)
    go (removed id) = result (remove_presence s id) (remove_presence-IsAgreed s id h)
    go unchanged = h
    go ignored_self = h

show_screen-IsAgreed :
    (s : RuntimeSnapshot) (id : List ℕ) (screen : ScreenAvailability) (h : IsAgreed s)
    → IsAgreed (show_screen (record s { remote_screens = screens_with s id screen h }) id screen)
unfolding show_screen
show_screen-IsAgreed s id screen h = go (get id s.peers) refl (is_available screen) refl
  where
    t : RuntimeSnapshot
    t = record s { remote_screens = screens_with s id screen h }

    go :
        (o : Option PeerView)
        → get id s.peers ≡ o
        → (b : Bool) → is_available screen ≡ b
        → IsAgreed (elim o as (λ x. RuntimeSnapshot) [
          | some peer ↦
              prune_inactive_peer
                (record t { peers = update id (with_screen screen peer) s.peers })
                id
          | none ↦
              if b
              then prune_inactive_peer
                  (record t { peers = insert id (route_only id screen) s.peers })
                  id
              else t
        ])
    go (some peer) e b f =
        prune-IsAgreed (record t { peers = update id (with_screen screen peer) s.peers }) id
          (rw (sym (insert-eq-update id (with_screen screen peer) peer s.peers h.rows_sorted e))
            (with_row-IsAgreed s id screen h (with_screen screen peer) refl))
    go none e true f =
        prune-IsAgreed (record t { peers = insert id (route_only id screen) s.peers }) id
          (with_row-IsAgreed s id screen h (route_only id screen) refl)
    go none e false f = without_row-IsAgreed s id screen h e f

-- The update is of a screen under its peer's path, as the directory gives them.
abbrev pub is_named : SnapshotOp → Bool
is_named (updates_screen u) = bytes_eq u.path (for_peer u.view.peer_id)
is_named _ = true

pub update_remote_screen-IsAgreed :
    (s : RuntimeSnapshot) (u : Update)
    → bytes_eq u.path (for_peer u.view.peer_id) ≡ true
    → IsAgreed s
    → IsAgreed (update_remote_screen s u).0
unfolding update_remote_screen screens_with
update_remote_screen-IsAgreed s u n h =
    go (is_some_and (λ screen. same_view screen u.view) (get u.path s.remote_screens))
  where
    named : u.path ≡ for_peer u.view.peer_id
    named = bytes_eq_sound u.path (for_peer u.view.peer_id) n

    shows : IsAgreed (
        show_screen
          (record s { remote_screens = insert u.path u.view s.remote_screens })
          u.view.peer_id
          u.view.availability)
    shows = rw named (show_screen-IsAgreed s u.view.peer_id u.view.availability h)

    made : Bool → RuntimeSnapshot × Bool
    made b = if b then (s, false) else (
      show_screen (record s { remote_screens = insert u.path u.view s.remote_screens })
          u.view.peer_id u.view.availability,
      true,
    )

    go : (b : Bool) → IsAgreed (made b).0
    go true = h
    go false = shows
