-- ===== src/WinApp/Tests.antt =====
-- Runs of the Windows application's snapshot, and instances of its theorems.
use moq_cast_desktop.Base.{ℕ, ◌≡◌, refl, true, List, [], ◌∷◌, none, some, length}
use moq_cast_desktop.Remote.Paths.{for_peer}
use moq_cast_desktop.Remote.Directory.{ScreenAvailability}
use moq_cast_desktop.Base.Bytes.{bytes}
use moq_cast_desktop.Peers.Facts.{publish}
use moq_cast_desktop.WinApp.Snapshot.{
  TransportPhaseView, TransportDirectionView, PeerView, is_available, can_watch, default_snapshot,
}
use moq_cast_desktop.WinApp.Events.{
  PeerSummary, added, removed, SnapshotOp, started_scanning, registers, updates_screen, connects,
  transports, of_peer, run,
}
use moq_cast_desktop.WinApp.Watchable.{watchable_rows}
use moq_cast_desktop.Base.Map.{get}
use moq_cast_desktop.WinApp.Rows.{all_shown}
use moq_cast_desktop.WinApp.Shown.{rows_shown}

abbrev tv : PeerSummary
tv = record {
  id = bytes "tv";
  candidates = bytes "moqt://192.168.1.8:4443" ∷ [];
  should_dial = true;
  authenticated_discovery = true;
  tls_pinned = true;
}

-- A device is found, dialled and connected; its advertisement goes, and then the session fails.
abbrev visit : List SnapshotOp
visit =
    started_scanning (bytes "listener") (bytes "me")
    ∷ registers (added tv)
    ∷ connects (bytes "tv")
    ∷ transports (
        of_peer (bytes "tv")
          (record {
            generation = 1;
            direction = some TransportDirectionView.outbound_view;
            phase = TransportPhaseView.connected;
          })
          (some 0))
    ∷ registers (removed (bytes "tv"))
    ∷ []

abbrev failing : SnapshotOp
failing = transports (
    of_peer (bytes "tv")
      (record {
        generation = 1;
        direction = some TransportDirectionView.outbound_view;
        phase = TransportPhaseView.failed;
      })
      none)

connected_row_stays : length (run default_snapshot visit).peers ≡ 1
unfolding run
connected_row_stays = refl

failed_row_goes : length (run (run default_snapshot visit) (failing ∷ [])).peers ≡ 0
unfolding run
failed_row_goes = refl

rows_shown_example : all_shown (run default_snapshot visit).peers ≡ true
rows_shown_example = rows_shown visit

-- The device's screen is there, although it is not advertised.
abbrev route : List SnapshotOp
route =
    started_scanning (bytes "listener") (bytes "me")
    ∷ updates_screen (record {
      path = for_peer (bytes "tv");
      view = record { peer_id = bytes "tv"; availability = ScreenAvailability.available };
    })
    ∷ []

watchable_rows_example :
    (id : List ℕ) × (p : PeerView) × (for_peer (bytes "tv") ≡ for_peer id)
    × (get id (run default_snapshot route).peers ≡ some p)
    × (is_available p.screen ≡ true)
unfolding run can_watch for_peer publish
watchable_rows_example = watchable_rows route (for_peer (bytes "tv")) refl refl
