-- ===== src/Peers/Rows.antt =====
-- shared/lan-state/src/lib.rs: how the visibility of a row, its status and what is admitted agree.
use moq_cast_desktop.Base.{◌≡◌, refl, Bool, true, false, ◌||◌, if◌then◌else◌, arith}
use moq_cast_desktop.Peers.Facts.{
  Connection, unknown, connecting, connected, rejected, failed, disconnected, Peer, visible, status,
  not_discovered, is_stale, is_active, connection_status, row_available,
}

-- A row that is hidden has a status with nothing current to show (rejected, failed or not
-- discovered), and a row whose status is not discovered is hidden.
pub hidden_status :
    (p : Peer)
    → (visible p ≡ false → is_stale (status p) ≡ true)
      × (status p ≡ not_discovered → visible p ≡ false)
unfolding visible status connection_status
hidden_status p = by_connection p.connection
  where
    by_connection :
        (c : Connection)
        → let q = record p { connection = c } in
          (visible q ≡ false → is_stale (status q) ≡ true)
          × (status q ≡ not_discovered → visible q ≡ false)
    by_connection unknown = (ground arith, ground arith)
    by_connection connecting = (ground arith, ground arith)
    by_connection connected = (ground arith, ground arith)
    by_connection rejected = (ground arith, ground arith)
    by_connection failed = (ground arith, ground arith)
    by_connection disconnected = (ground arith, ground arith)

-- The loss of an advertisement does not hide or change a row whose content is available or whose
-- connection is active.
pub lost_advertisement :
    (p : Peer)
    → p.available || is_active p.connection ≡ true
    → let lost = record p { discovered = false } in (visible lost ≡ true) × (status lost ≡ status p)
unfolding visible status connection_status
lost_advertisement p h = (ground (arith, h), by_connection p.connection p.available p.discovered h)
  where
    by_connection :
        (c : Connection) (a d : Bool)
        → a || is_active c ≡ true
        → (if a then row_available else connection_status c false)
          ≡ (if a then row_available else connection_status c d)
    by_connection c true d h = refl
    by_connection connecting false d h = refl
    by_connection connected false d h = refl
    by_connection _ false d h = cc h
