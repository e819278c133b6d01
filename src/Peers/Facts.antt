-- ===== src/Peers/Facts.antt =====
-- shared/lan-state/src/lib.rs: the facts of one device row, its status and what is admitted. The
-- labels of a status are text and left out.
use moq_cast_desktop.Base.{Bool, true, false, ◌&&◌, ◌||◌, if◌then◌else◌}

pub data Connection : Type 0 where
  unknown connecting connected rejected failed disconnected : Connection

pub record Peer : Type 0 where
  pub discovered : Bool
  pub connection : Connection
  pub available : Bool

-- `matches!(self.connection, Connecting | Connected)`
abbrev pub is_active : Connection → Bool
is_active connecting = true
is_active connected = true
is_active _ = false

unfoldable pub visible : Peer → Bool
visible p = p.discovered || p.available || is_active p.connection

pub data Status : Type 0 where
  row_found row_connecting row_connected row_available row_rejected row_failed row_disconnected :
      Status
  not_discovered : Status

-- The `match` of `status`.
unfoldable pub connection_status : Connection → Bool → Status
connection_status connected discovered = row_connected
connection_status connecting discovered = row_connecting
connection_status rejected discovered = row_rejected
connection_status failed discovered = row_failed
connection_status disconnected discovered = if discovered then row_disconnected else not_discovered
connection_status unknown discovered = if discovered then row_found else not_discovered

unfoldable pub status : Peer → Status
unfolding connection_status
status p = if p.available then row_available else connection_status p.connection p.discovered

pub record Access : Type 0 where
  pub ready : Bool
  pub media_idle : Bool

unfoldable pub publish : Access → Bool
publish a = a.ready && a.media_idle

unfoldable pub watch : Access → Bool → Bool
watch a available = publish a && available

-- The statuses of a row that has nothing current to show.
abbrev pub is_stale : Status → Bool
is_stale row_rejected = true
is_stale row_failed = true
is_stale not_discovered = true
is_stale _ = false
