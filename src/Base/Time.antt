-- ===== src/Base/Time.antt =====
-- `std::time`: a `Duration` is its whole nanoseconds, an `Instant` the nanoseconds since the
-- monotonic clock's origin. Sums of durations saturate at `Duration::MAX`. An instant is the clock's
-- seconds as an i64 with its nanoseconds below a second, which bounds it where `checked_add` is called;
-- the operator `+` is not bounded.
use Prim.Native.Nat.{ℕ, ◌+◌, ◌-◌, ◌*◌, ◌^◌, ◌≤◌, min}
use mathlib.Core.Option.{Option, none, some}
use moq_cast_desktop.Base.Tests.{leb, if◌then◌else◌}
use native.Mathlib.Omega.{arith}

-- `Duration::MAX` in nanoseconds
abbrev pub duration_max : ℕ
duration_max = 2 ^ 64 * 1_000_000_000 - 1

-- `Duration::from_millis`
abbrev pub millis : ℕ → ℕ
millis n = n * 1_000_000

-- `Duration::from_secs`
abbrev pub secs : ℕ → ℕ
secs n = n * 1_000_000_000

-- `Duration::from_micros`
abbrev pub micros : ℕ → ℕ
micros n = n * 1_000

-- `Duration::saturating_add`
unfoldable pub saturating_add : ℕ → ℕ → ℕ
saturating_add a b = min (a + b) duration_max

-- The last instant: `i64::MAX` seconds and 999999999 nanoseconds
abbrev pub instant_max : ℕ
instant_max = (2 ^ 63 - 1) * 1_000_000_000 + 999_999_999

-- `Instant::checked_add` of a duration
unfoldable pub checked_add : ℕ → ℕ → Option ℕ
checked_add instant duration =
    if leb (instant + duration) instant_max then some (instant + duration) else none

-- `Duration::saturating_sub` and `Instant::saturating_duration_since`
abbrev pub saturating_sub : ℕ → ℕ → ℕ
saturating_sub a b = a - b

pub saturating_add-le : (a b : ℕ) → saturating_add a b ≤ a + b
unfolding saturating_add
saturating_add-le a b = omega arith

-- `u64::MAX`
abbrev pub u64_max : ℕ
u64_max = 2 ^ 64 - 1

-- `u64::saturating_add`
unfoldable pub saturating_add_u64 : ℕ → ℕ → ℕ
saturating_add_u64 a b = min (a + b) u64_max
