-- ===== src/Continuity/Teardown.antt =====
-- linux/src/runtime/playback_audio_continuity.rs: the reasons of a teardown, and the control that the
-- owner and the tracker share. Its two atomics are changed by one operation each.
use moq_cast_desktop.Base.{
  ℕ, ◌+◌, ◌==◌, ◌≡◌, ◌≤◌, refl, Bool, true, false, not, if◌then◌else◌, Option, none, some, List, [],
  ◌∷◌, arith,
}

pub data TeardownReason : Type 0 where
  stop replacement withdraw ended decode_error sink_error start_error : TeardownReason

-- `TeardownReason as u8`
unfoldable pub code : TeardownReason → ℕ
code stop = 1
code replacement = 2
code withdraw = 3
code ended = 4
code decode_error = 5
code sink_error = 6
code start_error = 7

pub data OwnerTeardownReason : Type 0 where
  owner_stop owner_replacement owner_withdraw : OwnerTeardownReason

-- `From<OwnerTeardownReason>`
unfoldable pub from_owner : OwnerTeardownReason → TeardownReason
from_owner owner_stop = stop
from_owner owner_replacement = replacement
from_owner owner_withdraw = withdraw

unfoldable pub from_code : ℕ → Option TeardownReason
from_code c =
    if c == 1
    then some stop
    else if c == 2
    then some replacement
    else if c == 3
    then some withdraw
    else if c == 4
    then some ended
    else if c == 5
    then some decode_error
    else if c == 6
    then some sink_error
    else if c == 7
    then some start_error
    else none

pub record TeardownControl : Type 0 where
  pub owner_code : ℕ
  pub emitted_code : ℕ

abbrev pub new_control : TeardownControl
new_control = record { owner_code = 0; emitted_code = 0 }

unfoldable pub set_owner_reason : TeardownControl → OwnerTeardownReason → TeardownControl
unfolding code from_owner
set_owner_reason c reason = record c { owner_code = code (from_owner reason) }

unfoldable pub owner_reason : TeardownControl → Option TeardownReason
unfolding from_code
owner_reason c = from_code c.owner_code

-- `compare_exchange`, from 0 to the reason
unfoldable pub try_mark_emitted : TeardownControl → TeardownReason → TeardownControl × Bool
unfolding code
try_mark_emitted c reason =
    if c.emitted_code == 0 then (record c { emitted_code = code reason }, true) else (c, false)

unfoldable pub summary_emitted : TeardownControl → Bool
summary_emitted c = not (c.emitted_code == 0)

-- `log_teardown`, and whether it logs the summary.
unfoldable pub log_teardown : TeardownControl → TeardownReason → TeardownControl × Bool
unfolding try_mark_emitted
log_teardown c reason = try_mark_emitted c reason

-- `Drop for Tracker`
unfoldable pub drop_tracker : TeardownControl → TeardownControl × Bool
unfolding owner_reason log_teardown
drop_tracker c = elim (owner_reason c) [ none ↦ (c, false) | some reason ↦ log_teardown c reason ]

abbrev pub once : Bool → ℕ
once logged = if logged then 1 else 0

-- `Tracker::finish` takes the tracker, which is dropped at its end: how many summaries are logged.
unfoldable pub finish : TeardownControl → TeardownReason → TeardownControl × ℕ
unfolding log_teardown drop_tracker
finish c reason =
    let (c', logged) = log_teardown c reason in
    let (c'', again) = drop_tracker c' in (c'', once logged + once again)

-- What the owner and the tracker do with the control.
pub data TeardownOp : Type 0 where
  sets_owner_reason : OwnerTeardownReason → TeardownOp
  finishes : TeardownReason → TeardownOp
  drops : TeardownOp

unfoldable pub step : TeardownControl → TeardownOp → TeardownControl × ℕ
unfolding set_owner_reason finish drop_tracker
step c (sets_owner_reason reason) = (set_owner_reason c reason, 0)
step c (finishes reason) = finish c reason
step c drops = let (c', logged) = drop_tracker c in (c', once logged)

-- Any operations: the control after them, and how many summaries were logged.
unfoldable pub run : TeardownControl → List TeardownOp → TeardownControl × ℕ
unfolding step
run c [] = (c, 0)
run c (op ∷ ops) = let (c', m) = step c op in let (c'', n) = run c' ops in (c'', m + n)

-- The code of a reason is read back as the reason.
from_code-code : (reason : TeardownReason) → from_code (code reason) ≡ some reason
unfolding from_code code
from_code-code stop = refl
from_code-code replacement = refl
from_code-code withdraw = refl
from_code-code ended = refl
from_code-code decode_error = refl
from_code-code sink_error = refl
from_code-code start_error = refl

-- One if the summary is marked as emitted.
abbrev pub was_emitted : TeardownControl → ℕ
was_emitted c = once (summary_emitted c)

code-le : (reason : TeardownReason) → 1 ≤ code reason
unfolding code
code-le stop = omega arith
code-le replacement = omega arith
code-le withdraw = omega arith
code-le ended = omega arith
code-le decode_error = omega arith
code-le sink_error = omega arith
code-le start_error = omega arith

-- What one call logs is logged for the first time, and is what marks the summary as emitted.
abbrev LogsOnce : TeardownControl → TeardownControl × ℕ → Type 0
LogsOnce c r = was_emitted r.0 ≡ was_emitted c + r.1

abbrev counted : TeardownControl × Bool → TeardownControl × ℕ
counted r = (r.0, once r.1)

try_mark_emitted-LogsOnce :
    (c : TeardownControl) (reason : TeardownReason) → LogsOnce c (counted (log_teardown c reason))
unfolding log_teardown try_mark_emitted summary_emitted
try_mark_emitted-LogsOnce c reason = ground (arith, code-le reason)

drop_tracker-LogsOnce : (c : TeardownControl) → LogsOnce c (counted (drop_tracker c))
unfolding drop_tracker
drop_tracker-LogsOnce c = go (owner_reason c)
  where
    go :
        (o : Option TeardownReason)
        → LogsOnce c (counted (elim o [ none ↦ (c, false) | some reason ↦ log_teardown c reason ]))
    go none = omega arith
    go (some reason) = try_mark_emitted-LogsOnce c reason

step-LogsOnce : (c : TeardownControl) (op : TeardownOp) → LogsOnce c (step c op)
unfolding step set_owner_reason finish summary_emitted
step-LogsOnce c (sets_owner_reason reason) = omega arith
step-LogsOnce c drops = drop_tracker-LogsOnce c
step-LogsOnce c (finishes reason) =
    ground
      (arith, try_mark_emitted-LogsOnce c reason, drop_tracker-LogsOnce (log_teardown c reason).0)

-- Whatever the owner and its trackers do, and in whatever order, the summary of the teardown is
-- logged at most once, and it is marked as emitted exactly if it was logged or marked before.
pub run-once :
    (c : TeardownControl) (ops : List TeardownOp)
    → (was_emitted c + (run c ops).1 ≡ was_emitted (run c ops).0) × (was_emitted (run c ops).0 ≤ 1)
unfolding run
run-once c [] = (omega arith, ground arith)
run-once c (op ∷ ops) = ground (arith, step-LogsOnce c op, run-once (step c op).0 ops)
