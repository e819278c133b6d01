-- ===== src/Diag/Tests.antt =====
-- Runs of the diagnostics ring and filter, and instances of their theorems.
use moq_cast_desktop.Base.{ℕ, ◌≡◌, refl, Bool, true, false, List, [], ◌∷◌, map, max, arith}
use moq_cast_desktop.Base.Bytes.{bytes}
use moq_cast_desktop.Diag.Filter.{FilterPolicy, debug, allows, set_detailed}
use moq_cast_desktop.Diag.Ring.{LogLevel, Entry, Ring, new_ring, push, snapshot, is_debug}
use moq_cast_desktop.Diag.Snapshots.{run, run_log, snapshot-follows}

abbrev policy : FilterPolicy
policy = record { detailed = false; private_targets_only = true }

abbrev playback : List ℕ
playback = bytes "moqcast_windows::playback"

debug_of_application : allows (set_detailed policy true) debug playback ≡ true
unfolding allows set_detailed
debug_of_application = refl

abbrev entry_of : LogLevel → ℕ → Entry
entry_of level n = record {
  timestamp = bytes "2026-08-25T00:00:00Z";
  level = level;
  target = bytes "test";
  thread = bytes "test";
  event = n ∷ [];
  line = n ∷ 10 ∷ [];
}

abbrev calls : List (Bool × Entry)
calls =
    (false, entry_of moq_cast_desktop.Diag.Ring.info 1)
    ∷ (false, entry_of moq_cast_desktop.Diag.Ring.debug 2)
    ∷ (true, entry_of moq_cast_desktop.Diag.Ring.warn 3)
    ∷ (false, entry_of moq_cast_desktop.Diag.Ring.error 4)
    ∷ (false, entry_of moq_cast_desktop.Diag.Ring.info 5)
    ∷ []

snapshot-follows_example :
    (snapshot (run (new_ring 2) calls) 1).entries ≡ map (λ e. e.1) (run_log (max 2 1) 0 [] calls)
snapshot-follows_example = snapshot-follows 2 1 calls (omega arith)

shown_events :
    map (λ (e : Entry). e.event) (snapshot (run (new_ring 2) calls) 1).entries
    ≡ (2 ∷ []) ∷ (4 ∷ []) ∷ (5 ∷ []) ∷ []
unfolding snapshot run new_ring
shown_events = refl
