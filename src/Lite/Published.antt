-- ===== src/Lite/Published.antt =====
-- windows-lite/src/discovery.rs and registry.rs: the watch targets that are published.
use moq_cast_desktop.Base.{ℕ, ◌≡◌, sym, ap, ◌∙◌, List, some}
use moq_cast_desktop.Base.Map.{get}
use moq_cast_desktop.Lite.Target.{WatchTarget}
use moq_cast_desktop.Lite.Grants.{IsSafe}
use moq_cast_desktop.Lite.Registry.{Snapshot, watch_target_of}
use moq_cast_desktop.Lite.Discovery.{Round, Turn, continue, done, Opening, run}
use moq_cast_desktop.Lite.Coherence.{IsSound, run-IsSound}
use moq_cast_desktop.Lite.Shown.{watch_target_of-IsSafe}

-- The snapshot that the tray sees after the turn.
abbrev pub latest_of : Turn → Snapshot
latest_of (continue w) = w.latest
latest_of (done w) = w.latest

latest-IsSafe :
    (o : Turn) (id : List ℕ) (t : WatchTarget)
    → IsSound o
    → watch_target_of (latest_of o) id ≡ some t
    → IsSafe t
unfolding watch_target_of get
latest-IsSafe (continue w) id t s h =
    watch_target_of-IsSafe w.registry w.revision w.lifecycle id t s.valid
      (ap (λ l. watch_target_of l id) (sym s.fresh) ∙ h)
latest-IsSafe (done w) id t s h = cc (s.no_targets, h)

-- After any opening and any rounds of the discovery worker, every watch target in the snapshot that the
-- tray sees is safe to dial: a port that is not 0, one to eight addresses, none of them loopback,
-- unspecified or multicast, a fingerprint of 64 and a credential of 32 hexadecimal digits.
pub published_targets-IsSafe :
    (opening : Opening) (rounds : List Round) (id : List ℕ) (t : WatchTarget)
    → watch_target_of (latest_of (run opening rounds)) id ≡ some t
    → IsSafe t
published_targets-IsSafe opening rounds id t h =
    latest-IsSafe (run opening rounds) id t (run-IsSound opening rounds) h
