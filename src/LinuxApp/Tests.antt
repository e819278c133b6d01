-- ===== src/LinuxApp/Tests.antt =====
-- Runs of the supervisor's parts, and instances of their theorems.
use moq_cast_desktop.Base.{millis, secs, ℕ, ◌≡◌, refl, min, length, List, [], ◌∷◌, map}
use moq_cast_desktop.LinuxApp.Retry.{
  default_budget, RetryBudget, reset, next_discovery, next_peer, retries, DiscoveryRetry,
}
use moq_cast_desktop.LinuxApp.Backoff.{AreSpread, budgets_lem}

abbrev salts : List ℕ
salts = 7 ∷ 7 ∷ 7 ∷ 7 ∷ 7 ∷ 7 ∷ []

abbrev attempts_of : List DiscoveryRetry → List ℕ
attempts_of = map (λ r. r.attempt)

five_attempts : attempts_of (retries next_discovery default_budget salts) ≡ 1 ∷ 2 ∷ 3 ∷ 4 ∷ 5 ∷ []
unfolding retries next_discovery
five_attempts = refl

abbrev spent : RetryBudget
spent = record { attempts = 5 }

budgets_lem_example :
    let found = retries next_discovery (reset spent) salts in
    let dialled = retries next_peer (reset spent) salts in
    (length found ≡ min (length salts) 5)
    × AreSpread 0 (millis 250) (secs 4) found
    × (length dialled ≡ min (length salts) 5)
    × AreSpread 0 (millis 500) (secs 4) dialled
budgets_lem_example = budgets_lem spent salts
