-- ===== src/LinuxApp/Retry.antt =====
-- linux/src/runtime/supervisor.rs: the retries of the discovery and of the peers, whose delays double
-- up to a bound and are spread by a fifth.
use moq_cast_desktop.Base.{
  ℕ, ◌+◌, ◌-◌, ◌*◌, ◌/◌, ◌%◌, ◌^◌, min, Option, none, some, List, [], ◌∷◌, if◌then◌else◌, ltb, leb,
  duration_max, millis, secs, saturating_add, saturating_sub,
}

abbrev pub discovery_retry_limit : ℕ
discovery_retry_limit = 5

abbrev pub discovery_retry_base_delay : ℕ
discovery_retry_base_delay = millis 250

abbrev pub discovery_retry_max_delay : ℕ
discovery_retry_max_delay = secs 4

abbrev pub peer_retry_limit : ℕ
peer_retry_limit = 5

abbrev pub peer_retry_base_delay : ℕ
peer_retry_base_delay = millis 500

abbrev pub peer_retry_max_delay : ℕ
peer_retry_max_delay = secs 4

pub record DiscoveryRetry : Type 0 where
  pub attempt : ℕ
  pub delay : ℕ

-- `1_u32.checked_shl(exponent).unwrap_or(u32::MAX)`
unfoldable pub shifted_one : ℕ → ℕ
shifted_one exponent = if ltb exponent 32 then 2 ^ exponent else 2 ^ 32 - 1

-- The delay of an attempt before it is spread. (`Duration::saturating_mul` is the inner `min`.)
unfoldable pub nominal_delay : ℕ → ℕ → ℕ → ℕ
unfolding shifted_one
nominal_delay attempt base_delay max_delay =
    min (min (base_delay * shifted_one (attempt - 1)) duration_max) max_delay

-- `jitter_ms`, from the salt and the attempt, by arithmetic modulo 2^64
unfoldable pub jitter : ℕ → ℕ → ℕ → ℕ
jitter attempt spread salt =
    ((salt * 0x9E3779B97F4A7C15 + attempt) % 2 ^ 64) % (spread / 1_000_000 * 2 + 1)

-- The delay that an attempt is given.
unfoldable pub retry_delay : ℕ → ℕ → ℕ → ℕ
unfolding jitter
retry_delay nominal jitter_ms max_delay =
    min (saturating_add (saturating_sub nominal (nominal / 5)) (millis jitter_ms)) max_delay

-- `next_retry`: the attempts after it, and the retry, if there is still one.
unfoldable pub next_retry : ℕ → ℕ → ℕ → ℕ → ℕ → ℕ × Option DiscoveryRetry
unfolding nominal_delay jitter retry_delay
next_retry attempts limit base_delay max_delay salt =
    if leb limit attempts
    then (attempts, none)
    else let attempt = attempts + 1 in
      let nominal = nominal_delay attempt base_delay max_delay in
      let delay = retry_delay nominal (jitter attempt (nominal / 5) salt) max_delay in
      (attempt, some (record { attempt = attempt; delay = delay }))

-- `DiscoveryRetryBudget` and `PeerRetryBudget`
pub record RetryBudget : Type 0 where
  pub attempts : ℕ

abbrev pub default_budget : RetryBudget
default_budget = record { attempts = 0 }

-- `DiscoveryRetryBudget::next`
unfoldable pub next_discovery : RetryBudget → ℕ → RetryBudget × Option DiscoveryRetry
unfolding next_retry
next_discovery b salt =
    let (attempts, retry) =
      next_retry b.attempts discovery_retry_limit discovery_retry_base_delay
        discovery_retry_max_delay salt in
    (record { attempts = attempts }, retry)

-- `PeerRetryBudget::next`
unfoldable pub next_peer : RetryBudget → ℕ → RetryBudget × Option DiscoveryRetry
unfolding next_retry
next_peer b salt =
    let (attempts, retry) =
      next_retry b.attempts peer_retry_limit peer_retry_base_delay peer_retry_max_delay salt in
    (record { attempts = attempts }, retry)

-- `reset` of either
unfoldable pub reset : RetryBudget → RetryBudget
reset b = record { attempts = 0 }

-- The retries that are given for the failures with these salts, one after another.
unfoldable pub retries :
    (RetryBudget → ℕ → RetryBudget × Option DiscoveryRetry)
    → RetryBudget
    → List ℕ
    → List DiscoveryRetry
retries next b [] = []
retries next b (salt ∷ salts) =
    let (b', retry) = next b salt in
    let rest = retries next b' salts in elim retry [ none ↦ rest | some r ↦ r ∷ rest ]
