-- ===== src/LinuxApp/Backoff.antt =====
-- linux/src/runtime/supervisor.rs: the bounds of the retries.
use moq_cast_desktop.Base.{
  zero, suc, ℕ, ◌+◌, ◌-◌, ◌*◌, ◌/◌, ◌%◌, ◌^◌, ◌≤◌, ◌<◌, ◌≡◌, refl, min, Option, none, some, List,
  [], ◌∷◌, leb, duration_max, millis, secs, saturating_add, arith, length, true, false, Bool-cases,
  inl, inr,
}
use native.Mathlib.Nat.{mod-lt}
use mathlib.Core.Path.{subst}
use Prim.{Unit, tt}
use moq_cast_desktop.LinuxApp.Retry.{
  DiscoveryRetry, RetryBudget, reset, shifted_one, nominal_delay, jitter, retry_delay, next_retry,
  next_discovery, next_peer, retries, discovery_retry_limit, discovery_retry_base_delay,
  discovery_retry_max_delay, peer_retry_limit, peer_retry_base_delay, peer_retry_max_delay,
}

-- The base, doubled so many times.
unfoldable pub doubled : ℕ → ℕ → ℕ
doubled base zero = base
doubled base (suc n) = doubled base n * 2

-- A retry is the attempt, and its delay is within a fifth of the nominal one and not over the bound.
abbrev pub IsSpread : DiscoveryRetry → ℕ → ℕ → ℕ → Type 0
IsSpread r attempt nominal max_delay =
    (r.attempt ≡ attempt)
    × (r.delay ≤ max_delay)
    × (nominal - nominal / 5 ≤ r.delay)
    × (r.delay ≤ nominal + nominal / 5)

jitter-le : (attempt spread salt : ℕ) → millis (jitter attempt spread salt) ≤ 2 * spread
unfolding jitter
jitter-le attempt spread salt = go ((salt * 0x9E3779B97F4A7C15 + attempt) % 2 ^ 64)
  where
    go : (x : ℕ) → millis (x % (spread / 1_000_000 * 2 + 1)) ≤ 2 * spread
    go x =
        let below : x % (spread / 1_000_000 * 2 + 1) < spread / 1_000_000 * 2 + 1 =
          mod-lt x (omega arith) in
        omega arith

retry_delay-IsSpread :
    (nominal j max_delay : ℕ)
    → nominal ≤ max_delay
    → max_delay ≤ duration_max
    → millis j ≤ 2 * (nominal / 5)
    → (retry_delay nominal j max_delay ≤ max_delay)
      × (nominal - nominal / 5 ≤ retry_delay nominal j max_delay)
      × (retry_delay nominal j max_delay ≤ nominal + nominal / 5)
unfolding retry_delay saturating_add
retry_delay-IsSpread nominal j max_delay a b c = (omega arith, omega arith, omega arith)

-- The retries after so many attempts, each as it should be.
abbrev pub AreSpread : ℕ → ℕ → ℕ → List DiscoveryRetry → Type 0
AreSpread attempts base max_delay [] = Unit
AreSpread attempts base max_delay (r ∷ rs) =
    IsSpread r (attempts + 1) (min (doubled base attempts) max_delay) max_delay
    × AreSpread (attempts + 1) base max_delay rs

module _ (limit base max_delay : ℕ) (fits : max_delay ≤ duration_max)
    (doubles : (n : ℕ)
      → n < limit
      → nominal_delay (n + 1) base max_delay ≡ min (doubled base n) max_delay) where
  unfoldable pub next_of : RetryBudget → ℕ → RetryBudget × Option DiscoveryRetry
  unfolding next_retry
  next_of b salt =
      let (attempts, retry) = next_retry b.attempts limit base max_delay salt in
      (record { attempts = attempts }, retry)

  retry_at-IsSpread :
      (attempt salt : ℕ)
      → let nominal = nominal_delay attempt base max_delay in
        IsSpread
          (record {
            attempt = attempt;
            delay = retry_delay nominal (jitter attempt (nominal / 5) salt) max_delay;
          })
          attempt
          nominal
          max_delay
  unfolding nominal_delay
  retry_at-IsSpread attempt salt =
      let nominal = nominal_delay attempt base max_delay in
      let (a, b, c) =
        retry_delay-IsSpread nominal (jitter attempt (nominal / 5) salt) max_delay (omega arith)
          fits (jitter-le attempt (nominal / 5) salt) in
      (refl, a, b, c)

  -- The retry of an attempt.
  abbrev pub retry_at : ℕ → ℕ → DiscoveryRetry
  retry_at attempt salt =
      let nominal = nominal_delay attempt base max_delay in
      record {
        attempt = attempt;
        delay = retry_delay nominal (jitter attempt (nominal / 5) salt) max_delay;
      }

  retry_at-doubles :
      (attempts salt : ℕ)
      → attempts < limit
      → IsSpread
          (retry_at (attempts + 1) salt)
          (attempts + 1)
          (min (doubled base attempts) max_delay)
          max_delay
  retry_at-doubles attempts salt lt =
      subst (λ n. IsSpread (retry_at (attempts + 1) salt) (attempts + 1) n max_delay)
        (doubles attempts lt) (retry_at-IsSpread (attempts + 1) salt)

  next_of_over :
      (attempts salt : ℕ)
      → leb limit attempts ≡ true
      → next_of (record { attempts = attempts }) salt ≡ (record { attempts = attempts }, none)
  unfolding next_of next_retry
  next_of_over attempts salt over = rw over refl

  next_of_more :
      (attempts salt : ℕ)
      → leb limit attempts ≡ false
      → next_of (record { attempts = attempts }) salt
        ≡ (record { attempts = attempts + 1 }, some (retry_at (attempts + 1) salt))
  unfolding next_of next_retry
  next_of_more attempts salt more = rw more refl

  -- The retries from an answer of the budget on.
  abbrev pub retries_from : List ℕ → RetryBudget × Option DiscoveryRetry → List DiscoveryRetry
  retries_from salts (b, none) = retries next_of b salts
  retries_from salts (b, some r) = r ∷ retries next_of b salts

  retries-cons :
      (b : RetryBudget) (salt : ℕ) (salts : List ℕ)
      → retries next_of b (salt ∷ salts) ≡ retries_from salts (next_of b salt)
  unfolding retries
  retries-cons b salt salts = go (next_of b salt)
    where
      go :
          (o : RetryBudget × Option DiscoveryRetry)
          → elim o.1 [ none ↦ retries next_of o.0 salts | some r ↦ r ∷ retries next_of o.0 salts ]
            ≡ retries_from salts o
      go (b', none) = refl
      go (b', some r) = refl

  -- Whatever the failures are, there is one retry for each until the limit is reached.
  pub retries_lem :
      (salts : List ℕ) (attempts : ℕ)
      → attempts ≤ limit
      → let rs = retries next_of (record { attempts = attempts }) salts in
        (length rs ≡ min (length salts) (limit - attempts)) × AreSpread attempts base max_delay rs
  unfolding retries
  retries_lem [] attempts le = (omega arith, tt)
  retries_lem (salt ∷ salts) attempts le = elim (Bool-cases (leb limit attempts)) [
    | inl over ↦
        let (n, all) = retries_lem salts attempts le in
        rw (retries-cons (record { attempts = attempts }) salt salts)
          (rw (next_of_over attempts salt over) (ground arith, all))
    | inr more ↦
        let (n, all) = retries_lem salts (attempts + 1) (ground arith) in
        rw (retries-cons (record { attempts = attempts }) salt salts) (
          rw (next_of_more attempts salt more)
            (ground arith, (retry_at-doubles attempts salt (ground arith), all)))
  ]

discovery-doubles :
    (n : ℕ)
    → n < discovery_retry_limit
    → nominal_delay (n + 1) discovery_retry_base_delay discovery_retry_max_delay
      ≡ min (doubled (millis 250) n) (secs 4)
unfolding nominal_delay shifted_one doubled
discovery-doubles zero lt = refl
discovery-doubles (suc zero) lt = refl
discovery-doubles (suc (suc zero)) lt = refl
discovery-doubles (suc (suc (suc zero))) lt = refl
discovery-doubles (suc (suc (suc (suc zero)))) lt = refl
discovery-doubles (suc (suc (suc (suc (suc n))))) lt = absurd (omega arith)

peer-doubles :
    (n : ℕ)
    → n < peer_retry_limit
    → nominal_delay (n + 1) peer_retry_base_delay peer_retry_max_delay
      ≡ min (doubled (millis 500) n) (secs 4)
unfolding nominal_delay shifted_one doubled
peer-doubles zero lt = refl
peer-doubles (suc zero) lt = refl
peer-doubles (suc (suc zero)) lt = refl
peer-doubles (suc (suc (suc zero))) lt = refl
peer-doubles (suc (suc (suc (suc zero)))) lt = refl
peer-doubles (suc (suc (suc (suc (suc n))))) lt = absurd (omega arith)

-- Whatever budget is reset: from then on failures of the discovery or of a peer are given one retry
-- each until five were given, and none after that; the n-th retry has the number n and a delay
-- within a fifth of its nominal delay, which is 250 ms for the discovery and 500 ms for a peer,
-- doubled n - 1 times, but at most four seconds; no delay is over four seconds.
pub budgets_lem :
    (b : RetryBudget) (salts : List ℕ)
    → let found = retries next_discovery (reset b) salts in
      let dialled = retries next_peer (reset b) salts in
      (length found ≡ min (length salts) 5)
      × AreSpread 0 (millis 250) (secs 4) found
      × (length dialled ≡ min (length salts) 5)
      × AreSpread 0 (millis 500) (secs 4) dialled
unfolding next_discovery next_peer next_of reset
budgets_lem b salts =
    let (n, all) =
      retries_lem discovery_retry_limit discovery_retry_base_delay discovery_retry_max_delay
        (omega arith) discovery-doubles salts 0 (omega arith) in
    let (n', all') =
      retries_lem peer_retry_limit peer_retry_base_delay peer_retry_max_delay (omega arith)
        peer-doubles salts 0 (omega arith) in
    (n, all, n', all')
