-- ===== src/Diag/Ring.antt =====
-- shared/diagnostics/src/ring.rs: the ring of the latest entries, in two lanes of their own bounds and
-- locks. A push is one step: it takes its place in the order by the sequence number that it draws
-- under its lane's lock, and whether that lock was held by another is an argument.
use moq_cast_desktop.Base.{
  ℕ, ◌+◌, ◌^◌, ◌%◌, ◌==◌, max, Bool, true, false, if◌then◌else◌, ltb, List, [], ◌∷◌, ◌++◌, map,
  length,
}

pub data LogLevel : Type 0 where
  error warn info debug : LogLevel

pub record Entry : Type 0 where
  pub timestamp : List ℕ
  pub level : LogLevel
  pub target : List ℕ
  pub thread : List ℕ
  pub event : List ℕ
  pub line : List ℕ

pub record Snapshot : Type 0 where
  pub revision : ℕ
  pub entries : List Entry
  pub dropped : ℕ

pub record Ring : Type 0 where
  pub capacity : ℕ
  pub entries : List (ℕ × Entry)
  pub details : List (ℕ × Entry)
  pub revision : ℕ
  pub contention_dropped : ℕ

-- `Ring::new`
unfoldable pub new_ring : ℕ → Ring
new_ring capacity = record {
  capacity = max capacity 1;
  entries = [];
  details = [];
  revision = 0;
  contention_dropped = 0;
}

-- `entry.level == LogLevel::Debug`
abbrev pub is_debug : LogLevel → Bool
is_debug debug = true
is_debug _ = false

abbrev pub is_detail : ℕ × Entry → Bool
is_detail e = is_debug e.1.level

abbrev pub tail {ℓ} : {A : Type ℓ} → List A → List A
tail [] = []
tail (x ∷ xs) = xs

-- A full lane loses its oldest entry to the new one.
unfoldable pub push_lane : ℕ → List (ℕ × Entry) → ℕ × Entry → List (ℕ × Entry)
push_lane capacity lane e = (if length lane == capacity then tail lane else lane) ++ (e ∷ [])

unfoldable pub push : Ring → Bool → Entry → Ring
unfolding push_lane
push r contended entry =
    if contended
    then record r { contention_dropped = (r.contention_dropped + 1) % 2 ^ 64 }
    else let next = (r.revision + 1) % 2 ^ 64 in
      if is_debug entry.level
      then record r {
        details = push_lane r.capacity r.details (r.revision, entry);
        revision = next;
      }
      else record r {
        entries = push_lane r.capacity r.entries (r.revision, entry);
        revision = next;
      }

-- `sort_unstable_by_key`, by the sequence numbers. `std` is not part of the repository: where no two
-- keys are equal the order of the result is determined, and this is one way to compute it.
unfoldable pub insert_sorted : ℕ × Entry → List (ℕ × Entry) → List (ℕ × Entry)
insert_sorted e [] = e ∷ []
insert_sorted e (x ∷ xs) = if ltb x.0 e.0 then x ∷ insert_sorted e xs else e ∷ (x ∷ xs)

unfoldable pub sort_by_sequence : List (ℕ × Entry) → List (ℕ × Entry)
unfolding insert_sorted
sort_by_sequence [] = []
sort_by_sequence (x ∷ xs) = insert_sorted x (sort_by_sequence xs)

unfoldable pub snapshot : Ring → ℕ → Snapshot
unfolding sort_by_sequence
snapshot r dropped = record {
  revision = r.revision;
  entries = map (λ e. e.1) (sort_by_sequence (r.entries ++ r.details));
  dropped = dropped;
}
