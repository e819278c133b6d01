-- ===== src/Diag/Snapshots.antt =====
-- shared/diagnostics/src/ring.rs: the ring refines one log in the order of arrival.
use mathlib.Core.Path.{subst}
use moq_cast_desktop.Base.{
  ℕ, ◌+◌, ◌^◌, ◌%◌, ◌==◌, ◌<◌, ◌≤◌, ◌≡◌, inl, inr, refl, sym, ap, ◌∙◌, max, Bool, true, false, List,
  [], ◌∷◌, ◌++◌, map, length, All, All-append, All-map, Bool-cases, arith, length-append,
}
use moq_cast_desktop.Diag.Ring.{Entry, Ring, new_ring, is_debug, push_lane, push, snapshot}
use moq_cast_desktop.Diag.Log.{
  lane_of, drop_oldest, record_entry, IsSequence, sort_lanes, All-drop_oldest,
  drop_oldest-IsSequence, append-IsSequence, record_entry-own, record_entry-other,
}

-- Pushes, each with whether its lane's lock was held.
unfoldable pub run : Ring → List (Bool × Entry) → Ring
unfolding push
run r [] = r
run r ((contended, entry) ∷ calls) = run (push r contended entry) calls

-- The same pushes on a log: a contended one leaves nothing.
unfoldable pub run_log : ℕ → ℕ → List (ℕ × Entry) → List (Bool × Entry) → List (ℕ × Entry)
unfolding record_entry
run_log capacity revision log [] = log
run_log capacity revision log ((true, entry) ∷ calls) = run_log capacity revision log calls
run_log capacity revision log ((false, entry) ∷ calls) =
    run_log capacity (revision + 1) (record_entry capacity log (revision, entry)) calls

-- The ring has the lanes of the log.
pub record Agrees (log : List (ℕ × Entry)) (r : Ring) : Type 0 where
  pub entries : r.entries ≡ lane_of false log
  pub details : r.details ≡ lane_of true log
  pub ordered : IsSequence log
  pub below : All (λ e. e.0 < r.revision) log

record_entry-ordered :
    (capacity : ℕ) (log : List (ℕ × Entry)) (revision : ℕ) (entry : Entry)
    → IsSequence log
    → All (λ e. e.0 < revision) log
    → IsSequence (record_entry capacity log (revision, entry))
      × All (λ e. e.0 < revision + 1) (record_entry capacity log (revision, entry))
unfolding record_entry
record_entry-ordered capacity log revision entry s b =
    let lane = is_debug entry.level in
    let later : (xs : List (ℕ × Entry))
        → All (λ e. e.0 < revision) xs
        → All (λ e. e.0 < revision + 1) xs =
      λ xs a. All-map _ _ xs (λ x lt. omega arith) a in
    let kept : (xs : List (ℕ × Entry))
        → IsSequence xs
        → All (λ e. e.0 < revision) xs
        → IsSequence (xs ++ ((revision, entry) ∷ []))
          × All (λ e. e.0 < revision + 1) (xs ++ ((revision, entry) ∷ [])) =
      λ xs o a. (
        append-IsSequence xs (revision, entry) o a,
        All-append _ xs ((revision, entry) ∷ []) (later xs a) (omega arith, tt),
      ) in
    elim (Bool-cases (length (lane_of lane log) == capacity)) [
      | inl full ↦ rw full (
          kept (drop_oldest lane log) (drop_oldest-IsSequence lane log s)
            (All-drop_oldest (λ e. e.0 < revision) lane log b))
      | inr room ↦ rw room (kept log s b)
    ]

push-Agrees :
    (log : List (ℕ × Entry)) (r : Ring) (entry : Entry)
    → r.revision + 1 < 2 ^ 64
    → Agrees log r
    → Agrees (record_entry r.capacity log (r.revision, entry)) (push r false entry)
      × ((push r false entry).revision ≡ r.revision + 1)
unfolding push
push-Agrees log r entry bound a =
    let (ordered, below) = record_entry-ordered r.capacity log r.revision entry a.ordered a.below in
    let wraps : (r.revision + 1) % 2 ^ 64 ≡ r.revision + 1 = omega arith in
    let e0 : ℕ × Entry = (r.revision, entry) in
    elim (Bool-cases (is_debug entry.level)) [
      | inl e ↦ rw e (
        record {
          entries = a.entries ∙ sym (record_entry-other r.capacity log e0 true e (rw e refl));
          details =
              ap (λ lane. push_lane r.capacity lane e0) a.details
              ∙ sym (record_entry-own r.capacity log e0 true e e);
          ordered = ordered;
          below = rw wraps below;
        },
        wraps,
      )
      | inr e ↦ rw e (
        record {
          entries =
              ap (λ lane. push_lane r.capacity lane e0) a.entries
              ∙ sym (record_entry-own r.capacity log e0 false e (rw e refl));
          details = a.details ∙ sym (record_entry-other r.capacity log e0 false e e);
          ordered = ordered;
          below = rw wraps below;
        },
        wraps,
      )
    ]

push-capacity :
    (r : Ring) (contended : Bool) (entry : Entry) → (push r contended entry).capacity ≡ r.capacity
unfolding push
push-capacity r contended entry = ground arith

run-Agrees :
    (log : List (ℕ × Entry)) (r : Ring) (calls : List (Bool × Entry))
    → r.revision + length calls < 2 ^ 64
    → Agrees log r
    → Agrees (run_log r.capacity r.revision log calls) (run r calls)
unfolding run run_log
run-Agrees log r [] bound a = a
run-Agrees log r ((true, entry) ∷ calls) bound a =
    run-Agrees log (push r true entry) calls (omega arith)
      (record { entries = a.entries; details = a.details; ordered = a.ordered; below = a.below })
run-Agrees log r ((false, entry) ∷ calls) bound a =
    let (a', next) = push-Agrees log r entry (omega arith) a in
    subst
      (λ c.
        Agrees (run_log c (r.revision + 1) (record_entry r.capacity log (r.revision, entry)) calls)
          (run (push r false entry) calls))
      (push-capacity r false entry)
      (subst
        (λ n.
          Agrees
            (run_log (push r false entry).capacity n
              (record_entry r.capacity log (r.revision, entry)) calls)
            (run (push r false entry) calls))
        next
        (run-Agrees (record_entry r.capacity log (r.revision, entry)) (push r false entry) calls
          (omega (arith, next)) a'))

-- The ring refines one log: after any pushes (fewer than 2^64), of which those that found their
-- lane's lock held are lost, a snapshot shows the other entries in the order in which they came,
-- less those that a full lane lost as the oldest of their own lane.
pub snapshot-follows :
    (capacity dropped : ℕ) (calls : List (Bool × Entry))
    → length calls < 2 ^ 64
    → (snapshot (run (new_ring capacity) calls) dropped).entries
      ≡ map (λ e. e.1) (run_log (max capacity 1) 0 [] calls)
unfolding snapshot new_ring
snapshot-follows capacity dropped calls bound =
    let a =
      run-Agrees [] (new_ring capacity) calls (omega arith)
        (record { entries = refl; details = refl; ordered = tt; below = tt }) in
    ap (λ xs. map (λ (e : ℕ × Entry). e.1) xs)
      (rw (a.entries, a.details) (sort_lanes (run_log (max capacity 1) 0 [] calls) a.ordered))

-- A lane stays within the capacity.
push_lane-le :
    (capacity : ℕ) (lane : List (ℕ × Entry)) (e : ℕ × Entry)
    → 1 ≤ capacity
    → length lane ≤ capacity
    → length (push_lane capacity lane e) ≤ capacity
unfolding push_lane
push_lane-le capacity [] e one le = ground arith
push_lane-le capacity (x ∷ xs) e one le = elim (Bool-cases (length (x ∷ xs) == capacity)) [
  | inl full ↦ rw full (rw (length-append xs (e ∷ [])) (omega arith))
  | inr room ↦ rw room (rw (length-append (x ∷ xs) (e ∷ [])) (ground arith))
]

-- The lanes fit the capacity, and every push so far was counted once.
pub record IsBounded (r : Ring) : Type 0 where
  pub positive : 1 ≤ r.capacity
  pub entries : length r.entries ≤ r.capacity
  pub details : length r.details ≤ r.capacity

-- A push keeps both lanes within the capacity, and is counted once, by the revision or as dropped
-- (modulo 2^64); a push of details leaves the other entries as they are.
pub push-IsBounded :
    (r : Ring) (contended : Bool) (entry : Entry)
    → IsBounded r
    → let r' = push r contended entry in
      IsBounded r'
      × ((r'.revision + r'.contention_dropped) % 2 ^ 64
          ≡ (r.revision + r.contention_dropped + 1) % 2 ^ 64)
      × (is_debug entry.level ≡ true → r'.entries ≡ r.entries)
unfolding push
push-IsBounded r true entry b = (
  record { positive = b.positive; entries = b.entries; details = b.details },
  omega arith,
  λ h. refl,
)
push-IsBounded r false entry b = elim (Bool-cases (is_debug entry.level)) [
  | inl e ↦ rw e (
    record {
      positive = b.positive;
      entries = b.entries;
      details = push_lane-le r.capacity r.details (r.revision, entry) b.positive b.details;
    },
    omega arith,
    λ h. refl,
  )
  | inr e ↦ rw e (
    record {
      positive = b.positive;
      entries = push_lane-le r.capacity r.entries (r.revision, entry) b.positive b.entries;
      details = b.details;
    },
    omega arith,
    λ h. cc h,
  )
]
