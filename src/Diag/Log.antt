-- ===== src/Diag/Log.antt =====
-- shared/diagnostics/src/ring.rs as one log: the entries in the order in which they came, of which a
-- full lane loses the oldest of its own.
use moq_cast_desktop.Base.{
  ℕ, ◌==◌, ◌<◌, ◌≡◌, inl, inr, refl, ap, ◌∙◌, Bool, true, false, if◌then◌else◌, List, [], ◌∷◌, ◌++◌,
  length, not, retain, All, All-append, All-retain, Bool-cases, arith,
}
use moq_cast_desktop.Diag.Ring.{Entry, is_detail, tail, push_lane, insert_sorted, sort_by_sequence}

-- Whether an entry belongs to the lane: that of the details, or the other.
abbrev pub in_lane : Bool → ℕ × Entry → Bool
in_lane true = is_detail
in_lane false = λ e. not (is_detail e)

-- The entries of the log that are in the lane.
abbrev pub lane_of : Bool → List (ℕ × Entry) → List (ℕ × Entry)
lane_of lane xs = retain (in_lane lane) xs

-- The log without the oldest entry of the lane.
unfoldable pub drop_oldest : Bool → List (ℕ × Entry) → List (ℕ × Entry)
drop_oldest lane [] = []
drop_oldest lane (x ∷ xs) = if in_lane lane x then xs else x ∷ drop_oldest lane xs

-- One entry comes into a log whose lanes have the capacity.
unfoldable pub record_entry : ℕ → List (ℕ × Entry) → ℕ × Entry → List (ℕ × Entry)
unfolding drop_oldest
record_entry capacity log e =
    let lane = is_detail e in
    (if length (lane_of lane log) == capacity then drop_oldest lane log else log) ++ (e ∷ [])

-- The sequence numbers increase.
abbrev pub IsSequence : List (ℕ × Entry) → Type 0
IsSequence [] = Unit
IsSequence (x ∷ xs) = All (λ y. x.0 < y.0) xs × IsSequence xs

insert_smallest :
    (x : ℕ × Entry) (xs : List (ℕ × Entry)) → All (λ y. x.0 < y.0) xs → insert_sorted x xs ≡ x ∷ xs
unfolding insert_sorted
insert_smallest x [] a = refl
insert_smallest x (y ∷ ys) a = ground (arith, a.0)

insert_comm :
    (x y : ℕ × Entry) (zs : List (ℕ × Entry))
    → x.0 < y.0
    → insert_sorted y (insert_sorted x zs) ≡ insert_sorted x (insert_sorted y zs)
unfolding insert_sorted
insert_comm x y [] lt = ground arith
insert_comm x y (z ∷ zs) lt = ground (arith, insert_comm x y zs lt)

-- The smallest entry can stand anywhere.
sort_middle :
    (x : ℕ × Entry) (earlier later : List (ℕ × Entry))
    → All (λ y. x.0 < y.0) earlier
    → sort_by_sequence (earlier ++ (x ∷ later))
      ≡ insert_sorted x (sort_by_sequence (earlier ++ later))
unfolding sort_by_sequence
sort_middle x [] later a = refl
sort_middle x (y ∷ earlier) later a =
    rw (sort_middle x earlier later a.1) (insert_comm x y (sort_by_sequence (earlier ++ later)) a.0)

-- The two lanes of a log, sorted, are the log.
pub sort_lanes :
    (xs : List (ℕ × Entry))
    → IsSequence xs
    → sort_by_sequence (lane_of false xs ++ lane_of true xs) ≡ xs
unfolding sort_by_sequence
sort_lanes [] s = refl
sort_lanes (x ∷ xs) s = elim (Bool-cases (is_detail x)) [
  | inl e ↦ rw e (
      rw
        (sort_middle x (lane_of false xs) (lane_of true xs)
          (All-retain (λ y. x.0 < y.0) (λ y. not (is_detail y)) xs s.0))
        (rw (sort_lanes xs s.1) (insert_smallest x xs s.0)))
  | inr e ↦ rw e (rw (sort_lanes xs s.1) (insert_smallest x xs s.0))
]

append_nil {ℓ} : {A : Type ℓ} (xs : List A) → xs ++ [] ≡ xs
append_nil [] = refl
append_nil (x ∷ xs) = ap (λ ys. x ∷ ys) (append_nil xs)

retain-append {ℓ} :
    {A : Type ℓ} (p : A → Bool) (xs ys : List A) → retain p (xs ++ ys) ≡ retain p xs ++ retain p ys
retain-append p [] ys = refl
retain-append p (x ∷ xs) ys = ground (arith, retain-append p xs ys)

drop_oldest-own :
    (lane : Bool) (xs : List (ℕ × Entry))
    → lane_of lane (drop_oldest lane xs) ≡ tail (lane_of lane xs)
unfolding drop_oldest
drop_oldest-own lane [] = refl
drop_oldest-own lane (x ∷ xs) = ground (arith, drop_oldest-own lane xs)

other_lane : (lane : Bool) (x : ℕ × Entry) → in_lane (not lane) x ≡ not (in_lane lane x)
other_lane true x = refl
other_lane false x = ground arith

drop_oldest-other :
    (lane : Bool) (xs : List (ℕ × Entry))
    → lane_of (not lane) (drop_oldest lane xs) ≡ lane_of (not lane) xs
unfolding drop_oldest
drop_oldest-other lane [] = refl
drop_oldest-other lane (x ∷ xs) = ground (arith, other_lane lane x, drop_oldest-other lane xs)

pub All-drop_oldest {κ} :
    (P : ℕ × Entry → Type κ) (lane : Bool) (xs : List (ℕ × Entry))
    → All P xs
    → All P (drop_oldest lane xs)
unfolding drop_oldest
All-drop_oldest P lane [] a = a
All-drop_oldest P lane (x ∷ xs) a = ground (arith, All-drop_oldest P lane xs a.1)

pub drop_oldest-IsSequence :
    (lane : Bool) (xs : List (ℕ × Entry)) → IsSequence xs → IsSequence (drop_oldest lane xs)
unfolding drop_oldest
drop_oldest-IsSequence lane [] s = s
drop_oldest-IsSequence lane (x ∷ xs) s =
    ground (arith, drop_oldest-IsSequence lane xs s.1, All-drop_oldest (λ y. x.0 < y.0) lane xs s.0)

pub append-IsSequence :
    (xs : List (ℕ × Entry)) (e : ℕ × Entry)
    → IsSequence xs
    → All (λ y. y.0 < e.0) xs
    → IsSequence (xs ++ (e ∷ []))
append-IsSequence [] e s a = (tt, tt)
append-IsSequence (x ∷ xs) e s a =
    (All-append (λ y. x.0 < y.0) xs (e ∷ []) s.0 (a.0, tt), append-IsSequence xs e s.1 a.1)

pub record_entry-own :
    (capacity : ℕ) (log : List (ℕ × Entry)) (e : ℕ × Entry) (lane : Bool)
    → is_detail e ≡ lane
    → in_lane lane e ≡ true
    → lane_of lane (record_entry capacity log e) ≡ push_lane capacity (lane_of lane log) e
unfolding record_entry push_lane
record_entry-own capacity log e lane is own = rw is (
    rw
      (retain-append (in_lane lane)
        (if length (lane_of lane log) == capacity then drop_oldest lane log else log) (e ∷ []))
      (rw own (elim (Bool-cases (length (lane_of lane log) == capacity)) [
        | inl full ↦ rw (full, push_lane) (ap (λ q. q ++ (e ∷ [])) (drop_oldest-own lane log))
        | inr room ↦ rw (room, push_lane) refl
      ])))

pub record_entry-other :
    (capacity : ℕ) (log : List (ℕ × Entry)) (e : ℕ × Entry) (lane : Bool)
    → is_detail e ≡ lane
    → in_lane (not lane) e ≡ false
    → lane_of (not lane) (record_entry capacity log e) ≡ lane_of (not lane) log
unfolding record_entry
record_entry-other capacity log e lane is own = rw is (
    rw
      (retain-append (in_lane (not lane))
        (if length (lane_of lane log) == capacity then drop_oldest lane log else log) (e ∷ []))
      (rw own (
        append_nil _ ∙ (elim (Bool-cases (length (lane_of lane log) == capacity)) [
          | inl full ↦ rw full (drop_oldest-other lane log)
          | inr room ↦ rw room refl
        ]))))
