-- ===== src/Base/Map.antt =====
-- `BTreeMap<String, V>`: an association list in the order of its keys, which is the order in which
-- `values()` and `retain` visit it. `std` is not part of the repository: these are its documented
-- operations, with the laws that the registries rely on.
use Prim.Native.Nat.{ℕ, ◌+◌, ◌≤◌}
use mathlib.Core.Path.{◌≡◌, refl, ap, ◌∙◌}
use mathlib.Core.Bool.{Bool, true, false}
use mathlib.Core.Logic.{inl, inr}
use mathlib.Core.Option.{Option, none, some}
use mathlib.Core.List.{List, [], ◌∷◌}
use native.Mathlib.Omega.{arith}
use moq_cast_desktop.Base.Tests.{if◌then◌else◌, keep_if, Bool-cases}
use moq_cast_desktop.Base.Lists.{length, All}
use moq_cast_desktop.Base.Bytes.{
  bytes_eq, bytes_lt, bytes_eq_refl, bytes_eq_sound, bytes_eq_comm, ne_of_bytes_lt, bytes_lt_trans,
  bytes_lt_total,
}

abbrev pub BTreeMap {ℓ} : Type ℓ → Type ℓ
BTreeMap V = List (List ℕ × V)

module _ {ℓ} {V : Type ℓ} where
  -- `BTreeMap::get`
  unfoldable pub get : List ℕ → BTreeMap V → Option V
  get k [] = none
  get k ((j, v) ∷ m) = if bytes_eq j k then some v else get k m

  -- `BTreeMap::insert`
  unfoldable pub insert : List ℕ → V → BTreeMap V → BTreeMap V
  insert k v [] = (k, v) ∷ []
  insert k v ((j, w) ∷ m) =
      if bytes_eq j k
      then (k, v) ∷ m
      else if bytes_lt k j
      then (k, v) ∷ (j, w) ∷ m
      else (j, w) ∷ insert k v m

  -- `BTreeMap::remove`, the map that is left
  unfoldable pub remove : List ℕ → BTreeMap V → BTreeMap V
  remove k [] = []
  remove k ((j, w) ∷ m) = if bytes_eq j k then m else (j, w) ∷ remove k m

  -- `BTreeMap::retain`, by the value
  unfoldable pub retain_values : (V → Bool) → BTreeMap V → BTreeMap V
  retain_values p [] = []
  retain_values p ((j, w) ∷ m) = if p w then (j, w) ∷ retain_values p m else retain_values p m

  -- How many entries have a value that passes the test.
  unfoldable pub count_values : (V → Bool) → BTreeMap V → ℕ
  count_values p [] = 0
  count_values p ((j, w) ∷ m) = (if p w then 1 else 0) + count_values p m

  -- The key is below every key of the map.
  abbrev pub Below : List ℕ → BTreeMap V → Type 0
  Below k [] = Unit
  Below k ((j, w) ∷ m) = (bytes_lt k j ≡ true) × Below k m

  -- The keys strictly increase: this is what makes the list a map.
  abbrev pub IsSorted : BTreeMap V → Type 0
  IsSorted [] = Unit
  IsSorted ((j, w) ∷ m) = Below j m × IsSorted m

  Below-trans : (k j : List ℕ) (m : BTreeMap V) → bytes_lt k j ≡ true → Below j m → Below k m
  Below-trans k j [] h b = tt
  Below-trans k j ((i, w) ∷ m) h b = (bytes_lt_trans k j i h b.0, Below-trans k j m h b.1)

  Below-insert :
      (i k : List ℕ) (v : V) (m : BTreeMap V)
      → bytes_lt i k ≡ true
      → Below i m
      → Below i (insert k v m)
  unfolding insert
  Below-insert i k v [] h b = (h, tt)
  Below-insert i k v ((j, w) ∷ m) h b = ground (arith, Below-insert i k v m h b.1)

  Below-remove : (i k : List ℕ) (m : BTreeMap V) → Below i m → Below i (remove k m)
  unfolding remove
  Below-remove i k [] b = tt
  Below-remove i k ((j, w) ∷ m) b = ground (arith, Below-remove i k m b.1)

  Below-retain_values :
      (i : List ℕ) (p : V → Bool) (m : BTreeMap V) → Below i m → Below i (retain_values p m)
  unfolding retain_values
  Below-retain_values i p [] b = tt
  Below-retain_values i p ((j, w) ∷ m) b = ground (arith, Below-retain_values i p m b.1)

  pub insert-IsSorted : (k : List ℕ) (v : V) (m : BTreeMap V) → IsSorted m → IsSorted (insert k v m)
  unfolding insert
  insert-IsSorted k v [] s = (tt, tt)
  insert-IsSorted k v ((j, w) ∷ m) s = elim (Bool-cases (bytes_eq j k)) [
    | inl e ↦ rw e (rw (bytes_eq_sound j k e) at s)
    | inr e ↦ elim (Bool-cases (bytes_lt k j)) [
      | inl l ↦ rw (e, l) ((l, Below-trans k j m l s.0), s)
      | inr g ↦
          rw (e, g)
            (
              Below-insert j k v m (bytes_lt_total k j g (bytes_eq_comm k j ∙ e)) s.0,
              insert-IsSorted k v m s.1,
            )
    ]
  ]

  pub remove-IsSorted : (k : List ℕ) (m : BTreeMap V) → IsSorted m → IsSorted (remove k m)
  unfolding remove
  remove-IsSorted k [] s = tt
  remove-IsSorted k ((j, w) ∷ m) s = ground (arith, Below-remove j k m s.0, remove-IsSorted k m s.1)

  pub retain_values-IsSorted :
      (p : V → Bool) (m : BTreeMap V) → IsSorted m → IsSorted (retain_values p m)
  unfolding retain_values
  retain_values-IsSorted p [] s = tt
  retain_values-IsSorted p ((j, w) ∷ m) s =
      ground (arith, Below-retain_values j p m s.0, retain_values-IsSorted p m s.1)

  pub get-insert :
      (j k : List ℕ) (v : V) (m : BTreeMap V)
      → get j (insert k v m) ≡ (if bytes_eq k j then some v else get j m)
  unfolding get insert
  get-insert j k v [] = refl
  get-insert j k v ((i, w) ∷ m) = elim (Bool-cases (bytes_eq i k)) [
    | inl e ↦ rw (bytes_eq_sound i k e) (ground (arith, bytes_eq_refl k))
    | inr e ↦
        ground (arith, get-insert j k v m, bytes_eq_sound k j, bytes_eq_sound i j, bytes_eq_refl k)
  ]

  pub get_of_Below : (k : List ℕ) (m : BTreeMap V) → Below k m → get k m ≡ none
  unfolding get
  get_of_Below k [] b = refl
  get_of_Below k ((j, w) ∷ m) b = rw (ne_of_bytes_lt k j b.0) (get_of_Below k m b.1)

  pub get-remove_self : (k : List ℕ) (m : BTreeMap V) → IsSorted m → get k (remove k m) ≡ none
  unfolding get remove
  get-remove_self k [] s = refl
  get-remove_self k ((j, w) ∷ m) s = elim (Bool-cases (bytes_eq j k)) [
    | inl e ↦ rw e (get_of_Below k m (rw (bytes_eq_sound j k e) at (s.0)))
    | inr e ↦ rw e (ground (arith, get-remove_self k m s.1))
  ]

  pub get-remove_ne :
      (j k : List ℕ) (m : BTreeMap V) → bytes_eq k j ≡ false → get j (remove k m) ≡ get j m
  unfolding get remove
  get-remove_ne j k [] h = refl
  get-remove_ne j k ((i, w) ∷ m) h = elim (Bool-cases (bytes_eq i k)) [
    | inl e ↦ rw e (rw (bytes_eq_sound i k e) (rw h refl))
    | inr e ↦ rw e (ground (arith, get-remove_ne j k m h))
  ]

  pub length-insert_new :
      (k : List ℕ) (v : V) (m : BTreeMap V) → get k m ≡ none → length (insert k v m) ≡ length m + 1
  unfolding get insert
  length-insert_new k v [] h = omega arith
  length-insert_new k v ((j, w) ∷ m) h = ground (arith, length-insert_new k v m)

  -- `*map.get_mut(k).unwrap() = v`: the value under a key that is there is replaced in its place.
  unfoldable pub update : List ℕ → V → BTreeMap V → BTreeMap V
  update k v [] = []
  update k v ((j, w) ∷ m) = if bytes_eq j k then (k, v) ∷ m else (j, w) ∷ update k v m

  pub insert-eq-update :
      (k : List ℕ) (v w : V) (m : BTreeMap V)
      → IsSorted m
      → get k m ≡ some w
      → insert k v m ≡ update k v m
  unfolding get insert update
  insert-eq-update k v w [] s h = cc
  insert-eq-update k v w ((j, u) ∷ m) s h = elim (Bool-cases (bytes_eq j k)) [
    | inl e ↦ rw e
    | inr e ↦ elim (Bool-cases (bytes_lt k j)) [
      | inl l ↦
          let missing : get k m ≡ none = get_of_Below k m (Below-trans k j m l s.0) in
          cc (missing, rw e at h)
      | inr g ↦ rw (e, g) (ap (◌∷◌ (j, u)) (insert-eq-update k v w m s.1 (rw e at h)))
    ]
  ]

  length-update : (k : List ℕ) (v : V) (m : BTreeMap V) → length (update k v m) ≡ length m
  unfolding update
  length-update k v [] = refl
  length-update k v ((j, w) ∷ m) = ground (arith, length-update k v m)

  pub length-insert_old :
      (k : List ℕ) (v w : V) (m : BTreeMap V)
      → IsSorted m
      → get k m ≡ some w
      → length (insert k v m) ≡ length m
  length-insert_old k v w m s h = rw (insert-eq-update k v w m s h) (length-update k v m)

  pub get-retain_values :
      (k : List ℕ) (p : V → Bool) (m : BTreeMap V)
      → IsSorted m
      → get k (retain_values p m) ≡ keep_if p (get k m)
  unfolding get retain_values
  get-retain_values k p [] s = refl
  get-retain_values k p ((j, w) ∷ m) s = elim (Bool-cases (bytes_eq j k)) [
    | inl e ↦
        let gone : get k m ≡ none = get_of_Below k m (rw (bytes_eq_sound j k e) at (s.0)) in
        ground (arith, get-retain_values k p m s.1)
    | inr e ↦ ground (arith, get-retain_values k p m s.1)
  ]

  pub length-retain_values-le :
      (p : V → Bool) (m : BTreeMap V) → length (retain_values p m) ≤ length m
  unfolding retain_values
  length-retain_values-le p [] = omega arith
  length-retain_values-le p ((j, w) ∷ m) = ground (arith, length-retain_values-le p m)

  pub length-remove-le : (k : List ℕ) (m : BTreeMap V) → length (remove k m) ≤ length m
  unfolding remove
  length-remove-le k [] = omega arith
  length-remove-le k ((j, w) ∷ m) = ground (arith, length-remove-le k m)

module _ {ℓ κ} {V : Type ℓ} (P : List ℕ × V → Type κ) where
  pub All-insert : (k : List ℕ) (v : V) (m : BTreeMap V) → P (k, v) → All P m → All P (insert k v m)
  unfolding insert
  All-insert k v [] h a = (h, tt)
  All-insert k v ((j, w) ∷ m) h a = ground (arith, All-insert k v m h a.1)

  pub All-remove : (k : List ℕ) (m : BTreeMap V) → All P m → All P (remove k m)
  unfolding remove
  All-remove k [] a = tt
  All-remove k ((j, w) ∷ m) a = ground (arith, All-remove k m a.1)

  pub All-retain_values : (p : V → Bool) (m : BTreeMap V) → All P m → All P (retain_values p m)
  unfolding retain_values
  All-retain_values p [] a = tt
  All-retain_values p ((j, w) ∷ m) a = ground (arith, All-retain_values p m a.1)

  -- An entry that `get` finds is one of the map.
  pub All-get : (k : List ℕ) (v : V) (m : BTreeMap V) → All P m → get k m ≡ some v → P (k, v)
  unfolding get
  All-get k v [] a h = cc
  All-get k v ((j, w) ∷ m) a h = elim (Bool-cases (bytes_eq j k)) [
    | inl e ↦ let same : w ≡ v = cc (rw e at h) in rw (← same, ← bytes_eq_sound j k e) a.0
    | inr e ↦ All-get k v m a.1 (rw e at h)
  ]

module _ {ℓ} {V : Type ℓ} where
  -- In a sorted map every entry is the one that `get` finds under its key.
  pub All-found : (m : BTreeMap V) → IsSorted m → All (λ (e : List ℕ × V). get e.0 m ≡ some e.1) m
  unfolding get
  All-found [] s = tt
  All-found ((j, w) ∷ m) s = (rw (bytes_eq_refl j), found_below m s.0 (All-found m s.1))
    where
      found_below :
          (n : BTreeMap V)
          → Below j n
          → All (λ (e : List ℕ × V). get e.0 m ≡ some e.1) n
          → All (λ (e : List ℕ × V). get e.0 ((j, w) ∷ m) ≡ some e.1) n
      found_below [] b a = tt
      found_below ((i, v) ∷ n) b a =
          (rw (bytes_eq_comm j i ∙ ne_of_bytes_lt j i b.0) a.0, found_below n b.1 a.1)
