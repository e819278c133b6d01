-- ===== src/WinApp/Rows.antt =====
-- windows/src/runtime.rs: every row that the snapshot has is shown.
use moq_cast_desktop.Base.{
  ℕ, ◌≡◌, refl, Bool, true, ◌&&◌, List, [], ◌∷◌, is_some_and, if◌then◌else◌, arith, Bool-cases, inl,
  inr,
}
use moq_cast_desktop.Base.Bytes.{bytes_eq, bytes_eq_refl}
use moq_cast_desktop.Base.Map.{BTreeMap, get, insert, remove, update}
use moq_cast_desktop.Peers.Facts.{visible}
use moq_cast_desktop.WinApp.Snapshot.{
  PeerView, facts, RuntimeSnapshot, prune_inactive_peer, peer_remains_visible, remove_peer,
  prune_all,
}

-- The test for a row
abbrev pub shown : PeerView → Bool
shown p = visible (facts p)

-- All rows of the map are shown.
abbrev pub all_shown : BTreeMap PeerView → Bool
all_shown [] = true
all_shown ((k, p) ∷ m) = shown p && all_shown m

-- All but the one under the key.
abbrev pub others_shown : List ℕ → BTreeMap PeerView → Bool
others_shown id [] = true
others_shown id ((k, p) ∷ m) = if bytes_eq k id then all_shown m else shown p && others_shown id m

pub all_shown-insert :
    (id : List ℕ) (p : PeerView) (m : BTreeMap PeerView)
    → shown p ≡ true
    → all_shown m ≡ true
    → all_shown (insert id p m) ≡ true
unfolding insert
all_shown-insert id p [] h a = ground arith
all_shown-insert id p ((k, q) ∷ m) h a = ground (arith, all_shown-insert id p m)

pub all_shown-update :
    (id : List ℕ) (p : PeerView) (m : BTreeMap PeerView)
    → shown p ≡ true
    → all_shown m ≡ true
    → all_shown (update id p m) ≡ true
unfolding update
all_shown-update id p [] h a = refl
all_shown-update id p ((k, q) ∷ m) h a = ground (arith, all_shown-update id p m)

pub others_shown-update :
    (id : List ℕ) (p : PeerView) (m : BTreeMap PeerView)
    → all_shown m ≡ true
    → others_shown id (update id p m) ≡ true
unfolding update
others_shown-update id p [] a = refl
others_shown-update id p ((k, q) ∷ m) a =
    ground (arith, others_shown-update id p m, bytes_eq_refl id)

pub others_shown_of_all :
    (id : List ℕ) (m : BTreeMap PeerView) → all_shown m ≡ true → others_shown id m ≡ true
others_shown_of_all id [] a = refl
others_shown_of_all id ((k, q) ∷ m) a = ground (arith, others_shown_of_all id m)

all_shown-remove :
    (id : List ℕ) (m : BTreeMap PeerView)
    → others_shown id m ≡ true
    → all_shown (remove id m) ≡ true
unfolding remove
all_shown-remove id [] a = refl
all_shown-remove id ((k, q) ∷ m) a = ground (arith, all_shown-remove id m)

all_shown_of_others :
    (id : List ℕ) (m : BTreeMap PeerView)
    → others_shown id m ≡ true
    → is_some_and shown (get id m) ≡ true
    → all_shown m ≡ true
unfolding get
all_shown_of_others id [] a h = refl
all_shown_of_others id ((k, q) ∷ m) a h = ground (arith, all_shown_of_others id m)

-- Pruning the one row that may not be shown
pub prune-shown :
    (s : RuntimeSnapshot) (id : List ℕ)
    → others_shown id s.peers ≡ true
    → all_shown (prune_inactive_peer s id).peers ≡ true
unfolding prune_inactive_peer peer_remains_visible remove_peer
prune-shown s id a = elim (Bool-cases (is_some_and shown (get id s.peers))) [
  | inl stays ↦ rw stays (all_shown_of_others id s.peers a stays)
  | inr goes ↦ rw goes (all_shown-remove id s.peers a)
]

pub prune_all-shown :
    (s : RuntimeSnapshot) (ids : List (List ℕ))
    → all_shown s.peers ≡ true
    → all_shown (prune_all s ids).peers ≡ true
unfolding prune_all
prune_all-shown s [] a = a
prune_all-shown s (id ∷ ids) a =
    prune_all-shown (prune_inactive_peer s id) ids
      (prune-shown s id (others_shown_of_all id s.peers a))
