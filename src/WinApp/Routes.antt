-- ===== src/WinApp/Routes.antt =====
-- windows/src/runtime.rs: the rows and the screens of the snapshot agree.
use moq_cast_desktop.Base.{
  ℕ, ◌≡◌, refl, sym, ap, ◌∙◌, Bool, true, false, not, List, [], ◌∷◌, ◌++◌, Option, none, some,
  is_some, if◌then◌else◌, arith, Bool-cases, ◌⊎◌, inl, inr, keep_if, keep_if-eq-some,
}
use moq_cast_desktop.Base.Bytes.{bytes_eq, bytes_eq_sound, bytes_eq_comm}
use moq_cast_desktop.Base.Map.{
  get, insert, remove, update, retain_values, IsSorted, insert-IsSorted, remove-IsSorted,
  retain_values-IsSorted, get-insert, get-remove_self, get-remove_ne, get-retain_values,
  insert-eq-update,
}
use moq_cast_desktop.Remote.Paths.{for_peer, screen_prefix}
use moq_cast_desktop.Remote.Directory.{RemoteScreenView}
use moq_cast_desktop.WinApp.Snapshot.{
  PeerView, is_available, RuntimeSnapshot, prune_inactive_peer, peer_remains_visible, remove_peer,
}
use moq_cast_desktop.WinApp.Events.{availability_of}

-- A screen is under the path of its peer; a row has the availability of its peer's screen; and a
-- screen that is available has a row.
pub record IsAgreed (s : RuntimeSnapshot) : Type 0 where
  pub rows_sorted : IsSorted s.peers
  pub screens_sorted : IsSorted s.remote_screens
  pub named :
      (path : List ℕ) (v : RemoteScreenView)
      → get path s.remote_screens ≡ some v
      → path ≡ for_peer v.peer_id
  pub agreed :
      (id : List ℕ) (p : PeerView)
      → get id s.peers ≡ some p
      → p.screen ≡ availability_of (get (for_peer id) s.remote_screens)
  pub covered :
      (path : List ℕ) (v : RemoteScreenView)
      → get path s.remote_screens ≡ some v
      → is_available v.availability ≡ true
      → is_some (get v.peer_id s.peers) ≡ true

append-cancel : (xs ys zs : List ℕ) → xs ++ ys ≡ xs ++ zs → ys ≡ zs
append-cancel [] ys zs h = h
append-cancel (x ∷ xs) ys zs h = append-cancel xs ys zs (cc h)

for_peer-cancel : (a b : List ℕ) → for_peer a ≡ for_peer b → a ≡ b
unfolding for_peer
for_peer-cancel a b h = append-cancel screen_prefix a b h

-- A row is replaced, or made, by one that has the screen's availability.
pub put-IsAgreed :
    (s : RuntimeSnapshot) (id : List ℕ) (p : PeerView)
    → IsAgreed s
    → p.screen ≡ availability_of (get (for_peer id) s.remote_screens)
    → IsAgreed (record s { peers = insert id p s.peers })
put-IsAgreed s id p h e = record {
  rows_sorted = insert-IsSorted id p s.peers h.rows_sorted;
  screens_sorted = h.screens_sorted;
  named = h.named;
  agreed = λ j q g. agreed j q (Bool-cases (bytes_eq id j)) g;
  covered = λ path v g a. ground (arith, get-insert v.peer_id id p s.peers, h.covered path v g a);
}
  where
    agreed :
        (j : List ℕ) (q : PeerView)
        → (bytes_eq id j ≡ true) ⊎ (bytes_eq id j ≡ false)
        → get j (insert id p s.peers) ≡ some q
        → q.screen ≡ availability_of (get (for_peer j) s.remote_screens)
    agreed j q (inl same) g =
        let is : some p ≡ some q = rw same at (sym (get-insert j id p s.peers) ∙ g) in
        let at_id : id ≡ j = bytes_eq_sound id j same in cc (is, at_id, e)
    agreed j q (inr other) g = h.agreed j q (rw other at (sym (get-insert j id p s.peers) ∙ g))

-- A row goes with its screens.
remove_peer-IsAgreed :
    (s : RuntimeSnapshot) (id : List ℕ) → IsAgreed s → IsAgreed (remove_peer s id)
unfolding remove_peer
remove_peer-IsAgreed s id h = record {
  rows_sorted = remove-IsSorted id s.peers h.rows_sorted;
  screens_sorted = retain_values-IsSorted keeps s.remote_screens h.screens_sorted;
  named = λ path v g. h.named path v (kept path v g).0;
  agreed = λ j q g. agreed j q g (Bool-cases (bytes_eq id j));
  covered = λ path v g a. covered path v g a;
}
  where
    keeps : RemoteScreenView → Bool
    keeps screen = not (bytes_eq screen.peer_id id)

    kept :
        (path : List ℕ) (v : RemoteScreenView)
        → get path (retain_values keeps s.remote_screens) ≡ some v
        → (get path s.remote_screens ≡ some v) × (keeps v ≡ true)
    kept path v g =
        keep_if-eq-some keeps (get path s.remote_screens)
          (sym (get-retain_values path keeps s.remote_screens h.screens_sorted) ∙ g)

    stays :
        (j : List ℕ)
        → bytes_eq id j ≡ false
        → (o : Option RemoteScreenView) → get (for_peer j) s.remote_screens ≡ o
        → availability_of (keep_if keeps o) ≡ availability_of o
    stays j other none e = refl
    stays j other (some v) e =
        let mine : j ≡ v.peer_id = for_peer-cancel j v.peer_id (h.named (for_peer j) v e) in
        let keep : bytes_eq v.peer_id id ≡ false =
          bytes_eq_comm v.peer_id id ∙ ap (bytes_eq id) (sym mine) ∙ other in
        rw keep refl

    agreed :
        (j : List ℕ) (q : PeerView)
        → get j (remove id s.peers) ≡ some q
        → (bytes_eq id j ≡ true) ⊎ (bytes_eq id j ≡ false)
        → q.screen ≡ availability_of (get (for_peer j) (retain_values keeps s.remote_screens))
    agreed j q g (inl same) =
        let at_id : id ≡ j = bytes_eq_sound id j same in
        cc (at_id, get-remove_self id s.peers h.rows_sorted, g)
    agreed j q g (inr other) =
        let before = h.agreed j q (sym (get-remove_ne j id s.peers other) ∙ g) in
        before
        ∙ sym (stays j other (get (for_peer j) s.remote_screens) refl)
        ∙ ap availability_of
            (sym (get-retain_values (for_peer j) keeps s.remote_screens h.screens_sorted))

    covered :
        (path : List ℕ) (v : RemoteScreenView)
        → get path (retain_values keeps s.remote_screens) ≡ some v
        → is_available v.availability ≡ true
        → is_some (get v.peer_id (remove id s.peers)) ≡ true
    covered path v g a =
        let (here, k) = kept path v g in
        let other : bytes_eq id v.peer_id ≡ false = ground (arith, bytes_eq_comm id v.peer_id) in
        rw (get-remove_ne v.peer_id id s.peers other) (h.covered path v here a)

pub prune-IsAgreed :
    (s : RuntimeSnapshot) (id : List ℕ) → IsAgreed s → IsAgreed (prune_inactive_peer s id)
unfolding prune_inactive_peer
prune-IsAgreed s id h = go (peer_remains_visible s id)
  where
    go : (b : Bool) → IsAgreed (if b then s else remove_peer s id)
    go true = h
    go false = remove_peer-IsAgreed s id h

-- A row that is there is replaced.
pub replace-IsAgreed :
    (s : RuntimeSnapshot) (id : List ℕ) (old p : PeerView)
    → IsAgreed s
    → get id s.peers ≡ some old
    → p.screen ≡ availability_of (get (for_peer id) s.remote_screens)
    → IsAgreed (record s { peers = update id p s.peers })
replace-IsAgreed s id old p h g e =
    rw (sym (insert-eq-update id p old s.peers h.rows_sorted g)) (put-IsAgreed s id p h e)
