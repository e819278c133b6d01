-- ===== src/WinApp/Screens.antt =====
-- windows/src/runtime.rs: a screen that changes with its peer's row keeps the agreement.
use moq_cast_desktop.Base.{
  ℕ, ◌≡◌, refl, sym, ap, ◌∙◌, true, false, List, none, some, is_some, if◌then◌else◌, arith,
  Bool-cases, ◌⊎◌, inl, inr,
}
use mathlib.Core.Bool.{true≢false}
use moq_cast_desktop.Base.Bytes.{bytes_eq, bytes_eq_refl, bytes_eq_sound}
use moq_cast_desktop.Base.Map.{BTreeMap, get, insert, IsSorted, insert-IsSorted, get-insert}
use moq_cast_desktop.Remote.Paths.{for_peer}
use moq_cast_desktop.Remote.Directory.{ScreenAvailability, RemoteScreenView}
use moq_cast_desktop.WinApp.Snapshot.{PeerView, is_available, RuntimeSnapshot}
use moq_cast_desktop.WinApp.Events.{availability_of}
use moq_cast_desktop.WinApp.Routes.{IsAgreed}

bytes_eq-for_peer : (a b : List ℕ) → bytes_eq (for_peer a) (for_peer b) ≡ bytes_eq a b
unfolding for_peer
bytes_eq-for_peer a b = refl

module _ (s : RuntimeSnapshot) (id : List ℕ) (screen : ScreenAvailability) (h : IsAgreed s) where
  -- The screens with the new one.
  abbrev pub entry : RemoteScreenView
  entry = record { peer_id = id; availability = screen }

  unfoldable pub screens_with : BTreeMap RemoteScreenView
  screens_with = insert (for_peer id) entry s.remote_screens

  screens_with-IsSorted : IsSorted screens_with
  unfolding screens_with
  screens_with-IsSorted = insert-IsSorted (for_peer id) entry s.remote_screens h.screens_sorted

  get-screens_with :
      (path : List ℕ)
      → get path screens_with
        ≡ (if bytes_eq (for_peer id) path then some entry else get path s.remote_screens)
  unfolding screens_with
  get-screens_with path = get-insert path (for_peer id) entry s.remote_screens

  named_with :
      (path : List ℕ) (v : RemoteScreenView)
      → get path screens_with ≡ some v
      → path ≡ for_peer v.peer_id
  named_with path v g = elim (Bool-cases (bytes_eq (for_peer id) path)) [
    | inl same ↦
        let is : some entry ≡ some v = rw same at (sym (get-screens_with path) ∙ g) in
        let here : for_peer id ≡ path = bytes_eq_sound (for_peer id) path same in cc (is, here)
    | inr other ↦ h.named path v (rw other at (sym (get-screens_with path) ∙ g))
  ]

  -- The row of another peer has its screen as before.
  agreed_other :
      (j : List ℕ) (q : PeerView)
      → bytes_eq id j ≡ false
      → get j s.peers ≡ some q
      → q.screen ≡ availability_of (get (for_peer j) screens_with)
  agreed_other j q other g =
      let far : bytes_eq (for_peer id) (for_peer j) ≡ false = bytes_eq-for_peer id j ∙ other in
      h.agreed j q g
      ∙ ap availability_of {x = get (for_peer j) s.remote_screens}
          (sym (get-screens_with (for_peer j) ∙ rw far refl))

  pub with_row-IsAgreed :
      (p : PeerView)
      → p.screen ≡ screen
      → IsAgreed (record s { remote_screens = screens_with; peers = insert id p s.peers })
  with_row-IsAgreed p e = record {
    rows_sorted = insert-IsSorted id p s.peers h.rows_sorted;
    screens_sorted = screens_with-IsSorted;
    named = named_with;
    agreed = λ j q g. agreed j q (Bool-cases (bytes_eq id j)) g;
    covered = λ path v g a. covered path v (Bool-cases (bytes_eq (for_peer id) path)) g a;
  }
    where
      agreed :
          (j : List ℕ) (q : PeerView)
          → (bytes_eq id j ≡ true) ⊎ (bytes_eq id j ≡ false)
          → get j (insert id p s.peers) ≡ some q
          → q.screen ≡ availability_of (get (for_peer j) screens_with)
      agreed j q (inl same) g =
          let is : some p ≡ some q = rw same at (sym (get-insert j id p s.peers) ∙ g) in
          let near : bytes_eq (for_peer id) (for_peer j) ≡ true = bytes_eq-for_peer id j ∙ same in
          let new : get (for_peer j) screens_with ≡ some entry =
            get-screens_with (for_peer j) ∙ rw near refl in
          rw new (cc (is, e))
      agreed j q (inr other) g =
          agreed_other j q other (rw other at (sym (get-insert j id p s.peers) ∙ g))

      covered :
          (path : List ℕ) (v : RemoteScreenView)
          → (bytes_eq (for_peer id) path ≡ true) ⊎ (bytes_eq (for_peer id) path ≡ false)
          → get path screens_with ≡ some v
          → is_available v.availability ≡ true
          → is_some (get v.peer_id (insert id p s.peers)) ≡ true
      covered path v (inl same) g a =
          let is : some entry ≡ some v = rw same at (sym (get-screens_with path) ∙ g) in
          let mine : id ≡ v.peer_id = cc is in
          rw (sym mine) (rw (get-insert id id p s.peers) (rw (bytes_eq_refl id) refl))
      covered path v (inr other) g a =
          let before = h.covered path v (rw other at (sym (get-screens_with path) ∙ g)) a in
          ground (arith, get-insert v.peer_id id p s.peers, before)

  pub without_row-IsAgreed :
      get id s.peers ≡ none
      → is_available screen ≡ false
      → IsAgreed (record s { remote_screens = screens_with })
  without_row-IsAgreed missing off = record {
    rows_sorted = h.rows_sorted;
    screens_sorted = screens_with-IsSorted;
    named = named_with;
    agreed = λ j q g. agreed j q (Bool-cases (bytes_eq id j)) g;
    covered = λ path v g a. covered path v (Bool-cases (bytes_eq (for_peer id) path)) g a;
  }
    where
      agreed :
          (j : List ℕ) (q : PeerView)
          → (bytes_eq id j ≡ true) ⊎ (bytes_eq id j ≡ false)
          → get j s.peers ≡ some q
          → q.screen ≡ availability_of (get (for_peer j) screens_with)
      agreed j q (inl same) g =
          let at_id : id ≡ j = bytes_eq_sound id j same in cc (at_id, missing, g)
      agreed j q (inr other) g = agreed_other j q other g

      covered :
          (path : List ℕ) (v : RemoteScreenView)
          → (bytes_eq (for_peer id) path ≡ true) ⊎ (bytes_eq (for_peer id) path ≡ false)
          → get path screens_with ≡ some v
          → is_available v.availability ≡ true
          → is_some (get v.peer_id s.peers) ≡ true
      covered path v (inl same) g a =
          let is : some entry ≡ some v = rw same at (sym (get-screens_with path) ∙ g) in
          let mine : screen ≡ v.availability = cc is in
          absurd (true≢false (sym a ∙ ap is_available (sym mine) ∙ off))
      covered path v (inr other) g a =
          h.covered path v (rw other at (sym (get-screens_with path) ∙ g)) a
