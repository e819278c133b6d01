-- ===== src/Remote/Latest.antt =====
-- windows/src/remote.rs: the directory against the announcements that it was given.
use moq_cast_desktop.Base.{
  ℕ, ◌≡◌, refl, ap, ◌∙◌, List, [], ◌∷◌, Option, none, some, if◌then◌else◌, Bool-cases, inl, inr,
}
use moq_cast_desktop.Base.Bytes.{bytes_eq, bytes_eq_sound}
use moq_cast_desktop.Base.Map.{
  BTreeMap, get, IsSorted, insert-IsSorted, remove-IsSorted, get-insert, get-remove_self,
  get-remove_ne,
}
use moq_cast_desktop.Remote.Directory.{Event, recv}

module _ {ℓ} {B : Type ℓ} where
  unfoldable pub recv_all : BTreeMap B → List (Event B) → BTreeMap B
  unfolding recv
  recv_all m [] = m
  recv_all m (e ∷ events) = recv_all (recv m e).0 events

  -- The broadcast of the last of the events under the path, or else what was there before.
  abbrev pub latest : List ℕ → Option B → List (Event B) → Option B
  latest path before [] = before
  latest path before (e ∷ events) =
      latest path (if bytes_eq e.path path then e.broadcast else before) events

  recv-IsSorted : (m : BTreeMap B) (e : Event B) → IsSorted m → IsSorted (recv m e).0
  unfolding recv
  recv-IsSorted m e s = go e.broadcast
    where
      go : (o : Option B) → IsSorted (recv m (record e { broadcast = o })).0
      go (some b) = insert-IsSorted e.path b m s
      go none = remove-IsSorted e.path m s

  get-recv :
      (m : BTreeMap B) (e : Event B) (path : List ℕ)
      → IsSorted m
      → get path (recv m e).0 ≡ (if bytes_eq e.path path then e.broadcast else get path m)
  unfolding recv
  get-recv m e path s = go e.broadcast
    where
      go :
          (o : Option B)
          → get path (recv m (record e { broadcast = o })).0
            ≡ (if bytes_eq e.path path then o else get path m)
      go (some b) = get-insert path e.path b m
      go none = elim (Bool-cases (bytes_eq e.path path)) [
        | inl same ↦ rw same (rw (bytes_eq_sound e.path path same) (get-remove_self path m s))
        | inr other ↦ rw other (get-remove_ne path e.path m other)
      ]

  -- After any events a directory whose keys strictly increase has under each path the broadcast of
  -- the last of the events under that path (none, if that was an end), and what it had before where
  -- there was no such event.
  pub directory_latest :
      (m : BTreeMap B) (events : List (Event B)) (path : List ℕ)
      → IsSorted m
      → get path (recv_all m events) ≡ latest path (get path m) events
  unfolding recv_all
  directory_latest m [] path s = refl
  directory_latest m (e ∷ events) path s =
      directory_latest (recv m e).0 events path (recv-IsSorted m e s)
      ∙ ap (λ o. latest path o events) (get-recv m e path s)
