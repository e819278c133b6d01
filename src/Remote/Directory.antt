-- ===== src/Remote/Directory.antt =====
-- windows/src/remote.rs: the directory of the screens that other peers announce. The broadcasts, which
-- the transport's library makes, are of any type. mac/src/remote.rs has the same directory.
use moq_cast_desktop.Base.{ℕ, not, List, Option, none, some, keep_if}
use moq_cast_desktop.Base.Bytes.{bytes_eq}
use moq_cast_desktop.Base.Map.{BTreeMap, insert, remove}
use moq_cast_desktop.Remote.Paths.{peer_id}

pub data ScreenAvailability : Type 0 where
  unavailable available withdrawn : ScreenAvailability

pub record RemoteScreenView : Type 0 where
  pub peer_id : List ℕ
  pub availability : ScreenAvailability

pub record Update : Type 0 where
  pub path : List ℕ
  pub view : RemoteScreenView

-- The peer of an announcement under the path, which is not the local one.
unfoldable pub announcement_peer : List ℕ → List ℕ → Option (List ℕ)
unfolding peer_id
announcement_peer path local_peer_id =
    keep_if (λ peer. not (bytes_eq peer local_peer_id)) (peer_id path)

-- `Event`
pub record Event {ℓ} (B : Type ℓ) : Type ℓ where
  pub path : List ℕ
  pub peer_id : List ℕ
  pub broadcast : Option B

module _ {ℓ} {B : Type ℓ} where
  -- The event that an announcement leads to: its broadcast, where it is active, or none.
  unfoldable pub announce : List ℕ → List ℕ → Option B → Option (Event B)
  unfolding announcement_peer
  announce local_peer_id path broadcast = elim (announcement_peer path local_peer_id) [
    | none ↦ none
    | some peer ↦ some (record { path = path; peer_id = peer; broadcast = broadcast })
  ]

  unfoldable pub recv : BTreeMap B → Event B → BTreeMap B × Update
  unfolding insert remove
  recv broadcasts event = elim event.broadcast [
    | some broadcast ↦ (
      insert event.path broadcast broadcasts,
      record {
        path = event.path;
        view = record { peer_id = event.peer_id; availability = ScreenAvailability.available };
      },
    )
    | none ↦ (
      remove event.path broadcasts,
      record {
        path = event.path;
        view = record { peer_id = event.peer_id; availability = ScreenAvailability.withdrawn };
      },
    )
  ]
