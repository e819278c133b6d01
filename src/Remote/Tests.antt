-- ===== src/Remote/Tests.antt =====
-- Instances of the theorems on the screens of other peers.
use Prim.{tt}
use moq_cast_desktop.Base.{ℕ, ◌≡◌, List, [], ◌∷◌, Option, none, some}
use moq_cast_desktop.Base.Bytes.{bytes}
use moq_cast_desktop.Base.Map.{get}
use moq_cast_desktop.Remote.Directory.{Event}
use moq_cast_desktop.Remote.Latest.{recv_all, latest, directory_latest}
use moq_cast_desktop.Remote.Paths.{for_peer, peer_id}

abbrev appears : List ℕ → Option ℕ → Event ℕ
appears peer broadcast = record { path = for_peer peer; peer_id = peer; broadcast = broadcast }

directory_latest_example :
    let events =
      appears (bytes "tv") (some 1)
      ∷ appears (bytes "pc") (some 2)
      ∷ appears (bytes "tv") none
      ∷ [] in
    get (for_peer (bytes "tv")) (recv_all [] events)
    ≡ latest (for_peer (bytes "tv")) (get {V = ℕ} (for_peer (bytes "tv")) []) events
directory_latest_example =
    directory_latest []
      (appears (bytes "tv") (some 1)
        ∷ appears (bytes "pc") (some 2)
        ∷ appears (bytes "tv") none
        ∷ [])
      (for_peer (bytes "tv")) tt
