-- ===== src/LinuxSync/Ownership.antt =====
-- linux/src/runtime/playback_sync.rs: who may set the media clock, and who hears of it.
use moq_cast_desktop.Base.{
  ◌-◌, ℕ, ◌≡◌, ◌≢◌, ◌⊎◌, refl, true, List, [], ◌∷◌, Option, none, some, arith, All, is_some, ◌==◌,
  keep_if,
}
use moq_cast_desktop.LinuxSync.Clock.{
  AudioState, MediaClock, take_lease, audio_anchor, anchor_audio, clear_audio, invalidate_audio,
  lease_anchor, lease_invalidate, drop_lease, audio_media_position,
}

-- What the holder of a lease may do.
pub data LeaseOp : Type 0 where
  anchors : ℕ → ℕ → ℕ → LeaseOp
  invalidates : LeaseOp
  drops : LeaseOp

unfoldable pub apply : MediaClock → ℕ × LeaseOp → MediaClock
unfolding lease_anchor lease_invalidate drop_lease
apply c (lease, anchors end buffered wall) = (lease_anchor c lease end buffered wall).0
apply c (lease, invalidates) = (lease_invalidate c lease).0
apply c (lease, drops) = drop_lease c lease

unfoldable pub apply_all : MediaClock → List (ℕ × LeaseOp) → MediaClock
apply_all c [] = c
apply_all c (op ∷ ops) = apply_all (apply c op) ops

-- The clock belongs to the generation.
abbrev pub Owns : ℕ → Option AudioState → Type 0
Owns g none = ⊥
Owns g (some s) = s.generation ≡ g

owned-foreign :
    (o : Option AudioState) (g lease : ℕ)
    → Owns g o
    → lease ≢ g
    → keep_if (λ s. s.generation == lease) o ≡ none
owned-foreign none g lease h k = absurd h
owned-foreign (some s) g lease h k = ground arith

foreign_op :
    (c : MediaClock) (g lease : ℕ) (op : LeaseOp)
    → Owns g c.audio
    → lease ≢ g
    → apply c (lease, op) ≡ c
unfolding apply anchor_audio invalidate_audio clear_audio
foreign_op c g lease (anchors end buffered wall) o h =
    ground (arith, owned-foreign c.audio g lease o h)
foreign_op c g lease invalidates o h = ground (arith, owned-foreign c.audio g lease o h)
foreign_op c g lease drops o h = ground (arith, owned-foreign c.audio g lease o h)

-- While a generation owns the clock, nothing that other leases do changes it in any way.
pub foreign_ops :
    (c : MediaClock) (g : ℕ) (ops : List (ℕ × LeaseOp))
    → Owns g c.audio
    → All (λ op. op.0 ≢ g) ops
    → apply_all c ops ≡ c
unfolding apply_all
foreign_ops c g [] o h = refl
foreign_ops c g ((lease, op) ∷ ops) o h =
    rw (foreign_op c g lease op o h.0) (foreign_ops c g ops o h.1)

take_lease-Owns : (c : MediaClock) (g : ℕ) → Owns g (take_lease c g).0.audio
unfolding take_lease
take_lease-Owns c g = refl

owned_self :
    (o : Option AudioState) (g : ℕ)
    → Owns g o
    → (s : AudioState) × (keep_if (λ s. s.generation == g) o ≡ some s)
owned_self none g h = absurd h
owned_self (some s) g h = (s, ground arith)

owner_anchors :
    (c : MediaClock) (g end buffered wall : ℕ)
    → Owns g c.audio
    → (audio_anchor (lease_anchor c g end buffered wall).0
        ≡ some (record { media = end - buffered; wall = wall }))
      × ((lease_anchor c g end buffered wall).1 ≡ true)
unfolding lease_anchor audio_anchor anchor_audio audio_media_position
owner_anchors c g end buffered wall o =
    let (s, q) = owned_self c.audio g o in (ground (arith, q), ground (arith, q))

-- The newest lease stays in charge: after it was taken, and whatever leases of other generations do
-- meanwhile, its holder anchors the clock at the end of the frame less what is buffered, and is told
-- so.
pub newest_lease_anchors :
    (c : MediaClock) (g : ℕ) (ops : List (ℕ × LeaseOp)) (end buffered wall : ℕ)
    → All (λ op. op.0 ≢ g) ops
    → let c' = apply_all (take_lease c g).0 ops in
      (audio_anchor (lease_anchor c' g end buffered wall).0
        ≡ some (record { media = end - buffered; wall = wall }))
      × ((lease_anchor c' g end buffered wall).1 ≡ true)
newest_lease_anchors c g ops end buffered wall h =
    rw (foreign_ops (take_lease c g).0 g ops (take_lease-Owns c g) h)
      (owner_anchors (take_lease c g).0 g end buffered wall (take_lease-Owns c g))

-- Any operation on the media clock: a new lease, or one by the holder of a lease.
pub data ClockOp : Type 0 where
  takes : ℕ → ClockOp
  by_lease : ℕ → LeaseOp → ClockOp

unfoldable pub step : MediaClock → ClockOp → MediaClock
unfolding take_lease apply
step c (takes g) = (take_lease c g).0
step c (by_lease lease op) = apply c (lease, op)

-- Nobody misses a change: an operation after which there is an anchor where there was none, or none
-- where there was one, leaves a permit for the waiter, and no operation takes a permit away.
pub step_notifies :
    (c : MediaClock) (op : ClockOp)
    → ((is_some (audio_anchor (step c op)) ≡ is_some (audio_anchor c))
        ⊎ ((step c op).permit ≡ true))
      × (c.permit ≡ true → (step c op).permit ≡ true)
unfolding step audio_anchor anchor_audio invalidate_audio clear_audio
step_notifies c (takes g) = (ground arith, ground arith)
step_notifies c (by_lease lease (anchors end buffered wall)) = (ground arith, ground arith)
step_notifies c (by_lease lease invalidates) = (ground arith, ground arith)
step_notifies c (by_lease lease drops) = (ground arith, ground arith)
