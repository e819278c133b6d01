-- ===== src/MacApp/Lifecycle.antt =====
-- mac/src/runtime.rs: generations, lifecycles and the phases that they are in. A counter that would
-- leave u64 panics in the code; here it counts on.
use moq_cast_desktop.Base.{ℕ, ◌+◌, ◌==◌, Bool, true, false, if◌then◌else◌}

pub record Lifecycle {ℓ} (P : Type ℓ) : Type ℓ where
  pub generation : ℕ
  pub phase : P

module _ {ℓ} {P : Type ℓ} where
  abbrev pub new_lifecycle : P → Lifecycle P
  new_lifecycle phase = record { generation = 0; phase = phase }

  unfoldable pub begin : Lifecycle P → P → Lifecycle P
  begin l phase = record { generation = l.generation + 1; phase = phase }

  unfoldable pub apply : Lifecycle P → ℕ → P → Lifecycle P × Bool
  apply l generation phase =
      if l.generation == generation then (record l { phase = phase }, true) else (l, false)

pub data RuntimePhase : Type 0 where
  starting ready suspended stopped : RuntimePhase

pub data DiscoveryPhase : Type 0 where
  starting scanning ready empty failed stopped : DiscoveryPhase

pub data SessionPhase : Type 0 where
  starting listening failed stopped : SessionPhase

pub data MediaPhase : Type 0 where
  idle preparing_watch watching preparing_share sharing stopping failed : MediaPhase

pub data MediaOwner : Type 0 where
  watch share : MediaOwner

pub data ShareAudioPhase : Type 0 where
  off preparing included failed : ShareAudioPhase

pub data AudioPhase : Type 0 where
  idle pending no_audio track_selected pcm_decoded pcm_submitted failed : AudioPhase

pub data NearbyIssue : Type 0 where
  local_network_unavailable direct_connections_unavailable discovery_stopped : NearbyIssue
  listener_stopped services_stopped shutdown_failed device_rejected : NearbyIssue
