-- ===== src/Diag/Filter.antt =====
-- shared/diagnostics/src/filter.rs: which events are captured. The flag that several threads share
-- is a field, and the cache of `tracing` that a change rebuilds is left out.
use moq_cast_desktop.Base.{
  ℕ, Bool, true, false, not, ◌&&◌, ◌||◌, if◌then◌else◌, leb, List, [], ◌∷◌, none, some,
}
use moq_cast_desktop.Base.Bytes.{bytes, bytes_eq, strip_prefix, starts_with}

-- `tracing::Level`
pub data Level : Type 0 where
  error warn info debug trace : Level

abbrev pub detailed_targets : List (List ℕ)
detailed_targets =
    bytes "moq_cast_desktop"
    ∷ bytes "moqcast_macos"
    ∷ bytes "moqcast_windows"
    ∷ bytes "moqcast_diagnostics"
    ∷ bytes "moq_audio"
    ∷ bytes "moq_video"
    ∷ bytes "moq_mux"
    ∷ bytes "hang"
    ∷ []

abbrev pub warn_capped_targets : List (List ℕ)
warn_capped_targets = bytes "moq_tokio" ∷ bytes "mdns_sd" ∷ []

pub record FilterPolicy : Type 0 where
  pub detailed : Bool
  pub private_targets_only : Bool

unfoldable pub set_detailed : FilterPolicy → Bool → FilterPolicy
set_detailed f detailed = record f { detailed = detailed }

abbrev pub any_of : (List ℕ → Bool) → List (List ℕ) → Bool
any_of p [] = false
any_of p (x ∷ xs) = p x || any_of p xs

-- The closure of `matches_target`.
unfoldable pub matches_prefix : List ℕ → List ℕ → Bool
matches_prefix target prefix = bytes_eq target prefix || (elim (strip_prefix target prefix) [
  | none ↦ false
  | some suffix ↦ starts_with suffix (bytes "::")
])

unfoldable pub matches_target : List ℕ → List (List ℕ) → Bool
unfolding matches_prefix
matches_target target allowed = any_of (λ prefix. matches_prefix target prefix) allowed

unfoldable pub mdns_detail_target : List ℕ → Bool
mdns_detail_target target =
    any_of (λ t. bytes_eq target t)
      (bytes "mdns_sd::service_daemon"
        ∷ bytes "mdns_sd::dns_parser"
        ∷ bytes "mdns_sd::dns_cache"
        ∷ [])

unfoldable pub transport_detail_target : List ℕ → Bool
transport_detail_target target =
    any_of (λ t. bytes_eq target t)
      (bytes "moq_tokio::server"
        ∷ bytes "moq_tokio::noq"
        ∷ bytes "moq_tokio::connection"
        ∷ bytes "moq_tokio::client"
        ∷ bytes "moq_tokio::mdns"
        ∷ [])

unfoldable pub quic_detail_target : List ℕ → Bool
unfolding matches_target
quic_detail_target target =
    any_of (λ t. bytes_eq target t)
      (bytes "moq_noq::endpoint"
        ∷ bytes "moq_noq::connection"
        ∷ bytes "moq_noq_proto::endpoint"
        ∷ bytes "moq_noq_udp"
        ∷ bytes "moq_noq_udp::imp"
        ∷ [])
    || matches_target target (bytes "moq_noq_proto::connection" ∷ [])

unfoldable pub severity : Level → ℕ
severity error = 0
severity warn = 1
severity info = 2
severity debug = 3
severity trace = 4

-- The rest of `allows`, after the test for private targets.
unfoldable pub allows_target : FilterPolicy → Level → List ℕ → Bool
unfolding mdns_detail_target transport_detail_target matches_target severity
allows_target f level target =
    if f.detailed && mdns_detail_target target
    then true
    else if f.detailed && leb (severity level) (severity debug) && transport_detail_target target
    then true
    else if matches_target target warn_capped_targets
    then leb (severity level) (severity warn)
    else if leb (severity level) (severity info)
    then true
    else f.detailed
      && leb (severity level) (severity debug)
      && matches_target target detailed_targets

unfoldable pub allows : FilterPolicy → Level → List ℕ → Bool
unfolding allows_target quic_detail_target matches_target
allows f level target =
    if f.detailed && quic_detail_target target
    then true
    else if f.private_targets_only
        && not (matches_target target detailed_targets)
        && not (matches_target target warn_capped_targets)
    then false
    else allows_target f level target
