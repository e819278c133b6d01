-- ===== src/Diag/Levels.antt =====
-- shared/diagnostics/src/filter.rs: what the detailed mode adds.
use moq_cast_desktop.Base.{
  ℕ, ◌≡◌, refl, ◌≤◌, ◌⊎◌, inl, inr, Bool, true, false, not, ◌&&◌, if◌then◌else◌, leb, List, arith,
}
use moq_cast_desktop.Diag.Filter.{
  Level, FilterPolicy, allows, allows_target, severity, info, debug, matches_target,
  mdns_detail_target, transport_detail_target, quic_detail_target, set_detailed, detailed_targets,
  warn_capped_targets,
}

-- `allows`, by its tests.
decision : Bool → Bool → Bool → Bool → Bool → Bool → Bool → ℕ → Bool
decision detailed only quic private capped mdns transport s =
    if detailed && quic
    then true
    else if only && not private && not capped
    then false
    else if detailed && mdns
    then true
    else if detailed && leb s 3 && transport
    then true
    else if capped
    then leb s 1
    else if leb s 2
    then true
    else detailed && leb s 3 && private

decision_adds :
    (only quic private capped mdns transport : Bool) (s : ℕ)
    → decision false only quic private capped mdns transport s ≡ true
    → (decision true only quic private capped mdns transport s ≡ true) × (s ≤ 2)
unfolding decision
decision_adds only quic private capped mdns transport s h = (ground arith, ground arith)

decision_limits :
    (only quic private capped mdns transport : Bool) (s : ℕ)
    → decision true only quic private capped mdns transport s ≡ true
    → (s ≤ 3) ⊎ ((quic ≡ true) ⊎ (mdns ≡ true))
unfolding decision
decision_limits only true private capped mdns transport s h = inr (inl refl)
decision_limits only false private capped true transport s h = inr (inr refl)
decision_limits only false private capped false transport s h = inl (ground arith)

-- The detailed mode only adds: what is captured without it is captured with it. Without it, nothing
-- below the severity of info is captured, and with it nothing below debug but of a target of the
-- QUIC or mDNS details.
pub detailed_only_adds :
    (f : FilterPolicy) (level : Level) (target : List ℕ)
    → (allows (set_detailed f false) level target ≡ true
        → (allows (set_detailed f true) level target ≡ true) × (severity level ≤ severity info))
      × (allows (set_detailed f true) level target ≡ true
          → (severity level ≤ severity debug)
            ⊎ ((quic_detail_target target ≡ true) ⊎ (mdns_detail_target target ≡ true)))
unfolding allows allows_target set_detailed severity decision
detailed_only_adds f level target = (
  λ h.
      decision_adds f.private_targets_only (quic_detail_target target)
        (matches_target target detailed_targets) (matches_target target warn_capped_targets)
        (mdns_detail_target target) (transport_detail_target target) (severity level) h,
  λ h.
      decision_limits f.private_targets_only (quic_detail_target target)
        (matches_target target detailed_targets) (matches_target target warn_capped_targets)
        (mdns_detail_target target) (transport_detail_target target) (severity level) h,
)
