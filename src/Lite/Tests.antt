-- ===== src/Lite/Tests.antt =====
-- Runs of the Windows Lite client's registry and discovery worker, and instances of their theorems.
use moq_cast_desktop.Base.{
  ℕ, ◌+◌, ◌≡◌, ◌*◌, refl, Bool, true, false, List, [], ◌∷◌, ◌++◌, Option, none, some, arith, All,
  is_some, secs, keep_if, inl, inr, if◌then◌else◌, ltb, ◌^◌,
}
use moq_cast_desktop.Base.Bytes.{bytes, lower}
use moq_cast_desktop.Base.Map.{get}
use moq_cast_desktop.Lite.Service.{ValidatedService, validated_service, split_once, make_service}
use moq_cast_desktop.Lite.Target.{
  WatchTarget, ResolvedRecord, ResolvedMetadata, from_record, validated_watch_target, to_set,
}
use moq_cast_desktop.Lite.Registry.{
  Entry, found, resolved, Registry, RegistryChange, added, unchanged, Lifecycle, browsing, snapshot,
  resolved_record, found_name, removed_name, expire, watch_target_of, make_resolved, Snapshot,
}
use moq_cast_desktop.Lite.Grants.{IsGranted, IsSafe, validated_watch_target-IsGranted}
use moq_cast_desktop.Lite.Valid.{IsValid, resolved_record-IsValid}
use moq_cast_desktop.Lite.Shown.{snapshot-agrees}
use moq_cast_desktop.Lite.Discovery.{
  run_loop, turn, drain_monitor, monitor_event, handle, settle, start, publish, after_monitor,
  resume,
}
use moq_cast_desktop.Lite.Published.{latest_of, published_targets-IsSafe}
use moq_cast_desktop.Lite.Lifetime.{Takes, get-expire-resolved_record}
use moq_cast_desktop.Lite.Discovery.{Round, service_resolved, tick, search_stopped, opened, run}
use moq_cast_desktop.Lite.Coherence.{IsSound, run-IsSound}

abbrev name_a : List ℕ
name_a = bytes "0123456789ABcdef._moq._UDP.local."

abbrev sixteen : List ℕ
sixteen = bytes "0123456789abcdef"

-- A record that may be watched, at 10.0.0.7 and, twice, at the loopback address.
abbrev rec_a : ResolvedRecord
rec_a = record {
  fullname = sixteen ++ bytes "._moq._udp.local.";
  port = 4443;
  fingerprint = some (sixteen ++ (sixteen ++ (sixteen ++ sixteen)));
  credential = some (sixteen ++ sixteen);
  has_shared_secret = false;
  addresses = 2130706433 ∷ 167772167 ∷ 2130706433 ∷ [];
}

abbrev empty : Registry
empty = record { entries = [] }

empty-IsValid : IsValid empty
empty-IsValid = record { sorted = tt; bounded = omega arith; good = tt }

abbrev service_a : ValidatedService
service_a = unfold make_service in make_service rec_a.fullname sixteen

accepts_a : validated_service rec_a.fullname ≡ some service_a
unfolding validated_service split_once make_service lower
accepts_a = refl

rejects_blank : validated_service (bytes "bad name._moq._udp.local.") ≡ none
unfolding validated_service split_once make_service lower
rejects_blank = refl

abbrev meta_a : ResolvedMetadata
meta_a = unfold from_record to_set in from_record sixteen rec_a

abbrev target_a : WatchTarget
target_a = record {
  port = 4443;
  fingerprint = sixteen ++ (sixteen ++ (sixteen ++ sixteen));
  credential = sixteen ++ sixteen;
  addresses = 167772167 ∷ [];
}

grants_a : validated_watch_target meta_a ≡ some target_a
unfolding validated_watch_target from_record to_set
grants_a = refl

validated_watch_target-IsGranted_example : IsGranted meta_a target_a
validated_watch_target-IsGranted_example = validated_watch_target-IsGranted meta_a target_a grants_a

abbrev with_a : Registry
with_a = (resolved_record empty rec_a 0 (secs 30)).0

with_a-IsValid : IsValid with_a
with_a-IsValid = resolved_record-IsValid empty rec_a 0 (secs 30) empty-IsValid

resolved_record-IsValid_example : IsValid (resolved_record with_a rec_a 5 (secs 30)).0
resolved_record-IsValid_example = resolved_record-IsValid with_a rec_a 5 (secs 30) with_a-IsValid

Takes-rec_a : Takes empty rec_a service_a
Takes-rec_a = record { accepted = accepts_a; room = inr refl }

get-expire-resolved_record_example :
    get service_a.key (expire (resolved_record empty rec_a 10 20).0 30).0.entries
    ≡ (if ltb 30 (10 + 20) then some (resolved (make_resolved service_a rec_a) (10 + 20)) else none)
get-expire-resolved_record_example =
    get-expire-resolved_record empty rec_a service_a 10 20 30 empty-IsValid Takes-rec_a

snapshot-agrees_example :
    All
      (λ p. p.watchable ≡ is_some (watch_target_of (snapshot with_a 1 browsing) p.stable_id))
      (snapshot with_a 1 browsing).devices
snapshot-agrees_example = snapshot-agrees with_a 1 browsing with_a-IsValid

shows_a : watch_target_of (snapshot with_a 1 browsing) sixteen ≡ some target_a
unfolding watch_target_of snapshot resolved_record validated_service split_once make_service get
    moq_cast_desktop.Base.Map.insert moq_cast_desktop.Lite.Registry.collect from_record to_set
    validated_watch_target lower
shows_a = refl

abbrev rounds_a : List Round
rounds_a =
    record { stop = false; monitor = true ∷ []; event = service_resolved rec_a; now = 10 }
    ∷ record { stop = false; monitor = []; event = tick; now = 20 }
    ∷ record { stop = false; monitor = []; event = search_stopped; now = 30 }
    ∷ []

run-IsSound_example : IsSound (run opened rounds_a)
run-IsSound_example = run-IsSound opened rounds_a

abbrev resolves_a : List Round
resolves_a =
    record { stop = false; monitor = true ∷ []; event = service_resolved rec_a; now = 10 } ∷ []

publishes_a : watch_target_of (latest_of (run opened resolves_a)) sixteen ≡ some target_a
unfolding watch_target_of snapshot resolved_record validated_service split_once make_service get run
    run_loop turn drain_monitor monitor_event handle settle start publish after_monitor resume
    moq_cast_desktop.Base.Map.insert moq_cast_desktop.Lite.Registry.collect from_record to_set
    validated_watch_target lower
publishes_a = refl

published_targets-IsSafe_example : IsSafe target_a
published_targets-IsSafe_example =
    published_targets-IsSafe opened resolves_a sixteen target_a publishes_a
