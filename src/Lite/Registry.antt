-- ===== src/Lite/Registry.antt =====
-- windows-lite/src/registry.rs: the registry of devices, its operations and its snapshots.
-- An operation returns the new registry beside the `RegistryChange` that it reports.
use mathlib.Core.Logic.{ite}
use moq_cast_desktop.Base.{
  ℕ, ◌+◌, Bool, true, false, List, [], ◌∷◌, ◌++◌, Option, none, some, length, ltb, if◌then◌else◌,
  is_some, ℕ_discrete,
}
use moq_cast_desktop.Base.Map.{BTreeMap, get, insert, remove, retain_values, count_values}
use moq_cast_desktop.Lite.Service.{Presence, ValidatedService, validated_service}
use moq_cast_desktop.Lite.Target.{
  WatchTarget, ResolvedRecord, ResolvedMetadata, from_record, validated_watch_target,
}

abbrev pub max_devices : ℕ
max_devices = 128

pub data Lifecycle : Type 0 where
  starting browsing degraded stopping stopped failed : Lifecycle

pub data RegistryChange : Type 0 where
  added updated removed unchanged : RegistryChange

pub record ResolvedEntry : Type 0 where
  pub presence : Presence
  pub metadata : ResolvedMetadata
  pub watch_target : Option WatchTarget

pub data Entry : Type 0 where
  found : ℕ → Entry
  resolved : ResolvedEntry → ℕ → Entry

pub record Registry : Type 0 where
  pub entries : BTreeMap Entry

pub record Snapshot : Type 0 where
  pub revision : ℕ
  pub lifecycle : Lifecycle
  pub devices : List Presence
  pub watch_targets : BTreeMap WatchTarget

-- The derived `PartialEq` of `ResolvedEntry`.
unfoldable pub ResolvedEntry-discrete : Discrete ResolvedEntry
ResolvedEntry-discrete = hlevel ℕ_discrete

abbrev pub expires_at : Entry → ℕ
expires_at (found t) = t
expires_at (resolved _ t) = t

-- `*current = expires_at`
abbrev pub renew : ℕ → Entry → Entry
renew t (found _) = found t
renew t (resolved e _) = resolved e t

abbrev pub is_resolved : Entry → Bool
is_resolved (found _) = false
is_resolved (resolved _ _) = true

-- The arms of `found`'s match on the entry under the service's key.
unfoldable pub found_service : Registry → ValidatedService → ℕ → Registry
found_service r service expiry = elim (get service.key r.entries) [
  | some entry ↦ record { entries = insert service.key (renew expiry entry) r.entries }
  | none ↦
      if ltb (length r.entries) max_devices
      then record { entries = insert service.key (found expiry) r.entries }
      else r
]

-- `Registry::found`: every arm reports `Unchanged`.
unfoldable pub found_name : Registry → List ℕ → ℕ → ℕ → Registry × RegistryChange
unfolding found_service
found_name r fullname now lease = elim (validated_service fullname) [
  | none ↦ (r, unchanged)
  | some service ↦ (found_service r service (now + lease), unchanged)
]

-- The entry that `resolved_record` builds.
unfoldable pub make_resolved : ValidatedService → ResolvedRecord → ResolvedEntry
make_resolved service rec =
    let metadata = from_record service.inst rec in
    let watch_target = validated_watch_target metadata in
    let shown = service.presence in
    record {
      presence = record shown { watchable = is_some watch_target };
      metadata = metadata;
      watch_target = watch_target;
    }

-- The arms for an entry that is there: an equal resolved one is renewed, any other is replaced.
abbrev pub replace_entry : Entry → ResolvedEntry → ℕ → Entry × RegistryChange
replace_entry (found _) e t = (resolved e t, added)
replace_entry (resolved current _) e t =
    ite (ResolvedEntry-discrete current e) (resolved current t, unchanged) (resolved e t, updated)

unfoldable pub resolved_entry : Registry → List ℕ → ResolvedEntry → ℕ → Registry × RegistryChange
resolved_entry r key e expiry = elim (get key r.entries) [
  | some entry ↦
      let (entry', change) = replace_entry entry e expiry in
      (record { entries = insert key entry' r.entries }, change)
  | none ↦
      if ltb (length r.entries) max_devices
      then (record { entries = insert key (resolved e expiry) r.entries }, added)
      else (r, unchanged)
]

-- `Registry::resolved_record`
unfoldable pub resolved_record : Registry → ResolvedRecord → ℕ → ℕ → Registry × RegistryChange
unfolding resolved_entry make_resolved
resolved_record r rec now lease = elim (validated_service rec.fullname) [
  | none ↦ (r, unchanged)
  | some service ↦ resolved_entry r service.key (make_resolved service rec) (now + lease)
]

-- What `removed` reports of the entry that it took out.
abbrev pub removal : Option Entry → RegistryChange
removal (some (resolved _ _)) = RegistryChange.removed
removal (some (found _)) = unchanged
removal none = unchanged

-- `Registry::removed`
unfoldable pub removed_name : Registry → List ℕ → Registry × RegistryChange
removed_name r fullname = elim (validated_service fullname) [
  | none ↦ (r, unchanged)
  | some service ↦
      (record { entries = remove service.key r.entries }, removal (get service.key r.entries))
]

unfoldable pub online_count : Registry → ℕ
unfolding count_values
online_count r = count_values is_resolved r.entries

abbrev pub is_live : ℕ → Entry → Bool
is_live now e = ltb now (expires_at e)

-- `Registry::expire`
unfoldable pub expire : Registry → ℕ → Registry × RegistryChange
unfolding online_count
expire r now =
    let r' : Registry = record { entries = retain_values (is_live now) r.entries } in
    (r', if ltb (online_count r') (online_count r) then RegistryChange.removed else unchanged)

-- The loop's `if let`: a target is filed under its device's stable id.
abbrev pub collect_target : ResolvedEntry → BTreeMap WatchTarget → BTreeMap WatchTarget
collect_target e targets = elim e.watch_target [
  | none ↦ targets
  | some target ↦ insert e.presence.stable_id target targets
]

-- The loop of `snapshot` over the entries, with the two collections that it fills.
unfoldable pub collect :
    BTreeMap Entry → List Presence → BTreeMap WatchTarget → List Presence × BTreeMap WatchTarget
collect [] devices targets = (devices, targets)
collect ((_, found _) ∷ m) devices targets = collect m devices targets
collect ((_, resolved e _) ∷ m) devices targets =
    collect m (devices ++ (e.presence ∷ [])) (collect_target e targets)

-- `Registry::snapshot`
unfoldable pub snapshot : Registry → ℕ → Lifecycle → Snapshot
snapshot r revision lifecycle =
    let (devices, targets) = collect r.entries [] [] in
    record {
      revision = revision;
      lifecycle = lifecycle;
      devices = devices;
      watch_targets = targets;
    }

-- `Registry::clear`
unfoldable pub clear : Registry → Registry
clear r = record { entries = [] }

-- `Snapshot::starting`
unfoldable pub starting_snapshot : Snapshot
starting_snapshot = record { revision = 0; lifecycle = starting; devices = []; watch_targets = [] }

-- `Snapshot::watch_target`
unfoldable pub watch_target_of : Snapshot → List ℕ → Option WatchTarget
watch_target_of s stable_id = get stable_id s.watch_targets
