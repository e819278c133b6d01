-- ===== src/Lite/Valid.antt =====
-- windows-lite/src/registry.rs: the invariant of the registry, which every operation keeps.
use mathlib.Core.Logic.{if_pos, if_neg}
use moq_cast_desktop.Base.{
  ℕ, ◌+◌, ◌≡◌, ◌≤◌, refl, true, List, ◌++◌, Option, none, some, arith, length, All, ltb, ltb→lt,
  is_some, Option-cases, Bool-cases, inl, inr,
}
use moq_cast_desktop.Base.Map.{
  get, insert, IsSorted, insert-IsSorted, remove-IsSorted, retain_values-IsSorted, All-insert,
  All-remove, All-retain_values, All-get, length-insert_new, length-insert_old, length-remove-le,
  length-retain_values-le,
}
use moq_cast_desktop.Lite.Service.{ValidatedService, validated_service}
use moq_cast_desktop.Lite.Target.{
  WatchTarget, ResolvedRecord, ResolvedMetadata, validated_watch_target, from_record,
}
use moq_cast_desktop.Lite.Names.{IsService, validated_service-IsService, suffix}
use moq_cast_desktop.Lite.Grants.{IsSafe, validated_watch_target-IsGranted}
use moq_cast_desktop.Lite.Registry.{
  Entry, found, resolved, unchanged, updated, ResolvedEntry, ResolvedEntry-discrete, Registry,
  RegistryChange, renew, replace_entry, found_service, found_name, make_resolved, resolved_entry,
  resolved_record, removed_name, expire, clear, is_live, max_devices,
}

abbrev pub AreSafe : Option WatchTarget → Type 0
AreSafe none = Unit
AreSafe (some t) = IsSafe t

-- An entry stands under the key of its own stable id, is shown as watchable exactly if it has a
-- target, and its target is safe.
pub record IsShown (key : List ℕ) (e : ResolvedEntry) : Type 0 where
  pub keyed : key ≡ e.presence.stable_id ++ suffix
  pub agrees : e.presence.watchable ≡ is_some e.watch_target
  pub safe : AreSafe e.watch_target

abbrev pub IsGood : List ℕ × Entry → Type 0
IsGood (key, found t) = Unit
IsGood (key, resolved e t) = IsShown key e

pub record IsValid (r : Registry) : Type 0 where
  pub sorted : IsSorted r.entries
  pub bounded : length r.entries ≤ max_devices
  pub good : All IsGood r.entries

renew-IsGood : (key : List ℕ) (t : ℕ) (e : Entry) → IsGood (key, e) → IsGood (key, renew t e)
renew-IsGood key t (found u) h = tt
renew-IsGood key t (resolved e u) h = h

replace-IsGood :
    (key : List ℕ) (w : Entry) (e : ResolvedEntry) (t : ℕ)
    → IsGood (key, w)
    → IsShown key e
    → IsGood (key, (replace_entry w e t).0)
replace-IsGood key (found u) e t h k = k
replace-IsGood key (resolved c u) e t h k = elim (ResolvedEntry-discrete c e) [
  | yes p ↦
      rw
        (if_pos {C = Entry × RegistryChange} (ResolvedEntry-discrete c e) p
          (resolved c t, unchanged) (resolved e t, updated))
        h
  | no p ↦
      rw
        (if_neg {C = Entry × RegistryChange} (ResolvedEntry-discrete c e) p
          (resolved c t, unchanged) (resolved e t, updated))
        k
]

-- Writing a good entry under a key that is there, or under a new one if there is room.
write_old :
    (r : Registry) (key : List ℕ) (e w : Entry)
    → IsValid r
    → get key r.entries ≡ some w
    → IsGood (key, e)
    → IsValid (record { entries = insert key e r.entries })
write_old r key e w v h g = record {
  sorted = insert-IsSorted key e r.entries v.sorted;
  bounded = omega (arith, length-insert_old key e w r.entries v.sorted h, v.bounded);
  good = All-insert IsGood key e r.entries g v.good;
}

write_new :
    (r : Registry) (key : List ℕ) (e : Entry)
    → IsValid r
    → get key r.entries ≡ none
    → ltb (length r.entries) max_devices ≡ true
    → IsGood (key, e)
    → IsValid (record { entries = insert key e r.entries })
write_new r key e v h room g = record {
  sorted = insert-IsSorted key e r.entries v.sorted;
  bounded = omega (arith, length-insert_new key e r.entries h, ltb→lt _ _ room);
  good = All-insert IsGood key e r.entries g v.good;
}

found_service-IsValid :
    (r : Registry) (service : ValidatedService) (t : ℕ)
    → IsValid r
    → IsValid (found_service r service t)
unfolding found_service
found_service-IsValid r service t v = elim (Option-cases (get service.key r.entries)) [
  | inr (w, q) ↦
      rw (q, found_service)
        (write_old r service.key (renew t w) w v q
          (renew-IsGood service.key t w (All-get IsGood service.key w r.entries v.good q)))
  | inl q ↦ elim (Bool-cases (ltb (length r.entries) max_devices)) [
    | inl room ↦ rw (q, found_service) (rw room (write_new r service.key (found t) v q room tt))
    | inr full ↦ rw (q, found_service) (rw full v)
  ]
]

pub found_name-IsValid :
    (r : Registry) (name : List ℕ) (now lease : ℕ)
    → IsValid r
    → IsValid (found_name r name now lease).0
unfolding found_name
found_name-IsValid r name now lease v = elim (Option-cases (validated_service name)) [
  | inl q ↦ rw (q, found_name) v
  | inr (service, q) ↦ rw (q, found_name) (found_service-IsValid r service (now + lease) v)
]

AreSafe-validated :
    (m : ResolvedMetadata) (o : Option WatchTarget) → validated_watch_target m ≡ o → AreSafe o
AreSafe-validated m none h = tt
AreSafe-validated m (some t) h = (validated_watch_target-IsGranted m t h).safe

make_resolved-IsShown :
    (service : ValidatedService) (rec : ResolvedRecord)
    → IsService rec.fullname service
    → IsShown service.key (make_resolved service rec)
unfolding make_resolved
make_resolved-IsShown service rec h = record {
  keyed = h.keyed;
  agrees = refl;
  safe = AreSafe-validated (from_record service.inst rec) _ refl;
}

resolved_entry-IsValid :
    (r : Registry) (key : List ℕ) (e : ResolvedEntry) (t : ℕ)
    → IsValid r
    → IsShown key e
    → IsValid (resolved_entry r key e t).0
unfolding resolved_entry
resolved_entry-IsValid r key e t v g = elim (Option-cases (get key r.entries)) [
  | inr (w, q) ↦
      rw (q, resolved_entry)
        (write_old r key (replace_entry w e t).0 w v q
          (replace-IsGood key w e t (All-get IsGood key w r.entries v.good q) g))
  | inl q ↦ elim (Bool-cases (ltb (length r.entries) max_devices)) [
    | inl room ↦ rw (q, resolved_entry) (rw room (write_new r key (resolved e t) v q room g))
    | inr full ↦ rw (q, resolved_entry) (rw full v)
  ]
]

pub resolved_record-IsValid :
    (r : Registry) (rec : ResolvedRecord) (now lease : ℕ)
    → IsValid r
    → IsValid (resolved_record r rec now lease).0
unfolding resolved_record
resolved_record-IsValid r rec now lease v = elim (Option-cases (validated_service rec.fullname)) [
  | inl q ↦ rw (q, resolved_record) v
  | inr (service, q) ↦
      rw (q, resolved_record)
        (resolved_entry-IsValid r service.key (make_resolved service rec) (now + lease) v
          (make_resolved-IsShown service rec (validated_service-IsService rec.fullname service q)))
]

pub removed_name-IsValid :
    (r : Registry) (name : List ℕ) → IsValid r → IsValid (removed_name r name).0
unfolding removed_name
removed_name-IsValid r name v = elim (Option-cases (validated_service name)) [
  | inl q ↦ rw (q, removed_name) v
  | inr (service, q) ↦
      rw (q, removed_name)
        (record {
          sorted = remove-IsSorted service.key r.entries v.sorted;
          bounded = omega (arith, length-remove-le service.key r.entries, v.bounded);
          good = All-remove IsGood service.key r.entries v.good;
        })
]

pub expire-IsValid : (r : Registry) (now : ℕ) → IsValid r → IsValid (expire r now).0
unfolding expire
expire-IsValid r now v = record {
  sorted = retain_values-IsSorted (is_live now) r.entries v.sorted;
  bounded = omega (arith, length-retain_values-le (is_live now) r.entries, v.bounded);
  good = All-retain_values IsGood (is_live now) r.entries v.good;
}

pub clear-IsValid : (r : Registry) → IsValid (clear r)
unfolding clear
clear-IsValid r = record { sorted = tt; bounded = omega arith; good = tt }
