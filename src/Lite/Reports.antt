-- ===== src/Lite/Reports.antt =====
-- windows-lite/src/registry.rs: what the reported `RegistryChange` says of the snapshot.
use moq_cast_desktop.Base.{
  ℕ, ◌+◌, ◌≡◌, ◌≤◌, inl, inr, refl, Bool, List, [], ◌∷◌, ◌++◌, none, some, arith, Bool-cases,
  Option-cases,
}
use moq_cast_desktop.Base.Bytes.{bytes_eq}
use moq_cast_desktop.Base.Map.{
  BTreeMap, get, insert, update, remove, retain_values, count_values, IsSorted, insert-eq-update,
}
use moq_cast_desktop.Lite.Service.{Presence, ValidatedService, validated_service}
use moq_cast_desktop.Lite.Target.{WatchTarget, ResolvedRecord}
use moq_cast_desktop.Lite.Registry.{
  Entry, found, resolved, is_resolved, renew, collect, collect_target, removal, unchanged, Registry,
  Lifecycle, snapshot, found_name, resolved_entry, ResolvedEntry, removed_name, found_service,
  replace_entry, resolved_record, make_resolved, expire, is_live,
}

abbrev pub View : Type 0
View = List Presence × BTreeMap WatchTarget

-- Renewing an entry in its place changes nothing that is collected.
collect-update-renew :
    (k : List ℕ) (t : ℕ) (e : Entry) (m : BTreeMap Entry) (d : List Presence)
    (ts : BTreeMap WatchTarget)
    → get k m ≡ some e
    → collect (update k (renew t e) m) d ts ≡ collect m d ts
unfolding collect get update
collect-update-renew k t e [] d ts h = refl
collect-update-renew k t e ((j, found u) ∷ m) d ts h = elim (Bool-cases (bytes_eq j k)) [
  | inl q ↦ let same : found u ≡ e = cc (rw q at h) in rw (q, ← same)
  | inr q ↦ rw q (collect-update-renew k t e m d ts (rw q at h))
]
collect-update-renew k t e ((j, resolved r u) ∷ m) d ts h = elim (Bool-cases (bytes_eq j k)) [
  | inl q ↦ let same : resolved r u ≡ e = cc (rw q at h) in rw (q, ← same)
  | inr q ↦
      rw q (collect-update-renew k t e m (d ++ (r.presence ∷ [])) (collect_target r ts) (rw q at h))
]

-- A pending entry under a new key is not collected.
pub collect-insert_found :
    (k : List ℕ) (t : ℕ) (m : BTreeMap Entry) (d : List Presence) (ts : BTreeMap WatchTarget)
    → get k m ≡ none
    → collect (insert k (found t) m) d ts ≡ collect m d ts
unfolding collect get insert
collect-insert_found k t [] d ts h = refl
collect-insert_found k t ((j, found u) ∷ m) d ts h = ground (arith, collect-insert_found k t m d ts)
collect-insert_found k t ((j, resolved r u) ∷ m) d ts h =
    ground (arith, collect-insert_found k t m (d ++ (r.presence ∷ [])) (collect_target r ts))

-- Taking out a pending entry, or none, changes nothing that is collected.
pub collect-remove :
    (k : List ℕ) (m : BTreeMap Entry) (d : List Presence) (ts : BTreeMap WatchTarget)
    → removal (get k m) ≡ unchanged
    → collect (remove k m) d ts ≡ collect m d ts
unfolding collect get remove
collect-remove k [] d ts h = refl
collect-remove k ((j, found u) ∷ m) d ts h = ground (arith, collect-remove k m d ts)
collect-remove k ((j, resolved r u) ∷ m) d ts h =
    ground (arith, collect-remove k m (d ++ (r.presence ∷ [])) (collect_target r ts))

count-retain-le :
    (p : Entry → Bool) (m : BTreeMap Entry)
    → count_values is_resolved (retain_values p m) ≤ count_values is_resolved m
unfolding count_values retain_values
count-retain-le p [] = omega arith
count-retain-le p ((j, w) ∷ m) = ground (arith, count-retain-le p m)

-- If as many devices stay online, no device has expired, and the collection is the same.
pub collect-retain :
    (p : Entry → Bool) (m : BTreeMap Entry) (d : List Presence) (ts : BTreeMap WatchTarget)
    → count_values is_resolved m ≤ count_values is_resolved (retain_values p m)
    → collect (retain_values p m) d ts ≡ collect m d ts
unfolding collect count_values retain_values
collect-retain p [] d ts h = refl
collect-retain p ((j, found u) ∷ m) d ts h = ground (arith, collect-retain p m d ts)
collect-retain p ((j, resolved r u) ∷ m) d ts h =
    ground (
      arith,
      count-retain-le p m,
      collect-retain p m (d ++ (r.presence ∷ [])) (collect_target r ts),
    )

-- What a snapshot shows of the entries.
abbrev pub view : Registry → View
view r = collect r.entries [] []

found_service-view :
    (r : Registry) (service : ValidatedService) (t : ℕ)
    → IsSorted r.entries
    → view (found_service r service t) ≡ view r
unfolding found_service
found_service-view r service t s = elim (Option-cases (get service.key r.entries)) [
  | inl q ↦ ground (arith, collect-insert_found service.key t r.entries [] [])
  | inr (e, q) ↦
      rw (q, found_service)
        (rw (insert-eq-update service.key (renew t e) e r.entries s q)
          (collect-update-renew service.key t e r.entries [] [] q))
]

-- `found` leaves what is shown as it was, on every branch.
pub found_name-view :
    (r : Registry) (name : List ℕ) (now lease : ℕ)
    → IsSorted r.entries
    → view (found_name r name now lease).0 ≡ view r
unfolding found_name
found_name-view r name now lease s = elim (Option-cases (validated_service name)) [
  | inl q ↦ rw (q, found_name)
  | inr (service, q) ↦ rw (q, found_name) (found_service-view r service (now + lease) s)
]

-- An entry that reports no change was renewed.
replace_unchanged :
    (w : Entry) (e : ResolvedEntry) (t : ℕ)
    → (replace_entry w e t).1 ≡ unchanged
    → (replace_entry w e t).0 ≡ renew t w
replace_unchanged (found u) e t h = cc
replace_unchanged (resolved c u) e t h = ground arith

pub resolved_entry-view :
    (r : Registry) (key : List ℕ) (e : ResolvedEntry) (t : ℕ)
    → IsSorted r.entries
    → (resolved_entry r key e t).1 ≡ unchanged
    → view (resolved_entry r key e t).0 ≡ view r
unfolding resolved_entry
resolved_entry-view r key e t s h = elim (Option-cases (get key r.entries)) [
  | inl q ↦ ground arith
  | inr (w, q) ↦
      let same : (replace_entry w e t).0 ≡ renew t w =
        replace_unchanged w e t (rw (q, resolved_entry) at h) in
      rw (q, resolved_entry)
        (rw (same, insert-eq-update key (renew t w) w r.entries s q)
          (collect-update-renew key t w r.entries [] [] q))
]

pub resolved_record-view :
    (r : Registry) (rec : ResolvedRecord) (now lease : ℕ)
    → IsSorted r.entries
    → (resolved_record r rec now lease).1 ≡ unchanged
    → view (resolved_record r rec now lease).0 ≡ view r
unfolding resolved_record
resolved_record-view r rec now lease s h = elim (Option-cases (validated_service rec.fullname)) [
  | inl q ↦ rw (q, resolved_record)
  | inr (service, q) ↦
      rw (q, resolved_record)
        (resolved_entry-view r service.key (make_resolved service rec) (now + lease) s
          (rw (q, resolved_record) at h))
]

pub removed_name-view :
    (r : Registry) (name : List ℕ)
    → (removed_name r name).1 ≡ unchanged
    → view (removed_name r name).0 ≡ view r
unfolding removed_name
removed_name-view r name h = elim (Option-cases (validated_service name)) [
  | inl q ↦ rw (q, removed_name)
  | inr (service, q) ↦
      rw (q, removed_name) (collect-remove service.key r.entries [] [] (rw (q, removed_name) at h))
]

pub expire-view :
    (r : Registry) (now : ℕ) → (expire r now).1 ≡ unchanged → view (expire r now).0 ≡ view r
unfolding expire
expire-view r now h = collect-retain (is_live now) r.entries [] [] (ground arith)

-- Registries that show the same have the same snapshots.
pub snapshot_of_view :
    (r q : Registry) (revision : ℕ) (life : Lifecycle)
    → view r ≡ view q
    → snapshot r revision life ≡ snapshot q revision life
unfolding snapshot
snapshot_of_view r q revision life h = rw h
