-- ===== src/Lite/Lifetime.antt =====
-- windows-lite/src/registry.rs: how long an entry stays in the registry.
use mathlib.Core.Logic.{if_pos, if_neg}
use moq_cast_desktop.Base.{
  ℕ, ◌+◌, ◌≡◌, ◌⊎◌, refl, ◌∙◌, ap, true, List, none, some, arith, length, ltb, keep_if,
  if◌then◌else◌, is_some, Option-cases, Bool-cases, inl, inr,
}
use moq_cast_desktop.Base.Bytes.{bytes_eq, bytes_eq_refl, bytes_eq_sound}
use moq_cast_desktop.Base.Map.{get, get-insert, get-remove_self, get-remove_ne, get-retain_values}
use moq_cast_desktop.Lite.Service.{ValidatedService, validated_service}
use moq_cast_desktop.Lite.Target.{ResolvedRecord}
use moq_cast_desktop.Lite.Registry.{
  Entry, found, resolved, ResolvedEntry, ResolvedEntry-discrete, Registry, RegistryChange,
  unchanged, updated, replace_entry, make_resolved, resolved_entry, resolved_record, removed_name,
  expire, is_live, max_devices,
}
use moq_cast_desktop.Lite.Valid.{IsValid, resolved_record-IsValid}

-- Expiry keeps an entry exactly as long as its lease ends after `now`, under every key.
pub get-expire :
    (r : Registry) (now : ℕ) (key : List ℕ)
    → IsValid r
    → get key (expire r now).0.entries ≡ keep_if (is_live now) (get key r.entries)
unfolding expire
get-expire r now key v = get-retain_values key (is_live now) r.entries v.sorted

replace_entry-eq : (w : Entry) (e : ResolvedEntry) (t : ℕ) → (replace_entry w e t).0 ≡ resolved e t
replace_entry-eq (found u) e t = refl
replace_entry-eq (resolved c u) e t = elim (ResolvedEntry-discrete c e) [
  | yes p ↦
      rw
        (if_pos {C = Entry × RegistryChange} (ResolvedEntry-discrete c e) p
          (resolved c t, unchanged) (resolved e t, updated))
        (ap (λ x. resolved x t) p)
  | no p ↦ rw (
      if_neg {C = Entry × RegistryChange} (ResolvedEntry-discrete c e) p (resolved c t, unchanged)
        (resolved e t, updated))
]

-- The registry takes a record on: its name is accepted, and there is an entry or room for one.
pub record Takes (r : Registry) (rec : ResolvedRecord) (service : ValidatedService) : Type 0 where
  pub accepted : validated_service rec.fullname ≡ some service
  pub room :
      (is_some (get service.key r.entries) ≡ true) ⊎ (ltb (length r.entries) max_devices ≡ true)

get-resolved_entry :
    (r : Registry) (key : List ℕ) (e : ResolvedEntry) (t : ℕ)
    → (is_some (get key r.entries) ≡ true) ⊎ (ltb (length r.entries) max_devices ≡ true)
    → get key (resolved_entry r key e t).0.entries ≡ some (resolved e t)
unfolding resolved_entry
get-resolved_entry r key e t room = elim (Option-cases (get key r.entries)) [
  | inr (w, q) ↦
      rw (q, resolved_entry)
        (rw (get-insert key key (replace_entry w e t).0 r.entries, bytes_eq_refl key)
          (ap some (replace_entry-eq w e t)))
  | inl q ↦ ground (arith, get-insert key key (resolved e t) r.entries, bytes_eq_refl key)
]

-- A device that a record reports stays, as the record describes it, until its lease ends, and is
-- gone at the first expiry from then on.
pub get-expire-resolved_record :
    (r : Registry) (rec : ResolvedRecord) (service : ValidatedService) (now lease later : ℕ)
    → IsValid r
    → Takes r rec service
    → get service.key (expire (resolved_record r rec now lease).0 later).0.entries ≡ (
        if ltb later (now + lease)
        then some (resolved (make_resolved service rec) (now + lease))
        else none)
unfolding resolved_record
get-expire-resolved_record r rec service now lease later v takes =
    get-expire (resolved_record r rec now lease).0 later service.key
      (resolved_record-IsValid r rec now lease v)
    ∙ ap (keep_if (is_live later)) reported
  where
    reported :
        get service.key (resolved_record r rec now lease).0.entries
        ≡ some (resolved (make_resolved service rec) (now + lease))
    reported =
        rw (takes.accepted, resolved_record)
          (get-resolved_entry r service.key (make_resolved service rec) (now + lease) takes.room)

-- `removed` takes out the entry of the name, and no other.
pub get-removed_name :
    (r : Registry) (name : List ℕ) (service : ValidatedService) (key : List ℕ)
    → IsValid r
    → validated_service name ≡ some service
    → get key (removed_name r name).0.entries
      ≡ (if bytes_eq service.key key then none else get key r.entries)
unfolding removed_name
get-removed_name r name service key v q =
    rw (q, removed_name)
      (elim (Bool-cases (bytes_eq service.key key)) [
        | inl same ↦
            rw same
              (rw (bytes_eq_sound service.key key same) (get-remove_self key r.entries v.sorted))
        | inr other ↦ rw other (get-remove_ne key service.key r.entries other)
      ])
