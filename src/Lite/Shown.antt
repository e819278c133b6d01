-- ===== src/Lite/Shown.antt =====
-- windows-lite/src/registry.rs: the two collections of a snapshot, the devices and the watch
-- targets, agree with one another and with the registry.
use mathlib.Core.List.{append_cancel_right}
use moq_cast_desktop.Base.{
  ℕ, ◌≡◌, refl, sym, ◌∙◌, ap, true, false, List, [], ◌∷◌, ◌++◌, Option, none, some, arith, All,
  All-append, All-map, All-and, Bool-cases, Option-cases, inl, inr, is_some,
}
use moq_cast_desktop.Base.Bytes.{bytes_eq, bytes_eq_refl, bytes_eq_sound}
use moq_cast_desktop.Base.Map.{
  BTreeMap, get, get-insert, get_of_Below, IsSorted, Below, All-found, All-get,
}
use moq_cast_desktop.Lite.Service.{Presence}
use moq_cast_desktop.Lite.Target.{WatchTarget}
use moq_cast_desktop.Lite.Names.{suffix}
use moq_cast_desktop.Lite.Grants.{IsSafe}
use moq_cast_desktop.Lite.Registry.{
  Entry, found, resolved, ResolvedEntry, Registry, Lifecycle, snapshot, collect, collect_target,
  watch_target_of,
}
use moq_cast_desktop.Lite.Valid.{IsValid, IsGood, IsShown}

-- The key of a stable id.
abbrev pub key_of : List ℕ → List ℕ
key_of id = id ++ suffix

abbrev target_in : Option Entry → Option WatchTarget
target_in none = none
target_in (some (found _)) = none
target_in (some (resolved e _)) = e.watch_target

-- The registry's own answer: the target of the entry under the id's key.
abbrev pub target_at : BTreeMap Entry → List ℕ → Option WatchTarget
target_at m id = target_in (get (key_of id) m)

abbrev or_else : Option WatchTarget → Option WatchTarget → Option WatchTarget
or_else none o = o
or_else (some t) o = some t

other_id : (a b : List ℕ) → bytes_eq (key_of a) (key_of b) ≡ false → bytes_eq a b ≡ false
other_id a b h = elim (Bool-cases (bytes_eq a b)) [
  | inl e ↦
      let same : bytes_eq (key_of a) (key_of b) ≡ true =
        rw (bytes_eq_sound a b e) (bytes_eq_refl (key_of b)) in
      cc (h, same)
  | inr e ↦ e
]

get-collect_target_self :
    (e : ResolvedEntry) (ts : BTreeMap WatchTarget)
    → get e.presence.stable_id (collect_target e ts)
      ≡ or_else e.watch_target (get e.presence.stable_id ts)
get-collect_target_self e ts = elim (Option-cases e.watch_target) [
  | inl q ↦ ground arith
  | inr (t, q) ↦
      let id = e.presence.stable_id in ground (arith, get-insert id id t ts, bytes_eq_refl id)
]

get-collect_target_ne :
    (id : List ℕ) (e : ResolvedEntry) (ts : BTreeMap WatchTarget)
    → bytes_eq e.presence.stable_id id ≡ false
    → get id (collect_target e ts) ≡ get id ts
get-collect_target_ne id e ts h = elim (Option-cases e.watch_target) [
  | inl q ↦ ground arith
  | inr (t, q) ↦ ground (arith, get-insert id e.presence.stable_id t ts)
]

-- Below a key that is an id's, no entry is the id's.
gone :
    (id j : List ℕ) (m : BTreeMap Entry)
    → bytes_eq j (key_of id) ≡ true
    → Below j m
    → get (key_of id) m ≡ none
gone id j m q b = get_of_Below (key_of id) m (rw (bytes_eq_sound j (key_of id) q) at b)

same_id :
    (id j : List ℕ) (e : ResolvedEntry)
    → bytes_eq j (key_of id) ≡ true
    → IsShown j e
    → e.presence.stable_id ≡ id
same_id id j e q g =
    append_cancel_right e.presence.stable_id id suffix
      (sym g.keyed ∙ bytes_eq_sound j (key_of id) q)

-- What is filed under an id is the target of the entry under the id's key.
get-collect :
    (id : List ℕ) (m : BTreeMap Entry) (d : List Presence) (ts : BTreeMap WatchTarget)
    → IsSorted m
    → All IsGood m
    → get id (collect m d ts).1 ≡ or_else (target_at m id) (get id ts)
unfolding collect get
get-collect id [] d ts s g = refl
get-collect id ((j, found u) ∷ m) d ts s g = elim (Bool-cases (bytes_eq j (key_of id))) [
  | inl q ↦ ground (arith, get-collect id m d ts s.1 g.1, gone id j m q s.0)
  | inr q ↦ ground (arith, get-collect id m d ts s.1 g.1)
]
get-collect id ((j, resolved e u) ∷ m) d ts s g = elim (Bool-cases (bytes_eq j (key_of id))) [
  | inl q ↦ ground (
    arith,
    gone id j m q s.0,
    same_id id j e q g.0,
    get-collect_target_self e ts,
    get-collect id m (d ++ (e.presence ∷ [])) (collect_target e ts) s.1 g.1,
  )
  | inr q ↦ ground (
    arith,
    get-collect_target_ne id e ts (other_id e.presence.stable_id id (rw g.0.keyed at q)),
    get-collect id m (d ++ (e.presence ∷ [])) (collect_target e ts) s.1 g.1,
  )
]

abbrev OfPresence {κ} : (Presence → Type κ) → List ℕ × Entry → Type κ
OfPresence Q (j, found u) = Unit
OfPresence Q (j, resolved e u) = Q e.presence

All-collect {κ} :
    (Q : Presence → Type κ) (m : BTreeMap Entry) (d : List Presence) (ts : BTreeMap WatchTarget)
    → All Q d
    → All (λ p. OfPresence Q p) m
    → All Q (collect m d ts).0
unfolding collect
All-collect Q [] d ts q a = q
All-collect Q ((j, found u) ∷ m) d ts q a = All-collect Q m d ts q a.1
All-collect Q ((j, resolved e u) ∷ m) d ts q a =
    All-collect Q m (d ++ (e.presence ∷ [])) (collect_target e ts)
      (All-append Q d (e.presence ∷ []) q (a.0, tt)) a.1

-- The device that a good entry shows agrees with the target under its id.
OfPresence-agrees :
    (r : Registry) (e : List ℕ × Entry)
    → (get e.0 r.entries ≡ some e.1) × IsGood e
    → OfPresence (λ p. p.watchable ≡ is_some (target_at r.entries p.stable_id)) e
OfPresence-agrees r (j, found u) h = tt
OfPresence-agrees r (j, resolved e u) h = rw (← h.1.keyed) (rw h.0 h.1.agrees)

All-OfPresence :
    (r : Registry) (m : BTreeMap Entry)
    → All (λ (e : List ℕ × Entry). (get e.0 r.entries ≡ some e.1) × IsGood e) m
    → All (OfPresence (λ p. p.watchable ≡ is_some (target_at r.entries p.stable_id))) m
All-OfPresence r m h = All-map _ _ m (OfPresence-agrees r) h

watch_target_of-snapshot :
    (r : Registry) (revision : ℕ) (life : Lifecycle) (id : List ℕ)
    → IsValid r
    → watch_target_of (snapshot r revision life) id ≡ target_at r.entries id
unfolding watch_target_of snapshot get
watch_target_of-snapshot r revision life id v =
    get-collect id r.entries [] [] v.sorted v.good ∙ or_else-none (target_at r.entries id)
  where
    or_else-none : (o : Option WatchTarget) → or_else o none ≡ o
    or_else-none none = refl
    or_else-none (some t) = refl

devices_agree :
    (r : Registry) (revision : ℕ) (life : Lifecycle)
    → IsValid r
    → All
        (λ p. p.watchable ≡ is_some (target_at r.entries p.stable_id))
        (snapshot r revision life).devices
unfolding snapshot
devices_agree r revision life v =
    All-collect _ r.entries [] [] tt (
      All-OfPresence r r.entries (All-and _ IsGood r.entries (All-found r.entries v.sorted) v.good))

-- In every snapshot of a valid registry a device is shown as watchable exactly if the snapshot has
-- a watch target under the device's stable id.
pub snapshot-agrees :
    (r : Registry) (revision : ℕ) (life : Lifecycle)
    → IsValid r
    → All
        (λ p. p.watchable ≡ is_some (watch_target_of (snapshot r revision life) p.stable_id))
        (snapshot r revision life).devices
snapshot-agrees r revision life v =
    All-map _ _ (snapshot r revision life).devices
      (λ p h. h ∙ ap is_some (sym (watch_target_of-snapshot r revision life p.stable_id v)))
      (devices_agree r revision life v)

target_in-IsSafe :
    (o : Option Entry) (key : List ℕ) (t : WatchTarget)
    → ((e : Entry) → o ≡ some e → IsGood (key, e))
    → target_in o ≡ some t
    → IsSafe t
target_in-IsSafe none key t g h = cc
target_in-IsSafe (some (found u)) key t g h = cc
target_in-IsSafe (some (resolved e u)) key t g h = rw h at ((g (resolved e u) refl).safe)

-- Every watch target of a snapshot of a valid registry is safe to dial.
pub watch_target_of-IsSafe :
    (r : Registry) (revision : ℕ) (life : Lifecycle) (id : List ℕ) (t : WatchTarget)
    → IsValid r
    → watch_target_of (snapshot r revision life) id ≡ some t
    → IsSafe t
watch_target_of-IsSafe r revision life id t v h =
    target_in-IsSafe (get (key_of id) r.entries) (key_of id) t
      (λ e q. All-get IsGood (key_of id) e r.entries v.good q)
      (sym (watch_target_of-snapshot r revision life id v) ∙ h)
