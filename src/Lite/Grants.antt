-- ===== src/Lite/Grants.antt =====
-- windows-lite/src/registry.rs: what a granted watch target is guaranteed to be.
use moq_cast_desktop.Base.{
  ℕ, ◌/◌, ◌^◌, ◌<◌, ◌⊎◌, ◌≡◌, ◌≢◌, ◌≤◌, true, false, List, [], ◌∷◌, some, arith, length, All, all,
  All-take, All-retain_test, length-take-le, retain,
}
use moq_cast_desktop.Base.Bytes.{is_ascii_hexdigit}
use moq_cast_desktop.Lite.Service.{is_empty}
use moq_cast_desktop.Lite.Target.{
  WatchTarget, ResolvedMetadata, set_insert, to_set, is_usable, is_hex, endpoints, grant_target,
  validated_watch_target, max_descriptor_endpoints,
}

-- An IPv4 address, as its number, outside 127.0.0.0/8 (loopback), 0.0.0.0 and 224.0.0.0/4 (multicast).
abbrev pub IsReachable : ℕ → Type 0
IsReachable a = (a / 2 ^ 24 ≢ 127) × (a ≢ 0) × ((a / 2 ^ 24 < 224) ⊎ (240 ≤ a / 2 ^ 24))

is_usable-IsReachable : (a : ℕ) → is_usable a ≡ true → IsReachable a
is_usable-IsReachable a h = (ground arith, ground arith, ground arith)

-- The text has the length, and is of hexadecimal digits: 0 to 9, A to F and a to f.
abbrev pub IsHexDigit : ℕ → Type 0
IsHexDigit b = ((48 ≤ b) × (b ≤ 57)) ⊎ (((65 ≤ b) × (b ≤ 70)) ⊎ ((97 ≤ b) × (b ≤ 102)))

abbrev pub IsHexText : List ℕ → ℕ → Type 0
IsHexText s n = (length s ≡ n) × All IsHexDigit s

is_hex-IsHexText : (s : List ℕ) (n : ℕ) → is_hex s n ≡ true → IsHexText s n
unfolding is_hex
is_hex-IsHexText s n h = (ground arith, digits s (ground arith))
  where
    digits : (s : List ℕ) → all is_ascii_hexdigit s ≡ true → All IsHexDigit s
    digits [] h = tt
    digits (b ∷ s) h = (digit b (ground arith), digits s (ground arith))
      where
        digit : (b : ℕ) → is_ascii_hexdigit b ≡ true → IsHexDigit b
        digit b h = ground arith

-- The target can be dialled, and its secrets have the lengths of a SHA-256 digest and of a nonce.
pub record IsSafe (t : WatchTarget) : Type 0 where
  pub dialable : t.port ≢ 0
  pub reachable : 1 ≤ length t.addresses
  pub few : length t.addresses ≤ 8
  pub usable : All IsReachable t.addresses
  pub pinned : IsHexText t.fingerprint 64
  pub admitted : IsHexText t.credential 32

All-set_insert {κ} : (P : ℕ → Type κ) (a : ℕ) (s : List ℕ) → P a → All P s → All P (set_insert a s)
unfolding set_insert
All-set_insert P a [] h k = (h, tt)
All-set_insert P a (b ∷ s) h k = ground (arith, All-set_insert P a s h k.1)

pub All-to_set {κ} : (P : ℕ → Type κ) (s : List ℕ) → All P s → All P (to_set s)
unfolding to_set
All-to_set P [] h = tt
All-to_set P (a ∷ s) h = All-set_insert P a (to_set s) h.0 (All-to_set P s h.1)

endpoints-usable : (m : ResolvedMetadata) → All IsReachable (endpoints m)
endpoints-usable m = All-take _ max_descriptor_endpoints (to_set (retain is_usable m.addresses)) (
    All-to_set _ (retain is_usable m.addresses)
      (All-retain_test _ is_usable m.addresses is_usable-IsReachable))

nonempty : (s : List ℕ) → is_empty s ≡ false → 1 ≤ length s
nonempty [] h = cc
nonempty (a ∷ s) h = omega arith

-- The metadata's own secrets and port are what the target holds.
pub grant_target-cases :
    (m : ResolvedMetadata) (t : WatchTarget)
    → grant_target m ≡ some t
    → (t.port ≡ m.port)
      × (t.addresses ≡ endpoints m)
      × (is_empty (endpoints m) ≡ false)
      × (m.fingerprint ≡ some t.fingerprint)
      × (is_hex t.fingerprint 64 ≡ true)
      × (m.credential ≡ some t.credential)
      × (is_hex t.credential 32 ≡ true)
unfolding grant_target
grant_target-cases m t h = ground arith

guard_passed :
    (m : ResolvedMetadata) (t : WatchTarget)
    → validated_watch_target m ≡ some t
    → (m.has_shared_secret ≡ false)
      × (is_hex m.inst 16 ≡ true)
      × (m.port ≢ 0)
      × (grant_target m ≡ some t)
unfolding validated_watch_target
guard_passed m t h = ground arith

-- A granted target is safe, is made of the record's own values, and is granted only to a plain
-- record: no shared secret, and an instance name of sixteen hexadecimal digits.
pub record IsGranted (m : ResolvedMetadata) (t : WatchTarget) : Type 0 where
  pub safe : IsSafe t
  pub unshared : m.has_shared_secret ≡ false
  pub identified : is_hex m.inst 16 ≡ true
  pub same_port : t.port ≡ m.port
  pub same_fingerprint : m.fingerprint ≡ some t.fingerprint
  pub same_credential : m.credential ≡ some t.credential
  pub same_addresses : t.addresses ≡ endpoints m

pub validated_watch_target-IsGranted :
    (m : ResolvedMetadata) (t : WatchTarget) → validated_watch_target m ≡ some t → IsGranted m t
validated_watch_target-IsGranted m t h =
    let (unshared, identified, open_port, granted) = guard_passed m t h in
    let (port, addresses, some_left, fp, fp_hex, cred, cred_hex) = grant_target-cases m t granted in
    record {
      safe = record {
        dialable = rw port open_port;
        reachable = rw addresses (nonempty (endpoints m) some_left);
        few =
            rw addresses
              (length-take-le max_descriptor_endpoints (to_set (retain is_usable m.addresses)));
        usable = rw addresses (endpoints-usable m);
        pinned = is_hex-IsHexText t.fingerprint 64 fp_hex;
        admitted = is_hex-IsHexText t.credential 32 cred_hex;
      };
      unshared = unshared;
      identified = identified;
      same_port = port;
      same_fingerprint = fp;
      same_credential = cred;
      same_addresses = addresses;
    }
