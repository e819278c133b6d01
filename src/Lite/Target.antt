-- ===== src/Lite/Target.antt =====
-- windows-lite/src/registry.rs: the resolved record, its metadata, and the watch target that is
-- granted to it. An `Ipv4Addr` is its 32-bit number, which orders as the address does.
use moq_cast_desktop.Base.{
  ℕ, ◌/◌, ◌^◌, Bool, ◌||◌, ◌&&◌, not, List, [], ◌∷◌, Option, none, some, length, take, all, retain,
  ltb, leb, ◌==◌, if◌then◌else◌, keep_if,
}
use moq_cast_desktop.Base.Bytes.{is_ascii_hexdigit, is_ascii_uppercase}
use moq_cast_desktop.Lite.Service.{is_empty}

abbrev pub max_descriptor_endpoints : ℕ
max_descriptor_endpoints = 8

pub record WatchTarget : Type 0 where
  pub port : ℕ
  pub fingerprint : List ℕ
  pub credential : List ℕ
  pub addresses : List ℕ

pub record ResolvedRecord : Type 0 where
  pub fullname : List ℕ
  pub port : ℕ
  pub fingerprint : Option (List ℕ)
  pub credential : Option (List ℕ)
  pub has_shared_secret : Bool
  pub addresses : List ℕ

pub record ResolvedMetadata : Type 0 where
  pub inst : List ℕ
  pub port : ℕ
  pub fingerprint : Option (List ℕ)
  pub credential : Option (List ℕ)
  pub has_shared_secret : Bool
  pub addresses : List ℕ

-- `BTreeSet::insert`
unfoldable pub set_insert : ℕ → List ℕ → List ℕ
set_insert a [] = a ∷ []
set_insert a (b ∷ s) = if ltb a b then a ∷ b ∷ s else if a == b then b ∷ s else b ∷ set_insert a s

-- `collect::<BTreeSet<_>>()`, read in order
unfoldable pub to_set : List ℕ → List ℕ
unfolding set_insert
to_set [] = []
to_set (a ∷ s) = set_insert a (to_set s)

unfoldable pub from_record : List ℕ → ResolvedRecord → ResolvedMetadata
from_record inst r = record {
  inst = inst;
  port = r.port;
  fingerprint = r.fingerprint;
  credential = r.credential;
  has_shared_secret = r.has_shared_secret;
  addresses = to_set r.addresses;
}

-- `Ipv4Addr::is_loopback`, 127.0.0.0/8
abbrev pub is_loopback : ℕ → Bool
is_loopback a = a / 2 ^ 24 == 127

-- `Ipv4Addr::is_unspecified`, 0.0.0.0
abbrev pub is_unspecified : ℕ → Bool
is_unspecified a = a == 0

-- `Ipv4Addr::is_multicast`, 224.0.0.0/4
abbrev pub is_multicast : ℕ → Bool
is_multicast a = leb 224 (a / 2 ^ 24) && leb (a / 2 ^ 24) 239

abbrev pub is_usable : ℕ → Bool
is_usable a = not (is_loopback a) && not (is_unspecified a) && not (is_multicast a)

unfoldable pub is_hex : List ℕ → ℕ → Bool
is_hex value len = length value == len && all is_ascii_hexdigit value

-- The first guard of `validated_watch_target`.
abbrev pub refuses_target : ResolvedMetadata → Bool
refuses_target m =
    m.has_shared_secret
    || not (is_hex m.inst 16)
    || not (all (λ b. not (is_ascii_uppercase b)) m.inst)
    || m.port == 0

abbrev pub endpoints : ResolvedMetadata → List ℕ
endpoints m = take max_descriptor_endpoints (to_set (retain is_usable m.addresses))

-- The rest of `validated_watch_target`, from the first `?` on.
unfoldable pub grant_target : ResolvedMetadata → Option WatchTarget
grant_target m = elim (keep_if (λ v. is_hex v 64) m.fingerprint) [
  | none ↦ none
  | some fingerprint ↦ elim (keep_if (λ v. is_hex v 32) m.credential) [
    | none ↦ none
    | some credential ↦
        if is_empty (endpoints m)
        then none
        else some (record {
          port = m.port;
          fingerprint = fingerprint;
          credential = credential;
          addresses = endpoints m;
        })
  ]
]

unfoldable pub validated_watch_target : ResolvedMetadata → Option WatchTarget
unfolding grant_target is_hex
validated_watch_target m = if refuses_target m then none else grant_target m
