-- ===== src/Lite/Service.antt =====
-- windows-lite/src/registry.rs: `Presence` and the validation of a service's full name.
-- A string is the list of its bytes.
use moq_cast_desktop.Base.{
  ℕ, ◌-◌, Bool, true, false, ◌||◌, not, List, [], ◌∷◌, ◌++◌, Option, none, some, length, drop, all,
  ltb, ◌==◌, if◌then◌else◌,
}
use moq_cast_desktop.Base.Bytes.{
  bytes, is_ascii_alphanumeric, to_ascii_lowercase, eq_ignore_ascii_case,
}

abbrev pub service_type_name : List ℕ
service_type_name = bytes "_moq._udp.local."

abbrev pub max_instance_len : ℕ
max_instance_len = 64

pub data PresenceState : Type 0 where
  online : PresenceState

pub record Presence : Type 0 where
  pub stable_id : List ℕ
  pub display_name : List ℕ
  pub state : PresenceState
  pub watchable : Bool

pub record ValidatedService : Type 0 where
  pub key : List ℕ
  pub inst : List ℕ
  pub presence : Presence

-- `str::split_once` with an ASCII byte
unfoldable pub split_once : ℕ → List ℕ → Option (List ℕ × List ℕ)
split_once c [] = none
split_once c (b ∷ s) =
    if b == c
    then some ([], s)
    else elim (split_once c s) [ none ↦ none | some (x, y) ↦ some (b ∷ x, y) ]

unfoldable pub canonical_fullname : List ℕ → List ℕ
canonical_fullname fullname = to_ascii_lowercase fullname

-- The bytes that an instance name may hold.
abbrev pub is_instance_byte : ℕ → Bool
is_instance_byte b = is_ascii_alphanumeric b || (b == b'-' || b == b'_')

-- `instance.is_empty()`
abbrev pub is_empty : List ℕ → Bool
is_empty [] = true
is_empty (_ ∷ _) = false

abbrev pub rejects_instance : List ℕ → Bool
rejects_instance inst =
    is_empty inst || ltb max_instance_len (length inst) || not (all is_instance_byte inst)

-- The service of an accepted name.
unfoldable pub make_service : List ℕ → List ℕ → ValidatedService
unfolding canonical_fullname
make_service fullname inst =
    let stable_id = to_ascii_lowercase inst in
    let suffix_start = length stable_id - 6 in
    record {
      key = canonical_fullname fullname;
      inst = inst;
      presence = record {
        stable_id = stable_id;
        display_name = bytes "MoQ device " ++ drop suffix_start stable_id;
        state = online;
        watchable = false;
      };
    }

-- `validated_service` once the name is split.
unfoldable pub accept_name : List ℕ → List ℕ → List ℕ → Option ValidatedService
accept_name fullname inst service_type =
    if not (eq_ignore_ascii_case service_type service_type_name)
    then none
    else if rejects_instance inst
    then none
    else some (make_service fullname inst)

unfoldable pub validated_service : List ℕ → Option ValidatedService
unfolding accept_name
validated_service fullname = elim (split_once b'.' fullname) [
  | none ↦ none
  | some (inst, service_type) ↦ accept_name fullname inst service_type
]
