-- ===== src/Lite/Names.antt =====
-- windows-lite/src/registry.rs: what a validated service name looks like.
use mathlib.Core.List.{map-append}
use moq_cast_desktop.Base.{
  ℕ, ◌≡◌, ◌∙◌, refl, ap, inl, inr, true, false, List, [], ◌∷◌, ◌++◌, some, arith, length, all, ◌≤◌,
  Option-cases,
}
use moq_cast_desktop.Base.Bytes.{bytes_eq_sound, to_ascii_lowercase, lower, eq_ignore_ascii_case}
use moq_cast_desktop.Lite.Service.{
  ValidatedService, accept_name, split_once, validated_service, make_service, rejects_instance,
  service_type_name, max_instance_len, is_instance_byte,
}

-- The end of every key: the dot and the service type in lower case.
abbrev pub suffix : List ℕ
suffix = b'.' ∷ service_type_name

-- `split_once` splits at the separator.
pub split_once-append : (c : ℕ) (s x y : List ℕ) → split_once c s ≡ some (x, y) → s ≡ x ++ (c ∷ y)
unfolding split_once
split_once-append c [] x y h = cc
split_once-append c (b ∷ s) x y h = elim (Option-cases (split_once c s)) [
  | inl q ↦ ground (arith, q)
  | inr ((u, v), q) ↦ ground (arith, q, split_once-append c s u v q)
]

-- What an accepted name is made of.
pub record IsService (fullname : List ℕ) (s : ValidatedService) : Type 0 where
  pub keyed : s.key ≡ s.presence.stable_id ++ suffix
  pub canonical : s.key ≡ to_ascii_lowercase fullname
  pub identity : s.presence.stable_id ≡ to_ascii_lowercase s.inst
  pub plain : all is_instance_byte s.inst ≡ true
  pub nonempty : 1 ≤ length s.inst
  pub short : length s.inst ≤ max_instance_len
  pub unwatchable : s.presence.watchable ≡ false

accepted :
    (inst : List ℕ)
    → rejects_instance inst ≡ false
    → (all is_instance_byte inst ≡ true) × (1 ≤ length inst) × (length inst ≤ max_instance_len)
accepted [] h = cc
accepted (b ∷ s) h = ground arith

lower_type :
    (type : List ℕ)
    → eq_ignore_ascii_case type service_type_name ≡ true
    → to_ascii_lowercase (b'.' ∷ type) ≡ suffix
unfolding lower
lower_type type e =
    ap (◌∷◌ b'.')
      (bytes_eq_sound (to_ascii_lowercase type) (to_ascii_lowercase service_type_name) e)

make_service-IsService :
    (inst type : List ℕ)
    → eq_ignore_ascii_case type service_type_name ≡ true
    → rejects_instance inst ≡ false
    → IsService (inst ++ (b'.' ∷ type)) (make_service (inst ++ (b'.' ∷ type)) inst)
unfolding make_service
make_service-IsService inst type e h = record {
  keyed =
      map-append lower inst (b'.' ∷ type) ∙ ap (◌++◌ (to_ascii_lowercase inst)) (lower_type type e);
  canonical = refl;
  identity = refl;
  plain = (accepted inst h).0;
  nonempty = (accepted inst h).1;
  short = (accepted inst h).2;
  unwatchable = refl;
}

accept_some :
    (fullname inst type : List ℕ) (s : ValidatedService)
    → accept_name fullname inst type ≡ some s
    → (eq_ignore_ascii_case type service_type_name ≡ true)
      × (rejects_instance inst ≡ false)
      × (make_service fullname inst ≡ s)
unfolding accept_name
accept_some fullname inst type s h = ground arith

accept-IsService :
    (fullname inst type : List ℕ) (s : ValidatedService)
    → fullname ≡ inst ++ (b'.' ∷ type)
    → accept_name fullname inst type ≡ some s
    → IsService fullname s
accept-IsService fullname inst type s name h =
    let (typed, fit, made) = accept_some fullname inst type s h in
    rw (← made, name) (make_service-IsService inst type typed fit)

-- Every name that is accepted is made so.
pub validated_service-IsService :
    (fullname : List ℕ) (s : ValidatedService)
    → validated_service fullname ≡ some s
    → IsService fullname s
unfolding validated_service
validated_service-IsService fullname s h = elim (Option-cases (split_once b'.' fullname)) [
  | inl q ↦ cc (rw (q, validated_service) at h)
  | inr ((inst, type), q) ↦
      accept-IsService fullname inst type s (split_once-append b'.' fullname inst type q)
        (rw (q, validated_service) at h)
]
