-- ===== src/Configuration/Address/Resolved.antt =====
-- The gateway that a client connects to.
use camunda_8_js_sdk.Base.{
  ℕ, ◌≡◌, ◌⊎◌, inl, inr, refl, sym, ap, subst, ◌∙◌, Bool, true, false, Option, none, some, List, [],
  ◌∷◌, ◌++◌, if◌then◌else◌, Text, Bool-cases,
}
use camunda_8_js_sdk.Configuration.Address.{
  Protocol, ZeebeGrpcAddressInfo, separator, prefix_of, includes, parse_zeebe_grpc_address,
  Settings, truthy, default_address, is_parsed, is_valid_address, merge_config_with_environment,
  Setting, zeebe_address_setting, secure_connection_setting, insecure_connection_setting, when_set,
  ignored_settings, conflicting_settings, Target, legacy_tls, parsed_target, legacy_target,
  target_for, require_address, resolve_target,
}
use camunda_8_js_sdk.Configuration.Address.Parsed.{info_of, parse_zeebe_grpc_address-inverts}

-- The client connects by the protocol in the address, or as the other settings say.
abbrev pub ByProtocol : Settings → Target → Type 0
ByProtocol m t =
    (p : Protocol) × (host : Text) × (m.zeebe_grpc_address ≡ some (prefix_of p ++ host))
    × (t ≡ record { gateway_address = host; use_tls = (info_of p host).is_secure })

abbrev pub ByLegacy : Settings → Target → Type 0
ByLegacy m t =
    ((a : Text) → truthy m.zeebe_grpc_address ≡ some a → includes separator a ≡ false)
    × (t ≡ legacy_target m)

none-some : {A : Type 0} {a : A} → none ≡ some a → ⊥
none-some e = cc

some_injective : {A : Type 0} {a b : A} → some a ≡ some b → a ≡ b
some_injective e = cc

if_some :
    {A : Type 0} (b : Bool) (x y : A) → (if b then some x else none) ≡ some y → (b ≡ true) × (x ≡ y)
if_some true x y e = (refl, cc)
if_some false x y e = cc

merged :
    (s m : Settings)
    → merge_config_with_environment s ≡ some m
    → let a = default_address (truthy s.zeebe_grpc_address) (truthy s.zeebe_address) in
      (is_valid_address a ≡ true) × (record s { zeebe_grpc_address = a } ≡ m)
unfolding merge_config_with_environment
merged s m e =
    let a = default_address (truthy s.zeebe_grpc_address) (truthy s.zeebe_address) in
    if_some (is_valid_address a) (record s { zeebe_grpc_address = a }) m e

merged-valid :
    (s m : Settings)
    → merge_config_with_environment s ≡ some m
    → is_valid_address m.zeebe_grpc_address ≡ true
merged-valid s m e =
    let (valid, same) = merged s m e in
    subst (λ (q : Settings). is_valid_address q.zeebe_grpc_address ≡ true) same valid

parsed_some :
    (o : Option ZeebeGrpcAddressInfo)
    → is_parsed o ≡ true
    → (i : ZeebeGrpcAddressInfo) × (o ≡ some i)
unfolding is_parsed
parsed_some none e = cc
parsed_some (some i) e = (i, refl)

valid-parses :
    (a : Text)
    → includes separator a ≡ true
    → is_valid_address (some a) ≡ true
    → (i : ZeebeGrpcAddressInfo) × (parse_zeebe_grpc_address a ≡ some i)
unfolding is_valid_address
valid-parses a has valid =
    parsed_some (parse_zeebe_grpc_address a)
      (subst (λ b. (if b then is_parsed (parse_zeebe_grpc_address a) else true) ≡ true) has valid)

-- What a client with an address connects to.
target_for-protocol :
    (m : Settings) (c : ℕ) (a : Text)
    → m.zeebe_grpc_address ≡ some (c ∷ a)
    → includes separator (c ∷ a) ≡ true
    → is_valid_address (some (c ∷ a)) ≡ true
    → ByProtocol m (target_for m (some (c ∷ a)))
unfolding target_for parsed_target
target_for-protocol m c a e has valid =
    let (i, parsed) = valid-parses (c ∷ a) has valid in
    let (p, host, same, read) = (parse_zeebe_grpc_address-inverts (c ∷ a) i).0 parsed in
    (p, host, e ∙ ap some same, rw (has, parsed, read) refl)

target_for-legacy :
    (m : Settings) (c : ℕ) (a : Text)
    → m.zeebe_grpc_address ≡ some (c ∷ a)
    → includes separator (c ∷ a) ≡ false
    → ByLegacy m (target_for m (some (c ∷ a)))
unfolding target_for truthy
target_for-legacy m c a e has = (
  (λ b f.
      subst (λ (t : Text). includes separator t ≡ false) (some_injective (sym (ap truthy e) ∙ f))
        has),
  rw has refl,
)

target_for-either :
    (m : Settings) (o : Option Text)
    → m.zeebe_grpc_address ≡ o
    → is_valid_address o ≡ true
    → ByProtocol m (target_for m (truthy o)) ⊎ ByLegacy m (target_for m (truthy o))
unfolding truthy target_for
target_for-either m none e valid = inr ((λ a f. absurd (none-some (sym (ap truthy e) ∙ f))), refl)
target_for-either m (some []) e valid =
    inr ((λ a f. absurd (none-some (sym (ap truthy e) ∙ f))), refl)
target_for-either m (some (c ∷ a)) e valid = elim (Bool-cases (includes separator (c ∷ a))) [
  | inl has ↦ inl (target_for-protocol m c a e has valid)
  | inr has ↦ inr (target_for-legacy m c a e has)
]

-- A client whose configuration is accepted connects to the host of `ZEEBE_GRPC_ADDRESS`, with TLS exactly for
-- `grpcs://`, whatever the older settings say; or the address has no `://`, and the client connects as those settings
-- say. The warning branch for an address that cannot be parsed is never taken. The constructor throws only when the
-- address is then empty.
pub resolve_target-either :
    (s m : Settings) (accepted : merge_config_with_environment s ≡ some m)
    → (t : Target) × (resolve_target m ≡ require_address t) × (ByProtocol m t ⊎ ByLegacy m t)
unfolding resolve_target
resolve_target-either s m accepted = (
  target_for m (truthy m.zeebe_grpc_address),
  refl,
  target_for-either m m.zeebe_grpc_address refl (merged-valid s m accepted),
)

-- With a `ZEEBE_GRPC_ADDRESS` without `://` and a `ZEEBE_ADDRESS`, the warning of `emitConflictWarnings` lists
-- `ZEEBE_ADDRESS` first among the settings that it says are ignored, but the client connects to `ZEEBE_ADDRESS`, with
-- the TLS of the older settings.
pub conflicting_settings-used :
    (s : Settings) (c d : ℕ) (a b : Text)
    → s.zeebe_grpc_address ≡ some (c ∷ a)
    → includes separator (c ∷ a) ≡ false
    → s.zeebe_address ≡ some (d ∷ b)
    → (m : Settings) × (ignored : List Setting) × (merge_config_with_environment s ≡ some m)
      × (conflicting_settings m ≡ zeebe_address_setting ∷ ignored)
      × (resolve_target m ≡ some (record { gateway_address = d ∷ b; use_tls = legacy_tls m }))
unfolding merge_config_with_environment default_address truthy is_valid_address conflicting_settings
    ignored_settings when_set resolve_target require_address target_for legacy_target legacy_tls
conflicting_settings-used s c d a b e no_protocol f = (
  record s { zeebe_grpc_address = some (c ∷ a) },
  when_set s.camunda_secure_connection secure_connection_setting
      ++ when_set s.zeebe_insecure_connection insecure_connection_setting,
  rw (e, f, no_protocol) refl,
  rw f refl,
  rw (no_protocol, f) refl,
)
