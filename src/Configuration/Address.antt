-- ===== src/Configuration/Address.antt =====
-- The address of the gateway and its TLS: src/lib/ZeebeGrpcAddressUtils.ts, `mergeConfigWithEnvironment` after its
-- merge, and the constructor of src/zeebe/zb/ZeebeGrpcClient.ts.
pub mod Parsed
pub mod Resolved
use camunda_8_js_sdk.Base.{
  ℕ, ◌==◌, Bool, true, false, not, ◌&&◌, ◌||◌, Option, none, some, List, [], ◌∷◌, ◌++◌,
  if◌then◌else◌, Text, or_else,
}

pub data Protocol : Type 0 where
  grpc grpcs : Protocol

pub record ZeebeGrpcAddressInfo : Type 0 where
  pub full_address : Text
  pub host_port : Text
  pub is_secure : Bool
  pub protocol : Protocol

abbrev pub separator : Text
separator = 58 ∷ 47 ∷ 47 ∷ []

abbrev pub grpc_text : Text
grpc_text = 103 ∷ 114 ∷ 112 ∷ 99 ∷ []

abbrev pub protocol_text : Protocol → Text
protocol_text grpc = grpc_text
protocol_text grpcs = grpc_text ++ (115 ∷ [])

abbrev pub prefix_of : Protocol → Text
prefix_of p = protocol_text p ++ separator

unfoldable pub starts_with : Text → Text → Bool
starts_with [] s = true
starts_with (c ∷ p) [] = false
starts_with (c ∷ p) (d ∷ s) = let rest = starts_with p s in c == d && rest

unfoldable pub includes : Text → Text → Bool
unfolding starts_with
includes p [] = starts_with p []
includes p (c ∷ s) = starts_with p (c ∷ s) || includes p s

-- `s.slice(p.length)`.
unfoldable pub drop_prefix : Text → Text → Text
drop_prefix [] s = s
drop_prefix (c ∷ p) [] = []
drop_prefix (c ∷ p) (d ∷ s) = drop_prefix p s

-- `address.replace(/^grpcs?:\/\//, '')`.
unfoldable pub host_port_of : Text → Text
unfolding starts_with drop_prefix
host_port_of address =
    if starts_with (prefix_of grpcs) address
    then drop_prefix (prefix_of grpcs) address
    else if starts_with (prefix_of grpc) address
    then drop_prefix (prefix_of grpc) address
    else address

-- `none` where it throws.
unfoldable pub parse_zeebe_grpc_address : Text → Option ZeebeGrpcAddressInfo
unfolding starts_with host_port_of
parse_zeebe_grpc_address address =
    if not (starts_with (prefix_of grpc) address) && not (starts_with (prefix_of grpcs) address)
    then none
    else let is_secure = starts_with (prefix_of grpcs) address in
      some (record {
        full_address = address;
        host_port = host_port_of address;
        is_secure = is_secure;
        protocol = if is_secure then grpcs else grpc;
      })

-- The settings of a merged configuration; an empty text counts as none.
pub record Settings : Type 0 where
  pub zeebe_grpc_address : Option Text
  pub zeebe_address : Option Text
  pub camunda_secure_connection : Option Bool
  pub zeebe_insecure_connection : Option Bool

unfoldable pub truthy : Option Text → Option Text
truthy none = none
truthy (some []) = none
truthy (some (c ∷ s)) = some (c ∷ s)

abbrev pub localhost : Text
localhost = 108 ∷ 111 ∷ 99 ∷ 97 ∷ 108 ∷ 104 ∷ 111 ∷ 115 ∷ 116 ∷ 58 ∷ 50 ∷ 54 ∷ 53 ∷ 48 ∷ 48 ∷ []

unfoldable pub default_address : Option Text → Option Text → Option Text
default_address none none = some (prefix_of grpc ++ localhost)
default_address grpc_address zeebe_address = grpc_address

unfoldable pub is_parsed : Option ZeebeGrpcAddressInfo → Bool
is_parsed none = false
is_parsed (some info) = true

unfoldable pub is_valid_address : Option Text → Bool
unfolding includes parse_zeebe_grpc_address is_parsed
is_valid_address none = true
is_valid_address (some address) =
    if includes separator address then is_parsed (parse_zeebe_grpc_address address) else true

-- `mergeConfigWithEnvironment` after the merge, or `none` where it throws.
unfoldable pub merge_config_with_environment : Settings → Option Settings
unfolding default_address truthy is_valid_address
merge_config_with_environment s =
    let address = default_address (truthy s.zeebe_grpc_address) (truthy s.zeebe_address) in
    if is_valid_address address then some (record s { zeebe_grpc_address = address }) else none

pub data Setting : Type 0 where
  zeebe_address_setting secure_connection_setting insecure_connection_setting : Setting

unfoldable pub when_set : {A : Type 0} → Option A → Setting → List Setting
when_set none setting = []
when_set (some a) setting = setting ∷ []

-- The settings that `emitConflictWarnings` says are ignored.
unfoldable pub ignored_settings : Settings → Option Text → List Setting
unfolding truthy when_set
ignored_settings s none = []
ignored_settings s (some address) =
    when_set (truthy s.zeebe_address) zeebe_address_setting
    ++ (when_set s.camunda_secure_connection secure_connection_setting
        ++ when_set s.zeebe_insecure_connection insecure_connection_setting)

unfoldable pub conflicting_settings : Settings → List Setting
unfolding ignored_settings
conflicting_settings s = ignored_settings s (truthy s.zeebe_grpc_address)

pub record Target : Type 0 where
  pub gateway_address : Text
  pub use_tls : Bool

unfoldable pub legacy_tls : Settings → Bool
legacy_tls s =
    or_else s.camunda_secure_connection
      (elim s.zeebe_insecure_connection [ none ↦ true | some b ↦ not b ])

unfoldable pub parsed_target : Settings → Text → Option ZeebeGrpcAddressInfo → Target
unfolding legacy_tls truthy
parsed_target s address (some info) = record {
  gateway_address = info.host_port;
  use_tls = info.is_secure;
}
parsed_target s address none = record { gateway_address = address; use_tls = legacy_tls s }

unfoldable pub legacy_target : Settings → Target
unfolding legacy_tls truthy
legacy_target s = record {
  gateway_address =
      or_else (truthy s.zeebe_address) (or_else (truthy s.zeebe_grpc_address) localhost);
  use_tls = legacy_tls s;
}

unfoldable pub target_for : Settings → Option Text → Target
unfolding parsed_target legacy_target includes parse_zeebe_grpc_address
target_for s none = legacy_target s
target_for s (some address) =
    if includes separator address
    then parsed_target s address (parse_zeebe_grpc_address address)
    else legacy_target s

-- `RequireConfiguration` of the address: `none` where it throws.
unfoldable pub require_address : Target → Option Target
require_address t = elim t.gateway_address [ [] ↦ none | c ∷ s ↦ some t ]

-- The constructor of the client, for its address and TLS.
unfoldable pub resolve_target : Settings → Option Target
unfolding target_for truthy require_address
resolve_target s = require_address (target_for s (truthy s.zeebe_grpc_address))
