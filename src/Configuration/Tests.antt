-- ===== src/Configuration/Tests.antt =====
-- Addresses and translations, and the claims at concrete inputs.
use camunda_8_js_sdk.Base.{
  ℕ, ◌-◌, ◌≡◌, ◌↔◌, ◌⊎◌, refl, true, false, ◌&&◌, none, some, List, [], ◌∷◌, ◌++◌, map,
  if◌then◌else◌, Text, leb,
}
use camunda_8_js_sdk.Configuration.Address.{
  Protocol, grpcs, prefix_of, starts_with, includes, drop_prefix, host_port_of,
  parse_zeebe_grpc_address, Settings, truthy, default_address, is_parsed, is_valid_address,
  merge_config_with_environment, Setting, zeebe_address_setting, conflicting_settings, legacy_tls,
  parsed_target, legacy_target, target_for, require_address, Target, resolve_target,
}
use camunda_8_js_sdk.Configuration.Address.Parsed.{info_of, parse_zeebe_grpc_address-inverts}
use camunda_8_js_sdk.Configuration.Address.Resolved.{
  ByProtocol, ByLegacy, resolve_target-either, conflicting_settings-used,
}
use camunda_8_js_sdk.Configuration.Translation.{
  Keys, MergedSdk, TranslationOptions, TextPlatform, basic_text, default_rest_address, v2_segment,
  log_level_in, first_of, non_empty, set_if_absent, is_v2_end, has_v2_here, has_v2, ends_with_slash,
  is_supported, when, set_when, is_set, normalize_empty, append_v2_if_needed, sdk_auth,
  derive_client_id, mapped_level, rest_address_of, translated, translate_to_oca_env_overrides,
  error_text,
}
use camunda_8_js_sdk.Configuration.Translation.Precedence.{
  AreRanked, KeepsOverrides, RanksClientId, translate_to_oca_env_overrides-ranks,
}

abbrev host : Text
host = 104 ∷ 58 ∷ 49 ∷ []

parse_zeebe_grpc_address-inverts_example :
    (parse_zeebe_grpc_address (prefix_of grpcs ++ host) ≡ some (info_of grpcs host)) ↔ (
      (p : Protocol) × (h : Text) × (prefix_of grpcs ++ host ≡ prefix_of p ++ h)
      × (info_of grpcs host ≡ info_of p h))
parse_zeebe_grpc_address-inverts_example =
    parse_zeebe_grpc_address-inverts (prefix_of grpcs ++ host) (info_of grpcs host)

abbrev secure_settings : Settings
secure_settings = record {
  zeebe_grpc_address = some (prefix_of grpcs ++ host);
  zeebe_address = some (111 ∷ []);
  camunda_secure_connection = some false;
  zeebe_insecure_connection = none;
}

abbrev bare_settings : Settings
bare_settings = record {
  zeebe_grpc_address = some host;
  zeebe_address = some (111 ∷ []);
  camunda_secure_connection = none;
  zeebe_insecure_connection = some true;
}

resolve_target-either_example :
    (t : Target) × (resolve_target secure_settings ≡ require_address t)
    × (ByProtocol secure_settings t ⊎ ByLegacy secure_settings t)
unfolding merge_config_with_environment default_address truthy is_valid_address includes starts_with
    parse_zeebe_grpc_address is_parsed host_port_of drop_prefix
resolve_target-either_example = resolve_target-either secure_settings secure_settings refl

conflicting_settings-used_example :
    (m : Settings) × (ignored : List Setting) × (merge_config_with_environment bare_settings
      ≡ some m)
    × (conflicting_settings m ≡ zeebe_address_setting ∷ ignored)
    × (resolve_target m ≡ some (record { gateway_address = 111 ∷ []; use_tls = legacy_tls m }))
unfolding includes starts_with
conflicting_settings-used_example =
    conflicting_settings-used bare_settings 104 111 (58 ∷ 49 ∷ []) [] refl refl refl

addresses : Unit {0}
unfolding merge_config_with_environment default_address truthy is_valid_address includes starts_with
    is_parsed parse_zeebe_grpc_address host_port_of drop_prefix resolve_target require_address
    target_for parsed_target legacy_target legacy_tls
addresses =
    let secure : resolve_target secure_settings
        ≡ some (record { gateway_address = host; use_tls = true }) =
      refl in
    let bare : resolve_target bare_settings
        ≡ some (record { gateway_address = 111 ∷ []; use_tls = false }) =
      refl in
    tt

-- Letters without accents; nothing to trim.
unfoldable upper : ℕ → ℕ
upper c = if leb 97 c && leb c 122 then c - 32 else c

unfoldable ascii : TextPlatform
unfolding upper
ascii = record { trim = λ s. s; to_upper_case = map upper; to_lower_case = λ s. s }

abbrev no_keys : Keys
no_keys = record {
  auth_strategy = none;
  client_id = none;
  client_secret = none;
  token_audience = none;
  oauth_url = none;
  oauth_scope = none;
  oauth_cache_dir = none;
  basic_auth_username = none;
  basic_auth_password = none;
  default_tenant_id = none;
  sdk_log_level = none;
  rest_address = none;
  mtls_cert_path = none;
  mtls_key_path = none;
  mtls_ca_path = none;
  mtls_ca = none;
}

abbrev merged : MergedSdk
merged = record {
  camunda_auth_strategy = some (98 ∷ 97 ∷ 115 ∷ 105 ∷ 99 ∷ []);
  zeebe_client_id = some (122 ∷ []);
  zeebe_client_secret = none;
  camunda_console_client_id = some (99 ∷ []);
  camunda_console_client_secret = some (115 ∷ []);
  camunda_zeebe_oauth_audience = none;
  zeebe_token_audience = none;
  camunda_oauth_url = none;
  camunda_token_scope = none;
  camunda_token_disk_cache_disable = false;
  camunda_token_cache_dir = none;
  camunda_basic_auth_username = some (117 ∷ []);
  camunda_basic_auth_password = some (112 ∷ []);
  camunda_tenant_id = none;
  camunda_log_level = none;
  zeebe_rest_address = none;
  camunda_custom_cert_chain_path = none;
  camunda_custom_private_key_path = none;
  camunda_custom_root_cert_path = none;
  camunda_custom_root_cert_string = none;
}

-- An explicit client id, which the console id replaces.
abbrev translation : TranslationOptions
translation = record {
  merged_sdk = merged;
  has_zeebe_client_id = false;
  oca_overrides = record no_keys { client_id = some (111 ∷ []); mtls_ca = some (97 ∷ []) };
  env = record no_keys { mtls_cert_path = some (101 ∷ []) };
  explicit_env = true;
}

abbrev translation_keys : Keys
translation_keys = record {
  auth_strategy = some basic_text;
  client_id = some (99 ∷ []);
  client_secret = some (115 ∷ []);
  token_audience = none;
  oauth_url = none;
  oauth_scope = none;
  oauth_cache_dir = none;
  basic_auth_username = some (117 ∷ []);
  basic_auth_password = some (112 ∷ []);
  default_tenant_id = none;
  sdk_log_level = some error_text;
  rest_address = some (default_rest_address ++ v2_segment);
  mtls_cert_path = none;
  mtls_key_path = none;
  mtls_ca_path = none;
  mtls_ca = some (97 ∷ []);
}

translation-keys : translate_to_oca_env_overrides ascii translation ≡ some translation_keys
unfolding log_level_in first_of non_empty set_if_absent is_v2_end has_v2_here has_v2 ends_with_slash
    is_supported when set_when is_set normalize_empty append_v2_if_needed sdk_auth derive_client_id
    mapped_level rest_address_of translated translate_to_oca_env_overrides ascii upper
translation-keys = refl

translate_to_oca_env_overrides-ranks_example :
    (is_supported (sdk_auth ascii merged) ≡ true)
    × AreRanked ascii translation translation_keys
    × KeepsOverrides ascii translation.oca_overrides translation_keys
    × RanksClientId ascii translation translation_keys
translate_to_oca_env_overrides-ranks_example =
    translate_to_oca_env_overrides-ranks ascii translation translation_keys translation-keys
