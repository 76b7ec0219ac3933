-- ===== src/Configuration/Translation.antt =====
-- `translateToOcaEnvOverrides` of src/lib/CamundaClientConfigTranslator.ts. The texts of JavaScript are a parameter.
pub mod Precedence
use camunda_8_js_sdk.Base.{
  ℕ, ◌==◌, Bool, true, false, not, ◌&&◌, ◌||◌, Option, none, some, List, [], ◌∷◌, ◌++◌,
  if◌then◌else◌, Text, eq_text, or_else, any,
}
use camunda_8_js_sdk.Configuration.Address.{starts_with}

-- One value for each key that the translator sets. An override is a text here, and other keys of the overrides are
-- passed on as they are.
pub record Keys : Type 0 where
  pub auth_strategy : Option Text
  pub client_id : Option Text
  pub client_secret : Option Text
  pub token_audience : Option Text
  pub oauth_url : Option Text
  pub oauth_scope : Option Text
  pub oauth_cache_dir : Option Text
  pub basic_auth_username : Option Text
  pub basic_auth_password : Option Text
  pub default_tenant_id : Option Text
  pub sdk_log_level : Option Text
  pub rest_address : Option Text
  pub mtls_cert_path : Option Text
  pub mtls_key_path : Option Text
  pub mtls_ca_path : Option Text
  pub mtls_ca : Option Text

-- The merged configuration of the SDK, as far as it is translated.
pub record MergedSdk : Type 0 where
  pub camunda_auth_strategy : Option Text
  pub zeebe_client_id : Option Text
  pub zeebe_client_secret : Option Text
  pub camunda_console_client_id : Option Text
  pub camunda_console_client_secret : Option Text
  pub camunda_zeebe_oauth_audience : Option Text
  pub zeebe_token_audience : Option Text
  pub camunda_oauth_url : Option Text
  pub camunda_token_scope : Option Text
  pub camunda_token_disk_cache_disable : Bool
  pub camunda_token_cache_dir : Option Text
  pub camunda_basic_auth_username : Option Text
  pub camunda_basic_auth_password : Option Text
  pub camunda_tenant_id : Option Text
  pub camunda_log_level : Option Text
  pub zeebe_rest_address : Option Text
  pub camunda_custom_cert_chain_path : Option Text
  pub camunda_custom_private_key_path : Option Text
  pub camunda_custom_root_cert_path : Option Text
  pub camunda_custom_root_cert_string : Option Text

-- `env` is the environment that is looked at, and `explicit_env` says that it was passed as an argument.
pub record TranslationOptions : Type 0 where
  pub merged_sdk : MergedSdk
  pub has_zeebe_client_id : Bool
  pub oca_overrides : Keys
  pub env : Keys
  pub explicit_env : Bool

-- `trim`, `toUpperCase` and `toLowerCase`.
pub record TextPlatform : Type 0 where
  pub trim : Text → Text
  pub to_upper_case : Text → Text
  pub to_lower_case : Text → Text

abbrev pub none_text : Text
none_text = 78 ∷ 79 ∷ 78 ∷ 69 ∷ []

abbrev pub oauth_text : Text
oauth_text = 79 ∷ 65 ∷ 85 ∷ 84 ∷ 72 ∷ []

abbrev pub basic_text : Text
basic_text = 66 ∷ 65 ∷ 83 ∷ 73 ∷ 67 ∷ []

abbrev pub error_text : Text
error_text = 101 ∷ 114 ∷ 114 ∷ 111 ∷ 114 ∷ []

abbrev pub debug_text : Text
debug_text = 100 ∷ 101 ∷ 98 ∷ 117 ∷ 103 ∷ []

abbrev pub v2_segment : Text
v2_segment = 47 ∷ 118 ∷ 50 ∷ []

-- `http://localhost:8080`.
abbrev pub default_rest_address : Text
default_rest_address =
    104 ∷ 116 ∷ 116 ∷ 112 ∷ 58 ∷ 47 ∷ 47 ∷ 108 ∷ 111 ∷ 99 ∷ 97 ∷ 108 ∷ 104 ∷ 111 ∷ 115 ∷ 116 ∷ 58
    ∷ 56 ∷ 48 ∷ 56 ∷ 48 ∷ []

-- The entries of `LOG_LEVEL_MAP`; the names of `Object.prototype` are left out.
abbrev pub log_level_map : List (Text × Text)
log_level_map =
    (110 ∷ 111 ∷ 110 ∷ 101 ∷ [], 115 ∷ 105 ∷ 108 ∷ 101 ∷ 110 ∷ 116 ∷ [])
    ∷ (error_text, error_text)
    ∷ (119 ∷ 97 ∷ 114 ∷ 110 ∷ [], 119 ∷ 97 ∷ 114 ∷ 110 ∷ [])
    ∷ (105 ∷ 110 ∷ 102 ∷ 111 ∷ [], 105 ∷ 110 ∷ 102 ∷ 111 ∷ [])
    ∷ (104 ∷ 116 ∷ 116 ∷ 112 ∷ [], debug_text)
    ∷ (118 ∷ 101 ∷ 114 ∷ 98 ∷ 111 ∷ 115 ∷ 101 ∷ [], debug_text)
    ∷ (debug_text, debug_text)
    ∷ (115 ∷ 105 ∷ 108 ∷ 108 ∷ 121 ∷ [], 116 ∷ 114 ∷ 97 ∷ 99 ∷ 101 ∷ [])
    ∷ []

unfoldable pub log_level_in : List (Text × Text) → Text → Option Text
log_level_in [] level = none
log_level_in ((name, mapped) ∷ rest) level =
    if eq_text name level then some mapped else log_level_in rest level

-- `??`.
unfoldable pub first_of : Option Text → Option Text → Option Text
first_of none b = b
first_of (some t) b = some t

unfoldable pub non_empty : Text → Option Text
non_empty [] = none
non_empty (c ∷ s) = some (c ∷ s)

-- `setIfAbsent`, for the value of one key: an override, the environment and the derived value.
unfoldable pub set_if_absent : Bool → Option Text → Option Text → Option Text → Option Text
unfolding first_of
set_if_absent explicit_env (some override) existing value = some override
set_if_absent true none existing value = first_of existing value
set_if_absent false none existing value = first_of value existing

-- `/(\/v2(\/|$))/` in a lower-case text.
unfoldable pub is_v2_end : Text → Bool
is_v2_end [] = true
is_v2_end (c ∷ s) = c == 47

unfoldable pub has_v2_here : Text → Bool
unfolding is_v2_end
has_v2_here (a ∷ b ∷ c ∷ s) = a == 47 && b == 118 && c == 50 && is_v2_end s
has_v2_here _ = false

unfoldable pub has_v2 : Text → Bool
unfolding has_v2_here
has_v2 [] = false
has_v2 (c ∷ s) = has_v2_here (c ∷ s) || has_v2 s

unfoldable pub ends_with_slash : Text → Bool
ends_with_slash [] = false
ends_with_slash (c ∷ []) = c == 47
ends_with_slash (c ∷ d ∷ s) = ends_with_slash (d ∷ s)

unfoldable pub is_supported : Text → Bool
is_supported auth = eq_text auth none_text || eq_text auth oauth_text || eq_text auth basic_text

unfoldable pub when : Bool → Option Text → Option Text
when true value = value
when false value = none

-- A key that is set only when there is a derived value, or only under a condition.
unfoldable pub set_when : Bool → Bool → Option Text → Option Text → Option Text → Option Text
unfolding set_if_absent
set_when true explicit_env override existing value =
    set_if_absent explicit_env override existing value
set_when false explicit_env override existing value = override

unfoldable pub is_set : Option Text → Bool
is_set none = false
is_set (some t) = true

module _ (platform : TextPlatform) where
  unfoldable pub normalize_empty : Option Text → Option Text
  unfolding non_empty
  normalize_empty none = none
  normalize_empty (some t) = non_empty (platform.trim t)

  unfoldable pub append_v2_if_needed : Text → Text
  unfolding has_v2 ends_with_slash
  append_v2_if_needed [] = []
  append_v2_if_needed (c ∷ s) =
      if has_v2 (platform.to_lower_case (c ∷ s))
      then c ∷ s
      else if ends_with_slash (c ∷ s)
      then (c ∷ s) ++ (118 ∷ 50 ∷ [])
      else (c ∷ s) ++ v2_segment

  unfoldable pub sdk_auth : MergedSdk → Text
  unfolding normalize_empty
  sdk_auth m = platform.to_upper_case (or_else (normalize_empty m.camunda_auth_strategy) none_text)

  unfoldable pub derive_client_id : TranslationOptions → Option Text
  unfolding normalize_empty first_of when
  derive_client_id o =
      let env_client_id = normalize_empty o.env.client_id in
      let zeebe = when o.has_zeebe_client_id (normalize_empty o.merged_sdk.zeebe_client_id) in
      let console = normalize_empty o.merged_sdk.camunda_console_client_id in
      first_of (when o.explicit_env env_client_id)
        (first_of zeebe (first_of console (when (not o.explicit_env) env_client_id)))

  unfoldable pub mapped_level : MergedSdk → Text
  unfolding normalize_empty log_level_in
  mapped_level m =
      or_else
        (log_level_in log_level_map (or_else (normalize_empty m.camunda_log_level) error_text))
        error_text

  unfoldable pub rest_address_of : MergedSdk → Text
  unfolding normalize_empty append_v2_if_needed
  rest_address_of m =
      append_v2_if_needed (or_else (normalize_empty m.zeebe_rest_address) default_rest_address)

  -- The keys, for a supported strategy.
  unfoldable pub translated : TranslationOptions → Keys
  unfolding sdk_auth derive_client_id mapped_level rest_address_of set_when set_if_absent
      normalize_empty first_of is_set
  translated o =
      let m = o.merged_sdk in
      let auth = sdk_auth m in
      let ca_path = normalize_empty m.camunda_custom_root_cert_path in
      let ca_inline = normalize_empty m.camunda_custom_root_cert_string in
      let cert_path = normalize_empty m.camunda_custom_cert_chain_path in
      let key_path = normalize_empty m.camunda_custom_private_key_path in
      let set = set_if_absent o.explicit_env in
      record {
        auth_strategy =
            set o.oca_overrides.auth_strategy (normalize_empty o.env.auth_strategy) (some auth);
        client_id = first_of (derive_client_id o) o.oca_overrides.client_id;
        client_secret = set o.oca_overrides.client_secret (normalize_empty o.env.client_secret) (
            first_of (normalize_empty m.zeebe_client_secret)
              (normalize_empty m.camunda_console_client_secret));
        token_audience = set o.oca_overrides.token_audience (normalize_empty o.env.token_audience) (
            first_of (normalize_empty m.camunda_zeebe_oauth_audience)
              (normalize_empty m.zeebe_token_audience));
        oauth_url =
            set o.oca_overrides.oauth_url (normalize_empty o.env.oauth_url)
              (normalize_empty m.camunda_oauth_url);
        oauth_scope =
            set o.oca_overrides.oauth_scope (normalize_empty o.env.oauth_scope)
              (normalize_empty m.camunda_token_scope);
        oauth_cache_dir =
            set_when (not m.camunda_token_disk_cache_disable) o.explicit_env
              o.oca_overrides.oauth_cache_dir (normalize_empty o.env.oauth_cache_dir)
              (normalize_empty m.camunda_token_cache_dir);
        basic_auth_username =
            set_when (eq_text auth basic_text) o.explicit_env o.oca_overrides.basic_auth_username
              (normalize_empty o.env.basic_auth_username)
              (normalize_empty m.camunda_basic_auth_username);
        basic_auth_password =
            set_when (eq_text auth basic_text) o.explicit_env o.oca_overrides.basic_auth_password
              (normalize_empty o.env.basic_auth_password)
              (normalize_empty m.camunda_basic_auth_password);
        default_tenant_id =
            set o.oca_overrides.default_tenant_id (normalize_empty o.env.default_tenant_id)
              (normalize_empty m.camunda_tenant_id);
        sdk_log_level =
            set o.oca_overrides.sdk_log_level (normalize_empty o.env.sdk_log_level)
              (some (mapped_level m));
        rest_address =
            set o.oca_overrides.rest_address (normalize_empty o.env.rest_address)
              (some (rest_address_of m));
        mtls_cert_path =
            set_when (is_set cert_path) o.explicit_env o.oca_overrides.mtls_cert_path
              (normalize_empty o.env.mtls_cert_path) cert_path;
        mtls_key_path =
            set_when (is_set key_path) o.explicit_env o.oca_overrides.mtls_key_path
              (normalize_empty o.env.mtls_key_path) key_path;
        mtls_ca_path =
            set_when (is_set ca_path) o.explicit_env o.oca_overrides.mtls_ca_path
              (normalize_empty o.env.mtls_ca_path) ca_path;
        mtls_ca =
            set_when (not (is_set ca_path) && is_set ca_inline) o.explicit_env
              o.oca_overrides.mtls_ca (normalize_empty o.env.mtls_ca) ca_inline;
      }

  -- `none` where it throws.
  unfoldable pub translate_to_oca_env_overrides : TranslationOptions → Option Keys
  unfolding sdk_auth is_supported translated
  translate_to_oca_env_overrides o =
      if is_supported (sdk_auth o.merged_sdk) then some (translated o) else none
