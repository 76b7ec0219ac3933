-- ===== src/Configuration/Translation/Precedence.antt =====
-- Which value a key gets.
use camunda_8_js_sdk.Base.{
  ◌≡◌, refl, Bool, true, false, not, ◌&&◌, Option, none, some, List, [], ◌∷◌, if◌then◌else◌, Text,
  eq_text, subst,
}
use camunda_8_js_sdk.Configuration.Translation.{
  Keys, TranslationOptions, TextPlatform, first_of, set_if_absent, normalize_empty, sdk_auth,
  is_supported, when, derive_client_id, mapped_level, rest_address_of, set_when, is_set, translated,
  translate_to_oca_env_overrides, basic_text,
}

-- The first value that is there.
abbrev pub first_some : List (Option Text) → Option Text
first_some [] = none
first_some (none ∷ os) = first_some os
first_some (some t ∷ os) = some t

-- The order of the header of the translator, where the environment is passed as an argument; and the order where it
-- is that of the process.
abbrev pub ranked : Bool → Option Text → Option Text → Option Text → Option Text
ranked true override env derived = first_some (override ∷ env ∷ derived ∷ [])
ranked false override env derived = first_some (override ∷ derived ∷ env ∷ [])

-- A key that may not be set keeps its override.
abbrev pub Keeps : Option Text → Option Text → Type 0
Keeps none value = Unit
Keeps (some override) value = value ≡ some override

set_if_absent-ranked :
    (explicit_env : Bool) (override env derived : Option Text)
    → set_if_absent explicit_env override env derived ≡ ranked explicit_env override env derived
unfolding set_if_absent first_of
set_if_absent-ranked true none none none = refl
set_if_absent-ranked true none none (some d) = refl
set_if_absent-ranked true none (some e) derived = refl
set_if_absent-ranked false none none none = refl
set_if_absent-ranked false none (some e) none = refl
set_if_absent-ranked false none env (some d) = refl
set_if_absent-ranked true (some o) env derived = refl
set_if_absent-ranked false (some o) env derived = refl

set_when-Keeps :
    (b explicit_env : Bool) (override env derived : Option Text)
    → Keeps override (set_when b explicit_env override env derived)
unfolding set_when set_if_absent
set_when-Keeps b explicit_env none env derived = tt
set_when-Keeps true true (some o) env derived = refl
set_when-Keeps true false (some o) env derived = refl
set_when-Keeps false explicit_env (some o) env derived = refl

first_of-first_some : (a b : Option Text) → first_of a b ≡ first_some (a ∷ b ∷ [])
unfolding first_of
first_of-first_some none none = refl
first_of-first_some none (some t) = refl
first_of-first_some (some t) b = refl

if_some :
    {A : Type 0} (b : Bool) (x y : A) → (if b then some x else none) ≡ some y → (b ≡ true) × (x ≡ y)
if_some true x y e = (refl, cc)
if_some false x y e = cc

first_of-five :
    (a b c d e : Option Text)
    → first_of (first_of a (first_of b (first_of c d))) e ≡ first_some (a ∷ b ∷ c ∷ d ∷ e ∷ [])
unfolding first_of
first_of-five none none none none none = refl
first_of-five none none none none (some t) = refl
first_of-five none none none (some t) e = refl
first_of-five none none (some t) d e = refl
first_of-five none (some t) c d e = refl
first_of-five (some t) b c d e = refl

module _ (platform : TextPlatform) where
  -- The keys that are always set, by their rank.
  abbrev pub AreRanked : TranslationOptions → Keys → Type 0
  AreRanked o k =
      let m = o.merged_sdk in
      let n = normalize_empty platform in
      let rank = ranked o.explicit_env in
      (k.auth_strategy
        ≡ rank o.oca_overrides.auth_strategy (n o.env.auth_strategy) (some (sdk_auth platform m)))
      × (k.client_secret
          ≡ rank o.oca_overrides.client_secret (n o.env.client_secret)
              (first_some (n m.zeebe_client_secret ∷ n m.camunda_console_client_secret ∷ [])))
      × (k.token_audience
          ≡ rank o.oca_overrides.token_audience (n o.env.token_audience)
              (first_some (n m.camunda_zeebe_oauth_audience ∷ n m.zeebe_token_audience ∷ [])))
      × (k.oauth_url ≡ rank o.oca_overrides.oauth_url (n o.env.oauth_url) (n m.camunda_oauth_url))
      × (k.oauth_scope
          ≡ rank o.oca_overrides.oauth_scope (n o.env.oauth_scope) (n m.camunda_token_scope))
      × (k.default_tenant_id
          ≡ rank o.oca_overrides.default_tenant_id (n o.env.default_tenant_id)
              (n m.camunda_tenant_id))
      × (k.sdk_log_level
          ≡ rank o.oca_overrides.sdk_log_level (n o.env.sdk_log_level)
              (some (mapped_level platform m)))
      × (k.rest_address
          ≡ rank o.oca_overrides.rest_address (n o.env.rest_address)
              (some (rest_address_of platform m)))

  abbrev pub KeepsOverrides : Keys → Keys → Type 0
  KeepsOverrides o k =
      Keeps o.oauth_cache_dir k.oauth_cache_dir
      × Keeps o.basic_auth_username k.basic_auth_username
      × Keeps o.basic_auth_password k.basic_auth_password
      × Keeps o.mtls_cert_path k.mtls_cert_path
      × Keeps o.mtls_key_path k.mtls_key_path
      × Keeps o.mtls_ca_path k.mtls_ca_path
      × Keeps o.mtls_ca k.mtls_ca

  abbrev pub RanksClientId : TranslationOptions → Keys → Type 0
  RanksClientId o k =
      let n = normalize_empty platform in
      k.client_id
      ≡ first_some (
          when o.explicit_env (n o.env.client_id)
          ∷ when o.has_zeebe_client_id (n o.merged_sdk.zeebe_client_id)
          ∷ n o.merged_sdk.camunda_console_client_id
          ∷ when (not o.explicit_env) (n o.env.client_id)
          ∷ o.oca_overrides.client_id
          ∷ [])

  translated-AreRanked : (o : TranslationOptions) → AreRanked o (translated platform o)
  unfolding translated
  translated-AreRanked o =
      let m = o.merged_sdk in
      let n = normalize_empty platform in
      let rank = set_if_absent-ranked o.explicit_env in
      let p = o.oca_overrides in
      (
        rank p.auth_strategy (n o.env.auth_strategy) (some (sdk_auth platform m)),
        rw (first_of-first_some (n m.zeebe_client_secret) (n m.camunda_console_client_secret)) (
            rank p.client_secret (n o.env.client_secret)
              (first_some (n m.zeebe_client_secret ∷ n m.camunda_console_client_secret ∷ []))),
        rw (first_of-first_some (n m.camunda_zeebe_oauth_audience) (n m.zeebe_token_audience)) (
            rank p.token_audience (n o.env.token_audience)
              (first_some (n m.camunda_zeebe_oauth_audience ∷ n m.zeebe_token_audience ∷ []))),
        rank p.oauth_url (n o.env.oauth_url) (n m.camunda_oauth_url),
        rank p.oauth_scope (n o.env.oauth_scope) (n m.camunda_token_scope),
        rank p.default_tenant_id (n o.env.default_tenant_id) (n m.camunda_tenant_id),
        rank p.sdk_log_level (n o.env.sdk_log_level) (some (mapped_level platform m)),
        rank p.rest_address (n o.env.rest_address) (some (rest_address_of platform m)),
      )

  translated-KeepsOverrides :
      (o : TranslationOptions) → KeepsOverrides o.oca_overrides (translated platform o)
  unfolding translated
  translated-KeepsOverrides o =
      let m = o.merged_sdk in
      let n = normalize_empty platform in
      let p = o.oca_overrides in
      let keeps = λ (b : Bool). set_when-Keeps b o.explicit_env in
      let is_basic = eq_text (sdk_auth platform m) basic_text in
      let ca_path = n m.camunda_custom_root_cert_path in
      let ca_inline = n m.camunda_custom_root_cert_string in
      (
        keeps (not m.camunda_token_disk_cache_disable) p.oauth_cache_dir (n o.env.oauth_cache_dir)
            (n m.camunda_token_cache_dir),
        keeps is_basic p.basic_auth_username (n o.env.basic_auth_username)
            (n m.camunda_basic_auth_username),
        keeps is_basic p.basic_auth_password (n o.env.basic_auth_password)
            (n m.camunda_basic_auth_password),
        keeps (is_set (n m.camunda_custom_cert_chain_path)) p.mtls_cert_path
            (n o.env.mtls_cert_path) (n m.camunda_custom_cert_chain_path),
        keeps (is_set (n m.camunda_custom_private_key_path)) p.mtls_key_path (n o.env.mtls_key_path)
            (n m.camunda_custom_private_key_path),
        keeps (is_set ca_path) p.mtls_ca_path (n o.env.mtls_ca_path) ca_path,
        keeps (not (is_set ca_path) && is_set ca_inline) p.mtls_ca (n o.env.mtls_ca) ca_inline,
      )

  translated-RanksClientId : (o : TranslationOptions) → RanksClientId o (translated platform o)
  unfolding translated derive_client_id
  translated-RanksClientId o =
      let n = normalize_empty platform in
      first_of-five (when o.explicit_env (n o.env.client_id))
        (when o.has_zeebe_client_id (n o.merged_sdk.zeebe_client_id))
        (n o.merged_sdk.camunda_console_client_id) (when (not o.explicit_env) (n o.env.client_id))
        o.oca_overrides.client_id

  -- Whenever the authentication strategy is supported: each key that is always set is its override, or else, with an
  -- environment passed as an argument, the value of that environment before the derived one, and with the environment
  -- of the process the derived value before that of the environment; a key that is set under a condition keeps
  -- its override; but the client id is the override only when no id is found in the configuration or the environment.
  pub translate_to_oca_env_overrides-ranks :
      (o : TranslationOptions) (k : Keys)
      (supported : translate_to_oca_env_overrides platform o ≡ some k)
      → (is_supported (sdk_auth platform o.merged_sdk) ≡ true)
        × AreRanked o k
        × KeepsOverrides o.oca_overrides k
        × RanksClientId o k
  unfolding translate_to_oca_env_overrides
  translate_to_oca_env_overrides-ranks o k supported =
      let (yes_supported, same) =
        if_some (is_supported (sdk_auth platform o.merged_sdk)) (translated platform o) k
          supported in
      subst
        (λ (k : Keys).
          (is_supported (sdk_auth platform o.merged_sdk) ≡ true)
          × AreRanked o k
          × KeepsOverrides o.oca_overrides k
          × RanksClientId o k)
        same
        (
          yes_supported,
          translated-AreRanked o,
          translated-KeepsOverrides o,
          translated-RanksClientId o,
        )
