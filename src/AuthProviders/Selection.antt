-- ===== src/AuthProviders/Selection.antt =====
-- When a client uses OAuth, and that it stays with its choice.
use camunda_8_js_sdk.Base.{◌≡◌, ◌↔◌, refl, ap, Bool, true, false, not, ◌&&◌, ◌||◌, arith}
use camunda_8_js_sdk.AuthProviders.{
  Strategy, none_strategy, basic, bearer, cookie, oauth, oauth_auth, AuthConfig, is_none_strategy,
  disable, can_auto_select_oauth, promote, provider_for, selected, construct_oauth_provider,
}

-- OAuth is asked for, or no strategy is and everything that OAuth needs is there.
abbrev pub wants_oauth : Bool → AuthConfig → Strategy → Bool
wants_oauth explicitly c oauth = true
wants_oauth explicitly c none_strategy =
    not explicitly
    && c.camunda_oauth_url
    && ((c.zeebe_client_id && c.zeebe_client_secret)
        || (c.camunda_console_client_id && c.camunda_console_client_secret))
wants_oauth explicitly c _ = false

promoted-oauth :
    (explicitly : Bool) (c : AuthConfig) (st : Strategy)
    → c.camunda_auth_strategy ≡ st
    → (selected (promote explicitly (disable c)) ≡ oauth_auth)
      ↔ ((c.camunda_oauth_disabled ≡ false) × (wants_oauth explicitly c st ≡ true))
unfolding selected promote disable is_none_strategy can_auto_select_oauth provider_for
promoted-oauth explicitly c none_strategy e = ground arith
promoted-oauth explicitly c basic e = ground arith
promoted-oauth explicitly c bearer e = ground arith
promoted-oauth explicitly c cookie e = ground arith
promoted-oauth explicitly c oauth e = ground arith

promoted-again :
    (explicitly : Bool) (c : AuthConfig) (st : Strategy)
    → c.camunda_auth_strategy ≡ st
    → let d = promote explicitly (disable c) in promote explicitly (disable d) ≡ d
unfolding promote disable is_none_strategy can_auto_select_oauth
promoted-again explicitly c none_strategy e = ground arith
promoted-again explicitly c basic e = ground arith
promoted-again explicitly c bearer e = ground arith
promoted-again explicitly c cookie e = ground arith
promoted-again explicitly c oauth e = ground arith

-- A client uses OAuth exactly when OAuth is not disabled and either the strategy asks for it, or there is no strategy,
-- none was set explicitly, and the OAuth URL and the id and the secret of an application or of the console are there.
-- And the configuration that is left stays as it is, with the same provider, when another client is built from it.
pub construct_oauth_provider-again :
    (explicit_from_env explicit_from_constructor : Bool) (c : AuthConfig)
    → let (d, provider) = construct_oauth_provider explicit_from_env explicit_from_constructor c in
      ((provider ≡ oauth_auth) ↔ (
        (c.camunda_oauth_disabled ≡ false)
        × (wants_oauth (explicit_from_env || explicit_from_constructor) c c.camunda_auth_strategy
            ≡ true)))
      × (construct_oauth_provider explicit_from_env explicit_from_constructor d ≡ (d, provider))
unfolding construct_oauth_provider
construct_oauth_provider-again explicit_from_env explicit_from_constructor c =
    let explicitly = explicit_from_env || explicit_from_constructor in
    (
      promoted-oauth explicitly c c.camunda_auth_strategy refl,
      ap (λ (d : AuthConfig). (d, selected d))
          (promoted-again explicitly c c.camunda_auth_strategy refl),
    )
