-- ===== src/AuthProviders.antt =====
-- src/lib/ConstructOAuthProvider.ts, which chooses the provider of headers, and src/oauth/lib/CookieAuthProvider.ts,
-- which logs in for a cookie. The login is a call of the HTTP client: its answer comes with a turn.
pub mod Selection
pub mod Cookie
mod Tests
use camunda_8_js_sdk.Base.{Bool, true, false, not, ◌&&◌, ◌||◌, if◌then◌else◌}

-- Any other text counts as `oauth`.
pub data Strategy : Type 0 where
  none_strategy basic bearer cookie oauth : Strategy

pub data Provider : Type 0 where
  null_auth basic_auth bearer_auth cookie_auth oauth_auth : Provider

-- Whether each setting is there.
pub record AuthConfig : Type 0 where
  pub camunda_auth_strategy : Strategy
  pub camunda_oauth_disabled : Bool
  pub zeebe_client_id : Bool
  pub zeebe_client_secret : Bool
  pub camunda_console_client_id : Bool
  pub camunda_console_client_secret : Bool
  pub camunda_oauth_url : Bool

unfoldable pub is_none_strategy : Strategy → Bool
is_none_strategy none_strategy = true
is_none_strategy _ = false

unfoldable pub disable : AuthConfig → AuthConfig
disable c =
    if c.camunda_oauth_disabled then record c { camunda_auth_strategy = none_strategy } else c

unfoldable pub can_auto_select_oauth : AuthConfig → Bool
can_auto_select_oauth c =
    c.camunda_oauth_url
    && not c.camunda_oauth_disabled
    && ((c.zeebe_client_id && c.zeebe_client_secret)
        || (c.camunda_console_client_id && c.camunda_console_client_secret))

-- `explicitly` says that the strategy is set in the environment or in the constructor.
unfoldable pub promote : Bool → AuthConfig → AuthConfig
unfolding is_none_strategy can_auto_select_oauth
promote explicitly c =
    if is_none_strategy c.camunda_auth_strategy && not explicitly && can_auto_select_oauth c
    then record c { camunda_auth_strategy = oauth }
    else c

unfoldable pub provider_for : Strategy → Provider
provider_for none_strategy = null_auth
provider_for basic = basic_auth
provider_for bearer = bearer_auth
provider_for cookie = cookie_auth
provider_for oauth = oauth_auth

unfoldable pub selected : AuthConfig → Provider
unfolding provider_for
selected c = if c.camunda_oauth_disabled then null_auth else provider_for c.camunda_auth_strategy

-- The configuration as it is left, and the provider.
unfoldable pub construct_oauth_provider : Bool → Bool → AuthConfig → AuthConfig × Provider
unfolding disable promote selected
construct_oauth_provider explicit_from_env explicit_from_constructor c =
    let d = promote (explicit_from_env || explicit_from_constructor) (disable c) in (d, selected d)
