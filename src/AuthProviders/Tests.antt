-- ===== src/AuthProviders/Tests.antt =====
-- Choices and cookies, and the claims at concrete inputs.
use camunda_8_js_sdk.Base.{◌≡◌, ◌↔◌, refl, true, false, ◌||◌, none, some, List, [], ◌∷◌, Text}
use camunda_8_js_sdk.AuthProviders.{none_strategy, oauth_auth, AuthConfig, construct_oauth_provider}
use camunda_8_js_sdk.AuthProviders.Selection.{wants_oauth, construct_oauth_provider-again}
use camunda_8_js_sdk.AuthProviders.Cookie.{
  cookie_of, first_part, waits, without_caller, resumption, without_resumption, new_cookie_auth,
  start_headers, get_headers, login_answered, finish_headers, resume, set_token, Turn, calls,
  resumes, answered, resets, step, run,
}
use camunda_8_js_sdk.AuthProviders.Cookie.Given.{AllAnswered, run-AllAnswered}

-- Nothing is set but what OAuth needs.
abbrev implicit_oauth : AuthConfig
implicit_oauth = record {
  camunda_auth_strategy = none_strategy;
  camunda_oauth_disabled = false;
  zeebe_client_id = true;
  zeebe_client_secret = true;
  camunda_console_client_id = false;
  camunda_console_client_secret = false;
  camunda_oauth_url = true;
}

construct_oauth_provider-again_example :
    let (d, provider) = construct_oauth_provider false false implicit_oauth in
    ((provider ≡ oauth_auth) ↔ (
      (implicit_oauth.camunda_oauth_disabled ≡ false)
      × (wants_oauth (false || false) implicit_oauth implicit_oauth.camunda_auth_strategy ≡ true)))
    × (construct_oauth_provider false false d ≡ (d, provider))
construct_oauth_provider-again_example = construct_oauth_provider-again false false implicit_oauth

-- `a=1; Path=/`.
abbrev set_cookie : Text
set_cookie = 97 ∷ 61 ∷ 49 ∷ 59 ∷ 32 ∷ 80 ∷ []

abbrev own_cookie : Text
own_cookie = 97 ∷ 61 ∷ 49 ∷ []

-- The cookie is reset while a login is under way.
abbrev late_login : List Turn
late_login = calls 1 ∷ resets ∷ answered 1 (some set_cookie) ∷ resumes 1 ∷ calls 2 ∷ []

-- Two callers log in, and the second login is answered without a cookie.
abbrev two_logins : List Turn
two_logins =
    calls 1
    ∷ calls 2
    ∷ answered 1 (some set_cookie)
    ∷ answered 2 none
    ∷ resumes 1
    ∷ resumes 2
    ∷ calls 3
    ∷ []

cookies : Unit {0}
unfolding run step get_headers start_headers login_answered cookie_of first_part waits
    without_caller resume resumption finish_headers without_resumption set_token new_cookie_auth
cookies =
    -- The caller after the reset is given the cookie without a login.
    let stale : (run late_login new_cookie_auth).answers
        ≡ (2, some own_cookie) ∷ (1, some own_cookie) ∷ [] =
      refl in
    let both : (run two_logins new_cookie_auth).answers ≡ (2, none) ∷ (1, some own_cookie) ∷ [] =
      refl in
    let third : (run two_logins new_cookie_auth).requests ≡ 3 ∷ [] = refl in tt

run-AllAnswered_example :
    AllAnswered (run two_logins new_cookie_auth).responses (run two_logins new_cookie_auth).answers
run-AllAnswered_example = run-AllAnswered two_logins
