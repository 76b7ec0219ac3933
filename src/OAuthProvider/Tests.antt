-- ===== src/OAuthProvider/Tests.antt =====
-- Runs of a provider, and instances of the theorems on them. Token 5 expires at 100 seconds, and
-- error 401 is the only 401.
use camunda_8_js_sdk.Base.{
  ℕ, ◌≡◌, ◌≢◌, refl, ap, Bool, true, false, some, List, [], ◌∷◌, ◌==◌, All, arith, find, erase,
  insert, member, without, count,
}
use camunda_8_js_sdk.OAuthProvider.{Token, Decoded, claims, Config, Provider}
use camunda_8_js_sdk.OAuthProvider.Caches.{
  is_expired, evict_from_memory_cache, evict_from_file_cache, cached, write_file,
  send_to_file_cache, retrieved, read_file, retrieve_from_file_cache,
}
use camunda_8_js_sdk.OAuthProvider.Headers.{
  request_delay, is_tarpitted, request_once, unless_memoized, request_token, use_file_token,
  from_file, use_memory_token, get_headers,
}
use camunda_8_js_sdk.OAuthProvider.Step.{
  request_at, request_over, settle, succeed, create_tarpit_file, fail_unauthorized, count_failure,
  Turn, headers_requested, token_received, token_failed, memory_flushed, files_flushed,
  tarpit_cleared, write_done, clear_401_tarpit, fail, remember_token, receive, fail_request, step,
  run,
}
use camunda_8_js_sdk.OAuthProvider.Fresh.{IsFresh, get_headers-IsFresh}
use camunda_8_js_sdk.OAuthProvider.SingleFlight.{OnePerKey, run-OnePerKey}
use camunda_8_js_sdk.OAuthProvider.Tarpit.{begun_for, unauthorized-IsSpared}

everything : Unit {0}
unfolding is_expired evict_from_memory_cache evict_from_file_cache cached write_file
    send_to_file_cache retrieved read_file retrieve_from_file_cache request_delay is_tarpitted
    request_once unless_memoized request_token use_file_token from_file use_memory_token get_headers
    request_at request_over settle succeed create_tarpit_file fail_unauthorized count_failure
    write_done clear_401_tarpit fail remember_token receive fail_request step run find erase insert
    member without count
everything = tt

abbrev jwt_decode : ℕ → Decoded
jwt_decode access_token = claims (some 100)

abbrev is_401_error : ℕ → Bool
is_401_error error = error == 401

abbrev config : Config
config = record {
  is_camunda_saas = true;
  use_file_cache = true;
  fail_on_error = false;
  refresh_window = 10000;
  saas_401_cooldown_ms = 30000;
}

abbrev fresh_provider : Provider
fresh_provider = record {
  token_cache = [];
  token_files = [];
  writes = [];
  failed = false;
  failure_count = 0;
  inflight_token_requests = [];
  memoized_401 = [];
  tarpit_401 = [];
  tarpit_files = [];
  requests = [];
  events = [];
}

abbrev token : Token
token = record { access_token = 5; expiry = 0 }

abbrev fetched : Provider
fetched =
    run jwt_decode is_401_error config fresh_provider
      (headers_requested 0 1 ∷ headers_requested 0 1 ∷ token_received 0 900 token true ∷ [])

-- Two calls made one request.
shared_request : begun_for 1 fetched.events ≡ 1
unfolding everything
shared_request = refl

get_headers-IsFresh_example : (found : Token) × IsFresh config 1000 1 5 fetched found
unfolding everything
get_headers-IsFresh_example = get_headers-IsFresh jwt_decode config 1000 1 fetched 5 refl

nothing_under_way : OnePerKey fresh_provider
unfolding everything
nothing_under_way = λ key. refl

abbrev turns : List Turn
turns =
    headers_requested 0 1
    ∷ headers_requested 0 2
    ∷ token_failed 1 40 500 true
    ∷ headers_requested 50 2
    ∷ []

run-OnePerKey_example : OnePerKey (run jwt_decode is_401_error config fresh_provider turns)
run-OnePerKey_example =
    run-OnePerKey jwt_decode is_401_error config fresh_provider turns nothing_under_way

abbrev asked : Provider
asked = run jwt_decode is_401_error config fresh_provider (headers_requested 0 1 ∷ [])

abbrev later : List Turn
later =
    headers_requested 90000 1
    ∷ memory_flushed
    ∷ files_flushed
    ∷ tarpit_cleared 2
    ∷ headers_requested 99000 1
    ∷ []

cleared_key : Turn → ℕ
cleared_key (tarpit_cleared key) = key
cleared_key _ = 0

two_ne_one : tarpit_cleared 2 ≢ tarpit_cleared 1
unfolding cleared_key
two_ne_one e =
    let keys : cleared_key (tarpit_cleared 2) ≡ cleared_key (tarpit_cleared 1) = ap cleared_key e in
    omega (arith, keys)

uncleared : All (λ t. t ≢ tarpit_cleared 1) later
uncleared = (λ e. cc, (λ e. cc, (λ e. cc, (λ e. two_ne_one e, (λ e. cc, tt)))))

unauthorized-IsSpared_example :
    begun_for 1
      (run jwt_decode is_401_error config asked (token_failed 0 40 401 true ∷ later)).events
    ≡ begun_for 1 asked.events
unfolding everything
unauthorized-IsSpared_example =
    unauthorized-IsSpared jwt_decode is_401_error config refl 1 asked 0 40 401 later refl refl refl
      uncleared
