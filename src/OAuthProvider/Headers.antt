-- ===== src/OAuthProvider/Headers.antt =====
-- `getHeaders` of src/oauth/lib/OAuthProvider.ts.
use camunda_8_js_sdk.Base.{
  ℕ, ◌+◌, ◌*◌, Bool, ◌&&◌, Option, none, some, [], ◌∷◌, ◌++◌, if◌then◌else◌, ltb, min, find, erase,
  member,
}
use camunda_8_js_sdk.OAuthProvider.{
  Token, Decoded, Config, Memo, request_begun, Provider, Answer, bearer, tarpitted, memoized_error,
  awaits_request,
}
use camunda_8_js_sdk.OAuthProvider.Caches.{
  is_expired, evict_from_memory_cache, evict_from_file_cache, retrieve_from_file_cache,
}

unfoldable pub request_delay : Config → Provider → ℕ
request_delay config p =
    if config.fail_on_error then 0 else if p.failed then min (1000 * p.failure_count) 15000 else 0

unfoldable pub is_tarpitted : ℕ → Provider → Bool
unfolding member
is_tarpitted key p = member key p.tarpit_401 && member key p.tarpit_files

unfoldable pub request_once : Config → ℕ → Provider → Provider × Answer
unfolding request_delay member
request_once config key p = if member key p.inflight_token_requests then (p, awaits_request) else (
  record p {
    inflight_token_requests = key ∷ p.inflight_token_requests;
    requests = p.requests ++ key ∷ [];
    events = request_begun key (request_delay config p) ∷ p.events;
  },
  awaits_request,
)

unfoldable pub unless_memoized : Config → ℕ → ℕ → Option Memo → Provider → Provider × Answer
unfolding request_once erase
unless_memoized config now key none p = request_once config key p
unless_memoized config now key (some memo) p =
    if ltb now (memo.timestamp + config.saas_401_cooldown_ms)
    then (p, memoized_error memo.error)
    else request_once config key (record p { memoized_401 = erase key p.memoized_401 })

unfoldable pub request_token : Config → ℕ → ℕ → Provider → Provider × Answer
unfolding unless_memoized is_tarpitted find
request_token config now key p =
    if config.is_camunda_saas && is_tarpitted key p
    then (p, tarpitted)
    else unless_memoized config now key (find key p.memoized_401) p

module _ (jwt_decode : ℕ → Decoded) where
  unfoldable pub use_file_token : Config → ℕ → ℕ → Provider × Option Token → Provider × Answer
  unfolding request_token is_expired evict_from_file_cache
  use_file_token config now key (p, none) = request_token config now key p
  use_file_token config now key (p, some token) =
      if is_expired config now token
      then request_token config now key (evict_from_file_cache config key p)
      else (p, bearer token.access_token)

  unfoldable pub from_file : Config → ℕ → ℕ → Provider → Provider × Answer
  unfolding use_file_token retrieve_from_file_cache
  from_file config now key p =
      if config.use_file_cache
      then use_file_token config now key (retrieve_from_file_cache jwt_decode config now key p)
      else request_token config now key p

  unfoldable pub use_memory_token : Config → ℕ → ℕ → Option Token → Provider → Provider × Answer
  unfolding from_file evict_from_memory_cache is_expired
  use_memory_token config now key none p = from_file config now key p
  use_memory_token config now key (some token) p =
      if is_expired config now token
      then from_file config now key (evict_from_memory_cache key p)
      else (p, bearer token.access_token)

  unfoldable pub get_headers : Config → ℕ → ℕ → Provider → Provider × Answer
  unfolding use_memory_token find
  get_headers config now key p = use_memory_token config now key (find key p.token_cache) p
