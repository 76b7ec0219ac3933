-- ===== src/OAuthProvider/Step.antt =====
-- The end of a token request, the flushes and `clear401Tarpit` of src/oauth/lib/OAuthProvider.ts,
-- and runs of them, one turn of the event loop at a time.
use camunda_8_js_sdk.Base.{
  ℕ, zero, suc, ◌+◌, Bool, true, false, not, ◌&&◌, Option, none, some, List, [], ◌∷◌, if◌then◌else◌,
  find, erase, insert, member, without,
}
use camunda_8_js_sdk.OAuthProvider.{Token, Decoded, claims, undecodable, holds, Config, Provider}
use camunda_8_js_sdk.OAuthProvider.Caches.{cached, send_to_file_cache}
use camunda_8_js_sdk.OAuthProvider.Headers.{get_headers}

unfoldable pub request_at : ℕ → List ℕ → Option ℕ
request_at i [] = none
request_at zero (k ∷ ks) = some k
request_at (suc i) (k ∷ ks) = request_at i ks

unfoldable pub request_over : ℕ → List ℕ → List ℕ
request_over i [] = []
request_over zero (k ∷ ks) = ks
request_over (suc i) (k ∷ ks) = k ∷ request_over i ks

-- The promise of the key settles: `delete inflightTokenRequests[credentialKey]`.
unfoldable pub settle : ℕ → ℕ → Provider → Provider
unfolding without request_over
settle i key p = record p {
  inflight_token_requests = without key p.inflight_token_requests;
  requests = request_over i p.requests;
}

unfoldable pub succeed : ℕ → ℕ → Provider → Provider
unfolding settle erase
succeed i key p = record (settle i key p) {
  memoized_401 = erase key p.memoized_401;
  failed = false;
  failure_count = 0;
}

-- `writable` tells whether the disk takes the file.
unfoldable pub create_tarpit_file : Config → ℕ → Bool → Provider → Provider
unfolding member
create_tarpit_file config key writable p =
    if not config.use_file_cache
    then p
    else if member key p.tarpit_files
    then record p { tarpit_401 = key ∷ p.tarpit_401 }
    else if writable
    then record p { tarpit_401 = key ∷ p.tarpit_401; tarpit_files = key ∷ p.tarpit_files }
    else p

unfoldable pub fail_unauthorized : Config → ℕ → ℕ → ℕ → Bool → Provider → Provider
unfolding create_tarpit_file insert
fail_unauthorized config key now error writable p =
    record (create_tarpit_file config key writable p) {
      memoized_401 = insert key (record { timestamp = now; error = error }) p.memoized_401;
      failed = false;
    }

unfoldable pub count_failure : Config → Provider → Provider
count_failure config p =
    if config.fail_on_error
    then p
    else record p { failed = true; failure_count = p.failure_count + 1 }

-- A turn: a call of `getHeaders`; the answer of the token endpoint to a request, a token or an
-- error; a token file that is written; `flushMemoryCache`, `flushFileCache`, `clear401Tarpit`.
pub data Turn : Type 0 where
  headers_requested : (now key : ℕ) → Turn
  token_received : (request now : ℕ) (token : Token) (writable : Bool) → Turn
  token_failed : (request now error : ℕ) (writable : Bool) → Turn
  file_written : (key : ℕ) → Turn
  memory_flushed files_flushed : Turn
  tarpit_cleared : (key : ℕ) → Turn

unfoldable pub write_done : ℕ → Option Token → Provider → Provider
unfolding insert erase
write_done key none p = p
write_done key (some token) p = record p {
  token_files = insert key (holds token) p.token_files;
  writes = erase key p.writes;
}

unfoldable pub clear_401_tarpit : ℕ → Provider → Provider
unfolding without erase
clear_401_tarpit key p = record p {
  tarpit_files = without key p.tarpit_files;
  tarpit_401 = without key p.tarpit_401;
  memoized_401 = erase key p.memoized_401;
}

-- `jwtDecode`, and `is401Error` on the error that a request ends with.
module _ (jwt_decode : ℕ → Decoded) (is_401_error : ℕ → Bool) (config : Config) where
  unfoldable pub fail : ℕ → ℕ → ℕ → ℕ → Bool → Provider → Provider
  unfolding settle fail_unauthorized count_failure
  fail i key now error writable p = settle i key (
      if config.is_camunda_saas && is_401_error error
      then fail_unauthorized config key now error writable p
      else count_failure config p)

  -- `sendToMemoryCache` throws where the token cannot be decoded, and the request fails.
  unfoldable pub remember_token : ℕ → ℕ → ℕ → Token → Bool → Decoded → Provider → Provider
  unfolding succeed fail cached
  remember_token i key now token writable (undecodable error) p = fail i key now error writable p
  remember_token i key now token writable (claims exp) p =
      succeed i key (cached jwt_decode key token exp p)

  unfoldable pub receive : ℕ → ℕ → Token → Bool → Option ℕ → Provider → Provider
  unfolding remember_token send_to_file_cache
  receive i now token writable none p = p
  receive i now token writable (some key) p =
      remember_token i key now token writable (jwt_decode token.access_token)
        (if config.use_file_cache then send_to_file_cache jwt_decode key token p else p)

  unfoldable pub fail_request : ℕ → ℕ → ℕ → Bool → Option ℕ → Provider → Provider
  unfolding fail
  fail_request i now error writable none p = p
  fail_request i now error writable (some key) p = fail i key now error writable p

  unfoldable pub step : Provider → Turn → Provider
  unfolding get_headers receive fail_request write_done clear_401_tarpit request_at find
  step p (headers_requested now key) = (get_headers jwt_decode config now key p).0
  step p (token_received i now token writable) =
      receive i now token writable (request_at i p.requests) p
  step p (token_failed i now error writable) =
      fail_request i now error writable (request_at i p.requests) p
  step p (file_written key) = write_done key (find key p.writes) p
  step p memory_flushed = record p { token_cache = [] }
  step p files_flushed = if config.use_file_cache then record p { token_files = [] } else p
  step p (tarpit_cleared key) = clear_401_tarpit key p

  unfoldable pub run : Provider → List Turn → Provider
  run p [] = p
  run p (t ∷ ts) = run (step p t) ts
