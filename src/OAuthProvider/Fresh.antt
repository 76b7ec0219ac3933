-- ===== src/OAuthProvider/Fresh.antt =====
-- `getHeaders` never hands out a token that is expired, or about to expire.
use camunda_8_js_sdk.Base.{
  ℕ, ◌+◌, ◌*◌, ◌≤◌, ◌<◌, ◌≡◌, refl, false, ◌⊎◌, inl, inr, ◌≢◌, Bool-cases, not, ◌||◌, Option, none,
  some, if◌then◌else◌, find, arith,
}
use camunda_8_js_sdk.OAuthProvider.{
  Token, Decoded, claims, undecodable, File, unreadable, holds, Config, Memo, Provider, bearer,
}
use camunda_8_js_sdk.OAuthProvider.Caches.{
  is_expired, evict_from_memory_cache, evict_from_file_cache, retrieved, read_file,
  retrieve_from_file_cache,
}
use camunda_8_js_sdk.OAuthProvider.Headers.{
  request_delay, request_once, unless_memoized, request_token, use_file_token, from_file,
  use_memory_token, get_headers,
}

-- A cached token of this key, in memory or in a file, with this text, that outlives the refresh
-- window.
pub record IsFresh (config : Config) (now key access_token : ℕ) (p : Provider) (token : Token)
    : Type 0 where
  pub text : token.access_token ≡ access_token
  pub stored : (find key p.token_cache ≡ some token) ⊎ (find key p.token_files ≡ some (holds token))
  pub lasting : now + config.refresh_window < token.expiry * 1000

module _ (config : Config) (now key : ℕ) where
  unless_memoized-bearer :
      (memo : Option Memo) (p : Provider) (a : ℕ)
      → (unless_memoized config now key memo p).1 ≢ bearer a
  unfolding unless_memoized request_once
  unless_memoized-bearer none p a e = ground arith
  unless_memoized-bearer (some memo) p a e = ground arith

  request_token-bearer : (p : Provider) (a : ℕ) → (request_token config now key p).1 ≢ bearer a
  unfolding request_token
  request_token-bearer p a e = ground (arith, unless_memoized-bearer (find key p.memoized_401) p a)

module _ (jwt_decode : ℕ → Decoded) (config : Config) (now key : ℕ) where
  retrieved-some :
      (found : Token) (d : Decoded) (p : Provider) (token : Token)
      → (retrieved jwt_decode key found d p).1 ≡ some token
      → found ≡ token
  unfolding retrieved
  retrieved-some found (claims exp) p token e = cc
  retrieved-some found (undecodable error) p token e = cc

  read_file-some :
      (o : Option File) (p : Provider) (token : Token)
      → (read_file jwt_decode config now key o p).1 ≡ some token
      → (o ≡ some (holds token)) × (is_expired config now token ≡ false)
  unfolding read_file
  read_file-some none p token e = ground arith
  read_file-some (some unreadable) p token e = ground arith
  read_file-some (some (holds found)) p token e =
      ground (arith, retrieved-some found (jwt_decode found.access_token) p token)

  use_file_token-bearer :
      (q : Provider × Option Token) (a : ℕ)
      → (use_file_token jwt_decode config now key q).1 ≡ bearer a
      → (token : Token) × (q.1 ≡ some token) × (token.access_token ≡ a)
  unfolding use_file_token
  use_file_token-bearer (p, none) a e = absurd (request_token-bearer config now key p a e)
  use_file_token-bearer (p, some token) a e = (
    token,
    refl,
    ground (arith, request_token-bearer config now key (evict_from_file_cache config key p) a),
  )

  from_file-IsFresh :
      (p : Provider) (a : ℕ)
      → (from_file jwt_decode config now key p).1 ≡ bearer a
      → (token : Token) × (token.access_token ≡ a)
        × (find key p.token_files ≡ some (holds token))
        × (now + config.refresh_window < token.expiry * 1000)
  unfolding from_file retrieve_from_file_cache is_expired
  from_file-IsFresh p a e = elim (Bool-cases config.use_file_cache) [
    | inl on ↦
        let q = retrieve_from_file_cache jwt_decode config now key p in
        let (token, found, text) = use_file_token-bearer q a (ground arith) in
        let (file, fresh) = read_file-some (find key p.token_files) p token found in
        (token, text, file, ground arith)
    | inr off ↦ absurd (request_token-bearer config now key p a (ground arith))
  ]

  use_memory_token-IsFresh :
      (o : Option Token) (p : Provider) (a : ℕ)
      → find key p.token_cache ≡ o
      → (use_memory_token jwt_decode config now key o p).1 ≡ bearer a
      → (token : Token) × IsFresh config now key a p token
  unfolding use_memory_token is_expired evict_from_memory_cache
  use_memory_token-IsFresh none p a same e =
      let (token, text, file, lasting) = from_file-IsFresh p a e in
      (token, record { text = text; stored = inr file; lasting = lasting })
  use_memory_token-IsFresh (some token) p a same e =
      elim (Bool-cases (is_expired config now token)) [
        | inl old ↦
            let evicted = evict_from_memory_cache key p in
            let (found, text, file, lasting) = from_file-IsFresh evicted a (ground arith) in
            (found, record { text = text; stored = inr file; lasting = lasting })
        | inr fresh ↦
            (token, record { text = ground arith; stored = inl same; lasting = ground arith })
      ]

  -- The token with which `getHeaders` answers at once is one of the memory cache or of the token
  -- file of the same credential and audience, and it expires later than the refresh window from now.
  pub get_headers-IsFresh :
      (p : Provider) (a : ℕ)
      → (get_headers jwt_decode config now key p).1 ≡ bearer a
      → (token : Token) × IsFresh config now key a p token
  unfolding get_headers
  get_headers-IsFresh p a e = use_memory_token-IsFresh (find key p.token_cache) p a refl e

-- A token request is begun at once where errors are to fail, or the last one did not; otherwise
-- after a second for each failure in a row, and never more than 15 seconds.
request_delay-bound :
    (config : Config) (p : Provider)
    → (request_delay config p ≤ (if config.fail_on_error || not p.failed then 0 else 15000))
      × (request_delay config p ≤ 1000 * p.failure_count)
unfolding request_delay
request_delay-bound config p = ground arith
