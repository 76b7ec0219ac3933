-- ===== src/OAuthProvider/Caches.antt =====
-- The token caches of src/oauth/lib/OAuthProvider.ts.
use camunda_8_js_sdk.Base.{
  ℕ, ◌+◌, ◌*◌, Bool, Option, none, some, if◌then◌else◌, leb, find, erase, insert, or_else,
}
use camunda_8_js_sdk.OAuthProvider.{
  Token, Decoded, claims, undecodable, File, unreadable, holds, Config, Provider,
}

unfoldable pub is_expired : Config → ℕ → Token → Bool
is_expired config now token = leb (token.expiry * 1000) (now + config.refresh_window)

unfoldable pub evict_from_memory_cache : ℕ → Provider → Provider
unfolding erase
evict_from_memory_cache key p = record p { token_cache = erase key p.token_cache }

unfoldable pub evict_from_file_cache : Config → ℕ → Provider → Provider
unfolding erase
evict_from_file_cache config key p =
    if config.use_file_cache then record p { token_files = erase key p.token_files } else p

module _ (jwt_decode : ℕ → Decoded) where
  -- `sendToMemoryCache` and `sendToFileCache` once the token is decoded.
  unfoldable pub cached : ℕ → Token → Option ℕ → Provider → Provider
  unfolding insert
  cached key token exp p = record p {
    token_cache = insert key (record token { expiry = or_else exp 0 }) p.token_cache;
  }

  unfoldable pub write_file : ℕ → Token → Decoded → Provider → Provider
  unfolding insert
  write_file key token (undecodable error) p = p
  write_file key token (claims exp) p = record p {
    writes = insert key (record token { expiry = or_else exp 0 }) p.writes;
  }

  unfoldable pub send_to_file_cache : ℕ → Token → Provider → Provider
  unfolding write_file
  send_to_file_cache key token p = write_file key token (jwt_decode token.access_token) p

  -- The token of a file goes to the memory cache, if it can be decoded.
  unfoldable pub retrieved : ℕ → Token → Decoded → Provider → Provider × Option Token
  unfolding cached
  retrieved key token (undecodable error) p = (p, none)
  retrieved key token (claims exp) p = (cached key token exp p, some token)

  unfoldable pub read_file : Config → ℕ → ℕ → Option File → Provider → Provider × Option Token
  unfolding retrieved is_expired
  read_file config now key none p = (p, none)
  read_file config now key (some unreadable) p = (p, none)
  read_file config now key (some (holds token)) p =
      if is_expired config now token
      then (p, none)
      else retrieved key token (jwt_decode token.access_token) p

  unfoldable pub retrieve_from_file_cache : Config → ℕ → ℕ → Provider → Provider × Option Token
  unfolding read_file find
  retrieve_from_file_cache config now key p = read_file config now key (find key p.token_files) p
