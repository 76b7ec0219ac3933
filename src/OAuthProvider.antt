-- ===== src/OAuthProvider.antt =====
-- src/oauth/lib/OAuthProvider.ts: the token caches, the requests under way, and the memory of 401
-- answers. A credential and audience, and an access token, are numbers. A time is in milliseconds,
-- an expiry in seconds since 1970.
pub mod Caches
pub mod Headers
pub mod Frame
pub mod Step
pub mod Fresh
pub mod SingleFlight
pub mod Tarpit
mod Tests
use camunda_8_js_sdk.Base.{ℕ, Bool, Option, none, some, List}

pub record Token : Type 0 where
  pub access_token : ℕ
  pub expiry : ℕ

-- What `jwtDecode` gives: the `exp` claim, or what it throws.
pub data Decoded : Type 0 where
  claims : (exp : Option ℕ) → Decoded
  undecodable : (error : ℕ) → Decoded

-- A file of the token cache: what it parses to, if it does.
pub data File : Type 0 where
  unreadable : File
  holds : Token → File

pub record Config : Type 0 where
  pub is_camunda_saas : Bool
  pub use_file_cache : Bool
  pub fail_on_error : Bool
  pub refresh_window : ℕ
  pub saas_401_cooldown_ms : ℕ

-- A 401 that is remembered.
pub record Memo : Type 0 where
  pub timestamp : ℕ
  pub error : ℕ

-- A token request that was begun, its delay in milliseconds, and when it was begun.
pub data Event : Type 0 where
  request_begun : (key delay_ms : ℕ) → Event

-- The fields of the class and the disk: the token files, and the tarpit files. `requests` are
-- the keys of the requests that have not ended, oldest first, `writes` the files being written.
pub record Provider : Type 0 where
  pub token_cache : List (ℕ × Token)
  pub token_files : List (ℕ × File)
  pub writes : List (ℕ × Token)
  pub failed : Bool
  pub failure_count : ℕ
  pub inflight_token_requests : List ℕ
  pub memoized_401 : List (ℕ × Memo)
  pub tarpit_401 : List ℕ
  pub tarpit_files : List ℕ
  pub requests : List ℕ
  pub events : List Event  -- newest first

-- What `getHeaders` gives: headers with a cached token, an error at once, or the promise of the
-- request under way.
pub data Answer : Type 0 where
  bearer : (access_token : ℕ) → Answer
  tarpitted : Answer
  memoized_error : (error : ℕ) → Answer
  awaits_request : Answer
