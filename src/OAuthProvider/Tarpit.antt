-- ===== src/OAuthProvider/Tarpit.antt =====
-- A credential that Camunda SaaS answered with 401 is not tried again, until its tarpit is cleared.
use camunda_8_js_sdk.Base.{
  ℕ, suc, ◌≡◌, ◌≢◌, refl, ◌∙◌, Bool, true, inl, inr, Option, none, some, List, [], ◌∷◌,
  if◌then◌else◌, ◌==◌, ==_iff, ==_self, member, member-without, arith, All, find, if_rule, ap,
}
use camunda_8_js_sdk.OAuthProvider.{
  Token, Decoded, claims, undecodable, Config, Provider, Event, request_begun,
}
use camunda_8_js_sdk.OAuthProvider.Caches.{cached, write_file, send_to_file_cache}
use camunda_8_js_sdk.OAuthProvider.Headers.{is_tarpitted, get_headers}
use camunda_8_js_sdk.OAuthProvider.Step.{
  settle, succeed, create_tarpit_file, fail_unauthorized, count_failure, request_at, Turn,
  headers_requested, token_received, token_failed, file_written, memory_flushed, files_flushed,
  tarpit_cleared, write_done, clear_401_tarpit, fail, remember_token, receive, fail_request, step,
  run,
}
use camunda_8_js_sdk.OAuthProvider.Frame.{get_headers-Allowed}

-- How many requests were begun for a key.
abbrev pub begun_for : ℕ → List Event → ℕ
begun_for key [] = 0
begun_for key (request_begun k delay ∷ events) =
    if k == key then suc (begun_for key events) else begun_for key events

-- What is asked of a turn: the key stays in the tarpit, and no request is begun for it.
abbrev IsSpared : ℕ → Provider → Provider → Type 0
IsSpared key p q = (is_tarpitted key q ≡ true) × (begun_for key q.events ≡ begun_for key p.events)

module _ (jwt_decode : ℕ → Decoded) (is_401_error : ℕ → Bool) (config : Config)
    (saas : config.is_camunda_saas ≡ true) (key : ℕ) where
  get_headers-IsSpared :
      (now k : ℕ) (p : Provider)
      → is_tarpitted key p ≡ true
      → IsSpared key p (get_headers jwt_decode config now k p).0
  unfolding is_tarpitted
  get_headers-IsSpared now k p closed = elim (get_headers-Allowed jwt_decode config now k p) [
    | inl same ↦ (rw (same.tarpit, same.tarpit_files) closed, rw same.events refl)
    | inr (begun, allowed) ↦ (
      rw (begun.tarpit, begun.tarpit_files) closed,
      rw begun.events (ground (arith, ==_iff k key)),
    )
  ]

  fail-IsSpared :
      (i k now error : ℕ) (writable : Bool) (p : Provider)
      → is_tarpitted key p ≡ true
      → IsSpared key p (fail jwt_decode is_401_error config i k now error writable p)
  unfolding fail settle fail_unauthorized create_tarpit_file count_failure is_tarpitted member
  fail-IsSpared i k now error writable p closed = ground arith

  write-IsSpared :
      (k : ℕ) (token : Token) (d : Decoded) (p : Provider)
      → is_tarpitted key p ≡ true
      → IsSpared key p (write_file jwt_decode k token d p)
  unfolding write_file is_tarpitted
  write-IsSpared k token (claims exp) p closed = (closed, refl)
  write-IsSpared k token (undecodable error) p closed = (closed, refl)

  remember-IsSpared :
      (i k now : ℕ) (token : Token) (writable : Bool) (d : Decoded) (p : Provider)
      → is_tarpitted key p ≡ true
      → IsSpared key p (remember_token jwt_decode is_401_error config i k now token writable d p)
  unfolding remember_token succeed cached settle is_tarpitted
  remember-IsSpared i k now token writable (claims exp) p closed = (closed, refl)
  remember-IsSpared i k now token writable (undecodable error) p closed =
      fail-IsSpared i k now error writable p closed

  receive-IsSpared :
      (i now : ℕ) (token : Token) (writable : Bool) (o : Option ℕ) (p : Provider)
      → is_tarpitted key p ≡ true
      → IsSpared key p (receive jwt_decode is_401_error config i now token writable o p)
  unfolding receive send_to_file_cache
  receive-IsSpared i now token writable none p closed = (closed, refl)
  receive-IsSpared i now token writable (some k) p closed =
      let d = jwt_decode token.access_token in
      let (stays, same) = write-IsSpared k token d p closed in
      if_rule
        (λ (q : Provider).
          IsSpared key p (remember_token jwt_decode is_401_error config i k now token writable d q))
        config.use_file_cache
        (λ on.
          let (after, still) =
            remember-IsSpared i k now token writable d (write_file jwt_decode k token d p) stays in
          (after, still ∙ same))
        (λ off. remember-IsSpared i k now token writable d p closed)

  fail_request-IsSpared :
      (i now error : ℕ) (writable : Bool) (o : Option ℕ) (p : Provider)
      → is_tarpitted key p ≡ true
      → IsSpared key p (fail_request jwt_decode is_401_error config i now error writable o p)
  unfolding fail_request
  fail_request-IsSpared i now error writable none p closed = (closed, refl)
  fail_request-IsSpared i now error writable (some k) p closed =
      fail-IsSpared i k now error writable p closed

  written-IsSpared :
      (k : ℕ) (o : Option Token) (p : Provider)
      → is_tarpitted key p ≡ true
      → IsSpared key p (write_done k o p)
  unfolding write_done is_tarpitted
  written-IsSpared k none p closed = (closed, refl)
  written-IsSpared k (some token) p closed = (closed, refl)

  other_key : (k : ℕ) → tarpit_cleared k ≢ tarpit_cleared key → k ≢ key
  other_key k n e = n (ap tarpit_cleared e)

  step-IsSpared :
      (p : Provider) (t : Turn)
      → t ≢ tarpit_cleared key
      → is_tarpitted key p ≡ true
      → IsSpared key p (step jwt_decode is_401_error config p t)
  unfolding step clear_401_tarpit is_tarpitted
  step-IsSpared p (headers_requested now k) n closed = get_headers-IsSpared now k p closed
  step-IsSpared p (token_received i now token writable) n closed =
      receive-IsSpared i now token writable (request_at i p.requests) p closed
  step-IsSpared p (token_failed i now error writable) n closed =
      fail_request-IsSpared i now error writable (request_at i p.requests) p closed
  step-IsSpared p (file_written k) n closed = written-IsSpared k (find k p.writes) p closed
  step-IsSpared p memory_flushed n closed = (closed, refl)
  step-IsSpared p files_flushed n closed =
      if_rule (IsSpared key p) config.use_file_cache (λ on. (closed, refl)) (λ off. (closed, refl))
  step-IsSpared p (tarpit_cleared k) n closed = ground (
    arith,
    member-without k key p.tarpit_401,
    member-without k key p.tarpit_files,
    ==_iff k key,
    other_key k n,
  )

  fail-tarpitted :
      (i now error : ℕ) (p : Provider) (o : Option ℕ)
      → config.use_file_cache ≡ true
      → o ≡ some key
      → is_401_error error ≡ true
      → IsSpared key p (fail_request jwt_decode is_401_error config i now error true o p)
  unfolding fail_request fail settle fail_unauthorized create_tarpit_file is_tarpitted member
  fail-tarpitted i now error p none cache e unauthorized = cc
  fail-tarpitted i now error p (some k) cache e unauthorized = ground (arith, ==_self key)

  -- On Camunda SaaS, once a credential and audience is in the tarpit, no token request is begun for
  -- it again, whatever calls, answers and flushes follow, as long as its tarpit is not cleared.
  pub run-IsSpared :
      (p : Provider) (ts : List Turn)
      → All (λ t. t ≢ tarpit_cleared key) ts
      → is_tarpitted key p ≡ true
      → begun_for key (run jwt_decode is_401_error config p ts).events ≡ begun_for key p.events
  unfolding run
  run-IsSpared p [] all closed = refl
  run-IsSpared p (t ∷ ts) (n, all) closed =
      let (stays, same) = step-IsSpared p t n closed in
      run-IsSpared (step jwt_decode is_401_error config p t) ts all stays ∙ same

  -- On Camunda SaaS with the file cache on and a disk that takes the file: a token request that
  -- fails with a 401 is the last one for its credential and audience, whatever follows, as long as
  -- the tarpit is not cleared.
  pub unauthorized-IsSpared :
      (p : Provider) (i now error : ℕ) (ts : List Turn)
      → config.use_file_cache ≡ true
      → request_at i p.requests ≡ some key
      → is_401_error error ≡ true
      → All (λ t. t ≢ tarpit_cleared key) ts
      → begun_for key
          (run jwt_decode is_401_error config p (token_failed i now error true ∷ ts)).events
        ≡ begun_for key p.events
  unfolding run step
  unauthorized-IsSpared p i now error ts cache e unauthorized all =
      let (stays, same) =
        fail-tarpitted i now error p (request_at i p.requests) cache e unauthorized in
      run-IsSpared (step jwt_decode is_401_error config p (token_failed i now error true)) ts all
        stays
      ∙ same
