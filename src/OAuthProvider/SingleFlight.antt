-- ===== src/OAuthProvider/SingleFlight.antt =====
-- One token request at a time for each credential and audience.
use camunda_8_js_sdk.Base.{
  ℕ, zero, suc, ◌+◌, ◌≡◌, refl, Bool, ◌&&◌, inl, inr, Option, none, some, List, [], ◌∷◌, ◌++◌,
  if◌then◌else◌, ◌==◌, ==_iff, ==_self, find, count, member, member-without, arith, if_rule,
}
use camunda_8_js_sdk.OAuthProvider.{Token, Decoded, claims, undecodable, Config, Provider}
use camunda_8_js_sdk.OAuthProvider.Caches.{cached, write_file, send_to_file_cache}
use camunda_8_js_sdk.OAuthProvider.Headers.{get_headers}
use camunda_8_js_sdk.OAuthProvider.Step.{
  request_at, request_over, settle, succeed, create_tarpit_file, fail_unauthorized, count_failure,
  Turn, headers_requested, token_received, token_failed, file_written, memory_flushed,
  files_flushed, tarpit_cleared, write_done, clear_401_tarpit, fail, remember_token, receive,
  fail_request, step, run,
}
use camunda_8_js_sdk.OAuthProvider.Frame.{get_headers-Allowed}

-- A key's requests under way: one where the map of promises has it, and none where it does not.
abbrev pub OnePerKey : Provider → Type 0
OnePerKey p =
    (key : ℕ) → count key p.requests ≡ (if member key p.inflight_token_requests then 1 else 0)

count-append :
    (k l : ℕ) (ks : List ℕ) → count k (ks ++ l ∷ []) ≡ count k ks + (if l == k then 1 else 0)
unfolding count
count-append k l [] = ground arith
count-append k l (j ∷ ks) = ground (arith, count-append k l ks)

count-request_over :
    (i k l : ℕ) (ks : List ℕ)
    → request_at i ks ≡ some l
    → count k (request_over i ks) + (if l == k then 1 else 0) ≡ count k ks
unfolding count request_at request_over
count-request_over i k l [] e = cc
count-request_over zero k l (j ∷ ks) e = ground arith
count-request_over (suc i) k l (j ∷ ks) e = ground (arith, count-request_over i k l ks e)

settle-OnePerKey :
    (i key : ℕ) (p : Provider)
    → request_at i p.requests ≡ some key
    → OnePerKey p
    → OnePerKey (settle i key p)
unfolding settle
settle-OnePerKey i key p e h k = ground (
  arith,
  h k,
  h key,
  count-request_over i k key p.requests e,
  count-request_over i key key p.requests e,
  member-without key k p.inflight_token_requests,
  ==_iff key k,
  ==_self key,
)

-- The same requests under way.
abbrev IsAlike : Provider → Provider → Type 0
IsAlike p q = (q.requests ≡ p.requests) × (q.inflight_token_requests ≡ p.inflight_token_requests)

alike : (p q : Provider) → IsAlike p q → OnePerKey p → OnePerKey q
alike p q (requests, inflight) h k = rw (requests, inflight) (h k)

settle_alike :
    (i key : ℕ) (p q : Provider)
    → IsAlike p q
    → request_at i p.requests ≡ some key
    → OnePerKey p
    → OnePerKey (settle i key q)
settle_alike i key p q same e h = settle-OnePerKey i key q (rw same.0 e) (alike p q same h)

fail_unauthorized-IsAlike :
    (config : Config) (key now error : ℕ) (writable : Bool) (p : Provider)
    → IsAlike p (fail_unauthorized config key now error writable p)
unfolding fail_unauthorized create_tarpit_file
fail_unauthorized-IsAlike config key now error writable p = ground arith

count_failure-IsAlike : (config : Config) (p : Provider) → IsAlike p (count_failure config p)
unfolding count_failure
count_failure-IsAlike config p = ground arith

write_done-IsAlike : (key : ℕ) (o : Option Token) (p : Provider) → IsAlike p (write_done key o p)
unfolding write_done
write_done-IsAlike key none p = (refl, refl)
write_done-IsAlike key (some token) p = (refl, refl)

module _ (jwt_decode : ℕ → Decoded) (is_401_error : ℕ → Bool) (config : Config) where
  get_headers-OnePerKey :
      (now key : ℕ) (p : Provider)
      → OnePerKey p
      → OnePerKey (get_headers jwt_decode config now key p).0
  unfolding member
  get_headers-OnePerKey now key p h k = elim (get_headers-Allowed jwt_decode config now key p) [
    | inl same ↦ rw (same.requests, same.inflight) (h k)
    | inr (begun, allowed) ↦
        rw (begun.requests, begun.inflight)
          (ground (arith, h k, h key, count-append k key p.requests, ==_iff key k))
  ]

  fail-OnePerKey :
      (i key now error : ℕ) (writable : Bool) (p : Provider)
      → request_at i p.requests ≡ some key
      → OnePerKey p
      → OnePerKey (fail jwt_decode is_401_error config i key now error writable p)
  unfolding fail
  fail-OnePerKey i key now error writable p e h =
      if_rule (λ (q : Provider). OnePerKey (settle i key q))
        (config.is_camunda_saas && is_401_error error)
        (λ unauthorized.
          settle_alike i key p (fail_unauthorized config key now error writable p)
            (fail_unauthorized-IsAlike config key now error writable p) e h)
        (λ other.
          settle_alike i key p (count_failure config p) (count_failure-IsAlike config p) e h)

  receive-OnePerKey :
      (i key now : ℕ) (token : Token) (writable : Bool) (d : Decoded) (p : Provider)
      → request_at i p.requests ≡ some key
      → OnePerKey p
      → OnePerKey (remember_token jwt_decode is_401_error config i key now token writable d p)
  unfolding remember_token succeed cached settle
  receive-OnePerKey i key now token writable (undecodable error) p e h =
      fail-OnePerKey i key now error writable p e h
  receive-OnePerKey i key now token writable (claims exp) p e h =
      λ k. settle-OnePerKey i key p e h k

  send-IsAlike :
      (key : ℕ) (token : Token) (d : Decoded) (p : Provider)
      → IsAlike p (write_file jwt_decode key token d p)
  unfolding write_file
  send-IsAlike key token (claims exp) p = (refl, refl)
  send-IsAlike key token (undecodable error) p = (refl, refl)

  token_received-OnePerKey :
      (i now : ℕ) (token : Token) (writable : Bool) (p : Provider) (o : Option ℕ)
      → request_at i p.requests ≡ o
      → OnePerKey p
      → OnePerKey (receive jwt_decode is_401_error config i now token writable o p)
  unfolding receive send_to_file_cache
  token_received-OnePerKey i now token writable p none e h = h
  token_received-OnePerKey i now token writable p (some key) e h =
      if_rule
        (λ (q : Provider). OnePerKey (
          remember_token jwt_decode is_401_error config i key now token writable
            (jwt_decode token.access_token) q))
        config.use_file_cache
        (λ on.
          let q = write_file jwt_decode key token (jwt_decode token.access_token) p in
          let same : IsAlike p q = send-IsAlike key token (jwt_decode token.access_token) p in
          receive-OnePerKey i key now token writable (jwt_decode token.access_token) q (rw same.0 e)
            (alike p q same h))
        (λ off. receive-OnePerKey i key now token writable (jwt_decode token.access_token) p e h)

  fail_request-OnePerKey :
      (i now error : ℕ) (writable : Bool) (p : Provider) (o : Option ℕ)
      → request_at i p.requests ≡ o
      → OnePerKey p
      → OnePerKey (fail_request jwt_decode is_401_error config i now error writable o p)
  unfolding fail_request
  fail_request-OnePerKey i now error writable p none e h = h
  fail_request-OnePerKey i now error writable p (some key) e h =
      fail-OnePerKey i key now error writable p e h

  step-OnePerKey :
      (p : Provider) (t : Turn) → OnePerKey p → OnePerKey (step jwt_decode is_401_error config p t)
  unfolding step clear_401_tarpit
  step-OnePerKey p (headers_requested now key) h = get_headers-OnePerKey now key p h
  step-OnePerKey p (token_received i now token writable) h =
      token_received-OnePerKey i now token writable p (request_at i p.requests) refl h
  step-OnePerKey p (token_failed i now error writable) h =
      fail_request-OnePerKey i now error writable p (request_at i p.requests) refl h
  step-OnePerKey p (file_written key) h =
      alike p (write_done key (find key p.writes) p) (write_done-IsAlike key (find key p.writes) p)
        h
  step-OnePerKey p memory_flushed h = λ k. h k
  step-OnePerKey p files_flushed h =
      if_rule OnePerKey config.use_file_cache (λ on k. h k) (λ off. h)
  step-OnePerKey p (tarpit_cleared key) h = λ k. h k

  -- Where it holds at the start, as without requests, it holds whatever the calls, the answers of
  -- the endpoint, the flushes and their order: for each credential and audience there is exactly
  -- one token request under way while `inflightTokenRequests` has its promise, and none otherwise.
  -- So calls that come together share a request.
  pub run-OnePerKey :
      (p : Provider) (ts : List Turn)
      → OnePerKey p
      → OnePerKey (run jwt_decode is_401_error config p ts)
  unfolding run
  run-OnePerKey p [] h = h
  run-OnePerKey p (t ∷ ts) h =
      run-OnePerKey (step jwt_decode is_401_error config p t) ts (step-OnePerKey p t h)
