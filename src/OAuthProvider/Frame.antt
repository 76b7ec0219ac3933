-- ===== src/OAuthProvider/Frame.antt =====
-- What `getHeaders` does to the requests and to the memory of 401 answers: nothing, or one request
-- is begun.
use camunda_8_js_sdk.Base.{
  ℕ, ◌+◌, ◌≡◌, refl, sym, ◌∙◌, false, ◌&&◌, ◌⊎◌, inl, inr, Option, none, some, [], ◌∷◌, ◌++◌, find,
  erase, member, ltb, if_rule,
}
use camunda_8_js_sdk.OAuthProvider.{
  Token, Decoded, claims, undecodable, File, unreadable, holds, Config, Memo, request_begun,
  Provider, Answer,
}
use camunda_8_js_sdk.OAuthProvider.Caches.{
  is_expired, evict_from_memory_cache, evict_from_file_cache, cached, retrieved, read_file,
  retrieve_from_file_cache,
}
use camunda_8_js_sdk.OAuthProvider.Headers.{
  request_delay, is_tarpitted, request_once, unless_memoized, request_token, use_file_token,
  from_file, use_memory_token, get_headers,
}

pub record IsKept (p q : Provider) : Type 0 where
  pub requests : q.requests ≡ p.requests
  pub inflight : q.inflight_token_requests ≡ p.inflight_token_requests
  pub events : q.events ≡ p.events
  pub tarpit : q.tarpit_401 ≡ p.tarpit_401
  pub tarpit_files : q.tarpit_files ≡ p.tarpit_files

pub record IsBegun (key : ℕ) (p q : Provider) : Type 0 where
  pub delay : ℕ
  pub absent : member key p.inflight_token_requests ≡ false
  pub requests : q.requests ≡ p.requests ++ key ∷ []
  pub inflight : q.inflight_token_requests ≡ key ∷ p.inflight_token_requests
  pub events : q.events ≡ request_begun key delay ∷ p.events
  pub tarpit : q.tarpit_401 ≡ p.tarpit_401
  pub tarpit_files : q.tarpit_files ≡ p.tarpit_files

abbrev pub Effect : ℕ → Provider → Provider → Type 0
Effect key p q = IsKept p q ⊎ IsBegun key p q

kept : (p : Provider) → IsKept p p
kept p = record {
  requests = refl;
  inflight = refl;
  events = refl;
  tarpit = refl;
  tarpit_files = refl;
}

IsKept-trans : (p q r : Provider) → IsKept p q → IsKept q r → IsKept p r
IsKept-trans p q r k l = record {
  requests = l.requests ∙ k.requests;
  inflight = l.inflight ∙ k.inflight;
  events = l.events ∙ k.events;
  tarpit = l.tarpit ∙ k.tarpit;
  tarpit_files = l.tarpit_files ∙ k.tarpit_files;
}

IsBegun-trans : (key : ℕ) (p q r : Provider) → IsKept p q → IsBegun key q r → IsBegun key p r
IsBegun-trans key p q r k b = record {
  delay = b.delay;
  absent = rw (sym k.inflight) b.absent;
  requests = rw (sym k.requests) b.requests;
  inflight = rw (sym k.inflight) b.inflight;
  events = rw (sym k.events) b.events;
  tarpit = b.tarpit ∙ k.tarpit;
  tarpit_files = b.tarpit_files ∙ k.tarpit_files;
}

after_kept : (key : ℕ) (p q r : Provider) → IsKept p q → Effect key q r → Effect key p r
after_kept key p q r k (inl l) = inl (IsKept-trans p q r k l)
after_kept key p q r k (inr b) = inr (IsBegun-trans key p q r k b)

module _ (config : Config) (now key : ℕ) where
  request_once-Effect : (p : Provider) → Effect key p (request_once config key p).0
  unfolding request_once
  request_once-Effect p =
      if_rule (λ (q : Provider × Answer). Effect key p q.0) (member key p.inflight_token_requests)
        (λ joined. inl (kept p))
        (λ absent. inr (record {
          delay = request_delay config p;
          absent = absent;
          requests = refl;
          inflight = refl;
          events = refl;
          tarpit = refl;
          tarpit_files = refl;
        }))

  unless_memoized-Effect :
      (memo : Option Memo) (p : Provider) → Effect key p (unless_memoized config now key memo p).0
  unfolding unless_memoized
  unless_memoized-Effect none p = request_once-Effect p
  unless_memoized-Effect (some memo) p =
      let forgotten : Provider = record p { memoized_401 = erase key p.memoized_401 } in
      let same : IsKept p forgotten = record {
        requests = refl;
        inflight = refl;
        events = refl;
        tarpit = refl;
        tarpit_files = refl;
      } in
      if_rule (λ (q : Provider × Answer). Effect key p q.0)
        (ltb now (memo.timestamp + config.saas_401_cooldown_ms)) (λ recent. inl (kept p))
        (λ late.
          after_kept key p forgotten (request_once config key forgotten).0 same
            (request_once-Effect forgotten))

  -- The same, and a key in the tarpit gets no request.
  abbrev pub Allowed : Provider → Provider → Type 0
  Allowed p q =
      IsKept p q ⊎ (IsBegun key p q × ((config.is_camunda_saas && is_tarpitted key p) ≡ false))

  request_token-Allowed : (p : Provider) → Allowed p (request_token config now key p).0
  unfolding request_token
  request_token-Allowed p =
      if_rule (λ (q : Provider × Answer). Allowed p q.0)
        (config.is_camunda_saas && is_tarpitted key p) (λ closed. inl (kept p))
        (λ allowed. elim (unless_memoized-Effect (find key p.memoized_401) p) [
          | inl same ↦ inl same
          | inr begun ↦ inr (begun, allowed)
        ])

  after_kept-Allowed : (p q r : Provider) → IsKept p q → Allowed q r → Allowed p r
  unfolding is_tarpitted
  after_kept-Allowed p q r k (inl l) = inl (IsKept-trans p q r k l)
  after_kept-Allowed p q r k (inr (b, allowed)) =
      inr (IsBegun-trans key p q r k b, rw (sym k.tarpit, sym k.tarpit_files) allowed)

module _ (jwt_decode : ℕ → Decoded) (config : Config) (now key : ℕ) where
  retrieved-IsKept :
      (token : Token) (d : Decoded) (p : Provider) → IsKept p (retrieved jwt_decode key token d p).0
  unfolding retrieved cached
  retrieved-IsKept token (claims exp) p = record {
    requests = refl;
    inflight = refl;
    events = refl;
    tarpit = refl;
    tarpit_files = refl;
  }
  retrieved-IsKept token (undecodable error) p = kept p

  read_file-IsKept :
      (o : Option File) (p : Provider) → IsKept p (read_file jwt_decode config now key o p).0
  unfolding read_file
  read_file-IsKept none p = kept p
  read_file-IsKept (some unreadable) p = kept p
  read_file-IsKept (some (holds token)) p =
      if_rule (λ (q : Provider × Option Token). IsKept p q.0) (is_expired config now token)
        (λ old. kept p) (λ fresh. retrieved-IsKept token (jwt_decode token.access_token) p)

  evict_from_file_cache-IsKept : (p : Provider) → IsKept p (evict_from_file_cache config key p)
  unfolding evict_from_file_cache
  evict_from_file_cache-IsKept p =
      if_rule (IsKept p) config.use_file_cache
        (λ on. record {
          requests = refl;
          inflight = refl;
          events = refl;
          tarpit = refl;
          tarpit_files = refl;
        })
        (λ off. kept p)

  use_file_token-Allowed :
      (q : Provider × Option Token)
      → Allowed config now key q.0 (use_file_token jwt_decode config now key q).0
  unfolding use_file_token
  use_file_token-Allowed (p, none) = request_token-Allowed config now key p
  use_file_token-Allowed (p, some token) =
      if_rule (λ (q : Provider × Answer). Allowed config now key p q.0)
        (is_expired config now token)
        (λ old.
          after_kept-Allowed config now key p (evict_from_file_cache config key p)
            (request_token config now key (evict_from_file_cache config key p)).0
            (evict_from_file_cache-IsKept p)
            (request_token-Allowed config now key (evict_from_file_cache config key p)))
        (λ fresh. inl (kept p))

  from_file-Allowed :
      (p : Provider) → Allowed config now key p (from_file jwt_decode config now key p).0
  unfolding from_file retrieve_from_file_cache
  from_file-Allowed p =
      let read = read_file jwt_decode config now key (find key p.token_files) p in
      if_rule (λ (q : Provider × Answer). Allowed config now key p q.0) config.use_file_cache
        (λ on.
          after_kept-Allowed config now key p read.0
            (use_file_token jwt_decode config now key read).0
            (read_file-IsKept (find key p.token_files) p) (use_file_token-Allowed read))
        (λ off. request_token-Allowed config now key p)

  use_memory_token-Allowed :
      (o : Option Token) (p : Provider)
      → Allowed config now key p (use_memory_token jwt_decode config now key o p).0
  unfolding use_memory_token evict_from_memory_cache
  use_memory_token-Allowed none p = from_file-Allowed p
  use_memory_token-Allowed (some token) p =
      let evicted = evict_from_memory_cache key p in
      let same : IsKept p evicted = record {
        requests = refl;
        inflight = refl;
        events = refl;
        tarpit = refl;
        tarpit_files = refl;
      } in
      if_rule (λ (q : Provider × Answer). Allowed config now key p q.0)
        (is_expired config now token)
        (λ old.
          after_kept-Allowed config now key p evicted
            (from_file jwt_decode config now key evicted).0 same (from_file-Allowed evicted))
        (λ fresh. inl (kept p))

  -- `getHeaders` begins at most one request, and none for a key in the tarpit.
  pub get_headers-Allowed :
      (p : Provider) → Allowed config now key p (get_headers jwt_decode config now key p).0
  unfolding get_headers
  get_headers-Allowed p = use_memory_token-Allowed (find key p.token_cache) p
