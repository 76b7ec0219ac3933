-- ===== src/StreamWorker/Watch/Openings.antt =====
-- Requests for a stream, their answers, reconnect timers and `close` keep the stream watched.
use camunda_8_js_sdk.Base.{
  ℕ, ◌≡◌, ◌≢◌, refl, true, false, none, some, List, [], ◌∷◌, arith, length-append, if_rule,
  Bool-cases, inl, inr,
}
use camunda_8_js_sdk.StreamLifecycle.{ErrorValue, Opened, no_result, failed, stream, transition}
use camunda_8_js_sdk.StreamWorker.Session.{
  Options, Session, is_closed, Opening, jittering, first_request, reopen_request, initial, reopened,
  returned, rejected,
}
use camunda_8_js_sdk.StreamWorker.Recovery.{handle_open_failure}
use camunda_8_js_sdk.StreamWorker.Stream.{open_stream, discard}
use camunda_8_js_sdk.StreamWorker.Step.{
  first_opened, reconnected, stream_answered, opening_turn, close_handle, close_worker,
  reconnect_fired, jitter_turn,
}
use camunda_8_js_sdk.StreamWorker.Watch.{says_closed, IsWatched}
use camunda_8_js_sdk.StreamWorker.Watch.Frames.{
  SameChannels-IsWatched, backfill-SameChannels, return_handle-SameChannels, result-SameChannels,
}

module _ (o : Options) where
  pub close_handle-IsWatched : (s : Session) → IsWatched o s → IsWatched o (close_handle s)
  unfolding close_handle transition discard
  close_handle-IsWatched s h = ground arith

  pub close_worker-IsWatched : (s : Session) → IsWatched o s → IsWatched o (close_worker s)
  unfolding close_worker transition
  close_worker-IsWatched s h = ground arith

  pub reconnect_fired-IsWatched :
      (s : Session) → IsWatched o s → IsWatched o (reconnect_fired s s.reconnect_timer)
  unfolding reconnect_fired
  reconnect_fired-IsWatched s h = ground (arith, length-append s.opening (reopen_request ∷ []))

  pub jitter_turn-IsWatched :
      (s : Session) (l : List Opening)
      → s.opening ≡ l
      → IsWatched o s
      → IsWatched o (jitter_turn s l)
  unfolding jitter_turn
  jitter_turn-IsWatched s (jittering ∷ []) e h = ground arith
  jitter_turn-IsWatched s (jittering ∷ x ∷ rest) e h = absurd (ground arith)
  jitter_turn-IsWatched s _ e h = h

  -- A session whose one request for a stream has just been answered.
  pub record IsAnswered (s : Session) : Type 0 where
    pub no_opening : s.opening ≡ []
    pub no_stream : s.current_stream ≡ none
    pub no_timer : s.reconnect_timer ≡ none
    pub live : is_closed s ≡ false → (s.streams ≡ []) × (says_closed s.machine.state ≡ false)
    pub dead :
        is_closed s ≡ true
        → (s.streams ≡ []) × (s.sidecar_timer ≡ false) × (says_closed s.machine.state ≡ true)

  pub answered :
      (s : Session) (x : Opening) (rest : List Opening)
      → s.opening ≡ x ∷ rest
      → IsWatched o s
      → IsAnswered (record s { opening = rest })
  answered s x rest e h = ground arith

  pub failed_open-IsWatched :
      (e : ErrorValue) (s : Session)
      → is_closed s ≡ false
      → IsAnswered s
      → IsWatched o (handle_open_failure o e s)
  unfolding handle_open_failure transition
  failed_open-IsWatched e s c h = ground arith

  pub stream_open-IsWatched :
      (now : ℕ) (s : Session)
      → is_closed s ≡ false
      → IsAnswered s
      → IsWatched o (open_stream stream now s).0
  unfolding open_stream transition
  stream_open-IsWatched now s c h = ground arith

  pub closed-IsWatched : (s : Session) → is_closed s ≡ true → IsAnswered s → IsWatched o s
  closed-IsWatched s c h = ground arith

  pub cancelled-IsWatched :
      (now : ℕ) (s : Session)
      → is_closed s ≡ true
      → IsAnswered s
      → IsWatched o (open_stream stream now s).0
  unfolding open_stream
  cancelled-IsWatched now s c h = ground arith

  pub opened-IsWatched :
      (now : ℕ) (s : Session) → IsAnswered s → IsWatched o (open_stream stream now s).0
  opened-IsWatched now s h = elim (Bool-cases (is_closed s)) [
    | inl c ↦ cancelled-IsWatched now s c h
    | inr c ↦ stream_open-IsWatched now s c h
  ]

  pub first_success : (s : Session) → IsWatched o s → IsWatched o (first_opened o (s, none))
  unfolding first_opened
  first_success s h =
      if_rule (IsWatched o) (is_closed s)
        (λ c. SameChannels-IsWatched o s _ (result-SameChannels o returned s) h)
        (λ c. SameChannels-IsWatched o s _ (backfill-SameChannels o initial s) h)

  pub reopen_success : (s : Session) → IsWatched o s → IsWatched o (reconnected o (s, none))
  unfolding reconnected
  reopen_success s h =
      if_rule (IsWatched o) (is_closed s) (λ c. h)
        (λ c. SameChannels-IsWatched o s _ (backfill-SameChannels o reopened s) h)

  pub first_failure :
      (e : ErrorValue) (s : Session) → IsAnswered s → IsWatched o (first_opened o (s, some e))
  unfolding first_opened
  first_failure e s h =
      if_rule (IsWatched o) (is_closed s)
        (λ c.
          SameChannels-IsWatched o s _ (result-SameChannels o returned s) (closed-IsWatched s c h))
        (λ c.
          let down = failed_open-IsWatched e s c h in
          if_rule (IsWatched o) o.reconnect_enabled
            (λ on. SameChannels-IsWatched o _ _ (return_handle-SameChannels o _) down)
            (λ off. SameChannels-IsWatched o _ _ (result-SameChannels o (rejected e) _) down))

  pub reopen_failure :
      (e : ErrorValue) (s : Session) → IsAnswered s → IsWatched o (reconnected o (s, some e))
  unfolding reconnected
  reopen_failure e s h =
      if_rule (IsWatched o) (is_closed s) (λ c. closed-IsWatched s c h)
        (λ c. failed_open-IsWatched e s c h)

  pub stream_answered-IsWatched :
      (waiting : Opening) (opened : Opened) (now : ℕ) (s : Session)
      → waiting ≢ jittering
      → IsAnswered s
      → IsWatched o (stream_answered o waiting opened now s)
  unfolding stream_answered open_stream
  stream_answered-IsWatched first_request no_result now s d h = first_failure _ s h
  stream_answered-IsWatched first_request (failed e) now s d h = first_failure e s h
  stream_answered-IsWatched first_request stream now s d h =
      first_success _ (opened-IsWatched now s h)
  stream_answered-IsWatched reopen_request no_result now s d h = reopen_failure _ s h
  stream_answered-IsWatched reopen_request (failed e) now s d h = reopen_failure e s h
  stream_answered-IsWatched reopen_request stream now s d h =
      reopen_success _ (opened-IsWatched now s h)
  stream_answered-IsWatched jittering opened now s d h = absurd (d refl)

  pub opening_turn-IsWatched :
      (opened : Opened) (now : ℕ) (s : Session) (l : List Opening)
      → s.opening ≡ l
      → IsWatched o s
      → IsWatched o (opening_turn o opened now s l)
  unfolding opening_turn
  opening_turn-IsWatched opened now s [] e h = h
  opening_turn-IsWatched opened now s (jittering ∷ rest) e h = h
  opening_turn-IsWatched opened now s (first_request ∷ rest) e h =
      stream_answered-IsWatched first_request opened now _ (λ q. cc)
        (answered s first_request rest e h)
  opening_turn-IsWatched opened now s (reopen_request ∷ rest) e h =
      stream_answered-IsWatched reopen_request opened now _ (λ q. cc)
        (answered s reopen_request rest e h)
