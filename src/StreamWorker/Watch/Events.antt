-- ===== src/StreamWorker/Watch/Events.antt =====
-- The events of a raw stream keep the stream watched.
use camunda_8_js_sdk.Base.{ℕ, ◌≡◌, List, [], ◌∷◌, arith, ==_self}
use camunda_8_js_sdk.StreamLifecycle.{ErrorValue, transition}
use camunda_8_js_sdk.StreamLifecycle.Attach.{
  StreamEvent, data_event, error_event, end_event, close_event, dispose,
}
use camunda_8_js_sdk.StreamWorker.Session.{Options, StreamedJob, Attachment, Session}
use camunda_8_js_sdk.StreamWorker.Stream.{stream_event, find_attachment, update_attachment, discard}
use camunda_8_js_sdk.StreamWorker.Watch.{IsWatched}

module _ (o : Options) where
  -- The one attachment of a call that is open.
  module _ (now id : ℕ) (s : Session) (a : Attachment) (e : s.streams ≡ a ∷ [])
      (h : IsWatched o s) where
    data_event-IsWatched :
        (job : StreamedJob) → IsWatched o (stream_event o now id (data_event job) s)
    unfolding stream_event find_attachment update_attachment
    data_event-IsWatched job = ground (arith, ==_self a.id)

    error_event-IsWatched : (x : ErrorValue) → IsWatched o (stream_event o now id (error_event x) s)
    unfolding stream_event find_attachment update_attachment discard transition
    error_event-IsWatched x = ground (arith, ==_self a.id)

    end_event-IsWatched : IsWatched o (stream_event o now id end_event s)
    unfolding stream_event find_attachment update_attachment discard transition
    end_event-IsWatched = ground (arith, ==_self a.id)

    close_event-IsWatched : IsWatched o (stream_event o now id close_event s)
    unfolding stream_event find_attachment update_attachment discard transition
    close_event-IsWatched = ground (arith, ==_self a.id)

  no_stream_lem :
      (now id : ℕ) (ev : StreamEvent StreamedJob) (s : Session)
      → s.streams ≡ []
      → stream_event o now id ev s ≡ s
  unfolding stream_event find_attachment
  no_stream_lem now id ev s e = ground arith

  one_stream :
      (s : Session) (a b : Attachment) (rest : List Attachment)
      → s.streams ≡ a ∷ b ∷ rest
      → IsWatched o s
      → ⊥
  one_stream s a b rest e h = ground arith

  abbrev pub IsRaw : StreamEvent StreamedJob → Type 0
  IsRaw dispose = ⊥
  IsRaw (data_event job) = Unit
  IsRaw (error_event e) = Unit
  IsRaw end_event = Unit
  IsRaw close_event = Unit

  pub stream_event-IsWatched :
      (now id : ℕ) (ev : StreamEvent StreamedJob) (s : Session) (l : List Attachment)
      → IsRaw ev
      → s.streams ≡ l
      → IsWatched o s
      → IsWatched o (stream_event o now id ev s)
  stream_event-IsWatched now id ev s [] r e h = rw (no_stream_lem now id ev s e) h
  stream_event-IsWatched now id ev s (a ∷ b ∷ rest) r e h = absurd (one_stream s a b rest e h)
  stream_event-IsWatched now id (data_event job) s (a ∷ []) r e h =
      data_event-IsWatched now id s a e h job
  stream_event-IsWatched now id (error_event x) s (a ∷ []) r e h =
      error_event-IsWatched now id s a e h x
  stream_event-IsWatched now id end_event s (a ∷ []) r e h = end_event-IsWatched now id s a e h
  stream_event-IsWatched now id close_event s (a ∷ []) r e h = close_event-IsWatched now id s a e h
  stream_event-IsWatched now id dispose s (a ∷ []) r e h = absurd r
