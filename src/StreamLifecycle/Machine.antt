-- ===== src/StreamLifecycle/Machine.antt =====
-- The state machine of a stream handle: `closed` is terminal and resolves `done` once.
use camunda_8_js_sdk.Base.{◌≡◌, refl, Option, none, some, List, [], ◌∷◌}
use camunda_8_js_sdk.StreamLifecycle.{
  StreamState, open_state, reconnecting, closed, StreamClosedReason, StreamStateMachine,
  create_stream_state_machine, transition,
}

-- A machine that sees these transitions in turn.
unfoldable pub run_transitions : StreamStateMachine → List StreamState → StreamStateMachine
run_transitions m [] = m
run_transitions m (next ∷ rest) = run_transitions (transition m next).0 rest

-- The first reason to close among some transitions.
abbrev pub first_reason : List StreamState → Option StreamClosedReason
first_reason [] = none
first_reason (closed r ∷ rest) = some r
first_reason (open_state ∷ rest) = first_reason rest
first_reason (reconnecting n c ∷ rest) = first_reason rest

-- The state after some transitions: the last one up to the first that closes.
abbrev pub last_state : StreamState → List StreamState → StreamState
last_state s [] = s
last_state s (closed r ∷ rest) = closed r
last_state s (open_state ∷ rest) = last_state open_state rest
last_state s (reconnecting n c ∷ rest) = last_state (reconnecting n c) rest

abbrev resolved : StreamClosedReason → StreamStateMachine
resolved r = record { state = closed r; done = some r }

abbrev live : StreamState → StreamStateMachine
live s = record { state = s; done = none }

resolved_stays :
    (r : StreamClosedReason) (ts : List StreamState) → run_transitions (resolved r) ts ≡ resolved r
unfolding run_transitions transition
resolved_stays r [] = refl
resolved_stays r (t ∷ ts) = resolved_stays r ts

abbrev IsLive : StreamState → Type 0
IsLive (closed r) = ⊥
IsLive open_state = Unit
IsLive (reconnecting n c) = Unit

run_live :
    (s : StreamState) (ts : List StreamState)
    → IsLive s
    → ((run_transitions (live s) ts).state ≡ last_state s ts)
      × ((run_transitions (live s) ts).done ≡ first_reason ts)
unfolding run_transitions transition
run_live (closed r) ts h = absurd h
run_live open_state [] h = (refl, refl)
run_live open_state (closed r ∷ ts) h = rw (resolved_stays r ts) (refl, refl)
run_live open_state (open_state ∷ ts) h = run_live open_state ts tt
run_live open_state (reconnecting n c ∷ ts) h = run_live (reconnecting n c) ts tt
run_live (reconnecting k d) [] h = (refl, refl)
run_live (reconnecting k d) (closed r ∷ ts) h = rw (resolved_stays r ts) (refl, refl)
run_live (reconnecting k d) (open_state ∷ ts) h = run_live open_state ts tt
run_live (reconnecting k d) (reconnecting n c ∷ ts) h = run_live (reconnecting n c) ts tt

-- After any transitions at all, a new machine is in the last state before the first `closed` one
-- if none closes it, and in that first `closed` state otherwise; `done` is resolved with the
-- reason of the first `closed` transition, and with no other, and not before.
pub run_transitions-first :
    (ts : List StreamState)
    → ((run_transitions (create_stream_state_machine open_state) ts).state
        ≡ last_state open_state ts)
      × ((run_transitions (create_stream_state_machine open_state) ts).done ≡ first_reason ts)
unfolding create_stream_state_machine
run_transitions-first ts = run_live open_state ts tt
