-- ===== src/GrpcConnection/Log/Kept.antt =====
-- What the interceptor prints and what it keeps back.
use camunda_8_js_sdk.Base.{
  ℕ, ◌≡◌, ◌<◌, ltb, refl, subst, sym, ap, ◌∙◌, Bool, true, false, List, [], ◌∷◌, ◌++◌, map, arith,
  Bool-cases, inl, inr,
}
use camunda_8_js_sdk.GrpcConnection.{State, error, connected}
use camunda_8_js_sdk.GrpcConnection.Log.{
  Message, Line, info_line, error_line, grpc_middleware, info_level, Interceptor, is_error,
  is_zbclient, is_debug, print_info, print_error, log_direct, log_info, log_error, log_infos,
  log_errors, flush_errors, empty_errors, flush_logs, establish, empty_logs, new_interceptor,
  connection_error, ready, end_blocking, deadline, close, Turn, logs_info, logs_error,
  becomes_ready, fails, deadline_over, closes, step, run,
}

-- The messages that the turns log at each level, and the lines of both.
abbrev pub infos : List Turn → List Message
infos [] = []
infos (logs_info m ∷ ts) = m ∷ infos ts
infos (_ ∷ ts) = infos ts

abbrev pub errors_of : List Turn → List Message
errors_of [] = []
errors_of (logs_error m ∷ ts) = m ∷ errors_of ts
errors_of (_ ∷ ts) = errors_of ts

abbrev pub lines : List Turn → List Line
lines [] = []
lines (logs_info m ∷ ts) = info_line m ∷ lines ts
lines (logs_error m ∷ ts) = error_line m ∷ lines ts
lines (_ ∷ ts) = lines ts

-- No turn that ends the startup.
abbrev pub IsStartup : List Turn → Type 0
IsStartup [] = Unit
IsStartup (logs_info m ∷ ts) = IsStartup ts
IsStartup (logs_error m ∷ ts) = IsStartup ts
IsStartup (fails ∷ ts) = IsStartup ts
IsStartup (_ ∷ ts) = ⊥

-- A client that waits for its connection, with these messages kept back.
abbrev waiting : List Message → List Message → Interceptor
waiting is es = record {
  tag = grpc_middleware;
  loglevel = info_level;
  blocking = true;
  state = error;
  errors = es;
  logs = is;
  initial_connection = false;
  blocking_timer = true;
  printed = [];
}

append_assoc : {A : Type 0} (xs ys zs : List A) → (xs ++ ys) ++ zs ≡ xs ++ (ys ++ zs)
append_assoc [] ys zs = refl
append_assoc (x ∷ xs) ys zs = rw (append_assoc xs ys zs) refl

append_none : {A : Type 0} (xs : List A) → xs ++ [] ≡ xs
append_none [] = refl
append_none (x ∷ xs) = rw (append_none xs) refl

run-waiting :
    (ts : List Turn) (is es : List Message)
    → IsStartup ts
    → run ts (waiting is es) ≡ waiting (is ++ infos ts) (es ++ errors_of ts)
unfolding run step log_info log_error is_error connection_error
run-waiting [] is es h = rw (append_none is, append_none es) refl
run-waiting (logs_info m ∷ ts) is es h =
    run-waiting ts (is ++ (m ∷ [])) es h ∙ rw (append_assoc is (m ∷ []) (infos ts)) refl
run-waiting (logs_error m ∷ ts) is es h =
    run-waiting ts is (es ++ (m ∷ [])) h ∙ rw (append_assoc es (m ∷ []) (errors_of ts)) refl
run-waiting (fails ∷ ts) is es h = run-waiting ts is es h
run-waiting (becomes_ready ∷ ts) is es h = absurd h
run-waiting (deadline_over ∷ ts) is es h = absurd h
run-waiting (closes ∷ ts) is es h = absurd h

-- After the startup each line is printed at once, and the buffers stay.
abbrev IsOpen : Interceptor → Type 0
IsOpen s = (s.tag ≡ grpc_middleware) × (s.loglevel ≡ info_level) × (s.blocking ≡ false)

abbrev Prints : List Line → Interceptor → Interceptor → Type 0
Prints new s t = (t.printed ≡ s.printed ++ new) × (t.logs ≡ s.logs) × (t.errors ≡ s.errors)

step-Prints :
    (t : Turn) (s : Interceptor)
    → IsOpen s
    → IsOpen (step t s) × Prints (lines (t ∷ [])) s (step t s)
unfolding step log_info log_error print_info print_error ready connection_error deadline close
step-Prints (logs_info m) s (a, b, c) = rw (c, b) ((a, refl, refl), (refl, refl, refl))
step-Prints (logs_error m) s (a, b, c) = rw (c, b) ((a, refl, refl), (refl, refl, refl))
step-Prints becomes_ready s (a, b, c) =
    rw c ((a, b, refl), (sym (append_none s.printed), refl, refl))
step-Prints fails s h = (h, (sym (append_none s.printed), refl, refl))
step-Prints deadline_over s (a, b, c) = elim (Bool-cases s.blocking_timer) [
  | inl armed ↦ rw (armed, c) ((a, b, refl), (sym (append_none s.printed), refl, refl))
  | inr off ↦ rw off ((a, b, c), (sym (append_none s.printed), refl, refl))
]
step-Prints closes s h = (h, (sym (append_none s.printed), refl, refl))

lines_cons : (t : Turn) (ts : List Turn) → lines (t ∷ ts) ≡ lines (t ∷ []) ++ lines ts
lines_cons (logs_info m) ts = refl
lines_cons (logs_error m) ts = refl
lines_cons becomes_ready ts = refl
lines_cons fails ts = refl
lines_cons deadline_over ts = refl
lines_cons closes ts = refl

run-Prints : (ts : List Turn) (s : Interceptor) → IsOpen s → Prints (lines ts) s (run ts s)
unfolding run
run-Prints [] s h = (sym (append_none s.printed), refl, refl)
run-Prints (t ∷ ts) s h =
    let (started, (p, q, r)) = step-Prints t s h in
    let (p', q', r') = run-Prints ts (step t s) started in
    (
      p'
          ∙ ap (λ xs. xs ++ lines ts) p
          ∙ append_assoc s.printed (lines (t ∷ [])) (lines ts)
          ∙ ap (λ xs. s.printed ++ xs) (sym (lines_cons t ts)),
      q' ∙ q,
      r' ∙ r,
    )

run-append : (ts us : List Turn) (s : Interceptor) → run (ts ++ us) s ≡ run us (run ts s)
unfolding run
run-append [] us s = refl
run-append (t ∷ ts) us s = run-append ts us (step t s)

-- The state from which the rest of a run prints.
abbrev shown : List Line → List Message → List Message → State → Bool → Bool → Interceptor
shown printed is es state initial_connection blocking_timer = record {
  tag = grpc_middleware;
  loglevel = info_level;
  blocking = false;
  state = state;
  errors = es;
  logs = is;
  initial_connection = initial_connection;
  blocking_timer = blocking_timer;
  printed = printed;
}

log_infos-shown :
    (ms : List Message) (printed : List Line) (is es : List Message) (st : State) (i b : Bool)
    → log_infos ms (shown printed is es st i b) ≡ shown (printed ++ map info_line ms) is es st i b
unfolding log_infos log_info print_info
log_infos-shown [] printed is es st i b = rw (append_none printed) refl
log_infos-shown (m ∷ ms) printed is es st i b =
    log_infos-shown ms (printed ++ (info_line m ∷ [])) is es st i b
    ∙ rw (append_assoc printed (info_line m ∷ []) (map info_line ms)) refl

log_errors-shown :
    (ms : List Message) (printed : List Line) (is es : List Message) (st : State) (i b : Bool)
    → log_errors ms (shown printed is es st i b) ≡ shown (printed ++ map error_line ms) is es st i b
unfolding log_errors log_error print_error
log_errors-shown [] printed is es st i b = rw (append_none printed) refl
log_errors-shown (m ∷ ms) printed is es st i b =
    log_errors-shown ms (printed ++ (error_line m ∷ [])) is es st i b
    ∙ rw (append_assoc printed (error_line m ∷ []) (map error_line ms)) refl

ready-waiting :
    (is es : List Message)
    → ready (waiting is es) ≡ shown (map info_line is) [] es connected true true
unfolding ready empty_logs establish flush_logs log_direct is_zbclient
ready-waiting [] es = refl
ready-waiting (m ∷ is) es = rw (log_infos-shown (m ∷ is) [] (m ∷ is) es connected true true) refl

deadline-waiting :
    (is es : List Message)
    → deadline (waiting is es) ≡ shown (map error_line es) is [] error false false
unfolding deadline end_blocking empty_errors flush_errors log_direct is_zbclient is_error
deadline-waiting is [] = refl
deadline-waiting is (m ∷ es) = rw (log_errors-shown (m ∷ es) [] is (m ∷ es) error false false) refl

if_positive : (n : ℕ) → 0 < n → ltb 0 n ≡ true
if_positive n h = ground arith

new_interceptor-waiting :
    (startup_time : ℕ) → 0 < startup_time → new_interceptor startup_time info_level ≡ waiting [] []
unfolding new_interceptor log_direct is_zbclient is_debug
new_interceptor-waiting startup_time positive = rw (if_positive startup_time positive) refl

-- The turn that ends the startup, and what it prints and keeps.
run-after :
    (ts us : List Turn) (t : Turn) (startup_time : ℕ) (s : Interceptor)
    → 0 < startup_time
    → IsStartup ts
    → step t (waiting (infos ts) (errors_of ts)) ≡ s
    → IsOpen s
    → Prints (lines us) s (run (ts ++ (t ∷ us)) (new_interceptor startup_time info_level))
unfolding run
run-after ts us t startup_time s positive startup e h =
    subst (Prints (lines us) s)
      (sym (
        run-append ts (t ∷ us) (new_interceptor startup_time info_level)
        ∙ ap (λ r. run us (step t (run ts r))) (new_interceptor-waiting startup_time positive)
        ∙ ap (λ r. run us (step t r)) (run-waiting ts [] [] startup)
        ∙ ap (run us) e))
      (run-Prints us s h)

-- What was printed and what is kept back in the end.
abbrev pub Ends : List Line → List Message → List Message → Interceptor → Type 0
Ends printed logs errors s = (s.printed ≡ printed) × (s.logs ≡ logs) × (s.errors ≡ errors)

run_ready-Ends :
    (ts us : List Turn) (startup_time : ℕ)
    → 0 < startup_time
    → IsStartup ts
    → Ends
        (map info_line (infos ts) ++ lines us)
        []
        (errors_of ts)
        (run (ts ++ (becomes_ready ∷ us)) (new_interceptor startup_time info_level))
unfolding step
run_ready-Ends ts us startup_time positive startup =
    run-after ts us becomes_ready startup_time
      (shown (map info_line (infos ts)) [] (errors_of ts) connected true true) positive startup
      (ready-waiting (infos ts) (errors_of ts)) (refl, refl, refl)

run_deadline-Ends :
    (ts us : List Turn) (startup_time : ℕ)
    → 0 < startup_time
    → IsStartup ts
    → Ends
        (map error_line (errors_of ts) ++ lines us)
        (infos ts)
        []
        (run (ts ++ (deadline_over ∷ us)) (new_interceptor startup_time info_level))
unfolding step
run_deadline-Ends ts us startup_time positive startup =
    run-after ts us deadline_over startup_time
      (shown (map error_line (errors_of ts)) (infos ts) [] error false false) positive startup
      (deadline-waiting (infos ts) (errors_of ts)) (refl, refl, refl)

-- At the information level, with a startup time and messages that are logged before the startup is over. When the
-- connection becomes ready first, what was logged as information is printed in its order and then each later line,
-- but the errors are kept back for good. When the deadline passes first, the errors are printed in their order and
-- then each later line, but the information is kept back for good, also when the connection becomes ready later.
pub run-Ends :
    (ts us : List Turn) (startup_time : ℕ) (positive : 0 < startup_time) (startup : IsStartup ts)
    → Ends
        (map info_line (infos ts) ++ lines us)
        []
        (errors_of ts)
        (run (ts ++ (becomes_ready ∷ us)) (new_interceptor startup_time info_level))
      × Ends
          (map error_line (errors_of ts) ++ lines us)
          (infos ts)
          []
          (run (ts ++ (deadline_over ∷ us)) (new_interceptor startup_time info_level))
run-Ends ts us startup_time positive startup = (
  run_ready-Ends ts us startup_time positive startup,
  run_deadline-Ends ts us startup_time positive startup,
)
