-- ===== src/GrpcConnection/Log.antt =====
-- src/zeebe/lib/StatefulLogInterceptor.ts, and the levels of src/zeebe/lib/ZBLogger.ts.
pub mod Kept
use camunda_8_js_sdk.Base.{ℕ, Bool, true, false, ◌&&◌, not, List, [], ◌∷◌, ◌++◌, if◌then◌else◌, ltb}
use camunda_8_js_sdk.GrpcConnection.{State, error, connected, unknown}

-- The log messages of the client, and those that the interceptor logs itself.
pub data Message : Type 0 where
  message : ℕ → Message
  authenticating established error_connecting : Message

pub data Line : Type 0 where
  info_line error_line : Message → Line

pub data Tag : Type 0 where
  zbclient zbworker grpc_middleware : Tag

pub data Loglevel : Type 0 where
  none_level error_level info_level debug_level : Loglevel

-- `printed` is what the logger was given, the oldest line first; an armed timer is `true`.
pub record Interceptor : Type 0 where
  pub tag : Tag
  pub loglevel : Loglevel
  pub blocking : Bool
  pub state : State
  pub errors : List Message
  pub logs : List Message
  pub initial_connection : Bool
  pub blocking_timer : Bool
  pub printed : List Line

unfoldable pub is_error : State → Bool
is_error error = true
is_error connected = false
is_error unknown = false

unfoldable pub is_zbclient : Tag → Bool
is_zbclient zbclient = true
is_zbclient zbworker = false
is_zbclient grpc_middleware = false

unfoldable pub is_debug : Loglevel → Bool
is_debug debug_level = true
is_debug _ = false

unfoldable pub print_info : Interceptor → Message → Interceptor
print_info s m = elim s.loglevel [
  | none_level ↦ s
  | error_level ↦ s
  | info_level ↦ record s { printed = s.printed ++ (info_line m ∷ []) }
  | debug_level ↦ record s { printed = s.printed ++ (info_line m ∷ []) }
]

unfoldable pub print_error : Interceptor → Message → Interceptor
print_error s m = elim s.loglevel [
  | none_level ↦ s
  | error_level ↦ record s { printed = s.printed ++ (error_line m ∷ []) }
  | info_level ↦ record s { printed = s.printed ++ (error_line m ∷ []) }
  | debug_level ↦ record s { printed = s.printed ++ (error_line m ∷ []) }
]

unfoldable pub log_direct : Interceptor → Message → Interceptor
unfolding print_info
log_direct s m = if is_zbclient s.tag then print_info s m else s

unfoldable pub log_info : Interceptor → Message → Interceptor
unfolding print_info
log_info s m =
    if s.blocking && is_error s.state
    then record s { logs = s.logs ++ (m ∷ []) }
    else print_info s m

unfoldable pub log_error : Interceptor → Message → Interceptor
unfolding print_error
log_error s m =
    if s.blocking && is_error s.state
    then record s { errors = s.errors ++ (m ∷ []) }
    else print_error s m

unfoldable pub log_infos : List Message → Interceptor → Interceptor
unfolding log_info
log_infos [] s = s
log_infos (m ∷ ms) s = log_infos ms (log_info s m)

unfoldable pub log_errors : List Message → Interceptor → Interceptor
unfolding log_error
log_errors [] s = s
log_errors (m ∷ ms) s = log_errors ms (log_error s m)

-- `emptyErrors`, after its test that there are some.
unfoldable pub flush_errors : List Message → Interceptor → Interceptor
unfolding log_errors log_direct
flush_errors [] s = s
flush_errors (m ∷ ms) s = record (log_direct (log_errors (m ∷ ms) s) error_connecting) {
  errors = [];
}

unfoldable pub empty_errors : Interceptor → Interceptor
unfolding flush_errors
empty_errors s = flush_errors s.errors s

unfoldable pub flush_logs : List Message → Interceptor → Interceptor
unfolding log_infos
flush_logs [] s = s
flush_logs (m ∷ ms) s = record (log_infos (m ∷ ms) s) { logs = [] }

unfoldable pub establish : Interceptor → Interceptor
unfolding log_direct
establish s =
    if s.initial_connection
    then s
    else log_direct (record s { initial_connection = true }) established

unfoldable pub empty_logs : Interceptor → Interceptor
unfolding flush_logs establish
empty_logs s = let t = establish s in flush_logs t.logs t

-- The constructor; its logger always has this tag.
unfoldable pub new_interceptor : ℕ → Loglevel → Interceptor
unfolding log_direct
new_interceptor startup_time loglevel =
    let blocking = ltb 0 startup_time && not (is_debug loglevel) in
    let s : Interceptor = record {
      tag = grpc_middleware;
      loglevel = loglevel;
      blocking = blocking;
      state = error;
      errors = [];
      logs = [];
      initial_connection = false;
      blocking_timer = blocking;
      printed = [];
    } in
    if blocking then log_direct s authenticating else s

unfoldable pub connection_error : Interceptor → Interceptor
connection_error s = record s { state = error }

unfoldable pub ready : Interceptor → Interceptor
unfolding empty_logs
ready s =
    if s.blocking
    then empty_logs (record s { state = connected; blocking = false })
    else record s { state = connected }

-- The timer of the constructor.
unfoldable pub end_blocking : Interceptor → Interceptor
unfolding empty_errors empty_logs
end_blocking s =
    let t = record s { blocking = false } in
    if is_error t.state then empty_errors t else empty_logs t

unfoldable pub deadline : Interceptor → Interceptor
unfolding end_blocking
deadline s =
    let t = record s { blocking_timer = false } in
    if s.blocking_timer then (if s.blocking then end_blocking t else t) else s

unfoldable pub close : Interceptor → Interceptor
close s = record s { blocking_timer = false }

pub data Turn : Type 0 where
  logs_info logs_error : Message → Turn
  becomes_ready fails deadline_over closes : Turn

unfoldable pub step : Turn → Interceptor → Interceptor
unfolding log_info log_error ready connection_error deadline close
step (logs_info m) s = log_info s m
step (logs_error m) s = log_error s m
step becomes_ready s = ready s
step fails s = connection_error s
step deadline_over s = deadline s
step closes s = close s

unfoldable pub run : List Turn → Interceptor → Interceptor
unfolding step
run [] s = s
run (t ∷ ts) s = run ts (step t s)
