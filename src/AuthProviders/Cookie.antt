-- ===== src/AuthProviders/Cookie.antt =====
-- src/oauth/lib/CookieAuthProvider.ts as turns: calls, the answers to logins, and `setToken`.
pub mod Given
use camunda_8_js_sdk.Base.{
  ℕ, ◌==◌, Bool, true, false, not, Option, none, some, List, [], ◌∷◌, if◌then◌else◌, Text,
}

-- A caller is numbered, with the cookie that it has to do with.
abbrev pub Caller : Type 0
Caller = ℕ

-- `requests` wait for the answer to their login; `resuming` have it, and the continuation of their `await` is due.
-- `answers` are the headers that were given to callers, and `responses` the cookies that logins gave, newest first.
pub record CookieAuth : Type 0 where
  pub cookie : Option Text
  pub requests : List Caller
  pub resuming : List (Caller × Option Text)
  pub answers : List (Caller × Option Text)
  pub responses : List (Caller × Option Text)

-- `split(';')[0]` of the `set-cookie` header.
unfoldable pub first_part : Text → Text
first_part [] = []
first_part (c ∷ s) = let rest = first_part s in if c == 59 then [] else c ∷ rest

unfoldable pub cookie_of : Option Text → Option Text
unfolding first_part
cookie_of none = none
cookie_of (some header) = some (first_part header)

unfoldable pub waits : Caller → List Caller → Bool
waits c [] = false
waits c (d ∷ ds) = let rest = waits c ds in if d == c then true else rest

unfoldable pub without_caller : Caller → List Caller → List Caller
without_caller c [] = []
without_caller c (d ∷ ds) = let rest = without_caller c ds in if d == c then rest else d ∷ rest

unfoldable pub resumption : Caller → List (Caller × Option Text) → Option (Option Text)
resumption c [] = none
resumption c ((d, t) ∷ ds) = let rest = resumption c ds in if d == c then some t else rest

unfoldable pub without_resumption :
    Caller → List (Caller × Option Text) → List (Caller × Option Text)
without_resumption c [] = []
without_resumption c ((d, t) ∷ ds) =
    let rest = without_resumption c ds in if d == c then rest else (d, t) ∷ rest

unfoldable pub new_cookie_auth : CookieAuth
new_cookie_auth = record {
  cookie = none;
  requests = [];
  resuming = [];
  answers = [];
  responses = [];
}

-- `getHeaders`, up to its first `await`; an empty cookie counts as none.
unfoldable pub start_headers : Caller → Option Text → CookieAuth → CookieAuth
start_headers c (some (x ∷ t)) p = record p { answers = (c, some (x ∷ t)) ∷ p.answers }
start_headers c _ p = record p { requests = c ∷ p.requests }

unfoldable pub get_headers : Caller → CookieAuth → CookieAuth
unfolding start_headers
get_headers c p = start_headers c p.cookie p

-- The `then` of a login.
unfoldable pub login_answered : Caller → Option Text → CookieAuth → CookieAuth
unfolding cookie_of waits without_caller
login_answered c header p =
    if waits c p.requests
    then record p {
      cookie = cookie_of header;
      requests = without_caller c p.requests;
      resuming = (c, cookie_of header) ∷ p.resuming;
      responses = (c, cookie_of header) ∷ p.responses;
    }
    else p

unfoldable pub login_failed : Caller → CookieAuth → CookieAuth
unfolding without_caller
login_failed c p = record p { requests = without_caller c p.requests }

-- The assignment after the `await`, and the return.
unfoldable pub finish_headers : Caller → Option (Option Text) → CookieAuth → CookieAuth
unfolding without_resumption
finish_headers c none p = p
finish_headers c (some t) p = record p {
  cookie = t;
  resuming = without_resumption c p.resuming;
  answers = (c, t) ∷ p.answers;
}

unfoldable pub resume : Caller → CookieAuth → CookieAuth
unfolding finish_headers resumption
resume c p = finish_headers c (resumption c p.resuming) p

unfoldable pub set_token : CookieAuth → CookieAuth
set_token p = record p { cookie = none }

pub data Turn : Type 0 where
  calls resumes fails : Caller → Turn
  answered : Caller → Option Text → Turn
  resets : Turn

unfoldable pub step : Turn → CookieAuth → CookieAuth
unfolding get_headers resume login_failed login_answered set_token
step (calls c) p = get_headers c p
step (resumes c) p = resume c p
step (fails c) p = login_failed c p
step (answered c header) p = login_answered c header p
step resets p = set_token p

unfoldable pub run : List Turn → CookieAuth → CookieAuth
unfolding step
run [] p = p
run (t ∷ ts) p = run ts (step t p)
