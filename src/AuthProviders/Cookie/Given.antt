-- ===== src/AuthProviders/Cookie/Given.antt =====
-- Where the cookies that callers are given come from.
use camunda_8_js_sdk.Base.{
  ◌==◌, ◌≡◌, ◌⊎◌, inl, inr, refl, subst, Option, none, some, List, [], ◌∷◌, Text, if_rule, ==_iff,
}
use camunda_8_js_sdk.AuthProviders.Cookie.{
  Caller, CookieAuth, cookie_of, waits, resumption, without_resumption, new_cookie_auth,
  start_headers, get_headers, login_answered, login_failed, finish_headers, resume, set_token, Turn,
  calls, resumes, fails, answered, resets, step, run,
}

-- Some login gave this cookie; and the login of this caller did.
abbrev pub Given : Option Text → List (Caller × Option Text) → Type 0
Given t [] = ⊥
Given t ((d, u) ∷ rs) = (t ≡ u) ⊎ Given t rs

abbrev pub OwnGiven : Caller → Option Text → List (Caller × Option Text) → Type 0
OwnGiven c t [] = ⊥
OwnGiven c t ((d, u) ∷ rs) = ((d ≡ c) × (t ≡ u)) ⊎ OwnGiven c t rs

-- A cookie that is there is one that a login gave; no cookie comes only of the caller's own login.
abbrev pub Answered : List (Caller × Option Text) → Caller → Option Text → Type 0
Answered rs c (some t) = Given (some t) rs
Answered rs c none = OwnGiven c none rs

abbrev pub AllAnswered : List (Caller × Option Text) → List (Caller × Option Text) → Type 0
AllAnswered rs [] = Unit
AllAnswered rs ((c, t) ∷ gs) = Answered rs c t × AllAnswered rs gs

abbrev AllOwn : List (Caller × Option Text) → List (Caller × Option Text) → Type 0
AllOwn rs [] = Unit
AllOwn rs ((c, t) ∷ gs) = OwnGiven c t rs × AllOwn rs gs

abbrev Stored : Option Text → List (Caller × Option Text) → Type 0
Stored none rs = Unit
Stored (some t) rs = Given (some t) rs

abbrev IsGiven : CookieAuth → Type 0
IsGiven p =
    Stored p.cookie p.responses × AllOwn p.responses p.resuming × AllAnswered p.responses p.answers

Given-OwnGiven :
    (c : Caller) (t : Option Text) (rs : List (Caller × Option Text)) → OwnGiven c t rs → Given t rs
Given-OwnGiven c t [] h = absurd h
Given-OwnGiven c t ((d, u) ∷ rs) (inl (a, b)) = inl b
Given-OwnGiven c t ((d, u) ∷ rs) (inr h) = inr (Given-OwnGiven c t rs h)

OwnGiven-Answered :
    (c : Caller) (t : Option Text) (rs : List (Caller × Option Text))
    → OwnGiven c t rs
    → Answered rs c t
OwnGiven-Answered c none rs h = h
OwnGiven-Answered c (some t) rs h = Given-OwnGiven c (some t) rs h

OwnGiven-Stored :
    (c : Caller) (t : Option Text) (rs : List (Caller × Option Text))
    → OwnGiven c t rs
    → Stored t rs
OwnGiven-Stored c none rs h = tt
OwnGiven-Stored c (some t) rs h = Given-OwnGiven c (some t) rs h

-- One more response.
Answered-more :
    (c d : Caller) (t u : Option Text) (rs : List (Caller × Option Text))
    → Answered rs c t
    → Answered ((d, u) ∷ rs) c t
Answered-more c d none u rs h = inr h
Answered-more c d (some t) u rs h = inr h

AllAnswered-more :
    (d : Caller) (u : Option Text) (rs gs : List (Caller × Option Text))
    → AllAnswered rs gs
    → AllAnswered ((d, u) ∷ rs) gs
AllAnswered-more d u rs [] h = tt
AllAnswered-more d u rs ((c, t) ∷ gs) (h, hs) =
    (Answered-more c d t u rs h, AllAnswered-more d u rs gs hs)

AllOwn-more :
    (d : Caller) (u : Option Text) (rs gs : List (Caller × Option Text))
    → AllOwn rs gs
    → AllOwn ((d, u) ∷ rs) gs
AllOwn-more d u rs [] h = tt
AllOwn-more d u rs ((c, t) ∷ gs) (h, hs) = (inr h, AllOwn-more d u rs gs hs)

-- The callers that are due.
without_resumption-AllOwn :
    (c : Caller) (rs gs : List (Caller × Option Text))
    → AllOwn rs gs
    → AllOwn rs (without_resumption c gs)
unfolding without_resumption
without_resumption-AllOwn c rs [] h = tt
without_resumption-AllOwn c rs ((d, t) ∷ gs) (h, hs) =
    if_rule (λ (xs : List (Caller × Option Text)). AllOwn rs xs) (d == c)
      (λ e. without_resumption-AllOwn c rs gs hs) (λ e. (h, without_resumption-AllOwn c rs gs hs))

-- What is resumed is the caller's own.
abbrev OwnResumption : Caller → Option (Option Text) → List (Caller × Option Text) → Type 0
OwnResumption c none rs = Unit
OwnResumption c (some t) rs = OwnGiven c t rs

resumption-OwnResumption :
    (c : Caller) (rs gs : List (Caller × Option Text))
    → AllOwn rs gs
    → OwnResumption c (resumption c gs) rs
unfolding resumption
resumption-OwnResumption c rs [] h = tt
resumption-OwnResumption c rs ((d, t) ∷ gs) (h, hs) =
    if_rule (λ (o : Option (Option Text)). OwnResumption c o rs) (d == c)
      (λ e. subst (λ x. OwnGiven x t rs) ((==_iff d c).0 e) h)
      (λ e. resumption-OwnResumption c rs gs hs)

start_headers-IsGiven :
    (c : Caller) (o : Option Text) (p : CookieAuth)
    → p.cookie ≡ o
    → IsGiven p
    → IsGiven (start_headers c o p)
unfolding start_headers
start_headers-IsGiven c none p e h = h
start_headers-IsGiven c (some []) p e h = h
start_headers-IsGiven c (some (x ∷ t)) p e (stored, own, all) =
    (stored, own, (subst (λ (q : Option Text). Stored q p.responses) e stored, all))

finish_headers-IsGiven :
    (c : Caller) (o : Option (Option Text)) (p : CookieAuth)
    → OwnResumption c o p.responses
    → IsGiven p
    → IsGiven (finish_headers c o p)
unfolding finish_headers
finish_headers-IsGiven c none p r h = h
finish_headers-IsGiven c (some t) p r (stored, own, all) = (
  OwnGiven-Stored c t p.responses r,
  without_resumption-AllOwn c p.responses p.resuming own,
  (OwnGiven-Answered c t p.responses r, all),
)

login_answered-IsGiven :
    (c : Caller) (header : Option Text) (p : CookieAuth)
    → IsGiven p
    → IsGiven (login_answered c header p)
unfolding login_answered
login_answered-IsGiven c header p (stored, own, all) =
    let t = cookie_of header in
    if_rule (λ (q : CookieAuth). IsGiven q) (waits c p.requests)
      (λ e. (
        OwnGiven-Stored c t ((c, t) ∷ p.responses) (inl (refl, refl)),
        (inl (refl, refl), AllOwn-more c t p.responses p.resuming own),
        AllAnswered-more c t p.responses p.answers all,
      ))
      (λ e. (stored, own, all))

step-IsGiven : (t : Turn) (p : CookieAuth) → IsGiven p → IsGiven (step t p)
unfolding step get_headers resume login_failed set_token
step-IsGiven (calls c) p h = start_headers-IsGiven c p.cookie p refl h
step-IsGiven (resumes c) p (stored, own, all) =
    finish_headers-IsGiven c (resumption c p.resuming) p
      (resumption-OwnResumption c p.responses p.resuming own) (stored, own, all)
step-IsGiven (fails c) p h = h
step-IsGiven (answered c header) p h = login_answered-IsGiven c header p h
step-IsGiven resets p (stored, own, all) = (tt, own, all)

run_from-IsGiven : (ts : List Turn) (p : CookieAuth) → IsGiven p → IsGiven (run ts p)
unfolding run
run_from-IsGiven [] p h = h
run_from-IsGiven (t ∷ ts) p h = run_from-IsGiven ts (step t p) (step-IsGiven t p h)

-- Whatever the order of calls, of the answers to logins and of resets: a caller is given only a cookie that some login
-- returned, and it is given none only when its own login was answered without one.
pub run-AllAnswered :
    (ts : List Turn) → let p = run ts new_cookie_auth in AllAnswered p.responses p.answers
unfolding new_cookie_auth
run-AllAnswered ts =
    let (stored, own, all) = run_from-IsGiven ts new_cookie_auth (tt, tt, tt) in all
