-- ===== src/HttpClient/Merge/Overrides.antt =====
-- What the options are after a merge.
use camunda_8_js_sdk.Base.{
  eq_text_iff, Text, eq_text, ◌≡◌, refl, sym, ap, Bool, true, false, Option, none, some, List, [],
  ◌∷◌, ◌++◌, if◌then◌else◌, arith, or_else,
}
use camunda_8_js_sdk.HttpClient.Merge.{
  Entries, lookup, set, spread, delete_key, get_all, delete_keys, merge_search_params, RetryInput,
  number, object, as_object, prefer, base_object, spread_retry, normalize_retry, MergeOptions,
  merge_options, has_key, IsObject, limit_of,
}

lookup-set :
    (key new other : Text) (es : Entries)
    → lookup other (set key new es) ≡ (if eq_text key other then some new else lookup other es)
unfolding lookup set
lookup-set key new other [] = ground arith
lookup-set key new other ((k, value) ∷ es) = ground (
  arith,
  lookup-set key new other es,
  eq_text_iff k key,
  eq_text_iff key other,
  eq_text_iff k other,
)

get_all-delete_key :
    (key other : Text) (es : Entries)
    → get_all other (delete_key key es) ≡ (if eq_text key other then [] else get_all other es)
unfolding get_all delete_key
get_all-delete_key key other [] = ground arith
get_all-delete_key key other ((k, value) ∷ es) = ground (
  arith,
  get_all-delete_key key other es,
  eq_text_iff k key,
  eq_text_iff key other,
  eq_text_iff k other,
)

get_all-delete_keys :
    (other : Text) (override base : Entries)
    → get_all other (delete_keys override base)
      ≡ (if has_key other override then [] else get_all other base)
unfolding delete_keys
get_all-delete_keys other [] base = refl
get_all-delete_keys other ((k, value) ∷ override) base =
    ground (
      arith,
      get_all-delete_keys other override (delete_key k base),
      get_all-delete_key k other base,
    )

if-append :
    {A : Type 0} (b : Bool) (x : A) (xs ys : List A)
    → (if b then x ∷ xs else xs) ++ ys ≡ (if b then x ∷ (xs ++ ys) else xs ++ ys)
if-append true x xs ys = refl
if-append false x xs ys = refl

get_all-append :
    (other : Text) (xs ys : Entries)
    → get_all other (xs ++ ys) ≡ get_all other xs ++ get_all other ys
unfolding get_all
get_all-append other [] ys = refl
get_all-append other ((k, value) ∷ xs) ys =
    rw (get_all-append other xs ys)
      (sym (if-append (eq_text k other) value (get_all other xs) (get_all other ys)))

lookup-none : (key : Text) (es : Entries) → has_key key es ≡ false → lookup key es ≡ none
unfolding lookup
lookup-none key [] e = refl
lookup-none key ((k, value) ∷ es) e = ground (arith, lookup-none key es)

lookup-spread :
    (key : Text) (base override : Entries)
    → IsObject override
    → lookup key (spread base override) ≡ prefer (lookup key override) (lookup key base)
unfolding lookup spread
lookup-spread key base [] o = refl
lookup-spread key base ((k, value) ∷ override) (once, o) = ground (
  arith,
  lookup-spread key (set k value base) override o,
  lookup-set k value key base,
  lookup-none k override once,
  eq_text_iff k key,
)

get_all-none : (key : Text) (es : Entries) → has_key key es ≡ false → get_all key es ≡ []
unfolding get_all
get_all-none key [] e = refl
get_all-none key ((k, value) ∷ es) e = ground (arith, get_all-none key es)

append_nil : {A : Type 0} (xs : List A) → xs ++ [] ≡ xs
append_nil [] = refl
append_nil (x ∷ xs) = ap (◌∷◌ x) (append_nil xs)

either_values :
    (b : Bool) (xs ys : List Text)
    → (b ≡ false → ys ≡ [])
    → (if b then [] else xs) ++ ys ≡ (if b then ys else xs)
either_values true xs ys h = refl
either_values false xs ys h = rw (h refl) (append_nil xs)

get_all-entries :
    (key : Text) (base override : Entries)
    → get_all key (delete_keys override base ++ override)
      ≡ (if has_key key override then get_all key override else get_all key base)
get_all-entries key base override =
    rw
      (
        get_all-append key (delete_keys override base) override,
        get_all-delete_keys key override base,
      )
      (either_values (has_key key override) (get_all key base) (get_all key override)
        (get_all-none key override))

get_all-merged :
    (key : Text) (base override : Option Entries)
    → get_all key (or_else (merge_search_params base override) []) ≡ (
        if has_key key (or_else override [])
        then get_all key (or_else override [])
        else get_all key (or_else base []))
unfolding merge_search_params
get_all-merged key none none = refl
get_all-merged key none (some override) = get_all-entries key [] override
get_all-merged key (some base) none = get_all-entries key base []
get_all-merged key (some base) (some override) = get_all-entries key base override

limit-normalize_retry :
    (base override : Option RetryInput)
    → limit_of (normalize_retry base override) ≡ prefer (limit_of override) (limit_of base)
unfolding normalize_retry spread_retry base_object as_object
limit-normalize_retry base none = refl
limit-normalize_retry none (some (number n)) = refl
limit-normalize_retry none (some (object o)) = ground arith
limit-normalize_retry (some (number m)) (some (number n)) = refl
limit-normalize_retry (some (number m)) (some (object o)) = refl
limit-normalize_retry (some (object b)) (some (number n)) = refl
limit-normalize_retry (some (object b)) (some (object o)) = refl

-- `httpClient.extend` and the options of a call: a header that the override names has the
-- override's value, and any other the base's; a search parameter that the override names has
-- exactly the override's values, repeated ones included, and any other the base's; the retry limit
-- is the override's where it names one; and the base's hooks run before the override's.
pub merge_options-overrides :
    {Hook : Type 0} (base override : MergeOptions Hook) (key : Text)
    → IsObject override.headers
    → (lookup key (merge_options base override).headers
        ≡ prefer (lookup key override.headers) (lookup key base.headers))
      × (get_all key (or_else (merge_options base override).search_params []) ≡ (
          if has_key key (or_else override.search_params [])
          then get_all key (or_else override.search_params [])
          else get_all key (or_else base.search_params [])))
      × (limit_of (merge_options base override).retry
          ≡ prefer (limit_of override.retry) (limit_of base.retry))
      × ((merge_options base override).hooks ≡ base.hooks ++ override.hooks)
unfolding merge_options
merge_options-overrides base override key o = (
  lookup-spread key base.headers override.headers o,
  get_all-merged key base.search_params override.search_params,
  limit-normalize_retry base.retry override.retry,
  refl,
)
