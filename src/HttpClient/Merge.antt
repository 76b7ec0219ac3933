-- ===== src/HttpClient/Merge.antt =====
-- `mergeOptions`, `normalizeRetry` and `toSearchParams` of src/lib/HttpClient.ts. A property that is
-- set to `undefined` counts as absent.
pub mod Overrides
use camunda_8_js_sdk.Base.{
  Text, eq_text, ℕ, zero, suc, ◌≡◌, refl, sym, ap, ◌∙◌, Bool, true, false, not, ◌&&◌, ◌||◌, ◌↔◌,
  Option, none, some, List, [], ◌∷◌, ◌++◌, if◌then◌else◌, ◌==◌, ==_iff, arith, is_some, or_else,
}
use camunda_8_js_sdk.HttpClient.{includes_text}

abbrev pub Entries : Type 0
Entries = List (Text × Text)

-- `{ ...base, ...override }` of objects with texts as values.
unfoldable pub lookup : Text → Entries → Option Text
lookup key [] = none
lookup key ((k, value) ∷ es) = if eq_text k key then some value else lookup key es

unfoldable pub set : Text → Text → Entries → Entries
set key new [] = (key, new) ∷ []
set key new ((k, value) ∷ es) =
    let rest = set key new es in if eq_text k key then (k, new) ∷ es else (k, value) ∷ rest

unfoldable pub spread : Entries → Entries → Entries
unfolding set
spread base [] = base
spread base ((k, value) ∷ override) = spread (set k value base) override

-- `URLSearchParams.delete` and `getAll`.
unfoldable pub delete_key : Text → Entries → Entries
delete_key key [] = []
delete_key key ((k, value) ∷ es) =
    let rest = delete_key key es in if eq_text k key then rest else (k, value) ∷ rest

unfoldable pub get_all : Text → Entries → List Text
get_all key [] = []
get_all key ((k, value) ∷ es) =
    let rest = get_all key es in if eq_text k key then value ∷ rest else rest

-- The keys of the override leave the base, and its entries are appended.
unfoldable pub delete_keys : Entries → Entries → Entries
unfolding delete_key
delete_keys [] base = base
delete_keys ((k, value) ∷ override) base = delete_keys override (delete_key k base)

unfoldable pub merge_search_params : Option Entries → Option Entries → Option Entries
unfolding delete_keys
merge_search_params none none = none
merge_search_params base override =
    some (delete_keys (or_else override []) (or_else base []) ++ or_else override [])

-- `RetryOptions`: a limit, or an object with some of the properties.
pub record RetryObject : Type 0 where
  pub limit : Option ℕ
  pub methods : Option (List Text)
  pub status_codes : Option (List ℕ)
  pub error_codes : Option (List Text)
  pub max_retry_after : Option ℕ

pub data RetryInput : Type 0 where
  number : ℕ → RetryInput
  object : RetryObject → RetryInput

unfoldable pub as_object : RetryInput → RetryObject
as_object (number n) = record {
  limit = some n;
  methods = none;
  status_codes = none;
  error_codes = none;
  max_retry_after = none;
}
as_object (object o) = o

abbrev pub prefer {ℓ} : {A : Type ℓ} → Option A → Option A → Option A
prefer none base = base
prefer (some a) base = some a

abbrev pub empty_retry : RetryObject
empty_retry = record {
  limit = none;
  methods = none;
  status_codes = none;
  error_codes = none;
  max_retry_after = none;
}

unfoldable pub base_object : Option RetryInput → RetryObject
unfolding as_object
base_object none = empty_retry
base_object (some base) = as_object base

unfoldable pub spread_retry : RetryObject → RetryObject → RetryObject
spread_retry b o = record {
  limit = prefer o.limit b.limit;
  methods = prefer o.methods b.methods;
  status_codes = prefer o.status_codes b.status_codes;
  error_codes = prefer o.error_codes b.error_codes;
  max_retry_after = prefer o.max_retry_after b.max_retry_after;
}

unfoldable pub normalize_retry : Option RetryInput → Option RetryInput → Option RetryInput
unfolding spread_retry base_object as_object
normalize_retry base none = base
normalize_retry base (some override) =
    some (object (spread_retry (base_object base) (as_object override)))

-- The options that are merged by rules of their own, `hooks` standing for each list of hooks, and
-- one of those that the override replaces.
pub record MergeOptions (Hook : Type 0) : Type 0 where
  pub prefix_url : Option Text
  pub headers : Entries
  pub search_params : Option Entries
  pub retry : Option RetryInput
  pub hooks : List Hook
  pub handlers : List Hook

module _ {Hook : Type 0} where
  unfoldable pub merge_options : MergeOptions Hook → MergeOptions Hook → MergeOptions Hook
  unfolding spread merge_search_params normalize_retry
  merge_options base override = record {
    prefix_url = prefer override.prefix_url base.prefix_url;
    headers = spread base.headers override.headers;
    search_params = merge_search_params base.search_params override.search_params;
    retry = normalize_retry base.retry override.retry;
    hooks = base.hooks ++ override.hooks;
    handlers = base.handlers ++ override.handlers;
  }

abbrev pub has_key : Text → Entries → Bool
has_key key [] = false
has_key key ((k, value) ∷ es) = eq_text k key || has_key key es

-- An object of JavaScript has each key once.
abbrev pub IsObject : Entries → Type 0
IsObject [] = Unit
IsObject ((k, value) ∷ es) = (has_key k es ≡ false) × IsObject es

-- The retry limit that options ask for.
abbrev pub limit_of : Option RetryInput → Option ℕ
limit_of none = none
limit_of (some (number n)) = some n
limit_of (some (object o)) = o.limit
