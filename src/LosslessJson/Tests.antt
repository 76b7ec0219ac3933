-- ===== src/LosslessJson/Tests.antt =====
-- Runs of the JSON functions, and the claims at concrete inputs.
use camunda_8_js_sdk.Base.{
  zero, suc, ◌+◌, ◌≡◌, refl, Bool, true, false, Option, none, some, [], ◌∷◌, if◌then◌else◌, Text,
  eq_text, ltb, ◌&&◌,
}
use camunda_8_js_sdk.LosslessJson.{
  Class, Value, null, lossless, number, bigint, str, array, object, no_items, item, no_fields,
  field, Metadata, ok, thrown, not_an_object, missing_key, unsafe_number, Platform, not_a_number,
}
use camunda_8_js_sdk.LosslessJson.Parse.{
  kind_of, kind_of_field, parse_fields, parse_value, finish, annotated, assign, char_fields,
  lossless_fields, convert, safe_number, number_of, int64_string, present, is_falsy, big_int_value,
  bigint_of, parse_found, parse_key, value_at, lossless_parse,
}
use camunda_8_js_sdk.LosslessJson.Stringify.{
  new_lossless, int64_number, with_flags, leaf, stringify_part, reread, lossless_stringify,
}
use camunda_8_js_sdk.LosslessJson.Clean.{IsExact}
use camunda_8_js_sdk.LosslessJson.Clean.Parsed.{lossless_parse-IsExact}
use camunda_8_js_sdk.LosslessJson.RoundTrip.Typed.{lossless_stringify-lossless_parse}

unfoldable no_annotation : Metadata
no_annotation = record {
  child_dto = none;
  int64_string_array = false;
  int64_string = false;
  int64_bigint_array = false;
  int64_bigint = false;
}

unfoldable int64_string_annotation : Metadata
int64_string_annotation = record {
  child_dto = none;
  int64_string_array = false;
  int64_string = true;
  int64_bigint_array = false;
  int64_bigint = false;
}

unfoldable bigint_annotation : Metadata
bigint_annotation = record {
  child_dto = none;
  int64_string_array = false;
  int64_string = false;
  int64_bigint_array = false;
  int64_bigint = true;
}

unfoldable child_annotation : Metadata
child_annotation = record {
  child_dto = some 2;
  int64_string_array = false;
  int64_string = false;
  int64_bigint_array = false;
  int64_bigint = false;
}

abbrev key : Text
key = 107 ∷ []

abbrev big : Text
big = 98 ∷ []

abbrev jobs : Text
jobs = 106 ∷ []

abbrev other : Text
other = 111 ∷ []

-- Class 1 has children of class 2 under "j"; class 2 has an `@Int64String` "k" and a
-- `@BigIntValue` "b".
unfoldable fields_of : Class → Text → Metadata
unfolding no_annotation int64_string_annotation bigint_annotation child_annotation
fields_of (suc zero) k = if eq_text k jobs then child_annotation else no_annotation
fields_of (suc (suc zero)) k =
    if eq_text k key
    then int64_string_annotation
    else if eq_text k big
    then bigint_annotation
    else no_annotation
fields_of _ k = no_annotation

unfoldable is_digits : Text → Bool
is_digits [] = true
is_digits (c ∷ s) = ltb 47 c && ltb c 58 && is_digits s

-- Two digits are safe here.
unfoldable two_digits : Text → Option Text
two_digits (a ∷ b ∷ c ∷ s) = none
two_digits s = some s

unfoldable digits : Text → Option Text
unfolding is_digits
digits s = if is_digits s then some s else none

unfoldable here : Platform
unfolding fields_of two_digits digits is_digits
here = record {
  metadata = fields_of;
  lossless_dto = 0;
  to_number = two_digits;
  to_bigint = digits;
  is_number = is_digits;
  index_key = λ i. (48 + i) ∷ [];
}

abbrev four_digits : Text
four_digits = 57 ∷ 48 ∷ 49 ∷ 50 ∷ []

abbrev job_read : Value
job_read = object none (
    field key (lossless four_digits)
      (field big (lossless four_digits) (field other (lossless (55 ∷ [])) no_fields)))

abbrev response : Value
response = object none (field jobs (array (item job_read no_items)) no_fields)

abbrev job : Value
job = object (some 2) (
    field key (str four_digits)
      (field big (bigint four_digits) (field other (number (55 ∷ [])) no_fields)))

abbrev jobs_of_response : Value
jobs_of_response = object (some 1) (field jobs (array (item job no_items)) no_fields)

parsed : lossless_parse here response (some 1) none ≡ ok jobs_of_response
unfolding here lossless_parse parse_value parse_fields annotated kind_of kind_of_field assign finish
    convert present int64_string is_falsy big_int_value bigint_of safe_number number_of
parsed = refl

everything : Unit {0}
unfolding here lossless_parse parse_value parse_fields annotated kind_of kind_of_field assign finish
    convert present int64_string is_falsy big_int_value bigint_of safe_number number_of parse_key
    parse_found value_at char_fields lossless_fields lossless_stringify stringify_part leaf
    with_flags int64_number new_lossless
everything =
    -- The key of a response, and its value when it is falsy.
    let found : lossless_parse here response (some 2) (some jobs) ≡ ok (array (item job no_items)) =
      refl in
    let falsy : lossless_parse here (object none (field jobs null no_fields)) none (some jobs)
        ≡ thrown missing_key =
      refl in
    -- A number of four digits is not safe here.
    let unsafe : lossless_parse here response none none ≡ thrown unsafe_number = refl in
    -- The items of an array at the top become instances, also a text, and `null` throws.
    let text : lossless_parse here (array (item (str (97 ∷ [])) no_items)) none none
        ≡ ok (array (item (object (some 0) (field (48 ∷ []) (str (97 ∷ [])) no_fields)) no_items)) =
      refl in
    let null_item : lossless_parse here (array (item null no_items)) none none
        ≡ thrown not_an_object =
      refl in
    -- A `null` under `@Int64String` is left out, and thrown at when it is printed.
    let left_out : lossless_parse here (object none (field key null no_fields)) (some 2) none
        ≡ ok (object (some 2) no_fields) =
      refl in
    let not_printed : lossless_stringify here (object (some 2) (field key null no_fields))
        ≡ thrown not_a_number =
      refl in
    tt

lossless_parse-IsExact_example : IsExact here false jobs_of_response
lossless_parse-IsExact_example =
    lossless_parse-IsExact here response (some 1) none jobs_of_response
      (((tt, (tt, (tt, tt))), tt), tt) parsed

lossless_stringify-lossless_parse_example :
    (y : Value) × (lossless_stringify here jobs_of_response ≡ ok y)
    × (lossless_parse here (reread y) (some 1) none ≡ ok jobs_of_response)
unfolding here kind_of kind_of_field
lossless_stringify-lossless_parse_example =
    lossless_stringify-lossless_parse here 1 jobs_of_response
      (refl, (((refl, (refl, ((refl, refl), (refl, tt)))), tt), tt))
