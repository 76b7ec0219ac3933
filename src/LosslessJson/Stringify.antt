-- ===== src/LosslessJson/Stringify.antt =====
-- `losslessStringify` of src/lib/LosslessJsonParser.ts, up to lossless-json's `stringify`.
use camunda_8_js_sdk.Base.{Option, none, some, [], ◌∷◌, if◌then◌else◌, Text}
use camunda_8_js_sdk.LosslessJson.{
  Class, Value, Items, Fields, null, unsupported, bool, lossless, number, bigint, str, array,
  object, no_items, item, no_fields, field, Metadata, not_an_object, not_a_number, unsupported_type,
  Result, ok, thrown, ◌>>=◌, Platform,
}
use camunda_8_js_sdk.LosslessJson.Parse.{char_fields, lossless_fields}

abbrev true_text : Text
true_text = 116 ∷ 114 ∷ 117 ∷ 101 ∷ []

abbrev false_text : Text
false_text = 102 ∷ 97 ∷ 108 ∷ 115 ∷ 101 ∷ []

module _ (platform : Platform) where
  -- `new LosslessNumber`.
  unfoldable pub new_lossless : Text → Result Value
  new_lossless t = if platform.is_number t then ok (lossless t) else thrown not_a_number

  -- A value that is no object, under a field with `@Int64String`, or with `@BigIntValue`, which is
  -- turned into a text first.
  unfoldable pub int64_number : Value → Result Value
  unfolding new_lossless
  int64_number (str t) = new_lossless t
  int64_number (number t) = new_lossless t
  int64_number (bigint t) = new_lossless t
  int64_number _ = thrown not_a_number

  unfoldable pub bigint_number : Value → Result Value
  unfolding new_lossless
  bigint_number (str t) = new_lossless t
  bigint_number (number t) = new_lossless t
  bigint_number (bigint t) = new_lossless t
  bigint_number (bool b) = new_lossless (if b then true_text else false_text)
  bigint_number _ = thrown not_an_object

  unfoldable pub with_flags : Metadata → Value → Result Value
  unfolding int64_number bigint_number
  with_flags m v =
      if m.int64_string then int64_number v else if m.int64_bigint then bigint_number v else ok v

  -- A plain object and an array have no metadata.
  unfoldable pub leaf : Option Class → Text → Value → Result Value
  unfolding with_flags
  leaf none k v = ok v
  leaf (some c) k v = with_flags (platform.metadata c k) v

  -- A part of an object or an array: `nested` is a part that is an object itself, whose key does
  -- not matter. A `LosslessNumber` is one, and becomes a plain object.
  unfoldable mutual
    unfolding leaf lossless_fields

    pub stringify_part : Option Class → Text → Value → Result Value
    stringify_part c k (array xs) = stringify_items xs >>= λ ys. ok (array ys)
    stringify_part c k (object d fs) = stringify_fields d fs >>= λ gs. ok (object none gs)
    stringify_part c k (lossless t) = ok (object none (lossless_fields platform t))
    stringify_part c k unsupported = thrown unsupported_type
    stringify_part c k null = leaf c k null
    stringify_part c k (bool b) = leaf c k (bool b)
    stringify_part c k (number t) = leaf c k (number t)
    stringify_part c k (bigint t) = leaf c k (bigint t)
    stringify_part c k (str s) = leaf c k (str s)

    pub stringify_items : Items → Result Items
    stringify_items no_items = ok no_items
    stringify_items (item x xs) =
        stringify_part none [] x >>= λ y. stringify_items xs >>= λ ys. ok (item y ys)

    pub stringify_fields : Option Class → Fields → Result Fields
    stringify_fields c no_fields = ok no_fields
    stringify_fields c (field k x fs) =
        stringify_part c k x >>= λ y. stringify_fields c fs >>= λ gs. ok (field k y gs)

  -- `losslessStringify`: the value that is printed.
  unfoldable pub lossless_stringify : Value → Result Value
  unfolding stringify_part char_fields
  lossless_stringify null = thrown not_an_object
  lossless_stringify (str s) = ok (object none (char_fields platform 0 s))
  lossless_stringify (bool b) = ok (object none no_fields)
  lossless_stringify (number t) = ok (object none no_fields)
  lossless_stringify (bigint t) = ok (object none no_fields)
  lossless_stringify v = stringify_part none [] v

-- What lossless-json reads from the text that it prints of a value: every number is a
-- `LosslessNumber` with the same digits, and every object is plain.
unfoldable mutual
  pub reread : Value → Value
  reread (number t) = lossless t
  reread (bigint t) = lossless t
  reread (array xs) = array (reread_items xs)
  reread (object c fs) = object none (reread_fields fs)
  reread v = v

  pub reread_items : Items → Items
  reread_items no_items = no_items
  reread_items (item x xs) = item (reread x) (reread_items xs)

  pub reread_fields : Fields → Fields
  reread_fields no_fields = no_fields
  reread_fields (field k x fs) = field k (reread x) (reread_fields fs)
