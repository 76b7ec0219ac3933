-- ===== src/LosslessJson/RoundTrip/Plain.antt =====
-- The parts of an instance without classes: texts, bigints and plain JSON.
use camunda_8_js_sdk.Base.{◌≡◌, refl, true, false, Option, none, some, [], Text, arith}
use camunda_8_js_sdk.LosslessJson.{
  Class, Value, Items, Fields, null, unsupported, bool, lossless, number, bigint, str, array,
  object, no_items, item, no_fields, field, Metadata, ok, Platform,
}
use camunda_8_js_sdk.LosslessJson.Parse.{
  string, big, plain, kind_of, kind_of_field, number_of, safe_number, convert, convert_items,
  convert_fields, int64_string, int64_strings, bigint_of, big_int_value, big_int_values,
}
use camunda_8_js_sdk.LosslessJson.Stringify.{
  leaf, stringify_part, stringify_items, stringify_fields, reread, reread_items, reread_fields,
}
use camunda_8_js_sdk.LosslessJson.RoundTrip.{
  AreStrings, AreBigints, IsPlain, ArePlain, FieldsArePlain,
}

-- What the kind of a field says of its flags.
pub string_flag : (m : Metadata) → kind_of m ≡ string → m.int64_string ≡ true
unfolding kind_of kind_of_field
string_flag m e = ground arith

pub big_flags :
    (m : Metadata) → kind_of m ≡ big → (m.int64_string ≡ false) × (m.int64_bigint ≡ true)
unfolding kind_of kind_of_field
big_flags m e = ground arith

pub plain_flags :
    (m : Metadata) → kind_of m ≡ plain → (m.int64_string ≡ false) × (m.int64_bigint ≡ false)
unfolding kind_of kind_of_field
plain_flags m e = ground arith

module _ (platform : Platform) where
  pub stringify-AreStrings : (xs : Items) → AreStrings xs → stringify_items platform xs ≡ ok xs
  unfolding stringify_items leaf
  stringify-AreStrings no_items h = refl
  stringify-AreStrings (item (str s) xs) h = rw (stringify-AreStrings xs h) refl
  stringify-AreStrings (item _ xs) h = absurd h

  pub int64_strings-reread : (xs : Items) → AreStrings xs → int64_strings (reread_items xs) ≡ ok xs
  unfolding int64_strings int64_string reread_items
  int64_strings-reread no_items h = refl
  int64_strings-reread (item (str s) xs) h = rw (int64_strings-reread xs h) refl
  int64_strings-reread (item _ xs) h = absurd h

  pub convert_items-AreStrings : (xs : Items) → AreStrings xs → convert_items platform xs ≡ ok xs
  unfolding convert_items
  convert_items-AreStrings no_items h = refl
  convert_items-AreStrings (item (str s) xs) h = rw (convert_items-AreStrings xs h) refl
  convert_items-AreStrings (item _ xs) h = absurd h

  pub stringify-AreBigints :
      (xs : Items) → AreBigints platform xs → stringify_items platform xs ≡ ok xs
  unfolding stringify_items leaf
  stringify-AreBigints no_items h = refl
  stringify-AreBigints (item (bigint t) xs) (e, h) = rw (stringify-AreBigints xs h) refl
  stringify-AreBigints (item _ xs) h = absurd h

  pub big_int_values-reread :
      (xs : Items) → AreBigints platform xs → big_int_values platform (reread_items xs) ≡ ok xs
  unfolding big_int_values big_int_value bigint_of reread_items
  big_int_values-reread no_items h = refl
  big_int_values-reread (item (bigint t) xs) (e, h) = rw (e, big_int_values-reread xs h) refl
  big_int_values-reread (item _ xs) h = absurd h

  pub convert_items-AreBigints :
      (xs : Items) → AreBigints platform xs → convert_items platform xs ≡ ok xs
  unfolding convert_items
  convert_items-AreBigints no_items h = refl
  convert_items-AreBigints (item (bigint t) xs) (e, h) = rw (convert_items-AreBigints xs h) refl
  convert_items-AreBigints (item _ xs) h = absurd h

  -- Plain JSON is printed as it is.
  mutual
    unfolding stringify_part leaf

    pub stringify-IsPlain :
        (c : Option Class) (k : Text) (leaf_kept : (w : Value) → leaf platform c k w ≡ ok w)
        (v : Value)
        → IsPlain platform v
        → stringify_part platform c k v ≡ ok v
    stringify-IsPlain c k kept null h = kept null
    stringify-IsPlain c k kept (bool b) h = kept (bool b)
    stringify-IsPlain c k kept (number t) h = kept (number t)
    stringify-IsPlain c k kept (str s) h = kept (str s)
    stringify-IsPlain c k kept (array xs) h = rw (stringify-ArePlain xs h) refl
    stringify-IsPlain c k kept (object none fs) h = rw (stringify-FieldsArePlain fs h) refl
    stringify-IsPlain c k kept (object (some d) fs) h = absurd h
    stringify-IsPlain c k kept unsupported h = absurd h
    stringify-IsPlain c k kept (lossless t) h = absurd h
    stringify-IsPlain c k kept (bigint t) h = absurd h

    stringify-ArePlain : (xs : Items) → ArePlain platform xs → stringify_items platform xs ≡ ok xs
    stringify-ArePlain no_items h = refl
    stringify-ArePlain (item x xs) (hx, hxs) =
        rw (stringify-IsPlain none [] (λ w. refl) x hx, stringify-ArePlain xs hxs) refl

    stringify-FieldsArePlain :
        (fs : Fields) → FieldsArePlain platform fs → stringify_fields platform none fs ≡ ok fs
    stringify-FieldsArePlain no_fields h = refl
    stringify-FieldsArePlain (field k x fs) (hx, hfs) =
        rw (stringify-IsPlain none k (λ w. refl) x hx, stringify-FieldsArePlain fs hfs) refl

  -- And its numbers come back from their texts.
  mutual
    unfolding convert safe_number number_of reread

    pub convert-reread : (v : Value) → IsPlain platform v → convert platform (reread v) ≡ ok v
    convert-reread null h = refl
    convert-reread (bool b) h = refl
    convert-reread (number t) h = rw h refl
    convert-reread (str s) h = refl
    convert-reread (array xs) h = rw (convert_items-reread xs h) refl
    convert-reread (object none fs) h = rw (convert_fields-reread fs h) refl
    convert-reread (object (some d) fs) h = absurd h
    convert-reread unsupported h = absurd h
    convert-reread (lossless t) h = absurd h
    convert-reread (bigint t) h = absurd h

    convert_items-reread :
        (xs : Items) → ArePlain platform xs → convert_items platform (reread_items xs) ≡ ok xs
    convert_items-reread no_items h = refl
    convert_items-reread (item x xs) (hx, hxs) =
        rw (convert-reread x hx, convert_items-reread xs hxs) refl

    convert_fields-reread :
        (fs : Fields)
        → FieldsArePlain platform fs
        → convert_fields platform (reread_fields fs) ≡ ok fs
    convert_fields-reread no_fields h = refl
    convert_fields-reread (field k x fs) (hx, hfs) =
        rw (convert-reread x hx, convert_fields-reread fs hfs) refl
