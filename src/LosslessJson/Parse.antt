-- ===== src/LosslessJson/Parse.antt =====
-- `losslessParse`, `parseWithAnnotations`, `parseArrayWithAnnotations` and
-- `convertLosslessNumbersToNumberOrThrow` of src/lib/LosslessJsonParser.ts.
use camunda_8_js_sdk.Base.{
  ℕ, ◌+◌, Bool, true, false, Option, none, some, [], ◌∷◌, if◌then◌else◌, Text, eq_text,
}
use camunda_8_js_sdk.LosslessJson.{
  Class, Value, Items, Fields, null, unsupported, bool, lossless, number, bigint, str, array,
  object, no_items, item, no_fields, field, Metadata, unsafe_number, unexpected_type, missing_key,
  not_an_object, not_a_bigint, Result, ok, thrown, ◌>>=◌, Platform,
}

-- What `parseWithAnnotations` does with a field: the first of its tests that holds.
pub data Kind : Type 0 where
  child : Class → Kind
  strings string bigints big plain : Kind

unfoldable pub kind_of_field : Metadata → Option Class → Kind
kind_of_field m (some c) = child c
kind_of_field m none =
    if m.int64_string_array
    then strings
    else if m.int64_string
    then string
    else if m.int64_bigint_array
    then bigints
    else if m.int64_bigint
    then big
    else plain

unfoldable pub kind_of : Metadata → Kind
unfolding kind_of_field
kind_of m = kind_of_field m m.child_dto

-- A value that is falsy, which an `@Int64String` or `@BigIntValue` field leaves out.
unfoldable pub is_falsy : Value → Bool
is_falsy null = true
is_falsy (bool b) = if b then false else true
is_falsy (str []) = true
is_falsy _ = false

unfoldable pub number_of : Option Text → Result Value
number_of none = thrown unsafe_number
number_of (some t) = ok (number t)

-- `@Int64StringArray` and `@Int64String`.
unfoldable pub int64_string : Value → Result Value
int64_string (str s) = ok (str s)
int64_string (lossless t) = ok (str t)
int64_string _ = thrown unexpected_type

unfoldable pub int64_strings : Items → Result Items
unfolding int64_string
int64_strings no_items = ok no_items
int64_strings (item x xs) = int64_string x >>= λ y. int64_strings xs >>= λ ys. ok (item y ys)

unfoldable pub bigint_of : Option Text → Result Value
bigint_of none = thrown not_a_bigint
bigint_of (some t) = ok (bigint t)

unfoldable pub strings_field : Value → Result Value
unfolding int64_strings
strings_field (array xs) = int64_strings xs >>= λ ys. ok (array ys)
strings_field _ = thrown unexpected_type

-- `none` where the field is not assigned.
unfoldable pub present : Result Value → Result (Option Value)
present r = r >>= λ v. ok (some v)

unfoldable pub assign : Text → Option Value → Fields → Fields
assign k none fs = fs
assign k (some v) fs = field k v fs

unfoldable pub value_at : Text → Fields → Option Value
value_at k no_fields = none
value_at k (field l v fs) = if eq_text l k then some v else value_at k fs

module _ (platform : Platform) where
  unfoldable pub safe_number : Text → Result Value
  unfolding number_of
  safe_number t = number_of (platform.to_number t)

  -- `convertLosslessNumbersToNumberOrThrow`, of every part of a value.
  unfoldable mutual
    unfolding safe_number

    pub convert : Value → Result Value
    convert (lossless t) = safe_number t
    convert (array xs) = convert_items xs >>= λ ys. ok (array ys)
    convert (object c fs) = convert_fields fs >>= λ gs. ok (object c gs)
    convert null = ok null
    convert unsupported = ok unsupported
    convert (bool b) = ok (bool b)
    convert (number t) = ok (number t)
    convert (bigint t) = ok (bigint t)
    convert (str s) = ok (str s)

    pub convert_items : Items → Result Items
    convert_items no_items = ok no_items
    convert_items (item x xs) = convert x >>= λ y. convert_items xs >>= λ ys. ok (item y ys)

    pub convert_fields : Fields → Result Fields
    convert_fields no_fields = ok no_fields
    convert_fields (field k x fs) = convert x >>= λ y. convert_fields fs >>= λ gs. ok (field k y gs)

  -- `@BigIntValueArray` and `@BigIntValue`.
  unfoldable pub big_int_value : Value → Result Value
  unfolding bigint_of
  big_int_value (lossless t) = bigint_of (platform.to_bigint t)
  big_int_value _ = thrown unexpected_type

  unfoldable pub big_int_values : Items → Result Items
  unfolding big_int_value
  big_int_values no_items = ok no_items
  big_int_values (item x xs) = big_int_value x >>= λ y. big_int_values xs >>= λ ys. ok (item y ys)

  unfoldable pub bigints_field : Value → Result Value
  unfolding big_int_values
  bigints_field (array xs) = big_int_values xs >>= λ ys. ok (array ys)
  bigints_field _ = thrown unexpected_type

  -- A field of this kind, where `parse_child` is `losslessParse` of the value with a class. An array
  -- under `@ChildDto` is parsed item by item, as `losslessParse` parses an array.
  unfoldable pub annotated : Kind → (Class → Result Value) → Value → Result (Option Value)
  unfolding strings_field bigints_field int64_string big_int_value present is_falsy
  annotated (child c) parse_child v = present (parse_child c)
  annotated strings parse_child v = present (strings_field v)
  annotated string parse_child v = if is_falsy v then ok none else present (int64_string v)
  annotated bigints parse_child v = present (bigints_field v)
  annotated big parse_child v = if is_falsy v then ok none else present (big_int_value v)
  annotated plain parse_child v = ok (some v)

  -- `Object.entries` of a text, and of a `LosslessNumber`, which holds its text and a flag.
  unfoldable pub char_fields : ℕ → Text → Fields
  char_fields i [] = no_fields
  char_fields i (c ∷ s) = field (platform.index_key i) (str (c ∷ [])) (char_fields (i + 1) s)

  abbrev pub is_lossless_number_key : Text
  is_lossless_number_key =
      105 ∷ 115 ∷ 76 ∷ 111 ∷ 115 ∷ 115 ∷ 108 ∷ 101 ∷ 115 ∷ 115 ∷ 78 ∷ 117 ∷ 109 ∷ 98 ∷ 101 ∷ 114
      ∷ []

  abbrev pub value_key : Text
  value_key = 118 ∷ 97 ∷ 108 ∷ 117 ∷ 101 ∷ []

  unfoldable pub lossless_fields : Text → Fields
  lossless_fields t = field is_lossless_number_key (bool true) (field value_key (str t) no_fields)

  -- The instance of a class, whose remaining numbers are then converted.
  unfoldable pub finish : Class → Fields → Result Value
  unfolding convert
  finish c fs = convert (object (some c) fs)

  -- `losslessParse` of a value, with or without a class. The entries of a text or a number are taken
  -- as they are: an annotation on a key such as "0" is not looked at.
  unfoldable mutual
    unfolding finish annotated assign char_fields lossless_fields kind_of

    pub parse_value : Option Class → Value → Result Value
    parse_value none (array xs) = parse_items platform.lossless_dto xs >>= λ ys. ok (array ys)
    parse_value (some c) (array xs) = parse_items c xs >>= λ ys. ok (array ys)
    parse_value none (lossless t) = safe_number t
    parse_value none (object c fs) = convert (object c fs)
    parse_value none v = ok v
    parse_value (some c) (object d fs) = parse_fields c fs >>= finish c
    parse_value (some c) (str s) = finish c (char_fields 0 s)
    parse_value (some c) (lossless t) = finish c (lossless_fields t)
    parse_value (some c) null = thrown not_an_object
    parse_value (some c) v = finish c no_fields

    pub parse_items : Class → Items → Result Items
    parse_items c no_items = ok no_items
    parse_items c (item x xs) =
        parse_value (some c) x >>= λ y. parse_items c xs >>= λ ys. ok (item y ys)

    -- `parseWithAnnotations`, of the fields of an object. The instance begins without fields: values that
    -- the constructor of the class gives to its fields are left out.
    pub parse_fields : Class → Fields → Result Fields
    parse_fields c no_fields = ok no_fields
    parse_fields c (field k x fs) =
        annotated (kind_of (platform.metadata c k)) (λ d. parse_value (some d) x) x >>= λ o.
        parse_fields c fs >>= λ gs. ok (assign k o gs)

  unfoldable pub parse_found : Option Class → Option Value → Result Value
  unfolding parse_value is_falsy
  parse_found dto none = thrown missing_key
  parse_found dto (some v) = if is_falsy v then thrown missing_key else parse_value dto v

  -- A key is a field: the indices of an array or a text, and their `length`, are left out.
  unfoldable pub parse_key : Option Class → Text → Value → Result Value
  unfolding parse_found value_at
  parse_key dto key (object c fs) = parse_found dto (value_at key fs)
  parse_key dto key null = thrown not_an_object
  parse_key dto key _ = thrown missing_key

  -- `losslessParse`; an empty key counts as none.
  unfoldable pub lossless_parse : Value → Option Class → Option Text → Result Value
  unfolding parse_key parse_value
  lossless_parse v dto none = parse_value dto v
  lossless_parse v dto (some []) = parse_value dto v
  lossless_parse v dto (some (c ∷ key)) = parse_key dto (c ∷ key) v
