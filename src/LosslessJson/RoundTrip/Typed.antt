-- ===== src/LosslessJson/RoundTrip/Typed.antt =====
-- A whole instance comes back from its text.
use camunda_8_js_sdk.Base.{◌≡◌, refl, none, some, [], Text}
use camunda_8_js_sdk.LosslessJson.{
  Class, Value, Items, Fields, null, unsupported, bool, lossless, number, bigint, str, array,
  object, no_items, item, no_fields, field, ok, Platform,
}
use camunda_8_js_sdk.LosslessJson.Parse.{
  Kind, child, strings, string, bigints, big, plain, kind_of, convert_items, convert_fields,
  parse_items, parse_fields, lossless_parse,
}
use camunda_8_js_sdk.LosslessJson.Stringify.{
  stringify_items, stringify_fields, reread, reread_items, reread_fields, lossless_stringify,
}
use camunda_8_js_sdk.LosslessJson.RoundTrip.{IsTyped, AreInstances, IsInstance, FieldsAreTyped}
use camunda_8_js_sdk.LosslessJson.RoundTrip.Plain.{string_flag, big_flags, plain_flags}
use camunda_8_js_sdk.LosslessJson.RoundTrip.Instances.{
  Returns, FieldsReturn, InstancesReturn, strings-Returns, bigints-Returns, string-Returns,
  big-Returns, plain-Returns, instance-Returns, child_instance-Returns, child_array-Returns,
  cons_field-Returns, cons_item-Returns,
}

module _ (platform : Platform) where
  mutual
    unfolding stringify_fields parse_fields convert_fields reread_fields stringify_items parse_items
        reread_items convert_items

    typed-Returns :
        (c : Class) (k : Text) (kind : Kind) (x : Value)
        → kind_of (platform.metadata c k) ≡ kind
        → IsTyped platform kind x
        → Returns platform c k kind x
    typed-Returns c k strings (array xs) e h = strings-Returns platform c k xs h
    typed-Returns c k bigints (array xs) e h = bigints-Returns platform c k xs h
    typed-Returns c k string (str t) e h =
        string-Returns platform c k t (string_flag (platform.metadata c k) e) h
    typed-Returns c k big (bigint t) e h =
        big-Returns platform c k t (big_flags (platform.metadata c k) e) h
    typed-Returns c k plain v e h =
        plain-Returns platform c k v (plain_flags (platform.metadata c k) e) h
    typed-Returns c k (child d) (array xs) e h =
        child_array-Returns platform c d k xs (instances-Return d xs h)
    typed-Returns c k (child d) (object (some a) fs) e (same, h) =
        child_instance-Returns platform c d k (object (some a) fs)
          (instance-Returns platform d a fs same (fields-Return d fs h))
    typed-Returns c k (child d) _ e h = absurd h
    typed-Returns c k strings _ e h = absurd h
    typed-Returns c k bigints _ e h = absurd h
    typed-Returns c k string _ e h = absurd h
    typed-Returns c k big _ e h = absurd h

    instances-Return :
        (c : Class) (xs : Items) → AreInstances platform c xs → InstancesReturn platform c xs
    instances-Return c no_items h = (no_items, refl, refl, refl)
    instances-Return c (item (object (some d) fs) xs) ((same, h), hs) =
        cons_item-Returns platform c (object (some d) fs) xs
          (instance-Returns platform c d fs same (fields-Return c fs h)) (instances-Return c xs hs)
    instances-Return c (item _ xs) (h, hs) = absurd h

    fields-Return :
        (c : Class) (fs : Fields) → FieldsAreTyped platform c fs → FieldsReturn platform c fs
    fields-Return c no_fields h = (no_fields, no_fields, refl, refl, refl)
    fields-Return c (field k x fs) (h, hs) =
        cons_field-Returns platform c k x fs
          (typed-Returns c k (kind_of (platform.metadata c k)) x refl h) (fields-Return c fs hs)

  -- An instance of a Dto class, each of whose fields is as its annotation says (an `@Int64String` a text with the
  -- digits of a number, a `@BigIntValue` a bigint, a `@ChildDto` an instance or an array of instances, a field
  -- without an annotation plain JSON with safe numbers), is printed by `losslessStringify` without an error, and
  -- `losslessParse` with the class reads the same instance from the text.
  pub lossless_stringify-lossless_parse :
      (c : Class) (x : Value) (x_IsInstance : IsInstance platform c x)
      → (y : Value) × (lossless_stringify platform x ≡ ok y)
        × (lossless_parse platform (reread y) (some c) none ≡ ok x)
  unfolding lossless_stringify lossless_parse
  lossless_stringify-lossless_parse c (object (some d) fs) (same, h) =
      let (y, e, f, g) = instance-Returns platform c d fs same (fields-Return c fs h) in
      (y, e none [], f)
  lossless_stringify-lossless_parse c null h = absurd h
  lossless_stringify-lossless_parse c unsupported h = absurd h
  lossless_stringify-lossless_parse c (bool b) h = absurd h
  lossless_stringify-lossless_parse c (lossless b) h = absurd h
  lossless_stringify-lossless_parse c (number b) h = absurd h
  lossless_stringify-lossless_parse c (bigint b) h = absurd h
  lossless_stringify-lossless_parse c (str b) h = absurd h
  lossless_stringify-lossless_parse c (array b) h = absurd h
  lossless_stringify-lossless_parse c (object none b) h = absurd h
