-- ===== src/LosslessJson/RoundTrip/Instances.antt =====
-- Instances come back from their text.
use camunda_8_js_sdk.Base.{◌≡◌, refl, sym, subst, true, false, Option, none, some, [], Text}
use camunda_8_js_sdk.LosslessJson.{
  Class, Value, Items, Fields, null, unsupported, bool, lossless, number, bigint, str, array,
  object, no_items, item, no_fields, field, ok, ◌>>=◌, Platform,
}
use camunda_8_js_sdk.LosslessJson.Parse.{
  Kind, child, strings, string, bigints, big, plain, kind_of, is_falsy, number_of, safe_number,
  convert, convert_items, convert_fields, int64_string, bigint_of, big_int_value, strings_field,
  bigints_field, present, annotated, assign, finish, parse_value, parse_items, parse_fields,
}
use camunda_8_js_sdk.LosslessJson.Stringify.{
  new_lossless, int64_number, bigint_number, with_flags, leaf, stringify_part, stringify_items,
  stringify_fields, reread, reread_items, reread_fields,
}
use camunda_8_js_sdk.LosslessJson.Clean.{bind_ok, ok_inj}
use camunda_8_js_sdk.LosslessJson.RoundTrip.{AreStrings, AreBigints, IsPlain}
use camunda_8_js_sdk.LosslessJson.RoundTrip.Plain.{
  stringify-AreStrings, int64_strings-reread, convert_items-AreStrings, stringify-AreBigints,
  big_int_values-reread, convert_items-AreBigints, stringify-IsPlain, convert-reread,
}

module _ (platform : Platform) where
  number_of_again : (o : Option Text) (w : Value) → number_of o ≡ ok w → convert platform w ≡ ok w
  unfolding number_of convert
  number_of_again none w e = cc
  number_of_again (some t) w e = subst (λ v. convert platform v ≡ ok v) (ok_inj e) refl

  -- What was converted stays as it is.
  mutual
    unfolding convert safe_number

    convert_again : (v w : Value) → convert platform v ≡ ok w → convert platform w ≡ ok w
    convert_again (lossless t) w e = number_of_again (platform.to_number t) w e
    convert_again (array xs) w e =
        let (ys, r, s) = bind_ok (convert_items platform xs) (λ ys. ok (array ys)) w e in
        subst (λ v. convert platform v ≡ ok v) (ok_inj s) (rw (convert_items_again xs ys r) refl)
    convert_again (object c fs) w e =
        let (gs, r, s) = bind_ok (convert_fields platform fs) (λ gs. ok (object c gs)) w e in
        subst (λ v. convert platform v ≡ ok v) (ok_inj s) (rw (convert_fields_again fs gs r) refl)
    convert_again null w e = subst (λ v. convert platform v ≡ ok v) (ok_inj e) refl
    convert_again unsupported w e = subst (λ v. convert platform v ≡ ok v) (ok_inj e) refl
    convert_again (bool b) w e = subst (λ v. convert platform v ≡ ok v) (ok_inj e) refl
    convert_again (number t) w e = subst (λ v. convert platform v ≡ ok v) (ok_inj e) refl
    convert_again (bigint t) w e = subst (λ v. convert platform v ≡ ok v) (ok_inj e) refl
    convert_again (str s) w e = subst (λ v. convert platform v ≡ ok v) (ok_inj e) refl

    convert_items_again :
        (xs ys : Items) → convert_items platform xs ≡ ok ys → convert_items platform ys ≡ ok ys
    convert_items_again no_items ys e =
        subst (λ zs. convert_items platform zs ≡ ok zs) (ok_inj e) refl
    convert_items_again (item x xs) zs e =
        let (y, r, s) =
          bind_ok (convert platform x) (λ y. convert_items platform xs >>= λ ys. ok (item y ys)) zs
            e in
        let (ys, r', s') = bind_ok (convert_items platform xs) (λ ys. ok (item y ys)) zs s in
        subst (λ zs. convert_items platform zs ≡ ok zs) (ok_inj s')
          (rw (convert_again x y r, convert_items_again xs ys r') refl)

    convert_fields_again :
        (fs gs : Fields) → convert_fields platform fs ≡ ok gs → convert_fields platform gs ≡ ok gs
    convert_fields_again no_fields gs e =
        subst (λ hs. convert_fields platform hs ≡ ok hs) (ok_inj e) refl
    convert_fields_again (field k x fs) hs e =
        let (y, r, s) =
          bind_ok (convert platform x) (λ y. convert_fields platform fs >>= λ gs. ok (field k y gs))
            hs e in
        let (gs, r', s') = bind_ok (convert_fields platform fs) (λ gs. ok (field k y gs)) hs s in
        subst (λ hs. convert_fields platform hs ≡ ok hs) (ok_inj s')
          (rw (convert_again x y r, convert_fields_again fs gs r') refl)

  -- A field of this kind comes back from its text, up to the last conversion.
  abbrev pub Returns : Class → Text → Kind → Value → Type 0
  Returns c k kind x =
      (y z : Value) × (stringify_part platform (some c) k x ≡ ok y)
      × (annotated platform kind (λ d. parse_value platform (some d) (reread y)) (reread y)
          ≡ ok (some z))
      × (convert platform z ≡ ok x)

  abbrev pub FieldsReturn : Class → Fields → Type 0
  FieldsReturn c fs =
      (gs hs : Fields) × (stringify_fields platform (some c) fs ≡ ok gs)
      × (parse_fields platform c (reread_fields gs) ≡ ok hs)
      × (convert_fields platform hs ≡ ok fs)

  -- An instance, under any key.
  abbrev pub InstanceReturns : Class → Value → Type 0
  InstanceReturns c x =
      (y : Value) × ((d : Option Class) (k : Text) → stringify_part platform d k x ≡ ok y)
      × (parse_value platform (some c) (reread y) ≡ ok x)
      × (convert platform x ≡ ok x)

  abbrev pub InstancesReturn : Class → Items → Type 0
  InstancesReturn c xs =
      (ys : Items) × (stringify_items platform xs ≡ ok ys)
      × (parse_items platform c (reread_items ys) ≡ ok xs)
      × (convert_items platform xs ≡ ok xs)

  module _ (c : Class) (k : Text) where
    pub strings-Returns : (xs : Items) → AreStrings xs → Returns c k strings (array xs)
    unfolding stringify_part annotated present strings_field convert reread
    strings-Returns xs h = (
      array xs,
      array xs,
      rw (stringify-AreStrings platform xs h) refl,
      rw (int64_strings-reread platform xs h) refl,
      rw (convert_items-AreStrings platform xs h) refl,
    )

    pub bigints-Returns : (xs : Items) → AreBigints platform xs → Returns c k bigints (array xs)
    unfolding stringify_part annotated present bigints_field convert reread
    bigints-Returns xs h = (
      array xs,
      array xs,
      rw (stringify-AreBigints platform xs h) refl,
      rw (big_int_values-reread platform xs h) refl,
      rw (convert_items-AreBigints platform xs h) refl,
    )

    pub string-Returns :
        (t : Text)
        → (platform.metadata c k).int64_string ≡ true
        → platform.is_number t ≡ true
        → Returns c k string (str t)
    unfolding stringify_part leaf with_flags int64_number new_lossless annotated present
        int64_string is_falsy convert reread
    string-Returns t flag h = (lossless t, str t, rw (flag, h) refl, refl, refl)

    pub big-Returns :
        (t : Text)
        → ((platform.metadata c k).int64_string ≡ false)
          × ((platform.metadata c k).int64_bigint ≡ true)
        → (platform.to_bigint t ≡ some t) × (platform.is_number t ≡ true)
        → Returns c k big (bigint t)
    unfolding stringify_part leaf with_flags bigint_number new_lossless annotated present
        big_int_value bigint_of is_falsy convert reread
    big-Returns t (f, g) (e, h) = (lossless t, bigint t, rw (f, g, h) refl, rw e refl, refl)

    leaf_kept :
        ((platform.metadata c k).int64_string ≡ false)
          × ((platform.metadata c k).int64_bigint ≡ false)
        → (w : Value) → leaf platform (some c) k w ≡ ok w
    unfolding leaf with_flags
    leaf_kept (f, g) w = rw (f, g) refl

    pub plain-Returns :
        (v : Value)
        → ((platform.metadata c k).int64_string ≡ false)
          × ((platform.metadata c k).int64_bigint ≡ false)
        → IsPlain platform v
        → Returns c k plain v
    unfolding annotated
    plain-Returns v flags h = (
      v,
      reread v,
      stringify-IsPlain platform (some c) k (leaf_kept flags) v h,
      refl,
      convert-reread platform v h,
    )

  pub instance-Returns :
      (c d : Class) (fs : Fields)
      → d ≡ c
      → FieldsReturn c fs
      → InstanceReturns c (object (some d) fs)
  unfolding stringify_part parse_value finish convert reread
  instance-Returns c d fs same (gs, hs, e, f, g) = (
    object none gs,
    (λ o k. rw (same, e) refl),
    rw (f, g, sym same) refl,
    rw (convert_fields_again hs fs g) refl,
  )

  pub child_instance-Returns :
      (c d : Class) (k : Text) (x : Value) → InstanceReturns d x → Returns c k (child d) x
  unfolding annotated present
  child_instance-Returns c d k x (y, f, g, e) = (y, x, f (some c) k, rw g refl, e)

  pub child_array-Returns :
      (c d : Class) (k : Text) (xs : Items)
      → InstancesReturn d xs
      → Returns c k (child d) (array xs)
  unfolding annotated present stringify_part parse_value reread convert
  child_array-Returns c d k xs (ys, f, g, e) = (array ys, array xs, rw f refl, rw g refl, rw e refl)

  pub cons_field-Returns :
      (c : Class) (k : Text) (x : Value) (fs : Fields)
      → Returns c k (kind_of (platform.metadata c k)) x
      → FieldsReturn c fs
      → FieldsReturn c (field k x fs)
  unfolding stringify_fields parse_fields convert_fields reread_fields assign
  cons_field-Returns c k x fs (y, z, e, f, g) (gs, hs, e', f', g') =
      (field k y gs, field k z hs, rw (e, e') refl, rw (f, f') refl, rw (g, g') refl)

  pub cons_item-Returns :
      (c : Class) (x : Value) (xs : Items)
      → InstanceReturns c x
      → InstancesReturn c xs
      → InstancesReturn c (item x xs)
  unfolding stringify_items parse_items reread_items convert_items
  cons_item-Returns c x xs (y, e, f, g) (ys, e', f', g') =
      (item y ys, rw (e none [], e') refl, rw (f, f') refl, rw (g, g') refl)
