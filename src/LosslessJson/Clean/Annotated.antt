-- ===== src/LosslessJson/Clean/Annotated.antt =====
-- What a field is after its annotation.
use camunda_8_js_sdk.Base.{
  ℕ, ◌+◌, ◌≡◌, refl, Bool, true, false, Option, none, some, [], ◌∷◌, if◌then◌else◌, Text, subst,
}
use camunda_8_js_sdk.LosslessJson.{
  Class, Value, Items, Fields, lossless, str, array, no_items, item, Result, ok, ◌>>=◌, Platform,
}
use camunda_8_js_sdk.LosslessJson.Parse.{
  Kind, child, strings, string, bigints, big, plain, is_falsy, int64_string, int64_strings,
  bigint_of, big_int_value, big_int_values, strings_field, bigints_field, present, annotated,
  assign, char_fields,
}
use camunda_8_js_sdk.LosslessJson.Clean.{
  IsRead, bind_ok, ok_inj, IsExact, AreExact, FieldsAreExact, IsRead-IsExact,
}

module _ (platform : Platform) where
  -- A field that is assigned is exact, if its child is.
  abbrev pub OptionIsExact : Option Value → Type 0
  OptionIsExact none = Unit
  OptionIsExact (some v) = IsExact platform true v

  pub present-IsExact :
      (r : Result Value) (o : Option Value)
      → ((w : Value) → r ≡ ok w → IsExact platform true w)
      → present r ≡ ok o
      → OptionIsExact o
  unfolding present
  present-IsExact r o h e =
      let (w, s, t) = bind_ok r (λ v. ok (some v)) o e in subst OptionIsExact (ok_inj t) (h w s)

  pub int64_string-IsExact : (v w : Value) → int64_string v ≡ ok w → IsExact platform true w
  unfolding int64_string
  int64_string-IsExact (str s) w e = subst (IsExact platform true) (ok_inj e) tt
  int64_string-IsExact (lossless t) w e = subst (IsExact platform true) (ok_inj e) tt
  int64_string-IsExact _ w e = cc

  pub int64_strings-AreExact :
      (xs ys : Items) → int64_strings xs ≡ ok ys → AreExact platform true ys
  unfolding int64_strings
  int64_strings-AreExact no_items ys e = subst (AreExact platform true) (ok_inj e) tt
  int64_strings-AreExact (item x xs) zs e =
      let (y, r, s) =
        bind_ok (int64_string x) (λ y. int64_strings xs >>= λ ys. ok (item y ys)) zs e in
      let (ys, r', s') = bind_ok (int64_strings xs) (λ ys. ok (item y ys)) zs s in
      subst (AreExact platform true) (ok_inj s')
        (int64_string-IsExact x y r, int64_strings-AreExact xs ys r')

  pub bigint_of-IsExact :
      (t : Text) (o : Option Text) (w : Value)
      → platform.to_bigint t ≡ o
      → bigint_of o ≡ ok w
      → IsExact platform true w
  unfolding bigint_of
  bigint_of-IsExact t none w e r = cc
  bigint_of-IsExact t (some n) w e r = subst (IsExact platform true) (ok_inj r) (t, e)

  pub big_int_value-IsExact :
      (v w : Value) → big_int_value platform v ≡ ok w → IsExact platform true w
  unfolding big_int_value
  big_int_value-IsExact (lossless t) w e = bigint_of-IsExact t (platform.to_bigint t) w refl e
  big_int_value-IsExact _ w e = cc

  pub big_int_values-AreExact :
      (xs ys : Items) → big_int_values platform xs ≡ ok ys → AreExact platform true ys
  unfolding big_int_values
  big_int_values-AreExact no_items ys e = subst (AreExact platform true) (ok_inj e) tt
  big_int_values-AreExact (item x xs) zs e =
      let (y, r, s) =
        bind_ok (big_int_value platform x)
          (λ y. big_int_values platform xs >>= λ ys. ok (item y ys)) zs e in
      let (ys, r', s') = bind_ok (big_int_values platform xs) (λ ys. ok (item y ys)) zs s in
      subst (AreExact platform true) (ok_inj s')
        (big_int_value-IsExact x y r, big_int_values-AreExact xs ys r')

  pub strings_field-IsExact : (v w : Value) → strings_field v ≡ ok w → IsExact platform true w
  unfolding strings_field
  strings_field-IsExact (array xs) w e =
      let (ys, r, s) = bind_ok (int64_strings xs) (λ ys. ok (array ys)) w e in
      subst (IsExact platform true) (ok_inj s) (int64_strings-AreExact xs ys r)
  strings_field-IsExact _ w e = cc

  pub bigints_field-IsExact :
      (v w : Value) → bigints_field platform v ≡ ok w → IsExact platform true w
  unfolding bigints_field
  bigints_field-IsExact (array xs) w e =
      let (ys, r, s) = bind_ok (big_int_values platform xs) (λ ys. ok (array ys)) w e in
      subst (IsExact platform true) (ok_inj s) (big_int_values-AreExact xs ys r)
  bigints_field-IsExact _ w e = cc

  pub unless-IsExact :
      (b : Bool) (r : Result Value) (o : Option Value)
      → ((w : Value) → r ≡ ok w → IsExact platform true w)
      → (if b then ok none else present r) ≡ ok o
      → OptionIsExact o
  unless-IsExact true r o h e = subst OptionIsExact (ok_inj e) tt
  unless-IsExact false r o h e = present-IsExact r o h e

  pub annotated-IsExact :
      (kind : Kind) (parse_child : Class → Result Value) (v : Value) (o : Option Value)
      → IsRead v
      → ((c : Class) (w : Value) → parse_child c ≡ ok w → IsExact platform true w)
      → annotated platform kind parse_child v ≡ ok o
      → OptionIsExact o
  unfolding annotated
  annotated-IsExact (child c) p v o read h e = present-IsExact (p c) o (h c) e
  annotated-IsExact strings p v o read h e =
      present-IsExact (strings_field v) o (strings_field-IsExact v) e
  annotated-IsExact string p v o read h e =
      unless-IsExact (is_falsy v) (int64_string v) o (int64_string-IsExact v) e
  annotated-IsExact bigints p v o read h e =
      present-IsExact (bigints_field platform v) o (bigints_field-IsExact v) e
  annotated-IsExact big p v o read h e =
      unless-IsExact (is_falsy v) (big_int_value platform v) o (big_int_value-IsExact v) e
  annotated-IsExact plain p v o read h e =
      subst OptionIsExact (ok_inj e) (IsRead-IsExact platform v read)

  pub assign-FieldsAreExact :
      (k : Text) (o : Option Value) (fs : Fields)
      → OptionIsExact o
      → FieldsAreExact platform true fs
      → FieldsAreExact platform true (assign k o fs)
  unfolding assign
  assign-FieldsAreExact k none fs h hs = hs
  assign-FieldsAreExact k (some v) fs h hs = (h, hs)

  pub char_fields-FieldsAreExact :
      (i : ℕ) (s : Text) → FieldsAreExact platform true (char_fields platform i s)
  unfolding char_fields
  char_fields-FieldsAreExact i [] = tt
  char_fields-FieldsAreExact i (c ∷ s) = (tt, char_fields-FieldsAreExact (i + 1) s)
