-- ===== src/LosslessJson/Clean.antt =====
-- What parsing leaves: no `LosslessNumber`, and no number but those that were read exactly.
pub mod Annotated
pub mod Parsed
use camunda_8_js_sdk.Base.{
  ℕ, suc, ◌+◌, ◌≡◌, refl, sym, ap, ◌∙◌, Bool, true, false, Option, none, some, List, [], ◌∷◌,
  if◌then◌else◌, Text, subst, arith, if_rule, Bool-cases, inl, inr,
}
use camunda_8_js_sdk.LosslessJson.{
  Class, Value, Items, Fields, null, unsupported, bool, lossless, number, bigint, str, array,
  object, no_items, item, no_fields, field, Metadata, Failure, Result, ok, thrown, ◌>>=◌, Platform,
}
use camunda_8_js_sdk.LosslessJson.Parse.{
  Kind, child, strings, string, bigints, big, plain, kind_of, is_falsy, number_of, safe_number,
  convert, convert_items, convert_fields, int64_string, int64_strings, bigint_of, big_int_value,
  big_int_values, strings_field, bigints_field, present, annotated, assign, char_fields,
  lossless_fields, finish, parse_value, parse_items, parse_fields,
}

-- What lossless-json reads: its numbers are all `LosslessNumber`s.
abbrev mutual
  pub IsRead : Value → Type 0
  IsRead (number t) = ⊥
  IsRead (bigint t) = ⊥
  IsRead unsupported = ⊥
  IsRead (array xs) = AreRead xs
  IsRead (object none fs) = FieldsAreRead fs
  IsRead (object (some c) fs) = ⊥
  IsRead _ = Unit

  pub AreRead : Items → Type 0
  AreRead no_items = Unit
  AreRead (item x xs) = IsRead x × AreRead xs

  pub FieldsAreRead : Fields → Type 0
  FieldsAreRead no_fields = Unit
  FieldsAreRead (field k x fs) = IsRead x × FieldsAreRead fs

pub bind_ok :
    {A B : Type 0} (r : Result A) (f : A → Result B) (b : B)
    → (r >>= f) ≡ ok b
    → (a : A) × (r ≡ ok a) × (f a ≡ ok b)
bind_ok (ok a) f b e = (a, refl, e)
bind_ok (thrown failure) f b e = cc

pub ok_inj : {A : Type 0} {a b : A} → ok a ≡ ok b → a ≡ b
ok_inj e = cc

module _ (platform : Platform) where
  -- Each number and bigint is what `toSafeNumberOrThrow` or `BigInt` made of some text, and there
  -- is a `LosslessNumber` only where `loose` lets it be.
  abbrev mutual
    pub IsExact : Bool → Value → Type 0
    IsExact loose (number t) = (read : Text) × (platform.to_number read ≡ some t)
    IsExact loose (bigint t) = (read : Text) × (platform.to_bigint read ≡ some t)
    IsExact loose (lossless t) = loose ≡ true
    IsExact loose (array xs) = AreExact loose xs
    IsExact loose (object c fs) = FieldsAreExact loose fs
    IsExact loose _ = Unit

    pub AreExact : Bool → Items → Type 0
    AreExact loose no_items = Unit
    AreExact loose (item x xs) = IsExact loose x × AreExact loose xs

    pub FieldsAreExact : Bool → Fields → Type 0
    FieldsAreExact loose no_fields = Unit
    FieldsAreExact loose (field k x fs) = IsExact loose x × FieldsAreExact loose fs

  pub number_of-IsExact :
      (t : Text) (o : Option Text) (w : Value)
      → platform.to_number t ≡ o
      → number_of o ≡ ok w
      → IsExact false w
  unfolding number_of
  number_of-IsExact t none w e r = cc
  number_of-IsExact t (some n) w e r = subst (IsExact false) (ok_inj r) (t, e)

  mutual
    unfolding convert safe_number

    pub convert-IsExact :
        (v w : Value) → IsExact true v → convert platform v ≡ ok w → IsExact false w
    convert-IsExact (lossless t) w h e = number_of-IsExact t (platform.to_number t) w refl e
    convert-IsExact (array xs) w h e =
        let (ys, r, s) = bind_ok (convert_items platform xs) (λ ys. ok (array ys)) w e in
        subst (IsExact false) (ok_inj s) (convert_items-AreExact xs ys h r)
    convert-IsExact (object c fs) w h e =
        let (gs, r, s) = bind_ok (convert_fields platform fs) (λ gs. ok (object c gs)) w e in
        subst (IsExact false) (ok_inj s) (convert_fields-FieldsAreExact fs gs h r)
    convert-IsExact null w h e = subst (IsExact false) (ok_inj e) tt
    convert-IsExact unsupported w h e = subst (IsExact false) (ok_inj e) tt
    convert-IsExact (bool b) w h e = subst (IsExact false) (ok_inj e) tt
    convert-IsExact (number t) w h e = subst (IsExact false) (ok_inj e) h
    convert-IsExact (bigint t) w h e = subst (IsExact false) (ok_inj e) h
    convert-IsExact (str s) w h e = subst (IsExact false) (ok_inj e) tt

    pub convert_items-AreExact :
        (xs ys : Items) → AreExact true xs → convert_items platform xs ≡ ok ys → AreExact false ys
    convert_items-AreExact no_items ys h e = subst (AreExact false) (ok_inj e) tt
    convert_items-AreExact (item x xs) zs (hx, hxs) e =
        let (y, r, s) =
          bind_ok (convert platform x) (λ y. convert_items platform xs >>= λ ys. ok (item y ys)) zs
            e in
        let (ys, r', s') = bind_ok (convert_items platform xs) (λ ys. ok (item y ys)) zs s in
        subst (AreExact false) (ok_inj s')
          (convert-IsExact x y hx r, convert_items-AreExact xs ys hxs r')

    pub convert_fields-FieldsAreExact :
        (fs gs : Fields)
        → FieldsAreExact true fs
        → convert_fields platform fs ≡ ok gs
        → FieldsAreExact false gs
    convert_fields-FieldsAreExact no_fields gs h e = subst (FieldsAreExact false) (ok_inj e) tt
    convert_fields-FieldsAreExact (field k x fs) hs (hx, hfs) e =
        let (y, r, s) =
          bind_ok (convert platform x) (λ y. convert_fields platform fs >>= λ gs. ok (field k y gs))
            hs e in
        let (gs, r', s') = bind_ok (convert_fields platform fs) (λ gs. ok (field k y gs)) hs s in
        subst (FieldsAreExact false) (ok_inj s')
          (convert-IsExact x y hx r, convert_fields-FieldsAreExact fs gs hfs r')

  -- A read value has no number or bigint yet.
  mutual
    pub IsRead-IsExact : (v : Value) → IsRead v → IsExact true v
    IsRead-IsExact null h = tt
    IsRead-IsExact unsupported h = tt
    IsRead-IsExact (bool b) h = tt
    IsRead-IsExact (lossless t) h = refl
    IsRead-IsExact (number t) h = absurd h
    IsRead-IsExact (bigint t) h = absurd h
    IsRead-IsExact (str s) h = tt
    IsRead-IsExact (array xs) h = AreRead-AreExact xs h
    IsRead-IsExact (object none fs) h = FieldsAreRead-FieldsAreExact fs h
    IsRead-IsExact (object (some c) fs) h = absurd h

    pub AreRead-AreExact : (xs : Items) → AreRead xs → AreExact true xs
    AreRead-AreExact no_items h = tt
    AreRead-AreExact (item x xs) (hx, hxs) = (IsRead-IsExact x hx, AreRead-AreExact xs hxs)

    pub FieldsAreRead-FieldsAreExact : (fs : Fields) → FieldsAreRead fs → FieldsAreExact true fs
    FieldsAreRead-FieldsAreExact no_fields h = tt
    FieldsAreRead-FieldsAreExact (field k x fs) (hx, hfs) =
        (IsRead-IsExact x hx, FieldsAreRead-FieldsAreExact fs hfs)

  mutual
    pub IsExact-loosen : (v : Value) → IsExact false v → IsExact true v
    IsExact-loosen null h = tt
    IsExact-loosen unsupported h = tt
    IsExact-loosen (bool b) h = tt
    IsExact-loosen (lossless t) h = cc
    IsExact-loosen (number t) h = h
    IsExact-loosen (bigint t) h = h
    IsExact-loosen (str s) h = tt
    IsExact-loosen (array xs) h = AreExact-loosen xs h
    IsExact-loosen (object c fs) h = FieldsAreExact-loosen fs h

    pub AreExact-loosen : (xs : Items) → AreExact false xs → AreExact true xs
    AreExact-loosen no_items h = tt
    AreExact-loosen (item x xs) (hx, hxs) = (IsExact-loosen x hx, AreExact-loosen xs hxs)

    pub FieldsAreExact-loosen : (fs : Fields) → FieldsAreExact false fs → FieldsAreExact true fs
    FieldsAreExact-loosen no_fields h = tt
    FieldsAreExact-loosen (field k x fs) (hx, hfs) =
        (IsExact-loosen x hx, FieldsAreExact-loosen fs hfs)
