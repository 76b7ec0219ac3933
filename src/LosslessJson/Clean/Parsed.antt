-- ===== src/LosslessJson/Clean/Parsed.antt =====
-- `losslessParse` leaves only exact numbers.
use camunda_8_js_sdk.Base.{
  eq_text, ◌≡◌, refl, Bool, true, false, Option, none, some, [], ◌∷◌, if◌then◌else◌, Text, subst,
  if_rule,
}
use camunda_8_js_sdk.LosslessJson.{
  Class, Value, Items, Fields, null, unsupported, bool, lossless, number, bigint, str, array,
  object, no_items, item, no_fields, field, missing_key, ok, thrown, ◌>>=◌, Platform,
}
use camunda_8_js_sdk.LosslessJson.Parse.{
  Kind, kind_of, is_falsy, safe_number, annotated, assign, char_fields, lossless_fields, finish,
  parse_value, parse_items, parse_fields,
}
use camunda_8_js_sdk.LosslessJson.Parse.{value_at, parse_found, parse_key, lossless_parse}
use camunda_8_js_sdk.LosslessJson.Clean.{
  IsRead, AreRead, FieldsAreRead, bind_ok, ok_inj, IsExact, AreExact, FieldsAreExact,
  number_of-IsExact, convert-IsExact, IsRead-IsExact, IsExact-loosen,
}
use camunda_8_js_sdk.LosslessJson.Clean.Annotated.{
  annotated-IsExact, assign-FieldsAreExact, char_fields-FieldsAreExact,
}

module _ (platform : Platform) where
  mutual
    unfolding parse_value finish lossless_fields safe_number

    parse_value-IsExact :
        (dto : Option Class) (v w : Value)
        → IsRead v
        → parse_value platform dto v ≡ ok w
        → IsExact platform false w
    parse_value-IsExact none (array xs) w h e =
        let (ys, r, s) =
          bind_ok (parse_items platform platform.lossless_dto xs) (λ ys. ok (array ys)) w e in
        subst (IsExact platform false) (ok_inj s)
          (parse_items-AreExact platform.lossless_dto xs ys h r)
    parse_value-IsExact (some c) (array xs) w h e =
        let (ys, r, s) = bind_ok (parse_items platform c xs) (λ ys. ok (array ys)) w e in
        subst (IsExact platform false) (ok_inj s) (parse_items-AreExact c xs ys h r)
    parse_value-IsExact none (lossless t) w h e =
        number_of-IsExact platform t (platform.to_number t) w refl e
    parse_value-IsExact none (object c fs) w h e =
        convert-IsExact platform (object c fs) w (IsRead-IsExact platform (object c fs) h) e
    parse_value-IsExact none null w h e = subst (IsExact platform false) (ok_inj e) tt
    parse_value-IsExact none (bool b) w h e = subst (IsExact platform false) (ok_inj e) tt
    parse_value-IsExact none (str s) w h e = subst (IsExact platform false) (ok_inj e) tt
    parse_value-IsExact none unsupported w h e = absurd h
    parse_value-IsExact none (number t) w h e = absurd h
    parse_value-IsExact none (bigint t) w h e = absurd h
    parse_value-IsExact (some c) (object none fs) w h e =
        let (gs, r, s) = bind_ok (parse_fields platform c fs) (finish platform c) w e in
        convert-IsExact platform (object (some c) gs) w (parse_fields-FieldsAreExact c fs gs h r) s
    parse_value-IsExact (some c) (object (some d) fs) w h e = absurd h
    parse_value-IsExact (some c) (str s) w h e =
        convert-IsExact platform (object (some c) (char_fields platform 0 s)) w
          (char_fields-FieldsAreExact platform 0 s) e
    parse_value-IsExact (some c) (lossless t) w h e =
        convert-IsExact platform (object (some c) (lossless_fields platform t)) w (tt, (tt, tt)) e
    parse_value-IsExact (some c) null w h e = cc
    parse_value-IsExact (some c) (bool b) w h e =
        convert-IsExact platform (object (some c) no_fields) w tt e
    parse_value-IsExact (some c) unsupported w h e = absurd h
    parse_value-IsExact (some c) (number t) w h e = absurd h
    parse_value-IsExact (some c) (bigint t) w h e = absurd h

    parse_items-AreExact :
        (c : Class) (xs ys : Items)
        → AreRead xs
        → parse_items platform c xs ≡ ok ys
        → AreExact platform false ys
    parse_items-AreExact c no_items ys h e = subst (AreExact platform false) (ok_inj e) tt
    parse_items-AreExact c (item x xs) zs (hx, hxs) e =
        let (y, r, s) =
          bind_ok (parse_value platform (some c) x)
            (λ y. parse_items platform c xs >>= λ ys. ok (item y ys)) zs e in
        let (ys, r', s') = bind_ok (parse_items platform c xs) (λ ys. ok (item y ys)) zs s in
        subst (AreExact platform false) (ok_inj s')
          (parse_value-IsExact (some c) x y hx r, parse_items-AreExact c xs ys hxs r')

    parse_fields-FieldsAreExact :
        (c : Class) (fs gs : Fields)
        → FieldsAreRead fs
        → parse_fields platform c fs ≡ ok gs
        → FieldsAreExact platform true gs
    parse_fields-FieldsAreExact c no_fields gs h e =
        subst (FieldsAreExact platform true) (ok_inj e) tt
    parse_fields-FieldsAreExact c (field k x fs) hs (hx, hfs) e =
        let kind : Kind = kind_of (platform.metadata c k) in
        let parse_child = λ (d : Class). parse_value platform (some d) x in
        let (o, r, s) =
          bind_ok (annotated platform kind parse_child x)
            (λ o. parse_fields platform c fs >>= λ gs. ok (assign k o gs)) hs e in
        let (gs, r', s') = bind_ok (parse_fields platform c fs) (λ gs. ok (assign k o gs)) hs s in
        let exact =
          annotated-IsExact platform kind parse_child x o hx
            (λ d w q. IsExact-loosen platform w (parse_value-IsExact (some d) x w hx q)) r in
        subst (FieldsAreExact platform true) (ok_inj s')
          (assign-FieldsAreExact platform k o gs exact (parse_fields-FieldsAreExact c fs gs hfs r'))

  -- The value at a key was read too.
  abbrev OptionIsRead : Option Value → Type 0
  OptionIsRead none = Unit
  OptionIsRead (some v) = IsRead v

  value_at-OptionIsRead : (k : Text) (fs : Fields) → FieldsAreRead fs → OptionIsRead (value_at k fs)
  unfolding value_at
  value_at-OptionIsRead k no_fields h = tt
  value_at-OptionIsRead k (field l x fs) (hx, hfs) =
      if_rule OptionIsRead (eq_text l k) (λ here. hx) (λ there. value_at-OptionIsRead k fs hfs)

  unless_missing :
      (b : Bool) (dto : Option Class) (v w : Value)
      → IsRead v
      → (if b then thrown missing_key else parse_value platform dto v) ≡ ok w
      → IsExact platform false w
  unless_missing true dto v w h e = cc
  unless_missing false dto v w h e = parse_value-IsExact dto v w h e

  parse_found-IsExact :
      (dto : Option Class) (o : Option Value) (w : Value)
      → OptionIsRead o
      → parse_found platform dto o ≡ ok w
      → IsExact platform false w
  unfolding parse_found
  parse_found-IsExact dto none w h e = cc
  parse_found-IsExact dto (some v) w h e = unless_missing (is_falsy v) dto v w h e

  parse_key-IsExact :
      (dto : Option Class) (key : Text) (v w : Value)
      → IsRead v
      → parse_key platform dto key v ≡ ok w
      → IsExact platform false w
  unfolding parse_key
  parse_key-IsExact dto key (object none fs) w h e =
      parse_found-IsExact dto (value_at key fs) w (value_at-OptionIsRead key fs h) e
  parse_key-IsExact dto key (object (some c) fs) w h e = absurd h
  parse_key-IsExact dto key _ w h e = cc

  -- Whatever was read, with or without a class and a key: where `losslessParse` gives a value, the
  -- value has no `LosslessNumber` in it at any depth, and each number and bigint in it is what
  -- `toSafeNumberOrThrow` or `BigInt` made of a text, so none was rounded.
  pub lossless_parse-IsExact :
      (v : Value) (dto : Option Class) (key : Option Text) (w : Value)
      → IsRead v
      → lossless_parse platform v dto key ≡ ok w
      → IsExact platform false w
  unfolding lossless_parse
  lossless_parse-IsExact v dto none w h e = parse_value-IsExact dto v w h e
  lossless_parse-IsExact v dto (some []) w h e = parse_value-IsExact dto v w h e
  lossless_parse-IsExact v dto (some (c ∷ key)) w h e = parse_key-IsExact dto (c ∷ key) v w h e
