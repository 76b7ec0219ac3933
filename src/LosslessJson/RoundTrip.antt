-- ===== src/LosslessJson/RoundTrip.antt =====
-- Instances of a Dto class survive `losslessStringify` and `losslessParse`.
pub mod Plain
pub mod Instances
pub mod Typed
use camunda_8_js_sdk.Base.{ℕ, ◌≡◌, refl, Bool, true, false, Option, none, some, List, [], ◌∷◌, Text}
use camunda_8_js_sdk.LosslessJson.{
  Class, Value, Items, Fields, null, unsupported, bool, lossless, number, bigint, str, array,
  object, no_items, item, no_fields, field, Metadata, Platform,
}
use camunda_8_js_sdk.LosslessJson.Parse.{Kind, child, strings, string, bigints, big, plain, kind_of}

abbrev pub AreStrings : Items → Type 0
AreStrings no_items = Unit
AreStrings (item (str s) xs) = AreStrings xs
AreStrings (item _ xs) = ⊥

module _ (platform : Platform) where
  -- A number or a bigint that is read from the text that prints it.
  abbrev pub AreBigints : Items → Type 0
  AreBigints no_items = Unit
  AreBigints (item (bigint t) xs) = (platform.to_bigint t ≡ some t) × AreBigints xs
  AreBigints (item _ xs) = ⊥

  -- A value without annotations: JSON whose numbers are read back from their texts.
  abbrev mutual
    pub IsPlain : Value → Type 0
    IsPlain (number t) = platform.to_number t ≡ some t
    IsPlain (array xs) = ArePlain xs
    IsPlain (object none fs) = FieldsArePlain fs
    IsPlain null = Unit
    IsPlain (bool b) = Unit
    IsPlain (str s) = Unit
    IsPlain _ = ⊥

    pub ArePlain : Items → Type 0
    ArePlain no_items = Unit
    ArePlain (item x xs) = IsPlain x × ArePlain xs

    pub FieldsArePlain : Fields → Type 0
    FieldsArePlain no_fields = Unit
    FieldsArePlain (field k x fs) = IsPlain x × FieldsArePlain fs

  -- An instance of a class, each field as its annotation says.
  abbrev mutual
    pub IsTyped : Kind → Value → Type 0
    IsTyped (child c) (object (some d) fs) = (d ≡ c) × FieldsAreTyped c fs
    IsTyped (child c) (array xs) = AreInstances c xs
    IsTyped (child c) _ = ⊥
    IsTyped strings (array xs) = AreStrings xs
    IsTyped strings _ = ⊥
    IsTyped string (str t) = platform.is_number t ≡ true
    IsTyped string _ = ⊥
    IsTyped bigints (array xs) = AreBigints xs
    IsTyped bigints _ = ⊥
    IsTyped big (bigint t) = (platform.to_bigint t ≡ some t) × (platform.is_number t ≡ true)
    IsTyped big _ = ⊥
    IsTyped plain v = IsPlain v

    pub AreInstances : Class → Items → Type 0
    AreInstances c no_items = Unit
    AreInstances c (item x xs) = IsInstance c x × AreInstances c xs

    pub IsInstance : Class → Value → Type 0
    IsInstance c (object (some d) fs) = (d ≡ c) × FieldsAreTyped c fs
    IsInstance c _ = ⊥

    pub FieldsAreTyped : Class → Fields → Type 0
    FieldsAreTyped c no_fields = Unit
    FieldsAreTyped c (field k x fs) =
        IsTyped (kind_of (platform.metadata c k)) x × FieldsAreTyped c fs
