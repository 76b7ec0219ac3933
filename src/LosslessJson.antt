-- ===== src/LosslessJson.antt =====
-- src/lib/LosslessJsonParser.ts: JSON with the 64-bit numbers kept, as the annotations of a Dto class
-- ask. Values stand for their text: lossless-json's `parse` undoes its `stringify`, so a value that
-- the source stringifies and parses again is used as it is.
pub mod Parse
pub mod Stringify
pub mod Clean
pub mod RoundTrip
mod Tests
use camunda_8_js_sdk.Base.{ℕ, Bool, true, false, Option, none, some, Text}

-- A class is numbered.
abbrev pub Class : Type 0
Class = ℕ

-- A `LosslessNumber` is its text, and a number or a bigint the text that prints it. `object` is an instance of a
-- class, or a plain object; `unsupported` is a Date, a Map or a Set.
mutual
  pub data Value : Type 0 where
    null unsupported : Value
    bool : Bool → Value
    lossless number bigint str : Text → Value
    array : Items → Value
    object : Option Class → Fields → Value

  pub data Items : Type 0 where
    no_items : Items
    item : Value → Items → Items

  pub data Fields : Type 0 where
    no_fields : Fields
    field : Text → Value → Fields → Fields

-- What the decorators `ChildDto`, `Int64StringArray`, `Int64String`, `BigIntValueArray` and
-- `BigIntValue` note of a field.
pub record Metadata : Type 0 where
  pub child_dto : Option Class
  pub int64_string_array : Bool
  pub int64_string : Bool
  pub int64_bigint_array : Bool
  pub int64_bigint : Bool

-- What the source or its libraries throw; messages are left out.
pub data Failure : Type 0 where
  unsafe_number unexpected_type missing_key not_an_object not_a_bigint not_a_number : Failure
  unsupported_type : Failure

pub data Result (A : Type 0) : Type 0 where
  ok : A → Result A
  thrown : Failure → Result A

module _ {A B : Type 0} where
  infixl 1 ◌>>=◌
  abbrev pub ◌>>=◌ : Result A → (A → Result B) → Result B
  ok a >>= f = f a
  thrown e >>= f = thrown e

-- The Dto classes, and the parts of JavaScript and lossless-json that read the text of a number:
-- `toSafeNumberOrThrow` and `BigInt`, with the text that prints the result, or `none` where they
-- throw; the test of `new LosslessNumber`; and the key of an array index.
pub record Platform : Type 0 where
  pub metadata : Class → Text → Metadata
  pub lossless_dto : Class
  pub to_number : Text → Option Text
  pub to_bigint : Text → Option Text
  pub is_number : Text → Bool
  pub index_key : ℕ → Text
