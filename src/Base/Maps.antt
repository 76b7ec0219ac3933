-- ===== src/Base/Maps.antt =====
-- Maps and sets keyed by native numbers, as association lists and lists.
use Prim.Native.Nat.{ℕ, suc}
use mathlib.Core.Path.{◌≡◌}
use mathlib.Core.Bool.{Bool, false, ◌||◌}
use mathlib.Core.List.{List, [], ◌∷◌}
use mathlib.Core.Option.{Option, none, some}
use native.Mathlib.Omega.{arith}
use camunda_8_js_sdk.Base.Tests.{if◌then◌else◌, ◌==◌, ==_iff, ==_self}

module _ {ℓ} {A : Type ℓ} where
  unfoldable pub find : ℕ → List (ℕ × A) → Option A
  find k [] = none
  find k ((l, a) ∷ m) = if l == k then some a else find k m

  unfoldable pub erase : ℕ → List (ℕ × A) → List (ℕ × A)
  erase k [] = []
  erase k ((l, a) ∷ m) = let rest = erase k m in if l == k then rest else (l, a) ∷ rest

  unfoldable pub insert : ℕ → A → List (ℕ × A) → List (ℕ × A)
  unfolding erase
  insert k a m = (k, a) ∷ erase k m

unfoldable pub member : ℕ → List ℕ → Bool
member k [] = false
member k (l ∷ s) = l == k || member k s

unfoldable pub without : ℕ → List ℕ → List ℕ
without k [] = []
without k (l ∷ s) = let rest = without k s in if l == k then rest else l ∷ rest

pub member-without :
    (k l : ℕ) (s : List ℕ) → member l (without k s) ≡ (if k == l then false else member l s)
unfolding member without
member-without k l [] = ground arith
member-without k l (j ∷ s) =
    ground (arith, member-without k l s, ==_self l, ==_self k, ==_iff k l, ==_iff j l, ==_iff j k)

-- How often a number stands in a list.
unfoldable pub count : ℕ → List ℕ → ℕ
count k [] = 0
count k (l ∷ s) = let rest = count k s in if l == k then suc rest else rest
