-- ===== src/QuerySubscription/Hash.antt =====
-- `hashString` and `hashObject` of src/lib/QuerySubscription.ts. A text is its UTF-16 code units.
-- The sums are exact in the source while they stay below 2^53, and the base-36 text of a number
-- tells the same numbers apart as the number itself.
use camunda_8_js_sdk.Base.{ℕ, ◌+◌, ◌-◌, ◌*◌, ◌%◌, List, [], ◌∷◌, if◌then◌else◌, ltb}
use camunda_8_js_sdk.Base.Int.{ℤ, pos, negsuc, ◌+ℤ◌}

abbrev two_32 : ℕ
two_32 = 4294967296

abbrev two_31 : ℕ
two_31 = 2147483648

-- The remainder that a conversion to 32 bits keeps, and the signed number it stands for.
low_32 : ℤ → ℕ
low_32 (pos n) = n % two_32
low_32 (negsuc n) = two_32 - 1 - n % two_32

signed_32 : ℕ → ℤ
signed_32 u = if ltb u two_31 then pos u else negsuc (two_32 - 1 - u)

times_32 : ℤ → ℤ
times_32 (pos n) = pos (n * 32)
times_32 (negsuc n) = negsuc (n * 32 + 31)

-- `hash << 5`.
shift_5 : ℤ → ℤ
unfolding low_32 signed_32 times_32
shift_5 h = signed_32 (low_32 (times_32 h))

hash_from : ℤ → List ℕ → ℤ
unfolding shift_5
hash_from hash [] = hash
hash_from hash (c ∷ str) = hash_from (shift_5 hash +ℤ hash +ℤ pos c) str

unfoldable pub hash_string : List ℕ → ℤ
unfolding hash_from
hash_string str = hash_from (pos 5381) str
