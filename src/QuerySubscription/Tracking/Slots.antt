-- ===== src/QuerySubscription/Tracking/Slots.antt =====
-- The map of slots, and which slot an offset from the current cycle names.
use native.Mathlib.Nat.{mod-eq_of_lt, mod_self, add-mod_right}
use native.Mathlib.Decide.{dec_le, dec_lt}
use camunda_8_js_sdk.Base.{
  ◌∙◌, ℕ, suc, ◌+◌, ◌-◌, ◌%◌, ◌≤◌, ◌<◌, ◌≡◌, ◌≢◌, true, ◌||◌, none, some, List, [], ◌∷◌,
  if◌then◌else◌, ◌==◌, arith,
}
use camunda_8_js_sdk.Base.Int.{ℤ, eq_ℤ, eq_ℤ_iff}
use camunda_8_js_sdk.QuerySubscription.Tracking.{slot, delete, put, has, add}

pub slot-delete :
    (c d : ℕ) (m : List (ℕ × List ℤ)) → slot d (delete c m) ≡ (if c == d then none else slot d m)
unfolding slot delete
slot-delete c d [] = ground arith
slot-delete c d ((k, set) ∷ m) = ground (arith, slot-delete c d m)

pub slot-put :
    (c d : ℕ) (new : List ℤ) (m : List (ℕ × List ℤ))
    → slot d (put c new m) ≡ (if c == d then some new else slot d m)
unfolding slot put
slot-put c d new [] = ground arith
slot-put c d new ((k, set) ∷ m) = ground (arith, slot-put c d new m)

has_eq : (g h : ℤ) (set : List ℤ) → has g set ≡ true → eq_ℤ g h ≡ true → has h set ≡ true
has_eq g h [] p q = cc
has_eq g h (x ∷ set) p q = ground (arith, has_eq g h set, eq_ℤ_iff g h)

pub has-add : (g h : ℤ) (set : List ℤ) → has h (add g set) ≡ (eq_ℤ g h || has h set)
unfolding add
has-add g h set = ground (arith, has_eq g h set)

-- The slot that an offset names.
abbrev pub index : ℕ → ℕ → ℕ → ℕ
index window cycle offset = (cycle + window - offset) % window

pub index_back : (w c i : ℕ) → c < w → i ≤ c → index w c i ≡ c - i
index_back w c i h k =
    let e : c + w - i ≡ c - i + w = omega arith in
    rw (e, add-mod_right (c - i) w) (mod-eq_of_lt (omega arith))

pub index_round : (w c i : ℕ) → c < w → c < i → i < w → index w c i ≡ c + w - i
index_round w c i h k l = mod-eq_of_lt (omega arith)

pub next_back : (w c : ℕ) → c + 1 < w → (c + 1) % w ≡ c + 1
next_back w c h = mod-eq_of_lt h

pub next_round : (w c : ℕ) → c + 1 ≡ w → (c + 1) % w ≡ 0
next_round w c e = rw e (mod_self w)

-- The current slot is offset 0, and no other offset in use.
pub index_zero : (w c : ℕ) → c < w → index w c 0 ≡ c
index_zero w c h = index_back w c 0 h (omega arith) ∙ omega arith

pub index-ne-cycle : (w c i : ℕ) → c < w → 0 < i → i < w → index w c i ≢ c
index-ne-cycle w c i h pos lt e = elim (dec_le i c) [
  | yes k ↦ omega (arith, index_back w c i h k)
  | no k ↦ omega (arith, index_round w c i h (omega arith) lt)
]

-- Stepping the cycle on moves every slot one offset back.
pub index_next : (w c i : ℕ) → c < w → suc i < w → index w ((c + 1) % w) (suc i) ≡ index w c i
index_next w c i h lt = elim (dec_lt (c + 1) w) [
  | yes k ↦ let e : c + 1 + w - suc i ≡ c + w - i = omega arith in rw (next_back w c k, e)
  | no k ↦
      let last : c + 1 ≡ w = omega arith in
      let fresh = index_round w 0 (suc i) (omega arith) (omega arith) lt in
      rw (next_round w c last) (omega (arith, fresh, index_back w c i h (omega arith)))
]
