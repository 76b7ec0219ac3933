-- ===== src/QuerySubscription/Tracking.antt =====
-- The window of recently emitted items of `_QuerySubscription`: a map from poll cycle to the set
-- of the hashes that were emitted in it, of which `trackingWindow` slots are in use.
pub mod Slots
pub mod Recency
use camunda_8_js_sdk.Base.{
  ℕ, zero, suc, ◌+◌, ◌-◌, ◌%◌, Bool, true, false, ◌||◌, Option, none, some, List, [], ◌∷◌,
  if◌then◌else◌, ◌==◌, any,
}
use camunda_8_js_sdk.Base.Int.{ℤ, eq_ℤ}

-- `_recentEmittedItems`, `_currentPollCycle` and `_trackingWindow`.
pub record Tracker : Type 0 where
  pub recent : List (ℕ × List ℤ)
  pub cycle : ℕ
  pub window : ℕ  -- 0 also for a negative window

-- `Map.get`, `Map.delete` and `Map.set`.
unfoldable pub slot : ℕ → List (ℕ × List ℤ) → Option (List ℤ)
slot c [] = none
slot c ((k, set) ∷ m) = if k == c then some set else slot c m

unfoldable pub delete : ℕ → List (ℕ × List ℤ) → List (ℕ × List ℤ)
delete c [] = []
delete c ((k, set) ∷ m) = let rest = delete c m in if k == c then rest else (k, set) ∷ rest

unfoldable pub put : ℕ → List ℤ → List (ℕ × List ℤ) → List (ℕ × List ℤ)
put c new [] = (c, new) ∷ []
put c new ((k, set) ∷ m) = if k == c then (c, new) ∷ m else (k, set) ∷ put c new m

-- `Set.has` and `Set.add`.
abbrev pub has : ℤ → List ℤ → Bool
has h [] = false
has h (g ∷ set) = eq_ℤ g h || has h set

unfoldable pub add : ℤ → List ℤ → List ℤ
add h set = if has h set then set else h ∷ set

abbrev pub in_slot : ℤ → Option (List ℤ) → Bool
in_slot h none = false
in_slot h (some set) = has h set

-- `getCycleItemSet`, where the window is not 0.
unfoldable pub cycle_item_set : Tracker → ℕ → Option (List ℤ)
cycle_item_set t offset = slot ((t.cycle + t.window - offset) % t.window) t.recent

-- The loop of `hasEmittedItem`: the offsets below `n`, which it tries from 0 on.
unfoldable pub found_below : Tracker → ℤ → ℕ → Bool
found_below t h zero = false
found_below t h (suc n) = found_below t h n || in_slot h (cycle_item_set t n)

unfoldable pub has_emitted : Tracker → ℤ → Bool
unfolding found_below
has_emitted t h = if t.window == 0 then false else found_below t h t.window

-- `advancePollCycle`.
unfoldable pub advance_poll_cycle : Tracker → Tracker
advance_poll_cycle t =
    if t.window == 0
    then t
    else let next = (t.cycle + 1) % t.window in
      record t { cycle = next; recent = delete next t.recent }

-- `getCurrentCycleItemSet`.
abbrev pub current_set : Option (List ℤ) → List ℤ
current_set none = []
current_set (some set) = set

-- `markItemAsEmitted`.
unfoldable pub mark_as_emitted : ℤ → Tracker → Tracker
mark_as_emitted h t =
    if t.window == 0
    then t
    else record t { recent = put t.cycle (add h (current_set (slot t.cycle t.recent))) t.recent }

unfoldable pub new_tracker : ℕ → Tracker
new_tracker window = record { recent = []; cycle = 0; window = window }
