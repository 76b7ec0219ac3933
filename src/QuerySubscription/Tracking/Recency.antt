-- ===== src/QuerySubscription/Tracking/Recency.antt =====
-- The window against the log of what was marked: the map of slots holds exactly the marks of the
-- last `window` poll cycles.
use native.Mathlib.Nat.{mod-lt}
use camunda_8_js_sdk.Base.{
  ℕ, zero, suc, ◌+◌, ◌%◌, ◌≤◌, ◌<◌, ◌≡◌, refl, sym, ap, ◌∙◌, Bool, false, ◌||◌, Option, none, some,
  List, [], ◌∷◌, arith,
}
use camunda_8_js_sdk.Base.Int.{ℤ, eq_ℤ}
use camunda_8_js_sdk.QuerySubscription.Tracking.{
  Tracker, in_slot, has, cycle_item_set, found_below, has_emitted, slot, add, current_set,
  advance_poll_cycle, mark_as_emitted, new_tracker,
}
use camunda_8_js_sdk.QuerySubscription.Tracking.Slots.{
  slot-delete, slot-put, has-add, index, index_zero, index-ne-cycle, index_next,
}

-- What was done to a tracker, newest first.
pub data Op : Type 0 where
  advance : Op
  mark : ℤ → Op

unfoldable pub track : ℕ → List Op → Tracker
track window [] = new_tracker window
track window (advance ∷ log) = advance_poll_cycle (track window log)
track window (mark h ∷ log) = mark_as_emitted h (track window log)

-- Whether a hash was marked, and since then the cycle advanced fewer than `k` times.
abbrev pub recently : ℕ → List Op → ℤ → Bool
recently zero log h = false
recently (suc k) [] h = false
recently (suc k) (advance ∷ log) h = recently k log h
recently (suc k) (mark g ∷ log) h = eq_ℤ g h || recently (suc k) log h

-- Whether a hash was marked in the cycle that lies `i` back.
abbrev marked_in : ℕ → List Op → ℤ → Bool
marked_in i [] h = false
marked_in zero (advance ∷ log) h = false
marked_in (suc i) (advance ∷ log) h = marked_in i log h
marked_in zero (mark g ∷ log) h = eq_ℤ g h || marked_in zero log h
marked_in (suc i) (mark g ∷ log) h = marked_in (suc i) log h

in_slot_lem : (h : ℤ) (set : Option (List ℤ)) → in_slot h set ≡ has h (current_set set)
in_slot_lem h none = refl
in_slot_lem h (some set) = refl

fresh_slot : (window i : ℕ) (h : ℤ) → in_slot h (cycle_item_set (new_tracker window) i) ≡ false
unfolding new_tracker cycle_item_set slot
fresh_slot window i h = refl

track_zero : (log : List Op) → (track 0 log).window ≡ 0
unfolding track new_tracker advance_poll_cycle mark_as_emitted
track_zero [] = refl
track_zero (advance ∷ log) = ground (arith, track_zero log)
track_zero (mark g ∷ log) = ground (arith, track_zero log)

-- One operation on the slots of a tracker whose cycle is within its window.
module _ (t : Tracker) (in_range : t.cycle < t.window) where
  next_in_range : (t.cycle + 1) % t.window < t.window
  next_in_range = mod-lt (t.cycle + 1) (omega arith)

  advance_zero : cycle_item_set (advance_poll_cycle t) 0 ≡ none
  unfolding cycle_item_set advance_poll_cycle
  advance_zero = ground (
    arith,
    next_in_range,
    index_zero t.window ((t.cycle + 1) % t.window) next_in_range,
    slot-delete ((t.cycle + 1) % t.window) ((t.cycle + 1) % t.window) t.recent,
  )

  advance_suc :
      (i : ℕ)
      → suc i < t.window
      → cycle_item_set (advance_poll_cycle t) (suc i) ≡ cycle_item_set t i
  unfolding cycle_item_set advance_poll_cycle
  advance_suc i lt = ground (
    arith,
    index_next t.window t.cycle i in_range lt,
    index-ne-cycle t.window ((t.cycle + 1) % t.window) (suc i) next_in_range (omega arith) lt,
    slot-delete ((t.cycle + 1) % t.window) (index t.window t.cycle i) t.recent,
  )

  mark_zero :
      (g h : ℤ)
      → in_slot h (cycle_item_set (mark_as_emitted g t) 0)
        ≡ (eq_ℤ g h || in_slot h (cycle_item_set t 0))
  unfolding cycle_item_set mark_as_emitted
  mark_zero g h = ground (
    arith,
    index_zero t.window t.cycle in_range,
    slot-put t.cycle t.cycle (add g (current_set (slot t.cycle t.recent))) t.recent,
    has-add g h (current_set (slot t.cycle t.recent)),
    in_slot_lem h (slot t.cycle t.recent),
  )

  mark_suc :
      (g : ℤ) (i : ℕ)
      → suc i < t.window
      → cycle_item_set (mark_as_emitted g t) (suc i) ≡ cycle_item_set t (suc i)
  unfolding cycle_item_set mark_as_emitted
  mark_suc g i lt = ground (
    arith,
    index-ne-cycle t.window t.cycle (suc i) in_range (omega arith) lt,
    slot-put t.cycle (index t.window t.cycle (suc i)) (add g (current_set (slot t.cycle t.recent)))
        t.recent,
  )

  advance_kept :
      ((advance_poll_cycle t).window ≡ t.window) × ((advance_poll_cycle t).cycle < t.window)
  unfolding advance_poll_cycle
  advance_kept = ground (arith, next_in_range)

  mark_kept :
      (g : ℤ) → ((mark_as_emitted g t).window ≡ t.window) × ((mark_as_emitted g t).cycle ≡ t.cycle)
  unfolding mark_as_emitted
  mark_kept g = ground arith

module _ (window : ℕ) (pos : 0 < window) where
  pub track_kept :
      (log : List Op) → ((track window log).window ≡ window) × ((track window log).cycle < window)
  unfolding track new_tracker
  track_kept [] = (refl, pos)
  track_kept (advance ∷ log) =
      let ih = track_kept log in
      let kept = advance_kept (track window log) (omega arith) in (kept.0 ∙ ih.0, omega arith)
  track_kept (mark g ∷ log) =
      let ih = track_kept log in
      let kept = mark_kept (track window log) (omega arith) g in (kept.0 ∙ ih.0, omega arith)

  -- The slots in use hold the marks.
  track_slots :
      (log : List Op) (i : ℕ) (h : ℤ)
      → i < window
      → in_slot h (cycle_item_set (track window log) i) ≡ marked_in i log h
  unfolding track
  track_slots [] i h lt = fresh_slot window i h
  track_slots (advance ∷ log) zero h lt =
      let kept = track_kept log in rw (advance_zero (track window log) (omega arith))
  track_slots (advance ∷ log) (suc i) h lt =
      let kept = track_kept log in
      rw (advance_suc (track window log) (omega arith) i (omega arith))
        (track_slots log i h (omega arith))
  track_slots (mark g ∷ log) zero h lt =
      let kept = track_kept log in
      mark_zero (track window log) (omega arith) g h
      ∙ ap (◌||◌ (eq_ℤ g h)) (track_slots log zero h lt)
  track_slots (mark g ∷ log) (suc i) h lt =
      let kept = track_kept log in
      rw (mark_suc (track window log) (omega arith) g i (omega arith))
        (track_slots log (suc i) h lt)

-- Whether a hash was marked in one of the last `k` cycles.
abbrev marked_below : ℕ → List Op → ℤ → Bool
marked_below zero log h = false
marked_below (suc k) log h = marked_below k log h || marked_in k log h

marked_below_nil : (k : ℕ) (h : ℤ) → marked_below k [] h ≡ false
marked_below_nil zero h = refl
marked_below_nil (suc k) h = ground (arith, marked_below_nil k h)

marked_below_advance :
    (k : ℕ) (log : List Op) (h : ℤ) → marked_below (suc k) (advance ∷ log) h ≡ marked_below k log h
marked_below_advance zero log h = refl
marked_below_advance (suc k) log h = ground (arith, marked_below_advance k log h)

marked_below_mark :
    (k : ℕ) (g : ℤ) (log : List Op) (h : ℤ)
    → marked_below (suc k) (mark g ∷ log) h ≡ (eq_ℤ g h || marked_below (suc k) log h)
marked_below_mark zero g log h = ground arith
marked_below_mark (suc k) g log h = ground (arith, marked_below_mark k g log h)

recently_lem : (k : ℕ) (log : List Op) (h : ℤ) → recently k log h ≡ marked_below k log h
recently_lem zero log h = refl
recently_lem (suc k) [] h = sym (marked_below_nil (suc k) h)
recently_lem (suc k) (advance ∷ log) h = recently_lem k log h ∙ sym (marked_below_advance k log h)
recently_lem (suc k) (mark g ∷ log) h =
    ap (◌||◌ (eq_ℤ g h)) (recently_lem (suc k) log h) ∙ sym (marked_below_mark k g log h)

found_lem :
    (window : ℕ) (pos : 0 < window) (log : List Op) (h : ℤ) (k : ℕ)
    → k ≤ window
    → found_below (track window log) h k ≡ marked_below k log h
unfolding found_below
found_lem window pos log h zero le = refl
found_lem window pos log h (suc k) le =
    ground (arith, found_lem window pos log h k, track_slots window pos log k h)

-- After any poll cycles and marks, in any order, the map of slots finds a hash exactly if the hash
-- was marked and fewer than `window` cycles have begun since; with a window of 0 it finds none.
pub has_emitted-track :
    (window : ℕ) (log : List Op) (h : ℤ) → has_emitted (track window log) h ≡ recently window log h
unfolding has_emitted
has_emitted-track zero log h = let none_used = track_zero log in ground arith
has_emitted-track (suc w) log h =
    let pos : 0 < suc w = omega arith in
    let kept = track_kept (suc w) pos log in
    let found = found_lem (suc w) pos log h (suc w) (omega arith) in
    let spec = recently_lem (suc w) log h in ground arith
