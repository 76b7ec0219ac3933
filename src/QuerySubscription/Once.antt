-- ===== src/QuerySubscription/Once.antt =====
-- `safeEmit` gives nothing to the listeners twice in the window.
use camunda_8_js_sdk.Base.{
  ℕ, zero, suc, ◌≤◌, ◌<◌, ◌≡◌, refl, sym, ap, ◌∙◌, Bool, true, false, ◌||◌, List, [], ◌∷◌, ◌++◌,
  arith, keep, any, Option-cases, inl, inr, ◌≢◌,
}
use camunda_8_js_sdk.Base.Int.{ℤ, eq_ℤ, eq_ℤ_iff}
use camunda_8_js_sdk.QuerySubscription.Tracking.{
  Tracker, has_emitted, advance_poll_cycle, mark_as_emitted,
}
use camunda_8_js_sdk.QuerySubscription.Tracking.Recency.{
  Op, advance, mark, track, recently, has_emitted-track,
}
use camunda_8_js_sdk.QuerySubscription.Emission.{
  QueryResult, items_of, item_hash, mark_all, unseen, safe_emit,
}
use camunda_8_js_sdk.QuerySubscription.Unseen.{safe_emit-none, safe_emit-items}

true_ne_false : true ≢ false
true_ne_false e = cc

-- The poll cycles that a log begins.
abbrev pub cycles : List Op → ℕ
cycles [] = 0
cycles (advance ∷ log) = suc (cycles log)
cycles (mark h ∷ log) = cycles log

-- A log carried out on a tracker, its newest entry last.
abbrev pub replay : List Op → Tracker → Tracker
replay [] t = t
replay (advance ∷ log) t = advance_poll_cycle (replay log t)
replay (mark h ∷ log) t = mark_as_emitted h (replay log t)

replay-track :
    (window : ℕ) (later log : List Op)
    → replay later (track window log) ≡ track window (later ++ log)
unfolding track
replay-track window [] log = refl
replay-track window (advance ∷ later) log = ap advance_poll_cycle (replay-track window later log)
replay-track window (mark h ∷ later) log = ap (mark_as_emitted h) (replay-track window later log)

recently_le :
    (k l : ℕ) (log : List Op) (h : ℤ) → k ≤ l → recently k log h ≡ true → recently l log h ≡ true
recently_le zero l log h le e = cc
recently_le (suc k) zero log h le e = ground arith
recently_le (suc k) (suc l) [] h le e = cc
recently_le (suc k) (suc l) (advance ∷ log) h le e = recently_le k l log h (omega arith) e
recently_le (suc k) (suc l) (mark g ∷ log) h le e =
    ground (arith, recently_le (suc k) (suc l) log h)

recently_later :
    (later log : List Op) (h : ℤ)
    → recently 1 log h ≡ true
    → recently (suc (cycles later)) (later ++ log) h ≡ true
recently_later [] log h e = e
recently_later (advance ∷ later) log h e = recently_later later log h e
recently_later (mark g ∷ later) log h e = ground (arith, recently_later later log h e)

recently_within :
    (window : ℕ) (later log : List Op) (h : ℤ)
    → cycles later < window
    → recently 1 log h ≡ true
    → recently window (later ++ log) h ≡ true
recently_within window later log h lt e =
    recently_le (suc (cycles later)) window (later ++ log) h (omega arith)
      (recently_later later log h e)

module _ {Item : Type 0} (stringify : Item → List ℕ) where
  -- Whether an item of a list has this hash.
  abbrev pub hashed : ℤ → List Item → Bool
  hashed h = any λ item. eq_ℤ (item_hash stringify item) h

  marks : List Item → List Op → List Op
  marks [] log = log
  marks (item ∷ items) log = marks items (mark (item_hash stringify item) ∷ log)

  mark_all-track :
      (window : ℕ) (items : List Item) (log : List Op)
      → mark_all stringify items (track window log) ≡ track window (marks items log)
  unfolding mark_all marks track
  mark_all-track window [] log = refl
  mark_all-track window (item ∷ items) log =
      mark_all-track window items (mark (item_hash stringify item) ∷ log)

  recently-marks :
      (items : List Item) (log : List Op) (h : ℤ)
      → (hashed h items || recently 1 log h) ≡ true
      → recently 1 (marks items log) h ≡ true
  unfolding marks any
  recently-marks [] log h e = e
  recently-marks (item ∷ items) log h e =
      recently-marks items (mark (item_hash stringify item) ∷ log) h (ground arith)

  -- A hash that the window holds is not among the hashes of the unseen items.
  hashed-unseen :
      (t : Tracker) (h : ℤ) (items : List Item)
      → has_emitted t h ≡ true
      → hashed h (unseen stringify t items) ≡ false
  unfolding any keep
  hashed-unseen t h [] e = refl
  hashed-unseen t h (item ∷ items) e =
      ground (arith, hashed-unseen t h items e, eq_ℤ_iff (item_hash stringify item) h)

  module _ {Other : Type 0} where
    hashed-safe_emit :
        (t : Tracker) (h : ℤ) (r : QueryResult Item Other)
        → has_emitted t h ≡ true
        → hashed h (items_of (safe_emit stringify t r).1) ≡ false
    unfolding any
    hashed-safe_emit t h r e = elim (Option-cases r.items) [
      | inl no_items ↦ ap (hashed h) (safe_emit-none stringify t r no_items)
      | inr (items, found) ↦
          ap (hashed h) (safe_emit-items stringify t r items found).1 ∙ hashed-unseen t h items e
    ]

    marked-safe_emit :
        (window : ℕ) (log : List Op) (h : ℤ) (r : QueryResult Item Other)
        → hashed h (items_of (safe_emit stringify (track window log) r).1) ≡ true
        → (marked : List Op) × ((safe_emit stringify (track window log) r).0 ≡ track window marked)
          × (recently 1 marked h ≡ true)
    unfolding any
    marked-safe_emit window log h r e = elim (Option-cases r.items) [
      | inl no_items ↦
          let empty = safe_emit-none stringify (track window log) r no_items in
          absurd (true_ne_false (sym e ∙ ap (hashed h) empty))
      | inr (items, found) ↦
          let fresh : List Item = unseen stringify (track window log) items in
          let (tracked, given) = safe_emit-items stringify (track window log) r items found in
          let seen : hashed h fresh ≡ true = sym (ap (hashed h) given) ∙ e in
          (
            marks fresh log,
            tracked ∙ mark_all-track window fresh log,
            recently-marks fresh log h (ground arith),
          )
    ]

    -- Whatever was tracked before: once an item is emitted, no item with the same hash is emitted
    -- again until `trackingWindow` further poll cycles have begun, whatever else is marked meanwhile.
    pub safe_emit-once :
        (window : ℕ) (log later : List Op) (h : ℤ) (r r' : QueryResult Item Other)
        → hashed h (items_of (safe_emit stringify (track window log) r).1) ≡ true
        → cycles later < window
        → hashed h (
            items_of
              (safe_emit stringify
                (replay later (safe_emit stringify (track window log) r).0)
                r').1)
          ≡ false
    safe_emit-once window log later h r r' e lt =
        let (marked, same, recent) = marked-safe_emit window log h r e in
        let t : Tracker = replay later (safe_emit stringify (track window log) r).0 in
        let known : has_emitted t h ≡ true =
          ap (λ u. has_emitted (replay later u) h) same
          ∙ ap (λ u. has_emitted u h) (replay-track window later marked)
          ∙ has_emitted-track window (later ++ marked) h
          ∙ recently_within window later marked h lt recent in
        hashed-safe_emit t h r' known
