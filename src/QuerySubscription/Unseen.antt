-- ===== src/QuerySubscription/Unseen.antt =====
-- What `safeEmit` gives to the listeners.
use camunda_8_js_sdk.Base.{
  ℕ, ◌≤◌, ◌≡◌, refl, sym, ap, ◌∙◌, Bool, not, Option, none, some, List, [], ◌∷◌, arith, length,
  keep, if_rule, ◌==◌, ◌≢◌,
}
use camunda_8_js_sdk.QuerySubscription.Tracking.{Tracker, has_emitted}
use camunda_8_js_sdk.QuerySubscription.Emission.{
  QueryResult, with_items, items_of, Emits, item_hash, mark_all, unseen, emit_items, emit_result,
  safe_emit,
}

length-keep : {A : Type 0} (p : A → Bool) (xs : List A) → length (keep p xs) ≤ length xs
unfolding keep
length-keep p [] = omega arith
length-keep p (x ∷ xs) = ground (arith, length-keep p xs)

keep_all :
    {A : Type 0} (p : A → Bool) (xs : List A) → length (keep p xs) ≡ length xs → keep p xs ≡ xs
unfolding keep
keep_all p [] e = refl
keep_all p (x ∷ xs) e = ground (arith, length-keep p xs, keep_all p xs)

length_zero : {A : Type 0} (xs : List A) → length xs ≡ 0 → xs ≡ []
length_zero [] e = refl
length_zero (x ∷ xs) e = cc

some_inj : {A : Type 0} {x y : A} → some x ≡ some y → x ≡ y
some_inj e = cc

module _ {Item Other : Type 0} (stringify : Item → List ℕ) where
  emit_items-unseen :
      (t : Tracker) (r : QueryResult Item Other) (items : List Item)
      → r.items ≡ some items
      → ((emit_items stringify t r items).0 ≡ mark_all stringify (unseen stringify t items) t)
        × (items_of (emit_items stringify t r items).1 ≡ unseen stringify t items)
  unfolding emit_items with_items mark_all
  emit_items-unseen t r items e =
      let found : List Item = unseen stringify t items in
      let none_found = length_zero found in
      let all_found = keep_all (λ item. not (has_emitted t (item_hash stringify item))) items in
      ground arith

  emit_result-unseen :
      (t : Tracker) (r : QueryResult Item Other) (items : List Item) (o : Option (List Item))
      → r.items ≡ some items
      → o ≡ some items
      → ((emit_result stringify t r o).0 ≡ mark_all stringify (unseen stringify t items) t)
        × (items_of (emit_result stringify t r o).1 ≡ unseen stringify t items)
  unfolding emit_result
  emit_result-unseen t r items none e e' = cc
  emit_result-unseen t r items (some items') e e' = rw (some_inj e') (emit_items-unseen t r items e)

  emit_result-none :
      (t : Tracker) (r : QueryResult Item Other) (o : Option (List Item))
      → r.items ≡ none
      → o ≡ none
      → items_of (emit_result stringify t r o).1 ≡ []
  unfolding emit_result
  emit_result-none t r none e e' = rw e refl
  emit_result-none t r (some items) e e' = cc

  pub safe_emit-none :
      (t : Tracker) (r : QueryResult Item Other)
      → r.items ≡ none
      → items_of (safe_emit stringify t r).1 ≡ []
  unfolding safe_emit
  safe_emit-none t r e = emit_result-none t r r.items e e

  pub safe_emit-items :
      (t : Tracker) (r : QueryResult Item Other) (items : List Item)
      → r.items ≡ some items
      → ((safe_emit stringify t r).0 ≡ mark_all stringify (unseen stringify t items) t)
        × (items_of (safe_emit stringify t r).1 ≡ unseen stringify t items)
  unfolding safe_emit
  safe_emit-items t r items e = emit_result-unseen t r items r.items e e

  found-Emits :
      (found : List Item) (r given : QueryResult Item Other)
      → found ≢ []
      → given.items ≡ some found
      → given.other ≡ r.other
      → Emits found r (some given)
  found-Emits [] r given filled e same = absurd (filled refl)
  found-Emits (x ∷ xs) r given filled e same = (given, refl, e, same)

  emit_items-Emits :
      (t : Tracker) (r : QueryResult Item Other) (items : List Item)
      → r.items ≡ some items
      → Emits (unseen stringify t items) r (emit_items stringify t r items).1
  unfolding emit_items with_items
  emit_items-Emits t r items e =
      let found : List Item = unseen stringify t items in
      if_rule (λ (q : Tracker × Option (QueryResult Item Other)). Emits found r q.1)
        (length found == 0) (λ z. rw (length_zero found (ground arith)) refl)
        (λ f.
          if_rule (λ (q : Tracker × Option (QueryResult Item Other)). Emits found r q.1)
            (not (length found == length items))
            (λ d. found-Emits found r (with_items found r) (λ z. ground arith) refl refl)
            (λ d.
              found-Emits found r r (λ z. ground arith)
                (e
                  ∙ ap some (
                      sym (
                        keep_all (λ item. not (has_emitted t (item_hash stringify item))) items
                          (ground arith))))
                refl))

  emit_result-Emits :
      (t : Tracker) (r : QueryResult Item Other) (items : List Item) (o : Option (List Item))
      → r.items ≡ some items
      → o ≡ some items
      → Emits (unseen stringify t items) r (emit_result stringify t r o).1
  unfolding emit_result
  emit_result-Emits t r items none e e' = cc
  emit_result-Emits t r items (some items') e e' = rw (some_inj e') (emit_items-Emits t r items e)

  -- `safeEmit` on a result with items: the listeners get one result, with exactly the items that were not emitted in
  -- the window, in their order, and what is neither items nor page as it was, and they are not called where no such
  -- item is; and exactly these items are marked, in the current cycle.
  pub safe_emit-unseen :
      (t : Tracker) (r : QueryResult Item Other) (items : List Item)
      → r.items ≡ some items
      → ((safe_emit stringify t r).0 ≡ mark_all stringify (unseen stringify t items) t)
        × Emits (unseen stringify t items) r (safe_emit stringify t r).1
  unfolding safe_emit
  safe_emit-unseen t r items e =
      ((emit_result-unseen t r items r.items e e).0, emit_result-Emits t r items r.items e e)
