-- ===== src/QuerySubscription/Emission.antt =====
-- `defaultPredicate` and `safeEmit` of src/lib/QuerySubscription.ts.
use camunda_8_js_sdk.Base.{
  ℕ, ◌≡◌, Bool, not, Option, none, some, List, [], ◌∷◌, if◌then◌else◌, ◌==◌, length, keep, any,
  or_else,
}
use camunda_8_js_sdk.Base.Int.{ℤ}
use camunda_8_js_sdk.QuerySubscription.Hash.{hash_string}
use camunda_8_js_sdk.QuerySubscription.Tracking.{Tracker, has_emitted, mark_as_emitted}

-- A query result, as far as it is looked at: `items`, `page.totalItems`, and all else.
pub record QueryResult (Item Other : Type 0) : Type 0 where
  pub items : Option (List Item)
  pub total_items : Option ℕ
  pub other : Other

-- `{ ...data, items, page: { ...data.page, totalItems: items.length } }`, where there is a page.
recount : ℕ → Option ℕ → Option ℕ
recount n none = none
recount n (some total) = some n

module _ {Item Other : Type 0} where
  unfoldable pub with_items : List Item → QueryResult Item Other → QueryResult Item Other
  unfolding recount
  with_items found data_ = record data_ {
    items = some found;
    total_items = recount (length found) data_.total_items;
  }

  abbrev pub items_of : Option (QueryResult Item Other) → List Item
  items_of none = []
  items_of (some r) = or_else r.items []

  -- Exactly these items are emitted, with all else but the page of the result, and none at all where there are none.
  abbrev pub Emits : List Item → QueryResult Item Other → Option (QueryResult Item Other) → Type 0
  Emits [] r o = o ≡ none
  Emits (x ∷ xs) r o =
      (given : QueryResult Item Other) × (o ≡ some given)
      × (given.items ≡ some (x ∷ xs))
      × (given.other ≡ r.other)

  -- Node's `isDeepStrictEqual` decides which items are the same.
  module _ (is_deep_strict_equal : Item → Item → Bool) where
    new_to : List Item → QueryResult Item Other → List Item → Option (QueryResult Item Other)
    unfolding with_items keep any
    new_to previous current items =
        let found =
          keep (λ item. not (any (λ prev. is_deep_strict_equal prev item) previous)) items in
        if length found == 0 then none else some (with_items found current)

    new_items :
        List Item → QueryResult Item Other → Option (List Item) → Option (QueryResult Item Other)
    unfolding new_to
    new_items previous current none = none
    new_items previous current (some items) = new_to previous current items

    -- `none` is `false`: do not emit.
    unfoldable pub default_predicate :
        Option (QueryResult Item Other) → QueryResult Item Other → Option (QueryResult Item Other)
    unfolding new_items
    default_predicate previous current = new_items (items_of previous) current current.items

-- `JSON.stringify` gives the text of an item that is hashed.
module _ {Item : Type 0} (stringify : Item → List ℕ) where
  abbrev pub item_hash : Item → ℤ
  item_hash item = hash_string (stringify item)

  unfoldable pub mark_all : List Item → Tracker → Tracker
  mark_all [] t = t
  mark_all (item ∷ items) t = mark_all items (mark_as_emitted (item_hash item) t)

  abbrev pub unseen : Tracker → List Item → List Item
  unseen t = keep λ item. not (has_emitted t (item_hash item))

  module _ {Other : Type 0} where
    unfoldable pub emit_items :
        Tracker → QueryResult Item Other → List Item → Tracker × Option (QueryResult Item Other)
    unfolding mark_all with_items
    emit_items t data_ items =
        let found = unseen t items in
        if length found == 0
        then (t, none)
        else if not (length found == length items)
        then (mark_all found t, some (with_items found data_))
        else (mark_all items t, some data_)

    unfoldable pub emit_result :
        Tracker
        → QueryResult Item Other
        → Option (List Item)
        → Tracker × Option (QueryResult Item Other)
    unfolding emit_items
    emit_result t data_ none = (t, some data_)
    emit_result t data_ (some items) = emit_items t data_ items

    -- The tracker after `safeEmit`, and what it emitted.
    unfoldable pub safe_emit :
        Tracker → QueryResult Item Other → Tracker × Option (QueryResult Item Other)
    unfolding emit_result
    safe_emit t data_ = emit_result t data_ data_.items
