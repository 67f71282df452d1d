-- ===== src/Order/Stored.antt =====
-- What a creation or a transition of an order that succeeds has written, to the row.
use mesh_cart.Base.{
  ◌≡◌, refl, sym, ap, ◌∙◌, List, [], ◌∷◌, ◌++◌, Bool, true, false, Option, some, ◌||◌,
  if◌then◌else◌,
}
use mesh_cart.Base.Int.{ℤ, pos, eq_ℤ, leb_ℤ}
use mesh_cart.Base.Lists.{any, find, is_empty, update_where}
use mesh_cart.Sql.{World, ok, err, duplicate_key}
use mesh_cart.Sql.Hoare.{
  OnOk, OnRows, Ensures, Ensures-bind, Ensures-if, Ensures-pure, Ensures-raise, Ensures-map_err,
  Ensures-statement, Ensures-or_raise, Ensures-transaction, Ensures-given,
}
use mesh_cart.Order.Model.{Order, OrderItem, OrderStatusLog, OrderDb}
use mesh_cart.Order.Tables.{
  has_order_id, is_order_in, insert_order, insert_items, insert_log, items_clash,
}
use mesh_cart.Order.Orders.{
  check_items, created_log, OrderTransition, apply_transition, transition_log,
  create_with_items_body, create_with_items,
}

module _ {S : Type 0} where
  abbrev add_log : OrderStatusLog → OrderDb S → OrderDb S
  add_log l d = record d { status_logs = d.status_logs ++ l ∷ [] }

  logged :
      (l : OrderStatusLog) (e : OrderDb S)
      → Ensures (λ d. d ≡ e) (insert_log l) (λ _ d. d ≡ add_log l e)
  unfolding insert_log
  logged l e = Ensures-statement _ λ d h. stored d h (any (λ t. eq_ℤ t.id l.id) d.status_logs)
    where
      stored :
          (d : OrderDb S)
          → d ≡ e
          → (c : Bool)
          → OnRows
              (λ _ d. d ≡ add_log l e)
              (if c then (err duplicate_key, d) else (ok tt, add_log l d))
      stored d h true = tt
      stored d h false = ap (add_log l) h

  abbrev add_order : Order → OrderDb S → OrderDb S
  add_order o d = record d { orders = d.orders ++ record o { items = [] } ∷ [] }

  ordered :
      (o : Order) (e : OrderDb S)
      → Ensures
          (λ d. d ≡ e)
          (insert_order o)
          (λ _ d. (d ≡ add_order o e) × (any (has_order_id o.order_id) e.orders ≡ false))
  unfolding insert_order
  ordered o e = Ensures-statement _ λ d h. stored d h (any (has_order_id o.order_id) d.orders) refl
    where
      stored :
          (d : OrderDb S)
          → d ≡ e
          → (c : Bool) → any (has_order_id o.order_id) d.orders ≡ c
          → OnRows
              (λ _ d. (d ≡ add_order o e) × (any (has_order_id o.order_id) e.orders ≡ false))
              (if c then (err duplicate_key, d) else (ok tt, add_order o d))
      stored d h true f = tt
      stored d h false f =
          (ap (add_order o) h, sym (ap (λ x. any (has_order_id o.order_id) x.orders) h) ∙ f)

  abbrev add_items : List OrderItem → OrderDb S → OrderDb S
  add_items is d = record d { order_items = d.order_items ++ is }

  itemed :
      (is : List OrderItem) (e : OrderDb S)
      → Ensures (λ d. d ≡ e) (insert_items is) (λ _ d. d ≡ add_items is e)
  unfolding insert_items
  itemed is e = Ensures-statement _ λ d h. stored d h (items_clash d.order_items is)
    where
      stored :
          (d : OrderDb S)
          → d ≡ e
          → (c : Bool)
          → OnRows
              (λ _ d. d ≡ add_items is e)
              (if c then (err duplicate_key, d) else (ok tt, add_items is d))
      stored d h true = tt
      stored d h false = ap (add_items is) h

  -- The rows after a creation: one order, its items, and its first log.
  abbrev pub with_order : Order → List OrderItem → OrderDb S → OrderDb S
  with_order o is d = record d {
    orders = d.orders ++ record o { items = [] } ∷ [];
    order_items = d.order_items ++ is;
    status_logs = d.status_logs ++ created_log o ∷ [];
  }

  module _ (order : Order) (items : List (Option OrderItem)) (before : OrderDb S) where
    abbrev Written : List OrderItem → OrderDb S → Type 0
    Written checked d =
        (check_items order.order_id items ≡ some checked)
        × (any (has_order_id order.order_id) before.orders ≡ false)
        × (d ≡ with_order order checked before)

    -- The order is new, its items pass the check, and it is handed back with them.
    abbrev pub IsCreated : Order → OrderDb S → Type 0
    IsCreated a d =
        (checked : List OrderItem) × (a ≡ record order { items = checked }) × Written checked d

    created_body : Ensures (λ d. d ≡ before) (create_with_items_body order items) Written
    unfolding create_with_items_body
    created_body = Ensures-bind _ (Ensures-map_err _ (ordered order before)) λ _.
        Ensures-given λ fresh. Ensures-bind _ (Ensures-or_raise _ _) λ checked. Ensures-given λ c.
          Ensures-bind _ (Ensures-map_err _ (itemed checked _)) λ _.
            Ensures-bind _ (Ensures-map_err _ (logged (created_log order) _))
              λ _. Ensures-pure checked λ d h. (c, fresh, h)

    created : Ensures (λ d. d ≡ before) (create_with_items order items) IsCreated
    unfolding create_with_items
    created =
        Ensures-if (leb_ℤ order.order_id (pos 0) || leb_ℤ order.user_id (pos 0) || is_empty items)
          (λ _. Ensures-raise _)
          λ _.
            Ensures-bind Written (Ensures-transaction _ created_body)
              λ checked. Ensures-pure _ λ d h. (checked, refl, h)

  -- Where the storing of an order succeeds, whatever could have failed: no order had its id, its
  -- items pass the check and it is handed back with them, and the tables are those of before with
  -- the order, its items and a log of its creation added.
  pub create_with_items_done :
      (order : Order) (items : List (Option OrderItem)) (w : World (OrderDb S))
      → OnOk (IsCreated order items w.db) (create_with_items order items w)
  create_with_items_done order items w = (created order items w.db).at w refl

  -- The rows after a transition of the order `o`: its new columns, and one more log.
  abbrev pub with_transition : OrderTransition → ℤ → Order → OrderDb S → OrderDb S
  with_transition t id o d = record d {
    orders = update_where (has_order_id t.order_id) (apply_transition t) d.orders;
    status_logs = d.status_logs ++ transition_log t id o.status ∷ [];
  }

  module _ (t : OrderTransition) (before : OrderDb S) where
    -- The order was in a status to go from, and is handed back with its new columns.
    abbrev pub IsTransitioned : Order → OrderDb S → Type 0
    IsTransitioned a d =
        (o : Order) × (find (is_order_in t.order_id t.from_statuses) before.orders ≡ some o)
        × (a ≡ apply_transition t o)
        × ((id : ℤ) × (d ≡ with_transition t id o before))

    abbrev set_columns : OrderDb S → OrderDb S
    set_columns d = record d {
      orders = update_where (has_order_id t.order_id) (apply_transition t) d.orders;
    }
