-- ===== src/Order/History/Tables.antt =====
-- Every repository call of the order service keeps the histories, whatever fails on the way.
use mesh_cart.Base.{
  ◌≡◌, refl, ap, ◌∙◌, String, List, [], ◌∷◌, ◌++◌, Bool, true, false, Option, some, ◌||◌,
  if◌then◌else◌, arith,
}
use mesh_cart.Base.Int.{ℤ, pos, eq_ℤ}
use mesh_cart.Base.Lists.{any, find, update_where, mem_ℤ}
use mesh_cart.Base.Rows.{any-find, find-true}
use mesh_cart.Sql.{Fault, Result, ok, err, duplicate_key}
use mesh_cart.Sql.Hoare.{
  OnRows, Ensures, Ensures-bind, Ensures-pure, Ensures-map_err, Ensures-statement, Ensures-write,
  Ensures-take_row, Ensures-any_id, Ensures-or_raise, Ensures-weaken, Keeps, Keeps-pure,
  Keeps-raise, Keeps-bind, Keeps-if, Keeps-map_err, Keeps-read, Keeps-take_row, Keeps-statement,
  Keeps-raise_if, Keeps-transaction,
}
use mesh_cart.App.Time.{Time}
use mesh_cart.Order.Model.{Order, OrderItem, OrderStatusLog, OrderActionRecord, OrderDb}
use mesh_cart.Order.Errors.{driver}
use mesh_cart.Order.Tables.{
  has_order_id, is_order_in, is_action, insert_order, insert_items, items_clash, insert_log,
  insert_action, update_actions,
}
use mesh_cart.Order.Orders.{
  created_log, OrderTransition, apply_transition, transition_log, create_with_items_body,
  create_with_items, get_by_order_id, get_by_id, list_by_user_id, transition_body,
  transition_status, list_expired_orders,
}
use mesh_cart.Order.Actions.{
  get_action_record, create_action_record, update_some_action, mark_action_record_succeeded,
  mark_action_record_failed, mark_action_record_succeeded_by_id, mark_action_record_failed_by_id,
}
use mesh_cart.Order.History.{is_edge, IsLogged, Grown}
use mesh_cart.Order.History.Writes.{created_Logged, moved_Logged}

append_assoc : (xs ys zs : List OrderStatusLog) → (xs ++ ys) ++ zs ≡ xs ++ (ys ++ zs)
append_assoc [] ys zs = refl
append_assoc (x ∷ xs) ys zs = ap (λ l. x ∷ l) (append_assoc xs ys zs)

-- From each of its statuses the transition is a change that is meant.
abbrev pub IsMeant : OrderTransition → Type 0
IsMeant t =
    (o : Order) → mem_ℤ o.status t.from_statuses ≡ true → is_edge o.status t.to_status ≡ true

module _ {S : Type 0} (earlier : List OrderStatusLog) where
  abbrev pub G : OrderDb S → Type 0
  G = Grown earlier

  -- A row in between: the order is written, its log is not.
  abbrev Waiting : OrderStatusLog → OrderDb S → Type 0
  Waiting l d =
      IsLogged d.orders (d.status_logs ++ l ∷ [])
      × ((later : List OrderStatusLog) × (d.status_logs ≡ earlier ++ later))

  logged : (l : OrderStatusLog) → Ensures (Waiting l) (insert_log l) (λ _. G)
  unfolding insert_log
  logged l = Ensures-statement _ λ d h. stored d h (any (λ t. eq_ℤ t.id l.id) d.status_logs)
    where
      stored :
          (d : OrderDb S)
          → Waiting l d
          → (c : Bool)
          → OnRows
              (λ _. G)
              (if c
                then (err duplicate_key, d)
                else (ok tt, record d { status_logs = d.status_logs ++ l ∷ [] }))
      stored d h true = tt
      stored d (g, (later, e)) false =
          (g, (later ++ l ∷ [], ap (λ ls. ls ++ l ∷ []) e ∙ append_assoc earlier later (l ∷ [])))

  ordered :
      (o : Order)
      → is_edge (pos 0) o.status ≡ true
      → Ensures G (insert_order o) (λ _. Waiting (created_log o))
  unfolding insert_order
  ordered o edge =
      Ensures-statement _ λ d h. stored d h (any (has_order_id o.order_id) d.orders) refl
    where
      stored :
          (d : OrderDb S)
          → G d
          → (c : Bool) → any (has_order_id o.order_id) d.orders ≡ c
          → OnRows
              (λ _. Waiting (created_log o))
              (if c
                then (err duplicate_key, d)
                else (ok tt, record d { orders = d.orders ++ record o { items = [] } ∷ [] }))
      stored d h true e = tt
      stored d (g, later) false e = (
        created_Logged d.orders d.status_logs (record o { items = [] }) (created_log o) g e refl
            refl refl edge,
        later,
      )

  itemed :
      (l : OrderStatusLog) (is : List OrderItem)
      → Ensures (Waiting l) (insert_items is) (λ _. Waiting l)
  unfolding insert_items
  itemed l is = Ensures-statement _ λ d h. stored d h (items_clash d.order_items is)
    where
      stored :
          (d : OrderDb S)
          → Waiting l d
          → (c : Bool)
          → OnRows
              (λ _. Waiting l)
              (if c
                then (err duplicate_key, d)
                else (ok tt, record d { order_items = d.order_items ++ is }))
      stored d h true = tt
      stored d h false = h

  pub create-Grown :
      (o : Order) (items : List (Option OrderItem))
      → is_edge (pos 0) o.status ≡ true
      → Keeps G (create_with_items o items)
  unfolding create_with_items create_with_items_body
  create-Grown o items edge = Keeps-if _ (Keeps-raise _) (
      Keeps-bind
        (Keeps-transaction driver (
          Ensures-bind _ (Ensures-map_err _ (ordered o edge)) λ _.
            Ensures-bind (λ _. Waiting (created_log o))
              (Ensures-weaken (λ d h. h) (λ a d h. h.0) (Ensures-or_raise _ _))
              λ checked. Ensures-bind _ (Ensures-map_err _ (itemed (created_log o) checked)) λ _.
                Ensures-bind (λ _. G) (Ensures-map_err _ (logged (created_log o)))
                  λ _. Ensures-pure _ λ d h. h))
        λ _. Keeps-pure _)

  moved :
      (t : OrderTransition) (o : Order) (id : ℤ)
      → IsMeant t
      → (d : OrderDb S) → G d
      → find (is_order_in t.order_id t.from_statuses) d.orders ≡ some o
      → Waiting (transition_log t id o.status) (record d {
        orders = update_where (has_order_id t.order_id) (apply_transition t) d.orders;
      })
  moved t o id meant d (g, later) e =
      let picked = find-true (is_order_in t.order_id t.from_statuses) d.orders o e in
      (
        moved_Logged (transition_log t id o.status) (apply_transition t) (λ _. refl) (λ _. refl)
            (meant o (ground arith)) d.orders d.status_logs o t.from_statuses g e refl
            (any-find (has_order_id t.order_id) (is_order_in t.order_id t.from_statuses) d.orders o
              e (ground arith)),
        later,
      )

  pub transition-Grown : (t : OrderTransition) → IsMeant t → Keeps G (transition_status t)
  unfolding transition_status transition_body
  transition-Grown t meant = Keeps-if _ (Keeps-raise _) (
      Keeps-transaction driver (
        Ensures-bind _ (Ensures-map_err _ (Ensures-take_row _)) λ o.
          Ensures-bind (λ _ d. (id : ℤ) → Waiting (transition_log t id o.status) d)
            (Ensures-map_err _ (Ensures-write _ λ d (g, e) id. moved t o id meant d g e))
            λ _.
              Ensures-bind (λ id d. Waiting (transition_log t id o.status) d)
                (Ensures-any_id λ d h id. h id)
                λ id.
                  Ensures-bind (λ _. G) (Ensures-map_err _ (logged (transition_log t id o.status)))
                    λ _. Ensures-pure _ λ d h. h))

  -- Writes to the other tables.
  actions_written :
      (p : OrderActionRecord → Bool) (f : OrderActionRecord → OrderActionRecord)
      → Keeps G (update_actions p f)
  unfolding update_actions
  actions_written p f = Keeps-statement _ λ d h. h

  action_added : (r : OrderActionRecord) → Keeps G (insert_action r)
  unfolding insert_action
  action_added r = Keeps-statement _ λ d h.
      added d h
        (any (λ t. eq_ℤ t.id r.id || is_action r.action_type r.action_key t) d.action_records)
    where
      added :
          (d : OrderDb S)
          → G d
          → (c : Bool)
          → G
              (if◌then◌else◌ {A = Result Fault Unit × OrderDb S} c
                (err duplicate_key, d)
                (ok tt, record d { action_records = d.action_records ++ r ∷ [] })).1
      added d h true = h
      added d h false = h

  pub get_by_order_id-Grown : (user_id order_id : ℤ) → Keeps G (get_by_order_id user_id order_id)
  unfolding get_by_order_id
  get_by_order_id-Grown user_id order_id = Keeps-map_err _ (Keeps-take_row _)

  pub get_by_id-Grown : (order_id : ℤ) → Keeps G (get_by_id order_id)
  unfolding get_by_id
  get_by_id-Grown order_id = Keeps-map_err _ (Keeps-take_row _)

  pub list_by_user_id-Grown :
      (user_id offset limit : ℤ) → Keeps G (list_by_user_id user_id offset limit)
  unfolding list_by_user_id
  list_by_user_id-Grown user_id offset limit = Keeps-if _ (Keeps-raise _) (
      Keeps-bind (Keeps-map_err _ (Keeps-read _))
        λ total. Keeps-bind (Keeps-map_err _ (Keeps-read _)) λ orders. Keeps-pure _)

  pub list_expired_orders-Grown : (now : Time) (limit : ℤ) → Keeps G (list_expired_orders now limit)
  unfolding list_expired_orders
  list_expired_orders-Grown now limit = Keeps-if _ (Keeps-raise _) (Keeps-map_err _ (Keeps-read _))

  pub get_action_record-Grown : (t k : String) → Keeps G (get_action_record t k)
  unfolding get_action_record
  get_action_record-Grown t k = Keeps-map_err _ (Keeps-take_row _)

  pub create_action_record-Grown : (r : OrderActionRecord) → Keeps G (create_action_record r)
  unfolding create_action_record
  create_action_record-Grown r =
      Keeps-bind (Keeps-raise_if _ _) λ _. Keeps-map_err _ (action_added r)

  some_action-Grown :
      (p : OrderActionRecord → Bool) (f : OrderActionRecord → OrderActionRecord)
      → Keeps G (update_some_action p f)
  unfolding update_some_action
  some_action-Grown p f = Keeps-bind (Keeps-map_err _ (actions_written p f)) λ _. Keeps-raise_if _ _

  pub mark-Grown :
      (by_id : Bool) (id : ℤ) (t k : String) (order_id : ℤ)
      → Keeps G (
          if by_id
          then mark_action_record_succeeded_by_id id order_id
          else mark_action_record_succeeded t k order_id)
        × Keeps G
            (if by_id then mark_action_record_failed_by_id id else mark_action_record_failed t k)
  unfolding mark_action_record_succeeded mark_action_record_failed
      mark_action_record_succeeded_by_id mark_action_record_failed_by_id
  mark-Grown by_id id t k order_id = (
    Keeps-if by_id (some_action-Grown _ _) (some_action-Grown _ _),
    Keeps-if by_id (some_action-Grown _ _) (some_action-Grown _ _),
  )
