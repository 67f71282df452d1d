-- ===== src/Order/Orders.antt =====
-- services/order-service/biz/repository/repository.go: CreateWithItems, GetByOrderID, GetByID,
-- ListByUserID, UpdateStatus, TransitionStatus and ListExpiredOrders.
use mesh_cart.Base.{String, List, [], ◌∷◌, Bool, Option, none, some, map, not, ◌||◌, if◌then◌else◌}
use mesh_cart.Base.Int.{ℤ, pos, pos_part, leb_ℤ, ltb_ℤ, eq_ℤ}
use mesh_cart.Base.Text.{is_blank}
use mesh_cart.Base.Lists.{length, is_empty, find, select, update_where, sort_with, take, drop}
use mesh_cart.App.Time.{Time}
use mesh_cart.Sql.{
  Query, pure, raise, ◌>>=◌, ◌>>◌, or_raise, next_id, read, write, take_row, map_err, transaction,
}
use mesh_cart.Order.Model.{Order, OrderItem, OrderStatusLog, OrderDb}
use mesh_cart.Order.Errors.{
  OrderError, invalid_order, driver, order_take_error, transition_take_error,
}
use mesh_cart.Order.Tables.{
  has_order_id, is_order_of, is_order_in, is_newer, is_expired, is_earlier, with_items, load_items,
  insert_order, insert_items, insert_log,
}

-- The check of each item, which may be nil, before they are written.
abbrev pub is_bad_item : ℤ → OrderItem → Bool
is_bad_item order_id i =
    leb_ℤ i.id (pos 0)
    || not (eq_ℤ i.order_id order_id)
    || leb_ℤ i.sku_id (pos 0)
    || leb_ℤ i.quantity (pos 0)

abbrev pub cons_checked : OrderItem → Option (List OrderItem) → Option (List OrderItem)
cons_checked i none = none
cons_checked i (some is) = some (i ∷ is)

unfoldable pub check_items : ℤ → List (Option OrderItem) → Option (List OrderItem)
check_items order_id [] = some []
check_items order_id (none ∷ items) = none
check_items order_id (some i ∷ items) =
    let rest = check_items order_id items in
    if is_bad_item order_id i then none else cons_checked i rest

abbrev pub created_log : Order → OrderStatusLog
created_log o = record {
  id = o.order_id;
  order_id = o.order_id;
  from_status = pos 0;
  to_status = o.status;
  action_type = "create";
  reason = "order_created";
  external_ref = "";
}

pub record OrderTransition : Type 0 where
  pub order_id : ℤ
  pub from_statuses : List ℤ
  pub to_status : ℤ
  pub cancel_reason : String
  pub payment_id : String
  pub payment_method : String
  pub payment_trade_no : String
  pub paid_at : Option Time
  pub action_type : String
  pub reason : String
  pub external_ref : String

-- A text or a time that is not set leaves the column.
abbrev pub set_text : String → String → String
set_text new old = if is_blank new then old else new

abbrev pub set_time : Option Time → Option Time → Option Time
set_time none old = old
set_time (some t) old = some t

abbrev pub apply_transition : OrderTransition → Order → Order
apply_transition t o = record o {
  status = t.to_status;
  cancel_reason = t.cancel_reason;
  payment_id = set_text t.payment_id o.payment_id;
  payment_method = set_text t.payment_method o.payment_method;
  payment_trade_no = set_text t.payment_trade_no o.payment_trade_no;
  paid_at = set_time t.paid_at o.paid_at;
}

abbrev pub transition_log : OrderTransition → ℤ → ℤ → OrderStatusLog
transition_log t id from_status = record {
  id = id;
  order_id = t.order_id;
  from_status = from_status;
  to_status = t.to_status;
  action_type = t.action_type;
  reason = t.reason;
  external_ref = t.external_ref;
}

module _ {S : Type 0} where
  unfoldable pub create_with_items_body :
      Order → List (Option OrderItem) → Query (OrderDb S) OrderError (List OrderItem)
  create_with_items_body order items = do
    map_err driver (insert_order order)
    checked ← or_raise (check_items order.order_id items) invalid_order
    map_err driver (insert_items checked)
    map_err driver (insert_log (created_log order))
    pure checked

  -- The order that a caller hands over is never nil; gorm sets its time of creation.
  unfoldable pub create_with_items :
      Order → List (Option OrderItem) → Query (OrderDb S) OrderError Order
  create_with_items order items =
      if leb_ℤ order.order_id (pos 0) || leb_ℤ order.user_id (pos 0) || is_empty items
      then raise invalid_order
      else do
        checked ← transaction driver (create_with_items_body order items)
        pure (record order { items = checked })

  unfoldable pub get_by_order_id : ℤ → ℤ → Query (OrderDb S) OrderError Order
  get_by_order_id user_id order_id =
      map_err order_take_error
        (take_row λ d. load_items d (find (is_order_of user_id order_id) d.orders))

  unfoldable pub get_by_id : ℤ → Query (OrderDb S) OrderError Order
  get_by_id order_id =
      map_err order_take_error (take_row λ d. load_items d (find (has_order_id order_id) d.orders))

  unfoldable pub list_by_user_id : ℤ → ℤ → ℤ → Query (OrderDb S) OrderError (List Order × ℤ)
  list_by_user_id user_id offset limit =
      if leb_ℤ user_id (pos 0) || ltb_ℤ offset (pos 0) || leb_ℤ limit (pos 0)
      then raise invalid_order
      else do
        total ←
            map_err driver (read λ d. pos (length (select (λ o. eq_ℤ o.user_id user_id) d.orders)))
        orders ← map_err driver (
            read λ d. map (with_items d) (
              take (pos_part limit) (
                drop (pos_part offset)
                  (sort_with is_newer (select (λ o. eq_ℤ o.user_id user_id) d.orders)))))
        pure (orders, total)

  -- The id of the log is the clock's nanosecond, which is drawn here.
  unfoldable pub transition_body : OrderTransition → Query (OrderDb S) OrderError Order
  transition_body t = do
    order ←
        map_err transition_take_error
          (take_row λ d. find (is_order_in t.order_id t.from_statuses) d.orders)
    map_err driver (
        write λ d. record d {
          orders = update_where (has_order_id t.order_id) (apply_transition t) d.orders;
        })
    id ← next_id
    map_err driver (insert_log (transition_log t id order.status))
    pure (apply_transition t order)

  unfoldable pub transition_status : OrderTransition → Query (OrderDb S) OrderError Order
  transition_status t =
      if leb_ℤ t.order_id (pos 0) || is_empty t.from_statuses
      then raise invalid_order
      else transaction driver (transition_body t)

  unfoldable pub update_status : ℤ → List ℤ → ℤ → String → Query (OrderDb S) OrderError Order
  update_status order_id from_statuses to_status cancel_reason = transition_status (record {
    order_id = order_id;
    from_statuses = from_statuses;
    to_status = to_status;
    cancel_reason = cancel_reason;
    payment_id = "";
    payment_method = "";
    payment_trade_no = "";
    paid_at = none;
    action_type = "";
    reason = "";
    external_ref = "";
  })

  unfoldable pub list_expired_orders : Time → ℤ → Query (OrderDb S) OrderError (List Order)
  list_expired_orders now limit =
      if leb_ℤ limit (pos 0)
      then raise invalid_order
      else map_err driver (
          read λ d.
            map (with_items d)
              (take (pos_part limit) (sort_with is_earlier (select (is_expired now) d.orders))))
