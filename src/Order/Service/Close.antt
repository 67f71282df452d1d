-- ===== src/Order/Service/Close.antt =====
-- services/order-service/biz/service/close_expired_orders.go: CloseExpiredOrders.
use mesh_cart.Base.{List, [], ◌∷◌, none, some, if◌then◌else◌}
use mesh_cart.Base.Int.{ℤ, pos, ltb_ℤ}
use mesh_cart.Sql.{Result, ok, err, pure, ◌>>=◌, map_err, attempt}
use mesh_cart.App.Time.{Time}
use mesh_cart.Order.Model.{Order}
use mesh_cart.Order.Errors.{OrderError}
use mesh_cart.Order.Orders.{OrderTransition, transition_status, list_expired_orders}
use mesh_cart.Order.Service.{
  Clients, Handler, call, pending, reserved, closed, map_repository_error, inventory_error,
  stocks_of,
}

abbrev pub close_transition : ℤ → OrderTransition
close_transition order_id = record {
  order_id = order_id;
  from_statuses = pending ∷ reserved ∷ [];
  to_status = closed;
  cancel_reason = "order_expired";
  payment_id = "";
  payment_method = "";
  payment_trade_no = "";
  paid_at = none;
  action_type = "close_expired";
  reason = "order_expired";
  external_ref = "";
}

abbrev pub close_limit : ℤ → ℤ
close_limit limit = if ltb_ℤ (pos 0) limit then limit else pos 100

-- The id of an order that was closed.
abbrev pub closed_id : Order → Result OrderError Order → List ℤ
closed_id order (ok _) = order.order_id ∷ []
closed_id order (err _) = []

abbrev join : List ℤ → List ℤ → List ℤ
join [] ys = ys
join (x ∷ xs) ys = x ∷ join xs ys

module _ {S : Type 0} (clients : Clients S) where
  unfoldable pub close_one : Order → Handler S (List ℤ)
  close_one order = do
    reply ← call (clients.release_stocks (stocks_of order))
    elim (inventory_error reply) [
      | some e ↦ pure []
      | none ↦ do
        updated ← attempt (transition_status (close_transition order.order_id))
        pure (closed_id order updated)
    ]

  -- An order that cannot be closed is passed over.
  unfoldable pub close_each : List Order → Handler S (List ℤ)
  close_each [] = pure []
  close_each (order ∷ orders) = do
    one ← close_one order
    rest ← close_each orders
    pure (join one rest)

  -- A nil request has no limit, and neither has one whose limit is 0.
  unfoldable pub close_expired_orders : Time → ℤ → Handler S (List ℤ)
  close_expired_orders now limit = do
    orders ← map_err map_repository_error (list_expired_orders now (close_limit limit))
    close_each orders
