-- ===== src/Order/Service/Cancel.antt =====
-- services/order-service/biz/service/cancel_order.go: CancelOrder.
use mesh_cart.Base.{String, [], ◌∷◌, Option, none, some, ◌||◌, if◌then◌else◌}
use mesh_cart.Base.Int.{ℤ, pos, leb_ℤ, eq_ℤ}
use mesh_cart.Base.Lists.{is_empty}
use mesh_cart.Base.Text.{trim_space, is_blank}
use mesh_cart.Sql.{Result, ok, err, pure, raise, ◌>>=◌, ◌>>◌, or_raise, map_err, attempt}
use mesh_cart.App.Errors.{BizError, invalid_param, order_state_conflict, order_paid_immutable}
use mesh_cart.Order.Model.{Order, OrderActionRecord}
use mesh_cart.Order.Errors.{OrderError, state_conflict}
use mesh_cart.Order.Orders.{OrderTransition, get_by_order_id, transition_status}
use mesh_cart.Order.Service.{
  Clients, Handler, call, pending, reserved, paid, cancelled, closed, map_repository_error,
  inventory_error, RpcOrder, to_rpc_order, stocks_of,
}
use mesh_cart.Order.Service.Records.{
  require_request_id, resolve_pending_action_record, mark_action_succeeded, fail_action,
  load_order_by_action_record,
}

pub record CancelOrderRequest : Type 0 where
  pub user_id : ℤ
  pub order_id : ℤ
  pub request_id : String
  pub cancel_reason : String

abbrev pub cancel_reason_of : CancelOrderRequest → String
cancel_reason_of req =
    let reason = trim_space req.cancel_reason in
    if is_blank reason then "user_cancelled" else reason

abbrev pub cancel_transition : ℤ → String → OrderTransition
cancel_transition order_id reason = record {
  order_id = order_id;
  from_statuses = pending ∷ reserved ∷ [];
  to_status = cancelled;
  cancel_reason = reason;
  payment_id = "";
  payment_method = "";
  payment_trade_no = "";
  paid_at = none;
  action_type = "cancel";
  reason = reason;
  external_ref = "";
}

-- `if len(updated.Items) == 0 { updated.Items = order.Items }`
abbrev pub or_items : Order → Order → Order
or_items updated order =
    if is_empty updated.items then record updated { items = order.items } else updated

module _ {S : Type 0} (clients : Clients S) (req : CancelOrderRequest) (request_id : String)
    (action : Option OrderActionRecord) where
  unfoldable pub cancel_succeeded : Order → Handler S RpcOrder
  cancel_succeeded order = do
    mark_action_succeeded action "cancel" request_id order.order_id
    pure (to_rpc_order order)

  unfoldable pub cancel_failed : BizError → Handler S RpcOrder
  cancel_failed e = fail_action action "cancel" request_id e

  -- What the order turned out to be, after a transition found it in no status to cancel it from.
  unfoldable pub reconcile : Order → Handler S RpcOrder
  reconcile current =
      if eq_ℤ current.status cancelled || eq_ℤ current.status closed
      then cancel_succeeded current
      else if eq_ℤ current.status paid
      then cancel_failed order_paid_immutable
      else cancel_failed order_state_conflict

  unfoldable pub finish_cancel : Order → Result OrderError Order → Handler S RpcOrder
  finish_cancel order (ok updated) = cancel_succeeded (or_items updated order)
  finish_cancel order (err state_conflict) = do
    current ← map_err map_repository_error (get_by_order_id req.user_id req.order_id)
    reconcile current
  finish_cancel order (err e) = cancel_failed (map_repository_error e)

  unfoldable pub release_and_cancel : Order → Handler S RpcOrder
  release_and_cancel order = do
    reply ← call (clients.release_stocks (stocks_of order))
    elim (inventory_error reply) [
      | some e ↦ cancel_failed e
      | none ↦ do
        updated ←
            attempt (transition_status (cancel_transition order.order_id (cancel_reason_of req)))
        finish_cancel order updated
    ]

  unfoldable pub cancel_loaded : Result OrderError Order → Handler S RpcOrder
  cancel_loaded (err e) = cancel_failed (map_repository_error e)
  cancel_loaded (ok order) =
      if eq_ℤ order.status cancelled || eq_ℤ order.status closed
      then cancel_succeeded order
      else if eq_ℤ order.status paid
      then cancel_failed order_paid_immutable
      else if eq_ℤ order.status pending || eq_ℤ order.status reserved
      then release_and_cancel order
      else cancel_failed order_state_conflict

  unfoldable pub do_cancel : Handler S RpcOrder
  do_cancel = do loaded ← attempt (get_by_order_id req.user_id req.order_id); cancel_loaded loaded

module _ {S : Type 0} (clients : Clients S) where
  unfoldable pub cancel_order : CancelOrderRequest → Handler S RpcOrder
  cancel_order req =
      if leb_ℤ req.user_id (pos 0) || leb_ℤ req.order_id (pos 0) then raise invalid_param else do
        request_id ← or_raise (require_request_id req.request_id) invalid_param
        resolved ← resolve_pending_action_record "cancel" request_id req.order_id req.user_id
        if resolved.1
            then do_cancel clients req request_id resolved.0
            else load_order_by_action_record resolved.0
