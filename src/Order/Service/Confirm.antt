-- ===== src/Order/Service/Confirm.antt =====
-- services/order-service/biz/service/confirm_order_paid.go: ConfirmOrderPaid. The clock is read twice.
use mesh_cart.Base.{String, [], ◌∷◌, Bool, Option, none, some, not, ◌&&◌, ◌||◌, if◌then◌else◌}
use mesh_cart.Base.Int.{ℤ, pos, leb_ℤ, ltb_ℤ, eq_ℤ}
use mesh_cart.Base.Text.{trim_space, is_blank, str_eq}
use mesh_cart.Sql.{Result, ok, err, pure, raise, ◌>>=◌, ◌>>◌, attempt}
use mesh_cart.App.Errors.{BizError, invalid_param, order_state_conflict, order_payment_conflict}
use mesh_cart.App.Time.{Time, before, is_zero}
use mesh_cart.Order.Model.{Order, OrderActionRecord}
use mesh_cart.Order.Errors.{OrderError}
use mesh_cart.Order.Orders.{OrderTransition, get_by_id, transition_status}
use mesh_cart.Order.Service.{
  Clients, Handler, call, reserved, paid, cancelled, closed, map_repository_error, inventory_error,
  RpcOrder, to_rpc_order, stocks_of, payment_conflict,
}
use mesh_cart.Order.Service.Cancel.{or_items}
use mesh_cart.Order.Service.Records.{
  resolve_pending_action_record, mark_action_succeeded, fail_action, load_order_by_action_record,
}

pub record ConfirmOrderPaidRequest : Type 0 where
  pub order_id : ℤ
  pub payment_id : String
  pub payment_method : String
  pub payment_trade_no : String
  pub paid_at : ℤ
  pub request_id : String

unfoldable pub payment_action_key : ConfirmOrderPaidRequest → String
payment_action_key req =
    let request_id = trim_space req.request_id in
    if is_blank request_id then trim_space req.payment_id else request_id

abbrev pub paid_time : ℤ → Time → Time
paid_time paid_at now = if ltb_ℤ (pos 0) paid_at then record { unix = paid_at; nano = 0 } else now

-- What the request says of the payment; `lower` is Go's `strings.ToLower`.
pub record Payment : Type 0 where
  pub id : String
  pub method : String
  pub trade_no : String

abbrev pub payment_of : (String → String) → ConfirmOrderPaidRequest → Payment
payment_of lower req = record {
  id = trim_space req.payment_id;
  method = lower (trim_space req.payment_method);
  trade_no = trim_space req.payment_trade_no;
}

abbrev pub pay_transition : ℤ → Payment → Time → OrderTransition
pay_transition order_id p paid_at = record {
  order_id = order_id;
  from_statuses = reserved ∷ [];
  to_status = paid;
  cancel_reason = "";
  payment_id = p.id;
  payment_method = p.method;
  payment_trade_no = p.trade_no;
  paid_at = some paid_at;
  action_type = "pay_confirm";
  reason = "payment_confirmed";
  external_ref = if is_blank p.trade_no then p.id else p.trade_no;
}

-- The payment that an order has is the one that is confirmed again.
abbrev pub is_same_payment : Order → Payment → Bool
is_same_payment order p =
    str_eq order.payment_id p.id
    && not (payment_conflict order.payment_method p.method)
    && not (payment_conflict order.payment_trade_no p.trade_no)

module _ {S : Type 0} (clients : Clients S) (now paid_now : Time) (p : Payment)
    (req : ConfirmOrderPaidRequest) (key : String) (action : Option OrderActionRecord) where
  unfoldable pub confirm_succeeded : Order → Handler S RpcOrder
  confirm_succeeded order = do
    mark_action_succeeded action "pay_confirm" key order.order_id
    pure (to_rpc_order order)

  unfoldable pub confirm_failed : BizError → Handler S RpcOrder
  confirm_failed e = fail_action action "pay_confirm" key e

  unfoldable pub finish_confirm : Order → Result OrderError Order → Handler S RpcOrder
  finish_confirm order (ok updated) = confirm_succeeded (or_items updated order)
  finish_confirm order (err e) = confirm_failed (map_repository_error e)

  unfoldable pub deduct_and_pay : Order → Handler S RpcOrder
  deduct_and_pay order = do
    reply ← call (clients.confirm_stocks (stocks_of order))
    elim (inventory_error reply) [
      | some e ↦ confirm_failed e
      | none ↦ do
        updated ←
            attempt
              (transition_status (pay_transition order.order_id p (paid_time req.paid_at paid_now)))
        finish_confirm order updated
    ]

  unfoldable pub confirm_loaded : Result OrderError Order → Handler S RpcOrder
  confirm_loaded (err e) = confirm_failed (map_repository_error e)
  confirm_loaded (ok order) =
      if eq_ℤ order.status paid
      then (if is_same_payment order p
          then confirm_succeeded order
          else confirm_failed order_payment_conflict)
      else if eq_ℤ order.status closed || eq_ℤ order.status cancelled
      then confirm_failed order_state_conflict
      else if not (eq_ℤ order.status reserved)
      then confirm_failed order_state_conflict
      else if not (is_zero order.expire_at) && not (before now order.expire_at)
      then confirm_failed order_state_conflict
      else deduct_and_pay order

  unfoldable pub do_confirm : Handler S RpcOrder
  do_confirm = do loaded ← attempt (get_by_id req.order_id); confirm_loaded loaded

module _ {S : Type 0} (lower : String → String) (clients : Clients S) (now paid_now : Time) where
  unfoldable pub confirm_order_paid : ConfirmOrderPaidRequest → Handler S RpcOrder
  confirm_order_paid req =
      if leb_ℤ req.order_id (pos 0) || is_blank (trim_space req.payment_id)
      then raise invalid_param
      else do
        let key = payment_action_key req
        resolved ← resolve_pending_action_record "pay_confirm" key req.order_id (pos 0)
        if resolved.1
            then do_confirm clients now paid_now (payment_of lower req) req key resolved.0
            else load_order_by_action_record resolved.0
