-- ===== src/Payment/Service/Close.antt =====
-- services/payment-service/biz/service: ClosePayment of close_payment.go, GetPayment of get_payment.go
-- and ListPaymentsByOrder of list_payments.go.
use mesh_cart.Base.{String, List, [], ◌∷◌, Option, none, some, not, ◌||◌, if◌then◌else◌}
use mesh_cart.Base.Int.{ℤ, pos, leb_ℤ, eq_ℤ}
use mesh_cart.Base.Text.{trim_space, is_blank}
use mesh_cart.Sql.{Result, ok, err, pure, raise, ◌>>=◌, map_err, attempt}
use mesh_cart.App.Errors.{BizError, invalid_param, payment_state_conflict, payment_idempotency_busy}
use mesh_cart.App.Time.{Time}
use mesh_cart.Order.Model.{
  ActionStatus, action_pending, action_succeeded, action_failed, action_other,
}
use mesh_cart.Payment.Model.{Payment, PaymentActionRecord}
use mesh_cart.Payment.Errors.{PaymentError}
use mesh_cart.Payment.Payments.{
  PaymentTransition, get_by_payment_id_user, list_by_order_id, transition_status,
}
use mesh_cart.Payment.Service.{
  Handler, pending, succeeded, closed, close_action_key, map_repository_error, RpcPayment,
  to_rpc_payment, to_rpc_payments,
}
use mesh_cart.Payment.Service.Records.{
  find_action_record, create_pending_action_record, fail_action, finish_action, answer_loaded,
  or_else,
}

pub record ClosePaymentRequest : Type 0 where
  pub payment_id : ℤ
  pub user_id : ℤ
  pub reason : String
  pub request_id : String

abbrev pub close_transition : Payment → Time → String → PaymentTransition
close_transition p closed_at reason = record {
  payment_id = p.payment_id;
  from_statuses = pending ∷ [];
  to_status = closed;
  payment_method = "";
  payment_trade_no = "";
  succeeded_at = none;
  closed_at = some closed_at;
  fail_reason = reason;
  action_type = "close";
  reason = reason;
  external_ref = "user";
  outbox_records = [];
}

unfoldable pub close_reason : ClosePaymentRequest → String
close_reason req =
    let reason = trim_space req.reason in if is_blank reason then "payment_closed" else reason

module _ {S : Type 0} where
  unfoldable pub close_found_by : PaymentActionRecord → ActionStatus → Handler S (Option RpcPayment)
  close_found_by r action_succeeded = answer_loaded r
  close_found_by r action_pending = raise payment_idempotency_busy
  close_found_by r action_failed = pure none
  close_found_by r (action_other _) = pure none

  unfoldable pub close_found : Option PaymentActionRecord → Handler S (Option RpcPayment)
  unfolding close_found_by
  close_found none = pure none
  close_found (some r) = close_found_by r r.status

  unfoldable pub close_met_by : PaymentActionRecord → ActionStatus → Handler S (Option RpcPayment)
  close_met_by r action_pending = pure none
  close_met_by r action_succeeded = answer_loaded r
  close_met_by r action_failed = raise payment_idempotency_busy
  close_met_by r (action_other _) = raise payment_idempotency_busy

  unfoldable pub close_met : Option PaymentActionRecord → Handler S (Option RpcPayment)
  unfolding close_met_by
  close_met none = pure none
  close_met (some r) = close_met_by r r.status

module _ {S : Type 0} (now : Time) (req : ClosePaymentRequest) (key : String) where
  unfoldable pub close_failed : BizError → Handler S RpcPayment
  close_failed e = fail_action "close" key e

  unfoldable pub finish_close : Result PaymentError Payment → Handler S RpcPayment
  finish_close (ok updated) = finish_action "close" key updated
  finish_close (err e) = close_failed (map_repository_error e)

  unfoldable pub close_loaded : Result PaymentError Payment → Handler S RpcPayment
  close_loaded (err e) = close_failed (map_repository_error e)
  close_loaded (ok p) =
      if eq_ℤ p.status succeeded
      then close_failed payment_state_conflict
      else if eq_ℤ p.status closed
      then finish_action "close" key p
      else if not (eq_ℤ p.status pending)
      then close_failed payment_state_conflict
      else do
        updated ← attempt (transition_status (close_transition p now (close_reason req)))
        finish_close updated

  unfoldable pub do_close : Handler S RpcPayment
  do_close = do
    loaded ← attempt (get_by_payment_id_user req.payment_id req.user_id)
    close_loaded loaded

  unfoldable pub close_keyed : Handler S RpcPayment
  close_keyed = do
    existing ← find_action_record "close" key
    answer ← close_found existing
    or_else answer (do
      met ← create_pending_action_record "close" key req.payment_id (pos 0)
      again ← close_met met
      or_else again do_close)

module _ {S : Type 0} where
  unfoldable pub close_payment : Time → ClosePaymentRequest → Handler S RpcPayment
  close_payment now req =
      if leb_ℤ req.payment_id (pos 0) || leb_ℤ req.user_id (pos 0)
      then raise invalid_param
      else close_keyed now req (close_action_key req.payment_id req.request_id)

  unfoldable pub get_payment : ℤ → ℤ → Handler S RpcPayment
  get_payment payment_id user_id =
      if leb_ℤ payment_id (pos 0) || leb_ℤ user_id (pos 0) then raise invalid_param else do
        payment ← map_err map_repository_error (get_by_payment_id_user payment_id user_id)
        pure (to_rpc_payment payment)

  unfoldable pub list_payments_by_order : ℤ → ℤ → Handler S (List RpcPayment)
  list_payments_by_order order_id user_id =
      if leb_ℤ order_id (pos 0) || leb_ℤ user_id (pos 0) then raise invalid_param else do
        payments ← map_err map_repository_error (list_by_order_id order_id user_id)
        pure (to_rpc_payments payments)
