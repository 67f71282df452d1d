-- ===== src/Payment/Service/Confirm.antt =====
-- services/payment-service/biz/service/confirm_payment_success.go: ConfirmPaymentSuccess. The clock is
-- read for the expiry, for the closing of an expired payment, and for the time of success.
use mesh_cart.Base.{String, [], ◌∷◌, Option, none, some, not, ◌||◌, ◌==◌, if◌then◌else◌}
use mesh_cart.Base.Int.{ℤ, pos, leb_ℤ, eq_ℤ}
use mesh_cart.Base.Text.{trim_space, is_blank}
use mesh_cart.Base.Decimal.{format_int}
use mesh_cart.Sql.{Result, ok, err, pure, raise, ◌>>=◌, ◌>>◌, or_raise, attempt}
use mesh_cart.App.Errors.{
  BizError, invalid_param, internal_error, service_unavailable, unsupported_payment_method,
  payment_state_conflict, payment_info_conflict, payment_idempotency_busy, payment_expired,
}
use mesh_cart.App.Time.{Time}
use mesh_cart.Order.Model.{
  ActionStatus, action_pending, action_succeeded, action_failed, action_other,
}
use mesh_cart.Order.Service.{Reply, unreachable, replied, RpcOrder, payment_conflict}
use mesh_cart.Order.Service.Records.{require_request_id}
use mesh_cart.Order.Service.Confirm.{ConfirmOrderPaidRequest, paid_time}
use mesh_cart.Payment.Model.{Payment, PaymentActionRecord, PaymentOutbox}
use mesh_cart.Payment.Errors.{PaymentError}
use mesh_cart.Payment.Payments.{PaymentTransition, get_by_payment_id, transition_status}
use mesh_cart.Payment.Service.{
  OrderClient, Handler, call, pending, succeeded, closed, normalize_payment_method, is_mock,
  map_repository_error, map_order_rpc_error, is_payment_expired, expire_transition, string_pointer,
  paid_at_unix_pointer, build_payment_succeeded_outbox, RpcPayment,
}
use mesh_cart.Payment.Service.Records.{
  find_action_record, create_pending_action_record, fail_action, finish_action, answer_loaded,
  or_else,
}

pub record ConfirmPaymentSuccessRequest : Type 0 where
  pub payment_id : ℤ
  pub payment_method : String
  pub payment_trade_no : String
  pub paid_at : ℤ
  pub request_id : String

pub record ConfirmClock : Type 0 where
  pub looked : Time
  pub closing : Time
  pub succeeding : Time

abbrev pub append_text : String → String → String
append_text String.[] b = b
append_text (String.◌∷◌ c a) b = String.◌∷◌ c (append_text a b)

unfoldable pub trade_no_of : ConfirmPaymentSuccessRequest → String
trade_no_of req =
    let trade_no = trim_space req.payment_trade_no in
    if is_blank trade_no then append_text "mock-" (format_int req.payment_id) else trade_no

abbrev pub success_transition : Payment → String → String → Time → PaymentOutbox → PaymentTransition
success_transition p method trade_no succeeded_at outbox = record {
  payment_id = p.payment_id;
  from_statuses = pending ∷ [];
  to_status = succeeded;
  payment_method = method;
  payment_trade_no = trade_no;
  succeeded_at = some succeeded_at;
  closed_at = none;
  fail_reason = "";
  action_type = "confirm_success";
  reason = "payment_confirmed";
  external_ref = trade_no;
  outbox_records = some outbox ∷ [];
}

-- The payment as the event tells it.
abbrev pub succeeded_payment : Payment → String → String → Time → Payment
succeeded_payment p method trade_no succeeded_at = record p {
  payment_method = method;
  payment_trade_no = trade_no;
  succeeded_at = some succeeded_at;
}

module _ {S : Type 0} where
  unfoldable pub confirm_found_by :
      PaymentActionRecord → ActionStatus → Handler S (Option RpcPayment)
  confirm_found_by r action_succeeded = answer_loaded r
  confirm_found_by r action_pending = raise payment_idempotency_busy
  confirm_found_by r action_failed = pure none
  confirm_found_by r (action_other _) = pure none

  unfoldable pub confirm_found : Option PaymentActionRecord → Handler S (Option RpcPayment)
  unfolding confirm_found_by
  confirm_found none = pure none
  confirm_found (some r) = confirm_found_by r r.status

  unfoldable pub confirm_met_by : PaymentActionRecord → ActionStatus → Handler S (Option RpcPayment)
  confirm_met_by r action_pending = pure none
  confirm_met_by r action_succeeded = answer_loaded r
  confirm_met_by r action_failed = pure none
  confirm_met_by r (action_other _) = raise payment_idempotency_busy

  unfoldable pub confirm_met : Option PaymentActionRecord → Handler S (Option RpcPayment)
  unfolding confirm_met_by
  confirm_met none = pure none
  confirm_met (some r) = confirm_met_by r r.status

module _ {S : Type 0} (client : OrderClient S) (topic : String) (clock : ConfirmClock)
    (req : ConfirmPaymentSuccessRequest) (method request_id trade_no : String) where
  unfoldable pub confirm_failed : BizError → Handler S RpcPayment
  confirm_failed e = fail_action "confirm_success" request_id e

  unfoldable pub confirm_finished : Payment → Handler S RpcPayment
  confirm_finished p = finish_action "confirm_success" request_id p

  abbrev order_request : Payment → ConfirmOrderPaidRequest
  order_request p = record {
    order_id = p.order_id;
    payment_id = format_int p.payment_id;
    payment_method = string_pointer method;
    payment_trade_no = string_pointer trade_no;
    paid_at = paid_at_unix_pointer req.paid_at;
    request_id = string_pointer request_id;
  }

  unfoldable pub finish_confirm : Result PaymentError Payment → Handler S RpcPayment
  finish_confirm (ok updated) = confirm_finished updated
  finish_confirm (err e) = confirm_failed (map_repository_error e)

  unfoldable pub store_success : Payment → Time → Option PaymentOutbox → Handler S RpcPayment
  store_success p succeeded_at none = confirm_failed internal_error
  store_success p succeeded_at (some outbox) = do
    updated ← attempt (transition_status (success_transition p method trade_no succeeded_at outbox))
    finish_confirm updated

  -- After the order service agreed.
  unfoldable pub succeed : Payment → Handler S RpcPayment
  succeed p = do
    let succeeded_at = paid_time req.paid_at clock.succeeding
    outbox ←
        build_payment_succeeded_outbox (succeeded_payment p method trade_no succeeded_at)
          succeeded_at topic
    store_success p succeeded_at outbox

  unfoldable pub confirm_answered : Payment → Reply (Option RpcOrder) → Handler S RpcPayment
  confirm_answered p unreachable = confirm_failed service_unavailable
  confirm_answered p (replied code _) =
      if code == 0 then succeed p else confirm_failed (map_order_rpc_error code)

  unfoldable pub confirm_pending : Payment → Handler S RpcPayment
  confirm_pending p =
      if is_payment_expired clock.looked p
      then (do
        attempt (transition_status (expire_transition p clock.closing))
        confirm_failed payment_expired)
      else (do reply ← call (client.confirm_order_paid (order_request p)); confirm_answered p reply)

  unfoldable pub confirm_loaded : Result PaymentError Payment → Handler S RpcPayment
  confirm_loaded (err e) = confirm_failed (map_repository_error e)
  confirm_loaded (ok p) =
      if eq_ℤ p.status succeeded
      then (if payment_conflict p.payment_method method
            || payment_conflict p.payment_trade_no trade_no
          then confirm_failed payment_info_conflict
          else confirm_finished p)
      else if eq_ℤ p.status closed
      then confirm_failed payment_state_conflict
      else if not (eq_ℤ p.status pending)
      then confirm_failed payment_state_conflict
      else confirm_pending p

  unfoldable pub do_confirm : Handler S RpcPayment
  do_confirm = do loaded ← attempt (get_by_payment_id req.payment_id); confirm_loaded loaded

  unfoldable pub confirm_keyed : Handler S RpcPayment
  confirm_keyed = do
    existing ← find_action_record "confirm_success" request_id
    answer ← confirm_found existing
    or_else answer (do
      met ← create_pending_action_record "confirm_success" request_id req.payment_id (pos 0)
      again ← confirm_met met
      or_else again do_confirm)

module _ {S : Type 0} (lower : String → String) (client : OrderClient S) (topic : String)
    (clock : ConfirmClock) where
  unfoldable pub confirm_payment_success : ConfirmPaymentSuccessRequest → Handler S RpcPayment
  confirm_payment_success req =
      if leb_ℤ req.payment_id (pos 0)
      then raise invalid_param
      else let method = normalize_payment_method lower req.payment_method in
        if not (is_mock lower method) then raise unsupported_payment_method else do
          request_id ← or_raise (require_request_id req.request_id) invalid_param
          confirm_keyed client topic clock req method request_id (trade_no_of req)
