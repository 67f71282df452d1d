-- ===== src/Payment/Service.antt =====
-- services/payment-service/biz/service: what the handlers share, service.go, helpers.go and outbox.go.
-- The order service is a pair of operations on a state `S` of its own. Logging is left out; that the
-- client is not nil is taken for granted. The text of an error, which goes into a column that nothing
-- reads, is left out.
pub mod Records
pub mod Create
pub mod Confirm
pub mod Close
use mesh_cart.Base.{
  ℕ, String, List, [], ◌∷◌, Bool, Option, none, some, map, not, ◌&&◌, ◌==◌, if◌then◌else◌,
}
use mesh_cart.Base.Int.{ℤ, pos, ◌+ℤ◌, ltb_ℤ, eq_ℤ}
use mesh_cart.Base.Text.{trim_space, is_blank, str_eq}
use mesh_cart.Base.Decimal.{format_int}
use mesh_cart.Sql.{Query, ok, pure, ◌>>=◌, next_id}
use mesh_cart.App.Errors.{
  BizError, internal_error, service_unavailable, unsupported_payment_method, payment_not_found,
  invalid_payment_data, payment_state_conflict, payment_order_not_found,
  payment_order_state_conflict,
}
use mesh_cart.App.Time.{Time, before, is_zero, add_seconds}
use mesh_cart.Mq.Outbox.{Envelope, marshal_envelope, outbox_pending, headers}
use mesh_cart.Order.Service.{Reply, RpcOrder, unix_or_zero}
use mesh_cart.Order.Service.Confirm.{ConfirmOrderPaidRequest}
use mesh_cart.Payment.Model.{Payment, PaymentSucceededPayload, PaymentOutbox, PaymentDb}
use mesh_cart.Payment.Errors.{
  PaymentError, payment_missing, invalid_payment, payment_conflicts, active_payment_exists,
}
use mesh_cart.Payment.Payments.{PaymentTransition}

abbrev pub pending : ℤ
pending = pos 1

abbrev pub succeeded : ℤ
succeeded = pos 2

abbrev pub failed : ℤ
failed = pos 3

abbrev pub closed : ℤ
closed = pos 4

abbrev pub Handler : Type 0 → Type 0 → Type 0
Handler S A = Query (PaymentDb S) BizError A

-- The calls of the order service. An order that is not there is nil.
pub record OrderClient (S : Type 0) : Type 0 where
  pub get_order : ℤ → ℤ → S → Reply (Option RpcOrder) × S
  pub confirm_order_paid : ConfirmOrderPaidRequest → S → Reply (Option RpcOrder) × S

unfoldable pub call : {S A : Type 0} → (S → A × S) → Handler S A
call f w = let (a, s) = f w.db.others in (ok a, record w { db = record w.db { others = s } })

unfoldable pub map_repository_error : PaymentError → BizError
map_repository_error payment_missing = payment_not_found
map_repository_error invalid_payment = invalid_payment_data
map_repository_error active_payment_exists = payment_state_conflict
map_repository_error payment_conflicts = payment_state_conflict
map_repository_error _ = internal_error

unfoldable pub map_order_rpc_error : ℕ → BizError
map_order_rpc_error code =
    if code == 2040001
    then payment_order_not_found
    else if code == 2040006
    then payment_order_state_conflict
    else if code == 2040007
    then payment_order_state_conflict
    else if code == 2040008
    then payment_order_state_conflict
    else service_unavailable

unfoldable pub map_order_get_failure : ℕ → BizError
map_order_get_failure code =
    if code == 2040001 then payment_order_not_found else service_unavailable

-- `lower` is Go's `strings.ToLower`.
unfoldable pub normalize_payment_method : (String → String) → String → String
normalize_payment_method lower method = lower (trim_space method)

-- Whether `validatePaymentMethod` lets the method through.
unfoldable pub is_mock : (String → String) → String → Bool
unfolding normalize_payment_method
is_mock lower method = str_eq (normalize_payment_method lower method) "mock"

unfoldable pub close_action_key : ℤ → String → String
close_action_key payment_id request_id =
    let trimmed = trim_space request_id in
    if is_blank trimmed then format_int payment_id else trimmed

-- An absent text is read as an empty one.
unfoldable pub string_pointer : String → String
string_pointer value = if is_blank (trim_space value) then "" else value

-- An absent time is read as 0.
unfoldable pub paid_at_unix_pointer : ℤ → ℤ
paid_at_unix_pointer ts = if ltb_ℤ (pos 0) ts then ts else pos 0

unfoldable pub validate_order_for_payment : Time → Option RpcOrder → Option BizError
validate_order_for_payment now none = some service_unavailable
validate_order_for_payment now (some order) =
    if ltb_ℤ (pos 0) order.expire_at
      && not (before now (record { unix = order.expire_at; nano = 0 }))
    then some payment_order_state_conflict
    else if eq_ℤ order.status (pos 3)
    then some payment_order_state_conflict
    else if not (eq_ℤ order.status (pos 2))
    then some payment_order_state_conflict
    else none

abbrev earlier : Time → Time → Time
earlier a b = if before a b then a else b

unfoldable pub calculate_payment_expire_at : Time → RpcOrder → Time
calculate_payment_expire_at now order =
    let expire_at = add_seconds (pos 900) now in
    if ltb_ℤ (pos 0) order.expire_at
    then earlier (record { unix = order.expire_at; nano = 0 }) expire_at
    else expire_at

unfoldable pub is_payment_expired : Time → Payment → Bool
is_payment_expired now p = not (is_zero p.expire_at) && not (before now p.expire_at)

-- paymentpb.Payment has times in seconds, 0 for none.
pub record RpcPayment : Type 0 where
  pub payment_id : ℤ
  pub order_id : ℤ
  pub user_id : ℤ
  pub status : ℤ
  pub payment_method : String
  pub amount : ℤ
  pub currency : String
  pub payment_trade_no : String
  pub expire_at : ℤ
  pub succeeded_at : ℤ
  pub closed_at : ℤ
  pub fail_reason : String

unfoldable pub to_rpc_payment : Payment → RpcPayment
to_rpc_payment p = record {
  payment_id = p.payment_id;
  order_id = p.order_id;
  user_id = p.user_id;
  status = p.status;
  payment_method = p.payment_method;
  amount = p.amount;
  currency = p.currency;
  payment_trade_no = p.payment_trade_no;
  expire_at = p.expire_at.unix;
  succeeded_at = unix_or_zero p.succeeded_at;
  closed_at = unix_or_zero p.closed_at;
  fail_reason = p.fail_reason;
}

unfoldable pub to_rpc_payments : List Payment → List RpcPayment
unfolding to_rpc_payment
to_rpc_payments = map to_rpc_payment

-- The transition of an expired payment, which creations and confirmations make.
abbrev pub expire_transition : Payment → Time → PaymentTransition
expire_transition p closed_at = record {
  payment_id = p.payment_id;
  from_statuses = pending ∷ [];
  to_status = closed;
  payment_method = "";
  payment_trade_no = "";
  succeeded_at = none;
  closed_at = some closed_at;
  fail_reason = "payment_expired";
  action_type = "close";
  reason = "payment_expired";
  external_ref = "system";
  outbox_records = [];
}

abbrev pub succeeded_payload : Payment → Time → PaymentSucceededPayload
succeeded_payload p succeeded_at = record {
  payment_id = p.payment_id;
  order_id = p.order_id;
  user_id = p.user_id;
  amount = p.amount;
  payment_method = p.payment_method;
  payment_trade_no = p.payment_trade_no;
  succeeded_at = succeeded_at.unix;
}

abbrev pub succeeded_envelope : ℤ → Payment → Time → String → Envelope PaymentSucceededPayload
succeeded_envelope id p succeeded_at topic = record {
  id = format_int id;
  event_name = "payment.succeeded";
  topic = topic;
  key = format_int p.payment_id;
  producer = "payment-service";
  version = pos 1;
  occurred_at = succeeded_at;
  payload = some (succeeded_payload p succeeded_at);
}

abbrev pub succeeded_outbox :
    ℤ → Payment → String → Envelope PaymentSucceededPayload → PaymentOutbox
succeeded_outbox id p topic body = record {
  id = id;
  topic = topic;
  event_name = "payment.succeeded";
  event_key = format_int p.payment_id;
  producer = "payment-service";
  headers_json =
      headers (("event_name", "payment.succeeded") ∷ ("producer", "payment-service") ∷ []);
  body = some body;
  status = outbox_pending;
  retry_count = pos 0;
  max_retries = pos 16;
  next_retry_at = none;
  published_at = none;
}

-- `buildPaymentSucceededOutbox` of a payment that has succeeded; none is its error.
module _ {S : Type 0} where
  unfoldable pub outbox_of_body :
      Payment
      → String
      → Option (Envelope PaymentSucceededPayload)
      → Handler S (Option PaymentOutbox)
  outbox_of_body p topic none = pure none
  outbox_of_body p topic (some body) = do
    id ← next_id
    pure (some (succeeded_outbox id p topic body))

  unfoldable pub build_payment_succeeded_outbox :
      Payment → Time → String → Handler S (Option PaymentOutbox)
  build_payment_succeeded_outbox p succeeded_at topic = do
    id ← next_id
    outbox_of_body p topic (marshal_envelope (succeeded_envelope id p succeeded_at topic))
