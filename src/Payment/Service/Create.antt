-- ===== src/Payment/Service/Create.antt =====
-- services/payment-service/biz/service/create_payment.go: CreatePayment. The clock is read while each
-- earlier payment is looked at, and once for each of the checks of the order.
use mesh_cart.Base.{String, List, [], ◌∷◌, Option, none, some, not, ◌||◌, ◌==◌, if◌then◌else◌}
use mesh_cart.Base.Int.{ℤ, pos, leb_ℤ, eq_ℤ}
use mesh_cart.Sql.{Result, ok, err, pure, raise, ◌>>=◌, ◌>>◌, or_raise, next_id, attempt}
use mesh_cart.App.Errors.{
  BizError, invalid_param, service_unavailable, unsupported_payment_method, payment_state_conflict,
  payment_idempotency_busy,
}
use mesh_cart.App.Time.{Time}
use mesh_cart.Order.Model.{
  ActionStatus, action_pending, action_succeeded, action_failed, action_other,
}
use mesh_cart.Order.Service.{Reply, unreachable, replied, RpcOrder}
use mesh_cart.Order.Service.Records.{require_request_id}
use mesh_cart.Payment.Model.{Payment, PaymentActionRecord}
use mesh_cart.Payment.Errors.{PaymentError, active_payment_exists}
use mesh_cart.Payment.Payments.{
  list_by_order_id, get_latest_active_by_order_id, create, transition_status,
}
use mesh_cart.Payment.Service.{
  OrderClient, Handler, call, pending, succeeded, normalize_payment_method, is_mock,
  map_repository_error, map_order_get_failure, validate_order_for_payment,
  calculate_payment_expire_at, is_payment_expired, expire_transition, RpcPayment,
}
use mesh_cart.Payment.Service.Records.{
  find_action_record, create_pending_action_record, fail_action, finish_action, answer_loaded,
  or_else,
}

pub record CreatePaymentRequest : Type 0 where
  pub order_id : ℤ
  pub user_id : ℤ
  pub payment_method : String
  pub request_id : String

-- The readings of the clock; the first two are taken for a payment of an id.
pub record CreateClock : Type 0 where
  pub looked : ℤ → Time
  pub closing : ℤ → Time
  pub checked : Time
  pub ttl : Time
  pub created : Time

abbrev pub new_payment :
    CreateClock → CreatePaymentRequest → String → String → ℤ → RpcOrder → Payment
new_payment clock req method request_id id order = record {
  payment_id = id;
  order_id = req.order_id;
  active_order_id = some req.order_id;
  user_id = req.user_id;
  status = pending;
  payment_method = method;
  amount = order.pay_amount;
  currency = "CNY";
  payment_trade_no = "";
  request_id = request_id;
  expire_at = calculate_payment_expire_at clock.ttl order;
  succeeded_at = none;
  closed_at = none;
  fail_reason = "";
  created_at = clock.created;
}

module _ {S : Type 0} where
  -- What the record that was found answers, by its status.
  unfoldable pub create_found_by :
      PaymentActionRecord → ActionStatus → Handler S (Option RpcPayment)
  create_found_by r action_succeeded = answer_loaded r
  create_found_by r action_pending = raise payment_idempotency_busy
  create_found_by r action_failed = raise payment_state_conflict
  create_found_by r (action_other _) = raise payment_state_conflict

  unfoldable pub create_found : Option PaymentActionRecord → Handler S (Option RpcPayment)
  unfolding create_found_by
  create_found none = pure none
  create_found (some r) = create_found_by r r.status

  -- What the record that was created, or met, answers.
  unfoldable pub create_met_by : PaymentActionRecord → ActionStatus → Handler S (Option RpcPayment)
  create_met_by r action_pending = pure none
  create_met_by r action_succeeded = answer_loaded r
  create_met_by r action_failed = raise payment_idempotency_busy
  create_met_by r (action_other _) = raise payment_idempotency_busy

  unfoldable pub create_met : Option PaymentActionRecord → Handler S (Option RpcPayment)
  unfolding create_met_by
  create_met none = pure none
  create_met (some r) = create_met_by r r.status

  -- The first payment that serves again; expired ones on the way are closed, and an error of that is
  -- logged.
  unfoldable pub reuse_payment : CreateClock → List Payment → Handler S (Option Payment)
  reuse_payment clock [] = pure none
  reuse_payment clock (p ∷ ps) =
      let rest = reuse_payment clock ps in
      if eq_ℤ p.status succeeded
      then pure (some p)
      else if not (eq_ℤ p.status pending)
      then rest
      else if is_payment_expired (clock.looked p.payment_id) p
      then attempt (transition_status (expire_transition p (clock.closing p.payment_id))) >> rest
      else pure (some p)

module _ {S : Type 0} (client : OrderClient S) (clock : CreateClock) (req : CreatePaymentRequest)
    (method request_id : String) where
  unfoldable pub create_failed : BizError → Handler S RpcPayment
  create_failed e = fail_action "create" request_id e

  unfoldable pub create_finished : Payment → Handler S RpcPayment
  create_finished p = finish_action "create" request_id p

  -- Where another payment holds the order's key, it is the answer.
  unfoldable pub finish_active : PaymentError → Result PaymentError Payment → Handler S RpcPayment
  finish_active e (ok active) = create_finished active
  finish_active e (err _) = create_failed (map_repository_error e)

  unfoldable pub finish_create : Result PaymentError Payment → Handler S RpcPayment
  finish_create (ok created) = create_finished created
  finish_create (err active_payment_exists) = do
    active ← attempt (get_latest_active_by_order_id req.order_id req.user_id)
    finish_active active_payment_exists active
  finish_create (err e) = create_failed (map_repository_error e)

  unfoldable pub store_new : Option BizError → Option RpcOrder → Handler S RpcPayment
  store_new (some e) o = create_failed e
  store_new none none = create_failed service_unavailable
  store_new none (some order) = do
    id ← next_id
    created ← attempt (create (new_payment clock req method request_id id order))
    finish_create created

  unfoldable pub create_for : Reply (Option RpcOrder) → Handler S RpcPayment
  create_for unreachable = create_failed service_unavailable
  create_for (replied code order) =
      if code == 0
      then store_new (validate_order_for_payment clock.checked order) order
      else create_failed (map_order_get_failure code)

  unfoldable pub create_new : Option Payment → Handler S RpcPayment
  create_new (some p) = create_finished p
  create_new none = do reply ← call (client.get_order req.user_id req.order_id); create_for reply

  unfoldable pub create_listed : Result PaymentError (List Payment) → Handler S RpcPayment
  create_listed (err e) = create_failed (map_repository_error e)
  create_listed (ok ps) = do reusable ← reuse_payment clock ps; create_new reusable

  unfoldable pub do_create : Handler S RpcPayment
  do_create = do listed ← attempt (list_by_order_id req.order_id req.user_id); create_listed listed

  unfoldable pub create_keyed : Handler S RpcPayment
  create_keyed = do
    existing ← find_action_record "create" request_id
    answer ← create_found existing
    or_else answer (do
      met ← create_pending_action_record "create" request_id (pos 0) req.order_id
      again ← create_met met
      or_else again do_create)

module _ {S : Type 0} (lower : String → String) (client : OrderClient S) (clock : CreateClock) where
  unfoldable pub create_payment : CreatePaymentRequest → Handler S RpcPayment
  create_payment req =
      if leb_ℤ req.order_id (pos 0) || leb_ℤ req.user_id (pos 0)
      then raise invalid_param
      else let method = normalize_payment_method lower req.payment_method in
        if not (is_mock lower method) then raise unsupported_payment_method else do
          request_id ← or_raise (require_request_id req.request_id) invalid_param
          create_keyed client clock req method request_id
