-- ===== src/Payment/Service/Records.antt =====
-- services/payment-service/biz/service/helpers.go: the records of actions, as the handlers use them,
-- and the payment that a succeeded action is answered with.
use mesh_cart.Base.{String, Option, none, some, if◌then◌else◌}
use mesh_cart.Base.Int.{ℤ, pos, leb_ℤ}
use mesh_cart.Base.Text.{trim_space, is_blank}
use mesh_cart.Sql.{Result, ok, err, pure, raise, ◌>>=◌, ◌>>◌, next_id, map_err, attempt}
use mesh_cart.App.Errors.{BizError, internal_error, payment_idempotency_busy}
use mesh_cart.Order.Model.{action_pending}
use mesh_cart.Payment.Model.{Payment, PaymentActionRecord}
use mesh_cart.Payment.Errors.{PaymentError, action_record_not_found, action_record_exists}
use mesh_cart.Payment.Payments.{get_by_payment_id}
use mesh_cart.Payment.Actions.{
  get_action_record, create_action_record, mark_action_record_succeeded, mark_action_record_failed,
}
use mesh_cart.Payment.Service.{Handler, map_repository_error, RpcPayment, to_rpc_payment}

abbrev pub pending_record : ℤ → String → String → ℤ → ℤ → PaymentActionRecord
pending_record id action_type action_key payment_id order_id = record {
  id = id;
  action_type = action_type;
  action_key = action_key;
  payment_id = payment_id;
  order_id = order_id;
  status = action_pending;
}

module _ {S : Type 0} where
  unfoldable pub found_action :
      Result PaymentError PaymentActionRecord → Handler S (Option PaymentActionRecord)
  found_action (ok r) = pure (some r)
  found_action (err action_record_not_found) = pure none
  found_action (err _) = raise internal_error

  unfoldable pub find_action_record : String → String → Handler S (Option PaymentActionRecord)
  unfolding found_action
  find_action_record action_type action_key = do
    found ← attempt (get_action_record action_type action_key)
    found_action found

  -- The record of another request, which is there unless it has gone.
  unfoldable pub reuse_existing :
      Option PaymentActionRecord → Handler S (Option PaymentActionRecord)
  reuse_existing (some r) = pure (some r)
  reuse_existing none = raise internal_error

  unfoldable pub created_or_existing :
      PaymentActionRecord → Result PaymentError Unit → Handler S (Option PaymentActionRecord)
  created_or_existing r (ok _) = pure (some r)
  created_or_existing r (err action_record_exists) =
      find_action_record r.action_type r.action_key >>= reuse_existing
  created_or_existing r (err _) = raise internal_error

  unfoldable pub create_pending_action_record :
      String → String → ℤ → ℤ → Handler S (Option PaymentActionRecord)
  create_pending_action_record action_type action_key payment_id order_id =
      if is_blank (trim_space action_key) then pure none else do
        id ← next_id
        let r = pending_record id action_type action_key payment_id order_id
        created ← attempt (create_action_record r)
        created_or_existing r created

  -- An error of the update is logged, and no more.
  unfoldable pub mark_action_succeeded : String → String → ℤ → ℤ → Handler S Unit
  mark_action_succeeded action_type action_key payment_id order_id =
      if is_blank (trim_space action_key) then pure tt else do
        attempt (mark_action_record_succeeded action_type action_key payment_id order_id)
        pure tt

  unfoldable pub mark_action_failed : String → String → Handler S Unit
  mark_action_failed action_type action_key =
      if is_blank (trim_space action_key)
      then pure tt
      else do attempt (mark_action_record_failed action_type action_key); pure tt

  -- `markActionFailed(…); return nil, bizErr`
  unfoldable pub fail_action : {A : Type 0} → String → String → BizError → Handler S A
  fail_action action_type action_key e = mark_action_failed action_type action_key >> raise e

  -- `markActionSucceeded(…); return toRPCPayment(payment), nil`
  unfoldable pub finish_action : String → String → Payment → Handler S RpcPayment
  finish_action action_type action_key p = do
    mark_action_succeeded action_type action_key p.payment_id p.order_id
    pure (to_rpc_payment p)

  unfoldable pub load_payment_by_action_record : PaymentActionRecord → Handler S RpcPayment
  load_payment_by_action_record r =
      if leb_ℤ r.payment_id (pos 0) then raise payment_idempotency_busy else do
        payment ← map_err map_repository_error (get_by_payment_id r.payment_id)
        pure (to_rpc_payment payment)

  -- The answer that a record gives at once, if it gives one.
  unfoldable pub answer_loaded : PaymentActionRecord → Handler S (Option RpcPayment)
  answer_loaded r = do payment ← load_payment_by_action_record r; pure (some payment)

  unfoldable pub or_else : Option RpcPayment → Handler S RpcPayment → Handler S RpcPayment
  or_else none go = go
  or_else (some p) go = pure p
