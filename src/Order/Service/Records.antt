-- ===== src/Order/Service/Records.antt =====
-- services/order-service/biz/service/helpers.go: the records of actions, as the handlers use them,
-- and the order that a succeeded action is answered with.
use mesh_cart.Base.{String, Bool, true, false, Option, none, some, if◌then◌else◌}
use mesh_cart.Base.Int.{ℤ, pos, leb_ℤ}
use mesh_cart.Base.Text.{trim_space, is_blank}
use mesh_cart.Sql.{Result, ok, err, pure, raise, ◌>>=◌, ◌>>◌, next_id, map_err, attempt}
use mesh_cart.App.Errors.{BizError, internal_error, order_idempotency_busy, order_state_conflict}
use mesh_cart.Order.Model.{
  OrderActionRecord, action_pending, action_succeeded, action_failed, action_other,
}
use mesh_cart.Order.Errors.{OrderError, action_record_not_found, action_record_exists}
use mesh_cart.Order.Orders.{get_by_id}
use mesh_cart.Order.Actions.{
  get_action_record, create_action_record, mark_action_record_succeeded, mark_action_record_failed,
  mark_action_record_succeeded_by_id, mark_action_record_failed_by_id,
}
use mesh_cart.Order.Service.{Handler, map_repository_error, RpcOrder, to_rpc_order}

unfoldable pub require_request_id : String → Option String
require_request_id request_id =
    let trimmed = trim_space request_id in if is_blank trimmed then none else some trimmed

abbrev pub pending_record : ℤ → String → String → ℤ → ℤ → OrderActionRecord
pending_record id action_type action_key order_id user_id = record {
  id = id;
  action_type = action_type;
  action_key = action_key;
  order_id = order_id;
  user_id = user_id;
  status = action_pending;
}

abbrev has_id : Option OrderActionRecord → Bool
has_id none = false
has_id (some r) = if leb_ℤ r.id (pos 0) then false else true

abbrev id_of : Option OrderActionRecord → ℤ
id_of none = pos 0
id_of (some r) = r.id

module _ {S : Type 0} where
  unfoldable pub found_action :
      Result OrderError OrderActionRecord → Handler S (Option OrderActionRecord)
  found_action (ok r) = pure (some r)
  found_action (err action_record_not_found) = pure none
  found_action (err _) = raise internal_error

  unfoldable pub find_action_record : String → String → Handler S (Option OrderActionRecord)
  unfolding found_action
  find_action_record action_type action_key = do
    found ← attempt (get_action_record action_type action_key)
    found_action found

  -- What to make of the record of another request, or of none.
  unfoldable pub reuse_existing :
      Option OrderActionRecord → Handler S (Option OrderActionRecord × Bool)
  reuse_existing (some r) = pure (some r, false)
  reuse_existing none = raise internal_error

  unfoldable pub created_or_existing :
      OrderActionRecord → Result OrderError Unit → Handler S (Option OrderActionRecord × Bool)
  created_or_existing r (ok _) = pure (some r, true)
  created_or_existing r (err action_record_exists) =
      find_action_record r.action_type r.action_key >>= reuse_existing
  created_or_existing r (err _) = raise internal_error

  unfoldable pub create_pending_action_record :
      String → String → ℤ → ℤ → Handler S (Option OrderActionRecord × Bool)
  create_pending_action_record action_type action_key order_id user_id =
      if is_blank (trim_space action_key) then pure (none, false) else do
        id ← next_id
        let r = pending_record id action_type action_key order_id user_id
        created ← attempt (create_action_record r)
        created_or_existing r created

  -- The record to go on with, and whether the action is to be done.
  unfoldable pub resolve_existing :
      Option OrderActionRecord × Bool → Handler S (Option OrderActionRecord × Bool)
  resolve_existing (r, true) = pure (r, true)
  resolve_existing (none, false) = pure (none, true)
  resolve_existing (some r, false) = elim r.status [
    | action_succeeded ↦ pure (some r, false)
    | action_pending ↦ raise order_idempotency_busy
    | action_failed ↦ raise order_state_conflict
    | action_other _ ↦ raise order_state_conflict
  ]

  unfoldable pub resolve_pending_action_record :
      String → String → ℤ → ℤ → Handler S (Option OrderActionRecord × Bool)
  resolve_pending_action_record action_type action_key order_id user_id =
      create_pending_action_record action_type action_key order_id user_id >>= resolve_existing

  -- An error of the update is logged, and no more.
  unfoldable pub mark_action_succeeded :
      Option OrderActionRecord → String → String → ℤ → Handler S Unit
  mark_action_succeeded r action_type action_key order_id =
      if is_blank (trim_space action_key) then pure tt else do
        attempt (
            if has_id r
            then mark_action_record_succeeded_by_id (id_of r) order_id
            else mark_action_record_succeeded action_type action_key order_id)
        pure tt

  unfoldable pub mark_action_failed : Option OrderActionRecord → String → String → Handler S Unit
  mark_action_failed r action_type action_key =
      if is_blank (trim_space action_key) then pure tt else do
        attempt (
            if has_id r
            then mark_action_record_failed_by_id (id_of r)
            else mark_action_record_failed action_type action_key)
        pure tt

  -- `markActionFailed(…); return nil, bizErr`
  unfoldable pub fail_action :
      {A : Type 0} → Option OrderActionRecord → String → String → BizError → Handler S A
  fail_action r action_type action_key e = mark_action_failed r action_type action_key >> raise e

  unfoldable pub load_order_by_action_record : Option OrderActionRecord → Handler S RpcOrder
  load_order_by_action_record none = raise order_idempotency_busy
  load_order_by_action_record (some r) =
      if leb_ℤ r.order_id (pos 0)
      then raise order_idempotency_busy
      else do order ← map_err map_repository_error (get_by_id r.order_id); pure (to_rpc_order order)
