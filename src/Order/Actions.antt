-- ===== src/Order/Actions.antt =====
-- services/order-service/biz/repository/repository.go: the records of actions, which make requests
-- idempotent.
use mesh_cart.Base.{String, Bool, ◌||◌, ◌==◌}
use mesh_cart.Base.Int.{ℤ, pos, leb_ℤ, eq_ℤ}
use mesh_cart.Base.Text.{trim_space, is_blank}
use mesh_cart.Base.Lists.{find}
use mesh_cart.Sql.{Query, ◌>>=◌, ◌>>◌, raise_if, take_row, map_err}
use mesh_cart.Order.Model.{OrderActionRecord, OrderDb, action_succeeded, action_failed}
use mesh_cart.Order.Errors.{
  OrderError, invalid_order, action_record_not_found, driver, action_take_error,
  action_create_error,
}
use mesh_cart.Order.Tables.{is_action, insert_action, update_actions}

abbrev pub set_succeeded : ℤ → OrderActionRecord → OrderActionRecord
set_succeeded order_id r = record r { status = action_succeeded; order_id = order_id }

abbrev pub set_failed : OrderActionRecord → OrderActionRecord
set_failed r = record r { status = action_failed }

module _ {S : Type 0} where
  unfoldable pub get_action_record :
      String → String → Query (OrderDb S) OrderError OrderActionRecord
  get_action_record action_type action_key =
      map_err action_take_error
        (take_row λ d. find (is_action action_type action_key) d.action_records)

  -- The record that a caller hands over is never nil.
  unfoldable pub create_action_record : OrderActionRecord → Query (OrderDb S) OrderError Unit
  create_action_record r = do
    raise_if
        (leb_ℤ r.id (pos 0)
          || is_blank (trim_space r.action_type)
          || is_blank (trim_space r.action_key))
        invalid_order
    map_err action_create_error (insert_action r)

  unfoldable pub update_some_action :
      (OrderActionRecord → Bool)
      → (OrderActionRecord → OrderActionRecord)
      → Query (OrderDb S) OrderError Unit
  update_some_action p f = do
    rows ← map_err driver (update_actions p f)
    raise_if (rows == 0) action_record_not_found

  unfoldable pub mark_action_record_succeeded :
      String → String → ℤ → Query (OrderDb S) OrderError Unit
  unfolding update_some_action
  mark_action_record_succeeded action_type action_key order_id =
      update_some_action (is_action action_type action_key) (set_succeeded order_id)

  unfoldable pub mark_action_record_failed : String → String → Query (OrderDb S) OrderError Unit
  unfolding update_some_action
  mark_action_record_failed action_type action_key =
      update_some_action (is_action action_type action_key) set_failed

  unfoldable pub mark_action_record_succeeded_by_id : ℤ → ℤ → Query (OrderDb S) OrderError Unit
  unfolding update_some_action
  mark_action_record_succeeded_by_id id order_id =
      update_some_action (λ r. eq_ℤ r.id id) (set_succeeded order_id)

  unfoldable pub mark_action_record_failed_by_id : ℤ → Query (OrderDb S) OrderError Unit
  unfolding update_some_action
  mark_action_record_failed_by_id id = update_some_action (λ r. eq_ℤ r.id id) set_failed
