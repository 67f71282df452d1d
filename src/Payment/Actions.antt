-- ===== src/Payment/Actions.antt =====
-- services/payment-service/biz/repository: the records of actions, which make requests idempotent,
-- and those of consumed events. The record that a caller hands over is never nil.
use mesh_cart.Base.{String, ◌||◌, ◌==◌}
use mesh_cart.Base.Int.{ℤ, pos, leb_ℤ, eq_ℤ}
use mesh_cart.Base.Text.{trim_space, is_blank}
use mesh_cart.Base.Lists.{find, update_where}
use mesh_cart.Sql.{Query, ◌>>=◌, ◌>>◌, raise_if, take_row, write, map_err}
use mesh_cart.Order.Model.{action_succeeded, action_failed}
use mesh_cart.Payment.Model.{PaymentActionRecord, PaymentConsumeRecord, PaymentDb}
use mesh_cart.Payment.Errors.{
  PaymentError, invalid_payment, action_record_not_found, driver, record_take_error,
  record_create_error,
}
use mesh_cart.Payment.Tables.{
  is_action, is_consumed, insert_action, insert_consumed, update_actions,
}

abbrev pub set_succeeded : ℤ → ℤ → PaymentActionRecord → PaymentActionRecord
set_succeeded payment_id order_id r = record r {
  status = action_succeeded;
  payment_id = payment_id;
  order_id = order_id;
}

abbrev pub set_failed : PaymentActionRecord → PaymentActionRecord
set_failed r = record r { status = action_failed }

module _ {S : Type 0} where
  unfoldable pub get_action_record :
      String → String → Query (PaymentDb S) PaymentError PaymentActionRecord
  get_action_record action_type action_key =
      map_err record_take_error
        (take_row λ d. find (is_action action_type action_key) d.action_records)

  unfoldable pub create_action_record : PaymentActionRecord → Query (PaymentDb S) PaymentError Unit
  create_action_record r = do
    raise_if
        (leb_ℤ r.id (pos 0)
          || is_blank (trim_space r.action_type)
          || is_blank (trim_space r.action_key))
        invalid_payment
    map_err record_create_error (insert_action r)

  unfoldable pub mark_action_record_succeeded :
      String → String → ℤ → ℤ → Query (PaymentDb S) PaymentError Unit
  mark_action_record_succeeded action_type action_key payment_id order_id = do
    rows ←
        map_err driver
          (update_actions (is_action action_type action_key) (set_succeeded payment_id order_id))
    raise_if (rows == 0) action_record_not_found

  unfoldable pub mark_action_record_failed : String → String → Query (PaymentDb S) PaymentError Unit
  mark_action_record_failed action_type action_key = do
    rows ← map_err driver (update_actions (is_action action_type action_key) set_failed)
    raise_if (rows == 0) action_record_not_found

  unfoldable pub create_consume_record :
      PaymentConsumeRecord → Query (PaymentDb S) PaymentError Unit
  create_consume_record r = do
    raise_if
        (leb_ℤ r.id (pos 0)
          || is_blank (trim_space r.consumer_group)
          || is_blank (trim_space r.event_id)
          || is_blank (trim_space r.event_name))
        invalid_payment
    map_err record_create_error (insert_consumed r)

  unfoldable pub get_consume_record :
      String → String → Query (PaymentDb S) PaymentError PaymentConsumeRecord
  get_consume_record consumer_group event_id =
      map_err record_take_error
        (take_row λ d. find (is_consumed consumer_group event_id) d.consume_records)

  unfoldable pub mark_consume_record_succeeded : ℤ → Query (PaymentDb S) PaymentError Unit
  mark_consume_record_succeeded id = map_err driver (
      write λ d. record d {
        consume_records =
            update_where (λ r. eq_ℤ r.id id) (λ r. record r { status = action_succeeded })
              d.consume_records;
      })

  unfoldable pub mark_consume_record_failed : ℤ → Query (PaymentDb S) PaymentError Unit
  mark_consume_record_failed id = map_err driver (
      write λ d. record d {
        consume_records =
            update_where (λ r. eq_ℤ r.id id) (λ r. record r { status = action_failed })
              d.consume_records;
      })
