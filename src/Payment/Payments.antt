-- ===== src/Payment/Payments.antt =====
-- services/payment-service/biz/repository/repository.go: Create, GetByPaymentID, GetByPaymentIDUser,
-- ListByOrderID, GetLatestActiveByOrderID and TransitionStatus.
use mesh_cart.Base.{String, List, [], ◌∷◌, Bool, Option, none, some, ◌&&◌, ◌||◌, if◌then◌else◌}
use mesh_cart.Base.Int.{ℤ, pos, leb_ℤ, ltb_ℤ, eq_ℤ}
use mesh_cart.Base.Text.{trim_space, is_blank}
use mesh_cart.Base.Lists.{is_empty, find, select, update_where, sort_with}
use mesh_cart.App.Time.{Time}
use mesh_cart.Sql.{
  Query, pure, raise, ◌>>=◌, ◌>>◌, next_id, read, write, take_row, map_err, transaction,
}
use mesh_cart.Mq.Outbox.{is_none}
use mesh_cart.Order.Orders.{set_text, set_time}
use mesh_cart.Payment.Model.{Payment, PaymentStatusLog, PaymentOutbox, PaymentDb}
use mesh_cart.Payment.Errors.{
  PaymentError, invalid_payment, active_payment_exists, action_record_exists, driver,
  payment_take_error, start_take_error, payment_create_error,
}
use mesh_cart.Payment.Tables.{
  has_payment_id, is_payment_of, is_payment_in, is_for_order, has_active, is_newer, KeyClash,
  no_clash, primary_key, active_order_key, insert_payment, insert_log, insert_outbox,
}

pub record PaymentTransition : Type 0 where
  pub payment_id : ℤ
  pub from_statuses : List ℤ
  pub to_status : ℤ
  pub payment_method : String
  pub payment_trade_no : String
  pub succeeded_at : Option Time
  pub closed_at : Option Time
  pub fail_reason : String
  pub action_type : String
  pub reason : String
  pub external_ref : String
  pub outbox_records : List (Option PaymentOutbox)

-- The UPDATE, with the order of the payment that was read.
abbrev pub apply_transition : PaymentTransition → ℤ → Payment → Payment
apply_transition t order_id p = record p {
  status = t.to_status;
  fail_reason = t.fail_reason;
  active_order_id = if eq_ℤ t.to_status (pos 1) then some order_id else none;
  payment_method = set_text t.payment_method p.payment_method;
  payment_trade_no = set_text t.payment_trade_no p.payment_trade_no;
  succeeded_at = set_time t.succeeded_at p.succeeded_at;
  closed_at = set_time t.closed_at p.closed_at;
}

abbrev pub transition_log : PaymentTransition → ℤ → ℤ → PaymentStatusLog
transition_log t id from_status = record {
  id = id;
  payment_id = t.payment_id;
  from_status = from_status;
  to_status = t.to_status;
  action_type = t.action_type;
  reason = t.reason;
  external_ref = t.external_ref;
}

abbrev pub created_log : Payment → PaymentStatusLog
created_log p = record {
  id = p.payment_id;
  payment_id = p.payment_id;
  from_status = pos 0;
  to_status = p.status;
  action_type = "create";
  reason = "payment_created";
  external_ref = "";
}

abbrev pub is_bad_outbox : PaymentOutbox → Bool
is_bad_outbox r =
    leb_ℤ r.id (pos 0)
    || is_blank (trim_space r.topic)
    || is_blank (trim_space r.event_name)
    || is_blank (trim_space r.producer)
    || is_none r.body

-- `Take` has a limit of one row.
abbrev head : {A : Type 0} → List A → Option A
head [] = none
head (x ∷ xs) = some x

module _ {S : Type 0} where
  unfoldable pub get_by_payment_id : ℤ → Query (PaymentDb S) PaymentError Payment
  get_by_payment_id payment_id =
      map_err payment_take_error (take_row λ d. find (has_payment_id payment_id) d.payments)

  unfoldable pub get_by_payment_id_user : ℤ → ℤ → Query (PaymentDb S) PaymentError Payment
  get_by_payment_id_user payment_id user_id =
      map_err payment_take_error (take_row λ d. find (is_payment_of payment_id user_id) d.payments)

  unfoldable pub list_by_order_id : ℤ → ℤ → Query (PaymentDb S) PaymentError (List Payment)
  list_by_order_id order_id user_id =
      if leb_ℤ order_id (pos 0) || leb_ℤ user_id (pos 0)
      then raise invalid_payment
      else map_err driver
          (read λ d. sort_with is_newer (select (is_for_order order_id user_id) d.payments))

  unfoldable pub get_latest_active_by_order_id : ℤ → ℤ → Query (PaymentDb S) PaymentError Payment
  get_latest_active_by_order_id order_id user_id = map_err payment_take_error (
      take_row λ d. head (
        sort_with is_newer
          (select (λ p. has_active order_id p && eq_ℤ p.user_id user_id) d.payments)))

  unfoldable pub clash_error : KeyClash → Query (PaymentDb S) PaymentError Unit
  clash_error no_clash = pure tt
  clash_error primary_key = raise action_record_exists
  clash_error active_order_key = raise active_payment_exists

  unfoldable pub create_body : Payment → Query (PaymentDb S) PaymentError Unit
  create_body payment = do
    clash ← map_err payment_create_error (insert_payment payment)
    clash_error clash
    map_err driver (insert_log (created_log payment))

  -- The payment that a caller hands over is never nil; it is read back after the commit.
  unfoldable pub create : Payment → Query (PaymentDb S) PaymentError Payment
  create payment =
      if leb_ℤ payment.payment_id (pos 0)
        || leb_ℤ payment.order_id (pos 0)
        || leb_ℤ payment.user_id (pos 0)
        || ltb_ℤ payment.amount (pos 0)
        || is_blank (trim_space payment.payment_method)
      then raise invalid_payment
      else do transaction driver (create_body payment); get_by_payment_id payment.payment_id

  unfoldable pub write_outbox : List (Option PaymentOutbox) → Query (PaymentDb S) PaymentError Unit
  write_outbox [] = pure tt
  write_outbox (none ∷ rs) = raise invalid_payment
  write_outbox (some r ∷ rs) =
      let rest = write_outbox rs in
      if is_bad_outbox r then raise invalid_payment else map_err driver (insert_outbox r) >> rest

  -- The id of the log is the clock's nanosecond, which is drawn here.
  unfoldable pub transition_body : PaymentTransition → Query (PaymentDb S) PaymentError Unit
  transition_body t = do
    payment ←
        map_err start_take_error
          (take_row λ d. find (is_payment_in t.payment_id t.from_statuses) d.payments)
    map_err driver (
        write λ d. record d {
          payments =
              update_where (has_payment_id t.payment_id) (apply_transition t payment.order_id)
                d.payments;
        })
    id ← next_id
    map_err driver (insert_log (transition_log t id payment.status))
    write_outbox t.outbox_records

  unfoldable pub transition_status : PaymentTransition → Query (PaymentDb S) PaymentError Payment
  transition_status t =
      if leb_ℤ t.payment_id (pos 0) || is_empty t.from_statuses
      then raise invalid_payment
      else do transaction driver (transition_body t); get_by_payment_id t.payment_id
