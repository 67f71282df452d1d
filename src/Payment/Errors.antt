-- ===== src/Payment/Errors.antt =====
-- services/payment-service/biz/repository/repository.go: the errors, and what a driver's become.
use mesh_cart.Sql.{Fault, record_not_found, duplicate_key}

pub data PaymentError : Type 0 where
  payment_missing invalid_payment payment_conflicts active_payment_exists : PaymentError
  action_record_not_found action_record_exists : PaymentError
  driver : Fault → PaymentError

-- `Take` of a payment.
unfoldable pub payment_take_error : Fault → PaymentError
payment_take_error record_not_found = payment_missing
payment_take_error f = driver f

-- `Take` of the payment that a transition starts from.
unfoldable pub start_take_error : Fault → PaymentError
start_take_error record_not_found = payment_conflicts
start_take_error f = driver f

-- `Create` of a payment whose error does not name the key of the active order.
unfoldable pub payment_create_error : Fault → PaymentError
payment_create_error duplicate_key = action_record_exists
payment_create_error f = driver f

unfoldable pub record_take_error : Fault → PaymentError
record_take_error record_not_found = action_record_not_found
record_take_error f = driver f

unfoldable pub record_create_error : Fault → PaymentError
record_create_error duplicate_key = action_record_exists
record_create_error f = driver f
