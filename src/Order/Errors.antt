-- ===== src/Order/Errors.antt =====
-- services/order-service/biz/repository/repository.go: the errors, and what a driver's become.
use mesh_cart.Sql.{Fault, record_not_found, duplicate_key}

pub data OrderError : Type 0 where
  order_missing invalid_order state_conflict : OrderError
  action_record_not_found action_record_exists : OrderError
  driver : Fault → OrderError

-- `Take` of an order.
unfoldable pub order_take_error : Fault → OrderError
order_take_error record_not_found = order_missing
order_take_error f = driver f

-- `Take` of the order that a transition starts from.
unfoldable pub transition_take_error : Fault → OrderError
transition_take_error record_not_found = state_conflict
transition_take_error f = driver f

unfoldable pub action_take_error : Fault → OrderError
action_take_error record_not_found = action_record_not_found
action_take_error f = driver f

-- `isUniqueConstraintError`: the driver's text names a duplicate.
unfoldable pub action_create_error : Fault → OrderError
action_create_error duplicate_key = action_record_exists
action_create_error f = driver f
