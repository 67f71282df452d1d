-- ===== src/Inventory/Errors.antt =====
-- services/inventory-service/biz/repository/repository.go: the errors, and how a driver's errors
-- are turned into them.
use mesh_cart.Base.{Bool, true, false, if◌then◌else◌}
use mesh_cart.Sql.{
  Fault, record_not_found, duplicate_key, deadline_exceeded, canceled, lock_timeout,
}

-- The nine sentinel errors, or the driver's error passed on.
pub data StockError : Type 0 where
  stock_not_found stock_exists invalid_quantity insufficient_stock stock_frozen : StockError
  reservation_conflict reservation_not_found reservation_state_conflict : StockError
  reservation_timeout : StockError
  driver : Fault → StockError

-- `errors.Is(err, gorm.ErrDuplicatedKey)` or a text that says so.
abbrev pub is_duplicate : Fault → Bool
is_duplicate duplicate_key = true
is_duplicate _ = false

-- `isReservationTimeoutErr`, on a driver's error.
abbrev pub is_timeout : Fault → Bool
is_timeout deadline_exceeded = true
is_timeout canceled = true
is_timeout lock_timeout = true
is_timeout _ = false

abbrev pub is_not_found : Fault → Bool
is_not_found record_not_found = true
is_not_found _ = false

-- What `Create` of a stock or of a tx branch returns.
unfoldable pub stock_create_error : Fault → StockError
stock_create_error f = if is_duplicate f then stock_exists else driver f

-- What `Take` of a stock returns.
unfoldable pub stock_take_error : Fault → StockError
stock_take_error f = if is_not_found f then stock_not_found else driver f

unfoldable pub is_reservation_timeout_err : StockError → Bool
is_reservation_timeout_err (driver f) = is_timeout f
is_reservation_timeout_err _ = false

unfoldable pub normalize_duplicate_error : StockError → StockError
normalize_duplicate_error (driver f) = if is_duplicate f then reservation_conflict else driver f
normalize_duplicate_error e = e

unfoldable pub normalize_reservation_error : StockError → StockError
unfolding is_reservation_timeout_err normalize_duplicate_error
normalize_reservation_error e =
    if is_reservation_timeout_err e then reservation_timeout else normalize_duplicate_error e
