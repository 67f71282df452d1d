-- ===== src/App/Errors.antt =====
-- app/common/errors.go and the errno packages of the services: the business errors, which the code
-- compares by identity, and the codes that go over the wire.
use mesh_cart.Base.{ℕ}

pub data BizError : Type 0 where
  -- app/common
  invalid_param unauthorized forbidden not_found too_many_requests : BizError
  internal_error service_busy service_unavailable : BizError
  -- services/inventory-service/biz/errno
  inventory_stock_not_found inventory_insufficient_stock stock_already_exists : BizError
  invalid_stock_quantity inventory_stock_frozen inventory_reservation_conflict : BizError
  inventory_reservation_not_found inventory_reservation_timeout : BizError
  -- services/cart-service/biz/errno
  cart_item_missing : BizError
  -- services/order-service/biz/errno
  order_not_found invalid_order_data order_product_unavailable order_sku_unavailable : BizError
  order_insufficient_stock order_state_conflict order_paid_immutable : BizError
  order_payment_conflict order_idempotency_busy : BizError
  -- services/payment-service/biz/errno
  payment_not_found invalid_payment_data unsupported_payment_method : BizError
  payment_state_conflict payment_order_not_found payment_order_state_conflict : BizError
  payment_info_conflict payment_idempotency_busy payment_expired : BizError

-- `BizError.Code`
abbrev pub code : BizError → ℕ
code invalid_param = 1000001
code unauthorized = 1000002
code forbidden = 1000003
code not_found = 1000004
code too_many_requests = 1000005
code internal_error = 1009999
code service_busy = 1009999
code service_unavailable = 1009999
code inventory_stock_not_found = 2050001
code inventory_insufficient_stock = 2050002
code stock_already_exists = 2050003
code invalid_stock_quantity = 2050004
code inventory_stock_frozen = 2050005
code inventory_reservation_conflict = 2050006
code inventory_reservation_not_found = 2050007
code inventory_reservation_timeout = 2050008
code cart_item_missing = 2030001
code order_not_found = 2040001
code invalid_order_data = 2040002
code order_product_unavailable = 2040003
code order_sku_unavailable = 2040004
code order_insufficient_stock = 2040005
code order_state_conflict = 2040006
code order_paid_immutable = 2040007
code order_payment_conflict = 2040008
code order_idempotency_busy = 2040009
code payment_not_found = 2060001
code invalid_payment_data = 2060002
code unsupported_payment_method = 2060003
code payment_state_conflict = 2060004
code payment_order_not_found = 2060005
code payment_order_state_conflict = 2060006
code payment_info_conflict = 2060007
code payment_idempotency_busy = 2060008
code payment_expired = 2060009
