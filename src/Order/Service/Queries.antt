-- ===== src/Order/Service/Queries.antt =====
-- services/order-service/biz/service: get_order.go and list_orders.go.
use mesh_cart.Base.{List, ◌||◌, if◌then◌else◌}
use mesh_cart.Base.Int.{ℤ, pos, ◌-ℤ◌, ◌*ℤ◌, wrap32, leb_ℤ}
use mesh_cart.Sql.{pure, raise, ◌>>=◌, map_err}
use mesh_cart.App.Errors.{invalid_param}
use mesh_cart.Order.Orders.{get_by_order_id, list_by_user_id}
use mesh_cart.Order.Service.{Handler, map_repository_error, RpcOrder, to_rpc_order, to_rpc_orders}

abbrev pub or_default : ℤ → ℤ → ℤ
or_default d n = if leb_ℤ n (pos 0) then d else n

module _ {S : Type 0} where
  unfoldable pub get_order : ℤ → ℤ → Handler S RpcOrder
  get_order user_id order_id =
      if leb_ℤ user_id (pos 0) || leb_ℤ order_id (pos 0) then raise invalid_param else do
        order ← map_err map_repository_error (get_by_order_id user_id order_id)
        pure (to_rpc_order order)

  -- The offset is computed in 32 bits.
  unfoldable pub list_orders : ℤ → ℤ → ℤ → Handler S (List RpcOrder × ℤ)
  list_orders user_id page page_size = if leb_ℤ user_id (pos 0) then raise invalid_param else do
    let size = or_default (pos 20) page_size
    let offset = wrap32 (wrap32 (or_default (pos 1) page -ℤ pos 1) *ℤ size)
    (orders, total) ← map_err map_repository_error (list_by_user_id user_id offset size)
    pure (to_rpc_orders orders, total)
