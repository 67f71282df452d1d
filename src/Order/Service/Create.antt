-- ===== src/Order/Service/Create.antt =====
-- services/order-service/biz/service/create_order.go: CreateOrder. The clock is read once.
use mesh_cart.Base.{String, List, [], ◌∷◌, Option, none, some, ◌||◌, if◌then◌else◌}
use mesh_cart.Base.Int.{ℤ, pos, leb_ℤ}
use mesh_cart.Base.Lists.{is_empty, sort_by}
use mesh_cart.Sql.{Result, ok, err, pure, raise, ◌>>=◌, ◌>>◌, or_raise, next_id, attempt}
use mesh_cart.App.Errors.{BizError, invalid_param}
use mesh_cart.App.Time.{Time, add_seconds}
use mesh_cart.Inventory.Items.{ReservationItem}
use mesh_cart.Inventory.Service.{ReservationRequest}
use mesh_cart.Order.Model.{Order, OrderItem, OrderActionRecord}
use mesh_cart.Order.Errors.{OrderError}
use mesh_cart.Order.Orders.{create_with_items}
use mesh_cart.Order.Service.{
  Clients, Handler, call, reserved, map_repository_error, inventory_error, RpcOrder, to_rpc_order,
  reserve_biz_id,
}
use mesh_cart.Order.Service.Items.{
  OrderItemInput, ValidatedOrderItem, Snapshots, validate_and_build_snapshots,
}
use mesh_cart.Order.Service.Records.{
  require_request_id, resolve_pending_action_record, mark_action_succeeded, fail_action,
  load_order_by_action_record,
}

-- A nil request is the one of zero values, which the first test rejects.
pub record CreateOrderRequest : Type 0 where
  pub user_id : ℤ
  pub request_id : String
  pub items : List (Option OrderItemInput)

abbrev pub new_item : ℤ → ℤ → ValidatedOrderItem → OrderItem
new_item order_id id v = record {
  id = id;
  order_id = order_id;
  product_id = v.product_id;
  sku_id = v.sku_id;
  product_title_snapshot = v.product_title_snapshot;
  sku_title_snapshot = v.sku_title_snapshot;
  sale_price_snapshot = v.sale_price_snapshot;
  quantity = v.quantity;
  subtotal_amount = v.subtotal_amount;
}

abbrev pub new_order : Time → ℤ → ℤ → ℤ → Order
new_order now order_id user_id total = record {
  order_id = order_id;
  user_id = user_id;
  status = reserved;
  total_amount = total;
  pay_amount = total;
  expire_at = add_seconds (pos 1800) now;
  cancel_reason = "";
  payment_id = "";
  payment_method = "";
  payment_trade_no = "";
  paid_at = none;
  created_at = now;
  items = [];
}

-- `sort.SliceStable` by SKU id; the built items are never nil.
abbrev item_key : Option ReservationItem → ℤ
item_key none = pos 0
item_key (some i) = i.sku_id

abbrev pub order_stocks : ℤ → List (Option ReservationItem) → ReservationRequest
order_stocks order_id items = record {
  biz_type = "order";
  biz_id = reserve_biz_id order_id;
  items = sort_by item_key items;
}

module _ {S : Type 0} where
  unfoldable pub build_items : ℤ → List ValidatedOrderItem → Handler S (List (Option OrderItem))
  build_items order_id [] = pure []
  build_items order_id (v ∷ vs) = do
    id ← next_id
    rest ← build_items order_id vs
    pure (some (new_item order_id id v) ∷ rest)

module _ {S : Type 0} (clients : Clients S) (now : Time) (req : CreateOrderRequest)
    (request_id : String) (action : Option OrderActionRecord) where
  -- The order was stored, or was not: then its stocks are released, whatever comes of that.
  unfoldable pub finish_create : ReservationRequest → Result OrderError Order → Handler S RpcOrder
  finish_create stocks (ok order) = do
    mark_action_succeeded action "create" request_id order.order_id
    pure (to_rpc_order order)
  finish_create stocks (err e) = do
    call (clients.release_stocks stocks)
    fail_action action "create" request_id (map_repository_error e)

  unfoldable pub reserve_and_create :
      ℤ → Result BizError (Snapshots × List (Option ReservationItem)) → Handler S RpcOrder
  reserve_and_create order_id (err e) = fail_action action "create" request_id e
  reserve_and_create order_id (ok (built, reserve_items)) = do
    let stocks = order_stocks order_id reserve_items
    reply ← call (clients.reserve_stocks stocks)
    elim (inventory_error reply) [
      | some e ↦ fail_action action "create" request_id e
      | none ↦ do
        items ← build_items order_id built.items
        created ← attempt (create_with_items (new_order now order_id req.user_id built.total) items)
        finish_create stocks created
    ]

  unfoldable pub do_create : Handler S RpcOrder
  do_create = do
    order_id ← next_id
    built ← attempt (validate_and_build_snapshots clients req.items)
    reserve_and_create order_id built

module _ {S : Type 0} (clients : Clients S) (now : Time) where
  unfoldable pub create_order : CreateOrderRequest → Handler S RpcOrder
  create_order req =
      if leb_ℤ req.user_id (pos 0) || is_empty req.items then raise invalid_param else do
        request_id ← or_raise (require_request_id req.request_id) invalid_param
        resolved ← resolve_pending_action_record "create" request_id (pos 0) req.user_id
        if resolved.1
            then do_create clients now req request_id resolved.0
            else load_order_by_action_record resolved.0
