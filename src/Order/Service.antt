-- ===== src/Order/Service.antt =====
-- services/order-service/biz/service: what the handlers share, service.go, helpers.go and mapper.go.
-- The services that are called are operations on a state `S` of their own. Logging and metrics are
-- left out; that the clients are not nil is taken for granted.
pub mod Items
pub mod Records
pub mod Create
pub mod Cancel
pub mod Confirm
pub mod Close
pub mod Queries
use mesh_cart.Base.{
  ℕ, String, List, [], ◌∷◌, Bool, Option, none, some, map, not, ◌&&◌, ◌==◌, if◌then◌else◌,
}
use mesh_cart.Base.Int.{ℤ, pos, ◌+ℤ◌, wrap64}
use mesh_cart.Base.Maps.{get, put}
use mesh_cart.Base.Text.{trim_space, is_blank, str_eq}
use mesh_cart.Base.Decimal.{format_int}
use mesh_cart.Sql.{World, Query, Result, ok, err}
use mesh_cart.App.Errors.{
  BizError, internal_error, service_unavailable, order_not_found, invalid_order_data,
  order_product_unavailable, order_sku_unavailable, order_insufficient_stock, order_state_conflict,
}
use mesh_cart.App.Time.{Time, is_zero}
use mesh_cart.Inventory.Items.{ReservationItem}
use mesh_cart.Inventory.Service.{ReservationRequest}
use mesh_cart.Order.Model.{Order, OrderItem, OrderDb}
use mesh_cart.Order.Errors.{OrderError, order_missing, invalid_order, state_conflict}

abbrev pub pending : ℤ
pending = pos 1

abbrev pub reserved : ℤ
reserved = pos 2

abbrev pub paid : ℤ
paid = pos 3

abbrev pub cancelled : ℤ
cancelled = pos 4

abbrev pub closed : ℤ
closed = pos 5

unfoldable pub map_repository_error : OrderError → BizError
map_repository_error order_missing = order_not_found
map_repository_error invalid_order = invalid_order_data
map_repository_error state_conflict = order_state_conflict
map_repository_error _ = internal_error

-- productpb.ProductSku and productpb.Product, as far as they are read.
pub record ProductSku : Type 0 where
  pub id : ℤ
  pub spu_id : ℤ
  pub title : String
  pub sale_price : ℤ
  pub status : ℤ

pub record Product : Type 0 where
  pub id : ℤ
  pub title : String
  pub status : ℤ

-- What a call comes back with: an error of the transport, or a reply with its code.
pub data Reply (A : Type 0) : Type 0 where
  unreachable : Reply A
  replied : ℕ → A → Reply A

-- The calls of the product and of the inventory service.
pub record Clients (S : Type 0) : Type 0 where
  pub batch_get_sku : List ℤ → S → Reply (List (Option ProductSku)) × S
  pub batch_get_products : List ℤ → S → Reply (List (Option Product)) × S
  pub reserve_stocks : ReservationRequest → S → Reply Unit × S
  pub release_stocks : ReservationRequest → S → Reply Unit × S
  pub confirm_stocks : ReservationRequest → S → Reply Unit × S

abbrev pub Handler : Type 0 → Type 0 → Type 0
Handler S A = Query (OrderDb S) BizError A

unfoldable pub call : {S A : Type 0} → (S → A × S) → Handler S A
call f w = let (a, s) = f w.db.others in (ok a, record w { db = record w.db { others = s } })

unfoldable pub map_product_rpc_error : ℕ → BizError
map_product_rpc_error code =
    if code == 2020001
    then order_product_unavailable
    else if code == 2020003
    then order_product_unavailable
    else if code == 2020002
    then order_sku_unavailable
    else if code == 2020004
    then order_sku_unavailable
    else service_unavailable

unfoldable pub map_inventory_rpc_error : ℕ → BizError
map_inventory_rpc_error code =
    if code == 2050002
    then order_insufficient_stock
    else if code == 2050006
    then order_state_conflict
    else if code == 2050007
    then order_state_conflict
    else service_unavailable

-- What is made of a reply of the inventory service: an error, if it is one.
abbrev pub inventory_error : Reply Unit → Option BizError
inventory_error unreachable = some service_unavailable
inventory_error (replied code _) = if code == 0 then none else some (map_inventory_rpc_error code)

-- orderpb.OrderItem has the fields of a row; orderpb.Order has times in seconds, 0 for none.
pub record RpcOrder : Type 0 where
  pub order_id : ℤ
  pub user_id : ℤ
  pub status : ℤ
  pub total_amount : ℤ
  pub pay_amount : ℤ
  pub expire_at : ℤ
  pub items : List OrderItem
  pub cancel_reason : String
  pub payment_id : String
  pub paid_at : ℤ
  pub payment_method : String
  pub payment_trade_no : String

abbrev pub unix_or_zero : Option Time → ℤ
unix_or_zero none = pos 0
unix_or_zero (some t) = if is_zero t then pos 0 else t.unix

unfoldable pub to_rpc_order : Order → RpcOrder
to_rpc_order o = record {
  order_id = o.order_id;
  user_id = o.user_id;
  status = o.status;
  total_amount = o.total_amount;
  pay_amount = o.pay_amount;
  expire_at = unix_or_zero (some o.expire_at);
  items = o.items;
  cancel_reason = o.cancel_reason;
  payment_id = o.payment_id;
  paid_at = unix_or_zero o.paid_at;
  payment_method = o.payment_method;
  payment_trade_no = o.payment_trade_no;
}

unfoldable pub to_rpc_orders : List Order → List RpcOrder
unfolding to_rpc_order
to_rpc_orders = map to_rpc_order

unfoldable pub reserve_biz_id : ℤ → String
reserve_biz_id order_id = format_int order_id

unfoldable pub payment_conflict : String → String → Bool
payment_conflict existing incoming =
    let e = trim_space existing in
    let i = trim_space incoming in not (is_blank e) && not (is_blank i) && not (str_eq e i)

-- `quantities[k] += q`
abbrev pub or_zero : Option ℤ → ℤ
or_zero none = pos 0
or_zero (some q) = q

abbrev pub bump : ℤ → ℤ → List (ℤ × ℤ) → List (ℤ × ℤ)
bump k q m = put k (wrap64 (or_zero (get k m) +ℤ q)) m

abbrev pub to_items : List (ℤ × ℤ) → List (Option ReservationItem)
to_items = map λ e. some (record { sku_id = e.0; quantity = e.1 })

abbrev pub sum_quantities : List (ℤ × ℤ) → List OrderItem → List (ℤ × ℤ)
sum_quantities m [] = m
sum_quantities m (i ∷ is) = sum_quantities (bump i.sku_id i.quantity m) is

unfoldable pub build_release_items : Order → List (Option ReservationItem)
build_release_items o = to_items (sum_quantities [] o.items)

-- The request that concerns the stocks of an order.
abbrev pub stocks_of : Order → ReservationRequest
stocks_of o = record {
  biz_type = "order";
  biz_id = reserve_biz_id o.order_id;
  items = build_release_items o;
}
