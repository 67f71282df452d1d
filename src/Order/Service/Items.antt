-- ===== src/Order/Service/Items.antt =====
-- services/order-service/biz/service/helpers.go: validateAndBuildSnapshots and
-- batchGetActiveProducts.
use mesh_cart.Base.{
  String, List, [], ◌∷◌, Bool, false, Option, none, some, map, not, ◌||◌, ◌==◌, if◌then◌else◌,
}
use mesh_cart.Base.Int.{ℤ, pos, ◌+ℤ◌, ◌*ℤ◌, leb_ℤ, eq_ℤ, wrap64}
use mesh_cart.Base.Lists.{length, is_empty}
use mesh_cart.Base.Maps.{get, put}
use mesh_cart.Base.Text.{trim_space}
use mesh_cart.Sql.{Result, ok, err, pure, lift, ◌>>=◌, ◌>>◌, raise_if}
use mesh_cart.App.Errors.{
  BizError, invalid_param, service_unavailable, order_product_unavailable, order_sku_unavailable,
}
use mesh_cart.Inventory.Items.{ReservationItem}
use mesh_cart.Order.Service.{
  ProductSku, Product, Reply, unreachable, replied, Clients, Handler, call, map_product_rpc_error,
  bump, to_items,
}

-- orderpb.OrderItemInput
pub record OrderItemInput : Type 0 where
  pub product_id : ℤ
  pub sku_id : ℤ
  pub quantity : ℤ

pub record ValidatedOrderItem : Type 0 where
  pub product_id : ℤ
  pub sku_id : ℤ
  pub product_title_snapshot : String
  pub sku_title_snapshot : String
  pub sale_price_snapshot : ℤ
  pub quantity : ℤ
  pub subtotal_amount : ℤ

-- The product that each SKU is requested of, and how much of the SKU.
pub record Requested : Type 0 where
  pub products : List (ℤ × ℤ)
  pub quantities : List (ℤ × ℤ)

abbrev pub is_other_product : Option ℤ → ℤ → Bool
is_other_product none p = false
is_other_product (some q) p = not (eq_ℤ q p)

abbrev pub request_item : OrderItemInput → Requested → Requested
request_item i r = record {
  products = put i.sku_id i.product_id r.products;
  quantities = bump i.sku_id i.quantity r.quantities;
}

unfoldable pub collect : Requested → List (Option OrderItemInput) → Result BizError Requested
collect r [] = ok r
collect r (none ∷ items) = err invalid_param
collect r (some i ∷ items) =
    let rest = collect (request_item i r) items in
    if leb_ℤ i.product_id (pos 0) || leb_ℤ i.sku_id (pos 0) || leb_ℤ i.quantity (pos 0)
    then err invalid_param
    else if is_other_product (get i.sku_id r.products) i.product_id
    then err invalid_param
    else rest

-- The SKUs that were found, and the products that they are of.
pub record Found : Type 0 where
  pub skus : List (ℤ × ProductSku)
  pub product_ids : List ℤ

abbrev pub add_id : ℤ → List ℤ → List ℤ
add_id k [] = k ∷ []
add_id k (x ∷ xs) = if eq_ℤ x k then x ∷ xs else x ∷ add_id k xs

abbrev pub found_sku : ProductSku → Found → Found
found_sku s f = record { skus = put s.id s f.skus; product_ids = add_id s.spu_id f.product_ids }

abbrev pub is_expected : Option ℤ → ℤ → Bool
is_expected none p = false
is_expected (some q) p = eq_ℤ p q

unfoldable pub check_skus : List (ℤ × ℤ) → Found → List (Option ProductSku) → Result BizError Found
check_skus products f [] = ok f
check_skus products f (none ∷ skus) = err service_unavailable
check_skus products f (some s ∷ skus) =
    let rest = check_skus products (found_sku s f) skus in
    if not (is_expected (get s.id products) s.spu_id)
    then err order_sku_unavailable
    else if not (eq_ℤ s.status (pos 1))
    then err order_sku_unavailable
    else rest

unfoldable pub check_products :
    List (ℤ × Product) → List (Option Product) → Result BizError (List (ℤ × Product))
check_products m [] = ok m
check_products m (none ∷ ps) = err order_product_unavailable
check_products m (some p ∷ ps) =
    let rest = check_products (put p.id p m) ps in
    if not (eq_ℤ p.status (pos 2)) then err order_product_unavailable else rest

abbrev pub reply_or_error : {A : Type 0} → Reply A → Result BizError A
reply_or_error unreachable = err service_unavailable
reply_or_error (replied code a) = if code == 0 then ok a else err (map_product_rpc_error code)

-- The items that are built, and the sum of their subtotals.
pub record Snapshots : Type 0 where
  pub items : List ValidatedOrderItem
  pub total : ℤ

abbrev pub snapshot : OrderItemInput → ProductSku → Product → ValidatedOrderItem
snapshot i s p = record {
  product_id = i.product_id;
  sku_id = i.sku_id;
  product_title_snapshot = trim_space p.title;
  sku_title_snapshot = trim_space s.title;
  sale_price_snapshot = s.sale_price;
  quantity = i.quantity;
  subtotal_amount = wrap64 (s.sale_price *ℤ i.quantity);
}

abbrev pub cons_snapshot :
    ValidatedOrderItem → Result BizError Snapshots → Result BizError Snapshots
cons_snapshot v (err e) = err e
cons_snapshot v (ok s) = ok (record { items = v ∷ s.items; total = s.total })

abbrev pub item_snapshot :
    OrderItemInput → Option ProductSku → Option Product → Option ValidatedOrderItem
item_snapshot i none p = none
item_snapshot i (some s) none = none
item_snapshot i (some s) (some p) = some (snapshot i s p)

abbrev pub subtotal_of : Option ValidatedOrderItem → ℤ
subtotal_of none = pos 0
subtotal_of (some v) = v.subtotal_amount

abbrev pub add_snapshot :
    Option ValidatedOrderItem → Result BizError Snapshots → Result BizError Snapshots
add_snapshot none rest = err order_product_unavailable
add_snapshot (some v) rest = cons_snapshot v rest

-- The loop over the requested items, with the total so far. No item is nil here, `collect` has seen
-- to that.
unfoldable pub build_snapshots :
    List (ℤ × ProductSku)
    → List (ℤ × Product)
    → ℤ
    → List (Option OrderItemInput)
    → Result BizError Snapshots
build_snapshots skus products total [] = ok (record { items = []; total = total })
build_snapshots skus products total (none ∷ items) = err order_product_unavailable
build_snapshots skus products total (some i ∷ items) =
    let v = item_snapshot i (get i.sku_id skus) (get i.product_id products) in
    let rest = build_snapshots skus products (wrap64 (total +ℤ subtotal_of v)) items in
    add_snapshot v rest

abbrev keys_of : {V : Type 0} → List (ℤ × V) → List ℤ
keys_of = map λ e. e.0

module _ {S : Type 0} (clients : Clients S) where
  unfoldable pub batch_get_active_products : List ℤ → Handler S (List (ℤ × Product))
  batch_get_active_products product_ids = if is_empty product_ids then pure [] else do
    reply ← call (clients.batch_get_products product_ids)
    products ← lift (reply_or_error reply)
    raise_if (not (length products == length product_ids)) order_product_unavailable
    lift (check_products [] products)

  unfoldable pub validate_and_build_snapshots :
      List (Option OrderItemInput) → Handler S (Snapshots × List (Option ReservationItem))
  validate_and_build_snapshots req_items = do
    requested ← lift (collect (record { products = []; quantities = [] }) req_items)
    reply ← call (clients.batch_get_sku (keys_of requested.products))
    skus ← lift (reply_or_error reply)
    found ← lift (check_skus requested.products (record { skus = []; product_ids = [] }) skus)
    raise_if (not (length found.skus == length requested.products)) order_sku_unavailable
    products ← batch_get_active_products found.product_ids
    built ← lift (build_snapshots found.skus products (pos 0) req_items)
    pure (built, to_items requested.quantities)
