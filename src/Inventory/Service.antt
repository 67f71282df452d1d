-- ===== src/Inventory/Service.antt =====
-- services/inventory-service/biz/service: the handlers of stock reservations and of stock upkeep.
-- A nil request is the request of zero values: its getters return those, and the first test of the
-- handler rejects it. An item of a request may be nil. Logging and metrics are left out.
pub mod Saga
pub mod Consistency
pub mod Compensation
pub mod Branches
pub mod Creations
pub mod Repeats
pub mod Removal
use mesh_cart.Base.{
  String, List, [], ◌∷◌, Bool, true, false, not, ◌||◌, Option, none, some, map, if◌then◌else◌,
}
use mesh_cart.Base.Int.{ℤ, pos, leb_ℤ, ltb_ℤ, eq_ℤ}
use mesh_cart.Base.Lists.{is_empty, any, mem_ℤ}
use mesh_cart.Base.Text.{trim_space, is_blank}
use mesh_cart.Sql.{
  Result, ok, err, Query, deadline_exceeded, pure, raise, ◌>>=◌, ◌>>◌, raise_if, or_raise, map_err,
  attempt,
}
use mesh_cart.App.Errors.{
  BizError, invalid_param, internal_error, inventory_stock_not_found, stock_already_exists,
  invalid_stock_quantity, inventory_insufficient_stock, inventory_stock_frozen,
  inventory_reservation_conflict, inventory_reservation_not_found, inventory_reservation_timeout,
}
use mesh_cart.Inventory.Model.{InventoryStock, InventoryDb}
use mesh_cart.Inventory.Errors.{
  StockError, stock_not_found, stock_exists, invalid_quantity, insufficient_stock, stock_frozen,
  reservation_conflict, reservation_state_conflict, reservation_not_found, reservation_timeout,
  driver,
}
use mesh_cart.Inventory.Items.{ReservationItem}
use mesh_cart.Inventory.Stocks.{
  get_by_sku_id, list_by_sku_ids, create_batch, adjust_total_stock, freeze_by_sku_ids,
}
use mesh_cart.Inventory.Reservations.{reserve, release, confirm_deduct}

unfoldable pub map_repository_error : StockError → BizError
map_repository_error stock_not_found = inventory_stock_not_found
map_repository_error stock_exists = stock_already_exists
map_repository_error invalid_quantity = invalid_stock_quantity
map_repository_error insufficient_stock = inventory_insufficient_stock
map_repository_error stock_frozen = inventory_stock_frozen
map_repository_error reservation_conflict = inventory_reservation_conflict
map_repository_error reservation_state_conflict = inventory_reservation_conflict
map_repository_error reservation_not_found = inventory_reservation_not_found
map_repository_error reservation_timeout = inventory_reservation_timeout
map_repository_error (driver deadline_exceeded) = inventory_reservation_timeout
map_repository_error (driver _) = internal_error

-- inventorypb.SkuStock
pub record SkuStock : Type 0 where
  pub sku_id : ℤ
  pub total_stock : ℤ
  pub reserved_stock : ℤ
  pub available_stock : ℤ
  pub saleable_stock : ℤ
  pub status : ℤ

unfoldable pub to_rpc_sku_stock : InventoryStock → SkuStock
to_rpc_sku_stock s = record {
  sku_id = s.sku_id;
  total_stock = s.total_stock;
  reserved_stock = s.reserved_stock;
  available_stock = s.available_stock;
  saleable_stock = s.available_stock;
  status = s.status;
}

unfoldable pub to_rpc_sku_stocks : List InventoryStock → List SkuStock
unfolding to_rpc_sku_stock
to_rpc_sku_stocks = map to_rpc_sku_stock

-- The requests to reserve, to release and to confirm have the same fields.
pub record ReservationRequest : Type 0 where
  pub biz_type : String
  pub biz_id : String
  pub items : List (Option ReservationItem)

abbrev cons_item :
    ReservationItem
    → Result BizError (List ReservationItem)
    → Result BizError (List ReservationItem)
cons_item i (ok is) = ok (i ∷ is)
cons_item i (err e) = err e

-- The loop of `parseReservationItems`, over the SKU ids seen so far.
unfoldable pub parse_items :
    List ℤ → List (Option ReservationItem) → Result BizError (List ReservationItem)
parse_items seen [] = ok []
parse_items seen (none ∷ rest) = err invalid_param
parse_items seen (some i ∷ rest) =
    let parsed = parse_items (i.sku_id ∷ seen) rest in
    if leb_ℤ i.sku_id (pos 0) || leb_ℤ i.quantity (pos 0)
    then err invalid_param
    else if mem_ℤ i.sku_id seen
    then err invalid_param
    else cons_item i parsed

unfoldable pub parse_reservation_items : ReservationRequest → Result BizError (List ReservationItem)
parse_reservation_items req =
    if is_blank (trim_space req.biz_type) || is_blank (trim_space req.biz_id) || is_empty req.items
    then err invalid_param
    else parse_items [] req.items

abbrev pub Handler : Type 0 → Type 0
Handler A = Query InventoryDb BizError A

-- `admitted` is the answer of the hotspot guard, which fails where the context ends in its queue.
unfoldable pub reserve_sku_stocks : Bool → ReservationRequest → Handler (List SkuStock)
reserve_sku_stocks admitted req = elim (parse_reservation_items req) [
  | err e ↦ raise e
  | ok items ↦ if not admitted then raise inventory_reservation_timeout else do
    stocks ←
        map_err map_repository_error
          (reserve (trim_space req.biz_type) (trim_space req.biz_id) items)
    pure (to_rpc_sku_stocks stocks)
]

unfoldable pub release_reserved_sku_stocks : ReservationRequest → Handler (List SkuStock)
release_reserved_sku_stocks req = elim (parse_reservation_items req) [
  | err e ↦ raise e
  | ok items ↦ do
    stocks ←
        map_err map_repository_error
          (release (trim_space req.biz_type) (trim_space req.biz_id) items)
    pure (to_rpc_sku_stocks stocks)
]

unfoldable pub confirm_deduct_reserved_sku_stocks : ReservationRequest → Handler (List SkuStock)
confirm_deduct_reserved_sku_stocks req = elim (parse_reservation_items req) [
  | err e ↦ raise e
  | ok items ↦ do
    stocks ←
        map_err map_repository_error
          (confirm_deduct (trim_space req.biz_type) (trim_space req.biz_id) items)
    pure (to_rpc_sku_stocks stocks)
]

pub record StockInput : Type 0 where
  pub sku_id : ℤ
  pub total_stock : ℤ

abbrev pub fresh_stock : StockInput → InventoryStock
fresh_stock i = record {
  id = i.sku_id;
  sku_id = i.sku_id;
  total_stock = i.total_stock;
  reserved_stock = pos 0;
  available_stock = i.total_stock;
  status = pos 1;
  version = pos 1;
}

abbrev pub cons_stock : InventoryStock → Option (List InventoryStock) → Option (List InventoryStock)
cons_stock s none = none
cons_stock s (some ss) = some (s ∷ ss)

-- The loop that makes a row of each input, or meets one that is not valid.
unfoldable pub build_stocks : List (Option StockInput) → Option (List InventoryStock)
build_stocks [] = some []
build_stocks (none ∷ rest) = none
build_stocks (some i ∷ rest) =
    let built = build_stocks rest in
    if leb_ℤ i.sku_id (pos 0) || ltb_ℤ i.total_stock (pos 0)
    then none
    else cons_stock (fresh_stock i) built

unfoldable pub init_sku_stocks : List (Option StockInput) → Handler (List SkuStock)
init_sku_stocks stocks = if is_empty stocks then raise invalid_param else do
  models ← or_raise (build_stocks stocks) invalid_param
  created ← map_err map_repository_error (create_batch models)
  pure (to_rpc_sku_stocks created)

unfoldable pub freeze_sku_stocks : List ℤ → Handler (List SkuStock)
freeze_sku_stocks sku_ids = if is_empty sku_ids then raise invalid_param else do
  raise_if (any (λ sku. leb_ℤ sku (pos 0)) sku_ids) invalid_param
  stocks ← map_err map_repository_error (freeze_by_sku_ids sku_ids)
  pure (to_rpc_sku_stocks stocks)

unfoldable pub adjust_stock : ℤ → ℤ → Handler SkuStock
adjust_stock sku total = do
  raise_if (leb_ℤ sku (pos 0) || ltb_ℤ total (pos 0)) invalid_param
  stock ← map_err map_repository_error (adjust_total_stock sku total)
  pure (to_rpc_sku_stock stock)

unfoldable pub get_sku_stock : ℤ → Handler SkuStock
get_sku_stock sku = do
  raise_if (leb_ℤ sku (pos 0)) invalid_param
  stock ← map_err map_repository_error (get_by_sku_id sku)
  pure (to_rpc_sku_stock stock)

unfoldable pub batch_get_sku_stock : List ℤ → Handler (List SkuStock)
batch_get_sku_stock sku_ids = if is_empty sku_ids then pure [] else do
  raise_if (any (λ sku. leb_ℤ sku (pos 0)) sku_ids) invalid_param
  stocks ← map_err (λ _. internal_error) (list_by_sku_ids sku_ids)
  pure (to_rpc_sku_stocks stocks)

-- The three results: whether the stock is saleable, how much is available, and the error.
abbrev pub Saleable : Type 0
Saleable = Bool × ℤ × Option BizError

unfoldable pub judge_saleable : ℤ → Result StockError InventoryStock → Saleable
judge_saleable quantity (err stock_not_found) = (false, pos 0, some inventory_insufficient_stock)
judge_saleable quantity (err _) = (false, pos 0, some internal_error)
judge_saleable quantity (ok s) =
    if not (eq_ℤ s.status (pos 1))
    then (false, s.available_stock, some inventory_stock_frozen)
    else if ltb_ℤ s.available_stock quantity
    then (false, s.available_stock, some inventory_insufficient_stock)
    else (true, s.available_stock, none)

unfoldable pub check_saleable_stock : ℤ → ℤ → Handler Saleable
check_saleable_stock sku quantity =
    if leb_ℤ sku (pos 0) || leb_ℤ quantity (pos 0)
    then pure (false, pos 0, some invalid_param)
    else do found ← attempt (get_by_sku_id sku); pure (judge_saleable quantity found)
