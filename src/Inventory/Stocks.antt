-- ===== src/Inventory/Stocks.antt =====
-- services/inventory-service/biz/repository/repository.go: GetBySKUID, ListBySKUIDs, CreateBatch,
-- AdjustTotalStock and FreezeBySKUIDs. Logging is left out; a query timeout is a fault.
use mesh_cart.Base.{List, [], ◌∷◌, Bool, ◌||◌, if◌then◌else◌}
use mesh_cart.Base.Int.{ℤ, pos, ◌+ℤ◌, ◌-ℤ◌, leb_ℤ, ltb_ℤ, eq_ℤ, wrap64}
use mesh_cart.Base.Lists.{is_empty, any, find, update_where, mem_ℤ}
use mesh_cart.Sql.{Query, pure, ◌>>=◌, ◌>>◌, raise_if, read, write, take_row, map_err, transaction}
use mesh_cart.Inventory.Model.{InventoryStock, InventoryDb}
use mesh_cart.Inventory.Errors.{
  StockError, invalid_quantity, driver, stock_create_error, stock_take_error,
}
use mesh_cart.Inventory.Tables.{has_sku, stocks_in, insert_stock}

unfoldable pub get_by_sku_id : ℤ → Query InventoryDb StockError InventoryStock
get_by_sku_id sku = map_err stock_take_error (take_row λ d. find (has_sku sku) d.stocks)

unfoldable pub list_by_sku_ids : List ℤ → Query InventoryDb StockError (List InventoryStock)
list_by_sku_ids sku_ids =
    if is_empty sku_ids then pure [] else map_err driver (read (stocks_in sku_ids))

-- The check that CreateBatch makes of each row before it writes any.
abbrev pub is_invalid_stock : InventoryStock → Bool
is_invalid_stock s =
    leb_ℤ s.sku_id (pos 0)
    || ltb_ℤ s.total_stock (pos 0)
    || ltb_ℤ s.reserved_stock (pos 0)
    || ltb_ℤ s.available_stock (pos 0)

unfoldable pub create_stocks : List InventoryStock → Query InventoryDb StockError Unit
create_stocks [] = pure tt
create_stocks (s ∷ ss) = map_err stock_create_error (insert_stock s) >> create_stocks ss

-- The rows that a caller hands over are never nil pointers.
unfoldable pub create_batch :
    List InventoryStock → Query InventoryDb StockError (List InventoryStock)
create_batch stocks = if is_empty stocks then pure [] else do
  raise_if (any is_invalid_stock stocks) invalid_quantity
  transaction driver (create_stocks stocks)
  pure stocks

abbrev pub set_total : ℤ → InventoryStock → InventoryStock → InventoryStock
set_total total loaded s = record s {
  total_stock = total;
  available_stock = wrap64 (total -ℤ loaded.reserved_stock);
  version = wrap64 (loaded.version +ℤ pos 1);
}

unfoldable pub adjust_body : ℤ → ℤ → Query InventoryDb StockError InventoryStock
adjust_body sku total = do
  stock ← map_err stock_take_error (take_row λ d. find (has_sku sku) d.stocks)
  raise_if (ltb_ℤ total stock.reserved_stock) invalid_quantity
  map_err driver (
      write λ d. record d {
        stocks = update_where (λ s. eq_ℤ s.id stock.id) (set_total total stock) d.stocks;
      })
  map_err driver (take_row λ d. find (λ s. eq_ℤ s.id stock.id) d.stocks)

unfoldable pub adjust_total_stock : ℤ → ℤ → Query InventoryDb StockError InventoryStock
adjust_total_stock sku total = do
  raise_if (leb_ℤ sku (pos 0) || ltb_ℤ total (pos 0)) invalid_quantity
  transaction driver (adjust_body sku total)

abbrev pub freeze_stock : InventoryStock → InventoryStock
freeze_stock s = record s { status = pos 0 }

unfoldable pub freeze_body : List ℤ → Query InventoryDb StockError (List InventoryStock)
freeze_body sku_ids = do
  stocks ← map_err driver (read (stocks_in sku_ids))
  if is_empty stocks then pure stocks else do
    map_err driver (
        write λ d. record d {
          stocks = update_where (λ s. mem_ℤ s.sku_id sku_ids) freeze_stock d.stocks;
        })
    map_err driver (read (stocks_in sku_ids))

unfoldable pub freeze_by_sku_ids : List ℤ → Query InventoryDb StockError (List InventoryStock)
freeze_by_sku_ids sku_ids = if is_empty sku_ids then pure [] else do
  raise_if (any (λ sku. leb_ℤ sku (pos 0)) sku_ids) invalid_quantity
  transaction driver (freeze_body sku_ids)
