-- ===== src/Inventory/Branches.antt =====
-- services/inventory-service/biz/repository/repository.go: GetTxBranch, CreateBatchWithTxBranch and
-- CompensateInitWithTxBranch, which write stocks and a saga branch in one transaction.
use mesh_cart.Base.{String, List, [], Option, none, some, not, if◌then◌else◌}
use mesh_cart.Base.Int.{ℤ, eq_ℤ}
use mesh_cart.Base.Lists.{is_empty, any, find, select, update_where, mem_ℤ}
use mesh_cart.Sql.{Query, pure, ◌>>=◌, ◌>>◌, raise_if, read, write, map_err, transaction}
use mesh_cart.Inventory.Model.{InventoryStock, InventoryTxBranch, InventoryDb, TxAction}
use mesh_cart.Inventory.Errors.{StockError, invalid_quantity, driver, stock_create_error}
use mesh_cart.Inventory.Tables.{is_branch, insert_branch}
use mesh_cart.Inventory.Stocks.{is_invalid_stock, create_stocks}

-- A missing row is no error here: the result is nil.
unfoldable pub get_tx_branch :
    String → String → TxAction → Query InventoryDb StockError (Option InventoryTxBranch)
get_tx_branch global_tx_id branch_id action =
    map_err driver (read λ d. find (is_branch global_tx_id branch_id action) d.branches)

-- `Create(branch)`, where the branch is not nil; gorm sets the id on it.
unfoldable pub create_branch :
    Option InventoryTxBranch → Query InventoryDb StockError (Option InventoryTxBranch)
create_branch none = pure none
create_branch (some b) = do
  id ← map_err stock_create_error (insert_branch b)
  pure (some (record b { id = id }))

abbrev pub set_outcome : InventoryTxBranch → InventoryTxBranch → InventoryTxBranch
set_outcome b row = record row {
  status = b.status;
  payload_snapshot = b.payload_snapshot;
  error_message = b.error_message;
}

unfoldable pub update_branch : Option InventoryTxBranch → Query InventoryDb StockError Unit
update_branch none = pure tt
update_branch (some b) = map_err driver (
    write λ d. record d {
      branches = update_where (λ row. eq_ℤ row.id b.id) (set_outcome b) d.branches;
    })

unfoldable pub create_with_branch_body :
    Option InventoryTxBranch → List InventoryStock → Query InventoryDb StockError Unit
create_with_branch_body branch stocks = do
  created ← create_branch branch
  create_stocks stocks
  update_branch created

unfoldable pub create_batch_with_tx_branch :
    Option InventoryTxBranch
    → List InventoryStock
    → Query InventoryDb StockError (List InventoryStock)
create_batch_with_tx_branch branch stocks = if is_empty stocks then pure [] else do
  raise_if (any is_invalid_stock stocks) invalid_quantity
  transaction driver (create_with_branch_body branch stocks)
  pure stocks

unfoldable pub delete_stocks : List ℤ → Query InventoryDb StockError Unit
delete_stocks sku_ids =
    if is_empty sku_ids
    then pure tt
    else map_err driver
        (write λ d. record d { stocks = select (λ s. not (mem_ℤ s.sku_id sku_ids)) d.stocks })

unfoldable pub compensate_body :
    Option InventoryTxBranch → List ℤ → Query InventoryDb StockError Unit
compensate_body branch sku_ids = do
  created ← create_branch branch
  delete_stocks sku_ids
  update_branch created

unfoldable pub compensate_init_with_tx_branch :
    Option InventoryTxBranch → List ℤ → Query InventoryDb StockError Unit
compensate_init_with_tx_branch branch sku_ids = transaction driver (compensate_body branch sku_ids)
