-- ===== src/Inventory/Tables.antt =====
-- The SQL statements of services/inventory-service/biz/repository/repository.go: their conditions,
-- what they set, and the unique keys that a `Create` meets.
use mesh_cart.Base.{ℕ, String, List, [], ◌∷◌, ◌++◌, Bool, ◌&&◌, ◌||◌, if◌then◌else◌}
use mesh_cart.Base.Int.{ℤ, pos, ◌+ℤ◌, ◌-ℤ◌, leb_ℤ, eq_ℤ}
use mesh_cart.Base.Text.{str_eq}
use mesh_cart.Base.Lists.{any, select, update_where, count_where, mem_ℤ, sort_by}
use mesh_cart.Sql.{Fault, duplicate_key, ok, err, Query, statement}
use mesh_cart.Inventory.Model.{InventoryStock, InventoryReservation, InventoryTxBranch, InventoryDb}
use mesh_cart.Inventory.Model.{TxAction, eq_action}

abbrev pub has_sku : ℤ → InventoryStock → Bool
has_sku sku s = eq_ℤ s.sku_id sku

-- `sku_id IN ?`, `ORDER BY sku_id ASC`
abbrev pub stocks_in : List ℤ → InventoryDb → List InventoryStock
stocks_in sku_ids d = sort_by (λ s. s.sku_id) (select (λ s. mem_ℤ s.sku_id sku_ids) d.stocks)

-- `biz_type = ? AND biz_id = ? AND sku_id IN ?`
abbrev pub is_of_biz : String → String → List ℤ → InventoryReservation → Bool
is_of_biz biz_type biz_id sku_ids r =
    str_eq r.biz_type biz_type && str_eq r.biz_id biz_id && mem_ℤ r.sku_id sku_ids

abbrev pub is_branch : String → String → TxAction → InventoryTxBranch → Bool
is_branch global_tx_id branch_id action b =
    str_eq b.global_tx_id global_tx_id && str_eq b.branch_id branch_id && eq_action b.action action

-- The primary key and uk_sku_id.
abbrev pub stock_clashes : InventoryStock → InventoryStock → Bool
stock_clashes s t = eq_ℤ t.id s.id || eq_ℤ t.sku_id s.sku_id

unfoldable pub insert_stock : InventoryStock → Query InventoryDb Fault Unit
insert_stock s = statement λ d.
    if any (stock_clashes s) d.stocks
    then (err duplicate_key, d)
    else (ok tt, record d { stocks = d.stocks ++ s ∷ [] })

-- The primary key and uk_inventory_reservation_biz_sku.
abbrev pub reservation_clashes : InventoryReservation → InventoryReservation → Bool
reservation_clashes r t =
    eq_ℤ t.id r.id
    || (str_eq t.biz_type r.biz_type && str_eq t.biz_id r.biz_id && eq_ℤ t.sku_id r.sku_id)

unfoldable pub insert_reservation : InventoryReservation → Query InventoryDb Fault Unit
insert_reservation r = statement λ d.
    if any (reservation_clashes r) d.reservations
    then (err duplicate_key, d)
    else (ok tt, record d { reservations = d.reservations ++ r ∷ [] })

-- uk_inventory_tx_branch_action. The id of the row is the table's next one, and is handed back.
unfoldable pub insert_branch : InventoryTxBranch → Query InventoryDb Fault ℤ
insert_branch b = statement λ d.
    if any (is_branch b.global_tx_id b.branch_id b.action) d.branches
    then (err duplicate_key, d)
    else (
      ok d.next_branch_id,
      record d {
        branches = d.branches ++ record b { id = d.next_branch_id } ∷ [];
        next_branch_id = d.next_branch_id +ℤ pos 1;
      },
    )

-- An UPDATE of the stocks, with the number of rows that its condition picked.
unfoldable pub update_stocks :
    (InventoryStock → Bool) → (InventoryStock → InventoryStock) → Query InventoryDb Fault ℕ
update_stocks p f =
    statement λ d. (ok (count_where p d.stocks), record d { stocks = update_where p f d.stocks })

-- Reserve: `sku_id = ? AND status = 1 AND available_stock >= ?`
abbrev pub can_reserve : ℤ → ℤ → InventoryStock → Bool
can_reserve sku q s = eq_ℤ s.sku_id sku && eq_ℤ s.status (pos 1) && leb_ℤ q s.available_stock

abbrev pub reserve_stock : ℤ → InventoryStock → InventoryStock
reserve_stock q s = record s {
  reserved_stock = s.reserved_stock +ℤ q;
  available_stock = s.available_stock -ℤ q;
  version = s.version +ℤ pos 1;
}

-- Release: `sku_id = ? AND reserved_stock >= ?`
abbrev pub can_release : ℤ → ℤ → InventoryStock → Bool
can_release sku q s = eq_ℤ s.sku_id sku && leb_ℤ q s.reserved_stock

abbrev pub release_stock : ℤ → InventoryStock → InventoryStock
release_stock q s = record s {
  reserved_stock = s.reserved_stock -ℤ q;
  available_stock = s.available_stock +ℤ q;
  version = s.version +ℤ pos 1;
}

-- ConfirmDeduct: `sku_id = ? AND reserved_stock >= ? AND total_stock >= ?`
abbrev pub can_confirm : ℤ → ℤ → InventoryStock → Bool
can_confirm sku q s = eq_ℤ s.sku_id sku && leb_ℤ q s.reserved_stock && leb_ℤ q s.total_stock

abbrev pub confirm_stock : ℤ → InventoryStock → InventoryStock
confirm_stock q s = record s {
  total_stock = s.total_stock -ℤ q;
  reserved_stock = s.reserved_stock -ℤ q;
  version = s.version +ℤ pos 1;
}
