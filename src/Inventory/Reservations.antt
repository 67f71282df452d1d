-- ===== src/Inventory/Reservations.antt =====
-- services/inventory-service/biz/repository/repository.go: Reserve, Release and ConfirmDeduct.
use mesh_cart.Base.{String, List, [], ◌∷◌, Option, none, some, not, ◌==◌, if◌then◌else◌}
use mesh_cart.Base.Int.{ℤ, pos, ltb_ℤ, eq_ℤ}
use mesh_cart.Base.Lists.{is_empty, find, select, update_where}
use mesh_cart.Sql.{
  Fault, Query, pure, raise, lift, ◌>>=◌, ◌>>◌, raise_if, next_id, read, write, take_row, map_err,
  transaction,
}
use mesh_cart.Inventory.Model.{
  InventoryStock, InventoryDb, InventoryReservation, ReservationStatus, reserved, released,
  confirmed, unknown,
}
use mesh_cart.Inventory.Errors.{
  StockError, stock_not_found, insufficient_stock, stock_frozen, reservation_conflict,
  reservation_not_found, reservation_state_conflict, reservation_timeout, driver, is_timeout,
  is_not_found, normalize_duplicate_error, normalize_reservation_error,
}
use mesh_cart.Inventory.Items.{
  ReservationItem, sort_reservation_items, validate_reservation_items, build_reservation_payload,
}
use mesh_cart.Inventory.Tables.{
  has_sku, is_of_biz, stocks_in, insert_reservation, update_stocks, can_reserve, reserve_stock,
  can_release, release_stock, can_confirm, confirm_stock,
}
use mesh_cart.Inventory.Stocks.{list_by_sku_ids}

-- A Go map from a SKU id to its reservation; an assignment replaces what was there.
abbrev pub ReservationMap : Type 0
ReservationMap = ℤ → Option InventoryReservation

unfoldable pub index_reservations : ReservationMap → List InventoryReservation → ReservationMap
index_reservations m [] = m
index_reservations m (r ∷ rs) = index_reservations (λ k. if eq_ℤ k r.sku_id then some r else m k) rs

unfoldable pub load_reservations :
    String → String → List ℤ → Query InventoryDb StockError ReservationMap
load_reservations biz_type biz_id sku_ids = if is_empty sku_ids then pure (λ _. none) else do
  rows ← map_err driver (read λ d. select (is_of_biz biz_type biz_id sku_ids) d.reservations)
  pure (index_reservations (λ _. none) rows)

unfoldable pub load_stocks_by_sku_ids : List ℤ → Query InventoryDb StockError (List InventoryStock)
load_stocks_by_sku_ids sku_ids =
    if is_empty sku_ids then pure [] else map_err driver (read (stocks_in sku_ids))

-- What `Take` of the stock returns when a reservation picked no row.
unfoldable pub classify_take_error : Fault → StockError
classify_take_error f =
    if is_timeout f
    then reservation_timeout
    else if is_not_found f
    then stock_not_found
    else driver f

unfoldable pub classify_reserve_failure : ReservationItem → Query InventoryDb StockError Unit
classify_reserve_failure item = do
  stock ← map_err classify_take_error (take_row λ d. find (has_sku item.sku_id) d.stocks)
  raise_if (not (eq_ℤ stock.status (pos 1))) stock_frozen
  raise_if (ltb_ℤ stock.available_stock item.quantity) insufficient_stock
  raise reservation_state_conflict

-- `Create` of a reservation row, with `normalizeDuplicateError` on what it returns.
unfoldable pub create_reservation :
    String → String → ReservationItem → ReservationStatus → Query InventoryDb StockError Unit
create_reservation biz_type biz_id item status = do
  id ← next_id
  map_err (λ f. normalize_duplicate_error (driver f))
      (insert_reservation (record {
        id = id;
        biz_type = biz_type;
        biz_id = biz_id;
        sku_id = item.sku_id;
        quantity = item.quantity;
        status = status;
        payload_snapshot = build_reservation_payload biz_type biz_id item;
      }))

-- `UPDATE … SET status, payload_snapshot WHERE id = ?`
unfoldable pub mark_reservation : ℤ → ReservationStatus → String → Query InventoryDb StockError Unit
mark_reservation id status payload = map_err driver (
    write λ d. record d {
      reservations =
          update_where (λ r. eq_ℤ r.id id)
            (λ r. record r { status = status; payload_snapshot = payload }) d.reservations;
    })

module _ (biz_type biz_id : String) where
  unfoldable pub check_reserved :
      InventoryReservation → ReservationItem → Query InventoryDb StockError Unit
  check_reserved r item =
      if not (eq_ℤ r.quantity item.quantity)
      then raise reservation_conflict
      else elim r.status [ reserved ↦ pure tt | _ ↦ raise reservation_state_conflict ]

  unfoldable pub reserve_new : ReservationItem → Query InventoryDb StockError Unit
  reserve_new item = do
    rows ←
        map_err driver
          (update_stocks (can_reserve item.sku_id item.quantity) (reserve_stock item.quantity))
    if rows == 0
        then classify_reserve_failure item
        else create_reservation biz_type biz_id item reserved

  unfoldable pub reserve_item : ReservationMap → ReservationItem → Query InventoryDb StockError Unit
  reserve_item existing item = elim (existing item.sku_id) [
    | some r ↦ check_reserved r item
    | none ↦ reserve_new item
  ]

  unfoldable pub release_reserved :
      InventoryReservation → ReservationItem → Query InventoryDb StockError Unit
  release_reserved r item = do
    rows ←
        map_err driver
          (update_stocks (can_release item.sku_id item.quantity) (release_stock item.quantity))
    if rows == 0
        then raise reservation_state_conflict
        else mark_reservation r.id released (build_reservation_payload biz_type biz_id item)

  unfoldable pub release_existing :
      InventoryReservation → ReservationItem → Query InventoryDb StockError Unit
  release_existing r item =
      if not (eq_ℤ r.quantity item.quantity) then raise reservation_conflict else elim r.status [
        | released ↦ pure tt
        | confirmed ↦ raise reservation_state_conflict
        | reserved ↦ release_reserved r item
        | unknown _ ↦ raise reservation_state_conflict
      ]

  -- A release that comes before its reservation leaves a released row, which bars the reservation.
  unfoldable pub release_item : ReservationMap → ReservationItem → Query InventoryDb StockError Unit
  release_item existing item = elim (existing item.sku_id) [
    | some r ↦ release_existing r item
    | none ↦ create_reservation biz_type biz_id item released
  ]

  unfoldable pub confirm_reserved :
      InventoryReservation → ReservationItem → Query InventoryDb StockError Unit
  confirm_reserved r item = do
    rows ←
        map_err driver
          (update_stocks (can_confirm item.sku_id item.quantity) (confirm_stock item.quantity))
    if rows == 0
        then raise reservation_state_conflict
        else mark_reservation r.id confirmed (build_reservation_payload biz_type biz_id item)

  unfoldable pub confirm_existing :
      InventoryReservation → ReservationItem → Query InventoryDb StockError Unit
  confirm_existing r item =
      if not (eq_ℤ r.quantity item.quantity) then raise reservation_conflict else elim r.status [
        | confirmed ↦ pure tt
        | released ↦ raise reservation_state_conflict
        | reserved ↦ confirm_reserved r item
        | unknown _ ↦ raise reservation_state_conflict
      ]

  unfoldable pub confirm_item : ReservationMap → ReservationItem → Query InventoryDb StockError Unit
  confirm_item existing item = elim (existing item.sku_id) [
    | some r ↦ confirm_existing r item
    | none ↦ raise reservation_not_found
  ]

-- The loop over the ordered items, which stops at the first error.
unfoldable pub for_each :
    (ReservationItem → Query InventoryDb StockError Unit)
    → List ReservationItem
    → Query InventoryDb StockError Unit
for_each step [] = pure tt
for_each step (item ∷ items) = step item >> for_each step items

unfoldable pub reserve_body :
    String → String → List ReservationItem → List ℤ → Query InventoryDb StockError Unit
reserve_body biz_type biz_id items sku_ids = do
  existing ← load_reservations biz_type biz_id sku_ids
  for_each (reserve_item biz_type biz_id existing) items

-- The stocks that Reserve returns are read after the transaction.
unfoldable pub reserve :
    String → String → List ReservationItem → Query InventoryDb StockError (List InventoryStock)
reserve biz_type biz_id items = do
  let ordered = sort_reservation_items items
  sku_ids ← lift (validate_reservation_items ordered)
  map_err normalize_reservation_error
      (transaction driver (reserve_body biz_type biz_id ordered sku_ids))
  list_by_sku_ids sku_ids

unfoldable pub release_body :
    String
    → String
    → List ReservationItem
    → List ℤ
    → Query InventoryDb StockError (List InventoryStock)
release_body biz_type biz_id items sku_ids = do
  existing ← load_reservations biz_type biz_id sku_ids
  for_each (release_item biz_type biz_id existing) items
  load_stocks_by_sku_ids sku_ids

unfoldable pub release :
    String → String → List ReservationItem → Query InventoryDb StockError (List InventoryStock)
release biz_type biz_id items = do
  let ordered = sort_reservation_items items
  sku_ids ← lift (validate_reservation_items ordered)
  transaction driver (release_body biz_type biz_id ordered sku_ids)

unfoldable pub confirm_body :
    String
    → String
    → List ReservationItem
    → List ℤ
    → Query InventoryDb StockError (List InventoryStock)
confirm_body biz_type biz_id items sku_ids = do
  existing ← load_reservations biz_type biz_id sku_ids
  for_each (confirm_item biz_type biz_id existing) items
  load_stocks_by_sku_ids sku_ids

unfoldable pub confirm_deduct :
    String → String → List ReservationItem → Query InventoryDb StockError (List InventoryStock)
confirm_deduct biz_type biz_id items = do
  let ordered = sort_reservation_items items
  sku_ids ← lift (validate_reservation_items ordered)
  transaction driver (confirm_body biz_type biz_id ordered sku_ids)
