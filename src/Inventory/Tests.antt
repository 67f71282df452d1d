-- ===== src/Inventory/Tests.antt =====
-- The inventory service on small tables: runs, and the theorems at concrete inputs.
use mesh_cart.Base.{
  ◌⊎◌, ◌≡◌, refl, inl, ◌↔◌, ℕ, List, [], ◌∷◌, true, false, Option, none, some, arith,
}
use mesh_cart.Base.Int.{ℤ, pos, eq_ℤ, ◌+ℤ◌, ◌-ℤ◌}
use mesh_cart.Base.Text.{str_eq, trim_space}
use mesh_cart.Base.Lists.{All, any, find, is_empty}
use mesh_cart.Sql.{
  World, ok, err, is_err, quiet, other, transaction, next_fault, map_err, read, write, statement,
  ◌>>=◌,
}
use mesh_cart.Sql.Hoare.{OnOk}
use mesh_cart.Inventory.Model.{
  InventoryStock, InventoryReservation, InventoryTxBranch, InventoryDb, ReservationStatus, reserved,
  released, confirmed, init_sku_stocks_saga, compensate_init_sku_stocks_saga, succeeded,
  compensated, eq_action,
}
use mesh_cart.Inventory.Errors.{driver}
use mesh_cart.Inventory.Items.{
  ReservationItem, sort_reservation_items, validate_reservation_items, IsValid,
}
use mesh_cart.Inventory.Items.Validation.{validate_iff, keys}
use mesh_cart.Inventory.Tables.{
  has_sku, stocks_in, is_branch, insert_branch, insert_stock, reservation_clashes, update_stocks,
  insert_reservation,
}
use mesh_cart.Inventory.Reservations.{
  reserve, release, confirm_deduct, reserve_body, reserve_new, load_reservations,
  index_reservations, for_each, reserve_item, create_reservation,
}
use mesh_cart.Inventory.Accounts.{IsConsistent, held}
use mesh_cart.Inventory.Outcomes.{HasRow}
use mesh_cart.Inventory.Outcomes.Steps.{row_of}
use mesh_cart.Inventory.Outcomes.Requests.{
  reserve_done, release_done, confirm_deduct_done, reserve_whole_or_nothing,
}
use mesh_cart.Inventory.Outcomes.Refusals.{
  IsSettled, IsRefused, confirmed_refused, released_refused,
}
use mesh_cart.Inventory.Outcomes.Failures.{verdict, reserve_new_lem}
use mesh_cart.Inventory.Stocks.{list_by_sku_ids, create_stocks}
use mesh_cart.Inventory.Branches.{
  get_tx_branch, create_branch, update_branch, delete_stocks, create_with_branch_body,
  create_batch_with_tx_branch, compensate_body, compensate_init_with_tx_branch,
}
use mesh_cart.Inventory.Service.{
  StockInput, SkuStock, ReservationRequest, build_stocks, to_rpc_sku_stock, to_rpc_sku_stocks,
}
use mesh_cart.Inventory.Service.Saga.{
  saga_branch, init_saga, init_forward, compensate_saga, compensate_forward, has_status,
  is_compensated,
}
use mesh_cart.Inventory.Service.Consistency.{
  Call, reserves, confirms, inits, adjusts, serve_all, serve_all-IsConsistent,
}
use mesh_cart.Inventory.Service.Compensation.{IsCompensated, init_saga_barred, compensate_saga_done}
use mesh_cart.Inventory.Service.Creations.{on_record}
use mesh_cart.Inventory.Service.Repeats.{init_saga_again, compensate_saga_again}
use mesh_cart.Inventory.Service.Removal.{
  stocks_without, undone_ids, compensate_saga_removes, compensate_saga-IsConsistent,
}

abbrev shelf : InventoryStock
shelf = record {
  id = pos 7;
  sku_id = pos 7;
  total_stock = pos 10;
  reserved_stock = pos 4;
  available_stock = pos 6;
  status = pos 1;
  version = pos 1;
}

abbrev held_four : InventoryReservation
held_four = record {
  id = pos 50;
  biz_type = "order";
  biz_id = "1";
  sku_id = pos 7;
  quantity = pos 4;
  status = reserved;
  payload_snapshot = "";
}

abbrev shop : InventoryDb
shop = record {
  stocks = shelf ∷ [];
  reservations = held_four ∷ [];
  branches = [];
  next_branch_id = pos 1;
}

abbrev ids_from_100 : ℕ → ℤ
ids_from_100 n = pos 100 +ℤ pos n

abbrev calm : World InventoryDb
calm = quiet shop ids_from_100 0

shop-IsConsistent : IsConsistent shop
unfolding held eq_ℤ ◌+ℤ◌
shop-IsConsistent = record {
  accounts = (((ground arith, ground arith, refl), refl), tt);
  unique_stocks = (refl, refl, tt);
  unique_ids = (refl, tt);
  covered = ((λ live. refl), tt);
}

abbrev three_more : List ReservationItem
three_more = record { sku_id = pos 7; quantity = pos 3 } ∷ []

abbrev four_held : List ReservationItem
four_held = record { sku_id = pos 7; quantity = pos 4 } ∷ []

abbrev asks : List ReservationItem → ReservationRequest
asks items = record { biz_type = "order"; biz_id = "2"; items = Option-all items }
  where
    Option-all : List ReservationItem → List (Option ReservationItem)
    Option-all = elim [ [] ↦ [] | i ∷ (is → ih) ↦ some i ∷ ih ]

abbrev a_day : List Call
a_day =
    reserves true (asks three_more)
    ∷ confirms (asks three_more)
    ∷ inits (some (record { sku_id = pos 9; total_stock = pos 5 }) ∷ [])
    ∷ adjusts (pos 9) (pos 8)
    ∷ []

serve_all-IsConsistent_example : IsConsistent (serve_all a_day calm).db
serve_all-IsConsistent_example =
    serve_all-IsConsistent a_day calm (tt, (tt, (tt, ((ground arith, ground arith), tt))))
      shop-IsConsistent

reserve_done_example :
    OnOk
      (λ _ d. All (HasRow "order" "2" reserved d) three_more)
      (reserve "order" "2" three_more calm)
reserve_done_example = reserve_done "order" "2" three_more calm shop-IsConsistent

release_done_example :
    OnOk (λ _ d. All (HasRow "order" "1" released d) four_held) (release "order" "1" four_held calm)
release_done_example = release_done "order" "1" four_held calm shop-IsConsistent

confirm_deduct_done_example :
    OnOk
      (λ _ d. All (HasRow "order" "1" confirmed d) four_held)
      (confirm_deduct "order" "1" four_held calm)
confirm_deduct_done_example = confirm_deduct_done "order" "1" four_held calm shop-IsConsistent

-- The shop with the reservation settled.
abbrev settled_shop : ReservationStatus → World InventoryDb
settled_shop status =
    quiet
      (record shop {
        stocks = record shelf { total_stock = pos 6; reserved_stock = pos 0 } ∷ [];
        reservations = record held_four { status = status } ∷ [];
      })
      ids_from_100 0

abbrev four : ReservationItem
four = record { sku_id = pos 7; quantity = pos 4 }

rows-IsSettled :
    IsSettled "order" "1" confirmed four (settled_shop confirmed).db
    × IsSettled "order" "1" released four (settled_shop released).db
unfolding str_eq eq_ℤ
rows-IsSettled = ((refl, ((λ e. refl), tt)), (refl, ((λ e. refl), tt)))

confirmed_refused_example :
    IsRefused (settled_shop confirmed) (reserve "order" "1" four_held)
    × IsRefused (settled_shop confirmed) (release "order" "1" four_held)
confirmed_refused_example =
    confirmed_refused "order" "1" four four_held (settled_shop confirmed) (inl refl)
      rows-IsSettled.0

released_refused_example :
    IsRefused (settled_shop released) (reserve "order" "1" four_held)
    × IsRefused (settled_shop released) (confirm_deduct "order" "1" four_held)
released_refused_example =
    released_refused "order" "1" four four_held (settled_shop released) (inl refl) rows-IsSettled.1

reserve_new_lem_example :
    (reserve_new "order" "2" (record { sku_id = pos 7; quantity = pos 3 }) calm).0
    ≡ verdict
        (pos 3)
        (any
          (reservation_clashes (
            row_of "order" "2"
              (record { sku_id = pos 7; quantity = pos 3 })
              reserved
              (ids_from_100 0)))
          shop.reservations)
        (find (has_sku (pos 7)) shop.stocks)
reserve_new_lem_example =
    reserve_new_lem "order" "2" (record { sku_id = pos 7; quantity = pos 3 }) shop ids_from_100 0
      shop-IsConsistent.unique_stocks

validate_iff_example :
    (validate_reservation_items three_more ≡ ok (pos 7 ∷ []))
    ↔ ((is_empty three_more ≡ false) × IsValid three_more × (pos 7 ∷ [] ≡ keys three_more))
validate_iff_example = validate_iff three_more (pos 7 ∷ [])

-- Five statements succeed: BEGIN, the lookup, the update, the insert and COMMIT. The read after
-- them does not.
abbrev late_fault : World InventoryDb
late_fault = record calm { faults = none ∷ none ∷ none ∷ none ∷ none ∷ some other ∷ [] }

-- The answer is an error, and the stock is reserved.
lost_reply :
    ((reserve "order" "2" three_more late_fault).0 ≡ err (driver other))
    × All (HasRow "order" "2" reserved (reserve "order" "2" three_more late_fault).1.db) three_more
unfolding reserve transaction reserve_body load_reservations index_reservations for_each
    reserve_item reserve_new update_stocks create_reservation insert_reservation map_err read
    statement ◌>>=◌ sort_reservation_items validate_reservation_items list_by_sku_ids eq_ℤ str_eq
    ◌+ℤ◌ ◌-ℤ◌
lost_reply = (refl, (refl, tt))

reserve_whole_or_nothing_example :
    ((reserve "order" "2" three_more late_fault).1.db ≡ shop)
    ⊎ All (HasRow "order" "2" reserved (reserve "order" "2" three_more late_fault).1.db) three_more
reserve_whole_or_nothing_example =
    reserve_whole_or_nothing "order" "2" three_more late_fault shop-IsConsistent

-- A creation of SKU 7 that is on record, and one that is undone.
abbrev created_branch : InventoryTxBranch
created_branch = record (saga_branch "g" "b" init_sku_stocks_saga succeeded (pos 7 ∷ [])) {
  id = pos 1;
}

abbrev undone_branch : InventoryTxBranch
undone_branch =
    record (saga_branch "g" "b" compensate_init_sku_stocks_saga compensated (pos 7 ∷ [])) {
      id = pos 2;
    }

abbrev created_shop : World InventoryDb
created_shop =
    quiet
      (record shop {
        reservations = [];
        stocks = record shelf { reserved_stock = pos 0; available_stock = pos 10 } ∷ [];
        branches = created_branch ∷ [];
      })
      ids_from_100 0

created_shop-IsConsistent : IsConsistent created_shop.db
unfolding held eq_ℤ ◌+ℤ◌
created_shop-IsConsistent = record {
  accounts = (((ground arith, ground arith, refl), refl), tt);
  unique_stocks = (refl, refl, tt);
  unique_ids = tt;
  covered = tt;
}

abbrev undone_shop : World InventoryDb
undone_shop = quiet (record shop { branches = created_branch ∷ undone_branch ∷ [] }) ids_from_100 0

undone : IsCompensated "g" "b" undone_shop.db
unfolding str_eq eq_action
undone = refl

not_undone :
    has_status is_compensated
      (find (is_branch "g" "b" compensate_init_sku_stocks_saga) created_shop.db.branches)
    ≡ false
unfolding str_eq eq_action
not_undone = refl

abbrev five_of_nine : List (Option StockInput)
five_of_nine = some (record { sku_id = pos 9; total_stock = pos 5 }) ∷ []

init_saga_barred_example :
    (is_err (init_saga "g" "b" five_of_nine undone_shop).0 ≡ true)
    × ((init_saga "g" "b" five_of_nine undone_shop).1.db ≡ undone_shop.db)
init_saga_barred_example = init_saga_barred "g" "b" five_of_nine undone_shop undone

-- A creation for a new branch, and a compensation, each with the world that it leaves.
abbrev after_creation : World InventoryDb
after_creation = (init_saga "g" "b" five_of_nine calm).1

abbrev nine_created : List SkuStock
nine_created =
    record {
      sku_id = pos 9;
      total_stock = pos 5;
      reserved_stock = pos 0;
      available_stock = pos 5;
      saleable_stock = pos 5;
      status = pos 1;
    }
    ∷ []

first_creation :
    (init_saga "g" "b" five_of_nine calm ≡ (ok nine_created, after_creation))
    × (after_creation.faults ≡ [])
unfolding init_saga init_forward build_stocks create_batch_with_tx_branch create_with_branch_body
    create_branch insert_branch create_stocks insert_stock update_branch get_tx_branch
    to_rpc_sku_stocks to_rpc_sku_stock transaction map_err read write statement ◌>>=◌ str_eq
    eq_action eq_ℤ trim_space
first_creation = (refl, refl)

init_saga_again_example :
    ((init_saga "g" "b" five_of_nine after_creation).0
      ≡ ok (to_rpc_sku_stocks (stocks_in (on_record "g" "b" none nine_created) after_creation.db)))
    × ((init_saga "g" "b" five_of_nine after_creation).1.db ≡ after_creation.db)
init_saga_again_example =
    init_saga_again "g" "b" five_of_nine five_of_nine nine_created calm after_creation
      first_creation.0 refl first_creation.1

abbrev after_compensation : World InventoryDb
after_compensation = (compensate_saga "g" "b" [] created_shop).1

first_compensation :
    (compensate_saga "g" "b" [] created_shop ≡ (ok tt, after_compensation))
    × (next_fault after_compensation.faults ≡ none)
unfolding compensate_saga compensate_forward compensate_init_with_tx_branch compensate_body
    create_branch insert_branch delete_stocks update_branch get_tx_branch transaction map_err read
    write statement ◌>>=◌ str_eq eq_action eq_ℤ trim_space
first_compensation = (refl, refl)

compensate_saga_again_example :
    ((compensate_saga "g" "b" (pos 7 ∷ []) after_compensation).0 ≡ ok tt)
    × ((compensate_saga "g" "b" (pos 7 ∷ []) after_compensation).1.db ≡ after_compensation.db)
compensate_saga_again_example =
    compensate_saga_again "g" "b" [] (pos 7 ∷ []) created_shop after_compensation
      first_compensation.0 first_compensation.1

compensate_saga_done_example :
    OnOk (λ _. IsCompensated "g" "b") (compensate_saga "g" "b" [] created_shop)
compensate_saga_done_example = compensate_saga_done "g" "b" [] created_shop

compensate_saga_removes_example :
    OnOk
      (λ _ d.
        d.stocks ≡ stocks_without (undone_ids "g" "b" created_shop.db []) created_shop.db.stocks)
      (compensate_saga "g" "b" [] created_shop)
compensate_saga_removes_example = compensate_saga_removes "g" "b" [] created_shop not_undone

compensate_saga-IsConsistent_example : IsConsistent (compensate_saga "g" "b" [] created_shop).1.db
compensate_saga-IsConsistent_example =
    compensate_saga-IsConsistent "g" "b" [] created_shop created_shop-IsConsistent tt
