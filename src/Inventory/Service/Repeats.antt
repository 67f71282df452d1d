-- ===== src/Inventory/Service/Repeats.antt =====
-- services/inventory-service/biz/service/saga.go: a step of the product-creation saga that was done
-- and is sent again.
use mathlib.Core.Path.{subst}
use mesh_cart.Base.{
  ◌≡◌, refl, ap, List, [], ◌∷◌, Bool, true, false, Option, none, String, ◌||◌, arith,
}
use mesh_cart.Base.Int.{ℤ}
use mesh_cart.Base.Text.{trim_space, is_blank}
use mesh_cart.Base.Lists.{find, is_empty, select, sort_by, mem_ℤ}
use mesh_cart.Sql.{World, ok, next_fault, ◌>>=◌, map_err, read, statement}
use mesh_cart.Sql.Hoare.{OnOk}
use mesh_cart.Inventory.Model.{InventoryDb, InventoryStock}
use mesh_cart.Inventory.Branches.{get_tx_branch}
use mesh_cart.Inventory.Stocks.{list_by_sku_ids}
use mesh_cart.Inventory.Tables.{stocks_in}
use mesh_cart.Inventory.Service.{StockInput, SkuStock, to_rpc_sku_stocks}
use mesh_cart.Inventory.Service.Saga.{init_saga, init_forward, compensate_saga}
use mesh_cart.Inventory.Service.Branches.{is_forward, IsOpen, IsCreated}
use mesh_cart.Inventory.Service.Creations.{on_record, Recorded, init_saga-Recorded}
use mesh_cart.Inventory.Service.Compensation.{IsCompensated, compensate_saga_done}

module _ (g b : String) where
  abbrev has_blank_id : Bool
  has_blank_id = is_blank (trim_space g) || is_blank (trim_space b)

  compensate_saga_named :
      (requested : List ℤ) (w w' : World InventoryDb)
      → compensate_saga g b requested w ≡ (ok tt, w')
      → has_blank_id ≡ false
  unfolding compensate_saga ◌>>=◌
  compensate_saga_named requested w w' h = ground arith

  compensate_saga_skipped :
      (again : List ℤ) (w : World InventoryDb)
      → has_blank_id ≡ false
      → IsCompensated g b w.db
      → next_fault w.faults ≡ none
      → ((compensate_saga g b again w).0 ≡ ok tt) × ((compensate_saga g b again w).1.db ≡ w.db)
  unfolding compensate_saga get_tx_branch map_err read statement ◌>>=◌
  compensate_saga_skipped again w n c h = (ground arith, ground arith)

  -- Where a compensation of a saga branch has succeeded, in any world, and the statement after it
  -- does not fail, a second compensation of the branch, for any SKUs, answers success and changes
  -- no row.
  pub compensate_saga_again :
      (requested again : List ℤ) (w w' : World InventoryDb)
      → compensate_saga g b requested w ≡ (ok tt, w')
      → next_fault w'.faults ≡ none
      → ((compensate_saga g b again w').0 ≡ ok tt) × ((compensate_saga g b again w').1.db ≡ w'.db)
  compensate_saga_again requested again w w' h quiet =
      compensate_saga_skipped again w' (compensate_saga_named requested w w' h)
        (subst (OnOk λ _. IsCompensated g b) h (compensate_saga_done g b requested w)) quiet

  init_saga_named :
      (stocks : List (Option StockInput)) (created : List SkuStock) (w w' : World InventoryDb)
      → init_saga g b stocks w ≡ (ok created, w')
      → has_blank_id ≡ false
  unfolding init_saga ◌>>=◌
  init_saga_named stocks created w w' h = ground arith

  -- The SKUs of none have no rows.
  stocks_in-none : (ids : List ℤ) (d : InventoryDb) → is_empty ids ≡ true → stocks_in ids d ≡ []
  stocks_in-none [] d e = ap (sort_by λ s. s.sku_id) (none_of d.stocks)
    where
      none_of : (ss : List InventoryStock) → select (λ s. mem_ℤ s.sku_id []) ss ≡ []
      none_of [] = refl
      none_of (s ∷ ss) = none_of ss
  stocks_in-none (i ∷ ids) d e = cc

  init_saga_replayed :
      (ids : List ℤ) (stocks : List (Option StockInput)) (w : World InventoryDb)
      → has_blank_id ≡ false
      → is_empty stocks ≡ false
      → IsOpen g b w.db.branches
      → IsCreated g b ids w.db.branches
      → w.faults ≡ []
      → ((init_saga g b stocks w).0 ≡ ok (to_rpc_sku_stocks (stocks_in ids w.db)))
        × ((init_saga g b stocks w).1.db ≡ w.db)
  unfolding init_saga init_forward get_tx_branch list_by_sku_ids map_err read statement ◌>>=◌
  init_saga_replayed ids stocks w n m free (done, same) q =
      let nothing = stocks_in-none ids w.db in (ground arith, ground arith)

  -- Where a creation of stocks for a saga branch has succeeded, in any world, and no statement
  -- after it fails, a second creation for the branch, of any stocks that are not an empty list,
  -- changes no row and answers the stock rows, in the order of their SKUs, of the SKUs that the
  -- first one answered, or, if a record of the creation was there before the first, of the SKUs of
  -- that record.
  pub init_saga_again :
      (stocks again : List (Option StockInput)) (created : List SkuStock) (w w' : World InventoryDb)
      → init_saga g b stocks w ≡ (ok created, w')
      → is_empty again ≡ false
      → w'.faults ≡ []
      → ((init_saga g b again w').0
          ≡ ok (
              to_rpc_sku_stocks
                (stocks_in (on_record g b (find (is_forward g b) w.db.branches) created) w'.db)))
        × ((init_saga g b again w').1.db ≡ w'.db)
  init_saga_again stocks again created w w' h m q =
      let before = find (is_forward g b) w.db.branches in
      let (free, made) =
        subst (OnOk (Recorded g b before)) h ((init_saga-Recorded g b before stocks).at w refl) in
      init_saga_replayed (on_record g b before created) again w'
        (init_saga_named stocks created w w' h) m free made q
