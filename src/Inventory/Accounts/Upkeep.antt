-- ===== src/Inventory/Accounts/Upkeep.antt =====
-- AdjustTotalStock, FreezeBySKUIDs, CreateBatch, CreateBatchWithTxBranch and
-- CompensateInitWithTxBranch keep the tables consistent.
use mathlib.Core.Path.{subst}
use mesh_cart.Base.{◌≡◌, refl, sym, inl, inr, List, [], ◌∷◌, false, some, arith}
use mesh_cart.Base.Int.{
  ℤ, pos, negsuc, ◌-ℤ◌, ◌≤ℤ◌, ltb_ℤ, eq_ℤ-comm, eq_ℤ-refl, wrap64, wrap64-eq, IsInt64, int_laws,
}
use mesh_cart.Base.Lists.{find, is_empty, mem_ℤ, update_where, All-update_where}
use mesh_cart.Base.Rows.{In, In-find, any-false-In, update_where-none}
use mesh_cart.Sql.Hoare.{
  Ensures, Keeps, Ensures-bind, Ensures-if, Ensures-pure, Ensures-map_err, Ensures-read,
  Ensures-write, Ensures-raise_if, Ensures-take_row, Ensures-weaken, Keeps-pure, Keeps-bind,
  Keeps-if, Keeps-raise_if, Keeps-transaction,
}
use mesh_cart.Inventory.Model.{InventoryStock, InventoryDb}
use mesh_cart.Inventory.Errors.{driver}
use mesh_cart.Inventory.Tables.{has_sku}
use mesh_cart.Inventory.Stocks.{
  adjust_body, adjust_total_stock, set_total, freeze_stock, freeze_body, freeze_by_sku_ids,
}
use mesh_cart.Inventory.Accounts.{IsBalanced, Accounts, has_stock_id, UniqueStocks, IsConsistent}
use mesh_cart.Inventory.Accounts.Stocks.{update-UniqueStocks}
use mesh_cart.Inventory.Accounts.Settling.{update-IsCovered}

available-exact : (t r : ℤ) → pos 0 ≤ℤ r → ltb_ℤ t r ≡ false → IsInt64 t → wrap64 (t -ℤ r) ≡ t -ℤ r
unfolding ◌-ℤ◌
available-exact (pos t) (pos r) a b c = wrap64-eq _ (ground arith)
available-exact (pos t) (negsuc r) a b c = absurd (omega arith)
available-exact (negsuc t) (pos r) a b c = absurd (ground arith)
available-exact (negsuc t) (negsuc r) a b c = absurd (omega arith)

set_total-IsBalanced :
    (total : ℤ) (s : InventoryStock)
    → IsInt64 total
    → ltb_ℤ total s.reserved_stock ≡ false
    → IsBalanced s
    → IsBalanced (set_total total s s)
set_total-IsBalanced total s i fits b =
    rw (available-exact total s.reserved_stock b.0 fits i) (grind int_laws)

-- The update by id changes the row that was loaded, and no other.
adjust-Accounts :
    (h : ℤ → ℤ) (total : ℤ) (stock : InventoryStock)
    → IsInt64 total
    → ltb_ℤ total stock.reserved_stock ≡ false
    → (ss : List InventoryStock) → UniqueStocks ss
    → In stock ss
    → Accounts h ss
    → Accounts h (update_where (has_stock_id stock.id) (set_total total stock) ss)
adjust-Accounts h total stock i fits [] u m a = tt
adjust-Accounts h total stock i fits (s ∷ ss) u (inl e) a =
    subst (λ t. Accounts h (update_where (has_stock_id t.id) (set_total total t) (s ∷ ss))) (sym e)
      (rw (eq_ℤ-refl s.id, update_where-none (has_stock_id s.id) (set_total total s) ss u.1)
        (
          (
            set_total-IsBalanced total s i
                (subst (λ t. ltb_ℤ total t.reserved_stock ≡ false) e fits) a.0.0,
            a.0.1,
          ),
          a.1,
        ))
adjust-Accounts h total stock i fits (s ∷ ss) u (inr m) a =
    rw (eq_ℤ-comm s.id stock.id, any-false-In (has_stock_id s.id) ss stock u.1 m)
      (a.0, adjust-Accounts h total stock i fits ss u.2 m a.1)

adjust_body-Consistent :
    (sku total : ℤ)
    → IsInt64 total
    → Ensures IsConsistent (adjust_body sku total) (λ _. IsConsistent)
unfolding adjust_body
adjust_body-Consistent sku total i =
    Ensures-bind _ (Ensures-map_err _ (Ensures-take_row _)) λ stock.
      Ensures-bind _ (Ensures-raise_if _ _) λ _.
        Ensures-bind (λ _. IsConsistent)
          (Ensures-map_err driver
            (Ensures-write _ λ d ((c, found), fits). adjusted stock d c found fits))
          λ _.
            Ensures-weaken (λ d c. c) (λ _ d (c, _). c)
              (Ensures-map_err driver (Ensures-take_row _))
  where
    adjusted :
        (stock : InventoryStock) (d : InventoryDb)
        → IsConsistent d
        → find (has_sku sku) d.stocks ≡ some stock
        → ltb_ℤ total stock.reserved_stock ≡ false
        → IsConsistent (record d {
          stocks = update_where (has_stock_id stock.id) (set_total total stock) d.stocks;
        })
    adjusted stock d c found fits = record {
      accounts =
          adjust-Accounts _ total stock i fits d.stocks c.unique_stocks
            (In-find (has_sku sku) d.stocks stock found) c.accounts;
      unique_stocks =
          update-UniqueStocks (has_stock_id stock.id) (set_total total stock) (λ _. refl)
            (λ _. refl) d.stocks c.unique_stocks;
      unique_ids = c.unique_ids;
      covered =
          update-IsCovered (has_stock_id stock.id) (set_total total stock) (λ _. refl) d.stocks
            d.reservations c.covered;
    }

pub adjust_total_stock-Keeps :
    (sku total : ℤ) → IsInt64 total → Keeps IsConsistent (adjust_total_stock sku total)
unfolding adjust_total_stock
adjust_total_stock-Keeps sku total i =
    Keeps-bind (Keeps-raise_if _ _)
      λ _. Keeps-transaction driver (adjust_body-Consistent sku total i)

freeze_body-Consistent :
    (sku_ids : List ℤ) → Ensures IsConsistent (freeze_body sku_ids) (λ _. IsConsistent)
unfolding freeze_body
freeze_body-Consistent sku_ids =
    Ensures-bind (λ _. IsConsistent) (Ensures-map_err driver (Ensures-read _ λ d c. c))
      λ stocks.
        Ensures-if (is_empty stocks) (λ _. Ensures-pure _ λ d c. c)
          λ _.
            Ensures-bind (λ _. IsConsistent) (Ensures-map_err driver (Ensures-write _ frozen))
              λ _. Ensures-map_err driver (Ensures-read _ λ d c. c)
  where
    frozen :
        (d : InventoryDb)
        → IsConsistent d
        → IsConsistent
            (record d { stocks = update_where (λ s. mem_ℤ s.sku_id sku_ids) freeze_stock d.stocks })
    frozen d c = record {
      accounts =
          All-update_where _ (λ s. mem_ℤ s.sku_id sku_ids) freeze_stock (λ s _ a. a) d.stocks
            c.accounts;
      unique_stocks =
          update-UniqueStocks (λ s. mem_ℤ s.sku_id sku_ids) freeze_stock (λ _. refl) (λ _. refl)
            d.stocks c.unique_stocks;
      unique_ids = c.unique_ids;
      covered =
          update-IsCovered (λ s. mem_ℤ s.sku_id sku_ids) freeze_stock (λ _. refl) d.stocks
            d.reservations c.covered;
    }

pub freeze_by_sku_ids-Keeps : (sku_ids : List ℤ) → Keeps IsConsistent (freeze_by_sku_ids sku_ids)
unfolding freeze_by_sku_ids
freeze_by_sku_ids-Keeps sku_ids =
    Keeps-if (is_empty sku_ids) (Keeps-pure _) (
      Keeps-bind (Keeps-raise_if _ _)
        λ _. Keeps-transaction driver (freeze_body-Consistent sku_ids))
