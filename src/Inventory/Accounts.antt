-- ===== src/Inventory/Accounts.antt =====
-- What the inventory tables promise: every stock row splits its total into what is reserved and
-- what is available, and what it counts as reserved is what the live reservations hold.
pub mod Stocks
pub mod Held
pub mod Settling
pub mod Steps
pub mod Loops
pub mod Invariant
pub mod Upkeep
pub mod Creation
use mesh_cart.Base.{◌≡◌, List, [], ◌∷◌, Bool, true, false, if◌then◌else◌}
use mesh_cart.Base.Int.{ℤ, pos, ◌+ℤ◌, ◌≤ℤ◌, eq_ℤ}
use mesh_cart.Base.Lists.{any, All}
use mesh_cart.Inventory.Model.{
  InventoryStock, InventoryReservation, InventoryDb, ReservationStatus, reserved,
}
use mesh_cart.Inventory.Tables.{has_sku}

abbrev pub IsBalanced : InventoryStock → Type 0
IsBalanced s =
    (pos 0 ≤ℤ s.reserved_stock)
    × (pos 0 ≤ℤ s.available_stock)
    × (s.total_stock ≡ s.reserved_stock +ℤ s.available_stock)

abbrev pub is_live : ReservationStatus → Bool
is_live reserved = true
is_live _ = false

-- What one reservation holds of a SKU, and what all of them hold.
abbrev pub share : ℤ → InventoryReservation → ℤ
share sku r = if is_live r.status then (if eq_ℤ r.sku_id sku then r.quantity else pos 0) else pos 0

unfoldable pub held : ℤ → List InventoryReservation → ℤ
held sku [] = pos 0
held sku (r ∷ rs) = share sku r +ℤ held sku rs

-- Each row is balanced and reserves what `h` says of its SKU.
abbrev pub Accounts : (ℤ → ℤ) → List InventoryStock → Type 0
Accounts h = All λ s. IsBalanced s × (s.reserved_stock ≡ h s.sku_id)

abbrev pub has_stock_id : ℤ → InventoryStock → Bool
has_stock_id id s = eq_ℤ s.id id

-- The primary key and the unique key of the table.
abbrev pub UniqueStocks : List InventoryStock → Type 0
UniqueStocks [] = Unit
UniqueStocks (s ∷ ss) =
    (any (has_sku s.sku_id) ss ≡ false) × (any (has_stock_id s.id) ss ≡ false) × UniqueStocks ss

abbrev pub has_id : ℤ → InventoryReservation → Bool
has_id id r = eq_ℤ r.id id

abbrev pub UniqueIds : List InventoryReservation → Type 0
UniqueIds [] = Unit
UniqueIds (r ∷ rs) = (any (has_id r.id) rs ≡ false) × UniqueIds rs

-- A live reservation is of a SKU that has a stock row.
abbrev pub IsCovered : List InventoryStock → InventoryReservation → Type 0
IsCovered ss r = is_live r.status ≡ true → any (has_sku r.sku_id) ss ≡ true

pub record IsConsistent (d : InventoryDb) : Type 0 where
  pub accounts : Accounts (λ sku. held sku d.reservations) d.stocks
  pub unique_stocks : UniqueStocks d.stocks
  pub unique_ids : UniqueIds d.reservations
  pub covered : All (IsCovered d.stocks) d.reservations
