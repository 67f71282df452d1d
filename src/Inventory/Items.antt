-- ===== src/Inventory/Items.antt =====
-- services/inventory-service/biz/repository/repository.go: the items of a reservation request,
-- their order, their validation, and the text that is stored of them.
pub mod Validation
use Prim.Native.String.{◌++◌ as text_append}
use mesh_cart.Base.{◌≡◌, String, Bool, false, List, [], ◌∷◌, ◌||◌, if◌then◌else◌}
use mesh_cart.Base.Int.{ℤ, pos, ◌≤ℤ◌, leb_ℤ, eq_ℤ}
use mesh_cart.Base.Lists.{is_empty, any, mem_ℤ, sort_by}
use mesh_cart.Base.Decimal.{format_int}
use mesh_cart.Sql.{Result, ok, err}
use mesh_cart.Inventory.Errors.{StockError, invalid_quantity, reservation_conflict}

pub record ReservationItem : Type 0 where
  pub sku_id : ℤ
  pub quantity : ℤ

-- `sort.Slice` leaves open how equal keys are ordered; here they keep their order.
unfoldable pub sort_reservation_items : List ReservationItem → List ReservationItem
sort_reservation_items items = sort_by (λ i. i.sku_id) items

abbrev cons_id : ℤ → Result StockError (List ℤ) → Result StockError (List ℤ)
cons_id k (ok ks) = ok (k ∷ ks)
cons_id k (err e) = err e

-- The loop of `validateReservationItems`, over the keys seen so far.
validate_from : List ℤ → List ReservationItem → Result StockError (List ℤ)
validate_from seen [] = ok []
validate_from seen (item ∷ items) =
    let rest = validate_from (item.sku_id ∷ seen) items in
    if leb_ℤ item.sku_id (pos 0) || leb_ℤ item.quantity (pos 0)
    then err invalid_quantity
    else if mem_ℤ item.sku_id seen
    then err reservation_conflict
    else cons_id item.sku_id rest

unfoldable pub validate_reservation_items : List ReservationItem → Result StockError (List ℤ)
unfolding validate_from
validate_reservation_items items =
    if is_empty items then err invalid_quantity else validate_from [] items

infixr 65 ◌<>◌
abbrev ◌<>◌ : String → String → String
a <> b = text_append a b

unfoldable pub build_reservation_payload : String → String → ReservationItem → String
build_reservation_payload biz_type biz_id item =
    "{\"biz_type\":\""
    <> biz_type
    <> "\",\"biz_id\":\""
    <> biz_id
    <> "\",\"sku_id\":"
    <> format_int item.sku_id
    <> ",\"quantity\":"
    <> format_int item.quantity
    <> "}"

-- The requests that validation lets through: each item of a positive SKU id and a positive
-- amount, and no SKU twice.
abbrev pub asks_for : ℤ → ReservationItem → Bool
asks_for sku i = eq_ℤ i.sku_id sku

abbrev pub IsValid : List ReservationItem → Type 0
IsValid [] = Unit
IsValid (i ∷ is) =
    (pos 1 ≤ℤ i.sku_id) × (pos 1 ≤ℤ i.quantity) × (any (asks_for i.sku_id) is ≡ false) × IsValid is
