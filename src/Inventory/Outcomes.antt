-- ===== src/Inventory/Outcomes.antt =====
-- What a Reserve, a Release or a ConfirmDeduct that succeeds leaves in the table of reservations,
-- and which requests fail.
pub mod Rows
pub mod Steps
pub mod Loops
pub mod Requests
pub mod Failures
pub mod Settled
pub mod Fails
pub mod Refusals
use mesh_cart.Base.{String, Bool, true, false, ◌&&◌, ◌≡◌}
use mesh_cart.Base.Int.{eq_ℤ}
use mesh_cart.Base.Lists.{any}
use mesh_cart.Base.Text.{str_eq}
use mesh_cart.Inventory.Model.{
  InventoryReservation, InventoryDb, ReservationStatus, reserved, released, confirmed,
}
use mesh_cart.Inventory.Items.{ReservationItem}

abbrev pub same_status : ReservationStatus → ReservationStatus → Bool
same_status reserved reserved = true
same_status released released = true
same_status confirmed confirmed = true
same_status _ _ = false

-- The reservation of an item of the business object, with the item's quantity and this status.
abbrev pub is_row :
    String → String → ReservationStatus → ReservationItem → InventoryReservation → Bool
is_row biz_type biz_id status i r =
    str_eq r.biz_type biz_type
    && str_eq r.biz_id biz_id
    && eq_ℤ r.sku_id i.sku_id
    && eq_ℤ r.quantity i.quantity
    && same_status r.status status

abbrev pub HasRow : String → String → ReservationStatus → InventoryDb → ReservationItem → Type 0
HasRow biz_type biz_id status d i = any (is_row biz_type biz_id status i) d.reservations ≡ true
