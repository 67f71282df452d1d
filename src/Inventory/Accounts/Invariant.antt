-- ===== src/Inventory/Accounts/Invariant.antt =====
-- Reserve, Release and ConfirmDeduct keep the tables consistent, whatever fails on the way.
use mesh_cart.Base.{inl, inr, List, [], ◌∷◌, none, String}
use mesh_cart.Base.Int.{ℤ}
use mesh_cart.Base.Lists.{is_empty, select, All}
use mesh_cart.Base.Rows.{In-select}
use mesh_cart.Sql.Hoare.{
  Ensures, Keeps, Ensures-bind, Ensures-if, Ensures-pure, Ensures-map_err, Ensures-read, Keeps-pure,
  Keeps-bind, Keeps-bind-lift, Keeps-map_err, Keeps-if, Keeps-read, Keeps-transaction,
}
use mesh_cart.Inventory.Model.{InventoryReservation, InventoryDb}
use mesh_cart.Inventory.Errors.{driver, normalize_reservation_error}
use mesh_cart.Inventory.Items.{
  ReservationItem, sort_reservation_items, validate_reservation_items, IsValid,
}
use mesh_cart.Inventory.Items.Validation.{validate_iff}
use mesh_cart.Inventory.Tables.{is_of_biz}
use mesh_cart.Inventory.Stocks.{list_by_sku_ids}
use mesh_cart.Inventory.Reservations.{
  index_reservations, load_reservations, load_stocks_by_sku_ids, reserve_body, reserve,
  release_body, release, confirm_body, confirm_deduct,
}
use mesh_cart.Inventory.Accounts.{IsConsistent}
use mesh_cart.Inventory.Accounts.Held.{find-In, index-In}
use mesh_cart.Inventory.Accounts.Settling.{Loaded, Ready}
use mesh_cart.Inventory.Accounts.Loops.{
  reserve_item-Ready, release_item-Ready, confirm_item-Ready, for_each-Ready,
}

pub list-Keeps : (sku_ids : List ℤ) → Keeps IsConsistent (list_by_sku_ids sku_ids)
unfolding list_by_sku_ids
list-Keeps sku_ids =
    Keeps-if (is_empty sku_ids) (Keeps-pure _) (Keeps-map_err driver (Keeps-read _))

module _ (biz_type biz_id : String) where
  -- What the loops begin with.
  Loaded-at_start :
      (sku_ids : List ℤ) (d : InventoryDb)
      → IsConsistent d
      → (items : List ReservationItem)
      → All
          (Loaded
            (index_reservations
              (λ _. none)
              (select (is_of_biz biz_type biz_id sku_ids) d.reservations))
            d.reservations)
          items
  Loaded-at_start sku_ids d c [] = tt
  Loaded-at_start sku_ids d c (i ∷ is) = (found, Loaded-at_start sku_ids d c is)
    where
      rows : List InventoryReservation
      rows = select (is_of_biz biz_type biz_id sku_ids) d.reservations

      found : Loaded (index_reservations (λ _. none) rows) d.reservations i
      found r e = elim (index-In (λ _. none) rows i.sku_id r e) [
        | inl none_is_some ↦ cc
        | inr (in_rows, of_sku) ↦ (
          find-In d.reservations r c.unique_ids
              (In-select (is_of_biz biz_type biz_id sku_ids) d.reservations r in_rows).0,
          of_sku,
        )
      ]

  nothing-Loaded :
      (d : InventoryDb) (items : List ReservationItem)
      → All (Loaded (λ _. none) d.reservations) items
  nothing-Loaded d [] = tt
  nothing-Loaded d (i ∷ is) = ((λ r e. cc), nothing-Loaded d is)

  pub load-Ready :
      (sku_ids : List ℤ) (items : List ReservationItem)
      → Ensures IsConsistent (load_reservations biz_type biz_id sku_ids) (λ m. Ready m items)
  unfolding load_reservations
  load-Ready sku_ids items =
      Ensures-if (is_empty sku_ids)
        (λ _. Ensures-pure _ λ d c. record { consistent = c; loaded = nothing-Loaded d items })
        λ _.
          Ensures-bind
            (λ rows d.
              IsConsistent d
              × All (Loaded (index_reservations (λ _. none) rows) d.reservations) items)
            (Ensures-map_err driver (Ensures-read _ λ d c. (c, Loaded-at_start sku_ids d c items)))
            λ rows. Ensures-pure _ λ d (c, l). record { consistent = c; loaded = l }

  load_stocks-Consistent :
      (sku_ids : List ℤ) → Ensures IsConsistent (load_stocks_by_sku_ids sku_ids) (λ _. IsConsistent)
  unfolding load_stocks_by_sku_ids
  load_stocks-Consistent sku_ids =
      Ensures-if (is_empty sku_ids) (λ _. Ensures-pure _ λ d c. c)
        λ _. Ensures-map_err driver (Ensures-read _ λ d c. c)

  reserve_body-Consistent :
      (items : List ReservationItem) (sku_ids : List ℤ)
      → IsValid items
      → Ensures IsConsistent (reserve_body biz_type biz_id items sku_ids) (λ _. IsConsistent)
  unfolding reserve_body
  reserve_body-Consistent items sku_ids v = Ensures-bind _ (load-Ready sku_ids items) λ m.
      for_each-Ready m _ (λ item rest valid. reserve_item-Ready m item rest valid biz_type biz_id)
        items v

  release_body-Consistent :
      (items : List ReservationItem) (sku_ids : List ℤ)
      → IsValid items
      → Ensures IsConsistent (release_body biz_type biz_id items sku_ids) (λ _. IsConsistent)
  unfolding release_body
  release_body-Consistent items sku_ids v = Ensures-bind _ (load-Ready sku_ids items) λ m.
      Ensures-bind _
        (for_each-Ready m _
          (λ item rest valid. release_item-Ready m item rest valid biz_type biz_id) items v)
        λ _. load_stocks-Consistent sku_ids

  confirm_body-Consistent :
      (items : List ReservationItem) (sku_ids : List ℤ)
      → IsValid items
      → Ensures IsConsistent (confirm_body biz_type biz_id items sku_ids) (λ _. IsConsistent)
  unfolding confirm_body
  confirm_body-Consistent items sku_ids v = Ensures-bind _ (load-Ready sku_ids items) λ m.
      Ensures-bind _
        (for_each-Ready m _
          (λ item rest valid. confirm_item-Ready m item rest valid biz_type biz_id) items v)
        λ _. load_stocks-Consistent sku_ids

  pub reserve-Keeps :
      (items : List ReservationItem) → Keeps IsConsistent (reserve biz_type biz_id items)
  unfolding reserve
  reserve-Keeps items =
      Keeps-bind-lift (validate_reservation_items (sort_reservation_items items)) λ ks e.
        Keeps-bind
          (Keeps-map_err normalize_reservation_error
            (Keeps-transaction driver (reserve_body-Consistent _ ks ((validate_iff _ ks).0 e).1)))
          λ _. list-Keeps ks

  pub release-Keeps :
      (items : List ReservationItem) → Keeps IsConsistent (release biz_type biz_id items)
  unfolding release
  release-Keeps items =
      Keeps-bind-lift (validate_reservation_items (sort_reservation_items items))
        λ ks e. Keeps-transaction driver (release_body-Consistent _ ks ((validate_iff _ ks).0 e).1)

  pub confirm_deduct-Keeps :
      (items : List ReservationItem) → Keeps IsConsistent (confirm_deduct biz_type biz_id items)
  unfolding confirm_deduct
  confirm_deduct-Keeps items =
      Keeps-bind-lift (validate_reservation_items (sort_reservation_items items))
        λ ks e. Keeps-transaction driver (confirm_body-Consistent _ ks ((validate_iff _ ks).0 e).1)
