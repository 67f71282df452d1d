-- ===== src/Inventory/Outcomes/Requests.antt =====
-- What Reserve, Release and ConfirmDeduct leave in the table of reservations where they succeed,
-- and what Reserve leaves in any case.
use mesh_cart.Base.{◌≡◌, ◌⊎◌, refl, inl, inr, List, true, none, String, arith}
use mesh_cart.Base.Int.{ℤ}
use mesh_cart.Base.Lists.{is_empty, select, All}
use mesh_cart.Base.Rows.{In, In-select, In-sort_by, All-In}
use mesh_cart.Base.Text.{str_eq, str_eq_iff}
use mesh_cart.Sql.{World, Query}
use mesh_cart.Sql.Hoare.{
  OnOk, Ensures, Ensures-bind, Ensures-if, Ensures-pure, Ensures-map_err, Ensures-read,
  Ensures-weaken, Ensures-transaction, Ensures-both, Ensures-all, Ensures-bind-lift, Ensures-given,
  Leaves, Leaves-bind-lift, Leaves-then, Leaves-map_err, Leaves-transaction, Keeps-if, Keeps-pure,
  Keeps-map_err, Keeps-read,
}
use mesh_cart.Inventory.Model.{InventoryDb, ReservationStatus, reserved, released, confirmed}
use mesh_cart.Inventory.Errors.{StockError, driver}
use mesh_cart.Inventory.Items.{
  ReservationItem, sort_reservation_items, validate_reservation_items, IsValid,
}
use mesh_cart.Inventory.Items.Validation.{validate_iff}
use mesh_cart.Inventory.Tables.{is_of_biz}
use mesh_cart.Inventory.Stocks.{list_by_sku_ids}
use mesh_cart.Inventory.Reservations.{
  index_reservations, load_reservations, load_stocks_by_sku_ids, reserve_body, reserve,
  release_body, release, confirm_body, confirm_deduct,
}
use mesh_cart.Inventory.Accounts.{IsConsistent}
use mesh_cart.Inventory.Accounts.Held.{index-In}
use mesh_cart.Inventory.Accounts.Settling.{Ready}
use mesh_cart.Inventory.Accounts.Loops.{reserve_item-Ready, release_item-Ready, confirm_item-Ready}
use mesh_cart.Inventory.Accounts.Invariant.{load-Ready}
use mesh_cart.Inventory.Outcomes.{HasRow}
use mesh_cart.Inventory.Outcomes.Loops.{OfBiz, make_loop}
use mesh_cart.Inventory.Outcomes.Steps.{reserve_item-Turns, release_item-Turns, confirm_item-Turns}

module _ (biz_type biz_id : String) where
  loaded-OfBiz :
      (sku_ids : List ℤ)
      → Ensures
          (λ _. Unit)
          (load_reservations biz_type biz_id sku_ids)
          (λ m _. OfBiz biz_type biz_id m)
  unfolding load_reservations
  loaded-OfBiz sku_ids =
      Ensures-if (is_empty sku_ids) (λ _. Ensures-pure _ λ d _ k r e. cc)
        λ _.
          Ensures-bind (λ rows _. OfBiz biz_type biz_id (index_reservations (λ _. none) rows))
            (Ensures-map_err _ (Ensures-read _ λ d _. indexed d)) λ rows. Ensures-pure _ λ d o. o
    where
      indexed :
          (d : InventoryDb)
          → OfBiz biz_type biz_id (
              index_reservations
                (λ _. none)
                (select (is_of_biz biz_type biz_id sku_ids) d.reservations))
      indexed d k r e =
          elim (index-In (λ _. none) (select (is_of_biz biz_type biz_id sku_ids) d.reservations) k r
            e) [
              | inl none_is_some ↦ cc
              | inr (in_rows, of_sku) ↦
                  let picked =
                    (In-select (is_of_biz biz_type biz_id sku_ids) d.reservations r in_rows).1 in
                  (ground arith, ground arith)
            ]

  self : (str_eq biz_type biz_type ≡ true) × (str_eq biz_id biz_id ≡ true)
  self = ((str_eq_iff biz_type biz_type).1 refl, (str_eq_iff biz_id biz_id).1 refl)

  load :
      (sku_ids : List ℤ) (items : List ReservationItem)
      → Ensures IsConsistent
          (load_reservations biz_type biz_id sku_ids)
          (λ m d. Ready m items d × OfBiz biz_type biz_id m)
  load sku_ids items =
      Ensures-both (load-Ready biz_type biz_id sku_ids items)
        (Ensures-weaken (λ d _. tt) (λ m d o. o) (loaded-OfBiz sku_ids))

  module _ (j : ReservationItem) where
    abbrev Has : ReservationStatus → InventoryDb → Type 0
    Has status d = HasRow biz_type biz_id status d j

    module _ (items : List ReservationItem) (sku_ids : List ℤ) (v : IsValid items)
        (i : In j items) where
      reserve_body_done :
          Ensures IsConsistent (reserve_body biz_type biz_id items sku_ids) (λ _. Has reserved)
      unfolding reserve_body
      reserve_body_done = Ensures-bind _ (load sku_ids items) λ m. Ensures-given λ of_biz.
          make_loop m biz_type biz_id of_biz self reserved refl _
            (λ item rest valid. reserve_item-Ready m item rest valid biz_type biz_id)
            (λ item H G. reserve_item-Turns m item biz_type biz_id H G) j items v i

      stocks_loaded :
          (P : InventoryDb → Type 0) → Ensures P (load_stocks_by_sku_ids sku_ids) (λ _. P)
      unfolding load_stocks_by_sku_ids
      stocks_loaded P =
          Ensures-if (is_empty sku_ids) (λ _. Ensures-pure _ λ d c. c)
            λ _. Ensures-map_err _ (Ensures-read _ λ d c. c)

      release_body_done :
          Ensures IsConsistent (release_body biz_type biz_id items sku_ids) (λ _. Has released)
      unfolding release_body
      release_body_done = Ensures-bind _ (load sku_ids items) λ m. Ensures-given λ of_biz.
          Ensures-bind (λ _. Has released)
            (make_loop m biz_type biz_id of_biz self released refl _
              (λ item rest valid. release_item-Ready m item rest valid biz_type biz_id)
              (λ item H G. release_item-Turns m item biz_type biz_id H G) j items v i)
            λ _. stocks_loaded _

      confirm_body_done :
          Ensures IsConsistent (confirm_body biz_type biz_id items sku_ids) (λ _. Has confirmed)
      unfolding confirm_body
      confirm_body_done = Ensures-bind _ (load sku_ids items) λ m. Ensures-given λ of_biz.
          Ensures-bind (λ _. Has confirmed)
            (make_loop m biz_type biz_id of_biz self confirmed refl _
              (λ item rest valid. confirm_item-Ready m item rest valid biz_type biz_id)
              (λ item H G. confirm_item-Turns m item biz_type biz_id H G) j items v i)
            λ _. stocks_loaded _

  sorted :
      (items : List ReservationItem) (j : ReservationItem)
      → In j items
      → In j (sort_reservation_items items)
  unfolding sort_reservation_items
  sorted items j i = In-sort_by (λ i. i.sku_id) items j i

  -- Item by item, and then for all of them.
  All-items :
      {A : Type 0} (status : ReservationStatus) (items : List ReservationItem)
      (m : Query InventoryDb StockError A)
      → ((j : ReservationItem) → In j items → Ensures IsConsistent m (λ _. Has j status))
      → (w : World InventoryDb) → IsConsistent w.db
      → OnOk (λ _ d. All (HasRow biz_type biz_id status d) items) (m w)
  All-items status items m k w c =
      (Ensures-weaken (λ d c. c) (λ _ d f. All-In items λ j i. f (j, i))
          (Ensures-all {X = (j : ReservationItem) × In j items} λ (j, i). k j i)).at
        w c

  -- From consistent tables, whatever statements fail: where Reserve succeeds, every item of the
  -- request has a reservation of the business object, for its SKU and with its quantity, that is
  -- reserved.
  pub reserve_done :
      (items : List ReservationItem) (w : World InventoryDb)
      → IsConsistent w.db
      → OnOk
          (λ _ d. All (HasRow biz_type biz_id reserved d) items)
          (reserve biz_type biz_id items w)
  unfolding reserve list_by_sku_ids
  reserve_done items w c =
      All-items reserved items (reserve biz_type biz_id items)
        (λ j i.
          Ensures-bind-lift (validate_reservation_items (sort_reservation_items items)) λ ks e.
            Ensures-bind (λ _. Has j reserved)
              (Ensures-map_err _ (
                Ensures-transaction _
                  (reserve_body_done j _ ks ((validate_iff _ ks).0 e).1 (sorted items j i))))
              λ _.
                Ensures-if (is_empty ks) (λ _. Ensures-pure _ λ d h. h)
                  λ _. Ensures-map_err _ (Ensures-read _ λ d h. h))
        w c

  -- From consistent tables, whatever statements fail: where Release succeeds, every item of the
  -- request has a reservation of the business object, for its SKU and with its quantity, that is
  -- released.
  pub release_done :
      (items : List ReservationItem) (w : World InventoryDb)
      → IsConsistent w.db
      → OnOk
          (λ _ d. All (HasRow biz_type biz_id released d) items)
          (release biz_type biz_id items w)
  unfolding release
  release_done items w c =
      All-items released items (release biz_type biz_id items)
        (λ j i.
          Ensures-bind-lift (validate_reservation_items (sort_reservation_items items)) λ ks e.
            Ensures-transaction _
              (release_body_done j _ ks ((validate_iff _ ks).0 e).1 (sorted items j i)))
        w c

  -- From consistent tables, whatever statements fail: where ConfirmDeduct succeeds, every item of
  -- the request has a reservation of the business object, for its SKU and with its quantity, that
  -- is confirmed.
  pub confirm_deduct_done :
      (items : List ReservationItem) (w : World InventoryDb)
      → IsConsistent w.db
      → OnOk
          (λ _ d. All (HasRow biz_type biz_id confirmed d) items)
          (confirm_deduct biz_type biz_id items w)
  unfolding confirm_deduct
  confirm_deduct_done items w c =
      All-items confirmed items (confirm_deduct biz_type biz_id items)
        (λ j i.
          Ensures-bind-lift (validate_reservation_items (sort_reservation_items items)) λ ks e.
            Ensures-transaction _
              (confirm_body_done j _ ks ((validate_iff _ ks).0 e).1 (sorted items j i)))
        w c

  -- From consistent tables, whatever statements fail, and whether Reserve answers its stocks or an
  -- error: either no row has changed, or every item of the request has a reservation of the
  -- business object, for its SKU and with its quantity, that is reserved.
  pub reserve_whole_or_nothing :
      (items : List ReservationItem) (w : World InventoryDb)
      → IsConsistent w.db
      → let d = (reserve biz_type biz_id items w).1.db in
        (d ≡ w.db) ⊎ All (HasRow biz_type biz_id reserved d) items
  unfolding reserve list_by_sku_ids
  reserve_whole_or_nothing items w c = whole.at w (c, refl)
    where
      Left : InventoryDb → Type 0
      Left d = (d ≡ w.db) ⊎ All (HasRow biz_type biz_id reserved d) items

      whole : Leaves (λ d. IsConsistent d × (d ≡ w.db)) (reserve biz_type biz_id items) Left
      whole =
          Leaves-bind-lift (validate_reservation_items (sort_reservation_items items))
            (λ d (k, same). inl same)
            λ ks e.
              Leaves-then
                (Leaves-map_err _ (
                  Leaves-transaction driver (λ d (k, same). inl same)
                    (Ensures-weaken (λ d (k, same). k) (λ _ d f. inr (All-In items λ j i. f (j, i)))
                      (Ensures-all {X = (j : ReservationItem) × In j items} λ (j, i).
                        reserve_body_done j _ ks ((validate_iff _ ks).0 e).1 (sorted items j i)))))
                λ _. Keeps-if (is_empty ks) (Keeps-pure _) (Keeps-map_err _ (Keeps-read _))
