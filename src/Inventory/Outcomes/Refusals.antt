-- ===== src/Inventory/Outcomes/Refusals.antt =====
-- Requests for what is settled: a confirmed reservation is neither reserved again nor released, and
-- a released one is neither reserved nor confirmed.
use mesh_cart.Base.{◌≡◌, refl, ap, ◌∙◌, List, [], ◌∷◌, true, none, String, arith}
use mesh_cart.Base.Int.{ℤ}
use mesh_cart.Base.Lists.{is_empty, any, mem_ℤ, All}
use mesh_cart.Base.Rows.{In, In-sort_by}
use mesh_cart.Sql.{World, Query, Result, ok, err, is_err, map_err, lift, ◌>>=◌, transaction}
use mesh_cart.Sql.Hoare.{
  OnOk, Ensures, Ensures-bind, Ensures-if, Ensures-pure, Ensures-map_err, Ensures-read,
  Ensures-bind-lift, Ensures-transaction, Ensures-weaken, Leaves, Leaves-transaction,
  Leaves-bind-lift, Leaves-then, Leaves-map_err, Keeps-if, Keeps-pure, Keeps-map_err, Keeps-read,
}
use mesh_cart.Inventory.Errors.{StockError, driver, normalize_reservation_error}
use mesh_cart.Inventory.Stocks.{list_by_sku_ids}
use mesh_cart.Inventory.Model.{InventoryDb, ReservationStatus, released, confirmed}
use mesh_cart.Inventory.Items.{ReservationItem, sort_reservation_items, validate_reservation_items}
use mesh_cart.Inventory.Items.Validation.{validate_iff}
use mesh_cart.Inventory.Reservations.{
  ReservationMap, load_reservations, for_each, reserve, reserve_body, reserve_item, check_reserved,
  release, release_body, release_item, release_existing, confirm_deduct, confirm_body, confirm_item,
  confirm_existing,
}
use mesh_cart.Inventory.Outcomes.{same_status}
use mesh_cart.Inventory.Outcomes.Settled.{
  is_found, of_sku, AllAre, index-found, is_key, any-loaded, All-loaded, mem-keys,
}
use mesh_cart.Inventory.Outcomes.Fails.{Fails, Fails-never, Fails-err, for_each-Fails}

-- The query answers an error and changes no row.
abbrev pub IsRefused : {A : Type 0} → World InventoryDb → Query InventoryDb StockError A → Type 0
IsRefused w m = (is_err (m w).0 ≡ true) × ((m w).1.db ≡ w.db)

module _ (biz_type biz_id : String) (s : ReservationStatus) (j : ReservationItem) where
  -- The item's SKU has a reservation of the business object, and every such row has the status.
  abbrev pub IsSettled : InventoryDb → Type 0
  IsSettled d =
      (any (is_key s j.sku_id biz_type biz_id) d.reservations ≡ true)
      × All (λ r. is_key s j.sku_id biz_type biz_id r ≡ true → same_status r.status s ≡ true)
          d.reservations

  loaded :
      (ks : List ℤ)
      → mem_ℤ j.sku_id ks ≡ true
      → Ensures IsSettled
          (load_reservations biz_type biz_id ks)
          (λ m _. is_found s (m j.sku_id) ≡ true)
  unfolding load_reservations
  loaded ks mem =
      Ensures-if (is_empty ks) (λ e. Ensures-pure _ λ d h. absurd (none_in ks e mem))
        λ _.
          Ensures-bind (λ rows _. (any (of_sku j.sku_id) rows ≡ true) × AllAre s j.sku_id rows)
            (Ensures-map_err _ (
              Ensures-read _ λ d (h, a). (
                any-loaded s j.sku_id biz_type biz_id ks mem d.reservations h,
                All-loaded s j.sku_id biz_type biz_id ks mem d.reservations a,
              )))
            λ rows.
              Ensures-pure _ λ d (h, a). index-found s j.sku_id (λ _. none) rows (ground arith) a
    where
      none_in : (ks : List ℤ) → is_empty ks ≡ true → mem_ℤ j.sku_id ks ≡ true → ⊥
      none_in [] e h = cc
      none_in (k ∷ ks) e h = cc

  -- What fails with every map that has the reservation.
  after_lookup :
      {A : Type 0} (ks : List ℤ) (k : ReservationMap → Query InventoryDb StockError A)
      → mem_ℤ j.sku_id ks ≡ true
      → ((m : ReservationMap) → is_found s (m j.sku_id) ≡ true → Fails (λ _. Unit) (k m))
      → Fails IsSettled (load_reservations biz_type biz_id ks >>= k)
  after_lookup ks k mem fails =
      Ensures-bind _ (loaded ks mem) λ m. record { at = λ w h. (fails m h).at w tt }

  module _ (before : InventoryDb) {A : Type 0} where
    -- The query fails and changes no row.
    abbrev Refuses : Query InventoryDb StockError A → Type 0
    Refuses m = Fails IsSettled m × Leaves (λ d. IsSettled d × (d ≡ before)) m (λ d. d ≡ before)

    Refuses-transaction :
        (body : Query InventoryDb StockError A)
        → Fails IsSettled body
        → Refuses (transaction driver body)
    Refuses-transaction body k = (
      Ensures-transaction driver k,
      Leaves-transaction driver (λ d (h, e). e)
          (Ensures-weaken (λ d (h, e). h) (λ a d h. absurd h) k),
    )

    -- The rest of a handler, once the items are valid.
    Refuses-valid :
        (items : List ReservationItem) (k : List ℤ → Query InventoryDb StockError A)
        → In j items
        → ((ks : List ℤ) → mem_ℤ j.sku_id ks ≡ true → Refuses (k ks))
        → Refuses (lift (validate_reservation_items (sort_reservation_items items)) >>= k)
    unfolding sort_reservation_items
    Refuses-valid items k i refuses = (
      Ensures-bind-lift (validate_reservation_items (sort_reservation_items items))
          λ ks e. (refuses ks (member ks e)).0,
      Leaves-bind-lift (validate_reservation_items (sort_reservation_items items)) (λ d (h, e). e)
          λ ks e. (refuses ks (member ks e)).1,
    )
      where
        member :
            (ks : List ℤ)
            → validate_reservation_items (sort_reservation_items items) ≡ ok ks
            → mem_ℤ j.sku_id ks ≡ true
        member ks e =
            ap (mem_ℤ j.sku_id) ((validate_iff _ ks).0 e).2
            ∙ mem-keys (sort_reservation_items items) j (In-sort_by (λ i. i.sku_id) items j i)

  refused :
      {A : Type 0} (w : World InventoryDb) (m : Query InventoryDb StockError A)
      → Refuses w.db m
      → IsSettled w.db
      → IsRefused w m
  refused {A} w m (fails, leaves) h = (failed (m w) (fails.at w h), leaves.at w (h, refl))
    where
      failed : (r : Result StockError A × World InventoryDb) → OnOk (λ _ _. ⊥) r → is_err r.0 ≡ true
      failed (ok a, w) b = absurd b
      failed (err e, w) b = refl

  -- The stocks are not read after a transaction that fails.
  Refuses-then :
      (before : InventoryDb) (ks : List ℤ) {A : Type 0} (m : Query InventoryDb StockError A)
      → Refuses before m
      → Refuses before (map_err normalize_reservation_error m >>= λ _. list_by_sku_ids ks)
  unfolding list_by_sku_ids
  Refuses-then before ks m (fails, leaves) = (
    Ensures-bind _ (Ensures-map_err _ fails) λ _. Fails-never,
    Leaves-then (Leaves-map_err _ leaves)
        λ _. Keeps-if (is_empty ks) (Keeps-pure _) (Keeps-map_err _ (Keeps-read _)),
  )

  -- What a step does with the reservation, if it has the status.
  abbrev TurnsDown : (ReservationMap → ReservationItem → Query InventoryDb StockError Unit) → Type 0
  TurnsDown step =
      (m : ReservationMap)
      → is_found s (m j.sku_id) ≡ true
      → (w : World InventoryDb) → is_err (step m j w).0 ≡ true

  looped :
      (step : ReservationMap → ReservationItem → Query InventoryDb StockError Unit)
      (items : List ReservationItem)
      → In j items
      → TurnsDown step
      → (m : ReservationMap) → is_found s (m j.sku_id) ≡ true
      → Fails (λ _. Unit) (for_each (step m) (sort_reservation_items items))
  unfolding sort_reservation_items
  looped step items i k m h =
      for_each-Fails (step m) j (Fails-err (k m h)) _ (In-sort_by (λ i. i.sku_id) items j i)

  module _ (items : List ReservationItem) (i : In j items) (before : InventoryDb) where
    reserve-Refuses :
        TurnsDown (reserve_item biz_type biz_id) → Refuses before (reserve biz_type biz_id items)
    unfolding reserve reserve_body
    reserve-Refuses k = Refuses-valid before items _ i λ ks mem.
        Refuses-then before ks _
          (Refuses-transaction before _ (after_lookup ks _ mem (looped _ items i k)))

    release-Refuses :
        TurnsDown (release_item biz_type biz_id) → Refuses before (release biz_type biz_id items)
    unfolding release release_body
    release-Refuses k = Refuses-valid before items _ i λ ks mem. Refuses-transaction before _ (
        after_lookup ks _ mem λ m h.
          Ensures-bind _ (looped (release_item biz_type biz_id) items i k m h) λ _. Fails-never)

    confirm-Refuses :
        TurnsDown (confirm_item biz_type biz_id)
        → Refuses before (confirm_deduct biz_type biz_id items)
    unfolding confirm_deduct confirm_body
    confirm-Refuses k = Refuses-valid before items _ i λ ks mem. Refuses-transaction before _ (
        after_lookup ks _ mem λ m h.
          Ensures-bind _ (looped (confirm_item biz_type biz_id) items i k m h) λ _. Fails-never)

module _ (biz_type biz_id : String) (j : ReservationItem) where
  reserve_confirmed : TurnsDown biz_type biz_id confirmed j (reserve_item biz_type biz_id)
  unfolding reserve_item check_reserved ◌>>=◌
  reserve_confirmed m h w = ground arith

  reserve_released : TurnsDown biz_type biz_id released j (reserve_item biz_type biz_id)
  unfolding reserve_item check_reserved ◌>>=◌
  reserve_released m h w = ground arith

  release_confirmed : TurnsDown biz_type biz_id confirmed j (release_item biz_type biz_id)
  unfolding release_item release_existing ◌>>=◌
  release_confirmed m h w = ground arith

  confirm_released : TurnsDown biz_type biz_id released j (confirm_item biz_type biz_id)
  unfolding confirm_item confirm_existing ◌>>=◌
  confirm_released m h w = ground arith

  -- Where the business object has a reservation for the SKU of an item of the request, and every
  -- such reservation is confirmed, Reserve and Release of the request both answer an error and
  -- change no row, whatever statements fail.
  pub confirmed_refused :
      (items : List ReservationItem) (w : World InventoryDb)
      → In j items
      → IsSettled biz_type biz_id confirmed j w.db
      → IsRefused w (reserve biz_type biz_id items) × IsRefused w (release biz_type biz_id items)
  confirmed_refused items w i h = (
    refused biz_type biz_id confirmed j w _
        (reserve-Refuses biz_type biz_id confirmed j items i w.db reserve_confirmed) h,
    refused biz_type biz_id confirmed j w _
        (release-Refuses biz_type biz_id confirmed j items i w.db release_confirmed) h,
  )

  -- Where the business object has a reservation for the SKU of an item of the request, and every
  -- such reservation is released, Reserve and ConfirmDeduct of the request both answer an error
  -- and change no row, whatever statements fail.
  pub released_refused :
      (items : List ReservationItem) (w : World InventoryDb)
      → In j items
      → IsSettled biz_type biz_id released j w.db
      → IsRefused w (reserve biz_type biz_id items)
        × IsRefused w (confirm_deduct biz_type biz_id items)
  released_refused items w i h = (
    refused biz_type biz_id released j w _
        (reserve-Refuses biz_type biz_id released j items i w.db reserve_released) h,
    refused biz_type biz_id released j w _
        (confirm-Refuses biz_type biz_id released j items i w.db confirm_released) h,
  )
