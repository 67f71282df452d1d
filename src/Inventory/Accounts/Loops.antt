-- ===== src/Inventory/Accounts/Loops.antt =====
-- The loops of Reserve, Release and ConfirmDeduct keep the tables consistent.
use mesh_cart.Base.{
  ◌≡◌, refl, sym, ◌∙◌, inl, inr, List, [], ◌∷◌, ◌++◌, true, false, not, some, String, ◌==◌,
  Option-cases, arith,
}
use mesh_cart.Base.Int.{ℤ, eq_ℤ, eq_ℤ→eq, int_laws}
use mesh_cart.Sql.{Query, raise, pure}
use mesh_cart.Sql.Hoare.{
  Ensures, Ensures-bind, Ensures-if, Ensures-raise, Ensures-pure, Ensures-map_err, Ensures-weaken,
  Ensures-raise_if, Ensures-take_row,
}
use mesh_cart.Inventory.Model.{
  InventoryReservation, InventoryDb, ReservationStatus, reserved, released, confirmed, unknown,
}
use mesh_cart.Inventory.Errors.{StockError, reservation_state_conflict}
use mesh_cart.Inventory.Items.{ReservationItem, IsValid}
use mesh_cart.Inventory.Tables.{
  can_reserve, reserve_stock, can_release, release_stock, can_confirm, confirm_stock,
}
use mesh_cart.Inventory.Reservations.{
  ReservationMap, check_reserved, reserve_new, reserve_item, classify_reserve_failure,
  release_reserved, release_existing, release_item, confirm_reserved, confirm_existing,
  confirm_item, for_each,
}
use mesh_cart.Inventory.Accounts.{is_live, held, IsConsistent}
use mesh_cart.Inventory.Accounts.Stocks.{
  add_to, take_from, reserve-Accounts, release-Accounts, confirm-Accounts,
}
use mesh_cart.Inventory.Accounts.Held.{held-append, add_to-share}
use mesh_cart.Inventory.Accounts.Settling.{Ready}
use mesh_cart.Inventory.Accounts.Steps.{update-Moved, mark-Ready, new_row, create-Ready, Ready-tail}

module _ (existing : ReservationMap) (item : ReservationItem) (items : List ReservationItem)
    (valid : IsValid (item ∷ items)) (biz_type biz_id : String) where
  classify-Ready :
      (P : InventoryDb → Type 0)
      → Ensures P (classify_reserve_failure item) (λ _. Ready existing items)
  unfolding classify_reserve_failure
  classify-Ready P = Ensures-bind _ (Ensures-map_err _ (Ensures-take_row _)) λ s.
      Ensures-bind _ (Ensures-raise_if _ _)
        λ _. Ensures-bind _ (Ensures-raise_if _ _) λ _. Ensures-raise _

  reserve_new-Ready :
      Ensures
        (Ready existing (item ∷ items))
        (reserve_new biz_type biz_id item)
        (λ _. Ready existing items)
  unfolding reserve_new
  reserve_new-Ready =
      Ensures-bind _
        (update-Moved existing item items valid (can_reserve item.sku_id item.quantity)
          (reserve_stock item.quantity) (λ _. refl) (λ _. refl) (add_to item.sku_id item.quantity)
          (λ g. reserve-Accounts item.sku_id item.quantity (omega arith) g) (λ s e. ground arith))
        λ rows.
          Ensures-if (rows == 0) (λ _. classify-Ready _)
            λ some_row.
              Ensures-weaken (λ d m. let (moved, stock) = m (ground arith) in (moved, λ _. stock))
                (λ _ d r. r)
                (create-Ready existing item items valid biz_type biz_id reserved
                  (add_to item.sku_id item.quantity)
                  λ rs id. add_to-share item.sku_id item.quantity rs _ refl refl refl)

  check_reserved-Ready :
      (r : InventoryReservation)
      → Ensures
          (Ready existing (item ∷ items))
          (check_reserved biz_type biz_id r item)
          (λ _. Ready existing items)
  unfolding check_reserved
  check_reserved-Ready r =
      Ensures-if (not (eq_ℤ r.quantity item.quantity)) (λ _. Ensures-raise _)
        λ _. by_status r.status
    where
      by_status :
          (status : ReservationStatus)
          → Ensures
              (Ready existing (item ∷ items))
              (elim status as (λ _. Query InventoryDb StockError Unit) [
                | reserved ↦ pure tt
                | _ ↦ raise reservation_state_conflict
              ])
              (λ _. Ready existing items)
      by_status reserved = Ensures-pure tt (Ready-tail existing item items valid)
      by_status released = Ensures-raise _
      by_status confirmed = Ensures-raise _
      by_status (unknown _) = Ensures-raise _

  pub reserve_item-Ready :
      Ensures
        (Ready existing (item ∷ items))
        (reserve_item biz_type biz_id existing item)
        (λ _. Ready existing items)
  unfolding reserve_item
  reserve_item-Ready = elim (Option-cases (existing item.sku_id)) [
    | inl e ↦ rw (e, reserve_item) reserve_new-Ready
    | inr (r, e) ↦ rw (e, reserve_item) (check_reserved-Ready r)
  ]

  -- A live reservation of the quantity that is asked for.
  module _ (r : InventoryReservation) (found : existing item.sku_id ≡ some r)
      (live : is_live r.status ≡ true) (same : r.quantity ≡ item.quantity) where
    release_reserved-Ready :
        Ensures
          (Ready existing (item ∷ items))
          (release_reserved biz_type biz_id r item)
          (λ _. Ready existing items)
    unfolding release_reserved
    release_reserved-Ready =
        Ensures-bind _
          (update-Moved existing item items valid (can_release item.sku_id item.quantity)
            (release_stock item.quantity) (λ _. refl) (λ _. refl)
            (take_from item.sku_id item.quantity)
            (λ g. release-Accounts item.sku_id item.quantity (omega arith) g) (λ s e. ground arith))
          λ rows.
            Ensures-if (rows == 0) (λ _. Ensures-raise _)
              λ some_row.
                Ensures-weaken (λ d m. (m (ground arith)).0) (λ _ d k. k)
                  (mark-Ready existing item items valid r released _ found live refl same)

    confirm_reserved-Ready :
        Ensures
          (Ready existing (item ∷ items))
          (confirm_reserved biz_type biz_id r item)
          (λ _. Ready existing items)
    unfolding confirm_reserved
    confirm_reserved-Ready =
        Ensures-bind _
          (update-Moved existing item items valid (can_confirm item.sku_id item.quantity)
            (confirm_stock item.quantity) (λ _. refl) (λ _. refl)
            (take_from item.sku_id item.quantity)
            (λ g. confirm-Accounts item.sku_id item.quantity (omega arith) g) (λ s e. ground arith))
          λ rows.
            Ensures-if (rows == 0) (λ _. Ensures-raise _)
              λ some_row.
                Ensures-weaken (λ d m. (m (ground arith)).0) (λ _ d k. k)
                  (mark-Ready existing item items valid r confirmed _ found live refl same)

  same_quantity :
      (r : InventoryReservation)
      → not (eq_ℤ r.quantity item.quantity) ≡ false
      → r.quantity ≡ item.quantity
  same_quantity r e = eq_ℤ→eq _ _ (ground arith)

  release_existing-Ready :
      (r : InventoryReservation)
      → existing item.sku_id ≡ some r
      → Ensures
          (Ready existing (item ∷ items))
          (release_existing biz_type biz_id r item)
          (λ _. Ready existing items)
  unfolding release_existing
  release_existing-Ready r found =
      Ensures-if (not (eq_ℤ r.quantity item.quantity)) (λ _. Ensures-raise _)
        λ same. by_status r.status refl (same_quantity r same)
    where
      by_status :
          (status : ReservationStatus)
          → r.status ≡ status
          → r.quantity ≡ item.quantity
          → Ensures
              (Ready existing (item ∷ items))
              (elim status as (λ _. Query InventoryDb StockError Unit) [
                | released ↦ pure tt
                | confirmed ↦ raise reservation_state_conflict
                | reserved ↦ release_reserved biz_type biz_id r item
                | unknown _ ↦ raise reservation_state_conflict
              ])
              (λ _. Ready existing items)
      by_status released e same = Ensures-pure tt (Ready-tail existing item items valid)
      by_status confirmed e same = Ensures-raise _
      by_status reserved e same = release_reserved-Ready r found (rw e) same
      by_status (unknown _) e same = Ensures-raise _

  confirm_existing-Ready :
      (r : InventoryReservation)
      → existing item.sku_id ≡ some r
      → Ensures
          (Ready existing (item ∷ items))
          (confirm_existing biz_type biz_id r item)
          (λ _. Ready existing items)
  unfolding confirm_existing
  confirm_existing-Ready r found =
      Ensures-if (not (eq_ℤ r.quantity item.quantity)) (λ _. Ensures-raise _)
        λ same. by_status r.status refl (same_quantity r same)
    where
      by_status :
          (status : ReservationStatus)
          → r.status ≡ status
          → r.quantity ≡ item.quantity
          → Ensures
              (Ready existing (item ∷ items))
              (elim status as (λ _. Query InventoryDb StockError Unit) [
                | confirmed ↦ pure tt
                | released ↦ raise reservation_state_conflict
                | reserved ↦ confirm_reserved biz_type biz_id r item
                | unknown _ ↦ raise reservation_state_conflict
              ])
              (λ _. Ready existing items)
      by_status confirmed e same = Ensures-pure tt (Ready-tail existing item items valid)
      by_status released e same = Ensures-raise _
      by_status reserved e same = confirm_reserved-Ready r found (rw e) same
      by_status (unknown _) e same = Ensures-raise _

  no_share :
      (rs : List InventoryReservation) (id k : ℤ)
      → held k rs
        ≡ held k (rs ++ new_row existing item items valid biz_type biz_id id released ∷ [])
  no_share rs id k = sym (held-append k rs _ ∙ omega int_laws)

  pub release_item-Ready :
      Ensures
        (Ready existing (item ∷ items))
        (release_item biz_type biz_id existing item)
        (λ _. Ready existing items)
  unfolding release_item
  release_item-Ready = elim (Option-cases (existing item.sku_id)) [
    | inl e ↦
        rw (e, release_item)
          (Ensures-weaken
            (λ d r. (
              record {
                accounts = r.consistent.accounts;
                unique_stocks = r.consistent.unique_stocks;
                unique_ids = r.consistent.unique_ids;
                covered = r.consistent.covered;
                loaded = r.loaded;
              },
              λ lives. cc,
            ))
            (λ _ d r. r)
            (create-Ready existing item items valid biz_type biz_id released (λ h. h) no_share))
    | inr (r, e) ↦ rw (e, release_item) (release_existing-Ready r e)
  ]

  pub confirm_item-Ready :
      Ensures
        (Ready existing (item ∷ items))
        (confirm_item biz_type biz_id existing item)
        (λ _. Ready existing items)
  unfolding confirm_item
  confirm_item-Ready = elim (Option-cases (existing item.sku_id)) [
    | inl e ↦ rw (e, confirm_item) (Ensures-raise _)
    | inr (r, e) ↦ rw (e, confirm_item) (confirm_existing-Ready r e)
  ]

-- A loop whose steps each use up their item.
pub for_each-Ready :
    (existing : ReservationMap) (step : ReservationItem → Query InventoryDb StockError Unit)
    → ((item : ReservationItem) (items : List ReservationItem)
        → IsValid (item ∷ items)
        → Ensures (Ready existing (item ∷ items)) (step item) (λ _. Ready existing items))
    → (items : List ReservationItem) → IsValid items
    → Ensures (Ready existing items) (for_each step items) (λ _. IsConsistent)
unfolding for_each
for_each-Ready existing step k [] v = Ensures-pure tt λ d r. r.consistent
for_each-Ready existing step k (item ∷ items) v =
    Ensures-bind _ (k item items v) λ _. for_each-Ready existing step k items v.3
