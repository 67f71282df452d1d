-- ===== src/Inventory/Outcomes/Steps.antt =====
-- One step of the loops of Reserve, Release and ConfirmDeduct, as far as the reservations go: it
-- leaves them, adds a row, or settles the row that the map has.
use mesh_cart.Base.{
  ◌≡◌, refl, inl, inr, List, [], ◌∷◌, ◌++◌, Bool, true, false, not, some, String, ◌==◌,
  if◌then◌else◌, Option-cases, arith,
}
use mesh_cart.Base.Int.{ℤ, eq_ℤ, eq_ℤ→eq}
use mesh_cart.Base.Lists.{any, update_where}
use mesh_cart.Sql.{Query, ok, err, duplicate_key, raise, pure, map_err}
use mesh_cart.Sql.Hoare.{
  OnRows, Ensures, Ensures-bind, Ensures-if, Ensures-raise, Ensures-pure, Ensures-map_err,
  Ensures-statement, Ensures-write, Ensures-next_id, Ensures-raise_if, Ensures-take_row,
}
use mesh_cart.Inventory.Model.{
  InventoryStock, InventoryReservation, InventoryDb, ReservationStatus, reserved, released,
  confirmed, unknown,
}
use mesh_cart.Inventory.Errors.{StockError, reservation_state_conflict, driver}
use mesh_cart.Inventory.Items.{ReservationItem, build_reservation_payload}
use mesh_cart.Inventory.Tables.{update_stocks, insert_reservation, reservation_clashes}
use mesh_cart.Inventory.Reservations.{
  ReservationMap, mark_reservation, create_reservation, check_reserved, reserve_new, reserve_item,
  classify_reserve_failure, release_reserved, release_existing, release_item, confirm_reserved,
  confirm_existing, confirm_item,
}
use mesh_cart.Inventory.Accounts.{has_id}
use mesh_cart.Inventory.Accounts.Held.{settle}

abbrev pub Rows : Type 1
Rows = List InventoryReservation → Type 0

abbrev pub On : Rows → InventoryDb → Type 0
On H d = H d.reservations

abbrev pub row_of : String → String → ReservationItem → ReservationStatus → ℤ → InventoryReservation
row_of biz_type biz_id item status id = record {
  id = id;
  biz_type = biz_type;
  biz_id = biz_id;
  sku_id = item.sku_id;
  quantity = item.quantity;
  status = status;
  payload_snapshot = build_reservation_payload biz_type biz_id item;
}

module _ (existing : ReservationMap) (item : ReservationItem) (biz_type biz_id : String) where
  -- From `H` to `G`, in each way that a step may take to `status`.
  pub record Turns (status : ReservationStatus) (H G : Rows) : Type 0 where
    pub same :
        (rs : List InventoryReservation) (r : InventoryReservation)
        → H rs
        → existing item.sku_id ≡ some r
        → r.quantity ≡ item.quantity
        → r.status ≡ status
        → G rs
    pub created :
        (rs : List InventoryReservation) (id : ℤ)
        → H rs
        → G (rs ++ row_of biz_type biz_id item status id ∷ [])
    pub marked :
        (rs : List InventoryReservation) (r : InventoryReservation) (payload : String)
        → H rs
        → existing item.sku_id ≡ some r
        → r.quantity ≡ item.quantity
        → G (update_where (has_id r.id) (settle status payload) rs)

  moved :
      (H : Rows) (p : InventoryStock → Bool) (f : InventoryStock → InventoryStock)
      → Ensures (On H) (map_err driver (update_stocks p f)) (λ _. On H)
  unfolding update_stocks
  moved H p f = Ensures-map_err _ (Ensures-statement _ λ d h. h)

  module _ (status : ReservationStatus) (H G : Rows) (t : Turns status H G) where
    create_row : Ensures (On H) (create_reservation biz_type biz_id item status) (λ _. On G)
    unfolding create_reservation insert_reservation
    create_row =
        Ensures-bind (λ _. On H) Ensures-next_id
          λ id. Ensures-map_err _ (
            Ensures-statement _ λ d h.
              inserted id d h
                (any (reservation_clashes (row_of biz_type biz_id item status id)) d.reservations))
      where
        inserted :
            (id : ℤ) (d : InventoryDb)
            → On H d
            → (c : Bool)
            → OnRows
                (λ _. On G)
                (if c then (err duplicate_key, d) else (
                  ok tt,
                  record d {
                    reservations = d.reservations ++ row_of biz_type biz_id item status id ∷ [];
                  },
                ))
        inserted id d h true = tt
        inserted id d h false = t.created d.reservations id h

    module _ (r : InventoryReservation) (found : existing item.sku_id ≡ some r)
        (eq : r.quantity ≡ item.quantity) where
      mark_row :
          (payload : String) → Ensures (On H) (mark_reservation r.id status payload) (λ _. On G)
      unfolding mark_reservation
      mark_row payload =
          Ensures-map_err _ (Ensures-write _ λ d h. t.marked d.reservations r payload h found eq)

      stay : r.status ≡ status → Ensures {E = StockError} (On H) (pure tt) (λ _. On G)
      stay e = Ensures-pure tt λ d h. t.same d.reservations r h found eq e

  classify_never :
      (P : InventoryDb → Type 0) {Q : Unit {0} → InventoryDb → Type 0}
      → Ensures P (classify_reserve_failure item) Q
  unfolding classify_reserve_failure
  classify_never P = Ensures-bind _ (Ensures-map_err _ (Ensures-take_row _)) λ s.
      Ensures-bind _ (Ensures-raise_if _ _)
        λ _. Ensures-bind _ (Ensures-raise_if _ _) λ _. Ensures-raise _

  equal_quantity :
      (r : InventoryReservation)
      → not (eq_ℤ r.quantity item.quantity) ≡ false
      → r.quantity ≡ item.quantity
  equal_quantity r e = eq_ℤ→eq _ _ (ground arith)

  module _ (H G : Rows) where
    pub reserve_item-Turns :
        Turns reserved H G → Ensures (On H) (reserve_item biz_type biz_id existing item) (λ _. On G)
    unfolding reserve_item reserve_new check_reserved
    reserve_item-Turns t = elim (Option-cases (existing item.sku_id)) [
      | inl e ↦
          rw (e, reserve_item)
            (Ensures-bind (λ _. On H) (moved H _ _)
              λ rows. Ensures-if (rows == 0) (λ _. classify_never _) λ _. create_row reserved H G t)
      | inr (r, e) ↦
          rw (e, reserve_item)
            (Ensures-if (not (eq_ℤ r.quantity item.quantity)) (λ _. Ensures-raise _)
              λ same. by_status r e (equal_quantity r same) r.status refl)
    ]
      where
        by_status :
            (r : InventoryReservation)
            → existing item.sku_id ≡ some r
            → r.quantity ≡ item.quantity
            → (status : ReservationStatus) → r.status ≡ status
            → Ensures
                (On H)
                (elim status as (λ _. Query InventoryDb StockError Unit) [
                  | reserved ↦ pure tt
                  | _ ↦ raise reservation_state_conflict
                ])
                (λ _. On G)
        by_status r e eq reserved s = stay reserved H G t r e eq s
        by_status r e eq released s = Ensures-raise _
        by_status r e eq confirmed s = Ensures-raise _
        by_status r e eq (unknown _) s = Ensures-raise _

    pub release_item-Turns :
        Turns released H G → Ensures (On H) (release_item biz_type biz_id existing item) (λ _. On G)
    unfolding release_item release_existing release_reserved
    release_item-Turns t = elim (Option-cases (existing item.sku_id)) [
      | inl e ↦ rw (e, release_item) (create_row released H G t)
      | inr (r, e) ↦
          rw (e, release_item)
            (Ensures-if (not (eq_ℤ r.quantity item.quantity)) (λ _. Ensures-raise _)
              λ same. by_status r e (equal_quantity r same) r.status refl)
    ]
      where
        by_status :
            (r : InventoryReservation)
            → existing item.sku_id ≡ some r
            → r.quantity ≡ item.quantity
            → (status : ReservationStatus) → r.status ≡ status
            → Ensures
                (On H)
                (elim status as (λ _. Query InventoryDb StockError Unit) [
                  | released ↦ pure tt
                  | confirmed ↦ raise reservation_state_conflict
                  | reserved ↦ release_reserved biz_type biz_id r item
                  | unknown _ ↦ raise reservation_state_conflict
                ])
                (λ _. On G)
        by_status r e eq released s = stay released H G t r e eq s
        by_status r e eq confirmed s = Ensures-raise _
        by_status r e eq reserved s =
            Ensures-bind (λ _. On H) (moved H _ _)
              λ rows.
                Ensures-if (rows == 0) (λ _. Ensures-raise _) λ _. mark_row released H G t r e eq _
        by_status r e eq (unknown _) s = Ensures-raise _

    pub confirm_item-Turns :
        Turns confirmed H G
        → Ensures (On H) (confirm_item biz_type biz_id existing item) (λ _. On G)
    unfolding confirm_item confirm_existing confirm_reserved
    confirm_item-Turns t = elim (Option-cases (existing item.sku_id)) [
      | inl e ↦ rw (e, confirm_item) (Ensures-raise _)
      | inr (r, e) ↦
          rw (e, confirm_item)
            (Ensures-if (not (eq_ℤ r.quantity item.quantity)) (λ _. Ensures-raise _)
              λ same. by_status r e (equal_quantity r same) r.status refl)
    ]
      where
        by_status :
            (r : InventoryReservation)
            → existing item.sku_id ≡ some r
            → r.quantity ≡ item.quantity
            → (status : ReservationStatus) → r.status ≡ status
            → Ensures
                (On H)
                (elim status as (λ _. Query InventoryDb StockError Unit) [
                  | confirmed ↦ pure tt
                  | released ↦ raise reservation_state_conflict
                  | reserved ↦ confirm_reserved biz_type biz_id r item
                  | unknown _ ↦ raise reservation_state_conflict
                ])
                (λ _. On G)
        by_status r e eq confirmed s = stay confirmed H G t r e eq s
        by_status r e eq released s = Ensures-raise _
        by_status r e eq reserved s =
            Ensures-bind (λ _. On H) (moved H _ _)
              λ rows.
                Ensures-if (rows == 0) (λ _. Ensures-raise _) λ _. mark_row confirmed H G t r e eq _
        by_status r e eq (unknown _) s = Ensures-raise _
