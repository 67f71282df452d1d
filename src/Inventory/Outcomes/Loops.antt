-- ===== src/Inventory/Outcomes/Loops.antt =====
-- After a whole loop every item of the request has its row.
use mesh_cart.Base.{
  ◌≡◌, refl, ap, ◌∙◌, inl, inr, List, [], ◌∷◌, Bool, true, false, some, String, arith,
}
use mesh_cart.Base.Int.{ℤ, eq_ℤ, eq_ℤ_iff}
use mesh_cart.Base.Lists.{any, All-imp}
use mesh_cart.Base.Rows.{
  In, any-update_rest, any-update_found, any-find, any-append_left, any-append_new,
}
use mesh_cart.Base.Text.{str_eq}
use mesh_cart.Sql.{Query}
use mesh_cart.Sql.Hoare.{Ensures, Ensures-bind, Ensures-pure, Ensures-weaken, Ensures-both}
use mesh_cart.Inventory.Model.{InventoryReservation, InventoryDb, ReservationStatus}
use mesh_cart.Inventory.Errors.{StockError}
use mesh_cart.Inventory.Items.{ReservationItem, IsValid, asks_for}
use mesh_cart.Inventory.Reservations.{ReservationMap, for_each}
use mesh_cart.Inventory.Accounts.{has_id, UniqueIds}
use mesh_cart.Inventory.Accounts.Held.{settle}
use mesh_cart.Inventory.Accounts.Settling.{Loaded, Ready}
use mesh_cart.Inventory.Outcomes.{same_status, is_row, HasRow}
use mesh_cart.Inventory.Outcomes.Rows.{found_only}
use mesh_cart.Inventory.Outcomes.Steps.{Rows, On, Turns, row_of}

-- The map has reservations of this business object only.
abbrev pub OfBiz : String → String → ReservationMap → Type 0
OfBiz biz_type biz_id existing =
    (k : ℤ) (r : InventoryReservation)
    → existing k ≡ some r
    → (str_eq r.biz_type biz_type ≡ true) × (str_eq r.biz_id biz_id ≡ true)

module _ (existing : ReservationMap) (biz_type biz_id : String)
    (of_biz : OfBiz biz_type biz_id existing)
    (self : (str_eq biz_type biz_type ≡ true) × (str_eq biz_id biz_id ≡ true))
    (status : ReservationStatus) (named : same_status status status ≡ true) where
  abbrev is_done : ReservationItem → InventoryReservation → Bool
  is_done = is_row biz_type biz_id status

  abbrev Held : ReservationItem → Rows
  Held item rs = UniqueIds rs × Loaded existing rs item

  is_done_same :
      (item : ReservationItem) (r : InventoryReservation)
      → existing item.sku_id ≡ some r
      → r.sku_id ≡ item.sku_id
      → r.quantity ≡ item.quantity
      → same_status r.status status ≡ true
      → is_done item r ≡ true
  is_done_same item r e of_sku eq st =
      let (a, b) = of_biz item.sku_id r e in
      rw (
        a,
        b,
        st,
        (eq_ℤ_iff r.sku_id item.sku_id).1 of_sku,
        (eq_ℤ_iff r.quantity item.quantity).1 eq,
      )

  is_done_settled :
      (item : ReservationItem) (r : InventoryReservation) (payload : String)
      → existing item.sku_id ≡ some r
      → r.sku_id ≡ item.sku_id
      → r.quantity ≡ item.quantity
      → is_done item (settle status payload r) ≡ true
  is_done_settled item r payload e of_sku eq =
      let (a, b) = of_biz item.sku_id r e in
      rw (
        a,
        b,
        named,
        (eq_ℤ_iff r.sku_id item.sku_id).1 of_sku,
        (eq_ℤ_iff r.quantity item.quantity).1 eq,
      )

  made :
      (item : ReservationItem)
      → Turns existing item biz_type biz_id status (Held item) (λ rs. any (is_done item) rs ≡ true)
  made item = record {
    same = λ rs r (u, l) e eq st.
        any-find (is_done item) (has_id r.id) rs r (l r e).0
          (is_done_same item r e (l r e).1 eq (ap (λ s. same_status s status) st ∙ named));
    created = λ rs id h. any-append_new (is_done item) rs (row_of biz_type biz_id item status id) (
        rw (
          self.0,
          self.1,
          named,
          (eq_ℤ_iff item.sku_id item.sku_id).1 refl,
          (eq_ℤ_iff item.quantity item.quantity).1 refl,
        ));
    marked = λ rs r payload (u, l) e eq.
        any-update_found (is_done item) (has_id r.id) (settle status payload) rs r (l r e).0
          (is_done_settled item r payload e (l r e).1 eq);
  }

  module _ (j : ReservationItem) where
    kept :
        (item : ReservationItem)
        → eq_ℤ item.sku_id j.sku_id ≡ false
        → Turns existing item biz_type biz_id status
            (λ rs. Held item rs × (any (is_done j) rs ≡ true))
            (λ rs. any (is_done j) rs ≡ true)
    kept item apart = record {
      same = λ rs r (h, k) e eq st. k;
      created = λ rs id (h, k). any-append_left (is_done j) rs _ k;
      marked = λ rs r payload ((u, l), k) e eq.
          any-update_rest (is_done j) (has_id r.id) (settle status payload) rs
            (All-imp _ (λ x. has_id r.id x ≡ true → is_done j x ≡ false)
              (λ x only on. ap (is_done j) (only on) ∙ other r (l r e).1) rs
              (found_only r.id rs r u (l r e).0))
            k;
    }
      where
        other : (r : InventoryReservation) → r.sku_id ≡ item.sku_id → is_done j r ≡ false
        other r of_sku = ground arith

  module _ (step : ReservationItem → Query InventoryDb StockError Unit)
      (ready : (item : ReservationItem) (items : List ReservationItem)
        → IsValid (item ∷ items)
        → Ensures (Ready existing (item ∷ items)) (step item) (λ _. Ready existing items))
      (turns : (item : ReservationItem) (H G : Rows)
        → Turns existing item biz_type biz_id status H G
        → Ensures (On H) (step item) (λ _. On G))
      (j : ReservationItem) where
    abbrev Done : InventoryDb → Type 0
    Done d = HasRow biz_type biz_id status d j

    keep_loop :
        (items : List ReservationItem)
        → IsValid items
        → any (asks_for j.sku_id) items ≡ false
        → Ensures (λ d. Ready existing items d × Done d) (for_each step items) (λ _. Done)
    unfolding for_each
    keep_loop [] v other = Ensures-pure tt λ d (r, k). k
    keep_loop (item ∷ items) v other =
        Ensures-bind (λ _ d. Ready existing items d × Done d)
          (Ensures-both (Ensures-weaken (λ d (r, k). r) (λ _ d r. r) (ready item items v)) (
            Ensures-weaken (λ d (r, k). ((r.consistent.unique_ids, r.loaded.0), k)) (λ _ d k. k)
              (turns item _ _ (kept j item (ground arith)))))
          λ _. keep_loop items v.3 (ground arith)

    pub make_loop :
        (items : List ReservationItem)
        → IsValid items
        → In j items
        → Ensures (Ready existing items) (for_each step items) (λ _. Done)
    unfolding for_each
    make_loop [] v i = absurd i
    make_loop (item ∷ items) v (inl e) =
        Ensures-bind (λ _ d. Ready existing items d × Done d)
          (Ensures-both (ready item items v) (
            Ensures-weaken (λ d r. (r.consistent.unique_ids, r.loaded.0)) (λ _ d k. rw e k)
              (turns item _ _ (made item))))
          λ _. keep_loop items v.3 (rw (e, v.2))
    make_loop (item ∷ items) v (inr i) =
        Ensures-bind (λ _. Ready existing items) (ready item items v) λ _. make_loop items v.3 i
