-- ===== src/Inventory/Accounts/Settling.antt =====
-- The steps of the loops of Reserve, Release and ConfirmDeduct keep the tables consistent.
use mesh_cart.Base.{
  ◌≡◌, refl, ap, sym, ◌∙◌, inl, inr, List, [], ◌∷◌, ◌++◌, Bool, false, some, String, Bool-cases,
  arith,
}
use mesh_cart.Base.Int.{ℤ, eq_ℤ, eq_ℤ→eq, eq_ℤ_iff}
use mesh_cart.Base.Lists.{any, find, update_where, All, All-imp}
use mesh_cart.Base.Rows.{any-update_where, find-append, find-update_other}
use mesh_cart.Inventory.Model.{InventoryStock, InventoryReservation, InventoryDb, ReservationStatus}
use mesh_cart.Inventory.Items.{ReservationItem, asks_for}
use mesh_cart.Inventory.Tables.{has_sku}
use mesh_cart.Inventory.Reservations.{ReservationMap}
use mesh_cart.Inventory.Accounts.{has_id, IsCovered, IsConsistent}
use mesh_cart.Inventory.Accounts.Held.{settle}

-- What the map says of an item's SKU is what the table holds now.
abbrev pub Loaded : ReservationMap → List InventoryReservation → ReservationItem → Type 0
Loaded existing rs item =
    (r : InventoryReservation)
    → existing item.sku_id ≡ some r
    → (find (has_id r.id) rs ≡ some r) × (r.sku_id ≡ item.sku_id)

pub record Ready (existing : ReservationMap) (items : List ReservationItem) (d : InventoryDb)
    : Type 0 where
  pub consistent : IsConsistent d
  pub loaded : All (Loaded existing d.reservations) items

-- An update that keeps the SKU ids keeps what is covered.
pub update-IsCovered :
    (p : InventoryStock → Bool) (f : InventoryStock → InventoryStock)
    → ((s : InventoryStock) → (f s).sku_id ≡ s.sku_id)
    → (ss : List InventoryStock) (rs : List InventoryReservation) → All (IsCovered ss) rs
    → All (IsCovered (update_where p f ss)) rs
update-IsCovered p f k ss rs =
    All-imp (IsCovered ss) (IsCovered (update_where p f ss))
      (λ r c live.
        any-update_where (has_sku r.sku_id) p f (λ x. ap (λ i. eq_ℤ i r.sku_id) (k x)) ss ∙ c live)
      rs

module _ (existing : ReservationMap) where
  -- Settling one reservation leaves what the map says of the other SKUs' true.
  pub Loaded-settle :
      (id : ℤ) (status : ReservationStatus) (payload : String) (rs : List InventoryReservation)
      (r : InventoryReservation) (items : List ReservationItem)
      → find (has_id id) rs ≡ some r
      → any (asks_for r.sku_id) items ≡ false
      → All (Loaded existing rs) items
      → All (Loaded existing (update_where (has_id id) (settle status payload) rs)) items
  Loaded-settle id status payload rs r [] f other l = tt
  Loaded-settle id status payload rs r (i ∷ is) f other l =
      (head, Loaded-settle id status payload rs r is f (ground arith) l.1)
    where
      apart : (t : InventoryReservation) → existing i.sku_id ≡ some t → has_id id t ≡ false
      apart t e = elim (Bool-cases (has_id id t)) [
        | inr off ↦ off
        | inl on ↦
            let (found, of_sku) = l.0 t e in
            let same : find (has_id id) rs ≡ some t =
              ap (λ j. find (has_id j) rs) (sym (eq_ℤ→eq t.id id on)) ∙ found in
            ground (arith, eq_ℤ_iff i.sku_id r.sku_id)
      ]

      head : Loaded existing (update_where (has_id id) (settle status payload) rs) i
      head t e =
          let (found, of_sku) = l.0 t e in
          (
            find-update_other (has_id t.id) (has_id id) (settle status payload) (λ _. refl) rs t
                found (apart t e),
            of_sku,
          )

  pub Loaded-append :
      (rs : List InventoryReservation) (r : InventoryReservation) (items : List ReservationItem)
      → All (Loaded existing rs) items
      → All (Loaded existing (rs ++ r ∷ [])) items
  Loaded-append rs r [] l = tt
  Loaded-append rs r (i ∷ is) l = (
    (λ t e.
        let (found, of_sku) = l.0 t e in (find-append (has_id t.id) rs (r ∷ []) t found, of_sku)),
    Loaded-append rs r is l.1,
  )
