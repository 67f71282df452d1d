-- ===== src/Inventory/Outcomes/Settled.antt =====
-- The reservations of one status that a request loads.
use mathlib.Core.Path.{subst}
use mesh_cart.Base.{
  ◌≡◌, ap, sym, inl, inr, List, [], ◌∷◌, Bool, true, false, ◌&&◌, ◌||◌, Option, none, some, String,
  if◌then◌else◌, Bool-cases, arith,
}
use mesh_cart.Base.Int.{ℤ, eq_ℤ, eq_ℤ→eq, eq_ℤ_iff, eq_ℤ-comm}
use mesh_cart.Base.Lists.{any, select, mem_ℤ, All}
use mesh_cart.Base.Rows.{In, In-select, All-In, All-member}
use mesh_cart.Base.Text.{str_eq}
use mesh_cart.Inventory.Model.{InventoryReservation, ReservationStatus}
use mesh_cart.Inventory.Items.{ReservationItem}
use mesh_cart.Inventory.Items.Validation.{keys}
use mesh_cart.Inventory.Tables.{is_of_biz}
use mesh_cart.Inventory.Reservations.{ReservationMap, index_reservations}
use mesh_cart.Inventory.Outcomes.{same_status}

-- The map has a reservation of this status.
abbrev pub is_found : ReservationStatus → Option InventoryReservation → Bool
is_found s none = false
is_found s (some r) = same_status r.status s

abbrev pub of_sku : ℤ → InventoryReservation → Bool
of_sku k r = eq_ℤ r.sku_id k

module _ (s : ReservationStatus) (k : ℤ) where
  abbrev pub AllAre : List InventoryReservation → Type 0
  AllAre = All λ r. of_sku k r ≡ true → same_status r.status s ≡ true

  pub index-found :
      (m : ReservationMap) (rows : List InventoryReservation)
      → (any (of_sku k) rows || is_found s (m k)) ≡ true
      → AllAre rows
      → is_found s (index_reservations m rows k) ≡ true
  unfolding index_reservations
  index-found m [] h a = h
  index-found m (x ∷ rows) h a = elim (Bool-cases (of_sku k x)) [
    | inl on ↦
        let hit = a.0 on in
        index-found (λ j. if eq_ℤ j x.sku_id then some x else m j) rows
          (ground (arith, eq_ℤ-comm x.sku_id k)) a.1
    | inr off ↦
        index-found (λ j. if eq_ℤ j x.sku_id then some x else m j) rows
          (ground (arith, eq_ℤ-comm x.sku_id k)) a.1
  ]

  module _ (biz_type biz_id : String) where
    abbrev pub is_key : InventoryReservation → Bool
    is_key r = str_eq r.biz_type biz_type && str_eq r.biz_id biz_id && of_sku k r

    module _ (ks : List ℤ) (mem : mem_ℤ k ks ≡ true) where
      mem_of : (r : InventoryReservation) → of_sku k r ≡ true → mem_ℤ r.sku_id ks ≡ true
      mem_of r on = subst (λ j. mem_ℤ j ks ≡ true) (sym (eq_ℤ→eq r.sku_id k on)) mem

      pub any-loaded :
          (rs : List InventoryReservation)
          → any is_key rs ≡ true
          → any (of_sku k) (select (is_of_biz biz_type biz_id ks) rs) ≡ true
      any-loaded [] h = h
      any-loaded (r ∷ rs) h = ground (arith, mem_of r, any-loaded rs)

      pub All-loaded :
          (rs : List InventoryReservation)
          → All (λ r. is_key r ≡ true → same_status r.status s ≡ true) rs
          → AllAre (select (is_of_biz biz_type biz_id ks) rs)
      All-loaded rs a = All-In _ λ r i on.
          let (j, picked) = In-select (is_of_biz biz_type biz_id ks) rs r i in
          All-member _ rs r a j (ground arith)

pub mem-keys :
    (items : List ReservationItem) (j : ReservationItem)
    → In j items
    → mem_ℤ j.sku_id (keys items) ≡ true
mem-keys [] j i = absurd i
mem-keys (x ∷ items) j (inl e) =
    ground (arith, (eq_ℤ_iff j.sku_id x.sku_id).1 (ap (λ i. i.sku_id) e))
mem-keys (x ∷ items) j (inr i) = ground (arith, mem-keys items j i)
