-- ===== src/Inventory/Outcomes/Rows.antt =====
-- Rows of the table of reservations that an update by id settles, or leaves alone.
use mathlib.Core.Path.{subst}
use mesh_cart.Base.{◌≡◌, inl, inr, List, [], ◌∷◌, true, false, some, Bool-cases, arith}
use mesh_cart.Base.Int.{ℤ, eq_ℤ→eq}
use mesh_cart.Base.Lists.{any, find, All}
use mesh_cart.Inventory.Model.{InventoryReservation}
use mesh_cart.Inventory.Accounts.{has_id, UniqueIds}

-- The id picks the row that a lookup by it finds, and no other.
pub found_only :
    (id : ℤ) (rs : List InventoryReservation) (r : InventoryReservation)
    → UniqueIds rs
    → find (has_id id) rs ≡ some r
    → All (λ x. has_id id x ≡ true → x ≡ r) rs
found_only id [] r u e = tt
found_only id (x ∷ rs) r u e = elim (Bool-cases (has_id id x)) [
  | inr off ↦ ((λ on. cc), found_only id rs r u.1 (ground arith))
  | inl on ↦ (
    (λ _. ground arith),
    none_more rs (subst (λ k. any (has_id k) rs ≡ false) (eq_ℤ→eq x.id id on) u.0),
  )
]
  where
    none_more :
        (ys : List InventoryReservation)
        → any (has_id id) ys ≡ false
        → All (λ y. has_id id y ≡ true → y ≡ r) ys
    none_more = elim [
      | [] ↦ λ h. tt
      | y ∷ (ys → ih) ↦ λ h. ((λ on. absurd (ground arith)), ih (ground arith))
    ]
