-- ===== src/Inventory/Items/Validation.antt =====
-- What `sortReservationItems` and `validateReservationItems` let through.
use mesh_cart.Base.{
  ◌≡◌, refl, ap, sym, ◌∙◌, ◌↔◌, List, [], ◌∷◌, true, false, ◌||◌, map, arith, if◌then◌else◌,
}
use mesh_cart.Base.Int.{ℤ, pos, ◌≤ℤ◌, leb_ℤ, eq_ℤ_iff}
use mesh_cart.Base.Lists.{any, is_empty, mem_ℤ, All}
use mesh_cart.Sql.{Result, ok, err}
use mesh_cart.Inventory.Errors.{StockError, invalid_quantity, reservation_conflict}
use mesh_cart.Inventory.Items.{
  ReservationItem, cons_id, validate_from, validate_reservation_items, asks_for, IsValid,
}

abbrev pub keys : List ReservationItem → List ℤ
keys = map λ i. i.sku_id

abbrev Passes : List ℤ → ReservationItem → List ReservationItem → List ℤ → Type 0
Passes seen i is ks =
    (pos 1 ≤ℤ i.sku_id)
    × (pos 1 ≤ℤ i.quantity)
    × (mem_ℤ i.sku_id seen ≡ false)
    × ((js : List ℤ) × (validate_from (i.sku_id ∷ seen) is ≡ ok js) × (ks ≡ i.sku_id ∷ js))

-- What a successful check of the first item says.
validate_first :
    (seen : List ℤ) (i : ReservationItem) (is : List ReservationItem) (ks : List ℤ)
    → validate_from seen (i ∷ is) ≡ ok ks
    → Passes seen i is ks
unfolding validate_from
validate_first seen i is ks e = by_rest (validate_from (i.sku_id ∷ seen) is) refl e
  where
    by_rest :
        (r : Result StockError (List ℤ))
        → validate_from (i.sku_id ∷ seen) is ≡ r
        → (if leb_ℤ i.sku_id (pos 0) || leb_ℤ i.quantity (pos 0)
            then err invalid_quantity
            else if mem_ℤ i.sku_id seen
            then err reservation_conflict
            else cons_id i.sku_id r)
          ≡ ok ks
        → Passes seen i is ks
    by_rest (ok js) h e = (ground arith, ground arith, ground arith, (js, h, ground arith))
    by_rest (err x) h e = absurd (ground arith)

validate_from-unseen :
    (seen : List ℤ) (items : List ReservationItem) (ks : List ℤ) (k : ℤ)
    → validate_from seen items ≡ ok ks
    → mem_ℤ k seen ≡ true
    → any (asks_for k) items ≡ false
validate_from-unseen seen [] ks k e m = refl
validate_from-unseen seen (i ∷ is) ks k e m =
    let (_, _, fresh, (js, rest, _)) = validate_first seen i is ks e in
    ground (
      arith,
      validate_from-unseen (i.sku_id ∷ seen) is js k rest (ground arith),
      eq_ℤ_iff i.sku_id k,
    )

validate_from-IsValid :
    (seen : List ℤ) (items : List ReservationItem) (ks : List ℤ)
    → validate_from seen items ≡ ok ks
    → IsValid items × (ks ≡ keys items)
unfolding validate_from
validate_from-IsValid seen [] ks e = (tt, ground arith)
validate_from-IsValid seen (i ∷ is) ks e =
    let (a, b, fresh, (js, rest, same)) = validate_first seen i is ks e in
    let (v, eq) = validate_from-IsValid (i.sku_id ∷ seen) is js rest in
    (
      (
        a,
        b,
        validate_from-unseen (i.sku_id ∷ seen) is js i.sku_id rest
            (ground (arith, eq_ℤ_iff i.sku_id i.sku_id)),
        v,
      ),
      rw (same, eq),
    )

fresh_after :
    (seen : List ℤ) (k : ℤ) (is : List ReservationItem)
    → any (asks_for k) is ≡ false
    → All (λ i. mem_ℤ i.sku_id seen ≡ false) is
    → All (λ i. mem_ℤ i.sku_id (k ∷ seen) ≡ false) is
fresh_after seen k [] h a = tt
fresh_after seen k (i ∷ is) h a = (ground arith, fresh_after seen k is (ground arith) a.1)

validate_from_complete :
    (seen : List ℤ) (items : List ReservationItem)
    → IsValid items
    → All (λ i. mem_ℤ i.sku_id seen ≡ false) items
    → validate_from seen items ≡ ok (keys items)
unfolding validate_from
validate_from_complete seen [] v a = refl
validate_from_complete seen (i ∷ is) v a =
    ground (
      arith,
      validate_from_complete (i.sku_id ∷ seen) is v.3 (fresh_after seen i.sku_id is v.2 a.1),
    )

unseen_at_start : (items : List ReservationItem) → All (λ i. mem_ℤ i.sku_id [] ≡ false) items
unseen_at_start [] = tt
unseen_at_start (i ∷ is) = (refl, unseen_at_start is)

-- Validation lets a list of items through exactly when it has an item, every item has a positive
-- SKU id and a positive quantity, and no SKU stands in it twice; it then returns the SKU ids in
-- the order of the items.
pub validate_iff :
    (items : List ReservationItem) (ks : List ℤ)
    → (validate_reservation_items items ≡ ok ks)
      ↔ ((is_empty items ≡ false) × IsValid items × (ks ≡ keys items))
unfolding validate_reservation_items
validate_iff [] ks = ((λ e. cc), (λ h. cc h.0))
validate_iff (i ∷ is) ks = (
  (λ e. let (v, eq) = validate_from-IsValid [] (i ∷ is) ks e in (refl, v, eq)),
  (λ h. validate_from_complete [] (i ∷ is) h.1 (unseen_at_start (i ∷ is)) ∙ ap ok (sym h.2)),
)
