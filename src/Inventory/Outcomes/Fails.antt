-- ===== src/Inventory/Outcomes/Fails.antt =====
-- Queries that never succeed, and loops that meet one.
use mathlib.Core.Path.{subst}
use mesh_cart.Base.{◌≡◌, inl, inr, List, [], ◌∷◌, true}
use mesh_cart.Base.Rows.{In}
use mesh_cart.Sql.{World, Query, Result, ok, err, is_err}
use mesh_cart.Sql.Hoare.{OnOk, Ensures, Ensures-bind}
use mesh_cart.Inventory.Errors.{StockError}
use mesh_cart.Inventory.Model.{InventoryDb}
use mesh_cart.Inventory.Items.{ReservationItem}
use mesh_cart.Inventory.Reservations.{for_each}

-- A query that never succeeds.
abbrev pub Fails : {E A : Type 0} → (InventoryDb → Type 0) → Query InventoryDb E A → Type 0
Fails P m = Ensures P m (λ _ _. ⊥)

pub Ensures-any :
    {E A : Type 0} {P : InventoryDb → Type 0} (m : Query InventoryDb E A)
    → Ensures P m (λ _ _. Unit)
Ensures-any {E} {A} m = record { at = λ w h. run (m w) }
  where
    run : (r : Result E A × World InventoryDb) → OnOk (λ _ _. Unit) r
    run (ok a, w) = tt
    run (err e, w) = tt

pub Fails-never : {E A : Type 0} {m : Query InventoryDb E A} → Fails (λ _. ⊥) m
Fails-never = record { at = λ w h. absurd h }

pub Fails-err :
    {E A : Type 0} {P : InventoryDb → Type 0} {m : Query InventoryDb E A}
    → ((w : World InventoryDb) → is_err (m w).0 ≡ true)
    → Fails P m
Fails-err {E} {A} {m = m} k = record { at = λ w h. run (m w) (k w) }
  where
    run : (r : Result E A × World InventoryDb) → is_err r.0 ≡ true → OnOk (λ _ _. ⊥) r
    run (ok a, w) e = cc
    run (err e, w) h = tt

-- A loop that meets an item whose step fails.
pub for_each-Fails :
    (step : ReservationItem → Query InventoryDb StockError Unit) (j : ReservationItem)
    → Fails (λ _. Unit) (step j)
    → (items : List ReservationItem) → In j items
    → Fails (λ _. Unit) (for_each step items)
unfolding for_each
for_each-Fails step j k [] i = absurd i
for_each-Fails step j k (x ∷ items) (inl e) =
    Ensures-bind (λ _ _. ⊥) (subst (λ i. Fails (λ _. Unit) (step i)) e k) λ _. Fails-never
for_each-Fails step j k (x ∷ items) (inr i) =
    Ensures-bind (λ _ _. Unit) (Ensures-any (step x)) λ _. for_each-Fails step j k items i
