-- ===== src/Inventory/Accounts/Held.antt =====
-- How the held amounts move when a reservation is created or settled, and that a reservation is
-- found by its id.
use mesh_cart.Base.{
  ◌≡◌, refl, ap, sym, ◌∙◌, ◌⊎◌, inl, inr, List, [], ◌∷◌, ◌++◌, true, false, some, String,
  if◌then◌else◌, Bool-cases, arith,
}
use mesh_cart.Base.Int.{ℤ, ◌+ℤ◌, ◌-ℤ◌, eq_ℤ, eq_ℤ→eq, eq_ℤ-refl, eq_ℤ-comm, int_laws}
use mesh_cart.Base.Lists.{any, find, update_where}
use mesh_cart.Base.Rows.{In, any-append, any-update_where, any-false-In, update_where-none}
use mesh_cart.Inventory.Model.{InventoryReservation, ReservationStatus}
use mesh_cart.Inventory.Reservations.{ReservationMap, index_reservations}
use mesh_cart.Inventory.Accounts.{is_live, share, held, has_id, UniqueIds}
use mesh_cart.Inventory.Accounts.Stocks.{add_to, take_from}

pub held-append :
    (k : ℤ) (rs : List InventoryReservation) (r : InventoryReservation)
    → held k (rs ++ r ∷ []) ≡ held k rs +ℤ share k r
unfolding held
held-append k [] r = omega int_laws
held-append k (x ∷ rs) r = rw (held-append k rs r) (omega int_laws)

abbrev pub settle : ReservationStatus → String → InventoryReservation → InventoryReservation
settle status payload r = record r { status = status; payload_snapshot = payload }

-- A settled reservation holds nothing any more; all others hold what they held.
pub held-settle :
    (k id : ℤ) (status : ReservationStatus) (payload : String) (rs : List InventoryReservation)
    (r : InventoryReservation)
    → UniqueIds rs
    → find (has_id id) rs ≡ some r
    → is_live status ≡ false
    → held k (update_where (has_id id) (settle status payload) rs) ≡ held k rs -ℤ share k r
unfolding held
held-settle k id status payload [] r u e dead = cc
held-settle k id status payload (x ∷ rs) r u e dead = elim (Bool-cases (has_id id x)) [
  | inl hit ↦
      let found : x ≡ r = ground arith in
      let rest : update_where (has_id id) (settle status payload) rs ≡ rs =
        update_where-none (has_id id) (settle status payload) rs
          (ap (λ i. any (has_id i) rs) (sym (eq_ℤ→eq x.id id hit)) ∙ u.0) in
      rw (hit, rest, dead, ← found) (omega int_laws)
  | inr miss ↦
      rw (miss, held-settle k id status payload rs r u.1 (ground arith) dead) (omega int_laws)
]

pub UniqueIds-append :
    (rs : List InventoryReservation) (r : InventoryReservation)
    → any (has_id r.id) rs ≡ false
    → UniqueIds rs
    → UniqueIds (rs ++ r ∷ [])
UniqueIds-append [] r h u = (refl, tt)
UniqueIds-append (x ∷ rs) r h u = (
  rw (any-append (has_id x.id) rs (r ∷ [])) (ground (arith, eq_ℤ-comm r.id x.id)),
  UniqueIds-append rs r (ground arith) u.1,
)

pub UniqueIds-settle :
    (id : ℤ) (status : ReservationStatus) (payload : String) (rs : List InventoryReservation)
    → UniqueIds rs
    → UniqueIds (update_where (has_id id) (settle status payload) rs)
UniqueIds-settle id status payload [] u = tt
UniqueIds-settle id status payload (x ∷ rs) u = (
  rw same (any-update_where (has_id x.id) (has_id id) (settle status payload) (λ _. refl) rs ∙ u.0),
  UniqueIds-settle id status payload rs u.1,
)
  where
    same : (if has_id id x then settle status payload x else x).id ≡ x.id
    same = ground arith

-- With unique ids, a row is the one that its id finds.
pub find-In :
    (rs : List InventoryReservation) (r : InventoryReservation)
    → UniqueIds rs
    → In r rs
    → find (has_id r.id) rs ≡ some r
find-In [] r u i = absurd i
find-In (x ∷ rs) r u (inl e) = rw (e, eq_ℤ-refl x.id)
find-In (x ∷ rs) r u (inr i) =
    rw (eq_ℤ-comm x.id r.id, any-false-In (has_id x.id) rs r u.0 i) (find-In rs r u.1 i)

-- A lookup in the map finds a row that was loaded, under that row's own SKU.
pub index-In :
    (m : ReservationMap) (rows : List InventoryReservation) (k : ℤ) (r : InventoryReservation)
    → index_reservations m rows k ≡ some r
    → (m k ≡ some r) ⊎ (In r rows × (r.sku_id ≡ k))
unfolding index_reservations
index-In m [] k r e = inl e
index-In m (x ∷ rows) k r e =
    elim (index-In (λ j. if eq_ℤ j x.sku_id then some x else m j) rows k r e) [
      | inr (i, s) ↦ inr (inr i, s)
      | inl h ↦ elim (Bool-cases (eq_ℤ k x.sku_id)) [
        | inl on ↦ inr (inl (ground arith), sym (ground (arith, eq_ℤ→eq k x.sku_id on)))
        | inr off ↦ inl (ground arith)
      ]
    ]

-- The held amounts after a reservation of `q` of `sku`, and after one of them is settled.
pub add_to-share :
    (sku q : ℤ) (rs : List InventoryReservation) (r : InventoryReservation)
    → is_live r.status ≡ true
    → r.sku_id ≡ sku
    → r.quantity ≡ q
    → (k : ℤ) → add_to sku q (λ j. held j rs) k ≡ held k (rs ++ r ∷ [])
add_to-share sku q rs r live es eq k = sym (
    held-append k rs r
    ∙ rw (live, es, eq, eq_ℤ-comm sku k)
        (elim (Bool-cases (eq_ℤ k sku)) [ inl on ↦ rw on | inr off ↦ rw off (omega int_laws) ]))

pub take_from-share :
    (sku q id : ℤ) (status : ReservationStatus) (payload : String) (rs : List InventoryReservation)
    (r : InventoryReservation)
    → UniqueIds rs
    → find (has_id id) rs ≡ some r
    → is_live status ≡ false
    → is_live r.status ≡ true
    → r.sku_id ≡ sku
    → r.quantity ≡ q
    → (k : ℤ)
    → take_from sku q (λ j. held j rs) k
      ≡ held k (update_where (has_id id) (settle status payload) rs)
take_from-share sku q id status payload rs r u f dead live es eq k = sym (
    held-settle k id status payload rs r u f dead
    ∙ rw (live, es, eq, eq_ℤ-comm sku k)
        (elim (Bool-cases (eq_ℤ k sku)) [ inl on ↦ rw on | inr off ↦ rw off (omega int_laws) ]))
