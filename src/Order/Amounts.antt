-- ===== src/Order/Amounts.antt =====
-- The amounts of an order: what its snapshots are taken from, and what they add up to.
use mathlib.Core.Path.{subst}
use mesh_cart.Base.{◌≡◌, refl, sym, ap, ◌∙◌, List, [], ◌∷◌, Option, none, some, arith}
use mesh_cart.Base.Int.{ℤ, pos, negsuc, ◌+ℤ◌, ◌*ℤ◌, ◌≤ℤ◌, wrap64, wrap64-eq, IsInt64, int_laws}
use mesh_cart.Base.Lists.{All}
use mesh_cart.Base.Maps.{get}
use mesh_cart.Sql.{Result, ok, err}
use mesh_cart.App.Errors.{BizError}
use mesh_cart.Order.Service.{ProductSku, Product}
use mesh_cart.Order.Service.Items.{
  OrderItemInput, ValidatedOrderItem, Snapshots, item_snapshot, snapshot, cons_snapshot,
  add_snapshot, subtotal_of, build_snapshots,
}

-- The snapshot is of the item, at the SKU's price.
abbrev pub IsOf : List (ℤ × ProductSku) → OrderItemInput → ValidatedOrderItem → Type 0
IsOf skus i v =
    (s : ProductSku) × (get i.sku_id skus ≡ some s)
    × (v.sku_id ≡ i.sku_id)
    × (v.quantity ≡ i.quantity)
    × (v.sale_price_snapshot ≡ s.sale_price)
    × (v.subtotal_amount ≡ wrap64 (s.sale_price *ℤ i.quantity))

-- One snapshot for each item, in their order.
abbrev pub AreOf :
    List (ℤ × ProductSku) → List (Option OrderItemInput) → List ValidatedOrderItem → Type 0
AreOf skus [] [] = Unit
AreOf skus [] (v ∷ vs) = ⊥
AreOf skus (i ∷ is) [] = ⊥
AreOf skus (none ∷ is) (v ∷ vs) = ⊥
AreOf skus (some i ∷ is) (v ∷ vs) = IsOf skus i v × AreOf skus is vs

-- The exact amount.
abbrev pub exact_total : List ValidatedOrderItem → ℤ
exact_total [] = pos 0
exact_total (v ∷ vs) = v.sale_price_snapshot *ℤ v.quantity +ℤ exact_total vs

abbrev pub IsPriced : ValidatedOrderItem → Type 0
IsPriced v = pos 0 ≤ℤ v.sale_price_snapshot *ℤ v.quantity

module _ (skus : List (ℤ × ProductSku)) (products : List (ℤ × Product)) where
  abbrev Step : ℤ → OrderItemInput → List (Option OrderItemInput) → Snapshots → Type 0
  Step total i is s =
      (v : ValidatedOrderItem) × IsOf skus i v
      × ((r : Snapshots) × (build_snapshots skus products (wrap64 (total +ℤ v.subtotal_amount)) is
            ≡ ok r)
          × (s.items ≡ v ∷ r.items)
          × (s.total ≡ r.total))

  first :
      (total : ℤ) (i : OrderItemInput) (is : List (Option OrderItemInput)) (s : Snapshots)
      → build_snapshots skus products total (some i ∷ is) ≡ ok s
      → Step total i is s
  unfolding build_snapshots
  first total i is s e = by_sku (get i.sku_id skus) refl (get i.product_id products) e
    where
      by_rest :
          (k : ProductSku) (p : Product)
          → get i.sku_id skus ≡ some k
          → (r : Result BizError Snapshots)
          → build_snapshots skus products (wrap64 (total +ℤ (snapshot i k p).subtotal_amount)) is
            ≡ r
          → cons_snapshot (snapshot i k p) r ≡ ok s
          → Step total i is s
      by_rest k p f (err x) h e = absurd (ground arith)
      by_rest k p f (ok r) h e =
          (snapshot i k p, (k, f, refl, refl, refl, refl), (r, h, ground arith, ground arith))

      by_sku :
          (o : Option ProductSku)
          → get i.sku_id skus ≡ o
          → (q : Option Product)
          → add_snapshot (item_snapshot i o q) (
              build_snapshots skus products
                (wrap64 (total +ℤ subtotal_of (item_snapshot i o q)))
                is)
            ≡ ok s
          → Step total i is s
      by_sku none f q e = absurd (ground arith)
      by_sku (some k) f none e = absurd (ground arith)
      by_sku (some k) f (some p) e = by_rest k p f _ refl e

  -- Where the snapshots of the requested items are built, from any amount on, there is one for
  -- each item in their order, with its SKU and quantity, at the SKU's price, and with price times
  -- quantity, in 64 bits, as its subtotal.
  pub build_snapshots-AreOf :
      (total : ℤ) (items : List (Option OrderItemInput)) (s : Snapshots)
      → build_snapshots skus products total items ≡ ok s
      → AreOf skus items s.items
  unfolding build_snapshots
  build_snapshots-AreOf total [] s e = subst (AreOf skus []) (nothing e) tt
    where
      ended : Result BizError Snapshots
      ended = ok (record { items = []; total = total })

      nothing : ended ≡ ok s → [] ≡ s.items
      nothing e = ground arith
  build_snapshots-AreOf total (none ∷ items) s e = absurd (ground arith)
  build_snapshots-AreOf total (some i ∷ items) s e =
      let (v, of_i, (r, rest, same, _)) = first total i items s e in
      subst (AreOf skus (some i ∷ items)) (sym same)
        (of_i, build_snapshots-AreOf (wrap64 (total +ℤ v.subtotal_amount)) items r rest)

-- Parts of a sum that fits an int64 fit one.
parts_fit :
    (t q r : ℤ)
    → pos 0 ≤ℤ t
    → pos 0 ≤ℤ q
    → pos 0 ≤ℤ r
    → IsInt64 (t +ℤ (q +ℤ r))
    → IsInt64 q × IsInt64 (t +ℤ q) × (pos 0 ≤ℤ t +ℤ q)
unfolding ◌+ℤ◌
parts_fit (pos t) (pos q) (pos r) a b c h = ground arith
parts_fit (negsuc t) q r a b c h = absurd (omega arith)
parts_fit (pos t) (negsuc q) r a b c h = absurd (omega arith)
parts_fit (pos t) (pos q) (negsuc r) a b c h = absurd (omega arith)

exact_total_nonneg : (vs : List ValidatedOrderItem) → All IsPriced vs → pos 0 ≤ℤ exact_total vs
exact_total_nonneg [] a = omega arith
exact_total_nonneg (v ∷ vs) a =
    let rest = exact_total_nonneg vs a.1 in
    sum_nonneg (v.sale_price_snapshot *ℤ v.quantity) (exact_total vs) a.0 rest
  where
    sum_nonneg : (q r : ℤ) → pos 0 ≤ℤ q → pos 0 ≤ℤ r → pos 0 ≤ℤ q +ℤ r
    sum_nonneg q r a b = omega int_laws

abbrev ok_of : Snapshots → Result BizError Snapshots
ok_of s = ok s

abbrev or_empty : Result BizError Snapshots → Snapshots
or_empty (ok s) = s
or_empty (err e) = record { items = []; total = pos 0 }

add_total : (t q r : ℤ) → (t +ℤ q) +ℤ r ≡ t +ℤ (q +ℤ r)
add_total t q r = omega int_laws

add_zero : (t : ℤ) → t ≡ t +ℤ pos 0
add_zero t = omega int_laws

ok_inj : (a b : Snapshots) → ok_of a ≡ ok b → a ≡ b
ok_inj a b e = ap or_empty e

-- The total of snapshots that were built from an amount `total` is exact, if it fits an int64.
total_exact :
    (skus : List (ℤ × ProductSku)) (products : List (ℤ × Product)) (total : ℤ)
    (items : List (Option OrderItemInput)) (s : Snapshots)
    → build_snapshots skus products total items ≡ ok s
    → pos 0 ≤ℤ total
    → All IsPriced s.items
    → IsInt64 (total +ℤ exact_total s.items)
    → s.total ≡ total +ℤ exact_total s.items
unfolding build_snapshots
total_exact skus products total [] s e n a f =
    subst (λ x. x.total ≡ total +ℤ exact_total x.items)
      (ok_inj (record { items = []; total = total }) s e) (add_zero total)
total_exact skus products total (none ∷ items) s e n a f = absurd (ground arith)
total_exact skus products total (some i ∷ items) s e n a f =
    let (v, (k, _, _, eq, ep, es), (r, rest, same, st)) = first skus products total i items s e in
    let b : All IsPriced (v ∷ r.items) = subst (All IsPriced) same a in
    let q = v.sale_price_snapshot *ℤ v.quantity in
    let g : IsInt64 (total +ℤ (q +ℤ exact_total r.items)) =
      subst (λ vs. IsInt64 (total +ℤ exact_total vs)) same f in
    let (fits, sum_fits, sum_nonneg) =
      parts_fit total q (exact_total r.items) n b.0 (exact_total_nonneg r.items b.1) g in
    let sub : v.subtotal_amount ≡ q =
      es
      ∙ ap (λ x. wrap64 (x *ℤ i.quantity)) (sym ep)
      ∙ ap (λ x. wrap64 (v.sale_price_snapshot *ℤ x)) (sym eq)
      ∙ wrap64-eq q fits in
    let next : wrap64 (total +ℤ v.subtotal_amount) ≡ total +ℤ q =
      ap (λ x. wrap64 (total +ℤ x)) sub ∙ wrap64-eq (total +ℤ q) sum_fits in
    let ih =
      total_exact skus products (total +ℤ q) items r
        (subst (λ t. build_snapshots skus products t items ≡ ok r) next rest) sum_nonneg b.1
        (subst IsInt64 (sym (add_total total q (exact_total r.items))) g) in
    st
    ∙ ih
    ∙ add_total total q (exact_total r.items)
    ∙ ap (λ vs. total +ℤ exact_total vs) (sym same)

-- Where the snapshots are built, no price times quantity is negative, and the exact sum of these
-- fits an int64, the total is that sum, though it is computed with wrap-around.
pub build_snapshots_exact :
    (skus : List (ℤ × ProductSku)) (products : List (ℤ × Product))
    (items : List (Option OrderItemInput)) (s : Snapshots)
    → build_snapshots skus products (pos 0) items ≡ ok s
    → All IsPriced s.items
    → IsInt64 (exact_total s.items)
    → s.total ≡ exact_total s.items
build_snapshots_exact skus products items s e a f =
    total_exact skus products (pos 0) items s e (omega arith) a
      (subst IsInt64 (zero_add (exact_total s.items)) f)
    ∙ sym (zero_add (exact_total s.items))
  where
    zero_add : (t : ℤ) → t ≡ pos 0 +ℤ t
    zero_add t = omega int_laws
