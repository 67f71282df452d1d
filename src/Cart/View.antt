-- ===== src/Cart/View.antt =====
-- The cart as a client sees it, a quantity for each user and SKU, and what a change of the rows does to
-- it.
use mathlib.Core.Path.{subst}
use mesh_cart.Base.{
  ◌≡◌, refl, ap, ◌∙◌, inl, inr, List, [], ◌∷◌, Bool, true, false, Option, none, some, not, ◌&&◌,
  if◌then◌else◌, Bool-cases, arith,
}
use mesh_cart.Base.Int.{ℤ, eq_ℤ, eq_ℤ→eq, eq_ℤ-refl}
use mesh_cart.Base.Lists.{All, find, any, select, update_where}
use mesh_cart.Base.Unique.{UniqueBy}
use mesh_cart.Cart.Model.{CartItem, is_in_cart}

abbrev pub View : Type 0
View = ℤ → ℤ → Option ℤ

abbrev pub quantity_of : Option CartItem → Option ℤ
quantity_of none = none
quantity_of (some x) = some x.quantity

unfoldable pub view : List CartItem → ℤ → ℤ → Option ℤ
view xs user_id sku_id = quantity_of (find (is_in_cart user_id sku_id) xs)

abbrev pub Same : View → View → Type 0
Same v v' = (user_id sku_id : ℤ) → v' user_id sku_id ≡ v user_id sku_id

abbrev pub put_quantity : ℤ → ℤ → Option ℤ → View → View
put_quantity user_id sku_id o v u k = if eq_ℤ user_id u && eq_ℤ sku_id k then o else v u k

abbrev pub id_of : CartItem → ℤ
id_of x = x.id

-- No two rows are of one user and SKU.
abbrev pub Distinct : List CartItem → Type 0
Distinct [] = Unit
Distinct (x ∷ xs) = (any (is_in_cart x.user_id x.sku_id) xs ≡ false) × Distinct xs

pub record IsCart (xs : List CartItem) : Type 0 where
  pub ids : UniqueBy id_of xs
  pub keys : Distinct xs

pub both : (a b : Bool) → (a && b) ≡ true → (a ≡ true) × (b ≡ true)
both true true e = (refl, refl)
both true false e = absurd (ground arith)
both false b e = absurd (ground arith)

-- Rows of the same key.
pub is_in_cart-eq :
    (u k : ℤ) (x : CartItem) → is_in_cart u k x ≡ true → (x.user_id ≡ u) × (x.sku_id ≡ k)
is_in_cart-eq u k x on =
    let (a, b) = both (eq_ℤ x.user_id u) (eq_ℤ x.sku_id k) on in
    (eq_ℤ→eq x.user_id u a, eq_ℤ→eq x.sku_id k b)

pub is_in_cart_self : (x : CartItem) → is_in_cart x.user_id x.sku_id x ≡ true
is_in_cart_self x = ground (arith, eq_ℤ-refl x.user_id, eq_ℤ-refl x.sku_id)

-- The row that was found, and the rows that a condition on it picks.
module _ (p : CartItem → Bool) (e : CartItem) where
  abbrev pub OnlyIt : List CartItem → Type 0
  OnlyIt xs = All (λ y. p y ≡ true → y ≡ e) xs

  module _ (f : CartItem → CartItem) (q : ℤ) (user : (x : CartItem) → (f x).user_id ≡ x.user_id)
      (sku : (x : CartItem) → (f x).sku_id ≡ x.sku_id)
      (set : (x : CartItem) → (f x).quantity ≡ q) where
    same_key : (u k : ℤ) (x : CartItem) → is_in_cart u k (f x) ≡ is_in_cart u k x
    same_key u k x = rw (user x, sku x)

    at_key :
        (u k : ℤ) (xs : List CartItem)
        → p e ≡ true
        → find (is_in_cart u k) xs ≡ some e
        → view (update_where p f xs) u k ≡ some q
    unfolding view
    at_key u k [] picked h = absurd (ground arith)
    at_key u k (x ∷ xs) picked h = elim (Bool-cases (is_in_cart u k x)) [
      | inl on ↦
          let same : x ≡ e = ground arith in
          let picks : p x ≡ true = ap p same ∙ picked in
          rw (picks, same_key u k x, on) (ap some (set x))
      | inr off ↦ elim (Bool-cases (p x)) [
        | inl yes_p ↦ rw (yes_p, same_key u k x, off) (at_key u k xs picked (ground arith))
        | inr no_p ↦ rw (no_p, off) (at_key u k xs picked (ground arith))
      ]
    ]

    off_key :
        (u k : ℤ) (xs : List CartItem)
        → OnlyIt xs
        → is_in_cart u k e ≡ false
        → view (update_where p f xs) u k ≡ view xs u k
    unfolding view
    off_key u k [] only off = refl
    off_key u k (x ∷ xs) only off = elim (Bool-cases (p x)) [
      | inl yes_p ↦
          let not_x : is_in_cart u k x ≡ false = ap (is_in_cart u k) (only.0 yes_p) ∙ off in
          rw (yes_p, same_key u k x, not_x) (off_key u k xs only.1 off)
      | inr no_p ↦ elim (Bool-cases (is_in_cart u k x)) [
        | inl on ↦ rw (no_p, on) refl
        | inr off_x ↦ rw (no_p, off_x) (off_key u k xs only.1 off)
      ]
    ]

    -- The row takes the new quantity, and nothing else changes.
    pub view-update :
        (xs : List CartItem)
        → OnlyIt xs
        → p e ≡ true
        → find (is_in_cart e.user_id e.sku_id) xs ≡ some e
        → Same (put_quantity e.user_id e.sku_id (some q) (view xs)) (view (update_where p f xs))
    view-update xs only picked there u k = elim (Bool-cases (is_in_cart u k e)) [
      | inl on ↦
          let (a, b) = is_in_cart-eq u k e on in
          rw on (
            subst (λ u'. view (update_where p f xs) u' k ≡ some q) a
              (subst (λ k'. view (update_where p f xs) e.user_id k' ≡ some q) b
                (at_key e.user_id e.sku_id xs picked there)))
      | inr off ↦ rw off (off_key u k xs only off)
    ]

-- Removing all rows of a key.
pub gone_key :
    (p : CartItem → Bool) (u k : ℤ) (xs : List CartItem)
    → All (λ y. is_in_cart u k y ≡ true → p y ≡ true) xs
    → view (select (λ y. not (p y)) xs) u k ≡ none
unfolding view
gone_key p u k [] a = refl
gone_key p u k (x ∷ xs) a = elim (Bool-cases (p x)) [
  | inl yes_p ↦ rw yes_p (gone_key p u k xs a.1)
  | inr no_p ↦
      let off : is_in_cart u k x ≡ false = elim (Bool-cases (is_in_cart u k x)) [
        | inl on ↦ absurd (ground (arith, a.0 on))
        | inr off ↦ off
      ] in
      rw (no_p, off) (gone_key p u k xs a.1)
]

-- Removing rows that are of other keys.
pub kept_key :
    (p : CartItem → Bool) (u k : ℤ) (xs : List CartItem)
    → All (λ y. p y ≡ true → is_in_cart u k y ≡ false) xs
    → view (select (λ y. not (p y)) xs) u k ≡ view xs u k
unfolding view
kept_key p u k [] a = refl
kept_key p u k (x ∷ xs) a = elim (Bool-cases (p x)) [
  | inl yes_p ↦ rw (yes_p, a.0 yes_p) (kept_key p u k xs a.1)
  | inr no_p ↦ elim (Bool-cases (is_in_cart u k x)) [
    | inl on ↦ rw (no_p, on) refl
    | inr off ↦ rw (no_p, off) (kept_key p u k xs a.1)
  ]
]
