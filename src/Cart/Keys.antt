-- ===== src/Cart/Keys.antt =====
-- The ids and the keys of a cart's rows stay unique, and tell the rows apart.
use mathlib.Core.Path.{subst}
use mesh_cart.Base.{
  ◌≡◌, refl, sym, ap, ◌∙◌, inl, inr, List, [], ◌∷◌, ◌++◌, Bool, true, false, some, ◌||◌,
  if◌then◌else◌, Bool-cases, arith,
}
use mesh_cart.Base.Int.{eq_ℤ-comm}
use mesh_cart.Base.Lists.{find, any, select, update_where}
use mesh_cart.Base.Rows.{In, All-In, any-append, any-update_where, any-false-In, any-false-select}
use mesh_cart.Base.Unique.{UniqueBy, UniqueBy-append, UniqueBy-update, unique_In}
use mesh_cart.Cart.Model.{CartItem, has_id, is_in_cart}
use mesh_cart.Cart.View.{
  view, Same, put_quantity, id_of, Distinct, IsCart, OnlyIt, is_in_cart-eq, is_in_cart_self,
}

Distinct-update :
    (p : CartItem → Bool) (f : CartItem → CartItem)
    → ((x : CartItem) → (f x).user_id ≡ x.user_id)
    → ((x : CartItem) → (f x).sku_id ≡ x.sku_id)
    → (xs : List CartItem) → Distinct xs
    → Distinct (update_where p f xs)
Distinct-update p f user sku [] d = tt
Distinct-update p f user sku (x ∷ xs) d = (head, Distinct-update p f user sku xs d.1)
  where
    others : any (is_in_cart x.user_id x.sku_id) (update_where p f xs) ≡ false
    others = any-update_where (is_in_cart x.user_id x.sku_id) p f (λ y. rw (user y, sku y)) xs ∙ d.0

    head :
        let y = if p x then f x else x in
        any (is_in_cart y.user_id y.sku_id) (update_where p f xs) ≡ false
    head = elim (Bool-cases (p x)) [
      | inl on ↦ rw (on, user x, sku x) others
      | inr off ↦ rw off others
    ]

pub update-IsCart :
    (p : CartItem → Bool) (f : CartItem → CartItem)
    → ((x : CartItem) → (f x).id ≡ x.id)
    → ((x : CartItem) → (f x).user_id ≡ x.user_id)
    → ((x : CartItem) → (f x).sku_id ≡ x.sku_id)
    → (xs : List CartItem) → IsCart xs
    → IsCart (update_where p f xs)
update-IsCart p f id user sku xs c = record {
  ids = UniqueBy-update id_of p f id xs c.ids;
  keys = Distinct-update p f user sku xs c.keys;
}

Distinct-append :
    (xs : List CartItem) (x : CartItem)
    → any (is_in_cart x.user_id x.sku_id) xs ≡ false
    → Distinct xs
    → Distinct (xs ++ x ∷ [])
Distinct-append [] x h d = (refl, tt)
Distinct-append (y ∷ ys) x h d = (
  ground (
    arith,
    any-append (is_in_cart y.user_id y.sku_id) ys (x ∷ []),
    eq_ℤ-comm x.user_id y.user_id,
    eq_ℤ-comm x.sku_id y.sku_id,
  ),
  Distinct-append ys x (ground arith) d.1,
)

pub split_any :
    (p q : CartItem → Bool) (xs : List CartItem)
    → any (λ y. p y || q y) xs ≡ false
    → (any p xs ≡ false) × (any q xs ≡ false)
split_any p q [] h = (refl, refl)
split_any p q (x ∷ xs) h =
    let (a, b) = split_any p q xs (ground arith) in (ground arith, ground arith)

pub append-IsCart :
    (xs : List CartItem) (x : CartItem)
    → any (λ y. has_id x.id y || is_in_cart x.user_id x.sku_id y) xs ≡ false
    → IsCart xs
    → IsCart (xs ++ x ∷ [])
append-IsCart xs x h c =
    let (a, b) = split_any (has_id x.id) (is_in_cart x.user_id x.sku_id) xs h in
    record { ids = UniqueBy-append id_of xs x a c.ids; keys = Distinct-append xs x b c.keys }

pub select-IsCart : (p : CartItem → Bool) (xs : List CartItem) → IsCart xs → IsCart (select p xs)
select-IsCart p xs c = record { ids = ids_of xs c.ids; keys = keys_of xs c.keys }
  where
    ids_of : (xs : List CartItem) → UniqueBy id_of xs → UniqueBy id_of (select p xs)
    ids_of [] u = tt
    ids_of (x ∷ xs) u = elim (Bool-cases (p x)) [
      | inl on ↦ rw on (any-false-select (has_id x.id) p xs u.0, ids_of xs u.1)
      | inr off ↦ rw off (ids_of xs u.1)
    ]

    keys_of : (xs : List CartItem) → Distinct xs → Distinct (select p xs)
    keys_of [] u = tt
    keys_of (x ∷ xs) u = elim (Bool-cases (p x)) [
      | inl on ↦ rw on (any-false-select (is_in_cart x.user_id x.sku_id) p xs u.0, keys_of xs u.1)
      | inr off ↦ rw off (keys_of xs u.1)
    ]

-- A row with the id of one that is there is that one.
pub only_id : (xs : List CartItem) (e : CartItem) → IsCart xs → In e xs → OnlyIt (has_id e.id) e xs
only_id xs e c i = All-In xs λ y j same. unique_In id_of xs y e c.ids j i same

-- The row of a key is found by it.
pub find-own :
    (xs : List CartItem) (e : CartItem)
    → Distinct xs
    → In e xs
    → find (is_in_cart e.user_id e.sku_id) xs ≡ some e
find-own [] e d i = absurd i
find-own (x ∷ xs) e d (inl same) =
    subst (λ z. find (is_in_cart z.user_id z.sku_id) (x ∷ xs) ≡ some z) (sym same)
      (rw (is_in_cart_self x) refl)
find-own (x ∷ xs) e d (inr i) = elim (Bool-cases (is_in_cart e.user_id e.sku_id x)) [
  | inr off ↦ rw off (find-own xs e d.1 i)
  | inl on ↦
      let (a, b) = is_in_cart-eq e.user_id e.sku_id x on in
      let off = any-false-In (is_in_cart x.user_id x.sku_id) xs e d.0 i in
      let self : is_in_cart x.user_id x.sku_id e ≡ true = rw (a, b) (is_in_cart_self e) in
      absurd (ground (arith, off, self))
]

-- A row with the key of one that is there is that one.
pub same_row :
    (xs : List CartItem) (y e : CartItem)
    → Distinct xs
    → In y xs
    → In e xs
    → y.user_id ≡ e.user_id
    → y.sku_id ≡ e.sku_id
    → y ≡ e
same_row xs y e d j i a b = some_eq y e (
    sym (find-own xs y d j)
    ∙ ap (λ u. find (is_in_cart u y.sku_id) xs) a
    ∙ ap (λ k. find (is_in_cart e.user_id k) xs) b
    ∙ find-own xs e d i)
  where
    some_eq : (x y : CartItem) → some x ≡ some y → x ≡ y
    some_eq x y e = ground arith

-- A new row brings its quantity.
pub view-append :
    (xs : List CartItem) (x : CartItem)
    → any (is_in_cart x.user_id x.sku_id) xs ≡ false
    → Same (put_quantity x.user_id x.sku_id (some x.quantity) (view xs)) (view (xs ++ x ∷ []))
unfolding view
view-append [] x h u k = elim (Bool-cases (is_in_cart u k x)) [
  | inl on ↦ rw on refl
  | inr off ↦ rw off refl
]
view-append (y ∷ ys) x h u k = elim (Bool-cases (is_in_cart u k y)) [
  | inr off ↦ rw off (view-append ys x (ground arith) u k)
  | inl on ↦ elim (Bool-cases (is_in_cart u k x)) [
    | inr apart ↦ rw (on, apart) refl
    | inl same ↦
        let (a, b) = is_in_cart-eq u k x same in
        let self : is_in_cart x.user_id x.sku_id y ≡ true = rw (a, b) on in
        absurd (ground (arith, self))
  ]
]
