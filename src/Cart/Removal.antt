-- ===== src/Cart/Removal.antt =====
-- What updating and removing items does to the cart that a client sees.
use mathlib.Core.Path.{subst}
use mesh_cart.Base.{
  ◌≡◌, refl, sym, ap, ◌∙◌, inl, inr, List, [], ◌∷◌, Bool, true, false, Option, none, some, not,
  ◌==◌, if◌then◌else◌, Bool-cases, Option-cases, arith,
}
use mesh_cart.Base.Int.{ℤ, eq_ℤ, eq_ℤ→eq, eq_ℤ-refl}
use mesh_cart.Base.Lists.{All-imp, find, select, update_where, count_where}
use mesh_cart.Base.Rows.{In, In-find, All-In, find-true}
use mesh_cart.Base.Unique.{unique_In}
use mesh_cart.App.Time.{Time}
use mesh_cart.Sql.Hoare.{
  Ensures, Ensures-pure, Ensures-raise, Ensures-bind, Ensures-if, Ensures-map_err, Ensures-write,
  Ensures-take_row, Ensures-statement, Ensures-transaction, Ensures-weaken,
}
use mesh_cart.Cart.Model.{CartItem, driver, has_id, is_in_cart, is_item_of, is_user}
use mesh_cart.Cart.Items.{
  delete_items, updated, update_body, update_by_id, delete_by_id, clear_by_user_id,
}
use mesh_cart.Cart.View.{
  View, view, Same, put_quantity, IsCart, OnlyIt, id_of, view-update, gone_key, kept_key,
  is_in_cart-eq, both,
}
use mesh_cart.Cart.Keys.{update-IsCart, select-IsCart, only_id, find-own, same_row}
use mesh_cart.Cart.Changes.{At, Now, Now-at}

item_of-eq :
    (item_id user_id : ℤ) (x : CartItem)
    → is_item_of item_id user_id x ≡ true
    → (x.id ≡ item_id) × (x.user_id ≡ user_id)
item_of-eq item_id user_id x on =
    let (a, b) = both (eq_ℤ x.id item_id) (eq_ℤ x.user_id user_id) on in
    (eq_ℤ→eq x.id item_id a, eq_ℤ→eq x.user_id user_id b)

-- The quantity of one of the user's SKUs is set.
abbrev pub Updated : View → ℤ → ℤ → View → Type 0
Updated v user_id q v' =
    (sku_id p : ℤ) × (v user_id sku_id ≡ some p) × Same (put_quantity user_id sku_id (some q) v) v'

-- One of the user's SKUs is removed.
abbrev pub Removed : View → ℤ → View → Type 0
Removed v user_id v' =
    (sku_id p : ℤ) × (v user_id sku_id ≡ some p) × Same (put_quantity user_id sku_id none v) v'

-- All of the user's SKUs are removed.
abbrev pub Cleared : View → ℤ → View → Type 0
Cleared v user_id v' = Same (λ u k. if eq_ℤ user_id u then none else v u k) v'

module _ (xs : List CartItem) where
  -- The row that an id and a user pick.
  module _ (item_id user_id : ℤ) (e : CartItem) (c : IsCart xs)
      (there : find (is_item_of item_id user_id) xs ≡ some e) where
    abbrev its : (e.id ≡ item_id) × (e.user_id ≡ user_id)
    its = item_of-eq item_id user_id e (find-true (is_item_of item_id user_id) xs e there)

    In-rows : In e xs
    In-rows = In-find (is_item_of item_id user_id) xs e there

    held : view xs user_id e.sku_id ≡ some e.quantity
    unfolding view
    held =
        subst (λ u. view xs u e.sku_id ≡ some e.quantity) its.1
          (rw (find-own xs e c.keys In-rows) refl)

  pub update_by_id-Ensures :
      (now : Time) (user_id item_id q : ℤ) (checked : Option Bool)
      → Ensures
          (At xs)
          (update_by_id now user_id item_id q checked)
          (λ _. Now (Updated (view xs) user_id q))
  unfolding update_by_id update_body
  update_by_id-Ensures now user_id item_id q checked = Ensures-transaction driver (
      Ensures-bind (λ e d. At xs d × (find (is_item_of item_id user_id) xs ≡ some e))
        (Ensures-map_err _ (
          Ensures-weaken (λ d h. h)
            (λ e d (a, f). (a, subst (λ ys. find (is_item_of item_id user_id) ys ≡ some e) a.1 f))
            (Ensures-take_row _)))
        λ e.
          Ensures-bind (λ _. Now (Updated (view xs) user_id q))
            (Ensures-map_err _ (
              Ensures-write _ λ d ((c, same), there).
                Now-at (Updated (view xs) user_id q) (update_where (has_id item_id) f xs) _
                  (update-IsCart (has_id item_id) f (λ x. refl) (λ x. refl) (λ x. refl) xs c)
                  (seen e c there) (ap (update_where (has_id item_id) f) same)))
            λ _. Ensures-map_err _ (Ensures-weaken (λ d h. h) (λ _ d h. h.0) (Ensures-take_row _)))
    where
      f : CartItem → CartItem
      f = updated now q checked

      seen :
          (e : CartItem)
          → IsCart xs
          → find (is_item_of item_id user_id) xs ≡ some e
          → Updated
              (view xs)
              user_id
              q
              (view (update_where (has_id item_id) (updated now q checked) xs))
      seen e c there =
          let i = In-rows item_id user_id e c there in
          let (a, b) = its item_id user_id e c there in
          let g = updated now q checked in
          let changed =
            view-update (has_id e.id) e g q (λ x. refl) (λ x. refl) (λ x. refl) xs
              (only_id xs e c i) (eq_ℤ-refl e.id) (find-own xs e c.keys i) in
          (
            e.sku_id,
            e.quantity,
            held item_id user_id e c there,
            subst
                (λ id.
                  Same (put_quantity user_id e.sku_id (some q) (view xs))
                    (view (update_where (has_id id) g xs)))
                a
                (subst
                  (λ u.
                    Same (put_quantity u e.sku_id (some q) (view xs))
                      (view (update_where (has_id e.id) g xs)))
                  b changed),
          )

  none_counted :
      (p : CartItem → Bool) (ys : List CartItem) → find p ys ≡ none → count_where p ys ≡ 0
  none_counted p [] h = refl
  none_counted p (y ∷ ys) h = ground (arith, none_counted p ys)

  abbrev rest : (CartItem → Bool) → List CartItem
  rest p = select (λ y. not (p y)) xs

  deletes :
      (p : CartItem → Bool)
      → Ensures
          (At xs)
          (delete_items p)
          (λ n d. (IsCart xs × (d.items ≡ rest p)) × (n ≡ count_where p xs))
  unfolding delete_items
  deletes p =
      Ensures-statement _
        λ d (c, same). ((c, ap (select (λ y. not (p y))) same), ap (count_where p) same)

  Removed-row :
      (user_id item_id : ℤ)
      → IsCart xs
      → (count_where (is_item_of item_id user_id) xs == 0) ≡ false
      → Removed (view xs) user_id (view (rest (is_item_of item_id user_id)))
  Removed-row user_id item_id c some_row =
      elim (Option-cases (find (is_item_of item_id user_id) xs)) [
        | inl nothing ↦
            let counted = none_counted (is_item_of item_id user_id) xs nothing in
            absurd (ground arith)
        | inr (e, there) ↦ (
          e.sku_id,
          e.quantity,
          held item_id user_id e c there,
          subst
              (λ u.
                Same (put_quantity u e.sku_id none (view xs))
                  (view (rest (is_item_of item_id user_id))))
              (its item_id user_id e c there).1 (without e there),
        )
      ]
    where
      unique_row : (y e : CartItem) → In y xs → In e xs → y.id ≡ e.id → y ≡ e
      unique_row y e j i same =
          unique_In id_of xs y e c.ids j i (ap (λ k. eq_ℤ k e.id) same ∙ eq_ℤ-refl e.id)

      same_key_row :
          (y e : CartItem) → In y xs → In e xs → y.user_id ≡ e.user_id → y.sku_id ≡ e.sku_id → y ≡ e
      same_key_row y e j i a b = same_row xs y e c.keys j i a b

      only :
          (e : CartItem)
          → find (is_item_of item_id user_id) xs ≡ some e
          → OnlyIt (is_item_of item_id user_id) e xs
      only e there = All-In xs λ y j on.
          let (a, b) = item_of-eq item_id user_id y on in
          let (a', b') = its item_id user_id e c there in
          unique_row y e j (In-rows item_id user_id e c there) (a ∙ sym a')

      without :
          (e : CartItem)
          → find (is_item_of item_id user_id) xs ≡ some e
          → Same
              (put_quantity e.user_id e.sku_id none (view xs))
              (view (rest (is_item_of item_id user_id)))
      without e there u k = elim (Bool-cases (is_in_cart u k e)) [
        | inr off ↦ rw off (
            kept_key (is_item_of item_id user_id) u k xs (
              All-imp (λ y. is_item_of item_id user_id y ≡ true → y ≡ e)
                (λ y. is_item_of item_id user_id y ≡ true → is_in_cart u k y ≡ false)
                (λ y only on. ap (is_in_cart u k) (only on) ∙ off) xs (only e there)))
        | inl on ↦
            let (a, b) = is_in_cart-eq u k e on in
            let picked = find-true (is_item_of item_id user_id) xs e there in
            rw on (
              gone_key (is_item_of item_id user_id) u k xs (
                All-In xs λ y j in_cart.
                  let (a', b') = is_in_cart-eq u k y in_cart in
                  ap (is_item_of item_id user_id) (
                    same_key_row y e j (In-rows item_id user_id e c there) (a' ∙ sym a)
                      (b' ∙ sym b))
                  ∙ picked))
      ]

  pub delete_by_id-Ensures :
      (user_id item_id : ℤ)
      → Ensures (At xs) (delete_by_id user_id item_id) (λ _. Now (Removed (view xs) user_id))
  unfolding delete_by_id
  delete_by_id-Ensures user_id item_id =
      Ensures-bind _ (Ensures-map_err _ (deletes (is_item_of item_id user_id))) λ n.
        Ensures-if (n == 0) (λ h. Ensures-raise _)
          λ h. Ensures-pure _ λ d ((c, same), counted).
            Now-at (Removed (view xs) user_id) (rest (is_item_of item_id user_id)) d
              (select-IsCart (λ y. not (is_item_of item_id user_id y)) xs c)
              (Removed-row user_id item_id c (ap (λ k. k == 0) (sym counted) ∙ h)) same

  Cleared-rows : (user_id : ℤ) → Cleared (view xs) user_id (view (rest (is_user user_id)))
  Cleared-rows user_id u k = elim (Bool-cases (eq_ℤ user_id u)) [
    | inl on ↦ rw on (
        gone_key (is_user user_id) u k xs (
          All-In xs λ y j in_cart.
            let (a, b) = is_in_cart-eq u k y in_cart in
            ap (λ z. eq_ℤ z user_id) (a ∙ sym (eq_ℤ→eq user_id u on)) ∙ eq_ℤ-refl user_id))
    | inr off ↦ rw off (
        kept_key (is_user user_id) u k xs (
          All-In xs λ y j its_user. elim (Bool-cases (is_in_cart u k y)) [
            | inr apart ↦ apart
            | inl in_cart ↦
                let (a, b) = is_in_cart-eq u k y in_cart in
                let same : eq_ℤ user_id u ≡ true =
                  ap (eq_ℤ user_id) (sym a ∙ eq_ℤ→eq y.user_id user_id its_user)
                  ∙ eq_ℤ-refl user_id in
                absurd (ground arith)
          ]))
  ]

  pub clear_by_user_id-Ensures :
      (user_id : ℤ)
      → Ensures (At xs) (clear_by_user_id user_id) (λ _. Now (Cleared (view xs) user_id))
  unfolding clear_by_user_id
  clear_by_user_id-Ensures user_id =
      Ensures-bind _ (Ensures-map_err _ (deletes (is_user user_id))) λ n.
        Ensures-pure _ λ d ((c, same), counted).
          Now-at (Cleared (view xs) user_id) (rest (is_user user_id)) d
            (select-IsCart (λ y. not (is_user user_id y)) xs c) (Cleared-rows user_id) same
