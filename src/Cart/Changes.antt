-- ===== src/Cart/Changes.antt =====
-- What the repository's methods do to the cart that a client sees.
use mathlib.Core.Path.{subst}
use mesh_cart.Base.{
  ◌≡◌, refl, sym, ap, inl, inr, List, [], ◌∷◌, ◌++◌, Bool, false, Option, none, some, ◌||◌,
  if◌then◌else◌, Bool-cases, arith,
}
use mesh_cart.Base.Int.{ℤ, pos, ◌+ℤ◌, wrap32, eq_ℤ, eq_ℤ-refl}
use mesh_cart.Base.Lists.{find, any, update_where}
use mesh_cart.Base.Rows.{In-find, find-true}
use mesh_cart.App.Time.{Time}
use mesh_cart.Sql.{Fault, record_not_found, duplicate_key, Result, ok, err, take_row, attempt}
use mesh_cart.Sql.Hoare.{
  OnRows, Ensures, Ensures-pure, Ensures-raise, Ensures-bind, Ensures-map_err, Ensures-write,
  Ensures-take_row, Ensures-statement, Ensures-transaction, Ensures-weaken, Ensures-given,
  Ensures-attempt, Keeps-take_row,
}
use mesh_cart.Cart.Model.{CartItem, CartDb, CartError, driver, has_id, is_in_cart}
use mesh_cart.Cart.Items.{
  insert_item, accumulated, accumulate, stamped, create_item, add_found, add_body,
  add_or_accumulate,
}
use mesh_cart.Cart.View.{View, view, Same, put_quantity, IsCart, view-update, is_in_cart-eq}
use mesh_cart.Cart.Keys.{update-IsCart, append-IsCart, only_id, find-own, view-append, split_any}

-- The rows are those of before, which make a cart.
abbrev pub At : List CartItem → CartDb → Type 0
At xs d = IsCart xs × (d.items ≡ xs)

-- The rows make a cart, whose view is the one of before, changed so.
abbrev pub Now : (View → Type 0) → CartDb → Type 0
Now Q d = IsCart d.items × Q (view d.items)

pub Now-at :
    (Q : View → Type 0) (xs : List CartItem) (d : CartDb)
    → IsCart xs
    → Q (view xs)
    → d.items ≡ xs
    → Now Q d
Now-at Q xs d c q e = subst (λ ys. IsCart ys × Q (view ys)) (sym e) (c, q)

-- A sum where there is a quantity already.
unfoldable pub add_quantity : Option ℤ → ℤ → Option ℤ
add_quantity none q = some q
add_quantity (some p) q = some (wrap32 (p +ℤ q))

abbrev pub Added : ℤ → ℤ → ℤ → View → View → Type 0
Added user_id sku_id q v v' =
    Same (put_quantity user_id sku_id (add_quantity (v user_id sku_id) q) v) v'

module _ (now : Time) (item : CartItem) (xs : List CartItem)
    (positive : eq_ℤ item.quantity (pos 0) ≡ false) where
  abbrev Is : View → Type 0
  Is = Added item.user_id item.sku_id item.quantity (view xs)

  abbrev is_keyed : CartItem → Bool
  is_keyed = is_in_cart item.user_id item.sku_id

  accumulates :
      (e : CartItem)
      → find is_keyed xs ≡ some e
      → Ensures (At xs) (accumulate now item e) (λ _. Now Is)
  unfolding accumulate view add_quantity
  accumulates e there =
      Ensures-bind (λ _. Now Is)
        (Ensures-map_err _ (
          Ensures-write _ λ d (c, same).
            Now-at Is (update_where (has_id e.id) f xs) _ (kept c) (seen c)
              (ap (update_where (has_id e.id) f) same)))
        λ _. Ensures-map_err _ (Ensures-weaken (λ d h. h) (λ _ d h. h.0) (Ensures-take_row _))
    where
      f : CartItem → CartItem
      f = accumulated now item e.quantity

      kept : IsCart xs → IsCart (update_where (has_id e.id) (accumulated now item e.quantity) xs)
      kept c =
          update-IsCart (has_id e.id) (accumulated now item e.quantity) (λ x. refl) (λ x. refl)
            (λ x. refl) xs c

      sum : add_quantity (view xs item.user_id item.sku_id) item.quantity ≡ some (f e).quantity
      sum = rw there

      seen : IsCart xs → Is (view (update_where (has_id e.id) (accumulated now item e.quantity) xs))
      seen c =
          let i = In-find is_keyed xs e there in
          let (a, b) = is_in_cart-eq item.user_id item.sku_id e (find-true is_keyed xs e there) in
          let changed =
            view-update (has_id e.id) e (accumulated now item e.quantity) (f e).quantity (λ x. refl)
              (λ x. refl) (λ x. refl) xs (only_id xs e c i) (eq_ℤ-refl e.id)
              (find-own xs e c.keys i) in
          let to : View = view (update_where (has_id e.id) (accumulated now item e.quantity) xs) in
          subst (λ o. Same (put_quantity item.user_id item.sku_id o (view xs)) to) (sym sum)
            (subst (λ k. Same (put_quantity item.user_id k (some (f e).quantity) (view xs)) to) b
              (subst (λ u. Same (put_quantity u e.sku_id (some (f e).quantity) (view xs)) to) a
                changed))

  no_row : (ys : List CartItem) → any is_keyed ys ≡ false → find is_keyed ys ≡ none
  no_row [] h = refl
  no_row (y ∷ ys) h = ground (arith, no_row ys)

  creates : Ensures (At xs) (create_item now item) (λ _. Now Is)
  unfolding create_item insert_item view add_quantity
  creates =
      Ensures-bind (λ _. Now Is)
        (Ensures-map_err _ (Ensures-statement _ λ d (c, same). added d c same))
        λ _. Ensures-pure _ λ d h. h
    where
      absent :
          find is_keyed xs ≡ none
          → add_quantity (view xs item.user_id item.sku_id) item.quantity
            ≡ some (stamped now item).quantity
      absent nothing = rw (nothing, positive)

      seen : any is_keyed xs ≡ false → Is (view (xs ++ stamped now item ∷ []))
      seen free =
          subst
            (λ o.
              Same (put_quantity item.user_id item.sku_id o (view xs))
                (view (xs ++ stamped now item ∷ [])))
            (sym (absent (no_row xs free))) (view-append xs (stamped now item) free)

      added :
          (d : CartDb)
          → IsCart xs
          → d.items ≡ xs
          → OnRows
              (λ _. Now Is)
              (if any (λ y. has_id item.id y || is_keyed y) d.items
                then (err duplicate_key, d)
                else (ok tt, record d { items = d.items ++ stamped now item ∷ [] }))
      added d c same = elim (Bool-cases (any (λ y. has_id item.id y || is_keyed y) d.items)) [
        | inl clash ↦ rw clash tt
        | inr free ↦
            let free' : any (λ y. has_id item.id y || is_keyed y) xs ≡ false =
              subst (λ ys. any (λ y. has_id item.id y || is_keyed y) ys ≡ false) same free in
            rw free (
              Now-at Is (xs ++ stamped now item ∷ []) _
                (append-IsCart xs (stamped now item) free' c)
                (seen (split_any (has_id item.id) is_keyed xs free').1)
                (ap (λ ys. ys ++ stamped now item ∷ []) same))
      ]

  abbrev Looked : Result Fault CartItem → CartDb → Type 0
  Looked (ok e) d = At xs d × (find is_keyed xs ≡ some e)
  Looked (err f) d = At xs d

  looks :
      Ensures
        (At xs)
        (attempt {E = Fault} {F = CartError} (take_row λ d. find is_keyed d.items))
        Looked
  looks =
      Ensures-attempt Looked (Keeps-take_row _)
        (Ensures-weaken (λ d h. h)
          (λ e d (a, f). (a, subst (λ ys. find is_keyed ys ≡ some e) a.1 f)) (Ensures-take_row _))
        (λ e d a. a)

  adds_found : (r : Result Fault CartItem) → Ensures (Looked r) (add_found now item r) (λ _. Now Is)
  unfolding add_found
  adds_found (ok e) = Ensures-given (accumulates e)
  adds_found (err record_not_found) = creates
  adds_found (err duplicate_key) = Ensures-raise _
  adds_found (err Fault.deadline_exceeded) = Ensures-raise _
  adds_found (err Fault.canceled) = Ensures-raise _
  adds_found (err Fault.lock_timeout) = Ensures-raise _
  adds_found (err Fault.other) = Ensures-raise _

  pub add_or_accumulate-Ensures : Ensures (At xs) (add_or_accumulate now item) (λ _. Now Is)
  unfolding add_or_accumulate add_body
  add_or_accumulate-Ensures = Ensures-transaction driver (Ensures-bind Looked looks adds_found)
