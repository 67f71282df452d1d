-- ===== src/Cart/Refinement.antt =====
-- The handlers refine the operations of a cart that has a quantity for each user and SKU.
use mathlib.Core.Path.{subst}
use mesh_cart.Base.{
  ◌≡◌, refl, sym, ap, inl, inr, List, [], ◌∷◌, Bool, true, false, ◌||◌, Bool-cases, arith,
}
use mesh_cart.Base.Int.{ℤ, pos, eq_ℤ, eq_ℤ→eq, leb_ℤ}
use mesh_cart.App.Time.{Time}
use mesh_cart.Sql.{World, Query, Result, ok, err}
use mesh_cart.Sql.Hoare.{
  OnOk, Ensures, Ensures-pure, Ensures-raise, Ensures-bind, Ensures-if, Ensures-map_err,
  Ensures-read, Ensures-any_id, OnErr, Undone,
}
use mesh_cart.Cart.Model.{CartItem, CartDb}
use mesh_cart.Cart.Items.{list_by_user_id}
use mesh_cart.Cart.Service.{
  AddCartItemRequest, UpdateCartItemRequest, new_cart_item, is_bad_request, is_bad_snapshot,
  is_bad_update, add_cart_item, update_cart_item, remove_cart_item, clear_cart, get_cart,
  CartRequest, adds, updates, removes, clears, gets, is_ok, serve, serve_all,
}
use mesh_cart.Cart.View.{View, view, Same, IsCart}
use mesh_cart.Cart.Changes.{At, Now, Added, add_or_accumulate-Ensures}
use mesh_cart.Cart.Removal.{
  Updated, Removed, Cleared, update_by_id-Ensures, delete_by_id-Ensures, clear_by_user_id-Ensures,
}
use mesh_cart.Cart.Failures.{
  add_cart_item-Undone, update_cart_item-Undone, remove_cart_item-Undone, clear_cart-Undone,
  get_cart-Undone,
}

-- What a request does to the cart, by whether it succeeds.
pub data Spec (v v' : View) : CartRequest → Bool → Type 0 where
  failed : (r : CartRequest) → Same v v' → Spec v v' r false
  added :
      (now : Time) (req : AddCartItemRequest)
      → Added req.user_id req.sku_id req.quantity v v'
      → Spec v v' (adds now req) true
  updated :
      (now : Time) (req : UpdateCartItemRequest)
      → Updated v req.user_id req.quantity v'
      → Spec v v' (updates now req) true
  removed : (user_id item_id : ℤ) → Removed v user_id v' → Spec v v' (removes user_id item_id) true
  cleared : (user_id : ℤ) → Cleared v user_id v' → Spec v v' (clears user_id) true
  shown : (user_id : ℤ) → Same v v' → Spec v v' (gets user_id) true

-- A run of requests with their outcomes.
pub data Run : View → List CartRequest → List Bool → View → Type 0 where
  done : (v v' : View) → Same v v' → Run v [] [] v'
  step :
      (v v' v'' : View) (r : CartRequest) (is_done : Bool) (rs : List CartRequest)
      (outcomes : List Bool)
      → Spec v v' r is_done
      → Run v' rs outcomes v''
      → Run v (r ∷ rs) (is_done ∷ outcomes) v''

positive_not_zero : (q : ℤ) → leb_ℤ q (pos 0) ≡ false → eq_ℤ q (pos 0) ≡ false
positive_not_zero q h = elim (Bool-cases (eq_ℤ q (pos 0))) [
  | inr off ↦ off
  | inl on ↦
      let low : leb_ℤ q (pos 0) ≡ true = ap (λ z. leb_ℤ z (pos 0)) (eq_ℤ→eq q (pos 0) on) in
      absurd (ground arith)
]

module _ (xs : List CartItem) where
  add_cart_item-Ensures :
      (now : Time) (req : AddCartItemRequest)
      → Ensures
          (At xs)
          (add_cart_item now req)
          (λ _. Now (Added req.user_id req.sku_id req.quantity (view xs)))
  unfolding add_cart_item
  add_cart_item-Ensures now req =
      Ensures-if (is_bad_request req) (λ _. Ensures-raise _)
        λ valid.
          Ensures-if (is_bad_snapshot req) (λ _. Ensures-raise _)
            λ _.
              Ensures-bind (λ _. At xs) (Ensures-any_id λ d h id. h)
                λ id.
                  Ensures-bind (λ _. Now (Added req.user_id req.sku_id req.quantity (view xs)))
                    (Ensures-map_err _ (
                      add_or_accumulate-Ensures now (new_cart_item now id req) xs
                        (positive_not_zero req.quantity (ground arith))))
                    λ _. Ensures-pure _ λ d h. h

  update_cart_item-Ensures :
      (now : Time) (req : UpdateCartItemRequest)
      → Ensures
          (At xs)
          (update_cart_item now req)
          (λ _. Now (Updated (view xs) req.user_id req.quantity))
  unfolding update_cart_item
  update_cart_item-Ensures now req =
      Ensures-if (is_bad_update req) (λ _. Ensures-raise _)
        λ _.
          Ensures-bind (λ _. Now (Updated (view xs) req.user_id req.quantity))
            (Ensures-map_err _
              (update_by_id-Ensures xs now req.user_id req.item_id req.quantity req.checked))
            λ _. Ensures-pure _ λ d h. h

  remove_cart_item-Ensures :
      (user_id item_id : ℤ)
      → Ensures (At xs) (remove_cart_item user_id item_id) (λ _. Now (Removed (view xs) user_id))
  unfolding remove_cart_item
  remove_cart_item-Ensures user_id item_id =
      Ensures-if (leb_ℤ user_id (pos 0) || leb_ℤ item_id (pos 0)) (λ _. Ensures-raise _)
        λ _. Ensures-map_err _ (delete_by_id-Ensures xs user_id item_id)

  clear_cart-Ensures :
      (user_id : ℤ) → Ensures (At xs) (clear_cart user_id) (λ _. Now (Cleared (view xs) user_id))
  unfolding clear_cart
  clear_cart-Ensures user_id =
      Ensures-if (leb_ℤ user_id (pos 0)) (λ _. Ensures-raise _)
        λ _. Ensures-map_err _ (clear_by_user_id-Ensures xs user_id)

  get_cart-Ensures : (user_id : ℤ) → Ensures (At xs) (get_cart user_id) (λ _. Now (Same (view xs)))
  unfolding get_cart list_by_user_id
  get_cart-Ensures user_id =
      Ensures-if (leb_ℤ user_id (pos 0)) (λ _. Ensures-raise _)
        λ _.
          Ensures-bind (λ _. Now (Same (view xs)))
            (Ensures-map_err _ (
              Ensures-map_err _ (
                Ensures-read _ λ d (c, same).
                  subst (λ ys. IsCart ys × Same (view xs) (view ys)) (sym same) (c, λ u k. refl))))
            λ _. Ensures-pure _ λ d h. h

-- What is known of a handler's answer, for a request.
abbrev Settled : CartRequest → World CartDb → Bool × World CartDb → Type 0
Settled r w (is_done, w') = IsCart w'.db.items × Spec (view w.db.items) (view w'.db.items) r is_done

settle :
    {E A : Type 0} (m : Query CartDb E A) (r : CartRequest) (Q : View → View → Type 0)
    → ((v v' : View) → Q v v' → Spec v v' r true)
    → ((xs : List CartItem) → Ensures (At xs) m (λ _. Now (Q (view xs))))
    → Undone m
    → (w : World CartDb) → IsCart w.db.items
    → Settled r w (is_ok (m w))
settle {E} {A} m r Q k ensures undone w c =
    run (m w) ((ensures w.db.items).at w (c, refl)) (undone.at w)
  where
    run :
        (a : Result E A × World CartDb)
        → OnOk (λ _. Now (Q (view w.db.items))) a
        → OnErr (λ d. d ≡ w.db) a
        → Settled r w (is_ok a)
    run (ok a, w') q u = (q.0, k (view w.db.items) (view w'.db.items) q.1)
    run (err e, w') q u = (
      subst (λ d. IsCart d.items) (sym u) c,
      failed r (λ user_id sku_id. ap (λ d. view d.items user_id sku_id) u),
    )

serve-Settled : (r : CartRequest) (w : World CartDb) → IsCart w.db.items → Settled r w (serve r w)
unfolding serve
serve-Settled (adds now req) w c =
    settle (add_cart_item now req) (adds now req) (Added req.user_id req.sku_id req.quantity)
      (λ v v' h. added now req h) (λ xs. add_cart_item-Ensures xs now req)
      (add_cart_item-Undone now req) w c
serve-Settled (updates now req) w c =
    settle (update_cart_item now req) (updates now req)
      (λ v v'. Updated v req.user_id req.quantity v') (λ v v' h. updated now req h)
      (λ xs. update_cart_item-Ensures xs now req) (update_cart_item-Undone now req) w c
serve-Settled (removes user_id item_id) w c =
    settle (remove_cart_item user_id item_id) (removes user_id item_id)
      (λ v v'. Removed v user_id v') (λ v v' h. removed user_id item_id h)
      (λ xs. remove_cart_item-Ensures xs user_id item_id) (remove_cart_item-Undone user_id item_id)
      w c
serve-Settled (clears user_id) w c =
    settle (clear_cart user_id) (clears user_id) (λ v v'. Cleared v user_id v')
      (λ v v' h. cleared user_id h) (λ xs. clear_cart-Ensures xs user_id)
      (clear_cart-Undone user_id) w c
serve-Settled (gets user_id) w c =
    settle (get_cart user_id) (gets user_id) Same (λ v v' h. shown user_id h)
      (λ xs. get_cart-Ensures xs user_id) (get_cart-Undone user_id) w c

-- From rows with unique ids and at most one row for a user and a SKU, any sequence of requests to
-- the cart service leaves such rows and is a run of a cart that has a quantity for each user and
-- SKU, whatever statements fail: a request that succeeds adds to the quantity of its user and SKU
-- (in 32 bits, where there is one), sets or removes that of one of the user's SKUs, clears those
-- of the user, or changes nothing where it shows the cart; one that fails changes nothing.
pub serve_all-Run :
    (rs : List CartRequest) (w : World CartDb)
    → IsCart w.db.items
    → let (outcomes, w') = serve_all rs w in
      IsCart w'.db.items × Run (view w.db.items) rs outcomes (view w'.db.items)
unfolding serve_all
serve_all-Run [] w c = (c, done (view w.db.items) (view w.db.items) (λ user_id sku_id. refl))
serve_all-Run (r ∷ rs) w c =
    let w' = (serve r w).1 in
    let (kept, spec) = serve-Settled r w c in
    let (last, run) = serve_all-Run rs w' kept in
    (last, step (view w.db.items) (view w'.db.items) _ r (serve r w).0 rs _ spec run)
