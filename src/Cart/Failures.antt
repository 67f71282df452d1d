-- ===== src/Cart/Failures.antt =====
-- A handler that answers an error has changed no row.
use mesh_cart.Base.{
  ℕ, ◌≡◌, refl, ap, ◌∙◌, inl, inr, List, [], ◌∷◌, Bool, not, ◌||◌, ◌==◌, if◌then◌else◌, Bool-cases,
  arith,
}
use mesh_cart.Base.Int.{ℤ, pos, leb_ℤ}
use mesh_cart.Base.Lists.{select, count_where}
use mesh_cart.App.Time.{Time}
use mesh_cart.Sql.{World, pure, raise}
use mesh_cart.Sql.Hoare.{
  Ensures, Ensures-map_err, OnErr, Undone, Undone-raise, Undone-if, Undone-map_err, Undone-then,
  Undone-next_id, Undone-transaction, Undone-statement, Undone-read, Undone-check,
  Ensures-statement,
}
use mesh_cart.Cart.Model.{CartItem, CartDb, CartError, cart_item_not_found, driver, is_item_of}
use mesh_cart.Cart.Items.{
  delete_items, list_by_user_id, add_or_accumulate, update_by_id, delete_by_id, clear_by_user_id,
}
use mesh_cart.Cart.Service.{
  AddCartItemRequest, UpdateCartItemRequest, is_bad_request, is_bad_snapshot, is_bad_update,
  add_cart_item, update_cart_item, remove_cart_item, clear_cart, get_cart, to_rpc_cart_item,
  to_rpc_cart_items,
}

pub add_cart_item-Undone : (now : Time) (req : AddCartItemRequest) → Undone (add_cart_item now req)
unfolding add_cart_item add_or_accumulate
add_cart_item-Undone now req =
    Undone-if (is_bad_request req) (λ _. Undone-raise _)
      λ _.
        Undone-if (is_bad_snapshot req) (λ _. Undone-raise _)
          λ _.
            Undone-next_id
              λ id. Undone-then to_rpc_cart_item (Undone-map_err _ (Undone-transaction driver _))

pub update_cart_item-Undone :
    (now : Time) (req : UpdateCartItemRequest) → Undone (update_cart_item now req)
unfolding update_cart_item update_by_id
update_cart_item-Undone now req =
    Undone-if (is_bad_update req) (λ _. Undone-raise _)
      λ _. Undone-then to_rpc_cart_item (Undone-map_err _ (Undone-transaction driver _))

pub clear_cart-Undone : (user_id : ℤ) → Undone (clear_cart user_id)
unfolding clear_cart clear_by_user_id delete_items
clear_cart-Undone user_id =
    Undone-if (leb_ℤ user_id (pos 0)) (λ _. Undone-raise _)
      λ _. Undone-map_err _ (
        Undone-then (λ _. tt)
          (Undone-map_err _ (Undone-statement _ λ d e h. absurd (ground (arith, h)))))

pub get_cart-Undone : (user_id : ℤ) → Undone (get_cart user_id)
unfolding get_cart list_by_user_id
get_cart-Undone user_id =
    Undone-if (leb_ℤ user_id (pos 0)) (λ _. Undone-raise _)
      λ _. Undone-then to_rpc_cart_items (Undone-map_err _ (Undone-map_err _ (Undone-read _)))

none_removed :
    (p : CartItem → Bool) (xs : List CartItem)
    → count_where p xs ≡ 0
    → select (λ y. not (p y)) xs ≡ xs
none_removed p [] h = refl
none_removed p (x ∷ xs) h = ground (arith, none_removed p xs)

-- The rows that are not picked stay, and the others are counted.
abbrev Deleted : (CartItem → Bool) → CartDb → ℕ → CartDb → Type 0
Deleted p before n d =
    (n ≡ count_where p before.items) × (d.items ≡ select (λ y. not (p y)) before.items)

delete_items-Deleted :
    (p : CartItem → Bool) (before : CartDb)
    → Ensures (λ d. d ≡ before) (delete_items p) (Deleted p before)
unfolding delete_items
delete_items-Deleted p before = Ensures-statement _ λ d same. (
  ap (λ (b : CartDb). count_where p b.items) same,
  ap (λ (b : CartDb). select (λ y. not (p y)) b.items) same,
)

delete_items-Undone : (p : CartItem → Bool) → Undone (delete_items p)
unfolding delete_items
delete_items-Undone p = Undone-statement _ λ d e h. absurd (ground (arith, h))

checked_count :
    (p : CartItem → Bool) (before : CartDb) (n : ℕ) (w : World CartDb)
    → Deleted p before n w.db
    → OnErr {E = CartError} {A = Unit {0}}
        (λ d. d ≡ before)
        ((if n == 0 then raise cart_item_not_found else pure tt) w)
unfolding raise pure
checked_count p before n w (counted, left) = elim (Bool-cases (n == 0)) [
  | inr some_row ↦ rw some_row tt
  | inl nothing ↦
      let zero : count_where p before.items ≡ 0 = ground (arith, counted, nothing) in
      rw nothing (
        ap (λ (ys : List CartItem). record before { items = ys })
          (left ∙ none_removed p before.items zero))
]

delete_by_id-Undone : (user_id item_id : ℤ) → Undone (delete_by_id user_id item_id)
unfolding delete_by_id
delete_by_id-Undone user_id item_id =
    let p = is_item_of item_id user_id in
    Undone-check _ (Deleted p) (Undone-map_err _ (delete_items-Undone p))
      (λ before. Ensures-map_err _ (delete_items-Deleted p before))
      (λ before n w h. checked_count p before n w h)

pub remove_cart_item-Undone : (user_id item_id : ℤ) → Undone (remove_cart_item user_id item_id)
unfolding remove_cart_item
remove_cart_item-Undone user_id item_id =
    Undone-if (leb_ℤ user_id (pos 0) || leb_ℤ item_id (pos 0)) (λ _. Undone-raise _)
      λ _. Undone-map_err _ (delete_by_id-Undone user_id item_id)
