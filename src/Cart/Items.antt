-- ===== src/Cart/Items.antt =====
-- services/cart-service/biz/repository: the methods of the repository. The time that gorm writes to
-- updated_at is an argument.
use mesh_cart.Base.{
  ℕ, Bool, true, List, [], ◌∷◌, ◌++◌, Option, none, some, not, ◌||◌, ◌==◌, if◌then◌else◌,
}
use mesh_cart.Base.Int.{ℤ, pos, ◌+ℤ◌, wrap32, eq_ℤ}
use mesh_cart.Base.Lists.{find, any, select, update_where, count_where, sort_with}
use mesh_cart.App.Time.{Time}
use mesh_cart.Sql.{
  Fault, record_not_found, duplicate_key, deadline_exceeded, canceled, lock_timeout, other, Query,
  Result, ok, err, pure, raise, ◌>>=◌, ◌>>◌, statement, read, write, take_row, map_err, attempt,
  transaction,
}
use mesh_cart.Cart.Model.{
  CartItem, CartDb, CartError, cart_item_not_found, driver, has_id, is_in_cart, is_item_of, is_user,
  is_later,
}

unfoldable pub item_take_error : Fault → CartError
item_take_error record_not_found = cart_item_not_found
item_take_error f = driver f

-- An INSERT, with the primary key and uk_user_sku.
unfoldable pub insert_item : CartItem → Query CartDb Fault Unit
insert_item x = statement λ d.
    if any (λ y. has_id x.id y || is_in_cart x.user_id x.sku_id y) d.items
    then (err duplicate_key, d)
    else (ok tt, record d { items = d.items ++ x ∷ [] })

abbrev pub update_items : (CartItem → Bool) → (CartItem → CartItem) → CartDb → CartDb
update_items p f d = record d { items = update_where p f d.items }

-- A DELETE, with the number of rows that it removed.
unfoldable pub delete_items : (CartItem → Bool) → Query CartDb Fault ℕ
delete_items p =
    statement
      λ d. (ok (count_where p d.items), record d { items = select (λ x. not (p x)) d.items })

unfoldable pub list_by_user_id : ℤ → Query CartDb CartError (List CartItem)
list_by_user_id user_id =
    map_err driver (read λ d. sort_with is_later (select (is_user user_id) d.items))

-- What is written to the item that is there; the sum is an int32.
abbrev pub accumulated : Time → CartItem → ℤ → CartItem → CartItem
accumulated now item quantity x = record x {
  product_id = item.product_id;
  quantity = wrap32 (quantity +ℤ item.quantity);
  checked = item.checked;
  title_snapshot = item.title_snapshot;
  sku_title_snapshot = item.sku_title_snapshot;
  sale_price_snapshot = item.sale_price_snapshot;
  cover_url_snapshot = item.cover_url_snapshot;
  updated_at = now;
}

unfoldable pub accumulate : Time → CartItem → CartItem → Query CartDb CartError CartItem
accumulate now item existing = do
  map_err driver
      (write (update_items (has_id existing.id) (accumulated now item existing.quantity)))
  map_err driver (take_row λ d. find (has_id existing.id) d.items)

-- What gorm's `Create` makes of a row: a zero value in a column with a default is the default.
abbrev pub stamped : Time → CartItem → CartItem
stamped now item = record item {
  quantity = if eq_ℤ item.quantity (pos 0) then pos 1 else item.quantity;
  checked = if item.checked then item.checked else true;
  updated_at = now;
}

unfoldable pub create_item : Time → CartItem → Query CartDb CartError CartItem
create_item now item = do map_err driver (insert_item (stamped now item)); pure (stamped now item)

unfoldable pub add_found : Time → CartItem → Result Fault CartItem → Query CartDb CartError CartItem
add_found now item (ok existing) = accumulate now item existing
add_found now item (err record_not_found) = create_item now item
add_found now item (err duplicate_key) = raise (driver duplicate_key)
add_found now item (err deadline_exceeded) = raise (driver deadline_exceeded)
add_found now item (err canceled) = raise (driver canceled)
add_found now item (err lock_timeout) = raise (driver lock_timeout)
add_found now item (err other) = raise (driver other)

unfoldable pub add_body : Time → CartItem → Query CartDb CartError CartItem
add_body now item = do
  found ← attempt (take_row λ d. find (is_in_cart item.user_id item.sku_id) d.items)
  add_found now item found

unfoldable pub add_or_accumulate : Time → CartItem → Query CartDb CartError CartItem
add_or_accumulate now item = transaction driver (add_body now item)

abbrev pub or_checked : Option Bool → Bool → Bool
or_checked none old = old
or_checked (some c) old = c

abbrev pub updated : Time → ℤ → Option Bool → CartItem → CartItem
updated now quantity checked x = record x {
  quantity = quantity;
  checked = or_checked checked x.checked;
  updated_at = now;
}

unfoldable pub update_body : Time → ℤ → ℤ → ℤ → Option Bool → Query CartDb CartError CartItem
update_body now user_id item_id quantity checked = do
  item ← map_err item_take_error (take_row λ d. find (is_item_of item_id user_id) d.items)
  map_err driver (write (update_items (has_id item_id) (updated now quantity checked)))
  map_err driver (take_row λ d. find (has_id item_id) d.items)

unfoldable pub update_by_id : Time → ℤ → ℤ → ℤ → Option Bool → Query CartDb CartError CartItem
update_by_id now user_id item_id quantity checked =
    transaction driver (update_body now user_id item_id quantity checked)

unfoldable pub delete_by_id : ℤ → ℤ → Query CartDb CartError Unit
delete_by_id user_id item_id = do
  removed ← map_err driver (delete_items (is_item_of item_id user_id))
  if removed == 0 then raise cart_item_not_found else pure tt

unfoldable pub clear_by_user_id : ℤ → Query CartDb CartError Unit
clear_by_user_id user_id = do removed ← map_err driver (delete_items (is_user user_id)); pure tt
