-- ===== src/Cart/Service.antt =====
-- services/cart-service/biz/service: the handlers. A request is never nil.
use mesh_cart.Base.{String, Bool, true, false, List, [], ◌∷◌, Option, map, ◌||◌, if◌then◌else◌}
use mesh_cart.Base.Int.{ℤ, pos, leb_ℤ, ltb_ℤ}
use mesh_cart.Base.Text.{trim_space, is_blank}
use mesh_cart.App.Errors.{BizError, invalid_param, internal_error, cart_item_missing}
use mesh_cart.App.Time.{Time}
use mesh_cart.Sql.{World, Query, Result, ok, err, pure, raise, ◌>>=◌, next_id, map_err}
use mesh_cart.Cart.Model.{CartItem, CartDb, CartError, cart_item_not_found, driver}
use mesh_cart.Cart.Items.{
  add_or_accumulate, or_checked, update_by_id, delete_by_id, clear_by_user_id, list_by_user_id,
}

unfoldable pub map_repository_error : CartError → BizError
map_repository_error cart_item_not_found = cart_item_missing
map_repository_error (driver f) = internal_error

abbrev pub internal : CartError → BizError
internal e = internal_error

pub record RpcCartItem : Type 0 where
  pub id : ℤ
  pub user_id : ℤ
  pub product_id : ℤ
  pub sku_id : ℤ
  pub quantity : ℤ
  pub checked : Bool
  pub title_snapshot : String
  pub sku_title_snapshot : String
  pub sale_price_snapshot : ℤ
  pub cover_url_snapshot : String

unfoldable pub to_rpc_cart_item : CartItem → RpcCartItem
to_rpc_cart_item x = record {
  id = x.id;
  user_id = x.user_id;
  product_id = x.product_id;
  sku_id = x.sku_id;
  quantity = x.quantity;
  checked = x.checked;
  title_snapshot = x.title_snapshot;
  sku_title_snapshot = x.sku_title_snapshot;
  sale_price_snapshot = x.sale_price_snapshot;
  cover_url_snapshot = x.cover_url_snapshot;
}

unfoldable pub to_rpc_cart_items : List CartItem → List RpcCartItem
to_rpc_cart_items items = map to_rpc_cart_item items

pub record AddCartItemRequest : Type 0 where
  pub user_id : ℤ
  pub product_id : ℤ
  pub sku_id : ℤ
  pub quantity : ℤ
  pub checked : Option Bool
  pub title_snapshot : String
  pub sku_title_snapshot : String
  pub sale_price_snapshot : ℤ
  pub cover_url_snapshot : String

pub record UpdateCartItemRequest : Type 0 where
  pub user_id : ℤ
  pub item_id : ℤ
  pub quantity : ℤ
  pub checked : Option Bool

abbrev pub new_cart_item : Time → ℤ → AddCartItemRequest → CartItem
new_cart_item now id req = record {
  id = id;
  user_id = req.user_id;
  product_id = req.product_id;
  sku_id = req.sku_id;
  quantity = req.quantity;
  checked = or_checked req.checked true;
  title_snapshot = trim_space req.title_snapshot;
  sku_title_snapshot = trim_space req.sku_title_snapshot;
  sale_price_snapshot = req.sale_price_snapshot;
  cover_url_snapshot = trim_space req.cover_url_snapshot;
  updated_at = now;
}

-- The two guards of the handler.
abbrev pub is_bad_request : AddCartItemRequest → Bool
is_bad_request req =
    leb_ℤ req.user_id (pos 0)
    || leb_ℤ req.product_id (pos 0)
    || leb_ℤ req.sku_id (pos 0)
    || leb_ℤ req.quantity (pos 0)

abbrev pub is_bad_snapshot : AddCartItemRequest → Bool
is_bad_snapshot req =
    is_blank (trim_space req.title_snapshot)
    || is_blank (trim_space req.sku_title_snapshot)
    || ltb_ℤ req.sale_price_snapshot (pos 0)

unfoldable pub add_cart_item : Time → AddCartItemRequest → Query CartDb BizError RpcCartItem
add_cart_item now req =
    if is_bad_request req
    then raise invalid_param
    else (if is_bad_snapshot req then raise invalid_param else do
      id ← next_id
      item ← map_err internal (add_or_accumulate now (new_cart_item now id req))
      pure (to_rpc_cart_item item))

abbrev pub is_bad_update : UpdateCartItemRequest → Bool
is_bad_update req =
    leb_ℤ req.user_id (pos 0) || leb_ℤ req.item_id (pos 0) || leb_ℤ req.quantity (pos 0)

unfoldable pub update_cart_item : Time → UpdateCartItemRequest → Query CartDb BizError RpcCartItem
update_cart_item now req = if is_bad_update req then raise invalid_param else do
  item ←
      map_err map_repository_error
        (update_by_id now req.user_id req.item_id req.quantity req.checked)
  pure (to_rpc_cart_item item)

unfoldable pub remove_cart_item : ℤ → ℤ → Query CartDb BizError Unit
remove_cart_item user_id item_id =
    if leb_ℤ user_id (pos 0) || leb_ℤ item_id (pos 0)
    then raise invalid_param
    else map_err map_repository_error (delete_by_id user_id item_id)

unfoldable pub clear_cart : ℤ → Query CartDb BizError Unit
clear_cart user_id =
    if leb_ℤ user_id (pos 0)
    then raise invalid_param
    else map_err internal (clear_by_user_id user_id)

unfoldable pub get_cart : ℤ → Query CartDb BizError (List RpcCartItem)
get_cart user_id =
    if leb_ℤ user_id (pos 0)
    then raise invalid_param
    else do items ← map_err internal (list_by_user_id user_id); pure (to_rpc_cart_items items)

pub data CartRequest : Type 0 where
  adds : Time → AddCartItemRequest → CartRequest
  updates : Time → UpdateCartItemRequest → CartRequest
  removes : ℤ → ℤ → CartRequest
  clears : ℤ → CartRequest
  gets : ℤ → CartRequest

abbrev pub is_ok : {E A : Type 0} → Result E A × World CartDb → Bool × World CartDb
is_ok (ok a, w) = (true, w)
is_ok (err e, w) = (false, w)

-- Whether a request succeeds, and the rows after it.
unfoldable pub serve : CartRequest → World CartDb → Bool × World CartDb
serve (adds now req) w = is_ok (add_cart_item now req w)
serve (updates now req) w = is_ok (update_cart_item now req w)
serve (removes user_id item_id) w = is_ok (remove_cart_item user_id item_id w)
serve (clears user_id) w = is_ok (clear_cart user_id w)
serve (gets user_id) w = is_ok (get_cart user_id w)

unfoldable pub serve_all : List CartRequest → World CartDb → List Bool × World CartDb
serve_all [] w = ([], w)
serve_all (r ∷ rs) w =
    let (done, w') = serve r w in let (rest, w'') = serve_all rs w' in (done ∷ rest, w'')
