-- ===== src/Cart/Model.antt =====
-- services/cart-service/dal/model: the row of a cart. The column created_at is left out: no code reads
-- it.
use mesh_cart.Base.{String, Bool, List, ◌&&◌, ◌||◌}
use mesh_cart.Base.Int.{ℤ, eq_ℤ, leb_ℤ}
use mesh_cart.App.Time.{Time, before, same_time}
use mesh_cart.Sql.{Fault}

pub record CartItem : Type 0 where
  pub id : ℤ
  pub user_id : ℤ
  pub product_id : ℤ
  pub sku_id : ℤ
  pub quantity : ℤ
  pub checked : Bool
  pub title_snapshot : String
  pub sku_title_snapshot : String
  pub sale_price_snapshot : ℤ
  pub cover_url_snapshot : String
  pub updated_at : Time

-- The table cart_items.
pub record CartDb : Type 0 where
  pub items : List CartItem

pub data CartError : Type 0 where
  cart_item_not_found : CartError
  driver : Fault → CartError

abbrev pub has_id : ℤ → CartItem → Bool
has_id id x = eq_ℤ x.id id

-- `user_id = ? AND sku_id = ?`
abbrev pub is_in_cart : ℤ → ℤ → CartItem → Bool
is_in_cart user_id sku_id x = eq_ℤ x.user_id user_id && eq_ℤ x.sku_id sku_id

-- `id = ? AND user_id = ?`
abbrev pub is_item_of : ℤ → ℤ → CartItem → Bool
is_item_of id user_id x = eq_ℤ x.id id && eq_ℤ x.user_id user_id

abbrev pub is_user : ℤ → CartItem → Bool
is_user user_id x = eq_ℤ x.user_id user_id

-- `updated_at DESC, id DESC`
abbrev pub is_later : CartItem → CartItem → Bool
is_later x y =
    before y.updated_at x.updated_at || (same_time x.updated_at y.updated_at && leb_ℤ y.id x.id)
