-- ===== src/Cart/Tests.antt =====
-- A cart of one user, and one that an addition overflows.
use mesh_cart.Base.{◌+◌, ◌≡◌, refl, List, [], ◌∷◌, true, false, none, some}
use mesh_cart.Base.Int.{ℤ, pos, negsuc, ◌+ℤ◌, wrap32}
use mesh_cart.Sql.{World, quiet}
use mesh_cart.App.Time.{Time}
use mesh_cart.Cart.Model.{CartItem, CartDb}
use mesh_cart.Cart.Items.{accumulated}
use mesh_cart.Cart.Service.{
  AddCartItemRequest, CartRequest, adds, updates, removes, clears, gets, serve_all,
}
use mesh_cart.Cart.View.{IsCart, view}
use mesh_cart.Cart.Refinement.{Run, serve_all-Run}

abbrev noon : Time
noon = record { unix = pos 1700000000; nano = 0 }

abbrev mug : ℤ → CartItem
mug quantity = record {
  id = pos 1;
  user_id = pos 5;
  product_id = pos 3;
  sku_id = pos 7;
  quantity = quantity;
  checked = true;
  title_snapshot = "mug";
  sku_title_snapshot = "red";
  sale_price_snapshot = pos 900;
  cover_url_snapshot = "";
  updated_at = noon;
}

abbrev add_of : ℤ → ℤ → AddCartItemRequest
add_of sku_id quantity = record {
  user_id = pos 5;
  product_id = pos 3;
  sku_id = sku_id;
  quantity = quantity;
  checked = some false;
  title_snapshot = "mug";
  sku_title_snapshot = "red";
  sale_price_snapshot = pos 900;
  cover_url_snapshot = "";
}

abbrev world : World CartDb
world = quiet (record { items = mug (pos 2) ∷ [] }) (λ n. pos (1000 + n)) 0

abbrev requests : List CartRequest
requests =
    adds noon (add_of (pos 7) (pos 3))
    ∷ adds noon (add_of (pos 8) (pos 1))
    ∷ updates noon (record { user_id = pos 5; item_id = pos 1; quantity = pos 4; checked = none })
    ∷ removes (pos 5) (pos 1000)
    ∷ gets (pos 5)
    ∷ clears (pos 6)
    ∷ []

world-IsCart : IsCart world.db.items
world-IsCart = record { ids = (refl, tt); keys = (refl, tt) }

serve_all-Run_example :
    IsCart (serve_all requests world).1.db.items
    × Run
        (view world.db.items)
        requests
        (serve_all requests world).0
        (view (serve_all requests world).1.db.items)
serve_all-Run_example = serve_all-Run requests world world-IsCart

-- One more than the largest int32 is the smallest.
overflows :
    (accumulated noon (mug (pos 1)) (pos 2147483647) (mug (pos 2147483647))).quantity
    ≡ negsuc 2147483647
unfolding wrap32 ◌+ℤ◌
overflows = refl
