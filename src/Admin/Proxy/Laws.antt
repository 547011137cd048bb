-- ===== src/Admin/Proxy/Laws.antt =====
-- What the admin's reads of Inventra do to the shop, for whom, and how they fail.
use ecommerce_sales_agent.Prelude.{
  ℕ, ◌≡◌, refl, ◌⊎◌, inl, inr, Bool, true, false, Option, Bool-cases,
}
use ecommerce_sales_agent.Text.{Text}
use ecommerce_sales_agent.Exec.{Result, ok, err}
use ecommerce_sales_agent.Inventra.Env.{Env, World}
use ecommerce_sales_agent.Inventra.Client.Laws.{
  IsQuiet, IsQuiet-order, Quiet, list_products-Quiet, get_product-Quiet, list_categories-Quiet,
  list_inventory-Quiet, list_inventory_movements-Quiet,
}
use ecommerce_sales_agent.Admin.Auth.{
  Crypto, AdminSettings, AdminContext, AdminError, require_admin,
}
use ecommerce_sales_agent.Admin.Proxy.{
  AdminRead, read_products, read_product, read_inventory, read_movements, read_categories,
  in_bounds, fulfil, route, admin_read,
}

module _ (env : Env) where
  fulfil-Quiet : (r : AdminRead) → Quiet env (fulfil env r)
  fulfil-Quiet (read_products page per_page search category_id is_active stock_status) =
      list_products-Quiet env page per_page search category_id is_active stock_status
  fulfil-Quiet (read_product product_id) = get_product-Quiet env product_id
  fulfil-Quiet (read_inventory search stock_status low_stock_only) =
      list_inventory-Quiet env search _ low_stock_only
  fulfil-Quiet (read_movements product_id movement_type page per_page) =
      list_inventory_movements-Quiet env product_id movement_type page per_page
  fulfil-Quiet read_categories = list_categories-Quiet env

  -- Either the world is as it was, or the guard let an admin in, a client is attached and the query
  -- keeps the bounds.
  pub record IsRead (admitted : Result AdminError AdminContext) (attached : Bool) (r : AdminRead)
      (w w' : World env) : Type 0 where
    pub quiet : IsQuiet w w'
    pub sealed :
        (w' ≡ w)
        ⊎ (((admin : AdminContext) × (admitted ≡ ok admin))
            × (attached ≡ true)
            × (in_bounds r ≡ true))

  untouched :
      (admitted : Result AdminError AdminContext) (attached : Bool) (r : AdminRead) (w : World env)
      → IsRead admitted attached r w w
  untouched admitted attached r w = record { quiet = IsQuiet-order.same w; sealed = inl refl }

  route-IsRead :
      (admitted : Result AdminError AdminContext) (attached : Bool) (r : AdminRead) (w : World env)
      → IsRead admitted attached r w (route env attached r admitted w).1
  route-IsRead (err e) attached r w = untouched (err e) attached r w
  route-IsRead (ok admin) false r w = untouched (ok admin) false r w
  route-IsRead (ok admin) true r w = elim (Bool-cases (in_bounds r)) [
    | inl inside ↦
        rw inside
          (record { quiet = (fulfil-Quiet r).at w; sealed = inr ((admin, refl), refl, inside) })
    | inr outside ↦ rw outside (untouched (ok admin) true r w)
  ]

  -- An admin's read of Inventra sends no write and leaves the messages and the database sessions as
  -- they were, however it ends; and the world changes at all only if the guard accepts the header, a
  -- client is attached and the path and query keep their bounds.
  pub admin_read-IsRead :
      (crypto : Crypto) (settings : AdminSettings) (attached : Bool) (authorization : Option Text)
      (now : ℕ) (r : AdminRead) (w : World env)
      → IsRead
          (require_admin crypto settings authorization now)
          attached
          r
          w
          (admin_read env crypto settings attached authorization now r w).1
  unfolding admin_read
  admin_read-IsRead crypto settings attached authorization now r w =
      route-IsRead (require_admin crypto settings authorization now) attached r w
