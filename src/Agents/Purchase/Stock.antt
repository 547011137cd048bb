-- ===== src/Agents/Purchase/Stock.antt =====
-- purchase.py: `_resolve_product` and `_available_stock`.
pub mod Laws
pub mod Costs
use ecommerce_sales_agent.Prelude.{
  ℕ, Bool, Option, none, some, List, [], ◌∷◌, ◌==◌, if◌then◌else◌, find,
}
use ecommerce_sales_agent.Prelude.Int.{ℤ, pos}
use ecommerce_sales_agent.Text.{Text, text_eq, strip, lower, show_nat}
use ecommerce_sales_agent.Exec.{pure, raise, ◌>>=◌}
use ecommerce_sales_agent.Inventra.Errors.{index_error}
use ecommerce_sales_agent.Inventra.Schemas.{Product, ProductListResponse, InventoryItem, Float}
use ecommerce_sales_agent.Inventra.Env.{Env, Action}
use ecommerce_sales_agent.Tools.{
  product_search_params, inventory_search_params, search_products, check_inventory,
}

pub record Resolved : Type 0 where
  pub id : ℕ
  pub name : Text
  pub price : Float

abbrev resolved : Product → Resolved
resolved p = record { id = p.id; name = p.name; price = p.price }

-- `candidate.name.strip().lower() == wanted`
unfoldable pub is_named : Text → Product → Bool
unfolding strip lower
is_named wanted p = text_eq (lower (strip p.name)) wanted

-- `quantity` of the first row for the product; no row reads as 0.
unfoldable pub quantity_of : ℕ → List InventoryItem → ℤ
quantity_of product_id [] = pos 0
quantity_of product_id (i ∷ is) =
    if i.product_id == product_id then i.quantity else quantity_of product_id is

module _ (env : Env) where
  -- `products[0]`
  abbrev first_product : List Product → Action env (Option Resolved)
  first_product [] = raise index_error
  first_product (p ∷ ps) = pure (some (resolved p))

  abbrev preferred : Option Product → List Product → Action env (Option Resolved)
  preferred none ps = first_product ps
  preferred (some p) ps = pure (some (resolved p))

  abbrev pick : Text → ProductListResponse → Action env (Option Resolved)
  pick term result =
      if result.total == 0
      then pure none
      else preferred (find (is_named (lower (strip term))) result.products) result.products

  -- `none` where the three components are `None`
  unfoldable pub resolve_product : Bool → Text → Action env (Option Resolved)
  resolve_product cached term = do
    params ← product_search_params env (some term) none 5
    result ← search_products env cached params
    pick term result

  unfoldable pub available_stock : Bool → ℕ → Action env (Option ℤ)
  available_stock cached product_id = do
    params ← inventory_search_params env (some (show_nat product_id))
    items ← check_inventory env cached params
    pure (some (quantity_of product_id items))
