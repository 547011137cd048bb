-- ===== src/Agents/Purchase/Stock/Laws.antt =====
-- The catalog lookups of the node write nothing.
use ecommerce_sales_agent.Prelude.{ℕ, Bool, Option, none, some, List, [], ◌∷◌, ◌==◌, find}
use ecommerce_sales_agent.Text.{Text, lower, strip}
use ecommerce_sales_agent.Inventra.Schemas.{Product, ProductListResponse}
use ecommerce_sales_agent.Inventra.Env.{Env}
use ecommerce_sales_agent.Inventra.Client.Laws.{
  Quiet, bind-Quiet, pure-Quiet, raise-Quiet, if-Quiet,
}
use ecommerce_sales_agent.Tools.Laws.{
  product_search_params-Quiet, inventory_search_params-Quiet, search_products-Quiet,
  check_inventory-Quiet,
}
use ecommerce_sales_agent.Agents.Purchase.Stock.{
  is_named, resolve_product, available_stock, pick, preferred, quantity_of,
}

module _ (env : Env) where
  preferred-Quiet : (o : Option Product) (ps : List Product) → Quiet env (preferred env o ps)
  preferred-Quiet none [] = raise-Quiet env _
  preferred-Quiet none (p ∷ ps) = pure-Quiet env _
  preferred-Quiet (some p) ps = pure-Quiet env _

  pick-Quiet : (term : Text) (r : ProductListResponse) → Quiet env (pick env term r)
  pick-Quiet term r =
      if-Quiet env (r.total == 0) _ _ (pure-Quiet env none)
        (preferred-Quiet (find (is_named (lower (strip term))) r.products) r.products)

  pub resolve_product-Quiet :
      (cached : Bool) (term : Text) → Quiet env (resolve_product env cached term)
  unfolding resolve_product
  resolve_product-Quiet cached term =
      bind-Quiet env _ _ (product_search_params-Quiet env _ _ _)
        λ p. bind-Quiet env _ _ (search_products-Quiet env cached p) λ r. pick-Quiet term r

  pub available_stock-Quiet :
      (cached : Bool) (product_id : ℕ) → Quiet env (available_stock env cached product_id)
  unfolding available_stock
  available_stock-Quiet cached product_id =
      bind-Quiet env _ _ (inventory_search_params-Quiet env _) λ p.
        bind-Quiet env _ _ (check_inventory-Quiet env cached p)
          λ items. pure-Quiet env (some (quantity_of product_id items))
