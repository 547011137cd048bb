-- ===== src/Agents/Purchase/Stock/Costs.antt =====
-- How many requests the catalog lookups of the node send at most.
use ecommerce_sales_agent.Prelude.{ℕ, Bool, Option, none, some, List, [], ◌∷◌, ◌==◌}
use ecommerce_sales_agent.Text.{Text}
use ecommerce_sales_agent.Inventra.Schemas.{Product}
use ecommerce_sales_agent.Inventra.Env.{Env}
use ecommerce_sales_agent.Inventra.Client.Costs.{
  Costs, Costs-pure, Costs-raise, Costs-if, Costs-then, Costs-after, read_cost,
}
use ecommerce_sales_agent.Tools.Costs.{
  product_search_params-Costs, inventory_search_params-Costs, search_products-Costs,
  check_inventory-Costs,
}
use ecommerce_sales_agent.Agents.Purchase.Stock.{
  resolve_product, available_stock, preferred, quantity_of,
}

module _ (env : Env) where
  preferred-Costs : (o : Option Product) (ps : List Product) → Costs 0 (preferred env o ps)
  preferred-Costs none [] = Costs-raise env 0 _
  preferred-Costs none (p ∷ ps) = Costs-pure env 0 _
  preferred-Costs (some p) ps = Costs-pure env 0 _

  pub resolve_product-Costs :
      (cached : Bool) (term : Text) → Costs (read_cost env) (resolve_product env cached term)
  unfolding resolve_product
  resolve_product-Costs cached term =
      Costs-after env _ _ (product_search_params-Costs env _ _ _) λ p.
        Costs-then env _ _ (search_products-Costs env cached p) λ r.
          Costs-if env (r.total == 0) _ _ (Costs-pure env 0 none) (preferred-Costs _ r.products)

  pub available_stock-Costs :
      (cached : Bool) (product_id : ℕ)
      → Costs (read_cost env) (available_stock env cached product_id)
  unfolding available_stock
  available_stock-Costs cached product_id =
      Costs-after env _ _ (inventory_search_params-Costs env _) λ p.
        Costs-then env _ _ (check_inventory-Costs env cached p)
          λ items. Costs-pure env 0 (some (quantity_of product_id items))
