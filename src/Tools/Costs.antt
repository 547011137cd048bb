-- ===== src/Tools/Costs.antt =====
-- How many requests a tool sends at most: those of one read.
use ecommerce_sales_agent.Prelude.{ℕ, Bool, true, false, Option, some, arith, leb}
use ecommerce_sales_agent.Prelude.Int.{ℤ, pos, leb_ℤ}
use ecommerce_sales_agent.Text.{Text}
use ecommerce_sales_agent.Inventra.Errors.{translated}
use ecommerce_sales_agent.Inventra.Env.{Env, Action}
use ecommerce_sales_agent.Inventra.Client.Costs.{
  Costs, Costs-pure, Costs-raise, Costs-if, Costs-then, Costs-le, Costs-handle, read_cost,
  list_products-Costs, get_product-Costs, list_categories-Costs, list_inventory-Costs,
  list_inventory_movements-Costs,
}
use ecommerce_sales_agent.Cache.Costs.{read_through-Costs}
use ecommerce_sales_agent.Tools.{
  ProductSearchParams, InventorySearchParams, InventoryMovementParams, product_search_params,
  inventory_search_params, inventory_movement_params, stock_out_params, translating, within,
  positive, empty_page, or_nil, search_products, get_product_details, list_categories_tool,
  check_inventory, get_inventory_movements,
}

module _ (env : Env) where
  translating-Costs :
      {A : Type 0} {n : ℕ} (m : Action env A) → Costs n m → Costs n (translating env m)
  translating-Costs m c =
      Costs-le env _ (omega arith) (Costs-handle env m _ c (λ e. Costs-raise env 0 (translated e)))

  pub product_search_params-Costs :
      (search : Option Text) (category_id : Option ℕ) (per_page : ℕ)
      → Costs 0 (product_search_params env search category_id per_page)
  unfolding product_search_params
  product_search_params-Costs search category_id per_page =
      Costs-if env (within 200 search) _ _
        (Costs-if env (positive category_id) _ _
          (Costs-if env (leb 1 per_page) _ _ (Costs-pure env 0 _) (Costs-raise env 0 _))
          (Costs-raise env 0 _))
        (Costs-raise env 0 _)

  pub inventory_search_params-Costs :
      (search : Option Text) → Costs 0 (inventory_search_params env search)
  unfolding inventory_search_params
  inventory_search_params-Costs search =
      Costs-if env (within 200 search) _ _ (Costs-pure env 0 _) (Costs-raise env 0 _)

  pub inventory_movement_params-Costs :
      (product_id : Option ℕ) → Costs 0 (inventory_movement_params env product_id)
  unfolding inventory_movement_params
  inventory_movement_params-Costs product_id =
      Costs-if env (positive product_id) _ _ (Costs-pure env 0 _) (Costs-raise env 0 _)

  pub stock_out_params-Costs :
      (product_id : ℕ) (quantity : ℤ) (notes : Option Text)
      → Costs 0 (stock_out_params env product_id quantity notes)
  unfolding stock_out_params
  stock_out_params-Costs product_id quantity notes =
      Costs-if env (leb 1 product_id) _ _
        (Costs-if env (leb_ℤ quantity (pos 0)) _ _ (Costs-raise env 0 _)
          (Costs-if env (within 500 notes) _ _ (Costs-pure env 0 _) (Costs-raise env 0 _)))
        (Costs-raise env 0 _)

  pub search_products-Costs :
      (cached : Bool) (p : ProductSearchParams)
      → Costs (read_cost env) (search_products env cached p)
  unfolding search_products
  search_products-Costs true p = translating-Costs _ (
      Costs-then env _ _ (read_through-Costs env _ _ _ _ _ (list_products-Costs env _ _ _ _ _ _))
        (λ r. Costs-pure env 0 (empty_page env p r)))
  search_products-Costs false p = translating-Costs _ (list_products-Costs env _ _ _ _ _ _)

  pub get_product_details-Costs :
      (cached : Bool) (product_id : ℕ)
      → Costs (read_cost env) (get_product_details env cached product_id)
  unfolding get_product_details
  get_product_details-Costs true product_id =
      translating-Costs _ (read_through-Costs env _ _ _ _ _ (get_product-Costs env product_id))
  get_product_details-Costs false product_id =
      translating-Costs _
        (Costs-then env _ _ (get_product-Costs env product_id) (λ p. Costs-pure env 0 (some p)))

  pub list_categories_tool-Costs :
      (cached : Bool) → Costs (read_cost env) (list_categories_tool env cached)
  unfolding list_categories_tool
  list_categories_tool-Costs true = translating-Costs _ (
      Costs-then env _ _ (read_through-Costs env _ _ _ _ _ (list_categories-Costs env))
        (λ r. Costs-pure env 0 (or_nil env r)))
  list_categories_tool-Costs false = translating-Costs _ (list_categories-Costs env)

  pub check_inventory-Costs :
      (cached : Bool) (p : InventorySearchParams)
      → Costs (read_cost env) (check_inventory env cached p)
  unfolding check_inventory
  check_inventory-Costs true p = translating-Costs _ (
      Costs-then env _ _ (read_through-Costs env _ _ _ _ _ (list_inventory-Costs env _ _ _))
        (λ r. Costs-pure env 0 (or_nil env r)))
  check_inventory-Costs false p = translating-Costs _ (list_inventory-Costs env _ _ _)

  pub get_inventory_movements-Costs :
      (p : InventoryMovementParams) → Costs (read_cost env) (get_inventory_movements env p)
  unfolding get_inventory_movements
  get_inventory_movements-Costs p = translating-Costs _ (list_inventory_movements-Costs env _ _ _ _)
