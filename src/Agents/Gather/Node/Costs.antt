-- ===== src/Agents/Gather/Node/Costs.antt =====
-- How many requests `gather_context` sends at most.
use ecommerce_sales_agent.Prelude.{
  ℕ, Bool, Option, none, some, List, [], ◌∷◌, is_nil, arith, length,
}
use ecommerce_sales_agent.Text.{Text, text_eq}
use ecommerce_sales_agent.Exec.{Result, ok, err}
use ecommerce_sales_agent.Inventra.Errors.{Exc}
use ecommerce_sales_agent.Inventra.Schemas.{Product, InventoryItem}
use ecommerce_sales_agent.Inventra.Env.{Env}
use ecommerce_sales_agent.Inventra.Client.Costs.{
  Costs, Costs-pure, Costs-raise, Costs-le, Costs-if, Costs-bind, Costs-then, Costs-after,
  Costs-handle, read_cost,
}
use ecommerce_sales_agent.Tools.Costs.{
  inventory_search_params-Costs, inventory_movement_params-Costs, get_product_details-Costs,
  list_categories_tool-Costs, check_inventory-Costs, get_inventory_movements-Costs,
}
use ecommerce_sales_agent.Agents.State.{
  IntentName, product_search, product_details, category_browse, inventory_check,
  inventory_movements,
}
use ecommerce_sales_agent.Agents.Turn.{AgentState}
use ecommerce_sales_agent.Agents.Gather.Terms.{zero_result_fallback_terms, extract_search_term}
use ecommerce_sales_agent.Agents.Gather.Terms.Laws.{length-zero_result_fallback_terms}
use ecommerce_sales_agent.Agents.Gather.Search.Costs.{
  times, times-le, catching-Costs, search_products_bounded-Costs, resolve_product_by_name-Costs,
}
use ecommerce_sales_agent.Agents.Gather.Node.{
  returned, dumped, details_of, details_resolved, details_for, gather_products, gather_details,
  gather_categories, inventory_of, climb_inventory, inventory_fall_back, gather_inventory,
  gather_movements, gather_for, gather_context,
}

module _ (env : Env) (cached : Bool) where
  returned-Costs : {A : Type 0} (r : Result Exc A) → Costs 0 (returned env cached r)
  returned-Costs (ok a) = Costs-pure env 0 a
  returned-Costs (err e) = Costs-raise env 0 e

  dumped-Costs : (state : AgentState) (o : Option Product) → Costs 0 (dumped env cached state o)
  dumped-Costs state none = Costs-raise env 0 _
  dumped-Costs state (some p) = Costs-pure env 0 _

  details_of-Costs :
      (state : AgentState) (id : ℕ) → Costs (read_cost env) (details_of env cached state id)
  unfolding details_of
  details_of-Costs state id =
      Costs-then env _ _ (get_product_details-Costs env cached id) (dumped-Costs state)

  details_resolved-Costs :
      (state : AgentState) (o : Option Product)
      → Costs (read_cost env) (details_resolved env cached state o)
  details_resolved-Costs state none = Costs-pure env _ _
  details_resolved-Costs state (some p) = details_of-Costs state p.id

  details_for-Costs :
      (state : AgentState) (o : Option ℕ)
      → Costs (times 9 (read_cost env)) (details_for env cached state o)
  details_for-Costs state (some id) = Costs-le env _ (omega arith) (details_of-Costs state id)
  details_for-Costs state none = Costs-le env _ (omega arith) (
      Costs-bind env _ _ (resolve_product_by_name-Costs env cached state.customer_message)
        (details_resolved-Costs state))

  inventory_of-Costs :
      (search : Option Text) → Costs (read_cost env) (inventory_of env cached search)
  unfolding inventory_of
  inventory_of-Costs search =
      Costs-after env _ _ (inventory_search_params-Costs env search)
        (check_inventory-Costs env cached)

  climb_inventory-Costs :
      (first : Text) (ladder : List Text) (items : List InventoryItem)
      → Costs
          (times (length ladder) (read_cost env))
          (climb_inventory env cached first ladder items)
  unfolding climb_inventory
  climb_inventory-Costs first [] items = Costs-pure env 0 items
  climb_inventory-Costs first (fallback ∷ ladder) items =
      Costs-if env (text_eq fallback first) _ _
        (Costs-le env _ (omega arith) (climb_inventory-Costs first ladder items))
        (Costs-bind env _ _ (inventory_of-Costs _) λ found.
          Costs-if env (is_nil found) _ _ (climb_inventory-Costs first ladder found)
            (Costs-pure env _ found))

  inventory_fall_back-Costs :
      (first : Option Text) (ladder : List Text) (items : List InventoryItem)
      → Costs
          (times (length ladder) (read_cost env))
          (inventory_fall_back env cached first ladder items)
  inventory_fall_back-Costs none ladder items = Costs-pure env _ items
  inventory_fall_back-Costs (some first) ladder items =
      Costs-if env (is_nil items) _ _ (climb_inventory-Costs first ladder items)
        (Costs-pure env _ items)

  gather_inventory-Costs :
      (state : AgentState) → Costs (times 9 (read_cost env)) (gather_inventory env cached state)
  unfolding gather_inventory
  gather_inventory-Costs state =
      let message = state.customer_message in
      let term = extract_search_term message in
      let ladder = zero_result_fallback_terms message term in
      Costs-le env _
        (omega (
          arith,
          times-le (length ladder) 3 (read_cost env)
              (length-zero_result_fallback_terms message term),
        ))
        (Costs-then env _ _
          (Costs-bind env _ _ (inventory_of-Costs _) (inventory_fall_back-Costs _ ladder))
          (λ items. Costs-pure env 0 _))

  gather_for-Costs :
      (intent : IntentName) (state : AgentState)
      → Costs (times 9 (read_cost env)) (gather_for env cached intent state)
  unfolding gather_products gather_details gather_categories gather_movements
  gather_for-Costs product_search state = Costs-le env _ (omega arith) (
      Costs-then env _ _ (search_products_bounded-Costs env cached state.customer_message)
        (λ r. Costs-pure env 0 _))
  gather_for-Costs product_details state =
      Costs-after env _ _ (returned-Costs _) (details_for-Costs state)
  gather_for-Costs category_browse state =
      Costs-le env _ (omega arith)
        (Costs-then env _ _ (list_categories_tool-Costs env cached) λ r. Costs-pure env 0 _)
  gather_for-Costs inventory_check state = gather_inventory-Costs state
  gather_for-Costs inventory_movements state = Costs-le env _ (omega arith) (
      Costs-after env _ _ (returned-Costs _) λ id.
        Costs-after env _ _ (inventory_movement_params-Costs env id)
          λ p. Costs-then env _ _ (get_inventory_movements-Costs env p) λ h. Costs-pure env 0 _)
  gather_for-Costs _ state = Costs-pure env _ state

  -- Gathering the context of a turn sends at most the requests of nine reads, each with all its
  -- attempts, for every intent and every message.
  pub gather_context-Costs :
      (state : AgentState) → Costs (times 9 (read_cost env)) (gather_context env cached state)
  unfolding gather_context
  gather_context-Costs state = Costs-le env _ (omega arith) (
      Costs-handle env _ _ (gather_for-Costs state.intent state)
        (catching-Costs env 0 _ (λ e. Costs-pure env 0 _)))
