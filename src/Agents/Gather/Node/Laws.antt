-- ===== src/Agents/Gather/Node/Laws.antt =====
-- What `gather_context` sends: reads only.
use ecommerce_sales_agent.Prelude.{ℕ, Bool, Option, none, some, List, [], ◌∷◌, is_nil}
use ecommerce_sales_agent.Text.{Text, text_eq}
use ecommerce_sales_agent.Exec.{Result, ok, err}
use ecommerce_sales_agent.Inventra.Errors.{Exc}
use ecommerce_sales_agent.Inventra.Schemas.{Product, InventoryItem}
use ecommerce_sales_agent.Inventra.Env.{Env}
use ecommerce_sales_agent.Inventra.Client.Laws.{
  Quiet, bind-Quiet, handle-Quiet, pure-Quiet, raise-Quiet, if-Quiet,
}
use ecommerce_sales_agent.Tools.Laws.{
  inventory_search_params-Quiet, inventory_movement_params-Quiet, get_product_details-Quiet,
  list_categories_tool-Quiet, check_inventory-Quiet, get_inventory_movements-Quiet,
}
use ecommerce_sales_agent.Agents.State.{
  IntentName, product_search, product_details, category_browse, inventory_check,
  inventory_movements,
}
use ecommerce_sales_agent.Agents.Turn.{AgentState}
use ecommerce_sales_agent.Agents.Gather.Search.Laws.{
  catching-Quiet, search_products_bounded-Quiet, resolve_product_by_name-Quiet,
}
use ecommerce_sales_agent.Agents.Gather.Node.{
  returned, dumped, details_of, details_resolved, details_for, gather_products, gather_details,
  gather_categories, inventory_of, climb_inventory, inventory_fall_back, gather_inventory,
  gather_movements, gather_for, gather_context,
}

module _ (env : Env) (cached : Bool) where
  returned-Quiet : {A : Type 0} (r : Result Exc A) → Quiet env (returned env cached r)
  returned-Quiet (ok a) = pure-Quiet env a
  returned-Quiet (err e) = raise-Quiet env e

  dumped-Quiet : (state : AgentState) (o : Option Product) → Quiet env (dumped env cached state o)
  dumped-Quiet state none = raise-Quiet env _
  dumped-Quiet state (some p) = pure-Quiet env _

  details_of-Quiet : (state : AgentState) (id : ℕ) → Quiet env (details_of env cached state id)
  unfolding details_of
  details_of-Quiet state id =
      bind-Quiet env _ _ (get_product_details-Quiet env cached id) (dumped-Quiet state)

  details_resolved-Quiet :
      (state : AgentState) (o : Option Product) → Quiet env (details_resolved env cached state o)
  details_resolved-Quiet state none = pure-Quiet env _
  details_resolved-Quiet state (some p) = details_of-Quiet state p.id

  details_for-Quiet :
      (state : AgentState) (o : Option ℕ) → Quiet env (details_for env cached state o)
  details_for-Quiet state (some id) = details_of-Quiet state id
  details_for-Quiet state none =
      bind-Quiet env _ _ (resolve_product_by_name-Quiet env cached _) (details_resolved-Quiet state)

  inventory_of-Quiet : (search : Option Text) → Quiet env (inventory_of env cached search)
  unfolding inventory_of
  inventory_of-Quiet search =
      bind-Quiet env _ _ (inventory_search_params-Quiet env search)
        (check_inventory-Quiet env cached)

  climb_inventory-Quiet :
      (first : Text) (ladder : List Text) (items : List InventoryItem)
      → Quiet env (climb_inventory env cached first ladder items)
  unfolding climb_inventory
  climb_inventory-Quiet first [] items = pure-Quiet env items
  climb_inventory-Quiet first (fallback ∷ ladder) items =
      if-Quiet env (text_eq fallback first) _ _ (climb_inventory-Quiet first ladder items) (
        bind-Quiet env _ _ (inventory_of-Quiet _) λ found.
          if-Quiet env (is_nil found) _ _ (climb_inventory-Quiet first ladder found)
            (pure-Quiet env found))

  inventory_fall_back-Quiet :
      (first : Option Text) (ladder : List Text) (items : List InventoryItem)
      → Quiet env (inventory_fall_back env cached first ladder items)
  inventory_fall_back-Quiet none ladder items = pure-Quiet env items
  inventory_fall_back-Quiet (some first) ladder items =
      if-Quiet env (is_nil items) _ _ (climb_inventory-Quiet first ladder items)
        (pure-Quiet env items)

  gather_for-Quiet :
      (intent : IntentName) (state : AgentState) → Quiet env (gather_for env cached intent state)
  unfolding gather_products gather_details gather_categories gather_inventory gather_movements
  gather_for-Quiet product_search state =
      bind-Quiet env _ _ (search_products_bounded-Quiet env cached _) λ r. pure-Quiet env _
  gather_for-Quiet product_details state =
      bind-Quiet env _ _ (returned-Quiet _) (details_for-Quiet state)
  gather_for-Quiet category_browse state =
      bind-Quiet env _ _ (list_categories_tool-Quiet env cached) λ r. pure-Quiet env _
  gather_for-Quiet inventory_check state =
      bind-Quiet env _ _ (bind-Quiet env _ _ (inventory_of-Quiet _) (inventory_fall_back-Quiet _ _))
        (λ items. pure-Quiet env _)
  gather_for-Quiet inventory_movements state = bind-Quiet env _ _ (returned-Quiet _) λ id.
      bind-Quiet env _ _ (inventory_movement_params-Quiet env id)
        λ p. bind-Quiet env _ _ (get_inventory_movements-Quiet env p) λ h. pure-Quiet env _
  gather_for-Quiet _ state = pure-Quiet env state

  -- Gathering the context of a turn sends no write to Inventra and leaves the messages and the
  -- database sessions to come as they were, for every intent and whether it returns or raises.
  pub gather_context-Quiet : (state : AgentState) → Quiet env (gather_context env cached state)
  unfolding gather_context
  gather_context-Quiet state =
      handle-Quiet env _ _ (gather_for-Quiet state.intent state)
        (catching-Quiet env _ (λ e. pure-Quiet env _))
