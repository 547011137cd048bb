-- ===== src/Agents/Gather/Node.antt =====
-- gather.py: `gather_context`, the node that calls the tool of the intent.
pub mod Laws
pub mod Keeps
pub mod Costs
use ecommerce_sales_agent.Prelude.{
  ℕ, Bool, true, false, not, ◌&&◌, Option, none, some, List, [], ◌∷◌, if◌then◌else◌, is_nil,
}
use ecommerce_sales_agent.Text.{Text, codes, text_eq, strip}
use ecommerce_sales_agent.Exec.{Result, ok, err, pure, raise, ◌>>=◌, handle}
use ecommerce_sales_agent.Inventra.Errors.{Exc, ToolError, failure, missing, attribute_error}
use ecommerce_sales_agent.Inventra.Schemas.{Product, InventoryItem}
use ecommerce_sales_agent.Inventra.Env.{Env, Action}
use ecommerce_sales_agent.Tools.{
  inventory_search_params, inventory_movement_params, get_product_details, list_categories_tool,
  check_inventory, get_inventory_movements,
}
use ecommerce_sales_agent.Agents.State.{
  IntentName, product_search, product_details, category_browse, inventory_check,
  inventory_movements, ToolErrorCode, config, tool_error, unexpected_error, not_found,
}
use ecommerce_sales_agent.Agents.Turn.{
  AgentState, merge, ToolResult, products_result, product_result, categories_result,
  inventory_result, movements_result, failure_of,
}
use ecommerce_sales_agent.Agents.Gather.Terms.{
  extract_id, extract_search_term, zero_result_fallback_terms,
}
use ecommerce_sales_agent.Agents.Gather.Search.{
  catching, first_term, search_products_bounded, resolve_product_by_name,
}

abbrev pub coerce_code : ToolErrorCode → ToolErrorCode
coerce_code config = unexpected_error
coerce_code tool_error = unexpected_error
coerce_code code = code

abbrev node_name : Text
node_name = codes "gather_context"

abbrev pub failed : ToolError → AgentState → AgentState
failed e state = record state {
  tool_errors = merge node_name (failure_of node_name (coerce_code e.code)) state.tool_errors;
}

abbrev with_result : Text → ToolResult → AgentState → AgentState
with_result key r state = record state { tool_results = merge key r state.tool_results }

module _ (env : Env) (cached : Bool) where
  abbrev returned : {A : Type 0} → Result Exc A → Action env A
  returned (ok a) = pure a
  returned (err e) = raise e

  -- `product.model_dump` of a `None`
  abbrev dumped : AgentState → Option Product → Action env AgentState
  dumped state none = raise attribute_error
  dumped state (some p) = pure (with_result (codes "product") (product_result p) state)

  unfoldable pub details_of : AgentState → ℕ → Action env AgentState
  details_of state product_id = do
    product ← get_product_details env cached product_id
    dumped state product

  abbrev details_resolved : AgentState → Option Product → Action env AgentState
  details_resolved state none = pure (failed (failure missing not_found) state)
  details_resolved state (some p) = details_of state p.id

  abbrev details_for : AgentState → Option ℕ → Action env AgentState
  details_for state (some product_id) = details_of state product_id
  details_for state none = do
    found ← resolve_product_by_name env cached state.customer_message
    details_resolved state found

  unfoldable pub gather_products : AgentState → Action env AgentState
  gather_products state = do
    result ← search_products_bounded env cached state.customer_message
    pure (with_result (codes "products") (products_result result) state)

  unfoldable pub gather_details : AgentState → Action env AgentState
  gather_details state = do
    product_id ← returned (extract_id state.customer_message)
    details_for state product_id

  unfoldable pub gather_categories : AgentState → Action env AgentState
  gather_categories state = do
    categories ← list_categories_tool env cached
    pure (with_result (codes "categories") (categories_result categories) state)

  unfoldable pub inventory_of : Option Text → Action env (List InventoryItem)
  inventory_of search = do
    params ← inventory_search_params env search
    check_inventory env cached params

  -- The ladder of the inventory: the first term that finds a row ends it.
  unfoldable pub climb_inventory :
      Text → List Text → List InventoryItem → Action env (List InventoryItem)
  climb_inventory first [] items = pure items
  climb_inventory first (fallback ∷ ladder) items =
      let rest = climb_inventory first ladder in
      if text_eq fallback first then rest items else (do
        found ← inventory_of (some fallback)
        if is_nil found then rest found else pure found)

  abbrev inventory_fall_back :
      Option Text → List Text → List InventoryItem → Action env (List InventoryItem)
  inventory_fall_back none ladder items = pure items
  inventory_fall_back (some first) ladder items =
      if is_nil items then climb_inventory first ladder items else pure items

  abbrev inventory_ladder : Option Text → List Text → Action env (List InventoryItem)
  inventory_ladder first ladder = do
    items ← inventory_of first
    inventory_fall_back first ladder items

  unfoldable pub gather_inventory : AgentState → Action env AgentState
  gather_inventory state =
      let term = extract_search_term state.customer_message in
      do
        items ←
            inventory_ladder (first_term term (strip state.customer_message))
              (zero_result_fallback_terms state.customer_message term)
        pure (with_result (codes "inventory") (inventory_result items) state)

  unfoldable pub gather_movements : AgentState → Action env AgentState
  gather_movements state = do
    product_id ← returned (extract_id state.customer_message)
    params ← inventory_movement_params env product_id
    history ← get_inventory_movements env params
    pure (with_result (codes "movements") (movements_result history) state)

  -- The body of the `try`.
  abbrev gather_for : IntentName → AgentState → Action env AgentState
  gather_for product_search state = gather_products state
  gather_for product_details state = gather_details state
  gather_for category_browse state = gather_categories state
  gather_for inventory_check state = gather_inventory state
  gather_for inventory_movements state = gather_movements state
  gather_for _ state = pure state

  -- `except ToolError` turns the error into an entry of `tool_errors`.
  unfoldable pub gather_context : AgentState → Action env AgentState
  gather_context state =
      handle (gather_for state.intent state) (catching env (λ e. pure (failed e state)))
