-- ===== src/Agents/Turn.antt =====
-- backend/app/agents/state.py: `AgentState`, with the messages of the purchase node as data.
use ecommerce_sales_agent.Prelude.{ℕ, Bool, false, Option, none, List, [], ◌∷◌, if◌then◌else◌}
use ecommerce_sales_agent.Prelude.Int.{ℤ}
use ecommerce_sales_agent.Text.{Text, text_eq}
use ecommerce_sales_agent.Agents.State.{
  IntentName, unknown, PurchaseStatus, not_requested, ToolErrorCode, PendingPurchase,
}
use ecommerce_sales_agent.Inventra.Errors.{ToolError}
use ecommerce_sales_agent.Inventra.Schemas.{
  Product, ProductListResponse, Category, InventoryItem, StockMovementListResponse, Float,
}

-- One constructor for each text that purchase.py composes.
pub data PurchaseMessage : Type 0 where
  stock_unverified : PurchaseMessage
  only_available_not_placed : Option ℤ → Text → PurchaseMessage
  not_completed : PurchaseMessage
  order_confirmed : ℤ → Text → Float → ℤ → PurchaseMessage
  order_cancelled : PurchaseMessage
  which_product : PurchaseMessage
  quantity_at_least_one : PurchaseMessage
  product_not_found : PurchaseMessage
  only_available_no_order : Option ℤ → Text → PurchaseMessage
  confirm_order : Text → Float → ℤ → PurchaseMessage
  catalog_unchecked : PurchaseMessage

-- The reply of a turn: a text of a provider, or one of the templates of compose.py with what it
-- shows.
pub data Reply : Type 0 where
  written : Text → Reply
  purchase_outcome : PurchaseMessage → Bool → Reply
  not_processed : IntentName → ToolErrorCode → Reply
  catalog_unreachable : ToolErrorCode → Reply
  found_products : List Text → Reply
  no_products : Reply
  product_line : Text → Text → Float → Reply
  category_names : List Text → Reply
  stock_status : List (Option Text × ℤ) → Reply
  no_stock : Reply
  movement_count : ℕ → Reply
  no_movements : Reply
  not_sure : Reply

-- What persist.py says in the metadata: `persisted`, or the reason.
pub data Persisted : Type 0 where
  unset stored : Persisted
  no_database invalid_conversation_id conversation_not_found persistence_error : Persisted

pub data ToolResult : Type 0 where
  products_result : ProductListResponse → ToolResult
  product_result : Product → ToolResult
  categories_result : List Category → ToolResult
  inventory_result : List InventoryItem → ToolResult
  movements_result : StockMovementListResponse → ToolResult

-- What stands in `tool_errors`: gather.py puts a `ToolFailure` there, purchase.py the exception.
pub data ToolFailure : Type 0 where
  failure_of : Text → ToolErrorCode → ToolFailure
  raised : ToolError → ToolFailure

pub record AgentState : Type 0 where
  pub conversation_id : Option Text
  pub customer_message : Text
  pub intent : IntentName
  pub purchase_requested : Bool
  pub purchase_quantity : Option ℤ
  pub purchase_status : PurchaseStatus
  pub purchase_message : Option PurchaseMessage
  pub pending_purchase : Option PendingPurchase
  pub tool_results : List (Text × ToolResult)
  pub tool_errors : List (Text × ToolFailure)
  pub draft_response : Reply
  pub model_used : Option Text
  pub fallback_used : Bool
  pub telegram_update_id : Option ℕ
  pub persisted : Persisted

-- `AgentState(customer_message=…, conversation_id=…, metadata=…)`
abbrev pub initial_state : Text → Option Text → Option ℕ → AgentState
initial_state customer_message conversation_id telegram_update_id = record {
  conversation_id = conversation_id;
  customer_message = customer_message;
  intent = unknown;
  purchase_requested = false;
  purchase_quantity = none;
  purchase_status = not_requested;
  purchase_message = none;
  pending_purchase = none;
  tool_results = [];
  tool_errors = [];
  draft_response = written [];
  model_used = none;
  fallback_used = false;
  telegram_update_id = telegram_update_id;
  persisted = unset;
}

-- The reducer `operator.or_` for an update with one key.
abbrev pub merge : {A : Type 0} → Text → A → List (Text × A) → List (Text × A)
merge key a [] = (key, a) ∷ []
merge key a ((k, b) ∷ d) = if text_eq k key then (key, a) ∷ d else (k, b) ∷ merge key a d
