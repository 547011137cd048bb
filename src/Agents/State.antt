-- ===== src/Agents/State.antt =====
-- backend/app/agents/state.py: the intents, the outcomes of a purchase and the tool failures.
use ecommerce_sales_agent.Prelude.{ℕ}
use ecommerce_sales_agent.Prelude.Int.{ℤ}
use ecommerce_sales_agent.Text.{Text}

pub data IntentName : Type 0 where
  product_search product_details category_browse inventory_check : IntentName
  inventory_movements purchase unknown : IntentName

pub data PurchaseStatus : Type 0 where
  not_requested pending_confirmation cancelled_by_customer : PurchaseStatus
  skipped_product_unresolved skipped_insufficient_stock skipped_invalid_quantity : PurchaseStatus
  completed failed_unavailable failed_auth failed_unexpected : PurchaseStatus

-- The codes of `ToolErrorCode`, and the two that a tool error can have beside them.
pub data ToolErrorCode : Type 0 where
  not_found invalid_input unavailable timeout rate_limited auth : ToolErrorCode
  upstream_error unexpected_response unexpected_error : ToolErrorCode
  config tool_error : ToolErrorCode

pub record PendingPurchase : Type 0 where
  pub product_id : ℕ
  pub product_name : Text
  pub quantity : ℤ
  pub unit_price : ℕ
