-- ===== src/Agents/Purchase/Node.antt =====
-- purchase.py: the node. Its three phases are tried in the order of the source.
pub mod Calm
pub mod Writes
pub mod Consumes
pub mod Twice
pub mod Messages
pub mod Asks
pub mod Costs
use ecommerce_sales_agent.Prelude.{
  ℕ, zero, suc, ◌+◌, Bool, true, false, Option, none, some, List, [], ◌∷◌, ◌++◌, if◌then◌else◌,
}
use ecommerce_sales_agent.Prelude.Int.{ℤ, pos, negsuc, leb_ℤ, ltb_ℤ}
use ecommerce_sales_agent.Text.{Text, codes, show_nat}
use ecommerce_sales_agent.Exec.{Result, Exec, pure, raise, ◌>>=◌, ◌>>◌, handle}
use ecommerce_sales_agent.Inventra.Errors.{ToolError, Exc, tool}
use ecommerce_sales_agent.Inventra.Schemas.{Float, StockOutResult}
use ecommerce_sales_agent.Inventra.Env.{Env, World, Action}
use ecommerce_sales_agent.Tools.{stock_out_params, stock_out_product}
use ecommerce_sales_agent.Agents.State
use ecommerce_sales_agent.Agents.State.{
  PurchaseStatus, pending_confirmation, cancelled_by_customer, skipped_product_unresolved,
  skipped_insufficient_stock, skipped_invalid_quantity, completed, failed_unavailable, failed_auth,
  failed_unexpected, ToolErrorCode, timeout, unavailable, upstream_error, auth, PendingPurchase,
}
use ecommerce_sales_agent.Agents.Turn.{
  PurchaseMessage, stock_unverified, only_available_not_placed, not_completed, order_confirmed,
  order_cancelled, which_product, quantity_at_least_one, product_not_found, only_available_no_order,
  confirm_order, catalog_unchecked, raised, AgentState, merge,
}
use ecommerce_sales_agent.Agents.Purchase.Detect.{
  detect_purchase_intent, detect_confirmation, detect_decline, extract_product_and_quantity,
}
use ecommerce_sales_agent.Agents.Purchase.Pending.{load_pending_purchase, clear_pending_purchase}
use ecommerce_sales_agent.Agents.Purchase.Stock.{Resolved, resolve_product, available_stock}

abbrev pub failed_reading : ToolErrorCode → PurchaseStatus
failed_reading timeout = failed_unavailable
failed_reading unavailable = failed_unavailable
failed_reading upstream_error = failed_unavailable
failed_reading _ = failed_unexpected

abbrev pub failed_status : ToolErrorCode → PurchaseStatus
failed_status timeout = failed_unavailable
failed_status unavailable = failed_unavailable
failed_status upstream_error = failed_unavailable
failed_status auth = failed_auth
failed_status _ = failed_unexpected

abbrev show_int : ℤ → Text
show_int (pos n) = show_nat n
show_int (negsuc n) = codes "-" ++ show_nat (suc n)

unfoldable pub notes_of : PendingPurchase → Text
unfolding show_nat
notes_of p =
    codes "Sales agent purchase ("
    ++ (show_int p.quantity ++ (codes " x " ++ (p.product_name ++ codes ")")))

-- The update that every outcome of the node makes; `pending_purchase` is `None` but in phase 1.
abbrev pub outcome : PurchaseStatus → PurchaseMessage → AgentState → AgentState
outcome status message state = record state {
  intent = State.purchase;
  purchase_requested = true;
  purchase_status = status;
  pending_purchase = none;
  purchase_message = some message;
}

abbrev with_quantity : ℤ → AgentState → AgentState
with_quantity q state = record state { purchase_quantity = some q }

abbrev with_error : ToolError → AgentState → AgentState
with_error e state = record state {
  tool_errors = merge (codes "purchase") (raised e) state.tool_errors;
}

abbrev pub is_short : Option ℤ → ℤ → Bool
is_short none quantity = true
is_short (some available) quantity = ltb_ℤ available quantity

module _ (env : Env) (cached database : Bool) where
  -- `except ToolError`: any other exception leaves the node.
  abbrev on_tool_error : {A : Type 0} → (ToolError → Action env A) → Exc → Action env A
  on_tool_error h (tool e) = h e
  on_tool_error h e = raise e

  unfoldable pub pending_failure :
      PurchaseStatus → PurchaseMessage → AgentState → Action env AgentState
  pending_failure status message state = do
    clear_pending_purchase env database state.conversation_id
    pure (outcome status message state)

  abbrev write_failed : PendingPurchase → AgentState → ToolError → Action env AgentState
  write_failed pending state e = do
    state' ← pending_failure (failed_status e.code) not_completed state
    pure (with_error e (with_quantity pending.quantity state'))

  abbrev placed : PendingPurchase → AgentState → StockOutResult → Action env AgentState
  placed pending state result = do
    clear_pending_purchase env database state.conversation_id
    pure (
        with_quantity pending.quantity (
          outcome completed
            (order_confirmed pending.quantity pending.product_name pending.unit_price
              result.quantity)
            state))

  -- The write itself: the parameters are built and sent once.
  unfoldable pub stock_out_once : PendingPurchase → Action env StockOutResult
  stock_out_once pending = do
    params ← stock_out_params env pending.product_id pending.quantity (some (notes_of pending))
    stock_out_product env cached params

  -- `try` the write; what follows a success stands outside the `try`.
  unfoldable pub place_order : PendingPurchase → AgentState → Action env AgentState
  place_order pending state w =
      let (r, w') = stock_out_once pending w in
      elim r [
        | Result.ok result ↦ placed pending state result w'
        | Result.err e ↦ on_tool_error (write_failed pending state) e w'
      ]

  -- After the re-check of the stock.
  unfoldable pub rechecked : PendingPurchase → AgentState → Option ℤ → Action env AgentState
  rechecked pending state available =
      if is_short available pending.quantity
      then (do
        clear_pending_purchase env database state.conversation_id
        pure (
            with_quantity pending.quantity (
              outcome skipped_insufficient_stock
                (only_available_not_placed available pending.product_name) state)))
      else place_order pending state

  unfoldable pub confirm_pending : PendingPurchase → AgentState → Action env AgentState
  confirm_pending pending state w =
      let (r, w') = available_stock env cached pending.product_id w in
      elim r [
        | Result.ok available ↦ rechecked pending state available w'
        | Result.err e ↦
            on_tool_error (λ f. pending_failure (failed_reading f.code) stock_unverified state) e w'
      ]

  abbrev confirm_loaded : AgentState → Option PendingPurchase → Action env AgentState
  confirm_loaded state none = pure state
  confirm_loaded state (some pending) = confirm_pending pending state

  -- Phase 2
  unfoldable pub confirm_phase : AgentState → Action env AgentState
  confirm_phase state = do
    loaded ← load_pending_purchase env database state.conversation_id
    confirm_loaded state loaded

  abbrev decline_loaded : AgentState → Option PendingPurchase → Action env AgentState
  decline_loaded state none = pure state
  decline_loaded state (some pending) = do
    clear_pending_purchase env database state.conversation_id
    pure (outcome cancelled_by_customer order_cancelled state)

  -- Phase 3
  unfoldable pub decline_phase : AgentState → Action env AgentState
  decline_phase state = do
    loaded ← load_pending_purchase env database state.conversation_id
    decline_loaded state loaded

  -- A product with enough stock: the question to confirm, and no write.
  unfoldable pub ask_confirmation : Resolved → ℤ → AgentState → Action env AgentState
  ask_confirmation p quantity state = do
    clear_pending_purchase env database state.conversation_id
    let asked =
        with_quantity quantity
          (outcome pending_confirmation (confirm_order p.name p.price quantity) state)
    pure (record asked {
      pending_purchase = some (record {
        product_id = p.id;
        product_name = p.name;
        quantity = quantity;
        unit_price = p.price;
      });
    })

  abbrev offer : Resolved → ℤ → AgentState → Option ℤ → Action env AgentState
  offer p quantity state available =
      if is_short available quantity
      then pure (
          with_quantity quantity
            (outcome skipped_insufficient_stock (only_available_no_order available p.name) state))
      else ask_confirmation p quantity state

  abbrev offer_resolved : ℤ → AgentState → Option Resolved → Action env AgentState
  offer_resolved quantity state none =
      pure (with_quantity quantity (outcome skipped_product_unresolved product_not_found state))
  offer_resolved quantity state (some p) = do
    available ← available_stock env cached p.id
    offer p quantity state available

  -- The body of the `try`.
  unfoldable pub check_catalog : Text → ℤ → AgentState → Action env AgentState
  check_catalog term quantity state = do
    found ← resolve_product env cached term
    offer_resolved quantity state found

  abbrev lookup_failed : ℤ → AgentState → ToolError → Action env AgentState
  lookup_failed quantity state e = pure (
      with_error e
        (with_quantity quantity (outcome (failed_status e.code) catalog_unchecked state)))

  abbrev or_one : Option ℤ → ℤ
  or_one none = pos 1
  or_one (some q) = q

  unfoldable pub order_product : Text → ℤ → AgentState → Action env AgentState
  order_product term quantity state =
      if leb_ℤ quantity (pos 0)
      then pure
          (with_quantity quantity (outcome skipped_invalid_quantity quantity_at_least_one state))
      else handle (check_catalog term quantity state) (on_tool_error (lookup_failed quantity state))

  -- Without a product the pending purchase of the state is left as it is.
  abbrev order_extracted : AgentState → Option Text × Option ℤ → Action env AgentState
  order_extracted state (none, quantity) =
      pure (record (outcome skipped_invalid_quantity which_product state) {
        pending_purchase = state.pending_purchase;
      })
  order_extracted state (some term, quantity) = order_product term (or_one quantity) state

  -- Phase 1
  unfoldable pub request_phase : AgentState → Action env AgentState
  request_phase state = order_extracted state (extract_product_and_quantity state.customer_message)

  unfoldable pub purchase : AgentState → Action env AgentState
  purchase state =
      if detect_confirmation state.customer_message
      then confirm_phase state
      else if detect_decline state.customer_message
      then decline_phase state
      else if detect_purchase_intent state.customer_message
      then request_phase state
      else pure state
