-- ===== src/Agents/Purchase/Node/Costs.antt =====
-- How many requests a call of the node sends at most.
use ecommerce_sales_agent.Prelude.{
  ℕ, ◌+◌, ◌≤◌, ◌≡◌, ◌⊎◌, inl, inr, Bool, true, false, Option, none, some, ◌∷◌, length, arith,
}
use ecommerce_sales_agent.Prelude.Int.{ℤ, pos, leb_ℤ}
use ecommerce_sales_agent.Text.{Text}
use ecommerce_sales_agent.Exec.{Result}
use ecommerce_sales_agent.Inventra.Errors.{Exc, ToolError, tool}
use ecommerce_sales_agent.Inventra.Env.{Env, World, Action, Request}
use ecommerce_sales_agent.Inventra.Client.Costs.{
  Costs, Costs-pure, Costs-raise, Costs-le, Costs-if, Costs-bind, Costs-then, Costs-after,
  Costs-handle, read_cost,
}
use ecommerce_sales_agent.Tools.{stock_out_product, StockOutParams}
use ecommerce_sales_agent.Tools.Costs.{stock_out_params-Costs}
use ecommerce_sales_agent.Tools.Laws.{stock_out_product-IsOnce}
use ecommerce_sales_agent.Agents.State.{PendingPurchase, PurchaseStatus}
use ecommerce_sales_agent.Agents.Turn.{AgentState, PurchaseMessage, stock_unverified}
use ecommerce_sales_agent.Agents.Purchase.Detect.{
  detect_confirmation, detect_decline, detect_purchase_intent,
}
use ecommerce_sales_agent.Agents.Purchase.Pending.{
  to_uuid, load_for, load_pending_purchase, clear_for, clear_pending_purchase,
}
use ecommerce_sales_agent.Agents.Purchase.Stock.{Resolved, available_stock}
use ecommerce_sales_agent.Agents.Purchase.Stock.Costs.{resolve_product-Costs, available_stock-Costs}
use ecommerce_sales_agent.Agents.Purchase.Node.{
  notes_of, stock_out_once, place_order, placed, write_failed, pending_failure, rechecked,
  confirm_pending, confirm_loaded, confirm_phase, decline_loaded, decline_phase, check_catalog,
  offer_resolved, offer, ask_confirmation, order_product, order_extracted, request_phase, purchase,
  on_tool_error, is_short, or_one, failed_reading,
}

module _ (env : Env) (cached database : Bool) where
  load-Costs : (id : Option Text) → Costs 0 (load_pending_purchase env database id)
  unfolding load_pending_purchase
  load-Costs id = from database
    where
      loaded : (o : Option ℕ) → Costs 0 (load_for env o)
      loaded none = Costs-pure env 0 none
      loaded (some c) = record { at = λ w. omega arith }

      from : (b : Bool) → Costs 0 (load_pending_purchase env b id)
      from false = Costs-pure env 0 none
      from true = loaded (to_uuid env id)

  clear-Costs : (id : Option Text) → Costs 0 (clear_pending_purchase env database id)
  unfolding clear_pending_purchase
  clear-Costs id = from database
    where
      cleared : (o : Option ℕ) → Costs 0 (clear_for env o)
      cleared none = Costs-pure env 0 tt
      cleared (some c) = record { at = λ w. ground arith }

      from : (b : Bool) → Costs 0 (clear_pending_purchase env b id)
      from false = Costs-pure env 0 tt
      from true = cleared (to_uuid env id)

  on_tool_error-Costs :
      {A : Type 0} (n : ℕ) (h : ToolError → Action env A)
      → ((e : ToolError) → Costs n (h e))
      → (e : Exc) → Costs n (on_tool_error env cached database h e)
  on_tool_error-Costs n h hh (tool e) = hh e
  on_tool_error-Costs n h hh _ = Costs-raise env n _

  pending_failure-Costs :
      (status : PurchaseStatus) (message : PurchaseMessage) (state : AgentState)
      → Costs 0 (pending_failure env cached database status message state)
  unfolding pending_failure
  pending_failure-Costs status message state =
      Costs-then env _ _ (clear-Costs state.conversation_id) λ _. Costs-pure env 0 _

  stock_out_once-Costs : (p : PendingPurchase) → Costs 1 (stock_out_once env cached database p)
  unfolding stock_out_once
  stock_out_once-Costs p =
      Costs-after env _ _ (stock_out_params-Costs env p.product_id p.quantity (some (notes_of p)))
        λ q. record { at = λ w. once q w (stock_out_product-IsOnce env cached q w).sent }
    where
      once :
          {req : Request} (q : StockOutParams) (w : World env)
          → ((stock_out_product env cached q w).1.sent ≡ w.sent)
            ⊎ ((stock_out_product env cached q w).1.sent ≡ req ∷ w.sent)
          → length (stock_out_product env cached q w).1.sent ≤ length w.sent + 1
      once q w (inl e) = rw e (omega arith)
      once q w (inr e) = rw e (omega arith)

  -- The same as a bind, for a call whose exceptions are dispatched after it.
  attempted :
      {A B : Type 0} (n k : ℕ) (w : World env) (m : Result Exc A × World env)
      (good : A → Action env B) (bad : Exc → Action env B)
      → length m.1.sent ≤ length w.sent + n
      → ((a : A) → Costs k (good a))
      → ((e : Exc) → Costs k (bad e))
      → length
          (elim m.0 as (λ _. Result Exc B × World env) [
            | Result.ok a ↦ good a m.1
            | Result.err e ↦ bad e m.1
          ]).1.sent
        ≤ length w.sent + (n + k)
  attempted n k w (Result.ok a, w') good bad h c d = omega (arith, h, (c a).at w')
  attempted n k w (Result.err e, w') good bad h c d = omega (arith, h, (d e).at w')

  place_order-Costs :
      (p : PendingPurchase) (state : AgentState) → Costs 1 (place_order env cached database p state)
  unfolding place_order
  place_order-Costs p state = record {
    at = λ w. omega (
      arith,
      attempted 1 0 w (stock_out_once env cached database p w) (placed env cached database p state)
          (on_tool_error env cached database (write_failed env cached database p state))
          ((stock_out_once-Costs p).at w)
          (λ r. Costs-then env _ _ (clear-Costs state.conversation_id) λ _. Costs-pure env 0 _)
          (on_tool_error-Costs 0 _
            λ e. Costs-then env _ _ (pending_failure-Costs _ _ state) λ s. Costs-pure env 0 _),
    );
  }

  rechecked-Costs :
      (p : PendingPurchase) (state : AgentState) (available : Option ℤ)
      → Costs 1 (rechecked env cached database p state available)
  unfolding rechecked
  rechecked-Costs p state available =
      Costs-if env (is_short available p.quantity) _ _
        (Costs-le env _ (omega arith)
          (Costs-then env _ _ (clear-Costs state.conversation_id) λ _. Costs-pure env 0 _))
        (place_order-Costs p state)

  confirm_pending-Costs :
      (p : PendingPurchase) (state : AgentState)
      → Costs (read_cost env + 1) (confirm_pending env cached database p state)
  unfolding confirm_pending
  confirm_pending-Costs p state = record {
    at = λ w.
        attempted (read_cost env) 1 w (available_stock env cached p.product_id w)
          (rechecked env cached database p state)
          (on_tool_error env cached database
            λ f. pending_failure env cached database (failed_reading f.code) stock_unverified state)
          ((available_stock-Costs env cached p.product_id).at w) (rechecked-Costs p state)
          (on_tool_error-Costs 1 _ λ f.
            Costs-le env _ (omega arith) (pending_failure-Costs (failed_reading f.code) _ state));
  }

  confirm_loaded-Costs :
      (state : AgentState) (o : Option PendingPurchase)
      → Costs (read_cost env + 1) (confirm_loaded env cached database state o)
  confirm_loaded-Costs state none = Costs-pure env _ state
  confirm_loaded-Costs state (some p) = confirm_pending-Costs p state

  decline_loaded-Costs :
      (state : AgentState) (o : Option PendingPurchase)
      → Costs 0 (decline_loaded env cached database state o)
  decline_loaded-Costs state none = Costs-pure env 0 state
  decline_loaded-Costs state (some p) =
      Costs-then env _ _ (clear-Costs state.conversation_id) λ _. Costs-pure env 0 _

  offer-Costs :
      (p : Resolved) (quantity : ℤ) (state : AgentState) (available : Option ℤ)
      → Costs 0 (offer env cached database p quantity state available)
  unfolding ask_confirmation
  offer-Costs p quantity state available =
      Costs-if env (is_short available quantity) _ _ (Costs-pure env 0 _)
        (Costs-then env _ _ (clear-Costs state.conversation_id) λ _. Costs-pure env 0 _)

  offer_resolved-Costs :
      (quantity : ℤ) (state : AgentState) (found : Option Resolved)
      → Costs (read_cost env) (offer_resolved env cached database quantity state found)
  offer_resolved-Costs quantity state none = Costs-pure env _ _
  offer_resolved-Costs quantity state (some p) =
      Costs-then env _ _ (available_stock-Costs env cached p.id) λ a. offer-Costs p quantity state a

  abbrev pub node_cost : ℕ
  node_cost = read_cost env + read_cost env

  order_product-Costs :
      (term : Text) (quantity : ℤ) (state : AgentState)
      → Costs node_cost (order_product env cached database term quantity state)
  unfolding order_product check_catalog
  order_product-Costs term quantity state =
      Costs-if env (leb_ℤ quantity (pos 0)) _ _ (Costs-pure env _ _) (
        Costs-le env _ (omega arith) (
          Costs-handle env _ _
            (Costs-bind env _ _ (resolve_product-Costs env cached term)
              λ found. offer_resolved-Costs quantity state found)
            (on_tool_error-Costs 0 _ (λ e. Costs-pure env 0 _))))

  order_extracted-Costs :
      (state : AgentState) (x : Option Text × Option ℤ)
      → Costs node_cost (order_extracted env cached database state x)
  order_extracted-Costs state (none, quantity) = Costs-pure env _ _
  order_extracted-Costs state (some term, quantity) =
      order_product-Costs term (or_one env cached database quantity) state

  -- A call of the purchase node sends at most the requests of two reads, each with all its
  -- attempts, or of one read and one write.
  pub purchase-Costs : (state : AgentState) → Costs node_cost (purchase env cached database state)
  unfolding purchase confirm_phase decline_phase request_phase
  purchase-Costs state =
      Costs-if env (detect_confirmation state.customer_message) _ _
        (Costs-le env _ (omega arith)
          (Costs-after env _ _ (load-Costs state.conversation_id) (confirm_loaded-Costs state)))
        (Costs-if env (detect_decline state.customer_message) _ _
          (Costs-le env _ (omega arith)
            (Costs-then env _ _ (load-Costs state.conversation_id) (decline_loaded-Costs state)))
          (Costs-if env (detect_purchase_intent state.customer_message) _ _
            (order_extracted-Costs state _) (Costs-pure env _ state)))
