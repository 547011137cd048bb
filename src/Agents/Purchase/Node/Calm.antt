-- ===== src/Agents/Purchase/Node/Calm.antt =====
-- The parts of the node that send no write.
use ecommerce_sales_agent.Prelude.{Bool, Option, none, some}
use ecommerce_sales_agent.Prelude.Int.{ℤ, pos, leb_ℤ}
use ecommerce_sales_agent.Text.{Text}
use ecommerce_sales_agent.Exec.Rules.{Moves-handle}
use ecommerce_sales_agent.Inventra.Errors.{Exc, ToolError, tool}
use ecommerce_sales_agent.Inventra.Schemas.{StockOutResult}
use ecommerce_sales_agent.Inventra.Env.{Env, Action}
use ecommerce_sales_agent.Agents.State.{PendingPurchase, PurchaseStatus}
use ecommerce_sales_agent.Agents.Turn.{AgentState, PurchaseMessage}
use ecommerce_sales_agent.Agents.Purchase.Pending.Laws.{
  IsCalm-order, Calm, calm, Calm-bind, Calm-pure, Calm-raise, Calm-if, load-Calm, clear-Calm,
}
use ecommerce_sales_agent.Agents.Purchase.Stock.{Resolved}
use ecommerce_sales_agent.Agents.Purchase.Stock.Laws.{resolve_product-Quiet, available_stock-Quiet}
use ecommerce_sales_agent.Agents.Purchase.Node.{
  placed, write_failed, pending_failure, decline_loaded, decline_phase, check_catalog,
  offer_resolved, offer, ask_confirmation, order_product, order_extracted, request_phase,
  on_tool_error, is_short, or_one,
}

module _ (env : Env) (cached database : Bool) where
  pub pending_failure-Calm :
      (status : PurchaseStatus) (message : PurchaseMessage) (state : AgentState)
      → Calm env (pending_failure env cached database status message state)
  unfolding pending_failure
  pending_failure-Calm status message state =
      Calm-bind env _ _ (clear-Calm env database _) λ _. Calm-pure env _

  pub write_failed-Calm :
      (p : PendingPurchase) (state : AgentState) (e : ToolError)
      → Calm env (write_failed env cached database p state e)
  write_failed-Calm p state e = Calm-bind env _ _ (pending_failure-Calm _ _ _) λ s. Calm-pure env _

  pub placed-Calm :
      (p : PendingPurchase) (state : AgentState) (r : StockOutResult)
      → Calm env (placed env cached database p state r)
  placed-Calm p state r = Calm-bind env _ _ (clear-Calm env database _) λ _. Calm-pure env _

  pub on_tool_error-Calm :
      {A : Type 0} (h : ToolError → Action env A)
      → ((e : ToolError) → Calm env (h e))
      → (e : Exc) → Calm env (on_tool_error env cached database h e)
  on_tool_error-Calm h hh (tool e) = hh e
  on_tool_error-Calm h hh _ = Calm-raise env _

  pub offer-Calm :
      (p : Resolved) (quantity : ℤ) (state : AgentState) (available : Option ℤ)
      → Calm env (offer env cached database p quantity state available)
  unfolding ask_confirmation
  offer-Calm p quantity state available =
      Calm-if env (is_short available quantity) _ _ (Calm-pure env _)
        (Calm-bind env _ _ (clear-Calm env database _) λ _. Calm-pure env _)

  pub offer_resolved-Calm :
      (quantity : ℤ) (state : AgentState) (found : Option Resolved)
      → Calm env (offer_resolved env cached database quantity state found)
  offer_resolved-Calm quantity state none = Calm-pure env _
  offer_resolved-Calm quantity state (some p) =
      Calm-bind env _ _ (calm env _ (available_stock-Quiet env cached p.id))
        λ a. offer-Calm p quantity state a

  pub order_product-Calm :
      (term : Text) (quantity : ℤ) (state : AgentState)
      → Calm env (order_product env cached database term quantity state)
  unfolding order_product check_catalog
  order_product-Calm term quantity state =
      Calm-if env (leb_ℤ quantity (pos 0)) _ _ (Calm-pure env _) (
        Moves-handle IsCalm-order _ _
          (Calm-bind env _ _ (calm env _ (resolve_product-Quiet env cached term))
            λ found. offer_resolved-Calm quantity state found)
          (on_tool_error-Calm _ (λ e. Calm-pure env _)))

  pub order_extracted-Calm :
      (state : AgentState) (x : Option Text × Option ℤ)
      → Calm env (order_extracted env cached database state x)
  order_extracted-Calm state (none, quantity) = Calm-pure env _
  order_extracted-Calm state (some term, quantity) =
      order_product-Calm term (or_one env cached database quantity) state

  -- The order request phase sends no write, whatever the catalog answers.
  pub request_phase-Calm : (state : AgentState) → Calm env (request_phase env cached database state)
  unfolding request_phase
  request_phase-Calm state = order_extracted-Calm state _

  pub decline_loaded-Calm :
      (state : AgentState) (o : Option PendingPurchase)
      → Calm env (decline_loaded env cached database state o)
  decline_loaded-Calm state none = Calm-pure env _
  decline_loaded-Calm state (some p) =
      Calm-bind env _ _ (clear-Calm env database _) λ _. Calm-pure env _

  pub decline_phase-Calm : (state : AgentState) → Calm env (decline_phase env cached database state)
  unfolding decline_phase
  decline_phase-Calm state =
      Calm-bind env _ _ (load-Calm env database _) (decline_loaded-Calm state)
