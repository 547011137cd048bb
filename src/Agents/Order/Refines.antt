-- ===== src/Agents/Order/Refines.antt =====
-- A turn of the agent is a turn of the order protocol.
use ecommerce_sales_agent.Prelude.{ℕ, ◌≤◌, ◌≡◌, Bool, true, Option, some}
use ecommerce_sales_agent.Text.{Text}
use ecommerce_sales_agent.Inventra.Env.{Env, World}
use ecommerce_sales_agent.Inventra.Client.Laws.{writes}
use ecommerce_sales_agent.Agents.State.{PendingPurchase}
use ecommerce_sales_agent.Agents.Turn.{AgentState}
use ecommerce_sales_agent.Agents.Purchase.Pending.{newest_pending}
use ecommerce_sales_agent.Agents.Purchase.Pending.Laws.{marks}
use ecommerce_sales_agent.Agents.Purchase.Node.Writes.{order_of}
use ecommerce_sales_agent.Agents.Compose.{Provider}
use ecommerce_sales_agent.Agents.Graph.Laws.{finished}
use ecommerce_sales_agent.Agents.Order.{IsTurn, Wish}

module _ (env : Env) (cached : Bool) (c : ℕ) (primary : Provider) (fallback : Option Provider) where
  module _
      (codec : (p : PendingPurchase)
        → env.pending_model.validate (env.pending_model.dump p) ≡ some p) where
    abbrev IsStep : Wish → World env → World env → Type 0
    IsStep v w w' =
        IsTurn (order_of env cached true) v (newest_pending env c w.messages) (writes w.sent)
          (newest_pending env c w'.messages) (writes w'.sent)
        × (marks c w'.messages ≤ 1)

    abbrev after : AgentState → World env → World env
    after s w = (finished env cached true primary fallback s w).1
