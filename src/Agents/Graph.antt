-- ===== src/Agents/Graph.antt =====
-- graph.py: one turn is the five nodes in their order.
pub mod Laws
pub mod Costs
pub mod Messages
use ecommerce_sales_agent.Prelude.{ℕ, Bool, Option}
use ecommerce_sales_agent.Text.{Text}
use ecommerce_sales_agent.Exec.{◌>>=◌}
use ecommerce_sales_agent.Inventra.Env.{Env, Action}
use ecommerce_sales_agent.Agents.Turn.{AgentState, initial_state}
use ecommerce_sales_agent.Agents.Classify.{classify_intent}
use ecommerce_sales_agent.Agents.Gather.Node.{gather_context}
use ecommerce_sales_agent.Agents.Purchase.Node.{purchase}
use ecommerce_sales_agent.Agents.Compose.{Provider, compose_reply}
use ecommerce_sales_agent.Agents.Persist.{persist_turn}

module _ (env : Env) (cached database : Bool) (primary : Provider)
    (fallback : Option Provider) where
  abbrev pub classified : AgentState → AgentState
  classified state = record state { intent = classify_intent state.customer_message }

  -- The nodes after `classify_intent`.
  unfoldable pub run_nodes : AgentState → Action env AgentState
  run_nodes state = do
    gathered ← gather_context env cached state
    purchased ← purchase env cached database gathered
    composed ← compose_reply env primary fallback purchased
    persist_turn env database composed

  unfoldable pub run_turn : Text → Option Text → Option ℕ → Action env AgentState
  run_turn customer_message conversation_id telegram_update_id =
      run_nodes (classified (initial_state customer_message conversation_id telegram_update_id))
