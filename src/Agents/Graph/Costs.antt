-- ===== src/Agents/Graph/Costs.antt =====
-- How many requests a whole turn sends at most.
use ecommerce_sales_agent.Prelude.{ℕ, suc, ◌+◌, ◌≤◌, Bool, Option, arith, length}
use ecommerce_sales_agent.Text.{Text}
use ecommerce_sales_agent.Inventra.Env.{Env, World}
use ecommerce_sales_agent.Inventra.Client.Costs.{Costs, Costs-le, Costs-bind, Costs-then, read_cost}
use ecommerce_sales_agent.Agents.Turn.{AgentState, initial_state}
use ecommerce_sales_agent.Agents.Gather.Search.Costs.{times}
use ecommerce_sales_agent.Agents.Gather.Node.Costs.{gather_context-Costs}
use ecommerce_sales_agent.Agents.Purchase.Node.Costs.{purchase-Costs}
use ecommerce_sales_agent.Agents.Compose.{Provider}
use ecommerce_sales_agent.Agents.Compose.Laws.{compose_reply-Costs}
use ecommerce_sales_agent.Agents.Persist.Laws.{persist_turn-Costs}
use ecommerce_sales_agent.Agents.Graph.{classified, run_nodes, run_turn}

module _ (env : Env) (cached database : Bool) (primary : Provider)
    (fallback : Option Provider) where
  run_nodes-Costs :
      (state : AgentState)
      → Costs (times 11 (read_cost env)) (run_nodes env cached database primary fallback state)
  unfolding run_nodes
  run_nodes-Costs state = Costs-le env _ (omega arith) (
      Costs-bind env _ _ (gather_context-Costs env cached state) λ gathered.
        Costs-then env _ _ (purchase-Costs env cached database gathered) λ purchased.
          Costs-then env _ _ (compose_reply-Costs env primary fallback purchased)
            (persist_turn-Costs env database))

  -- A turn sends at most eleven times one more request than the client's retries, whatever the
  -- message is and whatever the service, the cache and the providers answer.
  pub run_turn-requests :
      (message : Text) (id : Option Text) (update_id : Option ℕ) (w : World env)
      → length (run_turn env cached database primary fallback message id update_id w).1.sent
        ≤ length w.sent + times 11 (suc env.max_retries)
  unfolding run_turn
  run_turn-requests message id update_id w =
      (run_nodes-Costs
          (classified env cached database primary fallback (initial_state message id update_id))).at
        w
