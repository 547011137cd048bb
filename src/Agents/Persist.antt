-- ===== src/Agents/Persist.antt =====
-- persist.py: `persist_turn`, without the row of `agent_runs`.
pub mod Laws
use ecommerce_sales_agent.Prelude.{
  ℕ, Bool, true, false, Option, none, some, List, [], ◌∷◌, if◌then◌else◌, any, ◌==◌, ◌&&◌, not,
}
use ecommerce_sales_agent.Text.{Text}
use ecommerce_sales_agent.Json.{Json}
use ecommerce_sales_agent.Exec.{Result, ok, pure, ◌>>=◌}
use ecommerce_sales_agent.Inventra.Env.{Env, World, Action, Message, Role, customer, agent}
use ecommerce_sales_agent.Agents.State.{PendingPurchase, ToolErrorCode}
use ecommerce_sales_agent.Agents.Turn.{
  AgentState, Persisted, stored, no_database, invalid_conversation_id, conversation_not_found,
  persistence_error, written,
}
use ecommerce_sales_agent.Agents.Compose.{failures_of}
use ecommerce_sales_agent.Agents.Purchase.Pending.{session_fails, to_uuid}

abbrev pub said : Persisted → AgentState → AgentState
said p state = record state { persisted = p }

abbrev pub has_update : ℕ → ℕ → Option ℕ → Bool
has_update conversation update_id none = false
has_update conversation update_id (some u) = u == update_id

-- A row with this conversation and update id.
abbrev pub is_update : ℕ → ℕ → Message → Bool
is_update conversation update_id m =
    m.conversation == conversation && has_update conversation update_id m.telegram_update_id

-- The unique index on (conversation, update id); rows without an update id are not in it.
abbrev pub is_taken : ℕ → Option ℕ → List Message → Bool
is_taken conversation none ms = false
is_taken conversation (some update_id) ms = any (is_update conversation update_id) ms

module _ (env : Env) where
  abbrev evidence_of : Option PendingPurchase → Option Json
  evidence_of none = none
  evidence_of (some p) = some (env.pending_model.dump p)

  abbrev pub customer_row : ℕ → AgentState → Message
  customer_row conversation state = record {
    conversation = conversation;
    role = customer;
    content_text = written state.customer_message;
    pending = none;
    telegram_update_id = state.telegram_update_id;
  }

  abbrev pub agent_row : ℕ → AgentState → Message
  agent_row conversation state = record {
    conversation = conversation;
    role = agent;
    content_text = state.draft_response;
    pending = evidence_of state.pending_purchase;
    telegram_update_id = none;
  }

  abbrev stored_in : ℕ → AgentState → Action env AgentState
  stored_in conversation state w = (
    ok (said stored state),
    record w {
      messages = agent_row conversation state ∷ customer_row conversation state ∷ w.messages;
    },
  )

  -- `add_all` and `commit`, where the errors of the turn can be read.
  abbrev commit : ℕ → AgentState → Option (List (Text × ToolErrorCode)) → Action env AgentState
  commit conversation state none w = (ok (said persistence_error state), w)
  commit conversation state (some failures) w =
      if is_taken conversation state.telegram_update_id w.messages
      then (ok (said persistence_error state), w)
      else stored_in conversation state w

  abbrev in_session : ℕ → AgentState → Bool → Action env AgentState
  in_session conversation state true w = (ok (said persistence_error state), w)
  in_session conversation state false w =
      if any (λ c. c == conversation) w.conversations
      then commit conversation state (failures_of state.tool_errors) w
      else (ok (said conversation_not_found state), w)

  abbrev persist_for : AgentState → Option ℕ → Action env AgentState
  persist_for state none = pure (said invalid_conversation_id state)
  persist_for state (some conversation) = do
    fails ← session_fails env
    in_session conversation state fails

  unfoldable pub persist_turn : Bool → AgentState → Action env AgentState
  persist_turn false state = pure (said no_database state)
  persist_turn true state = persist_for state (to_uuid env state.conversation_id)
