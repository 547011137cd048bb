-- ===== src/Agents/Persist/Laws.antt =====
-- What storing a turn changes: the messages of its conversation, and nothing at Inventra.
use ecommerce_sales_agent.Prelude.{
  arith, ℕ, ◌≡◌, refl, inl, inr, Bool, true, false, Option, none, some, List, ◌∷◌, any, ◌==◌,
  Bool-cases, ap,
}
use ecommerce_sales_agent.Text.{Text}
use ecommerce_sales_agent.Inventra.Env.{Env, World, Message}
use ecommerce_sales_agent.Inventra.Client.Laws.{writes}
use ecommerce_sales_agent.Inventra.Client.Costs.{Costs, Costs-pure, Costs-then}
use ecommerce_sales_agent.Agents.State.{ToolErrorCode}
use ecommerce_sales_agent.Agents.Turn.{AgentState}
use ecommerce_sales_agent.Agents.Compose.{failures_of}
use ecommerce_sales_agent.Agents.Purchase.Pending.{to_uuid, session_fails}
use ecommerce_sales_agent.Agents.Purchase.Pending.Laws.{Calm, Calm-pure, Calm-bind}
use ecommerce_sales_agent.Agents.Persist.{
  is_taken, customer_row, agent_row, commit, in_session, persist_for, persist_turn,
}

module _ (env : Env) where
  -- Nothing is stored, or the two rows of the turn are, the customer's first, where no row of the
  -- conversation had the update id.
  pub data IsRecorded (conversation : ℕ) (state : AgentState) (ms ms' : List Message) : Type 0 where
    unchanged : ms' ≡ ms → IsRecorded conversation state ms ms'
    recorded :
        is_taken conversation state.telegram_update_id ms ≡ false
        → ms' ≡ agent_row env conversation state ∷ customer_row env conversation state ∷ ms
        → IsRecorded conversation state ms ms'

  commit-IsRecorded :
      (c : ℕ) (state : AgentState) (o : Option (List (Text × ToolErrorCode))) (w : World env)
      → IsRecorded c state w.messages (commit env c state o w).1.messages
  commit-IsRecorded c state none w = unchanged refl
  commit-IsRecorded c state (some fs) w =
      elim (Bool-cases (is_taken c state.telegram_update_id w.messages)) [
        | inl taken ↦ rw taken (unchanged refl)
        | inr free ↦ rw free (recorded free refl)
      ]

  in_session-IsRecorded :
      (c : ℕ) (state : AgentState) (fails : Bool) (w : World env)
      → IsRecorded c state w.messages (in_session env c state fails w).1.messages
  in_session-IsRecorded c state true w = unchanged refl
  in_session-IsRecorded c state false w = elim (Bool-cases (any (λ d. d == c) w.conversations)) [
    | inl known ↦ rw known (commit-IsRecorded c state (failures_of state.tool_errors) w)
    | inr other ↦ rw other (unchanged refl)
  ]

  -- Storing a turn of a conversation adds both of its rows in one step or none of them, and none
  -- if a row of the conversation has the turn's update id already.
  pub persist_turn-IsRecorded :
      (database : Bool) (c : ℕ) (state : AgentState) (w : World env)
      → to_uuid env state.conversation_id ≡ some c
      → IsRecorded c state w.messages (persist_turn env database state w).1.messages
  unfolding persist_turn
  persist_turn-IsRecorded false c state w h = unchanged refl
  persist_turn-IsRecorded true c state w h =
      rw h (in_session-IsRecorded c state _ (session_fails env w).1)

  in_session-sent :
      (c : ℕ) (state : AgentState) (fails : Bool) (w : World env)
      → (in_session env c state fails w).1.sent ≡ w.sent
  in_session-sent c state true w = refl
  in_session-sent c state false w = elim (Bool-cases (any (λ d. d == c) w.conversations)) [
    | inl known ↦ rw known (commit-sent (failures_of state.tool_errors))
    | inr other ↦ rw other refl
  ]
    where
      commit-sent :
          (o : Option (List (Text × ToolErrorCode))) → (commit env c state o w).1.sent ≡ w.sent
      commit-sent none = refl
      commit-sent (some fs) = elim (Bool-cases (is_taken c state.telegram_update_id w.messages)) [
        | inl taken ↦ rw taken refl
        | inr free ↦ rw free refl
      ]

  session-Calm : (state : AgentState) (o : Option ℕ) → Calm env (persist_for env state o)
  session-Calm state none = Calm-pure env _
  session-Calm state (some c) =
      Calm-bind env (session_fails env) (in_session env c state) (record { at = λ w. refl })
        λ fails. record { at = λ w. ap writes (in_session-sent c state fails w) }

  -- Storing a turn sends nothing to Inventra.
  pub persist_turn-Calm :
      (database : Bool) (state : AgentState) → Calm env (persist_turn env database state)
  unfolding persist_turn
  persist_turn-Calm false state = Calm-pure env _
  persist_turn-Calm true state = session-Calm state (to_uuid env state.conversation_id)

  session-Costs : (state : AgentState) (o : Option ℕ) → Costs 0 (persist_for env state o)
  session-Costs state none = Costs-pure env 0 _
  session-Costs state (some c) =
      Costs-then env (session_fails env) (in_session env c state) (record { at = λ w. omega arith })
        λ fails. record { at = λ w. rw (in_session-sent c state fails w) (omega arith) }

  -- Storing a turn sends no request.
  pub persist_turn-Costs :
      (database : Bool) (state : AgentState) → Costs 0 (persist_turn env database state)
  unfolding persist_turn
  persist_turn-Costs false state = Costs-pure env 0 _
  persist_turn-Costs true state = session-Costs state (to_uuid env state.conversation_id)
