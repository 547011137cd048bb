-- ===== src/Agents/Order/Rest.antt =====
-- What the nodes after the purchase node leave of the messages.
use ecommerce_sales_agent.Prelude.{
  ℕ, ◌≡◌, refl, ◌⊎◌, inl, inr, Bool, true, Option, none, some, List, ◌∷◌, ap, ◌∙◌,
}
use ecommerce_sales_agent.Exec.{Result, ok, err, ◌>>=◌}
use ecommerce_sales_agent.Inventra.Env.{Env, World, Message}
use ecommerce_sales_agent.Agents.Turn.{AgentState}
use ecommerce_sales_agent.Agents.Purchase.Pending.{to_uuid}
use ecommerce_sales_agent.Agents.Compose.{
  Provider, Prompt, LlmError, GenerationResponse, build_prompt, with_prompt, composed, settled,
  GatewayError, all_failed, passed, generate, compose_reply,
}
use ecommerce_sales_agent.Agents.Persist.{customer_row, agent_row, persist_turn}
use ecommerce_sales_agent.Agents.Persist.Laws.{IsRecorded, persist_turn-IsRecorded}
use ecommerce_sales_agent.Agents.Graph.Laws.{finished}

module _ (env : Env) (cached : Bool) (c : ℕ) where
  -- The messages after the rest of the turn: as before, or with the two rows of a state with the
  -- same pending purchase.
  abbrev pub IsClosed : AgentState → List Message → List Message → Type 0
  IsClosed s ms ms' =
      (ms' ≡ ms)
      ⊎ ((s' : AgentState) × (s'.pending_purchase ≡ s.pending_purchase)
          × (ms' ≡ agent_row env c s' ∷ customer_row env c s' ∷ ms))

  recorded-IsClosed :
      (s s' : AgentState) (ms ms' : List Message)
      → s'.pending_purchase ≡ s.pending_purchase
      → IsRecorded env c s' ms ms'
      → IsClosed s ms ms'
  recorded-IsClosed s s' ms ms' h (IsRecorded.unchanged e) = inl e
  recorded-IsClosed s s' ms ms' h (IsRecorded.recorded free e) = inr (s', h, e)

  module _ (primary : Provider) (fallback : Option Provider) where
    composed-pending :
        (s : AgentState) (r : Result (List LlmError) GenerationResponse)
        → (composed s r).pending_purchase ≡ s.pending_purchase
    composed-pending s (ok response) = refl
    composed-pending s (err codes') = refl

    composed-conversation :
        (s : AgentState) (r : Result (List LlmError) GenerationResponse)
        → (composed s r).conversation_id ≡ s.conversation_id
    composed-conversation s (ok response) = refl
    composed-conversation s (err codes') = refl

    pub finished-IsClosed :
        (s : AgentState) (w : World env)
        → to_uuid env s.conversation_id ≡ some c
        → IsClosed s w.messages (finished env cached true primary fallback s w).1.messages
    unfolding compose_reply
    finished-IsClosed s w known = from (build_prompt s)
      where
        kept :
            (r : Result (List LlmError) GenerationResponse)
            → IsClosed s w.messages (persist_turn env true (composed s r) w).1.messages
        kept r = recorded-IsClosed s (composed s r) w.messages _ (composed-pending s r) (
            persist_turn-IsRecorded env true c (composed s r) w
              (ap (to_uuid env) (composed-conversation s r) ∙ known))

        settled_on :
            (r : Result GatewayError GenerationResponse)
            → IsClosed s w.messages ((settled env s r >>= persist_turn env true) w).1.messages
        settled_on (ok response) = kept (ok response)
        settled_on (err (all_failed codes')) = kept (err codes')
        settled_on (err (passed e)) = inl refl

        from :
            (o : Option Prompt)
            → IsClosed s w.messages
                ((with_prompt env primary fallback s o >>= persist_turn env true) w).1.messages
        from none = inl refl
        from (some prompt) = settled_on (generate primary fallback prompt)
