-- ===== src/Agents/Gather/Node/Keeps.antt =====
-- What `gather_context` leaves as it was in the state of the turn.
use ecommerce_sales_agent.Prelude.{◌≡◌, refl, ℕ, Bool, Option, none, some}
use ecommerce_sales_agent.Exec.{ok, pure}
use ecommerce_sales_agent.Exec.Rules.{
  Returns, Returns-pure, Returns-raise, Returns-bind, Returns-handle,
}
use ecommerce_sales_agent.Inventra.Errors.{Exc, tool}
use ecommerce_sales_agent.Inventra.Schemas.{Product}
use ecommerce_sales_agent.Inventra.Env.{Env, Action}
use ecommerce_sales_agent.Agents.State.{
  IntentName, product_search, product_details, category_browse, inventory_check,
  inventory_movements,
}
use ecommerce_sales_agent.Agents.Turn.{AgentState}
use ecommerce_sales_agent.Tools.{inventory_movement_params, get_inventory_movements}
use ecommerce_sales_agent.Agents.Gather.Terms.{extract_id}
use ecommerce_sales_agent.Agents.Gather.Search.{catching}
use ecommerce_sales_agent.Agents.Gather.Node.{
  returned, failed, dumped, details_of, details_resolved, details_for, gather_products,
  gather_details, gather_categories, gather_inventory, gather_movements, gather_for, gather_context,
}

-- The message, the conversation and the pending purchase are those of before.
pub record IsSameTurn (state state' : AgentState) : Type 0 where
  pub customer_message : state'.customer_message ≡ state.customer_message
  pub conversation_id : state'.conversation_id ≡ state.conversation_id
  pub pending_purchase : state'.pending_purchase ≡ state.pending_purchase

module _ (env : Env) (cached : Bool) (state : AgentState) where
  abbrev Kept : Action env AgentState → Type 0
  Kept m = Returns (IsSameTurn state) m

  Kept-pure :
      (state' : AgentState)
      → state'.customer_message ≡ state.customer_message
      → state'.conversation_id ≡ state.conversation_id
      → state'.pending_purchase ≡ state.pending_purchase
      → Kept (pure state')
  Kept-pure state' m c p =
      Returns-pure state'
        (record { customer_message = m; conversation_id = c; pending_purchase = p })

  dumped-Kept : (o : Option Product) → Kept (dumped env cached state o)
  dumped-Kept none = Returns-raise _
  dumped-Kept (some p) = Kept-pure _ refl refl refl

  details_of-Kept : (id : ℕ) → Kept (details_of env cached state id)
  unfolding details_of
  details_of-Kept id = Returns-bind _ _ dumped-Kept

  details_resolved-Kept : (o : Option Product) → Kept (details_resolved env cached state o)
  details_resolved-Kept none = Kept-pure _ refl refl refl
  details_resolved-Kept (some p) = details_of-Kept p.id

  details_for-Kept : (o : Option ℕ) → Kept (details_for env cached state o)
  details_for-Kept (some id) = details_of-Kept id
  details_for-Kept none = Returns-bind _ _ details_resolved-Kept

  gather_for-Kept : (intent : IntentName) → Kept (gather_for env cached intent state)
  unfolding gather_products gather_details gather_categories gather_inventory gather_movements
  gather_for-Kept product_search = Returns-bind _ _ λ r. Kept-pure _ refl refl refl
  gather_for-Kept product_details = Returns-bind _ _ details_for-Kept
  gather_for-Kept category_browse = Returns-bind _ _ λ r. Kept-pure _ refl refl refl
  gather_for-Kept inventory_check = Returns-bind _ _ λ r. Kept-pure _ refl refl refl
  gather_for-Kept inventory_movements =
      Returns-bind (returned env cached (extract_id state.customer_message)) _ λ id.
        Returns-bind (inventory_movement_params env id) _
          λ p. Returns-bind (get_inventory_movements env p) _ λ h. Kept-pure _ refl refl refl
  gather_for-Kept _ = Kept-pure state refl refl refl

  catching-Kept : (e : Exc) → Kept (catching env (λ f. (λ w. (ok (failed f state), w))) e)
  catching-Kept (tool f) = Kept-pure _ refl refl refl
  catching-Kept _ = Returns-raise _

  -- A state that gathering returns is about the same message of the same conversation.
  pub gather_context-Kept : Kept (gather_context env cached state)
  unfolding gather_context
  gather_context-Kept = Returns-handle _ _ (gather_for-Kept state.intent) catching-Kept
