-- ===== src/Agents/Graph/Laws.antt =====
-- What a whole turn sends.
use ecommerce_sales_agent.Prelude.{
  ℕ, ◌≡◌, refl, ◌⊎◌, inl, inr, Bool, true, false, Option, none, some, ◌∷◌, ◌∙◌,
}
use ecommerce_sales_agent.Text.{Text}
use ecommerce_sales_agent.Exec.{Result, ok, err, continue, ◌>>=◌}
use ecommerce_sales_agent.Inventra.Errors.{Exc}
use ecommerce_sales_agent.Inventra.Env.{Env, World, Action}
use ecommerce_sales_agent.Inventra.Client.Laws.{writes, IsQuiet}
use ecommerce_sales_agent.Agents.State.{PendingPurchase}
use ecommerce_sales_agent.Agents.Turn.{AgentState, initial_state}
use ecommerce_sales_agent.Agents.Gather.Node.{gather_context}
use ecommerce_sales_agent.Agents.Gather.Node.Laws.{gather_context-Quiet}
use ecommerce_sales_agent.Agents.Gather.Node.Keeps.{gather_context-Kept}
use ecommerce_sales_agent.Agents.Purchase.Detect.{detect_confirmation}
use ecommerce_sales_agent.Agents.Purchase.Pending.{to_uuid, load_for, load_pending_purchase}
use ecommerce_sales_agent.Agents.Purchase.Pending.Laws.{IsCalm, Calm, Calm-bind}
use ecommerce_sales_agent.Agents.Purchase.Node.{purchase}
use ecommerce_sales_agent.Agents.Purchase.Node.Writes.{order_of, purchase-writes}
use ecommerce_sales_agent.Agents.Compose.{Provider, compose_reply}
use ecommerce_sales_agent.Agents.Compose.Laws.{compose_reply-Calm}
use ecommerce_sales_agent.Agents.Persist.{persist_turn}
use ecommerce_sales_agent.Agents.Persist.Laws.{persist_turn-Calm}
use ecommerce_sales_agent.Agents.Graph.{classified, run_nodes, run_turn}

module _ (env : Env) (cached database : Bool) (primary : Provider)
    (fallback : Option Provider) where
  -- What is loaded depends on the messages and the faults alone.
  load-same :
      (id : Option Text) (w w' : World env)
      → w'.messages ≡ w.messages
      → w'.faults ≡ w.faults
      → (load_pending_purchase env database id w').0 ≡ (load_pending_purchase env database id w).0
  unfolding load_pending_purchase
  load-same id w w' m f = from database
    where
      loaded : (o : Option ℕ) → (load_for env o w').0 ≡ (load_for env o w).0
      loaded none = refl
      loaded (some c) = rw (m, f) refl

      from :
          (b : Bool) → (load_pending_purchase env b id w').0 ≡ (load_pending_purchase env b id w).0
      from true = loaded (to_uuid env id)
      from false = refl

  -- No write, or the one of the pending purchase that is loaded for a confirming message.
  abbrev IsOrderedBy : Text → Option Text → World env → World env → Type 0
  IsOrderedBy message id w w' =
      (writes w'.sent ≡ writes w.sent)
      ⊎ ((detect_confirmation message ≡ true)
          × ((p : PendingPurchase) × ((load_pending_purchase env database id w).0 ≡ ok (some p))
              × (writes w'.sent ≡ order_of env cached database p ∷ writes w.sent)))

  pub Calm-continue :
      {A B : Type 0} (r : Result Exc A) (f : A → Action env B) (w : World env)
      → ((a : A) → Calm env (f a))
      → IsCalm w (continue r f w).1
  Calm-continue (ok a) f w h = (h a).at w
  Calm-continue (err e) f w h = refl

  abbrev pub finished : AgentState → Action env AgentState
  finished state = do
    composed ← compose_reply env primary fallback state
    persist_turn env database composed

  pub finished-Calm : (state : AgentState) → Calm env (finished state)
  finished-Calm state =
      Calm-bind env _ _ (compose_reply-Calm env primary fallback state)
        (persist_turn-Calm env database)

  extended :
      (message : Text) (id : Option Text) (w w' w'' : World env)
      → IsOrderedBy message id w w'
      → IsCalm w' w''
      → IsOrderedBy message id w w''
  extended message id w w' w'' (inl e) c = inl (c ∙ e)
  extended message id w w' w'' (inr (confirms, (p, loaded, sent))) c =
      inr (confirms, (p, loaded, c ∙ sent))

  purchased-IsOrderedBy :
      (state : AgentState) (w : World env)
      → IsOrderedBy state.customer_message state.conversation_id w
          ((purchase env cached database state >>= finished) w).1
  purchased-IsOrderedBy state w =
      extended state.customer_message state.conversation_id w
        (purchase env cached database state w).1
        ((purchase env cached database state >>= finished) w).1
        (purchase-writes env cached database state w)
        (Calm-continue (purchase env cached database state w).0 finished
          (purchase env cached database state w).1 finished-Calm)

  earlier :
      (message : Text) (id : Option Text) (w w' w'' : World env)
      → writes w'.sent ≡ writes w.sent
      → w'.messages ≡ w.messages
      → w'.faults ≡ w.faults
      → IsOrderedBy message id w' w''
      → IsOrderedBy message id w w''
  earlier message id w w' w'' s m f (inl e) = inl (e ∙ s)
  earlier message id w w' w'' s m f (inr (confirms, (p, loaded, sent))) =
      inr (confirms, (p, cc (load-same id w w' m f, loaded), cc (s, sent)))

  of_message :
      (message message' : Text) (id id' : Option Text) (w w' : World env)
      → message ≡ message'
      → id ≡ id'
      → IsOrderedBy message id w w'
      → IsOrderedBy message' id' w w'
  of_message message message' id id' w w' e f h = rw (← e, ← f) h

  run_nodes-IsOrderedBy :
      (state : AgentState) (w : World env)
      → IsOrderedBy state.customer_message state.conversation_id w
          (run_nodes env cached database primary fallback state w).1
  unfolding run_nodes
  run_nodes-IsOrderedBy state w = gathered (gather_context env cached state w).0 refl
    where
      w₁ : World env
      w₁ = (gather_context env cached state w).1

      quiet : IsQuiet w w₁
      quiet = (gather_context-Quiet env cached state).at w

      gathered :
          (r : Result Exc AgentState)
          → (gather_context env cached state w).0 ≡ r
          → IsOrderedBy state.customer_message state.conversation_id w
              (continue r (λ g. purchase env cached database g >>= finished) w₁).1
      gathered (err e) h = inl quiet.writes
      gathered (ok g) h =
          let kept = (gather_context-Kept env cached state).at w g h in
          earlier state.customer_message state.conversation_id w w₁
            ((purchase env cached database g >>= finished) w₁).1 quiet.writes quiet.messages
            quiet.faults
            (of_message g.customer_message state.customer_message g.conversation_id
              state.conversation_id w₁ ((purchase env cached database g >>= finished) w₁).1
              kept.customer_message kept.conversation_id (purchased-IsOrderedBy g w₁))

  -- A turn of the agent sends no write to Inventra, or the customer's message confirms an order, a
  -- pending purchase of the conversation is stored when the turn begins, and the turn sends exactly
  -- one write: the one of that pending purchase. This holds whatever the providers of the model, the
  -- cache and the service answer, and also where the turn ends in an exception.
  pub run_turn-writes :
      (message : Text) (id : Option Text) (update_id : Option ℕ) (w : World env)
      → (writes (run_turn env cached database primary fallback message id update_id w).1.sent
          ≡ writes w.sent)
        ⊎ ((detect_confirmation message ≡ true)
            × ((p : PendingPurchase) × ((load_pending_purchase env database id w).0 ≡ ok (some p))
                × (writes
                      (run_turn env cached database primary fallback message id update_id w).1.sent
                    ≡ order_of env cached database p ∷ writes w.sent)))
  unfolding run_turn
  run_turn-writes message id update_id w =
      run_nodes-IsOrderedBy
        (classified env cached database primary fallback (initial_state message id update_id)) w
