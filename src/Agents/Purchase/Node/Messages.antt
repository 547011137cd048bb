-- ===== src/Agents/Purchase/Node/Messages.antt =====
-- What the node does to the stored messages: it takes pending purchases off them, and no more.
use ecommerce_sales_agent.Prelude.{
  ℕ, ◌≡◌, refl, Bool, true, false, Option, none, some, List, if◌then◌else◌, subst, sym, leb,
}
use ecommerce_sales_agent.Prelude.Int.{ℤ, pos, leb_ℤ}
use ecommerce_sales_agent.Text.{Text}
use ecommerce_sales_agent.Exec.{Result, pure, raise, ◌>>=◌}
use ecommerce_sales_agent.Exec.Rules.{
  IsOrder, Moves, Moves-pure, Moves-raise, Moves-bind, Moves-handle,
}
use ecommerce_sales_agent.Inventra.Errors.{Exc, ToolError, tool}
use ecommerce_sales_agent.Inventra.Env.{Env, World, Action, Message}
use ecommerce_sales_agent.Inventra.Client.Laws.{Quiet}
use ecommerce_sales_agent.Tools.{stock_out_params, within}
use ecommerce_sales_agent.Tools.Laws.{stock_out_product-IsOnce}
use ecommerce_sales_agent.Agents.State.{PendingPurchase, PurchaseStatus}
use ecommerce_sales_agent.Agents.Turn.{AgentState, PurchaseMessage, stock_unverified}
use ecommerce_sales_agent.Agents.Purchase.Detect.{
  detect_confirmation, detect_decline, detect_purchase_intent,
}
use ecommerce_sales_agent.Agents.Purchase.Pending.{
  unmark, to_uuid, load_for, load_pending_purchase, clear_for, clear_pending_purchase, next_fault,
}
use ecommerce_sales_agent.Agents.Purchase.Stock.{Resolved, available_stock}
use ecommerce_sales_agent.Agents.Purchase.Stock.Laws.{resolve_product-Quiet, available_stock-Quiet}
use ecommerce_sales_agent.Agents.Purchase.Node.{
  stock_out_once, place_order, placed, write_failed, pending_failure, rechecked, confirm_pending,
  confirm_loaded, confirm_phase, decline_loaded, decline_phase, check_catalog, offer_resolved,
  offer, ask_confirmation, order_product, order_extracted, request_phase, purchase, on_tool_error,
  is_short, or_one, failed_reading, notes_of,
}

-- A property of the stored messages that the one state has is one of the other too.
abbrev pub IsKept : {env : Env} → (List Message → Type 0) → World env → World env → Type 0
IsKept P w w' = P w.messages → P w'.messages

module _ (env : Env) (P : List Message → Type 0) where
  IsKept-order : IsOrder (IsKept {env = env} P)
  IsKept-order = record { same = λ w h. h; trans = λ s t u f g h. g (f h) }

  abbrev pub Keeps : {A : Type 0} → Action env A → Type 0
  Keeps m = Moves (IsKept P) m

  pub Keeps-same :
      {A : Type 0} (m : Action env A) → ((w : World env) → (m w).1.messages ≡ w.messages) → Keeps m
  Keeps-same m h = record { at = λ w k. subst P (sym (h w)) k }

  pub Keeps-Quiet : {A : Type 0} (m : Action env A) → Quiet env m → Keeps m
  Keeps-Quiet m q = Keeps-same m λ w. (q.at w).messages

  pub Keeps-bind :
      {A B : Type 0} (m : Action env A) (f : A → Action env B)
      → Keeps m
      → ((a : A) → Keeps (f a))
      → Keeps (m >>= f)
  Keeps-bind m f hm hf = Moves-bind IsKept-order m f hm hf

  pub Keeps-pure : {A : Type 0} (a : A) → Keeps (pure a)
  Keeps-pure a = Moves-pure IsKept-order a

  pub Keeps-raise : {A : Type 0} (e : Exc) → Keeps {A = A} (raise e)
  Keeps-raise e = Moves-raise IsKept-order e

  pub Keeps-if :
      {A : Type 0} (b : Bool) (m n : Action env A) → Keeps m → Keeps n → Keeps (if b then m else n)
  Keeps-if true m n hm hn = hm
  Keeps-if false m n hm hn = hn

  module _ (unmarked : (c : ℕ) (ms : List Message) → P ms → P (unmark c ms))
      (cached database : Bool) where
    load-Keeps : (id : Option Text) → Keeps (load_pending_purchase env database id)
    unfolding load_pending_purchase
    load-Keeps id = from database
      where
        loaded : (o : Option ℕ) → Keeps (load_for env o)
        loaded none = Keeps-pure none
        loaded (some c) = Keeps-same _ λ w. refl

        from : (b : Bool) → Keeps (load_pending_purchase env b id)
        from false = Keeps-pure none
        from true = loaded (to_uuid env id)

    clear-Keeps : (id : Option Text) → Keeps (clear_pending_purchase env database id)
    unfolding clear_pending_purchase
    clear-Keeps id = from database
      where
        after :
            (fails : Bool) (c : ℕ) (w : World env)
            → P w.messages
            → P (if fails then w else record w { messages = unmark c w.messages }).messages
        after true c w h = h
        after false c w h = unmarked c w.messages h

        cleared : (o : Option ℕ) → Keeps (clear_for env o)
        cleared none = Keeps-pure tt
        cleared (some c) = record { at = λ w h. after (next_fault w.faults) c _ h }

        from : (b : Bool) → Keeps (clear_pending_purchase env b id)
        from false = Keeps-pure tt
        from true = cleared (to_uuid env id)

    clear_then :
        {A : Type 0} (id : Option Text) (f : Unit {0} → A)
        → Keeps (clear_pending_purchase env database id >>= λ u. pure (f u))
    clear_then id f = Keeps-bind _ _ (clear-Keeps id) λ u. Keeps-pure (f u)

    on_tool_error-Keeps :
        {A : Type 0} (h : ToolError → Action env A)
        → ((e : ToolError) → Keeps (h e))
        → (e : Exc) → Keeps (on_tool_error env cached database h e)
    on_tool_error-Keeps h hh (tool e) = hh e
    on_tool_error-Keeps h hh _ = Keeps-raise _

    pending_failure-Keeps :
        (status : PurchaseStatus) (message : PurchaseMessage) (state : AgentState)
        → Keeps (pending_failure env cached database status message state)
    unfolding pending_failure
    pending_failure-Keeps status message state = clear_then state.conversation_id _

    -- A call whose exceptions are dispatched after it.
    attempted :
        {A B : Type 0} (w : World env) (m : Result Exc A × World env) (good : A → Action env B)
        (bad : Exc → Action env B)
        → IsKept P w m.1
        → ((a : A) → Keeps (good a))
        → ((e : Exc) → Keeps (bad e))
        → IsKept P w
            (elim m.0 as (λ _. Result Exc B × World env) [
              | Result.ok a ↦ good a m.1
              | Result.err e ↦ bad e m.1
            ]).1
    attempted w (Result.ok a, w') good bad h c d = λ k. (c a).at w' (h k)
    attempted w (Result.err e, w') good bad h c d = λ k. (d e).at w' (h k)

    stock_out_once-Keeps : (p : PendingPurchase) → Keeps (stock_out_once env cached database p)
    unfolding stock_out_once stock_out_params
    stock_out_once-Keeps p =
        Keeps-bind _ _
          (Keeps-if (leb 1 p.product_id) _ _
            (Keeps-if (leb_ℤ p.quantity (pos 0)) _ _ (Keeps-raise _)
              (Keeps-if (within 500 (some (notes_of p))) _ _ (Keeps-pure _) (Keeps-raise _)))
            (Keeps-raise _))
          λ q. Keeps-same _ λ w. (stock_out_product-IsOnce env cached q w).messages

    place_order-Keeps :
        (p : PendingPurchase) (state : AgentState) → Keeps (place_order env cached database p state)
    unfolding place_order
    place_order-Keeps p state = record {
      at = λ w.
          attempted w (stock_out_once env cached database p w) (placed env cached database p state)
            (on_tool_error env cached database (write_failed env cached database p state))
            ((stock_out_once-Keeps p).at w) (λ r. clear_then state.conversation_id _)
            (on_tool_error-Keeps _
              λ e. Keeps-bind _ _ (pending_failure-Keeps _ _ state) λ s. Keeps-pure _);
    }

    rechecked-Keeps :
        (p : PendingPurchase) (state : AgentState) (available : Option ℤ)
        → Keeps (rechecked env cached database p state available)
    unfolding rechecked
    rechecked-Keeps p state available =
        Keeps-if (is_short available p.quantity) _ _ (clear_then state.conversation_id _)
          (place_order-Keeps p state)

    confirm_pending-Keeps :
        (p : PendingPurchase) (state : AgentState)
        → Keeps (confirm_pending env cached database p state)
    unfolding confirm_pending
    confirm_pending-Keeps p state = record {
      at = λ w.
          attempted w (available_stock env cached p.product_id w)
            (rechecked env cached database p state)
            (on_tool_error env cached database λ f.
              pending_failure env cached database (failed_reading f.code) stock_unverified state)
            ((Keeps-Quiet _ (available_stock-Quiet env cached p.product_id)).at w)
            (rechecked-Keeps p state)
            (on_tool_error-Keeps _ λ f. pending_failure-Keeps (failed_reading f.code) _ state);
    }

    confirm_loaded-Keeps :
        (state : AgentState) (o : Option PendingPurchase)
        → Keeps (confirm_loaded env cached database state o)
    confirm_loaded-Keeps state none = Keeps-pure state
    confirm_loaded-Keeps state (some p) = confirm_pending-Keeps p state

    decline_loaded-Keeps :
        (state : AgentState) (o : Option PendingPurchase)
        → Keeps (decline_loaded env cached database state o)
    decline_loaded-Keeps state none = Keeps-pure state
    decline_loaded-Keeps state (some p) = clear_then state.conversation_id _

    offer-Keeps :
        (p : Resolved) (quantity : ℤ) (state : AgentState) (available : Option ℤ)
        → Keeps (offer env cached database p quantity state available)
    unfolding ask_confirmation
    offer-Keeps p quantity state available =
        Keeps-if (is_short available quantity) _ _ (Keeps-pure _)
          (clear_then state.conversation_id _)

    offer_resolved-Keeps :
        (quantity : ℤ) (state : AgentState) (found : Option Resolved)
        → Keeps (offer_resolved env cached database quantity state found)
    offer_resolved-Keeps quantity state none = Keeps-pure _
    offer_resolved-Keeps quantity state (some p) =
        Keeps-bind _ _ (Keeps-Quiet _ (available_stock-Quiet env cached p.id))
          λ a. offer-Keeps p quantity state a

    order_product-Keeps :
        (term : Text) (quantity : ℤ) (state : AgentState)
        → Keeps (order_product env cached database term quantity state)
    unfolding order_product check_catalog
    order_product-Keeps term quantity state = Keeps-if (leb_ℤ quantity (pos 0)) _ _ (Keeps-pure _) (
        Moves-handle IsKept-order _ _
          (Keeps-bind _ _ (Keeps-Quiet _ (resolve_product-Quiet env cached term))
            λ found. offer_resolved-Keeps quantity state found)
          (on_tool_error-Keeps _ (λ e. Keeps-pure _)))

    order_extracted-Keeps :
        (state : AgentState) (x : Option Text × Option ℤ)
        → Keeps (order_extracted env cached database state x)
    order_extracted-Keeps state (none, quantity) = Keeps-pure _
    order_extracted-Keeps state (some term, quantity) =
        order_product-Keeps term (or_one env cached database quantity) state

    -- A property of the messages that taking a pending purchase off keeps, the node keeps.
    pub purchase-Keeps : (state : AgentState) → Keeps (purchase env cached database state)
    unfolding purchase confirm_phase decline_phase request_phase
    purchase-Keeps state =
        Keeps-if (detect_confirmation state.customer_message) _ _
          (Keeps-bind _ _ (load-Keeps state.conversation_id) (confirm_loaded-Keeps state))
          (Keeps-if (detect_decline state.customer_message) _ _
            (Keeps-bind _ _ (load-Keeps state.conversation_id) (decline_loaded-Keeps state))
            (Keeps-if (detect_purchase_intent state.customer_message) _ _
              (order_extracted-Keeps state _) (Keeps-pure state)))
