-- ===== src/Agents/Purchase/Node/Asks.antt =====
-- The node leaves a pending purchase in the state of the turn only where it has cleared the
-- conversation's.
use ecommerce_sales_agent.Prelude.{
  ℕ, ◌≤◌, ◌≡◌, refl, ◌⊎◌, inl, inr, Bool, true, false, Option, none, some, [], arith, if◌then◌else◌,
  ◌∙◌, ap,
}
use ecommerce_sales_agent.Prelude.Int.{ℤ, pos, leb_ℤ}
use ecommerce_sales_agent.Text.{Text}
use ecommerce_sales_agent.Exec.{Result, ok, err, continue, recover, ◌>>=◌, handle, pure}
use ecommerce_sales_agent.Exec.Rules.{
  Returns, Returns-pure, Returns-raise, Returns-bind, Returns-if,
}
use ecommerce_sales_agent.Inventra.Errors.{Exc, ToolError, tool}
use ecommerce_sales_agent.Inventra.Schemas.{StockOutResult}
use ecommerce_sales_agent.Inventra.Env.{Env, World, Action}
use ecommerce_sales_agent.Inventra.Client.Laws.{Quiet}
use ecommerce_sales_agent.Agents.State.{PendingPurchase, PurchaseStatus}
use ecommerce_sales_agent.Agents.Turn.{AgentState, PurchaseMessage, stock_unverified, not_completed}
use ecommerce_sales_agent.Agents.Purchase.Detect.{
  detect_confirmation, detect_decline, detect_purchase_intent,
}
use ecommerce_sales_agent.Agents.Purchase.Pending.{to_uuid, unmark, clear_pending_purchase}
use ecommerce_sales_agent.Agents.Purchase.Pending.Laws.{marks, marks-unmark}
use ecommerce_sales_agent.Agents.Purchase.Stock.{Resolved, available_stock}
use ecommerce_sales_agent.Agents.Purchase.Stock.Laws.{resolve_product-Quiet, available_stock-Quiet}
use ecommerce_sales_agent.Agents.Purchase.Node.{
  stock_out_once, place_order, placed, write_failed, pending_failure, rechecked, confirm_pending,
  confirm_loaded, confirm_phase, decline_loaded, decline_phase, check_catalog, offer_resolved,
  offer, ask_confirmation, order_product, order_extracted, request_phase, purchase, on_tool_error,
  is_short, or_one, failed_reading, failed_status, outcome,
}

abbrev pub IsNoneAsked : AgentState → Type 0
IsNoneAsked s = s.pending_purchase ≡ none

abbrev pub IsPlain : AgentState → AgentState → Type 0
IsPlain state s = IsNoneAsked s × (s.conversation_id ≡ state.conversation_id)

module _ (env : Env) (cached : Bool) where
  -- What is returned has no pending purchase, and is about the same conversation.
  abbrev pub Plain : AgentState → Action env AgentState → Type 0
  Plain state m = Returns (IsPlain state) m

  Plain-then :
      (state : AgentState) (m : Action env AgentState) (f : AgentState → Action env AgentState)
      → Plain state m
      → ((s : AgentState) → IsPlain state s → Plain state (f s))
      → Plain state (m >>= f)
  Plain-then state m f hm hf = record { at = λ w s e. of_result w (m w).0 (m w).1 refl s e }
    where
      of_result :
          (w : World env) (r : Result Exc AgentState) (w' : World env)
          → (m w).0 ≡ r
          → (s : AgentState) → (continue r f w').0 ≡ ok s
          → IsPlain state s
      of_result w (ok a) w' k s e = (hf a (hm.at w a k)).at w' s e
      of_result w (err x) w' k s e = absurd (cc e)

  on_tool_error-Plain :
      (state : AgentState) (h : ToolError → Action env AgentState)
      → ((e : ToolError) → Plain state (h e))
      → (e : Exc) → Plain state (on_tool_error env cached true h e)
  on_tool_error-Plain state h hh (tool e) = hh e
  on_tool_error-Plain state h hh _ = Returns-raise _

  -- A call whose exceptions are dispatched after it.
  dispatched :
      {A : Type 0} (state : AgentState) (m : Action env A) (good : A → Action env AgentState)
      (bad : Exc → Action env AgentState)
      → ((a : A) → Plain state (good a))
      → ((e : Exc) → Plain state (bad e))
      → Plain state (λ w. elim (m w).0 as (λ _. Result Exc AgentState × World env) [
        | Result.ok a ↦ good a (m w).1
        | Result.err e ↦ bad e (m w).1
      ])
  dispatched {A = A} state m good bad hg hb = record { at = λ w s e. of_result (m w).0 (m w).1 s e }
    where
      of_result :
          (r : Result Exc A) (w' : World env) (s : AgentState)
          → (elim r as (λ _. Result Exc AgentState × World env) [
            | Result.ok a ↦ good a w'
            | Result.err e ↦ bad e w'
          ]).0
            ≡ ok s
          → IsPlain state s
      of_result (Result.ok a) w' s e = (hg a).at w' s e
      of_result (Result.err x) w' s e = (hb x).at w' s e

  pending_failure-Plain :
      (status : PurchaseStatus) (message : PurchaseMessage) (state : AgentState)
      → Plain state (pending_failure env cached true status message state)
  unfolding pending_failure
  pending_failure-Plain status message state =
      Returns-bind (clear_pending_purchase env true state.conversation_id) _
        λ u. Returns-pure (outcome status message state) (refl, refl)

  write_failed-Plain :
      (p : PendingPurchase) (state : AgentState) (e : ToolError)
      → Plain state (write_failed env cached true p state e)
  write_failed-Plain p state e =
      Plain-then state (pending_failure env cached true (failed_status e.code) not_completed state)
        _ (pending_failure-Plain _ _ state) λ s h. Returns-pure _ h

  placed-Plain :
      (p : PendingPurchase) (state : AgentState) (r : StockOutResult)
      → Plain state (placed env cached true p state r)
  placed-Plain p state r =
      Returns-bind (clear_pending_purchase env true state.conversation_id) _
        λ u. Returns-pure _ (refl, refl)

  place_order-Plain :
      (p : PendingPurchase) (state : AgentState) → Plain state (place_order env cached true p state)
  unfolding place_order
  place_order-Plain p state =
      dispatched state (stock_out_once env cached true p) (placed env cached true p state)
        (on_tool_error env cached true (write_failed env cached true p state))
        (placed-Plain p state) (on_tool_error-Plain state _ (write_failed-Plain p state))

  rechecked-Plain :
      (p : PendingPurchase) (state : AgentState) (available : Option ℤ)
      → Plain state (rechecked env cached true p state available)
  unfolding rechecked
  rechecked-Plain p state available =
      Returns-if (is_short available p.quantity) _ _
        (Returns-bind (clear_pending_purchase env true state.conversation_id) _
          λ u. Returns-pure _ (refl, refl))
        (place_order-Plain p state)

  confirm_pending-Plain :
      (p : PendingPurchase) (state : AgentState)
      → Plain state (confirm_pending env cached true p state)
  unfolding confirm_pending
  confirm_pending-Plain p state =
      dispatched state (available_stock env cached p.product_id) (rechecked env cached true p state)
        (on_tool_error env cached true
          λ f. pending_failure env cached true (failed_reading f.code) stock_unverified state)
        (rechecked-Plain p state)
        (on_tool_error-Plain state _ λ f. pending_failure-Plain (failed_reading f.code) _ state)

  confirm_phase-Plain :
      (state : AgentState) → IsNoneAsked state → Plain state (confirm_phase env cached true state)
  unfolding confirm_phase
  confirm_phase-Plain state h = Returns-bind _ _ loaded
    where
      loaded : (o : Option PendingPurchase) → Plain state (confirm_loaded env cached true state o)
      loaded none = Returns-pure state (h, refl)
      loaded (some p) = confirm_pending-Plain p state

  decline_phase-Plain :
      (state : AgentState) → IsNoneAsked state → Plain state (decline_phase env cached true state)
  unfolding decline_phase
  decline_phase-Plain state h = Returns-bind _ _ loaded
    where
      loaded : (o : Option PendingPurchase) → Plain state (decline_loaded env cached true state o)
      loaded none = Returns-pure state (h, refl)
      loaded (some p) = Returns-bind _ _ λ u. Returns-pure _ (refl, refl)

  module _ (c : ℕ) (state : AgentState) where
    -- While the database answers and the conversation has at most one pending purchase: what is
    -- returned has none, or the conversation has none any more.
    pub record Asks (m : Action env AgentState) : Type 0 where
      pub at :
          (w : World env) (s : AgentState)
          → w.faults ≡ []
          → marks c w.messages ≤ 1
          → (m w).0 ≡ ok s
          → (IsNoneAsked s ⊎ (marks c (m w).1.messages ≡ 0))
            × (s.conversation_id ≡ state.conversation_id)

    Asks-Plain : (m : Action env AgentState) → Plain state m → Asks m
    Asks-Plain m h = record { at = λ w s f k e. (inl (h.at w s e).0, (h.at w s e).1) }

    Asks-if : (b : Bool) (m n : Action env AgentState) → Asks m → Asks n → Asks (if b then m else n)
    Asks-if true m n hm hn = hm
    Asks-if false m n hm hn = hn

    Asks-Quiet :
        {A : Type 0} (m : Action env A) (f : A → Action env AgentState)
        → Quiet env m
        → ((a : A) → Asks (f a))
        → Asks (m >>= f)
    Asks-Quiet {A = A} m f q hf = record {
      at = λ w s faults few e.
          of_result (m w).0 (m w).1 s ((q.at w).faults ∙ faults) (rw (q.at w).messages few) e;
    }
      where
        of_result :
            (r : Result Exc A) (w' : World env) (s : AgentState)
            → w'.faults ≡ []
            → marks c w'.messages ≤ 1
            → (continue r f w').0 ≡ ok s
            → (IsNoneAsked s ⊎ (marks c (continue r f w').1.messages ≡ 0))
              × (s.conversation_id ≡ state.conversation_id)
        of_result (ok a) w' s faults few e = (hf a).at w' s faults few e
        of_result (err x) w' s faults few e = absurd (cc e)

    Asks-handle :
        (m : Action env AgentState) (h : Exc → Action env AgentState)
        → Asks m
        → ((e : Exc) → Plain state (h e))
        → Asks (handle m h)
    Asks-handle m h hm hh = record {
      at = λ w s faults few e.
          of_result w (m w).0 (m w).1 s (λ k. hm.at w s faults few k) refl refl e;
    }
      where
        of_result :
            (w : World env) (r : Result Exc AgentState) (w' : World env) (s : AgentState)
            → ((m w).0 ≡ ok s
                → (IsNoneAsked s ⊎ (marks c (m w).1.messages ≡ 0))
                  × (s.conversation_id ≡ state.conversation_id))
            → (m w).0 ≡ r
            → (m w).1 ≡ w'
            → (recover r h w').0 ≡ ok s
            → (IsNoneAsked s ⊎ (marks c (recover r h w').1.messages ≡ 0))
              × (s.conversation_id ≡ state.conversation_id)
        of_result w (ok a) w' s back k k' e = rw (← k') (back (cc (k, e)))
        of_result w (err x) w' s back k k' e = (inl ((hh x).at w' s e).0, ((hh x).at w' s e).1)

    module _ (known : to_uuid env state.conversation_id ≡ some c)
        (none_yet : IsNoneAsked state) where
      ask-messages :
          (p : Resolved) (quantity : ℤ) (w : World env)
          → w.faults ≡ []
          → (ask_confirmation env cached true p quantity state w).1.messages ≡ unmark c w.messages
      unfolding ask_confirmation clear_pending_purchase
      ask-messages p quantity w faults = rw known (ground arith)

      ask-conversation :
          (p : Resolved) (quantity : ℤ)
          → Returns
              (λ s. s.conversation_id ≡ state.conversation_id)
              (ask_confirmation env cached true p quantity state)
      unfolding ask_confirmation
      ask-conversation p quantity =
          Returns-bind (clear_pending_purchase env true state.conversation_id) _
            λ u. Returns-pure _ refl

      ask-Asks :
          (p : Resolved) (quantity : ℤ) → Asks (ask_confirmation env cached true p quantity state)
      ask-Asks p quantity = record {
        at = λ w s faults few e. (
          inr (
              ap (marks c) (ask-messages p quantity w faults)
              ∙ omega (arith, marks-unmark c w.messages, few)),
          (ask-conversation p quantity).at w s e,
        );
      }

      offer-Asks :
          (p : Resolved) (quantity : ℤ) (available : Option ℤ)
          → Asks (offer env cached true p quantity state available)
      offer-Asks p quantity available =
          Asks-if (is_short available quantity) _ _ (Asks-Plain _ (Returns-pure _ (refl, refl)))
            (ask-Asks p quantity)

      offer_resolved-Asks :
          (quantity : ℤ) (found : Option Resolved)
          → Asks (offer_resolved env cached true quantity state found)
      offer_resolved-Asks quantity none = Asks-Plain _ (Returns-pure _ (refl, refl))
      offer_resolved-Asks quantity (some p) =
          Asks-Quiet _ _ (available_stock-Quiet env cached p.id) λ a. offer-Asks p quantity a

      order_product-Asks :
          (term : Text) (quantity : ℤ) → Asks (order_product env cached true term quantity state)
      unfolding order_product check_catalog
      order_product-Asks term quantity =
          Asks-if (leb_ℤ quantity (pos 0)) _ _ (Asks-Plain _ (Returns-pure _ (refl, refl))) (
            Asks-handle _ _
              (Asks-Quiet _ _ (resolve_product-Quiet env cached term)
                λ found. offer_resolved-Asks quantity found)
              (on_tool_error-Plain state _ λ e. Returns-pure _ (refl, refl)))

      order_extracted-Asks :
          (x : Option Text × Option ℤ) → Asks (order_extracted env cached true state x)
      order_extracted-Asks (none, quantity) = Asks-Plain _ (Returns-pure _ (none_yet, refl))
      order_extracted-Asks (some term, quantity) =
          order_product-Asks term (or_one env cached true quantity)

      -- While the database answers, in a conversation with at most one pending purchase, the node
      -- returns a state with a pending purchase only where the conversation has none any more.
      pub purchase-Asks : Asks (purchase env cached true state)
      unfolding purchase request_phase
      purchase-Asks =
          Asks-if (detect_confirmation state.customer_message) _ _
            (Asks-Plain _ (confirm_phase-Plain state none_yet))
            (Asks-if (detect_decline state.customer_message) _ _
              (Asks-Plain _ (decline_phase-Plain state none_yet))
              (Asks-if (detect_purchase_intent state.customer_message) _ _ (order_extracted-Asks _)
                (Asks-Plain _ (Returns-pure _ (none_yet, refl)))))

      -- Where the message is no order request, the node returns a state without a pending purchase.
      pub purchase-Plain :
          (detect_confirmation state.customer_message ≡ true)
            ⊎ ((detect_decline state.customer_message ≡ true)
                ⊎ (detect_purchase_intent state.customer_message ≡ false))
          → Plain state (purchase env cached true state)
      unfolding purchase
      purchase-Plain h =
          no_request (detect_confirmation state.customer_message)
            (detect_decline state.customer_message) (detect_purchase_intent state.customer_message)
            h
        where
          no_request :
              (b d i : Bool)
              → (b ≡ true) ⊎ ((d ≡ true) ⊎ (i ≡ false))
              → Plain state (
                  if b
                  then confirm_phase env cached true state
                  else if d
                  then decline_phase env cached true state
                  else if i
                  then request_phase env cached true state
                  else pure state)
          no_request true d i k = confirm_phase-Plain state none_yet
          no_request false true i k = decline_phase-Plain state none_yet
          no_request false false false k = Returns-pure _ (none_yet, refl)
          no_request false false true (inl k) = absurd (cc k)
          no_request false false true (inr (inl k)) = absurd (cc k)
          no_request false false true (inr (inr k)) = absurd (cc k)
