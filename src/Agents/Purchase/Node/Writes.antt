-- ===== src/Agents/Purchase/Node/Writes.antt =====
-- How many writes a call of the node sends.
use ecommerce_sales_agent.Prelude.{
  ap, ◌∙◌, leb, Bool-cases, ◌≡◌, refl, ◌⊎◌, inl, inr, Bool, true, false, Option, none, some, List,
  ◌∷◌, if◌then◌else◌,
}
use ecommerce_sales_agent.Prelude.Int.{ℤ, pos, leb_ℤ}
use ecommerce_sales_agent.Exec.{Result, ok, err, pure, continue}
use ecommerce_sales_agent.Inventra.Errors.{Exc}
use ecommerce_sales_agent.Inventra.Schemas.{StockOutResult}
use ecommerce_sales_agent.Inventra.Env.{Env, World, Request}
use ecommerce_sales_agent.Inventra.Client.{stock_out_request}
use ecommerce_sales_agent.Inventra.Client.Laws.{writes}
use ecommerce_sales_agent.Tools.{within, stock_out_params}
use ecommerce_sales_agent.Tools.Laws.{stock_out_product-IsOnce}
use ecommerce_sales_agent.Agents.State.{PendingPurchase}
use ecommerce_sales_agent.Agents.Turn.{AgentState, stock_unverified}
use ecommerce_sales_agent.Agents.Purchase.Detect.{
  detect_confirmation, detect_decline, detect_purchase_intent,
}
use ecommerce_sales_agent.Agents.Purchase.Pending.{load_pending_purchase}
use ecommerce_sales_agent.Agents.Purchase.Pending.Laws.{
  IsCalm, Calm, Calm-bind, Calm-pure, Calm-if, load-Calm, clear-Calm,
}
use ecommerce_sales_agent.Agents.Purchase.Stock.{available_stock}
use ecommerce_sales_agent.Agents.Purchase.Stock.Laws.{available_stock-Quiet}
use ecommerce_sales_agent.Agents.Purchase.Node.{
  notes_of, stock_out_once, place_order, placed, write_failed, pending_failure, rechecked,
  confirm_pending, confirm_loaded, confirm_phase, decline_phase, request_phase, purchase,
  on_tool_error, is_short, failed_reading,
}
use ecommerce_sales_agent.Agents.Purchase.Node.Calm.{
  pending_failure-Calm, write_failed-Calm, placed-Calm, on_tool_error-Calm, request_phase-Calm,
  decline_phase-Calm,
}

module _ (env : Env) (cached database : Bool) where
  -- What the confirmation of a pending purchase may send.
  abbrev pub order_of : PendingPurchase → Request
  order_of p = stock_out_request p.product_id p.quantity (some (notes_of p))

  -- No write, or the one of this pending purchase.
  abbrev pub IsOrdered : PendingPurchase → World env → World env → Type 0
  IsOrdered p w w' =
      (writes w'.sent ≡ writes w.sent) ⊎ (writes w'.sent ≡ order_of p ∷ writes w.sent)

  stock_out_once-IsOrdered :
      (p : PendingPurchase) (w : World env)
      → IsOrdered p w (stock_out_once env cached database p w).1
  unfolding stock_out_once stock_out_params
  stock_out_once-IsOrdered p w = elim (Bool-cases (leb 1 p.product_id)) [
    | inr zero ↦ rw zero (inl refl)
    | inl positive ↦ elim (Bool-cases (leb_ℤ p.quantity (pos 0))) [
      | inl empty ↦ rw (positive, empty) (inl refl)
      | inr some' ↦ elim (Bool-cases (within 500 (some (notes_of p)))) [
        | inr long ↦ rw (positive, some', long) (inl refl)
        | inl short ↦
            rw (positive, some', short) (sent_of (stock_out_product-IsOnce env cached _ w).sent)
      ]
    ]
  ]
    where
      sent_of :
          {l : List Request}
          → (l ≡ w.sent) ⊎ (l ≡ order_of p ∷ w.sent)
          → (writes l ≡ writes w.sent) ⊎ (writes l ≡ order_of p ∷ writes w.sent)
      sent_of (inl e) = inl (ap writes e)
      sent_of (inr e) = inr (ap writes e)

  IsOrdered-Calm :
      (p : PendingPurchase) (w w' w'' : World env)
      → IsOrdered p w w'
      → IsCalm w' w''
      → IsOrdered p w w''
  IsOrdered-Calm p w w' w'' (inl e) c = inl (cc (e, c))
  IsOrdered-Calm p w w' w'' (inr e) c = inr (cc (e, c))

  after_calm :
      (p : PendingPurchase) (w w' w'' : World env)
      → IsCalm w w'
      → IsOrdered p w' w''
      → IsOrdered p w w''
  after_calm p w w' w'' c (inl e) = inl (cc (e, c))
  after_calm p w w' w'' c (inr e) = inr (rw (← c) e)

  place_order-IsOrdered :
      (p : PendingPurchase) (state : AgentState) (w : World env)
      → IsOrdered p w (place_order env cached database p state w).1
  unfolding place_order
  place_order-IsOrdered p state w =
      IsOrdered-Calm p w (stock_out_once env cached database p w).1
        (place_order env cached database p state w).1 (stock_out_once-IsOrdered p w)
        (answered (stock_out_once env cached database p w).0
          (stock_out_once env cached database p w).1)
    where
      answered :
          (r : Result Exc StockOutResult) (w' : World env)
          → IsCalm w'
              (elim r as (λ _. Result Exc AgentState × World env) [
                | Result.ok result ↦ placed env cached database p state result w'
                | Result.err e ↦
                    on_tool_error env cached database
                      (write_failed env cached database p state)
                      e
                      w'
              ]).1
      answered (Result.ok result) w' = (placed-Calm env cached database p state result).at w'
      answered (Result.err e) w' =
          (on_tool_error-Calm env cached database _ (write_failed-Calm env cached database p state)
              e).at
            w'

  rechecked-IsOrdered :
      (p : PendingPurchase) (state : AgentState) (available : Option ℤ) (w : World env)
      → IsOrdered p w (rechecked env cached database p state available w).1
  unfolding rechecked
  rechecked-IsOrdered p state available w = elim (Bool-cases (is_short available p.quantity)) [
    | inl short ↦ rw short (
        inl (
          (Calm-bind env _ _ (clear-Calm env database state.conversation_id)
              λ _. Calm-pure env _).at
            w))
    | inr enough ↦ rw enough (place_order-IsOrdered p state w)
  ]

  confirm_pending-IsOrdered :
      (p : PendingPurchase) (state : AgentState) (w : World env)
      → IsOrdered p w (confirm_pending env cached database p state w).1
  unfolding confirm_pending
  confirm_pending-IsOrdered p state w =
      after_calm p w (available_stock env cached p.product_id w).1
        (confirm_pending env cached database p state w).1
        ((available_stock-Quiet env cached p.product_id).at w).writes
        (checked' (available_stock env cached p.product_id w).0
          (available_stock env cached p.product_id w).1)
    where
      checked' :
          (r : Result Exc (Option ℤ)) (w' : World env)
          → IsOrdered p w'
              (elim r as (λ _. Result Exc AgentState × World env) [
                | Result.ok available ↦ rechecked env cached database p state available w'
                | Result.err e ↦
                    on_tool_error env cached database
                      (λ f.
                        pending_failure env cached database
                          (failed_reading f.code)
                          stock_unverified
                          state)
                      e
                      w'
              ]).1
      checked' (Result.ok available) w' = rechecked-IsOrdered p state available w'
      checked' (Result.err e) w' = inl (
          (on_tool_error-Calm env cached database _
              (λ f. pending_failure-Calm env cached database _ _ state) e).at
            w')

  pub other_phases-Calm :
      (state : AgentState)
      → Calm env (
          if detect_decline state.customer_message
          then decline_phase env cached database state
          else if detect_purchase_intent state.customer_message
          then request_phase env cached database state
          else pure state)
  other_phases-Calm state =
      Calm-if env (detect_decline state.customer_message) _ _
        (decline_phase-Calm env cached database state)
        (Calm-if env (detect_purchase_intent state.customer_message) _ _
          (request_phase-Calm env cached database state) (Calm-pure env state))

  -- The order of one pending purchase, told from what was loaded.
  abbrev OnlyLoaded : AgentState → World env → World env → Type 0
  OnlyLoaded state w w' =
      (writes w'.sent ≡ writes w.sent)
      ⊎ ((detect_confirmation state.customer_message ≡ true)
          × ((p : PendingPurchase) × ((load_pending_purchase env database state.conversation_id w).0
                ≡ ok (some p))
              × (writes w'.sent ≡ order_of p ∷ writes w.sent)))

  confirmed :
      (state : AgentState) (w : World env)
      → detect_confirmation state.customer_message ≡ true
      → OnlyLoaded state w (confirm_phase env cached database state w).1
  unfolding confirm_phase
  confirmed state w confirms =
      loaded (load_pending_purchase env database state.conversation_id w).0 refl
    where
      w₁ : World env
      w₁ = (load_pending_purchase env database state.conversation_id w).1

      same : writes w₁.sent ≡ writes w.sent
      same = (load-Calm env database state.conversation_id).at w

      told :
          (p : PendingPurchase) (w' : World env)
          → (load_pending_purchase env database state.conversation_id w).0 ≡ ok (some p)
          → IsOrdered p w₁ w'
          → OnlyLoaded state w w'
      told p w' e (inl quiet) = inl (quiet ∙ same)
      told p w' e (inr sent) = inr (confirms, (p, e, rw (← same) sent))

      loaded :
          (r : Result Exc (Option PendingPurchase))
          → (load_pending_purchase env database state.conversation_id w).0 ≡ r
          → OnlyLoaded state w (continue r (confirm_loaded env cached database state) w₁).1
      loaded (ok none) e = inl same
      loaded (ok (some p)) e =
          told p (confirm_pending env cached database p state w₁).1 e
            (confirm_pending-IsOrdered p state w₁)
      loaded (err x) e = inl same

  -- A call of the node sends no write, or the message confirms an order, a pending purchase of the
  -- conversation is loaded, and exactly one write is sent, for the product and the quantity of
  -- that pending purchase.
  pub purchase-writes :
      (state : AgentState) (w : World env)
      → (writes (purchase env cached database state w).1.sent ≡ writes w.sent)
        ⊎ ((detect_confirmation state.customer_message ≡ true)
            × ((p : PendingPurchase) × ((load_pending_purchase env database state.conversation_id
                    w).0
                  ≡ ok (some p))
                × (writes (purchase env cached database state w).1.sent
                    ≡ order_of p ∷ writes w.sent)))
  unfolding purchase
  purchase-writes state w = phases (detect_confirmation state.customer_message) refl
    where
      phases :
          (b : Bool)
          → detect_confirmation state.customer_message ≡ b
          → OnlyLoaded state w
              ((if b
                  then confirm_phase env cached database state
                  else if detect_decline state.customer_message
                  then decline_phase env cached database state
                  else if detect_purchase_intent state.customer_message
                  then request_phase env cached database state
                  else pure state)
                w).1
      phases true confirms = confirmed state w confirms
      phases false other = inl ((other_phases-Calm state).at w)
