-- ===== src/Agents/Purchase/Node/Consumes.antt =====
-- A pending purchase is consumed by the call of the node that sends its write.
use ecommerce_sales_agent.Prelude.{
  ℕ, List, ◌≢◌, ◌≡◌, refl, ◌⊎◌, inl, inr, Bool, true, false, Option, none, some, [], arith, leb,
  Bool-cases, ap, ◌∙◌,
}
use ecommerce_sales_agent.Prelude.Int.{ℤ, pos, leb_ℤ}
use ecommerce_sales_agent.Exec.{Result, ok, err, continue}
use ecommerce_sales_agent.Inventra.Errors.{
  Exc, ToolError, tool, inventra, invalid_model, value_error, index_error, attribute_error,
  other_error,
}
use ecommerce_sales_agent.Inventra.Schemas.{StockOutResult}
use ecommerce_sales_agent.Inventra.Env.{Env, World, Action, Request}
use ecommerce_sales_agent.Inventra.Client.Laws.{writes}
use ecommerce_sales_agent.Tools.{StockOutParams, within, stock_out_params, stock_out_product}
use ecommerce_sales_agent.Tools.Laws.{stock_out_product-IsOnce}
use ecommerce_sales_agent.Tools.Errors.{is_tool, stock_out_product-eq-err}
use ecommerce_sales_agent.Inventra.Client.Errors.{IsEscaped}
use ecommerce_sales_agent.Inventra.Client.{stock_out_request}
use ecommerce_sales_agent.Agents.State.{PendingPurchase}
use ecommerce_sales_agent.Agents.Turn.{AgentState, stock_unverified}
use ecommerce_sales_agent.Agents.Purchase.Pending.{
  unmark, to_uuid, load_pending_purchase, clear_pending_purchase,
}
use ecommerce_sales_agent.Agents.Purchase.Pending.Laws.{load-Calm, clear-Calm, Calm-bind, Calm-pure}
use ecommerce_sales_agent.Agents.Purchase.Detect.{detect_confirmation}
use ecommerce_sales_agent.Agents.Purchase.Stock.{available_stock}
use ecommerce_sales_agent.Agents.Purchase.Stock.Laws.{available_stock-Quiet}
use ecommerce_sales_agent.Agents.Purchase.Node.Calm.{on_tool_error-Calm, pending_failure-Calm}
use ecommerce_sales_agent.Agents.Purchase.Node.Writes.{other_phases-Calm}
use ecommerce_sales_agent.Agents.Purchase.Node.{
  notes_of, stock_out_once, place_order, placed, write_failed, rechecked, confirm_pending,
  confirm_loaded, confirm_phase, purchase, on_tool_error, is_short, failed_reading, pending_failure,
}

module _ (env : Env) (cached : Bool) (c : ℕ) where
  -- An exception that no handler catches ended the call: the service gave a reply on which the
  -- client raises it, and the messages are as they were.
  pub record IsLost (w : World env) (out : Result Exc AgentState × World env) : Type 0 where
    pub raised : out.0 ≡ err other_error
    pub messages : out.1.messages ≡ w.messages
    pub sent : List Request
    pub request : Request
    pub escaped : IsEscaped (env.http sent request)

  -- The write was not sent, or the newest pending purchase of the conversation is gone, or the
  -- reply to the write is lost.
  abbrev pub IsSpent : World env → Result Exc AgentState × World env → Type 0
  IsSpent w out =
      (writes out.1.sent ≡ writes w.sent) ⊎ ((out.1.messages ≡ unmark c w.messages) ⊎ IsLost w out)

  -- What an attempt that sends nothing may raise is any error.
  abbrev IsRaised : World env → World env → Exc → Type 0
  IsRaised w w' e =
      (is_tool e ≡ true)
      ⊎ ((writes w'.sent ≡ writes w.sent)
          ⊎ ((e ≡ other_error)
              × ((sent : List Request) × (req : Request) × IsEscaped (env.http sent req))))

  -- One attempt keeps the messages, and what it raises after a write is a tool error or the
  -- exception of a reply that the client does not catch.
  record IsAttempt (w : World env) (out : Result Exc StockOutResult × World env) : Type 0 where
    messages : out.1.messages ≡ w.messages
    faults : out.1.faults ≡ w.faults
    raised : (e : Exc) → out.0 ≡ err e → IsRaised w out.1 e

  refused :
      (w : World env) (m : Action env StockOutResult) (e : Exc)
      → m w ≡ (err e, w)
      → IsAttempt w (m w)
  refused w m e h = rw h (record { messages = refl; faults = refl; raised = λ d k. inr (inl refl) })

  abbrev params_of : PendingPurchase → StockOutParams
  params_of p = record {
    product_id = p.product_id;
    quantity = p.quantity;
    notes = some (notes_of p);
  }

  attempted :
      (p : StockOutParams) (w w' : World env) (e : Exc)
      → (is_tool e ≡ true)
        ⊎ ((e ≡ other_error)
            × IsEscaped (env.http w.sent (stock_out_request p.product_id p.quantity p.notes)))
      → IsRaised w w' e
  attempted p w w' e (inl known) = inl known
  attempted p w w' e (inr (same, escaped)) =
      inr (inr (same, (w.sent, stock_out_request p.product_id p.quantity p.notes, escaped)))

  stock_out_once-IsAttempt :
      (p : PendingPurchase) (w : World env) → IsAttempt w (stock_out_once env cached true p w)
  unfolding stock_out_once stock_out_params
  stock_out_once-IsAttempt p w = elim (Bool-cases (leb 1 p.product_id)) [
    | inr zero ↦ rw zero (record { messages = refl; faults = refl; raised = λ d k. inr (inl refl) })
    | inl positive ↦ elim (Bool-cases (leb_ℤ p.quantity (pos 0))) [
      | inl empty ↦
          rw (positive, empty)
            (record { messages = refl; faults = refl; raised = λ d k. inr (inl refl) })
      | inr some' ↦ elim (Bool-cases (within 500 (some (notes_of p)))) [
        | inr long ↦
            rw (positive, some', long)
              (record { messages = refl; faults = refl; raised = λ d k. inr (inl refl) })
        | inl short ↦
            let once = stock_out_product-IsOnce env cached _ w in
            rw (positive, some', short)
              (record {
                messages = once.messages;
                faults = once.faults;
                raised = λ e h.
                    attempted (params_of p) w (stock_out_product env cached (params_of p) w).1 e
                      (stock_out_product-eq-err env cached (params_of p) w e h);
              })
      ]
    ]
  ]

  unsent :
      (w w' : World env) (e : Exc)
      → is_tool e ≡ false
      → e ≢ other_error
      → IsRaised w w' e
      → writes w'.sent ≡ writes w.sent
  unsent w w' e h d (inl k) = absurd (cc (h, k))
  unsent w w' e h d (inr (inl k)) = k
  unsent w w' e h d (inr (inr (same, lost))) = absurd (d same)

  module _ (state : AgentState) (known : to_uuid env state.conversation_id ≡ some c) where
    pub clear-messages :
        (w : World env)
        → w.faults ≡ []
        → (clear_pending_purchase env true state.conversation_id w).1.messages ≡ unmark c w.messages
    unfolding clear_pending_purchase
    clear-messages w h = rw known (ground arith)

    placed-messages :
        (p : PendingPurchase) (r : StockOutResult) (w : World env)
        → w.faults ≡ []
        → (placed env cached true p state r w).1.messages ≡ unmark c w.messages
    unfolding clear_pending_purchase
    placed-messages p r w h = rw known (ground arith)

    write_failed-messages :
        (p : PendingPurchase) (e : ToolError) (w : World env)
        → w.faults ≡ []
        → (write_failed env cached true p state e w).1.messages ≡ unmark c w.messages
    unfolding pending_failure clear_pending_purchase
    write_failed-messages p e w h = rw known (ground arith)

    place_order-IsSpent :
        (p : PendingPurchase) (w : World env)
        → w.faults ≡ []
        → IsSpent w (place_order env cached true p state w)
    unfolding place_order
    place_order-IsSpent p w h =
        answered (stock_out_once env cached true p w).0 (stock_out_once env cached true p w).1
          (stock_out_once-IsAttempt p w)
      where
        lost :
            (w' : World env)
            → IsAttempt w (err other_error, w')
            → IsRaised w w' other_error
            → IsSpent w (err other_error, w')
        lost w' a (inl known) = absurd (cc known)
        lost w' a (inr (inl same)) = inl same
        lost w' a (inr (inr (same, (sent, req, escaped)))) = inr (
            inr (record {
              raised = refl;
              messages = a.messages;
              sent = sent;
              request = req;
              escaped = escaped;
            }))

        answered :
            (r : Result Exc StockOutResult) (w' : World env)
            → IsAttempt w (r, w')
            → IsSpent w (elim r as (λ _. Result Exc AgentState × World env) [
              | Result.ok result ↦ placed env cached true p state result w'
              | Result.err e ↦
                  on_tool_error env cached true (write_failed env cached true p state) e w'
            ])
        answered (Result.ok result) w' a =
            inr (inl (placed-messages p result w' (a.faults ∙ h) ∙ ap (unmark c) a.messages))
        answered (Result.err (tool e)) w' a =
            inr (inl (write_failed-messages p e w' (a.faults ∙ h) ∙ ap (unmark c) a.messages))
        answered (Result.err other_error) w' a = lost w' a (a.raised other_error refl)
        answered (Result.err (inventra e)) w' a =
            inl (unsent w w' (inventra e) refl (λ k. cc k) (a.raised (inventra e) refl))
        answered (Result.err invalid_model) w' a =
            inl (unsent w w' invalid_model refl (λ k. cc k) (a.raised invalid_model refl))
        answered (Result.err value_error) w' a =
            inl (unsent w w' value_error refl (λ k. cc k) (a.raised value_error refl))
        answered (Result.err index_error) w' a =
            inl (unsent w w' index_error refl (λ k. cc k) (a.raised index_error refl))
        answered (Result.err attribute_error) w' a =
            inl (unsent w w' attribute_error refl (λ k. cc k) (a.raised attribute_error refl))

    IsSpent-after :
        (w w' : World env) (out : Result Exc AgentState × World env)
        → writes w'.sent ≡ writes w.sent
        → w'.messages ≡ w.messages
        → IsSpent w' out
        → IsSpent w out
    IsSpent-after w w' out s m (inl e) = inl (e ∙ s)
    IsSpent-after w w' out s m (inr (inl e)) = inr (inl (e ∙ ap (unmark c) m))
    IsSpent-after w w' out s m (inr (inr lost)) = inr (
        inr (record {
          raised = lost.raised;
          messages = lost.messages ∙ m;
          sent = lost.sent;
          request = lost.request;
          escaped = lost.escaped;
        }))

    rechecked-IsSpent :
        (p : PendingPurchase) (available : Option ℤ) (w : World env)
        → w.faults ≡ []
        → IsSpent w (rechecked env cached true p state available w)
    unfolding rechecked
    rechecked-IsSpent p available w h = elim (Bool-cases (is_short available p.quantity)) [
      | inl short ↦ rw short (
          inl (
            (Calm-bind env _ _ (clear-Calm env true state.conversation_id) λ _. Calm-pure env _).at
              w))
      | inr enough ↦ rw enough (place_order-IsSpent p w h)
    ]

    confirm_pending-IsSpent :
        (p : PendingPurchase) (w : World env)
        → w.faults ≡ []
        → IsSpent w (confirm_pending env cached true p state w)
    unfolding confirm_pending
    confirm_pending-IsSpent p w h =
        let q = (available_stock-Quiet env cached p.product_id).at w in
        IsSpent-after w (available_stock env cached p.product_id w).1
          (confirm_pending env cached true p state w) q.writes q.messages
          (checked' (available_stock env cached p.product_id w).0
            (available_stock env cached p.product_id w).1 (q.faults ∙ h))
      where
        checked' :
            (r : Result Exc (Option ℤ)) (w' : World env)
            → w'.faults ≡ []
            → IsSpent w' (elim r as (λ _. Result Exc AgentState × World env) [
              | Result.ok available ↦ rechecked env cached true p state available w'
              | Result.err e ↦
                  on_tool_error env cached true
                    (λ f.
                      pending_failure env cached true
                        (failed_reading f.code)
                        stock_unverified
                        state)
                    e
                    w'
            ])
        checked' (Result.ok available) w' k = rechecked-IsSpent p available w' k
        checked' (Result.err e) w' k = inl (
            (on_tool_error-Calm env cached true _
                (λ f. pending_failure-Calm env cached true _ _ state) e).at
              w')

    load-messages :
        (w : World env)
        → w.faults ≡ []
        → ((load_pending_purchase env true state.conversation_id w).1.messages ≡ w.messages)
          × ((load_pending_purchase env true state.conversation_id w).1.faults ≡ [])
    unfolding load_pending_purchase
    load-messages w h = rw known (refl, ground arith)

    confirm_phase-IsSpent :
        (w : World env) → w.faults ≡ [] → IsSpent w (confirm_phase env cached true state w)
    unfolding confirm_phase
    confirm_phase-IsSpent w h =
        let (m, f) = load-messages w h in
        IsSpent-after w (load_pending_purchase env true state.conversation_id w).1
          (confirm_phase env cached true state w) ((load-Calm env true state.conversation_id).at w)
          m
          (loaded (load_pending_purchase env true state.conversation_id w).0
            (load_pending_purchase env true state.conversation_id w).1 f)
      where
        loaded :
            (r : Result Exc (Option PendingPurchase)) (w' : World env)
            → w'.faults ≡ []
            → IsSpent w' (continue r (confirm_loaded env cached true state) w')
        loaded (ok none) w' k = inl refl
        loaded (ok (some p)) w' k = confirm_pending-IsSpent p w' k
        loaded (err e) w' k = inl refl

    -- While the database answers, a call of the node sends no write, or it takes the newest pending
    -- purchase of the conversation off its message, or the service gave a reply on which the client
    -- raises an exception that no handler catches, and the call ends in that exception with the
    -- messages as they were.
    pub purchase-IsSpent :
        (w : World env)
        → w.faults ≡ []
        → (writes (purchase env cached true state w).1.sent ≡ writes w.sent)
          ⊎ (((purchase env cached true state w).1.messages ≡ unmark c w.messages)
              ⊎ IsLost w (purchase env cached true state w))
    unfolding purchase
    purchase-IsSpent w h = elim (Bool-cases (detect_confirmation state.customer_message)) [
      | inl confirms ↦ rw confirms (confirm_phase-IsSpent w h)
      | inr other ↦ rw other (inl ((other_phases-Calm env cached true state).at w))
    ]
