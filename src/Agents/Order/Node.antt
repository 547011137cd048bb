-- ===== src/Agents/Order/Node.antt =====
-- What the purchase node does, in the terms of the order protocol.
use ecommerce_sales_agent.Prelude.{
  ℕ, ◌≤◌, ◌≡◌, refl, ◌⊎◌, inl, inr, Bool, true, false, Bool-cases, Option, some, [], ◌∷◌, arith,
  length, ap, sym, ◌∙◌,
}
use ecommerce_sales_agent.Text.{Text}
use ecommerce_sales_agent.Exec.{Result, ok, err}
use ecommerce_sales_agent.Inventra.Errors.{Exc}
use ecommerce_sales_agent.Inventra.Env.{Env, World}
use ecommerce_sales_agent.Inventra.Client.Laws.{writes}
use ecommerce_sales_agent.Agents.State.{PendingPurchase}
use ecommerce_sales_agent.Agents.Turn.{AgentState}
use ecommerce_sales_agent.Agents.Purchase.Pending.{to_uuid, newest_pending, load_pending_purchase}
use ecommerce_sales_agent.Agents.Purchase.Pending.Laws.{marks, marks-unmark}
use ecommerce_sales_agent.Agents.Purchase.Node.{purchase}
use ecommerce_sales_agent.Agents.Purchase.Node.Writes.{order_of, purchase-writes}
use ecommerce_sales_agent.Agents.Purchase.Node.Consumes.{IsSpent, purchase-IsSpent}
use ecommerce_sales_agent.Agents.Purchase.Detect.{
  detect_confirmation, detect_decline, detect_purchase_intent,
}
use ecommerce_sales_agent.Agents.Order.{confirms, requests, wish_of, is_about_order}
use ecommerce_sales_agent.Agents.Purchase.Node.Messages.{purchase-Keeps}
use ecommerce_sales_agent.Agents.Purchase.Node.Asks.{
  IsNoneAsked, IsPlain, purchase-Asks, purchase-Plain,
}
use ecommerce_sales_agent.Agents.Order.Messages.{IsNear, unmark-IsNear}

module _ (env : Env) (cached : Bool) (c : ℕ) where
  load-newest :
      (id : Option Text) (w : World env)
      → to_uuid env id ≡ some c
      → w.faults ≡ []
      → (load_pending_purchase env true id w).0 ≡ ok (newest_pending env c w.messages)
  unfolding load_pending_purchase
  load-newest id w known h = rw (known, h) refl

  -- What the node does, in the terms of the protocol.
  pub data IsNode (state : AgentState) (w : World env) (out : Result Exc AgentState × World env)
      : Type 0 where
    silent :
        writes out.1.sent ≡ writes w.sent
        → IsNear env c (newest_pending env c w.messages) out.1.messages
        → ((is_about_order (wish_of state.customer_message) ≡ true) ⊎ (out ≡ (ok state, w)))
        → ((s : AgentState)
            → out.0 ≡ ok s
            → (IsNoneAsked s
                ⊎ ((marks c out.1.messages ≡ 0) × (wish_of state.customer_message ≡ requests)))
              × (s.conversation_id ≡ state.conversation_id))
        → IsNode state w out
    wrote :
        (p : PendingPurchase)
        → wish_of state.customer_message ≡ confirms
        → newest_pending env c w.messages ≡ some p
        → writes out.1.sent ≡ order_of env cached true p ∷ writes w.sent
        → marks c out.1.messages ≡ 0
        → ((s : AgentState) → out.0 ≡ ok s → IsPlain state s)
        → IsNode state w out
    failed :
        (p : PendingPurchase) (e : Exc)
        → wish_of state.customer_message ≡ confirms
        → newest_pending env c w.messages ≡ some p
        → writes out.1.sent ≡ order_of env cached true p ∷ writes w.sent
        → out.0 ≡ err e
        → out.1.messages ≡ w.messages
        → IsNode state w out

  module _ (state : AgentState) (w : World env) (known : to_uuid env state.conversation_id ≡ some c)
      (none_yet : IsNoneAsked state) (h : w.faults ≡ []) (few : marks c w.messages ≤ 1) where
    -- What is returned has a pending purchase only after a request that cleared the conversation's.
    asks :
        (s : AgentState)
        → (purchase env cached true state w).0 ≡ ok s
        → (IsNoneAsked s
            ⊎ ((marks c (purchase env cached true state w).1.messages ≡ 0)
                × (wish_of state.customer_message ≡ requests)))
          × (s.conversation_id ≡ state.conversation_id)
    asks s e = elim (Bool-cases (detect_confirmation state.customer_message)) [
      | inl confirming ↦ plainly (inl confirming)
      | inr a ↦ elim (Bool-cases (detect_decline state.customer_message)) [
        | inl declining ↦ plainly (inr (inl declining))
        | inr b ↦ elim (Bool-cases (detect_purchase_intent state.customer_message)) [
          | inr d ↦ plainly (inr (inr d))
          | inl d ↦
              requested (rw (a, b, d) refl)
                ((purchase-Asks env cached c state known none_yet).at w s h few e)
        ]
      ]
    ]
      where
        plainly :
            (detect_confirmation state.customer_message ≡ true)
              ⊎ ((detect_decline state.customer_message ≡ true)
                  ⊎ (detect_purchase_intent state.customer_message ≡ false))
            → (IsNoneAsked s
                ⊎ ((marks c (purchase env cached true state w).1.messages ≡ 0)
                    × (wish_of state.customer_message ≡ requests)))
              × (s.conversation_id ≡ state.conversation_id)
        plainly k =
            let plain = (purchase-Plain env cached c state known none_yet k).at w s e in
            (inl plain.0, plain.1)

        requested :
            wish_of state.customer_message ≡ requests
            → (IsNoneAsked s ⊎ (marks c (purchase env cached true state w).1.messages ≡ 0))
              × (s.conversation_id ≡ state.conversation_id)
            → (IsNoneAsked s
                ⊎ ((marks c (purchase env cached true state w).1.messages ≡ 0)
                    × (wish_of state.customer_message ≡ requests)))
              × (s.conversation_id ≡ state.conversation_id)
        requested k (inl plain, same) = (inl plain, same)
        requested k (inr gone, same) = (inr (gone, k), same)

    -- A message that is not about an order leaves the node as it came.
    about :
        (is_about_order (wish_of state.customer_message) ≡ true)
        ⊎ (purchase env cached true state w ≡ (ok state, w))
    unfolding purchase
    about = elim (Bool-cases (detect_confirmation state.customer_message)) [
      | inl confirming ↦ inl (rw confirming refl)
      | inr a ↦ elim (Bool-cases (detect_decline state.customer_message)) [
        | inl declining ↦ inl (rw (a, declining) refl)
        | inr b ↦ elim (Bool-cases (detect_purchase_intent state.customer_message)) [
          | inl d ↦ inl (rw (a, b, d) refl)
          | inr d ↦ inr (rw (a, b, d) refl)
        ]
      ]
    ]

    newest :
        (p : PendingPurchase)
        → (load_pending_purchase env true state.conversation_id w).0 ≡ ok (some p)
        → newest_pending env c w.messages ≡ some p
    newest p e = cc (load-newest state.conversation_id w known h, e)

    spent :
        (p : PendingPurchase)
        → detect_confirmation state.customer_message ≡ true
        → newest_pending env c w.messages ≡ some p
        → writes (purchase env cached true state w).1.sent
          ≡ order_of env cached true p ∷ writes w.sent
        → IsSpent env cached c w (purchase env cached true state w)
        → IsNode state w (purchase env cached true state w)
    spent p confirming pending sent (inl same) = absurd (omega (arith, ap length (sym sent ∙ same)))
    spent p confirming pending sent (inr (inl cleared)) =
        wrote p (rw confirming refl) pending sent
          (ap (marks c) cleared ∙ omega (arith, marks-unmark c w.messages, few))
          (λ s e. (purchase-Plain env cached c state known none_yet (inl confirming)).at w s e)
    spent p confirming pending sent (inr (inr gone)) =
        failed p _ (rw confirming refl) pending sent gone.raised gone.messages

    pub purchase-IsNode : IsNode state w (purchase env cached true state w)
    purchase-IsNode = elim (purchase-writes env cached true state w) [
      | inl same ↦
          silent same
            ((purchase-Keeps env (IsNear env c (newest_pending env c w.messages))
                (λ d ms k. unmark-IsNear env c _ d ms k) cached true state).at
              w (inr (refl, few)))
            about asks
      | inr (confirming, (p, loaded, sent)) ↦
          spent p confirming (newest p loaded) sent (purchase-IsSpent env cached c state known w h)
    ]
