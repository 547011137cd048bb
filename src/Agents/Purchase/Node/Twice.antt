-- ===== src/Agents/Purchase/Node/Twice.antt =====
-- Two calls of the node in a row.
use ecommerce_sales_agent.Prelude.{
  ℕ, ◌≤◌, ◌≡◌, ◌⊎◌, inl, inr, Bool, true, Option, none, some, [], ◌∷◌, arith, ◌∙◌,
}
use ecommerce_sales_agent.Text.{Text}
use ecommerce_sales_agent.Exec.{ok}
use ecommerce_sales_agent.Inventra.Env.{Env, World, Request}
use ecommerce_sales_agent.Inventra.Client.Laws.{writes}
use ecommerce_sales_agent.Agents.State.{PendingPurchase}
use ecommerce_sales_agent.Agents.Turn.{AgentState}
use ecommerce_sales_agent.Agents.Purchase.Pending.{to_uuid, load_pending_purchase}
use ecommerce_sales_agent.Agents.Purchase.Pending.Laws.{marks, marks-unmark, newest_pending-eq-none}
use ecommerce_sales_agent.Agents.Purchase.Detect.{detect_confirmation}
use ecommerce_sales_agent.Agents.Purchase.Node.Writes.{order_of, purchase-writes}
use ecommerce_sales_agent.Agents.Purchase.Node.{purchase}
use ecommerce_sales_agent.Agents.Purchase.Node.Consumes.{IsLost, purchase-IsSpent}

module _ (env : Env) (cached : Bool) (c : ℕ) where
  load-unmarked :
      (id : Option Text) (w : World env)
      → to_uuid env id ≡ some c
      → marks c w.messages ≡ 0
      → (load_pending_purchase env true id w).0 ≡ ok none
  unfolding load_pending_purchase
  load-unmarked id w known h = rw (known, newest_pending-eq-none env c w.messages h) (ground arith)

  -- No write, or exactly one.
  abbrev pub IsAtMostOne : World env → World env → Type 0
  IsAtMostOne w w' =
      (writes w'.sent ≡ writes w.sent) ⊎ ((req : Request) × (writes w'.sent ≡ req ∷ writes w.sent))

  unmarked-silent :
      (state : AgentState) (w : World env)
      → to_uuid env state.conversation_id ≡ some c
      → marks c w.messages ≡ 0
      → writes (purchase env cached true state w).1.sent ≡ writes w.sent
  unmarked-silent state w known h = elim (purchase-writes env cached true state w) [
    | inl silent ↦ silent
    | inr (confirms, (p, loaded, sent)) ↦
        absurd (cc (loaded, load-unmarked state.conversation_id w known h))
  ]

  -- In a conversation with at most one pending purchase, and while the database answers, two calls
  -- of the node in a row, whatever their messages say, send at most one write, unless the first call
  -- ends in the exception of a reply of the service that no handler catches.
  pub purchase-purchase :
      (first second : AgentState) (w : World env)
      → to_uuid env first.conversation_id ≡ some c
      → to_uuid env second.conversation_id ≡ some c
      → w.faults ≡ []
      → marks c w.messages ≤ 1
      → IsAtMostOne w (purchase env cached true second (purchase env cached true first w).1).1
        ⊎ IsLost env cached c w (purchase env cached true first w)
  purchase-purchase first second w known known' h few =
      elim (purchase-IsSpent env cached c first known w h) [
        | inl silent ↦ inl (once_more silent (purchase-writes env cached true second _))
        | inr (inl cleared) ↦ inl (
            both_silent
              (unmarked-silent second (purchase env cached true first w).1 known'
                (rw cleared (omega (arith, marks-unmark c w.messages, few))))
              (purchase-writes env cached true first w))
        | inr (inr lost) ↦ inr lost
      ]
    where
      w₁ : World env
      w₁ = (purchase env cached true first w).1

      w₂ : World env
      w₂ = (purchase env cached true second w₁).1

      once_more :
          writes w₁.sent ≡ writes w.sent
          → (writes w₂.sent ≡ writes w₁.sent)
            ⊎ ((detect_confirmation second.customer_message ≡ true)
                × ((p : PendingPurchase) × ((load_pending_purchase env true second.conversation_id
                        w₁).0
                      ≡ ok (some p))
                    × (writes w₂.sent ≡ order_of env cached true p ∷ writes w₁.sent)))
          → IsAtMostOne w w₂
      once_more e (inl s) = inl (s ∙ e)
      once_more e (inr (confirms, (p, loaded, s))) = inr (order_of env cached true p, cc (s, e))

      both_silent :
          writes w₂.sent ≡ writes w₁.sent
          → (writes w₁.sent ≡ writes w.sent)
            ⊎ ((detect_confirmation first.customer_message ≡ true)
                × ((p : PendingPurchase) × ((load_pending_purchase env true first.conversation_id
                        w).0
                      ≡ ok (some p))
                    × (writes w₁.sent ≡ order_of env cached true p ∷ writes w.sent)))
          → IsAtMostOne w w₂
      both_silent e (inl s) = inl (e ∙ s)
      both_silent e (inr (confirms, (p, loaded, s))) = inr (order_of env cached true p, e ∙ s)
