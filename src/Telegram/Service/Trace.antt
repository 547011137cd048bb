-- ===== src/Telegram/Service/Trace.antt =====
-- How many writes a list of messages can send.
use ecommerce_sales_agent.Prelude.{
  ◌+◌, ◌≤◌, inl, inr, List, [], ◌∷◌, Bool-cases, arith, length, keep,
}
use ecommerce_sales_agent.Inventra.Client.Laws.{writes}
use ecommerce_sales_agent.Agents.Purchase.Detect.{detect_confirmation}
use ecommerce_sales_agent.Telegram.Schemas.{InboundMessage}
use ecommerce_sales_agent.Telegram.Service.{Deployment, Desk, process_inbound_message}
use ecommerce_sales_agent.Telegram.Service.Turns.{process_all, process-writes}

-- The messages that confirm an order.
abbrev pub confirmations : List InboundMessage → List InboundMessage
confirmations xs = keep (λ x. detect_confirmation x.text) xs

module _ (app : Deployment) where
  -- One message sends one write at most, and none if it does not confirm.
  process-size :
      (x : InboundMessage) (xs : List InboundMessage) (d : Desk app)
      → length (writes (process_inbound_message app x d).world.sent) + length (confirmations xs)
        ≤ length (writes d.world.sent) + length (confirmations (x ∷ xs))
  process-size x xs d = elim (process-writes app x d) [
    | inl same ↦ elim (Bool-cases (detect_confirmation x.text)) [
      | inl confirms ↦ rw (confirms, same) (omega arith)
      | inr other ↦ rw (other, same) (omega arith)
    ]
    | inr (c, taken, (confirms, (p, loaded, sent))) ↦ rw (confirms, sent) (omega arith)
  ]

  -- Whatever messages are handled, in whatever order and however often one is delivered, all of them
  -- together send at most as many writes to Inventra as there are deliveries whose text confirms an
  -- order.
  pub process_all-writes :
      (xs : List InboundMessage) (d : Desk app)
      → length (writes (process_all app xs d).world.sent)
        ≤ length (writes d.world.sent) + length (confirmations xs)
  process_all-writes [] d = omega arith
  process_all-writes (x ∷ xs) d =
      omega (arith, process_all-writes xs (process_inbound_message app x d), process-size x xs d)
