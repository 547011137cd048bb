-- ===== src/Agents/Order.antt =====
-- The order protocol that agents/purchase.py means to follow, without messages, catalog or cache: a
-- conversation has one pending purchase at most, and an order is what confirms it.
pub mod Messages
pub mod Node
pub mod Rest
pub mod Refines
use ecommerce_sales_agent.Prelude.{
  ◌≡◌, Bool, true, false, Option, none, some, List, ◌∷◌, if◌then◌else◌,
}
use ecommerce_sales_agent.Text.{Text}
use ecommerce_sales_agent.Inventra.Env.{Request}
use ecommerce_sales_agent.Agents.State.{PendingPurchase}
use ecommerce_sales_agent.Agents.Purchase.Detect.{
  detect_confirmation, detect_decline, detect_purchase_intent,
}

-- What a message asks for, the first that applies.
pub data Wish : Type 0 where
  confirms declines requests other : Wish

abbrev pub wish_of : Text → Wish
wish_of message =
    if detect_confirmation message
    then confirms
    else if detect_decline message
    then declines
    else if detect_purchase_intent message
    then requests
    else other

abbrev pub is_about_order : Wish → Bool
is_about_order other = false
is_about_order _ = true

-- One turn: nothing happens; a message about an order drops the pending purchase; a request asks for
-- another one; a confirmation orders the pending one, with one write, and it is gone; or the reply to
-- that write is lost, and it stays.
module _ (order_of : PendingPurchase → Request) where
  pub data IsTurn
      : Wish
        → Option PendingPurchase
        → List Request
        → Option PendingPurchase
        → List Request
        → Type 0 where
    idle : {v : Wish} {o : Option PendingPurchase} {ws : List Request} → IsTurn v o ws o ws
    dropped :
        {v : Wish} {o : Option PendingPurchase} {ws : List Request}
        → is_about_order v ≡ true
        → IsTurn v o ws none ws
    asked :
        {o : Option PendingPurchase} {ws : List Request} (q : PendingPurchase)
        → IsTurn requests o ws (some q) ws
    ordered :
        {ws : List Request} (p : PendingPurchase)
        → IsTurn confirms (some p) ws none (order_of p ∷ ws)
    lost :
        {ws : List Request} (p : PendingPurchase)
        → IsTurn confirms (some p) ws (some p) (order_of p ∷ ws)
