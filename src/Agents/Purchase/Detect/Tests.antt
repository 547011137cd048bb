-- ===== src/Agents/Purchase/Detect/Tests.antt =====
-- Runs of the detectors and of the extraction on messages.
use ecommerce_sales_agent.Prelude.{◌≡◌, refl, true, false, none, some}
use ecommerce_sales_agent.Prelude.Int.{pos, negsuc}
use ecommerce_sales_agent.Text.{codes}
use ecommerce_sales_agent.Agents.Purchase.Detect.{
  detect_purchase_intent, detect_confirmation, detect_decline, extract_product_and_quantity,
}

orders :
    (detect_purchase_intent (codes "I want to buy 1 Samsung Galaxy S26") ≡ true)
    × (detect_purchase_intent (codes "Please order 2 lamps") ≡ true)
    × (detect_purchase_intent (codes "where can I buy a case for my laptop?") ≡ false)
    × (detect_purchase_intent (codes "I'd like to purchase trail shoes") ≡ true)
unfolding detect_purchase_intent
orders = (refl, refl, refl, refl)

confirmations :
    (detect_confirmation (codes "Yes!") ≡ true)
    × (detect_confirmation (codes "yes, confirm the order") ≡ true)
    × (detect_confirmation (codes "yesterday") ≡ false)
    × (detect_confirmation (codes "Place my order for 2 lamps") ≡ true)
unfolding detect_confirmation
confirmations = (refl, refl, refl, refl)

declines :
    (detect_decline (codes "no") ≡ true)
    × (detect_decline (codes "Cancel the order") ≡ true)
    × (detect_decline (codes "north") ≡ false)
unfolding detect_decline
declines = (refl, refl, refl)

extractions :
    (extract_product_and_quantity (codes "buy 2 Samsung Galaxy S26")
      ≡ (some (codes "Samsung Galaxy S26"), some (pos 2)))
    × (extract_product_and_quantity (codes "Order three lamps.")
        ≡ (some (codes "lamps"), some (pos 3)))
    × (extract_product_and_quantity (codes "I want to buy the lamp")
        ≡ (some (codes "the lamp"), none))
    × (extract_product_and_quantity (codes "buy -1 lamp") ≡ (some (codes "lamp"), some (negsuc 0)))
    × (extract_product_and_quantity (codes "place an order for 2 lamps")
        ≡ (some (codes "place an order for 2 lamps"), none))
unfolding extract_product_and_quantity
extractions = (refl, refl, refl, refl, refl)
