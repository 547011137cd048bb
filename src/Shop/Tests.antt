-- ===== src/Shop/Tests.antt =====
-- The theorems at the concrete shop.
use ecommerce_sales_agent.Prelude.{
  ℕ, zero, suc, ◌+◌, ◌≡◌, ◌≢◌, refl, ◌⊎◌, inl, ◌≤◌, true, false, Option, none, some, List, [], ◌∷◌,
  ◌++◌, arith, All, length, take,
}
use ecommerce_sales_agent.Prelude.Int.{pos, leb_ℤ}
use ecommerce_sales_agent.Text.{Text, codes, lower, strip, contains, starts_with}
use ecommerce_sales_agent.Exec.{ok, err}
use ecommerce_sales_agent.Agents.State.{PendingPurchase}
use ecommerce_sales_agent.Inventra.Env.{Env, World, Method, get, post}
use ecommerce_sales_agent.Inventra.Client.Laws.{writes}
use ecommerce_sales_agent.Cache.{invalidate_product_stock}
use ecommerce_sales_agent.Cache.Laws.{IsRedis, IsUp, among}
use ecommerce_sales_agent.Agents.Graph.{run_turn}
use ecommerce_sales_agent.Json.{Json}
use ecommerce_sales_agent.Retry.{
  HttpReply, timeout_exception, other_exception, response, is_success, request_loop,
}
use ecommerce_sales_agent.Retry.Laws.{IsServed, request_loop-IsServed}
use ecommerce_sales_agent.Inventra.Errors.{
  other_error, inventra, tool, auth_error, translate_inventra_error,
}
use ecommerce_sales_agent.Inventra.Schemas.{Product}
use ecommerce_sales_agent.Inventra.Client.{client_stock_out, stock_out_request, get_product, finish}
use ecommerce_sales_agent.Inventra.Client.Laws.{Quiet, client_stock_out-eq-ok}
use ecommerce_sales_agent.Cache.{Family, read_through, product_detail_key}
use ecommerce_sales_agent.Cache.Laws.{wrapped, after_get, invalidate-fresh, read-invalidate}
use ecommerce_sales_agent.Cache.{normalized, products_list_params, products_list_key}
use ecommerce_sales_agent.Cache.Keys.{IsSameList, search_kept, products_list-IsSameList}
use ecommerce_sales_agent.Tools.{
  stock_out_params, StockOutParams, stock_out_product, translating, product_family,
}
use ecommerce_sales_agent.Tools.Laws.{IsOnce, stock_out_product-IsOnce}
use ecommerce_sales_agent.Inventra.Client.Errors.{IsEscaped}
use ecommerce_sales_agent.Tools.Errors.{is_tool, stock_out_product-eq-err, translating-ne-inventra}
use ecommerce_sales_agent.Agents.State.{product_details}
use ecommerce_sales_agent.Agents.Classify.{
  Rule, hits, intent_rules, multilingual_fallback_rules, classify_intent,
}
use ecommerce_sales_agent.Agents.Classify.Laws.{Misses, classify_intent-first}
use ecommerce_sales_agent.Agents.Purchase.Detect.{detect_confirmation}
use ecommerce_sales_agent.Agents.Purchase.Pending.{
  to_uuid, is_marked, unmark, load_pending_purchase, newest_pending,
}
use ecommerce_sales_agent.Agents.Purchase.Pending.Laws.{Calm, marks}
use ecommerce_sales_agent.Agents.Purchase.Node.{
  notes_of, place_order, stock_out_once, purchase, request_phase,
}
use ecommerce_sales_agent.Agents.Purchase.Node.Writes.{order_of, purchase-writes}
use ecommerce_sales_agent.Agents.Purchase.Node.Consumes.{IsLost, purchase-IsSpent}
use ecommerce_sales_agent.Agents.Purchase.Node.Calm.{request_phase-Calm}
use ecommerce_sales_agent.Agents.Purchase.Node.Twice.{IsAtMostOne, purchase-purchase}
use ecommerce_sales_agent.Cache.Sharing.{products_list_key-same}
use ecommerce_sales_agent.Agents.Gather.Terms.{zero_result_fallback_terms}
use ecommerce_sales_agent.Agents.Gather.Terms.Laws.{length-zero_result_fallback_terms}
use ecommerce_sales_agent.Agents.Gather.Node.{gather_context}
use ecommerce_sales_agent.Agents.Gather.Node.Laws.{gather_context-Quiet}
use ecommerce_sales_agent.Agents.Compose.{Prompt, build_prompt, compose_reply}
use ecommerce_sales_agent.Agents.Compose.Laws.{IsComposed, compose_reply-IsComposed}
use ecommerce_sales_agent.Agents.Persist.{persist_turn}
use ecommerce_sales_agent.Agents.Persist.Laws.{IsRecorded, persist_turn-IsRecorded}
use ecommerce_sales_agent.Agents.Gather.Search.Costs.{times}
use ecommerce_sales_agent.Agents.Graph.Costs.{run_turn-requests}
use ecommerce_sales_agent.Agents.Graph.Laws.{run_turn-writes}
use ecommerce_sales_agent.Shop.Store.{
  Entries, keys_like, lookup_key, without_star-append, keys_from-lists, without_keys-removes,
  without_keys-lookup,
}
use ecommerce_sales_agent.Shop.{
  question, two_lamps, shop, start, conversation_id, saying, silent, talkative, lamp_sold,
}

shop-IsRedis : IsRedis shop (λ s k. lookup_key k s)
shop-IsRedis = record {
  get_reads = λ s k p e. cc e;
  get_keeps = λ s k j p e. e;
  keys_lists = λ s pre k p ks e h st. listed s pre k p ks (cc e) h st;
  keys_keeps = λ s pattern' k p e. e;
  delete_removes = λ s ks k n e h. without_keys-removes ks k s h;
  delete_keeps = λ s ks k p e. without_keys-lookup ks k p s e;
}
  where
    listed :
        (s : Entries) (pre k p : Text) (ks : List Text)
        → keys_like (pre ++ codes "*") s ≡ ks
        → lookup_key k s ≡ some p
        → starts_with pre k ≡ true
        → among k ks ≡ true
    listed s pre k p ks e h st = rw (← e, without_star-append pre) (keys_from-lists pre k p s h st)

shop-IsUp : IsUp shop
shop-IsUp = record { keys_up = λ s p e. absurd (cc e); delete_up = λ s ks e. absurd (cc e) }

abbrev yes_turn : World shop → World shop
yes_turn w = (run_turn shop true true silent none (codes "yes") conversation_id none w).1

run_turn-writes_example :
    (writes (yes_turn start).sent ≡ writes start.sent)
    ⊎ ((detect_confirmation (codes "yes") ≡ true)
        × ((p : PendingPurchase) × ((load_pending_purchase shop true conversation_id start).0
              ≡ ok (some p))
            × (writes (yes_turn start).sent ≡ order_of shop true true p ∷ writes start.sent)))
run_turn-writes_example =
    run_turn-writes shop true true silent none (codes "yes") conversation_id none start

run_turn-requests_example :
    length (yes_turn start).sent ≤ length start.sent + times 11 (suc shop.max_retries)
run_turn-requests_example =
    run_turn-requests shop true true silent none (codes "yes") conversation_id none start

purchase-writes_example :
    (writes (purchase shop true true (saying (codes "yes")) start).1.sent ≡ writes start.sent)
    ⊎ ((detect_confirmation (codes "yes") ≡ true)
        × ((p : PendingPurchase) × ((load_pending_purchase shop true conversation_id start).0
              ≡ ok (some p))
            × (writes (purchase shop true true (saying (codes "yes")) start).1.sent
                ≡ order_of shop true true p ∷ writes start.sent)))
purchase-writes_example = purchase-writes shop true true (saying (codes "yes")) start

conversation-known : to_uuid shop conversation_id ≡ some 1
unfolding to_uuid
conversation-known = refl

one_mark : marks 1 start.messages ≤ 1
unfolding is_marked
one_mark = omega arith

purchase-IsSpent_example :
    (writes (purchase shop true true (saying (codes "yes")) start).1.sent ≡ writes start.sent)
    ⊎ (((purchase shop true true (saying (codes "yes")) start).1.messages ≡ unmark 1 start.messages)
        ⊎ IsLost shop true 1 start (purchase shop true true (saying (codes "yes")) start))
purchase-IsSpent_example =
    purchase-IsSpent shop true 1 (saying (codes "yes")) conversation-known start refl

purchase-purchase_example :
    IsAtMostOne shop true 1 start
      (purchase shop true true
        (saying (codes "confirm"))
        (purchase shop true true (saying (codes "yes")) start).1).1
    ⊎ IsLost shop true 1 start (purchase shop true true (saying (codes "yes")) start)
purchase-purchase_example =
    purchase-purchase shop true 1 (saying (codes "yes")) (saying (codes "confirm")) start
      conversation-known conversation-known refl one_mark

request_phase-Calm_example : Calm shop (request_phase shop true true (saying (codes "buy 2 lamps")))
request_phase-Calm_example = request_phase-Calm shop true true (saying (codes "buy 2 lamps"))

sold : (client_stock_out shop 7 (pos 2) none start).0 ≡ ok lamp_sold
unfolding client_stock_out finish
sold = refl

client_stock_out-eq-ok_example :
    (leb_ℤ (pos 2) (pos 0) ≡ false)
    × ((client_stock_out shop 7 (pos 2) none start).1.sent
        ≡ stock_out_request 7 (pos 2) none ∷ start.sent)
    × (lamp_sold.product_id ≡ 7)
    × ((status : ℕ) × (j : Json) × (shop.http start.sent (stock_out_request 7 (pos 2) none)
          ≡ response status (some j))
        × (is_success status ≡ true)
        × (shop.stock_out_model.validate j ≡ some lamp_sold))
client_stock_out-eq-ok_example = client_stock_out-eq-ok shop 7 (pos 2) none start lamp_sold sold

abbrev two_lamps_out : StockOutParams
two_lamps_out = record { product_id = 7; quantity = pos 2; notes = none }

stock_out_product-IsOnce_example :
    IsOnce shop
      (stock_out_request 7 (pos 2) none)
      start
      (stock_out_product shop true two_lamps_out start).1
stock_out_product-IsOnce_example = stock_out_product-IsOnce shop true two_lamps_out start

-- A service that is down: the write raises.
abbrev closed_shop : Env
closed_shop = record shop { bearer_token = [] }

abbrev closed : World closed_shop
closed = record { sent = []; redis = []; messages = []; conversations = []; faults = [] }

unsold :
    (stock_out_product closed_shop false two_lamps_out closed).0
    ≡ err (tool (translate_inventra_error auth_error))
unfolding stock_out_product client_stock_out
unsold = refl

stock_out_product-eq-err_example :
    (is_tool (tool (translate_inventra_error auth_error)) ≡ true)
    ⊎ ((tool (translate_inventra_error auth_error) ≡ other_error)
        × IsEscaped (
            closed_shop.http closed.sent (
              stock_out_request two_lamps_out.product_id two_lamps_out.quantity
                two_lamps_out.notes)))
stock_out_product-eq-err_example =
    stock_out_product-eq-err closed_shop false two_lamps_out closed
      (tool (translate_inventra_error auth_error)) unsold

translating-ne-inventra_example :
    (translating closed_shop (get_product closed_shop 7) closed).0 ≢ err (inventra auth_error)
translating-ne-inventra_example =
    translating-ne-inventra closed_shop (get_product closed_shop 7) closed auth_error

abbrev redis_at : World shop → Text → Option Text
redis_at w k = lookup_key k w.redis

invalidate-fresh_example :
    redis_at (invalidate_product_stock shop 7 start).1 (product_detail_key shop 7) ≡ none
invalidate-fresh_example =
    invalidate-fresh shop (λ s k. lookup_key k s) shop-IsRedis shop-IsUp 7 start
      (product_detail_key shop 7) (inl refl)

abbrev lamp_family : Family Product
lamp_family = product_family shop

read-invalidate_example :
    let w' = (invalidate_product_stock shop 7 start).1 in
    (read_through shop lamp_family (product_detail_key shop 7) (get_product shop 7) 300 false w').0
    ≡ wrapped shop lamp_family
        (product_detail_key shop 7)
        (get_product shop 7)
        300
        false
        (get_product shop 7 (
          after_get shop lamp_family
            (product_detail_key shop 7)
            (get_product shop 7)
            300
            false
            w')).0
read-invalidate_example =
    read-invalidate shop (λ s k. lookup_key k s) shop-IsRedis shop-IsUp lamp_family 7
      (product_detail_key shop 7) (get_product shop 7) 300 false start (inl refl)

abbrev answered_later : ℕ → HttpReply × ℕ
answered_later zero = (timeout_exception, 1)
answered_later (suc n) = (response 200 none, suc (suc n))

request_loop-IsServed_example :
    IsServed answered_later
      (502 ∷ 503 ∷ 504 ∷ [])
      finish
      2
      0
      (request_loop answered_later (502 ∷ 503 ∷ 504 ∷ []) finish 2 0)
request_loop-IsServed_example =
    request_loop-IsServed answered_later (502 ∷ 503 ∷ 504 ∷ []) finish 2 0

gather_context-Quiet_example :
    Quiet shop (gather_context shop true (saying (codes "do you have lamps?")))
gather_context-Quiet_example = gather_context-Quiet shop true (saying (codes "do you have lamps?"))

persist_turn-IsRecorded_example :
    IsRecorded shop 1
      (saying (codes "hello"))
      start.messages
      (persist_turn shop true (saying (codes "hello")) start).1.messages
persist_turn-IsRecorded_example =
    persist_turn-IsRecorded shop true 1 (saying (codes "hello")) start conversation-known

compose_reply-IsComposed_example :
    (prompt : Prompt) × (build_prompt (saying (codes "hello")) ≡ some prompt)
    × ((compose_reply shop silent (some talkative) (saying (codes "hello")) start).1 ≡ start)
    × IsComposed silent
        (some talkative)
        (saying (codes "hello"))
        prompt
        (compose_reply shop silent (some talkative) (saying (codes "hello")) start).0
compose_reply-IsComposed_example =
    compose_reply-IsComposed shop silent (some talkative) (saying (codes "hello")) start tt

length-zero_result_fallback_terms_example :
    length (zero_result_fallback_terms (codes "red desk lamps") (some (codes "red desk lamps"))) ≤ 3
length-zero_result_fallback_terms_example =
    length-zero_result_fallback_terms (codes "red desk lamps") (some (codes "red desk lamps"))

abbrev all_rules : List Rule
all_rules = intent_rules ++ multilingual_fallback_rules

abbrev later_rules : List Rule → List Rule
later_rules [] = []
later_rules (rule ∷ rules) = rules

abbrev first_keywords : List Rule → List Text
first_keywords [] = []
first_keywords ((intent, kws) ∷ rules) = kws

abbrev after_two : List Rule
after_two = later_rules (later_rules all_rules)

Misses-two : All (Misses (lower (codes "What is the PRICE?"))) (take 2 all_rules)
unfolding contains lower
Misses-two = (refl, (refl, tt))

price_hits : hits (lower (codes "What is the PRICE?")) (first_keywords after_two) ≡ true
unfolding contains lower
price_hits = refl

classify_intent-first_example : classify_intent (codes "What is the PRICE?") ≡ product_details
classify_intent-first_example =
    classify_intent-first (codes "What is the PRICE?") (take 2 all_rules) (later_rules after_two)
      product_details (first_keywords after_two) refl Misses-two price_hits

one_query :
    normalized (products_list_params shop 1 5 (some (codes " Lamp")) (some 3) (some false) none)
    ≡ normalized (products_list_params shop 1 5 (some (codes "lamp")) (some 3) none none)
unfolding normalized lower strip
one_query = refl

products_list-IsSameList_example :
    IsSameList 1 1 5 5
      (some (codes " Lamp"))
      (some (codes "lamp"))
      (some 3)
      (some 3)
      (some false)
      none
      none
      none
products_list-IsSameList_example =
    products_list-IsSameList shop 1 1 5 5 (some (codes " Lamp")) (some (codes "lamp")) (some 3)
      (some 3) (some false) none none none one_query

same_search : search_kept (some (codes " Lamp")) ≡ search_kept (some (codes "lamp"))
unfolding lower strip
same_search = refl

products_list_key-same_example :
    products_list_key shop 1 5 (some (codes " Lamp")) (some 3) (some false) none
    ≡ products_list_key shop 1 5 (some (codes "lamp")) (some 3) none none
products_list_key-same_example =
    products_list_key-same shop 1 5 (some (codes " Lamp")) (some (codes "lamp")) (some 3)
      (some false) none none same_search refl

-- The shop, but for replies to a write that cannot be decoded.
abbrev garbled_reply : Method → HttpReply → HttpReply
garbled_reply get reply = reply
garbled_reply post reply = other_exception

abbrev garbled : Env
garbled = record shop { http = λ sent req. garbled_reply req.method (shop.http sent req) }

abbrev garbled_start : World garbled
garbled_start = record {
  sent = [];
  redis = [];
  messages = question ∷ [];
  conversations = 1 ∷ [];
  faults = [];
}

abbrev place_garbled : World garbled → World garbled
place_garbled w = (place_order garbled true true two_lamps (saying (codes "yes")) w).1

-- Placing the order sends its write and leaves the pending purchase, twice.
garbled-written_twice :
    (length (writes (place_garbled (place_garbled garbled_start)).sent) ≡ 2)
    × (newest_pending garbled 1 (place_garbled (place_garbled garbled_start)).messages
        ≡ some two_lamps)
unfolding place_order stock_out_once stock_out_params stock_out_product client_stock_out finish
    newest_pending is_marked notes_of
garbled-written_twice = (refl, refl)
