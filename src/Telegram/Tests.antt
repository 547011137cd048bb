-- ===== src/Telegram/Tests.antt =====
-- One customer of the shop writes to the bot; the theorems on the channel are applied to it.
use ecommerce_sales_agent.Prelude.{
  ◌+◌, ◌≤◌, length, ℕ, suc, ◌≡◌, refl, ◌⊎◌, true, none, some, [], ◌∷◌, arith,
}
use ecommerce_sales_agent.Prelude.Int.{pos}
use ecommerce_sales_agent.Text.{text_eq, codes, strip}
use ecommerce_sales_agent.Json.{flag, obj, field, end}
use ecommerce_sales_agent.Retry.{response}
use ecommerce_sales_agent.Inventra.Client.Laws.{writes}
use ecommerce_sales_agent.Agents.Graph.Messages.{IsUnique}
use ecommerce_sales_agent.Agents.Graph.{run_turn, run_nodes}
use ecommerce_sales_agent.Agents.Classify.{classify_intent}
use ecommerce_sales_agent.Agents.Gather.Node.{gather_context}
use ecommerce_sales_agent.Agents.Purchase.Detect.{
  detect_confirmation, detect_decline, detect_purchase_intent,
}
use ecommerce_sales_agent.Agents.Purchase.Pending.{to_uuid}
use ecommerce_sales_agent.Agents.Purchase.Node.{purchase}
use ecommerce_sales_agent.Agents.Compose.{
  compose_reply, build_prompt, failures_of, generate, deterministic_reply,
}
use ecommerce_sales_agent.Agents.Persist.{persist_turn}
use ecommerce_sales_agent.Shop.{shop, start, silent}
use ecommerce_sales_agent.Telegram.Schemas.{
  extract_inbound, TelegramUser, TelegramUpdate, InboundMessage,
}
use ecommerce_sales_agent.Telegram.Client.{Bot}
use ecommerce_sales_agent.Telegram.Service.{
  Deployment, Desk, Tables, opened, ready, identify, process_inbound_message, is_duplicate_update,
  deliver, resolve_customer, resolve_conversation,
}
use ecommerce_sales_agent.Telegram.Service.Redelivery.{IsSkipped, process-process}
use ecommerce_sales_agent.Telegram.Service.Turns.{
  IsDelivery, IsOrderOf, process_all, process-writes, process-IsDelivery, process_all-IsUnique,
}
use ecommerce_sales_agent.Telegram.Service.Trace.{confirmations, process_all-writes}
use ecommerce_sales_agent.Telegram.Service.Rows.{IsTidy, process_all-IsTidy}
use ecommerce_sales_agent.Telegram.Webhook.{
  Endpoint, WebhookRequest, ack, telegram_webhook, verify_webhook_secret,
}
use ecommerce_sales_agent.Telegram.Webhook.Laws.{
  IsEndpoint, IsAccepted, IsUndatable, telegram_webhook-IsAccepted, telegram_webhook-ack,
}

abbrev ana : TelegramUser
ana = record {
  id = 5;
  username = some (codes "ana");
  first_name = none;
  last_name = none;
  language_code = none;
}

abbrev bot : Bot
bot = record {
  answer = λ calls c. response 200 (some (obj (field (codes "ok") (flag true) end)));
  max_retries = 1;
  bot_info_model = λ j. none;
}

abbrev app : Deployment
app = record {
  env = shop;
  cached = true;
  primary = silent;
  fallback = none;
  bot = bot;
  new_uuid = λ n. suc n;
  show_uuid = λ n. codes "1";
}

abbrev known : Tables
known = record {
  customers =
      record {
        id = 9;
        telegram_user_id = 5;
        username = none;
        first_name = none;
        last_name = none;
        locale = none;
      }
      ∷ [];
  conversations = record { id = 1; customer_id = 9; status = opened } ∷ [];
  uuids = 3;
}

abbrev desk : Desk app
desk = record { world = start; tables = known; bot_calls = [] }

abbrev hello : InboundMessage
hello = record {
  chat_id = pos 5;
  user = ana;
  text = codes "hi";
  message_id = 1;
  update_id = 77;
  sent_at = none;
}

hello-ready : (identify app hello desk).0 ≡ ready 1
unfolding identify resolve_customer resolve_conversation is_duplicate_update
hello-ready = refl

hello-stored :
    is_duplicate_update (process_inbound_message app hello desk).world.messages 1 hello.update_id
    ≡ true
unfolding process_inbound_message identify resolve_customer resolve_conversation is_duplicate_update
    run_turn run_nodes gather_context classify_intent purchase detect_confirmation detect_decline
    detect_purchase_intent compose_reply build_prompt failures_of persist_turn to_uuid generate
    deliver deterministic_reply
hello-stored = refl

process-process_example :
    IsSkipped app
      (process_inbound_message app hello desk)
      (process_inbound_message app hello (process_inbound_message app hello desk))
process-process_example = process-process app hello desk 1 hello-ready hello-stored

abbrev yes' : InboundMessage
yes' = record hello { text = codes "yes" }

process-writes_example :
    (writes (process_inbound_message app yes' desk).world.sent ≡ writes desk.world.sent)
    ⊎ ((c : ℕ) × ((identify app yes' desk).0 ≡ ready c)
        × IsOrderOf app yes' c desk.world.sent
            (identify app yes' desk).1.world
            (process_inbound_message app yes' desk).world)
process-writes_example = process-writes app yes' desk

process_all-writes_example :
    length (writes (process_all app (hello ∷ yes' ∷ yes' ∷ []) desk).world.sent)
    ≤ length (writes desk.world.sent) + length (confirmations (hello ∷ yes' ∷ yes' ∷ []))
process_all-writes_example = process_all-writes app (hello ∷ yes' ∷ yes' ∷ []) desk

process-IsDelivery_example :
    IsDelivery (pos 5) 2 desk.bot_calls (process_inbound_message app hello desk).bot_calls
process-IsDelivery_example = process-IsDelivery app hello desk

start-IsUnique : IsUnique start.messages
start-IsUnique c u = ground arith

process_all-IsUnique_example :
    IsUnique (process_all app (hello ∷ hello ∷ yes' ∷ []) desk).world.messages
process_all-IsUnique_example =
    process_all-IsUnique app (hello ∷ hello ∷ yes' ∷ []) desk start-IsUnique

known-IsTidy : IsTidy known
known-IsTidy = record { one_row = λ u. ground arith; one_open = λ c. ground arith }

process_all-IsTidy_example : IsTidy (process_all app (hello ∷ hello ∷ yes' ∷ []) desk).tables
process_all-IsTidy_example = process_all-IsTidy app (hello ∷ hello ∷ yes' ∷ []) desk known-IsTidy

abbrev update : TelegramUpdate
update = record {
  update_id = 77;
  message = some (record {
    message_id = 1;
    from_user = some ana;
    chat = record { id = pos 5; chat_type = some (codes "private") };
    date = none;
    text = some (codes " hi ");
  });
  edited_message = none;
}

abbrev endpoint : Endpoint
endpoint = record {
  has_client = true;
  webhook_secret = codes "s3";
  compare_digest = λ s t. some (text_eq s t);
  update_model = λ j. some update;
  representable = λ n. true;
}

abbrev request : WebhookRequest
request = record { secret_token = some (codes "s3"); body = some (obj end) }

hello-scheduled : (telegram_webhook endpoint request).1 ≡ some hello
unfolding telegram_webhook verify_webhook_secret extract_inbound strip
hello-scheduled = refl

endpoint-IsEndpoint : IsEndpoint endpoint
endpoint-IsEndpoint = record { compares = λ s t b e. cc e }

telegram_webhook-IsAccepted_example : IsAccepted endpoint request hello
telegram_webhook-IsAccepted_example =
    telegram_webhook-IsAccepted endpoint endpoint-IsEndpoint request hello hello-scheduled

request-verified : verify_webhook_secret endpoint request.secret_token ≡ none
unfolding verify_webhook_secret
request-verified = refl

telegram_webhook-ack_example :
    ((telegram_webhook endpoint request).0 ≡ ack) ⊎ IsUndatable endpoint request
telegram_webhook-ack_example = telegram_webhook-ack endpoint request refl request-verified
