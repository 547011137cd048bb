-- ===== src/Telegram/Webhook.antt =====
-- backend/app/api/routes/telegram.py and backend/app/api/telegram_deps.py: the endpoint that takes
-- an update, and the queue of messages that it leaves to the workers.
pub mod Laws
use ecommerce_sales_agent.Prelude.{
  ℕ, Bool, true, false, Option, none, some, List, [], ◌∷◌, ◌++◌, if◌then◌else◌, is_nil,
}
use ecommerce_sales_agent.Prelude.Int.{ℤ}
use ecommerce_sales_agent.Text.{Text}
use ecommerce_sales_agent.Json.{Json}
use ecommerce_sales_agent.Telegram.Schemas.{
  TelegramUpdate, InboundMessage, Extracted, skipped, taken, date_error, parse_update,
  extract_inbound,
}
use ecommerce_sales_agent.Telegram.Service.{Deployment, Desk, process_inbound_message}

-- The answer to Telegram: the acknowledgement, or an HTTP error; an exception that the route lets
-- through becomes a 500.
pub data WebhookReply : Type 0 where
  ack : WebhookReply
  http_error : ℕ → WebhookReply

-- What the route reads of the application and its libraries. `compare_digest` gives `none` where it
-- raises, `update_model` where validation does, and a body is `none` where it is no JSON.
pub record Endpoint : Type 0 where
  pub has_client : Bool
  pub webhook_secret : Text
  pub compare_digest : Text → Text → Option Bool
  pub update_model : Json → Option TelegramUpdate
  pub representable : ℤ → Bool

pub record WebhookRequest : Type 0 where
  pub secret_token : Option Text
  pub body : Option Json

abbrev pub or_empty : Option Text → Text
or_empty none = []
or_empty (some t) = t

module _ (app : Endpoint) where
  -- `get_telegram_client`
  abbrev pub client_error : Option WebhookReply
  client_error = if app.has_client then none else some (http_error 503)

  abbrev pub compared : Option Bool → Option WebhookReply
  compared none = some (http_error 500)
  compared (some true) = none
  compared (some false) = some (http_error 401)

  -- The reply that ends the request, if there is one.
  unfoldable pub verify_webhook_secret : Option Text → Option WebhookReply
  verify_webhook_secret provided =
      if is_nil app.webhook_secret
      then none
      else compared (app.compare_digest (or_empty provided) app.webhook_secret)

  abbrev pub scheduled : Extracted → WebhookReply × Option InboundMessage
  scheduled skipped = (ack, none)
  scheduled (taken inbound) = (ack, some inbound)
  scheduled date_error = (http_error 500, none)

  abbrev pub updated : Option TelegramUpdate → WebhookReply × Option InboundMessage
  updated none = (ack, none)
  updated (some update) = scheduled (extract_inbound app.representable update)

  abbrev pub accepted : Option Json → WebhookReply × Option InboundMessage
  accepted none = (ack, none)
  accepted (some payload) = updated (parse_update app.update_model payload)

  abbrev pub verified :
      Option WebhookReply → Option WebhookReply → Option Json → WebhookReply × Option InboundMessage
  verified (some reply) reply' body = (reply, none)
  verified none (some reply) body = (reply, none)
  verified none none body = accepted body

  -- The reply, and the message for which a task is created.
  unfoldable pub telegram_webhook : WebhookRequest → WebhookReply × Option InboundMessage
  telegram_webhook request =
      verified client_error (verify_webhook_secret request.secret_token) request.body
