-- ===== src/Telegram/Service.antt =====
-- backend/app/api/services/telegram_service.py: the customer and the conversation of a message, the
-- turn of the agent and the delivery of its reply.
pub mod Laws
pub mod Redelivery
pub mod Turns
pub mod Rows
pub mod Trace
use ecommerce_sales_agent.Prelude.{
  ℕ, suc, Bool, true, false, Option, none, some, List, [], ◌∷◌, ◌==◌, ◌&&◌, if◌then◌else◌, any,
  find, map,
}
use ecommerce_sales_agent.Prelude.Int.{ℤ}
use ecommerce_sales_agent.Text.{Text}
use ecommerce_sales_agent.Exec.{Result, ok, err}
use ecommerce_sales_agent.Inventra.Errors.{Exc}
use ecommerce_sales_agent.Inventra.Env.{Env, World, Message}
use ecommerce_sales_agent.Agents.Turn.{AgentState, Reply, written}
use ecommerce_sales_agent.Agents.Purchase.Pending.{next_fault, later_faults}
use ecommerce_sales_agent.Agents.Compose.{Provider}
use ecommerce_sales_agent.Agents.Persist.{is_update}
use ecommerce_sales_agent.Agents.Graph.{run_turn}
use ecommerce_sales_agent.Telegram.Schemas.{TelegramUser, InboundMessage}
use ecommerce_sales_agent.Telegram.Client.{BotCall, Bot, send_message}

pub data ConversationStatus : Type 0 where
  opened closed needs_human : ConversationStatus

pub record Customer : Type 0 where
  pub id : ℕ
  pub telegram_user_id : ℕ
  pub username : Option Text
  pub first_name : Option Text
  pub last_name : Option Text
  pub locale : Option Text

pub record Conversation : Type 0 where
  pub id : ℕ
  pub customer_id : ℕ
  pub status : ConversationStatus

-- The rows, newest first as `created_at` orders them, and how many ids have been drawn.
pub record Tables : Type 0 where
  pub customers : List Customer
  pub conversations : List Conversation
  pub uuids : ℕ

abbrev pub is_user : ℕ → Customer → Bool
is_user user_id c = c.telegram_user_id == user_id

abbrev pub refreshed : TelegramUser → Customer → Customer
refreshed user customer = record customer {
  username = user.username;
  first_name = user.first_name;
  last_name = user.last_name;
  locale = user.language_code;
}

-- The row of the user takes the new profile.
abbrev pub refresh : TelegramUser → List Customer → List Customer
refresh user [] = []
refresh user (c ∷ cs) = if is_user user.id c then refreshed user c ∷ cs else c ∷ refresh user cs

abbrev pub new_customer : ℕ → TelegramUser → Customer
new_customer id user = record {
  id = id;
  telegram_user_id = user.id;
  username = user.username;
  first_name = user.first_name;
  last_name = user.last_name;
  locale = user.language_code;
}

abbrev pub is_opened : ConversationStatus → Bool
is_opened opened = true
is_opened s = false

abbrev pub is_open_of : ℕ → Conversation → Bool
is_open_of customer_id c = c.customer_id == customer_id && is_opened c.status

-- A query on the messages that the session sees.
unfoldable pub is_duplicate_update : List Message → ℕ → ℕ → Bool
is_duplicate_update messages conversation update_id =
    any (is_update conversation update_id) messages

module _ (new_uuid : ℕ → ℕ) where
  abbrev pub customer_found : TelegramUser → Tables → Option Customer → Customer × Tables
  customer_found user t none =
      let customer = new_customer (new_uuid t.uuids) user in
      (customer, record t { customers = customer ∷ t.customers; uuids = suc t.uuids })
  customer_found user t (some customer) =
      (refreshed user customer, record t { customers = refresh user t.customers })

  -- `telegram_user_id` is unique, so there is at most one row to find.
  unfoldable pub resolve_customer : TelegramUser → Tables → Customer × Tables
  resolve_customer user t = customer_found user t (find (is_user user.id) t.customers)

  abbrev pub conversation_found : ℕ → Tables → Option Conversation → Conversation × Tables
  conversation_found customer_id t none =
      let conversation : Conversation = record {
        id = new_uuid t.uuids;
        customer_id = customer_id;
        status = opened;
      } in
      (
        conversation,
        record t { conversations = conversation ∷ t.conversations; uuids = suc t.uuids },
      )
  conversation_found customer_id t (some conversation) = (conversation, t)

  unfoldable pub resolve_conversation : ℕ → Tables → Conversation × Tables
  resolve_conversation customer_id t =
      conversation_found customer_id t (find (is_open_of customer_id) t.conversations)

-- What the application is started with.
pub record Deployment : Type 1 where
  pub env : Env
  pub cached : Bool
  pub primary : Provider
  pub fallback : Option Provider
  pub bot : Bot
  pub new_uuid : ℕ → ℕ
  pub show_uuid : ℕ → Text

-- The world of the agent, the two tables, and the calls of the Bot API, newest first.
pub record Desk (app : Deployment) : Type 0 where
  pub world : World app.env
  pub tables : Tables
  pub bot_calls : List BotCall

pub data Identity : Type 0 where
  failed duplicate : Identity
  ready : ℕ → Identity

module _ (app : Deployment) where
  -- The ids stay drawn, the rows are as before.
  abbrev pub rollback : Desk app → Tables → Desk app
  rollback d t = record d { tables = record d.tables { uuids = t.uuids } }

  abbrev pub commit : Desk app → Tables → Desk app
  commit d t = record d {
    tables = t;
    world = record d.world { conversations = map (λ c. c.id) t.conversations };
  }

  abbrev pub resolve : TelegramUser → Tables → Conversation × Tables
  resolve user t =
      let (customer, t') = resolve_customer app.new_uuid user t in
      resolve_conversation app.new_uuid customer.id t'

  abbrev pub resolved : InboundMessage → Desk app → Conversation × Tables → Identity × Desk app
  resolved inbound d (conversation, t) =
      if is_duplicate_update d.world.messages conversation.id inbound.update_id
      then (duplicate, rollback d t)
      else (ready conversation.id, commit d t)

  abbrev pub in_session : Bool → InboundMessage → Desk app → Identity × Desk app
  in_session true inbound d = (failed, d)
  in_session false inbound d = resolved inbound d (resolve inbound.user d.tables)

  abbrev pub session_opened : Desk app → Desk app
  session_opened d = record d { world = record d.world { faults = later_faults d.world.faults } }

  -- The first phase, in a session that fails or not.
  unfoldable pub identify : InboundMessage → Desk app → Identity × Desk app
  identify inbound d = in_session (next_fault d.world.faults) inbound (session_opened d)

  -- `not text`; the templates are not empty.
  abbrev pub is_empty : Reply → Bool
  is_empty (written []) = true
  is_empty text = false

  -- `_deliver`: what the call raises is logged.
  unfoldable pub deliver : ℤ → Reply → Desk app → Desk app
  deliver chat_id text d =
      if is_empty text
      then d
      else record d { bot_calls = (send_message app.bot chat_id text d.bot_calls).1 }

  abbrev pub turn_of : InboundMessage → ℕ → World app.env → Result Exc AgentState × World app.env
  turn_of inbound conversation =
      run_turn app.env app.cached true app.primary app.fallback inbound.text
        (some (app.show_uuid conversation)) (some inbound.update_id)

  abbrev pub turned : InboundMessage → Result Exc AgentState → Desk app → Desk app
  turned inbound (err e) d = d
  turned inbound (ok state) d = deliver inbound.chat_id state.draft_response d

  abbrev pub identified : InboundMessage → Identity → Desk app → Desk app
  identified inbound failed d = d
  identified inbound duplicate d = d
  identified inbound (ready conversation) d =
      let (result, w) = turn_of inbound conversation d.world in
      turned inbound result (record d { world = w })

  unfoldable pub process_inbound_message : InboundMessage → Desk app → Desk app
  process_inbound_message inbound d =
      let (identity, d') = identify inbound d in identified inbound identity d'
