-- ===== src/Telegram/Schemas.antt =====
-- backend/app/integrations/telegram/schemas.py: what Telegram sends, and the message for the agent.
use ecommerce_sales_agent.Prelude.{
  ℕ, Bool, true, false, Option, none, some, ◌||◌, not, if◌then◌else◌, is_nil,
}
use ecommerce_sales_agent.Prelude.Int.{ℤ}
use ecommerce_sales_agent.Text.{Text, codes, text_eq, strip}
use ecommerce_sales_agent.Json.{Json, obj}

pub record TelegramUser : Type 0 where
  pub id : ℕ
  pub username : Option Text
  pub first_name : Option Text
  pub last_name : Option Text
  pub language_code : Option Text

-- The field `type` is `chat_type` here.
pub record TelegramChat : Type 0 where
  pub id : ℤ
  pub chat_type : Option Text

pub record TelegramMessage : Type 0 where
  pub message_id : ℕ
  pub from_user : Option TelegramUser
  pub chat : TelegramChat
  pub date : Option ℤ
  pub text : Option Text

pub record TelegramUpdate : Type 0 where
  pub update_id : ℕ
  pub message : Option TelegramMessage
  pub edited_message : Option TelegramMessage

-- A `datetime` is the second it was made from.
pub record InboundMessage : Type 0 where
  pub chat_id : ℤ
  pub user : TelegramUser
  pub text : Text
  pub message_id : ℕ
  pub update_id : ℕ
  pub sent_at : Option ℤ

pub record TelegramBotInfo : Type 0 where
  pub id : ℕ
  pub username : Option Text
  pub first_name : Option Text

-- `validate` is `TelegramUpdate.model_validate`, `none` where it raises.
abbrev pub parse_update : (Json → Option TelegramUpdate) → Json → Option TelegramUpdate
parse_update validate (obj fields) = validate (obj fields)
parse_update validate payload = none

-- An update is skipped, or taken, or making the date raises.
pub data Extracted : Type 0 where
  skipped : Extracted
  taken : InboundMessage → Extracted
  date_error : Extracted

-- `representable` says which seconds `datetime.fromtimestamp` accepts.
abbrev pub has_date_error : (ℤ → Bool) → Option ℤ → Bool
has_date_error representable none = false
has_date_error representable (some seconds) = not (representable seconds)

abbrev pub is_private : Option Text → Bool
is_private none = false
is_private (some t) = text_eq t (codes "private")

abbrev pub is_blank : Option Text → Bool
is_blank none = true
is_blank (some t) = is_nil (strip t)

abbrev pub stripped : Option Text → Text
stripped none = codes ""
stripped (some t) = strip t

abbrev pub inbound_of : ℕ → TelegramMessage → TelegramUser → InboundMessage
inbound_of update_id message user = record {
  chat_id = message.chat.id;
  user = user;
  text = stripped message.text;
  message_id = message.message_id;
  update_id = update_id;
  sent_at = message.date;
}

module _ (representable : ℤ → Bool) where
  abbrev pub from_sender : ℕ → TelegramMessage → Option TelegramUser → Extracted
  from_sender update_id message none = skipped
  from_sender update_id message (some user) =
      if not (is_private message.chat.chat_type) || is_blank message.text
      then skipped
      else if has_date_error representable message.date
      then date_error
      else taken (inbound_of update_id message user)

  abbrev pub of_message : ℕ → Option TelegramMessage → Extracted
  of_message update_id none = skipped
  of_message update_id (some message) = from_sender update_id message message.from_user

  unfoldable pub extract_inbound : TelegramUpdate → Extracted
  extract_inbound update = of_message update.update_id update.message
