-- ===== src/Telegram/Client.antt =====
-- backend/app/integrations/telegram/client.py and errors.py: the calls of the Bot API.
use ecommerce_sales_agent.Prelude.{
  ℕ, Bool, false, Option, none, some, List, [], ◌∷◌, ◌==◌, leb, ◌||◌, if◌then◌else◌,
}
use ecommerce_sales_agent.Prelude.Int.{ℤ}
use ecommerce_sales_agent.Text.{Text, codes}
use ecommerce_sales_agent.Json.{Json, obj, flag, get}
use ecommerce_sales_agent.Retry.{
  HttpReply, timeout_exception, transport_error, other_exception, response, unreadable, is_success,
  request_loop,
}
use ecommerce_sales_agent.Exec.{Result, ok, err, Exec, pure, raise, ◌>>=◌, ◌>>◌}
use ecommerce_sales_agent.Agents.Turn.{Reply}
use ecommerce_sales_agent.Telegram.Schemas.{TelegramBotInfo}

pub data TelegramError : Type 0 where
  telegram_config_error telegram_auth_error telegram_rate_limited_error : TelegramError
  telegram_server_error telegram_timeout_error telegram_connection_error : TelegramError
  telegram_response_error telegram_other_error : TelegramError

-- The calls, with what varies in their payloads.
pub data BotCall : Type 0 where
  send_message_call : ℤ → Reply → BotCall
  get_me_call : BotCall

abbrev pub retryable_status_codes : List ℕ
retryable_status_codes = 429 ∷ 500 ∷ 502 ∷ 503 ∷ 504 ∷ []

-- `_raise_for_status`, for a status that is no success
pub bot_status_error : ℕ → TelegramError
bot_status_error status =
    if status == 401 || status == 403
    then telegram_auth_error
    else if status == 429
    then telegram_rate_limited_error
    else if leb 500 status
    then telegram_server_error
    else telegram_response_error

-- `value is True`
abbrev pub is_true : Json → Bool
is_true (flag b) = b
is_true j = false

-- `_unwrap`: the result of an envelope that is ok.
abbrev pub unwrap : Json → Result TelegramError Json
unwrap (obj fields) =
    if is_true (get (codes "ok") fields)
    then ok (get (codes "result") fields)
    else err telegram_response_error
unwrap j = err telegram_response_error

abbrev pub unwrap_body : Option Json → Result TelegramError Json
unwrap_body none = err telegram_response_error
unwrap_body (some body) = unwrap body

-- An error whose text quotes the body is not raised where the body cannot be read.
abbrev pub quoted : TelegramError → TelegramError
quoted telegram_response_error = telegram_other_error
quoted e = e

-- What a reply comes to once no attempt is left to make.
unfoldable pub bot_finish : HttpReply → Result TelegramError Json
unfolding bot_status_error
bot_finish timeout_exception = err telegram_timeout_error
bot_finish transport_error = err telegram_connection_error
bot_finish other_exception = err telegram_other_error
bot_finish (response status body) =
    if is_success status then unwrap_body body else err (bot_status_error status)
bot_finish (unreadable status) =
    if is_success status then err telegram_other_error else err (quoted (bot_status_error status))

-- The Bot API behind one client: its answers may depend on the calls before, newest first.
pub record Bot : Type 0 where
  pub answer : List BotCall → BotCall → HttpReply
  pub max_retries : ℕ
  pub bot_info_model : Json → Option TelegramBotInfo

abbrev pub BotAction : Type 0 → Type 0
BotAction A = Exec (List BotCall) TelegramError A

module _ (bot : Bot) where
  abbrev pub bot_request : BotCall → List BotCall → HttpReply × List BotCall
  bot_request c calls = (bot.answer calls c, c ∷ calls)

  -- `_request_json`
  unfoldable pub bot_request_json : BotCall → BotAction Json
  bot_request_json c =
      request_loop (bot_request c) retryable_status_codes bot_finish bot.max_retries

  unfoldable pub send_message : ℤ → Reply → BotAction (Unit {0})
  send_message chat_id text = do bot_request_json (send_message_call chat_id text); pure tt

  -- `_parse_bot_info`
  abbrev parse_bot_info : Option TelegramBotInfo → BotAction TelegramBotInfo
  parse_bot_info none = raise telegram_response_error
  parse_bot_info (some info) = pure info

  unfoldable pub get_me : BotAction TelegramBotInfo
  get_me = do result ← bot_request_json get_me_call; parse_bot_info (bot.bot_info_model result)

-- The constructor refuses an empty token.
abbrev pub telegram_client : (Text → Bot) → Text → Result TelegramError Bot
telegram_client connect [] = err telegram_config_error
telegram_client connect (c ∷ token) = ok (connect (c ∷ token))
