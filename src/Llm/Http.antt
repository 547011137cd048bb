-- ===== src/Llm/Http.antt =====
-- What gemini.py and nemotron.py share, each in a copy of its own: the request loop, the errors, and
-- reading the answer.
use ecommerce_sales_agent.Prelude.{
  ℕ, true, false, Option, none, some, List, [], ◌∷◌, ◌==◌, leb, ◌||◌, if◌then◌else◌,
}
use ecommerce_sales_agent.Text.{Text, text_eq}
use ecommerce_sales_agent.Json.{Json, Items, nil, cons, Fields, end, field}
use ecommerce_sales_agent.Retry.{
  HttpReply, timeout_exception, transport_error, other_exception, response, unreadable, is_success,
}
use ecommerce_sales_agent.Exec.{Result, ok, err, Exec}
use ecommerce_sales_agent.Agents.Compose.{
  LlmFailure, llm, other_failure, invalid_model, LlmError, llm_auth, llm_rate_limited, llm_timeout,
  llm_connection, llm_upstream_error, llm_unexpected_response, TokenUsage,
}

pub record GenerationRequest : Type 0 where
  pub prompt : Text
  pub system : Option Text
  pub max_output_tokens : ℕ

abbrev pub retryable_status_codes : List ℕ
retryable_status_codes = 429 ∷ 500 ∷ 502 ∷ 503 ∷ 504 ∷ []

-- `_raise_for_status`, for a status that is no success
pub llm_status_error : ℕ → LlmError
llm_status_error status =
    if status == 401 || status == 403
    then llm_auth
    else if status == 429
    then llm_rate_limited
    else if leb 500 status
    then llm_upstream_error
    else llm_unexpected_response

abbrev json_or_error : Option Json → Result LlmFailure Json
json_or_error none = err (llm llm_unexpected_response)
json_or_error (some j) = ok j

-- What a reply comes to once no attempt is left to make.
unfoldable pub llm_finish : HttpReply → Result LlmFailure Json
unfolding llm_status_error
llm_finish timeout_exception = err (llm llm_timeout)
llm_finish transport_error = err (llm llm_connection)
llm_finish other_exception = err other_failure
llm_finish (response status body) =
    if is_success status then json_or_error body else err (llm (llm_status_error status))
llm_finish (unreadable status) =
    if is_success status then err other_failure else err (llm (llm_status_error status))

-- The settings of a provider, its server, whose answers may depend on the payloads before, newest
-- first, and pydantic's validation of the three counts.
pub record ProviderSettings : Type 0 where
  pub model : Text
  pub api_key : Text
  pub base_url : Text
  pub max_retries : ℕ
  pub answer : List Json → Json → HttpReply
  pub usage_model : Json → Json → Json → Option TokenUsage

abbrev pub LlmAction : Type 0 → Type 0
LlmAction A = Exec (List Json) LlmFailure A

abbrev pub post : ProviderSettings → Json → List Json → HttpReply × List Json
post settings payload posted = (settings.answer posted payload, payload ∷ posted)

abbrev pub object : List (Text × Json) → Fields
object [] = end
object ((k, v) ∷ fs) = field k v (object fs)

abbrev pub array : List Json → Items
array [] = nil
array (j ∷ js) = cons j (array js)

-- `d.get(key, default)`
abbrev pub get_or : Text → Json → Fields → Json
get_or key default end = default
get_or key default (field k v fs) = elim (text_eq k key) [
  | true ↦ v
  | false ↦ get_or key default fs
]

abbrev pub checked_usage : Option TokenUsage → Result LlmFailure (Option TokenUsage)
checked_usage none = err invalid_model
checked_usage (some usage) = ok (some usage)

-- The usage is read once there is a text.
abbrev pub with_usage :
    Result LlmFailure (Option TokenUsage)
    → Result LlmFailure Text
    → Result LlmFailure (Text × Option TokenUsage)
with_usage usage (err e) = err e
with_usage (err e) (ok text) = err e
with_usage (ok usage) (ok text) = ok (text, usage)

abbrev pub of_result : {A : Type 0} → Result LlmFailure A → LlmAction A
of_result r posted = (r, posted)
