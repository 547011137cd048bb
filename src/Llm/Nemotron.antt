-- ===== src/Llm/Nemotron.antt =====
-- backend/app/integrations/llm/nemotron.py
use ecommerce_sales_agent.Prelude.{
  true, Option, none, some, List, [], ◌∷◌, ◌++◌, ◌||◌, if◌then◌else◌, is_nil,
}
use ecommerce_sales_agent.Prelude.Int.{pos}
use ecommerce_sales_agent.Text.{Text, codes, strip}
use ecommerce_sales_agent.Json.{Json, num, str, arr, obj, cons, get}
use ecommerce_sales_agent.Retry.{request_loop}
use ecommerce_sales_agent.Exec.{Result, ok, err, pure, ◌>>=◌}
use ecommerce_sales_agent.Agents.Compose.{
  LlmFailure, llm, llm_config, llm_unexpected_response, TokenUsage, GenerationResponse,
}
use ecommerce_sales_agent.Llm.Http.{
  GenerationRequest, retryable_status_codes, llm_finish, ProviderSettings, LlmAction, post, object,
  array, checked_usage, with_usage, of_result,
}

abbrev chat_message : Text → Text → Json
chat_message role content =
    obj (object ((codes "role", str role) ∷ (codes "content", str content) ∷ []))

abbrev system_message : Option Text → List Json
system_message none = []
system_message (some system) = chat_message (codes "system") system ∷ []

abbrev unexpected : {A : Type 0} → Result LlmFailure A
unexpected = err (llm llm_unexpected_response)

abbrev pub chat_content : Json → Result LlmFailure Text
chat_content (str t) = if is_nil (strip t) then unexpected else ok (strip t)
chat_content j = unexpected

abbrev pub message_text : Json → Result LlmFailure Text
message_text (obj message) = chat_content (get (codes "content") message)
message_text j = unexpected

abbrev pub choice_text : Json → Result LlmFailure Text
choice_text (obj first) = message_text (get (codes "message") first)
choice_text j = unexpected

abbrev pub choices_text : Json → Result LlmFailure Text
choices_text (arr (cons first rest)) = choice_text first
choices_text j = unexpected

module _ (settings : ProviderSettings) where
  abbrev pub nemotron_payload : GenerationRequest → Json
  nemotron_payload request = obj (
      object (
        (codes "model", str settings.model)
        ∷ (
          codes "messages",
          arr (
              array (
                system_message request.system
                ++ (chat_message (codes "user") request.prompt ∷ []))),
        )
        ∷ (codes "max_tokens", num (pos request.max_output_tokens))
        ∷ []))

  -- `_extract_usage`
  abbrev pub nemotron_usage : Json → Result LlmFailure (Option TokenUsage)
  nemotron_usage (obj raw) = checked_usage (
      settings.usage_model (get (codes "prompt_tokens") raw) (get (codes "completion_tokens") raw)
        (get (codes "total_tokens") raw))
  nemotron_usage j = ok none

  -- `_extract`
  unfoldable pub nemotron_extract : Json → Result LlmFailure (Text × Option TokenUsage)
  nemotron_extract (obj data') =
      with_usage (nemotron_usage (get (codes "usage") data'))
        (choices_text (get (codes "choices") data'))
  nemotron_extract j = unexpected

  -- `_request_json`
  unfoldable pub nemotron_request_json : Json → LlmAction Json
  nemotron_request_json payload =
      request_loop (post settings payload) retryable_status_codes llm_finish settings.max_retries

  abbrev pub nemotron_response : Text × Option TokenUsage → GenerationResponse
  nemotron_response (text, usage) = record {
    text = text;
    model_used = settings.model;
    fallback_used = true;
    token_usage = usage;
  }

  unfoldable pub nemotron_generate : GenerationRequest → LlmAction GenerationResponse
  nemotron_generate request = do
    data' ← nemotron_request_json (nemotron_payload request)
    extracted ← of_result (nemotron_extract data')
    pure (nemotron_response extracted)

-- The constructor refuses an empty key or address.
abbrev pub nemotron_provider : ProviderSettings → Result LlmFailure ProviderSettings
nemotron_provider settings =
    if is_nil settings.api_key || is_nil settings.base_url
    then err (llm llm_config)
    else ok settings
