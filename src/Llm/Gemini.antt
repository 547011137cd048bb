-- ===== src/Llm/Gemini.antt =====
-- backend/app/integrations/llm/gemini.py
use ecommerce_sales_agent.Prelude.{
  Bool, false, Option, none, some, List, [], ◌∷◌, ◌++◌, if◌then◌else◌, is_nil,
}
use ecommerce_sales_agent.Prelude.Int.{pos}
use ecommerce_sales_agent.Text.{Text, codes, strip}
use ecommerce_sales_agent.Json.{truthy, Json, num, str, arr, obj, Items, nil, cons, get}
use ecommerce_sales_agent.Retry.{request_loop}
use ecommerce_sales_agent.Exec.{Result, ok, err, pure, ◌>>=◌}
use ecommerce_sales_agent.Agents.Compose.{
  LlmFailure, llm, type_error, llm_config, llm_unexpected_response, TokenUsage, GenerationResponse,
}
use ecommerce_sales_agent.Llm.Http.{
  GenerationRequest, retryable_status_codes, llm_finish, ProviderSettings, LlmAction, post, object,
  array, get_or, checked_usage, with_usage, of_result,
}

abbrev text_part : Text → Json
text_part t = obj (object ((codes "text", str t) ∷ []))

abbrev instruction : Option Text → List (Text × Json)
instruction none = []
instruction (some system) =
    (
      codes "systemInstruction",
      obj (object ((codes "parts", arr (array (text_part system ∷ []))) ∷ [])),
    )
    ∷ []

abbrev pub gemini_payload : GenerationRequest → Json
gemini_payload request = obj (
    object (
      (
        codes "contents",
        arr (
            array (
              obj (object ((codes "parts", arr (array (text_part request.prompt ∷ []))) ∷ []))
              ∷ [])),
      )
      ∷ (
        codes "generationConfig",
        obj (object ((codes "maxOutputTokens", num (pos request.max_output_tokens)) ∷ [])),
      )
      ∷ instruction request.system))

-- A text joins, anything else raises `TypeError`.
abbrev joined : Json → Option Text → Option Text
joined (str t) (some rest) = some (t ++ rest)
joined j rest = none

-- `"".join(part.get("text", "") for part in parts if isinstance(part, dict))`
unfoldable pub joined_parts : Items → Option Text
joined_parts nil = some []
joined_parts (cons (obj part) parts) =
    joined (get_or (codes "text") (str []) part) (joined_parts parts)
joined_parts (cons part parts) = joined_parts parts

abbrev unexpected : {A : Type 0} → Result LlmFailure A
unexpected = err (llm llm_unexpected_response)

abbrev pub completion : Option Text → Result LlmFailure Text
completion none = err type_error
completion (some t) = if is_nil (strip t) then unexpected else ok (strip t)

abbrev pub parts_text : Json → Result LlmFailure Text
parts_text (arr parts) = completion (joined_parts parts)
parts_text j = unexpected

abbrev pub content_text : Json → Result LlmFailure Text
content_text (obj content) = parts_text (get (codes "parts") content)
content_text j = unexpected

abbrev pub candidate_text : Json → Result LlmFailure Text
candidate_text (obj first) = content_text (get (codes "content") first)
candidate_text j = unexpected

abbrev pub candidates_text : Json → Result LlmFailure Text
candidates_text (arr (cons first rest)) = candidate_text first
candidates_text j = unexpected

abbrev pub is_blocked : Json → Bool
is_blocked (obj feedback) = truthy (get (codes "blockReason") feedback)
is_blocked j = false

module _ (settings : ProviderSettings) where
  -- `_extract_usage`
  abbrev pub gemini_usage : Json → Result LlmFailure (Option TokenUsage)
  gemini_usage (obj raw) = checked_usage (
      settings.usage_model (get (codes "promptTokenCount") raw)
        (get (codes "candidatesTokenCount") raw) (get (codes "totalTokenCount") raw))
  gemini_usage j = ok none

  -- `_extract`
  unfoldable pub gemini_extract : Json → Result LlmFailure (Text × Option TokenUsage)
  gemini_extract (obj data') =
      if is_blocked (get (codes "promptFeedback") data')
      then unexpected
      else with_usage (gemini_usage (get (codes "usageMetadata") data'))
          (candidates_text (get (codes "candidates") data'))
  gemini_extract j = unexpected

  -- `_request_json`
  unfoldable pub gemini_request_json : Json → LlmAction Json
  gemini_request_json payload =
      request_loop (post settings payload) retryable_status_codes llm_finish settings.max_retries

  abbrev pub gemini_response : Text × Option TokenUsage → GenerationResponse
  gemini_response (text, usage) = record {
    text = text;
    model_used = settings.model;
    fallback_used = false;
    token_usage = usage;
  }

  unfoldable pub gemini_generate : GenerationRequest → LlmAction GenerationResponse
  gemini_generate request = do
    data' ← gemini_request_json (gemini_payload request)
    extracted ← of_result (gemini_extract data')
    pure (gemini_response extracted)

-- The constructor refuses an empty key.
abbrev pub gemini_provider : ProviderSettings → Result LlmFailure ProviderSettings
gemini_provider settings = if is_nil settings.api_key then err (llm llm_config) else ok settings
