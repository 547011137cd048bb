-- ===== src/Llm/Tests.antt =====
-- The gateway over two providers of which the first fails; the theorems are applied to it.
use ecommerce_sales_agent.Prelude.{
  suc, ◌+◌, ◌≤◌, ◌≡◌, refl, ◌⊎◌, true, false, none, some, [], length,
}
use ecommerce_sales_agent.Text.{codes, strip}
use ecommerce_sales_agent.Json.{Json, obj, arr, str, field, end, cons, nil}
use ecommerce_sales_agent.Retry.{response, timeout_exception, request_loop}
use ecommerce_sales_agent.Exec.{ok, err}
use ecommerce_sales_agent.Agents.Compose.{llm, LlmError, GenerationResponse}
use ecommerce_sales_agent.Llm.Http.{GenerationRequest, ProviderSettings, llm_finish}
use ecommerce_sales_agent.Llm.Gemini.{gemini_generate, gemini_request_json}
use ecommerce_sales_agent.Llm.Nemotron.{nemotron_generate, nemotron_request_json, nemotron_extract}
use ecommerce_sales_agent.Llm.Gateway.{
  LlmGateway, Posted, by_gemini, by_nemotron, build_default_gateway, generate_request,
}
use ecommerce_sales_agent.Llm.Gateway.Laws.{IsCompleted, generate_request-IsCompleted}
use ecommerce_sales_agent.Llm.Gateway.Costs.{generate_request-posts}

abbrev gemini : ProviderSettings
gemini = record {
  model = codes "models/gemini-2.5-flash";
  api_key = codes "k";
  base_url = [];
  max_retries = 1;
  answer = λ posted payload. timeout_exception;
  usage_model = λ a b c. none;
}

abbrev chat : Json
chat = obj (
    field (codes "choices")
      (arr (
        cons
          (obj (
            field (codes "message") (obj (field (codes "content") (str (codes " Hello ")) end))
              end))
          nil))
      end)

abbrev nemotron : ProviderSettings
nemotron = record gemini {
  model = codes "nvidia/nemotron";
  base_url = codes "https://nvidia";
  answer = λ posted payload. response 200 (some chat);
}

abbrev gateway : LlmGateway
gateway = record { primary = by_gemini gemini; fallback = some (by_nemotron nemotron) }

abbrev question : GenerationRequest
question = record { prompt = codes "Hi"; system = none; max_output_tokens = 512 }

abbrev answer' : GenerationResponse
answer' = record {
  text = codes "Hello";
  model_used = codes "nvidia/nemotron";
  fallback_used = true;
  token_usage = none;
}

gateway-built : build_default_gateway (some gemini) nemotron ≡ ok gateway
unfolding build_default_gateway
gateway-built = refl

gateway-answers :
    (generate_request Posted gateway.primary gateway.fallback question ([], [])).0 ≡ ok answer'
unfolding generate_request gemini_generate gemini_request_json nemotron_generate
    nemotron_request_json nemotron_extract request_loop llm_finish strip
gateway-answers = refl

generate_request-IsCompleted_example :
    IsCompleted gemini false answer'
    ⊎ (IsCompleted nemotron true answer'
        × ((e : LlmError) × ((gateway.primary question ([], [])).0 ≡ err (llm e))))
generate_request-IsCompleted_example =
    generate_request-IsCompleted gemini nemotron gateway question ([], []) answer' gateway-built
      gateway-answers

generate_request-posts_example :
    (length (generate_request Posted gateway.primary gateway.fallback question ([], [])).1.0
      ≤ 0 + suc gemini.max_retries)
    × (length (generate_request Posted gateway.primary gateway.fallback question ([], [])).1.1
        ≤ 0 + suc nemotron.max_retries)
generate_request-posts_example =
    generate_request-posts gemini nemotron gateway question ([], []) gateway-built
