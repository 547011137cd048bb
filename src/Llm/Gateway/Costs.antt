-- ===== src/Llm/Gateway/Costs.antt =====
-- How often a generation posts to each provider.
use ecommerce_sales_agent.Prelude.{
  suc, ◌+◌, ◌≤◌, ◌≡◌, refl, Option, none, some, arith, length, List,
}
use ecommerce_sales_agent.Text.{Text}
use ecommerce_sales_agent.Json.{Json}
use ecommerce_sales_agent.Retry.Laws.{request_loop-size}
use ecommerce_sales_agent.Exec.{Result, ok, err, continue, ◌>>=◌, pure}
use ecommerce_sales_agent.Agents.Compose.{
  LlmFailure, llm, type_error, invalid_model, other_failure, TokenUsage, GenerationResponse,
}
use ecommerce_sales_agent.Llm.Http.{
  GenerationRequest, ProviderSettings, post, retryable_status_codes, llm_finish, of_result,
}
use ecommerce_sales_agent.Llm.Gemini.{
  gemini_extract, gemini_request_json, gemini_response, gemini_generate, gemini_payload,
}
use ecommerce_sales_agent.Llm.Nemotron.{
  nemotron_extract, nemotron_request_json, nemotron_response, nemotron_generate, nemotron_payload,
}
use ecommerce_sales_agent.Llm.Gateway.{
  primary_done, generate_request, Posted, LlmGateway, by_nemotron, build_default_gateway,
}
use ecommerce_sales_agent.Llm.Gateway.Laws.{IsBuilt, off, single, double, build-IsBuilt}

-- Reading the answer posts nothing.
read-posted :
    (extract : Json → Result LlmFailure (Text × Option TokenUsage))
    (response : Text × Option TokenUsage → GenerationResponse) (r : Result LlmFailure Json)
    (posted : List Json)
    → (continue r (λ j. of_result (extract j) >>= λ x. pure (response x)) posted).1 ≡ posted
read-posted extract response (err e) posted = refl
read-posted extract response (ok j) posted = from (extract j)
  where
    from :
        (r : Result LlmFailure (Text × Option TokenUsage))
        → (continue r (λ x. pure {E = LlmFailure} (response x)) posted).1 ≡ posted
    from (ok x) = refl
    from (err e) = refl

module _ (settings : ProviderSettings) (request : GenerationRequest) (posted : List Json) where
  gemini_generate-length :
      length (gemini_generate settings request posted).1 ≤ length posted + suc settings.max_retries
  unfolding gemini_generate gemini_request_json
  gemini_generate-length =
      rw (read-posted (gemini_extract settings) (gemini_response settings) _ _) (
        request_loop-size (post settings (gemini_payload request)) retryable_status_codes llm_finish
          length (λ s. omega arith) settings.max_retries posted)

  nemotron_generate-length :
      length (nemotron_generate settings request posted).1
      ≤ length posted + suc settings.max_retries
  unfolding nemotron_generate nemotron_request_json
  nemotron_generate-length =
      rw (read-posted (nemotron_extract settings) (nemotron_response settings) _ _) (
        request_loop-size (post settings (nemotron_payload settings request)) retryable_status_codes
          llm_finish length (λ s. omega arith) settings.max_retries posted)

-- A generation of the gateway that is built from the settings posts to each provider at most once
-- more than the provider's retries.
pub generate_request-posts :
    (gemini nemotron : ProviderSettings) (gateway : LlmGateway) (request : GenerationRequest)
    (posted : Posted)
    → build_default_gateway (some gemini) nemotron ≡ ok gateway
    → (length (generate_request Posted gateway.primary gateway.fallback request posted).1.0
        ≤ length posted.0 + suc gemini.max_retries)
      × (length (generate_request Posted gateway.primary gateway.fallback request posted).1.1
          ≤ length posted.1 + suc nemotron.max_retries)
unfolding generate_request
generate_request-posts gemini nemotron gateway request posted built =
    from gateway (build-IsBuilt gemini nemotron gateway built)
  where
    alone :
        (p : Result LlmFailure GenerationResponse) (s : Posted)
        → (primary_done Posted none request p s).1 ≡ s
    alone (ok response) s = refl
    alone (err (llm first)) s = refl
    alone (err type_error) s = refl
    alone (err invalid_model) s = refl
    alone (err other_failure) s = refl

    both :
        (p : Result LlmFailure GenerationResponse) (s : List Json)
        → length s ≤ length posted.0 + suc gemini.max_retries
        → (length (primary_done Posted (some (by_nemotron nemotron)) request p (s, posted.1)).1.0
            ≤ length posted.0 + suc gemini.max_retries)
          × (length (primary_done Posted (some (by_nemotron nemotron)) request p (s, posted.1)).1.1
              ≤ length posted.1 + suc nemotron.max_retries)
    both (ok response) s h = (h, omega arith)
    both (err (llm first)) s h = (h, nemotron_generate-length nemotron request posted.1)
    both (err type_error) s h = (h, omega arith)
    both (err invalid_model) s h = (h, omega arith)
    both (err other_failure) s h = (h, omega arith)

    from :
        (g : LlmGateway)
        → IsBuilt gemini nemotron g
        → (length (generate_request Posted g.primary g.fallback request posted).1.0
            ≤ length posted.0 + suc gemini.max_retries)
          × (length (generate_request Posted g.primary g.fallback request posted).1.1
              ≤ length posted.1 + suc nemotron.max_retries)
    from _ off = (omega arith, omega arith)
    from _ single =
        rw
          (alone (gemini_generate gemini request posted.0).0
            ((gemini_generate gemini request posted.0).1, posted.1))
          (gemini_generate-length gemini request posted.0, omega arith)
    from _ double =
        both (gemini_generate gemini request posted.0).0 (gemini_generate gemini request posted.0).1
          (gemini_generate-length gemini request posted.0)
