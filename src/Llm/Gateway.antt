-- ===== src/Llm/Gateway.antt =====
-- backend/app/integrations/llm/gateway.py over providers that send requests and may raise more than
-- an `LLMError`, and backend/app/integrations/llm/__init__.py.
pub mod Laws
pub mod Costs
use ecommerce_sales_agent.Prelude.{Option, none, some, List, [], ◌∷◌, true, if◌then◌else◌, is_nil}
use ecommerce_sales_agent.Json.{Json}
use ecommerce_sales_agent.Exec.{Result, ok, err, Exec, pure, raise}
use ecommerce_sales_agent.Agents.Compose.{
  LlmError, llm_config, GenerationResponse, LlmFailure, llm, type_error, invalid_model,
  GatewayError, all_failed, passed,
}
use ecommerce_sales_agent.Llm.Http.{GenerationRequest, ProviderSettings}
use ecommerce_sales_agent.Llm.Gemini.{gemini_generate, gemini_provider}
use ecommerce_sales_agent.Llm.Nemotron.{nemotron_generate, nemotron_provider}

module _ (S : Type 0) where
  abbrev pub Serve : Type 0
  Serve = GenerationRequest → Exec S LlmFailure GenerationResponse

  abbrev pub fallback_done :
      LlmError → Result LlmFailure GenerationResponse → Result GatewayError GenerationResponse
  fallback_done first (ok response) = ok (record response { fallback_used = true })
  fallback_done first (err (llm second)) = err (all_failed (first ∷ second ∷ []))
  fallback_done first (err e) = err (passed e)

  abbrev pub failed_over :
      Option Serve → GenerationRequest → LlmError → Exec S GatewayError GenerationResponse
  failed_over none request first s = (err (all_failed (first ∷ [])), s)
  failed_over (some provider) request first s =
      let (r, s') = provider request s in (fallback_done first r, s')

  abbrev pub primary_done :
      Option Serve
      → GenerationRequest
      → Result LlmFailure GenerationResponse
      → Exec S GatewayError GenerationResponse
  primary_done fallback request (ok response) = pure response
  primary_done fallback request (err (llm first)) = failed_over fallback request first
  primary_done fallback request (err e) = raise (passed e)

  unfoldable pub generate_request :
      Serve → Option Serve → GenerationRequest → Exec S GatewayError GenerationResponse
  generate_request primary fallback request s =
      let (r, s') = primary request s in primary_done fallback request r s'

  -- `UnconfiguredProvider.generate`
  abbrev pub unconfigured : Serve
  unconfigured request = raise (llm llm_config)

-- What has been posted to Gemini and to Nemotron.
abbrev pub Posted : Type 0
Posted = List Json × List Json

pub record LlmGateway : Type 0 where
  pub primary : Serve Posted
  pub fallback : Option (Serve Posted)

abbrev pub by_gemini : ProviderSettings → Serve Posted
by_gemini settings request (gemini, nemotron) =
    let (r, gemini') = gemini_generate settings request gemini in (r, (gemini', nemotron))

abbrev pub by_nemotron : ProviderSettings → Serve Posted
by_nemotron settings request (gemini, nemotron) =
    let (r, nemotron') = nemotron_generate settings request nemotron in (r, (gemini, nemotron'))

abbrev pub with_fallback :
    ProviderSettings → Result LlmFailure ProviderSettings → Result LlmFailure LlmGateway
with_fallback gemini (err e) = err e
with_fallback gemini (ok nemotron) =
    ok (record { primary = by_gemini gemini; fallback = some (by_nemotron nemotron) })

abbrev pub with_primary :
    ProviderSettings → Result LlmFailure ProviderSettings → Result LlmFailure LlmGateway
with_primary nemotron (err e) = err e
with_primary nemotron (ok gemini) =
    if is_nil nemotron.api_key
    then ok (record { primary = by_gemini gemini; fallback = none })
    else with_fallback gemini (nemotron_provider nemotron)

-- The settings of Gemini are `none` where they lack the key that they require.
unfoldable pub build_default_gateway :
    Option ProviderSettings → ProviderSettings → Result LlmFailure LlmGateway
build_default_gateway none nemotron = err invalid_model
build_default_gateway (some gemini) nemotron =
    if is_nil gemini.api_key
    then ok (record { primary = unconfigured Posted; fallback = none })
    else with_primary nemotron (gemini_provider gemini)
