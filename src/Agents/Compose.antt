-- ===== src/Agents/Compose.antt =====
-- compose.py: the prompt, the gateway's two providers, and the templates that replace them.
-- backend/app/integrations/llm/gateway.py: `generate`.
pub mod Laws
use ecommerce_sales_agent.Prelude.{
  ℕ, Bool, true, false, Option, none, some, List, [], ◌∷◌, if◌then◌else◌, is_nil, take, map, ◌&&◌,
  not,
}
use ecommerce_sales_agent.Prelude.Int.{ℤ}
use ecommerce_sales_agent.Text.{Text, codes, text_eq}
use ecommerce_sales_agent.Exec.{Result, ok, err, pure, raise, ◌>>=◌}
use ecommerce_sales_agent.Inventra.Errors.{Exc, ToolError, attribute_error, other_error}
use ecommerce_sales_agent.Inventra.Errors
use ecommerce_sales_agent.Inventra.Schemas.{Product, ProductListResponse, Category, InventoryItem}
use ecommerce_sales_agent.Inventra.Env.{Env, Action}
use ecommerce_sales_agent.Agents.State.{
  IntentName, PurchaseStatus, failed_unavailable, failed_auth, failed_unexpected, ToolErrorCode,
  not_found, invalid_input,
}
use ecommerce_sales_agent.Agents.Turn.{
  PurchaseMessage, Reply, written, purchase_outcome, not_processed, catalog_unreachable,
  found_products, no_products, product_line, category_names, stock_status, no_stock, movement_count,
  no_movements, not_sure, ToolResult, products_result, product_result, categories_result,
  inventory_result, movements_result, ToolFailure, failure_of, raised, AgentState,
}

-- `LLMError` by the code that `_error_code` gives it
pub data LlmError : Type 0 where
  llm_auth llm_config llm_rate_limited llm_timeout llm_connection : LlmError
  llm_upstream_error llm_unexpected_response llm_unexpected_error : LlmError

pub record TokenUsage : Type 0 where
  pub prompt_tokens : Option ℤ
  pub completion_tokens : Option ℤ
  pub total_tokens : Option ℤ

pub record GenerationResponse : Type 0 where
  pub text : Text
  pub model_used : Text
  pub fallback_used : Bool
  pub token_usage : Option TokenUsage

-- What `build_prompt` puts together, before it is laid out as text.
pub record Prompt : Type 0 where
  pub message : Text
  pub intent : IntentName
  pub purchase : Option (PurchaseStatus × (Option ℤ × Option PurchaseMessage))
  pub results : List (Text × ToolResult)
  pub failures : List (Text × ToolErrorCode)

-- What a provider raises: an `LLMError`, the `TypeError` of `join`, pydantic's `ValidationError`, or
-- another exception that the client lets through.
pub data LlmFailure : Type 0 where
  llm : LlmError → LlmFailure
  type_error invalid_model other_failure : LlmFailure

-- `LLMAllProvidersFailedError` with its codes, or what is no `LLMError` and passes the gateway.
pub data GatewayError : Type 0 where
  all_failed : List LlmError → GatewayError
  passed : LlmFailure → GatewayError

-- The protocol `LLMProvider`: the answer to a prompt, or what is raised.
abbrev pub Provider : Type 0
Provider = Prompt → Result LlmFailure GenerationResponse

abbrev pub after_fallback :
    LlmError → Result LlmFailure GenerationResponse → Result GatewayError GenerationResponse
after_fallback first (ok response) = ok (record response { fallback_used = true })
after_fallback first (err (llm second)) = err (all_failed (first ∷ second ∷ []))
after_fallback first (err e) = err (passed e)

abbrev pub after_llm_error :
    Option Provider → Prompt → LlmError → Result GatewayError GenerationResponse
after_llm_error none prompt first = err (all_failed (first ∷ []))
after_llm_error (some provider) prompt first = after_fallback first (provider prompt)

abbrev pub after_primary :
    Option Provider
    → Prompt
    → Result LlmFailure GenerationResponse
    → Result GatewayError GenerationResponse
after_primary fallback prompt (ok response) = ok response
after_primary fallback prompt (err (llm first)) = after_llm_error fallback prompt first
after_primary fallback prompt (err e) = err (passed e)

-- `LLMGateway.generate`: the error carries the codes of the providers that failed; only an
-- `LLMError` of the first provider is followed by a call of the second.
unfoldable pub generate :
    Provider → Option Provider → Prompt → Result GatewayError GenerationResponse
generate primary fallback prompt = after_primary fallback prompt (primary prompt)

-- `failure.tool` of every entry; an exception has no such attribute.
unfoldable pub failures_of : List (Text × ToolFailure) → Option (List (Text × ToolErrorCode))
failures_of [] = some []
failures_of ((key, raised e) ∷ fs) = none
failures_of ((key, failure_of tool code) ∷ fs) = elim (failures_of fs) [
  | none ↦ none
  | some rest ↦ some ((tool, code) ∷ rest)
]

unfoldable pub build_prompt : AgentState → Option Prompt
build_prompt state = elim (failures_of state.tool_errors) [
  | none ↦ none
  | some failures ↦ some (record {
    message = state.customer_message;
    intent = state.intent;
    purchase =
        if state.purchase_requested
        then some (state.purchase_status, (state.purchase_quantity, state.purchase_message))
        else none;
    results = state.tool_results;
    failures = failures;
  })
]

abbrev code_of : ToolFailure → ToolErrorCode
code_of (failure_of tool code) = code
code_of (raised e) = e.code

-- `purchase_status.startswith("failed_")`
abbrev is_failed : PurchaseStatus → Bool
is_failed failed_unavailable = true
is_failed failed_auth = true
is_failed failed_unexpected = true
is_failed _ = false

abbrev failure_reply : IntentName → ToolErrorCode → Reply
failure_reply intent not_found = not_processed intent not_found
failure_reply intent invalid_input = not_processed intent invalid_input
failure_reply intent code = catalog_unreachable code

abbrev names_of : ProductListResponse → Reply
names_of r =
    if is_nil r.products
    then no_products
    else found_products (take 5 (map (λ p. p.name) r.products))

abbrev stock_of : List InventoryItem → Reply
stock_of is =
    if is_nil is
    then no_stock
    else stock_status (take 5 (map (λ i. (i.product_name, i.quantity)) is))

-- A node stores at most one result in a turn.
abbrev result_reply : List (Text × ToolResult) → Reply
result_reply [] = not_sure
result_reply ((key, products_result r) ∷ rs) = names_of r
result_reply ((key, product_result p) ∷ rs) = product_line p.name p.sku p.price
result_reply ((key, categories_result cs) ∷ rs) = category_names (take 10 (map (λ c. c.name) cs))
result_reply ((key, inventory_result is) ∷ rs) = stock_of is
result_reply ((key, movements_result h) ∷ rs) =
    if is_nil h.movements then no_movements else movement_count h.total

abbrev tool_reply : AgentState → List (Text × ToolFailure) → Reply
tool_reply state [] = result_reply state.tool_results
tool_reply state ((key, failure) ∷ fs) = failure_reply state.intent (code_of failure)

abbrev purchase_reply : AgentState → Option PurchaseMessage → Reply
purchase_reply state none = tool_reply state state.tool_errors
purchase_reply state (some message) =
    purchase_outcome message (is_failed state.purchase_status && not (is_nil state.tool_errors))

unfoldable pub deterministic_reply : AgentState → Reply
deterministic_reply state =
    if state.purchase_requested
    then purchase_reply state state.purchase_message
    else tool_reply state state.tool_errors

-- `except LLMError`: the templates reply, and the turn has no model.
abbrev pub composed : AgentState → Result (List LlmError) GenerationResponse → AgentState
composed state (err codes') = record state { draft_response = deterministic_reply state }
composed state (ok response) = record state {
  draft_response = written response.text;
  model_used = some response.model_used;
  fallback_used = response.fallback_used;
}

-- What leaves the node of a failure that is no `LLMError`.
abbrev pub exception_of : LlmFailure → Exc
exception_of invalid_model = Errors.invalid_model
exception_of _ = other_error

module _ (env : Env) where
  abbrev pub settled : AgentState → Result GatewayError GenerationResponse → Action env AgentState
  settled state (ok response) = pure (composed state (ok response))
  settled state (err (all_failed codes')) = pure (composed state (err codes'))
  settled state (err (passed e)) = raise (exception_of e)

  abbrev pub with_prompt :
      Provider → Option Provider → AgentState → Option Prompt → Action env AgentState
  with_prompt primary fallback state none = raise attribute_error
  with_prompt primary fallback state (some prompt) =
      settled state (generate primary fallback prompt)

  unfoldable pub compose_reply : Provider → Option Provider → AgentState → Action env AgentState
  compose_reply primary fallback state = with_prompt primary fallback state (build_prompt state)
