-- ===== src/Inventra/Errors.antt =====
-- integrations/inventra/errors.py, tools/errors.py and tools/inventra/base.py: the client's errors,
-- the tools' errors and the translation. Of an exception its type and code are kept, not its text.
use ecommerce_sales_agent.Agents.State.{
  ToolErrorCode, not_found, invalid_input, unavailable, timeout, rate_limited, auth, upstream_error,
  unexpected_response, config,
}

pub data InventraError : Type 0 where
  config_error auth_error not_found_error validation_error rate_limited_error : InventraError
  server_error timeout_error connection_error response_error : InventraError

-- The subclasses of `ToolError`.
pub data ToolErrorKind : Type 0 where
  base input missing unreachable : ToolErrorKind

pub record ToolError : Type 0 where
  pub kind : ToolErrorKind
  pub code : ToolErrorCode

-- Everything that a node can raise: the typed errors, pydantic's `ValidationError`, Python's
-- `ValueError`, `IndexError` and `AttributeError`, and any other exception, which no handler of the
-- clients, the tools and the nodes catches: httpx's `DecodingError`, `RecursionError`, `TypeError`.
pub data Exc : Type 0 where
  inventra : InventraError → Exc
  tool : ToolError → Exc
  invalid_model value_error index_error attribute_error other_error : Exc

abbrev pub failure : ToolErrorKind → ToolErrorCode → ToolError
failure k c = record { kind = k; code = c }

unfoldable pub translate_inventra_error : InventraError → ToolError
translate_inventra_error not_found_error = failure missing not_found
translate_inventra_error validation_error = failure input invalid_input
translate_inventra_error timeout_error = failure unreachable timeout
translate_inventra_error connection_error = failure unreachable unavailable
translate_inventra_error server_error = failure unreachable upstream_error
translate_inventra_error rate_limited_error = failure unreachable rate_limited
translate_inventra_error auth_error = failure unreachable auth
translate_inventra_error config_error = failure unreachable config
translate_inventra_error response_error = failure unreachable unexpected_response

-- `except InventraError as exc: translate_inventra_error(exc)`; another exception passes.
abbrev pub translated : Exc → Exc
translated (inventra e) = tool (translate_inventra_error e)
translated (tool e) = tool e
translated invalid_model = invalid_model
translated value_error = value_error
translated index_error = index_error
translated attribute_error = attribute_error
translated other_error = other_error
