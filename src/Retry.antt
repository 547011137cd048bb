-- ===== src/Retry.antt =====
-- The request loop that the four HTTP clients share in shape: integrations/inventra/client.py,
-- integrations/telegram/client.py, integrations/llm/gemini.py and integrations/llm/nemotron.py.
pub mod Laws
use ecommerce_sales_agent.Prelude.{
  ℕ, zero, suc, Bool, true, false, Option, List, [], ◌∷◌, any, ◌==◌, leb, ltb, ◌&&◌, ◌||◌,
}
use ecommerce_sales_agent.Json.{Json}
use ecommerce_sales_agent.Exec.{Result}

-- What one call of `httpx` gives: a timeout, another transport error, an exception that is neither
-- (a DecodingError), a status with the parsed body (`none` where `json()` raises a ValueError), or a
-- status with a body on which `json()` raises another exception (a RecursionError).
pub data HttpReply : Type 0 where
  timeout_exception transport_error other_exception : HttpReply
  response : ℕ → Option Json → HttpReply
  unreadable : ℕ → HttpReply

abbrev pub is_success : ℕ → Bool
is_success status = leb 200 status && ltb status 300

abbrev pub listed : ℕ → List ℕ → Bool
listed status codes = any (λ c. status == c) codes

-- The failures that the loop answers with another attempt while it has one left.
abbrev pub is_transient : List ℕ → HttpReply → Bool
is_transient retryable timeout_exception = true
is_transient retryable transport_error = true
is_transient retryable other_exception = false
is_transient retryable (response status body) = listed status retryable
is_transient retryable (unreadable status) = listed status retryable

module _ {S E A : Type 0} (send : S → HttpReply × S) (retryable : List ℕ)
    (finish : HttpReply → Result E A) where
  -- `while True`, by the retries that are left; the waits between attempts are not modelled.
  unfoldable pub request_loop : ℕ → S → Result E A × S
  request_loop zero s = let (reply, s') = send s in (finish reply, s')
  request_loop (suc retries_left) s =
      let (reply, s') = send s in
      let again = request_loop retries_left s' in
      elim (is_transient retryable reply) [ true ↦ again | false ↦ (finish reply, s') ]
