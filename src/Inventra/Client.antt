-- ===== src/Inventra/Client.antt =====
-- backend/app/integrations/inventra/client.py
pub mod Laws
pub mod Errors
pub mod Costs
use ecommerce_sales_agent.Prelude.{
  ℕ, Bool, true, false, Option, none, some, List, [], ◌∷◌, ◌++◌, ◌==◌, leb, ◌||◌, not,
  if◌then◌else◌, is_nil,
}
use ecommerce_sales_agent.Prelude.Int.{ℤ, pos, leb_ℤ}
use ecommerce_sales_agent.Text.{Text, codes}
use ecommerce_sales_agent.Json.{Json, arr, Items, nil, cons}
use ecommerce_sales_agent.Retry.{
  HttpReply, timeout_exception, transport_error, other_exception, response, unreadable, is_success,
  request_loop,
}
use ecommerce_sales_agent.Exec.{Result, ok, err, Exec, pure, raise, ◌>>=◌, ◌>>◌}
use ecommerce_sales_agent.Inventra.Errors.{
  InventraError, auth_error, not_found_error, validation_error, rate_limited_error, server_error,
  timeout_error, connection_error, response_error, Exc, inventra, other_error,
}
use ecommerce_sales_agent.Inventra.Schemas.{
  Product, ProductListResponse, Category, InventoryItem, StockOutResult, StockMovementListResponse,
  StockStatus, in_stock, out_of_stock, low_stock, MovementType, stock_in, stock_adjustment,
}
use ecommerce_sales_agent.Inventra.Schemas
use ecommerce_sales_agent.Inventra.Env.{
  Env, World, Action, Request, Param, int, nat, str, flag, get, post, Endpoint, products, inventory,
  movements, categories, product, category, stock_out,
}

abbrev retryable_status_codes : List ℕ
retryable_status_codes = 502 ∷ 503 ∷ 504 ∷ []

-- `_raise_for_status`, for a status that is no success
pub status_error : ℕ → InventraError
status_error status =
    if status == 401 || status == 403
    then auth_error
    else if status == 404
    then not_found_error
    else if status == 400 || status == 422
    then validation_error
    else if status == 429
    then rate_limited_error
    else if leb 500 status
    then server_error
    else response_error

abbrev body_or_error : Option Json → Result Exc Json
body_or_error none = err (inventra response_error)
body_or_error (some j) = ok j

-- What a reply comes to once no attempt is left to make. The body is read for every status, of an
-- error by `_safe_detail`.
unfoldable pub finish : HttpReply → Result Exc Json
unfolding status_error
finish timeout_exception = err (inventra timeout_error)
finish transport_error = err (inventra connection_error)
finish other_exception = err other_error
finish (response status body) =
    if is_success status then body_or_error body else err (inventra (status_error status))
finish (unreadable status) = err other_error

abbrev given : {A : Type 0} → Text → (A → Param) → Option A → List (Text × Param)
given name param none = []
given name param (some a) = (name, param a) ∷ []

abbrev pub status_text : StockStatus → Text
status_text in_stock = codes "in_stock"
status_text out_of_stock = codes "out_of_stock"
status_text low_stock = codes "low_stock"

abbrev movement_text : MovementType → Text
movement_text stock_in = codes "STOCK_IN"
movement_text Schemas.stock_out = codes "STOCK_OUT"
movement_text stock_adjustment = codes "STOCK_ADJUSTMENT"

abbrev read_of : Endpoint → List (Text × Param) → Request
read_of endpoint params = record { method = get; endpoint = endpoint; params = params }

abbrev low_stock_param : Bool → List (Text × Param)
low_stock_param true = (codes "low_stock_only", flag true) ∷ []
low_stock_param false = []

abbrev pub stock_out_request : ℕ → ℤ → Option Text → Request
stock_out_request product_id quantity notes = record {
  method = post;
  endpoint = stock_out product_id;
  params = (codes "quantity", int quantity) ∷ given (codes "notes") str notes;
}

module _ (env : Env) where
  -- One call of `httpx`: the request is sent, and the service answers.
  abbrev pub http_request : Request → World env → HttpReply × World env
  http_request req w = (env.http w.sent req, record w { sent = req ∷ w.sent })

  -- `StaticBearerTokenProvider.headers`: no request is made without a credential.
  abbrev pub headers : Action env (Unit {0})
  headers = if is_nil env.bearer_token then raise (inventra auth_error) else pure tt

  unfoldable pub request_json : Request → Action env Json
  request_json req = do
    headers
    request_loop (http_request req) retryable_status_codes finish env.max_retries

  abbrev or_refused : {A : Type 0} → Option A → Action env A
  or_refused none = raise (inventra response_error)
  or_refused (some a) = pure a

  -- `_parse`
  abbrev parse : {A : Type 0} → (Json → Option A) → Json → Action env A
  parse validate payload = or_refused (validate payload)

  unfoldable pub parse_all : {A : Type 0} → (Json → Option A) → Items → Action env (List A)
  parse_all validate nil = pure []
  parse_all validate (cons j js) = do
    a ← parse validate j
    as' ← parse_all validate js
    pure (a ∷ as')

  -- A payload that is no array is refused before its items are parsed.
  abbrev parse_array : {A : Type 0} → (Json → Option A) → Json → Action env (List A)
  parse_array validate (arr js) = parse_all validate js
  parse_array validate j = raise (inventra response_error)

  unfoldable pub list_products :
      (page per_page : ℕ) (search : Option Text) (category_id : Option ℕ) (is_active : Option Bool)
      (stock_status : Option StockStatus)
      → Action env ProductListResponse
  list_products page per_page search category_id is_active stock_status = do
    data' ← request_json (
        read_of products (
          (codes "page", nat page)
          ∷ (codes "per_page", nat per_page)
          ∷ (given (codes "search") str search
              ++ (given (codes "category_id") nat category_id
                  ++ (given (codes "is_active") flag is_active
                      ++ given (codes "stock_status") (λ s. str (status_text s)) stock_status)))))
    parse env.product_list_model.validate data'

  unfoldable pub get_product : ℕ → Action env Product
  get_product product_id = do
    data' ← request_json (read_of (product product_id) [])
    parse env.product_model.validate data'

  unfoldable pub list_categories : Action env (List Category)
  list_categories = do
    data' ← request_json (read_of categories [])
    parse_array env.category_model.validate data'

  unfoldable pub get_category : ℕ → Action env Category
  get_category category_id = do
    data' ← request_json (read_of (category category_id) [])
    parse env.category_model.validate data'

  unfoldable pub list_inventory :
      (search : Option Text) (stock_status : Option Text) (low_stock_only : Bool)
      → Action env (List InventoryItem)
  list_inventory search stock_status low_stock_only = do
    data' ← request_json (
        read_of inventory (
          given (codes "search") str search
          ++ (given (codes "stock_status") str stock_status ++ low_stock_param low_stock_only)))
    parse_array env.item_model.validate data'

  unfoldable pub list_inventory_movements :
      (product_id : Option ℕ) (movement_type : Option MovementType) (page per_page : ℕ)
      → Action env StockMovementListResponse
  list_inventory_movements product_id movement_type page per_page = do
    data' ← request_json (
        read_of movements (
          (codes "page", nat page)
          ∷ (codes "per_page", nat per_page)
          ∷ (given (codes "product_id") nat product_id
              ++ given (codes "movement_type") (λ t. str (movement_text t)) movement_type)))
    parse env.movement_list_model.validate data'

  abbrev of_result : {A : Type 0} → Result Exc A → Action env A
  of_result r w = (r, w)

  -- A result for another product is refused.
  abbrev same_product : ℕ → StockOutResult → Action env StockOutResult
  same_product product_id result =
      if result.product_id == product_id then pure result else raise (inventra response_error)

  abbrev send_once : Request → Action env HttpReply
  send_once req w = let (reply, w') = http_request req w in (ok reply, w')

  -- The one write: a single attempt, outside the request loop.
  unfoldable pub client_stock_out : ℕ → ℤ → Option Text → Action env StockOutResult
  client_stock_out product_id quantity notes =
      if leb_ℤ quantity (pos 0) then raise (inventra validation_error) else do
        headers
        reply ← send_once (stock_out_request product_id quantity notes)
        data' ← of_result (finish reply)
        result ← parse env.stock_out_model.validate data'
        same_product product_id result
