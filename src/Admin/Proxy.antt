-- ===== src/Admin/Proxy.antt =====
-- backend/app/api/routes/inventra_admin.py, and `get_inventra_client` of backend/app/api/deps.py: the
-- admin's reads of Inventra. Of an HTTP error its status is kept; `GET /dashboard/stats` is left out.
pub mod Laws
pub mod Errors
use ecommerce_sales_agent.Prelude.{
  ℕ, Bool, true, false, Option, none, some, List, leb, ◌&&◌, not, if◌then◌else◌, length,
}
use ecommerce_sales_agent.Text.{Text, codes}
use ecommerce_sales_agent.Exec.{Result, ok, err, Exec, raise}
use ecommerce_sales_agent.Inventra.Errors.{
  InventraError, config_error, auth_error, not_found_error, validation_error, rate_limited_error,
  server_error, timeout_error, connection_error, response_error, Exc, inventra, tool, invalid_model,
  value_error, index_error, attribute_error, other_error,
}
use ecommerce_sales_agent.Inventra.Schemas.{
  Product, ProductListResponse, Category, InventoryItem, StockMovementListResponse, StockStatus,
  MovementType,
}
use ecommerce_sales_agent.Inventra.Env.{Env, World, Action}
use ecommerce_sales_agent.Inventra.Client.{
  list_products, get_product, list_categories, list_inventory, list_inventory_movements,
}
use ecommerce_sales_agent.Admin.Auth.{
  Crypto, AdminSettings, AdminContext, AdminError, not_configured, not_authenticated, token_expired,
  token_invalid, invalid_credentials, type_error, require_admin,
}

-- The statuses with which `admin_deps` raises; a TypeError is no HTTP error and becomes a 500.
abbrev pub admin_error_status : AdminError → ℕ
admin_error_status not_configured = 503
admin_error_status not_authenticated = 401
admin_error_status token_expired = 401
admin_error_status token_invalid = 401
admin_error_status invalid_credentials = 401
admin_error_status type_error = 500

-- `_inventra_error_to_http`
unfoldable pub inventra_error_to_http : InventraError → ℕ
inventra_error_to_http not_found_error = 404
inventra_error_to_http validation_error = 502
inventra_error_to_http response_error = 502
inventra_error_to_http config_error = 503
inventra_error_to_http auth_error = 503
inventra_error_to_http rate_limited_error = 503
inventra_error_to_http server_error = 503
inventra_error_to_http timeout_error = 503
inventra_error_to_http connection_error = 503

-- `except InventraError`; what a handler does not catch becomes a 500.
abbrev pub caught_status : Exc → ℕ
caught_status (inventra e) = inventra_error_to_http e
caught_status (tool e) = 500
caught_status invalid_model = 500
caught_status value_error = 500
caught_status index_error = 500
caught_status attribute_error = 500
caught_status other_error = 500

-- `Literal["in_stock", "out_of_stock"]`
pub data InventoryStatus : Type 0 where
  in_stock out_of_stock : InventoryStatus

abbrev inventory_status_text : InventoryStatus → Text
inventory_status_text in_stock = codes "in_stock"
inventory_status_text out_of_stock = codes "out_of_stock"

abbrev given_status : Option InventoryStatus → Option Text
given_status none = none
given_status (some s) = some (inventory_status_text s)

-- A request to one of the routes, with its path and query read to their types.
pub data AdminRead : Type 0 where
  read_products :
      (page per_page : ℕ) (search : Option Text) (category_id : Option ℕ) (is_active : Option Bool)
      (stock_status : Option StockStatus)
      → AdminRead
  read_product : (product_id : ℕ) → AdminRead
  read_inventory :
      (search : Option Text) (stock_status : Option InventoryStatus) (low_stock_only : Bool)
      → AdminRead
  read_movements :
      (product_id : Option ℕ) (movement_type : Option MovementType) (page per_page : ℕ) → AdminRead
  read_categories : AdminRead

abbrev pub Answer : AdminRead → Type 0
Answer (read_products page per_page search category_id is_active stock_status) = ProductListResponse
Answer (read_product product_id) = Product
Answer (read_inventory search stock_status low_stock_only) = List InventoryItem
Answer (read_movements product_id movement_type page per_page) = StockMovementListResponse
Answer read_categories = List Category

abbrev positive_if_given : Option ℕ → Bool
positive_if_given none = true
positive_if_given (some n) = leb 1 n

abbrev short_if_given : Option Text → Bool
short_if_given none = true
short_if_given (some s) = leb (length s) 200

-- The bounds that `Path` and `Query` declare.
unfoldable pub in_bounds : AdminRead → Bool
in_bounds (read_products page per_page search category_id is_active stock_status) =
    leb 1 page
    && (leb 1 per_page
        && (leb per_page 100 && (short_if_given search && positive_if_given category_id)))
in_bounds (read_product product_id) = leb 1 product_id
in_bounds (read_inventory search stock_status low_stock_only) = short_if_given search
in_bounds (read_movements product_id movement_type page per_page) =
    positive_if_given product_id && (leb 1 page && (leb 1 per_page && leb per_page 100))
in_bounds read_categories = true

module _ (env : Env) where
  abbrev pub fulfil : (r : AdminRead) → Action env (Answer r)
  fulfil (read_products page per_page search category_id is_active stock_status) =
      list_products env page per_page search category_id is_active stock_status
  fulfil (read_product product_id) = get_product env product_id
  fulfil (read_inventory search stock_status low_stock_only) =
      list_inventory env search (given_status stock_status) low_stock_only
  fulfil (read_movements product_id movement_type page per_page) =
      list_inventory_movements env product_id movement_type page per_page
  fulfil read_categories = list_categories env

  abbrev pub caught : {A : Type 0} → Result Exc A → Result ℕ A
  caught (ok a) = ok a
  caught (err e) = err (caught_status e)

  abbrev pub respond : {A : Type 0} → Action env A → Exec (World env) ℕ A
  respond m w = let (r, w') = m w in (caught r, w')

  -- FastAPI solves the dependencies in the order they are declared, then checks the path and query.
  abbrev pub route :
      Bool → (r : AdminRead) → Result AdminError AdminContext → Exec (World env) ℕ (Answer r)
  route attached r (err e) = raise (admin_error_status e)
  route attached r (ok admin) =
      if not attached
      then raise 503
      else if not (in_bounds r)
      then raise 422
      else respond (fulfil r)

  -- `attached`: whether the start of the application made a client.
  unfoldable pub admin_read :
      Crypto
      → AdminSettings
      → Bool
      → Option Text
      → ℕ
      → (r : AdminRead) → Exec (World env) ℕ (Answer r)
  admin_read crypto settings attached authorization now r =
      route attached r (require_admin crypto settings authorization now)
