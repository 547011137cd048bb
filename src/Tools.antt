-- ===== src/Tools.antt =====
-- backend/app/tools/inventra: the typed tools over the client and the cache.
pub mod Laws
pub mod Errors
pub mod Costs
use ecommerce_sales_agent.Prelude.{
  ℕ, Bool, true, false, Option, none, some, List, [], ltb, leb, if◌then◌else◌, is_nil, length, ◌||◌,
}
use ecommerce_sales_agent.Prelude.Int.{ℤ, pos, leb_ℤ}
use ecommerce_sales_agent.Text.{Text, strip}
use ecommerce_sales_agent.Exec.{Result, ok, err, Exec, pure, raise, ◌>>=◌, ◌>>◌, handle}
use ecommerce_sales_agent.Inventra.Errors.{Exc, invalid_model, translated}
use ecommerce_sales_agent.Inventra.Schemas.{
  Product, ProductListResponse, Category, InventoryItem, StockOutResult, StockMovementListResponse,
  StockStatus, MovementType,
}
use ecommerce_sales_agent.Inventra.Env.{Env, World, Action}
use ecommerce_sales_agent.Inventra.Client.{
  list_products, get_product, list_categories, get_category, list_inventory,
  list_inventory_movements, client_stock_out,
}
use ecommerce_sales_agent.Cache.{
  Family, list_codec, read_through, products_list_key, product_detail_key, inventory_key,
  categories_all_key, category_detail_key, invalidate_product_stock,
}

pub record ProductSearchParams : Type 0 where
  pub page : ℕ
  pub per_page : ℕ
  pub search : Option Text
  pub category_id : Option ℕ
  pub is_active : Option Bool
  pub stock_status : Option StockStatus

pub record InventorySearchParams : Type 0 where
  pub search : Option Text
  pub stock_status : Option Text
  pub low_stock_only : Bool

pub record InventoryMovementParams : Type 0 where
  pub product_id : Option ℕ
  pub movement_type : Option MovementType
  pub page : ℕ
  pub per_page : ℕ

pub record StockOutParams : Type 0 where
  pub product_id : ℕ
  pub quantity : ℤ
  pub notes : Option Text

-- `max_length` and `ge=1` of an optional field
abbrev pub within : ℕ → Option Text → Bool
within n none = true
within n (some s) = leb (length s) n

abbrev positive : Option ℕ → Bool
positive none = true
positive (some n) = leb 1 n

module _ (env : Env) where
  -- A pydantic model is built, or its `ValidationError` is raised.
  abbrev checked : {A : Type 0} → Bool → A → Action env A
  checked valid a = if valid then pure a else raise invalid_model

  -- `ProductSearchParams(search=…, category_id=…, per_page=…)`; the other fields keep their default.
  unfoldable pub product_search_params : Option Text → Option ℕ → ℕ → Action env ProductSearchParams
  product_search_params search category_id per_page =
      if within 200 search
      then (if positive category_id
          then checked (leb 1 per_page) (record {
            page = 1;
            per_page = per_page;
            search = search;
            category_id = category_id;
            is_active = none;
            stock_status = none;
          })
          else raise invalid_model)
      else raise invalid_model

  unfoldable pub inventory_search_params : Option Text → Action env InventorySearchParams
  inventory_search_params search =
      checked (within 200 search)
        (record { search = search; stock_status = none; low_stock_only = false })

  unfoldable pub inventory_movement_params : Option ℕ → Action env InventoryMovementParams
  inventory_movement_params product_id =
      checked (positive product_id)
        (record { product_id = product_id; movement_type = none; page = 1; per_page = 50 })

  unfoldable pub stock_out_params : ℕ → ℤ → Option Text → Action env StockOutParams
  stock_out_params product_id quantity notes =
      if leb 1 product_id
      then (if leb_ℤ quantity (pos 0)
          then raise invalid_model
          else checked (within 500 notes)
              (record { product_id = product_id; quantity = quantity; notes = notes }))
      else raise invalid_model

  -- `except InventraError as exc: translate_inventra_error(exc)`
  abbrev pub translating : {A : Type 0} → Action env A → Action env A
  translating m = handle m (λ e. raise (translated e))

  abbrev empty_page : ProductSearchParams → Option ProductListResponse → ProductListResponse
  empty_page params none = record {
    products = [];
    total = 0;
    page = params.page;
    per_page = params.per_page;
    pages = 0;
  }
  empty_page params (some result) = result

  abbrev product_list_family : Family ProductListResponse
  product_list_family = record { codec = env.product_list_model; is_empty = λ r. is_nil r.products }

  abbrev pub product_family : Family Product
  product_family = record { codec = env.product_model; is_empty = λ r. false }

  abbrev categories_family : Family (List Category)
  categories_family = record { codec = list_codec env.category_model; is_empty = is_nil }

  abbrev category_family : Family Category
  category_family = record { codec = env.category_model; is_empty = λ r. false }

  abbrev inventory_family : Family (List InventoryItem)
  inventory_family = record { codec = list_codec env.item_model; is_empty = is_nil }

  abbrev list_for : ProductSearchParams → Action env ProductListResponse
  list_for p = list_products env p.page p.per_page p.search p.category_id p.is_active p.stock_status

  -- `cached` says whether a cache is given.
  unfoldable pub search_products : Bool → ProductSearchParams → Action env ProductListResponse
  search_products true p = translating (do
    result ←
        read_through env product_list_family
          (products_list_key env p.page p.per_page p.search p.category_id p.is_active
            p.stock_status)
          (list_for p) env.ttl_products true
    pure (empty_page p result))
  search_products false p = translating (list_for p)

  -- A negative entry under a key that is never stored as one would be returned as `None`.
  unfoldable pub get_product_details : Bool → ℕ → Action env (Option Product)
  get_product_details true product_id = translating (
      read_through env product_family (product_detail_key env product_id)
        (get_product env product_id) env.ttl_products false)
  get_product_details false product_id =
      translating (do product ← get_product env product_id; pure (some product))

  abbrev or_nil : {A : Type 0} → Option (List A) → List A
  or_nil none = []
  or_nil (some as') = as'

  unfoldable pub list_categories_tool : Bool → Action env (List Category)
  list_categories_tool true = translating (do
    found ←
        read_through env categories_family (categories_all_key env) (list_categories env)
          env.ttl_categories false
    pure (or_nil found))
  list_categories_tool false = translating (list_categories env)

  unfoldable pub get_category_details : Bool → ℕ → Action env (Option Category)
  get_category_details true category_id = translating (
      read_through env category_family (category_detail_key env category_id)
        (get_category env category_id) env.ttl_categories false)
  get_category_details false category_id =
      translating (do category ← get_category env category_id; pure (some category))

  abbrev inventory_for : InventorySearchParams → Action env (List InventoryItem)
  inventory_for p = list_inventory env p.search p.stock_status p.low_stock_only

  unfoldable pub check_inventory : Bool → InventorySearchParams → Action env (List InventoryItem)
  check_inventory true p = translating (do
    found ←
        read_through env inventory_family
          (inventory_key env p.search p.stock_status p.low_stock_only) (inventory_for p)
          env.ttl_products true
    pure (or_nil found))
  check_inventory false p = translating (inventory_for p)

  unfoldable pub get_inventory_movements :
      InventoryMovementParams → Action env StockMovementListResponse
  get_inventory_movements p =
      translating (list_inventory_movements env p.product_id p.movement_type p.page p.per_page)

  abbrev invalidate_if : Bool → ℕ → StockOutResult → Action env StockOutResult
  invalidate_if true product_id result = do invalidate_product_stock env product_id; pure result
  invalidate_if false product_id result = pure result

  -- The write, and after a success the invalidation.
  unfoldable pub stock_out_product : Bool → StockOutParams → Action env StockOutResult
  stock_out_product cached p = do
    result ← translating (client_stock_out env p.product_id p.quantity p.notes)
    invalidate_if cached p.product_id result
