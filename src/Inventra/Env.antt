-- ===== src/Inventra/Env.antt =====
-- What the agent runs against: the Inventra service, pydantic's validation, Redis and the hash, as
-- the fields of a record; and the state that a turn changes.
use ecommerce_sales_agent.Prelude.{ℕ, Bool, Option, List}
use ecommerce_sales_agent.Prelude.Int.{ℤ}
use ecommerce_sales_agent.Text.{Text}
use ecommerce_sales_agent.Json.{Json}
use ecommerce_sales_agent.Retry.{HttpReply}
use ecommerce_sales_agent.Exec.{Exec}
use ecommerce_sales_agent.Agents.State.{PendingPurchase}
use ecommerce_sales_agent.Agents.Turn.{Reply}
use ecommerce_sales_agent.Inventra.Errors.{Exc}
use ecommerce_sales_agent.Inventra.Schemas.{
  Product, ProductListResponse, Category, InventoryItem, StockOutResult, StockMovementListResponse,
}

pub data Endpoint : Type 0 where
  products inventory movements categories dashboard : Endpoint
  product category stock_out : ℕ → Endpoint

pub data Param : Type 0 where
  int : ℤ → Param
  nat : ℕ → Param
  str : Text → Param
  flag : Bool → Param

pub data Method : Type 0 where
  get post : Method

pub record Request : Type 0 where
  pub method : Method
  pub endpoint : Endpoint
  pub params : List (Text × Param)

-- The two directions of a pydantic model: `model_validate` and `model_dump(mode="json")`.
pub record Codec (A : Type 0) : Type 0 where
  pub validate : Json → Option A
  pub dump : A → Json

-- An answer of the service may depend on all that was sent before, newest first. A call of Redis
-- gives `none` (or `false`) where the client raises, and the store that it leaves.
pub record Env : Type 1 where
  pub http : List Request → Request → HttpReply
  pub max_retries : ℕ
  pub bearer_token : Text
  pub product_model : Codec Product
  pub product_list_model : Codec ProductListResponse
  pub category_model : Codec Category
  pub item_model : Codec InventoryItem
  pub stock_out_model : Codec StockOutResult
  pub movement_list_model : Codec StockMovementListResponse
  pub Store : Type 0
  pub redis_get : Store → Text → Option (Option Text) × Store
  pub redis_set : Store → Text → Text → ℕ → Bool × Store
  pub redis_keys : Store → Text → Option (List Text) × Store
  pub redis_delete : Store → List Text → Option ℕ × Store
  pub dumps : Json → Text
  pub dumps_compact : Json → Text
  pub loads : Text → Option Json
  pub sha256 : Text → Text
  pub parse_uuid : Text → Option ℕ
  pub pending_model : Codec PendingPurchase
  pub ttl_products : ℕ
  pub ttl_negative : ℕ
  pub ttl_categories : ℕ

pub data Role : Type 0 where
  customer agent : Role

-- A row of `messages`: of `content_metadata` the pending purchase, of the transport the update id.
pub record Message : Type 0 where
  pub conversation : ℕ
  pub role : Role
  pub content_text : Reply
  pub pending : Option Json
  pub telegram_update_id : Option ℕ

-- The requests sent to Inventra and the messages, both newest first; the cache's server; the ids of
-- the rows of `conversations`; and for
-- each database session to come whether it fails (none does when the list has run out).
pub record World (env : Env) : Type 0 where
  pub sent : List Request
  pub redis : env.Store
  pub messages : List Message
  pub conversations : List ℕ
  pub faults : List Bool

abbrev pub Action : Env → Type 0 → Type 0
Action env A = Exec (World env) Exc A
