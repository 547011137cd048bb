-- ===== src/Shop.antt =====
-- A concrete shop: one product, one customer's conversation, an association list for Redis. The
-- theorems are applied to it.
pub mod Store
mod Tests
use ecommerce_sales_agent.Prelude.{ℕ, Bool, true, false, Option, none, some, List, [], ◌∷◌}
use ecommerce_sales_agent.Prelude.Int.{pos}
use ecommerce_sales_agent.Text.{Text, codes}
use ecommerce_sales_agent.Json.{Json, null, num, str, arr, obj, nil, cons, field, end, get}
use ecommerce_sales_agent.Exec.{Result, ok, err}
use ecommerce_sales_agent.Retry.{HttpReply, response}
use ecommerce_sales_agent.Agents.State.{PendingPurchase}
use ecommerce_sales_agent.Agents.Turn.{AgentState, written, initial_state}
use ecommerce_sales_agent.Agents.Compose.{
  llm, Provider, llm_timeout, LlmError, GenerationResponse, Prompt,
}
use ecommerce_sales_agent.Inventra.Schemas.{
  Product, ProductListResponse, Category, InventoryItem, StockOutResult, StockMovementListResponse,
}
use ecommerce_sales_agent.Inventra.Env.{
  Env, World, Codec, Request, Message, agent, Endpoint, inventory, categories,
}
use ecommerce_sales_agent.Shop.Store.{Entries, lookup_key, keys_like, without_keys}

abbrev lamp : Product
lamp = record {
  id = 7;
  name = codes "Lamp";
  sku = codes "L-7";
  description = none;
  category_id = none;
  category_name = none;
  price = 25;
  is_active = true;
  created_at = [];
  updated_at = [];
}

abbrev lamps : ProductListResponse
lamps = record { products = lamp ∷ []; total = 1; page = 1; per_page = 5; pages = 1 }

abbrev lighting : Category
lighting = record {
  id = 3;
  name = codes "Lighting";
  description = none;
  created_at = [];
  updated_at = [];
}

abbrev lamp_stock : InventoryItem
lamp_stock = record {
  id = 1;
  product_id = 7;
  product_name = some (codes "Lamp");
  product_sku = none;
  quantity = pos 5;
  low_stock_threshold = pos 1;
  is_low_stock = false;
  updated_at = [];
}

abbrev pub lamp_sold : StockOutResult
lamp_sold = record {
  product_id = 7;
  product_name = none;
  quantity = pos 3;
  low_stock_threshold = none;
  is_low_stock = none;
}

abbrev pub two_lamps : PendingPurchase
two_lamps = record {
  product_id = 7;
  product_name = codes "Lamp";
  quantity = pos 2;
  unit_price = 25;
}

-- A pending purchase as JSON, and back.
abbrev dump_pending : PendingPurchase → Json
dump_pending p = obj (
    field (codes "product_id") (num (pos p.product_id)) (
      field (codes "product_name") (str p.product_name) (
        field (codes "quantity") (num p.quantity)
          (field (codes "unit_price") (num (pos p.unit_price)) end))))

abbrev pending_of : Json → Json → Json → Json → Option PendingPurchase
pending_of (num (pos id)) (str name) (num quantity) (num (pos price)) =
    some (record { product_id = id; product_name = name; quantity = quantity; unit_price = price })
pending_of id name quantity price = none

abbrev validate_pending : Json → Option PendingPurchase
validate_pending (obj fields) =
    pending_of (get (codes "product_id") fields) (get (codes "product_name") fields)
      (get (codes "quantity") fields) (get (codes "unit_price") fields)
validate_pending j = none

abbrev always : {A : Type 0} → A → Codec A
always a = record { validate = λ j. some a; dump = λ a'. null }

abbrev body : Endpoint → Json
body inventory = arr (cons null nil)
body categories = arr (cons null nil)
body _ = null

abbrev pub shop : Env
shop = record {
  http = λ sent req. response 200 (some (body req.endpoint));
  max_retries = 1;
  bearer_token = codes "token";
  product_model = always lamp;
  product_list_model = always lamps;
  category_model = always lighting;
  item_model = always lamp_stock;
  stock_out_model = always lamp_sold;
  movement_list_model = always (record { movements = []; total = 0; page = 1; per_page = 50 });
  Store = Entries;
  redis_get = λ s k. (some (lookup_key k s), s);
  redis_set = λ s k v ttl. (true, (k, v) ∷ s);
  redis_keys = λ s pattern'. (some (keys_like pattern' s), s);
  redis_delete = λ s ks. (some 0, without_keys ks s);
  dumps = λ j. codes "{}";
  dumps_compact = λ j. codes "{}";
  loads = λ s. none;
  sha256 = λ s. s;
  parse_uuid = λ s. some 1;
  pending_model = record { validate = validate_pending; dump = dump_pending };
  ttl_products = 300;
  ttl_negative = 60;
  ttl_categories = 600;
}

abbrev pub question : Message
question = record {
  conversation = 1;
  role = agent;
  content_text = written (codes "Confirm?");
  pending = some (dump_pending two_lamps);
  telegram_update_id = none;
}

abbrev pub start : World shop
start = record {
  sent = [];
  redis = [];
  messages = question ∷ [];
  conversations = 1 ∷ [];
  faults = [];
}

abbrev pub conversation_id : Option Text
conversation_id = some (codes "1")

abbrev pub saying : Text → AgentState
saying message = initial_state message conversation_id none

abbrev pub silent : Provider
silent prompt = err (llm llm_timeout)

abbrev pub talkative : Provider
talkative prompt = ok (record {
  text = codes "Hello";
  model_used = codes "m";
  fallback_used = false;
  token_usage = none;
})
