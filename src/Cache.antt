-- ===== src/Cache.antt =====
-- backend/app/integrations/cache.py: the keys, the entries and the read-through cache.
pub mod Laws
pub mod Costs
pub mod Keys
pub mod Sharing
use ecommerce_sales_agent.Prelude.{
  ℕ, Bool, true, false, Option, none, some, List, [], ◌∷◌, ◌++◌, map, if◌then◌else◌, is_nil, ◌&&◌,
}
use ecommerce_sales_agent.Prelude.Int.{pos}
use ecommerce_sales_agent.Text.{Text, codes, text_eq, strip, lower, show_nat}
use ecommerce_sales_agent.Json.{
  Json, null, flag, num, str, arr, obj, Items, nil, cons, items, Fields, end, field, get,
}
use ecommerce_sales_agent.Exec.{Result, ok, err, Exec, pure, raise, ◌>>=◌, ◌>>◌}
use ecommerce_sales_agent.Inventra.Schemas.{StockStatus}
use ecommerce_sales_agent.Inventra.Env.{Env, World, Action, Codec}
use ecommerce_sales_agent.Inventra.Client.{status_text}

abbrev pub prefix : Text
prefix = codes "inv:v1"

-- `_canonical_params`: the parameters come in the order of their names.
unfoldable pub normalized : List (Text × Json) → Fields
unfolding strip lower
normalized [] = end
normalized ((key, null) ∷ params) = normalized params
normalized ((key, flag false) ∷ params) = normalized params
normalized ((key, str s) ∷ params) =
    let rest = normalized params in
    let trimmed = lower (strip s) in
    if text_eq key (codes "search")
    then (if is_nil trimmed then rest else field key (str trimmed) rest)
    else field key (str s) rest
normalized ((key, value) ∷ params) = field key value (normalized params)

abbrev pub or_null : {A : Type 0} → (A → Json) → Option A → Json
or_null f none = null
or_null f (some a) = f a

module _ (env : Env) where
  abbrev hash_params : List (Text × Json) → Text
  hash_params params = env.sha256 (env.dumps_compact (obj (normalized params)))

  abbrev pub products_list_params :
      (page per_page : ℕ) (search : Option Text) (category_id : Option ℕ) (is_active : Option Bool)
      (stock_status : Option StockStatus)
      → List (Text × Json)
  products_list_params page per_page search category_id is_active stock_status =
      (codes "category_id", or_null (λ n. num (pos n)) category_id)
      ∷ (codes "is_active", or_null flag is_active)
      ∷ (codes "page", num (pos page))
      ∷ (codes "per_page", num (pos per_page))
      ∷ (codes "search", or_null str search)
      ∷ (codes "stock_status", or_null (λ s. str (status_text s)) stock_status)
      ∷ []

  unfoldable pub products_list_key :
      (page per_page : ℕ) (search : Option Text) (category_id : Option ℕ) (is_active : Option Bool)
      (stock_status : Option StockStatus)
      → Text
  unfolding normalized
  products_list_key page per_page search category_id is_active stock_status =
      prefix
      ++ (codes ":products:list:"
          ++ hash_params
              (products_list_params page per_page search category_id is_active stock_status))

  unfoldable pub product_detail_key : ℕ → Text
  unfolding show_nat
  product_detail_key product_id = prefix ++ (codes ":products:detail:" ++ show_nat product_id)

  unfoldable pub inventory_key :
      (search : Option Text) (stock_status : Option Text) (low_stock_only : Bool) → Text
  unfolding normalized
  inventory_key search stock_status low_stock_only =
      prefix
      ++ (codes ":inventory:"
          ++ hash_params (
              (codes "low_stock_only", flag low_stock_only)
              ∷ (codes "search", or_null str search)
              ∷ (codes "stock_status", or_null str stock_status)
              ∷ []))

  unfoldable pub categories_all_key : Text
  categories_all_key = prefix ++ codes ":categories:all"

  unfoldable pub category_detail_key : ℕ → Text
  unfolding show_nat
  category_detail_key category_id = prefix ++ (codes ":categories:detail:" ++ show_nat category_id)

abbrev pub negative_marker : Json
negative_marker = obj (field (codes "__negative__") (flag true) end)

-- `payload.get("__negative__") is True`
abbrev pub is_negative : Json → Bool
is_negative (obj fs) = elim (get (codes "__negative__") fs) [ flag b ↦ b | other ↦ false ]
is_negative j = false

-- A decoded entry: a negative hit, or a model.
pub data Entry (A : Type 0) : Type 0 where
  negative : Entry A
  hit : A → Entry A

-- How a result is stored: its codec, and whether it is a confirmed empty read.
pub record Family (A : Type 0) : Type 0 where
  pub codec : Codec A
  pub is_empty : A → Bool

abbrev pub list_items : List Json → Items
list_items [] = nil
list_items (j ∷ js) = cons j (list_items js)

abbrev pub validate_all : {A : Type 0} → (Json → Option A) → Items → Option (List A)
validate_all v nil = some []
validate_all v (cons j js) = elim (v j) [
  | none ↦ none
  | some a ↦ (elim (validate_all v js) [ none ↦ none | some as' ↦ some (a ∷ as') ])
]

abbrev pub validate_array : {A : Type 0} → (Json → Option A) → Json → Option (List A)
validate_array v (arr js) = validate_all v js
validate_array v j = none

-- `TypeAdapter(list[Model])`
abbrev pub list_codec : {A : Type 0} → Codec A → Codec (List A)
list_codec c = record {
  validate = validate_array c.validate;
  dump = λ as'. arr (list_items (map c.dump as'));
}

module _ (env : Env) {A : Type 0} (family : Family A) where
  -- `_decode`: `none` where it raises
  unfoldable pub decode : Text → Option (Entry A)
  decode cached = elim (env.loads cached) [
    | none ↦ none
    | some payload ↦
        if is_negative payload
        then some negative
        else (elim (family.codec.validate payload) [ none ↦ none | some a ↦ some (hit a) ])
  ]

  -- A `GET` that raises, a missing key and an entry that does not decode are all a miss.
  abbrev lookup_entry : Option (Option Text) → Option (Entry A)
  lookup_entry none = none
  lookup_entry (some none) = none
  lookup_entry (some (some cached)) = decode cached

  abbrev store_result : Text → ℕ → Bool → A → Action env (Option A)
  store_result key ttl negative_caching result w =
      let empty = negative_caching && family.is_empty result in
      let payload =
        if empty then env.dumps negative_marker else env.dumps (family.codec.dump result) in
      let (_, store) =
        env.redis_set w.redis key payload (if empty then env.ttl_negative else ttl) in
      (ok (some result), record w { redis = store })

  abbrev on_entry : Text → ℕ → Bool → Action env A → Option (Entry A) → Action env (Option A)
  on_entry key ttl negative_caching fetch none = do
    result ← fetch
    store_result key ttl negative_caching result
  on_entry key ttl negative_caching fetch (some negative) = pure none
  on_entry key ttl negative_caching fetch (some (hit a)) = pure (some a)

  -- `read_through`: `none` is a negative hit.
  unfoldable pub read_through : Text → Action env A → ℕ → Bool → Action env (Option A)
  read_through key fetch ttl negative_caching w =
      let (reply, store) = env.redis_get w.redis key in
      on_entry key ttl negative_caching fetch (lookup_entry reply) (record w { redis = store })

abbrev inventory_pattern : Text
inventory_pattern = prefix ++ codes ":inventory:*"

abbrev list_pattern : Text
list_pattern = prefix ++ codes ":products:list:*"

module _ (env : Env) where
  -- The calls of Redis in order; the first that raises ends the method with 0.
  delete_keys : List Text → env.Store → ℕ × env.Store
  delete_keys victims s =
      let (reply, s') = env.redis_delete s victims in
      elim reply [ none ↦ (0, s') | some deleted ↦ (deleted, s') ]

  list_then_delete : ℕ → List Text → Option (List Text) × env.Store → ℕ × env.Store
  list_then_delete product_id inventory_keys (none, s) = (0, s)
  list_then_delete product_id inventory_keys (some list_keys, s) =
      delete_keys (product_detail_key env product_id ∷ (inventory_keys ++ list_keys)) s

  inventory_then_list : ℕ → Option (List Text) × env.Store → ℕ × env.Store
  inventory_then_list product_id (none, s) = (0, s)
  inventory_then_list product_id (some inventory_keys, s) =
      list_then_delete product_id inventory_keys (env.redis_keys s list_pattern)

  -- `invalidate_product_stock`
  unfoldable pub invalidate_product_stock : ℕ → Action env ℕ
  unfolding delete_keys list_then_delete inventory_then_list
  invalidate_product_stock product_id w =
      let (deleted, store) =
        inventory_then_list product_id (env.redis_keys w.redis inventory_pattern) in
      (ok deleted, record w { redis = store })
