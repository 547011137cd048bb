-- ===== src/Inventra/Client/Laws.antt =====
-- What the client sends, and what it leaves alone.
use ecommerce_sales_agent.Prelude.{
  ℕ, ◌≡◌, refl, Bool, true, false, if◌then◌else◌, refl, ◌⊎◌, inl, inr, Option-cases, inl, inr, Bool,
  true, false, Option, none, some, List, [], ◌∷◌, arith, if◌then◌else◌,
}
use ecommerce_sales_agent.Prelude.Int.{ℤ, pos, leb_ℤ}
use ecommerce_sales_agent.Text.{Text}
use ecommerce_sales_agent.Json.{Json, Items, nil, cons, arr}
use ecommerce_sales_agent.Exec.{Result-cases, ok, pure, raise, ◌>>=◌, handle}
use ecommerce_sales_agent.Exec.Rules.{
  IsOrder, Moves, Moves-pure, Moves-raise, Moves-bind, Moves-handle,
}
use ecommerce_sales_agent.Retry.{
  HttpReply, timeout_exception, transport_error, other_exception, response, unreadable, is_success,
}
use ecommerce_sales_agent.Retry.Laws.{request_loop-moves}
use ecommerce_sales_agent.Inventra.Errors.{Exc}
use ecommerce_sales_agent.Inventra.Schemas.{StockOutResult, StockStatus, MovementType}
use ecommerce_sales_agent.Inventra.Env.{Env, World, Action, Request, Method, get, post}
use ecommerce_sales_agent.Inventra.Client.{
  http_request, headers, request_json, finish, or_refused, parse, parse_all, parse_array, read_of,
  list_products, get_product, list_categories, get_category, list_inventory,
  list_inventory_movements, stock_out_request, client_stock_out, retryable_status_codes,
}

abbrev pub is_write : Method → Bool
is_write get = false
is_write post = true

-- The writes among the requests, newest first.
abbrev pub writes : List Request → List Request
writes [] = []
writes (r ∷ rs) = if is_write r.method then r ∷ writes rs else writes rs

-- No write was sent, and the database is as it was.
pub record IsQuiet {env : Env} (w w' : World env) : Type 0 where
  pub writes : writes w'.sent ≡ writes w.sent
  pub messages : w'.messages ≡ w.messages
  pub faults : w'.faults ≡ w.faults

pub IsQuiet-order : {env : Env} → IsOrder (IsQuiet {env = env})
IsQuiet-order = record {
  same = λ w. record { writes = refl; messages = refl; faults = refl };
  trans = λ w v u a b. record {
    writes = cc (a.writes, b.writes);
    messages = cc (a.messages, b.messages);
    faults = cc (a.faults, b.faults);
  };
}

module _ (env : Env) where
  abbrev pub Quiet : {A : Type 0} → Action env A → Type 0
  Quiet m = Moves IsQuiet m

  pub if-Quiet :
      {A : Type 0} (b : Bool) (m n : Action env A) → Quiet m → Quiet n → Quiet (if b then m else n)
  if-Quiet true m n hm hn = hm
  if-Quiet false m n hm hn = hn

  pub pure-Quiet : {A : Type 0} (a : A) → Quiet (pure a)
  pure-Quiet a = Moves-pure IsQuiet-order a

  pub raise-Quiet : {A : Type 0} (e : Exc) → Quiet {A = A} (raise e)
  raise-Quiet e = Moves-raise IsQuiet-order e

  pub bind-Quiet :
      {A B : Type 0} (m : Action env A) (f : A → Action env B)
      → Quiet m
      → ((a : A) → Quiet (f a))
      → Quiet (m >>= f)
  bind-Quiet m f hm hf = Moves-bind IsQuiet-order m f hm hf

  pub handle-Quiet :
      {A : Type 0} (m : Action env A) (h : Exc → Action env A)
      → Quiet m
      → ((e : Exc) → Quiet (h e))
      → Quiet (handle m h)
  handle-Quiet m h hm hh = Moves-handle IsQuiet-order m h hm hh

  ruleset quiet_rules = (pure-Quiet, raise-Quiet, bind-Quiet, handle-Quiet, if-Quiet)

  headers-Quiet : Quiet (headers env)
  headers-Quiet = search quiet_rules

  request_json-Quiet : (req : Request) → req.method ≡ get → Quiet (request_json env req)
  unfolding request_json
  request_json-Quiet req e = bind-Quiet (headers env) _ headers-Quiet λ _. record {
    at = λ w.
        request_loop-moves (http_request env req) retryable_status_codes finish IsQuiet-order
          (λ v. record { writes = rw e refl; messages = refl; faults = refl }) env.max_retries w;
  }

  or_refused-Quiet : {A : Type 0} (o : Option A) → Quiet (or_refused env o)
  or_refused-Quiet none = raise-Quiet _
  or_refused-Quiet (some a) = pure-Quiet a

  parse_all-Quiet :
      {A : Type 0} (validate : Json → Option A) (js : Items) → Quiet (parse_all env validate js)
  unfolding parse_all
  parse_all-Quiet validate nil = pure-Quiet []
  parse_all-Quiet validate (cons j js) =
      bind-Quiet (parse env validate j) _ (or_refused-Quiet (validate j)) λ a.
        bind-Quiet (parse_all env validate js) _ (parse_all-Quiet validate js)
          λ as'. pure-Quiet (a ∷ as')

  parse_array-Quiet :
      {A : Type 0} (validate : Json → Option A) (j : Json) → Quiet (parse_array env validate j)
  parse_array-Quiet validate (arr js) = parse_all-Quiet validate js
  parse_array-Quiet validate _ = raise-Quiet _

  pub list_products-Quiet :
      (page per_page : ℕ) (search : Option Text) (category_id : Option ℕ) (is_active : Option Bool)
      (stock_status : Option StockStatus)
      → Quiet (list_products env page per_page search category_id is_active stock_status)
  unfolding list_products
  list_products-Quiet page per_page search category_id is_active stock_status =
      bind-Quiet (request_json env (read_of _ _)) _ (request_json-Quiet _ refl)
        λ j. or_refused-Quiet _

  pub get_product-Quiet : (product_id : ℕ) → Quiet (get_product env product_id)
  unfolding get_product
  get_product-Quiet product_id =
      bind-Quiet (request_json env (read_of _ _)) _ (request_json-Quiet _ refl)
        λ j. or_refused-Quiet _

  pub list_categories-Quiet : Quiet (list_categories env)
  unfolding list_categories
  list_categories-Quiet =
      bind-Quiet (request_json env (read_of _ _)) _ (request_json-Quiet _ refl)
        λ j. parse_array-Quiet _ j

  pub get_category-Quiet : (category_id : ℕ) → Quiet (get_category env category_id)
  unfolding get_category
  get_category-Quiet category_id =
      bind-Quiet (request_json env (read_of _ _)) _ (request_json-Quiet _ refl)
        λ j. or_refused-Quiet _

  pub list_inventory-Quiet :
      (search stock_status : Option Text) (low_stock_only : Bool)
      → Quiet (list_inventory env search stock_status low_stock_only)
  unfolding list_inventory
  list_inventory-Quiet search stock_status low_stock_only =
      bind-Quiet (request_json env (read_of _ _)) _ (request_json-Quiet _ refl)
        λ j. parse_array-Quiet _ j

  pub list_inventory_movements-Quiet :
      (product_id : Option ℕ) (movement_type : Option MovementType) (page per_page : ℕ)
      → Quiet (list_inventory_movements env product_id movement_type page per_page)
  unfolding list_inventory_movements
  list_inventory_movements-Quiet product_id movement_type page per_page =
      bind-Quiet (request_json env (read_of _ _)) _ (request_json-Quiet _ refl)
        λ j. or_refused-Quiet _

-- The write is sent once or not at all, and nothing else changes.
pub record IsSingle {env : Env} (req : Request) (w w' : World env) : Type 0 where
  pub sent : (w'.sent ≡ w.sent) ⊎ (w'.sent ≡ req ∷ w.sent)
  pub redis : w'.redis ≡ w.redis
  pub messages : w'.messages ≡ w.messages
  pub faults : w'.faults ≡ w.faults

module _ (env : Env) where
  pub client_stock_out-IsSingle :
      (product_id : ℕ) (quantity : ℤ) (notes : Option Text) (w : World env)
      → IsSingle
          (stock_out_request product_id quantity notes)
          w
          (client_stock_out env product_id quantity notes w).1
  unfolding client_stock_out
  client_stock_out-IsSingle product_id quantity notes w = ground arith

  finish-eq-ok :
      (reply : HttpReply) (j : Json)
      → finish reply ≡ ok j
      → (status : ℕ) × (reply ≡ response status (some j)) × (is_success status ≡ true)
  unfolding finish
  finish-eq-ok timeout_exception j e = cc
  finish-eq-ok transport_error j e = cc
  finish-eq-ok other_exception j e = cc
  finish-eq-ok (unreadable status) j e = cc
  finish-eq-ok (response status none) j e = ground arith
  finish-eq-ok (response status (some k)) j e = (status, ground arith, ground arith)

  reply_of_ok :
      (product_id : ℕ) (quantity : ℤ) (notes : Option Text) (w : World env) (r : StockOutResult)
      → (client_stock_out env product_id quantity notes w).0 ≡ ok r
      → (j : Json) × (finish (env.http w.sent (stock_out_request product_id quantity notes)) ≡ ok j)
        × (env.stock_out_model.validate j ≡ some r)
  unfolding client_stock_out
  reply_of_ok product_id quantity notes w r e =
      elim (Result-cases (finish (env.http w.sent (stock_out_request product_id quantity notes)))) [
        | inl (j, finished) ↦ elim (Option-cases (env.stock_out_model.validate j)) [
          | inl refused ↦ absurd (ground arith)
          | inr (s, valid) ↦ (j, finished, ground arith)
        ]
        | inr (f, failed) ↦ absurd (ground arith)
      ]

  -- A success is reported only for a write that was sent, that the service answered with a success
  -- status, and whose answer is about the product that was asked for.
  pub client_stock_out-eq-ok :
      (product_id : ℕ) (quantity : ℤ) (notes : Option Text) (w : World env) (r : StockOutResult)
      → (client_stock_out env product_id quantity notes w).0 ≡ ok r
      → (leb_ℤ quantity (pos 0) ≡ false)
        × ((client_stock_out env product_id quantity notes w).1.sent
            ≡ stock_out_request product_id quantity notes ∷ w.sent)
        × (r.product_id ≡ product_id)
        × ((status : ℕ) × (j : Json) × (env.http w.sent
                (stock_out_request product_id quantity notes)
              ≡ response status (some j))
            × (is_success status ≡ true)
            × (env.stock_out_model.validate j ≡ some r))
  unfolding client_stock_out
  client_stock_out-eq-ok product_id quantity notes w r e =
      let (j, finished, valid) = reply_of_ok product_id quantity notes w r e in
      let (status, replied, succeeded) = finish-eq-ok _ j finished in
      (ground arith, ground arith, ground arith, (status, j, replied, succeeded, valid))
