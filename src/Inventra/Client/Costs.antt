-- ===== src/Inventra/Client/Costs.antt =====
-- How many requests a call of the client sends at most.
use ecommerce_sales_agent.Prelude.{
  ℕ, suc, ◌+◌, ◌≤◌, Bool, true, false, Option, none, some, [], ◌∷◌, arith, length, if◌then◌else◌,
  is_nil,
}
use ecommerce_sales_agent.Text.{Text}
use ecommerce_sales_agent.Json.{Json, Items, nil, cons, arr}
use ecommerce_sales_agent.Exec.{Result, ok, err, pure, raise, continue, recover, ◌>>=◌, handle}
use ecommerce_sales_agent.Retry.Laws.{request_loop-size}
use ecommerce_sales_agent.Inventra.Errors.{Exc}
use ecommerce_sales_agent.Inventra.Schemas.{StockStatus, MovementType}
use ecommerce_sales_agent.Inventra.Env.{Env, World, Action, Request}
use ecommerce_sales_agent.Inventra.Client.{
  http_request, headers, request_json, finish, or_refused, parse, parse_all, parse_array,
  list_products, get_product, list_categories, list_inventory, list_inventory_movements,
  retryable_status_codes, read_of,
}

-- `m` sends at most `n` requests, whether it returns or raises.
pub record Costs {env : Env} {A : Type 0} (n : ℕ) (m : Action env A) : Type 0 where
  pub at : (w : World env) → length (m w).1.sent ≤ length w.sent + n

module _ (env : Env) where
  pub Costs-pure : {A : Type 0} (n : ℕ) (a : A) → Costs {env = env} n (pure a)
  Costs-pure n a = record { at = λ w. omega arith }

  pub Costs-raise : {A : Type 0} (n : ℕ) (e : Exc) → Costs {env = env} {A = A} n (raise e)
  Costs-raise n e = record { at = λ w. omega arith }

  pub Costs-le : {A : Type 0} {n k : ℕ} (m : Action env A) → n ≤ k → Costs n m → Costs k m
  Costs-le m h c = record { at = λ w. omega (arith, h, c.at w) }

  pub Costs-if :
      {A : Type 0} {n : ℕ} (b : Bool) (m m' : Action env A)
      → Costs n m
      → Costs n m'
      → Costs n (if b then m else m')
  Costs-if true m m' c d = c
  Costs-if false m m' c d = d

  continue-length :
      {A B : Type 0} (n k : ℕ) (f : A → Action env B) (w : World env) (r : Result Exc A)
      (w' : World env)
      → ((a : A) → Costs k (f a))
      → length w'.sent ≤ length w.sent + n
      → length (continue r f w').1.sent ≤ length w.sent + (n + k)
  continue-length n k f w (ok a) w' c h = omega (arith, (c a).at w', h)
  continue-length n k f w (err e) w' c h = omega (arith, h)

  pub Costs-bind :
      {A B : Type 0} {n k : ℕ} (m : Action env A) (f : A → Action env B)
      → Costs n m
      → ((a : A) → Costs k (f a))
      → Costs (n + k) (m >>= f)
  Costs-bind m f c d = record { at = λ w. continue-length _ _ f w (m w).0 (m w).1 d (c.at w) }

  recover-length :
      {A : Type 0} (n k : ℕ) (h : Exc → Action env A) (w : World env) (r : Result Exc A)
      (w' : World env)
      → ((e : Exc) → Costs k (h e))
      → length w'.sent ≤ length w.sent + n
      → length (recover r h w').1.sent ≤ length w.sent + (n + k)
  recover-length n k h w (ok a) w' c l = omega (arith, l)
  recover-length n k h w (err e) w' c l = omega (arith, (c e).at w', l)

  pub Costs-handle :
      {A : Type 0} {n k : ℕ} (m : Action env A) (h : Exc → Action env A)
      → Costs n m
      → ((e : Exc) → Costs k (h e))
      → Costs (n + k) (handle m h)
  Costs-handle m h c d = record { at = λ w. recover-length _ _ h w (m w).0 (m w).1 d (c.at w) }

  -- The last step sends nothing.
  pub Costs-then :
      {A B : Type 0} {n : ℕ} (m : Action env A) (f : A → Action env B)
      → Costs n m
      → ((a : A) → Costs 0 (f a))
      → Costs n (m >>= f)
  Costs-then m f c d = Costs-le _ (omega arith) (Costs-bind m f c d)

  -- The first step sends nothing.
  pub Costs-after :
      {A B : Type 0} {n : ℕ} (m : Action env A) (f : A → Action env B)
      → Costs 0 m
      → ((a : A) → Costs n (f a))
      → Costs n (m >>= f)
  Costs-after m f c d = Costs-le _ (omega arith) (Costs-bind m f c d)

  -- A read with all its attempts.
  abbrev pub read_cost : ℕ
  read_cost = suc env.max_retries

  request_json-Costs : (req : Request) → Costs read_cost (request_json env req)
  unfolding request_json
  request_json-Costs req =
      Costs-after (headers env) _
        (Costs-if (is_nil env.bearer_token) _ _ (Costs-raise 0 _) (Costs-pure 0 tt))
        λ _. record {
          at = λ w.
              request_loop-size (http_request env req) retryable_status_codes finish
                (λ v. length v.sent) (λ v. omega arith) env.max_retries w;
        }

  or_refused-Costs : {A : Type 0} (o : Option A) → Costs 0 (or_refused env o)
  or_refused-Costs none = Costs-raise 0 _
  or_refused-Costs (some a) = Costs-pure 0 a

  parse_all-Costs :
      {A : Type 0} (validate : Json → Option A) (js : Items) → Costs 0 (parse_all env validate js)
  unfolding parse_all
  parse_all-Costs validate nil = Costs-pure 0 []
  parse_all-Costs validate (cons j js) =
      Costs-then (parse env validate j) _ (or_refused-Costs (validate j)) λ a.
        Costs-then (parse_all env validate js) _ (parse_all-Costs validate js)
          λ as'. Costs-pure 0 (a ∷ as')

  parse_array-Costs :
      {A : Type 0} (validate : Json → Option A) (j : Json) → Costs 0 (parse_array env validate j)
  parse_array-Costs validate (arr js) = parse_all-Costs validate js
  parse_array-Costs validate _ = Costs-raise 0 _

  pub list_products-Costs :
      (page per_page : ℕ) (search : Option Text) (category_id : Option ℕ) (is_active : Option Bool)
      (stock_status : Option StockStatus)
      → Costs read_cost (list_products env page per_page search category_id is_active stock_status)
  unfolding list_products
  list_products-Costs page per_page search category_id is_active stock_status =
      Costs-then (request_json env (read_of _ _)) _ (request_json-Costs _) λ j. or_refused-Costs _

  pub get_product-Costs : (product_id : ℕ) → Costs read_cost (get_product env product_id)
  unfolding get_product
  get_product-Costs product_id =
      Costs-then (request_json env (read_of _ _)) _ (request_json-Costs _) λ j. or_refused-Costs _

  pub list_categories-Costs : Costs read_cost (list_categories env)
  unfolding list_categories
  list_categories-Costs =
      Costs-then (request_json env (read_of _ _)) _ (request_json-Costs _)
        λ j. parse_array-Costs _ j

  pub list_inventory-Costs :
      (search stock_status : Option Text) (low_stock_only : Bool)
      → Costs read_cost (list_inventory env search stock_status low_stock_only)
  unfolding list_inventory
  list_inventory-Costs search stock_status low_stock_only =
      Costs-then (request_json env (read_of _ _)) _ (request_json-Costs _)
        λ j. parse_array-Costs _ j

  pub list_inventory_movements-Costs :
      (product_id : Option ℕ) (movement_type : Option MovementType) (page per_page : ℕ)
      → Costs read_cost (list_inventory_movements env product_id movement_type page per_page)
  unfolding list_inventory_movements
  list_inventory_movements-Costs product_id movement_type page per_page =
      Costs-then (request_json env (read_of _ _)) _ (request_json-Costs _) λ j. or_refused-Costs _
