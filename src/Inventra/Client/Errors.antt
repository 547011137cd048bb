-- ===== src/Inventra/Client/Errors.antt =====
-- The client raises its own errors, and what a reply raises that it does not catch.
use ecommerce_sales_agent.Prelude.{
  ℕ, ◌≡◌, refl, ◌⊎◌, inl, inr, Bool, true, false, Option, none, some, List, [], ◌∷◌, Bool-cases,
  arith, is_nil,
}
use ecommerce_sales_agent.Text.{Text}
use ecommerce_sales_agent.Json.{Json, Items, nil, cons, arr}
use ecommerce_sales_agent.Exec.{Result, ok, err, pure, raise, continue, ◌>>=◌}
use ecommerce_sales_agent.Retry.{
  HttpReply, timeout_exception, transport_error, other_exception, response, unreadable,
}
use ecommerce_sales_agent.Retry.Laws.{reply_at, state_after, request_loop-IsServed}
use ecommerce_sales_agent.Inventra.Errors.{
  InventraError, auth_error, response_error, Exc, inventra, other_error,
}
use ecommerce_sales_agent.Inventra.Schemas.{StockStatus, MovementType}
use ecommerce_sales_agent.Inventra.Env.{Env, World, Action, Request}
use ecommerce_sales_agent.Inventra.Client.{
  http_request, headers, request_json, finish, retryable_status_codes, or_refused, parse, parse_all,
  parse_array, read_of, list_products, get_product, list_categories, list_inventory,
  list_inventory_movements,
}

abbrev pub is_inventra : Exc → Bool
is_inventra (inventra f) = true
is_inventra _ = false

-- A reply whose exception the client does not catch.
abbrev pub IsEscaped : HttpReply → Type 0
IsEscaped reply = (reply ≡ other_exception) ⊎ ((status : ℕ) × (reply ≡ unreadable status))

pub finish-eq-err :
    (reply : HttpReply) (e : Exc)
    → finish reply ≡ err e
    → (is_inventra e ≡ true) ⊎ ((e ≡ other_error) × IsEscaped reply)
unfolding finish
finish-eq-err timeout_exception e h = inl (ground arith)
finish-eq-err transport_error e h = inl (ground arith)
finish-eq-err other_exception e h = inr (cc h, inl refl)
finish-eq-err (unreadable status) e h = inr (cc h, inr (status, refl))
finish-eq-err (response status none) e h = inl (ground arith)
finish-eq-err (response status (some j)) e h = inl (ground arith)

module _ (env : Env) where
  -- An error of the client, or the exception of a reply of the service that it does not catch.
  abbrev pub IsFault : Exc → Type 0
  IsFault e =
      (is_inventra e ≡ true)
      ⊎ ((e ≡ other_error)
          × ((sent : List Request) × (req : Request) × IsEscaped (env.http sent req)))

  -- Whatever the action raises is such a fault.
  pub record Raises {A : Type 0} (m : Action env A) : Type 0 where
    pub at : (w : World env) (e : Exc) → (m w).0 ≡ err e → IsFault e

  Raises-pure : {A : Type 0} (a : A) → Raises (pure a)
  Raises-pure a = record { at = λ w e h. absurd (cc h) }

  Raises-inventra : {A : Type 0} (f : InventraError) → Raises {A = A} (raise (inventra f))
  Raises-inventra f = record {
    at = λ w e h. let same : inventra f ≡ e = cc h in rw (← same) (inl refl);
  }

  Raises-bind :
      {A B : Type 0} (m : Action env A) (f : A → Action env B)
      → Raises m
      → ((a : A) → Raises (f a))
      → Raises (m >>= f)
  Raises-bind {A = A} {B = B} m f hm hf = record {
    at = λ w e h. of_result (m w).0 (m w).1 e (hm.at w) h;
  }
    where
      of_result :
          (r : Result Exc A) (w : World env) (e : Exc)
          → ((x : Exc) → r ≡ err x → IsFault x)
          → (continue r f w).0 ≡ err e
          → IsFault e
      of_result (ok a) w e known h = (hf a).at w e h
      of_result (err x) w e known h = known e (cc h)

  headers-Raises : Raises (headers env)
  headers-Raises = elim (Bool-cases (is_nil env.bearer_token)) [
    | inl empty ↦ rw empty (Raises-inventra auth_error)
    | inr given ↦ rw given (Raises-pure tt)
  ]

  answered-IsFault :
      (req : Request) (w : World env) (e : Exc)
      → (is_inventra e ≡ true) ⊎ ((e ≡ other_error) × IsEscaped (env.http w.sent req))
      → IsFault e
  answered-IsFault req w e (inl known) = inl known
  answered-IsFault req w e (inr (same, escaped)) = inr (same, (w.sent, req, escaped))

  request_json-Raises : (req : Request) → Raises (request_json env req)
  unfolding request_json
  request_json-Raises req = Raises-bind (headers env) _ headers-Raises λ _. record {
    at = λ w e h.
        let served =
          request_loop-IsServed (http_request env req) retryable_status_codes finish env.max_retries
            w in
        answered-IsFault req (state_after (http_request env req) served.calls w) e (
          finish-eq-err (reply_at (http_request env req) served.calls w) e (rw served.result at h));
  }

  or_refused-Raises : {A : Type 0} (o : Option A) → Raises (or_refused env o)
  or_refused-Raises none = Raises-inventra response_error
  or_refused-Raises (some a) = Raises-pure a

  parse_all-Raises :
      {A : Type 0} (validate : Json → Option A) (js : Items) → Raises (parse_all env validate js)
  unfolding parse_all
  parse_all-Raises validate nil = Raises-pure []
  parse_all-Raises validate (cons j js) =
      Raises-bind (parse env validate j) _ (or_refused-Raises (validate j)) λ a.
        Raises-bind (parse_all env validate js) _ (parse_all-Raises validate js)
          λ as'. Raises-pure (a ∷ as')

  parse_array-Raises :
      {A : Type 0} (validate : Json → Option A) (j : Json) → Raises (parse_array env validate j)
  parse_array-Raises validate (arr js) = parse_all-Raises validate js
  parse_array-Raises validate _ = Raises-inventra response_error

  pub list_products-Raises :
      (page per_page : ℕ) (search : Option Text) (category_id : Option ℕ) (is_active : Option Bool)
      (stock_status : Option StockStatus)
      → Raises (list_products env page per_page search category_id is_active stock_status)
  unfolding list_products
  list_products-Raises page per_page search category_id is_active stock_status =
      Raises-bind (request_json env (read_of _ _)) _ (request_json-Raises _)
        λ j. or_refused-Raises _

  pub get_product-Raises : (product_id : ℕ) → Raises (get_product env product_id)
  unfolding get_product
  get_product-Raises product_id =
      Raises-bind (request_json env (read_of _ _)) _ (request_json-Raises _)
        λ j. or_refused-Raises _

  pub list_categories-Raises : Raises (list_categories env)
  unfolding list_categories
  list_categories-Raises =
      Raises-bind (request_json env (read_of _ _)) _ (request_json-Raises _)
        λ j. parse_array-Raises _ j

  pub list_inventory-Raises :
      (search stock_status : Option Text) (low_stock_only : Bool)
      → Raises (list_inventory env search stock_status low_stock_only)
  unfolding list_inventory
  list_inventory-Raises search stock_status low_stock_only =
      Raises-bind (request_json env (read_of _ _)) _ (request_json-Raises _)
        λ j. parse_array-Raises _ j

  pub list_inventory_movements-Raises :
      (product_id : Option ℕ) (movement_type : Option MovementType) (page per_page : ℕ)
      → Raises (list_inventory_movements env product_id movement_type page per_page)
  unfolding list_inventory_movements
  list_inventory_movements-Raises product_id movement_type page per_page =
      Raises-bind (request_json env (read_of _ _)) _ (request_json-Raises _)
        λ j. or_refused-Raises _
