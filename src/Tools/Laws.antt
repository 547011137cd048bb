-- ===== src/Tools/Laws.antt =====
-- What the tools send, and the errors that leave them.
use ecommerce_sales_agent.Prelude.{ℕ, ◌≡◌, refl, ◌⊎◌, Bool, true, false, Option, some, ◌∷◌}
use ecommerce_sales_agent.Text.{Text}
use ecommerce_sales_agent.Exec.{Result, ok, err, raise, continue, recover}
use ecommerce_sales_agent.Inventra.Errors.{Exc, InventraError, inventra, translated}
use ecommerce_sales_agent.Inventra.Schemas.{StockOutResult}
use ecommerce_sales_agent.Inventra.Env.{Env, World, Action, Request}
use ecommerce_sales_agent.Inventra.Client.{client_stock_out, stock_out_request}
use ecommerce_sales_agent.Inventra.Client.Laws.{
  Quiet, pure-Quiet, raise-Quiet, bind-Quiet, handle-Quiet, if-Quiet, list_products-Quiet,
  get_product-Quiet, list_categories-Quiet, list_inventory-Quiet, list_inventory_movements-Quiet,
  client_stock_out-IsSingle,
}
use ecommerce_sales_agent.Cache.{invalidate_product_stock}
use ecommerce_sales_agent.Cache.Laws.{read_through-Quiet}
use ecommerce_sales_agent.Tools.{
  ProductSearchParams, InventorySearchParams, InventoryMovementParams, StockOutParams, checked,
  product_search_params, inventory_search_params, inventory_movement_params, translating,
  search_products, get_product_details, list_categories_tool, check_inventory,
  get_inventory_movements, stock_out_product, empty_page, or_nil, invalidate_if, within, positive,
}

module _ (env : Env) where
  translating-Quiet : {A : Type 0} (m : Action env A) → Quiet env m → Quiet env (translating env m)
  translating-Quiet m q = handle-Quiet env m _ q (λ e. raise-Quiet env (translated e))

  checked-Quiet : {A : Type 0} (valid : Bool) (a : A) → Quiet env (checked env valid a)
  checked-Quiet valid a = if-Quiet env valid _ _ (pure-Quiet env a) (raise-Quiet env _)

  pub product_search_params-Quiet :
      (search : Option Text) (category_id : Option ℕ) (per_page : ℕ)
      → Quiet env (product_search_params env search category_id per_page)
  unfolding product_search_params
  product_search_params-Quiet search category_id per_page =
      if-Quiet env (within 200 search) _ _
        (if-Quiet env (positive category_id) _ _ (checked-Quiet _ _) (raise-Quiet env _))
        (raise-Quiet env _)

  pub inventory_search_params-Quiet :
      (search : Option Text) → Quiet env (inventory_search_params env search)
  unfolding inventory_search_params
  inventory_search_params-Quiet search = checked-Quiet _ _

  pub inventory_movement_params-Quiet :
      (product_id : Option ℕ) → Quiet env (inventory_movement_params env product_id)
  unfolding inventory_movement_params
  inventory_movement_params-Quiet product_id = checked-Quiet _ _

  pub search_products-Quiet :
      (cached : Bool) (p : ProductSearchParams) → Quiet env (search_products env cached p)
  unfolding search_products
  search_products-Quiet true p = translating-Quiet _ (
      bind-Quiet env _ _ (read_through-Quiet env _ _ _ _ _ (list_products-Quiet env _ _ _ _ _ _))
        (λ r. pure-Quiet env (empty_page env p r)))
  search_products-Quiet false p = translating-Quiet _ (list_products-Quiet env _ _ _ _ _ _)

  pub get_product_details-Quiet :
      (cached : Bool) (product_id : ℕ) → Quiet env (get_product_details env cached product_id)
  unfolding get_product_details
  get_product_details-Quiet true product_id =
      translating-Quiet _ (read_through-Quiet env _ _ _ _ _ (get_product-Quiet env product_id))
  get_product_details-Quiet false product_id =
      translating-Quiet _
        (bind-Quiet env _ _ (get_product-Quiet env product_id) (λ p. pure-Quiet env (some p)))

  pub list_categories_tool-Quiet : (cached : Bool) → Quiet env (list_categories_tool env cached)
  unfolding list_categories_tool
  list_categories_tool-Quiet true = translating-Quiet _ (
      bind-Quiet env _ _ (read_through-Quiet env _ _ _ _ _ (list_categories-Quiet env))
        (λ r. pure-Quiet env (or_nil env r)))
  list_categories_tool-Quiet false = translating-Quiet _ (list_categories-Quiet env)

  pub check_inventory-Quiet :
      (cached : Bool) (p : InventorySearchParams) → Quiet env (check_inventory env cached p)
  unfolding check_inventory
  check_inventory-Quiet true p = translating-Quiet _ (
      bind-Quiet env _ _ (read_through-Quiet env _ _ _ _ _ (list_inventory-Quiet env _ _ _))
        (λ r. pure-Quiet env (or_nil env r)))
  check_inventory-Quiet false p = translating-Quiet _ (list_inventory-Quiet env _ _ _)

  pub get_inventory_movements-Quiet :
      (p : InventoryMovementParams) → Quiet env (get_inventory_movements env p)
  unfolding get_inventory_movements
  get_inventory_movements-Quiet p = translating-Quiet _ (list_inventory_movements-Quiet env _ _ _ _)

  -- At most this one write is sent, and the database is as it was.
  pub record IsOnce (req : Request) (w w' : World env) : Type 0 where
    pub sent : (w'.sent ≡ w.sent) ⊎ (w'.sent ≡ req ∷ w.sent)
    pub messages : w'.messages ≡ w.messages
    pub faults : w'.faults ≡ w.faults

  invalidate-after :
      (cached : Bool) (product_id : ℕ) (req : Request) (w : World env)
      (r : Result Exc StockOutResult) (w' : World env)
      → IsOnce req w w'
      → IsOnce req w (continue r (invalidate_if env cached product_id) w').1
  unfolding invalidate_product_stock
  invalidate-after true product_id req w (ok r) w' h = record {
    sent = h.sent;
    messages = h.messages;
    faults = h.faults;
  }
  invalidate-after false product_id req w (ok r) w' h = h
  invalidate-after cached product_id req w (err e) w' h = h

  recovered :
      {A : Type 0} (r : Result Exc A) (w : World env)
      → (recover r (λ e. raise (translated e)) w).1 ≡ w
  recovered (ok a) w = refl
  recovered (err e) w = refl

  -- The purchase tool sends the write of its parameters once or not at all, and leaves the messages
  -- and the database sessions to come as they were.
  pub stock_out_product-IsOnce :
      (cached : Bool) (p : StockOutParams) (w : World env)
      → IsOnce
          (stock_out_request p.product_id p.quantity p.notes)
          w
          (stock_out_product env cached p w).1
  unfolding stock_out_product
  stock_out_product-IsOnce cached p w =
      let (r, w') = client_stock_out env p.product_id p.quantity p.notes w in
      let once = client_stock_out-IsSingle env p.product_id p.quantity p.notes w in
      invalidate-after cached p.product_id _ w
        (translating env (client_stock_out env p.product_id p.quantity p.notes) w).0
        (translating env (client_stock_out env p.product_id p.quantity p.notes) w).1
        (rw (recovered r w')
          (record { sent = once.sent; messages = once.messages; faults = once.faults }))

  translated-ne-inventra : (e : Exc) (f : InventraError) → translated e ≡ inventra f → ⊥
  translated-ne-inventra (inventra e) f h = cc
  translated-ne-inventra _ f h = cc
