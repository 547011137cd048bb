-- ===== src/Agents/Gather/Search/Laws.antt =====
-- What the bounded search sends: reads only.
use ecommerce_sales_agent.Prelude.{ℕ, Bool, Option, none, some, List, [], ◌∷◌, ◌==◌, ltb}
use ecommerce_sales_agent.Text.{Text, text_eq}
use ecommerce_sales_agent.Inventra.Errors.{Exc, ToolError, tool}
use ecommerce_sales_agent.Inventra.Schemas.{Product, ProductListResponse}
use ecommerce_sales_agent.Inventra.Env.{Env, Action}
use ecommerce_sales_agent.Inventra.Client.Laws.{
  Quiet, bind-Quiet, handle-Quiet, pure-Quiet, raise-Quiet, if-Quiet,
}
use ecommerce_sales_agent.Tools.Laws.{
  product_search_params-Quiet, search_products-Quiet, list_categories_tool-Quiet,
}
use ecommerce_sales_agent.Agents.Gather.Terms.{is_category}
use ecommerce_sales_agent.Agents.Gather.Search.{
  catching, category_id_for_name, search_for, climb, search_category, search_alias, settle,
  try_aliases, fall_back, search_ladder, search_products_bounded, preferred,
  resolve_product_by_name,
}

module _ (env : Env) where
  pub catching-Quiet :
      {A : Type 0} (h : ToolError → Action env A)
      → ((e : ToolError) → Quiet env (h e))
      → (e : Exc) → Quiet env (catching env h e)
  catching-Quiet h hh (tool e) = hh e
  catching-Quiet h hh _ = raise-Quiet env _

  category_id_for_name-Quiet :
      (cached : Bool) (name : Text) → Quiet env (category_id_for_name env cached name)
  unfolding category_id_for_name
  category_id_for_name-Quiet cached name =
      handle-Quiet env _ _
        (bind-Quiet env _ _ (list_categories_tool-Quiet env cached) (λ cs. pure-Quiet env _))
        (catching-Quiet _ (λ e. pure-Quiet env none))

  search_for-Quiet :
      (cached : Bool) (search : Option Text) (category_id : Option ℕ)
      → Quiet env (search_for env cached search category_id)
  unfolding search_for
  search_for-Quiet cached search category_id =
      bind-Quiet env _ _ (product_search_params-Quiet env _ _ _)
        λ p. search_products-Quiet env cached p

  climb-Quiet :
      (cached : Bool) (first : Text) (ladder : List Text) (result : ProductListResponse)
      → Quiet env (climb env cached first ladder result)
  unfolding climb
  climb-Quiet cached first [] result = pure-Quiet env result
  climb-Quiet cached first (fallback ∷ ladder) result =
      if-Quiet env (text_eq fallback first) _ _ (climb-Quiet cached first ladder result) (
        bind-Quiet env _ _ (search_for-Quiet cached _ _) λ found.
          if-Quiet env (ltb 0 found.total) _ _ (pure-Quiet env found)
            (climb-Quiet cached first ladder found))

  search_category-Quiet :
      (cached : Bool) (id : Option ℕ) → Quiet env (search_category env cached id)
  search_category-Quiet cached none = pure-Quiet env none
  search_category-Quiet cached (some id) =
      bind-Quiet env _ _ (search_for-Quiet cached _ _) λ found. pure-Quiet env (some found)

  search_alias-Quiet : (cached : Bool) (alias : Text) → Quiet env (search_alias env cached alias)
  unfolding search_alias
  search_alias-Quiet cached alias =
      if-Quiet env (is_category alias) _ _
        (bind-Quiet env _ _ (category_id_for_name-Quiet cached _) (search_category-Quiet cached))
        (bind-Quiet env _ _ (search_for-Quiet cached _ _) λ found. pure-Quiet env (some found))

  settle-Quiet :
      (rest : ProductListResponse → Action env ProductListResponse)
      → ((r : ProductListResponse) → Quiet env (rest r))
      → (result : ProductListResponse) (o : Option ProductListResponse)
      → Quiet env (settle env rest result o)
  settle-Quiet rest h result none = h result
  settle-Quiet rest h result (some found) =
      if-Quiet env (ltb 0 found.total) _ _ (pure-Quiet env found) (h found)

  try_aliases-Quiet :
      (cached : Bool) (tried : Text → Bool) (aliases : List Text) (result : ProductListResponse)
      → Quiet env (try_aliases env cached tried aliases result)
  unfolding try_aliases
  try_aliases-Quiet cached tried [] result = pure-Quiet env result
  try_aliases-Quiet cached tried (alias ∷ aliases) result =
      if-Quiet env (tried alias) _ _ (try_aliases-Quiet cached tried aliases result) (
        bind-Quiet env _ _ (search_alias-Quiet cached alias)
          λ o. settle-Quiet _ (try_aliases-Quiet cached tried aliases) result o)

  fall_back-Quiet :
      (cached : Bool) (first : Option Text) (ladder : List Text) (result : ProductListResponse)
      → Quiet env (fall_back env cached first ladder result)
  fall_back-Quiet cached none ladder result = pure-Quiet env result
  fall_back-Quiet cached (some first) ladder result =
      if-Quiet env (result.total == 0) _ _ (climb-Quiet cached first ladder result)
        (pure-Quiet env result)

  search_ladder-Quiet :
      (cached : Bool) (first : Option Text) (ladder aliases : List Text)
      → Quiet env (search_ladder env cached first ladder aliases)
  search_ladder-Quiet cached first ladder aliases =
      bind-Quiet env _ _ (search_for-Quiet cached first none) λ result.
        bind-Quiet env _ _ (fall_back-Quiet cached first ladder result) λ climbed.
          if-Quiet env (climbed.total == 0) _ _ (try_aliases-Quiet cached _ aliases climbed)
            (pure-Quiet env climbed)

  pub search_products_bounded-Quiet :
      (cached : Bool) (message : Text) → Quiet env (search_products_bounded env cached message)
  unfolding search_products_bounded
  search_products_bounded-Quiet cached message = search_ladder-Quiet cached _ _ _

  preferred-Quiet : (o : Option Product) (ps : List Product) → Quiet env (preferred env o ps)
  preferred-Quiet none [] = raise-Quiet env _
  preferred-Quiet none (p ∷ ps) = pure-Quiet env _
  preferred-Quiet (some p) ps = pure-Quiet env _

  pub resolve_product_by_name-Quiet :
      (cached : Bool) (message : Text) → Quiet env (resolve_product_by_name env cached message)
  unfolding resolve_product_by_name
  resolve_product_by_name-Quiet cached message =
      bind-Quiet env _ _ (search_products_bounded-Quiet cached message)
        λ r. if-Quiet env (r.total == 0) _ _ (pure-Quiet env none) (preferred-Quiet _ r.products)
