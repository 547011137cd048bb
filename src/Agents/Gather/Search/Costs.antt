-- ===== src/Agents/Gather/Search/Costs.antt =====
-- How many requests the bounded search sends at most.
use ecommerce_sales_agent.Prelude.{
  ℕ, zero, suc, ◌+◌, ◌≤◌, Bool, Option, none, some, List, [], ◌∷◌, ◌==◌, ltb, arith, length,
}
use ecommerce_sales_agent.Text.{Text, text_eq}
use ecommerce_sales_agent.Inventra.Errors.{Exc, ToolError, tool}
use ecommerce_sales_agent.Inventra.Schemas.{Product, ProductListResponse}
use ecommerce_sales_agent.Inventra.Env.{Env, Action}
use ecommerce_sales_agent.Inventra.Client.Costs.{
  Costs, Costs-pure, Costs-raise, Costs-le, Costs-if, Costs-bind, Costs-then, Costs-after,
  Costs-handle, read_cost,
}
use ecommerce_sales_agent.Tools.Costs.{
  product_search_params-Costs, search_products-Costs, list_categories_tool-Costs,
}
use ecommerce_sales_agent.Agents.Gather.Terms.{
  is_category, zero_result_fallback_terms, alias_terms_for, extract_search_term, canonicalize_term,
}
use ecommerce_sales_agent.Agents.Gather.Terms.Laws.{
  length-zero_result_fallback_terms, length-alias_terms_for,
}
use ecommerce_sales_agent.Agents.Gather.Search.{
  catching, category_id_for_name, search_for, climb, search_category, search_alias, settle,
  try_aliases, fall_back, search_ladder, search_products_bounded, preferred,
  resolve_product_by_name,
}

-- `k` times a cost
abbrev pub times : ℕ → ℕ → ℕ
times zero n = 0
times (suc k) n = n + times k n

pub times-le : (k m n : ℕ) → k ≤ m → times k n ≤ times m n
times-le zero m n h = omega arith
times-le (suc k) zero n h = absurd (omega (arith, h))
times-le (suc k) (suc m) n h = omega (arith, times-le k m n (omega (arith, h)))

module _ (env : Env) where
  pub catching-Costs :
      {A : Type 0} (n : ℕ) (h : ToolError → Action env A)
      → ((e : ToolError) → Costs n (h e))
      → (e : Exc) → Costs n (catching env h e)
  catching-Costs n h hh (tool e) = hh e
  catching-Costs n h hh _ = Costs-raise env n _

  category_id_for_name-Costs :
      (cached : Bool) (name : Text) → Costs (read_cost env) (category_id_for_name env cached name)
  unfolding category_id_for_name
  category_id_for_name-Costs cached name = Costs-le env _ (omega arith) (
      Costs-handle env _ _
        (Costs-then env _ _ (list_categories_tool-Costs env cached) (λ cs. Costs-pure env 0 _))
        (catching-Costs 0 _ (λ e. Costs-pure env 0 none)))

  search_for-Costs :
      (cached : Bool) (search : Option Text) (category_id : Option ℕ)
      → Costs (read_cost env) (search_for env cached search category_id)
  unfolding search_for
  search_for-Costs cached search category_id =
      Costs-after env _ _ (product_search_params-Costs env _ _ _)
        λ p. search_products-Costs env cached p

  climb-Costs :
      (cached : Bool) (first : Text) (ladder : List Text) (result : ProductListResponse)
      → Costs (times (length ladder) (read_cost env)) (climb env cached first ladder result)
  unfolding climb
  climb-Costs cached first [] result = Costs-pure env 0 result
  climb-Costs cached first (fallback ∷ ladder) result =
      Costs-if env (text_eq fallback first) _ _
        (Costs-le env _ (omega arith) (climb-Costs cached first ladder result))
        (Costs-bind env _ _ (search_for-Costs cached _ _) λ found.
          Costs-if env (ltb 0 found.total) _ _ (Costs-pure env _ found)
            (climb-Costs cached first ladder found))

  search_category-Costs :
      (cached : Bool) (id : Option ℕ) → Costs (read_cost env) (search_category env cached id)
  search_category-Costs cached none = Costs-pure env _ none
  search_category-Costs cached (some id) =
      Costs-then env _ _ (search_for-Costs cached _ _) λ found. Costs-pure env 0 (some found)

  abbrev alias_cost : ℕ
  alias_cost = read_cost env + read_cost env

  search_alias-Costs :
      (cached : Bool) (alias : Text) → Costs alias_cost (search_alias env cached alias)
  unfolding search_alias
  search_alias-Costs cached alias =
      Costs-if env (is_category alias) _ _
        (Costs-bind env _ _ (category_id_for_name-Costs cached _) (search_category-Costs cached))
        (Costs-le env _ (omega arith)
          (Costs-then env _ _ (search_for-Costs cached _ _) λ found. Costs-pure env 0 (some found)))

  settle-Costs :
      (n : ℕ) (rest : ProductListResponse → Action env ProductListResponse)
      → ((r : ProductListResponse) → Costs n (rest r))
      → (result : ProductListResponse) (o : Option ProductListResponse)
      → Costs n (settle env rest result o)
  settle-Costs n rest h result none = h result
  settle-Costs n rest h result (some found) =
      Costs-if env (ltb 0 found.total) _ _ (Costs-pure env n found) (h found)

  try_aliases-Costs :
      (cached : Bool) (tried : Text → Bool) (aliases : List Text) (result : ProductListResponse)
      → Costs (times (length aliases) alias_cost) (try_aliases env cached tried aliases result)
  unfolding try_aliases
  try_aliases-Costs cached tried [] result = Costs-pure env 0 result
  try_aliases-Costs cached tried (alias ∷ aliases) result =
      Costs-if env (tried alias) _ _
        (Costs-le env _ (omega arith) (try_aliases-Costs cached tried aliases result))
        (Costs-bind env _ _ (search_alias-Costs cached alias)
          λ o. settle-Costs _ _ (try_aliases-Costs cached tried aliases) result o)

  fall_back-Costs :
      (cached : Bool) (first : Option Text) (ladder : List Text) (result : ProductListResponse)
      → Costs (times (length ladder) (read_cost env)) (fall_back env cached first ladder result)
  fall_back-Costs cached none ladder result = Costs-pure env _ result
  fall_back-Costs cached (some first) ladder result =
      Costs-if env (result.total == 0) _ _ (climb-Costs cached first ladder result)
        (Costs-pure env _ result)

  search_ladder-Costs :
      (cached : Bool) (first : Option Text) (ladder aliases : List Text)
      → Costs
          (read_cost env
            + (times (length ladder) (read_cost env) + times (length aliases) alias_cost))
          (search_ladder env cached first ladder aliases)
  search_ladder-Costs cached first ladder aliases =
      Costs-bind env _ _ (search_for-Costs cached first none) λ result.
        Costs-bind env _ _ (fall_back-Costs cached first ladder result) λ climbed.
          Costs-if env (climbed.total == 0) _ _ (try_aliases-Costs cached _ aliases climbed)
            (Costs-pure env _ climbed)

  -- A product search with all its fallbacks sends at most the requests of eight reads.
  pub search_products_bounded-Costs :
      (cached : Bool) (message : Text)
      → Costs (times 8 (read_cost env)) (search_products_bounded env cached message)
  unfolding search_products_bounded
  search_products_bounded-Costs cached message =
      let term = canonicalize_term (extract_search_term message) in
      let ladder = zero_result_fallback_terms message term in
      let aliases = alias_terms_for term in
      Costs-le env _
        (omega (
          arith,
          times-le (length ladder) 3 (read_cost env)
              (length-zero_result_fallback_terms message term),
          times-le (length aliases) 2 alias_cost (length-alias_terms_for term),
        ))
        (search_ladder-Costs cached _ ladder aliases)

  preferred-Costs : (o : Option Product) (ps : List Product) → Costs 0 (preferred env o ps)
  preferred-Costs none [] = Costs-raise env 0 _
  preferred-Costs none (p ∷ ps) = Costs-pure env 0 _
  preferred-Costs (some p) ps = Costs-pure env 0 _

  pub resolve_product_by_name-Costs :
      (cached : Bool) (message : Text)
      → Costs (times 8 (read_cost env)) (resolve_product_by_name env cached message)
  unfolding resolve_product_by_name
  resolve_product_by_name-Costs cached message =
      Costs-then env _ _ (search_products_bounded-Costs cached message)
        λ r. Costs-if env (r.total == 0) _ _ (Costs-pure env 0 none) (preferred-Costs _ r.products)
