-- ===== src/Agents/Gather/Search.antt =====
-- gather.py: the bounded product search and the resolution of a product by its name.
pub mod Laws
pub mod Costs
use ecommerce_sales_agent.Prelude.{
  ℕ, Bool, true, false, not, ◌==◌, Option, none, some, List, [], ◌∷◌, if◌then◌else◌, ltb, any, find,
  ◌||◌,
}
use ecommerce_sales_agent.Text.{Text, text_eq, lower, strip}
use ecommerce_sales_agent.Exec.{pure, raise, ◌>>=◌, handle}
use ecommerce_sales_agent.Inventra.Errors.{Exc, ToolError, tool, index_error}
use ecommerce_sales_agent.Inventra.Schemas.{Product, ProductListResponse, Category}
use ecommerce_sales_agent.Inventra.Env.{Env, Action}
use ecommerce_sales_agent.Tools.{product_search_params, search_products, list_categories_tool}
use ecommerce_sales_agent.Agents.Purchase.Stock.{is_named}
use ecommerce_sales_agent.Agents.Gather.Terms.{
  category_prefix, extract_search_term, canonicalize_term, zero_result_fallback_terms,
  alias_terms_for, is_category,
}

unfoldable pub id_named : Text → List Category → Option ℕ
unfolding lower strip
id_named wanted [] = none
id_named wanted (c ∷ cs) =
    if text_eq (lower (strip c.name)) wanted then some c.id else id_named wanted cs

-- `removeprefix`, for a text that begins with the prefix
unfoldable pub after : Text → Text → Text
after [] s = s
after (c ∷ prefix) [] = []
after (c ∷ prefix) (d ∷ s) = after prefix s

abbrev non_empty : Text → Option Text
non_empty [] = none
non_empty (c ∷ s) = some (c ∷ s)

-- `term or raw or None`
abbrev pub first_term : Option Text → Text → Option Text
first_term (some (c ∷ s)) raw = some (c ∷ s)
first_term _ raw = non_empty raw

-- `term or message`
abbrev pub term_or : Option Text → Text → Text
term_or (some (c ∷ s)) message = c ∷ s
term_or _ message = message

abbrev is_first : Text → Option Text → Bool
is_first alias none = false
is_first alias (some first) = text_eq alias first

module _ (env : Env) where
  -- `except ToolError as exc`: any other exception passes.
  abbrev pub catching : {A : Type 0} → (ToolError → Action env A) → Exc → Action env A
  catching h (tool e) = h e
  catching h e = raise e

  unfoldable pub category_id_for_name : Bool → Text → Action env (Option ℕ)
  category_id_for_name cached category_name =
      handle
        (do
          categories ← list_categories_tool env cached
          pure (id_named (lower (strip category_name)) categories))
        (catching (λ e. pure none))

  unfoldable pub search_for : Bool → Option Text → Option ℕ → Action env ProductListResponse
  search_for cached search category_id = do
    params ← product_search_params env search category_id 5
    search_products env cached params

  -- The ladder: a term that was tried first is skipped, and a hit ends the loop.
  unfoldable pub climb :
      Bool → Text → List Text → ProductListResponse → Action env ProductListResponse
  climb cached first [] result = pure result
  climb cached first (fallback ∷ ladder) result =
      if text_eq fallback first then climb cached first ladder result else (do
        found ← search_for cached (some fallback) none
        if ltb 0 found.total then pure found else climb cached first ladder found)

  -- One alias: `none` where the category is not found and the alias is skipped.
  abbrev search_category : Bool → Option ℕ → Action env (Option ProductListResponse)
  search_category cached none = pure none
  search_category cached (some id) = do found ← search_for cached none (some id); pure (some found)

  unfoldable pub search_alias : Bool → Text → Action env (Option ProductListResponse)
  search_alias cached alias =
      if is_category alias
      then (do
        id ← category_id_for_name cached (after category_prefix alias)
        search_category cached id)
      else (do found ← search_for cached (some alias) none; pure (some found))

  -- After one alias: a hit ends the loop, a skipped alias leaves the result.
  abbrev pub settle :
      (ProductListResponse → Action env ProductListResponse)
      → ProductListResponse
      → Option ProductListResponse
      → Action env ProductListResponse
  settle rest result none = rest result
  settle rest result (some found) = if ltb 0 found.total then pure found else rest found

  unfoldable pub try_aliases :
      Bool → (Text → Bool) → List Text → ProductListResponse → Action env ProductListResponse
  try_aliases cached tried [] result = pure result
  try_aliases cached tried (alias ∷ aliases) result =
      let rest = try_aliases cached tried aliases in
      if tried alias
      then rest result
      else (do found ← search_alias cached alias; settle rest result found)

  -- `if result.total == 0 and first is not None`
  abbrev fall_back :
      Bool → Option Text → List Text → ProductListResponse → Action env ProductListResponse
  fall_back cached none ladder result = pure result
  fall_back cached (some first) ladder result =
      if result.total == 0 then climb cached first ladder result else pure result

  abbrev fall_back_on_aliases :
      Bool
      → Option Text
      → List Text
      → List Text
      → ProductListResponse
      → Action env ProductListResponse
  fall_back_on_aliases cached first ladder aliases result =
      if result.total == 0
      then try_aliases cached (λ a. is_first a first || any (text_eq a) ladder) aliases result
      else pure result

  abbrev search_ladder : Bool → Option Text → List Text → List Text → Action env ProductListResponse
  search_ladder cached first ladder aliases = do
    result ← search_for cached first none
    climbed ← fall_back cached first ladder result
    fall_back_on_aliases cached first ladder aliases climbed

  unfoldable pub search_products_bounded : Bool → Text → Action env ProductListResponse
  search_products_bounded cached message =
      let term = canonicalize_term (extract_search_term message) in
      search_ladder cached (first_term term (strip message))
        (zero_result_fallback_terms message term) (alias_terms_for term)

  -- `products[0]`
  abbrev first_product : List Product → Action env (Option Product)
  first_product [] = raise index_error
  first_product (p ∷ ps) = pure (some p)

  abbrev preferred : Option Product → List Product → Action env (Option Product)
  preferred none ps = first_product ps
  preferred (some p) ps = pure (some p)

  abbrev pick_named : Text → ProductListResponse → Action env (Option Product)
  pick_named wanted result =
      if result.total == 0
      then pure none
      else preferred (find (is_named wanted) result.products) result.products

  unfoldable pub resolve_product_by_name : Bool → Text → Action env (Option Product)
  resolve_product_by_name cached message = do
    result ← search_products_bounded cached message
    pick_named (lower (strip (term_or (extract_search_term message) message))) result
