-- ===== src/Cache/Sharing.antt =====
-- Product list requests that share a cache key.
use ecommerce_sales_agent.Prelude.{
  ℕ, ◌≡◌, refl, sym, ◌∙◌, ap, ap₂, ◌++◌, Bool, true, false, Option, none, some, List, [], ◌∷◌,
  is_nil, Bool-cases, inl, inr,
}
use ecommerce_sales_agent.Prelude.Int.{pos}
use ecommerce_sales_agent.Text.{Text, codes, lower, strip}
use ecommerce_sales_agent.Json.{Json, flag, num, str, obj, Fields, field}
use ecommerce_sales_agent.Inventra.Schemas.{StockStatus}
use ecommerce_sales_agent.Inventra.Env.{Env}
use ecommerce_sales_agent.Inventra.Client.{status_text}
use ecommerce_sales_agent.Cache.{
  prefix, normalized, or_null, products_list_params, products_list_key,
}
use ecommerce_sales_agent.Cache.Keys.{active_kept, search_kept}

-- The fields that an `is_active` filter and a search leave.
abbrev active_field : Option Bool → Fields → Fields
active_field none fs = fs
active_field (some b) fs = field (codes "is_active") (flag b) fs

abbrev search_field : Option Text → Fields → Fields
search_field none fs = fs
search_field (some t) fs = field (codes "search") (str t) fs

normalized-active :
    (a : Option Bool) (ps : List (Text × Json))
    → normalized ((codes "is_active", or_null flag a) ∷ ps)
      ≡ active_field (active_kept a) (normalized ps)
unfolding normalized
normalized-active none ps = refl
normalized-active (some true) ps = refl
normalized-active (some false) ps = refl

normalized-search :
    (o : Option Text) (ps : List (Text × Json))
    → normalized ((codes "search", or_null str o) ∷ ps)
      ≡ search_field (search_kept o) (normalized ps)
unfolding normalized
normalized-search none ps = refl
normalized-search (some t) ps = elim (Bool-cases (is_nil (lower (strip t)))) [
  | inl empty ↦ rw empty refl
  | inr full ↦ rw full refl
]

module _ (env : Env) (page per_page : ℕ) (search search' : Option Text) (category_id : Option ℕ)
    (is_active is_active' : Option Bool) (stock_status : Option StockStatus)
    (searches : search_kept search ≡ search_kept search')
    (filters : active_kept is_active ≡ active_kept is_active') where
  abbrev stock_param : List (Text × Json)
  stock_param = (codes "stock_status", or_null (λ s. str (status_text s)) stock_status) ∷ []

  abbrev after_filter : Option Text → List (Text × Json)
  after_filter o =
      (codes "page", num (pos page))
      ∷ (codes "per_page", num (pos per_page))
      ∷ (codes "search", or_null str o)
      ∷ stock_param

  searched : normalized (after_filter search) ≡ normalized (after_filter search')
  unfolding normalized
  searched =
      ap
        (λ fs.
          field (codes "page") (num (pos page)) (field (codes "per_page") (num (pos per_page)) fs))
        (normalized-search search stock_param
          ∙ ap (λ o. search_field o (normalized stock_param)) searches
          ∙ sym (normalized-search search' stock_param))

  filtered :
      normalized ((codes "is_active", or_null flag is_active) ∷ after_filter search)
      ≡ normalized ((codes "is_active", or_null flag is_active') ∷ after_filter search')
  filtered =
      normalized-active is_active (after_filter search)
      ∙ ap₂ active_field filters searched
      ∙ sym (normalized-active is_active' (after_filter search'))

  hashed-same :
      (c : Option ℕ)
      → normalized (products_list_params env page per_page search c is_active stock_status)
        ≡ normalized (products_list_params env page per_page search' c is_active' stock_status)
  unfolding normalized
  hashed-same none = filtered
  hashed-same (some n) = ap (field (codes "category_id") (num (pos n))) filtered

  -- Two requests that differ only in the case and outer spaces of the search, and in `is_active`
  -- being unset or false, have the same cache key.
  pub products_list_key-same :
      products_list_key env page per_page search category_id is_active stock_status
      ≡ products_list_key env page per_page search' category_id is_active' stock_status
  unfolding products_list_key
  products_list_key-same =
      ap (λ fs. prefix ++ (codes ":products:list:" ++ env.sha256 (env.dumps_compact (obj fs))))
        (hashed-same category_id)
