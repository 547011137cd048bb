-- ===== src/Cache/Keys.antt =====
-- Which product list requests share a cache key: what `_canonical_params` keeps of them.
use ecommerce_sales_agent.Prelude.{
  ℕ, ◌≡◌, refl, sym, ◌∙◌, ap, Bool, true, false, Option, none, some, List, [], ◌∷◌, arith,
  if◌then◌else◌, is_nil, Bool-cases, inl, inr,
}
use ecommerce_sales_agent.Prelude.Int.{pos}
use ecommerce_sales_agent.Text.{Text, codes, text_eq, lower, strip}
use ecommerce_sales_agent.Json.{Json, null, flag, num, decimal, str, arr, obj, Fields, get}
use ecommerce_sales_agent.Inventra.Schemas.{StockStatus, in_stock, out_of_stock, low_stock}
use ecommerce_sales_agent.Inventra.Env.{Env}
use ecommerce_sales_agent.Inventra.Client.{status_text}
use ecommerce_sales_agent.Cache.{normalized, or_null, products_list_params}

-- A field under another name does not count.
get-normalized :
    (name key : Text) (v : Json) (ps : List (Text × Json))
    → text_eq key name ≡ false
    → get name (normalized ((key, v) ∷ ps)) ≡ get name (normalized ps)
unfolding normalized
get-normalized name key null ps h = refl
get-normalized name key (flag true) ps h = rw h refl
get-normalized name key (flag false) ps h = refl
get-normalized name key (num n) ps h = rw h refl
get-normalized name key (decimal s) ps h = rw h refl
get-normalized name key (str s) ps h = ground arith
get-normalized name key (arr js) ps h = rw h refl
get-normalized name key (obj fs) ps h = rw h refl

-- What is left of a filter on `is_active`, and of a search.
abbrev pub active_kept : Option Bool → Option Bool
active_kept (some true) = some true
active_kept _ = none

abbrev pub search_kept : Option Text → Option Text
search_kept none = none
search_kept (some s) = if is_nil (lower (strip s)) then none else some (lower (strip s))

module _ (env : Env) (page per_page : ℕ) (search : Option Text) (category_id : Option ℕ)
    (is_active : Option Bool) (stock_status : Option StockStatus) where
  abbrev kept : Fields
  kept =
      normalized (products_list_params env page per_page search category_id is_active stock_status)

  kept-category : get (codes "category_id") kept ≡ or_null (λ n. num (pos n)) category_id
  unfolding normalized
  kept-category = of_category category_id
    where
      of_category :
          (c : Option ℕ)
          → get
              (codes "category_id")
              (normalized (products_list_params env page per_page search c is_active stock_status))
            ≡ or_null (λ n. num (pos n)) c
      of_category (some n) = refl
      of_category none =
          get-normalized (codes "category_id") (codes "is_active") (or_null flag is_active) _ refl
          ∙ get-normalized (codes "category_id") (codes "search") (or_null str search) _ refl
          ∙ get-normalized (codes "category_id") (codes "stock_status")
              (or_null (λ s. str (status_text s)) stock_status) [] refl

  abbrev category_json : Json
  category_json = or_null (λ n. num (pos n)) category_id

  abbrev active_json : Json
  active_json = or_null flag is_active

  abbrev search_json : Json
  search_json = or_null str search

  kept-page : get (codes "page") kept ≡ num (pos page)
  unfolding normalized
  kept-page =
      get-normalized (codes "page") (codes "category_id") category_json _ refl
      ∙ get-normalized (codes "page") (codes "is_active") active_json _ refl

  kept-per_page : get (codes "per_page") kept ≡ num (pos per_page)
  unfolding normalized
  kept-per_page =
      get-normalized (codes "per_page") (codes "category_id") category_json _ refl
      ∙ get-normalized (codes "per_page") (codes "is_active") active_json _ refl

  kept-active : get (codes "is_active") kept ≡ or_null flag (active_kept is_active)
  unfolding normalized
  kept-active =
      get-normalized (codes "is_active") (codes "category_id") category_json _ refl
      ∙ of_active is_active
    where
      of_active :
          (a : Option Bool)
          → get (codes "is_active") (
              normalized (
                (codes "is_active", or_null flag a)
                ∷ (codes "page", num (pos page))
                ∷ (codes "per_page", num (pos per_page))
                ∷ (codes "search", search_json)
                ∷ (codes "stock_status", or_null (λ s. str (status_text s)) stock_status)
                ∷ []))
            ≡ or_null flag (active_kept a)
      of_active (some true) = refl
      of_active (some false) =
          get-normalized (codes "is_active") (codes "search") search_json _ refl
          ∙ get-normalized (codes "is_active") (codes "stock_status")
              (or_null (λ s. str (status_text s)) stock_status) [] refl
      of_active none =
          get-normalized (codes "is_active") (codes "search") search_json _ refl
          ∙ get-normalized (codes "is_active") (codes "stock_status")
              (or_null (λ s. str (status_text s)) stock_status) [] refl

  kept-search : get (codes "search") kept ≡ or_null str (search_kept search)
  unfolding normalized lower strip
  kept-search =
      get-normalized (codes "search") (codes "category_id") category_json _ refl
      ∙ get-normalized (codes "search") (codes "is_active") active_json _ refl
      ∙ of_search search
    where
      of_search :
          (o : Option Text)
          → get (codes "search") (
              normalized (
                (codes "search", or_null str o)
                ∷ (codes "stock_status", or_null (λ s. str (status_text s)) stock_status)
                ∷ []))
            ≡ or_null str (search_kept o)
      of_search none =
          get-normalized (codes "search") (codes "stock_status")
            (or_null (λ s. str (status_text s)) stock_status) [] refl
      of_search (some t) = elim (Bool-cases (is_nil (lower (strip t)))) [
        | inl empty ↦ rw empty (
            get-normalized (codes "search") (codes "stock_status")
              (or_null (λ s. str (status_text s)) stock_status) [] refl)
        | inr full ↦ rw full refl
      ]

  kept-stock : get (codes "stock_status") kept ≡ or_null (λ s. str (status_text s)) stock_status
  unfolding normalized
  kept-stock =
      get-normalized (codes "stock_status") (codes "category_id") category_json _ refl
      ∙ get-normalized (codes "stock_status") (codes "is_active") active_json _ refl
      ∙ get-normalized (codes "stock_status") (codes "search") search_json _ refl
      ∙ of_stock stock_status
    where
      of_stock :
          (o : Option StockStatus)
          → get
              (codes "stock_status")
              (normalized ((codes "stock_status", or_null (λ s. str (status_text s)) o) ∷ []))
            ≡ or_null (λ s. str (status_text s)) o
      of_stock none = refl
      of_stock (some in_stock) = refl
      of_stock (some out_of_stock) = refl
      of_stock (some low_stock) = refl

-- Two product list requests that differ at most in how the search is written and in `is_active`
-- being unset or false.
pub record IsSameList (page page' per_page per_page' : ℕ) (search search' : Option Text)
    (category_id category_id' : Option ℕ) (is_active is_active' : Option Bool)
    (stock_status stock_status' : Option StockStatus) : Type 0 where
  pub same_page : page ≡ page'
  pub same_per_page : per_page ≡ per_page'
  pub same_search : search_kept search ≡ search_kept search'
  pub same_category_id : category_id ≡ category_id'
  pub same_is_active : active_kept is_active ≡ active_kept is_active'
  pub same_stock_status : stock_status ≡ stock_status'

same_number : (a b : Option ℕ) → or_null (λ n. num (pos n)) a ≡ or_null (λ n. num (pos n)) b → a ≡ b
same_number none none e = refl
same_number none (some b) e = absurd (cc e)
same_number (some a) none e = absurd (cc e)
same_number (some a) (some b) e = cc e

same_text : (a b : Option Text) → or_null str a ≡ or_null str b → a ≡ b
same_text none none e = refl
same_text none (some b) e = absurd (cc e)
same_text (some a) none e = absurd (cc e)
same_text (some a) (some b) e = cc e

same_flag : (a b : Option Bool) → or_null flag a ≡ or_null flag b → a ≡ b
same_flag none none e = refl
same_flag none (some b) e = absurd (cc e)
same_flag (some a) none e = absurd (cc e)
same_flag (some a) (some b) e = cc e

-- The status that a JSON value stands for.
abbrev status_of : Json → Option StockStatus
status_of (str t) =
    if text_eq t (codes "in_stock")
    then some in_stock
    else if text_eq t (codes "low_stock")
    then some low_stock
    else some out_of_stock
status_of _ = none

status_back : (o : Option StockStatus) → status_of (or_null (λ s. str (status_text s)) o) ≡ o
status_back none = refl
status_back (some in_stock) = refl
status_back (some out_of_stock) = refl
status_back (some low_stock) = refl

module _ (env : Env) (page page' per_page per_page' : ℕ) (search search' : Option Text)
    (category_id category_id' : Option ℕ) (is_active is_active' : Option Bool)
    (stock_status stock_status' : Option StockStatus) where
  -- Where the parameters that are hashed into the key are the same, the two requests differ at
  -- most in the case and outer spaces of the search and in `is_active` being unset or false.
  pub products_list-IsSameList :
      normalized (products_list_params env page per_page search category_id is_active stock_status)
        ≡ normalized
            (products_list_params env page' per_page' search' category_id' is_active' stock_status')
      → IsSameList page page' per_page per_page' search search' category_id category_id' is_active
          is_active' stock_status stock_status'
  products_list-IsSameList e = record {
    same_page = cc (
      kept-page env page per_page search category_id is_active stock_status,
      kept-page env page' per_page' search' category_id' is_active' stock_status',
    );
    same_per_page = cc (
      kept-per_page env page per_page search category_id is_active stock_status,
      kept-per_page env page' per_page' search' category_id' is_active' stock_status',
    );
    same_search = same_text _ _ (
        sym (kept-search env page per_page search category_id is_active stock_status)
        ∙ ap (get (codes "search")) e
        ∙ kept-search env page' per_page' search' category_id' is_active' stock_status');
    same_category_id = same_number _ _ (
        sym (kept-category env page per_page search category_id is_active stock_status)
        ∙ ap (get (codes "category_id")) e
        ∙ kept-category env page' per_page' search' category_id' is_active' stock_status');
    same_is_active = same_flag _ _ (
        sym (kept-active env page per_page search category_id is_active stock_status)
        ∙ ap (get (codes "is_active")) e
        ∙ kept-active env page' per_page' search' category_id' is_active' stock_status');
    same_stock_status =
        sym (status_back stock_status)
        ∙ ap status_of (
            sym (kept-stock env page per_page search category_id is_active stock_status)
            ∙ ap (get (codes "stock_status")) e
            ∙ kept-stock env page' per_page' search' category_id' is_active' stock_status')
        ∙ status_back stock_status';
  }
