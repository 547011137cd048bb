-- ===== src/Json.antt =====
-- The values of Python's `json`: what the HTTP services answer and what the cache holds.
use ecommerce_sales_agent.Prelude.{
  zero, suc, Bool, true, false, not, ◌&&◌, ◌||◌, ◌==◌, leb, is_nil, List, [], ◌∷◌, if◌then◌else◌,
}
use ecommerce_sales_agent.Prelude.Int.{ℤ, pos, negsuc}
use ecommerce_sales_agent.Text.{Text, text_eq}

-- `decimal` keeps the literal of a number that is not an integer.
mutual
  pub data Json : Type 0 where
    null : Json
    flag : Bool → Json
    num : ℤ → Json
    decimal : Text → Json
    str : Text → Json
    arr : Items → Json
    obj : Fields → Json

  pub data Items : Type 0 where
    nil : Items
    cons : Json → Items → Items

  pub data Fields : Type 0 where
    end : Fields
    field : Text → Json → Fields → Fields

abbrev pub items : Items → List Json
items nil = []
items (cons v vs) = v ∷ items vs

-- `d.get(key)`: `null` on a missing key, as `None` is on both
abbrev pub get : Text → Fields → Json
get key end = null
get key (field k v fs) = if text_eq k key then v else get key fs

-- A digit other than 0 before the exponent.
abbrev nonzero : Text → Bool
nonzero [] = false
nonzero (c ∷ s) = if c == b'e' || c == b'E' then false else (leb 49 c && leb c 57) || nonzero s

-- `bool(value)`
abbrev pub truthy : Json → Bool
truthy null = false
truthy (flag b) = b
truthy (num (pos zero)) = false
truthy (num (pos (suc n))) = true
truthy (num (negsuc n)) = true
truthy (decimal s) = nonzero s
truthy (str s) = not (is_nil s)
truthy (arr nil) = false
truthy (arr (cons j js)) = true
truthy (obj end) = false
truthy (obj (field k v fs)) = true
