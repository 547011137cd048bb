-- ===== src/Tools/Errors.antt =====
-- Which errors leave the tools.
use ecommerce_sales_agent.Prelude.{
  Bool-cases, is_nil, ℕ, ◌≡◌, refl, ◌≢◌, ◌⊎◌, inl, inr, Bool, true, false, Option, arith,
}
use ecommerce_sales_agent.Prelude.Int.{ℤ, pos, leb_ℤ}
use ecommerce_sales_agent.Text.{Text}
use ecommerce_sales_agent.Exec.{Result-cases, Result, ok, err, continue, recover, raise}
use ecommerce_sales_agent.Inventra.Errors.{
  Exc, InventraError, inventra, tool, translated, invalid_model, value_error, index_error,
  attribute_error, other_error,
}
use ecommerce_sales_agent.Inventra.Schemas.{StockOutResult}
use ecommerce_sales_agent.Inventra.Env.{Env, World, Action}
use ecommerce_sales_agent.Inventra.Client.{finish, client_stock_out, stock_out_request}
use ecommerce_sales_agent.Inventra.Client.Errors.{is_inventra, IsEscaped, finish-eq-err}
use ecommerce_sales_agent.Cache.{invalidate_product_stock}
use ecommerce_sales_agent.Tools.{StockOutParams, translating, stock_out_product, invalidate_if}

-- An error of the tools.
abbrev pub is_tool : Exc → Bool
is_tool (tool f) = true
is_tool _ = false

translated-is_tool : (e : Exc) → is_inventra e ≡ true → is_tool (translated e) ≡ true
translated-is_tool (inventra f) h = refl
translated-is_tool (tool f) h = refl
translated-is_tool invalid_model h = absurd (cc h)
translated-is_tool value_error h = absurd (cc h)
translated-is_tool index_error h = absurd (cc h)
translated-is_tool attribute_error h = absurd (cc h)
translated-is_tool other_error h = absurd (cc h)

module _ (env : Env) where
  client_stock_out-eq-err :
      (product_id : ℕ) (quantity : ℤ) (notes : Option Text) (w : World env) (e : Exc)
      → (client_stock_out env product_id quantity notes w).0 ≡ err e
      → (is_inventra e ≡ true)
        ⊎ ((e ≡ other_error)
            × IsEscaped (env.http w.sent (stock_out_request product_id quantity notes)))
  unfolding client_stock_out
  client_stock_out-eq-err product_id quantity notes w e h =
      elim (Bool-cases (leb_ℤ quantity (pos 0))) [
        | inl empty ↦ inl (ground arith)
        | inr some' ↦ elim (Bool-cases (is_nil env.bearer_token)) [
          | inl unset ↦ inl (ground arith)
          | inr set ↦
              elim (Result-cases
                (finish (env.http w.sent (stock_out_request product_id quantity notes)))) [
                  | inl (j, finished) ↦ inl (ground arith)
                  | inr (f, failed) ↦
                      let same : f ≡ e = ground arith in rw (← same) (finish-eq-err _ f failed)
                ]
        ]
      ]

  no_inventra :
      {A : Type 0} (r : Result Exc A) (w : World env) (f : InventraError)
      → (recover r (λ e. raise (translated e)) w).0 ≢ err (inventra f)
  no_inventra (ok a) w f h = cc h
  no_inventra (err (inventra g)) w f h = cc h
  no_inventra (err (tool g)) w f h = cc h
  no_inventra (err invalid_model) w f h = cc h
  no_inventra (err value_error) w f h = cc h
  no_inventra (err index_error) w f h = cc h
  no_inventra (err attribute_error) w f h = cc h
  no_inventra (err other_error) w f h = cc h

  -- No error of the client passes the translation that every tool is wrapped in.
  pub translating-ne-inventra :
      {A : Type 0} (m : Action env A) (w : World env) (f : InventraError)
      → (translating env m w).0 ≢ err (inventra f)
  translating-ne-inventra m w f = no_inventra (m w).0 (m w).1 f

  recovered-eq-err :
      {A : Type 0} {P : Type 0} (r : Result Exc A) (w : World env) (e : Exc)
      → ((d : Exc) → r ≡ err d → (is_inventra d ≡ true) ⊎ ((d ≡ other_error) × P))
      → (recover r (λ d. raise (translated d)) w).0 ≡ err e
      → (is_tool e ≡ true) ⊎ ((e ≡ other_error) × P)
  recovered-eq-err (ok a) w e h k = absurd (cc k)
  recovered-eq-err (err d) w e h k = elim (h d refl) [
    | inl known ↦ inl (cc (translated-is_tool d known, k))
    | inr (other, p) ↦ let same : translated d ≡ e = cc k in inr (rw (← same, other) refl, p)
  ]

  invalidated-err :
      (cached : Bool) (product_id : ℕ) (r : Result Exc StockOutResult) (w : World env) (e : Exc)
      → (continue r (invalidate_if env cached product_id) w).0 ≡ err e
      → r ≡ err e
  unfolding invalidate_product_stock
  invalidated-err true product_id (ok a) w e h = absurd (cc h)
  invalidated-err false product_id (ok a) w e h = absurd (cc h)
  invalidated-err cached product_id (err d) w e h = ground arith

  -- What the purchase tool raises is a tool error, or the exception of a reply to its write that
  -- the client does not catch.
  pub stock_out_product-eq-err :
      (cached : Bool) (p : StockOutParams) (w : World env) (e : Exc)
      → (stock_out_product env cached p w).0 ≡ err e
      → (is_tool e ≡ true)
        ⊎ ((e ≡ other_error)
            × IsEscaped (env.http w.sent (stock_out_request p.product_id p.quantity p.notes)))
  unfolding stock_out_product
  stock_out_product-eq-err cached p w e h =
      recovered-eq-err (client_stock_out env p.product_id p.quantity p.notes w).0
        (client_stock_out env p.product_id p.quantity p.notes w).1 e
        (client_stock_out-eq-err p.product_id p.quantity p.notes w)
        (invalidated-err cached p.product_id _ _ e h)
