-- ===== src/Admin/Proxy/Errors.antt =====
-- With which statuses the admin's reads of Inventra fail.
use ecommerce_sales_agent.Prelude.{
  List, ℕ, ◌≡◌, refl, ◌⊎◌, inl, inr, Bool, true, false, Option, Bool-cases, subst,
}
use ecommerce_sales_agent.Text.{Text}
use ecommerce_sales_agent.Exec.{Result, ok, err}
use ecommerce_sales_agent.Inventra.Errors.{
  InventraError, config_error, auth_error, not_found_error, validation_error, rate_limited_error,
  server_error, timeout_error, connection_error, response_error, Exc, inventra, tool, invalid_model,
  value_error, index_error, attribute_error, other_error,
}
use ecommerce_sales_agent.Inventra.Env.{Request, Env, World}
use ecommerce_sales_agent.Inventra.Client.Errors.{
  is_inventra, IsEscaped, IsFault, Raises, list_products-Raises, get_product-Raises,
  list_categories-Raises, list_inventory-Raises, list_inventory_movements-Raises,
}
use ecommerce_sales_agent.Admin.Auth.{
  Crypto, AdminSettings, AdminContext, AdminError, require_admin,
}
use ecommerce_sales_agent.Admin.Proxy.{
  AdminRead, read_products, read_product, read_inventory, read_movements, read_categories,
  in_bounds, fulfil, route, respond, admin_read, admin_error_status, inventra_error_to_http,
  caught_status, caught,
}

-- What a failed read of Inventra is answered with.
abbrev pub IsUpstream : ℕ → Type 0
IsUpstream status = (status ≡ 404) ⊎ ((status ≡ 502) ⊎ (status ≡ 503))

inventra_error_to_http-IsUpstream : (e : InventraError) → IsUpstream (inventra_error_to_http e)
unfolding inventra_error_to_http
inventra_error_to_http-IsUpstream config_error = inr (inr refl)
inventra_error_to_http-IsUpstream auth_error = inr (inr refl)
inventra_error_to_http-IsUpstream not_found_error = inl refl
inventra_error_to_http-IsUpstream validation_error = inr (inl refl)
inventra_error_to_http-IsUpstream rate_limited_error = inr (inr refl)
inventra_error_to_http-IsUpstream server_error = inr (inr refl)
inventra_error_to_http-IsUpstream timeout_error = inr (inr refl)
inventra_error_to_http-IsUpstream connection_error = inr (inr refl)
inventra_error_to_http-IsUpstream response_error = inr (inl refl)

caught_status-IsUpstream : (e : Exc) → is_inventra e ≡ true → IsUpstream (caught_status e)
caught_status-IsUpstream (inventra f) h = inventra_error_to_http-IsUpstream f
caught_status-IsUpstream (tool f) h = absurd (cc h)
caught_status-IsUpstream invalid_model h = absurd (cc h)
caught_status-IsUpstream value_error h = absurd (cc h)
caught_status-IsUpstream index_error h = absurd (cc h)
caught_status-IsUpstream attribute_error h = absurd (cc h)
caught_status-IsUpstream other_error h = absurd (cc h)

module _ (env : Env) where
  fulfil-Raises : (r : AdminRead) → Raises env (fulfil env r)
  fulfil-Raises (read_products page per_page search category_id is_active stock_status) =
      list_products-Raises env page per_page search category_id is_active stock_status
  fulfil-Raises (read_product product_id) = get_product-Raises env product_id
  fulfil-Raises (read_inventory search stock_status low_stock_only) =
      list_inventory-Raises env search _ low_stock_only
  fulfil-Raises (read_movements product_id movement_type page per_page) =
      list_inventory_movements-Raises env product_id movement_type page per_page
  fulfil-Raises read_categories = list_categories-Raises env

  -- The status of a failed read, or the 500 of a reply of the service on which the client raises an
  -- exception that is none of its errors.
  abbrev pub IsFailure : ℕ → Type 0
  IsFailure status =
      IsUpstream status
      ⊎ ((status ≡ 500) × ((sent : List Request) × (req : Request) × IsEscaped (env.http sent req)))

  fault-IsFailure : (e : Exc) → IsFault env e → IsFailure (caught_status e)
  fault-IsFailure e (inl known) = inl (caught_status-IsUpstream e known)
  fault-IsFailure e (inr (same, reply)) = rw same (inr (refl, reply))

  respond-IsFailure :
      (r : AdminRead) (w : World env) (status : ℕ)
      → (respond env (fulfil env r) w).0 ≡ err status
      → IsFailure status
  respond-IsFailure r w status h = of_result (fulfil env r w).0 ((fulfil-Raises r).at w) h
    where
      of_result :
          {A : Type 0} (out : Result Exc A)
          → ((e : Exc) → out ≡ err e → IsFault env e)
          → caught env out ≡ err status
          → IsFailure status
      of_result (ok a) known k = absurd (cc k)
      of_result (err e) known k = subst IsFailure (cc k) (fault-IsFailure e (known e refl))

  -- Why a read was answered with a status: the guard refused the header, no client is attached, the
  -- query is out of bounds, or Inventra failed.
  pub data IsReason (admitted : Result AdminError AdminContext) (attached : Bool) (r : AdminRead)
      : ℕ → Type 0 where
    refused :
        (e : AdminError) → admitted ≡ err e → IsReason admitted attached r (admin_error_status e)
    detached : attached ≡ false → IsReason admitted attached r 503
    outside : in_bounds r ≡ false → IsReason admitted attached r 422
    upstream :
        (status : ℕ)
        → attached ≡ true
        → in_bounds r ≡ true
        → IsFailure status
        → IsReason admitted attached r status

  route-IsReason :
      (admitted : Result AdminError AdminContext) (attached : Bool) (r : AdminRead) (w : World env)
      (status : ℕ)
      → (route env attached r admitted w).0 ≡ err status
      → IsReason admitted attached r status
  route-IsReason (err e) attached r w status h =
      subst (IsReason (err e) attached r) (cc h) (refused e refl)
  route-IsReason (ok admin) false r w status h =
      subst (IsReason (ok admin) false r) (cc h) (detached refl)
  route-IsReason (ok admin) true r w status h = elim (Bool-cases (in_bounds r)) [
    | inl inside ↦ upstream status refl inside (respond-IsFailure r w status (rw inside at h))
    | inr beyond ↦ subst (IsReason (ok admin) true r) (cc (rw beyond at h)) (outside beyond)
  ]

  -- Where an admin's read of Inventra fails with a status, either the guard refused the header and
  -- the status is that of its error, or no client is attached and it is 503, or the path or query is
  -- out of bounds and it is 422, or the read was made and the status is 404, 502 or 503, or it is
  -- 500 and the service gave a reply on which the client raises what is none of its errors.
  pub admin_read-IsReason :
      (crypto : Crypto) (settings : AdminSettings) (attached : Bool) (authorization : Option Text)
      (now : ℕ) (r : AdminRead) (w : World env) (status : ℕ)
      → (admin_read env crypto settings attached authorization now r w).0 ≡ err status
      → IsReason (require_admin crypto settings authorization now) attached r status
  unfolding admin_read
  admin_read-IsReason crypto settings attached authorization now r w status h =
      route-IsReason (require_admin crypto settings authorization now) attached r w status h
