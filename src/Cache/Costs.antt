-- ===== src/Cache/Costs.antt =====
-- A read through the cache sends no more than its fetch.
use ecommerce_sales_agent.Prelude.{ℕ, Bool, Option, none, some, arith}
use ecommerce_sales_agent.Text.{Text}
use ecommerce_sales_agent.Inventra.Env.{Env, Action}
use ecommerce_sales_agent.Inventra.Client.Costs.{Costs, Costs-pure, Costs-then}
use ecommerce_sales_agent.Cache.{Family, Entry, negative, hit, read_through, on_entry, lookup_entry}

module _ (env : Env) where
  on_entry-Costs :
      {A : Type 0} {n : ℕ} (family : Family A) (key : Text) (fetch : Action env A) (ttl : ℕ)
      (negative_caching : Bool)
      → Costs n fetch
      → (o : Option (Entry A)) → Costs n (on_entry env family key ttl negative_caching fetch o)
  on_entry-Costs family key fetch ttl negative_caching c none =
      Costs-then env fetch _ c λ a. record { at = λ w. omega arith }
  on_entry-Costs family key fetch ttl negative_caching c (some negative) = Costs-pure env _ none
  on_entry-Costs family key fetch ttl negative_caching c (some (hit a)) = Costs-pure env _ (some a)

  -- A read through the cache sends what its fetch sends, at most.
  pub read_through-Costs :
      {A : Type 0} {n : ℕ} (family : Family A) (key : Text) (fetch : Action env A) (ttl : ℕ)
      (negative_caching : Bool)
      → Costs n fetch
      → Costs n (read_through env family key fetch ttl negative_caching)
  unfolding read_through
  read_through-Costs family key fetch ttl negative_caching c = record {
    at = λ w.
        (on_entry-Costs family key fetch ttl negative_caching c
            (lookup_entry env family (env.redis_get w.redis key).0)).at
          (record w { redis = (env.redis_get w.redis key).1 });
  }
