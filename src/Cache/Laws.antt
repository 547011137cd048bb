-- ===== src/Cache/Laws.antt =====
-- What a read through the cache returns, and what an invalidation removes.
use ecommerce_sales_agent.Prelude.{
  ℕ, ◌≡◌, refl, ◌≢◌, ◌⊎◌, inl, inr, Bool, true, Option, none, some, List, [], ◌∷◌, ◌++◌, arith, any,
  ◌||◌, Option-cases,
}
use ecommerce_sales_agent.Text.{Text, codes, text_eq, text_eq_refl, starts_with}
use ecommerce_sales_agent.Exec.{Result, ok, err, continue}
use ecommerce_sales_agent.Inventra.Errors.{Exc}
use ecommerce_sales_agent.Inventra.Env.{Env, World, Action}
use ecommerce_sales_agent.Inventra.Client.Laws.{Quiet, bind-Quiet, pure-Quiet}
use ecommerce_sales_agent.Cache.{
  Family, Entry, negative, hit, prefix, read_through, store_result, lookup_entry, on_entry,
  invalidate_product_stock, product_detail_key, inventory_pattern, list_pattern,
}

-- `k in ks`
abbrev pub among : Text → List Text → Bool
among k ks = any (λ j. text_eq j k) ks

-- What the cache relies on in Redis. `holds` is what a store keeps; an entry may go at any time,
-- and none comes but by a `SET`. A pattern of `KEYS` ends in its only star.
pub record IsRedis (env : Env) (holds : env.Store → Text → Option Text) : Type 0 where
  pub get_reads :
      (s : env.Store) (k p : Text) → (env.redis_get s k).0 ≡ some (some p) → holds s k ≡ some p
  pub get_keeps :
      (s : env.Store) (k j p : Text) → holds (env.redis_get s k).1 j ≡ some p → holds s j ≡ some p
  pub keys_lists :
      (s : env.Store) (pre k p : Text) (ks : List Text)
      → (env.redis_keys s (pre ++ codes "*")).0 ≡ some ks
      → holds (env.redis_keys s (pre ++ codes "*")).1 k ≡ some p
      → starts_with pre k ≡ true
      → among k ks ≡ true
  pub keys_keeps :
      (s : env.Store) (pattern' k p : Text)
      → holds (env.redis_keys s pattern').1 k ≡ some p
      → holds s k ≡ some p
  pub delete_removes :
      (s : env.Store) (ks : List Text) (k : Text) (n : ℕ)
      → (env.redis_delete s ks).0 ≡ some n
      → among k ks ≡ true
      → holds (env.redis_delete s ks).1 k ≡ none
  pub delete_keeps :
      (s : env.Store) (ks : List Text) (k p : Text)
      → holds (env.redis_delete s ks).1 k ≡ some p
      → holds s k ≡ some p

-- The calls of an invalidation do not raise.
pub record IsUp (env : Env) : Type 0 where
  pub keys_up : (s : env.Store) (pattern' : Text) → (env.redis_keys s pattern').0 ≢ none
  pub delete_up : (s : env.Store) (ks : List Text) → (env.redis_delete s ks).0 ≢ none

module _ (env : Env) {A : Type 0} (family : Family A) (key : Text) (fetch : Action env A) (ttl : ℕ)
    (negative_caching : Bool) where
  store_result-Quiet : (a : A) → Quiet env (store_result env family key ttl negative_caching a)
  store_result-Quiet a = record {
    at = λ w. record { writes = refl; messages = refl; faults = refl };
  }

  on_entry-Quiet :
      Quiet env fetch
      → (o : Option (Entry A)) → Quiet env (on_entry env family key ttl negative_caching fetch o)
  on_entry-Quiet q none = bind-Quiet env fetch _ q store_result-Quiet
  on_entry-Quiet q (some negative) = pure-Quiet env none
  on_entry-Quiet q (some (hit a)) = pure-Quiet env (some a)

  -- A read through the cache writes nothing to Inventra if the fetch does not.
  pub read_through-Quiet :
      Quiet env fetch → Quiet env (read_through env family key fetch ttl negative_caching)
  unfolding read_through
  read_through-Quiet q = record {
    at = λ w.
        let h =
          (on_entry-Quiet q (lookup_entry env family (env.redis_get w.redis key).0)).at
            (record w { redis = (env.redis_get w.redis key).1 }) in
        record { writes = h.writes; messages = h.messages; faults = h.faults };
  }

  abbrev pub after_get : World env → World env
  after_get w = record w { redis = (env.redis_get w.redis key).1 }

  abbrev pub wrapped : Result Exc A → Result Exc (Option A)
  wrapped (ok a) = ok (some a)
  wrapped (err e) = err e

  wrapped_fetch :
      (r : Result Exc A) (w : World env)
      → (continue r (store_result env family key ttl negative_caching) w).0 ≡ wrapped r
  wrapped_fetch (ok a) w = refl
  wrapped_fetch (err e) w = refl

  -- A miss returns what the fetch returns, and raises what it raises.
  pub read_through_miss :
      (w : World env)
      → lookup_entry env family (env.redis_get w.redis key).0 ≡ none
      → (read_through env family key fetch ttl negative_caching w).0
        ≡ wrapped (fetch (after_get w)).0
  unfolding read_through
  read_through_miss w e = rw e (wrapped_fetch (fetch (after_get w)).0 (fetch (after_get w)).1)

module _ (env : Env) (holds : env.Store → Text → Option Text) (redis : IsRedis env holds)
    (up : IsUp env) where
  -- The entries that can hold the stock of a product.
  abbrev pub IsStale : ℕ → Text → Type 0
  IsStale product_id k =
      (k ≡ product_detail_key env product_id)
      ⊎ ((starts_with (prefix ++ codes ":inventory:") k ≡ true)
          ⊎ (starts_with (prefix ++ codes ":products:list:") k ≡ true))

  among-append : (k : Text) (xs ys : List Text) → among k (xs ++ ys) ≡ (among k xs || among k ys)
  among-append k [] ys = refl
  among-append k (x ∷ xs) ys = ground (arith, among-append k xs ys)

  kept_or_none : (o : Option Text) → ((p : Text) → o ≡ some p → ⊥) → o ≡ none
  kept_or_none none h = refl
  kept_or_none (some p) h = absurd (h p refl)

  -- Once the two listings have answered, the deletion leaves no stale entry.
  deleted :
      (product_id : ℕ) (s : env.Store) (inventory_keys list_keys : List Text) (k : Text)
      → (env.redis_keys s inventory_pattern).0 ≡ some inventory_keys
      → (env.redis_keys (env.redis_keys s inventory_pattern).1 list_pattern).0 ≡ some list_keys
      → IsStale product_id k
      → holds
          (env.redis_delete
            (env.redis_keys (env.redis_keys s inventory_pattern).1 list_pattern).1
            (product_detail_key env product_id ∷ (inventory_keys ++ list_keys))).1
          k
        ≡ none
  deleted product_id s inventory_keys list_keys k e f stale =
      elim (Option-cases
        (env.redis_delete (env.redis_keys (env.redis_keys s inventory_pattern).1 list_pattern).1
          (product_detail_key env product_id ∷ (inventory_keys ++ list_keys))).0) [
            | inl failed ↦ absurd (up.delete_up _ _ failed)
            | inr (n, done) ↦ kept_or_none _ λ p held. cc (
              redis.delete_removes _ _ k n done (victim p (redis.delete_keeps _ _ k p held)),
              held,
            )
          ]
    where
      victim :
          (p : Text)
          → holds (env.redis_keys (env.redis_keys s inventory_pattern).1 list_pattern).1 k ≡ some p
          → among k (product_detail_key env product_id ∷ (inventory_keys ++ list_keys)) ≡ true
      victim p held = elim stale [
        | inl same ↦ rw same (ground (arith, text_eq_refl (product_detail_key env product_id)))
        | inr (inl inventory) ↦
            let listed =
              redis.keys_lists s (prefix ++ codes ":inventory:") k p inventory_keys e
                (redis.keys_keeps _ list_pattern k p held) inventory in
            rw (among-append k inventory_keys list_keys) (ground arith)
        | inr (inr list) ↦
            let listed =
              redis.keys_lists (env.redis_keys s inventory_pattern).1
                (prefix ++ codes ":products:list:") k p list_keys f held list in
            rw (among-append k inventory_keys list_keys) (ground arith)
      ]

  -- The store after an invalidation, when both listings answer.
  invalidated :
      (product_id : ℕ) (w : World env) (inventory_keys list_keys : List Text)
      → (env.redis_keys w.redis inventory_pattern).0 ≡ some inventory_keys
      → (env.redis_keys (env.redis_keys w.redis inventory_pattern).1 list_pattern).0
        ≡ some list_keys
      → (invalidate_product_stock env product_id w).1.redis
        ≡ (env.redis_delete
            (env.redis_keys (env.redis_keys w.redis inventory_pattern).1 list_pattern).1
            (product_detail_key env product_id ∷ (inventory_keys ++ list_keys))).1
  unfolding invalidate_product_stock
  invalidated product_id w inventory_keys list_keys e f = ground arith

  -- While Redis answers, an invalidation leaves no entry that can hold the product's stock: not its
  -- detail entry, and none of the inventory and product list families.
  pub invalidate-fresh :
      (product_id : ℕ) (w : World env) (k : Text)
      → IsStale product_id k
      → holds (invalidate_product_stock env product_id w).1.redis k ≡ none
  invalidate-fresh product_id w k stale =
      elim (Option-cases (env.redis_keys w.redis inventory_pattern).0) [
        | inl failed ↦ absurd (up.keys_up _ _ failed)
        | inr (inventory_keys, e) ↦
            elim (Option-cases
              (env.redis_keys (env.redis_keys w.redis inventory_pattern).1 list_pattern).0) [
                | inl failed ↦ absurd (up.keys_up _ _ failed)
                | inr (list_keys, f) ↦
                    rw (invalidated product_id w inventory_keys list_keys e f)
                      (deleted product_id w.redis inventory_keys list_keys k e f stale)
              ]
      ]

  missing :
      {A : Type 0} (family : Family A) (s : env.Store) (k : Text)
      → holds s k ≡ none
      → lookup_entry env family (env.redis_get s k).0 ≡ none
  missing family s k e = unread (env.redis_get s k).0 refl
    where
      unread :
          (o : Option (Option Text)) → (env.redis_get s k).0 ≡ o → lookup_entry env family o ≡ none
      unread none h = refl
      unread (some none) h = refl
      unread (some (some p)) h = cc (redis.get_reads s k p h, e)

  -- While Redis answers as documented, the read after an invalidation, under a key that can hold the
  -- product's stock, is not served from the cache: it returns what the fetch from the service
  -- returns, and raises what it raises.
  pub read-invalidate :
      {A : Type 0} (family : Family A) (product_id : ℕ) (k : Text) (fetch : Action env A) (ttl : ℕ)
      (negative_caching : Bool) (w : World env)
      → IsStale product_id k
      → let w' = (invalidate_product_stock env product_id w).1 in
        (read_through env family k fetch ttl negative_caching w').0
        ≡ wrapped env family k fetch ttl negative_caching
            (fetch (after_get env family k fetch ttl negative_caching w')).0
  read-invalidate family product_id k fetch ttl negative_caching w stale =
      read_through_miss env family k fetch ttl negative_caching _
        (missing family _ k (invalidate-fresh product_id w k stale))
