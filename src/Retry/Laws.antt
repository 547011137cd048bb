-- ===== src/Retry/Laws.antt =====
-- How often the request loop sends, and which reply it ends with.
use ecommerce_sales_agent.Prelude.{
  ℕ, zero, suc, ◌+◌, ◌≤◌, ◌<◌, ◌≡◌, refl, ◌⊎◌, inl, inr, true, false, List, arith, Bool-cases,
}
use ecommerce_sales_agent.Exec.{Result}
use ecommerce_sales_agent.Exec.Rules.{IsOrder}
use ecommerce_sales_agent.Retry.{HttpReply, is_transient, request_loop}

module _ {S : Type 0} (send : S → HttpReply × S) where
  -- The state after so many calls, and the reply to the call after those.
  abbrev pub state_after : ℕ → S → S
  state_after zero s = s
  state_after (suc k) s = state_after k (send s).1

  abbrev pub reply_at : ℕ → S → HttpReply
  reply_at k s = (send (state_after k s)).0

module _ {S E A : Type 0} (send : S → HttpReply × S) (retryable : List ℕ)
    (finish : HttpReply → Result E A) where
  -- The loop ends with the reply to call number `calls`, counted from 0: all before it were
  -- transient, and it is the last one allowed or not transient itself.
  pub record IsServed (retries : ℕ) (s : S) (out : Result E A × S) : Type 0 where
    pub calls : ℕ
    pub within : calls ≤ retries
    pub earlier : (i : ℕ) → i < calls → is_transient retryable (reply_at send i s) ≡ true
    pub final : (calls ≡ retries) ⊎ (is_transient retryable (reply_at send calls s) ≡ false)
    pub result : out ≡ (finish (reply_at send calls s), state_after send (suc calls) s)

  later-IsServed :
      (retries : ℕ) (s : S) (out : Result E A × S)
      → is_transient retryable (send s).0 ≡ true
      → IsServed retries (send s).1 out
      → IsServed (suc retries) s out
  later-IsServed retries s out again v = record {
    calls = suc v.calls;
    within = omega (arith, v.within);
    earlier = λ i h. before i h;
    final = final_of v.final;
    result = v.result;
  }
    where
      before : (i : ℕ) → i < suc v.calls → is_transient retryable (reply_at send i s) ≡ true
      before zero h = again
      before (suc i) h = v.earlier i (omega arith)

      final_of :
          (v.calls ≡ retries) ⊎ (is_transient retryable (reply_at send v.calls (send s).1) ≡ false)
          → (suc v.calls ≡ suc retries)
            ⊎ (is_transient retryable (reply_at send (suc v.calls) s) ≡ false)
      final_of (inl e) = inl (omega arith)
      final_of (inr e) = inr e

  -- The request loop ends after at most one call more than its retries, with the reply to its last
  -- call: all earlier replies were transient, and the last call is the last one allowed or its
  -- reply is not transient.
  pub request_loop-IsServed :
      (retries : ℕ) (s : S) → IsServed retries s (request_loop send retryable finish retries s)
  unfolding request_loop
  request_loop-IsServed zero s = record {
    calls = 0;
    within = omega arith;
    earlier = λ i h. absurd (omega arith);
    final = inl refl;
    result = refl;
  }
  request_loop-IsServed (suc retries) s = elim (Bool-cases (is_transient retryable (send s).0)) [
    | inl again ↦
        rw (again, request_loop)
          (later-IsServed retries s _ again (request_loop-IsServed retries (send s).1))
    | inr done ↦
        rw (done, request_loop)
          (record {
            calls = 0;
            within = omega arith;
            earlier = λ i h. absurd (omega arith);
            final = inr done;
            result = refl;
          })
  ]

  -- What each call of `send` keeps the loop keeps.
  pub request_loop-moves :
      {R : S → S → Type 0}
      → IsOrder R
      → ((s : S) → R s (send s).1)
      → (retries : ℕ) (s : S) → R s (request_loop send retryable finish retries s).1
  unfolding request_loop
  request_loop-moves o h zero s = h s
  request_loop-moves o h (suc retries) s = elim (Bool-cases (is_transient retryable (send s).0)) [
    | inl again ↦
        rw (again, request_loop)
          (o.trans s (send s).1 _ (h s) (request_loop-moves o h retries (send s).1))
    | inr done ↦ rw (done, request_loop) (h s)
  ]

  -- A size that each call of `send` raises by one at most, the loop raises by its calls at most.
  pub request_loop-size :
      (size : S → ℕ)
      → ((s : S) → size (send s).1 ≤ suc (size s))
      → (retries : ℕ) (s : S)
      → size (request_loop send retryable finish retries s).1 ≤ size s + suc retries
  unfolding request_loop
  request_loop-size size h zero s = omega (arith, h s)
  request_loop-size size h (suc retries) s = elim (Bool-cases (is_transient retryable (send s).0)) [
    | inl again ↦
        rw (again, request_loop) (omega (arith, h s, request_loop-size size h retries (send s).1))
    | inr done ↦ rw (done, request_loop) (omega (arith, h s))
  ]
