-- ===== src/Agents/Order/Messages.antt =====
-- The pending purchase of a conversation, as its messages hold it.
use ecommerce_sales_agent.Prelude.{
  ℕ, suc, ◌≤◌, ◌≡◌, refl, ◌≢◌, ◌⊎◌, inl, inr, true, false, Option, none, some, List, [], ◌∷◌, ◌==◌,
  Bool-cases, arith, ◌∙◌,
}
use ecommerce_sales_agent.Inventra.Env.{Env, Message}
use ecommerce_sales_agent.Agents.State.{PendingPurchase}
use ecommerce_sales_agent.Agents.Turn.{AgentState}
use ecommerce_sales_agent.Agents.Purchase.Pending.{is_marked, unmark, newest_pending}
use ecommerce_sales_agent.Agents.Purchase.Pending.Laws.{marks, marks-unmark, marks-unmark_other}
use ecommerce_sales_agent.Agents.Persist.{customer_row, agent_row}

marked_elsewhere : (c d : ℕ) (m : Message) → c ≢ d → is_marked c m ≡ true → is_marked d m ≡ false
unfolding is_marked
marked_elsewhere c d m h marked = ground (arith, h, marked)

cleared_unmarked : (d : ℕ) (m : Message) → is_marked d (record m { pending = none }) ≡ false
unfolding is_marked
cleared_unmarked d m = ground arith

newest_pending-unmark_other :
    (env : Env) (c d : ℕ) (ms : List Message)
    → c ≢ d
    → newest_pending env d (unmark c ms) ≡ newest_pending env d ms
unfolding newest_pending unmark
newest_pending-unmark_other env c d [] h = refl
newest_pending-unmark_other env c d (m ∷ ms) h = elim (Bool-cases (is_marked c m)) [
  | inl marked ↦ rw (marked, cleared_unmarked d m, marked_elsewhere c d m h marked) refl
  | inr plain ↦ elim (Bool-cases (is_marked d m)) [
    | inl found ↦ rw (plain, found) refl
    | inr missed ↦ rw (plain, missed) (newest_pending-unmark_other env c d ms h)
  ]
]

module _ (env : Env) (c : ℕ) where
  -- The conversation has no pending purchase any more, or the one it had and at most that one.
  abbrev pub IsNear : Option PendingPurchase → List Message → Type 0
  IsNear o ms = (marks c ms ≡ 0) ⊎ ((newest_pending env c ms ≡ o) × (marks c ms ≤ 1))

  pub unmark-IsNear :
      (o : Option PendingPurchase) (d : ℕ) (ms : List Message)
      → IsNear o ms
      → IsNear o (unmark d ms)
  unmark-IsNear o d ms h = elim (Bool-cases (d == c)) [
    | inl same ↦ let e : d ≡ c = ground (arith, same) in rw e (inl (none_left h))
    | inr other ↦ let e : d ≢ c = ground (arith, other) in near e h
  ]
    where
      none_left : IsNear o ms → marks c (unmark c ms) ≡ 0
      none_left (inl gone) = omega (arith, marks-unmark c ms)
      none_left (inr (same, few)) = omega (arith, marks-unmark c ms)

      near : d ≢ c → IsNear o ms → IsNear o (unmark d ms)
      near e (inl gone) = inl (marks-unmark_other d c ms e ∙ gone)
      near e (inr (same, few)) =
          inr
            (newest_pending-unmark_other env d c ms e ∙ same, rw (marks-unmark_other d c ms e) few)

  agent-unmarked :
      (state : AgentState)
      → state.pending_purchase ≡ none
      → is_marked c (agent_row env c state) ≡ false
  unfolding is_marked
  agent-unmarked state h = rw h (ground arith)

  agent-marked :
      (state : AgentState) (q : PendingPurchase)
      → state.pending_purchase ≡ some q
      → is_marked c (agent_row env c state) ≡ true
  unfolding is_marked
  agent-marked state q h = rw h (ground arith)

  customer-unmarked : (state : AgentState) → is_marked c (customer_row env c state) ≡ false
  unfolding is_marked
  customer-unmarked state = ground arith

  pub marks-rows :
      (state : AgentState) (ms : List Message)
      → state.pending_purchase ≡ none
      → marks c (agent_row env c state ∷ customer_row env c state ∷ ms) ≡ marks c ms
  marks-rows state ms h = rw (agent-unmarked state h, customer-unmarked state) refl

  pub marks-asked :
      (state : AgentState) (q : PendingPurchase) (ms : List Message)
      → state.pending_purchase ≡ some q
      → marks c (agent_row env c state ∷ customer_row env c state ∷ ms) ≡ suc (marks c ms)
  marks-asked state q ms h = rw (agent-marked state q h, customer-unmarked state) refl

  pub newest_pending-rows :
      (state : AgentState) (ms : List Message)
      → state.pending_purchase ≡ none
      → newest_pending env c (agent_row env c state ∷ customer_row env c state ∷ ms)
        ≡ newest_pending env c ms
  unfolding newest_pending
  newest_pending-rows state ms h = rw (agent-unmarked state h, customer-unmarked state) refl

  pub newest_pending-asked :
      (state : AgentState) (q : PendingPurchase) (ms : List Message)
      → state.pending_purchase ≡ some q
      → newest_pending env c (agent_row env c state ∷ customer_row env c state ∷ ms)
        ≡ env.pending_model.validate (env.pending_model.dump q)
  unfolding newest_pending
  newest_pending-asked state q ms h = rw (agent-marked state q h, h) refl
