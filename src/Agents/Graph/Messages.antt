-- ===== src/Agents/Graph/Messages.antt =====
-- What a turn does to the stored messages.
use ecommerce_sales_agent.Prelude.{
  ℕ, suc, ◌≤◌, ◌≡◌, refl, inl, inr, Bool, true, false, Option, none, some, List, [], ◌∷◌,
  if◌then◌else◌, arith, any, ◌&&◌, ◌==◌, Bool-cases, subst, sym,
}
use ecommerce_sales_agent.Text.{Text}
use ecommerce_sales_agent.Exec.{Result, ok, err}
use ecommerce_sales_agent.Inventra.Env.{Env, World, Message}
use ecommerce_sales_agent.Agents.Turn.{AgentState}
use ecommerce_sales_agent.Agents.Gather.Node.Laws.{gather_context-Quiet}
use ecommerce_sales_agent.Agents.Purchase.Pending.{is_marked, unmark, to_uuid}
use ecommerce_sales_agent.Agents.Purchase.Node.Messages.{
  IsKept, Keeps, Keeps-same, Keeps-Quiet, Keeps-bind, purchase-Keeps,
}
use ecommerce_sales_agent.Agents.Compose.{
  Provider, Prompt, build_prompt, with_prompt, compose_reply, settled, generate, GenerationResponse,
  GatewayError, all_failed, passed,
}
use ecommerce_sales_agent.Agents.Persist.{
  is_update, is_taken, customer_row, agent_row, persist_turn,
}
use ecommerce_sales_agent.Agents.Persist.Laws.{IsRecorded, persist_turn-IsRecorded}
use ecommerce_sales_agent.Agents.Graph.{run_nodes, run_turn}

module _ (env : Env) (P : List Message → Type 0)
    (unmarked : (c : ℕ) (ms : List Message) → P ms → P (unmark c ms))
    (stored : (c : ℕ) (state : AgentState) (ms : List Message)
      → is_taken c state.telegram_update_id ms ≡ false
      → P ms
      → P (agent_row env c state ∷ customer_row env c state ∷ ms)) where
  compose-Keeps :
      (primary : Provider) (fallback : Option Provider) (state : AgentState)
      → Keeps env P (compose_reply env primary fallback state)
  unfolding compose_reply
  compose-Keeps primary fallback state = Keeps-same env P _ λ w. same w (build_prompt state)
    where
      settled_same :
          (w : World env) (r : Result GatewayError GenerationResponse)
          → (settled env state r w).1.messages ≡ w.messages
      settled_same w (ok r) = refl
      settled_same w (err (all_failed codes')) = refl
      settled_same w (err (passed e)) = refl

      same :
          (w : World env) (o : Option Prompt)
          → (with_prompt env primary fallback state o w).1.messages ≡ w.messages
      same w none = refl
      same w (some prompt) = settled_same w (generate primary fallback prompt)

  recorded-IsKept :
      (c : ℕ) (state : AgentState) (ms ms' : List Message)
      → IsRecorded env c state ms ms'
      → P ms
      → P ms'
  recorded-IsKept c state ms ms' (IsRecorded.unchanged e) h = subst P (sym e) h
  recorded-IsKept c state ms ms' (IsRecorded.recorded free e) h =
      subst P (sym e) (stored c state ms free h)

  unknown-messages :
      (database : Bool) (state : AgentState) (w : World env)
      → to_uuid env state.conversation_id ≡ none
      → (persist_turn env database state w).1.messages ≡ w.messages
  unfolding persist_turn
  unknown-messages false state w h = refl
  unknown-messages true state w h = rw h refl

  persist-Keeps :
      (database : Bool) (state : AgentState) → Keeps env P (persist_turn env database state)
  persist-Keeps database state = record {
    at = λ w. from w (to_uuid env state.conversation_id) refl;
  }
    where
      from :
          (w : World env) (o : Option ℕ)
          → to_uuid env state.conversation_id ≡ o
          → IsKept P w (persist_turn env database state w).1
      from w none e = λ h. subst P (sym (unknown-messages database state w e)) h
      from w (some c) e = λ h.
          recorded-IsKept c state w.messages (persist_turn env database state w).1.messages
            (persist_turn-IsRecorded env database c state w e) h

  -- A property of the messages that taking a pending purchase off and storing a turn keep, a turn
  -- keeps.
  pub run_turn-Keeps :
      (cached database : Bool) (primary : Provider) (fallback : Option Provider) (message : Text)
      (id : Option Text) (update_id : Option ℕ)
      → Keeps env P (run_turn env cached database primary fallback message id update_id)
  unfolding run_turn run_nodes
  run_turn-Keeps cached database primary fallback message id update_id =
      Keeps-bind env P _ _ (Keeps-Quiet env P _ (gather_context-Quiet env cached _)) λ g.
        Keeps-bind env P _ _ (purchase-Keeps env P unmarked cached database g)
          λ s. Keeps-bind env P _ _ (compose-Keeps primary fallback s) λ c. persist-Keeps database c

-- How many messages of a conversation have an update id.
abbrev pub updates : ℕ → ℕ → List Message → ℕ
updates c u [] = 0
updates c u (m ∷ ms) = if is_update c u m then suc (updates c u ms) else updates c u ms

-- No update id stands twice in a conversation.
abbrev pub IsUnique : List Message → Type 0
IsUnique ms = (c u : ℕ) → updates c u ms ≤ 1

updates-unmark : (c u d : ℕ) (ms : List Message) → updates c u (unmark d ms) ≡ updates c u ms
unfolding unmark is_marked
updates-unmark c u d [] = refl
updates-unmark c u d (m ∷ ms) = elim (Bool-cases (is_marked d m)) [
  | inl marked ↦ rw marked refl
  | inr other ↦ rw (other, updates-unmark c u d ms) refl
]

updates-eq-zero :
    (c u : ℕ) (ms : List Message) → any (is_update c u) ms ≡ false → updates c u ms ≡ 0
updates-eq-zero c u [] h = refl
updates-eq-zero c u (m ∷ ms) h = elim (Bool-cases (is_update c u m)) [
  | inl same ↦ absurd (cc (rw same at h))
  | inr other ↦ rw other (updates-eq-zero c u ms (rw other at h))
]

module _ (env : Env) where
  updates-customer :
      (d c u : ℕ) (state : AgentState) (ms : List Message)
      → is_taken d state.telegram_update_id ms ≡ false
      → updates c u ms ≤ 1
      → updates c u (customer_row env d state ∷ ms) ≤ 1
  updates-customer d c u state ms free h = from state.telegram_update_id refl
    where
      taken :
          (v : ℕ)
          → state.telegram_update_id ≡ some v
          → any (is_update d v) ms ≡ false
          → updates c u (customer_row env d state ∷ ms) ≤ 1
      taken v e clear = elim (Bool-cases (d == c && v == u)) [
        | inr other ↦ rw (e, other) h
        | inl same ↦
            let d_c : d ≡ c = ground (arith, same) in
            let v_u : v ≡ u = ground (arith, same) in
            rw (e, same) (omega (arith, updates-eq-zero c u ms (rw (← d_c, ← v_u) clear)))
      ]

      from :
          (o : Option ℕ)
          → state.telegram_update_id ≡ o
          → updates c u (customer_row env d state ∷ ms) ≤ 1
      from none e = rw e (ground (arith, h))
      from (some v) e = taken v e (rw e at free)

  stored-IsUnique :
      (d : ℕ) (state : AgentState) (ms : List Message)
      → is_taken d state.telegram_update_id ms ≡ false
      → IsUnique ms
      → IsUnique (agent_row env d state ∷ customer_row env d state ∷ ms)
  stored-IsUnique d state ms free h c u =
      ground (arith, updates-customer d c u state ms free (h c u))

  -- If no update id stands twice in a conversation before a turn, none does after it.
  pub run_turn-IsUnique :
      (cached database : Bool) (primary : Provider) (fallback : Option Provider) (message : Text)
      (id : Option Text) (update_id : Option ℕ) (w : World env)
      → IsUnique w.messages
      → IsUnique (run_turn env cached database primary fallback message id update_id w).1.messages
  run_turn-IsUnique cached database primary fallback message id update_id w h =
      (run_turn-Keeps env IsUnique (λ d ms k c u. rw (updates-unmark c u d ms) (k c u))
          stored-IsUnique cached database primary fallback message id update_id).at
        w h
