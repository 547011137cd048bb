-- ===== src/Agents/Purchase/Pending.antt =====
-- purchase.py: the pending purchase that the messages of a conversation carry.
pub mod Laws
use ecommerce_sales_agent.Prelude.{
  ℕ, Bool, true, false, ◌&&◌, Option, none, some, List, [], ◌∷◌, ◌==◌, if◌then◌else◌, find,
}
use ecommerce_sales_agent.Text.{Text}
use ecommerce_sales_agent.Json.{Json}
use ecommerce_sales_agent.Exec.{Result, ok, Exec, pure, ◌>>=◌, ◌>>◌}
use ecommerce_sales_agent.Inventra.Env.{Env, World, Action, Role, customer, agent, Message}
use ecommerce_sales_agent.Agents.State.{PendingPurchase}

abbrev pub is_agent : Role → Bool
is_agent agent = true
is_agent customer = false

abbrev pub has_value : Option Json → Bool
has_value none = false
has_value (some j) = true

-- The `where` of both queries.
unfoldable pub is_marked : ℕ → Message → Bool
is_marked conversation m = m.conversation == conversation && is_agent m.role && has_value m.pending

-- `metadata.pop("pending_purchase", None)` on the newest row of the query
unfoldable pub unmark : ℕ → List Message → List Message
unfolding is_marked
unmark conversation [] = []
unmark conversation (m ∷ ms) =
    if is_marked conversation m
    then record m { pending = none } ∷ ms
    else m ∷ unmark conversation ms

abbrev pub next_fault : List Bool → Bool
next_fault [] = false
next_fault (b ∷ bs) = b

abbrev pub later_faults : List Bool → List Bool
later_faults [] = []
later_faults (b ∷ bs) = bs

module _ (env : Env) where
  -- A database session is opened, and fails or not.
  abbrev pub session_fails : Action env Bool
  session_fails w = (ok (next_fault w.faults), record w { faults = later_faults w.faults })

  -- `_to_uuid`; an empty text is no id.
  unfoldable pub to_uuid : Option Text → Option ℕ
  to_uuid none = none
  to_uuid (some []) = none
  to_uuid (some (c ∷ s)) = env.parse_uuid (c ∷ s)

  abbrev evidence : Option Message → Option Json
  evidence none = none
  evidence (some m) = m.pending

  abbrev validated : Option Json → Option PendingPurchase
  validated none = none
  validated (some j) = env.pending_model.validate j

  unfoldable pub newest_pending : ℕ → List Message → Option PendingPurchase
  newest_pending conversation ms = validated (evidence (find (is_marked conversation) ms))

  abbrev pub load_for : Option ℕ → Action env (Option PendingPurchase)
  load_for none = pure none
  load_for (some conversation) = do
    failed ← session_fails
    (λ w. (ok (if failed then none else newest_pending conversation w.messages), w))

  -- `database` says whether there is one.
  unfoldable pub load_pending_purchase : Bool → Option Text → Action env (Option PendingPurchase)
  load_pending_purchase false conversation_id = pure none
  load_pending_purchase true conversation_id = load_for (to_uuid conversation_id)

  abbrev pub clear_for : Option ℕ → Action env (Unit {0})
  clear_for none = pure tt
  clear_for (some conversation) = do
    failed ← session_fails
    (λ w. (ok tt, (if failed then w else record w { messages = unmark conversation w.messages })))

  unfoldable pub clear_pending_purchase : Bool → Option Text → Action env (Unit {0})
  clear_pending_purchase false conversation_id = pure tt
  clear_pending_purchase true conversation_id = clear_for (to_uuid conversation_id)
