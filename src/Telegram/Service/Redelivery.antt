-- ===== src/Telegram/Service/Redelivery.antt =====
-- A message that Telegram delivers again.
use ecommerce_sales_agent.Prelude.{ℕ, ◌≡◌, refl, inl, inr, true, Bool-cases, ap, ◌∙◌}
use ecommerce_sales_agent.Exec.{Result, ok, err}
use ecommerce_sales_agent.Inventra.Errors.{Exc}
use ecommerce_sales_agent.Inventra.Env.{World}
use ecommerce_sales_agent.Agents.Turn.{AgentState}
use ecommerce_sales_agent.Agents.Purchase.Pending.{next_fault}
use ecommerce_sales_agent.Telegram.Schemas.{InboundMessage}
use ecommerce_sales_agent.Telegram.Service.{
  Deployment, Desk, Identity, failed, duplicate, ready, is_duplicate_update, resolve, identify,
  is_empty, deliver, turned, turn_of, identified, process_inbound_message,
}
use ecommerce_sales_agent.Telegram.Service.Laws.{resolve-again}

module _ (app : Deployment) where
  -- Nothing is sent to Inventra or to Telegram, and no row changes.
  pub record IsSkipped (d d' : Desk app) : Type 0 where
    pub sent : d'.world.sent ≡ d.world.sent
    pub messages : d'.world.messages ≡ d.world.messages
    pub bot_calls : d'.bot_calls ≡ d.bot_calls
    pub customers : d'.tables.customers ≡ d.tables.customers
    pub conversations : d'.tables.conversations ≡ d.tables.conversations

  -- A message whose update is stored in the conversation of its user is skipped.
  pub process-IsSkipped :
      (x : InboundMessage) (d : Desk app)
      → is_duplicate_update d.world.messages (resolve app x.user d.tables).0.id x.update_id ≡ true
      → IsSkipped d (process_inbound_message app x d)
  unfolding process_inbound_message identify
  process-IsSkipped x d h = elim (Bool-cases (next_fault d.world.faults)) [
    | inl fails ↦ rw fails (record {
      sent = refl;
      messages = refl;
      bot_calls = refl;
      customers = refl;
      conversations = refl;
    })
    | inr works ↦
        rw (works, h)
          (record {
            sent = refl;
            messages = refl;
            bot_calls = refl;
            customers = refl;
            conversations = refl;
          })
  ]

  deliver-tables :
      (x : InboundMessage) (state : AgentState) (d : Desk app)
      → (turned app x (ok state) d).tables ≡ d.tables
  unfolding deliver
  deliver-tables x state d = elim (Bool-cases (is_empty app state.draft_response)) [
    | inl empty ↦ rw empty refl
    | inr full ↦ rw full refl
  ]

  -- The turn and the delivery leave the tables.
  pub identified-tables :
      (x : InboundMessage) (i : Identity) (d : Desk app) → (identified app x i d).tables ≡ d.tables
  identified-tables x failed d = refl
  identified-tables x duplicate d = refl
  identified-tables x (ready c) d = after (turn_of app x c d.world).0 (turn_of app x c d.world).1
    where
      after :
          (r : Result Exc AgentState) (w : World app.env)
          → (turned app x r (record d { world = w })).tables ≡ d.tables
      after (err e) w = refl
      after (ok state) w = deliver-tables x state (record d { world = w })

  pub process-tables :
      (x : InboundMessage) (d : Desk app)
      → (process_inbound_message app x d).tables ≡ (identify app x d).1.tables
  unfolding process_inbound_message
  process-tables x d = identified-tables x (identify app x d).0 (identify app x d).1

  ready-resolved :
      (x : InboundMessage) (d : Desk app) (c : ℕ)
      → (identify app x d).0 ≡ ready c
      → ((resolve app x.user d.tables).0.id ≡ c)
        × ((identify app x d).1.tables ≡ (resolve app x.user d.tables).1)
  unfolding identify
  ready-resolved x d c h = elim (Bool-cases (next_fault d.world.faults)) [
    | inl fails ↦ absurd (cc (rw fails at h))
    | inr works ↦
        elim (Bool-cases
          (is_duplicate_update d.world.messages (resolve app x.user d.tables).0.id x.update_id)) [
            | inl again ↦ absurd (cc (rw (works, again) at h))
            | inr new ↦
                let e : ready (resolve app x.user d.tables).0.id ≡ ready c = rw (works, new) at h in
                rw (works, new) (cc e, refl)
          ]
  ]

  -- Once a message was taken and its turn was stored, the same message delivered again is skipped:
  -- nothing is sent to Inventra or to Telegram, and no row changes.
  pub process-process :
      (x : InboundMessage) (d : Desk app) (c : ℕ)
      → (identify app x d).0 ≡ ready c
      → is_duplicate_update (process_inbound_message app x d).world.messages c x.update_id ≡ true
      → IsSkipped
          (process_inbound_message app x d)
          (process_inbound_message app x (process_inbound_message app x d))
  process-process x d c h stored = process-IsSkipped x (process_inbound_message app x d) (
      cc (
        ap (λ v. is_duplicate_update (process_inbound_message app x d).world.messages v x.update_id)
            same,
        stored,
      ))
    where
      tables : (process_inbound_message app x d).tables ≡ (resolve app x.user d.tables).1
      tables = process-tables x d ∙ (ready-resolved x d c h).1

      same : (resolve app x.user (process_inbound_message app x d).tables).0.id ≡ c
      same = rw tables (
          ap (λ p. p.0.id) (resolve-again app x.user d.tables _ refl refl)
          ∙ (ready-resolved x d c h).0)
