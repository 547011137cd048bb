-- ===== src/Telegram/Service/Turns.antt =====
-- What handling messages sends and stores.
use ecommerce_sales_agent.Prelude.{
  ℕ, suc, ◌+◌, ◌≤◌, ◌≡◌, refl, ◌⊎◌, inl, inr, Bool, true, not, ◌&&◌, some, List, [], ◌∷◌,
  Bool-cases, arith, length, keep, ap, subst,
}
use ecommerce_sales_agent.Prelude.Int.{ℤ, leb_ℤ}
use ecommerce_sales_agent.Exec.{Result, ok, err, continue, pure}
use ecommerce_sales_agent.Json.{Json}
use ecommerce_sales_agent.Retry.Laws.{request_loop-moves, request_loop-size}
use ecommerce_sales_agent.Inventra.Errors.{Exc}
use ecommerce_sales_agent.Inventra.Env.{World, Request}
use ecommerce_sales_agent.Inventra.Client.Laws.{writes}
use ecommerce_sales_agent.Agents.State.{PendingPurchase}
use ecommerce_sales_agent.Agents.Turn.{AgentState, Reply}
use ecommerce_sales_agent.Agents.Purchase.Detect.{detect_confirmation}
use ecommerce_sales_agent.Agents.Purchase.Pending.{next_fault, load_pending_purchase}
use ecommerce_sales_agent.Agents.Purchase.Node.Writes.{order_of}
use ecommerce_sales_agent.Agents.Graph.Laws.{run_turn-writes}
use ecommerce_sales_agent.Agents.Graph.Messages.{IsUnique, run_turn-IsUnique}
use ecommerce_sales_agent.Telegram.Schemas.{InboundMessage}
use ecommerce_sales_agent.Telegram.Client.{
  BotCall, send_message_call, get_me_call, TelegramError, Bot, retryable_status_codes, bot_finish,
  bot_request, bot_request_json, send_message,
}
use ecommerce_sales_agent.Telegram.Service.{
  Deployment, Desk, Identity, failed, duplicate, ready, is_duplicate_update, resolve, identify,
  is_empty, deliver, turned, turn_of, identified, process_inbound_message,
}

-- A call about another chat, or about none.
abbrev pub is_elsewhere : ℤ → BotCall → Bool
is_elsewhere chat (send_message_call chat' text) = not (leb_ℤ chat chat' && leb_ℤ chat' chat)
is_elsewhere chat get_me_call = true

-- At most so many calls more, all of them to the chat.
pub record IsDelivery (chat : ℤ) (n : ℕ) (calls calls' : List BotCall) : Type 0 where
  pub few : length calls' ≤ length calls + n
  pub same_elsewhere : keep (is_elsewhere chat) calls' ≡ keep (is_elsewhere chat) calls

module _ (bot : Bot) where
  same_after :
      (r : Result TelegramError Json) (calls : List BotCall)
      → (continue r (λ j. pure {E = TelegramError} (tt {0})) calls).1 ≡ calls
  same_after (ok j) calls = refl
  same_after (err e) calls = refl

  pub send_message-IsDelivery :
      (chat : ℤ) (text : Reply) (calls : List BotCall)
      → IsDelivery chat (suc bot.max_retries) calls (send_message bot chat text calls).1
  unfolding send_message bot_request_json
  send_message-IsDelivery chat text calls = rw (same_after _ _) (record {
    few =
        request_loop-size (bot_request bot (send_message_call chat text)) retryable_status_codes
          bot_finish length (λ s. omega arith) bot.max_retries calls;
    same_elsewhere =
        request_loop-moves (bot_request bot (send_message_call chat text)) retryable_status_codes
          bot_finish {R = λ s s'. keep (is_elsewhere chat) s' ≡ keep (is_elsewhere chat) s}
          (record { same = λ s. refl; trans = λ s t u f g. cc (f, g) }) (λ s. ground arith)
          bot.max_retries calls;
  })

module _ (app : Deployment) where
  -- The first phase sends nothing and stores no message.
  record IsSilent (d d' : Desk app) : Type 0 where
    sent : d'.world.sent ≡ d.world.sent
    messages : d'.world.messages ≡ d.world.messages
    bot_calls : d'.bot_calls ≡ d.bot_calls

  identify-IsSilent : (x : InboundMessage) (d : Desk app) → IsSilent d (identify app x d).1
  unfolding identify
  identify-IsSilent x d = elim (Bool-cases (next_fault d.world.faults)) [
    | inl fails ↦ rw fails (record { sent = refl; messages = refl; bot_calls = refl })
    | inr works ↦
        elim (Bool-cases
          (is_duplicate_update d.world.messages (resolve app x.user d.tables).0.id x.update_id)) [
            | inl again ↦
                rw (works, again) (record { sent = refl; messages = refl; bot_calls = refl })
            | inr new ↦ rw (works, new) (record { sent = refl; messages = refl; bot_calls = refl })
          ]
  ]

  turned-world :
      (x : InboundMessage) (r : Result Exc AgentState) (d : Desk app)
      → (turned app x r d).world ≡ d.world
  unfolding deliver
  turned-world x (err e) d = refl
  turned-world x (ok state) d = elim (Bool-cases (is_empty app state.draft_response)) [
    | inl empty ↦ rw empty refl
    | inr full ↦ rw full refl
  ]

  IsDelivery-same : (chat : ℤ) (n : ℕ) (calls : List BotCall) → IsDelivery chat n calls calls
  IsDelivery-same chat n calls = record { few = omega arith; same_elsewhere = refl }

  turned-IsDelivery :
      (x : InboundMessage) (r : Result Exc AgentState) (d : Desk app)
      → IsDelivery x.chat_id (suc app.bot.max_retries) d.bot_calls (turned app x r d).bot_calls
  unfolding deliver
  turned-IsDelivery x (err e) d = IsDelivery-same _ _ _
  turned-IsDelivery x (ok state) d = elim (Bool-cases (is_empty app state.draft_response)) [
    | inl empty ↦ rw empty (IsDelivery-same _ _ _)
    | inr full ↦
        rw full (send_message-IsDelivery app.bot x.chat_id state.draft_response d.bot_calls)
  ]

  identified-IsDelivery :
      (x : InboundMessage) (i : Identity) (d : Desk app)
      → IsDelivery x.chat_id (suc app.bot.max_retries) d.bot_calls (identified app x i d).bot_calls
  identified-IsDelivery x failed d = IsDelivery-same _ _ _
  identified-IsDelivery x duplicate d = IsDelivery-same _ _ _
  identified-IsDelivery x (ready c) d =
      turned-IsDelivery x (turn_of app x c d.world).0
        (record d { world = (turn_of app x c d.world).1 })

  -- Handling a message makes at most one call of the Bot API more than the client's retries, and
  -- all of them are to the chat that the message came from.
  pub process-IsDelivery :
      (x : InboundMessage) (d : Desk app)
      → IsDelivery x.chat_id
          (suc app.bot.max_retries)
          d.bot_calls
          (process_inbound_message app x d).bot_calls
  unfolding process_inbound_message
  process-IsDelivery x d =
      subst
        (λ calls.
          IsDelivery x.chat_id (suc app.bot.max_retries) calls
            (identified app x (identify app x d).0 (identify app x d).1).bot_calls)
        (identify-IsSilent x d).bot_calls
        (identified-IsDelivery x (identify app x d).0 (identify app x d).1)

  -- What the turn of a message that is taken may write.
  abbrev pub IsOrderOf : InboundMessage → ℕ → List Request → World app.env → World app.env → Type 0
  IsOrderOf x c sent w w' =
      (detect_confirmation x.text ≡ true)
      × ((p : PendingPurchase) × ((load_pending_purchase app.env true (some (app.show_uuid c)) w).0
            ≡ ok (some p))
          × (writes w'.sent ≡ order_of app.env app.cached true p ∷ writes sent))

  turn-writes :
      (x : InboundMessage) (c : ℕ) (w : World app.env)
      → (writes (turn_of app x c w).1.sent ≡ writes w.sent)
        ⊎ IsOrderOf x c w.sent w (turn_of app x c w).1
      → (writes (turn_of app x c w).1.sent ≡ writes w.sent)
        ⊎ ((c' : ℕ) × (ready c ≡ ready c') × IsOrderOf x c' w.sent w (turn_of app x c w).1)
  turn-writes x c w (inl silent) = inl silent
  turn-writes x c w (inr order) = inr (c, refl, order)

  identified-writes :
      (x : InboundMessage) (i : Identity) (d : Desk app) (sent : List Request)
      → d.world.sent ≡ sent
      → (writes (identified app x i d).world.sent ≡ writes sent)
        ⊎ ((c : ℕ) × (i ≡ ready c) × IsOrderOf x c sent d.world (identified app x i d).world)
  identified-writes x failed d sent e = inl (ap writes e)
  identified-writes x duplicate d sent e = inl (ap writes e)
  identified-writes x (ready c) d sent e =
      rw
        (
          ← e,
          turned-world x (turn_of app x c d.world).0
              (record d { world = (turn_of app x c d.world).1 }),
        )
        (turn-writes x c d.world (
          run_turn-writes app.env app.cached true app.primary app.fallback x.text
            (some (app.show_uuid c)) (some x.update_id) d.world))

  -- Handling a message sends no write to Inventra, or the message is taken for a conversation of
  -- its user, its text confirms an order, a pending purchase of that conversation is stored, and
  -- exactly one write is sent, the one of that pending purchase.
  pub process-writes :
      (x : InboundMessage) (d : Desk app)
      → (writes (process_inbound_message app x d).world.sent ≡ writes d.world.sent)
        ⊎ ((c : ℕ) × ((identify app x d).0 ≡ ready c)
            × IsOrderOf x c d.world.sent
                (identify app x d).1.world
                (process_inbound_message app x d).world)
  unfolding process_inbound_message
  process-writes x d =
      identified-writes x (identify app x d).0 (identify app x d).1 d.world.sent
        (identify-IsSilent x d).sent

  identified-IsUnique :
      (x : InboundMessage) (i : Identity) (d : Desk app)
      → IsUnique d.world.messages
      → IsUnique (identified app x i d).world.messages
  identified-IsUnique x failed d h = h
  identified-IsUnique x duplicate d h = h
  identified-IsUnique x (ready c) d h =
      rw
        (turned-world x (turn_of app x c d.world).0
          (record d { world = (turn_of app x c d.world).1 }))
        (run_turn-IsUnique app.env app.cached true app.primary app.fallback x.text
          (some (app.show_uuid c)) (some x.update_id) d.world h)

  process-IsUnique :
      (x : InboundMessage) (d : Desk app)
      → IsUnique d.world.messages
      → IsUnique (process_inbound_message app x d).world.messages
  unfolding process_inbound_message
  process-IsUnique x d h =
      identified-IsUnique x (identify app x d).0 (identify app x d).1
        (rw (identify-IsSilent x d).messages h)

  -- Messages handled one after another.
  abbrev pub process_all : List InboundMessage → Desk app → Desk app
  process_all [] d = d
  process_all (x ∷ xs) d = process_all xs (process_inbound_message app x d)

  -- Whatever messages are handled, and however often one is delivered, no update id is stored twice
  -- in a conversation.
  pub process_all-IsUnique :
      (xs : List InboundMessage) (d : Desk app)
      → IsUnique d.world.messages
      → IsUnique (process_all xs d).world.messages
  process_all-IsUnique [] d h = h
  process_all-IsUnique (x ∷ xs) d h = process_all-IsUnique xs _ (process-IsUnique x d h)
