-- ===== src/Telegram/Service/Rows.antt =====
-- The rows of customers and conversations that handling messages leaves.
use ecommerce_sales_agent.Prelude.{
  ℕ, ◌≤◌, ◌≡◌, refl, inl, inr, Bool, Option, none, some, List, [], ◌∷◌, find, keep, length,
  Bool-cases, arith, ◌==◌,
}
use ecommerce_sales_agent.Agents.Purchase.Pending.{next_fault}
use ecommerce_sales_agent.Telegram.Schemas.{TelegramUser, InboundMessage}
use ecommerce_sales_agent.Telegram.Service.{
  Customer, Conversation, Tables, is_user, refresh, is_open_of, customer_found, resolve_customer,
  conversation_found, resolve_conversation, Deployment, Desk, is_duplicate_update, resolve,
  identify, process_inbound_message,
}
use ecommerce_sales_agent.Telegram.Service.Redelivery.{process-tables}
use ecommerce_sales_agent.Telegram.Service.Turns.{process_all}

-- A user has one row, and a customer one open conversation, at most.
pub record IsTidy (t : Tables) : Type 0 where
  pub one_row : (user_id : ℕ) → length (keep (is_user user_id) t.customers) ≤ 1
  pub one_open : (customer_id : ℕ) → length (keep (is_open_of customer_id) t.conversations) ≤ 1

find-eq-none : {A : Type 0} (p : A → Bool) (xs : List A) → find p xs ≡ none → length (keep p xs) ≡ 0
find-eq-none p [] h = refl
find-eq-none p (x ∷ xs) h = elim (Bool-cases (p x)) [
  | inl found ↦ absurd (cc (rw found at h))
  | inr other ↦ rw other (find-eq-none p xs (rw other at h))
]

count-refresh :
    (user : TelegramUser) (cs : List Customer) (u : ℕ)
    → length (keep (is_user u) (refresh user cs)) ≡ length (keep (is_user u) cs)
count-refresh user [] u = refl
count-refresh user (c ∷ cs) u = elim (Bool-cases (is_user user.id c)) [
  | inl found ↦ rw found (elim (Bool-cases (is_user u c)) [ inl h ↦ rw h refl | inr h ↦ rw h refl ])
  | inr other ↦ rw other (ground (arith, count-refresh user cs u))
]

module _ (new_uuid : ℕ → ℕ) where
  one_row_after :
      (user : TelegramUser) (t : Tables) (o : Option Customer)
      → find (is_user user.id) t.customers ≡ o
      → IsTidy t
      → (u : ℕ) → length (keep (is_user u) (customer_found new_uuid user t o).1.customers) ≤ 1
  one_row_after user t none h tidy u = elim (Bool-cases (user.id == u)) [
    | inl same ↦
        let e : user.id ≡ u = ground (arith, same) in
        rw same (omega (arith, find-eq-none (is_user u) t.customers (rw (← e) h)))
    | inr other ↦ rw other (tidy.one_row u)
  ]
  one_row_after user t (some c) h tidy u = rw (count-refresh user t.customers u) (tidy.one_row u)

  conversations_after :
      (user : TelegramUser) (t : Tables) (o : Option Customer)
      → (customer_found new_uuid user t o).1.conversations ≡ t.conversations
  conversations_after user t none = refl
  conversations_after user t (some c) = refl

  resolve_customer-IsTidy :
      (user : TelegramUser) (t : Tables) → IsTidy t → IsTidy (resolve_customer new_uuid user t).1
  unfolding resolve_customer
  resolve_customer-IsTidy user t tidy = record {
    one_row = one_row_after user t _ refl tidy;
    one_open = λ c. rw (conversations_after user t _) (tidy.one_open c);
  }

  conversation_found-IsTidy :
      (customer_id : ℕ) (t : Tables) (o : Option Conversation)
      → find (is_open_of customer_id) t.conversations ≡ o
      → IsTidy t
      → IsTidy (conversation_found new_uuid customer_id t o).1
  conversation_found-IsTidy customer_id t (some c) h tidy = tidy
  conversation_found-IsTidy customer_id t none h tidy = record {
    one_row = tidy.one_row;
    one_open = λ c. elim (Bool-cases (customer_id == c)) [
      | inl same ↦
          let e : customer_id ≡ c = ground (arith, same) in
          rw same (omega (arith, find-eq-none (is_open_of c) t.conversations (rw (← e) h)))
      | inr other ↦ rw other (tidy.one_open c)
    ];
  }

  resolve_conversation-IsTidy :
      (customer_id : ℕ) (t : Tables)
      → IsTidy t
      → IsTidy (resolve_conversation new_uuid customer_id t).1
  unfolding resolve_conversation
  resolve_conversation-IsTidy customer_id t tidy =
      conversation_found-IsTidy customer_id t _ refl tidy

module _ (app : Deployment) where
  identify-IsTidy :
      (x : InboundMessage) (d : Desk app) → IsTidy d.tables → IsTidy (identify app x d).1.tables
  unfolding identify
  identify-IsTidy x d tidy = elim (Bool-cases (next_fault d.world.faults)) [
    | inl fails ↦ rw fails tidy
    | inr works ↦
        elim (Bool-cases
          (is_duplicate_update d.world.messages (resolve app x.user d.tables).0.id x.update_id)) [
            | inl again ↦
                rw (works, again) (record { one_row = tidy.one_row; one_open = tidy.one_open })
            | inr new ↦
                rw (works, new)
                  (resolve_conversation-IsTidy app.new_uuid _ _
                    (resolve_customer-IsTidy app.new_uuid x.user d.tables tidy))
          ]
  ]

  -- Whatever messages are handled, and whichever sessions fail, a user of Telegram keeps at most
  -- one customer row, and a customer at most one open conversation.
  pub process_all-IsTidy :
      (xs : List InboundMessage) (d : Desk app)
      → IsTidy d.tables
      → IsTidy (process_all app xs d).tables
  process_all-IsTidy [] d tidy = tidy
  process_all-IsTidy (x ∷ xs) d tidy =
      process_all-IsTidy xs (process_inbound_message app x d)
        (rw (process-tables app x d) (identify-IsTidy x d tidy))
