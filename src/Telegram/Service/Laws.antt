-- ===== src/Telegram/Service/Laws.antt =====
-- Resolving a message twice, and what handling a message leaves of the tables.
use ecommerce_sales_agent.Prelude.{
  ℕ, ◌≡◌, refl, inl, inr, Option, none, some, List, [], ◌∷◌, find, ==_refl, Bool-cases, ◌∙◌, ap,
}
use ecommerce_sales_agent.Telegram.Schemas.{TelegramUser}
use ecommerce_sales_agent.Telegram.Service.{
  Customer, Conversation, Tables, is_user, refreshed, refresh, new_customer, is_open_of,
  customer_found, resolve_customer, conversation_found, resolve_conversation, Deployment, resolve,
}

find-refresh :
    (user : TelegramUser) (cs : List Customer)
    → (c : Customer) → find (is_user user.id) cs ≡ some c
    → find (is_user user.id) (refresh user cs) ≡ some (refreshed user c)
find-refresh user [] c h = absurd (cc h)
find-refresh user (d ∷ cs) c h = elim (Bool-cases (is_user user.id d)) [
  | inl found ↦
      let e : some d ≡ some c = rw found at h in
      rw (found, found) (ap (λ o. elim o [ none ↦ none | some x ↦ some (refreshed user x) ]) e)
  | inr other ↦ rw (other, other) (find-refresh user cs c (rw other at h))
]

refresh-refresh :
    (user : TelegramUser) (cs : List Customer) → refresh user (refresh user cs) ≡ refresh user cs
refresh-refresh user [] = refl
refresh-refresh user (d ∷ cs) = elim (Bool-cases (is_user user.id d)) [
  | inl found ↦ rw (found, found) refl
  | inr other ↦ rw (other, other, refresh-refresh user cs) refl
]

module _ (new_uuid : ℕ → ℕ) where
  -- A user whose row has the profile already.
  fresh_already :
      (user : TelegramUser) (t : Tables) (c : Customer)
      → find (is_user user.id) t.customers ≡ some c
      → refresh user t.customers ≡ t.customers
      → resolve_customer new_uuid user t ≡ (refreshed user c, t)
  unfolding resolve_customer
  fresh_already user t c h e = rw h (ap (λ cs. (refreshed user c, record t { customers = cs })) e)

  customer_again :
      (user : TelegramUser) (t t' : Tables) (o : Option Customer)
      → find (is_user user.id) t.customers ≡ o
      → t'.customers ≡ (customer_found new_uuid user t o).1.customers
      → resolve_customer new_uuid user t' ≡ ((customer_found new_uuid user t o).0, t')
  customer_again user t t' none h e =
      fresh_already user t' (new_customer (new_uuid t.uuids) user) (rw (e, ==_refl user.id) refl)
        (rw (e, ==_refl user.id) refl)
  customer_again user t t' (some c) h e =
      fresh_already user t' (refreshed user c) (rw e (find-refresh user t.customers c h))
        (rw e (refresh-refresh user t.customers))

  conversation_again :
      (customer_id : ℕ) (t t' : Tables) (o : Option Conversation)
      → find (is_open_of customer_id) t.conversations ≡ o
      → t'.conversations ≡ (conversation_found new_uuid customer_id t o).1.conversations
      → resolve_conversation new_uuid customer_id t'
        ≡ ((conversation_found new_uuid customer_id t o).0, t')
  unfolding resolve_conversation
  conversation_again customer_id t t' none h e = rw (e, ==_refl customer_id) refl
  conversation_again customer_id t t' (some c) h e = rw (e, h) refl

  resolve_customer-again :
      (user : TelegramUser) (t t' : Tables)
      → t'.customers ≡ (resolve_customer new_uuid user t).1.customers
      → resolve_customer new_uuid user t' ≡ ((resolve_customer new_uuid user t).0, t')
  unfolding resolve_customer
  resolve_customer-again user t t' e = customer_again user t t' _ refl e

  resolve_conversation-again :
      (customer_id : ℕ) (t t' : Tables)
      → t'.conversations ≡ (resolve_conversation new_uuid customer_id t).1.conversations
      → resolve_conversation new_uuid customer_id t'
        ≡ ((resolve_conversation new_uuid customer_id t).0, t')
  unfolding resolve_conversation
  resolve_conversation-again customer_id t t' e = conversation_again customer_id t t' _ refl e

  -- Finding or creating a conversation leaves the customers.
  conversation-customers :
      (customer_id : ℕ) (t : Tables)
      → (resolve_conversation new_uuid customer_id t).1.customers ≡ t.customers
  unfolding resolve_conversation
  conversation-customers customer_id t = from (find (is_open_of customer_id) t.conversations)
    where
      from :
          (o : Option Conversation)
          → (conversation_found new_uuid customer_id t o).1.customers ≡ t.customers
      from none = refl
      from (some c) = refl

module _ (app : Deployment) where
  -- Resolving the same user again finds the same conversation and changes no row.
  pub resolve-again :
      (user : TelegramUser) (t t' : Tables)
      → t'.customers ≡ (resolve app user t).1.customers
      → t'.conversations ≡ (resolve app user t).1.conversations
      → resolve app user t' ≡ ((resolve app user t).0, t')
  resolve-again user t t' cs vs =
      rw
        (resolve_customer-again app.new_uuid user t t'
          (cs ∙ conversation-customers app.new_uuid _ _))
        (resolve_conversation-again app.new_uuid (resolve_customer app.new_uuid user t).0.id
          (resolve_customer app.new_uuid user t).1 t' vs)
