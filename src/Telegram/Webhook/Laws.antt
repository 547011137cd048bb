-- ===== src/Telegram/Webhook/Laws.antt =====
-- What the endpoint lets through.
use ecommerce_sales_agent.Prelude.{
  ap, ◌≡◌, refl, ◌⊎◌, inl, inr, Bool, true, false, Option, none, some, not, ◌||◌, is_nil,
  Bool-cases, sym, arith, subst, [], ◌∷◌,
}
use ecommerce_sales_agent.Prelude.Int.{ℤ}
use ecommerce_sales_agent.Text.{Text, text_eq, text_eq→eq}
use ecommerce_sales_agent.Json.{Json}
use ecommerce_sales_agent.Telegram.Schemas.{
  TelegramUser, TelegramMessage, TelegramUpdate, InboundMessage, Extracted, skipped, taken,
  date_error, is_private, is_blank, inbound_of, has_date_error, from_sender, of_message,
  extract_inbound, parse_update,
}
use ecommerce_sales_agent.Telegram.Webhook.{
  WebhookReply, ack, Endpoint, WebhookRequest, or_empty, client_error, compared,
  verify_webhook_secret, scheduled, updated, accepted, verified, telegram_webhook,
}

module _ (representable : ℤ → Bool) where
  -- The update holds a message of a user in a private chat whose text is not blank, and the inbound
  -- message is that one, its text stripped and its date one that a datetime can hold.
  pub record IsInbound (update : TelegramUpdate) (x : InboundMessage) : Type 0 where
    pub message : TelegramMessage
    pub user : TelegramUser
    pub text : Text
    pub has_message : update.message ≡ some message
    pub has_user : message.from_user ≡ some user
    pub has_text : message.text ≡ some text
    pub chat_private : is_private message.chat.chat_type ≡ true
    pub not_blank : is_nil x.text ≡ false
    pub dated : has_date_error representable message.date ≡ false
    pub is : x ≡ inbound_of update.update_id message user

  from_sender-IsInbound :
      (update : TelegramUpdate) (message : TelegramMessage) (user : TelegramUser)
      (x : InboundMessage)
      → update.message ≡ some message
      → message.from_user ≡ some user
      → from_sender representable update.update_id message (some user) ≡ taken x
      → IsInbound update x
  from_sender-IsInbound update message user x m u h =
      elim (Bool-cases (not (is_private message.chat.chat_type) || is_blank message.text)) [
        | inl skip ↦ absurd (cc (rw skip at h))
        | inr kept ↦ elim (Bool-cases (has_date_error representable message.date)) [
          | inl bad ↦ absurd (cc (rw (kept, bad) at h))
          | inr good ↦
              let e : taken (inbound_of update.update_id message user) ≡ taken x =
                rw (kept, good) at h in
              texts message.text refl kept good (cc e)
        ]
      ]
    where
      texts :
          (t : Option Text)
          → message.text ≡ t
          → (not (is_private message.chat.chat_type) || is_blank message.text) ≡ false
          → has_date_error representable message.date ≡ false
          → inbound_of update.update_id message user ≡ x
          → IsInbound update x
      texts none t kept good e = absurd (ground (arith, rw t at kept))
      texts (some text) t kept good e = record {
        message = message;
        user = user;
        text = text;
        has_message = m;
        has_user = u;
        has_text = t;
        chat_private = ground arith;
        not_blank = rw (← e, t) (ground (arith, rw t at kept));
        dated = good;
        is = sym e;
      }

is_nil-eq-true : (t : Text) → is_nil t ≡ true → t ≡ []
is_nil-eq-true [] h = refl
is_nil-eq-true (c ∷ t) h = absurd (cc h)

module _ (app : Endpoint) where
  -- What is documented of `compare_digest`: where it does not raise, it says whether the two texts
  -- are the same.
  pub record IsEndpoint : Type 0 where
    pub compares : (s t : Text) (b : Bool) → app.compare_digest s t ≡ some b → b ≡ text_eq s t

  -- The client is there, the token is the configured secret where one is configured, and the body is
  -- an update with the inbound message.
  pub record IsAccepted (request : WebhookRequest) (x : InboundMessage) : Type 0 where
    pub client : app.has_client ≡ true
    pub secret : (app.webhook_secret ≡ []) ⊎ (request.secret_token ≡ some app.webhook_secret)
    pub payload : Json
    pub update : TelegramUpdate
    pub has_body : request.body ≡ some payload
    pub has_update : parse_update app.update_model payload ≡ some update
    pub inbound : IsInbound app.representable update x

  verified_secret :
      IsEndpoint
      → (provided : Option Text) → verify_webhook_secret app provided ≡ none
      → (app.webhook_secret ≡ []) ⊎ (provided ≡ some app.webhook_secret)
  unfolding verify_webhook_secret
  verified_secret lib provided h = elim (Bool-cases (is_nil app.webhook_secret)) [
    | inl none_set ↦ inl (is_nil-eq-true app.webhook_secret none_set)
    | inr set ↦ inr (
        token provided set (
          text_eq→eq (or_empty provided) app.webhook_secret
            (sym (lib.compares _ _ true (answer _ refl (rw set at h))))))
  ]
    where
      token :
          (o : Option Text)
          → is_nil app.webhook_secret ≡ false
          → or_empty o ≡ app.webhook_secret
          → o ≡ some app.webhook_secret
      token none set e = absurd (cc (rw (← e) at set))
      token (some t) set e = ap some e

      answer :
          (o : Option Bool)
          → app.compare_digest (or_empty provided) app.webhook_secret ≡ o
          → compared app o ≡ none
          → app.compare_digest (or_empty provided) app.webhook_secret ≡ some true
      answer none e k = absurd (cc k)
      answer (some true) e k = e
      answer (some false) e k = absurd (cc k)

  accepted_update :
      (x : InboundMessage) (payload : Json) (o : Option TelegramUpdate)
      → parse_update app.update_model payload ≡ o
      → (updated app o).1 ≡ some x
      → (update : TelegramUpdate) × (parse_update app.update_model payload ≡ some update)
        × IsInbound app.representable update x
  unfolding extract_inbound
  accepted_update x payload none e h = absurd (cc h)
  accepted_update x payload (some update) e h = (update, e, sent update.message refl h)
    where
      of_extracted : (r : Extracted) → (scheduled app r).1 ≡ some x → r ≡ taken x
      of_extracted skipped k = absurd (cc k)
      of_extracted (taken y) k = cc k
      of_extracted date_error k = absurd (cc k)

      sender :
          (message : TelegramMessage) (u : Option TelegramUser)
          → update.message ≡ some message
          → message.from_user ≡ u
          → (scheduled app (from_sender app.representable update.update_id message u)).1 ≡ some x
          → IsInbound app.representable update x
      sender message none m u k = absurd (cc k)
      sender message (some user) m u k =
          from_sender-IsInbound app.representable update message user x m u (of_extracted _ k)

      sent :
          (o : Option TelegramMessage)
          → update.message ≡ o
          → (scheduled app (of_message app.representable update.update_id o)).1 ≡ some x
          → IsInbound app.representable update x
      sent none m k = absurd (cc k)
      sent (some message) m k = sender message message.from_user m refl k

  -- Where the endpoint creates a task, and given that `compare_digest` compares, the client is
  -- configured, the request carries the configured secret token where one is configured, and the body is an update with a private message that is not
  -- blank, whose stripped text the task is about.
  pub telegram_webhook-IsAccepted :
      IsEndpoint
      → (request : WebhookRequest) (x : InboundMessage) → (telegram_webhook app request).1 ≡ some x
      → IsAccepted request x
  unfolding telegram_webhook
  telegram_webhook-IsAccepted lib request x h =
      from (verify_webhook_secret app request.secret_token) refl request.body refl
        (Bool-cases app.has_client) h
    where
      body :
          (o : Option Json)
          → request.body ≡ o
          → app.has_client ≡ true
          → verify_webhook_secret app request.secret_token ≡ none
          → (accepted app o).1 ≡ some x
          → IsAccepted request x
      body none b c s k = absurd (cc k)
      body (some payload) b c s k =
          let (update, parsed, inbound) = accepted_update x payload _ refl k in
          record {
            client = c;
            secret = verified_secret lib request.secret_token s;
            payload = payload;
            update = update;
            has_body = b;
            has_update = parsed;
            inbound = inbound;
          }

      from :
          (o : Option WebhookReply)
          → verify_webhook_secret app request.secret_token ≡ o
          → (b : Option Json) → request.body ≡ b
          → (app.has_client ≡ true) ⊎ (app.has_client ≡ false)
          → (verified app (client_error app) o b).1 ≡ some x
          → IsAccepted request x
      from o s b e (inr no_client) k = absurd (cc (rw no_client at k))
      from none s b e (inl client) k = body b e client s (rw client at k)
      from (some reply) s b e (inl client) k = absurd (cc (rw client at k))

  -- The body is an update whose message has a date that no datetime holds.
  pub record IsUndatable (request : WebhookRequest) : Type 0 where
    pub payload : Json
    pub update : TelegramUpdate
    pub message : TelegramMessage
    pub has_body : request.body ≡ some payload
    pub has_update : parse_update app.update_model payload ≡ some update
    pub has_message : update.message ≡ some message
    pub undatable : has_date_error app.representable message.date ≡ true

  acknowledged :
      (request : WebhookRequest) (payload : Json) (o : Option TelegramUpdate)
      → request.body ≡ some payload
      → parse_update app.update_model payload ≡ o
      → ((updated app o).0 ≡ ack) ⊎ IsUndatable request
  unfolding extract_inbound
  acknowledged request payload none b e = inl refl
  acknowledged request payload (some update) b e = sent update.message refl
    where
      sender :
          (message : TelegramMessage) (u : Option TelegramUser)
          → update.message ≡ some message
          → ((scheduled app (from_sender app.representable update.update_id message u)).0 ≡ ack)
            ⊎ IsUndatable request
      sender message none m = inl refl
      sender message (some user) m =
          elim (Bool-cases (not (is_private message.chat.chat_type) || is_blank message.text)) [
            | inl skip ↦ inl (rw skip refl)
            | inr kept ↦ elim (Bool-cases (has_date_error app.representable message.date)) [
              | inr good ↦ inl (rw (kept, good) refl)
              | inl bad ↦ inr (record {
                payload = payload;
                update = update;
                message = message;
                has_body = b;
                has_update = e;
                has_message = m;
                undatable = bad;
              })
            ]
          ]

      sent :
          (o : Option TelegramMessage)
          → update.message ≡ o
          → ((scheduled app (of_message app.representable update.update_id o)).0 ≡ ack)
            ⊎ IsUndatable request
      sent none m = inl refl
      sent (some message) m = sender message message.from_user m

  -- A request that is verified is acknowledged, whatever its body is, but for an update whose
  -- message has a date that no datetime holds.
  pub telegram_webhook-ack :
      (request : WebhookRequest)
      → app.has_client ≡ true
      → verify_webhook_secret app request.secret_token ≡ none
      → ((telegram_webhook app request).0 ≡ ack) ⊎ IsUndatable request
  unfolding telegram_webhook
  telegram_webhook-ack request client secret =
      subst (λ r. (r.0 ≡ ack) ⊎ IsUndatable request)
        (sym (
          passed (client_error app) (verify_webhook_secret app request.secret_token) request.body
            (rw client refl) secret))
        (from request.body refl)
    where
      passed :
          (o p : Option WebhookReply) (b : Option Json)
          → o ≡ none
          → p ≡ none
          → verified app o p b ≡ accepted app b
      passed o p b e k = rw (e, k) refl

      from : (o : Option Json) → request.body ≡ o → ((accepted app o).0 ≡ ack) ⊎ IsUndatable request
      from none b = inl refl
      from (some payload) b = acknowledged request payload _ b refl
