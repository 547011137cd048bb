-- ===== src/Agents/Purchase/Pending/Laws.antt =====
-- What clearing and loading a pending purchase do, to the requests and to the messages.
use ecommerce_sales_agent.Prelude.{
  ℕ, suc, ◌-◌, ◌≡◌, refl, ◌≢◌, Bool, true, false, Option, none, some, List, [], ◌∷◌, arith,
  if◌then◌else◌, inl, inr, Bool-cases,
}
use ecommerce_sales_agent.Text.{Text}
use ecommerce_sales_agent.Exec.{pure, raise, ◌>>=◌}
use ecommerce_sales_agent.Exec.Rules.{IsOrder, Moves, Moves-pure, Moves-raise, Moves-bind}
use ecommerce_sales_agent.Inventra.Errors.{Exc}
use ecommerce_sales_agent.Inventra.Env.{Env, World, Action, Message}
use ecommerce_sales_agent.Inventra.Client.Laws.{Quiet, writes}
use ecommerce_sales_agent.Agents.Purchase.Pending.{
  is_marked, unmark, to_uuid, newest_pending, load_for, load_pending_purchase, clear_for,
  clear_pending_purchase,
}

-- The writes are the same.
abbrev pub IsCalm : {env : Env} → World env → World env → Type 0
IsCalm w w' = writes w'.sent ≡ writes w.sent

pub IsCalm-order : {env : Env} → IsOrder (IsCalm {env = env})
IsCalm-order = record { same = λ w. refl; trans = λ w v u a b. cc (a, b) }

module _ (env : Env) where
  abbrev pub Calm : {A : Type 0} → Action env A → Type 0
  Calm m = Moves IsCalm m

  pub calm : {A : Type 0} (m : Action env A) → Quiet env m → Calm m
  calm m q = record { at = λ w. (q.at w).writes }

  pub Calm-bind :
      {A B : Type 0} (m : Action env A) (f : A → Action env B)
      → Calm m
      → ((a : A) → Calm (f a))
      → Calm (m >>= f)
  Calm-bind m f hm hf = Moves-bind IsCalm-order m f hm hf

  pub Calm-pure : {A : Type 0} (a : A) → Calm (pure a)
  Calm-pure a = Moves-pure IsCalm-order a

  pub Calm-raise : {A : Type 0} (e : Exc) → Calm {A = A} (raise e)
  Calm-raise e = Moves-raise IsCalm-order e

  pub Calm-if :
      {A : Type 0} (b : Bool) (m n : Action env A) → Calm m → Calm n → Calm (if b then m else n)
  Calm-if true m n hm hn = hm
  Calm-if false m n hm hn = hn

  pub load-Calm :
      (database : Bool) (id : Option Text) → Calm (load_pending_purchase env database id)
  unfolding load_pending_purchase
  load-Calm false id = Calm-pure none
  load-Calm true id = loaded (to_uuid env id)
    where
      loaded : (o : Option ℕ) → Calm (load_for env o)
      loaded none = Calm-pure none
      loaded (some c) = record { at = λ w. refl }

  pub clear-Calm :
      (database : Bool) (id : Option Text) → Calm (clear_pending_purchase env database id)
  unfolding clear_pending_purchase
  clear-Calm false id = Calm-pure tt
  clear-Calm true id = cleared (to_uuid env id)
    where
      cleared : (o : Option ℕ) → Calm (clear_for env o)
      cleared none = Calm-pure tt
      cleared (some c) = record { at = λ w. ground arith }

-- How many messages of a conversation carry a pending purchase.
abbrev pub marks : ℕ → List Message → ℕ
marks conversation [] = 0
marks conversation (m ∷ ms) =
    if is_marked conversation m then suc (marks conversation ms) else marks conversation ms

pub marks-unmark : (c : ℕ) (ms : List Message) → marks c (unmark c ms) ≡ marks c ms - 1
unfolding unmark is_marked
marks-unmark c [] = refl
marks-unmark c (m ∷ ms) = ground (arith, marks-unmark c ms)

-- Taking the newest pending purchase off a message of one conversation leaves the number of
-- pending purchases of every other conversation.
pub marks-unmark_other : (c d : ℕ) (ms : List Message) → c ≢ d → marks d (unmark c ms) ≡ marks d ms
unfolding unmark is_marked
marks-unmark_other c d [] h = refl
marks-unmark_other c d (m ∷ ms) h = ground (arith, marks-unmark_other c d ms)

pub newest_pending-eq-none :
    (env : Env) (c : ℕ) (ms : List Message) → marks c ms ≡ 0 → newest_pending env c ms ≡ none
unfolding newest_pending
newest_pending-eq-none env c [] h = refl
newest_pending-eq-none env c (m ∷ ms) h = elim (Bool-cases (is_marked c m)) [
  | inl marked ↦ absurd (ground arith)
  | inr plain ↦ rw plain (newest_pending-eq-none env c ms (ground arith))
]
