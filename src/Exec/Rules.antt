-- ===== src/Exec/Rules.antt =====
-- What an action may do to the state, one rule for each way to build an action. `R` relates the
-- state before to the state after; it is reflexive and transitive.
use ecommerce_sales_agent.Prelude.{Bool, true, false, ◌≡◌, refl, subst, if◌then◌else◌}
use ecommerce_sales_agent.Exec.{
  Result, ok, err, Exec, pure, raise, continue, ◌>>=◌, recover, handle,
}

pub record IsOrder {ℓ} {S : Type ℓ} (R : S → S → Type ℓ) : Type ℓ where
  pub same : (s : S) → R s s
  pub trans : (s t u : S) → R s t → R t u → R s u

-- `m` moves the state along `R`, whether it returns or raises.
pub record Moves {ℓ} {S E A : Type ℓ} (R : S → S → Type ℓ) (m : Exec S E A) : Type ℓ where
  pub at : (s : S) → R s (m s).1

module _ {ℓ} {S E A : Type ℓ} {R : S → S → Type ℓ} (o : IsOrder R) where
  pub Moves-pure : (a : A) → Moves {E = E} R (pure a)
  Moves-pure a = record { at = λ s. o.same s }

  pub Moves-raise : (e : E) → Moves {A = A} R (raise e)
  Moves-raise e = record { at = λ s. o.same s }

module _ {ℓ} {S E A B : Type ℓ} {R : S → S → Type ℓ} (o : IsOrder R) where
  moves_on :
      (f : A → Exec S E B)
      → ((a : A) → Moves R (f a))
      → (s : S) (r : Result E A) (s' : S) → R s s'
      → R s (continue r f s').1
  moves_on f hf s (ok a) s' h = o.trans s s' _ h ((hf a).at s')
  moves_on f hf s (err e) s' h = h

  pub Moves-bind :
      (m : Exec S E A) (f : A → Exec S E B)
      → Moves R m
      → ((a : A) → Moves R (f a))
      → Moves R (m >>= f)
  Moves-bind m f hm hf = record { at = λ s. moves_on f hf s (m s).0 (m s).1 (hm.at s) }

module _ {ℓ} {S E A : Type ℓ} {R : S → S → Type ℓ} (o : IsOrder R) where
  moves_recover :
      (h : E → Exec S E A)
      → ((e : E) → Moves R (h e))
      → (s : S) (r : Result E A) (s' : S) → R s s'
      → R s (recover r h s').1
  moves_recover h hh s (ok a) s' k = k
  moves_recover h hh s (err e) s' k = o.trans s s' _ k ((hh e).at s')

  pub Moves-handle :
      (m : Exec S E A) (h : E → Exec S E A)
      → Moves R m
      → ((e : E) → Moves R (h e))
      → Moves R (handle m h)
  Moves-handle m h hm hh = record { at = λ s. moves_recover h hh s (m s).0 (m s).1 (hm.at s) }

-- Whatever `m` returns satisfies `P`.
pub record Returns {ℓ} {S E A : Type ℓ} (P : A → Type ℓ) (m : Exec S E A) : Type ℓ where
  pub at : (s : S) (a : A) → (m s).0 ≡ ok a → P a

pub Returns-pure {ℓ} :
    {S E A : Type ℓ} {P : A → Type ℓ} (a : A) → P a → Returns {S = S} {E = E} P (pure a)
Returns-pure {P = P} a h = record { at = λ s b e. subst P (cc e) h }

pub Returns-raise {ℓ} :
    {S E A : Type ℓ} {P : A → Type ℓ} (e : E) → Returns {S = S} {A = A} P (raise e)
Returns-raise e = record { at = λ s b k. absurd (cc k) }

pub Returns-if {ℓ} :
    {S E A : Type ℓ} {P : A → Type ℓ} (b : Bool) (m n : Exec S E A)
    → Returns P m
    → Returns P n
    → Returns P (if b then m else n)
Returns-if true m n hm hn = hm
Returns-if false m n hm hn = hn

pub Returns-bind {ℓ} :
    {S E A B : Type ℓ} {P : B → Type ℓ} (m : Exec S E A) (f : A → Exec S E B)
    → ((a : A) → Returns P (f a))
    → Returns P (m >>= f)
Returns-bind {S = S} {E = E} {A = A} {B = B} {P = P} m f h = record {
  at = λ s b e. of_result (m s).0 (m s).1 b e;
}
  where
    of_result : (r : Result E A) (s' : S) (b : B) → (continue r f s').0 ≡ ok b → P b
    of_result (ok a) s' b e = (h a).at s' b e
    of_result (err x) s' b e = absurd (cc e)

pub Returns-handle {ℓ} :
    {S E A : Type ℓ} {P : A → Type ℓ} (m : Exec S E A) (h : E → Exec S E A)
    → Returns P m
    → ((e : E) → Returns P (h e))
    → Returns P (handle m h)
Returns-handle {S = S} {E = E} {A = A} {P = P} m h hm hh = record {
  at = λ s a e. of_result (m s).0 (m s).1 a refl e;
}
  where
    of_result :
        {s : S} (r : Result E A) (s' : S) (a : A) → (m s).0 ≡ r → (recover r h s').0 ≡ ok a → P a
    of_result {s = s} (ok b) s' a k e = hm.at s a (cc (k, e))
    of_result (err x) s' a k e = (hh x).at s' a e
