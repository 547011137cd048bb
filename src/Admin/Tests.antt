-- ===== src/Admin/Tests.antt =====
-- A concrete sign-in: the digest of a password is the password if it is ASCII, and a token lists its
-- claims, each text after its length. The theorems are applied to it,
-- those on the reads of Inventra in the concrete shop.
use ecommerce_sales_agent.Prelude.{
  ℕ, zero, suc, ◌≡◌, refl, ◌⊎◌, ◌↔◌, inl, inr, true, false, Option, none, some, [], ◌∷◌, ◌++◌, ltb,
  if◌then◌else◌, arith, length, take, is_nil, Bool-cases, ap, sym,
}
use ecommerce_sales_agent.Text.{
  Text, codes, text_eq, strip, strip_of, lstrip_of, rstrip_of, is_space,
}
use ecommerce_sales_agent.Exec.{Result, ok, err}
use ecommerce_sales_agent.Admin.Auth.{
  Claims, TokenError, expired_signature, invalid_token, Crypto, AdminSettings, token_type,
  invalid_credentials, hash_password, hash_parts, cut, verify_password, create_access_token,
  authenticate_admin, require_admin,
}
use ecommerce_sales_agent.Admin.Auth.Laws.{
  IsKnown, is_ascii, IsCrypto, IsAdmitted, verify_password-hash_password,
  require_admin-authenticate_admin, authenticate_admin-cases, require_admin-IsAdmitted,
}
use ecommerce_sales_agent.Admin.Proxy.{read_product, in_bounds, admin_read}
use ecommerce_sales_agent.Admin.Proxy.Laws.{IsRead, admin_read-IsRead}
use ecommerce_sales_agent.Admin.Proxy.Errors.{IsReason, admin_read-IsReason}
use ecommerce_sales_agent.Shop.{shop, start}

abbrev dropped : ℕ → Text → Text
dropped zero s = s
dropped (suc n) [] = []
dropped (suc n) (c ∷ s) = dropped n s

take-append : (s t : Text) → take (length s) (s ++ t) ≡ s
take-append [] t = refl
take-append (c ∷ s) t = rw (take-append s t) refl

dropped-append : (s t : Text) → dropped (length s) (s ++ t) ≡ t
dropped-append [] t = refl
dropped-append (c ∷ s) t = dropped-append s t

abbrev put_type : Option Text → Text → Text
put_type none rest = 0 ∷ rest
put_type (some t) rest = 1 ∷ length t ∷ (t ++ rest)

abbrev put : Claims → Text
put c = 1 ∷ c.iat ∷ c.exp ∷ length c.sub ∷ (c.sub ++ put_type c.claim_type (c.jti ++ (1 ∷ [])))

abbrev without_last : Text → Text
without_last [] = []
without_last (c ∷ []) = []
without_last (c ∷ d ∷ s) = c ∷ without_last (d ∷ s)

abbrev claims_of : ℕ → ℕ → Text → Text → Option Claims
claims_of iat exp sub (zero ∷ s) =
    some (record { sub = sub; iat = iat; exp = exp; claim_type = none; jti = without_last s })
claims_of iat exp sub (suc k ∷ n ∷ s) = some (record {
  sub = sub;
  iat = iat;
  exp = exp;
  claim_type = some (take n s);
  jti = without_last (dropped n s);
})
claims_of iat exp sub s = none

abbrev read : Text → Option Claims
read (c ∷ iat ∷ exp ∷ n ∷ s) = claims_of iat exp (take n s) (dropped n s)
read s = none

without_last-append : (s : Text) → without_last (s ++ (1 ∷ [])) ≡ s
without_last-append [] = refl
without_last-append (c ∷ []) = refl
without_last-append (c ∷ d ∷ s) = rw (without_last-append (d ∷ s)) refl

read-put : (c : Claims) → read (put c) ≡ some c
read-put c = rw (take-append c.sub _, dropped-append c.sub _) (typed c.claim_type refl)
  where
    typed :
        (o : Option Text)
        → c.claim_type ≡ o
        → claims_of c.iat c.exp c.sub (put_type o (c.jti ++ (1 ∷ []))) ≡ some c
    typed none e =
        rw (without_last-append c.jti) (ap (λ o. some (record c { claim_type = o })) (sym e))
    typed (some t) e =
        rw (take-append t _, dropped-append t _, without_last-append c.jti)
          (ap (λ o. some (record c { claim_type = o })) (sym e))

-- The text ends with a character that `rstrip` keeps.
record IsClosed (s : Text) : Type 0 where
  full : is_nil s ≡ false
  kept : rstrip_of is_space s ≡ s

IsClosed-cons : (c : ℕ) (s : Text) → IsClosed s → IsClosed (c ∷ s)
unfolding rstrip_of
IsClosed-cons c s h = record { full = refl; kept = rw (h.kept, h.full) refl }

IsClosed-append : (t s : Text) → IsClosed s → IsClosed (t ++ s)
IsClosed-append [] s h = h
IsClosed-append (c ∷ t) s h = IsClosed-cons c (t ++ s) (IsClosed-append t s h)

IsClosed-end : IsClosed (1 ∷ [])
unfolding rstrip_of is_space
IsClosed-end = record { full = refl; kept = refl }

IsClosed-type : (o : Option Text) (s : Text) → IsClosed s → IsClosed (put_type o s)
IsClosed-type none s h = IsClosed-cons 0 s h
IsClosed-type (some t) s h = IsClosed-cons 1 _ (IsClosed-cons _ _ (IsClosed-append t s h))

IsClosed-put : (c : Claims) → IsClosed (put c)
IsClosed-put c = IsClosed-cons 1 _ (
    IsClosed-cons _ _ (
      IsClosed-cons _ _ (
        IsClosed-cons _ _ (
          IsClosed-append c.sub _
            (IsClosed-type c.claim_type _ (IsClosed-append c.jti _ IsClosed-end))))))

strip-put : (c : Claims) → strip (put c) ≡ put c
unfolding strip strip_of lstrip_of
strip-put c = (IsClosed-put c).kept

abbrev decoded : ℕ → Option Claims → Result TokenError Claims
decoded now none = err invalid_token
decoded now (some c) = if ltb now c.exp then ok c else err expired_signature

abbrev ascii_only : Text → Option Text
ascii_only s = if is_ascii s then some s else none

abbrev crypto : Crypto
crypto = record {
  pbkdf2_hex = λ password salt count. ascii_only password;
  compare_digest = λ s t. some (text_eq s t);
  jwt_encode = λ c key alg. put c;
  jwt_decode = λ token key alg now. decoded now (read token);
}

crypto-IsCrypto : IsCrypto crypto
crypto-IsCrypto = record {
  compares = λ s t a b. refl;
  hex_ascii = λ password salt count hex h. ascii password hex h;
  decodes = λ c key now a b. rw (read-put c) (ground (arith, b));
  expires = λ c key now h. rw (read-put c) (ground (arith, h));
  no_space = λ c key. strip-put c;
}
  where
    ascii : (s hex : Text) → ascii_only s ≡ some hex → is_ascii hex ≡ true
    ascii s hex h = elim (Bool-cases (is_ascii s)) [
      | inl a ↦ let e : some s ≡ some hex = rw a at h in let e' : s ≡ hex = cc e in rw (← e') a
      | inr other ↦ absurd (cc (rw other at h))
    ]

abbrev stored_hash : Text
stored_hash = codes "pbkdf2_sha256$600000$5a$secret"

abbrev settings : AdminSettings
settings = record {
  admin_username = codes "admin";
  admin_password_hash = stored_hash;
  jwt_secret_key = codes "key";
  admin_jwt_expire_minutes = 480;
}

secret-hashed : hash_password crypto (codes "5a") (codes "secret") ≡ some stored_hash
unfolding hash_password
secret-hashed = refl

verify_password-hash_password_example :
    (verify_password crypto (codes "secret") stored_hash ≡ ok true)
    ↔ (ascii_only (codes "secret") ≡ ascii_only (codes "secret"))
verify_password-hash_password_example =
    verify_password-hash_password crypto crypto-IsCrypto (codes "5a") (codes "secret") stored_hash
      (codes "secret") refl secret-hashed

abbrev token : Text
token = put (record {
  sub = codes "admin";
  iat = 100;
  exp = 28900;
  claim_type = some token_type;
  jti = codes "j";
})

signed-in :
    authenticate_admin crypto settings (codes "j") (codes "admin") (codes "secret") 100
    ≡ ok (token, 28900)
unfolding authenticate_admin verify_password hash_parts cut create_access_token
signed-in = refl

require_admin-authenticate_admin_example :
    require_admin crypto settings (some (codes "Bearer " ++ token)) 200
    ≡ ok (record { username = codes "admin"; expires_at = 28900 })
require_admin-authenticate_admin_example =
    require_admin-authenticate_admin crypto crypto-IsCrypto settings (codes "j") (codes "admin")
      (codes "secret") 100 200 token 28900 signed-in (omega arith)

guard-opens :
    require_admin crypto settings (some (codes "Bearer " ++ token)) 200
    ≡ ok (record { username = codes "admin"; expires_at = 28900 })
guard-opens =
    require_admin-authenticate_admin crypto crypto-IsCrypto settings (codes "j") (codes "admin")
      (codes "secret") 100 200 token 28900 signed-in (omega arith)

require_admin-IsAdmitted_example :
    IsAdmitted crypto settings
      (some (codes "Bearer " ++ token))
      200
      (record { username = codes "admin"; expires_at = 28900 })
require_admin-IsAdmitted_example =
    require_admin-IsAdmitted crypto settings (some (codes "Bearer " ++ token)) 200
      (record { username = codes "admin"; expires_at = 28900 }) guard-opens

authenticate_admin-cases_example :
    (IsKnown crypto crypto-IsCrypto settings
        (codes "5a")
        (codes "secret")
        (codes "admin")
        (codes "guess")
      × (authenticate_admin crypto settings (codes "j") (codes "admin") (codes "guess") 100
          ≡ ok (create_access_token crypto settings (codes "j") (codes "admin") 100)))
    ⊎ ((¬ IsKnown crypto crypto-IsCrypto settings
          (codes "5a")
          (codes "secret")
          (codes "admin")
          (codes "guess"))
        × (authenticate_admin crypto settings (codes "j") (codes "admin") (codes "guess") 100
            ≡ err invalid_credentials))
authenticate_admin-cases_example =
    authenticate_admin-cases crypto crypto-IsCrypto settings (codes "5a") (codes "secret")
      (codes "j") (codes "admin") (codes "guess") 100 refl refl refl refl secret-hashed

abbrev bearer : Option Text
bearer = some (codes "Bearer " ++ token)

admin_read-IsRead_example :
    IsRead shop
      (require_admin crypto settings bearer 200)
      true
      (read_product 7)
      start
      (admin_read shop crypto settings true bearer 200 (read_product 7) start).1
admin_read-IsRead_example =
    admin_read-IsRead shop crypto settings true bearer 200 (read_product 7) start

out-of-bounds : (admin_read shop crypto settings true bearer 200 (read_product 0) start).0 ≡ err 422
unfolding admin_read in_bounds
out-of-bounds = rw guard-opens refl

admin_read-IsReason_example :
    IsReason shop (require_admin crypto settings bearer 200) true (read_product 0) 422
admin_read-IsReason_example =
    admin_read-IsReason shop crypto settings true bearer 200 (read_product 0) start 422
      out-of-bounds
