-- ===== src/Admin/Auth.antt =====
-- backend/app/api/admin_deps.py: the password hash, the access token, the sign-in and the guard.
pub mod Laws
use ecommerce_sales_agent.Prelude.{
  ℕ, zero, suc, ◌+◌, ◌*◌, Bool, true, false, Option, none, some, List, [], ◌∷◌, ◌++◌, ◌==◌, ◌&&◌,
  ◌||◌, not, if◌then◌else◌, is_nil,
}
use ecommerce_sales_agent.Prelude.Int.{ℤ}
use ecommerce_sales_agent.Text.{Text, codes, text_eq, lower, strip, starts_with}
use ecommerce_sales_agent.Exec.{Result, ok, err}

abbrev pub dollar : ℕ
dollar = 36

abbrev pub hash_name : Text
hash_name = codes "pbkdf2_sha256"

abbrev pub algorithm : Text
algorithm = codes "HS256"

abbrev pub bearer_prefix : Text
bearer_prefix = codes "bearer "

abbrev pub token_type : Text
token_type = codes "access"

-- 600000, as it is written into the hash.
abbrev pub pbkdf2_iterations : Text
pbkdf2_iterations = codes "600000"

pub record Claims : Type 0 where
  pub sub : Text
  pub iat : ℕ
  pub exp : ℕ
  pub claim_type : Option Text
  pub jti : Text

-- `ExpiredSignatureError`, and every other `InvalidTokenError`.
pub data TokenError : Type 0 where
  expired_signature invalid_token : TokenError

-- The libraries. `pbkdf2_hex` is the hex digest for a password, a salt and a count as text, `none`
-- where encoding, `int` or `pbkdf2_hmac` raise a ValueError; `compare_digest` is `none` where it
-- raises a TypeError; `jwt_decode` checks the signature, the algorithm and the expiry at a time.
pub record Crypto : Type 0 where
  pub pbkdf2_hex : Text → Text → Text → Option Text
  pub compare_digest : Text → Text → Option Bool
  pub jwt_encode : Claims → Text → Text → Text
  pub jwt_decode : Text → Text → Text → ℕ → Result TokenError Claims

pub record AdminSettings : Type 0 where
  pub admin_username : Text
  pub admin_password_hash : Text
  pub jwt_secret_key : Text
  pub admin_jwt_expire_minutes : ℕ

pub record AdminContext : Type 0 where
  pub username : Text
  pub expires_at : ℕ

-- The HTTP errors with their details; a TypeError passes and becomes a 500.
pub data AdminError : Type 0 where
  not_configured not_authenticated token_expired token_invalid invalid_credentials : AdminError
  type_error : AdminError

abbrev pub extended : ℕ → Option (Text × Text) → Option (Text × Text)
extended c none = none
extended c (some (s, rest)) = some (c ∷ s, rest)

-- The text before the first `$` and the text after it.
unfoldable pub cut : Text → Option (Text × Text)
cut [] = none
cut (c ∷ s) = let rest = cut s in if c == dollar then some ([], s) else extended c rest

abbrev pub HashParts : Type 0
HashParts = Text × (Text × (Text × Text))

abbrev pub cut_salt : Text → Text → Option (Text × Text) → Option HashParts
cut_salt name iterations none = none
cut_salt name iterations (some (salt, expected)) = some (name, (iterations, (salt, expected)))

abbrev pub cut_iterations : Text → Option (Text × Text) → Option HashParts
cut_iterations name none = none
cut_iterations name (some (iterations, rest)) = cut_salt name iterations (cut rest)

abbrev pub cut_name : Option (Text × Text) → Option HashParts
cut_name none = none
cut_name (some (name, rest)) = cut_iterations name (cut rest)

-- `stored_hash.split("$", 3)`, `none` where it does not give four parts.
unfoldable pub hash_parts : Text → Option HashParts
hash_parts stored_hash = cut_name (cut stored_hash)

-- `admin_auth_configured` of config/settings.py
abbrev pub admin_auth_configured : AdminSettings → Bool
admin_auth_configured settings =
    not (is_nil settings.admin_username)
    && (not (is_nil settings.admin_password_hash) && not (is_nil settings.jwt_secret_key))

module _ (crypto : Crypto) where
  abbrev pub hash_of : Text → Option Text → Option Text
  hash_of salt none = none
  hash_of salt (some hex) =
      some (hash_name ++ (dollar ∷ pbkdf2_iterations ++ (dollar ∷ salt ++ (dollar ∷ hex))))

  -- With the salt that is drawn.
  unfoldable pub hash_password : Text → Text → Option Text
  hash_password salt password = hash_of salt (crypto.pbkdf2_hex password salt pbkdf2_iterations)

  abbrev pub compared : Option Bool → Result AdminError Bool
  compared none = err type_error
  compared (some b) = ok b

  abbrev pub digest_matches : Text → Option Text → Result AdminError Bool
  digest_matches expected none = ok false
  digest_matches expected (some hex) = compared (crypto.compare_digest hex expected)

  abbrev pub verify_parts : Text → Option HashParts → Result AdminError Bool
  verify_parts password none = ok false
  verify_parts password (some (name, (iterations, (salt, expected)))) =
      if not (text_eq name hash_name)
      then ok false
      else digest_matches expected (crypto.pbkdf2_hex password salt iterations)

  unfoldable pub verify_password : Text → Text → Result AdminError Bool
  verify_password password stored_hash = verify_parts password (hash_parts stored_hash)

  -- The token and its expiry in seconds; `jti` is the id that is drawn.
  unfoldable pub create_access_token : AdminSettings → Text → Text → ℕ → Text × ℕ
  create_access_token settings jti username now =
      let expires_at = now + settings.admin_jwt_expire_minutes * 60 in
      (
        crypto.jwt_encode
            (record {
              sub = username;
              iat = now;
              exp = expires_at;
              claim_type = some token_type;
              jti = jti;
            })
            settings.jwt_secret_key algorithm,
        expires_at,
      )

  abbrev pub is_access : Option Text → Bool
  is_access none = false
  is_access (some t) = text_eq t token_type

  abbrev pub context_of : Result TokenError Claims → Result TokenError AdminContext
  context_of (err e) = err e
  context_of (ok payload) =
      if not (is_access payload.claim_type)
      then err invalid_token
      else ok (record { username = payload.sub; expires_at = payload.exp })

  unfoldable pub decode_access_token : AdminSettings → Text → ℕ → Result TokenError AdminContext
  decode_access_token settings token now =
      context_of (crypto.jwt_decode token settings.jwt_secret_key algorithm now)

  abbrev pub or_unauthorized : Result TokenError AdminContext → Result AdminError AdminContext
  or_unauthorized (ok admin) = ok admin
  or_unauthorized (err expired_signature) = err token_expired
  or_unauthorized (err invalid_token) = err token_invalid

  -- `authorization[7:]`
  abbrev pub drop : ℕ → Text → Text
  drop zero s = s
  drop (suc n) [] = []
  drop (suc n) (c ∷ s) = drop n s

  abbrev pub header_or_empty : Option Text → Text
  header_or_empty none = []
  header_or_empty (some t) = t

  unfoldable pub require_admin : AdminSettings → Option Text → ℕ → Result AdminError AdminContext
  require_admin settings authorization now =
      if not (admin_auth_configured settings)
      then err not_configured
      else if not (starts_with bearer_prefix (lower (header_or_empty authorization)))
      then err not_authenticated
      else or_unauthorized
          (decode_access_token settings (strip (drop 7 (header_or_empty authorization))) now)

  abbrev pub signed_in :
      AdminSettings → Text → Text → ℕ → Result AdminError Bool → Result AdminError (Text × ℕ)
  signed_in settings jti username now (err e) = err e
  signed_in settings jti username now (ok false) = err invalid_credentials
  signed_in settings jti username now (ok true) = ok (create_access_token settings jti username now)

  -- `not compare_digest(…) or not verify_password(…)`: the password is looked at for the name only.
  abbrev pub with_username :
      AdminSettings → Text → Text → Text → ℕ → Option Bool → Result AdminError (Text × ℕ)
  with_username settings jti username password now none = err type_error
  with_username settings jti username password now (some false) = err invalid_credentials
  with_username settings jti username password now (some true) =
      signed_in settings jti username now (verify_password password settings.admin_password_hash)

  unfoldable pub authenticate_admin :
      AdminSettings → Text → Text → Text → ℕ → Result AdminError (Text × ℕ)
  authenticate_admin settings jti username password now =
      if not (admin_auth_configured settings)
      then err not_configured
      else with_username settings jti username password now
          (crypto.compare_digest username settings.admin_username)
