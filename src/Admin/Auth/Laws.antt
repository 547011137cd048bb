-- ===== src/Admin/Auth/Laws.antt =====
-- A password that was hashed is accepted, and the token of a sign-in opens the guard.
use ecommerce_sales_agent.Prelude.{
  ℕ, ◌≤◌, ◌<◌, ◌≡◌, refl, ◌⊎◌, inl, inr, Bool, true, false, Option, none, some, [], ◌∷◌, ◌++◌, ◌==◌,
  not, Bool-cases, if◌then◌else◌, all, arith, ap, sym, ◌∙◌, subst, ltb, ltb→lt, ◌↔◌,
}
use ecommerce_sales_agent.Text.{
  Text, codes, text_eq, text_eq_refl, text_eq→eq, lower, lower_char, is_upper, strip, starts_with,
}
use ecommerce_sales_agent.Exec.{Result, ok, err}
use ecommerce_sales_agent.Admin.Auth.{
  dollar, hash_name, algorithm, bearer_prefix, token_type, pbkdf2_iterations, Claims, TokenError,
  expired_signature, invalid_token, Crypto, AdminSettings, AdminContext, AdminError, token_expired,
  invalid_credentials, cut, hash_parts, admin_auth_configured, hash_of, hash_password,
  digest_matches, verify_parts, verify_password, create_access_token, is_access, context_of,
  decode_access_token, or_unauthorized, drop, header_or_empty, require_admin, signed_in,
  with_username, authenticate_admin,
}

-- No `$` in the text.
abbrev pub is_plain : Text → Bool
is_plain s = all (λ c. not (c == dollar)) s

cut-append : (s rest : Text) → is_plain s ≡ true → cut (s ++ (dollar ∷ rest)) ≡ some (s, rest)
unfolding cut
cut-append [] rest h = refl
cut-append (c ∷ s) rest h = elim (Bool-cases (c == dollar)) [
  | inl same ↦ absurd (cc (rw same at h))
  | inr other ↦ rw (other, cut-append s rest (rw other at h)) refl
]

hash_parts-hash :
    (salt hex : Text)
    → is_plain salt ≡ true
    → hash_parts (hash_name ++ (dollar ∷ pbkdf2_iterations ++ (dollar ∷ salt ++ (dollar ∷ hex))))
      ≡ some (hash_name, (pbkdf2_iterations, (salt, hex)))
unfolding hash_parts
hash_parts-hash salt hex h =
    rw
      (
        cut-append hash_name (pbkdf2_iterations ++ (dollar ∷ salt ++ (dollar ∷ hex))) refl,
        cut-append pbkdf2_iterations (salt ++ (dollar ∷ hex)) refl,
        cut-append salt hex h,
      )
      refl

abbrev pub is_ascii : Text → Bool
is_ascii s = all (λ c. ltb c 128) s

-- What is documented of the libraries: two ASCII texts are compared, a hex digest is ASCII, a token
-- that was encoded gives its claims back until it expires, and has no white space around it.
pub record IsCrypto (crypto : Crypto) : Type 0 where
  pub compares :
      (s t : Text)
      → is_ascii s ≡ true
      → is_ascii t ≡ true
      → crypto.compare_digest s t ≡ some (text_eq s t)
  pub hex_ascii :
      (password salt count hex : Text)
      → crypto.pbkdf2_hex password salt count ≡ some hex
      → is_ascii hex ≡ true
  pub decodes :
      (claims : Claims) (key : Text) (now : ℕ)
      → claims.iat ≤ now
      → now < claims.exp
      → crypto.jwt_decode (crypto.jwt_encode claims key algorithm) key algorithm now ≡ ok claims
  pub expires :
      (claims : Claims) (key : Text) (now : ℕ)
      → claims.exp ≤ now
      → crypto.jwt_decode (crypto.jwt_encode claims key algorithm) key algorithm now
        ≡ err expired_signature
  pub no_space :
      (claims : Claims) (key : Text)
      → strip (crypto.jwt_encode claims key algorithm) ≡ crypto.jwt_encode claims key algorithm

module _ (crypto : Crypto) (lib : IsCrypto crypto) where
  matches_iff :
      (password salt hex : Text) (o : Option Text)
      → crypto.pbkdf2_hex password salt pbkdf2_iterations ≡ o
      → is_ascii hex ≡ true
      → (digest_matches crypto hex o ≡ ok true) ↔ (o ≡ some hex)
  matches_iff password salt hex none e a = (λ h. absurd (cc h), λ h. absurd (cc h))
  matches_iff password salt hex (some hex') e a =
      rw (lib.compares hex' hex (lib.hex_ascii password salt pbkdf2_iterations hex' e) a) (
        (λ h. ap some (text_eq→eq hex' hex (of_ok h))),
        λ h. ap ok (rw (some_injective h) (text_eq_refl hex)),
      )
    where
      of_ok : {b : Bool} → ◌≡◌ {A = Result AdminError Bool} (ok b) (ok true) → b ≡ true
      of_ok k = cc k

      some_injective : some hex' ≡ some hex → hex' ≡ hex
      some_injective k = cc k

  -- A password is accepted against the hash of a password just where the two have the same digest;
  -- so a password is accepted against its own hash.
  pub verify_password-hash_password :
      (salt password stored_hash other : Text)
      → is_plain salt ≡ true
      → hash_password crypto salt password ≡ some stored_hash
      → (verify_password crypto other stored_hash ≡ ok true) ↔ (
          crypto.pbkdf2_hex other salt pbkdf2_iterations
          ≡ crypto.pbkdf2_hex password salt pbkdf2_iterations)
  unfolding hash_password verify_password
  verify_password-hash_password salt password stored_hash other h stored =
      hashed (crypto.pbkdf2_hex password salt pbkdf2_iterations) refl stored
    where
      parsed :
          (hex : Text)
          → verify_parts crypto other (
              hash_parts
                (hash_name ++ (dollar ∷ pbkdf2_iterations ++ (dollar ∷ salt ++ (dollar ∷ hex)))))
            ≡ digest_matches crypto hex (crypto.pbkdf2_hex other salt pbkdf2_iterations)
      parsed hex = rw (hash_parts-hash salt hex h) refl

      hashed :
          (o : Option Text)
          → crypto.pbkdf2_hex password salt pbkdf2_iterations ≡ o
          → hash_of crypto salt o ≡ some stored_hash
          → (verify_parts crypto other (hash_parts stored_hash) ≡ ok true)
            ↔ (crypto.pbkdf2_hex other salt pbkdf2_iterations ≡ o)
      hashed none e k = absurd (cc k)
      hashed (some hex) e k =
          rw (← some_injective k, parsed hex)
            (matches_iff other salt hex _ refl
              (lib.hex_ascii password salt pbkdf2_iterations hex e))
        where
          some_injective : {s : Text} → some s ≡ some stored_hash → s ≡ stored_hash
          some_injective k' = cc k'

  issued :
      (settings : AdminSettings) (jti username password : Text) (now : ℕ) (x : Text × ℕ)
      → authenticate_admin crypto settings jti username password now ≡ ok x
      → (admin_auth_configured settings ≡ true)
        × (x ≡ create_access_token crypto settings jti username now)
  unfolding authenticate_admin
  issued settings jti username password now x h =
      elim (Bool-cases (admin_auth_configured settings)) [
        | inr unset ↦ absurd (cc (rw unset at h))
        | inl set ↦ (
          set,
          of_username (crypto.compare_digest username settings.admin_username) (rw set at h),
        )
      ]
    where
      of_password :
          (r : Result AdminError Bool)
          → signed_in crypto settings jti username now r ≡ ok x
          → x ≡ create_access_token crypto settings jti username now
      of_password (err e) k = absurd (cc k)
      of_password (ok false) k = absurd (cc k)
      of_password (ok true) k = cc k

      of_username :
          (o : Option Bool)
          → with_username crypto settings jti username password now o ≡ ok x
          → x ≡ create_access_token crypto settings jti username now
      of_username none k = absurd (cc k)
      of_username (some false) k = absurd (cc k)
      of_username (some true) k = of_password _ k

  abbrev bearer : Text → Option Text
  bearer token = some (codes "Bearer " ++ token)

  bearer_accepted :
      (token : Text) → starts_with bearer_prefix (lower (codes "Bearer " ++ token)) ≡ true
  unfolding starts_with lower lower_char is_upper
  bearer_accepted token = refl

  guarded :
      (settings : AdminSettings) (token : Text) (later : ℕ)
      → admin_auth_configured settings ≡ true
      → strip token ≡ token
      → require_admin crypto settings (bearer token) later
        ≡ or_unauthorized crypto (decode_access_token crypto settings token later)
  unfolding require_admin
  guarded settings token later set bare = rw (set, bearer_accepted token, bare) refl

  decoded :
      (settings : AdminSettings) (claims : Claims) (later : ℕ)
      → claims.claim_type ≡ some token_type
      → claims.iat ≤ later
      → or_unauthorized crypto (
          decode_access_token crypto settings
            (crypto.jwt_encode claims settings.jwt_secret_key algorithm)
            later)
        ≡ (if ltb later claims.exp
            then ok (record { username = claims.sub; expires_at = claims.exp })
            else err token_expired)
  unfolding decode_access_token
  decoded settings claims later typed after = elim (Bool-cases (ltb later claims.exp)) [
    | inl valid ↦
        rw
          (
            valid,
            lib.decodes claims settings.jwt_secret_key later after (ltb→lt later claims.exp valid),
          )
          (rw typed refl)
    | inr late ↦
        rw (late, lib.expires claims settings.jwt_secret_key later (ground (arith, late))) refl
  ]

  -- The token of a sign-in opens the guard for the name that signed in until it expires, and is
  -- refused as expired from then on.
  pub require_admin-authenticate_admin :
      (settings : AdminSettings) (jti username password : Text) (now later : ℕ) (token : Text)
      (expires_at : ℕ)
      → authenticate_admin crypto settings jti username password now ≡ ok (token, expires_at)
      → now ≤ later
      → require_admin crypto settings (some (codes "Bearer " ++ token)) later ≡ (
          if ltb later expires_at
          then ok (record { username = username; expires_at = expires_at })
          else err token_expired)
  unfolding create_access_token
  require_admin-authenticate_admin settings jti username password now later token expires_at h
        after =
      let (set, made) = issued settings jti username password now (token, expires_at) h in
      subst
        (λ p. require_admin crypto settings (bearer p.0) later ≡ (
          if ltb later p.1
          then ok (record { username = username; expires_at = p.1 })
          else err token_expired))
        (sym made)
        (guarded settings _ later set (lib.no_space _ settings.jwt_secret_key)
          ∙ decoded settings _ later refl after)

  answered :
      (salt password stored_hash other : Text)
      → is_plain salt ≡ true
      → hash_password crypto salt password ≡ some stored_hash
      → (verify_password crypto other stored_hash ≡ ok true)
        ⊎ (verify_password crypto other stored_hash ≡ ok false)
  unfolding hash_password verify_password
  answered salt password stored_hash other h stored =
      hashed (crypto.pbkdf2_hex password salt pbkdf2_iterations) refl stored
    where
      stored_is :
          (hex : Text)
          → hash_of crypto salt (some hex) ≡ some stored_hash
          → hash_name ++ (dollar ∷ pbkdf2_iterations ++ (dollar ∷ salt ++ (dollar ∷ hex)))
            ≡ stored_hash
      stored_is hex k = cc k

      compared_with :
          (hex : Text) (o : Option Text)
          → crypto.pbkdf2_hex other salt pbkdf2_iterations ≡ o
          → is_ascii hex ≡ true
          → (digest_matches crypto hex o ≡ ok true) ⊎ (digest_matches crypto hex o ≡ ok false)
      compared_with hex none e a = inr refl
      compared_with hex (some hex') e a =
          rw (lib.compares hex' hex (lib.hex_ascii other salt pbkdf2_iterations hex' e) a)
            (elim (Bool-cases (text_eq hex' hex)) [
              | inl same ↦ inl (ap ok same)
              | inr differs ↦ inr (ap ok differs)
            ])

      hashed :
          (o : Option Text)
          → crypto.pbkdf2_hex password salt pbkdf2_iterations ≡ o
          → hash_of crypto salt o ≡ some stored_hash
          → (verify_parts crypto other (hash_parts stored_hash) ≡ ok true)
            ⊎ (verify_parts crypto other (hash_parts stored_hash) ≡ ok false)
      hashed none e k = absurd (cc k)
      hashed (some hex) e k =
          subst
            (λ s.
              (verify_parts crypto other (hash_parts s) ≡ ok true)
              ⊎ (verify_parts crypto other (hash_parts s) ≡ ok false))
            (stored_is hex k)
            (rw (hash_parts-hash salt hex h)
              (compared_with hex _ refl (lib.hex_ascii password salt pbkdf2_iterations hex e)))

  -- The name is the configured one, and the password has the digest of the stored one.
  abbrev pub IsKnown : AdminSettings → Text → Text → Text → Text → Type 0
  IsKnown settings salt secret username password =
      (username ≡ settings.admin_username)
      × (crypto.pbkdf2_hex password salt pbkdf2_iterations
          ≡ crypto.pbkdf2_hex secret salt pbkdf2_iterations)

  -- Where the settings hold the hash of a password, a sign-in with an ASCII name gives a token if
  -- the name is the configured one and the password has the same digest, and otherwise, whichever of
  -- the two is wrong, the one error.
  pub authenticate_admin-cases :
      (settings : AdminSettings) (salt secret jti username password : Text) (now : ℕ)
      → admin_auth_configured settings ≡ true
      → is_ascii settings.admin_username ≡ true
      → is_ascii username ≡ true
      → is_plain salt ≡ true
      → hash_password crypto salt secret ≡ some settings.admin_password_hash
      → (IsKnown settings salt secret username password
          × (authenticate_admin crypto settings jti username password now
              ≡ ok (create_access_token crypto settings jti username now)))
        ⊎ ((¬ IsKnown settings salt secret username password)
            × (authenticate_admin crypto settings jti username password now
                ≡ err invalid_credentials))
  unfolding authenticate_admin
  authenticate_admin-cases settings salt secret jti username password now set a u h stored =
      rw (set, lib.compares username settings.admin_username u a)
        (elim (Bool-cases (text_eq username settings.admin_username)) [
          | inr other ↦ rw other (inr ((λ known. absurd (cc (other, same_name known.0))), refl))
          | inl same ↦
              rw same (elim (answered salt secret settings.admin_password_hash password h stored) [
                | inr wrong ↦
                    rw wrong (inr ((λ known. absurd (cc (wrong, digest.1 known.1))), refl))
                | inl right ↦
                    rw right (
                      inl
                        ((text_eq→eq username settings.admin_username same, digest.0 right), refl))
              ])
        ])
    where
      same_name :
          username ≡ settings.admin_username → text_eq username settings.admin_username ≡ true
      same_name e = rw e (text_eq_refl settings.admin_username)

      digest : (verify_password crypto password settings.admin_password_hash ≡ ok true) ↔ (
          crypto.pbkdf2_hex password salt pbkdf2_iterations
          ≡ crypto.pbkdf2_hex secret salt pbkdf2_iterations)
      digest =
          verify_password-hash_password salt secret settings.admin_password_hash password h stored

module _ (crypto : Crypto) where
  -- The header carries a token that the library decodes at this time and that is of the access
  -- type, and the admin is its subject.
  pub record IsAdmitted (settings : AdminSettings) (authorization : Option Text) (now : ℕ)
      (admin : AdminContext) : Type 0 where
    pub claims : Claims
    pub configured : admin_auth_configured settings ≡ true
    pub scheme : starts_with bearer_prefix (lower (header_or_empty crypto authorization)) ≡ true
    pub valid :
        crypto.jwt_decode
          (strip (drop crypto 7 (header_or_empty crypto authorization)))
          settings.jwt_secret_key
          algorithm
          now
        ≡ ok claims
    pub typed : is_access crypto claims.claim_type ≡ true
    pub is : admin ≡ record { username = claims.sub; expires_at = claims.exp }

  -- The guard lets a request through only if admin authentication is configured and the header
  -- carries a bearer token that decodes under the secret at this time and is of the access type.
  pub require_admin-IsAdmitted :
      (settings : AdminSettings) (authorization : Option Text) (now : ℕ) (admin : AdminContext)
      → require_admin crypto settings authorization now ≡ ok admin
      → IsAdmitted settings authorization now admin
  unfolding require_admin decode_access_token
  require_admin-IsAdmitted settings authorization now admin h =
      elim (Bool-cases (admin_auth_configured settings)) [
        | inr unset ↦ absurd (cc (rw unset at h))
        | inl set ↦
            elim (Bool-cases
              (starts_with bearer_prefix (lower (header_or_empty crypto authorization)))) [
                | inr none_given ↦ absurd (cc (rw (set, none_given) at h))
                | inl scheme ↦
                    decoded_by set scheme
                      (crypto.jwt_decode
                        (strip (drop crypto 7 (header_or_empty crypto authorization)))
                        settings.jwt_secret_key algorithm now)
                      refl (rw (set, scheme) at h)
              ]
      ]
    where
      decoded_by :
          admin_auth_configured settings ≡ true
          → starts_with bearer_prefix (lower (header_or_empty crypto authorization)) ≡ true
          → (r : Result TokenError Claims)
          → crypto.jwt_decode
              (strip (drop crypto 7 (header_or_empty crypto authorization)))
              settings.jwt_secret_key
              algorithm
              now
            ≡ r
          → or_unauthorized crypto (context_of crypto r) ≡ ok admin
          → IsAdmitted settings authorization now admin
      decoded_by set scheme (err expired_signature) e k = absurd (cc k)
      decoded_by set scheme (err invalid_token) e k = absurd (cc k)
      decoded_by set scheme (ok claims) e k =
          elim (Bool-cases (is_access crypto claims.claim_type)) [
            | inr other ↦ absurd (cc (rw other at k))
            | inl access ↦ record {
              claims = claims;
              configured = set;
              scheme = scheme;
              valid = e;
              typed = access;
              is = of_ok (rw access at k);
            }
          ]
        where
          of_ok :
              {a : AdminContext}
              → ◌≡◌ {A = Result AdminError AdminContext} (ok a) (ok admin)
              → admin ≡ a
          of_ok e' = cc e'
