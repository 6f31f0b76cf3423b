-- ===== src/Auth/Service.antt =====
-- The methods of internal/services/auth/auth.go and the helpers of hash.go. The calls of the logger
-- are left out: they change nothing that a method reads.
use pet_urls.Prelude.{Bytes, Bool, not, Option, none, some, [], ltb, length, is_some, if◌then◌else◌}
use pet_urls.Prelude.Int.{◌+ℤ◌, ltb_ℤ}
use pet_urls.Prelude.Action.{Action, pure, ◌>>=◌}
use pet_urls.Errors.{
  GoError, sentinel, wrap, plain, Result, ok, err, invalid_login, invalid_password,
  login_not_unique, invalid_credentials, invalid_auth_token, is_not_unique_error,
  is_not_found_error,
}
use pet_urls.Base64
use pet_urls.Auth.Types.{RefreshTokenInRepo, UserInRepo, Auth}
use pet_urls.Auth.Jwt.{JwtClaims, Outcome, returned, panicked, generate_jwt, parse_jwt}

abbrev pub to_base64 : Bytes → Bytes
to_base64 id = Base64.encode id

abbrev pub user_id_from_base64 : Bytes → Option Bytes
user_id_from_base64 s = Base64.decode s

abbrev pub decoded : Option Bytes → Result Bytes
decoded none = err (wrap "auth, parsing userID" (sentinel invalid_auth_token))
decoded (some user_id) = ok user_id

module _ {W : Type 0} (a : Auth W) where
  open a use {env, jwt, repo, key, settings}

  unfoldable pub password_matches_hash : Bytes → Bytes → Bool
  password_matches_hash password hash = not (is_some (env.compare_hash_and_password hash password))

  abbrev pub hash_token : Bytes → Bytes
  hash_token token = env.sha256 token

  abbrev health_error : Option GoError → Option GoError
  health_error none = none
  health_error (some _) = some (plain "auth, repo healthcheck fail")

  unfoldable pub health_check : Action W (Option GoError)
  health_check = do e ← repo.health_check; pure (health_error e)

  -- The error of `Register` for what the repository reported.
  unfoldable pub save_user_error : Result Bytes → Option GoError
  save_user_error (ok _) = none
  save_user_error (err e) =
      if is_not_unique_error (some e)
      then some (wrap "auth, saving user" (sentinel login_not_unique))
      else some (plain "auth, saving user: repo failure")

  -- `Register` after the hash of the password.
  unfoldable pub after_hash : Bytes → Result Bytes → Action W (Option GoError)
  after_hash login (err _) = pure (some (wrap "auth, hashing password" (sentinel invalid_password)))
  after_hash login (ok hash) = do
    saved ← repo.save_user (record { id = []; login = login; password_hash = hash })
    pure (save_user_error saved)

  unfoldable pub register : Bytes → Bytes → Action W (Option GoError)
  register login password =
      if ltb 64 (length login)
      then pure (some (wrap "auth, registering" (sentinel invalid_login)))
      else do hash ← env.generate_from_password password; after_hash login hash

  abbrev issued : Bytes → Option GoError → Result Bytes
  issued token none = ok token
  issued token (some _) = err (plain "saving new refresh token to repo")

  -- `issueRefreshToken` after the draw of the UUID.
  unfoldable pub after_uuid : Bytes → Result Bytes → Action W (Result Bytes)
  after_uuid user_id (err e) = pure (err e)
  after_uuid user_id (ok token) = do
    now ← env.now
    e ← repo.save_refresh_token (record {
      hash = hash_token token;
      user_id = user_id;
      expires_at = now +ℤ settings.refresh_token_ttl;
      revoked_at = none;
    })
    pure (issued token e)

  unfoldable pub issue_refresh_token : Bytes → Action W (Result Bytes)
  issue_refresh_token user_id = do token ← env.new_uuid; after_uuid user_id token

  abbrev generated : Result Bytes → Result Bytes
  generated (ok token) = ok token
  generated (err _) = err (plain "generating JWT")

  unfoldable pub issue_access_token : Bytes → Action W (Result Bytes)
  issue_access_token user_id = do
    now ← env.now
    pure (
        generated (
          generate_jwt jwt
            (record { user_id = to_base64 user_id; expires_at = now +ℤ settings.access_token_ttl })
            key))

  abbrev pair_of : Bytes → Result Bytes → Result (Bytes × Bytes)
  pair_of refresh (err e) = err (wrap "auth, issuing access token" e)
  pair_of refresh (ok access) = ok (refresh, access)

  -- `Login` after the refresh token.
  unfoldable pub after_refresh_token : Bytes → Result Bytes → Action W (Result (Bytes × Bytes))
  after_refresh_token user_id (err e) = pure (err (wrap "auth, issuing refresh token" e))
  after_refresh_token user_id (ok refresh) = do
    access ← issue_access_token user_id
    pure (pair_of refresh access)

  -- `Login` after the lookup of the user.
  unfoldable pub after_user : Bytes → Result UserInRepo → Action W (Result (Bytes × Bytes))
  after_user password (err e) =
      if is_not_found_error (some e)
      then pure (err (wrap "auth, fetching user from repo" (sentinel invalid_credentials)))
      else pure (err (plain "auth, fetching user from repo failed"))
  after_user password (ok user) =
      if not (password_matches_hash password user.password_hash)
      then pure (err (wrap "auth, validating password" (sentinel invalid_credentials)))
      else do refresh ← issue_refresh_token user.id; after_refresh_token user.id refresh

  -- The refresh token and the access token.
  unfoldable pub login : Bytes → Bytes → Action W (Result (Bytes × Bytes))
  login name password = do user ← repo.get_user name; after_user password user

  abbrev logout_error : Option GoError → Option GoError
  logout_error none = none
  logout_error (some _) = some (plain "auth, revoking refresh token: internal")

  unfoldable pub logout : Bytes → Action W (Option GoError)
  logout candidate = do e ← repo.revoke_refresh_token (hash_token candidate); pure (logout_error e)

  abbrev accessed : Result Bytes → Result Bytes
  accessed (ok token) = ok token
  accessed (err e) = err (wrap "auth, issuing access token" e)

  -- `Refresh` after the lookup of the refresh token.
  unfoldable pub after_session : Result RefreshTokenInRepo → Action W (Result Bytes)
  after_session (err e) =
      if is_not_found_error (some e)
      then pure (err (wrap "auth, fetching refresh token" (sentinel invalid_auth_token)))
      else pure (err (plain "auth, fetching refresh token failed"))
  after_session (ok session) =
      if is_some session.revoked_at
      then pure (err (wrap "auth, refreshing token" (sentinel invalid_auth_token)))
      else do
        now ← env.now
        if ltb_ℤ session.expires_at now
            then pure (err (wrap "auth, refreshing token" (sentinel invalid_auth_token)))
            else do access ← issue_access_token session.user_id; pure (accessed access)

  unfoldable pub refresh : Bytes → Action W (Result Bytes)
  refresh candidate = do
    session ← repo.get_refresh_token (hash_token candidate)
    after_session session

  -- `Authenticate` after the parsing of the token.
  unfoldable pub after_claims : Outcome JwtClaims → Action W (Outcome Bytes)
  after_claims panicked = pure panicked
  after_claims (returned (err _)) =
      pure (returned (err (wrap "auth, parsing tokenCandidate" (sentinel invalid_auth_token))))
  after_claims (returned (ok claims)) = do
    now ← env.now
    if ltb_ℤ claims.expires_at now
        then pure
            (returned (err (wrap "auth, validation tokenCandidate" (sentinel invalid_auth_token))))
        else pure (returned (decoded (user_id_from_base64 claims.user_id)))

  unfoldable pub authenticate : Bytes → Action W (Outcome Bytes)
  authenticate candidate = after_claims (parse_jwt jwt candidate key)
