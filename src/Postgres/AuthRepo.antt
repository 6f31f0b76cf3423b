-- ===== src/Postgres/AuthRepo.antt =====
-- internal/db/postgres/authRepo.go.
pub mod Sql
pub mod Promises
use pet_urls.Prelude.{Bytes, Bool, Option, none, some, if◌then◌else◌}
use pet_urls.Prelude.Int.{ℤ}
use pet_urls.Prelude.Action.{Action, pure, ◌>>=◌}
use pet_urls.Errors.{GoError, Result, ok, err, wrap, not_unique, not_found, error_of}
use pet_urls.Auth.Types.{RefreshTokenInRepo, UserInRepo, Repository}
use pet_urls.Postgres.Errors.{is_unique_violation, is_no_rows}
use pet_urls.Postgres.Retry.{Deadline, with_retry}
use pet_urls.Postgres.Database
use pet_urls.Postgres.Database.{Database, insert_refresh_token}

unfoldable pub saved_user : Result Bytes → Result Bytes
saved_user (ok id) = ok id
saved_user (err e) =
    if is_unique_violation e then err (not_unique e) else err (wrap "postgres, saving user" e)

abbrev pub user_of : Bytes → Bytes × Bytes → UserInRepo
user_of login (id, hash) = record { id = id; login = login; password_hash = hash }

unfoldable pub fetched_user : Bytes → Result (Bytes × Bytes) → Result UserInRepo
fetched_user login (ok u) = ok (user_of login u)
fetched_user login (err e) =
    if is_no_rows e
    then err (wrap "postgres, fetching user" (not_found e))
    else err (wrap "postgres, fetching user" e)

unfoldable pub saved_session : Result (Unit {0}) → Option GoError
saved_session (ok _) = none
saved_session (err e) = some (wrap "postgres, saving refresh token" e)

abbrev pub session_of : Bytes → Bytes × ℤ × Option ℤ → RefreshTokenInRepo
session_of hash (user_id, expires_at, revoked_at) = record {
  hash = hash;
  user_id = user_id;
  expires_at = expires_at;
  revoked_at = revoked_at;
}

unfoldable pub fetched_session : Bytes → Result (Bytes × ℤ × Option ℤ) → Result RefreshTokenInRepo
fetched_session hash (ok s) = ok (session_of hash s)
fetched_session hash (err e) =
    if is_no_rows e
    then err (wrap "postgres, fetching token" (not_found e))
    else err (wrap "postgres, fetching token" e)

module _ {W : Type 0} (ctx : Deadline W) (db : Database W) where
  unfoldable pub health_check : Action W (Option GoError)
  health_check = db.ping

  -- The ID of the argument is not stored: the database draws one.
  unfoldable pub save_user : UserInRepo → Action W (Result Bytes)
  save_user user = do
    r ← with_retry ctx (db.insert_user user.login user.password_hash)
    pure (saved_user r)

  unfoldable pub get_user : Bytes → Action W (Result UserInRepo)
  get_user login = do r ← with_retry ctx (db.select_user login); pure (fetched_user login r)

  unfoldable pub save_refresh_token : RefreshTokenInRepo → Action W (Option GoError)
  save_refresh_token token = do
    r ← with_retry ctx (db.exec (insert_refresh_token token.hash token.user_id token.expires_at))
    pure (saved_session r)

  unfoldable pub get_refresh_token : Bytes → Action W (Result RefreshTokenInRepo)
  get_refresh_token token_hash = do
    r ← with_retry ctx (db.select_refresh_token token_hash)
    pure (fetched_session token_hash r)

  unfoldable pub revoke_refresh_token : Bytes → Action W (Option GoError)
  revoke_refresh_token token_hash = do
    r ← with_retry ctx (db.exec (Database.revoke_refresh_token token_hash))
    pure (error_of r)

  abbrev pub auth_repository : Repository W
  auth_repository = record {
    health_check = health_check;
    save_user = save_user;
    get_user = get_user;
    save_refresh_token = save_refresh_token;
    get_refresh_token = get_refresh_token;
    revoke_refresh_token = revoke_refresh_token;
  }
