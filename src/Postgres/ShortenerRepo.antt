-- ===== src/Postgres/ShortenerRepo.antt =====
-- internal/db/postgres/shortenerRepo.go.
pub mod Sql
pub mod Laws
pub mod Promises
use pet_urls.Prelude.{Bytes, Bool, Option, none, some, if◌then◌else◌}
use pet_urls.Prelude.Int.{ℤ}
use pet_urls.Prelude.Action.{Action, pure, ◌>>=◌}
use pet_urls.Errors.{GoError, Result, ok, err, wrap, not_unique, not_found, error_of}
use pet_urls.Shortener.Types.{UrlToken, Repository}
use pet_urls.Postgres.Errors.{is_unique_violation, is_no_rows}
use pet_urls.Postgres.Retry.{Deadline, with_retry}
use pet_urls.Postgres.Database.{Database, insert_url_token, delete_url_token}

unfoldable pub save_error : Result (Unit {0}) → Option GoError
save_error (ok _) = none
save_error (err e) =
    if is_unique_violation e
    then some (wrap "postgres, saving token" (not_unique e))
    else some (wrap "postgres, saving token" e)

abbrev pub row : Bytes → Bytes × ℤ × Option Bytes → UrlToken
row t (u, x, o) = record { token = t; url = u; expires_at = x; owner_id = o }

unfoldable pub fetched : Bytes → Result (Bytes × ℤ × Option Bytes) → Result UrlToken
fetched t (ok r) = ok (row t r)
fetched t (err e) =
    if is_no_rows e
    then err (wrap "postgres, fetching token" (not_found e))
    else err (wrap "postgres, fetching token" e)

module _ {W : Type 0} (ctx : Deadline W) (db : Database W) where
  unfoldable pub health_check : Action W (Option GoError)
  health_check = db.ping

  unfoldable pub save_token : UrlToken → Action W (Option GoError)
  save_token token = do
    r ←
        with_retry ctx
          (db.exec (insert_url_token token.token token.url token.expires_at token.owner_id))
    pure (save_error r)

  unfoldable pub get_token : Bytes → Action W (Result UrlToken)
  get_token token_str = do
    r ← with_retry ctx (db.select_url_token token_str)
    pure (fetched token_str r)

  unfoldable pub delete_token : Bytes → Action W (Option GoError)
  delete_token token = do r ← with_retry ctx (db.exec (delete_url_token token)); pure (error_of r)

  abbrev pub shortener_repository : Repository W
  shortener_repository = record {
    health_check = health_check;
    save_token = save_token;
    get_token = get_token;
    delete_token = delete_token;
  }
