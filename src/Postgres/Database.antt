-- ===== src/Postgres/Database.antt =====
-- The interface `Postgres` of internal/db/postgres/postgres.go with the SQL texts of the repositories:
-- each text is a constructor of `Statement` or a field of its own, with its arguments and the row that
-- it is scanned into. The pool and the server behind it are a parameter.
use pet_urls.Prelude.{Bytes, Option}
use pet_urls.Prelude.Int.{ℤ}
use pet_urls.Prelude.Action.{Action}
use pet_urls.Errors.{GoError, Result}

-- The texts that are run by `Exec`.
pub data Statement : Type 0 where
  -- INSERT INTO url_tokens (token, url, valid_until, owner_id)
  insert_url_token : Bytes → Bytes → ℤ → Option Bytes → Statement
  -- DELETE FROM url_tokens WHERE token = $1
  delete_url_token : Bytes → Statement
  -- INSERT INTO refresh_tokens (token_hash, user_id, expires_at)
  insert_refresh_token : Bytes → Bytes → ℤ → Statement
  -- UPDATE refresh_tokens SET revoked_at = NOW() WHERE token_hash = $1 AND revoked_at IS NULL
  revoke_refresh_token : Bytes → Statement

pub record Database (W : Type 0) : Type 0 where
  pub ping : Action W (Option GoError)
  pub exec : Statement → Action W (Result (Unit {0}))
  -- SELECT url, valid_until, owner_id FROM url_tokens WHERE token = $1
  pub select_url_token : Bytes → Action W (Result (Bytes × ℤ × Option Bytes))
  -- INSERT INTO users (login, password_hash) VALUES ($1, $2) RETURNING id
  pub insert_user : Bytes → Bytes → Action W (Result Bytes)
  -- SELECT id, password_hash FROM users WHERE login = $1
  pub select_user : Bytes → Action W (Result (Bytes × Bytes))
  -- SELECT user_id, expires_at, revoked_at FROM refresh_tokens WHERE token_hash = $1
  pub select_refresh_token : Bytes → Action W (Result (Bytes × ℤ × Option ℤ))
