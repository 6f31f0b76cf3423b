-- ===== src/Postgres/AuthRepo/Sql.antt =====
-- What the repository of accounts relies on: SQL on the tables users and refresh_tokens, with their
-- unique logins and token hashes.
use pet_urls.Prelude.{ℕ, ◌≡◌, ◌≢◌, Bytes, true, Option, none, some, is_some}
use pet_urls.Prelude.Int.{ℤ, to_micros}
use pet_urls.Errors.{Result, ok}
use pet_urls.Auth.Types.{RefreshTokenInRepo, UserInRepo}
use pet_urls.Auth.Accounts.{Still, Evolves}
use pet_urls.Postgres.Retry.{Deadline}
use pet_urls.Postgres.Database.{Database, insert_refresh_token, revoke_refresh_token}
use pet_urls.Postgres.AuthRepo.{user_of, session_of}

module _ {W : Type 0} (ctx : Deadline W) (db : Database W) (users : W → Bytes → Option UserInRepo)
    (sessions : W → Bytes → Option RefreshTokenInRepo) where
  abbrev pub insert : Bytes → Bytes → ℤ → W → Result (Unit {0}) × W
  insert h u x = db.exec (insert_refresh_token h u x)

  abbrev pub revoke : Bytes → W → Result (Unit {0}) × W
  revoke h = db.exec (revoke_refresh_token h)

  pub record AccountSql : Type 0 where
    pub ping_still : (w : W) → Still users sessions w (db.ping w).1
    pub sleep_still : (pause : ℕ) (w : W) → Still users sessions w (ctx.sleep pause w).1
    pub select_user_still : (n : Bytes) (w : W) → Still users sessions w (db.select_user n w).1
    pub select_session_still :
        (h : Bytes) (w : W) → Still users sessions w (db.select_refresh_token h w).1
    pub select_user_row :
        (n : Bytes) (w : W) (u : Bytes × Bytes)
        → (db.select_user n w).0 ≡ ok u
        → users w n ≡ some (user_of n u)
    pub select_session_row :
        (h : Bytes) (w : W) (s : Bytes × ℤ × Option ℤ)
        → (db.select_refresh_token h w).0 ≡ ok s
        → sessions w h ≡ some (session_of h s)
    pub insert_user_evolves :
        (n p : Bytes) (w : W) → Evolves users sessions w (db.insert_user n p w).1
    pub insert_user_done :
        (n p : Bytes) (w : W) (id : Bytes)
        → (db.insert_user n p w).0 ≡ ok id
        → (users w n ≡ none) × (users (db.insert_user n p w).1 n ≡ some (user_of n (id, p)))
    pub insert_evolves : (h u : Bytes) (x : ℤ) (w : W) → Evolves users sessions w (insert h u x w).1
    pub insert_done :
        (h u : Bytes) (x : ℤ) (w : W) (o : Unit {0})
        → (insert h u x w).0 ≡ ok o
        → sessions (insert h u x w).1 h ≡ some (session_of h (u, to_micros x, none))
    pub revoke_evolves : (h : Bytes) (w : W) → Evolves users sessions w (revoke h w).1
    pub revoke_done :
        (h : Bytes) (w : W) (o : Unit {0}) (r : RefreshTokenInRepo)
        → (revoke h w).0 ≡ ok o
        → sessions (revoke h w).1 h ≡ some r
        → is_some r.revoked_at ≡ true
    pub revoke_others : (h k : Bytes) (w : W) → k ≢ h → sessions (revoke h w).1 k ≡ sessions w k
