-- ===== src/Auth/Types.antt =====
-- Types, defaults and interfaces of internal/services/auth.
use pet_urls.Prelude.{ℕ, ◌*◌, Bytes, Option, none, some, if◌then◌else◌}
use pet_urls.Prelude.Int.{ℤ, pos, eq_ℤ, to_micros}
use pet_urls.Prelude.Action.{Action}
use pet_urls.Errors.{GoError, Result}

-- Nanoseconds.
abbrev pub second : ℕ
second = 1000000000

-- Seven days and fifteen minutes.
abbrev pub default_refresh_token_ttl : ℤ
default_refresh_token_ttl = pos (24 * 7 * 3600 * second)

abbrev pub default_access_token_ttl : ℤ
default_access_token_ttl = pos (15 * 60 * second)

pub record RefreshTokenInRepo : Type 0 where
  pub hash : Bytes
  pub user_id : Bytes
  pub expires_at : ℤ
  pub revoked_at : Option ℤ

-- What a repository keeps of a refresh token: its expiry only to the microsecond.
abbrev pub kept_session : RefreshTokenInRepo → RefreshTokenInRepo
kept_session r = record r { expires_at = to_micros r.expires_at }

-- The ID of a user that is not stored yet is nil, here the empty slice.
pub record UserInRepo : Type 0 where
  pub id : Bytes
  pub login : Bytes
  pub password_hash : Bytes

pub record Config : Type 0 where
  pub refresh_token_ttl : ℤ
  pub access_token_ttl : ℤ

pub record Settings : Type 0 where
  pub refresh_token_ttl : ℤ
  pub access_token_ttl : ℤ

unfoldable pub apply_config : Config → Settings
apply_config c = record {
  refresh_token_ttl =
      if eq_ℤ c.refresh_token_ttl (pos 0) then default_refresh_token_ttl else c.refresh_token_ttl;
  access_token_ttl =
      if eq_ℤ c.access_token_ttl (pos 0) then default_access_token_ttl else c.access_token_ttl;
}

pub record Repository (W : Type 0) : Type 0 where
  pub health_check : Action W (Option GoError)
  pub save_user : UserInRepo → Action W (Result Bytes)
  pub get_user : Bytes → Action W (Result UserInRepo)
  pub save_refresh_token : RefreshTokenInRepo → Action W (Option GoError)
  pub get_refresh_token : Bytes → Action W (Result RefreshTokenInRepo)
  pub revoke_refresh_token : Bytes → Action W (Option GoError)

-- The claims of a verified token as golang-jwt reads them: the subject, and the expiry, which is nil
-- where the token has none.
pub record Claims : Type 0 where
  pub subject : Result Bytes
  pub expiration_time : Result (Option ℤ)

-- golang-jwt with HS256. `sign` takes the subject, the expiry and the key, `parse` the token and the
-- key.
pub record JwtLib : Type 0 where
  pub numeric_date : ℤ → ℤ
  pub sign : Bytes → ℤ → Bytes → Result Bytes
  pub parse : Bytes → Bytes → Result Claims

-- The clock, the UUID generator, bcrypt and SHA-256.
pub record Env (W : Type 0) : Type 0 where
  pub now : Action W ℤ
  pub new_uuid : Action W (Result Bytes)
  pub generate_from_password : Bytes → Action W (Result Bytes)
  pub compare_hash_and_password : Bytes → Bytes → Option GoError
  pub sha256 : Bytes → Bytes

-- The struct `auth`, with the libraries that its helpers call.
pub record Auth (W : Type 0) : Type 0 where
  pub env : Env W
  pub jwt : JwtLib
  pub repo : Repository W
  pub key : Bytes
  pub settings : Settings

-- `New`, with a nil dependency as `none`; its panic is `none` too. The key function is the key that it
-- gives.
unfoldable pub new :
    {W : Type 0} → Env W → JwtLib → Option (Repository W) → Option Bytes → Config → Option (Auth W)
new env jwt none key config = none
new env jwt (some repo) none config = none
new env jwt (some repo) (some key) config =
    some (record { env = env; jwt = jwt; repo = repo; key = key; settings = apply_config config })
