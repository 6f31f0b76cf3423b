-- ===== src/Shortener/Types.antt =====
-- Types, defaults and configuration of internal/services/shortener/shortener.go, and the interfaces
-- of dependencies.go. The world `W` is whatever the dependencies read and change.
use pet_urls.Prelude.{ℕ, ◌*◌, Bytes, Option, none, some, if◌then◌else◌}
use pet_urls.Prelude.Int.{ℤ, pos, eq_ℤ, to_micros}
use pet_urls.Prelude.Action.{Action}
use pet_urls.Errors.{GoError, Result}
use pet_urls.Url.{UrlLib}

-- Nanoseconds.
abbrev pub second : ℕ
second = 1000000000

abbrev pub default_token_ttl : ℤ
default_token_ttl = pos (3600 * second)

abbrev pub default_max_cache_ttl : ℤ
default_max_cache_ttl = pos (600 * second)

abbrev pub default_token_length : ℤ
default_token_length = pos 8

-- A nil `ID` is `none`.
pub record UrlToken : Type 0 where
  pub token : Bytes
  pub url : Bytes
  pub expires_at : ℤ
  pub owner_id : Option Bytes

-- What a repository keeps of a token: its expiry only to the microsecond.
abbrev pub kept_row : UrlToken → UrlToken
kept_row r = record r { expires_at = to_micros r.expires_at }

pub record CreateTokenInput : Type 0 where
  pub url : Bytes
  pub ttl : ℤ
  pub token : Bytes
  pub owner_id : Option Bytes

pub record Config : Type 0 where
  pub cache_ttl : ℤ
  pub token_ttl : ℤ
  pub token_decoded_length : ℤ

pub record Settings : Type 0 where
  pub max_cache_ttl : ℤ
  pub token_ttl : ℤ
  pub token_decoded_length : ℤ

unfoldable pub apply_config : Config → Settings
apply_config c = record {
  max_cache_ttl = if eq_ℤ c.cache_ttl (pos 0) then default_max_cache_ttl else c.cache_ttl;
  token_ttl = if eq_ℤ c.token_ttl (pos 0) then default_token_ttl else c.token_ttl;
  token_decoded_length =
      if eq_ℤ c.token_decoded_length (pos 0) then default_token_length else c.token_decoded_length;
}

pub record Repository (W : Type 0) : Type 0 where
  pub health_check : Action W (Option GoError)
  pub save_token : UrlToken → Action W (Option GoError)
  pub get_token : Bytes → Action W (Result UrlToken)
  pub delete_token : Bytes → Action W (Option GoError)

-- `get_token` gives `ok none` on a miss.
pub record Cache (W : Type 0) : Type 0 where
  pub health_check : Action W (Option GoError)
  pub save_token : Bytes → Bytes → ℤ → Action W (Option GoError)
  pub get_token : Bytes → Action W (Result (Option Bytes))
  pub delete_token : Bytes → Action W (Option GoError)

-- What the service takes from outside: the clock, crypto/rand and the base58 package. `rand_read` makes
-- the buffer, too; the panic of `make` on a negative length is not modelled.
pub record Env (W : Type 0) : Type 0 where
  pub now : Action W ℤ
  pub rand_read : ℤ → Action W (Result Bytes)
  pub base58_encode : Bytes → Bytes

-- The struct `shortener`, with the URL library that its helpers call.
pub record Shortener (W : Type 0) : Type 0 where
  pub lib : UrlLib
  pub env : Env W
  pub repo : Repository W
  pub cache : Cache W
  pub settings : Settings

-- `New`, with a nil dependency as `none`; its panic is `none` too.
unfoldable pub new :
    {W : Type 0}
    → UrlLib
    → Env W
    → Option (Repository W)
    → Option (Cache W)
    → Config
    → Option (Shortener W)
new lib env none cache config = none
new lib env (some repo) none config = none
new lib env (some repo) (some cache) config =
    some
      (record { lib = lib; env = env; repo = repo; cache = cache; settings = apply_config config })
