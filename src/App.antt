-- ===== src/App.antt =====
-- cmd/app/main.go: how the services are put together from the repositories over Postgres, the cache
-- over Redis and the default configurations (here), and how the process starts and ends (Start).
pub mod Start
use pet_urls.Prelude.{◌≡◌, refl, Bytes, Option, some, List}
use pet_urls.Prelude.Int.{pos}
use pet_urls.Url.{UrlLib}
use pet_urls.Shortener.Types.{UrlToken, Env, Shortener, Config, apply_config}
use pet_urls.Shortener.Interface.{EnvLaws}
use pet_urls.Shortener.Coherence.{IsCoherent}
use pet_urls.Shortener.Requests.{Request, run, run-IsCoherent}
use pet_urls.Shortener.Types as ShortenerTypes
use pet_urls.Auth.Types as AuthTypes
use pet_urls.Auth.Types.{Auth, JwtLib}
use pet_urls.Postgres.Retry.{Deadline}
use pet_urls.Postgres.Database.{Database}
use pet_urls.Postgres.AuthRepo.{auth_repository}
use pet_urls.Postgres.ShortenerRepo.{shortener_repository}
use pet_urls.Postgres.ShortenerRepo.Sql.{DatabaseLaws}
use pet_urls.Postgres.ShortenerRepo.Promises.{shortener_repository-RepositoryLaws}
use pet_urls.Redis.{RedisServer, shortener_cache}
use pet_urls.Redis.Promises.{RedisLaws, shortener_cache-CacheLaws}

-- `shortener.Config{}` with nothing but a logger.
abbrev pub shortener_config : Config
shortener_config = record { cache_ttl = pos 0; token_ttl = pos 0; token_decoded_length = pos 0 }

abbrev pub auth_config : AuthTypes.Config
auth_config = record { refresh_token_ttl = pos 0; access_token_ttl = pos 0 }

module _ {W : Type 0} (lib : UrlLib) (env : Env W) (ctx : Deadline W) (db : Database W)
    (rdb : RedisServer W) where
  abbrev pub app_shortener : Shortener W
  app_shortener = record {
    lib = lib;
    env = env;
    repo = shortener_repository ctx db;
    cache = shortener_cache rdb;
    settings = apply_config shortener_config;
  }

  -- `auth.Config{}` with nothing but a logger; the key function gives the key that was loaded.
  abbrev pub app_auth : AuthTypes.Env W → JwtLib → Bytes → Auth W
  app_auth auth_env jwt jwt_key = record {
    env = auth_env;
    jwt = jwt;
    repo = auth_repository ctx db;
    key = jwt_key;
    settings = AuthTypes.apply_config auth_config;
  }

  -- Both `New` are called with every dependency there, and neither panics.
  new-app :
      (auth_env : AuthTypes.Env W) (jwt : JwtLib) (jwt_key : Bytes)
      → (ShortenerTypes.new lib env
            (some (shortener_repository ctx db))
            (some (shortener_cache rdb))
            shortener_config
          ≡ some app_shortener)
        × (AuthTypes.new auth_env jwt (some (auth_repository ctx db)) (some jwt_key) auth_config
            ≡ some (app_auth auth_env jwt jwt_key))
  unfolding ShortenerTypes.new AuthTypes.new
  new-app auth_env jwt jwt_key = (refl, refl)

  -- Over a database and a Redis server that keep to their documented behaviour on url tokens, no
  -- sequence of calls of the assembled service makes a cache entry differ from the stored row of its
  -- token.
  pub app_shortener-IsCoherent :
      (stored : W → Bytes → Option UrlToken) (cached : W → Bytes → Option Bytes)
      → EnvLaws stored cached env
      → DatabaseLaws ctx db stored cached
      → RedisLaws rdb stored cached
      → (rs : List Request) (w : W) → IsCoherent stored cached w
      → IsCoherent stored cached (run app_shortener rs w)
  app_shortener-IsCoherent stored cached env_laws db_laws redis_laws =
      run-IsCoherent app_shortener stored cached env_laws
        (shortener_repository-RepositoryLaws ctx db stored cached db_laws)
        (shortener_cache-CacheLaws rdb stored cached redis_laws)
