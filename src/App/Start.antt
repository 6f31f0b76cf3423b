-- ===== src/App/Start.antt =====
-- The main function of cmd/app/main.go, with postgres.New and redis.New: from the environment to the
-- end of the process. The libraries behind both clients, the operating system and the HTTP server of
-- the standard library are parameters; the loggers are left out.
pub mod Assembled
use pet_urls.Prelude.{String, Bytes, Bool, true, Option, none, some}
use pet_urls.Prelude.Int.{ℤ}
use pet_urls.Prelude.Action.{Action, ◌>>=◌, pure}
use pet_urls.Errors.{GoError, Result, ok, err}
use pet_urls.Url.{UrlLib}
use pet_urls.Config.{OsEnv, AppConfig, load_config, load_jwt_key}
use pet_urls.Shortener.Types.{Env}
use pet_urls.Auth.Types as AuthTypes
use pet_urls.Auth.Types.{JwtLib}
use pet_urls.Postgres.Retry.{Deadline}
use pet_urls.Postgres.Database.{Database}
use pet_urls.Postgres.Pool
use pet_urls.Postgres.Pool.{PostgresConfig, PoolConfig}
use pet_urls.Redis.{RedisServer}
use pet_urls.Redis.Options
use pet_urls.Redis.Options.{RedisConfig, Options}
use pet_urls.Http.Settings.{ServerSettings, apply_config}
use pet_urls.Http.Middleware.{Handler, Server}
use pet_urls.Http.Api.{Libs, Api}
use pet_urls.Http.Routes.{Mux, api_server}
use pet_urls.App.{app_shortener, app_auth}

-- `P` and `C` are the connection pool and the client of Redis, `B` and `R` what is parsed of their
-- URLs.
pub record Platform (W B P R C : Type 0) : Type 0 where
  pub os : OsEnv
  pub parse_config : Bytes → Result B
  pub new_with_config : B → PoolConfig → Action W (Result P)
  pub database : P → Database W
  pub parse_url : Bytes → Result R
  pub new_client : R → Options → Action W C
  pub redis : C → RedisServer W
  pub url_lib : UrlLib
  pub env : Env W
  pub auth_env : AuthTypes.Env W
  pub jwt : JwtLib
  pub deadline : Deadline W
  pub libs : Libs
  pub decimal : ℤ → Bytes
  pub server : ServerSettings → Server W
  pub mux : Mux W
  -- `ListenAndServe` until the first of its own error and a signal
  pub serve_until : ServerSettings → Handler W → Action W (Option GoError)
  pub shutdown : Action W (Option GoError)

pub record App (W : Type 0) : Type 0 where
  pub settings : ServerSettings
  pub api : Api W

-- `lifecycleLogger.Fatal()` ends the process with the status 1.
pub data Ending : Type 0 where
  fatal : String → GoError → Ending
  finished : Ending

pub data Startup (W : Type 0) : Type 0 where
  refused : String → GoError → Startup W
  ready : App W → Startup W

module _ {W B P R C : Type 0} (p : Platform W B P R C) where
  open_pool : PostgresConfig → Result B → Action W (Result P)
  open_pool config (err e) w = (err e, w)
  open_pool config (ok base) w = p.new_with_config base (Pool.apply_app_config config) w

  -- `postgres.New`.
  unfoldable pub new_postgres : PostgresConfig → Action W (Result P)
  unfolding open_pool
  new_postgres config = open_pool config (p.parse_config config.dsn)

  open_client : RedisConfig → Result R → Action W (Result C)
  open_client config (err e) w = (err e, w)
  open_client config (ok options) w =
      let (c, w') = p.new_client options (Options.apply_app_config config) w in (ok c, w')

  -- `redis.New`.
  unfoldable pub new_redis : RedisConfig → Action W (Result C)
  unfolding open_client
  new_redis config = open_client config (p.parse_url config.redis_url)

  -- The server instance, with a registry of metrics.
  unfoldable pub assemble : AppConfig → P → C → Bytes → App W
  assemble config pool client jwt_key = record {
    settings = apply_config p.decimal (record config.server_config { registry = true });
    api = record {
      libs = p.libs;
      shortener = app_shortener p.url_lib p.env p.deadline (p.database pool) (p.redis client);
      auth =
          app_auth p.url_lib p.env p.deadline (p.database pool) (p.redis client) p.auth_env p.jwt
            jwt_key;
      debug = config.server_config.debug;
    };
  }

  after_key : AppConfig → P → C → Result Bytes → Action W (Startup W)
  after_key config pool client (err e) w = (refused "failed to load JWT key" e, w)
  after_key config pool client (ok jwt_key) w = (ready (assemble config pool client jwt_key), w)

  after_redis : AppConfig → P → Result C → Action W (Startup W)
  unfolding after_key
  after_redis config pool (err e) w = (refused "failed to init redis client" e, w)
  after_redis config pool (ok client) w = after_key config pool client (load_jwt_key p.os) w

  after_postgres : AppConfig → Result P → Action W (Startup W)
  unfolding after_redis
  after_postgres config (err e) w = (refused "failed to init postgres client" e, w)
  after_postgres config (ok pool) w =
      let (client, w') = new_redis config.cache_config w in after_redis config pool client w'

  after_config : Result AppConfig → Action W (Startup W)
  unfolding after_postgres
  after_config (err e) w = (refused "failed to load config" e, w)
  after_config (ok config) w =
      let (pool, w') = new_postgres config.pg_config w in after_postgres config pool w'

  unfoldable pub start_up : Action W (Startup W)
  unfolding after_config
  start_up = after_config (load_config p.os)

  -- An error of the server ends the process; after a signal the server is shut down, and an error of
  -- that is only logged.
  after_serve : Option GoError → Action W Ending
  after_serve (some e) w = (fatal "got error from runners, exiting now" e, w)
  after_serve none w = let (_, w') = p.shutdown w in (finished, w')

  after_start : Startup W → Action W Ending
  unfolding after_serve
  after_start (refused text e) w = (fatal text e, w)
  after_start (ready app) w =
      let (e, w') =
        p.serve_until app.settings (api_server (p.server app.settings) app.api p.mux) w in
      after_serve e w'

  unfoldable pub main : Action W Ending
  unfolding after_start
  main w = let (s, w') = start_up w in after_start s w'
