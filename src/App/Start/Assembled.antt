-- ===== src/App/Start/Assembled.antt =====
-- What a process that has started up has been put together from.
use pet_urls.Prelude.{Bytes, codes, ◌++◌, true, Option, none, some, ◌≡◌, refl, sym, ap}
use pet_urls.Errors.{GoError, Result, ok, err, ok-injective}
use pet_urls.Config.{AppConfig, load_config, load_jwt_key, required}
use pet_urls.Config.Exact.{IsAppConfig, load_config_iff}
use pet_urls.Postgres.Pool
use pet_urls.Postgres.Pool.{PostgresConfig}
use pet_urls.Redis.Options
use pet_urls.Redis.Options.{RedisConfig, Options}
use pet_urls.Postgres.ShortenerRepo.{shortener_repository}
use pet_urls.Postgres.AuthRepo.{auth_repository}
use pet_urls.Redis.{shortener_cache}
use pet_urls.Auth.Types as AuthTypes
use pet_urls.Http.Settings.{port_or_default, apply_config}
use pet_urls.App.{auth_config}
use pet_urls.App.Start.{
  Platform, App, ready, open_pool, new_postgres, open_client, new_redis, assemble, after_key,
  after_redis, after_postgres, after_config, start_up,
}

ready-injective : {W : Type 0} {a b : App W} → ready a ≡ ready b → a ≡ b
ready-injective h = cc

module _ {W B P R C : Type 0} (p : Platform W B P R C) where
  -- The pool was opened for this configuration of Postgres.
  pub record IsOpened (config : PostgresConfig) (w : W) (pool : P) (w' : W) : Type 0 where
    pub base : B
    pub parsed : p.parse_config config.dsn ≡ ok base
    pub opened : p.new_with_config base (Pool.apply_app_config config) w ≡ (ok pool, w')

  -- The client was made for this configuration of Redis.
  pub record IsConnected (config : RedisConfig) (w : W) (client : C) (w' : W) : Type 0 where
    pub options : R
    pub parsed : p.parse_url config.redis_url ≡ ok options
    pub made : p.new_client options (Options.apply_app_config config) w ≡ (client, w')

  -- The services of `app` hold that key, sign and check with it, and reach the database through that
  -- pool and the cache through that client.
  pub record StandsOn (config : AppConfig) (pool : P) (client : C) (jwt_key : Bytes) (app : App W)
      : Type 0 where
    pub key : app.api.auth.key ≡ jwt_key
    pub jwt : app.api.auth.jwt ≡ p.jwt
    pub sessions : app.api.auth.repo ≡ auth_repository p.deadline (p.database pool)
    pub lifetimes : app.api.auth.settings ≡ AuthTypes.apply_config auth_config
    pub rows : app.api.shortener.repo ≡ shortener_repository p.deadline (p.database pool)
    pub entries : app.api.shortener.cache ≡ shortener_cache (p.redis client)
    pub addr :
        app.settings.addr
        ≡ config.server_config.host
          ++ codes ":"
          ++ p.decimal (port_or_default config.server_config.port)
    pub metrics : app.settings.metrics ≡ true
    pub debug : app.api.debug ≡ config.server_config.debug

  assemble-StandsOn :
      (config : AppConfig) (pool : P) (client : C) (jwt_key : Bytes)
      → StandsOn config pool client jwt_key (assemble p config pool client jwt_key)
  unfolding assemble apply_config
  assemble-StandsOn config pool client jwt_key = record {
    key = refl;
    jwt = refl;
    sessions = refl;
    lifetimes = refl;
    rows = refl;
    entries = refl;
    addr = refl;
    metrics = refl;
    debug = refl;
  }

  pub record IsStarted (w : W) (app : App W) (w' : W) : Type 0 where
    pub config : AppConfig
    pub loaded : IsAppConfig p.os config
    pub pool : P
    pub between : W
    pub opened : IsOpened config.pg_config w pool between
    pub client : C
    pub connected : IsConnected config.cache_config between client w'
    pub jwt_key : Bytes
    pub key : p.os.lookup "SECRET_JWT_KEY" ≡ some jwt_key
    pub stands : StandsOn config pool client jwt_key app

  open_pool-IsOpened :
      (config : PostgresConfig) (x : Result B) (w : W) (pool : P)
      → p.parse_config config.dsn ≡ x
      → (open_pool p config x w).0 ≡ ok pool
      → IsOpened config w pool (open_pool p config x w).1
  unfolding open_pool
  open_pool-IsOpened config (err e) w pool h k = cc
  open_pool-IsOpened config (ok base) w pool h k = record {
    base = base;
    parsed = h;
    opened = ap (λ x. (x, (p.new_with_config base (Pool.apply_app_config config) w).1)) k;
  }

  open_client-IsConnected :
      (config : RedisConfig) (x : Result R) (w : W) (client : C)
      → p.parse_url config.redis_url ≡ x
      → (open_client p config x w).0 ≡ ok client
      → IsConnected config w client (open_client p config x w).1
  unfolding open_client
  open_client-IsConnected config (err e) w client h k = cc
  open_client-IsConnected config (ok options) w client h k = record {
    options = options;
    parsed = h;
    made =
        ap (λ c. (c, (p.new_client options (Options.apply_app_config config) w).1))
          (ok-injective k);
  }

  required_key : (o : Option Bytes) (e : GoError) (k : Bytes) → required e o ≡ ok k → o ≡ some k
  required_key none e k h = cc
  required_key (some a) e k h = ap some (ok-injective h)

  key-some : (k : Bytes) → load_jwt_key p.os ≡ ok k → p.os.lookup "SECRET_JWT_KEY" ≡ some k
  unfolding load_jwt_key
  key-some k h = required_key (p.os.lookup "SECRET_JWT_KEY") _ k h

  after_key-ready :
      (config : AppConfig) (pool : P) (client : C) (x : Result Bytes) (w : W) (app : App W)
      → (after_key p config pool client x w).0 ≡ ready app
      → (k : Bytes) × (x ≡ ok k)
        × (app ≡ assemble p config pool client k)
        × ((after_key p config pool client x w).1 ≡ w)
  unfolding after_key
  after_key-ready config pool client (err e) w app h = cc
  after_key-ready config pool client (ok k) w app h = (k, refl, sym (ready-injective h), refl)

  module _ (config : AppConfig) (w : W) (loaded : IsAppConfig p.os config) where
    after_redis-IsStarted :
        (pool : P) (b c : W) (x : Result C) (app : App W)
        → IsOpened config.pg_config w pool b
        → ((client : C) → x ≡ ok client → IsConnected config.cache_config b client c)
        → (after_redis p config pool x c).0 ≡ ready app
        → IsStarted w app (after_redis p config pool x c).1
    unfolding after_redis
    after_redis-IsStarted pool b c (err e) app opened f h = cc
    after_redis-IsStarted pool b c (ok client) app opened f h =
        let (k, key, same, still) =
          after_key-ready config pool client (load_jwt_key p.os) c app h in
        rw (still, same)
          (record {
            config = config;
            loaded = loaded;
            pool = pool;
            between = b;
            opened = opened;
            client = client;
            connected = f client refl;
            jwt_key = k;
            key = key-some k key;
            stands = assemble-StandsOn config pool client k;
          })

    after_postgres-IsStarted :
        (b : W) (x : Result P) (app : App W)
        → ((pool : P) → x ≡ ok pool → IsOpened config.pg_config w pool b)
        → (after_postgres p config x b).0 ≡ ready app
        → IsStarted w app (after_postgres p config x b).1
    unfolding after_postgres new_redis
    after_postgres-IsStarted b (err e) app f h = cc
    after_postgres-IsStarted b (ok pool) app f h =
        after_redis-IsStarted pool b _ _ app (f pool refl)
          (λ client made.
            open_client-IsConnected config.cache_config (p.parse_url config.cache_config.redis_url)
              b client refl made)
          h

  after_config-IsStarted :
      (x : Result AppConfig) (w : W) (app : App W)
      → load_config p.os ≡ x
      → (after_config p x w).0 ≡ ready app
      → IsStarted w app (after_config p x w).1
  unfolding after_config new_postgres
  after_config-IsStarted (err e) w app h k = cc
  after_config-IsStarted (ok config) w app h k =
      after_postgres-IsStarted config w ((load_config_iff p.os config).0 h) _ _ app
        (λ pool opened.
          open_pool-IsOpened config.pg_config (p.parse_config config.pg_config.dsn) w pool refl
            opened)
        k

  -- A process gets past its start-up only with a configuration that its environment spells, a pool
  -- that was opened with the settings of that configuration, a client of Redis made with its settings,
  -- and the key of the variable SECRET_JWT_KEY. Its auth service then signs with that key and keeps its
  -- sessions in the database of that pool, with the default lifetimes; its shortener keeps its rows
  -- there and its entries with that client; and the server has the address of the configuration and a
  -- registry of metrics.
  pub start_up-IsStarted :
      (w : W) (app : App W) → (start_up p w).0 ≡ ready app → IsStarted w app (start_up p w).1
  unfolding start_up
  start_up-IsStarted w app h = after_config-IsStarted (load_config p.os) w app refl h
