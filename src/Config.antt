-- ===== src/Config.antt =====
-- cmd/app/config.go: the configuration from the environment variables. os.LookupEnv and strconv.Atoi
-- are parameters.
pub mod Exact
use pet_urls.Prelude.{String, Bytes, codes, Bool, false, Option, none, some, List, [], ◌∷◌, ◌=b=◌}
use Prim.Native.String.{◌++◌}
use pet_urls.Prelude.Int.{ℤ, pos}
use pet_urls.Errors.{GoError, plain, wrap, Result, ok, err}
use pet_urls.Http.Settings.{ServerConfig}
use pet_urls.Postgres.Pool.{PostgresConfig}
use pet_urls.Redis.Options.{RedisConfig}

pub record OsEnv : Type 0 where
  pub lookup : String → Option Bytes
  pub atoi : Bytes → Result ℤ

pub record AppConfig : Type 0 where
  pub debug : Bool
  pub server_config : ServerConfig
  pub pg_config : PostgresConfig
  pub cache_config : RedisConfig

-- A step that returns its error at once.
abbrev pub and_then : {A B : Type 0} → Result A → (A → Result B) → Result B
and_then (ok a) f = f a
and_then (err e) f = err e

-- `fmt.Errorf` with %w of an error.
abbrev pub in_context : {A : Type 0} → String → Result A → Result A
in_context text (ok a) = ok a
in_context text (err e) = err (wrap text e)

abbrev pub required : {A : Type 0} → GoError → Option A → Result A
required e none = err e
required e (some a) = ok a

module _ (os : OsEnv) where
  open os use {lookup, atoi}

  int_of_text : String → Result ℤ → Result ℤ
  int_of_text key (ok val) = ok val
  int_of_text key (err _) = err (plain (key ++ " ENV variable must be of type int"))

  int_of : String → Option Bytes → Result ℤ
  unfolding int_of_text
  int_of key none = ok (pos 0)
  int_of key (some text) = int_of_text key (atoi text)

  unfoldable pub lookup_env_int : String → Result ℤ
  unfolding int_of
  lookup_env_int key = int_of key (lookup key)

  -- The loop over the keys, each with the field that its value is written to.
  unfoldable pub load_ints : {C : Type 0} → List (String × (ℤ → C → C)) → C → Result C
  load_ints [] c = ok c
  load_ints ((key, set) ∷ fields) c =
      and_then (lookup_env_int key) (λ val. load_ints fields (set val c))

  abbrev pub postgres_fields : List (String × (ℤ → PostgresConfig → PostgresConfig))
  postgres_fields =
      ("POSTGRES_MAX_CONN_LIFETIME_SECONDS", λ n c. record c { max_conn_lifetime_seconds = n })
      ∷ ("POSTGRES_MAX_CONN_IDLE_TIME_SECONDS", λ n c. record c { max_conn_idle_time_seconds = n })
      ∷ ("POSTGRES_MAX_CONNS", λ n c. record c { max_conns = n })
      ∷ ("POSTGRES_MIN_CONNS", λ n c. record c { min_conns = n })
      ∷ ("POSTGRES_MIN_IDLE_CONNS", λ n c. record c { min_idle_conns = n })
      ∷ ("POSTGRES_HEALTHCHECK_PERIOD_SECONDS", λ n c. record c { health_check_period_seconds = n })
      ∷ []

  abbrev pub new_postgres_config : Bytes → PostgresConfig
  new_postgres_config dsn = record {
    dsn = dsn;
    max_conn_lifetime_seconds = pos 0;
    max_conn_idle_time_seconds = pos 0;
    max_conns = pos 0;
    min_conns = pos 0;
    min_idle_conns = pos 0;
    health_check_period_seconds = pos 0;
  }

  unfoldable pub load_postgres_config_from_env : Result PostgresConfig
  unfolding load_ints
  load_postgres_config_from_env =
      and_then (required (plain "POSTGRES_DSN key is required") (lookup "POSTGRES_DSN"))
        (λ dsn. load_ints postgres_fields (new_postgres_config dsn))

  -- The size of the pool stands twice.
  abbrev pub redis_fields : List (String × (ℤ → RedisConfig → RedisConfig))
  redis_fields =
      ("REDIS_POOL_SIZE", λ n c. record c { pool_size = n })
      ∷ ("REDIS_POOL_SIZE", λ n c. record c { pool_size = n })
      ∷ ("REDIS_MIN_IDLE_CONNS", λ n c. record c { min_idle_conns = n })
      ∷ ("REDIS_MAX_IDLE_CONNS", λ n c. record c { max_idle_conns = n })
      ∷ ("REDIS_CONN_MAX_IDLE_TIME_SECONDS", λ n c. record c { conn_max_idle_time_seconds = n })
      ∷ []

  abbrev pub new_redis_config : Bytes → RedisConfig
  new_redis_config url = record {
    redis_url = url;
    pool_size = pos 0;
    min_idle_conns = pos 0;
    max_idle_conns = pos 0;
    conn_max_idle_time_seconds = pos 0;
  }

  unfoldable pub load_redis_config_from_env : Result RedisConfig
  unfolding load_ints
  load_redis_config_from_env =
      and_then (required (plain "REDIS_URL key is required") (lookup "REDIS_URL"))
        (λ url. load_ints redis_fields (new_redis_config url))

  -- `os.Getenv`: empty where the variable is not set.
  abbrev pub getenv : Option Bytes → Bytes
  getenv none = []
  getenv (some text) = text

  unfoldable pub load_config : Result AppConfig
  load_config = and_then (lookup_env_int "PORT") (λ port.
      and_then (in_context "loading postgres config" load_postgres_config_from_env) (λ pg_config.
        and_then (in_context "loading redis config" load_redis_config_from_env) (λ redis_config.
          let debug = getenv (lookup "LOG_LEVEL") =b= codes "DEBUG" in
          ok (record {
            debug = debug;
            server_config = record { debug = debug; port = port; host = []; registry = false };
            pg_config = pg_config;
            cache_config = redis_config;
          }))))

  unfoldable pub load_jwt_key : Result Bytes
  load_jwt_key = required (plain "SECRET_JWT_KEY env key missing") (lookup "SECRET_JWT_KEY")
