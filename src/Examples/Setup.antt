-- ===== src/Examples/Setup.antt =====
-- The configuration, the start of the process and the migrations command at concrete inputs.
use pet_urls.Prelude.{
  ℕ, ◌-◌, ◌≡◌, ◌⊎◌, refl, Bytes, codes, Bool, false, Option, none, some, List, [], ◌∷◌, arith,
  String, ◌=b=◌, if◌then◌else◌,
}
use pet_urls.Prelude.Int.{ℤ, pos}
use pet_urls.Errors.{plain, Result, ok, err}
use pet_urls.Config.{
  OsEnv, AppConfig, load_config, lookup_env_int, load_postgres_config_from_env,
  load_redis_config_from_env, load_jwt_key, load_ints,
}
use pet_urls.Postgres.Pool
use pet_urls.Postgres.Pool.{PostgresConfig, PoolConfig}
use pet_urls.Postgres.Pool.Bounds.{InRange, IsAsked, apply_app_config-IsAsked}
use pet_urls.App.Start.{Platform, App, ready, start_up, new_postgres, new_redis, assemble}
use pet_urls.App.Start.Assembled.{IsStarted, start_up-IsStarted}
use pet_urls.Migrate
use pet_urls.Migrate.{Flags, MigrateLib, Finish, command_of, run_command}
use pet_urls.Migrate.Schema.{QuietLib, Ran, main-Ran}
use pet_urls.Examples.Memory.{Memory, memory_db, patient, memory_redis, ticking, plain_urls, start}
use pet_urls.Examples.Site.{site_env, site_auth, site_libs, site_server, site_mux}

abbrev same_text : String → String → Bool
same_text a b = codes a =b= codes b

-- The URLs, the key and one number are set.
abbrev demo_lookup : String → Option Bytes
demo_lookup key =
    if same_text key "POSTGRES_DSN"
    then some (codes "pg")
    else if same_text key "REDIS_URL"
    then some (codes "rd")
    else if same_text key "SECRET_JWT_KEY"
    then some (codes "k")
    else if same_text key "POSTGRES_MAX_CONNS"
    then some (codes "7")
    else none

-- One digit.
abbrev demo_atoi : Bytes → Result ℤ
demo_atoi (c ∷ []) = ok (pos (c - b'0'))
demo_atoi _ = err (plain "invalid syntax")

abbrev demo_os : OsEnv
demo_os = record { lookup = demo_lookup; atoi = demo_atoi }

abbrev demo_pg : PostgresConfig
demo_pg = record {
  dsn = codes "pg";
  max_conn_lifetime_seconds = pos 0;
  max_conn_idle_time_seconds = pos 0;
  max_conns = pos 7;
  min_conns = pos 0;
  min_idle_conns = pos 0;
  health_check_period_seconds = pos 0;
}

abbrev demo_config : AppConfig
demo_config = record {
  debug = false;
  server_config = record { debug = false; port = pos 0; host = []; registry = false };
  pg_config = demo_pg;
  cache_config = record {
    redis_url = codes "rd";
    pool_size = pos 0;
    min_idle_conns = pos 0;
    max_idle_conns = pos 0;
    conn_max_idle_time_seconds = pos 0;
  };
}

config_steps : Unit {0}
unfolding ◌=b=◌ load_config lookup_env_int load_ints load_postgres_config_from_env
    load_redis_config_from_env load_jwt_key
config_steps = tt

config_loaded : load_config demo_os ≡ ok demo_config
unfolding config_steps
config_loaded = refl

demo_pg-InRange : InRange demo_pg
demo_pg-InRange = record {
  lifetime = (omega arith, omega arith);
  idle_time = (omega arith, omega arith);
  period = (omega arith, omega arith);
  conns = (omega arith, omega arith);
  least = (omega arith, omega arith);
  least_idle = (omega arith, omega arith);
}

apply_app_config-IsAsked_example : IsAsked demo_pg (Pool.apply_app_config demo_pg)
apply_app_config-IsAsked_example = apply_app_config-IsAsked demo_pg demo_pg-InRange

abbrev demo_platform : Platform Memory Bytes (Unit {0}) Bytes (Unit {0})
demo_platform = record {
  os = demo_os;
  parse_config = λ dsn. ok dsn;
  new_with_config = λ base config w. (ok tt, w);
  database = λ pool. memory_db;
  parse_url = λ url. ok url;
  new_client = λ url options w. (tt, w);
  redis = λ client. memory_redis;
  url_lib = plain_urls;
  env = ticking;
  auth_env = site_env;
  jwt = site_auth.jwt;
  deadline = patient;
  libs = site_libs;
  decimal = λ n. codes "80";
  server = λ settings. site_server;
  mux = site_mux;
  serve_until = λ settings handler w. (none, w);
  shutdown = λ w. (none, w);
}

abbrev demo_app : App Memory
demo_app = assemble demo_platform demo_config tt tt (codes "k")

started : (start_up demo_platform start).0 ≡ ready demo_app
unfolding start_up new_postgres new_redis config_steps
started = refl

start_up-IsStarted_example : IsStarted demo_platform start demo_app (start_up demo_platform start).1
start_up-IsStarted_example = start_up-IsStarted demo_platform start demo_app started

-- A database is the number of migrations that it has run.
abbrev demo_flags : List Bytes → Option Flags
demo_flags args = some (record { dsn = codes "pg"; dir = codes "m"; rest = args })

abbrev demo_migrate : MigrateLib ℕ (Unit {0}) (Unit {0})
demo_migrate = record {
  parse_flags = demo_flags;
  atoi = demo_atoi;
  open_db = λ dsn w. (ok tt, w);
  close_db = λ db w. w;
  with_instance = λ db w. (none, w);
  new_instance = λ dir db w. (ok tt, w);
  up = λ m w. (none, 3);
  steps = λ m n w. (none, w - 1);
  force = λ m n w. (none, 5);
  version = λ m w. (ok (w, false), w);
}

demo_migrate-QuietLib : QuietLib demo_migrate (λ w. w)
demo_migrate-QuietLib = record {
  open_db = λ dsn w. refl;
  close_db = λ db w. refl;
  with_instance = λ db w. refl;
  new_instance = λ dir db w. refl;
  version = λ m w. refl;
}

abbrev force_args : List Bytes
force_args = codes "migrate" ∷ codes "force" ∷ codes "2" ∷ []

main-Ran_example :
    ((Migrate.main demo_migrate force_args 1).1 ≡ 1)
    ⊎ Ran demo_migrate
        (λ w. w)
        demo_migrate-QuietLib
        force_args
        1
        (Migrate.main demo_migrate force_args 1).1
main-Ran_example = main-Ran demo_migrate (λ w. w) demo_migrate-QuietLib force_args 1
