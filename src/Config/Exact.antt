-- ===== src/Config/Exact.antt =====
-- What configuration the environment variables stand for, and when there is none.
use pet_urls.Prelude.{
  String, ◌≡◌, ◌↔◌, ◌⊎◌, refl, sym, ap, ◌∙◌, inl, inr, Bytes, codes, Option, none, some, List, [],
  ◌∷◌, ◌=b=◌, false,
}
use mathlib.Core.Path.{subst}
use pet_urls.Prelude.Int.{ℤ, pos}
use pet_urls.Errors.{GoError, Result, ok, err, ok-injective}
use pet_urls.Postgres.Pool.{PostgresConfig}
use pet_urls.Redis.Options.{RedisConfig}
use pet_urls.Config.{
  OsEnv, AppConfig, and_then, in_context, required, lookup_env_int, int_of, int_of_text, load_ints,
  postgres_fields, new_postgres_config, load_postgres_config_from_env, redis_fields,
  new_redis_config, load_redis_config_from_env, getenv, load_config,
}

and_then-ok :
    {A B : Type 0} (x : Result A) (f : A → Result B) (b : B)
    → and_then x f ≡ ok b
    → (a : A) × (x ≡ ok a) × (f a ≡ ok b)
and_then-ok (ok a) f b h = (a, refl, h)
and_then-ok (err e) f b h = cc

in_context-ok :
    {A : Type 0} (text : String) (x : Result A) (a : A) → in_context text x ≡ ok a → x ≡ ok a
in_context-ok text (ok a) b h = h
in_context-ok text (err e) b h = cc

required-ok : {A : Type 0} (e : GoError) (o : Option A) (a : A) → required e o ≡ ok a → o ≡ some a
required-ok e none a h = cc
required-ok e (some b) a h = ap some (ok-injective h)

module _ (os : OsEnv) where
  -- The variable is not set and the number 0, or it is set to a text of that number.
  abbrev pub Reads : String → ℤ → Type 0
  Reads key n =
      ((os.lookup key ≡ none) × (n ≡ pos 0))
      ⊎ ((text : Bytes) × (os.lookup key ≡ some text) × (os.atoi text ≡ ok n))

  int_of_text-ok : (key : String) (x : Result ℤ) (n : ℤ) → int_of_text os key x ≡ ok n → x ≡ ok n
  unfolding int_of_text
  int_of_text-ok key (ok m) n h = h
  int_of_text-ok key (err e) n h = cc

  int_of-Reads :
      (key : String) (o : Option Bytes) (n : ℤ)
      → os.lookup key ≡ o
      → int_of os key o ≡ ok n
      → Reads key n
  unfolding int_of
  int_of-Reads key none n here h = inl (here, sym (ok-injective h))
  int_of-Reads key (some text) n here h = inr (text, here, int_of_text-ok key (os.atoi text) n h)

  lookup-Reads : (key : String) (n : ℤ) → lookup_env_int os key ≡ ok n → Reads key n
  unfolding lookup_env_int
  lookup-Reads key n h = int_of-Reads key (os.lookup key) n refl h

  Reads-lookup : (key : String) (n : ℤ) → Reads key n → lookup_env_int os key ≡ ok n
  unfolding lookup_env_int int_of int_of_text
  Reads-lookup key n (inl (unset, zero)) = rw (unset, zero) refl
  Reads-lookup key n (inr (text, here, parsed)) = rw (here, parsed) refl

  -- The fields hold what the variables hold, one after the other from `c` to `d`.
  abbrev Settles : {C : Type 0} → List (String × (ℤ → C → C)) → C → C → Type 0
  Settles [] c d = c ≡ d
  Settles ((key, set) ∷ fields) c d = (n : ℤ) × Reads key n × Settles fields (set n c) d

  load_ints-Settles :
      {C : Type 0} (fields : List (String × (ℤ → C → C))) (c d : C)
      → load_ints os fields c ≡ ok d
      → Settles fields c d
  unfolding load_ints
  load_ints-Settles [] c d h = ok-injective h
  load_ints-Settles ((key, set) ∷ fields) c d h =
      let (n, read, rest) = and_then-ok (lookup_env_int os key) _ d h in
      (n, lookup-Reads key n read, load_ints-Settles fields (set n c) d rest)

  Settles-load_ints :
      {C : Type 0} (fields : List (String × (ℤ → C → C))) (c d : C)
      → Settles fields c d
      → load_ints os fields c ≡ ok d
  unfolding load_ints
  Settles-load_ints [] c d h = ap ok h
  Settles-load_ints ((key, set) ∷ fields) c d (n, read, rest) =
      rw (Reads-lookup key n read) (Settles-load_ints fields (set n c) d rest)

  pub record IsPostgresConfig (c : PostgresConfig) : Type 0 where
    pub dsn : os.lookup "POSTGRES_DSN" ≡ some c.dsn
    pub lifetime : Reads "POSTGRES_MAX_CONN_LIFETIME_SECONDS" c.max_conn_lifetime_seconds
    pub idle_time : Reads "POSTGRES_MAX_CONN_IDLE_TIME_SECONDS" c.max_conn_idle_time_seconds
    pub conns : Reads "POSTGRES_MAX_CONNS" c.max_conns
    pub least : Reads "POSTGRES_MIN_CONNS" c.min_conns
    pub least_idle : Reads "POSTGRES_MIN_IDLE_CONNS" c.min_idle_conns
    pub period : Reads "POSTGRES_HEALTHCHECK_PERIOD_SECONDS" c.health_check_period_seconds

  pub record IsRedisConfig (c : RedisConfig) : Type 0 where
    pub url : os.lookup "REDIS_URL" ≡ some c.redis_url
    pub pool_size : Reads "REDIS_POOL_SIZE" c.pool_size
    pub least_idle : Reads "REDIS_MIN_IDLE_CONNS" c.min_idle_conns
    pub most_idle : Reads "REDIS_MAX_IDLE_CONNS" c.max_idle_conns
    pub idle_time : Reads "REDIS_CONN_MAX_IDLE_TIME_SECONDS" c.conn_max_idle_time_seconds

  pub record IsAppConfig (c : AppConfig) : Type 0 where
    pub port : Reads "PORT" c.server_config.port
    pub debug : c.debug ≡ (getenv os (os.lookup "LOG_LEVEL") =b= codes "DEBUG")
    pub server :
        c.server_config
        ≡ record { debug = c.debug; port = c.server_config.port; host = []; registry = false }
    pub postgres : IsPostgresConfig c.pg_config
    pub redis : IsRedisConfig c.cache_config

  postgres_sound :
      (c : PostgresConfig) → load_postgres_config_from_env os ≡ ok c → IsPostgresConfig c
  unfolding load_postgres_config_from_env
  postgres_sound c h =
      let (dsn, given, rest) = and_then-ok (required _ (os.lookup "POSTGRES_DSN")) _ c h in
      let (n0, r0, (n1, r1, (n2, r2, (n3, r3, (n4, r4, (n5, r5, same)))))) =
        load_ints-Settles (postgres_fields os) (new_postgres_config os dsn) c rest in
      subst IsPostgresConfig same (record {
        dsn = required-ok _ (os.lookup "POSTGRES_DSN") dsn given;
        lifetime = r0;
        idle_time = r1;
        conns = r2;
        least = r3;
        least_idle = r4;
        period = r5;
      })

  postgres_complete :
      (c : PostgresConfig) → IsPostgresConfig c → load_postgres_config_from_env os ≡ ok c
  unfolding load_postgres_config_from_env
  postgres_complete c h = rw h.dsn (
      Settles-load_ints (postgres_fields os) (new_postgres_config os c.dsn) c (
        _,
        h.lifetime,
        (_, h.idle_time, (_, h.conns, (_, h.least, (_, h.least_idle, (_, h.period, refl))))),
      ))

  redis_sound : (c : RedisConfig) → load_redis_config_from_env os ≡ ok c → IsRedisConfig c
  unfolding load_redis_config_from_env
  redis_sound c h =
      let (url, given, rest) = and_then-ok (required _ (os.lookup "REDIS_URL")) _ c h in
      let (n0, r0, (n1, r1, (n2, r2, (n3, r3, (n4, r4, same))))) =
        load_ints-Settles (redis_fields os) (new_redis_config os url) c rest in
      subst IsRedisConfig same (record {
        url = required-ok _ (os.lookup "REDIS_URL") url given;
        pool_size = r1;
        least_idle = r2;
        most_idle = r3;
        idle_time = r4;
      })

  redis_complete : (c : RedisConfig) → IsRedisConfig c → load_redis_config_from_env os ≡ ok c
  unfolding load_redis_config_from_env
  redis_complete c h = rw h.url (
      Settles-load_ints (redis_fields os) (new_redis_config os c.redis_url) c (
        _,
        h.pool_size,
        (_, h.pool_size, (_, h.least_idle, (_, h.most_idle, (_, h.idle_time, refl)))),
      ))

  pub load_config_iff : (c : AppConfig) → (load_config os ≡ ok c) ↔ IsAppConfig c
  unfolding load_config
  load_config_iff c = (
    λ h.
        let (port, read, h') = and_then-ok (lookup_env_int os "PORT") _ c h in
        let (pg, pg_read, h'') =
          and_then-ok (in_context "loading postgres config" (load_postgres_config_from_env os)) _ c
            h' in
        let (rd, rd_read, h''') =
          and_then-ok (in_context "loading redis config" (load_redis_config_from_env os)) _ c h'' in
        subst IsAppConfig (ok-injective h''') (record {
          port = lookup-Reads "PORT" port read;
          debug = refl;
          server = refl;
          postgres = postgres_sound pg (in_context-ok _ _ pg pg_read);
          redis = redis_sound rd (in_context-ok _ _ rd rd_read);
        }),
    λ h.
        let debugging =
          ap
            (λ b. ok (record {
              debug = b;
              server_config = record {
                debug = b;
                port = c.server_config.port;
                host = [];
                registry = false;
              };
              pg_config = c.pg_config;
              cache_config = c.cache_config;
            }))
            (sym h.debug) in
        let port = Reads-lookup "PORT" c.server_config.port h.port in
        let postgres = postgres_complete c.pg_config h.postgres in
        let redis = redis_complete c.cache_config h.redis in
        rw (port, postgres, redis)
          (debugging ∙ ap (λ s. ok (record c { server_config = s })) (sym h.server)),
  )
