-- ===== src/Postgres/Pool.antt =====
-- The settings of the connection pool in internal/db/postgres/postgres.go: Config and applyAppConfig
-- over the fields of pgxpool.Config that it sets.
pub mod Bounds
use pet_urls.Prelude.{Bytes, if◌then◌else◌}
use pet_urls.Prelude.Int.{ℤ, pos, eq_ℤ, ◌*ℤ◌}
use pet_urls.Prelude.Words.{int32, seconds, quotient}

pub record PostgresConfig : Type 0 where
  pub dsn : Bytes
  pub max_conn_lifetime_seconds : ℤ
  pub max_conn_idle_time_seconds : ℤ
  pub max_conns : ℤ
  pub min_conns : ℤ
  pub min_idle_conns : ℤ
  pub health_check_period_seconds : ℤ

-- The durations count nanoseconds.
pub record PoolConfig : Type 0 where
  pub max_conn_lifetime : ℤ
  pub max_conn_lifetime_jitter : ℤ
  pub max_conn_idle_time : ℤ
  pub max_conns : ℤ
  pub min_conns : ℤ
  pub min_idle_conns : ℤ
  pub health_check_period : ℤ

abbrev pub or_seconds : ℤ → ℤ → ℤ
or_seconds n d = if eq_ℤ n (pos 0) then seconds d else seconds n

abbrev pub max_conns_or_default : ℤ → ℤ
max_conns_or_default n = if eq_ℤ n (pos 0) then pos 4 else int32 n

-- All the fields are set, whatever the data source name says of them.
unfoldable pub apply_app_config : PostgresConfig → PoolConfig
unfolding seconds int32
apply_app_config c = record {
  max_conn_lifetime = or_seconds c.max_conn_lifetime_seconds (pos 3600);
  max_conn_lifetime_jitter = quotient (or_seconds c.max_conn_lifetime_seconds (pos 3600)) 10;
  max_conn_idle_time = seconds c.max_conn_idle_time_seconds;
  max_conns = max_conns_or_default c.max_conns;
  min_conns = int32 c.min_conns;
  min_idle_conns = int32 c.min_idle_conns;
  health_check_period = or_seconds c.health_check_period_seconds (pos 60);
}
