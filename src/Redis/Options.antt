-- ===== src/Redis/Options.antt =====
-- The settings of the client in internal/cache/redis/redis.go: Config and applyAppConfig over the
-- fields of redis.Options that it sets.
use pet_urls.Prelude.{Bytes, ◌≡◌, arith, inl, inr, Bool-cases, if◌then◌else◌}
use pet_urls.Prelude.Int.{ℤ, pos, eq_ℤ, ◌*ℤ◌, ◌≤ℤ◌}
use pet_urls.Prelude.Words.{seconds, seconds_exact}

pub record RedisConfig : Type 0 where
  pub redis_url : Bytes
  pub pool_size : ℤ
  pub min_idle_conns : ℤ
  pub max_idle_conns : ℤ
  pub conn_max_idle_time_seconds : ℤ

pub record Options : Type 0 where
  pub pool_size : ℤ
  pub min_idle_conns : ℤ
  pub max_idle_conns : ℤ
  pub conn_max_idle_time : ℤ

abbrev pub or_default : ℤ → ℤ → ℤ
or_default n d = if eq_ℤ n (pos 0) then d else n

unfoldable pub apply_app_config : RedisConfig → Options
unfolding seconds
apply_app_config c = record {
  pool_size = or_default c.pool_size (pos 5);
  min_idle_conns = c.min_idle_conns;
  max_idle_conns = or_default c.max_idle_conns (pos 1);
  conn_max_idle_time =
      if eq_ℤ c.conn_max_idle_time_seconds (pos 0)
      then seconds (pos 5)
      else seconds c.conn_max_idle_time_seconds;
}

-- Where the idle time is not negative and fits, the client gets it in nanoseconds, with 5 s in place
-- of 0.
pub conn_max_idle_time_exact :
    (c : RedisConfig)
    → pos 0 ≤ℤ c.conn_max_idle_time_seconds
    → c.conn_max_idle_time_seconds ≤ℤ pos 9223372036
    → (apply_app_config c).conn_max_idle_time
      ≡ or_default c.conn_max_idle_time_seconds (pos 5) *ℤ pos 1000000000
unfolding apply_app_config
conn_max_idle_time_exact c low high =
    elim (Bool-cases (eq_ℤ c.conn_max_idle_time_seconds (pos 0))) [
      | inl zero ↦ rw zero (seconds_exact (pos 5) (omega arith) (omega arith))
      | inr given ↦ rw given (seconds_exact c.conn_max_idle_time_seconds low high)
    ]
