-- ===== src/Postgres/Pool/Bounds.antt =====
-- When the settings of the connection pool are those that the configuration asks for.
use pet_urls.Prelude.{◌≡◌, refl, ap, ◌∙◌, inl, inr, Bool-cases, arith, if◌then◌else◌}
use pet_urls.Prelude.Int.{ℤ, pos, negsuc, eq_ℤ, ◌*ℤ◌, ◌≤ℤ◌, ◌<ℤ◌}
use pet_urls.Prelude.Words.{seconds_exact, int32_exact, quotient}
use pet_urls.Postgres.Pool.{
  PostgresConfig, PoolConfig, or_seconds, max_conns_or_default, apply_app_config,
}

-- No negative number, no more seconds than an int64 of nanoseconds holds, and no more connections than
-- an int32 holds.
pub record InRange (c : PostgresConfig) : Type 0 where
  pub lifetime :
      (pos 0 ≤ℤ c.max_conn_lifetime_seconds) × (c.max_conn_lifetime_seconds ≤ℤ pos 9223372036)
  pub idle_time :
      (pos 0 ≤ℤ c.max_conn_idle_time_seconds) × (c.max_conn_idle_time_seconds ≤ℤ pos 9223372036)
  pub period :
      (pos 0 ≤ℤ c.health_check_period_seconds) × (c.health_check_period_seconds ≤ℤ pos 9223372036)
  pub conns : (pos 0 ≤ℤ c.max_conns) × (c.max_conns ≤ℤ pos 2147483647)
  pub least : (pos 0 ≤ℤ c.min_conns) × (c.min_conns ≤ℤ pos 2147483647)
  pub least_idle : (pos 0 ≤ℤ c.min_idle_conns) × (c.min_idle_conns ≤ℤ pos 2147483647)

-- `n`, with the default `d` in place of 0.
abbrev pub asked : ℤ → ℤ → ℤ
asked n d = if eq_ℤ n (pos 0) then d else n

pub record IsAsked (c : PostgresConfig) (p : PoolConfig) : Type 0 where
  pub lifetime :
      p.max_conn_lifetime ≡ asked c.max_conn_lifetime_seconds (pos 3600) *ℤ pos 1000000000
  pub jitter :
      p.max_conn_lifetime_jitter ≡ asked c.max_conn_lifetime_seconds (pos 3600) *ℤ pos 100000000
  pub idle_time : p.max_conn_idle_time ≡ c.max_conn_idle_time_seconds *ℤ pos 1000000000
  pub period :
      p.health_check_period ≡ asked c.health_check_period_seconds (pos 60) *ℤ pos 1000000000
  pub conns : p.max_conns ≡ asked c.max_conns (pos 4)
  pub some_conns : pos 0 <ℤ p.max_conns
  pub least : p.min_conns ≡ c.min_conns
  pub least_idle : p.min_idle_conns ≡ c.min_idle_conns

or_seconds_exact :
    (n d : ℤ)
    → (pos 0 ≤ℤ n) × (n ≤ℤ pos 9223372036)
    → (pos 0 ≤ℤ d) × (d ≤ℤ pos 9223372036)
    → or_seconds n d ≡ asked n d *ℤ pos 1000000000
or_seconds_exact n d (low, high) (l, h) = elim (Bool-cases (eq_ℤ n (pos 0))) [
  | inl zero ↦ rw zero (seconds_exact d l h)
  | inr given ↦ rw given (seconds_exact n low high)
]

max_conns_exact :
    (n : ℤ) → (pos 0 ≤ℤ n) × (n ≤ℤ pos 2147483647) → max_conns_or_default n ≡ asked n (pos 4)
max_conns_exact n (low, high) = elim (Bool-cases (eq_ℤ n (pos 0))) [
  | inl zero ↦ rw zero refl
  | inr given ↦ rw given (int32_exact n low high)
]

asked_positive : (n : ℤ) → pos 0 ≤ℤ n → pos 0 <ℤ asked n (pos 4)
asked_positive n h = ground arith

asked_low : (n d : ℤ) → pos 0 ≤ℤ n → pos 0 ≤ℤ d → pos 0 ≤ℤ asked n d
asked_low n d h k = elim (Bool-cases (eq_ℤ n (pos 0))) [
  | inl zero ↦ rw zero k
  | inr given ↦ rw given h
]

-- A tenth of a number of seconds.
tenth : (z : ℤ) → pos 0 ≤ℤ z → quotient (z *ℤ pos 1000000000) 10 ≡ z *ℤ pos 100000000
unfolding ◌*ℤ◌
tenth (pos n) h = ground arith
tenth (negsuc n) h = absurd (omega arith)

-- Where the configured numbers are not negative and not too large for the machine integers, the pool
-- gets what the configuration asks for: durations in nanoseconds, the defaults of 3600 s, 60 s and 4
-- connections in place of 0, a tenth of the lifetime as its jitter, and room for a connection at all.
pub apply_app_config-IsAsked : (c : PostgresConfig) → InRange c → IsAsked c (apply_app_config c)
unfolding apply_app_config
apply_app_config-IsAsked c h =
    let lifetime =
      or_seconds_exact c.max_conn_lifetime_seconds (pos 3600) h.lifetime
        (omega arith, omega arith) in
    let conns = max_conns_exact c.max_conns h.conns in
    record {
      lifetime = lifetime;
      jitter =
          ap (λ z. quotient z 10) lifetime
          ∙ tenth _ (asked_low c.max_conn_lifetime_seconds (pos 3600) h.lifetime.0 (omega arith));
      idle_time = seconds_exact c.max_conn_idle_time_seconds h.idle_time.0 h.idle_time.1;
      period =
          or_seconds_exact c.health_check_period_seconds (pos 60) h.period
            (omega arith, omega arith);
      conns = conns;
      some_conns = rw conns (asked_positive c.max_conns h.conns.0);
      least = int32_exact c.min_conns h.least.0 h.least.1;
      least_idle = int32_exact c.min_idle_conns h.least_idle.0 h.least_idle.1;
    }
