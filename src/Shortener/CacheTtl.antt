-- ===== src/Shortener/CacheTtl.antt =====
-- The time to live that the shortener hands to the cache.
use pet_urls.Prelude.{◌↔◌, arith}
use pet_urls.Prelude.Int.{ℤ, pos, ◌-ℤ◌, ◌≤ℤ◌, ◌<ℤ◌, -ℤ_parts}
use pet_urls.Shortener.Types.{Settings}
use pet_urls.Shortener.Service.{saturate, cache_ttl}

-- What saturation leaves of a difference: its sign, and nothing above it if it is not negative.
saturate_sign : (d : ℤ) → (pos 0 <ℤ d → pos 0 <ℤ saturate d) × (d ≤ℤ pos 0 → saturate d ≤ℤ pos 0)
unfolding saturate
saturate_sign d = (λ h. ground arith, λ h. ground arith)

saturate_below : (d : ℤ) → pos 0 ≤ℤ d → saturate d ≤ℤ d
unfolding saturate
saturate_below d h = ground arith

-- At or before the expiry of a row, the time to live of its cache entry is at most the configured one
-- and at most the time that the row has left.
pub cache_ttl_bounds :
    (s : Settings) (expires_at now : ℤ)
    → now ≤ℤ expires_at
    → (cache_ttl s expires_at now ≤ℤ s.max_cache_ttl)
      × (cache_ttl s expires_at now ≤ℤ (expires_at -ℤ now))
unfolding cache_ttl
cache_ttl_bounds s x n h =
    let below = saturate_below (x -ℤ n) in let parts = -ℤ_parts x n in (ground arith, ground arith)

-- The time to live handed to the cache is positive if and only if the configured one is and the row
-- has not reached its expiry.
pub cache_ttl_positive :
    (s : Settings) (expires_at now : ℤ)
    → (pos 0 <ℤ cache_ttl s expires_at now) ↔ ((pos 0 <ℤ s.max_cache_ttl) × (now <ℤ expires_at))
unfolding cache_ttl
cache_ttl_positive s x n =
    let sign = saturate_sign (x -ℤ n) in
    let parts = -ℤ_parts x n in (λ h. (ground arith, ground arith), λ h. ground arith)
