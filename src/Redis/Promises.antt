-- ===== src/Redis/Promises.antt =====
-- The cache over the Redis client against the interface of the shortener.
use pet_urls.Prelude.{◌≡◌, ◌⊎◌, Bytes, Option, none, some, arith}
use pet_urls.Prelude.Int.{ℤ}
use pet_urls.Errors.{Result, ok, err}
use pet_urls.Shortener.Types.{UrlToken}
use pet_urls.Shortener.Interface.{Quiet, CacheLaws}
use pet_urls.Redis.{RedisServer, get_result, ping, set, get, delete, shortener_cache}

module _ {W : Type 0} (rdb : RedisServer W) (stored : W → Bytes → Option UrlToken)
    (cached : W → Bytes → Option Bytes) where
  -- What the code relies on: GET shows the entry, DEL that reports no error removes it, SET replaces
  -- it, and nothing else is added.
  pub record RedisLaws : Type 0 where
    pub ping_quiet : (w : W) → Quiet stored cached w (rdb.ping w).1
    pub get_quiet : (k : Bytes) (w : W) → Quiet stored cached w (rdb.get k w).1
    pub get_value : (k v : Bytes) (w : W) → (rdb.get k w).0 ≡ ok v → cached w k ≡ some v
    pub set_rows :
        (k v : Bytes) (ttl : ℤ) (w : W) (j : Bytes) → stored (rdb.set k v ttl w).1 j ≡ stored w j
    pub set_entry :
        (k v : Bytes) (ttl : ℤ) (w : W) (j : Bytes)
        → (cached (rdb.set k v ttl w).1 j ≡ cached w j)
          ⊎ ((cached (rdb.set k v ttl w).1 j ≡ none)
              ⊎ ((j ≡ k) × (cached (rdb.set k v ttl w).1 j ≡ some v)))
    pub del_quiet : (k : Bytes) (w : W) → Quiet stored cached w (rdb.del k w).1
    pub del_done : (k : Bytes) (w : W) → (rdb.del k w).0 ≡ none → cached (rdb.del k w).1 k ≡ none

  get_result_hit : (x : Result Bytes) (u : Bytes) → get_result x ≡ ok (some u) → x ≡ ok u
  unfolding get_result
  get_result_hit (ok v) u h = cc
  get_result_hit (err e) u h = absurd (ground arith)

  -- Over a server that keeps to the documented GET, SET and DEL, the cache keeps every promise that
  -- the shortener service relies on.
  pub shortener_cache-CacheLaws : RedisLaws → CacheLaws stored cached (shortener_cache rdb)
  unfolding ping set get delete
  shortener_cache-CacheLaws laws = record {
    health_quiet = laws.ping_quiet;
    get_quiet = laws.get_quiet;
    get_hit = λ t w u h. laws.get_value t u w (get_result_hit _ u h);
    save_rows = laws.set_rows;
    save_entry = laws.set_entry;
    delete_quiet = laws.del_quiet;
    delete_done = laws.del_done;
  }
