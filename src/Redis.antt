-- ===== src/Redis.antt =====
-- internal/cache/redis: the client of redis.go over the parameter `RedisServer` (the go-redis client
-- with the server behind it) and the cache of shortenerCache.go;
-- the settings of the client are in Options.
pub mod Promises
pub mod Options
use pet_urls.Prelude.{
  ℕ, Bytes, codes, Bool, true, false, not, Option, none, some, ◌==◌, ◌=b=◌, if◌then◌else◌,
}
use pet_urls.Prelude.Int.{ℤ}
use pet_urls.Prelude.Action.{Action, pure, ◌>>=◌}
use pet_urls.Errors.{GoError, sentinel, plain, wrap, redis_nil, Result, ok, err, same_sentinel}
use pet_urls.Shortener.Types.{Cache}

-- `Set` with a lifetime that is not positive stores an entry that never expires.
pub record RedisServer (W : Type 0) : Type 0 where
  pub ping : Action W (Result Bytes)
  pub set : Bytes → Bytes → ℤ → Action W (Option GoError)
  pub get : Bytes → Action W (Result Bytes)
  pub del : Bytes → Action W (Option GoError)
  pub flush_db : Action W (Option GoError)

-- `err == redis.Nil`: identity, not `errors.Is`.
unfoldable pub is_redis_nil : GoError → Bool
unfolding same_sentinel
is_redis_nil (sentinel s) = same_sentinel s redis_nil
is_redis_nil _ = false

unfoldable pub ping_error : Result Bytes → Option GoError
unfolding ◌=b=◌
ping_error (err e) = some e
ping_error (ok pong) =
    if not (pong =b= codes "PONG") then some (plain "redis didn't pong") else none

-- The three results of `Get`; none is a miss.
unfoldable pub get_result : Result Bytes → Result (Option Bytes)
unfolding is_redis_nil
get_result (ok v) = ok (some v)
get_result (err e) = if is_redis_nil e then ok none else err (wrap "get from cache" e)

module _ {W : Type 0} (rdb : RedisServer W) where
  unfoldable pub ping : Action W (Option GoError)
  ping = do pong ← rdb.ping; pure (ping_error pong)

  unfoldable pub set : Bytes → Bytes → ℤ → Action W (Option GoError)
  set key value ttl = rdb.set key value ttl

  unfoldable pub get : Bytes → Action W (Result (Option Bytes))
  get key = do v ← rdb.get key; pure (get_result v)

  unfoldable pub delete : Bytes → Action W (Option GoError)
  delete key = rdb.del key

  unfoldable pub flush_db : Action W (Option GoError)
  flush_db = rdb.flush_db

  -- shortenerCache.go: the key is the token, the value its URL.
  abbrev pub shortener_cache : Cache W
  shortener_cache = record {
    health_check = ping;
    save_token = set;
    get_token = get;
    delete_token = delete;
  }
