-- ===== src/Examples/Memory.antt =====
-- A small world: the rows of url_tokens, the entries of the cache and a clock that ticks when read.
use pet_urls.Prelude.{
  ℕ, suc, Bytes, codes, false, Option, none, some, [], ◌∷◌, ◌++◌, ◌=b=◌, if◌then◌else◌,
}
use pet_urls.Prelude.Int.{ℤ, pos, to_micros}
use pet_urls.Prelude.Action.{Action}
use pet_urls.Errors.{
  plain, sentinel, pg_error, unique_violation, redis_nil, no_rows, Result, ok, err,
}
use pet_urls.Strings.{drop}
use pet_urls.Url.{UrlLib, ParsedUrl}
use pet_urls.Shortener.Types.{UrlToken, Env}
use pet_urls.Postgres.Retry.{Deadline}
use pet_urls.Postgres.ShortenerRepo.{row}
use pet_urls.Postgres.Database.{
  Database, Statement, insert_url_token, delete_url_token, insert_refresh_token,
  revoke_refresh_token,
}
use pet_urls.Redis.{RedisServer}

-- What the database keeps of a row, beside its token.
abbrev pub Columns : Type 0
Columns = Bytes × ℤ × Option Bytes

pub record Memory : Type 0 where
  pub rows : Bytes → Option Columns
  pub entries : Bytes → Option Bytes
  pub clock : ℕ

abbrev pub row_at : Bytes → Option Columns → Option UrlToken
row_at t none = none
row_at t (some u) = some (row t u)

abbrev pub stored : Memory → Bytes → Option UrlToken
stored w t = row_at t (w.rows t)

abbrev pub cached : Memory → Bytes → Option Bytes
cached w = w.entries

abbrev pub update : {A : Type 0} → Bytes → A → (Bytes → A) → Bytes → A
update k v f j = if k =b= j then v else f j

abbrev pub insert_into : Bytes → Columns → Option Columns → Action Memory (Result (Unit {0}))
insert_into t u none w = (ok tt, record w { rows = update t (some u) w.rows })
insert_into t u (some _) w = (err (pg_error unique_violation), w)

abbrev pub exec : Statement → Action Memory (Result (Unit {0}))
exec (insert_url_token t u x o) w = insert_into t (u, to_micros x, o) (w.rows t) w
exec (delete_url_token t) w = (ok tt, record w { rows = update t none w.rows })
exec (insert_refresh_token _ _ _) w = (err (plain "no such table"), w)
exec (revoke_refresh_token _) w = (err (plain "no such table"), w)

abbrev pub columns : Option Columns → Result Columns
columns none = err (sentinel no_rows)
columns (some u) = ok u

abbrev pub memory_db : Database Memory
memory_db = record {
  ping = λ w. (none, w);
  exec = exec;
  select_url_token = λ t w. (columns (w.rows t), w);
  insert_user = λ _ _ w. (err (plain "no such table"), w);
  select_user = λ _ w. (err (plain "no such table"), w);
  select_refresh_token = λ _ w. (err (plain "no such table"), w);
}

abbrev pub patient : Deadline Memory
patient = record { error = λ w. none; sleep = λ pause w. (none, w) }

abbrev pub value_of : Option Bytes → Result Bytes
value_of none = err (sentinel redis_nil)
value_of (some v) = ok v

abbrev pub memory_redis : RedisServer Memory
memory_redis = record {
  ping = λ w. (ok (codes "PONG"), w);
  set = λ k v ttl w. (none, record w { entries = update k (some v) w.entries });
  get = λ k w. (value_of (w.entries k), w);
  del = λ k w. (none, record w { entries = update k none w.entries });
  flush_db = λ w. (none, record w { entries = λ k. none });
}

abbrev pub ticking : Env Memory
ticking = record {
  now = λ w. (pos w.clock, record w { clock = suc w.clock });
  rand_read = λ n w. (ok (b'x' ∷ b'y' ∷ []), w);
  base58_encode = λ raw. raw;
}

-- Reads "http://" and takes the rest for the host.
abbrev pub plain_parse : Bytes → Result ParsedUrl
plain_parse raw = ok (record {
  scheme = codes "http";
  opaque = [];
  user = none;
  host = drop 7 raw;
  tail = [];
  fragment = [];
})

abbrev pub plain_urls : UrlLib
plain_urls = record {
  parse = plain_parse;
  string = λ u. u.scheme ++ (codes "://" ++ u.host);
  parse_ip = λ s. false;
}

abbrev pub start : Memory
start = record { rows = λ k. none; entries = λ k. none; clock = 0 }
