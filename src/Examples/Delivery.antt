-- ===== src/Examples/Delivery.antt =====
-- Contexts, middleware, the buffering writer, retries and Base64 at concrete inputs.
use pet_urls.Prelude.{ℕ, zero, suc, ◌≡◌, refl, ◌↔◌, codes, true, false, none, some, [], ◌∷◌}
use pet_urls.Prelude.Int.{pos, ◌<ℤ◌}
use pet_urls.Errors.{plain, pg_error, serialization_failure, Result, ok, err}
use pet_urls.Context.{
  context_with_request_id, request_id, context_with_user_id, user_id_from_context,
}
use pet_urls.Context.Laws.{request_id-context_with_user_id}
use pet_urls.Postgres.Retry.{with_retry, Deadline}
use pet_urls.Postgres.Retry.Runs.{Retried, with_retry-Retried}
use pet_urls.Http.Writer.{header, body}
use pet_urls.Http.Middleware.{Request, served, Handler, Server, server_handler}
use pet_urls.Http.Middleware.Laws.{without_metrics, server_handler-without_metrics}
use pet_urls.Shortener.Types.{Settings}
use pet_urls.Shortener.Service.{cache_ttl}
use pet_urls.Shortener.CacheTtl.{cache_ttl_positive}

request_id-context_with_user_id_example :
    (request_id (context_with_request_id [] (codes "r1")) ≡ some (codes "r1"))
    × (user_id_from_context
          (context_with_user_id (context_with_request_id [] (codes "r1")) (codes "u"))
        ≡ some (codes "u"))
    × (request_id (context_with_user_id (context_with_request_id [] (codes "r1")) (codes "u"))
        ≡ none)
request_id-context_with_user_id_example =
    request_id-context_with_user_id [] (codes "r1") (codes "u")

-- A server whose world counts the observations.
abbrev pub counting : Server ℕ
counting = record {
  new_uuid = λ n. (ok (codes "id"), n);
  deadline_passed = λ n. false;
  observe = λ m p status n. suc n;
  metrics = true;
}

-- A router that sets the pattern and answers.
abbrev hello : Handler ℕ
hello r n =
    served (record r { pattern = codes "GET /{token}" }) (header 200 ∷ body (codes "hi") ∷ []) n

abbrev pub get_root : Request
get_root = record {
  method = codes "GET";
  path = codes "/";
  pattern = [];
  authorization = [];
  ctx = [];
  body_limit = none;
  payload = none;
  content_type = [];
  path_token = [];
  cookie = λ name. err (plain "no cookie");
}

server_handler-without_metrics_example :
    server_handler counting hello get_root 0
    ≡ server_handler (without_metrics counting) hello get_root 0
server_handler-without_metrics_example =
    server_handler-without_metrics counting hello get_root 0 refl

-- A context that is never done, over a world that counts the attempts.
abbrev unhurried : Deadline ℕ
unhurried = record { error = λ n. none; sleep = λ pause n. (none, n) }

-- Reports a serialization failure twice, and then answers.
abbrev third_time : ℕ → Result ℕ × ℕ
third_time zero = (err (pg_error serialization_failure), 1)
third_time (suc zero) = (err (pg_error serialization_failure), 2)
third_time (suc (suc n)) = (ok (suc (suc n)), suc (suc (suc n)))

with_retry-Retried_example : Retried unhurried third_time 0 (with_retry unhurried third_time 0)
with_retry-Retried_example = with_retry-Retried unhurried third_time 0

abbrev brief : Settings
brief = record { max_cache_ttl = pos 10; token_ttl = pos 100; token_decoded_length = pos 8 }

-- At its expiry a row is cached with a time to live that is not positive.
cache_ttl_positive_example :
    (pos 0 <ℤ cache_ttl brief (pos 50) (pos 50)) ↔ ((pos 0 <ℤ pos 10) × (pos 50 <ℤ pos 50))
cache_ttl_positive_example = cache_ttl_positive brief (pos 50) (pos 50)
