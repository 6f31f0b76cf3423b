-- ===== src/Lib.antt =====
-- pet-urls is a URL shortener: an HTTP server on a shortener service and an auth service, which keep
-- their data in Postgres and, for the lookups of tokens, in a Redis cache. A handler calls a service;
-- the services call a repository and a cache through interfaces; the repositories run their SQL in
-- `withRetry`; the middleware wraps the router. The state of the world (rows, cache entries, clock,
-- random source) is one type `W`, a parameter throughout, and a call is an action on it (Prelude.Action):
-- it takes the world and gives back its result and the next world. Errors are values (Errors).
--
-- The files and the code that they model:
--   * Context: internal/context/context.go. A context is the list of its values.
--   * Strings: the functions of Go's packages strings, bytes and unicode/utf8 that the code calls, over
--     lists of bytes.
--   * Url, Url/Fqdn: internal/services/shortener/url.go, `normalizeHTTP` as normalize_http, `urlIsValid`
--     as url_is_valid, `isValidFQDN` as is_valid_fqdn. `url.Parse`, `URL.String` and `net.ParseIP` are
--     the parameter UrlLib.
--   * Shortener: internal/services/shortener. Types has the structs and the interfaces of
--     dependencies.go, Service a function for each method of shortener.go (`createToken` is create_token,
--     `ResolveToken` resolve_token, `DeleteToken` delete_token), cut where the code branches on a result.
--     Interface states what the service relies on of the repository and the cache; `stored` and `cached`
--     are the rows and the entries of a world. Requests has sequences of calls, Threads the methods as
--     threads that interleave at every call of a dependency (advance is one step of one thread, Task
--     what it has left to do), Reports single calls by the answers of their dependencies.
--   * Auth, Base64: internal/services/auth. Service has the methods of auth.go and the helpers of
--     hash.go, Jwt those of jwt.go, Base64 the encoding of user IDs and, padded, of the cookie. A nil
--     dereference is the outcome `panicked`. Interface and Accounts state what the service relies on of
--     its repository; `users` and `sessions` are the users by login and the refresh tokens by hash of a
--     world. Requests has sequences of calls, Frame what all of them do to a part of the
--     world, Reports single calls by the answers of their dependencies.
--   * Postgres: internal/db/postgres. Retry is `withRetry` of postgres.go, Errors its error tests, Pool
--     the settings of `applyAppConfig`; ShortenerRepo and AuthRepo are the repositories of
--     shortenerRepo.go and authRepo.go over the parameter Database (the pool with the server), whose
--     behaviour on the tables is ShortenerRepo/Sql and AuthRepo/Sql.
--   * Redis: internal/cache/redis, redis.go and shortenerCache.go over the parameter RedisServer, whose
--     behaviour is Redis/Promises; Options has the settings of `applyAppConfig`.
--   * Http: internal/transport/http. Writer is `writerWrapper` of middleware.go, with its mutex as a flag
--     and a call that waits for ever as a value, Middleware the middleware of middleware.go and the
--     chain of server.go, Middleware/Guard `requiresAuthMiddleware`, Middleware/Timeout the two
--     goroutines of `timeoutMiddleware`. A handler gives back the list of
--     what it does with its writer (Operation): the status, pieces of the body and header fields. Api
--     has handlerUtils.go and cookies.go, Handlers the handlers of handlers.go, Routes the table of
--     routes.go and the whole server, Settings `applyConfig` of server.go. Metrics is metrics.go over
--     the parameter Prometheus. The decoders of JSON and forms, the text of a cookie and the choice of
--     http.ServeMux are the parameters Libs and Mux.
--   * Config: cmd/app/config.go, with the environment and strconv.Atoi as the parameter OsEnv.
--   * App: the services as cmd/app/main.go puts them together, and its main function (Start), with
--     `postgres.New` and `redis.New`.
--   * Migrate: cmd/migrate/main.go, over the parameter MigrateLib.
--   * Examples: a small world in memory and the theorems applied in it.
--
-- Instants and the durations of the services are integers of nanoseconds without a bound; only the
-- saturation of `time.Until` at the ends of an int64 is written out (Shortener.Service.saturate). The
-- settings of the connections are computed with the wrap-around of int64 and int32 (Prelude.Words). The
-- loop of `withRetry` has the code's own bound of three attempts, so no fuel is chosen; every other loop
-- is a recursion over a list. The calls of the shortener run as sequences (Shortener/Requests) and in
-- every interleaving (Shortener/Threads); those of the auth service and of the handlers come one after
-- another. Within the whole server a timeout is decided when the handler comes back; Middleware/Timeout
-- has the two goroutines as they interleave. The columns of type TIMESTAMPTZ keep microseconds, so that
-- a stored expiry is cut to them (to_micros, kept_row, kept_session); JWTs keep whole seconds.
-- Cache entries do not expire by themselves except as part of a step that may drop them.
--
-- Not modelled: logging; what the commands print; the closing of the pool and of the client at the end of
-- the process; signals and the listening socket, of which App/Start only takes the outcome; the
-- panic of `make` where the length of random tokens is configured as a negative number; the tests.

pub mod Prelude
pub mod Errors
pub mod Context
pub mod Config
pub mod Strings
pub mod Url
pub mod Shortener
pub mod Base64
pub mod Auth
pub mod Postgres
pub mod Redis
pub mod Http
pub mod App
pub mod Migrate
pub mod Examples
