-- ===== src/Http/Middleware.antt =====
-- The middleware of internal/transport/http/middleware.go and its order in server.go. A handler gets
-- a pointer to a request and a writer: it gives back the request as it leaves it behind the pointer,
-- what it did with the writer, and the world. `r.WithContext` makes a copy, which the caller does not
-- see. The calls of the logger are left out.
pub mod Laws
pub mod Guard
pub mod SpeaksFirst
pub mod Worlds
pub mod Timeout
use pet_urls.Prelude.{
  String, ℕ, Bytes, codes, Bool, true, false, not, ◌&&◌, Option, none, some, List, [], ◌∷◌, ◌++◌,
  ◌==◌, ◌=b=◌, is_some, if◌then◌else◌,
}
use pet_urls.Prelude.Action.{Action}
use pet_urls.Errors.{Result, ok, err}
use pet_urls.Context.{Ctx, context_with_request_id, request_id}
use pet_urls.Http.Writer.{
  WriterWrapper, new_wrapper, Call, finished, blocked, flush, Operation, header, body, set_field,
  fields, perform,
}

-- The fields of http.Request that the middleware uses. The router sets `pattern`.
pub record Request : Type 0 where
  pub method : Bytes
  pub path : Bytes
  pub pattern : Bytes
  -- the header field Authorization, empty where the request has none
  pub authorization : Bytes
  pub ctx : Ctx
  pub body_limit : Option ℕ
  -- none is a nil body
  pub payload : Option Bytes
  pub content_type : Bytes
  -- `PathValue("token")`, which the router sets
  pub path_token : Bytes
  -- `Cookie(name)`
  pub cookie : Bytes → Result Bytes

-- How a request ends: served, never coming back, or with the exit of the process.
pub data Served (W : Type 0) : Type 0 where
  served : Request → List Operation → W → Served W
  stuck : W → Served W
  exited : W → Served W

abbrev pub Handler : Type 0 → Type 0
Handler W = Request → W → Served W

-- What the middleware takes from outside: the UUID generator, whether the deadline of a request has
-- passed when its handler comes back, and the registry of the metrics with whether it is there.
pub record Server (W : Type 0) : Type 0 where
  pub new_uuid : Action W (Result Bytes)
  pub deadline_passed : W → Bool
  pub observe : Bytes → Bytes → ℕ → W → W
  pub metrics : Bool

-- `strings.Cut(pattern, " ")`: what follows the first space, if there is one.
unfoldable pub after_space : Bytes → Option Bytes
after_space [] = none
after_space (c ∷ s) = let rest = after_space s in if c == b' ' then some s else rest

abbrev pub some_or : Option Bytes → Bytes → Bytes
some_or none d = d
some_or (some s) d = s

unfoldable pub pattern_without_method : Bytes → Bytes
unfolding after_space
pattern_without_method pattern = some_or (after_space pattern) pattern

unfoldable pub chain {ℓ} : {H : Type ℓ} → H → List (H → H) → H
chain h [] = h
chain h (m ∷ ms) = m (chain h ms)

-- The text that `http.Error` and the JSON encoder write: with a newline at its end.
abbrev pub line : String → Bytes
line s = codes s ++ (10 ∷ [])

-- `http.Error`.
abbrev pub http_error : String → ℕ → List Operation
http_error text status =
    set_field (codes "Content-Type") (codes "text/plain; charset=utf-8")
    ∷ set_field (codes "X-Content-Type-Options") (codes "nosniff")
    ∷ header status
    ∷ body (line text)
    ∷ []

-- What timeoutMiddleware writes when the deadline has passed.
abbrev pub timeout_answer : List Operation
timeout_answer = set_field (codes "Retry-After") (codes "5") ∷ http_error "Server timeout" 503

-- What `Flush` does with the wrapped writer.
abbrev pub flush_answer : WriterWrapper → List Operation
flush_answer ww = header (flush ww).0 ∷ body (flush ww).1 ∷ []

-- `writeResponseAsJSON(w, "internal", 500)`.
abbrev pub internal_as_json : List Operation
internal_as_json =
    set_field (codes "Content-Type") (codes "application/json")
    ∷ header 500
    ∷ body (line "\"internal\"")
    ∷ []

-- 1 << 20 bytes.
abbrev pub max_body_size_bytes : ℕ
max_body_size_bytes = 1048576

module _ {W : Type 0} (s : Server W) where
  -- The caller keeps its own request, with `ops` done on the writer before.
  abbrev pub keep_request : Request → List Operation → Served W → Served W
  keep_request r ops (served _ ops' w) = served r (ops ++ ops') w
  keep_request r ops (stuck w) = stuck w
  keep_request r ops (exited w) = exited w

  with_request_id : Handler W → Request → Result Bytes → W → Served W
  with_request_id next r (ok id) w =
      keep_request r [] (next (record r { ctx = context_with_request_id r.ctx id }) w)
  with_request_id next r (err _) w =
      keep_request r internal_as_json (next (record r { ctx = context_with_request_id r.ctx [] }) w)

  unfoldable pub request_id_middleware : Handler W → Handler W
  unfolding with_request_id
  request_id_middleware next r w = let (id, w') = s.new_uuid w in with_request_id next r id w'

  -- `observeRequest`, where there is a registry and the router has set a pattern.
  observed : Request → ℕ → W → W
  unfolding pattern_without_method ◌=b=◌
  observed r status w =
      if s.metrics && not (r.pattern =b= [])
      then s.observe r.method (pattern_without_method r.pattern) status w
      else w

  -- After the flush: the process exits where the context holds no request ID.
  log_completion : Request → List Operation → ℕ × Bytes → W → Served W
  unfolding observed request_id
  log_completion r sent (status, text) w =
      if is_some (request_id r.ctx)
      then served r (sent ++ (header status ∷ body text ∷ [])) (observed r status w)
      else exited w

  -- `sent` are the fields that the handler has set.
  flush_and_log : Request → List Operation → Call → W → Served W
  unfolding log_completion flush
  flush_and_log r sent (finished ww) w = log_completion r sent (flush ww) w
  flush_and_log r sent (blocked ww) w = stuck w

  after_next : Served W → Served W
  unfolding flush_and_log perform
  after_next (served r ops w) = flush_and_log r (fields ops) (perform ops new_wrapper) w
  after_next (stuck w) = stuck w
  after_next (exited w) = exited w

  unfoldable pub observability_middleware : Handler W → Handler W
  unfolding after_next
  observability_middleware next r w = after_next (next r w)

  unfoldable pub max_body_middleware : ℕ → Handler W → Handler W
  max_body_middleware limit next r w = next (record r { body_limit = some limit }) w

  -- The select of the timeout: the deadline, or the end of the handler.
  select : Request → List Operation → Call → W → Served W
  unfolding flush
  select r sent (finished ww) w =
      if s.deadline_passed w
      then served r (sent ++ timeout_answer) w
      else served r (sent ++ flush_answer ww) w
  select r sent (blocked ww) w = stuck w

  unfoldable pub after_handler : Request → Served W → Served W
  unfolding select perform
  after_handler r (served _ ops w) = select r (fields ops) (perform ops new_wrapper) w
  after_handler r (stuck w) = stuck w
  after_handler r (exited w) = exited w

  unfoldable pub timeout_middleware : Handler W → Handler W
  unfolding after_handler
  timeout_middleware next r w = after_handler r (next r w)

  -- `server.s.Handler` of NewServer, for a router.
  unfoldable pub server_handler : Handler W → Handler W
  unfolding chain request_id_middleware observability_middleware timeout_middleware
      max_body_middleware
  server_handler router = chain router (
      request_id_middleware
      ∷ observability_middleware
      ∷ timeout_middleware
      ∷ max_body_middleware max_body_size_bytes
      ∷ [])
