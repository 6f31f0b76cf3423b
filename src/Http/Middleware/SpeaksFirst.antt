-- ===== src/Http/Middleware/SpeaksFirst.antt =====
-- When the server answers: the middleware over handlers that set their status before they write.
use pet_urls.Prelude.{◌≡◌, refl, ap, ◌∙◌, Bytes, codes, some, List, [], ◌∷◌, inl, inr, Bool-cases}
use pet_urls.Errors.{Result, ok, err}
use pet_urls.Context.{Ctx, context_with_request_id, request_id}
use pet_urls.Http.Writer.{
  WriterWrapper, finished, flush, Operation, header, body, set_field, fields,
}
use pet_urls.Http.Writer.StatusFirst.{StatusFirst, perform-StatusFirst, StatusFirst-fields}
use pet_urls.Http.Middleware.Laws.{Keeps, after_handler-Keeps}
use pet_urls.Http.Middleware.{
  Request, Served, served, stuck, exited, Handler, Server, keep_request, http_error,
  internal_as_json, select, after_handler, timeout_middleware, after_next, flush_and_log,
  log_completion, observability_middleware, with_request_id, request_id_middleware,
  max_body_middleware, max_body_size_bytes, chain, server_handler,
}

-- The handler comes back, with such a response.
abbrev pub SpeaksFirst : {W : Type 0} → Served W → Type 0
SpeaksFirst (served _ ops _) = StatusFirst ops
SpeaksFirst (stuck _) = ⊥
SpeaksFirst (exited _) = ⊥

module _ {W : Type 0} (s : Server W) where
  pub keep_request-SpeaksFirst :
      (r : Request) (x : Served W) → SpeaksFirst x → SpeaksFirst (keep_request s r [] x)
  keep_request-SpeaksFirst r (served q ops w) h = h
  keep_request-SpeaksFirst r (stuck w) h = h
  keep_request-SpeaksFirst r (exited w) h = h

  select-SpeaksFirst :
      (r : Request) (ops : List Operation) (ww : WriterWrapper) (w : W)
      → SpeaksFirst (select s r (fields ops) (finished ww) w)
  unfolding select
  select-SpeaksFirst r ops ww w = elim (Bool-cases (s.deadline_passed w)) [
    | inl late ↦ rw late (
        StatusFirst-fields ops
          (set_field (codes "Retry-After") (codes "5") ∷ http_error "Server timeout" 503) tt)
    | inr live ↦ rw live (StatusFirst-fields ops (header (flush ww).0 ∷ body (flush ww).1 ∷ []) tt)
  ]

  after_handler-SpeaksFirst :
      (r : Request) (x : Served W) → SpeaksFirst x → SpeaksFirst (after_handler s r x)
  unfolding after_handler
  after_handler-SpeaksFirst r (served q ops w) h =
      let (ww, performed, flushed) = perform-StatusFirst ops h in
      rw performed (select-SpeaksFirst r ops ww w)
  after_handler-SpeaksFirst r (stuck w) h = absurd h
  after_handler-SpeaksFirst r (exited w) h = absurd h

  flush_and_log-SpeaksFirst :
      (r : Request) (ops : List Operation) (ww : WriterWrapper) (w : W) (id : Bytes)
      → request_id r.ctx ≡ some id
      → SpeaksFirst (flush_and_log s r (fields ops) (finished ww) w)
  unfolding flush_and_log log_completion
  flush_and_log-SpeaksFirst r ops ww w id here =
      rw here (StatusFirst-fields ops (header (flush ww).0 ∷ body (flush ww).1 ∷ []) tt)

  after_next-SpeaksFirst :
      (r : Request) (x : Served W) (id : Bytes)
      → Keeps r x
      → request_id r.ctx ≡ some id
      → SpeaksFirst x
      → SpeaksFirst (after_next s x)
  unfolding after_next
  after_next-SpeaksFirst r (served q ops w) id keeps here h =
      let (ww, performed, flushed) = perform-StatusFirst ops h in
      rw performed
        (flush_and_log-SpeaksFirst q ops ww w id (ap (λ q. request_id q.ctx) keeps ∙ here))
  after_next-SpeaksFirst r (stuck w) id keeps here h = absurd h
  after_next-SpeaksFirst r (exited w) id keeps here h = absurd h

  after_json :
      (r : Request) (x : Served W)
      → SpeaksFirst x
      → SpeaksFirst (keep_request s r internal_as_json x)
  after_json r (served q ops w) h = tt
  after_json r (stuck w) h = h
  after_json r (exited w) h = h

  with_request_id-SpeaksFirst :
      (next : Handler W) (r : Request) (id : Result Bytes) (w : W)
      → ((c : Ctx) (i : Bytes)
          → request_id c ≡ some i
          → SpeaksFirst (next (record r { ctx = c }) w))
      → SpeaksFirst (with_request_id s next r id w)
  unfolding with_request_id request_id context_with_request_id
  with_request_id-SpeaksFirst next r (ok id) w h =
      keep_request-SpeaksFirst r (next (record r { ctx = context_with_request_id r.ctx id }) w)
        (h (context_with_request_id r.ctx id) id refl)
  with_request_id-SpeaksFirst next r (err e) w h =
      after_json r (next (record r { ctx = context_with_request_id r.ctx [] }) w)
        (h (context_with_request_id r.ctx []) [] refl)

  -- The requests that the router gets: those of the server, with another context and a body limit.
  abbrev pub reached : Request → Ctx → Request
  reached r c = record r { ctx = c; body_limit = some max_body_size_bytes }

  -- A server whose router comes back with a response that sets its status before it writes, on the
  -- request that it gets, does so itself: it does not hang, and it does not end the process.
  pub server_handler-SpeaksFirst :
      (router : Handler W) (r : Request) (w : W)
      → ((c : Ctx) → SpeaksFirst (router (reached r c) (s.new_uuid w).1))
      → SpeaksFirst (server_handler s router r w)
  unfolding server_handler chain request_id_middleware observability_middleware timeout_middleware
      max_body_middleware
  server_handler-SpeaksFirst router r w h =
      with_request_id-SpeaksFirst
        (observability_middleware s
          (timeout_middleware s (max_body_middleware s max_body_size_bytes router)))
        r (s.new_uuid w).0 (s.new_uuid w).1
        (λ c id here.
          let x = router (reached r c) (s.new_uuid w).1 in
          after_next-SpeaksFirst (record r { ctx = c }) (after_handler s (record r { ctx = c }) x)
            id (after_handler-Keeps s (record r { ctx = c }) x) here
            (after_handler-SpeaksFirst (record r { ctx = c }) x (h c)))
