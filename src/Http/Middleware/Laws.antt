-- ===== src/Http/Middleware/Laws.antt =====
-- What the order of the middleware means for the metrics and for the request ID.
use pet_urls.Prelude.{
  ℕ, ◌≡◌, refl, sym, ap, ◌∙◌, Bytes, false, ◌=b=◌, some, List, [], inl, inr, Bool-cases,
}
use pet_urls.Errors.{Result, ok, err}
use pet_urls.Context.{request_id, context_with_request_id}
use pet_urls.Http.Writer.{fields, new_wrapper, Call, finished, blocked, perform, flush, Operation}
use pet_urls.Http.Middleware.{
  internal_as_json, keep_request, Request, Served, served, stuck, exited, Handler, Server,
  with_request_id, request_id_middleware, observed, log_completion, flush_and_log, after_next,
  observability_middleware, max_body_middleware, select, after_handler, timeout_middleware,
  server_handler, chain, max_body_size_bytes,
}

abbrev pub without_metrics : {W : Type 0} → Server W → Server W
without_metrics s = record s { metrics = false }

-- A handler that comes back leaves the request that it was given.
abbrev pub Keeps : {W : Type 0} → Request → Served W → Type 0
Keeps r (served r' _ _) = r' ≡ r
Keeps r (stuck _) = Unit
Keeps r (exited _) = Unit

-- The process does not exit.
abbrev pub Survives : {W : Type 0} → Served W → Type 0
Survives (served _ _ _) = Unit
Survives (stuck _) = Unit
Survives (exited _) = ⊥

module _ {W : Type 0} (s : Server W) where
  select-Keeps :
      (r : Request) (sent : List Operation) (c : Call) (w : W) → Keeps r (select s r sent c w)
  unfolding select
  select-Keeps r sent (finished ww) w = elim (Bool-cases (s.deadline_passed w)) [
    | inl late ↦ rw late refl
    | inr early ↦ rw early refl
  ]
  select-Keeps r sent (blocked ww) w = tt

  pub after_handler-Keeps : (r : Request) (x : Served W) → Keeps r (after_handler s r x)
  unfolding after_handler
  after_handler-Keeps r (served r' ops b) = select-Keeps r (fields ops) (perform ops new_wrapper) b
  after_handler-Keeps r (stuck b) = tt
  after_handler-Keeps r (exited b) = tt

  select_same :
      (r : Request) (sent : List Operation) (c : Call) (w : W)
      → select (without_metrics s) r sent c w ≡ select s r sent c w
  unfolding select
  select_same r sent (finished ww) w = refl
  select_same r sent (blocked ww) w = refl

  after_handler_same :
      (r : Request) (x : Served W) → after_handler (without_metrics s) r x ≡ after_handler s r x
  unfolding after_handler
  after_handler_same r (served r' ops b) = select_same r (fields ops) (perform ops new_wrapper) b
  after_handler_same r (stuck b) = refl
  after_handler_same r (exited b) = refl

  observed_nothing : (r : Request) (n : ℕ) (w : W) → r.pattern ≡ [] → observed s r n w ≡ w
  unfolding observed ◌=b=◌
  observed_nothing r n w h =
      rw h (elim (Bool-cases s.metrics) [ inl on ↦ rw on refl | inr off ↦ rw off refl ])

  log_completion_same :
      (r : Request) (sent : List Operation) (out : ℕ × Bytes) (w : W)
      → r.pattern ≡ []
      → log_completion (without_metrics s) r sent out w ≡ log_completion s r sent out w
  unfolding log_completion observed
  log_completion_same r sent (n, text) w h = rw (observed_nothing r n w h) refl

  flush_and_log_same :
      (r : Request) (sent : List Operation) (c : Call) (w : W)
      → r.pattern ≡ []
      → flush_and_log (without_metrics s) r sent c w ≡ flush_and_log s r sent c w
  unfolding flush_and_log
  flush_and_log_same r sent (finished ww) w h = log_completion_same r sent (flush ww) w h
  flush_and_log_same r sent (blocked ww) w h = refl

  after_next_same :
      (r : Request) (x : Served W)
      → Keeps r x
      → r.pattern ≡ []
      → after_next (without_metrics s) x ≡ after_next s x
  unfolding after_next
  after_next_same r (served r' ops b) keeps h =
      flush_and_log_same r' (fields ops) (perform ops new_wrapper) b (ap (λ q. q.pattern) keeps ∙ h)
  after_next_same r (stuck b) keeps h = refl
  after_next_same r (exited b) keeps h = refl

  -- The chain below the request ID.
  inner_same :
      (next : Handler W) (r : Request) (w : W)
      → r.pattern ≡ []
      → observability_middleware
          (without_metrics s)
          (timeout_middleware (without_metrics s) next)
          r
          w
        ≡ observability_middleware s (timeout_middleware s next) r w
  unfolding observability_middleware timeout_middleware
  inner_same next r w h =
      ap (after_next (without_metrics s)) (after_handler_same r (next r w))
      ∙ after_next_same r (after_handler s r (next r w)) (after_handler-Keeps r (next r w)) h

  with_request_id_same :
      (next next' : Handler W) (r : Request) (id : Result Bytes) (w : W)
      → r.pattern ≡ []
      → ((q : Request) → q.pattern ≡ [] → next q w ≡ next' q w)
      → with_request_id s next r id w ≡ with_request_id (without_metrics s) next' r id w
  unfolding with_request_id
  with_request_id_same next next' r (ok id) w h same =
      ap (keep_request s r []) (same (record r { ctx = context_with_request_id r.ctx id }) h)
  with_request_id_same next next' r (err e) w h same =
      ap (keep_request s r internal_as_json)
        (same (record r { ctx = context_with_request_id r.ctx [] }) h)

  -- For a request whose pattern is not set before the server gets it, whatever pattern the router sets,
  -- a server that has a registry of metrics does exactly the same as one that has none.
  pub server_handler-without_metrics :
      (router : Handler W) (r : Request) (w : W)
      → r.pattern ≡ []
      → server_handler s router r w ≡ server_handler (without_metrics s) router r w
  unfolding server_handler chain request_id_middleware max_body_middleware
  server_handler-without_metrics router r w h =
      with_request_id_same
        (observability_middleware s
          (timeout_middleware s (max_body_middleware s max_body_size_bytes router)))
        (observability_middleware (without_metrics s) (
          timeout_middleware (without_metrics s)
            (max_body_middleware s max_body_size_bytes router)))
        r (s.new_uuid w).0 (s.new_uuid w).1 h
        (λ q k.
          sym (inner_same (max_body_middleware s max_body_size_bytes router) q (s.new_uuid w).1 k))

  select-Survives :
      (r : Request) (sent : List Operation) (c : Call) (w : W) → Survives (select s r sent c w)
  unfolding select
  select-Survives r sent (finished ww) w = elim (Bool-cases (s.deadline_passed w)) [
    | inl late ↦ rw late tt
    | inr early ↦ rw early tt
  ]
  select-Survives r sent (blocked ww) w = tt

  after_handler-Survives :
      (r : Request) (x : Served W) → Survives x → Survives (after_handler s r x)
  unfolding after_handler
  after_handler-Survives r (served r' ops b) h =
      select-Survives r (fields ops) (perform ops new_wrapper) b
  after_handler-Survives r (stuck b) h = tt
  after_handler-Survives r (exited b) h = h

  flush_and_log-Survives :
      (r : Request) (sent : List Operation) (c : Call) (w : W) (id : Bytes)
      → request_id r.ctx ≡ some id
      → Survives (flush_and_log s r sent c w)
  unfolding flush_and_log log_completion
  flush_and_log-Survives r sent (finished ww) w id h = rw h tt
  flush_and_log-Survives r sent (blocked ww) w id h = tt

  after_next-Survives :
      (r : Request) (x : Served W) (id : Bytes)
      → Keeps r x
      → Survives x
      → request_id r.ctx ≡ some id
      → Survives (after_next s x)
  unfolding after_next
  after_next-Survives r (served r' ops b) id keeps h here =
      flush_and_log-Survives r' (fields ops) (perform ops new_wrapper) b id
        (ap (λ q. request_id q.ctx) keeps ∙ here)
  after_next-Survives r (stuck b) id keeps h here = tt
  after_next-Survives r (exited b) id keeps h here = h

  keep_request-Survives :
      (r : Request) (ops : List Operation) (x : Served W)
      → Survives x
      → Survives (keep_request s r ops x)
  keep_request-Survives r ops (served r' ops' b) h = tt
  keep_request-Survives r ops (stuck b) h = tt
  keep_request-Survives r ops (exited b) h = h

  with_request_id-Survives :
      (next : Handler W) (r : Request) (id : Result Bytes) (w : W)
      → ((q : Request) (i : Bytes) → request_id q.ctx ≡ some i → Survives (next q w))
      → Survives (with_request_id s next r id w)
  unfolding with_request_id request_id context_with_request_id
  with_request_id-Survives next r (ok id) w h =
      keep_request-Survives r [] _ (h (record r { ctx = context_with_request_id r.ctx id }) id refl)
  with_request_id-Survives next r (err e) w h =
      keep_request-Survives r internal_as_json _
        (h (record r { ctx = context_with_request_id r.ctx [] }) [] refl)

  -- As long as the router does not end the process, the server does not either: the exit on a missing
  -- request ID is not taken, whether the draw of the ID succeeded or failed.
  server_handler-Survives :
      (router : Handler W) (r : Request) (w : W)
      → ((q : Request) (v : W) → Survives (router q v))
      → Survives (server_handler s router r w)
  unfolding server_handler chain request_id_middleware observability_middleware timeout_middleware
      max_body_middleware
  server_handler-Survives router r w h =
      with_request_id-Survives
        (observability_middleware s
          (timeout_middleware s (max_body_middleware s max_body_size_bytes router)))
        r (s.new_uuid w).0 (s.new_uuid w).1
        (λ q i here.
          after_next-Survives q _ i (after_handler-Keeps q (router _ _))
            (after_handler-Survives q _ (h _ _)) here)
