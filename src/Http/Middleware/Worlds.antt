-- ===== src/Http/Middleware/Worlds.antt =====
-- What the middleware does to the world beside the router that it wraps.
use pet_urls.Prelude.{
  ℕ, ◌≡◌, refl, sym, Bytes, not, ◌&&◌, List, [], inl, inr, Bool-cases, is_some, ◌=b=◌,
}
use mathlib.Core.Path.{subst}
use pet_urls.Errors.{Result, ok, err}
use pet_urls.Context.{Ctx, context_with_request_id, request_id}
use pet_urls.Http.Writer.{new_wrapper, Call, finished, blocked, flush, Operation, perform, fields}
use pet_urls.Http.Middleware.{
  Request, Served, served, stuck, exited, Handler, Server, keep_request, with_request_id,
  request_id_middleware, observed, log_completion, flush_and_log, after_next,
  observability_middleware, max_body_middleware, select, after_handler, timeout_middleware, chain,
  server_handler, max_body_size_bytes, internal_as_json,
}
use pet_urls.Http.Middleware.SpeaksFirst.{reached}

abbrev pub world_of : {W : Type 0} → Served W → W
world_of (served r ops w) = w
world_of (stuck w) = w
world_of (exited w) = w

pub world_of-keep_request :
    {W : Type 0} (s : Server W) (r : Request) (ops : List Operation) (x : Served W)
    → world_of (keep_request s r ops x) ≡ world_of x
world_of-keep_request s r ops (served q ops' w) = refl
world_of-keep_request s r ops (stuck w) = refl
world_of-keep_request s r ops (exited w) = refl

module _ {W : Type 0} (s : Server W) (P : W → Type 0)
    (seen : (m p : Bytes) (n : ℕ) (w : W) → P w → P (s.observe m p n w)) where
  observed-P : (r : Request) (n : ℕ) (w : W) → P w → P (observed s r n w)
  unfolding observed
  observed-P r n w h = elim (Bool-cases (s.metrics && not (r.pattern =b= []))) [
    | inl counted ↦ rw counted (seen r.method _ n w h)
    | inr left ↦ rw left h
  ]

  log_completion-P :
      (r : Request) (sent : List Operation) (x : ℕ × Bytes) (w : W)
      → P w
      → P (world_of (log_completion s r sent x w))
  unfolding log_completion
  log_completion-P r sent (n, text) w h = elim (Bool-cases (is_some (request_id r.ctx))) [
    | inl here ↦ rw here (observed-P r n w h)
    | inr gone ↦ rw gone h
  ]

  flush_and_log-P :
      (r : Request) (sent : List Operation) (c : Call) (w : W)
      → P w
      → P (world_of (flush_and_log s r sent c w))
  unfolding flush_and_log
  flush_and_log-P r sent (finished ww) w h = log_completion-P r sent (flush ww) w h
  flush_and_log-P r sent (blocked ww) w h = h

  after_next-P : (x : Served W) → P (world_of x) → P (world_of (after_next s x))
  unfolding after_next
  after_next-P (served r ops w) h = flush_and_log-P r (fields ops) (perform ops new_wrapper) w h
  after_next-P (stuck w) h = h
  after_next-P (exited w) h = h

  select-P :
      (r : Request) (sent : List Operation) (c : Call) (w : W)
      → P w
      → P (world_of (select s r sent c w))
  unfolding select
  select-P r sent (finished ww) w h = elim (Bool-cases (s.deadline_passed w)) [
    | inl late ↦ rw late h
    | inr live ↦ rw live h
  ]
  select-P r sent (blocked ww) w h = h

  after_handler-P :
      (r : Request) (x : Served W) → P (world_of x) → P (world_of (after_handler s r x))
  unfolding after_handler
  after_handler-P r (served q ops w) h = select-P r (fields ops) (perform ops new_wrapper) w h
  after_handler-P r (stuck w) h = h
  after_handler-P r (exited w) h = h

  with_request_id-P :
      (next : Handler W) (r : Request) (id : Result Bytes) (w : W)
      → ((c : Ctx) → P (world_of (next (record r { ctx = c }) w)))
      → P (world_of (with_request_id s next r id w))
  unfolding with_request_id
  with_request_id-P next r (ok id) w h =
      subst P
        (sym (
          world_of-keep_request s r []
            (next (record r { ctx = context_with_request_id r.ctx id }) w)))
        (h (context_with_request_id r.ctx id))
  with_request_id-P next r (err e) w h =
      subst P
        (sym (
          world_of-keep_request s r internal_as_json
            (next (record r { ctx = context_with_request_id r.ctx [] }) w)))
        (h (context_with_request_id r.ctx []))

  -- What holds of the world after the router, and is kept by the metrics, holds of the world after the
  -- server.
  pub server_handler-world :
      (router : Handler W) (r : Request) (w : W)
      → ((c : Ctx) → P (world_of (router (reached s r c) (s.new_uuid w).1)))
      → P (world_of (server_handler s router r w))
  unfolding server_handler chain request_id_middleware observability_middleware timeout_middleware
      max_body_middleware
  server_handler-world router r w h =
      with_request_id-P
        (observability_middleware s
          (timeout_middleware s (max_body_middleware s max_body_size_bytes router)))
        r (s.new_uuid w).0 (s.new_uuid w).1
        (λ c.
          after_next-P
            (after_handler s (record r { ctx = c }) (router (reached s r c) (s.new_uuid w).1))
            (after_handler-P (record r { ctx = c }) (router (reached s r c) (s.new_uuid w).1)
              (h c)))
