-- ===== src/Http/Middleware/Timeout.antt =====
-- timeoutMiddleware of internal/transport/http/middleware.go as two goroutines: the handler, which
-- works on the buffering writer, and the one of the request, which waits for the deadline or for the
-- handler. A call of a writer's method is one step, since the mutex lets none come between.
pub mod Answer
pub mod Stuck
use pet_urls.Prelude.{◌≡◌, List, [], ◌∷◌, ◌++◌}
use pet_urls.Http.Writer.{
  WriterWrapper, new_wrapper, Call, finished, blocked, abort, flush, Operation, perform, fields,
}
use pet_urls.Http.Middleware.{timeout_answer, flush_answer}

-- The goroutine of the handler: what it has yet to do with the writer, a wait that never ends, or its
-- end with `done` closed.
pub data Worker : Type 0 where
  running : List Operation → Worker
  stuck : Worker
  done : Worker

-- The goroutine of the request: in the select, in `Abort`, or with operations left for the wrapped
-- writer, after which the middleware returns.
pub data Waiter : Type 0 where
  selecting : Waiter
  aborting : Waiter
  answering : List Operation → Waiter

-- `sent` is what has reached the wrapped writer, in order.
pub record Race : Type 0 where
  pub worker : Worker
  pub waiter : Waiter
  pub writer : WriterWrapper
  pub sent : List Operation

-- `go func()` of a handler with these operations.
abbrev pub fork : List Operation → Race
fork ops = record { worker = running ops; waiter = selecting; writer = new_wrapper; sent = [] }

abbrev pub after_operation : Race → Operation → List Operation → Call → Race
after_operation x o ops (finished ww) = record x {
  worker = running ops;
  writer = ww;
  sent = x.sent ++ fields (o ∷ []);
}
after_operation x o ops (blocked ww) = record x { worker = stuck; writer = ww }

unfoldable pub worker_step : Worker → Race → Race
worker_step (running []) x = record x { worker = done }
worker_step (running (o ∷ ops)) x = after_operation x o ops (perform (o ∷ []) x.writer)
worker_step stuck x = x
worker_step done x = x

abbrev pub after_abort : Race → Call → Race
after_abort x (finished ww) = record x { waiter = answering timeout_answer; writer = ww }
after_abort x (blocked _) = x

unfoldable pub waiter_step : Waiter → Race → Race
waiter_step selecting x = x
waiter_step aborting x = after_abort x (abort x.writer)
waiter_step (answering []) x = x
waiter_step (answering (o ∷ ops)) x = record x { waiter = answering ops; sent = x.sent ++ (o ∷ []) }

-- The steps, in any order: one of either goroutine, or a choice of the select.
pub data Reach (x : Race) : Race → Type 0 where
  begun : Reach x x
  works : {y : Race} → Reach x y → Reach x (worker_step y.worker y)
  waits : {y : Race} → Reach x y → Reach x (waiter_step y.waiter y)
  expires : {y : Race} → Reach x y → y.waiter ≡ selecting → Reach x (record y { waiter = aborting })
  completes :
      {y : Race}
      → Reach x y
      → y.waiter ≡ selecting
      → y.worker ≡ done
      → Reach x (record y { waiter = answering (flush_answer y.writer) })
