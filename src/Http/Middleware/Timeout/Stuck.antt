-- ===== src/Http/Middleware/Timeout/Stuck.antt =====
-- The deadlock of timeoutMiddleware with a handler that writes a body before any status.
use pet_urls.Prelude.{
  Bytes, ◌≡◌, refl, sym, ◌⊎◌, inl, inr, Bool, true, false, if◌then◌else◌, List, [], ◌∷◌,
}
use mathlib.Core.Path.{subst}
use pet_urls.Http.Writer.{
  WriterWrapper, Call, finished, blocked, ◌>>=◌, abort, write, Operation, body, perform,
}
use pet_urls.Http.Middleware.Timeout.{
  Worker, running, stuck, done, Waiter, selecting, aborting, answering, Race, fork, worker_step,
  after_abort, waiter_step, Reach, begun, works, waits, expires, completes,
}

-- The handler waits for the mutex that it holds, and the request has answered nothing.
pub record Hangs (x : Race) : Type 0 where
  pub worker : x.worker ≡ stuck
  pub locked : x.writer.locked ≡ true
  pub waiter : (x.waiter ≡ selecting) ⊎ (x.waiter ≡ aborting)
  pub silent : x.sent ≡ []

locked_first :
    (b : Bool) (ww : WriterWrapper) (k : WriterWrapper → Call) (next : WriterWrapper)
    → b ≡ true
    → ((if b then blocked ww else finished next) >>= k) ≡ blocked ww
locked_first true ww k next locked = refl
locked_first false ww k next locked = cc

abort_locked : (ww : WriterWrapper) → ww.locked ≡ true → abort ww ≡ blocked ww
unfolding abort
abort_locked ww locked = locked_first ww.locked ww _ _ locked

Hangs-worker :
    (worker : Worker) (x : Race) → worker ≡ stuck → Hangs x → Hangs (worker_step worker x)
unfolding worker_step
Hangs-worker stuck x this h = h
Hangs-worker done x this h = h
Hangs-worker (running ops) x this h = cc

Hangs-waiter :
    (waiter : Waiter) (x : Race)
    → (waiter ≡ selecting) ⊎ (waiter ≡ aborting)
    → Hangs x
    → Hangs (waiter_step waiter x)
unfolding waiter_step
Hangs-waiter selecting x this h = h
Hangs-waiter aborting x this h =
    subst (λ c. Hangs (after_abort x c)) (sym (abort_locked x.writer h.locked)) h
Hangs-waiter (answering ops) x (inl p) h = cc
Hangs-waiter (answering ops) x (inr p) h = cc

Reach-Hangs : {x y : Race} → Reach x y → Hangs x → Hangs y
Reach-Hangs begun h = h
Reach-Hangs (works {y} r) h = let now = Reach-Hangs r h in Hangs-worker y.worker y now.worker now
Reach-Hangs (waits {y} r) h = let now = Reach-Hangs r h in Hangs-waiter y.waiter y now.waiter now
Reach-Hangs (expires {y} r here) h =
    let now = Reach-Hangs r h in
    record { worker = now.worker; locked = now.locked; waiter = inr refl; silent = now.silent }
Reach-Hangs (completes {y} r here closed) h = let now = (Reach-Hangs r h).worker in cc

-- Once a handler that writes a body first has begun to, its goroutine waits for ever on the mutex
-- that it holds, and whatever passes then, the deadline included, the client gets nothing:
-- timeoutMiddleware never comes to an answer.
pub body-Hangs :
    (b : Bytes) (ops : List Operation) {y : Race}
    → Reach (worker_step (running (body b ∷ ops)) (fork (body b ∷ ops))) y
    → Hangs y
unfolding worker_step perform write
body-Hangs b ops r =
    Reach-Hangs r (record { worker = refl; locked = refl; waiter = inl refl; silent = refl })
