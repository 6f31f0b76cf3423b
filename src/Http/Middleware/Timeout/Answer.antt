-- ===== src/Http/Middleware/Timeout/Answer.antt =====
-- What timeoutMiddleware answers, however its two goroutines interleave.
use pet_urls.Prelude.{
  ℕ, Bytes, ◌≡◌, refl, sym, ap, ◌∙◌, List, [], ◌∷◌, ◌++◌, append_assoc, append-nil,
}
use mathlib.Core.Path.{subst}
use pet_urls.Http.Writer.{
  WriterWrapper, new_wrapper, Call, finished, blocked, ◌>>=◌, write_header, write, abort, flush,
  Operation, header, body, set_field, add_field, perform, fields,
}
use pet_urls.Http.Writer.Laws.{bodies}
use pet_urls.Http.Middleware.{line, timeout_answer, flush_answer}
use pet_urls.Http.Middleware.Timeout.{
  Worker, running, stuck, done, Waiter, selecting, aborting, answering, Race, fork, after_operation,
  worker_step, after_abort, waiter_step, Reach, begun, works, waits, expires, completes,
}

-- The statuses of the operations, in order.
abbrev pub statuses : List Operation → List ℕ
statuses [] = []
statuses (header s ∷ ops) = s ∷ statuses ops
statuses (body b ∷ ops) = statuses ops
statuses (set_field n v ∷ ops) = statuses ops
statuses (add_field n v ∷ ops) = statuses ops

-- What a client gets of operations on the wrapped writer, its fields aside.
abbrev pub answer : List Operation → List ℕ × Bytes
answer ops = (statuses ops, bodies ops)

statuses-append : (a b : List Operation) → statuses (a ++ b) ≡ statuses a ++ statuses b
statuses-append [] b = refl
statuses-append (header s ∷ a) b = ap (λ x. s ∷ x) (statuses-append a b)
statuses-append (body c ∷ a) b = statuses-append a b
statuses-append (set_field n v ∷ a) b = statuses-append a b
statuses-append (add_field n v ∷ a) b = statuses-append a b

bodies-append : (a b : List Operation) → bodies (a ++ b) ≡ bodies a ++ bodies b
bodies-append [] b = refl
bodies-append (header s ∷ a) b = bodies-append a b
bodies-append (body c ∷ a) b =
    ap (λ x. c ++ x) (bodies-append a b) ∙ sym (append_assoc c (bodies a) (bodies b))
bodies-append (set_field n v ∷ a) b = bodies-append a b
bodies-append (add_field n v ∷ a) b = bodies-append a b

answer-append :
    (a b : List Operation) → answer (a ++ b) ≡ (statuses a ++ statuses b, bodies a ++ bodies b)
answer-append a b =
    ap (λ x. (x, bodies (a ++ b))) (statuses-append a b)
    ∙ ap (λ x. (statuses a ++ statuses b, x)) (bodies-append a b)

-- Fields that the handler sets change nothing of the answer.
answer-field :
    (a : List Operation) (o : Operation) (b : List Operation)
    → answer ((a ++ fields (o ∷ [])) ++ b) ≡ answer (a ++ b)
answer-field a (header s) b = rw append-nil refl
answer-field a (body c) b = rw append-nil refl
answer-field a (set_field n v) b =
    rw append_assoc (answer-append a (set_field n v ∷ b) ∙ sym (answer-append a b))
answer-field a (add_field n v) b =
    rw append_assoc (answer-append a (add_field n v ∷ b) ∙ sym (answer-append a b))

bind_through :
    (c : Call) {f : WriterWrapper → Call} (g h : WriterWrapper → Call)
    → ((ww : WriterWrapper) → f ww ≡ (g ww >>= h))
    → (c >>= f) ≡ ((c >>= g) >>= h)
bind_through (finished ww) g h same = same ww
bind_through (blocked ww) g h same = refl

pub perform-append :
    (a b : List Operation) (ww : WriterWrapper) → perform (a ++ b) ww ≡ (perform a ww >>= perform b)
unfolding perform
perform-append [] b ww = refl
perform-append (header s ∷ a) b ww =
    bind_through (write_header s ww) (perform a) (perform b) (perform-append a b)
perform-append (body c ∷ a) b ww =
    bind_through (write c ww) (perform a) (perform b) (perform-append a b)
perform-append (set_field n v ∷ a) b ww = perform-append a b ww
perform-append (add_field n v ∷ a) b ww = perform-append a b ww

-- What the handler has done so far, while its writer was not aborted.
data Before (all : List Operation) : Worker → WriterWrapper → Type 0 where
  so_far :
      (did rest : List Operation) (ww : WriterWrapper)
      → did ++ rest ≡ all
      → perform did new_wrapper ≡ finished ww
      → Before all (running rest) ww
  all_done : (ww : WriterWrapper) → perform all new_wrapper ≡ finished ww → Before all done ww
  hangs : (ww : WriterWrapper) → Before all stuck ww

-- The answer of the timeout, or that of the whole handler.
pub data Answers (all : List Operation) : List ℕ × Bytes → Type 0 where
  timeout : Answers all (503 ∷ [], line "Server timeout")
  whole :
      (ww : WriterWrapper)
      → perform all new_wrapper ≡ finished ww
      → Answers all ((flush ww).0 ∷ [], (flush ww).1)

-- What holds at any time, by the state of the request's goroutine.
Phase : List Operation → Waiter → Race → Type 0
Phase all selecting x = Before all x.worker x.writer × (answer x.sent ≡ ([], []))
Phase all aborting x = answer x.sent ≡ ([], [])
Phase all (answering ops) x = Answers all (answer (x.sent ++ ops))

Before-step :
    (all : List Operation) (x : Race) (o : Operation) (ops : List Operation) (c : Call)
    → perform (o ∷ []) x.writer ≡ c
    → Before all (running (o ∷ ops)) x.writer
    → Before all (after_operation x o ops c).worker (after_operation x o ops c).writer
Before-step all x o ops (finished ww) next (so_far did _ _ split same) =
    so_far (did ++ (o ∷ [])) ops ww (append_assoc did (o ∷ []) ops ∙ split)
      (perform-append did (o ∷ []) new_wrapper ∙ ap (λ c. c >>= perform (o ∷ [])) same ∙ next)
Before-step all x o ops (blocked ww) next before = hangs ww

answer-operation :
    (x : Race) (o : Operation) (ops : List Operation) (c : Call) (rest : List Operation)
    → answer ((after_operation x o ops c).sent ++ rest) ≡ answer (x.sent ++ rest)
answer-operation x o ops (finished ww) rest = answer-field x.sent o rest
answer-operation x o ops (blocked ww) rest = refl

-- What the handler does to the answer: nothing.
answer-worker :
    (worker : Worker) (x : Race) (rest : List Operation)
    → answer ((worker_step worker x).sent ++ rest) ≡ answer (x.sent ++ rest)
unfolding worker_step
answer-worker (running []) x rest = refl
answer-worker (running (o ∷ ops)) x rest = answer-operation x o ops (perform (o ∷ []) x.writer) rest
answer-worker stuck x rest = refl
answer-worker done x rest = refl

answer-worker_nil :
    (worker : Worker) (x : Race) → answer (worker_step worker x).sent ≡ answer x.sent
answer-worker_nil worker x =
    ap answer (sym (append-nil (worker_step worker x).sent))
    ∙ answer-worker worker x []
    ∙ ap answer (append-nil x.sent)

waiter-operation :
    (x : Race) (o : Operation) (ops : List Operation) (c : Call)
    → (after_operation x o ops c).waiter ≡ x.waiter
waiter-operation x o ops (finished ww) = refl
waiter-operation x o ops (blocked ww) = refl

-- The handler leaves the goroutine of the request where it is.
waiter-worker : (worker : Worker) (x : Race) → (worker_step worker x).waiter ≡ x.waiter
unfolding worker_step
waiter-worker (running []) x = refl
waiter-worker (running (o ∷ ops)) x = waiter-operation x o ops (perform (o ∷ []) x.writer)
waiter-worker stuck x = refl
waiter-worker done x = refl

Before-worker :
    (all : List Operation) (worker : Worker) (x : Race)
    → worker ≡ x.worker
    → Before all worker x.writer
    → Before all (worker_step worker x).worker (worker_step worker x).writer
unfolding worker_step
Before-worker all (running (o ∷ ops)) x this before =
    Before-step all x o ops (perform (o ∷ []) x.writer) refl before
Before-worker all (running []) x this (so_far did _ _ split same) =
    all_done x.writer (ap (λ l. perform l new_wrapper) (sym split ∙ append-nil did) ∙ same)
Before-worker all stuck x this before = subst (λ h. Before all h x.writer) this before
Before-worker all done x this before = subst (λ h. Before all h x.writer) this before

Phase-worker :
    (all : List Operation) (waiter : Waiter) (x : Race)
    → Phase all waiter x
    → Phase all waiter (worker_step x.worker x)
unfolding Phase
Phase-worker all selecting x (before, silent) =
    (Before-worker all x.worker x refl before, answer-worker_nil x.worker x ∙ silent)
Phase-worker all aborting x silent = answer-worker_nil x.worker x ∙ silent
Phase-worker all (answering ops) x h = subst (Answers all) (sym (answer-worker x.worker x ops)) h

-- A silent writer answers what is left to write.
answer-silent : (a b : List Operation) → answer a ≡ ([], []) → answer (a ++ b) ≡ answer b
answer-silent a b silent = answer-append a b ∙ ap (λ x. (x.0 ++ statuses b, x.1 ++ bodies b)) silent

Phase-abort :
    (all : List Operation) (x : Race) (c : Call)
    → x.waiter ≡ aborting
    → answer x.sent ≡ ([], [])
    → Phase all (after_abort x c).waiter (after_abort x c)
unfolding Phase
Phase-abort all x (finished ww) here silent =
    subst (Answers all) (sym (answer-silent x.sent timeout_answer silent)) timeout
Phase-abort all x (blocked ww) here silent = subst (λ p. Phase all p x) (sym here) silent

Phase-waiter :
    (all : List Operation) (waiter : Waiter) (x : Race)
    → x.waiter ≡ waiter
    → Phase all waiter x
    → Phase all (waiter_step waiter x).waiter (waiter_step waiter x)
unfolding Phase waiter_step
Phase-waiter all selecting x here h = subst (λ p. Phase all p x) (sym here) h
Phase-waiter all aborting x here silent = Phase-abort all x (abort x.writer) here silent
Phase-waiter all (answering []) x here h = subst (λ p. Phase all p x) (sym here) h
Phase-waiter all (answering (o ∷ ops)) x here h =
    subst (Answers all) (ap answer (sym (append_assoc x.sent (o ∷ []) ops))) h

Before-done :
    {all : List Operation} {worker : Worker} {ww : WriterWrapper}
    → Before all worker ww
    → worker ≡ done
    → perform all new_wrapper ≡ finished ww
Before-done (all_done ww whole_done) closed = whole_done
Before-done (so_far did rest ww split same) closed = cc
Before-done (hangs ww) closed = cc

Phase-completes :
    (all : List Operation) (x : Race)
    → x.worker ≡ done
    → Phase all selecting x
    → Answers all (answer (x.sent ++ flush_answer x.writer))
unfolding Phase
Phase-completes all x closed (before, silent) =
    subst (Answers all) (sym (answer-silent x.sent (flush_answer x.writer) silent))
      (rw append-nil (whole x.writer (Before-done before closed)))

Reach-Phase : {all : List Operation} {x : Race} → Reach (fork all) x → Phase all x.waiter x
unfolding Phase perform
Reach-Phase {all = all} begun = (so_far [] all new_wrapper refl refl, refl)
Reach-Phase {all = all} (works {y} r) =
    subst (λ p. Phase all p (worker_step y.worker y)) (sym (waiter-worker y.worker y))
      (Phase-worker all y.waiter y (Reach-Phase r))
Reach-Phase {all = all} (waits {y} r) = Phase-waiter all y.waiter y refl (Reach-Phase r)
Reach-Phase {all = all} (expires {y} r here) = (subst (λ p. Phase all p y) here (Reach-Phase r)).1
Reach-Phase {all = all} (completes {y} r here closed) =
    Phase-completes all y closed (subst (λ p. Phase all p y) here (Reach-Phase r))

-- However the handler, the deadline and the request interleave: once timeoutMiddleware returns, the
-- client has got one status with one body, either 503 with "Server timeout", or what the whole
-- handler has left in a buffer that nothing has aborted; never a part of it, and never both.
pub Reach-Answers :
    {all : List Operation} {x : Race}
    → Reach (fork all) x
    → x.waiter ≡ answering []
    → Answers all (answer x.sent)
unfolding Phase
Reach-Answers {all = all} {x = x} r here =
    subst (λ s. Answers all (answer s)) (append-nil x.sent)
      (subst (λ p. Phase all p x) here (Reach-Phase r))
