-- ===== src/Examples/Timeout.antt =====
-- The goroutines of the timeout middleware at work.
use pet_urls.Prelude.{refl, codes, true, List, [], ◌∷◌}
use pet_urls.Http.Writer.{new_wrapper, write_header, write, abort, Operation, header, body, perform}
use pet_urls.Http.Middleware.{timeout_answer}
use pet_urls.Http.Middleware.Timeout.{
  running, aborting, answering, Race, fork, worker_step, waiter_step, Reach, begun, works, waits,
  expires,
}
use pet_urls.Http.Middleware.Timeout.Answer.{Answers, Reach-Answers}
use pet_urls.Http.Middleware.Timeout.Stuck.{Hangs, body-Hangs}

abbrev ops : List Operation
ops = header 201 ∷ body (codes "made") ∷ []

-- The deadline passes between the status and the body of the handler, which then writes in vain.
abbrev late : Race
late = record {
  worker = running [];
  waiter = answering [];
  writer = record new_wrapper { status = 201; wrote_header = true; aborted = true };
  sent = timeout_answer;
}

late_run : Reach (fork ops) late
unfolding worker_step waiter_step perform write_header write abort
late_run = waits (waits (waits (waits (waits (works (waits (expires (works begun) refl)))))))

Reach-Answers_example : Answers ops (503 ∷ [], codes "Server timeout\n")
Reach-Answers_example = Reach-Answers late_run refl

-- The request comes to the abort while the handler waits for its own mutex.
abbrev hanging : Race
hanging = record (worker_step (running (body (codes "ok") ∷ [])) (fork (body (codes "ok") ∷ []))) {
  waiter = aborting;
}

hanging_run :
    Reach (worker_step (running (body (codes "ok") ∷ [])) (fork (body (codes "ok") ∷ []))) hanging
unfolding worker_step perform write
hanging_run = expires begun refl

body-Hangs_example : Hangs hanging
body-Hangs_example = body-Hangs (codes "ok") [] hanging_run
