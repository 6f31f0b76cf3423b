-- ===== src/Postgres/Retry.antt =====
-- `withRetry` of internal/db/postgres/postgres.go: at most three attempts, with a growing pause
-- between them, while the error is worth a retry and the context is not done.
pub mod Runs
pub mod Results
use pet_urls.Prelude.{
  ℕ, zero, suc, ◌+◌, ◌*◌, ◌<◌, ◌≤◌, ◌≡◌, refl, ◌⊎◌, inl, inr, Bool, true, false, Option, none, some,
  arith, Bool-cases, Option-cases, if◌then◌else◌,
}
use mathlib.Core.Path.{subst}
use pet_urls.Prelude.Action.{Action, pure, ◌>>=◌}
use pet_urls.Errors.{GoError, wrap, plain, Result, ok, err, Result-cases}
use pet_urls.Postgres.Errors.{is_retryable_error}

abbrev pub max_attempts : ℕ
max_attempts = 3

-- 100 milliseconds, in nanoseconds.
abbrev pub delay : ℕ
delay = 100000000

-- A context with a deadline: `err` is ctx.Err(), and `sleep` the select between the timer and
-- ctx.Done(): none if the timer fired, and ctx.Err() otherwise.
pub record Deadline (W : Type 0) : Type 0 where
  pub error : W → Option GoError
  pub sleep : ℕ → Action W (Option GoError)

module _ {W : Type 0} (ctx : Deadline W) {A : Type 0} (fn : Action W (Result A)) where
  -- The rest of a round once the pause is over.
  after_sleep : (GoError → Action W (Result A)) → GoError → Option GoError → Action W (Result A)
  after_sleep next last none = next last
  after_sleep next last (some e) = pure (err e)

  -- The rest of round `attempt` after the call of `fn`; `next` is the next round.
  after_attempt : ℕ → (GoError → Action W (Result A)) → Result A → Action W (Result A)
  unfolding after_sleep
  after_attempt attempt next (ok a) = pure (ok a)
  after_attempt attempt next (err e) =
      if is_retryable_error e
      then (do woken ← ctx.sleep (attempt * delay); after_sleep next e woken)
      else pure (err e)

  -- The check of the context at the head of a round.
  if_running : Action W (Result A) → Option GoError → Action W (Result A)
  if_running body none = body
  if_running body (some e) = pure (err e)

  -- The loop, with the rounds that are left, the number of the round and the last error.
  attempts : ℕ → ℕ → GoError → Action W (Result A)
  unfolding if_running after_attempt
  attempts zero attempt last w = (err (wrap "operation failed after 3 attempts" last), w)
  attempts (suc left) attempt last w =
      if_running (do r ← fn; after_attempt attempt (attempts left (suc attempt)) r) (ctx.error w) w

  unfoldable pub with_retry : Action W (Result A)
  unfolding attempts
  with_retry = attempts max_attempts 1 (plain "no attempt")
