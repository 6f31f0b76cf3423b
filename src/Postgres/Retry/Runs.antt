-- ===== src/Postgres/Retry/Runs.antt =====
-- How a run of `withRetry` can end, and what it does at once.
use pet_urls.Prelude.{
  String, ℕ, zero, suc, ◌+◌, ◌*◌, ◌<◌, ◌≡◌, refl, inl, inr, true, false, Option, none, some, arith,
  Bool-cases,
}
use mathlib.Core.Path.{subst}
use pet_urls.Prelude.Action.{Action}
use pet_urls.Errors.{GoError, wrap, plain, Result, ok, err, err-injective}
use pet_urls.Postgres.Errors.{is_retryable_error}
use pet_urls.Postgres.Retry.{
  Deadline, max_attempts, after_sleep, after_attempt, if_running, attempts, with_retry,
}

module _ {W : Type 0} (ctx : Deadline W) {A : Type 0} (fn : Action W (Result A)) where
  -- The worlds in which attempt `n + 1` can start: each attempt before it was made while the context
  -- was running, failed with an error worth a retry, and was followed by its full pause, 100
  -- milliseconds for the first one and 100 more for each next one, which the timer ended.
  pub data Attempted (w : W) : ℕ → W → Type 0 where
    first : Attempted w 0 w
    again :
        {n : ℕ} {b : W} (e : GoError)
        → Attempted w n b
        → ctx.error b ≡ none
        → (fn b).0 ≡ err e
        → is_retryable_error e ≡ true
        → (ctx.sleep (suc n * 100000000) (fn b).1).0 ≡ none
        → Attempted w (suc n) (ctx.sleep (suc n * 100000000) (fn b).1).1

  -- How a run ends: with the result of an attempt, with the error of the context at the head of a
  -- round or in a pause, or with the error of the third attempt, wrapped.
  pub data Retried (w : W) : (Result A × W) → Type 0 where
    done :
        {n : ℕ} (a : A) (b : W)
        → n < 3
        → Attempted w n b
        → ctx.error b ≡ none
        → (fn b).0 ≡ ok a
        → Retried w (ok a, (fn b).1)
    fatal :
        {n : ℕ} (e : GoError) (b : W)
        → n < 3
        → Attempted w n b
        → ctx.error b ≡ none
        → (fn b).0 ≡ err e
        → is_retryable_error e ≡ false
        → Retried w (err e, (fn b).1)
    cancelled :
        {n : ℕ} (e : GoError) (b : W)
        → n < 3
        → Attempted w n b
        → ctx.error b ≡ some e
        → Retried w (err e, b)
    interrupted :
        {n : ℕ} (e e' : GoError) (b : W)
        → n < 3
        → Attempted w n b
        → ctx.error b ≡ none
        → (fn b).0 ≡ err e
        → is_retryable_error e ≡ true
        → (ctx.sleep (suc n * 100000000) (fn b).1).0 ≡ some e'
        → Retried w (err e', (ctx.sleep (suc n * 100000000) (fn b).1).1)
    exhausted :
        {n : ℕ} (e : GoError) (b : W)
        → suc n ≡ 3
        → Attempted w n b
        → ctx.error b ≡ none
        → (fn b).0 ≡ err e
        → is_retryable_error e ≡ true
        → (ctx.sleep (suc n * 100000000) (fn b).1).0 ≡ none
        → Retried w (
          err (wrap "operation failed after 3 attempts" e),
          (ctx.sleep (suc n * 100000000) (fn b).1).1,
        )

  -- What the next round owes once a pause is over: the run may go on, and it ends after round three.
  abbrev Continues : W → ℕ → (GoError → Action W (Result A)) → Type 0
  Continues w n next =
      (e : GoError) (c : W)
      → Attempted w (suc n) c
      → (suc n ≡ 3 → Retried w (err (wrap "operation failed after 3 attempts" e), c))
      → Retried w (next e c)

  after_sleep-Retried :
      (n : ℕ) (e : GoError) {w : W} (b : W) (woken : Option GoError)
      → n < 3
      → Attempted w n b
      → ctx.error b ≡ none
      → (fn b).0 ≡ err e
      → is_retryable_error e ≡ true
      → (ctx.sleep (suc n * 100000000) (fn b).1).0 ≡ woken
      → (next : GoError → Action W (Result A)) → Continues w n next
      → Retried w (after_sleep ctx fn next e woken (ctx.sleep (suc n * 100000000) (fn b).1).1)
  unfolding after_sleep
  after_sleep-Retried n e b none lt at running fault worth slept next ih =
      ih e _ (again e at running fault worth slept)
        (λ third. exhausted e b third at running fault worth slept)
  after_sleep-Retried n e b (some e') lt at running fault worth slept next ih =
      interrupted e e' b lt at running fault worth slept

  after_attempt-Retried :
      (n : ℕ) {w : W} (b : W) (r : Result A)
      → n < 3
      → Attempted w n b
      → ctx.error b ≡ none
      → (fn b).0 ≡ r
      → (next : GoError → Action W (Result A)) → Continues w n next
      → Retried w (after_attempt ctx fn (suc n) next r (fn b).1)
  unfolding after_attempt
  after_attempt-Retried n b (ok a) lt at running result next ih = done a b lt at running result
  after_attempt-Retried n b (err e) lt at running result next ih =
      elim (Bool-cases (is_retryable_error e)) [
        | inl worth ↦ rw worth (after_sleep-Retried n e b _ lt at running result worth refl next ih)
        | inr final ↦ rw final (fatal e b lt at running result final)
      ]

  if_running-Retried :
      (n : ℕ) {w : W} (b : W) (stopped : Option GoError) (body : Action W (Result A))
      → n < 3
      → Attempted w n b
      → ctx.error b ≡ stopped
      → (stopped ≡ none → Retried w (body b))
      → Retried w (if_running ctx fn body stopped b)
  unfolding if_running
  if_running-Retried n b none body lt at same runs = runs refl
  if_running-Retried n b (some e) body lt at same runs = cancelled e b lt at same

  attempts-Retried :
      (left n : ℕ) (last : GoError) {w : W} (b : W)
      → n + left ≡ 3
      → Attempted w n b
      → (n ≡ 3 → Retried w (err (wrap "operation failed after 3 attempts" last), b))
      → Retried w (attempts ctx fn left (suc n) last b)
  unfolding attempts
  attempts-Retried zero n last b total at ended = ended (omega arith)
  attempts-Retried (suc left) n last b total at ended =
      if_running-Retried n b _ _ (omega arith) at refl (λ running.
        after_attempt-Retried n b _ (omega arith) at running refl _
          (λ e c at' ended'. attempts-Retried left (suc n) e c (omega arith) at' ended'))

  -- Every run makes at most three attempts, each only while the context is running, and one after
  -- another only where the attempt before failed with an error worth a retry and the timer ended a
  -- pause of 100 milliseconds times the number of that attempt. It ends with the result of the last
  -- attempt, with the error of the context at the head of a round or in a pause, or, after a third
  -- attempt and its pause, with the error of that attempt in a wrapper that says so.
  pub with_retry-Retried : (w : W) → Retried w (with_retry ctx fn w)
  unfolding with_retry
  with_retry-Retried w =
      attempts-Retried max_attempts 0 (plain "no attempt") w refl first
        (λ absurd'. absurd (omega arith))

  -- What every attempt and every pause keeps, and what is transitive, holds up to any attempt.
  pub Attempted-induction :
      (R : W → W → Type 0)
      → ((a : W) → R a a)
      → ((a b c : W) → R a b → R b c → R a c)
      → ((a : W) → R a (fn a).1)
      → ((pause : ℕ) (a : W) → R a (ctx.sleep pause a).1)
      → {w : W} {n : ℕ} {b : W} → Attempted w n b
      → R w b
  Attempted-induction R here trans run pause first = here _
  Attempted-induction R here trans run pause (again {n} {b} e at running fault worth slept) =
      trans _ _ _ (Attempted-induction R here trans run pause at)
        (trans _ _ _ (run b) (pause (suc n * 100000000) (fn b).1))

  -- The same up to the end of the run.
  pub Retried-induction :
      (R : W → W → Type 0)
      → ((a : W) → R a a)
      → ((a b c : W) → R a b → R b c → R a c)
      → ((a : W) → R a (fn a).1)
      → ((pause : ℕ) (a : W) → R a (ctx.sleep pause a).1)
      → {w : W} {x : Result A × W} → Retried w x
      → R w x.1
  Retried-induction R here trans run pause (done a b lt at running result) =
      trans _ _ _ (Attempted-induction R here trans run pause at) (run b)
  Retried-induction R here trans run pause (fatal e b lt at running result final) =
      trans _ _ _ (Attempted-induction R here trans run pause at) (run b)
  Retried-induction R here trans run pause (cancelled e b lt at stopped) =
      Attempted-induction R here trans run pause at
  Retried-induction R here trans run pause
        (interrupted {n} e e' b lt at running result worth slept) =
      trans _ _ _ (Attempted-induction R here trans run pause at)
        (trans _ _ _ (run b) (pause (suc n * 100000000) (fn b).1))
  Retried-induction R here trans run pause (exhausted {n} e b third at running fault worth slept) =
      trans _ _ _ (Attempted-induction R here trans run pause at)
        (trans _ _ _ (run b) (pause (suc n * 100000000) (fn b).1))

  -- A property of errors that wrapping keeps, and that the errors of the operation and of the context
  -- have, is one of the errors of the whole run.
  pub Retried-error :
      (E : GoError → Type 0)
      → ((m : String) (e : GoError) → E e → E (wrap m e))
      → ((b : W) (e : GoError) → (fn b).0 ≡ err e → E e)
      → ((b : W) (e : GoError) → ctx.error b ≡ some e → E e)
      → ((pause : ℕ) (b : W) (e : GoError) → (ctx.sleep pause b).0 ≡ some e → E e)
      → {w : W} {x : Result A × W} (e : GoError) → Retried w x
      → x.0 ≡ err e
      → E e
  Retried-error E wrapped run stop pause e (done a b lt at running result) h = cc
  Retried-error E wrapped run stop pause e (fatal e' b lt at running result final) h =
      run b e (cc (result, h))
  Retried-error E wrapped run stop pause e (cancelled e' b lt at stopped) h =
      stop b e (cc (stopped, h))
  Retried-error E wrapped run stop pause e
        (interrupted {n} e' e'' b lt at running result worth slept) h =
      pause (suc n * 100000000) (fn b).1 e (cc (slept, h))
  Retried-error E wrapped run stop pause e (exhausted {n} e' b third at running fault worth slept)
        h =
      subst E (err-injective h) (wrapped _ e' (run b e' fault))

  -- A context that is done stops the run before the operation is called; with a running context, a
  -- first attempt that succeeds or fails for good is the whole run.
  pub with_retry_at_once :
      (w : W)
      → ((e : GoError) → ctx.error w ≡ some e → with_retry ctx fn w ≡ (err e, w))
        × ((a : A) → ctx.error w ≡ none → (fn w).0 ≡ ok a → with_retry ctx fn w ≡ fn w)
        × ((e : GoError)
            → ctx.error w ≡ none
            → (fn w).0 ≡ err e
            → is_retryable_error e ≡ false
            → with_retry ctx fn w ≡ fn w)
  unfolding with_retry
  with_retry_at_once w = (
    λ e stopped. ground arith,
    λ a running result. ground arith,
    λ e running result final. ground arith,
  )
