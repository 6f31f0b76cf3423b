-- ===== src/Postgres/Retry/Results.antt =====
-- What a run of `withRetry` that succeeds rests on.
use pet_urls.Prelude.{ℕ, ◌≡◌, refl}
use pet_urls.Prelude.Action.{Action}
use pet_urls.Errors.{Result, ok}
use pet_urls.Postgres.Retry.{Deadline}
use pet_urls.Postgres.Retry.Runs.{
  Attempted, Retried, done, fatal, cancelled, interrupted, exhausted,
}

module _ {W : Type 0} (ctx : Deadline W) {A : Type 0} (fn : Action W (Result A)) where
  -- The result is that of the last attempt, and so is the world.
  pub record LastAttempt (w : W) (a : A) (w' : W) : Type 0 where
    pub count : ℕ
    pub start : W
    pub attempted : Attempted ctx fn w count start
    pub result : (fn start).0 ≡ ok a
    pub end : w' ≡ (fn start).1

  pub Retried-ok :
      {w : W} {x : Result A × W} (a : A) → Retried ctx fn w x → x.0 ≡ ok a → LastAttempt w a x.1
  Retried-ok a (done {n} a' b lt at running result) h = record {
    count = n;
    start = b;
    attempted = at;
    result = cc (result, h);
    end = refl;
  }
  Retried-ok a (fatal e b lt at running result final) h = cc
  Retried-ok a (cancelled e b lt at stopped) h = cc
  Retried-ok a (interrupted {n} e e' b lt at running result worth slept) h = cc
  Retried-ok a (exhausted {n} e b third at running fault worth slept) h = cc
