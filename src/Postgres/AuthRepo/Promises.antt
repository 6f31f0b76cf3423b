-- ===== src/Postgres/AuthRepo/Promises.antt =====
-- The repository over the database against the interface of the auth service.
use pet_urls.Prelude.{
  ◌≡◌, ◌≢◌, refl, ap, sym, ◌∙◌, inl, inr, Bytes, true, Option, none, some, arith, Option-cases,
  is_some,
}
use pet_urls.Prelude.Int.{ℤ, to_micros}
use pet_urls.Prelude.Action.{Action}
use pet_urls.Errors.{Result, ok, err, error_of}
use pet_urls.Auth.Types.{RefreshTokenInRepo, kept_session, UserInRepo, Env}
use pet_urls.Auth.Accounts.{Still, Evolves, Evolves-Still, Evolves-refl, Evolves-trans, AccountLaws}
use pet_urls.Postgres.Retry.{Deadline, with_retry}
use pet_urls.Postgres.Retry.Runs.{
  Attempted, Attempted-induction, Retried-induction, with_retry-Retried,
}
use pet_urls.Postgres.Retry.Results.{LastAttempt, Retried-ok}
use pet_urls.Postgres.Database.{Database}
use pet_urls.Postgres.AuthRepo.{
  saved_user, user_of, fetched_user, saved_session, session_of, fetched_session, health_check,
  save_user, get_user, save_refresh_token, get_refresh_token, revoke_refresh_token, auth_repository,
}
use pet_urls.Postgres.AuthRepo.Sql.{AccountSql, insert, revoke}

saved_user-ok : (x : Result Bytes) (id : Bytes) → saved_user x ≡ ok id → x ≡ ok id
unfolding saved_user
saved_user-ok (ok i) id h = h
saved_user-ok (err e) id h = absurd (ground arith)

fetched_user-ok :
    (n : Bytes) (x : Result (Bytes × Bytes)) (u : UserInRepo)
    → fetched_user n x ≡ ok u
    → (c : Bytes × Bytes) × (x ≡ ok c) × (u ≡ user_of n c)
unfolding fetched_user
fetched_user-ok n (ok c) u h = (c, refl, ground arith)
fetched_user-ok n (err e) u h = absurd (ground arith)

saved_session-none : (x : Result (Unit {0})) → saved_session x ≡ none → (o : Unit {0}) × (x ≡ ok o)
unfolding saved_session
saved_session-none (ok o) h = (o, refl)
saved_session-none (err e) h = cc

fetched_session-ok :
    (k : Bytes) (x : Result (Bytes × ℤ × Option ℤ)) (r : RefreshTokenInRepo)
    → fetched_session k x ≡ ok r
    → (c : Bytes × ℤ × Option ℤ) × (x ≡ ok c) × (r ≡ session_of k c)
unfolding fetched_session
fetched_session-ok k (ok c) r h = (c, refl, ground arith)
fetched_session-ok k (err e) r h = absurd (ground arith)

error_of-none : (x : Result (Unit {0})) → error_of x ≡ none → (o : Unit {0}) × (x ≡ ok o)
error_of-none (ok o) h = (o, refl)
error_of-none (err e) h = cc

module _ {W : Type 0} (ctx : Deadline W) (db : Database W) (users : W → Bytes → Option UserInRepo)
    (sessions : W → Bytes → Option RefreshTokenInRepo)
    (laws : AccountSql ctx db users sessions) where
  abbrev Changes : W → W → Type 0
  Changes = Evolves users sessions

  abbrev NoChange : W → W → Type 0
  NoChange = Still users sessions

  Still-refl : (w : W) → NoChange w w
  Still-refl w = record { by_login = λ n. refl; by_hash = λ k. refl }

  Still-trans : (a b c : W) → NoChange a b → NoChange b c → NoChange a c
  Still-trans a b c p q = record {
    by_login = λ n. q.by_login n ∙ p.by_login n;
    by_hash = λ k. q.by_hash k ∙ p.by_hash k;
  }

  -- The same operation tried again and again changes no more than it does at once.
  module _ {A : Type 0} (fn : Action W (Result A)) where
    with_retry-Changes :
        ((a : W) → Changes a (fn a).1) → (w : W) → Changes w (with_retry ctx fn w).1
    with_retry-Changes run w =
        Retried-induction ctx fn Changes (Evolves-refl users sessions)
          (Evolves-trans users sessions) run
          (λ p a. Evolves-Still users sessions (laws.sleep_still p a)) (with_retry-Retried ctx fn w)

    with_retry-NoChange :
        ((a : W) → NoChange a (fn a).1) → (w : W) → NoChange w (with_retry ctx fn w).1
    with_retry-NoChange run w =
        Retried-induction ctx fn NoChange Still-refl Still-trans run laws.sleep_still
          (with_retry-Retried ctx fn w)

    Attempted-Changes :
        ((a : W) → Changes a (fn a).1)
        → {w : W} {n : _} {b : W} → Attempted ctx fn w n b
        → Changes w b
    Attempted-Changes run =
        Attempted-induction ctx fn Changes (Evolves-refl users sessions)
          (Evolves-trans users sessions) run
          (λ p a. Evolves-Still users sessions (laws.sleep_still p a))

    Attempted-NoChange :
        ((a : W) → NoChange a (fn a).1)
        → {w : W} {n : _} {b : W} → Attempted ctx fn w n b
        → NoChange w b
    Attempted-NoChange run =
        Attempted-induction ctx fn NoChange Still-refl Still-trans run laws.sleep_still

    last :
        {w : W} (a : A)
        → (with_retry ctx fn w).0 ≡ ok a
        → LastAttempt ctx fn w a (with_retry ctx fn w).1
    last {w} a h = Retried-ok ctx fn a (with_retry-Retried ctx fn w) h

  -- A login that is free when the last attempt starts was free before.
  free_before : {w b : W} (n : Bytes) → Changes w b → users b n ≡ none → users w n ≡ none
  free_before {w} n c free = elim (Option-cases (users w n)) [
    | inl empty ↦ empty
    | inr (u, taken) ↦ cc (c.by_login n u taken, free)
  ]

  save_user-done :
      (u : UserInRepo) (w : W) (id : Bytes)
      → (save_user ctx db u w).0 ≡ ok id
      → (users w u.login ≡ none)
        × (users (save_user ctx db u w).1 u.login ≡ some (record u { id = id }))
  unfolding save_user
  save_user-done u w id h =
      let l = last (db.insert_user u.login u.password_hash) id (saved_user-ok _ id h) in
      let (free, added) = laws.insert_user_done u.login u.password_hash l.start id l.result in
      (
        free_before u.login
            (Attempted-Changes (db.insert_user u.login u.password_hash)
              (laws.insert_user_evolves u.login u.password_hash) l.attempted)
            free,
        ap (λ v. users v u.login) l.end ∙ added,
      )

  get_user-found :
      (n : Bytes) (w : W) (u : UserInRepo) → (get_user ctx db n w).0 ≡ ok u → users w n ≡ some u
  unfolding get_user
  get_user-found n w u h =
      let (c, selected, same) = fetched_user-ok n _ u h in
      let l = last (db.select_user n) c selected in
      sym
        ((Attempted-NoChange (db.select_user n) (laws.select_user_still n) l.attempted).by_login n)
      ∙ laws.select_user_row n l.start c l.result
      ∙ ap some (sym same)

  save_refresh_token-done :
      (r : RefreshTokenInRepo) (w : W)
      → (save_refresh_token ctx db r w).0 ≡ none
      → sessions (save_refresh_token ctx db r w).1 r.hash
        ≡ some (session_of r.hash (r.user_id, to_micros r.expires_at, none))
  unfolding save_refresh_token
  save_refresh_token-done r w h =
      let (o, saved) = saved_session-none _ h in
      let l = last (insert ctx db users sessions r.hash r.user_id r.expires_at) o saved in
      ap (λ v. sessions v r.hash) l.end
      ∙ laws.insert_done r.hash r.user_id r.expires_at l.start o l.result

  get_refresh_token-found :
      (k : Bytes) (w : W) (r : RefreshTokenInRepo)
      → (get_refresh_token ctx db k w).0 ≡ ok r
      → sessions w k ≡ some r
  unfolding get_refresh_token
  get_refresh_token-found k w r h =
      let (c, selected, same) = fetched_session-ok k _ r h in
      let l = last (db.select_refresh_token k) c selected in
      sym (
        (Attempted-NoChange (db.select_refresh_token k) (laws.select_session_still k)
            l.attempted).by_hash
          k)
      ∙ laws.select_session_row k l.start c l.result
      ∙ ap some (sym same)

  revoke-done :
      (k : Bytes) (w : W) (r : RefreshTokenInRepo)
      → (revoke_refresh_token ctx db k w).0 ≡ none
      → sessions (revoke_refresh_token ctx db k w).1 k ≡ some r
      → is_some r.revoked_at ≡ true
  unfolding revoke_refresh_token
  revoke-done k w r h here =
      let (o, gone) = error_of-none _ h in
      let l = last (revoke ctx db users sessions k) o gone in
      laws.revoke_done k l.start o r l.result (sym (ap (λ v. sessions v k) l.end) ∙ here)

  revoke-others :
      (h k : Bytes) (w : W) → k ≢ h → sessions (revoke_refresh_token ctx db h w).1 k ≡ sessions w k
  unfolding revoke_refresh_token
  revoke-others h k w other =
      Retried-induction ctx (revoke ctx db users sessions h) (λ a b. sessions b k ≡ sessions a k)
        (λ a. refl) (λ a b c p q. q ∙ p) (λ a. laws.revoke_others h k a other)
        (λ p a. (laws.sleep_still p a).by_hash k)
        (with_retry-Retried ctx (revoke ctx db users sessions h) w)

  -- Over a database that keeps to SQL on the tables users and refresh_tokens, and with a clock and
  -- random source that leave these tables alone, the repository of accounts with its retries keeps
  -- every promise that the auth service relies on.
  pub auth_repository-AccountLaws :
      (env : Env W)
      → ((w : W) → Still users sessions w (env.now w).1)
      → ((w : W) → Still users sessions w (env.new_uuid w).1)
      → ((p : Bytes) (w : W) → Still users sessions w (env.generate_from_password p w).1)
      → AccountLaws users sessions env (auth_repository ctx db)
  unfolding health_check save_user get_user save_refresh_token get_refresh_token
      revoke_refresh_token
  auth_repository-AccountLaws env now uuid password = record {
    session_laws = record {
      now_same = λ w. (now w).by_hash;
      save_done = λ r w new h.
          save_refresh_token-done r w h
          ∙ ap (λ o. some (record (kept_session r) { revoked_at = o })) (sym new);
      get_found = get_refresh_token-found;
      revoke_done = revoke-done;
    };
    now_still = now;
    uuid_still = uuid;
    password_still = password;
    health_still = laws.ping_still;
    get_user_still = λ n. with_retry-NoChange (db.select_user n) (laws.select_user_still n);
    get_refresh_token_still =
        λ h. with_retry-NoChange (db.select_refresh_token h) (laws.select_session_still h);
    get_user_found = get_user-found;
    save_user_evolves = λ u.
        with_retry-Changes (db.insert_user u.login u.password_hash)
          (laws.insert_user_evolves u.login u.password_hash);
    save_user_done = save_user-done;
    save_refresh_token_evolves = λ r.
        with_retry-Changes (insert ctx db users sessions r.hash r.user_id r.expires_at)
          (laws.insert_evolves r.hash r.user_id r.expires_at);
    revoke_evolves =
        λ h. with_retry-Changes (revoke ctx db users sessions h) (laws.revoke_evolves h);
    revoke_others = revoke-others;
  }
