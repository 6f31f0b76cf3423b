-- ===== src/Auth/Reports/Refresh.antt =====
-- What Refresh of internal/services/auth/auth.go returns and leaves behind, by what each call of a
-- dependency has answered.
use pet_urls.Prelude.{
  ◌≡◌, refl, inl, inr, Bytes, true, false, none, some, arith, Bool-cases, Option-cases,
}
use pet_urls.Prelude.Int.{ℤ, ◌<ℤ◌, ◌≤ℤ◌, ltb_ℤ}
use pet_urls.Errors.{
  GoError, Result, ok, err, Result-cases, invalid_auth_token, same_sentinel, errors_is, Tells,
  Hides, is_not_found_error,
}
use pet_urls.Auth.Types.{RefreshTokenInRepo, Auth}
use pet_urls.Auth.Service.{hash_token, issue_access_token, after_session, refresh}

module _ {W : Type 0} (a : Auth W) where
  open a use {env, repo}

  -- A refresh: the lookup of the session, then the clock, then the access token.
  module _ (candidate : Bytes) (w : W) where
    abbrev held : Result RefreshTokenInRepo × W
    held = repo.get_refresh_token (hash_token a candidate) w

    abbrev clock : ℤ × W
    clock = env.now held.1

    abbrev renewed : RefreshTokenInRepo → Result Bytes × W
    renewed r = issue_access_token a r.user_id clock.1

    abbrev Live : RefreshTokenInRepo → Type 0
    Live r = (held.0 ≡ ok r) × (r.revoked_at ≡ none) × (clock.0 ≤ℤ r.expires_at)

    pub data RefreshReport : (Result Bytes × W) → Type 0 where
      unknown :
          (x e : GoError)
          → held.0 ≡ err x
          → is_not_found_error (some x) ≡ true
          → errors_is (some e) invalid_auth_token ≡ true
          → RefreshReport (err e, held.1)
      unread :
          (x e : GoError)
          → held.0 ≡ err x
          → is_not_found_error (some x) ≡ false
          → Hides e
          → RefreshReport (err e, held.1)
      revoked :
          (r : RefreshTokenInRepo) (at : ℤ) (e : GoError)
          → held.0 ≡ ok r
          → r.revoked_at ≡ some at
          → errors_is (some e) invalid_auth_token ≡ true
          → RefreshReport (err e, held.1)
      expired :
          (r : RefreshTokenInRepo) (e : GoError)
          → held.0 ≡ ok r
          → r.revoked_at ≡ none
          → r.expires_at <ℤ clock.0
          → errors_is (some e) invalid_auth_token ≡ true
          → RefreshReport (err e, clock.1)
      no_access :
          (r : RefreshTokenInRepo) (x e : GoError)
          → Live r
          → (renewed r).0 ≡ err x
          → Tells x e
          → RefreshReport (err e, (renewed r).1)
      refreshed :
          (r : RefreshTokenInRepo) (s : Bytes)
          → Live r
          → (renewed r).0 ≡ ok s
          → RefreshReport (ok s, (renewed r).1)

    unrevoked-RefreshReport :
        (r : RefreshTokenInRepo)
        → held.0 ≡ ok r
        → r.revoked_at ≡ none
        → RefreshReport (after_session a (ok r) held.1)
    unfolding after_session errors_is same_sentinel
    unrevoked-RefreshReport r found here = elim (Bool-cases (ltb_ℤ r.expires_at clock.0)) [
      | inl late ↦ rw (here, late) (expired r _ found here (ground arith) refl)
      | inr early ↦
          let live : Live r = (found, here, ground arith) in
          rw (here, early)
            (elim (Result-cases (renewed r).0) [
              | inl (s, done) ↦ rw done (refreshed r s live done)
              | inr (x, failed) ↦ rw failed (no_access r x _ live failed (λ s. refl))
            ])
    ]

    session-RefreshReport :
        (f : Result RefreshTokenInRepo) → held.0 ≡ f → RefreshReport (after_session a f held.1)
    unfolding after_session errors_is same_sentinel
    session-RefreshReport (ok r) found = elim (Option-cases r.revoked_at) [
      | inl here ↦ unrevoked-RefreshReport r found here
      | inr (at, gone) ↦ rw gone (revoked r at _ found gone refl)
    ]
    session-RefreshReport (err x) failed = elim (Bool-cases (is_not_found_error (some x))) [
      | inl absent ↦ rw absent (unknown x _ failed absent refl)
      | inr other ↦ rw other (unread x _ failed other (λ s. refl))
    ]

    -- A refresh gives an access token exactly where the repository has the session of the hashed
    -- token, not revoked and with an expiry that the clock has not passed, and a token could be issued
    -- for its user. An unknown, a revoked and an expired session give ErrInvalidToken, and no token is
    -- issued; another failure of the repository gives an internal error, and one in the issuing of the
    -- token the error of that.
    pub refresh-RefreshReport : RefreshReport (refresh a candidate w)
    unfolding refresh
    refresh-RefreshReport = session-RefreshReport held.0 refl
