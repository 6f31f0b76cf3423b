-- ===== src/Auth/Interface.antt =====
-- What the repository of dependencies.go promises about refresh tokens, in terms of `sessions`, the
-- stored tokens by hash.
use pet_urls.Prelude.{◌≡◌, Bytes, true, Option, none, some, is_some}
use pet_urls.Errors.{ok}
use pet_urls.Auth.Types.{RefreshTokenInRepo, kept_session, Repository, Env}

module _ {W : Type 0} (sessions : W → Bytes → Option RefreshTokenInRepo) where
  abbrev pub SameSessions : W → W → Type 0
  SameSessions w w' = (k : Bytes) → sessions w' k ≡ sessions w k

  pub record SessionLaws (env : Env W) (repo : Repository W) : Type 0 where
    pub now_same : (w : W) → SameSessions w (env.now w).1
    pub save_done :
        (r : RefreshTokenInRepo) (w : W)
        → r.revoked_at ≡ none
        → (repo.save_refresh_token r w).0 ≡ none
        → sessions (repo.save_refresh_token r w).1 r.hash ≡ some (kept_session r)
    pub get_found :
        (h : Bytes) (w : W) (r : RefreshTokenInRepo)
        → (repo.get_refresh_token h w).0 ≡ ok r
        → sessions w h ≡ some r
    -- A revocation that reports no error leaves no token with that hash unrevoked.
    pub revoke_done :
        (h : Bytes) (w : W) (r : RefreshTokenInRepo)
        → (repo.revoke_refresh_token h w).0 ≡ none
        → sessions (repo.revoke_refresh_token h w).1 h ≡ some r
        → is_some r.revoked_at ≡ true
