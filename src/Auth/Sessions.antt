-- ===== src/Auth/Sessions.antt =====
-- Login, logout and refresh against the stored refresh tokens.
use pet_urls.Prelude.{◌≡◌, ◌≢◌, refl, Bytes, false, Option, none, some, arith, is_some}
use pet_urls.Prelude.Int.{ℤ, ◌+ℤ◌, ◌≤ℤ◌, ltb_ℤ}
use pet_urls.Errors.{Result, ok, err}
use pet_urls.Auth.Types.{RefreshTokenInRepo, Auth}
use pet_urls.Auth.Jwt.{generate_jwt}
use pet_urls.Auth.Interface.{SessionLaws}
use pet_urls.Auth.Service.{
  to_base64, hash_token, issue_access_token, logout, after_session, refresh,
}

module _ {W : Type 0} (a : Auth W) (sessions : W → Bytes → Option RefreshTokenInRepo)
    (laws : SessionLaws sessions a.env a.repo) where
  open a use {env, jwt, repo, key, settings}

  -- That `access` was signed for the user `uid` at the clock's reading in the world `w`.
  abbrev pub IsSigned : Bytes → W → Bytes → Type 0
  IsSigned uid w access =
      generate_jwt jwt
        (record {
          user_id = to_base64 uid;
          expires_at = (env.now w).0 +ℤ settings.access_token_ttl;
        })
        key
      ≡ ok access

  issue_access_token-IsSigned :
      (uid access : Bytes) (w : W)
      → (issue_access_token a uid w).0 ≡ ok access
      → IsSigned uid w access
  unfolding issue_access_token
  issue_access_token-IsSigned uid access w h = ground arith

  -- What a successful refresh rests on: a stored token that is not revoked and had not expired when the
  -- clock was read, and an access token signed for its user.
  pub record IsRefreshed (candidate : Bytes) (w : W) (access : Bytes) : Type 0 where
    pub session : RefreshTokenInRepo
    pub stored : sessions w (hash_token a candidate) ≡ some session
    pub unrevoked : session.revoked_at ≡ none
    pub live :
        (env.now (repo.get_refresh_token (hash_token a candidate) w).1).0 ≤ℤ session.expires_at
    pub signed :
        IsSigned session.user_id
          (env.now (repo.get_refresh_token (hash_token a candidate) w).1).1
          access

  unrevoked_of : (o : Option ℤ) → is_some o ≡ false → o ≡ none
  unrevoked_of none h = refl
  unrevoked_of (some x) h = cc

  after_session_ok :
      (s : Result RefreshTokenInRepo) (access : Bytes) (b : W)
      → (after_session a s b).0 ≡ ok access
      → (r : RefreshTokenInRepo) × (s ≡ ok r)
        × (is_some r.revoked_at ≡ false)
        × (ltb_ℤ r.expires_at (env.now b).0 ≡ false)
        × ((issue_access_token a r.user_id (env.now b).1).0 ≡ ok access)
  unfolding after_session
  after_session_ok (err e) access b h = absurd (ground arith)
  after_session_ok (ok r) access b h = (r, refl, ground arith, ground arith, ground arith)

  -- Where the repository keeps its promises on refresh tokens, a refresh succeeds only with a stored
  -- refresh token that is neither revoked nor expired, and the access token that it returns is signed
  -- for the user of that token.
  pub refresh-IsRefreshed :
      (candidate access : Bytes) (w : W)
      → (refresh a candidate w).0 ≡ ok access
      → IsRefreshed candidate w access
  unfolding refresh
  refresh-IsRefreshed candidate access w h =
      let (r, found, unrevoked, live, issued) = after_session_ok _ access _ h in
      record {
        session = r;
        stored = laws.get_found _ w r found;
        unrevoked = unrevoked_of r.revoked_at unrevoked;
        live = ground arith;
        signed = issue_access_token-IsSigned r.user_id access _ issued;
      }

  pub logout_done :
      (candidate : Bytes) (w : W)
      → (logout a candidate w).0 ≡ none
      → (repo.revoke_refresh_token (hash_token a candidate) w).0 ≡ none
  unfolding logout
  logout_done candidate w h = ground arith

  pub logout_world :
      (candidate : Bytes) (w : W)
      → (logout a candidate w).1 ≡ (repo.revoke_refresh_token (hash_token a candidate) w).1
  unfolding logout
  logout_world candidate w = refl

  -- Where the repository keeps its promises on refresh tokens: once a logout has returned no error,
  -- the same refresh token gives no access token.
  pub refresh-logout :
      (candidate access : Bytes) (w : W)
      → (logout a candidate w).0 ≡ none
      → (refresh a candidate (logout a candidate w).1).0 ≢ ok access
  refresh-logout candidate access w h refreshed =
      let r = refresh-IsRefreshed candidate access _ refreshed in
      let revoked =
        laws.revoke_done (hash_token a candidate) w r.session (logout_done candidate w h)
          (rw logout_world at r.stored) in
      cc (revoked, r.unrevoked)
