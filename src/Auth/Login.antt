-- ===== src/Auth/Login.antt =====
-- Registration and login.
use pet_urls.Prelude.{
  ◌≡◌, refl, ◌∙◌, ◌≤◌, ◌<◌, inl, inr, Bytes, true, false, Option, none, some, [], arith, ltb,
  length, Bool-cases, Option-cases,
}
use pet_urls.Prelude.Int.{◌+ℤ◌}
use pet_urls.Errors.{Result, ok, err, wrap, sentinel, invalid_login}
use pet_urls.Auth.Types.{RefreshTokenInRepo, kept_session, UserInRepo, Auth}
use pet_urls.Auth.Interface.{SessionLaws}
use pet_urls.Auth.Service.{
  hash_token, password_matches_hash, after_uuid, issue_refresh_token, issue_access_token,
  after_refresh_token, after_user, login, save_user_error, after_hash, register,
}

module _ {W : Type 0} (a : Auth W) where
  open a use {env, repo, settings}

  -- What a registration that returns no error has done.
  pub record IsRegistered (name password : Bytes) (w : W) : Type 0 where
    pub short : length name ≤ 64
    pub hash : Bytes
    pub hashed : (env.generate_from_password password w).0 ≡ ok hash
    pub id : Bytes
    pub saved :
        (repo.save_user
          (record { id = []; login = name; password_hash = hash })
          (env.generate_from_password password w).1).0
        ≡ ok id

  pub save_user_none : (s : Result Bytes) → save_user_error a s ≡ none → (id : Bytes) × (s ≡ ok id)
  unfolding save_user_error
  save_user_none (ok id) h = (id, refl)
  save_user_none (err e) h = absurd (ground arith)

  after_hash-none :
      (name : Bytes) (h : Result Bytes) (b : W)
      → (after_hash a name h b).0 ≡ none
      → (hash : Bytes) × (h ≡ ok hash)
        × ((id : Bytes) × ((repo.save_user
                (record { id = []; login = name; password_hash = hash })
                b).0
              ≡ ok id))
  unfolding after_hash
  after_hash-none name (err e) b h = cc
  after_hash-none name (ok hash) b h = (hash, refl, save_user_none _ h)

  -- A registration returns no error only for a login of at most 64 bytes and a password that bcrypt
  -- hashed, once the repository has saved the login with that hash.
  register-IsRegistered :
      (name password : Bytes) (w : W)
      → (register a name password w).0 ≡ none
      → IsRegistered name password w
  unfolding register
  register-IsRegistered name password w h =
      let short : ltb 64 (length name) ≡ false = ground arith in
      let accepted = rw short at h in
      let (hash, hashed, (id, saved)) = after_hash-none name _ _ accepted in
      record { short = ground arith; hash = hash; hashed = hashed; id = id; saved = saved }

  -- A login of more than 64 bytes is refused as invalid, with nothing done: no hash and no save.
  pub register_long :
      (name password : Bytes) (w : W)
      → 64 < length name
      → register a name password w ≡ (some (wrap "auth, registering" (sentinel invalid_login)), w)
  unfolding register
  register_long name password w long = ground arith

  module _ (sessions : W → Bytes → Option RefreshTokenInRepo)
      (laws : SessionLaws sessions env repo) where
    -- What a login that succeeds rests on and leaves: a user with that name whose hash fits the
    -- password, and a stored session of that user under the hash of the refresh token.
    pub record IsLoggedIn (name password refresh : Bytes) (w w' : W) : Type 0 where
      pub user : UserInRepo
      pub found : (repo.get_user name w).0 ≡ ok user
      pub matches : password_matches_hash a password user.password_hash ≡ true
      pub session : RefreshTokenInRepo
      pub stored : sessions w' (hash_token a refresh) ≡ some session
      pub owner : session.user_id ≡ user.id
      pub unrevoked : session.revoked_at ≡ none

    abbrev HasSession : Bytes → Bytes → W → Type 0
    HasSession uid token w =
        (s : RefreshTokenInRepo) × (sessions w (hash_token a token) ≡ some s)
        × (s.user_id ≡ uid)
        × (s.revoked_at ≡ none)

    after_uuid_ok :
        (uid : Bytes) (t : Result Bytes) (token : Bytes) (b : W)
        → (after_uuid a uid t b).0 ≡ ok token
        → HasSession uid token (after_uuid a uid t b).1
    unfolding after_uuid
    after_uuid_ok uid (err e) token b h = cc
    after_uuid_ok uid (ok t) token b h =
        let s : RefreshTokenInRepo = record {
          hash = hash_token a t;
          user_id = uid;
          expires_at = (env.now b).0 +ℤ settings.refresh_token_ttl;
          revoked_at = none;
        } in
        elim (Option-cases (repo.save_refresh_token s (env.now b).1).0) [
          | inl saved ↦
              let same : t ≡ token = ground arith in
              (kept_session s, rw (← same) (laws.save_done s (env.now b).1 refl saved), refl, refl)
          | inr (e, fault) ↦ absurd (ground arith)
        ]

    after_refresh_token_ok :
        (uid : Bytes) (t : Result Bytes) (refresh access : Bytes) (b : W)
        → (after_refresh_token a uid t b).0 ≡ ok (refresh, access)
        → ((token : Bytes) → t ≡ ok token → HasSession uid token b)
        → HasSession uid refresh (after_refresh_token a uid t b).1
    unfolding after_refresh_token issue_access_token
    after_refresh_token_ok uid (err e) refresh access b h made = cc
    after_refresh_token_ok uid (ok t) refresh access b h made =
        let (s, stored, owner, unrevoked) = made t refl in
        let same : t ≡ refresh = ground arith in
        (s, laws.now_same b (hash_token a refresh) ∙ (rw (← same) stored), owner, unrevoked)

    after_user_ok :
        (password : Bytes) (u : Result UserInRepo) (refresh access : Bytes) (b : W)
        → (after_user a password u b).0 ≡ ok (refresh, access)
        → (user : UserInRepo) × (u ≡ ok user)
          × (password_matches_hash a password user.password_hash ≡ true)
          × HasSession user.id refresh (after_user a password u b).1
    unfolding after_user issue_refresh_token
    after_user_ok password (err e) refresh access b h = absurd (ground arith)
    after_user_ok password (ok user) refresh access b h =
        elim (Bool-cases (password_matches_hash a password user.password_hash)) [
          | inl fits ↦
              let entered = rw fits at h in
              (
                user,
                refl,
                fits,
                rw fits (
                    after_refresh_token_ok user.id _ refresh access _ entered
                      (λ token drawn. after_uuid_ok user.id _ token _ drawn)),
              )
          | inr wrong ↦ absurd (cc (rw wrong at h))
        ]

    -- Where the repository keeps its promises on refresh tokens, a login succeeds only for a stored
    -- user whose password hash fits the password, and then the hash of the returned refresh token is
    -- stored as an unrevoked session of that user.
    pub login-IsLoggedIn :
        (name password refresh access : Bytes) (w : W)
        → (login a name password w).0 ≡ ok (refresh, access)
        → IsLoggedIn name password refresh w (login a name password w).1
    unfolding login
    login-IsLoggedIn name password refresh access w h =
        let (user, found, fits, (s, stored, owner, unrevoked)) =
          after_user_ok password _ refresh access _ h in
        record {
          user = user;
          found = found;
          matches = fits;
          session = s;
          stored = stored;
          owner = owner;
          unrevoked = unrevoked;
        }
