-- ===== src/Auth/Frame.antt =====
-- What a call of the auth service does to a part of the world is what its repository and its sources of
-- time and randomness do to it.
use pet_urls.Prelude.{inl, inr, Bytes, some, List, [], ◌∷◌, is_some, Bool-cases, ltb, length}
use pet_urls.Prelude.Int.{ltb_ℤ}
use pet_urls.Errors.{Result, ok, err, is_not_found_error}
use pet_urls.Auth.Types.{RefreshTokenInRepo, UserInRepo, Auth}
use pet_urls.Auth.Jwt.{Outcome, returned, panicked, parse_jwt}
use pet_urls.Auth.Service.{
  password_matches_hash, health_check, register, after_hash, login, after_user, issue_refresh_token,
  after_uuid, issue_access_token, after_refresh_token, logout, refresh, after_session, authenticate,
  after_claims,
}
use pet_urls.Auth.Requests.{Request, check, registration, entry, exit, renewal, proof, serve, run}

-- Steps of the world, each of any length, and the calls outside that are steps.
pub record Frame {W : Type 0} (a : Auth W) (Step : W → W → Type 0) : Type 0 where
  pub still : (w : W) → Step w w
  pub follow : (v w u : W) → Step v w → Step w u → Step v u
  pub now : (w : W) → Step w (a.env.now w).1
  pub uuid : (w : W) → Step w (a.env.new_uuid w).1
  pub password : (p : Bytes) (w : W) → Step w (a.env.generate_from_password p w).1
  pub health : (w : W) → Step w (a.repo.health_check w).1
  pub get_user : (n : Bytes) (w : W) → Step w (a.repo.get_user n w).1
  pub save_user : (u : UserInRepo) (w : W) → Step w (a.repo.save_user u w).1
  pub save_refresh_token :
      (r : RefreshTokenInRepo) (w : W) → Step w (a.repo.save_refresh_token r w).1
  pub get_refresh_token : (h : Bytes) (w : W) → Step w (a.repo.get_refresh_token h w).1
  pub revoke : (h : Bytes) (w : W) → Step w (a.repo.revoke_refresh_token h w).1

module _ {W : Type 0} (a : Auth W) (Step : W → W → Type 0) (f : Frame a Step) where
  open a use {env, jwt, key}

  infixl 20 ◌then◌
  abbrev ◌then◌ : {v w u : W} → Step v w → Step w u → Step v u
  p then q = f.follow _ _ _ p q

  after_hash-Step : (name : Bytes) (h : Result Bytes) (w : W) → Step w (after_hash a name h w).1
  unfolding after_hash
  after_hash-Step name (err e) w = f.still w
  after_hash-Step name (ok hash) w = f.save_user _ w

  register-Step : (name password : Bytes) (w : W) → Step w (register a name password w).1
  unfolding register
  register-Step name password w = elim (Bool-cases (ltb 64 (length name))) [
    | inl long ↦ rw long (f.still w)
    | inr short ↦ rw short (f.password password w then after_hash-Step name _ _)
  ]

  after_uuid-Step : (uid : Bytes) (t : Result Bytes) (w : W) → Step w (after_uuid a uid t w).1
  unfolding after_uuid
  after_uuid-Step uid (err e) w = f.still w
  after_uuid-Step uid (ok t) w = f.now w then f.save_refresh_token _ _

  issue_access_token-Step : (uid : Bytes) (w : W) → Step w (issue_access_token a uid w).1
  unfolding issue_access_token
  issue_access_token-Step uid w = f.now w

  after_refresh_token-Step :
      (uid : Bytes) (t : Result Bytes) (w : W) → Step w (after_refresh_token a uid t w).1
  unfolding after_refresh_token
  after_refresh_token-Step uid (err e) w = f.still w
  after_refresh_token-Step uid (ok t) w = issue_access_token-Step uid w

  after_user-Step :
      (password : Bytes) (u : Result UserInRepo) (w : W) → Step w (after_user a password u w).1
  unfolding after_user issue_refresh_token
  after_user-Step password (err e) w = elim (Bool-cases (is_not_found_error (some e))) [
    | inl missing ↦ rw missing (f.still w)
    | inr other ↦ rw other (f.still w)
  ]
  after_user-Step password (ok u) w =
      elim (Bool-cases (password_matches_hash a password u.password_hash)) [
        | inl fits ↦
            rw fits (f.uuid w then after_uuid-Step u.id _ _ then after_refresh_token-Step u.id _ _)
        | inr wrong ↦ rw wrong (f.still w)
      ]

  after_session-Step : (s : Result RefreshTokenInRepo) (w : W) → Step w (after_session a s w).1
  unfolding after_session
  after_session-Step (err e) w = elim (Bool-cases (is_not_found_error (some e))) [
    | inl missing ↦ rw missing (f.still w)
    | inr other ↦ rw other (f.still w)
  ]
  after_session-Step (ok s) w = elim (Bool-cases (is_some s.revoked_at)) [
    | inl gone ↦ rw gone (f.still w)
    | inr open' ↦ rw open' (elim (Bool-cases (ltb_ℤ s.expires_at (env.now w).0)) [
      | inl late ↦ rw late (f.now w)
      | inr live ↦ rw live (f.now w then issue_access_token-Step s.user_id _)
    ])
  ]

  after_claims-Step : (c : Outcome _) (w : W) → Step w (after_claims a c w).1
  unfolding after_claims
  after_claims-Step panicked w = f.still w
  after_claims-Step (returned (err e)) w = f.still w
  after_claims-Step (returned (ok j)) w = elim (Bool-cases (ltb_ℤ j.expires_at (env.now w).0)) [
    | inl late ↦ rw late (f.now w)
    | inr live ↦ rw live (f.now w)
  ]

  -- Where every call that the service makes is a step, one call of any method of the service is a step.
  pub serve-Step : (r : Request) (w : W) → Step w (serve a r w)
  unfolding serve health_check login logout refresh authenticate
  serve-Step check w = f.health w
  serve-Step (registration name password) w = register-Step name password w
  serve-Step (entry name password) w = f.get_user name w then after_user-Step password _ _
  serve-Step (exit token) w = f.revoke _ w
  serve-Step (renewal token) w = f.get_refresh_token _ w then after_session-Step _ _
  serve-Step (proof token) w = after_claims-Step (parse_jwt jwt token key) w

  pub run-Step : (rs : List Request) (w : W) → Step w (run a rs w)
  unfolding run
  run-Step [] w = f.still w
  run-Step (r ∷ rs) w = serve-Step r w then run-Step rs (serve a r w)
