-- ===== src/Auth/Lasting.antt =====
-- What a logout and a registration still mean after any further calls.
use pet_urls.Prelude.{
  ◌≡◌, ◌≢◌, refl, ◌∙◌, ap, sym, inl, inr, Bytes, true, Option, none, some, List, [], is_some,
  Bool-cases, ltb, length,
}
use mathlib.Core.Path.{subst}
use pet_urls.Errors.{Result, ok, err}
use pet_urls.Auth.Types.{RefreshTokenInRepo, UserInRepo, Auth}
use pet_urls.Auth.Accounts.{AccountLaws}
use pet_urls.Auth.Service.{
  hash_token, password_matches_hash, register, after_hash, login, logout, refresh,
}
use pet_urls.Auth.Sessions.{refresh-IsRefreshed, logout_done, logout_world}
use pet_urls.Auth.Login.{save_user_none, login-IsLoggedIn}
use pet_urls.Auth.Requests.{Request, run}
use pet_urls.Auth.Evolution.{run-Evolves}

abbrev hash_in : Option UserInRepo → Bytes
hash_in none = []
hash_in (some u) = u.password_hash

module _ {W : Type 0} (a : Auth W) (users : W → Bytes → Option UserInRepo)
    (sessions : W → Bytes → Option RefreshTokenInRepo)
    (laws : AccountLaws users sessions a.env a.repo) where
  open a use {env, repo}

  -- A revoked session is revoked after any further calls.
  revoked_after :
      (k : Bytes) (r s : RefreshTokenInRepo) (rs : List Request) (w : W)
      → sessions w k ≡ some r
      → is_some r.revoked_at ≡ true
      → sessions (run a rs w) k ≡ some s
      → is_some s.revoked_at ≡ true
  revoked_after k r s rs w before gone after =
      let (r', here, same) = (run-Evolves a users sessions laws rs w).by_hash k r before in
      let r'_s : r' ≡ s = cc (here, after) in
      subst (λ (x : RefreshTokenInRepo). is_some x.revoked_at ≡ true) r'_s
        (ap is_some (same.revoked_at gone) ∙ gone)

  -- Where the repository keeps its promises: once a logout with a stored refresh token has returned no
  -- error, that token gives no access token any more, whatever calls of the service come after it.
  pub refresh-run :
      (token access : Bytes) (r : RefreshTokenInRepo) (rs : List Request) (w : W)
      → sessions w (hash_token a token) ≡ some r
      → (logout a token w).0 ≡ none
      → (refresh a token (run a rs (logout a token w).1)).0 ≢ ok access
  refresh-run token access r rs w before done renewed =
      let world = logout_world a sessions laws.session_laws token w in
      let (r', here, same) = (laws.revoke_evolves (hash_token a token) w).by_hash _ r before in
      let gone =
        laws.session_laws.revoke_done (hash_token a token) w r'
          (logout_done a sessions laws.session_laws token w done) here in
      let found = refresh-IsRefreshed a sessions laws.session_laws token access _ renewed in
      let still =
        revoked_after (hash_token a token) r' found.session rs (logout a token w).1
          (ap (λ v. sessions v (hash_token a token)) world ∙ here) gone found.stored in
      cc (still, found.unrevoked)

  after_hash-user :
      (name : Bytes) (h : Result Bytes) (b : W)
      → (after_hash a name h b).0 ≡ none
      → (hash : Bytes) × (h ≡ ok hash)
        × ((id : Bytes) × (users (after_hash a name h b).1 name
              ≡ some (record { id = id; login = name; password_hash = hash })))
  unfolding after_hash
  after_hash-user name (err e) b h = cc
  after_hash-user name (ok hash) b h =
      let (id, saved) = save_user_none a _ h in
      (hash, refl, (id, (laws.save_user_done _ b id saved).1))

  register-user :
      (name password : Bytes) (w : W)
      → (register a name password w).0 ≡ none
      → (hash : Bytes) × ((env.generate_from_password password w).0 ≡ ok hash)
        × ((id : Bytes) × (users (register a name password w).1 name
              ≡ some (record { id = id; login = name; password_hash = hash })))
  unfolding register
  register-user name password w h = elim (Bool-cases (ltb 64 (length name))) [
    | inl long ↦ absurd (cc (rw long at h))
    | inr short ↦ rw short (after_hash-user name _ _ (rw short at h))
  ]

  -- Where the repository keeps its promises: after a registration that returned no error and any
  -- further calls of the service, a login with that name succeeds only with a password that fits the
  -- hash which bcrypt made of the password of the registration.
  pub login-run :
      (name password other refresh access : Bytes) (rs : List Request) (w : W)
      → (register a name password w).0 ≡ none
      → (login a name other (run a rs (register a name password w).1)).0 ≡ ok (refresh, access)
      → (hash : Bytes) × ((env.generate_from_password password w).0 ≡ ok hash)
        × (password_matches_hash a other hash ≡ true)
  login-run name password other refresh access rs w registered entered =
      let (hash, made, (id, stored)) = register-user name password w registered in
      let l = login-IsLoggedIn a sessions laws.session_laws name other refresh access _ entered in
      let before = laws.get_user_found name _ l.user l.found in
      let after = (run-Evolves a users sessions laws rs _).by_login name _ stored in
      let same : some l.user ≡ some (record { id = id; login = name; password_hash = hash }) =
        sym before ∙ after in
      (hash, made, ap (password_matches_hash a other) (sym (ap hash_in same)) ∙ l.matches)
