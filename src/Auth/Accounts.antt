-- ===== src/Auth/Accounts.antt =====
-- What the repository of dependencies.go and the sources of time and randomness promise about the
-- stored accounts: `users`, the users by login, and `sessions`, the refresh tokens by hash.
use pet_urls.Prelude.{◌≡◌, ◌≢◌, refl, ◌∙◌, ap, Bytes, true, Option, none, some, is_some}
use pet_urls.Errors.{ok}
use pet_urls.Auth.Types.{RefreshTokenInRepo, UserInRepo, Repository, Env}
use pet_urls.Auth.Interface.{SessionLaws}

-- A session later: it belongs to the same user until the same time, and stays revoked once it is.
pub record Continues (r r' : RefreshTokenInRepo) : Type 0 where
  pub user_id : r'.user_id ≡ r.user_id
  pub expires_at : r'.expires_at ≡ r.expires_at
  pub revoked_at : is_some r.revoked_at ≡ true → r'.revoked_at ≡ r.revoked_at

pub Continues-refl : (r : RefreshTokenInRepo) → Continues r r
Continues-refl r = record { user_id = refl; expires_at = refl; revoked_at = λ h. refl }

module _ {W : Type 0} (users : W → Bytes → Option UserInRepo)
    (sessions : W → Bytes → Option RefreshTokenInRepo) where
  -- Nothing of the accounts has changed.
  pub record Still (w w' : W) : Type 0 where
    pub by_login : (n : Bytes) → users w' n ≡ users w n
    pub by_hash : (k : Bytes) → sessions w' k ≡ sessions w k

  -- Users and sessions may have been added and sessions revoked, but no user has changed or gone, and
  -- no session has gone.
  pub record Evolves (w w' : W) : Type 0 where
    pub by_login : (n : Bytes) (u : UserInRepo) → users w n ≡ some u → users w' n ≡ some u
    pub by_hash :
        (k : Bytes) (r : RefreshTokenInRepo)
        → sessions w k ≡ some r
        → (r' : RefreshTokenInRepo) × (sessions w' k ≡ some r') × Continues r r'

  pub Evolves-Still : {w w' : W} → Still w w' → Evolves w w'
  Evolves-Still s = record {
    by_login = λ n u h. s.by_login n ∙ h;
    by_hash = λ k r h. (r, s.by_hash k ∙ h, Continues-refl r);
  }

  pub Evolves-refl : (w : W) → Evolves w w
  Evolves-refl w = record { by_login = λ n u h. h; by_hash = λ k r h. (r, h, Continues-refl r) }

  pub Evolves-trans : (a b c : W) → Evolves a b → Evolves b c → Evolves a c
  Evolves-trans a b c p q = record {
    by_login = λ n u h. q.by_login n u (p.by_login n u h);
    by_hash = λ k r h.
        let (r', here, first) = p.by_hash k r h in
        let (r'', there, second) = q.by_hash k r' here in
        (
          r'',
          there,
          record {
            user_id = second.user_id ∙ first.user_id;
            expires_at = second.expires_at ∙ first.expires_at;
            revoked_at = λ gone.
                let same = first.revoked_at gone in
                second.revoked_at (ap is_some same ∙ gone) ∙ same;
          },
        );
  }

  pub record AccountLaws (env : Env W) (repo : Repository W) : Type 0 where
    pub session_laws : SessionLaws sessions env repo
    pub now_still : (w : W) → Still w (env.now w).1
    pub uuid_still : (w : W) → Still w (env.new_uuid w).1
    pub password_still : (p : Bytes) (w : W) → Still w (env.generate_from_password p w).1
    pub health_still : (w : W) → Still w (repo.health_check w).1
    pub get_user_still : (n : Bytes) (w : W) → Still w (repo.get_user n w).1
    pub get_refresh_token_still : (h : Bytes) (w : W) → Still w (repo.get_refresh_token h w).1
    pub get_user_found :
        (n : Bytes) (w : W) (u : UserInRepo) → (repo.get_user n w).0 ≡ ok u → users w n ≡ some u
    pub save_user_evolves : (u : UserInRepo) (w : W) → Evolves w (repo.save_user u w).1
    -- A user is saved only under a login that is free, with the ID that is returned.
    pub save_user_done :
        (u : UserInRepo) (w : W) (id : Bytes)
        → (repo.save_user u w).0 ≡ ok id
        → (users w u.login ≡ none)
          × (users (repo.save_user u w).1 u.login ≡ some (record u { id = id }))
    pub save_refresh_token_evolves :
        (r : RefreshTokenInRepo) (w : W) → Evolves w (repo.save_refresh_token r w).1
    pub revoke_evolves : (h : Bytes) (w : W) → Evolves w (repo.revoke_refresh_token h w).1
    -- A revocation leaves the other sessions as they are.
    pub revoke_others :
        (h k : Bytes) (w : W) → k ≢ h → sessions (repo.revoke_refresh_token h w).1 k ≡ sessions w k
