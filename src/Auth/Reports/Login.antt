-- ===== src/Auth/Reports/Login.antt =====
-- What Login of internal/services/auth/auth.go returns and leaves behind, by what each call of a
-- dependency has answered.
use pet_urls.Prelude.{◌≡◌, Bytes, true, false, some}
use pet_urls.Errors.{
  GoError, Result, ok, err, invalid_credentials, errors_is, Tells, Hides, is_not_found_error,
}
use pet_urls.Auth.Types.{UserInRepo, Auth}
use pet_urls.Auth.Service.{password_matches_hash, issue_refresh_token, issue_access_token}

module _ {W : Type 0} (a : Auth W) where
  open a use {env, repo}

  -- A login: the lookup of the user, then the refresh token, then the access token.
  module _ (name password : Bytes) (w : W) where
    abbrev user : Result UserInRepo × W
    user = repo.get_user name w

    abbrev session : UserInRepo → Result Bytes × W
    session u = issue_refresh_token a u.id user.1

    abbrev access : UserInRepo → Result Bytes × W
    access u = issue_access_token a u.id (session u).1

    abbrev Fits : UserInRepo → Type 0
    Fits u = (user.0 ≡ ok u) × (password_matches_hash a password u.password_hash ≡ true)

    pub data LoginReport : (Result (Bytes × Bytes) × W) → Type 0 where
      unknown :
          (x e : GoError)
          → user.0 ≡ err x
          → is_not_found_error (some x) ≡ true
          → errors_is (some e) invalid_credentials ≡ true
          → LoginReport (err e, user.1)
      unread :
          (x e : GoError)
          → user.0 ≡ err x
          → is_not_found_error (some x) ≡ false
          → Hides e
          → LoginReport (err e, user.1)
      mismatched :
          (u : UserInRepo) (e : GoError)
          → user.0 ≡ ok u
          → password_matches_hash a password u.password_hash ≡ false
          → errors_is (some e) invalid_credentials ≡ true
          → LoginReport (err e, user.1)
      no_session :
          (u : UserInRepo) (x e : GoError)
          → Fits u
          → (session u).0 ≡ err x
          → Tells x e
          → LoginReport (err e, (session u).1)
      no_access :
          (u : UserInRepo) (t : Bytes) (x e : GoError)
          → Fits u
          → (session u).0 ≡ ok t
          → (access u).0 ≡ err x
          → Tells x e
          → LoginReport (err e, (access u).1)
      logged_in :
          (u : UserInRepo) (t s : Bytes)
          → Fits u
          → (session u).0 ≡ ok t
          → (access u).0 ≡ ok s
          → LoginReport (ok (t, s), (access u).1)
