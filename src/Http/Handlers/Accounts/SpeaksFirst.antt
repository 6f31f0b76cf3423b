-- ===== src/Http/Handlers/Accounts/SpeaksFirst.antt =====
-- The handlers of accounts set their status before they write.
use pet_urls.Prelude.{Bytes, codes, Option, none, some, [], inl, inr, Bool-cases, ◌=b=◌}
use pet_urls.Errors.{
  GoError, Result, ok, err, errors_is, invalid_login, invalid_password, login_not_unique,
  invalid_credentials,
}
use pet_urls.Auth.Service as AuthService
use pet_urls.Auth.Service.{authenticate}
use pet_urls.Http.Writer.StatusFirst.{StatusFirst, StatusFirst-if}
use pet_urls.Http.Middleware.{Request}
use pet_urls.Http.Middleware.SpeaksFirst.{SpeaksFirst}
use pet_urls.Http.Api.{
  Api, Credentials, write_access_token_as_json, access_token, expired_cookie,
  set_refresh_token_cookie, expire_refresh_token_cookie,
}
use pet_urls.Http.Handlers.Accounts
use pet_urls.Http.Api.StatusFirst.{error-StatusFirst, json-StatusFirst, set_cookie-StatusFirst}

module _ {W : Type 0} (s : Api W) where
  open s use {libs, auth}

  registered_answer-StatusFirst :
      (e : Option GoError) → StatusFirst (Accounts.registered_answer s e)
  unfolding Accounts.registered_answer
  registered_answer-StatusFirst none = tt
  registered_answer-StatusFirst (some e) =
      StatusFirst-if (errors_is (some e) invalid_login) _ _ (error-StatusFirst libs _ _) (
        StatusFirst-if (errors_is (some e) invalid_password) _ _ (error-StatusFirst libs _ _) (
          StatusFirst-if (errors_is (some e) login_not_unique) _ _ (error-StatusFirst libs _ _)
            (error-StatusFirst libs _ _)))

  pub after_registration_body-SpeaksFirst :
      (r : Request) (b : Result Credentials) (w : W)
      → SpeaksFirst (Accounts.after_registration_body s r b w)
  unfolding Accounts.after_registration_body
  after_registration_body-SpeaksFirst r (err e) w = error-StatusFirst libs _ _
  after_registration_body-SpeaksFirst r (ok q) w = elim (Bool-cases (q.login =b= [])) [
    | inl no_login ↦ rw no_login (error-StatusFirst libs _ _)
    | inr login_given ↦ rw login_given (elim (Bool-cases (q.password =b= [])) [
      | inl no_password ↦ rw no_password (error-StatusFirst libs _ _)
      | inr password_given ↦
          rw password_given
            (registered_answer-StatusFirst (AuthService.register auth q.login q.password w).0)
    ])
  ]

  token-StatusFirst : (t : Bytes) → StatusFirst (write_access_token_as_json libs t)
  unfolding write_access_token_as_json
  token-StatusFirst t = json-StatusFirst libs (access_token t) 200

  logged_in_answer-StatusFirst :
      (out : Result (Bytes × Bytes)) → StatusFirst (Accounts.logged_in_answer s out)
  unfolding Accounts.logged_in_answer set_refresh_token_cookie
  logged_in_answer-StatusFirst (ok (t, a)) = set_cookie-StatusFirst _ _ (token-StatusFirst a)
  logged_in_answer-StatusFirst (err e) =
      StatusFirst-if (errors_is (some e) invalid_credentials) _ _ (error-StatusFirst libs _ _)
        (error-StatusFirst libs _ _)

  after_form-SpeaksFirst :
      (r : Request) (f : Result (Bytes → Bytes)) (w : W) → SpeaksFirst (Accounts.after_form s r f w)
  unfolding Accounts.after_form
  after_form-SpeaksFirst r (err e) w = error-StatusFirst libs _ _
  after_form-SpeaksFirst r (ok form) w = elim (Bool-cases (form (codes "login") =b= [])) [
    | inl no_login ↦ rw no_login (error-StatusFirst libs _ _)
    | inr login_given ↦ rw login_given (elim (Bool-cases (form (codes "password") =b= [])) [
      | inl no_password ↦ rw no_password (error-StatusFirst libs _ _)
      | inr password_given ↦ rw password_given (
          logged_in_answer-StatusFirst
            (AuthService.login auth (form (codes "login")) (form (codes "password")) w).0)
    ])
  ]

  pub handle_login-SpeaksFirst : (r : Request) (w : W) → SpeaksFirst (Accounts.handle_login s r w)
  unfolding Accounts.handle_login
  handle_login-SpeaksFirst r w =
      elim (Bool-cases (r.content_type =b= codes "application/x-www-form-urlencoded")) [
        | inl form ↦ rw form (after_form-SpeaksFirst r _ w)
        | inr other ↦ rw other (error-StatusFirst libs _ _)
      ]

  logged_out_answer-StatusFirst :
      (e : Option GoError) → StatusFirst (Accounts.logged_out_answer s e)
  unfolding Accounts.logged_out_answer expire_refresh_token_cookie
  logged_out_answer-StatusFirst (some e) = error-StatusFirst libs _ _
  logged_out_answer-StatusFirst none =
      elim (Bool-cases (libs.cookie_string (expired_cookie s) =b= [])) [
        | inl empty ↦ rw empty tt
        | inr printed ↦ rw printed tt
      ]

  pub after_logout_cookie-SpeaksFirst :
      (r : Request) (t : Result Bytes) (w : W) → SpeaksFirst (Accounts.after_logout_cookie s r t w)
  unfolding Accounts.after_logout_cookie
  after_logout_cookie-SpeaksFirst r (err e) w = error-StatusFirst libs _ _
  after_logout_cookie-SpeaksFirst r (ok t) w =
      logged_out_answer-StatusFirst (AuthService.logout auth t w).0

  refreshed_answer-StatusFirst : (o : Result Bytes) → StatusFirst (Accounts.refreshed_answer s o)
  unfolding Accounts.refreshed_answer
  refreshed_answer-StatusFirst (ok t) = token-StatusFirst t
  refreshed_answer-StatusFirst (err e) = error-StatusFirst libs _ _

  pub after_refresh_cookie-SpeaksFirst :
      (r : Request) (t : Result Bytes) (w : W) → SpeaksFirst (Accounts.after_refresh_cookie s r t w)
  unfolding Accounts.after_refresh_cookie
  after_refresh_cookie-SpeaksFirst r (err e) w = error-StatusFirst libs _ _
  after_refresh_cookie-SpeaksFirst r (ok t) w =
      refreshed_answer-StatusFirst (AuthService.refresh auth t w).0
