-- ===== src/Http/Handlers/Accounts.antt =====
-- The handlers of handlers.go that call the auth service.
pub mod SpeaksFirst
use pet_urls.Prelude.{
  String, Bytes, codes, Bool, not, Option, none, some, List, [], ◌∷◌, ◌++◌, ◌=b=◌, if◌then◌else◌,
}
use pet_urls.Errors.{
  GoError, Result, ok, err, errors_is, invalid_login, invalid_password, login_not_unique,
  invalid_credentials,
}
use pet_urls.Auth.Service.{register, login, logout, refresh}
use pet_urls.Http.Writer.{Operation, header}
use pet_urls.Http.Middleware.{Request, Served, served, Handler}
use pet_urls.Http.Api.{
  Api, Credentials, invalid_request, invalid_parameter, unauthenticated, internal_error,
  read_body_as_json, write_error, write_access_token_as_json, get_refresh_token_from_cookie,
  set_refresh_token_cookie, expire_refresh_token_cookie,
}

module _ {W : Type 0} (s : Api W) where
  open s use {libs, auth}

  unfoldable pub registered_answer : Option GoError → List Operation
  registered_answer none = header 201 ∷ []
  registered_answer (some e) =
      if errors_is (some e) invalid_login
      then write_error libs invalid_parameter "invalid login"
      else if errors_is (some e) invalid_password
      then write_error libs invalid_parameter "invalid password"
      else if errors_is (some e) login_not_unique
      then write_error libs invalid_parameter "login already exists"
      else write_error libs internal_error ""

  unfoldable pub after_registration_body : Request → Result Credentials → W → Served W
  after_registration_body r (err _) w = served r (write_error libs invalid_request "not parsable") w
  after_registration_body r (ok request) w =
      if request.login =b= []
      then served r (write_error libs invalid_parameter "login empty or missing") w
      else if request.password =b= []
      then served r (write_error libs invalid_parameter "password empty or missing") w
      else (let (e, w') = register auth request.login request.password w in
          served r (registered_answer e) w')

  unfoldable pub handle_registration : Handler W
  handle_registration r w =
      after_registration_body r (read_body_as_json libs.decode_credentials r) w

  unfoldable pub logged_in_answer : Result (Bytes × Bytes) → List Operation
  logged_in_answer (ok (refresh_token, access_token)) =
      set_refresh_token_cookie s refresh_token ++ write_access_token_as_json libs access_token
  logged_in_answer (err e) =
      if errors_is (some e) invalid_credentials
      then write_error libs unauthenticated "invalid credentials"
      else write_error libs internal_error "internal"

  unfoldable pub after_form : Request → Result (Bytes → Bytes) → W → Served W
  after_form r (err _) w = served r (write_error libs invalid_request "unparsable form") w
  after_form r (ok form) w =
      if form (codes "login") =b= []
      then served r (write_error libs invalid_parameter "login empty or missing") w
      else if form (codes "password") =b= []
      then served r (write_error libs invalid_parameter "password empty or missing") w
      else (let (out, w') = login auth (form (codes "login")) (form (codes "password")) w in
          served r (logged_in_answer out) w')

  unfoldable pub handle_login : Handler W
  handle_login r w =
      if not (r.content_type =b= codes "application/x-www-form-urlencoded")
      then served r
          (write_error libs invalid_request
            "expected application/x-www-form-urlencoded content-type")
          w
      else after_form r (libs.parse_form r) w

  unfoldable pub logged_out_answer : Option GoError → List Operation
  logged_out_answer none = expire_refresh_token_cookie s
  logged_out_answer (some _) = write_error libs internal_error "internal"

  unfoldable pub after_logout_cookie : Request → Result Bytes → W → Served W
  after_logout_cookie r (err _) w = served r (write_error libs unauthenticated "unauthenticated") w
  after_logout_cookie r (ok refresh_token) w =
      let (e, w') = logout auth refresh_token w in served r (logged_out_answer e) w'

  unfoldable pub handle_logout : Handler W
  handle_logout r w = after_logout_cookie r (get_refresh_token_from_cookie r) w

  unfoldable pub refreshed_answer : Result Bytes → List Operation
  refreshed_answer (ok access_token) = write_access_token_as_json libs access_token
  refreshed_answer (err _) = write_error libs unauthenticated "unauthenticated"

  unfoldable pub after_refresh_cookie : Request → Result Bytes → W → Served W
  after_refresh_cookie r (err _) w = served r (write_error libs unauthenticated "unauthenticated") w
  after_refresh_cookie r (ok refresh_token) w =
      let (out, w') = refresh auth refresh_token w in served r (refreshed_answer out) w'

  unfoldable pub handle_token_refresh : Handler W
  handle_token_refresh r w = after_refresh_cookie r (get_refresh_token_from_cookie r) w
