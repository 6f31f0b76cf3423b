-- ===== src/Http/Handlers/Tokens.antt =====
-- The handlers of handlers.go that call the shortener.
pub mod SpeaksFirst
use pet_urls.Prelude.{
  String, Bytes, codes, Bool, not, ◌&&◌, ◌||◌, Option, none, some, List, [], ◌∷◌, ◌++◌, ◌=b=◌,
  if◌then◌else◌,
}
use pet_urls.Prelude.Int.{ℤ, pos}
use pet_urls.Errors.{
  GoError, Result, ok, err, errors_is, invalid_url, invalid_url_token, token_is_not_unique,
  not_token_owner,
}
use pet_urls.Context.{user_id_from_context}
use pet_urls.Shortener.Types.{UrlToken, CreateTokenInput, Shortener}
use pet_urls.Shortener.Service
use pet_urls.Shortener.Service.{
  generate_token, resolve_token, create_token_with_owner, delete_token,
}
use pet_urls.Auth.Service as AuthService
use pet_urls.Http.Writer.{Operation, header, body, set_field}
use pet_urls.Http.Middleware.{Request, Served, served, Handler, http_error}
use pet_urls.Http.Api.{
  Api, TokenRequest, ApiErrorCode, invalid_request, invalid_parameter, unauthenticated,
  must_be_owner, internal_error, generated_token, created_token, read_body_as_json,
  write_response_as_json, write_error,
}

module _ {W : Type 0} (s : Api W) where
  open s use {libs, shortener, auth}

  -- What `handleHealthcheck` writes for the results of both checks; the second stands only where the
  -- first is nil.
  abbrev pub health_answer : Option GoError → List Operation
  health_answer none = []
  health_answer (some _) = write_error libs internal_error "internal"

  unfoldable pub after_shortener_check : Request → Option GoError → W → Served W
  after_shortener_check r (some _) w = served r (write_error libs internal_error "internal") w
  after_shortener_check r none w =
      let (e, w') = AuthService.health_check auth w in served r (health_answer e) w'

  unfoldable pub handle_healthcheck : Handler W
  handle_healthcheck r w =
      let (e, w') = Service.health_check shortener w in after_shortener_check r e w'

  -- The response to a token that was generated, or to the error.
  unfoldable pub generated_answer : UrlToken × Option GoError → List Operation
  generated_answer (token, none) =
      write_response_as_json libs
        (generated_token token.token (libs.format_rfc3339 token.expires_at)) 201
  generated_answer (token, some e) =
      if errors_is (some e) invalid_url
      then write_error libs invalid_parameter "original_url not a valid HTTP URL"
      else write_error libs internal_error "internal"

  unfoldable pub after_generate_body : Request → Result Bytes → W → Served W
  after_generate_body r (err _) w = served r (write_error libs invalid_request "not parsable") w
  after_generate_body r (ok original_url) w =
      if original_url =b= []
      then served r (write_error libs invalid_parameter "original_url empty or missing") w
      else (let (out, w') = generate_token shortener original_url w in
          served r (generated_answer out) w')

  unfoldable pub handle_generate_url_token : Handler W
  handle_generate_url_token r w =
      after_generate_body r (read_body_as_json libs.decode_original_url r) w

  -- `http.Redirect` with the status 307.
  abbrev pub redirect_text : Option Bytes → List Operation
  redirect_text none = []
  redirect_text (some text) = body text ∷ []

  -- The page of a redirection has a type where the method is GET or HEAD and no error has set one.
  abbrev pub redirect_type : Request → List Operation
  redirect_type r =
      if not (r.path_token =b= []) && (r.method =b= codes "GET" || r.method =b= codes "HEAD")
      then set_field (codes "Content-Type") (codes "text/html; charset=utf-8") ∷ []
      else []

  unfoldable pub resolved_answer : Request → Result Bytes → List Operation
  resolved_answer r (err _) = http_error "unknown token" 404
  resolved_answer r (ok original_url) =
      set_field (codes "Cache-Control") (codes "no-store")
      ∷ set_field (codes "Location") (libs.location r original_url)
      ∷ (redirect_type r ++ (header 307 ∷ redirect_text (libs.redirect_body r original_url)))

  -- An empty token is answered and looked up all the same.
  abbrev pub empty_token_answer : Bytes → List Operation
  empty_token_answer token = if token =b= [] then http_error "" 404 else []

  unfoldable pub handle_resolve_token : Handler W
  handle_resolve_token r w =
      let (url, w') = resolve_token shortener r.path_token w in
      served r (empty_token_answer r.path_token ++ resolved_answer r url) w'

  unfoldable pub created_answer : UrlToken × Option GoError → List Operation
  created_answer (token, none) =
      write_response_as_json libs (created_token token.token token.expires_at) 201
  created_answer (token, some e) =
      if errors_is (some e) invalid_url
      then write_error libs invalid_parameter "url is not a valid HTTP url"
      else if errors_is (some e) invalid_url_token
      then write_error libs invalid_parameter "token must contain at most 64 characters"
      else if errors_is (some e) token_is_not_unique
      then write_error libs invalid_parameter "token already exists"
      else write_error libs internal_error "internal"

  -- `time.Duration(request.TTL)`: the number of the request counts nanoseconds.
  abbrev pub input_of : TokenRequest → Bytes → CreateTokenInput
  input_of request user_id = record {
    url = request.url;
    ttl = request.ttl;
    token = request.token;
    owner_id = some user_id;
  }

  unfoldable pub after_create_user : Request → TokenRequest → Option Bytes → W → Served W
  after_create_user r request none w =
      served r (write_error libs unauthenticated "unauthenticated") w
  after_create_user r request (some user_id) w =
      let (out, w') = create_token_with_owner shortener (input_of request user_id) w in
      served r (created_answer out) w'

  unfoldable pub after_create_body : Request → Result TokenRequest → W → Served W
  after_create_body r (err _) w = served r (write_error libs invalid_request "unparsable") w
  after_create_body r (ok request) w = after_create_user r request (user_id_from_context r.ctx) w

  unfoldable pub handle_create_token_with_owner : Handler W
  handle_create_token_with_owner r w =
      after_create_body r (read_body_as_json libs.decode_token_request r) w

  unfoldable pub deleted_answer : Option GoError → List Operation
  deleted_answer none = []
  deleted_answer (some e) =
      if errors_is (some e) not_token_owner
      then write_error libs must_be_owner "you don't own this token"
      else write_error libs internal_error "internal"

  unfoldable pub after_delete_user : Request → Option Bytes → W → Served W
  after_delete_user r none w = served r (write_error libs unauthenticated "unauthenticated") w
  after_delete_user r (some user_id) w =
      let (e, w') = delete_token shortener r.path_token user_id w in served r (deleted_answer e) w'

  unfoldable pub handle_delete_token : Handler W
  handle_delete_token r w =
      if r.path_token =b= []
      then served r [] w
      else after_delete_user r (user_id_from_context r.ctx) w
