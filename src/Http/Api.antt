-- ===== src/Http/Api.antt =====
-- What the handlers of internal/transport/http share: handlerUtils.go, cookies.go and the libraries
-- that they call.
pub mod Cookies
pub mod StatusFirst
use pet_urls.Prelude.{
  String, ℕ, Bytes, codes, Bool, true, false, not, Option, none, some, List, [], ◌∷◌, ◌++◌, ◌=b=◌,
  if◌then◌else◌,
}
use pet_urls.Prelude.Int.{ℤ, pos, negsuc}
use pet_urls.Errors.{GoError, plain, Result, ok, err}
use pet_urls.Base64.Padded.{encode_padded, decode_padded}
use pet_urls.Http.Writer.{Operation, header, body, set_field, add_field}
use pet_urls.Http.Middleware.{Request, http_error}
use pet_urls.Shortener.Types.{Shortener}
use pet_urls.Auth.Types.{Auth}

pub data ApiErrorCode : Type 0 where
  invalid_request invalid_parameter unauthenticated must_be_owner internal_error : ApiErrorCode

unfoldable pub api_code_to_http_status_code : ApiErrorCode → ℕ
api_code_to_http_status_code unauthenticated = 401
api_code_to_http_status_code must_be_owner = 403
api_code_to_http_status_code internal_error = 500
api_code_to_http_status_code _ = 400

-- The values that handlers answer with, one constructor for each response struct.
pub data Answer : Type 0 where
  error_response : String → ApiErrorCode → Answer
  generated_token : Bytes → Bytes → Answer
  created_token : Bytes → ℤ → Answer
  access_token : Bytes → Answer

pub record Cookie : Type 0 where
  pub name : Bytes
  pub value : Bytes
  pub path : Bytes
  pub max_age : ℤ
  pub secure : Bool
  pub http_only : Bool
  pub same_site_strict : Bool

-- The bodies of requests, by the structs of the handlers.
pub record TokenRequest : Type 0 where
  pub token : Bytes
  pub url : Bytes
  pub ttl : ℤ

pub record Credentials : Type 0 where
  pub login : Bytes
  pub password : Bytes

-- encoding/json, net/http and time. A decoder takes the limit of the body and the body, which it may
-- not read to its end. `form_value` is `PostForm.Get`.
pub record Libs : Type 0 where
  pub decode_original_url : Option ℕ → Bytes → Result Bytes
  pub decode_token_request : Option ℕ → Bytes → Result TokenRequest
  pub decode_credentials : Option ℕ → Bytes → Result Credentials
  pub encode : Answer → Result Bytes
  pub parse_form : Request → Result (Bytes → Bytes)
  pub cookie_string : Cookie → Bytes
  pub location : Request → Bytes → Bytes
  pub redirect_body : Request → Bytes → Option Bytes
  pub format_rfc3339 : ℤ → Bytes
  -- `int(d.Seconds())`
  pub int_seconds : ℤ → ℤ

-- The fields of `server` that the handlers read.
pub record Api (W : Type 0) : Type 0 where
  pub libs : Libs
  pub shortener : Shortener W
  pub auth : Auth W
  pub debug : Bool

abbrev pub parsed : {A : Type 0} → Result A → Result A
parsed (err _) = err (plain "body is not valid JSON")
parsed (ok a) = ok a

abbrev pub read_payload :
    {A : Type 0} → (Option ℕ → Bytes → Result A) → Request → Option Bytes → Result A
read_payload decode r none = err (plain "empty body")
read_payload decode r (some text) =
    if not (r.content_type =b= codes "application/json")
    then err (plain "incorrect content type")
    else parsed (decode r.body_limit text)

-- `readBodyAsJSON`, with the decoder of its schema.
unfoldable pub read_body_as_json : {A : Type 0} → (Option ℕ → Bytes → Result A) → Request → Result A
read_body_as_json decode r =
    if r.method =b= codes "CONNECT"
    then err (plain "GET method")
    else read_payload decode r r.payload

module _ (libs : Libs) where
  -- The encoder ends its text with a newline, and writes nothing where it fails.
  encoded : Result Bytes → List Operation
  encoded (ok text) = body (text ++ (10 ∷ [])) ∷ []
  encoded (err _) = http_error "couldn't write response" 500

  unfoldable pub write_response_as_json : Answer → ℕ → List Operation
  unfolding encoded
  write_response_as_json response status =
      set_field (codes "Content-Type") (codes "application/json")
      ∷ header status
      ∷ encoded (libs.encode response)

  unfoldable pub write_error : ApiErrorCode → String → List Operation
  unfolding write_response_as_json api_code_to_http_status_code
  write_error code message =
      write_response_as_json (error_response message code) (api_code_to_http_status_code code)

  unfoldable pub write_access_token_as_json : Bytes → List Operation
  unfolding write_response_as_json
  write_access_token_as_json token = write_response_as_json (access_token token) 200

abbrev pub refresh_token_cookie_name : Bytes
refresh_token_cookie_name = codes "refreshToken"

abbrev pub refresh_token_cookie_path : Bytes
refresh_token_cookie_path = codes "/api/v1/auth"

-- `http.SetCookie`: a cookie that cannot be printed is dropped.
abbrev pub set_cookie : Bytes → List Operation
set_cookie text = if text =b= [] then [] else add_field (codes "Set-Cookie") text ∷ []

abbrev pub decoded_cookie : Option Bytes → Result Bytes
decoded_cookie none = err (plain "illegal base64 data")
decoded_cookie (some token) = ok token

abbrev pub cookie_token : Result Bytes → Result Bytes
cookie_token (err e) = err e
cookie_token (ok value) = decoded_cookie (decode_padded value)

unfoldable pub get_refresh_token_from_cookie : Request → Result Bytes
get_refresh_token_from_cookie r = cookie_token (r.cookie refresh_token_cookie_name)

module _ {W : Type 0} (s : Api W) where
  open s use {libs, auth, debug}

  abbrev pub refresh_token_cookie : Bytes → Cookie
  refresh_token_cookie token = record {
    name = refresh_token_cookie_name;
    value = encode_padded token;
    path = refresh_token_cookie_path;
    max_age = libs.int_seconds auth.settings.refresh_token_ttl;
    secure = not debug;
    http_only = true;
    same_site_strict = true;
  }

  unfoldable pub set_refresh_token_cookie : Bytes → List Operation
  set_refresh_token_cookie token = set_cookie (libs.cookie_string (refresh_token_cookie token))

  abbrev pub expired_cookie : Cookie
  expired_cookie = record {
    name = refresh_token_cookie_name;
    value = [];
    path = refresh_token_cookie_path;
    max_age = negsuc 0;
    secure = false;
    http_only = false;
    same_site_strict = false;
  }

  unfoldable pub expire_refresh_token_cookie : List Operation
  expire_refresh_token_cookie = set_cookie (libs.cookie_string expired_cookie)
