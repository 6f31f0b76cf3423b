-- ===== src/Examples/Site.antt =====
-- The API server over the small world of Memory: its users are known by their access tokens alone.
use pet_urls.Prelude.{
  ℕ, suc, ◌≡◌, ◌≢◌, refl, sym, ap, Bytes, codes, true, false, Option, none, some, List, [], ◌∷◌,
  ◌++◌, ◌=b=◌, if◌then◌else◌, arith,
}
use pet_urls.Prelude.Int.{pos}
use pet_urls.Errors.{plain, Result, ok, err, errors_is}
use pet_urls.Context.{user_id_from_context, context_with_user_id}
use pet_urls.Strings.{has_prefix, trim_prefix}
use pet_urls.Shortener.Service.{create_token_with_owner}
use pet_urls.Auth.Types.{Env, Repository, Auth}
use pet_urls.Auth.Jwt.{returned, panicked, valid_string, parse_jwt}
use pet_urls.Auth.Service.{authenticate, after_claims}
use pet_urls.Base64
use pet_urls.Base64.Padded
use pet_urls.Http.Writer.{Operation, header, body, set_field}
use pet_urls.Http.Middleware.{Request, Served, served, Server, http_error}
use pet_urls.Http.Middleware.Guard.{
  found, with_user, with_header, token_from_header, requires_auth_middleware,
}
use pet_urls.Http.Middleware.SpeaksFirst.{SpeaksFirst}
use pet_urls.Http.Api.{
  TokenRequest, Libs, Api, read_body_as_json, write_response_as_json, refresh_token_cookie,
  refresh_token_cookie_name, get_refresh_token_from_cookie,
}
use pet_urls.Http.Api.Cookies.{get_refresh_token-refresh_token_cookie}
use pet_urls.Http.Handlers.Tokens.{
  handle_create_token_with_owner, after_create_body, after_create_user, created_answer,
}
use pet_urls.Http.Routes.{resolve, create_own, delete_own, Mux, handler_of, api_server}
use pet_urls.Http.Routes.Answers.{api_server-SpeaksFirst}
use pet_urls.Http.Middleware.Worlds.{world_of}
use pet_urls.Http.Routes.Rights.{KeptOrOwn, delete_own-rows}
use pet_urls.Http.Routes.Creation.{IsCreated, create_own-IsCreated}
use pet_urls.Examples.Memory.{Memory, stored, cached, start}
use pet_urls.Examples.MemoryLaws.{ticking-EnvLaws}
use pet_urls.Examples.Accounts.{clear_jwt}
use pet_urls.Examples.Tokens.{demo, demo_repo, demo_cache, made, service_steps}

abbrev pub site_env : Env Memory
site_env = record {
  now = λ w. (pos w.clock, record w { clock = suc w.clock });
  new_uuid = λ w. (ok (codes "rt"), w);
  generate_from_password = λ p w. (ok p, w);
  compare_hash_and_password = λ h p. none;
  sha256 = λ t. t;
}

-- No table of users.
abbrev site_repo : Repository Memory
site_repo = record {
  health_check = λ w. (none, w);
  save_user = λ u w. (err (plain "no such table"), w);
  get_user = λ n w. (err (plain "no such table"), w);
  save_refresh_token = λ r w. (some (plain "no such table"), w);
  get_refresh_token = λ h w. (err (plain "no such table"), w);
  revoke_refresh_token = λ h w. (some (plain "no such table"), w);
}

abbrev pub site_auth : Auth Memory
site_auth = record {
  env = site_env;
  jwt = clear_jwt;
  repo = site_repo;
  key = codes "k";
  settings = record { refresh_token_ttl = pos 1000; access_token_ttl = pos 10 };
}

-- The body of a request for a token is its URL; the name is "n" and the lifetime 9.
abbrev decode_plain : Option ℕ → Bytes → Result TokenRequest
decode_plain limit text = ok (record { token = codes "n"; url = text; ttl = pos 9 })

abbrev pub site_libs : Libs
site_libs = record {
  decode_original_url = λ limit text. ok text;
  decode_token_request = decode_plain;
  decode_credentials = λ limit text. err (plain "no credentials");
  encode = λ a. ok (codes "{}");
  parse_form = λ r. err (plain "no form");
  cookie_string = λ c. c.name ++ codes "=" ++ c.value;
  location = λ r url. url;
  redirect_body = λ r url. none;
  format_rfc3339 = λ t. codes "soon";
  int_seconds = λ d. pos 1;
}

abbrev pub site : Api Memory
site = record { libs = site_libs; shortener = demo; auth = site_auth; debug = false }

abbrev pub site_server : Server Memory
site_server = record {
  new_uuid = λ w. (ok (codes "id"), w);
  deadline_passed = λ w. false;
  observe = λ m p status w. w;
  metrics = true;
}

-- Every request goes to the route that resolves the token "t".
abbrev pub site_mux : Mux Memory
site_mux = record {
  choose = λ routes r. some (resolve, codes "t");
  metrics_handler = λ r w. served r (body (codes "up") ∷ []) w;
  unmatched = λ r w. served r (http_error "404 page not found" 404) w;
}

abbrev pub request : Request
request = record {
  method = codes "POST";
  path = codes "/api/v1/short/my";
  pattern = [];
  authorization = codes "Bearer " ++ (1 ∷ 16 ∷ codes "YWxpY2U");
  ctx = [];
  body_limit = none;
  payload = some (codes "b.io");
  content_type = codes "application/json";
  path_token = codes "t";
  cookie = λ name. ok (codes "cnQ=");
}

pub site_clock : (w : Memory) (k : Bytes) → stored (site_env.now w).1 k ≡ stored w k
site_clock w k = refl

delete_own-rows_example :
    KeptOrOwn site_server site site_mux stored cached ticking-EnvLaws demo_repo demo_cache
      site_clock request made
      (world_of (handler_of site_server site site_mux delete_own request made))
      (codes "t")
delete_own-rows_example =
    delete_own-rows site_server site site_mux stored cached ticking-EnvLaws demo_repo demo_cache
      site_clock request made (codes "t")

abbrev answer : List Operation
answer =
    set_field (codes "Content-Type") (codes "application/json")
    ∷ header 201
    ∷ body (codes "{}" ++ (10 ∷ []))
    ∷ []

abbrev creation : Served Memory
creation = handler_of site_server site site_mux create_own request start

found-injective : {a b : Bytes} → found a ≡ found b → a ≡ b
found-injective h = cc

site_steps : Unit {0}
unfolding service_steps user_id_from_context context_with_user_id handler_of
    requires_auth_middleware with_header with_user token_from_header has_prefix trim_prefix
    authenticate after_claims parse_jwt valid_string Base64.decode handle_create_token_with_owner
    read_body_as_json after_create_body after_create_user created_answer write_response_as_json
    create_token_with_owner errors_is
site_steps = tt

abbrev alices : Bytes
alices = 1 ∷ 16 ∷ codes "YWxpY2U"

alices_token :
    (token : Bytes) → token_from_header request.authorization ≡ found token → token ≡ alices
unfolding site_steps
alices_token token h = sym (found-injective h)

authenticated : (authenticate site_auth alices made).0 ≡ returned (ok (codes "alice"))
unfolding site_steps
authenticated = refl

never_panics :
    (token : Bytes)
    → token_from_header request.authorization ≡ found token
    → (authenticate site_auth token made).0 ≢ panicked
never_panics token h bad =
    let same = ap (λ t. (authenticate site_auth t made).0) (alices_token token h) in
    cc (same, authenticated, bad)

api_server-SpeaksFirst_example : SpeaksFirst (api_server site_server site site_mux request made)
api_server-SpeaksFirst_example =
    api_server-SpeaksFirst site_server site site_mux request made never_panics (λ q v. tt)
      (λ c token h. cc)

created_result : creation ≡ served request answer (world_of creation)
unfolding site_steps
created_result = refl

create_own-IsCreated_example :
    IsCreated site_server site site_mux stored cached ticking-EnvLaws demo_repo demo_cache request
      start
      (world_of creation)
create_own-IsCreated_example =
    create_own-IsCreated site_server site site_mux stored cached ticking-EnvLaws demo_repo
      demo_cache request request start (world_of creation) answer created_result refl

-- The request with which a client asks for a new access token, with the cookie of the refresh token
-- "rt".
abbrev asking : Request
asking = record request {
  path = codes "/api/v1/auth/refresh";
  cookie = λ name.
      if name =b= refresh_token_cookie_name
      then ok (codes "cnQ=")
      else err (plain "named cookie not present");
}

cookie_back :
    asking.cookie refresh_token_cookie_name ≡ ok (refresh_token_cookie site (codes "rt")).value
unfolding Padded.encode_padded ◌=b=◌
cookie_back = refl

get_refresh_token-refresh_token_cookie_example :
    get_refresh_token_from_cookie asking ≡ ok (codes "rt")
get_refresh_token-refresh_token_cookie_example =
    get_refresh_token-refresh_token_cookie site (codes "rt") (codes "refresh") asking
      (omega arith, (omega arith, tt)) refl (λ octets below under. cookie_back)
