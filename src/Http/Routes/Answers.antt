-- ===== src/Http/Routes/Answers.antt =====
-- The API server answers every request: the routes over handlers that set their status before they
-- write.
use pet_urls.Prelude.{◌≡◌, ◌≢◌, refl, Bytes, Option, none, some, inl, inr, Bool-cases}
use pet_urls.Errors.{ok, err, errors_is, invalid_auth_token}
use pet_urls.Context.{Ctx, context_with_user_id}
use pet_urls.Shortener.Service
use pet_urls.Auth.Jwt.{Outcome, returned, panicked}
use pet_urls.Auth.Service.{authenticate}
use pet_urls.Http.Middleware.{Request, Handler, Server}
use pet_urls.Http.Middleware.Guard.{
  HeaderToken, found, malformed, token_from_header, with_user, with_header,
  requires_auth_middleware,
}
use pet_urls.Http.Middleware.SpeaksFirst.{
  SpeaksFirst, keep_request-SpeaksFirst, server_handler-SpeaksFirst, reached,
}
use pet_urls.Http.Api.{Api, read_body_as_json, get_refresh_token_from_cookie}
use pet_urls.Http.Handlers.Tokens.{
  handle_healthcheck, handle_generate_url_token, handle_create_token_with_owner,
  handle_delete_token,
}
use pet_urls.Http.Handlers.Tokens.SpeaksFirst.{
  after_shortener_check-SpeaksFirst, after_generate_body-SpeaksFirst,
  handle_resolve_token-SpeaksFirst, handle_create-SpeaksFirst, handle_delete_token-SpeaksFirst,
}
use pet_urls.Http.Handlers.Accounts.{handle_registration, handle_logout, handle_token_refresh}
use pet_urls.Http.Handlers.Accounts.SpeaksFirst.{
  after_registration_body-SpeaksFirst, handle_login-SpeaksFirst, after_logout_cookie-SpeaksFirst,
  after_refresh_cookie-SpeaksFirst,
}
use pet_urls.Http.Routes.{
  Route, health, generate, resolve, create_own, delete_own, login, logout, registration, refresh,
  metrics_page, routes, Mux, handler_of, dispatch, router, api_server, pattern_of,
}

module _ {W : Type 0} (sv : Server W) (api : Api W) (mux : Mux W) where
  with_user-SpeaksFirst :
      (next : Handler W) (r : Request) (o : Outcome Bytes) (w : W)
      → o ≢ panicked
      → ((q : Request) (v : W) → SpeaksFirst (next q v))
      → SpeaksFirst (with_user sv api.auth next r o w)
  unfolding with_user
  with_user-SpeaksFirst next r (returned (ok u)) w calm h =
      keep_request-SpeaksFirst sv r (next (record r { ctx = context_with_user_id r.ctx u }) w)
        (h (record r { ctx = context_with_user_id r.ctx u }) w)
  with_user-SpeaksFirst next r (returned (err e)) w calm h =
      elim (Bool-cases (errors_is (some e) invalid_auth_token)) [
        | inl invalid ↦ rw invalid tt
        | inr other ↦ rw other tt
      ]
  with_user-SpeaksFirst next r panicked w calm h = absurd (calm refl)

  with_header-SpeaksFirst :
      (next : Handler W) (r : Request) (t : HeaderToken) (w : W)
      → ((token : Bytes) → t ≡ found token → (authenticate api.auth token w).0 ≢ panicked)
      → ((q : Request) (v : W) → SpeaksFirst (next q v))
      → SpeaksFirst (with_header sv api.auth next r t w)
  unfolding with_header
  with_header-SpeaksFirst next r (malformed text) w calm h = tt
  with_header-SpeaksFirst next r (found token) w calm h =
      with_user-SpeaksFirst next r (authenticate api.auth token w).0
        (authenticate api.auth token w).1 (calm token refl) h

  guarded-SpeaksFirst :
      (next : Handler W) (r : Request) (w : W)
      → ((token : Bytes)
          → token_from_header r.authorization ≡ found token
          → (authenticate api.auth token w).0 ≢ panicked)
      → ((q : Request) (v : W) → SpeaksFirst (next q v))
      → SpeaksFirst (requires_auth_middleware sv api.auth next r w)
  unfolding requires_auth_middleware
  guarded-SpeaksFirst next r w calm h =
      with_header-SpeaksFirst next r (token_from_header r.authorization) w calm h

  create-SpeaksFirst : (r : Request) (w : W) → SpeaksFirst (handle_create_token_with_owner api r w)
  unfolding handle_create_token_with_owner
  create-SpeaksFirst r w =
      handle_create-SpeaksFirst api r (read_body_as_json api.libs.decode_token_request r) w

  handler_of-SpeaksFirst :
      (route : Route)
      → route ≢ metrics_page
      → (r : Request) (w : W)
      → ((token : Bytes)
          → token_from_header r.authorization ≡ found token
          → (authenticate api.auth token w).0 ≢ panicked)
      → SpeaksFirst (handler_of sv api mux route r w)
  unfolding handler_of handle_healthcheck handle_generate_url_token handle_registration
      handle_logout handle_token_refresh
  handler_of-SpeaksFirst health h r w calm =
      after_shortener_check-SpeaksFirst api r (Service.health_check api.shortener w).0
        (Service.health_check api.shortener w).1
  handler_of-SpeaksFirst generate h r w calm =
      after_generate_body-SpeaksFirst api r (read_body_as_json api.libs.decode_original_url r) w
  handler_of-SpeaksFirst resolve h r w calm = handle_resolve_token-SpeaksFirst api r w
  handler_of-SpeaksFirst create_own h r w calm =
      guarded-SpeaksFirst (handle_create_token_with_owner api) r w calm create-SpeaksFirst
  handler_of-SpeaksFirst delete_own h r w calm =
      guarded-SpeaksFirst (handle_delete_token api) r w calm (handle_delete_token-SpeaksFirst api)
  handler_of-SpeaksFirst login h r w calm = handle_login-SpeaksFirst api r w
  handler_of-SpeaksFirst logout h r w calm =
      after_logout_cookie-SpeaksFirst api r (get_refresh_token_from_cookie r) w
  handler_of-SpeaksFirst registration h r w calm =
      after_registration_body-SpeaksFirst api r (read_body_as_json api.libs.decode_credentials r) w
  handler_of-SpeaksFirst refresh h r w calm =
      after_refresh_cookie-SpeaksFirst api r (get_refresh_token_from_cookie r) w
  handler_of-SpeaksFirst metrics_page h r w calm = absurd (h refl)

  dispatch-SpeaksFirst :
      (chosen : Option (Route × Bytes)) (r : Request) (w : W)
      → ((token : Bytes)
          → token_from_header r.authorization ≡ found token
          → (authenticate api.auth token w).0 ≢ panicked)
      → ((q : Request) (v : W) → SpeaksFirst (mux.unmatched q v))
      → ((token : Bytes) → chosen ≢ some (metrics_page, token))
      → SpeaksFirst (dispatch sv api mux chosen r w)
  unfolding dispatch
  dispatch-SpeaksFirst none r w calm unmatched h = unmatched r w
  dispatch-SpeaksFirst (some (route, token)) r w calm unmatched h =
      handler_of-SpeaksFirst route (λ same. h token (rw same refl))
        (record r { pattern = pattern_of route; path_token = token }) w calm

  -- The server answers every request that the mux does not take for the page of the metrics, with a
  -- response that sets its status before it writes, if the authentication of the request's token does
  -- not panic and the answer of the mux to a request without a route is such a response, too: the
  -- request neither hangs in a writer nor ends the process.
  pub api_server-SpeaksFirst :
      (r : Request) (w : W)
      → ((token : Bytes)
          → token_from_header r.authorization ≡ found token
          → (authenticate api.auth token (sv.new_uuid w).1).0 ≢ panicked)
      → ((q : Request) (v : W) → SpeaksFirst (mux.unmatched q v))
      → ((c : Ctx) (token : Bytes)
          → mux.choose (routes sv.metrics) (reached sv r c) ≢ some (metrics_page, token))
      → SpeaksFirst (api_server sv api mux r w)
  unfolding api_server router
  api_server-SpeaksFirst r w calm unmatched h =
      server_handler-SpeaksFirst sv (router sv api mux) r w (λ c.
        dispatch-SpeaksFirst (mux.choose (routes sv.metrics) (reached sv r c)) (reached sv r c)
          (sv.new_uuid w).1 calm unmatched (h c))
