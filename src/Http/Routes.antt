-- ===== src/Http/Routes.antt =====
-- internal/transport/http/routes.go: the patterns and their handlers. The choice of a pattern for a
-- request is http.ServeMux, a parameter.
pub mod Answers
pub mod Rights
pub mod Creation
pub mod Rows
use pet_urls.Prelude.{
  Bytes, codes, Bool, true, false, Option, none, some, List, [], ◌∷◌, ◌++◌, if◌then◌else◌,
}
use pet_urls.Http.Middleware.{Request, Served, Handler, Server, server_handler}
use pet_urls.Http.Middleware.Guard.{requires_auth_middleware}
use pet_urls.Http.Api.{Api}
use pet_urls.Http.Handlers.Tokens.{
  handle_healthcheck, handle_generate_url_token, handle_resolve_token,
  handle_create_token_with_owner, handle_delete_token,
}
use pet_urls.Http.Handlers.Accounts.{
  handle_registration, handle_login, handle_logout, handle_token_refresh,
}

pub data Route : Type 0 where
  health generate resolve create_own delete_own login logout registration refresh metrics_page :
      Route

unfoldable pub pattern_of : Route → Bytes
pattern_of health = codes "GET /api/v1/health"
pattern_of generate = codes "POST /api/v1/short"
pattern_of resolve = codes "GET /api/v1/{token}"
pattern_of create_own = codes "POST /api/v1/short/my"
pattern_of delete_own = codes "DELETE /api/v1/short/my/{token}"
pattern_of login = codes "POST /api/v1/auth/login"
pattern_of logout = codes "POST /api/v1/auth/logout"
pattern_of registration = codes "POST /api/v1/auth/register"
pattern_of refresh = codes "POST /api/v1/auth/refresh"
pattern_of metrics_page = codes "GET /metrics"

-- The routes that are registered, with a registry of metrics or without.
abbrev pub routes : Bool → List Route
routes registry =
    (health ∷ generate ∷ resolve ∷ create_own ∷ delete_own ∷ login ∷ logout ∷ registration ∷ refresh
      ∷ [])
    ++ (if registry then metrics_page ∷ [] else [])

-- What http.ServeMux makes of a request for the routes: a route with the value of its wildcard, or
-- none. `metrics_handler` is the page of promhttp, `unmatched` the answer of the mux itself (404 or
-- 405).
pub record Mux (W : Type 0) : Type 0 where
  pub choose : List Route → Request → Option (Route × Bytes)
  pub metrics_handler : Handler W
  pub unmatched : Handler W

module _ {W : Type 0} (sv : Server W) (api : Api W) (mux : Mux W) where
  unfoldable pub handler_of : Route → Handler W
  handler_of health = handle_healthcheck api
  handler_of generate = handle_generate_url_token api
  handler_of resolve = handle_resolve_token api
  handler_of create_own = requires_auth_middleware sv api.auth (handle_create_token_with_owner api)
  handler_of delete_own = requires_auth_middleware sv api.auth (handle_delete_token api)
  handler_of login = handle_login api
  handler_of logout = handle_logout api
  handler_of registration = handle_registration api
  handler_of refresh = handle_token_refresh api
  handler_of metrics_page = mux.metrics_handler

  -- The mux writes the pattern and the wildcard into the request, which the handler gets.
  unfoldable pub dispatch : Option (Route × Bytes) → Handler W
  unfolding handler_of pattern_of
  dispatch none r w = mux.unmatched r w
  dispatch (some (route, token)) r w =
      handler_of route (record r { pattern = pattern_of route; path_token = token }) w

  unfoldable pub router : Handler W
  unfolding dispatch
  router r w = dispatch (mux.choose (routes sv.metrics) r) r w

  -- The handler of the server that `NewServer` makes with these routes.
  unfoldable pub api_server : Handler W
  unfolding router server_handler
  api_server r w = server_handler sv router r w
