-- ===== src/Http/Routes/Rows.antt =====
-- What a request to the API server does to the stored rows of URL tokens, whatever its route.
use pet_urls.Prelude.{ℕ, ◌≡◌, ◌≢◌, refl, ap, sym, ◌∙◌, ◌⊎◌, inl, inr, Bytes, Option, none, some}
use mathlib.Core.Path.{subst}
use pet_urls.Context.{Ctx}
use pet_urls.Shortener.Types.{UrlToken}
use pet_urls.Shortener.Service
use pet_urls.Shortener.Service.{
  slice_bytes, create_token, generate_token, create_token_with_owner, resolve_token,
}
use pet_urls.Shortener.Interface.{EnvLaws, RepositoryLaws, CacheLaws}
use pet_urls.Auth.Requests.{registration}
use pet_urls.Auth.Frame.{Frame}
use pet_urls.Http.Middleware.{Request, Server}
use pet_urls.Http.Middleware.Worlds.{world_of, server_handler-world}
use pet_urls.Http.Middleware.SpeaksFirst.{reached}
use pet_urls.Http.Middleware.Guard.{token_from_header, requires_auth_middleware}
use pet_urls.Http.Api.{Api, read_body_as_json, get_refresh_token_from_cookie}
use pet_urls.Http.Handlers.Tokens.{
  handle_healthcheck, handle_generate_url_token, handle_create_token_with_owner,
}
use pet_urls.Http.Handlers.Accounts.{handle_registration, handle_logout, handle_token_refresh}
use pet_urls.Http.Routes.{
  Route, health, generate, resolve, create_own, delete_own, login, logout, registration, refresh,
  metrics_page, routes, Mux, handler_of, pattern_of, dispatch, router, api_server,
}
use pet_urls.Http.Routes.Rights.{Bears, delete_own-rows}
use pet_urls.Http.Handlers.Rows.{
  Keeps, health-Same, after_check-Same, after_generate-Same, create-Same, after_registration-Same,
  login-Same, logout-Same, refresh-Same, with_header-Same, resolve-Same,
}

route_cases : (route : Route) → (route ≡ delete_own) ⊎ (route ≢ delete_own)
route_cases delete_own = inl refl
route_cases health = inr (λ e. cc)
route_cases generate = inr (λ e. cc)
route_cases resolve = inr (λ e. cc)
route_cases create_own = inr (λ e. cc)
route_cases login = inr (λ e. cc)
route_cases logout = inr (λ e. cc)
route_cases registration = inr (λ e. cc)
route_cases refresh = inr (λ e. cc)
route_cases metrics_page = inr (λ e. cc)

module _ {W : Type 0} (sv : Server W) (api : Api W) (mux : Mux W)
    (stored : W → Bytes → Option UrlToken) (cached : W → Bytes → Option Bytes)
    (env_laws : EnvLaws stored cached api.shortener.env)
    (repo_laws : RepositoryLaws stored cached api.shortener.repo)
    (cache_laws : CacheLaws stored cached api.shortener.cache)
    (apart : Frame api.auth (Keeps stored)) where
  open api use {libs, shortener, auth}

  abbrev Same : W → W → Type 0
  Same = Keeps stored

  -- Every route but the deletion of a token keeps the rows, where the page of the metrics does.
  handler_of-Same :
      (route : Route)
      → route ≢ delete_own
      → ((q : Request) (v : W) → Same v (world_of (mux.metrics_handler q v)))
      → (r : Request) (w : W) → Same w (world_of (handler_of sv api mux route r w))
  unfolding handler_of handle_healthcheck handle_generate_url_token handle_registration
      handle_logout handle_token_refresh requires_auth_middleware
  handler_of-Same health h m r w = λ k row stays.
      after_check-Same sv api stored cached env_laws repo_laws cache_laws apart r
        (Service.health_check shortener w).0 (Service.health_check shortener w).1 k row
        (health-Same sv api stored cached env_laws repo_laws cache_laws apart w k row stays)
  handler_of-Same generate h m r w =
      after_generate-Same sv api stored cached env_laws repo_laws cache_laws apart r
        (read_body_as_json libs.decode_original_url r) w
  handler_of-Same resolve h m r w =
      resolve-Same sv api stored cached env_laws repo_laws cache_laws apart r w
  handler_of-Same create_own h m r w =
      with_header-Same sv api stored cached env_laws repo_laws cache_laws apart
        (handle_create_token_with_owner api) r (token_from_header r.authorization) w
        (create-Same sv api stored cached env_laws repo_laws cache_laws apart)
  handler_of-Same delete_own h m r w = absurd (h refl)
  handler_of-Same login h m r w =
      login-Same sv api stored cached env_laws repo_laws cache_laws apart r w
  handler_of-Same logout h m r w =
      logout-Same sv api stored cached env_laws repo_laws cache_laws apart r
        (get_refresh_token_from_cookie r) w
  handler_of-Same registration h m r w =
      after_registration-Same sv api stored cached env_laws repo_laws cache_laws apart r
        (read_body_as_json libs.decode_credentials r) w
  handler_of-Same refresh h m r w =
      refresh-Same sv api stored cached env_laws repo_laws cache_laws apart r
        (get_refresh_token_from_cookie r) w
  handler_of-Same metrics_page h m r w = m r w

  module _ (clock : (w : W) (k : Bytes) → stored (api.auth.env.now w).1 k ≡ stored w k) where
    -- The request is one to delete the token `k`, and its header bears a token of the row's owner.
    pub record IsOwnDeletion (q : Request) (w : W) (k : Bytes) (row : UrlToken) : Type 0 where
      pub chosen : mux.choose (routes sv.metrics) q ≡ some (delete_own, k)
      pub bears :
          Bears sv api mux stored cached env_laws repo_laws cache_laws clock q w
            (slice_bytes row.owner_id)

    abbrev StaysOrOwn : Request → W → Bytes → UrlToken → W → Type 0
    StaysOrOwn q w k row v = (stored v k ≡ some row) ⊎ IsOwnDeletion q w k row

    delete-StaysOrOwn :
        (q : Request) (token : Bytes) (w : W) (k : Bytes) (row : UrlToken)
        → mux.choose (routes sv.metrics) q ≡ some (delete_own, token)
        → stored w k ≡ some row
        → StaysOrOwn q w k row (
            world_of (
              handler_of sv api mux delete_own
                (record q { pattern = pattern_of delete_own; path_token = token })
                w))
    delete-StaysOrOwn q token w k row chosen here =
        elim (delete_own-rows sv api mux stored cached env_laws repo_laws cache_laws clock
          (record q { pattern = pattern_of delete_own; path_token = token }) w k) [
            | inl same ↦ inl (same ∙ here)
            | inr (name, gone, (own, was, bears)) ↦
                let row_own : own ≡ row = cc (ap (stored w) name, was, here) in
                inr (record {
                  chosen = chosen ∙ ap (λ t. some (delete_own, t)) (sym name);
                  bears =
                      subst
                        (λ (o : UrlToken).
                          Bears sv api mux stored cached env_laws repo_laws cache_laws clock q w
                            (slice_bytes o.owner_id))
                        row_own
                        (record {
                          token = bears.token;
                          header = bears.header;
                          authentic = bears.authentic;
                        });
                })
          ]

    dispatch-StaysOrOwn :
        (q : Request) (chosen : Option (Route × Bytes)) (w : W) (k : Bytes) (row : UrlToken)
        → ((p : Request) (v : W) → Same v (world_of (mux.unmatched p v)))
        → ((p : Request) (v : W) → Same v (world_of (mux.metrics_handler p v)))
        → mux.choose (routes sv.metrics) q ≡ chosen
        → stored w k ≡ some row
        → StaysOrOwn q w k row (world_of (dispatch sv api mux chosen q w))
    unfolding dispatch
    dispatch-StaysOrOwn q none w k row u m c h = inl (u q w k row h)
    dispatch-StaysOrOwn q (some (route, token)) w k row u m c h = elim (route_cases route) [
      | inl same ↦
          rw same (delete-StaysOrOwn q token w k row (c ∙ ap (λ x. some (x, token)) same) h)
      | inr other ↦ inl (
          handler_of-Same route other m
            (record q { pattern = pattern_of route; path_token = token }) w k row h)
    ]

    -- Where the dependencies keep their promises, the accounts and the middleware leave the rows of
    -- URL tokens alone, and so do the mux's own answer and the page of the metrics: whatever the
    -- request and its route, a stored row stays as it was, unless the request was routed to the
    -- deletion of that very token and its header bears a token that authenticates the owner of the
    -- row.
    pub api_server-rows :
        (r : Request) (w : W) (k : Bytes) (row : UrlToken)
        → Same w (sv.new_uuid w).1
        → ((m p : Bytes) (n : ℕ) (v : W) → Same v (sv.observe m p n v))
        → ((p : Request) (v : W) → Same v (world_of (mux.unmatched p v)))
        → ((p : Request) (v : W) → Same v (world_of (mux.metrics_handler p v)))
        → stored w k ≡ some row
        → (stored (world_of (api_server sv api mux r w)) k ≡ some row)
          ⊎ ((c : Ctx) × IsOwnDeletion (reached sv r c) (sv.new_uuid w).1 k row)
    unfolding api_server router
    api_server-rows r w k row uuid seen unmatched metrics here =
        server_handler-world sv
          (λ v.
            (stored v k ≡ some row)
            ⊎ ((c : Ctx) × IsOwnDeletion (reached sv r c) (sv.new_uuid w).1 k row))
          (λ m p n v was. elim was [
            | inl stays ↦ inl (seen m p n v k row stays)
            | inr own ↦ inr own
          ])
          (router sv api mux) r w
          (λ c.
            elim (dispatch-StaysOrOwn (reached sv r c)
              (mux.choose (routes sv.metrics) (reached sv r c)) (sv.new_uuid w).1 k row unmatched
              metrics refl (uuid k row here)) [ inl stays ↦ inl stays | inr own ↦ inr (c, own) ])
