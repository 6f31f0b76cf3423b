-- ===== src/Examples/Rows.antt =====
-- The rows of the small world of Memory under a request to the API server.
use pet_urls.Prelude.{◌≡◌, ◌⊎◌, codes, some}
use pet_urls.Context.{Ctx}
use pet_urls.Auth.Frame.{Frame}
use pet_urls.Http.Middleware.Worlds.{world_of}
use pet_urls.Http.Middleware.SpeaksFirst.{reached}
use pet_urls.Http.Handlers.Rows.{Keeps}
use pet_urls.Http.Routes.{api_server}
use pet_urls.Http.Routes.Rows.{IsOwnDeletion, api_server-rows}
use pet_urls.Examples.Memory.{stored, cached}
use pet_urls.Examples.MemoryLaws.{ticking-EnvLaws}
use pet_urls.Examples.Tokens.{demo_repo, demo_cache, made, made_row, first_token}
use pet_urls.Examples.Site.{site, site_auth, site_server, site_mux, site_clock, request}

apart : Frame site_auth (Keeps stored)
apart = record {
  still = λ w k row h. h;
  follow = λ v w u p q k row h. q k row (p k row h);
  now = λ w k row h. h;
  uuid = λ w k row h. h;
  password = λ p w k row h. h;
  health = λ w k row h. h;
  get_user = λ n w k row h. h;
  save_user = λ u w k row h. h;
  save_refresh_token = λ r w k row h. h;
  get_refresh_token = λ t w k row h. h;
  revoke = λ t w k row h. h;
}

api_server-rows_example :
    (stored (world_of (api_server site_server site site_mux request made)) (codes "t")
      ≡ some first_token)
    ⊎ ((c : Ctx) × IsOwnDeletion site_server site site_mux stored cached ticking-EnvLaws demo_repo
          demo_cache apart site_clock
          (reached site_server request c)
          made
          (codes "t")
          first_token)
api_server-rows_example =
    api_server-rows site_server site site_mux stored cached ticking-EnvLaws demo_repo demo_cache
      apart site_clock request made (codes "t") first_token (λ k row h. h) (λ m p n v k row h. h)
      (λ p v k row h. h) (λ p v k row h. h) made_row
