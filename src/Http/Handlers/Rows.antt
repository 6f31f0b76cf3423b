-- ===== src/Http/Handlers/Rows.antt =====
-- What the handlers do to the stored rows of URL tokens: none but the deletion changes or removes one.
use pet_urls.Prelude.{
  ◌≡◌, sym, ◌∙◌, inl, inr, Bytes, codes, Option, none, some, [], Bool-cases, Option-cases, is_some,
  ◌=b=◌,
}
use mathlib.Core.Path.{subst}
use pet_urls.Errors.{GoError, Result, ok, err, errors_is, invalid_auth_token}
use pet_urls.Context.{context_with_user_id}
use pet_urls.Shortener.Types.{UrlToken, CreateTokenInput}
use pet_urls.Shortener.Service
use pet_urls.Shortener.Service.{
  slice_bytes, create_token, generate_token, create_token_with_owner, resolve_token,
}
use pet_urls.Shortener.Interface.{EnvLaws, RepositoryLaws, CacheLaws}
use pet_urls.Shortener.Ownership.{create_token_keeps_rows}
use pet_urls.Shortener.Resolve.{Resolved, hit, refused, found, resolve_token-Resolved}
use pet_urls.Auth.Jwt.{Outcome, returned, panicked}
use pet_urls.Auth.Service.{authenticate}
use pet_urls.Auth.Requests.{check, registration, entry, exit, renewal, proof, serve}
use pet_urls.Auth.Frame.{Frame, serve-Step}
use pet_urls.Http.Middleware.{Request, Handler, Server}
use pet_urls.Http.Middleware.Worlds.{world_of, world_of-keep_request}
use pet_urls.Http.Middleware.Guard
use pet_urls.Http.Middleware.Guard.{
  HeaderToken, malformed, token_from_header, with_user, with_header, requires_auth_middleware,
}
use pet_urls.Http.Api.{Api, TokenRequest, Credentials, read_body_as_json}
use pet_urls.Http.Handlers.Tokens.{
  after_shortener_check, after_generate_body, handle_resolve_token, after_create_user,
  after_create_body, handle_create_token_with_owner, input_of,
}
use pet_urls.Http.Handlers.Accounts.{
  after_registration_body, after_form, handle_login, after_logout_cookie, after_refresh_cookie,
}

-- No row has changed or gone.
abbrev pub Keeps : {W : Type 0} → (W → Bytes → Option UrlToken) → W → W → Type 0
Keeps stored w v = (k : Bytes) (row : UrlToken) → stored w k ≡ some row → stored v k ≡ some row

module _ {W : Type 0} (sv : Server W) (api : Api W) (stored : W → Bytes → Option UrlToken)
    (cached : W → Bytes → Option Bytes) (env_laws : EnvLaws stored cached api.shortener.env)
    (repo_laws : RepositoryLaws stored cached api.shortener.repo)
    (cache_laws : CacheLaws stored cached api.shortener.cache)
    (apart : Frame api.auth (Keeps stored)) where
  open api use {libs, shortener, auth}

  abbrev pub Same : W → W → Type 0
  Same = Keeps stored

  pub health-Same : (w : W) → Same w (Service.health_check shortener w).1
  unfolding Service.health_check Service.after_repo_check
  health-Same w k row h = elim (Option-cases (shortener.repo.health_check w).0) [
    | inl well ↦
        rw well ((cache_laws.health_quiet _).rows k ∙ (repo_laws.health_quiet w).rows k ∙ h)
    | inr (e, ill) ↦ rw ill ((repo_laws.health_quiet w).rows k ∙ h)
  ]

  create_token-Same : (input : CreateTokenInput) (w : W) → Same w (create_token shortener input w).1
  create_token-Same input w k row h =
      create_token_keeps_rows shortener stored cached env_laws repo_laws cache_laws input w k row h

  owned-Same :
      (input : CreateTokenInput) (w : W) → Same w (create_token_with_owner shortener input w).1
  unfolding create_token_with_owner
  owned-Same input w k row h = elim (Bool-cases (is_some input.owner_id)) [
    | inl named ↦ rw named (create_token-Same input w k row h)
    | inr nobody ↦ rw nobody h
  ]

  generate-Same : (url : Bytes) (w : W) → Same w (generate_token shortener url w).1
  unfolding generate_token
  generate-Same url w = create_token-Same _ w

  pub after_check-Same :
      (r : Request) (e : Option GoError) (w : W)
      → Same w (world_of (after_shortener_check api r e w))
  unfolding after_shortener_check serve
  after_check-Same r (some e) w = λ k row h. h
  after_check-Same r none w = serve-Step auth Same apart check w

  pub after_generate-Same :
      (r : Request) (b : Result Bytes) (w : W) → Same w (world_of (after_generate_body api r b w))
  unfolding after_generate_body
  after_generate-Same r (err e) w k row h = h
  after_generate-Same r (ok url) w k row h = elim (Bool-cases (url =b= [])) [
    | inl empty ↦ rw empty h
    | inr given ↦ rw given (generate-Same url w k row h)
  ]

  after_create_user-Same :
      (r : Request) (q : TokenRequest) (u : Option Bytes) (w : W)
      → Same w (world_of (after_create_user api r q u w))
  unfolding after_create_user
  after_create_user-Same r q none w = λ k row h. h
  after_create_user-Same r q (some u) w = owned-Same (input_of api q u) w

  after_create_body-Same :
      (r : Request) (b : Result TokenRequest) (w : W)
      → Same w (world_of (after_create_body api r b w))
  unfolding after_create_body
  after_create_body-Same r (err e) w = λ k row h. h
  after_create_body-Same r (ok q) w = after_create_user-Same r q _ w

  pub create-Same :
      (r : Request) (w : W) → Same w (world_of (handle_create_token_with_owner api r w))
  unfolding handle_create_token_with_owner
  create-Same r w = after_create_body-Same r (read_body_as_json libs.decode_token_request r) w

  pub after_registration-Same :
      (r : Request) (b : Result Credentials) (w : W)
      → Same w (world_of (after_registration_body api r b w))
  unfolding after_registration_body serve
  after_registration-Same r (err e) w k row h = h
  after_registration-Same r (ok q) w k row h = elim (Bool-cases (q.login =b= [])) [
    | inl no_login ↦ rw no_login h
    | inr named ↦ rw named (elim (Bool-cases (q.password =b= [])) [
      | inl no_password ↦ rw no_password h
      | inr full ↦ rw full (serve-Step auth Same apart (registration q.login q.password) w k row h)
    ])
  ]

  after_form-Same :
      (r : Request) (f : Result (Bytes → Bytes)) (w : W) → Same w (world_of (after_form api r f w))
  unfolding after_form serve
  after_form-Same r (err e) w k row h = h
  after_form-Same r (ok form) w k row h = elim (Bool-cases (form (codes "login") =b= [])) [
    | inl no_login ↦ rw no_login h
    | inr named ↦ rw named (elim (Bool-cases (form (codes "password") =b= [])) [
      | inl no_password ↦ rw no_password h
      | inr full ↦ rw full (
          serve-Step auth Same apart (entry (form (codes "login")) (form (codes "password"))) w k
            row h)
    ])
  ]

  pub login-Same : (r : Request) (w : W) → Same w (world_of (handle_login api r w))
  unfolding handle_login
  login-Same r w k row h =
      elim (Bool-cases (r.content_type =b= codes "application/x-www-form-urlencoded")) [
        | inl form ↦ rw form (after_form-Same r (libs.parse_form r) w k row h)
        | inr other ↦ rw other h
      ]

  pub logout-Same :
      (r : Request) (t : Result Bytes) (w : W) → Same w (world_of (after_logout_cookie api r t w))
  unfolding after_logout_cookie serve
  logout-Same r (err e) w = λ k row h. h
  logout-Same r (ok t) w = serve-Step auth Same apart (exit t) w

  pub refresh-Same :
      (r : Request) (t : Result Bytes) (w : W) → Same w (world_of (after_refresh_cookie api r t w))
  unfolding after_refresh_cookie serve
  refresh-Same r (err e) w = λ k row h. h
  refresh-Same r (ok t) w = serve-Step auth Same apart (renewal t) w

  authenticate-Same : (t : Bytes) (w : W) → Same w (authenticate auth t w).1
  unfolding serve
  authenticate-Same t w = serve-Step auth Same apart (proof t) w

  with_user-Same :
      (next : Handler W) (r : Request) (o : Outcome Bytes) (w : W)
      → ((q : Request) (v : W) → Same v (world_of (next q v)))
      → Same w (world_of (with_user sv auth next r o w))
  unfolding with_user
  with_user-Same next r (returned (ok u)) w f k row h =
      let q = record r { ctx = context_with_user_id r.ctx u } in
      subst (λ v. stored v k ≡ some row) (sym (world_of-keep_request sv r [] (next q w)))
        (f q w k row h)
  with_user-Same next r (returned (err e)) w f k row h =
      elim (Bool-cases (errors_is (some e) invalid_auth_token)) [
        | inl invalid ↦ rw invalid h
        | inr other ↦ rw other h
      ]
  with_user-Same next r panicked w f k row h = h

  pub with_header-Same :
      (next : Handler W) (r : Request) (t : HeaderToken) (w : W)
      → ((q : Request) (v : W) → Same v (world_of (next q v)))
      → Same w (world_of (with_header sv auth next r t w))
  unfolding with_header
  with_header-Same next r (malformed text) w f k row h = h
  with_header-Same next r (Guard.found token) w f k row h =
      with_user-Same next r (authenticate auth token w).0 (authenticate auth token w).1 f k row
        (authenticate-Same token w k row h)

  Resolved-Same :
      {t : Bytes} {w : W} {x : Result Bytes × W}
      → Resolved shortener stored cached t w x
      → Same w x.1
  Resolved-Same (hit u w' q here) k row h = q.rows k ∙ h
  Resolved-Same (refused e w' q) k row h = q.rows k ∙ h
  Resolved-Same (found r c b ttl q here same live) k row h =
      cache_laws.save_rows r.token r.url ttl b k ∙ q.rows k ∙ h

  pub resolve-Same : (r : Request) (w : W) → Same w (world_of (handle_resolve_token api r w))
  unfolding handle_resolve_token
  resolve-Same r w =
      Resolved-Same (
        resolve_token-Resolved shortener stored cached env_laws repo_laws cache_laws r.path_token w)
