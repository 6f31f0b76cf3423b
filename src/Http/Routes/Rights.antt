-- ===== src/Http/Routes/Rights.antt =====
-- Who may delete and create a token through the routes: the guard, the handlers and the shortener
-- together.
use pet_urls.Prelude.{
  ◌≡◌, refl, sym, ◌∙◌, ◌⊎◌, inl, inr, Bytes, Option, none, some, [], arith, Bool-cases, ◌=b=◌,
}
use pet_urls.Prelude.Int.{ltb_ℤ}
use mathlib.Core.Path.{subst}
use pet_urls.Errors.{invalid_auth_token, ok, err, errors_is}
use pet_urls.Context.{context_with_user_id, user_id_from_context}
use pet_urls.Shortener.Types.{UrlToken}
use pet_urls.Shortener.Service.{slice_bytes}
use pet_urls.Shortener.Interface.{EnvLaws, RepositoryLaws, CacheLaws}
use pet_urls.Shortener.Ownership.{RowKeptOrOwn, delete_token_rows}
use pet_urls.Auth.Jwt.{JwtClaims, Outcome, returned, panicked, parse_jwt}
use pet_urls.Auth.Service.{authenticate, after_claims}
use pet_urls.Auth.Access.{IsAuthentic, authenticate-IsAuthentic}
use pet_urls.Http.Middleware.{Request, Server, keep_request}
use pet_urls.Http.Middleware.Worlds.{world_of, world_of-keep_request}
use pet_urls.Http.Middleware.Guard.{
  HeaderToken, found, malformed, token_from_header, with_user, with_header,
  requires_auth_middleware,
}
use pet_urls.Http.Api.{Api}
use pet_urls.Http.Handlers.Tokens.{after_delete_user, handle_delete_token}
use pet_urls.Http.Routes.{delete_own, Mux, handler_of}

user_id-with_user :
    (r : Request) (uid : Bytes) → user_id_from_context (context_with_user_id r.ctx uid) ≡ some uid
unfolding context_with_user_id user_id_from_context
user_id-with_user r uid = refl

module _ {W : Type 0} (sv : Server W) (api : Api W) (mux : Mux W)
    (stored : W → Bytes → Option UrlToken) (cached : W → Bytes → Option Bytes)
    (env_laws : EnvLaws stored cached api.shortener.env)
    (repo_laws : RepositoryLaws stored cached api.shortener.repo)
    (cache_laws : CacheLaws stored cached api.shortener.cache)
    (clock : (w : W) (k : Bytes) → stored (api.auth.env.now w).1 k ≡ stored w k) where
  open api use {libs, shortener, auth}

  after_claims-rows :
      (c : Outcome JwtClaims) (w : W) (k : Bytes) → stored (after_claims auth c w).1 k ≡ stored w k
  unfolding after_claims
  after_claims-rows panicked w k = refl
  after_claims-rows (returned (err e)) w k = refl
  after_claims-rows (returned (ok j)) w k =
      elim (Bool-cases (ltb_ℤ j.expires_at (auth.env.now w).0)) [
        | inl late ↦ rw late (clock w k)
        | inr live ↦ rw live (clock w k)
      ]

  authenticate-rows :
      (t : Bytes) (w : W) (k : Bytes) → stored (authenticate auth t w).1 k ≡ stored w k
  unfolding authenticate
  authenticate-rows t w k = after_claims-rows (parse_jwt auth.jwt t auth.key) w k

  -- A request that bears a token of the user `uid`.
  pub record Bears (r : Request) (w : W) (uid : Bytes) : Type 0 where
    pub token : Bytes
    pub header : token_from_header r.authorization ≡ found token
    pub authentic : IsAuthentic auth token w uid

  -- The row `k` is as it was, or it is the row of the token in the path, is gone, and its owner is the
  -- user of the request.
  abbrev pub KeptOrOwn : Request → W → W → Bytes → Type 0
  KeptOrOwn r w w' k =
      (stored w' k ≡ stored w k)
      ⊎ ((k ≡ r.path_token)
          × (stored w' k ≡ none)
          × ((row : UrlToken) × (stored w r.path_token ≡ some row)
              × Bears r w (slice_bytes row.owner_id)))

  after_delete_user-rows :
      (r : Request) (u : Option Bytes) (uid : Bytes) (w : W) (k : Bytes)
      → u ≡ some uid
      → RowKeptOrOwn shortener stored cached env_laws repo_laws cache_laws r.path_token uid w
          (world_of (after_delete_user api r u w))
          k
  unfolding after_delete_user
  after_delete_user-rows r none uid w k h = cc
  after_delete_user-rows r (some v) uid w k h =
      let same : v ≡ uid = ground arith in
      rw same (
        delete_token_rows shortener stored cached env_laws repo_laws cache_laws r.path_token uid w
          k)

  delete-rows :
      (r : Request) (uid : Bytes) (w : W) (k : Bytes)
      → RowKeptOrOwn shortener stored cached env_laws repo_laws cache_laws r.path_token uid w
          (world_of (handle_delete_token api (record r { ctx = context_with_user_id r.ctx uid }) w))
          k
  unfolding handle_delete_token
  delete-rows r uid w k = elim (Bool-cases (r.path_token =b= [])) [
    | inl empty ↦ rw empty (inl refl)
    | inr given ↦ rw given (
        after_delete_user-rows (record r { ctx = context_with_user_id r.ctx uid }) _ uid w k
          (user_id-with_user r uid))
  ]

  -- The rows that a deletion in the world `b` of an authenticated request leaves.
  admitted-rows :
      (r : Request) (token uid : Bytes) (w w' : W) (k : Bytes)
      → token_from_header r.authorization ≡ found token
      → (authenticate auth token w).0 ≡ returned (ok uid)
      → RowKeptOrOwn shortener stored cached env_laws repo_laws cache_laws r.path_token uid
          (authenticate auth token w).1
          w'
          k
      → KeptOrOwn r w w' k
  admitted-rows r token uid w w' k header known (inl same) =
      inl (same ∙ authenticate-rows token w k)
  admitted-rows r token uid w w' k header known (inr (here, gone, (row, was, own))) = inr (
    here,
    gone,
    (
      row,
      sym (authenticate-rows token w r.path_token) ∙ was,
      subst (Bears r w) (sym own) (record {
        token = token;
        header = header;
        authentic = authenticate-IsAuthentic auth token uid w known;
      }),
    ),
  )

  with_user-rows :
      (r : Request) (token : Bytes) (w : W) (o : Outcome Bytes) (k : Bytes)
      → token_from_header r.authorization ≡ found token
      → (authenticate auth token w).0 ≡ o
      → KeptOrOwn r w
          (world_of (with_user sv auth (handle_delete_token api) r o (authenticate auth token w).1))
          k
  unfolding with_user
  with_user-rows r token w (returned (ok uid)) k header known =
      let b = (authenticate auth token w).1 in
      let x = handle_delete_token api (record r { ctx = context_with_user_id r.ctx uid }) b in
      admitted-rows r token uid w (world_of (keep_request sv r [] x)) k header known (
        subst
          (λ v.
            RowKeptOrOwn shortener stored cached env_laws repo_laws cache_laws r.path_token uid b v
              k)
          (sym (world_of-keep_request sv r [] x)) (delete-rows r uid b k))
  with_user-rows r token w (returned (err e)) k header known =
      elim (Bool-cases (errors_is (some e) invalid_auth_token)) [
        | inl invalid ↦ rw invalid (inl (authenticate-rows token w k))
        | inr other ↦ rw other (inl (authenticate-rows token w k))
      ]
  with_user-rows r token w panicked k header known = inl (authenticate-rows token w k)

  with_header-rows :
      (r : Request) (t : HeaderToken) (w : W) (k : Bytes)
      → token_from_header r.authorization ≡ t
      → KeptOrOwn r w (world_of (with_header sv auth (handle_delete_token api) r t w)) k
  unfolding with_header
  with_header-rows r (malformed text) w k h = inl refl
  with_header-rows r (found token) w k h = with_user-rows r token w _ k h refl

  -- Where the dependencies keep their promises and the clock leaves the rows alone: the route that
  -- deletes a token leaves every row as it was, but for the row of the token in the path, which goes
  -- only where the header bears a token that authenticates the owner of that row (a nil owner counts
  -- as the empty user ID).
  pub delete_own-rows :
      (r : Request) (w : W) (k : Bytes)
      → KeptOrOwn r w (world_of (handler_of sv api mux delete_own r w)) k
  unfolding handler_of requires_auth_middleware
  delete_own-rows r w k = with_header-rows r (token_from_header r.authorization) w k refl
