-- ===== src/Http/Routes/Creation.antt =====
-- Who may create a token through the routes: the guard, the handler and the shortener together.
use pet_urls.Prelude.{
  ◌≡◌, ◌≢◌, refl, sym, ◌∙◌, Bytes, Bool, true, false, Option, none, some, List, [], arith, inl, inr,
  Bool-cases, if◌then◌else◌,
}
use mathlib.Core.Path.{subst}
use pet_urls.Errors.{
  GoError, Result, ok, err, errors_is, invalid_auth_token, invalid_url, invalid_url_token,
  token_is_not_unique,
}
use pet_urls.Context.{context_with_user_id, user_id_from_context}
use pet_urls.Shortener.Types.{UrlToken}
use pet_urls.Shortener.Service.{create_token_with_owner}
use pet_urls.Shortener.Interface.{EnvLaws, RepositoryLaws, CacheLaws}
use pet_urls.Shortener.Owned.{IsOwned, create_token_with_owner-IsOwned}
use pet_urls.Auth.Jwt.{Outcome, returned, panicked}
use pet_urls.Auth.Service.{authenticate}
use pet_urls.Auth.Access.{IsAuthentic, authenticate-IsAuthentic}
use pet_urls.Http.Writer.{Operation}
use pet_urls.Http.Writer.StatusFirst.{status_of}
use pet_urls.Http.Middleware.{Request, Served, served, stuck, exited, Server, keep_request}
use pet_urls.Http.Middleware.Guard.{
  HeaderToken, found, malformed, token_from_header, with_user, with_header,
  requires_auth_middleware,
}
use pet_urls.Http.Api.{
  Api, TokenRequest, invalid_parameter, internal_error, read_body_as_json, write_error,
  write_response_as_json,
}
use pet_urls.Http.Handlers.Tokens.{
  input_of, created_answer, after_create_user, after_create_body, handle_create_token_with_owner,
}
use pet_urls.Http.Routes.{create_own, Mux, handler_of}

status_of-if :
    (b : Bool) (xs ys : List Operation)
    → status_of xs ≢ 201
    → status_of ys ≢ 201
    → status_of (if b then xs else ys) ≢ 201
status_of-if true xs ys p q = p
status_of-if false xs ys p q = q

module _ {W : Type 0} (api : Api W) where
  open api use {libs}

  invalid_status : (text : _) → status_of (write_error libs invalid_parameter text) ≢ 201
  unfolding write_error write_response_as_json
  invalid_status text = omega arith

  internal_status : (text : _) → status_of (write_error libs internal_error text) ≢ 201
  unfolding write_error write_response_as_json
  internal_status text = omega arith

  failed_status : (o : UrlToken) (e : GoError) → status_of (created_answer api (o, some e)) ≢ 201
  unfolding created_answer
  failed_status o e = status_of-if (errors_is (some e) invalid_url) _ _ (invalid_status _) (
      status_of-if (errors_is (some e) invalid_url_token) _ _ (invalid_status _) (
        status_of-if (errors_is (some e) token_is_not_unique) _ _ (invalid_status _)
          (internal_status _)))

  created_status :
      (out : UrlToken × Option GoError) → status_of (created_answer api out) ≡ 201 → out.1 ≡ none
  created_status (o, none) h = refl
  created_status (o, some e) h = absurd (failed_status o e h)

module _ {W : Type 0} (sv : Server W) (api : Api W) (mux : Mux W)
    (stored : W → Bytes → Option UrlToken) (cached : W → Bytes → Option Bytes)
    (env_laws : EnvLaws stored cached api.shortener.env)
    (repo_laws : RepositoryLaws stored cached api.shortener.repo)
    (cache_laws : CacheLaws stored cached api.shortener.cache) where
  open api use {libs, shortener, auth}

  -- What the route that creates a token has done where it answers with 201.
  pub record IsCreated (r : Request) (w v : W) : Type 0 where
    pub bearer : Bytes
    pub user_id : Bytes
    pub header : token_from_header r.authorization ≡ found bearer
    pub authentic : IsAuthentic auth bearer w user_id
    pub request : TokenRequest
    pub decoded : read_body_as_json libs.decode_token_request r ≡ ok request
    pub row : UrlToken
    pub made :
        IsOwned shortener stored cached env_laws repo_laws cache_laws
          (input_of api request user_id)
          (authenticate auth bearer w).1
          row
          v
    pub owner : row.owner_id ≡ some user_id

  -- The same of the handler alone, for the user `uid`.
  record IsMade (r : Request) (uid : Bytes) (b v : W) : Type 0 where
    request : TokenRequest
    decoded : read_body_as_json libs.decode_token_request r ≡ ok request
    row : UrlToken
    made :
        IsOwned shortener stored cached env_laws repo_laws cache_laws
          (input_of api request uid)
          b
          row
          v
    owner : row.owner_id ≡ some uid

  -- A response with 201 comes only with `P` of the world that it leaves.
  abbrev Only : (W → Type 0) → Served W → Type 0
  Only P (served q ops v) = status_of ops ≡ 201 → P v
  Only P (stuck v) = Unit
  Only P (exited v) = Unit

  Only-keep_request :
      (P : W → Type 0) (r : Request) (x : Served W) → Only P x → Only P (keep_request sv r [] x)
  Only-keep_request P r (served q ops v) h = h
  Only-keep_request P r (stuck v) h = h
  Only-keep_request P r (exited v) h = h

  Only-map : (P Q : W → Type 0) (x : Served W) → ((v : W) → P v → Q v) → Only P x → Only Q x
  Only-map P Q (served q ops v) f h = λ s. f v (h s)
  Only-map P Q (stuck v) f h = h
  Only-map P Q (exited v) f h = h

  after_create_user-Only :
      (r s : Request) (q : TokenRequest) (u : Option Bytes) (uid : Bytes) (b : W)
      → read_body_as_json libs.decode_token_request r ≡ ok q
      → u ≡ some uid
      → Only (IsMade r uid b) (after_create_user api s q u b)
  unfolding after_create_user
  after_create_user-Only r s q none uid b body user = cc
  after_create_user-Only r s q (some v) uid b body user = λ status.
      let same : v ≡ uid = ground arith in
      let done =
        created_status api (create_token_with_owner shortener (input_of api q v) b).0 status in
      let made =
        create_token_with_owner-IsOwned shortener stored cached env_laws repo_laws cache_laws
          (input_of api q v) b done in
      subst (λ x. IsMade r x b (create_token_with_owner shortener (input_of api q v) b).1) same
        (record {
          request = q;
          decoded = body;
          row = (create_token_with_owner shortener (input_of api q v) b).0.0;
          made = made;
          owner = made.kept ∙ sym made.given;
        })

  after_create_body-Only :
      (r s : Request) (x : Result TokenRequest) (uid : Bytes) (b : W)
      → read_body_as_json libs.decode_token_request r ≡ x
      → user_id_from_context s.ctx ≡ some uid
      → Only (IsMade r uid b) (after_create_body api s x b)
  unfolding after_create_body write_error write_response_as_json
  after_create_body-Only r s (err e) uid b body user = λ status. absurd (omega arith)
  after_create_body-Only r s (ok q) uid b body user =
      after_create_user-Only r s q (user_id_from_context s.ctx) uid b body user

  handle-Only :
      (r : Request) (uid : Bytes) (b : W)
      → Only
          (IsMade r uid b)
          (handle_create_token_with_owner api (record r { ctx = context_with_user_id r.ctx uid }) b)
  unfolding handle_create_token_with_owner read_body_as_json context_with_user_id
      user_id_from_context
  handle-Only r uid b =
      after_create_body-Only r (record r { ctx = context_with_user_id r.ctx uid })
        (read_body_as_json libs.decode_token_request r) uid b refl refl

  with_user-Only :
      (r : Request) (token : Bytes) (w : W) (o : Outcome Bytes)
      → token_from_header r.authorization ≡ found token
      → (authenticate auth token w).0 ≡ o
      → Only
          (IsCreated r w)
          (with_user sv auth (handle_create_token_with_owner api) r o (authenticate auth token w).1)
  unfolding with_user
  with_user-Only r token w (returned (ok uid)) header known =
      let b = (authenticate auth token w).1 in
      let x =
        handle_create_token_with_owner api (record r { ctx = context_with_user_id r.ctx uid }) b in
      Only-keep_request (IsCreated r w) r x (
        Only-map (IsMade r uid b) (IsCreated r w) x
          (λ v m. record {
            bearer = token;
            user_id = uid;
            header = header;
            authentic = authenticate-IsAuthentic auth token uid w known;
            request = m.request;
            decoded = m.decoded;
            row = m.row;
            made = m.made;
            owner = m.owner;
          })
          (handle-Only r uid b))
  with_user-Only r token w (returned (err e)) header known =
      elim (Bool-cases (errors_is (some e) invalid_auth_token)) [
        | inl invalid ↦ rw invalid (λ status. absurd (omega arith))
        | inr other ↦ rw other (λ status. absurd (omega arith))
      ]
  with_user-Only r token w panicked header known = tt

  with_header-Only :
      (r : Request) (t : HeaderToken) (w : W)
      → token_from_header r.authorization ≡ t
      → Only (IsCreated r w) (with_header sv auth (handle_create_token_with_owner api) r t w)
  unfolding with_header
  with_header-Only r (malformed text) w h = λ status. absurd (omega arith)
  with_header-Only r (found token) w h = with_user-Only r token w _ h refl

  -- Where the dependencies keep their promises: the route that creates a token answers with 201 only
  -- to a request whose header bears a token that authenticates a user and whose body decodes to a
  -- request; then it has stored exactly one row, under a name that was free, as that request says
  -- (its expiry to the microsecond), and the row belongs to that user.
  pub create_own-IsCreated :
      (r q : Request) (w v : W) (ops : List Operation)
      → handler_of sv api mux create_own r w ≡ served q ops v
      → status_of ops ≡ 201
      → IsCreated r w v
  unfolding handler_of requires_auth_middleware
  create_own-IsCreated r q w v ops answered status =
      subst (Only (IsCreated r w)) answered
        (with_header-Only r (token_from_header r.authorization) w refl) status
