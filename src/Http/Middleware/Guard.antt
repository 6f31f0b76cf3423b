-- ===== src/Http/Middleware/Guard.antt =====
-- `requiresAuthMiddleware` and `tokenFromHeader` of internal/transport/http/middleware.go, over the
-- auth service of internal/services/auth.
use pet_urls.Prelude.{◌≡◌, ◌≢◌, refl, ap, Bytes, codes, not, some, [], ◌=b=◌, if◌then◌else◌, String}
use pet_urls.Errors.{ok, err, errors_is, invalid_auth_token}
use pet_urls.Strings.{has_prefix, trim_prefix}
use pet_urls.Context.{context_with_user_id}
use pet_urls.Auth.Types.{Auth}
use pet_urls.Auth.Jwt.{Outcome, returned, panicked}
use pet_urls.Auth.Service.{authenticate}
use pet_urls.Auth.Access.{authenticate_error}
use pet_urls.Http.Middleware.{
  Request, Served, served, exited, Handler, Server, keep_request, http_error,
}

-- What `tokenFromHeader` returns: a token, or an error with its text.
pub data HeaderToken : Type 0 where
  found : Bytes → HeaderToken
  malformed : String → HeaderToken

unfoldable pub token_from_header : Bytes → HeaderToken
unfolding ◌=b=◌ has_prefix trim_prefix
token_from_header auth_header =
    if auth_header =b= []
    then malformed "authorization header required"
    else if not (has_prefix auth_header (codes "Bearer "))
    then malformed "bearer schema required"
    else if trim_prefix auth_header (codes "Bearer ") =b= []
    then malformed "token is empty"
    else found (trim_prefix auth_header (codes "Bearer "))

module _ {W : Type 0} (s : Server W) (a : Auth W) where
  -- A panic ends the process: the handler runs in the goroutine of the timeout middleware, where
  -- nothing recovers it.
  unfoldable pub with_user : Handler W → Request → Outcome Bytes → W → Served W
  with_user next r (returned (ok user_id)) w =
      keep_request s r [] (next (record r { ctx = context_with_user_id r.ctx user_id }) w)
  with_user next r (returned (err e)) w =
      if errors_is (some e) invalid_auth_token
      then served r (http_error "Invalid token" 401) w
      else served r (http_error "internal" 500) w
  with_user next r panicked w = exited w

  unfoldable pub with_header : Handler W → Request → HeaderToken → W → Served W
  unfolding with_user
  with_header next r (malformed text) w = served r (http_error text 401) w
  with_header next r (found token) w =
      let (outcome, w') = authenticate a token w in with_user next r outcome w'

  unfoldable pub requires_auth_middleware : Handler W → Handler W
  unfolding with_header token_from_header
  requires_auth_middleware next r w = with_header next r (token_from_header r.authorization) w

  -- How a guarded request ends, by what the header and the auth service say of it.
  pub data Guarded (next : Handler W) (r : Request) (w : W) : Served W → Type 0 where
    admitted :
        (token user_id : Bytes)
        → token_from_header r.authorization ≡ found token
        → (authenticate a token w).0 ≡ returned (ok user_id)
        → Guarded next r w (
            keep_request s r [] (
              next
                (record r { ctx = context_with_user_id r.ctx user_id })
                (authenticate a token w).1))
    rejected :
        (text : String) (w' : W)
        → ((token user_id : Bytes)
            → token_from_header r.authorization ≡ found token
            → (authenticate a token w).0 ≢ returned (ok user_id))
        → Guarded next r w (served r (http_error text 401) w')
    crashed :
        (token : Bytes)
        → token_from_header r.authorization ≡ found token
        → (authenticate a token w).0 ≡ panicked
        → Guarded next r w (exited (authenticate a token w).1)

  with_user-Guarded :
      (next : Handler W) (r : Request) (token : Bytes) (w : W) (o : Outcome Bytes)
      → token_from_header r.authorization ≡ found token
      → (authenticate a token w).0 ≡ o
      → Guarded next r w (with_user next r o (authenticate a token w).1)
  unfolding with_user
  with_user-Guarded next r token w (returned (ok user_id)) h k = admitted token user_id h k
  with_user-Guarded next r token w (returned (err e)) h k = rw (authenticate_error a token e w k) (
      rejected "Invalid token" (authenticate a token w).1 (λ t u h' k'.
        let same : t ≡ token = cc (h, h') in cc (ap (λ x. (authenticate a x w).0) same, k, k')))
  with_user-Guarded next r token w panicked h k = crashed token h k

  with_header-Guarded :
      (next : Handler W) (r : Request) (w : W) (t : HeaderToken)
      → token_from_header r.authorization ≡ t
      → Guarded next r w (with_header next r t w)
  unfolding with_header
  with_header-Guarded next r w (malformed text) h = rejected text w (λ t u h' k. cc (h, h'))
  with_header-Guarded next r w (found token) h =
      with_user-Guarded next r token w (authenticate a token w).0 h refl

  -- A guarded handler runs only for a request whose header has a bearer token that the auth service
  -- authenticates, and then with the ID of that user in its context; any other request is answered
  -- with 401 or, where the auth service panics, ends the process. The answer 500 is never given.
  pub requires_auth_middleware-Guarded :
      (next : Handler W) (r : Request) (w : W)
      → Guarded next r w (requires_auth_middleware next r w)
  unfolding requires_auth_middleware
  requires_auth_middleware-Guarded next r w =
      with_header-Guarded next r w (token_from_header r.authorization) refl
