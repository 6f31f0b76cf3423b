-- ===== src/Http/Api/Cookies.antt =====
-- The refresh token in its cookie.
use pet_urls.Prelude.{◌≡◌, Bytes, codes, ◌++◌, All, IsByte}
use pet_urls.Errors.{ok}
use pet_urls.Base64.Padded.RoundTrip.{decode_padded-encode_padded}
use pet_urls.Base64.Padded.Alphabet.{IsCookieOctet, encode_padded-IsCookieOctet}
use pet_urls.Http.Middleware.{Request}
use pet_urls.Http.Api.{Api, refresh_token_cookie, get_refresh_token_from_cookie}

module _ {W : Type 0} (s : Api W) where
  -- A refresh token that consists of bytes comes back from the cookie that was set for it: a client
  -- that sends a cookie back, under the name that it was set under, where the value has no octet that
  -- a cookie cannot have and the path of the request is below that of the cookie, gives the handlers
  -- that token with each request below /api/v1/auth/.
  pub get_refresh_token-refresh_token_cookie :
      (token rest : Bytes) (r : Request)
      → All IsByte token
      → r.path ≡ codes "/api/v1/auth/" ++ rest
      → (All IsCookieOctet (refresh_token_cookie s token).value
          → (below : Bytes) → r.path ≡ (refresh_token_cookie s token).path ++ codes "/" ++ below
          → r.cookie (refresh_token_cookie s token).name ≡ ok (refresh_token_cookie s token).value)
      → get_refresh_token_from_cookie r ≡ ok token
  unfolding get_refresh_token_from_cookie
  get_refresh_token-refresh_token_cookie token rest r bytes here sent = rw (
    sent (encode_padded-IsCookieOctet token bytes) rest here,
    decode_padded-encode_padded token bytes,
  )
