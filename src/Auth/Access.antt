-- ===== src/Auth/Access.antt =====
-- Access tokens: who is authenticated, and with what token.
use pet_urls.Prelude.{
  ℕ, ◌<◌, ◌*◌, ◌^◌, ◌≡◌, refl, ◌∙◌, ap, Bytes, true, false, Option, none, some, arith, All, IsByte,
}
use mathlib.Core.Path.{subst}
use pet_urls.Prelude.Int.{pos, ◌+ℤ◌, ◌≤ℤ◌, ltb_ℤ}
use pet_urls.Errors.{GoError, ok, err, errors_is, invalid_auth_token}
use pet_urls.Base64.{decode}
use pet_urls.Base64.RoundTrip.{decode-encode}
use pet_urls.Auth.Types.{second, Auth}
use pet_urls.Auth.Jwt.{
  JwtClaims, Outcome, returned, panicked, valid_string, generate_jwt, parse_jwt,
}
use pet_urls.Auth.Service.{to_base64, issue_access_token, after_claims, authenticate, decoded}

module _ {W : Type 0} (a : Auth W) where
  open a use {env, jwt, key, settings}

  -- What an authentication of the user `uid` rests on.
  pub record IsAuthentic (candidate : Bytes) (w : W) (uid : Bytes) : Type 0 where
    pub claims : JwtClaims
    pub parsed : parse_jwt jwt candidate key ≡ returned (ok claims)
    pub live : (env.now w).0 ≤ℤ claims.expires_at
    pub subject : decode claims.user_id ≡ some uid

  decoded_ok : (o : Option Bytes) (uid : Bytes) → decoded o ≡ ok uid → o ≡ some uid
  decoded_ok none uid h = cc
  decoded_ok (some u) uid h = cc

  after_claims_ok :
      (c : Outcome JwtClaims) (uid : Bytes) (w : W)
      → (after_claims a c w).0 ≡ returned (ok uid)
      → (j : JwtClaims) × (c ≡ returned (ok j))
        × ((env.now w).0 ≤ℤ j.expires_at)
        × (decode j.user_id ≡ some uid)
  unfolding after_claims
  after_claims_ok panicked uid w h = cc
  after_claims_ok (returned (err e)) uid w h = cc
  after_claims_ok (returned (ok j)) uid w h = (j, refl, ground arith, ground arith)

  -- A user is authenticated only by a token whose signature was verified with the service's key, whose
  -- expiry had not passed when the clock was read, and whose subject decodes to that user.
  pub authenticate-IsAuthentic :
      (candidate uid : Bytes) (w : W)
      → (authenticate a candidate w).0 ≡ returned (ok uid)
      → IsAuthentic candidate w uid
  unfolding authenticate
  authenticate-IsAuthentic candidate uid w h =
      let (j, parsed, live, subject) = after_claims_ok _ uid w h in
      record { claims = j; parsed = parsed; live = live; subject = subject }

  after_claims_error :
      (c : Outcome JwtClaims) (e : GoError) (w : W)
      → (after_claims a c w).0 ≡ returned (err e)
      → errors_is (some e) invalid_auth_token ≡ true
  unfolding after_claims errors_is
  after_claims_error panicked e w h = cc
  after_claims_error (returned (err f)) e w h = ground arith
  after_claims_error (returned (ok j)) e w h = ground arith

  -- An authentication that fails without a panic always reports ErrInvalidToken.
  pub authenticate_error :
      (candidate : Bytes) (e : GoError) (w : W)
      → (authenticate a candidate w).0 ≡ returned (err e)
      → errors_is (some e) invalid_auth_token ≡ true
  unfolding authenticate
  authenticate_error candidate e w = after_claims_error (parse_jwt jwt candidate key) e w

  signed_of_issued :
      (uid tok : Bytes) (w : W)
      → (issue_access_token a uid w).0 ≡ ok tok
      → (valid_string (to_base64 uid) ≡ true)
        × (jwt.sign
              (to_base64 uid)
              (jwt.numeric_date ((env.now w).0 +ℤ settings.access_token_ttl))
              key
            ≡ ok tok)
  unfolding issue_access_token generate_jwt
  signed_of_issued uid tok w h = (ground arith, ground arith)

  after_claims_live :
      (j : JwtClaims) (w : W)
      → (env.now w).0 ≤ℤ j.expires_at
      → (after_claims a (returned (ok j)) w).0 ≡ returned (decoded (decode j.user_id))
  unfolding after_claims
  after_claims_live j w live =
      let on_time : ltb_ℤ j.expires_at (env.now w).0 ≡ false = ground arith in rw on_time

  -- What the service relies on of golang-jwt: a token that it signed for a subject in UTF-8 and a whole
  -- number of seconds after 1970, of at most 33 bits, is verified with the same key, and carries that
  -- subject and that expiry.
  abbrev pub VerifiesSigned : Type 0
  VerifiesSigned =
      (sub tok : Bytes) (s : ℕ)
      → valid_string sub ≡ true
      → 0 < s
      → s < 2 ^ 33
      → jwt.sign sub (pos (s * second)) key ≡ ok tok
      → jwt.parse tok key
        ≡ ok (record { subject = ok sub; expiration_time = ok (some (pos (s * second))) })

  -- Where golang-jwt verifies what it signed, and cuts the expiry to a whole number of seconds after
  -- 1970 and of at most 33 bits, an access token that was issued for a user (whose ID consists of
  -- bytes) authenticates that user as long as the clock has not passed that second.
  pub authenticate-issue_access_token :
      (uid tok : Bytes) (w w' : W) (s : ℕ)
      → All IsByte uid
      → VerifiesSigned
      → jwt.numeric_date ((env.now w).0 +ℤ settings.access_token_ttl) ≡ pos (s * second)
      → 0 < s
      → s < 2 ^ 33
      → (issue_access_token a uid w).0 ≡ ok tok
      → (env.now w').0 ≤ℤ pos (s * second)
      → (authenticate a tok w').0 ≡ returned (ok uid)
  unfolding authenticate parse_jwt
  authenticate-issue_access_token uid tok w w' s bytes verifies whole after before issued live =
      let (valid, signed) = signed_of_issued uid tok w issued in
      let parsed =
        verifies (to_base64 uid) tok s valid after before
          (subst (λ x. jwt.sign (to_base64 uid) x key ≡ ok tok) whole signed) in
      rw parsed
        (after_claims_live _ w' live ∙ ap (λ o. returned (decoded o)) (decode-encode uid bytes))
