-- ===== src/Auth/Jwt.antt =====
-- internal/services/auth/jwt.go.
use pet_urls.Prelude.{
  ℕ, zero, suc, Bytes, Bool, true, false, not, Option, none, some, [], ◌∷◌, ◌==◌, ◌&&◌,
  if◌then◌else◌,
}
use pet_urls.Prelude.Int.{ℤ}
use pet_urls.Errors.{plain, Result, ok, err}
use pet_urls.Strings.Utf8.{decode, rune_error}
use pet_urls.Auth.Types.{Claims, JwtLib}

pub record JwtClaims : Type 0 where
  pub user_id : Bytes
  pub expires_at : ℤ

-- What a call returns, or a panic at the dereference of a nil pointer.
pub data Outcome (A : Type 0) : Type 0 where
  returned : Result A → Outcome A
  panicked : Outcome A

-- `utf8.ValidString`: no byte starts an invalid encoding. A decoded U+FFFD takes two further bytes.
unfoldable pub valid_after : ℕ → Bytes → Bool
unfolding decode
valid_after skip [] = true
valid_after (suc skip) (b ∷ s) = valid_after skip s
valid_after zero (b ∷ s) =
    let (r, more) = decode b s in
    let rest = valid_after more s in if (r == rune_error) && (more == 0) then false else rest

unfoldable pub valid_string : Bytes → Bool
unfolding valid_after
valid_string s = valid_after 0 s

module _ (jwt : JwtLib) where
  unfoldable pub generate_jwt : JwtClaims → Bytes → Result Bytes
  generate_jwt claims key =
      if not (valid_string claims.user_id)
      then err (plain "generateJWT: UserID must be a valid utf-8 string")
      else jwt.sign claims.user_id (jwt.numeric_date claims.expires_at) key

  -- `exp.Time` on the result of GetExpirationTime.
  unfoldable pub with_expiry : Bytes → Result (Option ℤ) → Outcome JwtClaims
  with_expiry user_id (err e) = returned (err e)
  with_expiry user_id (ok none) = panicked
  with_expiry user_id (ok (some exp)) =
      returned (ok (record { user_id = user_id; expires_at = exp }))

  unfoldable pub with_subject : Claims → Result Bytes → Outcome JwtClaims
  unfolding with_expiry
  with_subject claims (err e) = returned (err e)
  with_subject claims (ok user_id) = with_expiry user_id claims.expiration_time

  unfoldable pub claims_of : Result Claims → Outcome JwtClaims
  unfolding with_subject
  claims_of (err e) = returned (err e)
  claims_of (ok claims) = with_subject claims claims.subject

  unfoldable pub parse_jwt : Bytes → Bytes → Outcome JwtClaims
  unfolding claims_of
  parse_jwt candidate key = claims_of (jwt.parse candidate key)
