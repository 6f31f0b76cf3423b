-- ===== src/Examples/Sessions.antt =====
-- The auth service's theorems over the world of Accounts.
use pet_urls.Prelude.{
  ℕ, ◌<◌, ◌*◌, ◌/◌, ◌^◌, true, ◌≡◌, refl, arith, Bytes, codes, none, some, ◌∷◌, ◌=b=◌,
}
use mathlib.Core.Path.{subst}
use pet_urls.Prelude.Int.{to_micros, pos, ◌+ℤ◌, ◌≤ℤ◌}
use pet_urls.Errors.{ok, ok-injective, is_not_found_error}
use pet_urls.Auth.Types.{second}
use pet_urls.Auth.Jwt.{returned, generate_jwt, valid_string, parse_jwt}
use pet_urls.Auth.Service.{
  register, login, logout, refresh, authenticate, issue_access_token, issue_refresh_token,
  after_hash, after_user, after_refresh_token, after_uuid, after_session, after_claims,
  save_user_error, password_matches_hash,
}
use pet_urls.Auth.Access.{authenticate-issue_access_token}
use pet_urls.Base64
use pet_urls.Examples.Accounts.{Accounts, sign_clear, parse_clear, clear, clear_jwt, desk}

abbrev pub empty_desk : Accounts
empty_desk = record { users = λ k. none; sessions = λ k. none; clock = 5 }

abbrev pub anna : Bytes
anna = codes "anna"

abbrev pub pass : Bytes
pass = codes "pw"

auth_steps : Unit {0}
unfolding register login logout refresh authenticate issue_access_token issue_refresh_token
    after_hash after_user after_refresh_token after_uuid after_session after_claims save_user_error
    password_matches_hash generate_jwt valid_string parse_jwt Base64.encode Base64.decode ◌=b=◌ ◌+ℤ◌
    is_not_found_error to_micros
auth_steps = tt

abbrev pub registered : Accounts
registered = (register desk anna pass empty_desk).1

abbrev entered : Accounts
entered = (login desk anna pass registered).1

abbrev access_token : Bytes
access_token = 1 ∷ 10 ∷ codes "YW5uYQ"

logged_in : (login desk anna pass registered).0 ≡ ok (codes "rt", access_token)
unfolding auth_steps
logged_in = refl

register-none : (register desk anna pass empty_desk).0 ≡ none
unfolding auth_steps
register-none = refl

refreshed : (refresh desk (codes "rt") entered).0 ≡ ok (1 ∷ 10 ∷ codes "YW5uYQ")
unfolding auth_steps
refreshed = refl

recognized : (authenticate desk access_token entered).0 ≡ returned (ok anna)
unfolding auth_steps
recognized = refl

issued_again : (issue_access_token desk anna entered).0 ≡ ok (1 ∷ 10 ∷ codes "YW5uYQ")
unfolding auth_steps
issued_again = refl

seconds_back : (s : ℕ) → s * second / second ≡ s
seconds_back s = omega arith

clear_verifies :
    (sub tok : Bytes) (s : ℕ)
    → valid_string sub ≡ true
    → 0 < s
    → s < 2 ^ 33
    → sign_clear sub (pos (s * second)) (codes "k") ≡ ok tok
    → parse_clear tok (codes "k")
      ≡ ok (record { subject = ok sub; expiration_time = ok (some (pos (s * second))) })
clear_verifies sub tok s valid after before h =
    subst
      (λ t.
        parse_clear t (codes "k")
        ≡ ok (record { subject = ok sub; expiration_time = ok (some (pos (s * second))) }))
      (ok-injective h) (rw (seconds_back s) refl)

whole : clear_jwt.numeric_date ((clear.now entered).0 +ℤ pos (10 * second)) ≡ pos (10 * second)
unfolding auth_steps
whole = refl

in_time : (clear.now entered).0 ≤ℤ pos (10 * second)
unfolding auth_steps
in_time = omega arith

authenticate-issue_access_token_example :
    (authenticate desk (1 ∷ 10 ∷ codes "YW5uYQ") entered).0 ≡ returned (ok anna)
authenticate-issue_access_token_example =
    authenticate-issue_access_token desk anna (1 ∷ 10 ∷ codes "YW5uYQ") entered entered 10
      (omega arith, (omega arith, (omega arith, (omega arith, tt)))) clear_verifies whole
      (omega arith) (omega arith) issued_again in_time
