-- ===== src/Examples/Lasting.antt =====
-- The accounts over the small database: the repository and sequences of calls of the service.
use pet_urls.Prelude.{◌≡◌, ◌≢◌, refl, Bytes, codes, true, none, some, List, [], ◌∷◌, ◌=b=◌}
use pet_urls.Prelude.Int.{to_micros, pos, ◌+ℤ◌}
use pet_urls.Errors.{ok, is_not_found_error}
use pet_urls.Auth.Types.{RefreshTokenInRepo}
use pet_urls.Auth.Jwt.{generate_jwt, valid_string, parse_jwt}
use pet_urls.Auth.Accounts.{AccountLaws}
use pet_urls.Auth.Service.{
  register, login, logout, refresh, authenticate, issue_access_token, issue_refresh_token,
  after_hash, after_user, after_refresh_token, after_uuid, after_session, after_claims,
  save_user_error, password_matches_hash, health_check,
}
use pet_urls.Auth.Requests.{Request, check, registration, renewal, run, serve}
use pet_urls.Auth.Lasting.{refresh-run, login-run}
use pet_urls.Base64
use pet_urls.Postgres.Retry.{with_retry}
use pet_urls.Postgres.Errors.{is_retryable_error, is_no_rows}
use pet_urls.Postgres.AuthRepo
use pet_urls.Postgres.AuthRepo.{
  saved_user, fetched_user, saved_session, fetched_session, save_user, get_user, save_refresh_token,
  get_refresh_token, revoke_refresh_token, auth_repository,
}
use pet_urls.Postgres.AuthRepo.Promises.{auth_repository-AccountLaws}
use pet_urls.Examples.Ledger.{
  Ledger, users, sessions, calm, ledger_db, ledger_db-AccountSql, ledger_env, ledger_now,
  ledger_uuid, ledger_password, office, office_laws,
}

auth_repository-AccountLaws_example :
    AccountLaws users sessions ledger_env (auth_repository calm ledger_db)
auth_repository-AccountLaws_example =
    auth_repository-AccountLaws calm ledger_db users sessions ledger_db-AccountSql ledger_env
      ledger_now ledger_uuid ledger_password

account_steps : Unit {0}
unfolding register login logout refresh authenticate issue_access_token issue_refresh_token
    after_hash after_user after_refresh_token after_uuid after_session after_claims save_user_error
    password_matches_hash generate_jwt valid_string parse_jwt Base64.encode Base64.decode ◌=b=◌ ◌+ℤ◌
    is_not_found_error health_check serve run with_retry saved_user fetched_user saved_session
    fetched_session AuthRepo.save_user AuthRepo.get_user AuthRepo.save_refresh_token
    AuthRepo.get_refresh_token AuthRepo.revoke_refresh_token AuthRepo.health_check
    is_retryable_error is_no_rows
account_steps = tt

abbrev nobody : Ledger
nobody = record { people = λ k. none; tokens = λ k. none; clock = 5 }

abbrev anna : Bytes
anna = codes "anna"

abbrev joined : Ledger
joined = (register office anna (codes "pw") nobody).1

abbrev inside : Ledger
inside = (login office anna (codes "pw") joined).1

join_done : (register office anna (codes "pw") nobody).0 ≡ none
unfolding account_steps
join_done = refl

-- Somebody else takes the name in vain, and anna asks for a token.
abbrev day : List Request
day = check ∷ registration anna (codes "no") ∷ renewal (codes "rt") ∷ []

entered_later :
    (login office anna (codes "pw") (run office day joined)).0
    ≡ ok (codes "rt", 1 ∷ 0 ∷ codes "YW5uYQ")
unfolding account_steps
entered_later = refl

login-run_example :
    (hash : Bytes) × ((ledger_env.generate_from_password (codes "pw") nobody).0 ≡ ok hash)
    × (password_matches_hash office (codes "pw") hash ≡ true)
login-run_example =
    login-run office users sessions office_laws anna (codes "pw") (codes "pw") (codes "rt")
      (1 ∷ 0 ∷ codes "YW5uYQ") day nobody join_done entered_later

abbrev session : RefreshTokenInRepo
session = record { hash = codes "rt"; user_id = anna; expires_at = pos 1000; revoked_at = none }

session_stored : sessions inside (codes "rt") ≡ some session
unfolding account_steps to_micros
session_stored = refl

left : (logout office (codes "rt") inside).0 ≡ none
unfolding account_steps
left = refl

refresh-run_example :
    (refresh office (codes "rt") (run office day (logout office (codes "rt") inside).1)).0
    ≢ ok (codes "x")
refresh-run_example =
    refresh-run office users sessions office_laws (codes "rt") (codes "x") session day inside
      session_stored left
