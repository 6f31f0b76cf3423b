-- ===== src/Postgres/Errors.antt =====
-- The error tests of internal/db/postgres/postgres.go.
use pet_urls.Prelude.{◌≡◌, refl, Bool, true, false, Option, some}
use pet_urls.Errors.{
  GoError, sentinel, plain, wrap, not_unique, not_found, pg_error, PgCode, serialization_failure,
  deadlock_detected, unique_violation, pg_code?, no_rows, chain_is,
}

abbrev is_retryable_code : Option PgCode → Bool
is_retryable_code (some serialization_failure) = true
is_retryable_code (some deadlock_detected) = true
is_retryable_code _ = false

unfoldable pub is_retryable_error : GoError → Bool
unfolding pg_code?
is_retryable_error e = is_retryable_code (pg_code? e)

abbrev is_unique_code : Option PgCode → Bool
is_unique_code (some unique_violation) = true
is_unique_code _ = false

-- `isNotUniqueError` of this package; nil is no such error.
unfoldable pub is_unique_violation : GoError → Bool
unfolding pg_code?
is_unique_violation e = is_unique_code (pg_code? e)

-- `isNotFoundError` of this package.
unfoldable pub is_no_rows : GoError → Bool
unfolding chain_is
is_no_rows e = chain_is e no_rows

-- An error with a SQLSTATE in its chain is not pgx.ErrNoRows.
pub no_rows_of_retryable : (e : GoError) → is_retryable_error e ≡ true → is_no_rows e ≡ false
unfolding is_retryable_error is_no_rows
no_rows_of_retryable (sentinel s) h = cc
no_rows_of_retryable (plain m) h = refl
no_rows_of_retryable (wrap m e) h = no_rows_of_retryable e h
no_rows_of_retryable (not_unique e) h = no_rows_of_retryable e h
no_rows_of_retryable (not_found e) h = no_rows_of_retryable e h
no_rows_of_retryable (pg_error c) h = refl

pub is_no_rows_wrap :
    (e : GoError) → is_no_rows (wrap "operation failed after 3 attempts" e) ≡ is_no_rows e
unfolding is_no_rows
is_no_rows_wrap e = refl
