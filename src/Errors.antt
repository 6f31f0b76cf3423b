-- ===== src/Errors.antt =====
-- Go error values as the program builds and inspects them: `errors.New`, `fmt.Errorf` with %w, the
-- two error types of internal/db/postgres, and `errors.Is` and `errors.As` over the Unwrap chain.
use pet_urls.Prelude.{
  ◌≡◌, refl, ◌⊎◌, inl, inr, ℕ, Bool, true, false, Option, none, some, String, ◌==◌,
}

-- Errors that are compared by identity.
pub data Sentinel : Type 0 where
  -- internal/services/shortener/shortener.go
  invalid_url empty_owner token_expired token_does_not_exist token_is_not_unique : Sentinel
  invalid_url_token not_token_owner : Sentinel
  -- internal/services/auth/auth.go
  invalid_login invalid_password login_not_unique invalid_credentials : Sentinel
  invalid_auth_token : Sentinel
  -- pgx.ErrNoRows, redis.Nil, http.ErrNoCookie, migrate.ErrNoChange
  no_rows redis_nil no_cookie no_change : Sentinel

-- SQLSTATE of a *pgconn.PgError, as far as pgerrcode's constants are tested.
pub data PgCode : Type 0 where
  serialization_failure deadlock_detected unique_violation : PgCode
  other_code : ℕ → PgCode

pub data GoError : Type 0 where
  sentinel : Sentinel → GoError
  -- errors.New or fmt.Errorf with no %w, and foreign errors with nothing that the code looks for
  plain : String → GoError
  -- fmt.Errorf with %w
  wrap : String → GoError → GoError
  -- notUniqueError and notFoundError of internal/db/postgres
  not_unique not_found : GoError → GoError
  pg_error : PgCode → GoError

pub data Result (A : Type 0) : Type 0 where
  ok : A → Result A
  err : GoError → Result A

abbrev index : Sentinel → ℕ
index invalid_url = 0
index empty_owner = 1
index token_expired = 2
index token_does_not_exist = 3
index token_is_not_unique = 4
index invalid_url_token = 5
index not_token_owner = 6
index invalid_login = 7
index invalid_password = 8
index login_not_unique = 9
index invalid_credentials = 10
index invalid_auth_token = 11
index no_rows = 12
index redis_nil = 13
index no_cookie = 14
index no_change = 15

-- `==` on two sentinels.
unfoldable pub same_sentinel : Sentinel → Sentinel → Bool
same_sentinel s t = index s == index t

-- `errors.Is(err, target)` on a non-nil error.
unfoldable pub chain_is : GoError → Sentinel → Bool
unfolding same_sentinel
chain_is (sentinel s) t = same_sentinel s t
chain_is (plain m) t = false
chain_is (wrap m e) t = chain_is e t
chain_is (not_unique e) t = chain_is e t
chain_is (not_found e) t = chain_is e t
chain_is (pg_error c) t = false

unfoldable pub errors_is : Option GoError → Sentinel → Bool
unfolding chain_is
errors_is none t = false
errors_is (some e) t = chain_is e t

-- `errors.Is` finds the same in both errors.
abbrev pub Tells : GoError → GoError → Type 0
Tells x e = (s : Sentinel) → errors_is (some e) s ≡ errors_is (some x) s

-- `errors.Is` finds nothing in the error.
abbrev pub Hides : GoError → Type 0
Hides e = (s : Sentinel) → errors_is (some e) s ≡ false

-- `errors.As` into an interface with `NotUnique() bool`, and the call of that method.
unfoldable pub chain_not_unique : GoError → Bool
chain_not_unique (sentinel s) = false
chain_not_unique (plain m) = false
chain_not_unique (wrap m e) = chain_not_unique e
chain_not_unique (not_unique e) = true
chain_not_unique (not_found e) = chain_not_unique e
chain_not_unique (pg_error c) = false

unfoldable pub is_not_unique_error : Option GoError → Bool
unfolding chain_not_unique
is_not_unique_error none = false
is_not_unique_error (some e) = chain_not_unique e

unfoldable pub chain_not_found : GoError → Bool
chain_not_found (sentinel s) = false
chain_not_found (plain m) = false
chain_not_found (wrap m e) = chain_not_found e
chain_not_found (not_unique e) = chain_not_found e
chain_not_found (not_found e) = true
chain_not_found (pg_error c) = false

unfoldable pub is_not_found_error : Option GoError → Bool
unfolding chain_not_found
is_not_found_error none = false
is_not_found_error (some e) = chain_not_found e

-- `errors.As` into *pgconn.PgError.
unfoldable pub pg_code? : GoError → Option PgCode
pg_code? (sentinel s) = none
pg_code? (plain m) = none
pg_code? (wrap m e) = pg_code? e
pg_code? (not_unique e) = pg_code? e
pg_code? (not_found e) = pg_code? e
pg_code? (pg_error c) = some c

abbrev pub error_of : {A : Type 0} → Result A → Option GoError
error_of (ok a) = none
error_of (err e) = some e

-- `fmt.Errorf("...: %w", err)` on an error that may be nil, where nil stays nil.
abbrev pub wrap_option : String → Option GoError → Option GoError
wrap_option m none = none
wrap_option m (some e) = some (wrap m e)

pub Result-cases :
    {A : Type 0} (r : Result A) → ((a : A) × (r ≡ ok a)) ⊎ ((e : GoError) × (r ≡ err e))
Result-cases (ok a) = inl (a, refl)
Result-cases (err e) = inr (e, refl)

pub err-injective : {A : Type 0} {e f : GoError} → ◌≡◌ {A = Result A} (err e) (err f) → e ≡ f
err-injective h = cc

pub ok-injective : {A : Type 0} {a b : A} → ◌≡◌ {A = Result A} (ok a) (ok b) → a ≡ b
ok-injective h = cc
