-- ===== src/Examples/Ledger.antt =====
-- A small database of the tables users and refresh_tokens, against the promises of SQL.
use pet_urls.Prelude.{
  ℕ, suc, ◌≡◌, refl, sym, ap, ◌∙◌, inl, inr, Bytes, codes, true, Option, none, some, is_some,
}
use mathlib.Core.Path.{subst}
use pet_urls.Prelude.Int.{ℤ, pos, to_micros}
use pet_urls.Prelude.Action.{Action}
use pet_urls.Errors.{
  plain, sentinel, pg_error, unique_violation, no_rows, Result, ok, err, ok-injective,
}
use pet_urls.Auth.Types.{RefreshTokenInRepo, UserInRepo, Env, Auth}
use pet_urls.Auth.Accounts.{Still, Evolves, Evolves-refl, Continues, Continues-refl, AccountLaws}
use pet_urls.Postgres.Retry.{Deadline}
use pet_urls.Postgres.Database.{
  Database, Statement, insert_url_token, delete_url_token, insert_refresh_token,
  revoke_refresh_token,
}
use pet_urls.Postgres.AuthRepo.{user_of, session_of, auth_repository}
use pet_urls.Postgres.AuthRepo.Sql.{AccountSql}
use pet_urls.Postgres.AuthRepo.Promises.{auth_repository-AccountLaws}
use pet_urls.Examples.Memory.{update}
use pet_urls.Examples.MemoryLaws.{update_self, update_cases}
use pet_urls.Examples.Accounts.{desk}

abbrev pub Person : Type 0
Person = Bytes × Bytes

abbrev pub Token : Type 0
Token = Bytes × ℤ × Option ℤ

pub record Ledger : Type 0 where
  pub people : Bytes → Option Person
  pub tokens : Bytes → Option Token
  pub clock : ℕ

abbrev pub user_at : Bytes → Option Person → Option UserInRepo
user_at n none = none
user_at n (some u) = some (user_of n u)

abbrev pub session_at : Bytes → Option Token → Option RefreshTokenInRepo
session_at h none = none
session_at h (some t) = some (session_of h t)

abbrev pub users : Ledger → Bytes → Option UserInRepo
users w n = user_at n (w.people n)

abbrev pub sessions : Ledger → Bytes → Option RefreshTokenInRepo
sessions w h = session_at h (w.tokens h)

abbrev pub add_person : Bytes → Bytes → Option Person → Action Ledger (Result Bytes)
add_person n p none w = (ok n, record w { people = update n (some (n, p)) w.people })
add_person n p (some _) w = (err (pg_error unique_violation), w)

abbrev pub add_token : Bytes → Bytes → ℤ → Option Token → Action Ledger (Result (Unit {0}))
add_token h u x none w = (ok tt, record w { tokens = update h (some (u, x, none)) w.tokens })
add_token h u x (some _) w = (err (pg_error unique_violation), w)

abbrev pub revoked : Option Token → Option Token
revoked none = none
revoked (some (u, x, none)) = some (u, x, some (pos 0))
revoked (some (u, x, some t)) = some (u, x, some t)

abbrev pub exec : Statement → Action Ledger (Result (Unit {0}))
exec (insert_url_token _ _ _ _) w = (err (plain "no such table"), w)
exec (delete_url_token _) w = (err (plain "no such table"), w)
exec (insert_refresh_token h u x) w = add_token h u (to_micros x) (w.tokens h) w
exec (revoke_refresh_token h) w =
    (ok tt, record w { tokens = update h (revoked (w.tokens h)) w.tokens })

abbrev pub selected : {A : Type 0} → Option A → Result A
selected none = err (sentinel no_rows)
selected (some a) = ok a

abbrev pub ledger_db : Database Ledger
ledger_db = record {
  ping = λ w. (none, w);
  exec = exec;
  select_url_token = λ _ w. (err (plain "no such table"), w);
  insert_user = λ n p w. add_person n p (w.people n) w;
  select_user = λ n w. (selected (w.people n), w);
  select_refresh_token = λ h w. (selected (w.tokens h), w);
}

abbrev pub calm : Deadline Ledger
calm = record { error = λ w. none; sleep = λ pause w. (none, w) }

abbrev Changes : Ledger → Ledger → Type 0
Changes = Evolves users sessions

abbrev NoChange : Ledger → Ledger → Type 0
NoChange = Still users sessions

same : (w : Ledger) → NoChange w w
same w = record { by_login = λ n. refl; by_hash = λ k. refl }

some-injective : {A : Type 0} {a b : A} → some a ≡ some b → a ≡ b
some-injective h = cc

selected-some : {A : Type 0} (o : Option A) (a : A) → selected o ≡ ok a → o ≡ some a
selected-some none a h = cc
selected-some (some b) a h = ap some (ok-injective h)

add_person-Changes :
    (n p : Bytes) (o : Option Person) (w : Ledger)
    → w.people n ≡ o
    → Changes w (add_person n p o w).1
add_person-Changes n p none w free = record {
  by_login = λ k u h. elim (update_cases n (some (n, p)) w.people k) [
    | inl kept ↦ ap (user_at k) kept ∙ h
    | inr (here, added) ↦ absurd (cc (ap (user_at k) (ap w.people here ∙ free), h))
  ];
  by_hash = λ k r h. (r, h, Continues-refl r);
}
add_person-Changes n p (some u) w taken = Evolves-refl users sessions w

add_person_done :
    (n p : Bytes) (o : Option Person) (w : Ledger) (id : Bytes)
    → w.people n ≡ o
    → (add_person n p o w).0 ≡ ok id
    → (users w n ≡ none) × (users (add_person n p o w).1 n ≡ some (user_of n (id, p)))
add_person_done n p none w id free h = (
  ap (user_at n) free,
  ap (user_at n) (update_self n (some (n, p)) w.people)
      ∙ ap (λ i. some (user_of n (i, p))) (ok-injective h),
)
add_person_done n p (some u) w id taken h = cc

add_token-Changes :
    (t u : Bytes) (x : ℤ) (o : Option Token) (w : Ledger)
    → w.tokens t ≡ o
    → Changes w (add_token t u x o w).1
add_token-Changes t u x none w free = record {
  by_login = λ n p h. h;
  by_hash = λ k r h. elim (update_cases t (some (u, x, none)) w.tokens k) [
    | inl kept ↦ (r, ap (session_at k) kept ∙ h, Continues-refl r)
    | inr (here, added) ↦ absurd (cc (ap (session_at k) (ap w.tokens here ∙ free), h))
  ];
}
add_token-Changes t u x (some s) w taken = Evolves-refl users sessions w

add_token_done :
    (t u : Bytes) (x : ℤ) (o : Option Token) (w : Ledger) (d : Unit {0})
    → (add_token t u x o w).0 ≡ ok d
    → sessions (add_token t u x o w).1 t ≡ some (session_of t (u, x, none))
add_token_done t u x none w d h = ap (session_at t) (update_self t (some (u, x, none)) w.tokens)
add_token_done t u x (some s) w d h = cc

revoked-Continues :
    (k : Bytes) (o : Option Token) (r : RefreshTokenInRepo)
    → session_at k o ≡ some r
    → (r' : RefreshTokenInRepo) × (session_at k (revoked o) ≡ some r') × Continues r r'
revoked-Continues k none r h = cc
revoked-Continues k (some (u, x, none)) r h = (
  session_of k (u, x, some (pos 0)),
  refl,
  subst (λ s. Continues s (session_of k (u, x, some (pos 0)))) (some-injective h)
      (record { user_id = refl; expires_at = refl; revoked_at = λ e. cc }),
)
revoked-Continues k (some (u, x, some t)) r h = (r, h, Continues-refl r)

revoked-some :
    (k : Bytes) (o : Option Token) (r : RefreshTokenInRepo)
    → session_at k (revoked o) ≡ some r
    → is_some r.revoked_at ≡ true
revoked-some k none r h = cc
revoked-some k (some (u, x, none)) r h =
    subst (λ (s : RefreshTokenInRepo). is_some s.revoked_at ≡ true) (some-injective h) refl
revoked-some k (some (u, x, some t)) r h =
    subst (λ (s : RefreshTokenInRepo). is_some s.revoked_at ≡ true) (some-injective h) refl

pub ledger_db-AccountSql : AccountSql calm ledger_db users sessions
ledger_db-AccountSql = record {
  ping_still = same;
  sleep_still = λ pause. same;
  select_user_still = λ n. same;
  select_session_still = λ h. same;
  select_user_row = λ n w u h. ap (user_at n) (selected-some (w.people n) u h);
  select_session_row = λ k w s h. ap (session_at k) (selected-some (w.tokens k) s h);
  insert_user_evolves = λ n p w. add_person-Changes n p (w.people n) w refl;
  insert_user_done = λ n p w id h. add_person_done n p (w.people n) w id refl h;
  insert_evolves = λ h u x w. add_token-Changes h u (to_micros x) (w.tokens h) w refl;
  insert_done = λ h u x w o d. add_token_done h u (to_micros x) (w.tokens h) w o d;
  revoke_evolves = λ h w. record {
    by_login = λ n u k. k;
    by_hash = λ k r was. elim (update_cases h (revoked (w.tokens h)) w.tokens k) [
      | inl kept ↦ (r, ap (session_at k) kept ∙ was, Continues-refl r)
      | inr (here, gone) ↦
          let (r', now, continues) =
            revoked-Continues k (w.tokens h) r
              (ap (λ j. session_at k (w.tokens j)) (sym here) ∙ was) in
          (r', ap (session_at k) gone ∙ now, continues)
    ];
  };
  revoke_done = λ h w o r d here.
      revoked-some h (w.tokens h) r
        (ap (session_at h) (sym (update_self h (revoked (w.tokens h)) w.tokens)) ∙ here);
  revoke_others = λ h k w other. elim (update_cases h (revoked (w.tokens h)) w.tokens k) [
    | inl kept ↦ ap (session_at k) kept
    | inr (here, gone) ↦ absurd (other here)
  ];
}

abbrev pub ledger_env : Env Ledger
ledger_env = record {
  now = λ w. (pos w.clock, record w { clock = suc w.clock });
  new_uuid = λ w. (ok (codes "rt"), w);
  generate_from_password = λ p w. (ok p, w);
  compare_hash_and_password = desk.env.compare_hash_and_password;
  sha256 = λ t. t;
}

abbrev pub office : Auth Ledger
office = record {
  env = ledger_env;
  jwt = desk.jwt;
  repo = auth_repository calm ledger_db;
  key = codes "k";
  settings = record { refresh_token_ttl = pos 1000; access_token_ttl = pos 10 };
}

pub ledger_now : (w : Ledger) → Still users sessions w (ledger_env.now w).1
ledger_now w = record { by_login = λ n. refl; by_hash = λ k. refl }

pub ledger_uuid : (w : Ledger) → Still users sessions w (ledger_env.new_uuid w).1
ledger_uuid = same

pub ledger_password :
    (p : Bytes) (w : Ledger) → Still users sessions w (ledger_env.generate_from_password p w).1
ledger_password p = same

pub office_laws : AccountLaws users sessions ledger_env (auth_repository calm ledger_db)
office_laws =
    auth_repository-AccountLaws calm ledger_db users sessions ledger_db-AccountSql ledger_env
      ledger_now ledger_uuid ledger_password
