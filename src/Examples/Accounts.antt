-- ===== src/Examples/Accounts.antt =====
-- A small world of users and refresh tokens, whose libraries hide nothing.
use pet_urls.Prelude.{
  ◌/◌, ◌*◌, ℕ, suc, ◌≡◌, refl, sym, ap, ◌∙◌, Bytes, codes, true, Option, none, some, [], ◌∷◌, ◌==◌,
  ◌=b=◌, length, is_some, if◌then◌else◌,
}
use pet_urls.Prelude.Int.{ℤ, pos, negsuc}
use pet_urls.Errors.{plain, sentinel, not_found, no_rows, Result, ok, err, ok-injective}
use pet_urls.Auth.Types.{
  RefreshTokenInRepo, second, kept_session, UserInRepo, Repository, Claims, JwtLib, Env, Auth,
}
use pet_urls.Auth.Interface.{SessionLaws}
use pet_urls.Examples.Memory.{update}
use pet_urls.Examples.MemoryLaws.{update_self}

pub record Accounts : Type 0 where
  pub users : Bytes → Option UserInRepo
  pub sessions : Bytes → Option RefreshTokenInRepo
  pub clock : ℕ

abbrev pub sessions_of : Accounts → Bytes → Option RefreshTokenInRepo
sessions_of w = w.sessions

abbrev pub found : {A : Type 0} → Option A → Result A
found none = err (not_found (sentinel no_rows))
found (some a) = ok a

abbrev pub revoked : Option RefreshTokenInRepo → Option RefreshTokenInRepo
revoked none = none
revoked (some r) = some (record r { revoked_at = some (pos 0) })

abbrev pub accounts : Repository Accounts
accounts = record {
  health_check = λ w. (none, w);
  save_user = λ u w.
      (ok u.login, record w { users = update u.login (some (record u { id = u.login })) w.users });
  get_user = λ n w. (found (w.users n), w);
  save_refresh_token =
      λ r w. (none, record w { sessions = update r.hash (some (kept_session r)) w.sessions });
  get_refresh_token = λ h w. (found (w.sessions h), w);
  revoke_refresh_token =
      λ h w. (none, record w { sessions = update h (revoked (w.sessions h)) w.sessions });
}

abbrev pub clear : Env Accounts
clear = record {
  now = λ w. (pos w.clock, record w { clock = suc w.clock });
  new_uuid = λ w. (ok (codes "rt"), w);
  generate_from_password = λ p w. (ok p, w);
  compare_hash_and_password = λ h p. if h =b= p then none else some (plain "mismatch");
  sha256 = λ t. t;
}

-- A token is the length of the key, the expiry in seconds and the subject; a token of a key's length
-- alone has no expiry.
abbrev pub sign_clear : Bytes → ℤ → Bytes → Result Bytes
sign_clear sub (pos n) key = ok (length key ∷ n / second ∷ sub)
sign_clear sub (negsuc n) key = err (plain "too early")

abbrev pub parse_clear : Bytes → Bytes → Result Claims
parse_clear [] key = err (plain "malformed")
parse_clear (k ∷ []) key =
    if k == length key
    then ok (record { subject = ok []; expiration_time = ok none })
    else err (plain "signature")
parse_clear (k ∷ n ∷ sub) key =
    if k == length key
    then ok (record { subject = ok sub; expiration_time = ok (some (pos (n * second))) })
    else err (plain "signature")

abbrev pub whole_seconds : ℤ → ℤ
whole_seconds (pos n) = pos (n / second * second)
whole_seconds (negsuc n) = negsuc n

abbrev pub clear_jwt : JwtLib
clear_jwt = record { numeric_date = whole_seconds; sign = sign_clear; parse = parse_clear }

abbrev pub desk : Auth Accounts
desk = record {
  env = clear;
  jwt = clear_jwt;
  repo = accounts;
  key = codes "k";
  settings = record { refresh_token_ttl = pos 1000; access_token_ttl = pos (10 * second) };
}

found_some : {A : Type 0} (o : Option A) (a : A) → found o ≡ ok a → o ≡ some a
found_some none a h = cc
found_some (some b) a h = ap some (ok-injective h)

revoked-some :
    (o : Option RefreshTokenInRepo) (r : RefreshTokenInRepo)
    → revoked o ≡ some r
    → is_some r.revoked_at ≡ true
revoked-some none r h = cc
revoked-some (some s) r h = cc

pub desk-SessionLaws : SessionLaws sessions_of clear accounts
desk-SessionLaws = record {
  now_same = λ w k. refl;
  save_done = λ r w new h. update_self r.hash (some (kept_session r)) w.sessions;
  get_found = λ h w r e. found_some (w.sessions h) r e;
  revoke_done = λ h w r done here.
      revoked-some (w.sessions h) r
        (sym (update_self h (revoked (w.sessions h)) w.sessions) ∙ here);
}
