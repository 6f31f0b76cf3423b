-- ===== src/Auth/Evolution.antt =====
-- What becomes of users and sessions over any calls of the auth service.
use pet_urls.Prelude.{Bytes, Option, List}
use pet_urls.Auth.Types.{RefreshTokenInRepo, UserInRepo, Auth}
use pet_urls.Auth.Accounts.{Still, Evolves, Evolves-Still, Evolves-refl, Evolves-trans, AccountLaws}
use pet_urls.Auth.Frame.{Frame, run-Step}
use pet_urls.Auth.Requests.{Request, run}

module _ {W : Type 0} (a : Auth W) (users : W → Bytes → Option UserInRepo)
    (sessions : W → Bytes → Option RefreshTokenInRepo)
    (laws : AccountLaws users sessions a.env a.repo) where
  quiet : {w w' : W} → Still users sessions w w' → Evolves users sessions w w'
  quiet = Evolves-Still users sessions

  evolution : Frame a (Evolves users sessions)
  evolution = record {
    still = Evolves-refl users sessions;
    follow = Evolves-trans users sessions;
    now = λ w. quiet (laws.now_still w);
    uuid = λ w. quiet (laws.uuid_still w);
    password = λ p w. quiet (laws.password_still p w);
    health = λ w. quiet (laws.health_still w);
    get_user = λ n w. quiet (laws.get_user_still n w);
    save_user = laws.save_user_evolves;
    save_refresh_token = laws.save_refresh_token_evolves;
    get_refresh_token = λ h w. quiet (laws.get_refresh_token_still h w);
    revoke = laws.revoke_evolves;
  }

  -- Any calls of any methods leave every user as it was and let no session go, change its user or come
  -- back from its revocation.
  pub run-Evolves : (rs : List Request) (w : W) → Evolves users sessions w (run a rs w)
  run-Evolves = run-Step a (Evolves users sessions) evolution
