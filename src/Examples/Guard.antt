-- ===== src/Examples/Guard.antt =====
-- The auth middleware over the world of Accounts.
use pet_urls.Prelude.{codes, false, none, [], ◌∷◌, ◌++◌}
use pet_urls.Errors.{ok, err, plain}
use pet_urls.Http.Writer.{header, body}
use pet_urls.Http.Middleware.{Request, served, Handler, Server, line}
use pet_urls.Http.Middleware.Guard.{
  Guarded, requires_auth_middleware, requires_auth_middleware-Guarded,
}
use pet_urls.Examples.Accounts.{Accounts, desk}

abbrev quiet : Server Accounts
quiet = record {
  new_uuid = λ w. (ok (codes "id"), w);
  deadline_passed = λ w. false;
  observe = λ m p status w. w;
  metrics = false;
}

abbrev my_tokens : Handler Accounts
my_tokens r w = served r (header 200 ∷ body (line "[]") ∷ []) w

abbrev with_token : Request
with_token = record {
  method = codes "GET";
  path = codes "/tokens";
  pattern = [];
  authorization = codes "Bearer " ++ (1 ∷ 16 ∷ codes "YW5uYQ");
  ctx = [];
  body_limit = none;
  payload = none;
  content_type = [];
  path_token = [];
  cookie = λ name. err (plain "no cookie");
}

abbrev at_five : Accounts
at_five = record { users = λ k. none; sessions = λ k. none; clock = 5 }

requires_auth_middleware-Guarded_example :
    Guarded quiet desk my_tokens with_token at_five
      (requires_auth_middleware quiet desk my_tokens with_token at_five)
requires_auth_middleware-Guarded_example =
    requires_auth_middleware-Guarded quiet desk my_tokens with_token at_five
