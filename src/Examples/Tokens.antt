-- ===== src/Examples/Tokens.antt =====
-- The shortener's theorems over the small world.
use pet_urls.Prelude.{
  ◌∙◌, ◌≡◌, ◌≢◌, refl, ap, inl, inr, Option-cases, Bytes, codes, Option, none, some, List, [], ◌∷◌,
  arith, ◌=b=◌,
}
use pet_urls.Prelude.Int.{to_micros, pos, ◌+ℤ◌, ◌≤ℤ◌}
use pet_urls.Errors.{GoError, ok, err, is_not_found_error}
use pet_urls.Strings.Utf8.{rune_count}
use pet_urls.Url.{normalize_http}
use pet_urls.Shortener.Types.{UrlToken, CreateTokenInput, Shortener}
use pet_urls.Shortener.Service.{
  create_token, resolve_token, delete_token, after_url, after_choice, after_save, choose_token,
  after_cache, after_fetch, after_cache_delete,
}
use pet_urls.Shortener.Interface.{RepositoryLaws, CacheLaws}
use pet_urls.Shortener.Coherence.{IsCoherent}
use pet_urls.Shortener.Requests.{
  Request, create, resolve, delete, run, run-IsCoherent, create_token-IsCoherent,
}
use pet_urls.Shortener.Ownership.{IsStored, create_token-IsStored}
use pet_urls.Shortener.RoundTrip.{resolve-delete, world_of_lookup, resolve-create}
use pet_urls.Postgres.Retry.{with_retry}
use pet_urls.Postgres.Retry.Runs.{with_retry_at_once}
use pet_urls.Postgres.ShortenerRepo
use pet_urls.Postgres.ShortenerRepo.{save_error, fetched, shortener_repository}
use pet_urls.Postgres.ShortenerRepo.Promises.{shortener_repository-RepositoryLaws}
use pet_urls.Redis
use pet_urls.Redis.{shortener_cache, get_result}
use pet_urls.Redis.Promises.{shortener_cache-CacheLaws}
use pet_urls.App.{app_shortener}
use pet_urls.Examples.Memory.{
  Memory, row_at, columns, stored, cached, memory_db, patient, memory_redis, ticking, plain_urls,
  start,
}
use pet_urls.Examples.MemoryLaws.{ticking-EnvLaws, memory_db-DatabaseLaws, memory_redis-RedisLaws}

abbrev pub demo : Shortener Memory
demo = app_shortener plain_urls ticking patient memory_db memory_redis

pub demo_repo : RepositoryLaws stored cached (shortener_repository patient memory_db)
demo_repo =
    shortener_repository-RepositoryLaws patient memory_db stored cached memory_db-DatabaseLaws

pub demo_cache : CacheLaws stored cached (shortener_cache memory_redis)
demo_cache = shortener_cache-CacheLaws memory_redis stored cached memory_redis-RedisLaws

start-IsCoherent : IsCoherent stored cached start
start-IsCoherent k u h = cc

abbrev pub alice : Bytes
alice = codes "alice"

abbrev pub first_input : CreateTokenInput
first_input = record {
  url = codes "a.io";
  ttl = pos 1000;
  token = codes "t";
  owner_id = some alice;
}

abbrev script : List Request
script = create first_input ∷ resolve (codes "t") ∷ delete (codes "t") alice ∷ []

run-IsCoherent_example : IsCoherent stored cached (run demo script start)
run-IsCoherent_example =
    run-IsCoherent demo stored cached ticking-EnvLaws demo_repo demo_cache script start
      start-IsCoherent

-- What the calls of the tests unfold.
unfoldable pub service_steps : Unit {0}
unfolding create_token after_url after_choice after_save choose_token normalize_http ◌=b=◌
    rune_count ◌+ℤ◌ ShortenerRepo.save_token ShortenerRepo.get_token ShortenerRepo.delete_token
    with_retry save_error fetched Redis.set Redis.get Redis.delete get_result resolve_token
    after_cache delete_token after_fetch after_cache_delete is_not_found_error to_micros
service_steps = tt

abbrev pub made : Memory
made = (create_token demo first_input start).1

abbrev pub first_token : UrlToken
first_token = record {
  token = codes "t";
  url = codes "http://a.io";
  expires_at = pos 1000;
  owner_id = some alice;
}

made_result : (create_token demo first_input start).0 ≡ (first_token, none)
unfolding service_steps
made_result = refl

pub made_row : stored made (codes "t") ≡ some first_token
unfolding service_steps
made_row = refl

made_done : (create_token demo first_input start).0.1 ≡ none
made_done = ap (λ (x : UrlToken × Option GoError). x.1) made_result

pub made-IsCoherent : IsCoherent stored cached made
made-IsCoherent =
    create_token-IsCoherent demo stored cached ticking-EnvLaws demo_repo demo_cache first_input
      start start-IsCoherent

create_token-IsStored_example :
    IsStored demo stored cached ticking-EnvLaws demo_repo demo_cache first_input start
      (create_token demo first_input start).0.0
      made
create_token-IsStored_example =
    create_token-IsStored demo stored cached ticking-EnvLaws demo_repo demo_cache first_input start
      made_done

resolved : (resolve_token demo (codes "t") made).0 ≡ ok (codes "http://a.io")
unfolding service_steps
resolved = refl

pub deleted : (delete_token demo (codes "t") alice made).0 ≡ none
unfolding service_steps
deleted = refl

resolve-delete_example :
    (resolve_token demo (codes "t") (delete_token demo (codes "t") alice made).1).0
    ≢ ok (codes "http://a.io")
resolve-delete_example =
    resolve-delete demo stored cached ticking-EnvLaws demo_repo demo_cache (codes "t") alice
      (codes "http://a.io") made made-IsCoherent deleted

memory_up :
    (t : Bytes) (r : UrlToken) (c : Memory)
    → stored c t ≡ some r
    → (demo.repo.get_token t c).0 ≡ ok r
unfolding ShortenerRepo.get_token
memory_up t r c h = elim (Option-cases (c.rows t)) [
  | inl gone ↦ cc (h, ap (row_at t) gone)
  | inr (u, here) ↦
      let once =
        (with_retry_at_once patient (memory_db.select_url_token t) c).1 u refl (ap columns here) in
      rw once (unfold fetched in rw here (cc (ap (row_at t) here, h)))
]

live :
    (ticking.now
      (world_of_lookup demo stored cached ticking-EnvLaws demo_repo demo_cache (codes "t") made)).0
    ≤ℤ pos 1000
unfolding service_steps
live = omega arith

no_fault :
    (e : GoError)
    → (demo.repo.get_token (codes "t") (demo.cache.get_token (codes "t") made).1).0 ≢ err e
no_fault e fault =
    let found =
      memory_up (codes "t") first_token (demo.cache.get_token (codes "t") made).1
        ((demo_cache.get_quiet (codes "t") made).rows (codes "t") ∙ made_row) in
    cc (found, fault)

live_row :
    (ticking.now
      (world_of_lookup demo stored cached ticking-EnvLaws demo_repo demo_cache (codes "t") made)).0
    ≤ℤ to_micros (pos 1000)
unfolding service_steps
live_row = omega arith

resolve-create_example :
    (resolve_token demo (create_token demo first_input start).0.0.token made).0
    ≡ normalize_http plain_urls (codes "a.io")
resolve-create_example =
    resolve-create demo stored cached ticking-EnvLaws demo_repo demo_cache first_input start
      start-IsCoherent made_done (rw made_result no_fault) (rw made_result live_row)

shortener_repository-RepositoryLaws_example :
    RepositoryLaws stored cached (shortener_repository patient memory_db)
shortener_repository-RepositoryLaws_example =
    shortener_repository-RepositoryLaws patient memory_db stored cached memory_db-DatabaseLaws

shortener_cache-CacheLaws_example : CacheLaws stored cached (shortener_cache memory_redis)
shortener_cache-CacheLaws_example =
    shortener_cache-CacheLaws memory_redis stored cached memory_redis-RedisLaws
