-- ===== src/Examples/Race.antt =====
-- A resolution around a deletion, over the small world of Memory.
use pet_urls.Prelude.{◌≡◌, refl, Bytes, codes, none, some, arith}
use pet_urls.Prelude.Int.{ℤ, ◌≤ℤ◌}
use pet_urls.Errors.{ok}
use pet_urls.Shortener.Service.{delete_token}
use pet_urls.Shortener.Race.{resolve_around_delete, deleted_world, late_save, delete-resolve_race}
use pet_urls.Redis
use pet_urls.Examples.Memory.{Memory, stored, cached}
use pet_urls.Examples.MemoryLaws.{ticking-EnvLaws, update_self}
use pet_urls.Examples.Tokens.{
  demo, demo_repo, demo_cache, made, made-IsCoherent, alice, first_token, service_steps,
}

abbrev t : Bytes
t = codes "t"

saves :
    (k u : Bytes) (ttl : ℤ) (v : Memory)
    → (demo.cache.save_token k u ttl v).0 ≡ none
    → cached (demo.cache.save_token k u ttl v).1 k ≡ some u
unfolding Redis.set
saves k u ttl v done = update_self k (some u) v.entries

found : (demo.repo.get_token t made).0 ≡ ok first_token
unfolding service_steps
found = refl

done : (delete_token demo t alice (demo.repo.get_token t made).1).0 ≡ none
unfolding service_steps
done = refl

live : (demo.env.now (deleted_world demo t alice made)).0 ≤ℤ first_token.expires_at
unfolding service_steps
live = omega arith

saved : (late_save demo first_token (deleted_world demo t alice made)).0 ≡ none
unfolding service_steps
saved = refl

delete-resolve_race_example :
    ((resolve_around_delete demo t alice made).0 ≡ (ok (codes "http://a.io"), none))
    × (stored (resolve_around_delete demo t alice made).1 t ≡ none)
    × (cached (resolve_around_delete demo t alice made).1 t ≡ some (codes "http://a.io"))
delete-resolve_race_example =
    delete-resolve_race demo stored cached ticking-EnvLaws demo_repo demo_cache t alice first_token
      made saves made-IsCoherent found done live saved
