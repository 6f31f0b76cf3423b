-- ===== src/Shortener/Race.antt =====
-- A resolution and a deletion of the same token at the same time: ResolveToken reads the row,
-- DeleteToken runs as a whole, and then ResolveToken writes its cache entry.
use pet_urls.Prelude.{◌≡◌, refl, ap, ◌∙◌, Bytes, Option, none, some, false, arith}
use mathlib.Core.Path.{subst}
use pet_urls.Prelude.Int.{ℤ, ◌≤ℤ◌, ltb_ℤ}
use pet_urls.Errors.{GoError, Result, ok}
use pet_urls.Shortener.Types.{UrlToken, Shortener}
use pet_urls.Shortener.Service.{cache_ttl, after_lookup, delete_token}
use pet_urls.Shortener.Interface.{EnvLaws, RepositoryLaws, CacheLaws}
use pet_urls.Shortener.Coherence.{IsCoherent, IsCoherent-Quiet}
use pet_urls.Shortener.Ownership.{delete_token_done}

module _ {W : Type 0} (sh : Shortener W) where
  open sh use {env, repo, cache, settings}

  -- What both calls return, and the world after them; the resolution has missed the cache before.
  abbrev pub resolve_around_delete : Bytes → Bytes → W → (Result Bytes × Option GoError) × W
  resolve_around_delete t uid w =
      let (found, w1) = repo.get_token t w in
      let (deleted, w2) = delete_token sh t uid w1 in
      let (resolved, w3) = after_lookup sh found w2 in ((resolved, deleted), w3)

  -- Between both calls, after the deletion.
  abbrev pub deleted_world : Bytes → Bytes → W → W
  deleted_world t uid w = (delete_token sh t uid (repo.get_token t w).1).1

  -- The save into the cache that the resolution makes of the row in the world `d`.
  abbrev pub late_save : UrlToken → W → Option GoError × W
  late_save r d =
      let (now, d') = env.now (env.now d).1 in
      cache.save_token r.token r.url (cache_ttl settings r.expires_at now) d'

  after_lookup_live :
      (r : UrlToken) (d : W)
      → (env.now d).0 ≤ℤ r.expires_at
      → after_lookup sh (ok r) d ≡ (ok r.url, (late_save r d).1)
  unfolding after_lookup
  after_lookup_live r d live =
      let on_time : ltb_ℤ r.expires_at (env.now d).0 ≡ false = ground arith in rw on_time refl

  module _ (stored : W → Bytes → Option UrlToken) (cached : W → Bytes → Option Bytes)
      (env_laws : EnvLaws stored cached env) (repo_laws : RepositoryLaws stored cached repo)
      (cache_laws : CacheLaws stored cached cache) where
    late_save-rows : (r : UrlToken) (d : W) (k : Bytes) → stored (late_save r d).1 k ≡ stored d k
    late_save-rows r d k =
        cache_laws.save_rows r.token r.url _ _ k
        ∙ (env_laws.now_quiet (env.now d).1).rows k
        ∙ (env_laws.now_quiet d).rows k

    -- Where the dependencies keep their promises and a save into the cache that reports no error has
    -- stored its entry, and every cache entry is that of its row: when a deletion that returns no
    -- error runs between the lookup of a row and the save of its cache entry, while the row is live,
    -- the resolution succeeds and leaves the URL in the cache although the row is gone.
    pub delete-resolve_race :
        (t uid : Bytes) (r : UrlToken) (w : W)
        → ((k u : Bytes) (ttl : ℤ) (v : W)
            → (cache.save_token k u ttl v).0 ≡ none
            → cached (cache.save_token k u ttl v).1 k ≡ some u)
        → IsCoherent stored cached w
        → (repo.get_token t w).0 ≡ ok r
        → (delete_token sh t uid (repo.get_token t w).1).0 ≡ none
        → (env.now (deleted_world t uid w)).0 ≤ℤ r.expires_at
        → (late_save r (deleted_world t uid w)).0 ≡ none
        → ((resolve_around_delete t uid w).0 ≡ (ok r.url, none))
          × (stored (resolve_around_delete t uid w).1 t ≡ none)
          × (cached (resolve_around_delete t uid w).1 t ≡ some r.url)
    delete-resolve_race t uid r w saves coherent found done live saved =
        let d = deleted_world t uid w in
        let same = (repo_laws.get_found t w r found).1 in
        let before = IsCoherent-Quiet stored cached (repo_laws.get_quiet t w) coherent in
        let gone =
          (delete_token_done sh stored cached env_laws repo_laws cache_laws t uid
            (repo.get_token t w).1 before done).0 in
        let rest : after_lookup sh (repo.get_token t w).0 d ≡ (ok r.url, (late_save r d).1) =
          ap (λ x. after_lookup sh x d) found ∙ after_lookup_live r d live in
        (
          ap (λ x. (x.0, (delete_token sh t uid (repo.get_token t w).1).0)) rest
              ∙ ap (λ e. (ok r.url, e)) done,
          ap (λ x. stored x.1 t) rest ∙ late_save-rows r d t ∙ gone,
          ap (λ x. cached x.1 t) rest
              ∙ subst (λ k. cached (late_save r d).1 k ≡ some r.url) same
                  (saves r.token r.url _ _ saved),
        )
