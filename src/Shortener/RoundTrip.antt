-- ===== src/Shortener/RoundTrip.antt =====
-- What a resolution returns after creations and deletions.
use pet_urls.Prelude.{
  ◌≡◌, ◌≢◌, refl, ◌∙◌, Bytes, inl, inr, Option, none, some, false, arith, ap, sym,
}
use pet_urls.Prelude.Int.{◌≤ℤ◌, ltb_ℤ, to_micros}
use pet_urls.Errors.{GoError, Result, Result-cases, ok, err}
use pet_urls.Url.{normalize_http}
use pet_urls.Shortener.Types.{UrlToken, kept_row, CreateTokenInput, Shortener}
use pet_urls.Shortener.Service.{
  create_token, resolve_token, resolve_from_repo, after_cache, after_lookup, delete_token,
}
use pet_urls.Shortener.Interface.{EnvLaws, RepositoryLaws, CacheLaws}
use pet_urls.Shortener.Coherence.{IsCoherent}
use pet_urls.Shortener.Resolve.{Resolved, hit, refused, found, resolve_token-Resolved}
use pet_urls.Shortener.Requests.{create_token-IsCoherent, delete_token-IsCoherent}
use pet_urls.Shortener.Ownership.{create_token-IsStored, delete_token_done}

module _ {W : Type 0} (sh : Shortener W) (stored : W → Bytes → Option UrlToken)
    (cached : W → Bytes → Option Bytes) (env_laws : EnvLaws stored cached sh.env)
    (repo_laws : RepositoryLaws stored cached sh.repo)
    (cache_laws : CacheLaws stored cached sh.cache) where
  open sh use {lib, env, repo, cache}

  Resolved-row :
      {t : Bytes} {w : W} {x : Result Bytes × W} (u : Bytes)
      → Resolved sh stored cached t w x
      → IsCoherent stored cached w
      → x.0 ≡ ok u
      → (r : UrlToken) × (stored w t ≡ some r) × (r.url ≡ u)
  Resolved-row {t} u (hit v w' q entry) h e = h t u (cc (entry, e))
  Resolved-row u (refused e w' q) h same = cc
  Resolved-row u (found r c b ttl q row name live) h same = (r, row, cc)

  -- Where the dependencies keep their promises: from a coherent world, a resolution that succeeds
  -- returns the URL of the row that is stored under its token, whether it came from the cache or from
  -- the repository.
  resolve_token_sound :
      (t u : Bytes) (w : W)
      → IsCoherent stored cached w
      → (resolve_token sh t w).0 ≡ ok u
      → (r : UrlToken) × (stored w t ≡ some r) × (r.url ≡ u)
  resolve_token_sound t u w =
      Resolved-row u (resolve_token-Resolved sh stored cached env_laws repo_laws cache_laws t w)

  -- Where the dependencies keep their promises: after a deletion that returned no error, from a
  -- coherent world, the token resolves to no URL.
  pub resolve-delete :
      (t uid u : Bytes) (w : W)
      → IsCoherent stored cached w
      → (delete_token sh t uid w).0 ≡ none
      → (resolve_token sh t (delete_token sh t uid w).1).0 ≢ ok u
  resolve-delete t uid u w h done resolved =
      let gone = delete_token_done sh stored cached env_laws repo_laws cache_laws t uid w h done in
      let coherent =
        delete_token-IsCoherent sh stored cached env_laws repo_laws cache_laws t uid w h in
      let (r, row, url) = resolve_token_sound t u _ coherent resolved in cc (gone.0, row)

  -- The world in which a resolution of `t` from `w` reads the clock, if the cache has no entry.
  abbrev pub world_of_lookup : Bytes → W → W
  world_of_lookup t w = (repo.get_token t (cache.get_token t w).1).1

  after_lookup_live :
      (r : UrlToken) (c : W)
      → (env.now c).0 ≤ℤ r.expires_at
      → (after_lookup sh (ok r) c).0 ≡ ok r.url
  unfolding after_lookup
  after_lookup_live r c live =
      let on_time : ltb_ℤ r.expires_at (env.now c).0 ≡ false = ground arith in rw on_time

  after_cache_live :
      (t : Bytes) (r : UrlToken) (g : Result (Option Bytes)) (b : W)
      → ((u : Bytes) → g ≡ ok (some u) → u ≡ r.url)
      → (repo.get_token t b).0 ≡ ok r
      → (env.now (repo.get_token t b).1).0 ≤ℤ r.expires_at
      → (after_cache sh t g b).0 ≡ ok r.url
  unfolding after_cache resolve_from_repo
  after_cache_live t r (ok (some u)) b entry up live = ap ok (entry u refl)
  after_cache_live t r (ok none) b entry up live = rw up (after_lookup_live r _ live)
  after_cache_live t r (err e) b entry up live = rw up (after_lookup_live r _ live)

  -- Where the dependencies keep their promises: from a coherent world, a token with a row resolves to
  -- the URL of its row, where the repository answers the lookup with it and the clock that is read
  -- then has not passed its expiry.
  resolve_token_live :
      (t : Bytes) (r : UrlToken) (w : W)
      → IsCoherent stored cached w
      → stored w t ≡ some r
      → (repo.get_token t (cache.get_token t w).1).0 ≡ ok r
      → (env.now (world_of_lookup t w)).0 ≤ℤ r.expires_at
      → (resolve_token sh t w).0 ≡ ok r.url
  unfolding resolve_token
  resolve_token_live t r w h row up live =
      after_cache_live t r _ _
        (λ u entry.
          let (s, row', url) = h t u (cache_laws.get_hit t w u entry) in cc (row, row', url))
        up live

  -- A lookup that is answered finds the stored row.
  answered :
      (t : Bytes) (r : UrlToken) (c : W)
      → stored c t ≡ some r
      → ((e : GoError) → (repo.get_token t c).0 ≢ err e)
      → (repo.get_token t c).0 ≡ ok r
  answered t r c row up = elim (Result-cases (repo.get_token t c).0) [
    | inl (s, here) ↦ let there = repo_laws.get_found t c s here in cc (there.0, row, here)
    | inr (e, fault) ↦ absurd (up e fault)
  ]

  -- Where the dependencies keep their promises: after a creation that returned no error, from a
  -- coherent world, the returned token resolves to the normalised URL, where the repository answers
  -- this lookup with no error and the clock that is read then has not passed the returned expiry, cut
  -- to the microsecond.
  pub resolve-create :
      (input : CreateTokenInput) (w : W)
      → IsCoherent stored cached w
      → (create_token sh input w).0.1 ≡ none
      → ((e : GoError)
          → (repo.get_token
              (create_token sh input w).0.0.token
              (cache.get_token (create_token sh input w).0.0.token (create_token sh input w).1).1).0
            ≢ err e)
      → (env.now
          (world_of_lookup (create_token sh input w).0.0.token (create_token sh input w).1)).0
        ≤ℤ to_micros (create_token sh input w).0.0.expires_at
      → (resolve_token sh (create_token sh input w).0.0.token (create_token sh input w).1).0
        ≡ normalize_http lib input.url
  resolve-create input w h created up live =
      let o = (create_token sh input w).0.0 in
      let w' = (create_token sh input w).1 in
      let made =
        create_token-IsStored sh stored cached env_laws repo_laws cache_laws input w created in
      let coherent =
        create_token-IsCoherent sh stored cached env_laws repo_laws cache_laws input w h in
      let still = (cache_laws.get_quiet o.token w').rows o.token ∙ made.row in
      let found = answered o.token (kept_row o) _ still up in
      resolve_token_live o.token (kept_row o) w' coherent made.row found live ∙ sym made.answer.url
