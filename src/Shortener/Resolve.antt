-- ===== src/Shortener/Resolve.antt =====
-- What `ResolveToken` does to the world and returns, by where it finds the token.
use pet_urls.Prelude.{◌≡◌, refl, Bytes, Option, none, some, arith, Bool-cases, inl, inr}
use pet_urls.Prelude.Int.{ℤ, ltb_ℤ, ◌≤ℤ◌}
use pet_urls.Errors.{GoError, Result, ok, err, is_not_found_error}
use pet_urls.Shortener.Types.{UrlToken, Shortener}
use pet_urls.Shortener.Service.{after_lookup, resolve_from_repo, after_cache, resolve_token}
use pet_urls.Shortener.Interface.{Quiet, Quiet-trans, EnvLaws, RepositoryLaws, CacheLaws}

module _ {W : Type 0} (sh : Shortener W) (stored : W → Bytes → Option UrlToken)
    (cached : W → Bytes → Option Bytes) where
  open sh use {env, repo, cache, settings as s}

  -- How a resolution of `t` from `w` ends: with a cache entry, with an error, or with a row that had
  -- not expired when the clock was read in the world `c`.
  pub data Resolved (t : Bytes) (w : W) : (Result Bytes × W) → Type 0 where
    hit :
        (u : Bytes) (w' : W)
        → Quiet stored cached w w'
        → cached w t ≡ some u
        → Resolved t w (ok u, w')
    refused : (e : GoError) (w' : W) → Quiet stored cached w w' → Resolved t w (err e, w')
    found :
        (r : UrlToken) (c b : W) (ttl : ℤ)
        → Quiet stored cached w b
        → stored w t ≡ some r
        → r.token ≡ t
        → (env.now c).0 ≤ℤ r.expires_at
        → Resolved t w (ok r.url, (cache.save_token r.token r.url ttl b).1)

  module _ (env_laws : EnvLaws stored cached env)
      (repo_laws : RepositoryLaws stored cached repo) where
    after_lookup-Resolved :
        (t : Bytes) (f : Result UrlToken) (w b : W)
        → Quiet stored cached w b
        → ((r : UrlToken) → f ≡ ok r → (stored w t ≡ some r) × (r.token ≡ t))
        → Resolved t w (after_lookup sh f b)
    unfolding after_lookup
    after_lookup-Resolved t (err e) w b q row = elim (Bool-cases (is_not_found_error (some e))) [
      | inl missing ↦ rw missing (refused _ _ q)
      | inr other ↦ rw other (refused _ _ q)
    ]
    after_lookup-Resolved t (ok r) w b q row =
        let q' = Quiet-trans stored cached q (env_laws.now_quiet b) in
        elim (Bool-cases (ltb_ℤ r.expires_at (env.now b).0)) [
          | inl late ↦ rw late (refused _ _ q')
          | inr live ↦ rw live (
              found r b _ _ (Quiet-trans stored cached q' (env_laws.now_quiet _)) (row r refl).0
                (row r refl).1 (ground arith))
        ]

    resolve_from_repo-Resolved :
        (t : Bytes) (w b : W) → Quiet stored cached w b → Resolved t w (resolve_from_repo sh t b)
    unfolding resolve_from_repo
    resolve_from_repo-Resolved t w b q =
        after_lookup-Resolved t _ w _ (Quiet-trans stored cached q (repo_laws.get_quiet t b))
          λ r fetched.
            let (row, name) = repo_laws.get_found t b r fetched in (cc (q.rows t, row), name)

    module _ (cache_laws : CacheLaws stored cached cache) where
      after_cache-Resolved :
          (t : Bytes) (g : Result (Option Bytes)) (w b : W)
          → Quiet stored cached w b
          → ((u : Bytes) → g ≡ ok (some u) → cached w t ≡ some u)
          → Resolved t w (after_cache sh t g b)
      unfolding after_cache
      after_cache-Resolved t (ok (some u)) w b q entry = hit u b q (entry u refl)
      after_cache-Resolved t (ok none) w b q entry = resolve_from_repo-Resolved t w b q
      after_cache-Resolved t (err e) w b q entry = resolve_from_repo-Resolved t w b q

      -- Every resolution is a hit, an error or a row found.
      pub resolve_token-Resolved : (t : Bytes) (w : W) → Resolved t w (resolve_token sh t w)
      unfolding resolve_token
      resolve_token-Resolved t w =
          after_cache-Resolved t _ w _ (cache_laws.get_quiet t w) (cache_laws.get_hit t w)
