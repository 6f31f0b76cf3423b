-- ===== src/Shortener/Interface.antt =====
-- What the repository and the cache of dependencies.go promise, in terms of two views of the world:
-- `stored`, the rows of the repository by token, and `cached`, the entries of the cache. An entry may
-- vanish from the cache at any time (expiry, eviction), and nothing but a save adds one.
use pet_urls.Prelude.{◌≡◌, refl, ◌⊎◌, inl, inr, ◌∙◌, Bytes, true, Option, none, some}
use pet_urls.Prelude.Int.{ℤ}
use pet_urls.Errors.{GoError, ok, err, is_not_found_error}
use pet_urls.Shortener.Types.{UrlToken, kept_row, Repository, Cache, Env}

module _ {W : Type 0} (stored : W → Bytes → Option UrlToken)
    (cached : W → Bytes → Option Bytes) where
  -- From `w` to `w'` the rows are the same and the cache has gained nothing.
  pub record Quiet (w w' : W) : Type 0 where
    pub rows : (k : Bytes) → stored w' k ≡ stored w k
    pub entries : (k : Bytes) → (cached w' k ≡ cached w k) ⊎ (cached w' k ≡ none)

  pub record EnvLaws (env : Env W) : Type 0 where
    pub now_quiet : (w : W) → Quiet w (env.now w).1
    pub rand_quiet : (n : ℤ) (w : W) → Quiet w (env.rand_read n w).1

  pub record RepositoryLaws (repo : Repository W) : Type 0 where
    pub health_quiet : (w : W) → Quiet w (repo.health_check w).1
    pub get_quiet : (t : Bytes) (w : W) → Quiet w (repo.get_token t w).1
    pub get_found :
        (t : Bytes) (w : W) (r : UrlToken)
        → (repo.get_token t w).0 ≡ ok r
        → (stored w t ≡ some r) × (r.token ≡ t)
    pub get_missing :
        (t : Bytes) (w : W) (e : GoError)
        → (repo.get_token t w).0 ≡ err e
        → is_not_found_error (some e) ≡ true
        → stored w t ≡ none
    -- A save adds its row or nothing, whatever it reports.
    pub save_row :
        (r : UrlToken) (w : W) (k : Bytes)
        → (stored (repo.save_token r w).1 k ≡ stored w k)
          ⊎ ((k ≡ r.token)
              × (stored w k ≡ none)
              × (stored (repo.save_token r w).1 k ≡ some (kept_row r)))
    pub save_entries :
        (r : UrlToken) (w : W) (k : Bytes)
        → (cached (repo.save_token r w).1 k ≡ cached w k)
          ⊎ (cached (repo.save_token r w).1 k ≡ none)
    pub save_done :
        (r : UrlToken) (w : W)
        → (repo.save_token r w).0 ≡ none
        → (stored w r.token ≡ none) × (stored (repo.save_token r w).1 r.token ≡ some (kept_row r))
    pub save_taken :
        (r s : UrlToken) (w : W)
        → stored w r.token ≡ some s
        → (e : GoError) × ((repo.save_token r w).0 ≡ some e)
    -- A deletion removes its row or nothing.
    pub delete_row :
        (t : Bytes) (w : W) (k : Bytes)
        → (stored (repo.delete_token t w).1 k ≡ stored w k)
          ⊎ ((k ≡ t) × (stored (repo.delete_token t w).1 k ≡ none))
    pub delete_entries :
        (t : Bytes) (w : W) (k : Bytes)
        → (cached (repo.delete_token t w).1 k ≡ cached w k)
          ⊎ (cached (repo.delete_token t w).1 k ≡ none)
    pub delete_done :
        (t : Bytes) (w : W)
        → (repo.delete_token t w).0 ≡ none
        → stored (repo.delete_token t w).1 t ≡ none
    pub delete_missing :
        (t : Bytes) (w : W)
        → is_not_found_error (repo.delete_token t w).0 ≡ true
        → stored (repo.delete_token t w).1 t ≡ none

  pub record CacheLaws (cache : Cache W) : Type 0 where
    pub health_quiet : (w : W) → Quiet w (cache.health_check w).1
    pub get_quiet : (t : Bytes) (w : W) → Quiet w (cache.get_token t w).1
    pub get_hit :
        (t : Bytes) (w : W) (u : Bytes)
        → (cache.get_token t w).0 ≡ ok (some u)
        → cached w t ≡ some u
    pub save_rows :
        (t u : Bytes) (ttl : ℤ) (w : W) (k : Bytes)
        → stored (cache.save_token t u ttl w).1 k ≡ stored w k
    pub save_entry :
        (t u : Bytes) (ttl : ℤ) (w : W) (k : Bytes)
        → (cached (cache.save_token t u ttl w).1 k ≡ cached w k)
          ⊎ ((cached (cache.save_token t u ttl w).1 k ≡ none)
              ⊎ ((k ≡ t) × (cached (cache.save_token t u ttl w).1 k ≡ some u)))
    pub delete_quiet : (t : Bytes) (w : W) → Quiet w (cache.delete_token t w).1
    pub delete_done :
        (t : Bytes) (w : W)
        → (cache.delete_token t w).0 ≡ none
        → cached (cache.delete_token t w).1 t ≡ none

  pub Quiet-refl : (w : W) → Quiet w w
  Quiet-refl w = record { rows = λ k. refl; entries = λ k. inl refl }

  pub Quiet-trans : {a b c : W} → Quiet a b → Quiet b c → Quiet a c
  Quiet-trans p q = record {
    rows = λ k. q.rows k ∙ p.rows k;
    entries = λ k. elim (q.entries k) [
      | inl same ↦ elim (p.entries k) [
        | inl same' ↦ inl (same ∙ same')
        | inr gone ↦ inr (same ∙ gone)
      ]
      | inr gone ↦ inr gone
    ];
  }
