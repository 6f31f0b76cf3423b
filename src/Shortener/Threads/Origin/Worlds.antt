-- ===== src/Shortener/Threads/Origin/Worlds.antt =====
-- Worlds whose rows and cache entries have URLs that are allowed under their tokens, and threads that
-- hold such URLs.
use pet_urls.Prelude.{◌≡◌, sym, ◌⊎◌, inl, inr, Bytes, Option, some, []}
use mathlib.Core.Path.{subst}
use pet_urls.Prelude.Int.{ℤ}
use pet_urls.Errors.{ok}
use pet_urls.Shortener.Types.{UrlToken, kept_row, CreateTokenInput, Shortener}
use pet_urls.Shortener.Interface.{Quiet, RepositoryLaws, CacheLaws}
use pet_urls.Shortener.Threads.{
  resolved, Task, check_expiry, read_rest, keep_found, read_clock, draw_token, save_row, read_ttl,
  keep_created, ended,
}

module _ (Allowed : Bytes → Bytes → Type 0) where
  -- The URL of a creation is allowed under every token that the creation may choose.
  abbrev pub MayCreate : CreateTokenInput → Bytes → Type 0
  MayCreate input url =
      (token : Bytes) → (input.token ≡ []) ⊎ (input.token ≡ token) → Allowed token url

  -- The URL that a thread has in its local variables, or has returned, is allowed under its token.
  unfoldable pub Holds : Task → Type 0
  Holds (check_expiry t row) = (row.token ≡ t) × Allowed t row.url
  Holds (read_rest t row) = (row.token ≡ t) × Allowed t row.url
  Holds (keep_found t row now) = (row.token ≡ t) × Allowed t row.url
  Holds (read_clock input url) = MayCreate input url
  Holds (draw_token input output) = (token : Bytes) → Allowed token output.url
  Holds (save_row output) = Allowed output.token output.url
  Holds (read_ttl output) = Allowed output.token output.url
  Holds (keep_created output now) = Allowed output.token output.url
  Holds (ended (resolved t (ok url))) = Allowed t url
  Holds _ = Unit {0}

  module _ {W : Type 0} (sh : Shortener W) (stored : W → Bytes → Option UrlToken)
      (cached : W → Bytes → Option Bytes) where
    -- Every row and every cache entry is allowed under its token.
    pub record IsAllowed (w : W) : Type 0 where
      pub rows : (k : Bytes) (r : UrlToken) → stored w k ≡ some r → Allowed k r.url
      pub entries : (k u : Bytes) → cached w k ≡ some u → Allowed k u

    pub IsAllowed-Quiet : {w w' : W} → Quiet stored cached w w' → IsAllowed w → IsAllowed w'
    IsAllowed-Quiet q h = record {
      rows = λ k r row. h.rows k r (cc (q.rows k, row));
      entries = λ k u hit. elim (q.entries k) [
        | inl same ↦ h.entries k u (cc (same, hit))
        | inr gone ↦ cc
      ];
    }

    module _ (repo_laws : RepositoryLaws stored cached sh.repo) where
      open sh use {repo}

      pub IsAllowed-save_row :
          (o : UrlToken) (w : W)
          → Allowed o.token o.url
          → IsAllowed w
          → IsAllowed (repo.save_token o w).1
      IsAllowed-save_row o w new h = record {
        rows = λ k r row. elim (repo_laws.save_row o w k) [
          | inl kept ↦ h.rows k r (cc (kept, row))
          | inr (here, _, added) ↦
              let same : r ≡ kept_row o = cc (row, added) in
              rw same (subst (λ t. Allowed t o.url) (sym here) new)
        ];
        entries = λ k u hit. elim (repo_laws.save_entries o w k) [
          | inl same ↦ h.entries k u (cc (same, hit))
          | inr gone ↦ cc
        ];
      }

      pub IsAllowed-delete_row :
          (t : Bytes) (w : W) → IsAllowed w → IsAllowed (repo.delete_token t w).1
      IsAllowed-delete_row t w h = record {
        rows = λ k r row. elim (repo_laws.delete_row t w k) [
          | inl kept ↦ h.rows k r (cc (kept, row))
          | inr (_, gone) ↦ cc
        ];
        entries = λ k u hit. elim (repo_laws.delete_entries t w k) [
          | inl same ↦ h.entries k u (cc (same, hit))
          | inr gone ↦ cc
        ];
      }

    pub IsAllowed-save_entry :
        CacheLaws stored cached sh.cache
        → (t u : Bytes) (ttl : ℤ) (w : W) → Allowed t u
        → IsAllowed w
        → IsAllowed (sh.cache.save_token t u ttl w).1
    IsAllowed-save_entry laws t u ttl w new h = record {
      rows = λ k r row. h.rows k r (cc (laws.save_rows t u ttl w k, row));
      entries = λ k v hit. elim (laws.save_entry t u ttl w k) [
        | inl same ↦ h.entries k v (cc (same, hit))
        | inr (inl gone) ↦ cc
        | inr (inr (here, entry)) ↦
            let same : v ≡ u = cc (entry, hit) in rw same (subst (λ t. Allowed t u) (sym here) new)
      ];
    }
