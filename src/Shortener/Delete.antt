-- ===== src/Shortener/Delete.antt =====
-- What `DeleteToken` does to the world and returns, by how far it gets.
use pet_urls.Prelude.{
  ◌≡◌, refl, Bytes, true, Option, none, some, Bool-cases, inl, inr, ◌=b=◌, =b=_sound,
}
use pet_urls.Errors.{GoError, Result, ok, err, is_not_found_error}
use pet_urls.Shortener.Types.{UrlToken, Shortener}
use pet_urls.Shortener.Service.{
  slice_bytes, delete_error, after_cache_delete, after_fetch, delete_token,
}
use pet_urls.Shortener.Interface.{Quiet, Quiet-trans, RepositoryLaws, CacheLaws}

module _ {W : Type 0} (sh : Shortener W) (stored : W → Bytes → Option UrlToken)
    (cached : W → Bytes → Option Bytes) where
  open sh use {repo, cache}

  -- How a deletion of `t` for the user `uid` ends: with an error and the rows as they were, with
  -- nothing to delete, or with a call of the repository for a row of that user, once the cache has no
  -- entry for it.
  pub data Deleted (t uid : Bytes) (w : W) : (Option GoError × W) → Type 0 where
    kept : (e : GoError) (w' : W) → Quiet stored cached w w' → Deleted t uid w (some e, w')
    absent : (w' : W) → Quiet stored cached w w' → stored w t ≡ none → Deleted t uid w (none, w')
    removed :
        (r : UrlToken) (b : W)
        → Quiet stored cached w b
        → stored w t ≡ some r
        → slice_bytes r.owner_id ≡ uid
        → cached b t ≡ none
        → Deleted t uid w (delete_error (repo.delete_token t b).0, (repo.delete_token t b).1)

  after_cache_delete-Deleted :
      (t uid : Bytes) (r : UrlToken) (e : Option GoError) (w b : W)
      → Quiet stored cached w b
      → stored w t ≡ some r
      → slice_bytes r.owner_id ≡ uid
      → (e ≡ none → cached b t ≡ none)
      → Deleted t uid w (after_cache_delete sh t e b)
  unfolding after_cache_delete
  after_cache_delete-Deleted t uid r (some e) w b q row own clear = kept e b q
  after_cache_delete-Deleted t uid r none w b q row own clear = removed r b q row own (clear refl)

  module _ (repo_laws : RepositoryLaws stored cached repo)
      (cache_laws : CacheLaws stored cached cache) where
    after_fetch-Deleted :
        (t uid : Bytes) (f : Result UrlToken) (w b : W)
        → Quiet stored cached w b
        → ((r : UrlToken) → f ≡ ok r → stored w t ≡ some r)
        → ((e : GoError) → f ≡ err e → is_not_found_error (some e) ≡ true → stored w t ≡ none)
        → Deleted t uid w (after_fetch sh t uid f b)
    unfolding after_fetch
    after_fetch-Deleted t uid (err e) w b q row gone =
        elim (Bool-cases (is_not_found_error (some e))) [
          | inl missing ↦ rw missing (absent b q (gone e refl missing))
          | inr other ↦ rw other (kept _ b q)
        ]
    after_fetch-Deleted t uid (ok r) w b q row gone =
        elim (Bool-cases (slice_bytes r.owner_id =b= uid)) [
          | inl own ↦ rw own (
              after_cache_delete-Deleted t uid r _ w _
                (Quiet-trans stored cached q (cache_laws.delete_quiet t b)) (row r refl)
                (=b=_sound _ _ own) (cache_laws.delete_done t b))
          | inr other ↦ rw other (kept _ b q)
        ]

    -- Every deletion keeps the rows with an error, finds nothing, or removes a row of its user.
    pub delete_token-Deleted : (t uid : Bytes) (w : W) → Deleted t uid w (delete_token sh t uid w)
    unfolding delete_token
    delete_token-Deleted t uid w =
        after_fetch-Deleted t uid _ w _ (repo_laws.get_quiet t w)
          (λ r fetched. (repo_laws.get_found t w r fetched).0) (repo_laws.get_missing t w)
