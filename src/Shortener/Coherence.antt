-- ===== src/Shortener/Coherence.antt =====
-- Coherence of the cache with the repository, and the steps that it has to survive.
use pet_urls.Prelude.{◌≡◌, inl, inr, ◌∙◌, Bytes, Option, none, some}
use pet_urls.Prelude.Int.{ℤ}
use pet_urls.Shortener.Types.{UrlToken, Repository, Cache}
use pet_urls.Shortener.Interface.{Quiet, RepositoryLaws, CacheLaws}

module _ {W : Type 0} (stored : W → Bytes → Option UrlToken)
    (cached : W → Bytes → Option Bytes) where
  abbrev pub IsCoherent : W → Type 0
  IsCoherent w =
      (k u : Bytes) → cached w k ≡ some u → (r : UrlToken) × (stored w k ≡ some r) × (r.url ≡ u)

  pub IsCoherent-Quiet : {w w' : W} → Quiet stored cached w w' → IsCoherent w → IsCoherent w'
  IsCoherent-Quiet q h k u hit = elim (q.entries k) [
    | inl same ↦ let (r, row, url) = h k u (cc (same, hit)) in (r, q.rows k ∙ row, url)
    | inr gone ↦ cc
  ]

  module _ {repo : Repository W} (laws : RepositoryLaws stored cached repo) where
    pub IsCoherent-save_row :
        (r : UrlToken) (w : W) → IsCoherent w → IsCoherent (repo.save_token r w).1
    IsCoherent-save_row r w h k u hit = elim (laws.save_entries r w k) [
      | inl same ↦
          let (s, row, url) = h k u (cc (same, hit)) in
          elim (laws.save_row r w k) [
            | inl kept ↦ (s, kept ∙ row, url)
            | inr added ↦ cc (added.1, row)
          ]
      | inr gone ↦ cc
    ]

    -- Once the cache has no entry for a token, its row may go.
    pub IsCoherent-delete_row :
        (t : Bytes) (w : W)
        → cached w t ≡ none
        → IsCoherent w
        → IsCoherent (repo.delete_token t w).1
    IsCoherent-delete_row t w clear h k u hit = elim (laws.delete_entries t w k) [
      | inl same ↦
          let (s, row, url) = h k u (cc (same, hit)) in
          elim (laws.delete_row t w k) [
            | inl kept ↦ (s, kept ∙ row, url)
            | inr (here, _) ↦ cc (here, clear, same, hit)
          ]
      | inr gone ↦ cc
    ]

  module _ {cache : Cache W} (laws : CacheLaws stored cached cache) where
    -- A save keeps coherence where the saved entry is the URL of the stored row.
    pub IsCoherent-save_entry :
        (r : UrlToken) (ttl : ℤ) (w : W)
        → stored w r.token ≡ some r
        → IsCoherent w
        → IsCoherent (cache.save_token r.token r.url ttl w).1
    IsCoherent-save_entry r ttl w row h k u hit = elim (laws.save_entry r.token r.url ttl w k) [
      | inl same ↦
          let (s, row', url) = h k u (cc (same, hit)) in
          (s, laws.save_rows r.token r.url ttl w k ∙ row', url)
      | inr (inl gone) ↦ cc
      | inr (inr (here, entry)) ↦
          (r, laws.save_rows r.token r.url ttl w k ∙ cc (here, row), cc (entry, hit))
    ]
