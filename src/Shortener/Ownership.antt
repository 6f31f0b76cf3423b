-- ===== src/Shortener/Ownership.antt =====
-- What creations and deletions of URL tokens do to the stored rows.
use pet_urls.Prelude.{
  ◌≡◌, ◌≢◌, ◌∙◌, ◌⊎◌, inl, inr, Bytes, Option, none, some, arith, Bool-cases, Option-cases,
}
use pet_urls.Errors.{GoError, is_not_found_error}
use pet_urls.Shortener.Types.{UrlToken, kept_row, CreateTokenInput, Shortener}
use pet_urls.Shortener.Service.{slice_bytes, delete_error, create_token, delete_token}
use pet_urls.Shortener.Interface.{EnvLaws, RepositoryLaws, CacheLaws}
use pet_urls.Shortener.Coherence.{IsCoherent, IsCoherent-Quiet}
use pet_urls.Shortener.Create
use pet_urls.Shortener.Create.{IsAnswer, Created, refused, failed, saved, create_token-Created}
use pet_urls.Shortener.Delete.{Deleted, kept, absent, removed, delete_token-Deleted}

module _ {W : Type 0} (sh : Shortener W) (stored : W → Bytes → Option UrlToken)
    (cached : W → Bytes → Option Bytes) (env_laws : EnvLaws stored cached sh.env)
    (repo_laws : RepositoryLaws stored cached sh.repo)
    (cache_laws : CacheLaws stored cached sh.cache) where
  open sh use {env, repo, cache}

  save_keeps_row :
      (o r : UrlToken) (b : W) (k : Bytes)
      → stored b k ≡ some r
      → stored (repo.save_token o b).1 k ≡ some r
  save_keeps_row o r b k row = elim (repo_laws.save_row o b k) [
    | inl same ↦ same ∙ row
    | inr added ↦ cc (added.1, row)
  ]

  world_of_save-rows :
      (o : UrlToken) (b : W) (k : Bytes)
      → stored (Create.world_of_save sh stored cached o b) k ≡ stored (repo.save_token o b).1 k
  world_of_save-rows o b k =
      cache_laws.save_rows o.token o.url _ _ k ∙ (env_laws.now_quiet (repo.save_token o b).1).rows k

  Created-row :
      {P : UrlToken → Type 0} {w : W} {x : (UrlToken × Option GoError) × W} (k : Bytes)
      (r : UrlToken)
      → Created sh stored cached P w x
      → stored w k ≡ some r
      → stored x.1 k ≡ some r
  Created-row k r (refused o e w' q) row = q.rows k ∙ row
  Created-row k r (failed o e b q) row = save_keeps_row o r b k (q.rows k ∙ row)
  Created-row k r (saved o b q done p) row =
      world_of_save-rows o b k ∙ save_keeps_row o r b k (q.rows k ∙ row)

  -- Where the dependencies keep their promises, a creation never changes or removes a stored row,
  -- whatever it returns: a token that is taken keeps its URL, its expiry and its owner.
  pub create_token_keeps_rows :
      (input : CreateTokenInput) (w : W) (k : Bytes) (r : UrlToken)
      → stored w k ≡ some r
      → stored (create_token sh input w).1 k ≡ some r
  create_token_keeps_rows input w k r =
      Created-row k r (create_token-Created sh stored cached env_laws input w)

  -- What a creation that reports no error has done.
  pub record IsStored (input : CreateTokenInput) (w : W) (o : UrlToken) (w' : W) : Type 0 where
    pub answer : IsAnswer sh stored cached input w o
    pub fresh : stored w o.token ≡ none
    pub row : stored w' o.token ≡ some (kept_row o)
    pub others : (k : Bytes) → k ≢ o.token → stored w' k ≡ stored w k

  Created-IsStored :
      {input : CreateTokenInput} {w : W} {x : (UrlToken × Option GoError) × W}
      → Created sh stored cached (IsAnswer sh stored cached input w) w x
      → x.0.1 ≡ none
      → IsStored input w x.0.0 x.1
  Created-IsStored (refused o e w' q) h = cc
  Created-IsStored (failed o e b q) h = cc
  Created-IsStored (saved o b q done p) h = record {
    answer = p;
    fresh = cc (q.rows o.token, (repo_laws.save_done o b done).0);
    row = world_of_save-rows o b o.token ∙ (repo_laws.save_done o b done).1;
    others = λ k other. elim (repo_laws.save_row o b k) [
      | inl same ↦ world_of_save-rows o b k ∙ same ∙ q.rows k
      | inr added ↦ absurd (other added.0)
    ];
  }

  -- Where the dependencies keep their promises, a creation that returns no error has added exactly one
  -- row, the token that it returns with its expiry cut to the microsecond, under a name that was free;
  -- that token has the normalised URL, the
  -- requested name where one was given, the requested owner, and an expiry of the requested or the
  -- default lifetime after the clock's reading.
  pub create_token-IsStored :
      (input : CreateTokenInput) (w : W)
      → (create_token sh input w).0.1 ≡ none
      → IsStored input w (create_token sh input w).0.0 (create_token sh input w).1
  create_token-IsStored input w =
      Created-IsStored (create_token-Created sh stored cached env_laws input w)

  abbrev pub RowKeptOrOwn : Bytes → Bytes → W → W → Bytes → Type 0
  RowKeptOrOwn t uid w w' k =
      (stored w' k ≡ stored w k)
      ⊎ ((k ≡ t)
          × (stored w' k ≡ none)
          × ((r : UrlToken) × (stored w t ≡ some r) × (slice_bytes r.owner_id ≡ uid)))

  Deleted-row :
      {t uid : Bytes} {w : W} {x : Option GoError × W} (k : Bytes)
      → Deleted sh stored cached t uid w x
      → RowKeptOrOwn t uid w x.1 k
  Deleted-row k (kept e w' q) = inl (q.rows k)
  Deleted-row k (absent w' q gone) = inl (q.rows k)
  Deleted-row {t} k (removed r b q row own clear) = elim (repo_laws.delete_row t b k) [
    | inl same ↦ inl (same ∙ q.rows k)
    | inr (here, gone) ↦ inr (here, gone, (r, row, own))
  ]

  -- Where the dependencies keep their promises, a deletion leaves every row as it was, but for the row
  -- of its token, which it may remove only where the requesting user is the stored owner (a nil owner
  -- counts as the empty user ID).
  pub delete_token_rows :
      (t uid : Bytes) (w : W) (k : Bytes) → RowKeptOrOwn t uid w (delete_token sh t uid w).1 k
  delete_token_rows t uid w k =
      Deleted-row k (delete_token-Deleted sh stored cached repo_laws cache_laws t uid w)

  removed_row :
      (t : Bytes) (b : W)
      → delete_error (repo.delete_token t b).0 ≡ none
      → stored (repo.delete_token t b).1 t ≡ none
  removed_row t b h = elim (Option-cases (repo.delete_token t b).0) [
    | inl done ↦ repo_laws.delete_done t b done
    | inr (e, fault) ↦ elim (Bool-cases (is_not_found_error (repo.delete_token t b).0)) [
      | inl missing ↦ repo_laws.delete_missing t b missing
      | inr other ↦ absurd (ground arith)
    ]
  ]

  uncached :
      {w : W} (t : Bytes) → IsCoherent stored cached w → stored w t ≡ none → cached w t ≡ none
  uncached {w} t h gone = elim (Option-cases (cached w t)) [
    | inl empty ↦ empty
    | inr (u, entry) ↦ let (r, row, url) = h t u entry in cc (row, gone)
  ]

  Deleted-gone :
      {t uid : Bytes} {w : W} {x : Option GoError × W}
      → Deleted sh stored cached t uid w x
      → IsCoherent stored cached w
      → x.0 ≡ none
      → (stored x.1 t ≡ none) × (cached x.1 t ≡ none)
  Deleted-gone (kept e w' q) h done = cc
  Deleted-gone {t} (absent w' q gone) h done =
      let gone' = q.rows t ∙ gone in (gone', uncached t (IsCoherent-Quiet stored cached q h) gone')
  Deleted-gone {t} (removed r b q row own clear) h done = (
    removed_row t b done,
    elim (repo_laws.delete_entries t b t) [ inl same ↦ same ∙ clear | inr gone ↦ gone ],
  )

  -- Where the dependencies keep their promises, a deletion that returns no error, from a coherent
  -- world, leaves neither a row nor a cache entry for its token.
  pub delete_token_done :
      (t uid : Bytes) (w : W)
      → IsCoherent stored cached w
      → (delete_token sh t uid w).0 ≡ none
      → (stored (delete_token sh t uid w).1 t ≡ none)
        × (cached (delete_token sh t uid w).1 t ≡ none)
  delete_token_done t uid w =
      Deleted-gone (delete_token-Deleted sh stored cached repo_laws cache_laws t uid w)
