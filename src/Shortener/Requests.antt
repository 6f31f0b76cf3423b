-- ===== src/Shortener/Requests.antt =====
-- Sequences of calls of the service, and the coherence of cache and repository over all of them.
use pet_urls.Prelude.{Bytes, Option, none, some, List, [], ◌∷◌, Bool-cases, inl, inr, is_some}
use pet_urls.Errors.{GoError, Result}
use pet_urls.Shortener.Types.{UrlToken, kept_row, CreateTokenInput, Shortener}
use pet_urls.Shortener.Service.{
  after_repo_check, health_check, create_token, generate_token, create_token_with_owner,
  resolve_token, delete_token,
}
use pet_urls.Shortener.Interface.{
  Quiet, Quiet-refl, Quiet-trans, EnvLaws, RepositoryLaws, CacheLaws,
}
use pet_urls.Shortener.Coherence.{
  IsCoherent, IsCoherent-Quiet, IsCoherent-save_row, IsCoherent-delete_row, IsCoherent-save_entry,
}
use pet_urls.Shortener.Create.{Created, refused, failed, saved, create_token-Created}
use pet_urls.Shortener.Resolve
use pet_urls.Shortener.Resolve.{Resolved, hit, found, resolve_token-Resolved}
use pet_urls.Shortener.Delete.{Deleted, kept, absent, removed, delete_token-Deleted}

pub data Request : Type 0 where
  check : Request
  generate : Bytes → Request
  create : CreateTokenInput → Request
  resolve : Bytes → Request
  delete : Bytes → Bytes → Request

module _ {W : Type 0} (sh : Shortener W) where
  -- The world after one call; its result goes to the caller.
  unfoldable pub serve : Request → W → W
  serve check w = (health_check sh w).1
  serve (generate url) w = (generate_token sh url w).1
  serve (create input) w = (create_token_with_owner sh input w).1
  serve (resolve t) w = (resolve_token sh t w).1
  serve (delete t uid) w = (delete_token sh t uid w).1

  unfoldable pub run : List Request → W → W
  run [] w = w
  run (r ∷ rs) w = run rs (serve r w)

module _ {W : Type 0} (sh : Shortener W) (stored : W → Bytes → Option UrlToken)
    (cached : W → Bytes → Option Bytes) (env_laws : EnvLaws stored cached sh.env)
    (repo_laws : RepositoryLaws stored cached sh.repo)
    (cache_laws : CacheLaws stored cached sh.cache) where
  open sh use {env, repo, cache}

  Created-IsCoherent :
      {P : UrlToken → Type 0} {w : W} {x : (UrlToken × Option GoError) × W}
      → Created sh stored cached P w x
      → IsCoherent stored cached w
      → IsCoherent stored cached x.1
  Created-IsCoherent (refused o e w' q) h = IsCoherent-Quiet stored cached q h
  Created-IsCoherent (failed o e b q) h =
      IsCoherent-save_row stored cached repo_laws o b (IsCoherent-Quiet stored cached q h)
  Created-IsCoherent (saved o b q done p) h =
      let now = env_laws.now_quiet (repo.save_token o b).1 in
      IsCoherent-save_entry stored cached cache_laws (kept_row o) _ _
        (cc (now.rows o.token, (repo_laws.save_done o b done).1))
        (IsCoherent-Quiet stored cached now
          (IsCoherent-save_row stored cached repo_laws o b (IsCoherent-Quiet stored cached q h)))

  Resolved-IsCoherent :
      {t : Bytes} {w : W} {x : Result Bytes × W}
      → Resolved sh stored cached t w x
      → IsCoherent stored cached w
      → IsCoherent stored cached x.1
  Resolved-IsCoherent (hit u w' q entry) h = IsCoherent-Quiet stored cached q h
  Resolved-IsCoherent (Resolve.refused e w' q) h = IsCoherent-Quiet stored cached q h
  Resolved-IsCoherent {t} (found r c b ttl q row name live) h =
      IsCoherent-save_entry stored cached cache_laws r ttl b (cc (q.rows t, row, name))
        (IsCoherent-Quiet stored cached q h)

  Deleted-IsCoherent :
      {t uid : Bytes} {w : W} {x : Option GoError × W}
      → Deleted sh stored cached t uid w x
      → IsCoherent stored cached w
      → IsCoherent stored cached x.1
  Deleted-IsCoherent (kept e w' q) h = IsCoherent-Quiet stored cached q h
  Deleted-IsCoherent (absent w' q row) h = IsCoherent-Quiet stored cached q h
  Deleted-IsCoherent {t} (removed r b q row own clear) h =
      IsCoherent-delete_row stored cached repo_laws t b clear (IsCoherent-Quiet stored cached q h)

  pub create_token-IsCoherent :
      (input : CreateTokenInput) (w : W)
      → IsCoherent stored cached w
      → IsCoherent stored cached (create_token sh input w).1
  create_token-IsCoherent input w =
      Created-IsCoherent (create_token-Created sh stored cached env_laws input w)

  pub delete_token-IsCoherent :
      (t uid : Bytes) (w : W)
      → IsCoherent stored cached w
      → IsCoherent stored cached (delete_token sh t uid w).1
  delete_token-IsCoherent t uid w =
      Deleted-IsCoherent (delete_token-Deleted sh stored cached repo_laws cache_laws t uid w)

  create_token_with_owner-IsCoherent :
      (input : CreateTokenInput) (w : W)
      → IsCoherent stored cached w
      → IsCoherent stored cached (create_token_with_owner sh input w).1
  unfolding create_token_with_owner
  create_token_with_owner-IsCoherent input w h = elim (Bool-cases (is_some input.owner_id)) [
    | inl owned ↦ rw owned (create_token-IsCoherent input w h)
    | inr nobody ↦ rw nobody h
  ]

  after_repo_check-Quiet :
      (e : Option GoError) (w : W) → Quiet stored cached w (after_repo_check sh e w).1
  unfolding after_repo_check
  after_repo_check-Quiet none w = cache_laws.health_quiet w
  after_repo_check-Quiet (some e) w = Quiet-refl stored cached w

  -- One call of any method keeps the cache coherent with the repository.
  pub serve-IsCoherent :
      (r : Request) (w : W) → IsCoherent stored cached w → IsCoherent stored cached (serve sh r w)
  unfolding serve health_check generate_token
  serve-IsCoherent check w h =
      IsCoherent-Quiet stored cached
        (Quiet-trans stored cached (repo_laws.health_quiet w) (after_repo_check-Quiet _ _)) h
  serve-IsCoherent (generate url) w h = create_token-IsCoherent _ w h
  serve-IsCoherent (create input) w h = create_token_with_owner-IsCoherent input w h
  serve-IsCoherent (resolve t) w h =
      Resolved-IsCoherent
        (resolve_token-Resolved sh stored cached env_laws repo_laws cache_laws t w) h
  serve-IsCoherent (delete t uid) w h = delete_token-IsCoherent t uid w h

  -- Where the dependencies keep their promises, no sequence of calls one after another makes the
  -- cache hold a URL other than that of a stored row with the same token.
  pub run-IsCoherent :
      (rs : List Request) (w : W)
      → IsCoherent stored cached w
      → IsCoherent stored cached (run sh rs w)
  unfolding run
  run-IsCoherent [] w h = h
  run-IsCoherent (r ∷ rs) w h = run-IsCoherent rs (serve sh r w) (serve-IsCoherent r w h)
