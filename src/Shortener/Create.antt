-- ===== src/Shortener/Create.antt =====
-- What `createToken` does to the world, by how far it gets.
use pet_urls.Prelude.{
  ◌≤◌, ◌≢◌, =b=_sound, ◌≡◌, refl, inl, inr, Bytes, Option, none, some, [], arith, ltb, ◌=b=◌,
  Bool-cases,
}
use pet_urls.Prelude.Int.{◌+ℤ◌}
use pet_urls.Errors.{GoError, Result, ok, err, is_not_unique_error}
use pet_urls.Strings.Utf8.{rune_count}
use pet_urls.Url.{normalize_http}
use pet_urls.Shortener.Types.{UrlToken, CreateTokenInput, Shortener}
use pet_urls.Shortener.Service.{
  effective_ttl, cache_ttl, generate_random_base58, choose_token, after_save, after_choice,
  after_url, create_token,
}
use pet_urls.Shortener.Interface.{Quiet, Quiet-refl, Quiet-trans, EnvLaws}

module _ {W : Type 0} (sh : Shortener W) (stored : W → Bytes → Option UrlToken)
    (cached : W → Bytes → Option Bytes) where
  open sh use {lib, env, repo, cache, settings as s}

  -- What a successful creation returns.
  pub record IsAnswer (input : CreateTokenInput) (w : W) (o : UrlToken) : Type 0 where
    pub url : normalize_http lib input.url ≡ ok o.url
    pub expires_at : o.expires_at ≡ (env.now w).0 +ℤ effective_ttl sh input
    pub owner_id : o.owner_id ≡ input.owner_id
    pub short : rune_count input.token ≤ 64
    pub token : input.token ≢ [] → o.token ≡ input.token

  -- The world after a row was saved in the world `b`: the clock is read and the cache is filled.
  abbrev pub world_of_save : UrlToken → W → W
  world_of_save o b =
      let (now, c) = env.now (repo.save_token o b).1 in
      (cache.save_token o.token o.url (cache_ttl s o.expires_at now) c).1

  -- How a creation from `w` ends: refused before the repository is asked, failed by it, or saved
  -- with an output of which `P` holds.
  pub data Created (P : UrlToken → Type 0) (w : W)
      : ((UrlToken × Option GoError) × W) → Type 0 where
    refused :
        (o : UrlToken) (e : GoError) (w' : W)
        → Quiet stored cached w w'
        → Created P w ((o, some e), w')
    failed :
        (o : UrlToken) (e : GoError) (b : W)
        → Quiet stored cached w b
        → Created P w ((o, some e), (repo.save_token o b).1)
    saved :
        (o : UrlToken) (b : W)
        → Quiet stored cached w b
        → (repo.save_token o b).0 ≡ none
        → P o
        → Created P w ((o, none), world_of_save o b)

  after_save-Created :
      (P : UrlToken → Type 0) (o : UrlToken) (e : Option GoError) {w : W} (b : W)
      → Quiet stored cached w b
      → P o
      → (repo.save_token o b).0 ≡ e
      → Created P w (after_save sh o e (repo.save_token o b).1)
  unfolding after_save
  after_save-Created P o none b q p done = saved o b q done p
  after_save-Created P o (some e) b q p fault = elim (Bool-cases (is_not_unique_error (some e))) [
    | inl taken ↦ rw taken (failed o _ b q)
    | inr other ↦ rw other (failed o _ b q)
  ]

  after_choice-Created :
      (P : UrlToken → Type 0) (input : CreateTokenInput) (o : UrlToken) (t : Result Bytes) {w : W}
      (b : W)
      → Quiet stored cached w b
      → ((token : Bytes) → t ≡ ok token → P (record o { token = token; owner_id = input.owner_id }))
      → Created P w (after_choice sh input o t b)
  unfolding after_choice
  after_choice-Created P input o (ok t) b q p =
      after_save-Created P (record o { token = t; owner_id = input.owner_id }) _ b q (p t refl) refl
  after_choice-Created P input o (err e) b q p = refused o _ b q

  choose_token_requested :
      (t : Bytes) (w : W) (token : Bytes) → (choose_token sh t w).0 ≡ ok token → t ≢ [] → token ≡ t
  unfolding choose_token
  choose_token_requested t w token h given = ground (arith, =b=_sound t [])

  module _ (env_laws : EnvLaws stored cached env) where
    choose_token-Quiet : (t : Bytes) (w : W) → Quiet stored cached w (choose_token sh t w).1
    unfolding choose_token generate_random_base58
    choose_token-Quiet t w = elim (Bool-cases (t =b= [])) [
      | inl empty ↦ rw empty (env_laws.rand_quiet s.token_decoded_length w)
      | inr given ↦ rw given (Quiet-refl stored cached w)
    ]

    after_url-Created :
        (input : CreateTokenInput) (u : Result Bytes) (w : W)
        → normalize_http lib input.url ≡ u
        → Created (IsAnswer input w) w (after_url sh input u w)
    unfolding after_url
    after_url-Created input (err e) w h = refused _ _ w (Quiet-refl stored cached w)
    after_url-Created input (ok u) w h = elim (Bool-cases (ltb 64 (rune_count input.token))) [
      | inl long ↦ rw long (refused _ _ _ (env_laws.now_quiet w))
      | inr short ↦ rw short (
          after_choice-Created (IsAnswer input w) input _ _ _
            (Quiet-trans stored cached (env_laws.now_quiet w) (choose_token-Quiet input.token _))
            (λ token chosen. record {
              url = h;
              expires_at = refl;
              owner_id = refl;
              short = ground arith;
              token = choose_token_requested input.token _ token chosen;
            }))
    ]

    -- Every creation is refused, failed or saved.
    pub create_token-Created :
        (input : CreateTokenInput) (w : W) → Created (IsAnswer input w) w (create_token sh input w)
    unfolding create_token
    create_token-Created input w = after_url-Created input (normalize_http lib input.url) w refl
