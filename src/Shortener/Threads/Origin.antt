-- ===== src/Shortener/Threads/Origin.antt =====
-- Where the URLs come from that the concurrent calls of shortener.go resolve.
mod Worlds
unfoldable pub use Worlds.{Holds}
pub use Worlds.{IsAllowed}
use pet_urls.Prelude.{
  ℕ, ◌≡◌, refl, sym, ◌⊎◌, inl, inr, Bytes, Option, none, some, [], ltb, ◌==◌, ◌=b=◌, =b=_sound,
  Bool-cases,
}
use mathlib.Core.Path.{subst}
use pet_urls.Prelude.Int.{ℤ, ltb_ℤ}
use pet_urls.Errors.{GoError, Result, ok, err}
use pet_urls.Strings.Utf8.{rune_count}
use pet_urls.Url.{normalize_http}
use pet_urls.Shortener.Types.{UrlToken, CreateTokenInput, Shortener}
use pet_urls.Shortener.Service.{slice_bytes, encode}
use pet_urls.Shortener.Interface.{Quiet, EnvLaws, RepositoryLaws, CacheLaws}
use pet_urls.Shortener.Threads.{
  resolved, Task, read_cache, read_row, check_expiry, read_rest, keep_found, fetch_row, drop_entry,
  drop_row, read_clock, draw_token, save_row, read_ttl, keep_created, ended, task_of_entry,
  task_of_row, task_of_expiry, task_of_fetched, task_of_dropped, task_of_clock, task_of_token,
  task_of_saved, create_task, IsCall, resolution, deletion, creation, advance, System, turn, Reach,
  begun, later,
}
use pet_urls.Shortener.Threads.Origin.Worlds.{
  MayCreate, Holds, IsAllowed, IsAllowed-Quiet, IsAllowed-save_row, IsAllowed-delete_row,
  IsAllowed-save_entry,
}

module _ (Allowed : Bytes → Bytes → Type 0) where
  module _ {W : Type 0} (sh : Shortener W) (stored : W → Bytes → Option UrlToken)
      (cached : W → Bytes → Option Bytes) where
    module _ (env_laws : EnvLaws stored cached sh.env)
        (repo_laws : RepositoryLaws stored cached sh.repo)
        (cache_laws : CacheLaws stored cached sh.cache) where
      open sh use {env, repo, cache, settings}

      -- What a step is about: the world that it leaves and what its thread then holds.
      abbrev Fine : Task × W → Type 0
      Fine x = IsAllowed Allowed sh stored cached x.1 × Holds Allowed x.0

      entry-Fine :
          (t : Bytes) (c : Result (Option Bytes)) (w w' : W)
          → ((u : Bytes) → c ≡ ok (some u) → cached w t ≡ some u)
          → IsAllowed Allowed sh stored cached w
          → Holds Allowed (task_of_entry sh t c)
      unfolding task_of_entry Holds
      entry-Fine t (ok (some url)) w w' hit h = h.entries t url (hit url refl)
      entry-Fine t (ok none) w w' hit h = tt
      entry-Fine t (err e) w w' hit h = tt

      row-Fine :
          (t : Bytes) (f : Result UrlToken) (w : W)
          → ((r : UrlToken) → f ≡ ok r → (stored w t ≡ some r) × (r.token ≡ t))
          → IsAllowed Allowed sh stored cached w
          → Holds Allowed (task_of_row sh t f)
      unfolding task_of_row Holds
      row-Fine t (ok row) w found h = let (here, name) = found row refl in (name, h.rows t row here)
      row-Fine t (err e) w found h = tt

      expiry-Fine :
          (t : Bytes) (row : UrlToken) (now : ℤ)
          → (row.token ≡ t) × Allowed t row.url
          → Holds Allowed (task_of_expiry sh t row now)
      unfolding task_of_expiry Holds
      expiry-Fine t row now h = elim (Bool-cases (ltb_ℤ row.expires_at now)) [
        | inl late ↦ rw late tt
        | inr live ↦ rw live h
      ]

      fetched-Fine :
          (t uid : Bytes) (f : Result UrlToken) → Holds Allowed (task_of_fetched sh t uid f)
      unfolding task_of_fetched Holds
      fetched-Fine t uid (err e) = tt
      fetched-Fine t uid (ok row) = elim (Bool-cases (slice_bytes row.owner_id =b= uid)) [
        | inl own ↦ rw own tt
        | inr foreign ↦ rw foreign tt
      ]

      dropped-Fine : (t : Bytes) (e : Option GoError) → Holds Allowed (task_of_dropped sh t e)
      unfolding task_of_dropped Holds
      dropped-Fine t none = tt
      dropped-Fine t (some e) = tt

      clock-Fine :
          (input : CreateTokenInput) (url : Bytes) (now : ℤ)
          → MayCreate Allowed input url
          → Holds Allowed (task_of_clock sh input url now)
      unfolding task_of_clock Holds
      clock-Fine input url now may = elim (Bool-cases (ltb 64 (rune_count input.token))) [
        | inl long ↦ rw long tt
        | inr short ↦ rw short (elim (Bool-cases (input.token =b= [])) [
          | inl empty ↦ rw empty (λ token. may token (inl (=b=_sound input.token [] empty)))
          | inr given ↦ rw given (may input.token (inr refl))
        ])
      ]

      token-Fine :
          (input : CreateTokenInput) (o : UrlToken) (t : Result Bytes)
          → ((token : Bytes) → Allowed token o.url)
          → Holds Allowed (task_of_token sh input o t)
      unfolding task_of_token Holds
      token-Fine input o (ok t) may = may t
      token-Fine input o (err e) may = tt

      saved-Fine :
          (o : UrlToken) (e : Option GoError)
          → Allowed o.token o.url
          → Holds Allowed (task_of_saved sh o e)
      unfolding task_of_saved Holds
      saved-Fine o none may = may
      saved-Fine o (some e) may = tt

      advance-Fine :
          (p : Task) (w : W)
          → IsAllowed Allowed sh stored cached w
          → Holds Allowed p
          → Fine (advance sh p w)
      unfolding advance Holds
      advance-Fine (read_cache t) w h p = (
        IsAllowed-Quiet Allowed sh stored cached (cache_laws.get_quiet t w) h,
        entry-Fine t (cache.get_token t w).0 w w (cache_laws.get_hit t w) h,
      )
      advance-Fine (read_row t) w h p = (
        IsAllowed-Quiet Allowed sh stored cached (repo_laws.get_quiet t w) h,
        row-Fine t (repo.get_token t w).0 w (repo_laws.get_found t w) h,
      )
      advance-Fine (check_expiry t row) w h p = (
        IsAllowed-Quiet Allowed sh stored cached (env_laws.now_quiet w) h,
        expiry-Fine t row (env.now w).0 p,
      )
      advance-Fine (read_rest t row) w h p =
          (IsAllowed-Quiet Allowed sh stored cached (env_laws.now_quiet w) h, p)
      advance-Fine (keep_found t row now) w h (name, may) =
          let own = subst (λ k. Allowed k row.url) (sym name) may in
          (
            IsAllowed-save_entry Allowed sh stored cached cache_laws row.token row.url _ w own h,
            may,
          )
      advance-Fine (fetch_row t uid) w h p = (
        IsAllowed-Quiet Allowed sh stored cached (repo_laws.get_quiet t w) h,
        fetched-Fine t uid (repo.get_token t w).0,
      )
      advance-Fine (drop_entry t) w h p = (
        IsAllowed-Quiet Allowed sh stored cached (cache_laws.delete_quiet t w) h,
        dropped-Fine t (cache.delete_token t w).0,
      )
      advance-Fine (drop_row t) w h p =
          (IsAllowed-delete_row Allowed sh stored cached repo_laws t w h, tt)
      advance-Fine (read_clock input url) w h p = (
        IsAllowed-Quiet Allowed sh stored cached (env_laws.now_quiet w) h,
        clock-Fine input url (env.now w).0 p,
      )
      advance-Fine (draw_token input o) w h p = (
        IsAllowed-Quiet Allowed sh stored cached (env_laws.rand_quiet _ w) h,
        token-Fine input o (encode sh (env.rand_read settings.token_decoded_length w).0) p,
      )
      advance-Fine (save_row o) w h p = (
        IsAllowed-save_row Allowed sh stored cached repo_laws o w p h,
        saved-Fine o (repo.save_token o w).0 p,
      )
      advance-Fine (read_ttl o) w h p =
          (IsAllowed-Quiet Allowed sh stored cached (env_laws.now_quiet w) h, p)
      advance-Fine (keep_created o now) w h p =
          (IsAllowed-save_entry Allowed sh stored cached cache_laws o.token o.url _ w p h, tt)
      advance-Fine (ended r) w h p = (h, p)

      -- Every row and cache entry is allowed, and every thread holds what is allowed.
      pub record IsSound (x : System sh) : Type 0 where
        pub world : IsAllowed Allowed sh stored cached x.world
        pub tasks : (i : ℕ) → Holds Allowed (x.task i)

      turn-IsSound : (i : ℕ) (x : System sh) → IsSound x → IsSound (turn sh i x)
      unfolding turn
      turn-IsSound i x h =
          let (world, own) = advance-Fine (x.task i) x.world h.world (h.tasks i) in
          record {
            world = world;
            tasks = λ j. elim (Bool-cases (i == j)) [
              | inl this ↦ rw this own
              | inr other ↦ rw other (h.tasks j)
            ];
          }

      -- Where the dependencies keep their promises: in whatever order the threads take their turns,
      -- when at the start every row, cache entry and local variable of a thread has a URL that is
      -- allowed under its token (for a creation: under the token that it asks for, or under all when
      -- it asks for none), the same holds ever after, and so every URL that a resolution returns is
      -- allowed under the token that it was asked for.
      pub Reach-IsSound : {x y : System sh} → Reach sh x y → IsSound x → IsSound y
      Reach-IsSound begun h = h
      Reach-IsSound (later r i) h = turn-IsSound i _ (Reach-IsSound r h)

module _ {W : Type 0} (sh : Shortener W) where
  -- What `normalizeHTTP` makes of some text.
  unfoldable pub IsNormalized : Bytes → Type 0
  IsNormalized u = (raw : Bytes) × (normalize_http sh.lib raw ≡ ok u)

  abbrev pub Normal : Bytes → Bytes → Type 0
  Normal _ u = IsNormalized u

  creation-Holds :
      (input : CreateTokenInput) (u : Result Bytes)
      → normalize_http sh.lib input.url ≡ u
      → Holds Normal (create_task sh input u)
  unfolding Holds IsNormalized
  creation-Holds input (ok url) valid = λ token _. (input.url, valid)
  creation-Holds input (err e) valid = tt

  IsCall-Holds : {p : Task} → IsCall sh p → Holds Normal p
  unfolding Holds
  IsCall-Holds (resolution t) = tt
  IsCall-Holds (deletion t uid) = tt
  IsCall-Holds (creation input) = creation-Holds input _ refl

  -- Where the dependencies keep their promises: when every row and cache entry has a normalised URL
  -- and every thread starts with one of the methods, then in whatever order they take their turns, a
  -- URL that a resolution returns is a normalised URL.
  pub Reach-IsNormalized :
      (stored : W → Bytes → Option UrlToken) (cached : W → Bytes → Option Bytes)
      → EnvLaws stored cached sh.env
      → RepositoryLaws stored cached sh.repo
      → CacheLaws stored cached sh.cache
      → {x y : System sh} → Reach sh x y
      → IsAllowed Normal sh stored cached x.world
      → ((i : ℕ) → IsCall sh (x.task i))
      → (i : ℕ) (t u : Bytes) → y.task i ≡ ended (resolved t (ok u))
      → IsNormalized u
  unfolding Holds
  Reach-IsNormalized stored cached env_laws repo_laws cache_laws {x = x} r world calls i t u end =
      let start : IsSound Normal sh stored cached env_laws repo_laws cache_laws x = record {
        world = world;
        tasks = λ j. IsCall-Holds (calls j);
      } in
      let after = Reach-IsSound Normal sh stored cached env_laws repo_laws cache_laws r start in
      subst (Holds Normal) end (after.tasks i)
