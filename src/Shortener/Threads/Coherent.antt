-- ===== src/Shortener/Threads/Coherent.antt =====
-- The cache and the rows while creations and resolutions of shortener.go run at the same time.
mod Knowledge
pub use Knowledge.{HasUrl}
use pet_urls.Prelude.{
  ℕ, ◌≡◌, refl, sym, ap, ◌∙◌, inl, inr, Bytes, Bool, true, false, Option, none, some, [], ltb, ◌==◌,
  ==_iff, ◌=b=◌, if◌then◌else◌, Bool-cases, not,
}
use mathlib.Core.Path.{subst}
use pet_urls.Prelude.Int.{ℤ, ltb_ℤ}
use pet_urls.Errors.{GoError, Result, ok, err, is_not_unique_error, is_not_found_error}
use pet_urls.Strings.Utf8.{rune_count}
use pet_urls.Url.{normalize_http}
use pet_urls.Shortener.Types.{UrlToken, kept_row, CreateTokenInput, Shortener}
use pet_urls.Shortener.Service.{cache_ttl, encode}
use pet_urls.Shortener.Interface.{Quiet, EnvLaws, RepositoryLaws, CacheLaws}
use pet_urls.Shortener.Coherence.{
  IsCoherent, IsCoherent-Quiet, IsCoherent-save_row, IsCoherent-save_entry,
}
use pet_urls.Shortener.Threads.{
  resolved, deleted, created, Task, read_cache, read_row, check_expiry, read_rest, keep_found,
  fetch_row, drop_entry, drop_row, read_clock, draw_token, save_row, read_ttl, keep_created, ended,
  task_of_entry, task_of_row, task_of_expiry, task_of_clock, task_of_token, task_of_saved,
  create_task, IsCall, resolution, deletion, creation, advance, System, update, turn, Reach, begun,
  later,
}
use pet_urls.Shortener.Threads.Unique.{deletes, advance_rows, deletes-advance}
use pet_urls.Shortener.Threads.Coherent.Knowledge.{
  Knows, HasUrl, entry-Knows, row-Knows, expiry-Knows, clock-Knows, token-Knows, saved-Knows,
  call-Knows, Knows-later,
}

module _ {W : Type 0} (sh : Shortener W) (stored : W → Bytes → Option UrlToken)
    (cached : W → Bytes → Option Bytes) where
  module _ (env_laws : EnvLaws stored cached sh.env)
      (repo_laws : RepositoryLaws stored cached sh.repo)
      (cache_laws : CacheLaws stored cached sh.cache) where
    open sh use {env, repo, cache, settings}

    -- The row that a thread holds is that of the entry that it saves.
    keep-IsCoherent :
        (row : UrlToken) (ttl : ℤ) (w : W)
        → stored w row.token ≡ some row
        → IsCoherent stored cached w
        → IsCoherent stored cached (cache.save_token row.token row.url ttl w).1
    keep-IsCoherent row ttl w there h =
        IsCoherent-save_entry stored cached cache_laws row ttl w there h

    advance-IsCoherent :
        (p : Task) (w : W)
        → deletes p ≡ false
        → IsCoherent stored cached w
        → Knows sh stored cached w p
        → IsCoherent stored cached (advance sh p w).1
    unfolding advance Knows deletes
    advance-IsCoherent (read_cache t) w calm h k =
        IsCoherent-Quiet stored cached (cache_laws.get_quiet t w) h
    advance-IsCoherent (read_row t) w calm h k =
        IsCoherent-Quiet stored cached (repo_laws.get_quiet t w) h
    advance-IsCoherent (check_expiry t row) w calm h k =
        IsCoherent-Quiet stored cached (env_laws.now_quiet w) h
    advance-IsCoherent (read_rest t row) w calm h k =
        IsCoherent-Quiet stored cached (env_laws.now_quiet w) h
    advance-IsCoherent (keep_found t row now) w calm h (name, there) =
        keep-IsCoherent row (cache_ttl settings row.expires_at now) w (ap (stored w) name ∙ there) h
    advance-IsCoherent (read_clock input url) w calm h k =
        IsCoherent-Quiet stored cached (env_laws.now_quiet w) h
    advance-IsCoherent (draw_token input o) w calm h k =
        IsCoherent-Quiet stored cached (env_laws.rand_quiet _ w) h
    advance-IsCoherent (save_row o) w calm h k = IsCoherent-save_row stored cached repo_laws o w h
    advance-IsCoherent (read_ttl o) w calm h k =
        IsCoherent-Quiet stored cached (env_laws.now_quiet w) h
    advance-IsCoherent (keep_created o now) w calm h k =
        keep-IsCoherent (kept_row o) (cache_ttl settings o.expires_at now) w k h
    advance-IsCoherent (ended r) w calm h k = h
    advance-IsCoherent (fetch_row t uid) w calm h k = cc
    advance-IsCoherent (drop_entry t) w calm h k = cc
    advance-IsCoherent (drop_row t) w calm h k = cc

    -- What was known before a step is known after it.
    after-Knows :
        (p : Task) (w : W) (q : Task)
        → deletes p ≡ false
        → Knows sh stored cached w q
        → Knows sh stored cached (advance sh p w).1 q
    after-Knows p w q calm =
        Knows-later sh stored cached w (advance sh p w).1
          (advance_rows sh stored cached env_laws repo_laws cache_laws p w calm) q

    advance-Knows :
        (p : Task) (w : W)
        → deletes p ≡ false
        → IsCoherent stored cached w
        → Knows sh stored cached w p
        → Knows sh stored cached (advance sh p w).1 (advance sh p w).0
    unfolding advance Knows deletes
    advance-Knows (read_cache t) w calm h k =
        after-Knows (read_cache t) w (task_of_entry sh t (cache.get_token t w).0) calm (
          entry-Knows sh stored cached t (cache.get_token t w).0 w
            (λ u hit. h t u (cache_laws.get_hit t w u hit)))
    advance-Knows (read_row t) w calm h k =
        after-Knows (read_row t) w (task_of_row sh t (repo.get_token t w).0) calm
          (row-Knows sh stored cached t (repo.get_token t w).0 w (repo_laws.get_found t w))
    advance-Knows (check_expiry t row) w calm h k =
        after-Knows (check_expiry t row) w (task_of_expiry sh t row (env.now w).0) calm
          (expiry-Knows sh stored cached t row (env.now w).0 w k)
    advance-Knows (read_rest t row) w calm h k =
        after-Knows (read_rest t row) w (keep_found t row (env.now w).0) calm k
    advance-Knows (keep_found t row now) w calm h (name, there) =
        after-Knows (keep_found t row now) w (ended (resolved t (ok row.url))) calm
          (row, there, refl)
    advance-Knows (read_clock input url) w calm h k =
        clock-Knows sh stored cached input url (env.now w).0 (env.now w).1
    advance-Knows (draw_token input o) w calm h k = token-Knows sh stored cached input o _ _
    advance-Knows (save_row o) w calm h k =
        saved-Knows sh stored cached o (repo.save_token o w).0 (repo.save_token o w).1
          (λ done. (repo_laws.save_done o w done).1)
    advance-Knows (read_ttl o) w calm h k =
        after-Knows (read_ttl o) w (keep_created o (env.now w).0) calm k
    advance-Knows (keep_created o now) w calm h k = tt
    advance-Knows (ended r) w calm h k = k
    advance-Knows (fetch_row t uid) w calm h k = cc
    advance-Knows (drop_entry t) w calm h k = cc
    advance-Knows (drop_row t) w calm h k = cc

    -- No thread deletes, the cache is coherent, and every thread knows what is stored.
    pub record IsCurrent (x : System sh) : Type 0 where
      pub calm : (i : ℕ) → deletes (x.task i) ≡ false
      pub coherent : IsCoherent stored cached x.world
      pub tasks : (i : ℕ) → Knows sh stored cached x.world (x.task i)

    turn-IsCurrent : (i : ℕ) (x : System sh) → IsCurrent x → IsCurrent (turn sh i x)
    unfolding turn
    turn-IsCurrent i x h =
        let p = x.task i in
        record {
          calm = λ j. elim (Bool-cases (i == j)) [
            | inl this ↦ rw this (
                deletes-advance sh stored cached env_laws repo_laws cache_laws p x.world (h.calm i))
            | inr other ↦ rw other (h.calm j)
          ];
          coherent = advance-IsCoherent p x.world (h.calm i) h.coherent (h.tasks i);
          tasks = λ j. elim (Bool-cases (i == j)) [
            | inl this ↦ rw this (advance-Knows p x.world (h.calm i) h.coherent (h.tasks i))
            | inr other ↦ rw other (after-Knows p x.world (x.task j) (h.calm i) (h.tasks j))
          ];
        }

    Reach-IsCurrent : {x y : System sh} → Reach sh x y → IsCurrent x → IsCurrent y
    Reach-IsCurrent begun h = h
    Reach-IsCurrent (later r i) h = turn-IsCurrent i _ (Reach-IsCurrent r h)

    -- Where the dependencies keep their promises, the cache is coherent with the rows, and every thread
    -- starts with ResolveToken or with a creation: in whatever order they take their turns, the cache
    -- stays coherent, and a URL that a resolution returns is that of the row stored under its token.
    pub Reach-IsCoherent :
        {x y : System sh}
        → Reach sh x y
        → ((i : ℕ) → IsCall sh (x.task i))
        → ((i : ℕ) → deletes (x.task i) ≡ false)
        → IsCoherent stored cached x.world
        → IsCoherent stored cached y.world
          × ((i : ℕ) (t u : Bytes)
              → y.task i ≡ ended (resolved t (ok u))
              → HasUrl sh stored cached y.world t u)
    unfolding Knows
    Reach-IsCoherent {x = x} {y = y} r calls calm coherent =
        let start : IsCurrent x = record {
          calm = calm;
          coherent = coherent;
          tasks = λ j. call-Knows sh stored cached x.world (calls j);
        } in
        let after = Reach-IsCurrent r start in
        (after.coherent, λ i t u end. subst (Knows sh stored cached y.world) end (after.tasks i))
