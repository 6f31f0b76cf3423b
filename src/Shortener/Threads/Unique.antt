-- ===== src/Shortener/Threads/Unique.antt =====
-- No two concurrent creations of shortener.go end with the same token.
mod Open
unfoldable pub use Open.{deletes}
use pet_urls.Prelude.{
  ℕ, ◌≡◌, refl, sym, ap, ◌∙◌, ◌⊎◌, inl, inr, Bytes, Bool, true, false, Option, none, some, [], ltb,
  ◌==◌, ==_iff, ◌=b=◌, Bool-cases,
}
use mathlib.Core.Path.{subst}
use pet_urls.Prelude.Int.{ℤ, ltb_ℤ}
use pet_urls.Errors.{GoError, Result, ok, err}
use pet_urls.Strings.Utf8.{rune_count}
use pet_urls.Shortener.Types.{UrlToken, kept_row, CreateTokenInput, Shortener}
use pet_urls.Shortener.Service.{encode}
use pet_urls.Shortener.Interface.{Quiet, EnvLaws, RepositoryLaws, CacheLaws}
use pet_urls.Shortener.Threads.{
  created, Task, read_cache, read_row, check_expiry, read_rest, keep_found, fetch_row, drop_entry,
  drop_row, read_clock, draw_token, save_row, read_ttl, keep_created, ended, task_of_entry,
  task_of_row, task_of_expiry, task_of_clock, task_of_token, task_of_saved, create_task, IsCall,
  resolution, deletion, creation, advance, System, turn, Reach, begun, later,
}
use pet_urls.Shortener.Threads.Unique.Open.{
  IsOpen, saved_by, deletes, entry-IsOpen, row-IsOpen, expiry-IsOpen, clock-IsOpen, token-IsOpen,
  call_saved,
}

module _ {W : Type 0} (sh : Shortener W) where
  module _ (stored : W → Bytes → Option UrlToken) (cached : W → Bytes → Option Bytes) where
    -- What a step of a thread that does not delete leaves as it is, and when it has saved a row.
    record Careful (p : Task) (w : W) (x : Task × W) : Type 0 where
      calm : deletes x.0 ≡ false
      rows : (k : Bytes) (r : UrlToken) → stored w k ≡ some r → stored x.1 k ≡ some r
      news :
          (o : UrlToken)
          → saved_by x.0 ≡ some o
          → (saved_by p ≡ some o)
            ⊎ ((stored w o.token ≡ none) × (stored x.1 o.token ≡ some (kept_row o)))

    Quiet-Careful :
        {p q : Task} {w w' : W} → Quiet stored cached w w' → IsOpen q → Careful p w (q, w')
    Quiet-Careful same (calm, nothing) = record {
      calm = calm;
      rows = λ k r row. same.rows k ∙ row;
      news = λ o saved. cc;
    }

    same-Careful :
        {p q : Task} {w w' : W}
        → deletes q ≡ false
        → saved_by q ≡ saved_by p
        → ((k : Bytes) → stored w' k ≡ stored w k)
        → Careful p w (q, w')
    same-Careful calm saved same = record {
      calm = calm;
      rows = λ k r row. same k ∙ row;
      news = λ o new. inl (sym saved ∙ new);
    }

    module _ (env_laws : EnvLaws stored cached sh.env)
        (repo_laws : RepositoryLaws stored cached sh.repo)
        (cache_laws : CacheLaws stored cached sh.cache) where
      open sh use {env, repo, cache, settings}

      save_row-rows :
          (o : UrlToken) (w : W) (k : Bytes) (r : UrlToken)
          → stored w k ≡ some r
          → stored (repo.save_token o w).1 k ≡ some r
      save_row-rows o w k r row = elim (repo_laws.save_row o w k) [
        | inl kept ↦ kept ∙ row
        | inr (_, free, _) ↦ cc
      ]

      save-Careful :
          (o : UrlToken) (e : Option GoError) (w : W)
          → (repo.save_token o w).0 ≡ e
          → Careful (save_row o) w (task_of_saved sh o e, (repo.save_token o w).1)
      unfolding task_of_saved saved_by deletes
      save-Careful o none w done = record {
        calm = refl;
        rows = save_row-rows o w;
        news = λ o' new. inr (
            subst
              (λ o'.
                (stored w o'.token ≡ none)
                × (stored (repo.save_token o w).1 o'.token ≡ some (kept_row o')))
              (cc new) (repo_laws.save_done o w done));
      }
      save-Careful o (some e) w failed = record {
        calm = refl;
        rows = save_row-rows o w;
        news = λ o' new. cc;
      }

      advance-Careful : (p : Task) (w : W) → deletes p ≡ false → Careful p w (advance sh p w)
      unfolding advance saved_by deletes
      advance-Careful (read_cache t) w calm =
          Quiet-Careful (cache_laws.get_quiet t w) (entry-IsOpen sh t (cache.get_token t w).0)
      advance-Careful (read_row t) w calm =
          Quiet-Careful (repo_laws.get_quiet t w) (row-IsOpen sh t (repo.get_token t w).0)
      advance-Careful (check_expiry t row) w calm =
          Quiet-Careful (env_laws.now_quiet w) (expiry-IsOpen sh t row (env.now w).0)
      advance-Careful (read_rest t row) w calm = Quiet-Careful (env_laws.now_quiet w) (refl, refl)
      advance-Careful (keep_found t row now) w calm =
          same-Careful refl refl (cache_laws.save_rows row.token row.url _ w)
      advance-Careful (read_clock input url) w calm =
          Quiet-Careful (env_laws.now_quiet w) (clock-IsOpen sh input url (env.now w).0)
      advance-Careful (draw_token input o) w calm =
          Quiet-Careful (env_laws.rand_quiet _ w)
            (token-IsOpen sh input o (encode sh (env.rand_read settings.token_decoded_length w).0))
      advance-Careful (save_row o) w calm = save-Careful o (repo.save_token o w).0 w refl
      advance-Careful (read_ttl o) w calm = same-Careful refl refl (env_laws.now_quiet w).rows
      advance-Careful (keep_created o now) w calm =
          same-Careful refl refl (cache_laws.save_rows o.token o.url _ w)
      advance-Careful (ended r) w calm = same-Careful calm refl (λ k. refl)
      advance-Careful (fetch_row t uid) w calm = cc
      advance-Careful (drop_entry t) w calm = cc
      advance-Careful (drop_row t) w calm = cc

      -- A thread that does not delete keeps every row, and never comes to delete.
      pub advance_rows :
          (p : Task) (w : W)
          → deletes p ≡ false
          → (k : Bytes) (r : UrlToken) → stored w k ≡ some r
          → stored (advance sh p w).1 k ≡ some r
      advance_rows p w calm = (advance-Careful p w calm).rows

      pub deletes-advance :
          (p : Task) (w : W) → deletes p ≡ false → deletes (advance sh p w).0 ≡ false
      deletes-advance p w calm = (advance-Careful p w calm).calm

      -- No thread deletes, every saved row is there, and no two threads have saved the same token.
      pub record IsApart (x : System sh) : Type 0 where
        pub calm : (i : ℕ) → deletes (x.task i) ≡ false
        pub kept :
            (i : ℕ) (o : UrlToken)
            → saved_by (x.task i) ≡ some o
            → stored x.world o.token ≡ some (kept_row o)
        pub apart :
            (i j : ℕ) (o o' : UrlToken)
            → saved_by (x.task i) ≡ some o
            → saved_by (x.task j) ≡ some o'
            → o.token ≡ o'.token
            → i ≡ j

      -- What the turn of a thread does to one of the threads.
      turn_cases :
          (i j : ℕ) (x : System sh)
          → ((i ≡ j) × ((turn sh i x).task j ≡ (advance sh (x.task i) x.world).0))
            ⊎ ((turn sh i x).task j ≡ x.task j)
      unfolding turn
      turn_cases i j x = elim (Bool-cases (i == j)) [
        | inl this ↦ inl ((==_iff i j).0 this, rw this refl)
        | inr other ↦ inr (rw other refl)
      ]

      -- What has been saved after a turn was saved before, or it is the thread's own new row.
      news_cases :
          (i j : ℕ) (x : System sh) (o : UrlToken)
          → deletes (x.task i) ≡ false
          → saved_by ((turn sh i x).task j) ≡ some o
          → (saved_by (x.task j) ≡ some o)
            ⊎ ((i ≡ j)
                × (stored x.world o.token ≡ none)
                × (stored (turn sh i x).world o.token ≡ some (kept_row o)))
      unfolding turn
      news_cases i j x o calm saved = elim (turn_cases i j x) [
        | inl (this, own) ↦
            elim ((advance-Careful (x.task i) x.world calm).news o
              (sym (ap saved_by own) ∙ saved)) [
                | inl old ↦ inl (ap (λ k. saved_by (x.task k)) (sym this) ∙ old)
                | inr (free, row) ↦ inr (this, free, row)
              ]
        | inr same ↦ inl (sym (ap saved_by same) ∙ saved)
      ]

      turn-IsApart : (i : ℕ) (x : System sh) → IsApart x → IsApart (turn sh i x)
      unfolding turn
      turn-IsApart i x h =
          let step = advance-Careful (x.task i) x.world (h.calm i) in
          record {
            calm = λ j. elim (turn_cases i j x) [
              | inl (_, own) ↦ ap deletes own ∙ step.calm
              | inr same ↦ ap deletes same ∙ h.calm j
            ];
            kept = λ j o saved. elim (news_cases i j x o (h.calm i) saved) [
              | inl old ↦ step.rows o.token (kept_row o) (h.kept j o old)
              | inr (_, _, row) ↦ row
            ];
            apart = λ j k o o' saved saved' same. elim (news_cases i j x o (h.calm i) saved) [
              | inl old ↦ elim (news_cases i k x o' (h.calm i) saved') [
                | inl old' ↦ h.apart j k o o' old old' same
                | inr (_, free, _) ↦
                    let row = h.kept j o old in let row' = ap (stored x.world) same in cc
              ]
              | inr (this, free, _) ↦ elim (news_cases i k x o' (h.calm i) saved') [
                | inl old' ↦ let row = h.kept k o' old' in let row' = ap (stored x.world) same in cc
                | inr (this', _, _) ↦ sym this ∙ this'
              ]
            ];
          }

      Reach-IsApart : {x y : System sh} → Reach sh x y → IsApart x → IsApart y
      Reach-IsApart begun h = h
      Reach-IsApart (later r i) h = turn-IsApart i _ (Reach-IsApart r h)

      -- Where the dependencies keep their promises and every thread starts with ResolveToken or with a
      -- creation, in whatever order they take their turns: the row of a creation that has ended
      -- without an error is stored as it was returned, its expiry cut to the microsecond, and no other
      -- creation has ended without an error with the same token.
      pub creations_apart :
          {x y : System sh}
          → Reach sh x y
          → ((i : ℕ) → IsCall sh (x.task i))
          → ((i : ℕ) → deletes (x.task i) ≡ false)
          → (i j : ℕ) (o o' : UrlToken) → y.task i ≡ ended (created o none)
          → y.task j ≡ ended (created o' none)
          → (stored y.world o.token ≡ some (kept_row o)) × (o.token ≡ o'.token → i ≡ j)
      unfolding saved_by
      creations_apart {x = x} r calls calm i j o o' end end' =
          let start : IsApart x = record {
            calm = calm;
            kept = λ j o saved. let nothing = call_saved sh (calls j) in cc;
            apart = λ j k o o' saved saved' same. let nothing = call_saved sh (calls j) in cc;
          } in
          let after = Reach-IsApart r start in
          (
            after.kept i o (ap saved_by end),
            λ same. after.apart i j o o' (ap saved_by end) (ap saved_by end') same,
          )
