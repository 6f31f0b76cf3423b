-- ===== src/Postgres/ShortenerRepo/Promises.antt =====
-- The repository over the database against the interface of the shortener.
use pet_urls.Prelude.{
  ◌≡◌, refl, ap, sym, ◌∙◌, inl, inr, Bytes, true, false, Option, none, some, arith, Bool-cases,
}
use pet_urls.Prelude.Int.{ℤ}
use pet_urls.Errors.{
  GoError, Result, ok, err, wrap, not_unique, is_not_found_error, chain_not_found, error_of,
}
use pet_urls.Shortener.Types.{UrlToken}
use pet_urls.Shortener.Interface.{RepositoryLaws}
use pet_urls.Postgres.Errors.{is_no_rows, is_unique_violation}
use pet_urls.Postgres.Retry.{Deadline}
use pet_urls.Postgres.Retry.Runs.{with_retry-Retried}
use pet_urls.Postgres.Database.{Database, delete_url_token}
use pet_urls.Postgres.ShortenerRepo.{
  save_error, row, fetched, health_check, save_token, get_token, delete_token, shortener_repository,
}
use pet_urls.Postgres.ShortenerRepo.Sql.{DatabaseLaws, insert}
use pet_urls.Postgres.ShortenerRepo.Laws.{
  insert_Adds, insert_done, select_Quiet, select_row, select_none, select_foreign, remove_Removes,
  remove_done, remove_foreign,
}

fetched_ok :
    (t : Bytes) (x : Result (Bytes × ℤ × Option Bytes)) (r : UrlToken)
    → fetched t x ≡ ok r
    → (u : Bytes × ℤ × Option Bytes) × (x ≡ ok u) × (r ≡ row t u)
unfolding fetched
fetched_ok t (ok u) r h = (u, refl, ground arith)
fetched_ok t (err e) r h = absurd (ground arith)

fetched_missing :
    (t : Bytes) (x : Result (Bytes × ℤ × Option Bytes)) (e : GoError)
    → fetched t x ≡ err e
    → is_not_found_error (some e) ≡ true
    → ((e' : GoError) → x ≡ err e' → chain_not_found e' ≡ false)
    → (e' : GoError) × (x ≡ err e') × (is_no_rows e' ≡ true)
unfolding fetched is_not_found_error
fetched_missing t (ok u) e h missing foreign = cc
fetched_missing t (err e') e h missing foreign = (e', refl, ground (arith, foreign e' refl))

save_error-none : (x : Result (Unit {0})) → save_error x ≡ none → (u : Unit {0}) × (x ≡ ok u)
unfolding save_error
save_error-none (ok u) h = (u, refl)
save_error-none (err e) h = absurd (ground arith)

save_error-some :
    (x : Result (Unit {0}))
    → ((u : Unit {0}) → x ≡ ok u → ⊥)
    → (e : GoError) × (save_error x ≡ some e)
unfolding save_error
save_error-some (ok u) h = absurd (h u refl)
save_error-some (err e) h = elim (Bool-cases (is_unique_violation e)) [
  | inl taken ↦ (wrap "postgres, saving token" (not_unique e), rw taken)
  | inr other ↦ (wrap "postgres, saving token" e, rw other)
]

error_of-none : (x : Result (Unit {0})) → error_of x ≡ none → (u : Unit {0}) × (x ≡ ok u)
error_of-none (ok u) h = (u, refl)
error_of-none (err e) h = cc

error_of_found :
    (x : Result (Unit {0}))
    → is_not_found_error (error_of x) ≡ true
    → ((e : GoError) → x ≡ err e → chain_not_found e ≡ false)
    → ⊥
unfolding is_not_found_error
error_of_found (ok u) h foreign = cc
error_of_found (err e) h foreign = cc (foreign e refl)

module _ {W : Type 0} (ctx : Deadline W) (db : Database W) (stored : W → Bytes → Option UrlToken)
    (cached : W → Bytes → Option Bytes) (laws : DatabaseLaws ctx db stored cached) where
  -- Over a database that keeps to SQL on the table url_tokens, the repository with its retries and its
  -- error wrapping keeps every promise that the shortener service relies on.
  pub shortener_repository-RepositoryLaws :
      RepositoryLaws stored cached (shortener_repository ctx db)
  unfolding health_check save_token get_token delete_token
  shortener_repository-RepositoryLaws = record {
    health_quiet = laws.ping_quiet;
    get_quiet = λ t w.
        select_Quiet ctx db stored cached laws t (with_retry-Retried ctx (db.select_url_token t) w);
    get_found = λ t w r h.
        let (u, selected, same) = fetched_ok t _ r h in
        (
          select_row ctx db stored cached laws t u
                (with_retry-Retried ctx (db.select_url_token t) w) selected
              ∙ ap some (sym same),
          ap (λ (s : UrlToken). s.token) same,
        );
    get_missing = λ t w e h missing.
        let run = with_retry-Retried ctx (db.select_url_token t) w in
        let (e', failed, no_row) =
          fetched_missing t _ e h missing
            (λ e'. select_foreign ctx db stored cached laws t e' run) in
        select_none ctx db stored cached laws t e' run failed no_row;
    save_row = λ r w.
        (insert_Adds ctx db stored cached laws r
          (with_retry-Retried ctx (insert ctx db stored cached r) w)).rows;
    save_entries = λ r w.
        (insert_Adds ctx db stored cached laws r
          (with_retry-Retried ctx (insert ctx db stored cached r) w)).entries;
    save_done = λ r w h.
        let (u, saved) = save_error-none _ h in
        insert_done ctx db stored cached laws r u
          (with_retry-Retried ctx (insert ctx db stored cached r) w) saved;
    save_taken = λ r s w taken. save_error-some _ (λ u saved. cc (
      (insert_done ctx db stored cached laws r u
          (with_retry-Retried ctx (insert ctx db stored cached r) w) saved).0,
      taken,
    ));
    delete_row = λ t w.
        (remove_Removes ctx db stored cached laws t
          (with_retry-Retried ctx (db.exec (delete_url_token t)) w)).rows;
    delete_entries = λ t w.
        (remove_Removes ctx db stored cached laws t
          (with_retry-Retried ctx (db.exec (delete_url_token t)) w)).entries;
    delete_done = λ t w h.
        let (u, removed) = error_of-none _ h in
        remove_done ctx db stored cached laws t u
          (with_retry-Retried ctx (db.exec (delete_url_token t)) w) removed;
    delete_missing = λ t w h. absurd (
        error_of_found _ h (λ e.
          remove_foreign ctx db stored cached laws t e
            (with_retry-Retried ctx (db.exec (delete_url_token t)) w)));
  }
