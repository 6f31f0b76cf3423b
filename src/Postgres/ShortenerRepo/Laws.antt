-- ===== src/Postgres/ShortenerRepo/Laws.antt =====
-- What the methods of the repository of url tokens, with their retries, do to the stored rows.
use pet_urls.Prelude.{
  ℕ, suc, ◌*◌, ◌≡◌, sym, ◌∙◌, inl, inr, Bytes, true, false, Option, none, some, arith,
}
use pet_urls.Prelude.Int.{ℤ}
use pet_urls.Errors.{GoError, Result, ok, err, chain_not_found}
use pet_urls.Shortener.Types.{UrlToken, kept_row}
use pet_urls.Shortener.Interface.{Quiet, Quiet-refl, Quiet-trans}
use pet_urls.Postgres.Errors.{is_no_rows, is_no_rows_wrap, no_rows_of_retryable}
use pet_urls.Postgres.Retry.{Deadline}
use pet_urls.Postgres.Retry.Runs.{
  Attempted, Retried, done, fatal, cancelled, interrupted, exhausted, Attempted-induction,
  Retried-induction, Retried-error,
}
use pet_urls.Postgres.Database.{Database, delete_url_token}
use pet_urls.Postgres.ShortenerRepo.{row}
use pet_urls.Postgres.ShortenerRepo.Sql.{Adds, Removes, DatabaseLaws, insert}

module _ {W : Type 0} (ctx : Deadline W) (db : Database W) (stored : W → Bytes → Option UrlToken)
    (cached : W → Bytes → Option Bytes) (laws : DatabaseLaws ctx db stored cached) where
  abbrev AddsRow : UrlToken → W → W → Type 0
  AddsRow r w w' = Adds ctx db stored cached r w w'

  abbrev RemovesRow : Bytes → W → W → Type 0
  RemovesRow t w w' = Removes ctx db stored cached t w w'

  Quiet-Adds : (r : UrlToken) {w w' : W} → Quiet stored cached w w' → AddsRow r w w'
  Quiet-Adds r q = record { rows = λ k. inl (q.rows k); entries = q.entries }

  Adds-trans : (r : UrlToken) (a b c : W) → AddsRow r a b → AddsRow r b c → AddsRow r a c
  Adds-trans r a b c p q = record {
    rows = λ k. grind (arith, p.rows k, q.rows k);
    entries = λ k. grind (arith, p.entries k, q.entries k);
  }

  Quiet-Removes : {t : Bytes} {w w' : W} → Quiet stored cached w w' → RemovesRow t w w'
  Quiet-Removes q = record { rows = λ k. inl (q.rows k); entries = q.entries }

  Removes-trans : (t : Bytes) (a b c : W) → RemovesRow t a b → RemovesRow t b c → RemovesRow t a c
  Removes-trans t a b c p q = record {
    rows = λ k. grind (arith, p.rows k, q.rows k);
    entries = λ k. grind (arith, p.entries k, q.entries k);
  }

  module _ (r : UrlToken) where
    insert_Adds_to :
        {w : W} {n : ℕ} {b : W}
        → Attempted ctx (insert ctx db stored cached r) w n b
        → AddsRow r w b
    insert_Adds_to =
        Attempted-induction ctx (insert ctx db stored cached r) (AddsRow r)
          (λ a. Quiet-Adds r (Quiet-refl stored cached a)) (Adds-trans r) (laws.insert_adds r)
          (λ p a. Quiet-Adds r (laws.sleep_quiet p a))

    pub insert_Adds :
        {w : W} {x : Result (Unit {0}) × W}
        → Retried ctx (insert ctx db stored cached r) w x
        → AddsRow r w x.1
    insert_Adds =
        Retried-induction ctx (insert ctx db stored cached r) (AddsRow r)
          (λ a. Quiet-Adds r (Quiet-refl stored cached a)) (Adds-trans r) (laws.insert_adds r)
          (λ p a. Quiet-Adds r (laws.sleep_quiet p a))

    pub insert_done :
        {w : W} {x : Result (Unit {0}) × W} (u : Unit {0})
        → Retried ctx (insert ctx db stored cached r) w x
        → x.0 ≡ ok u
        → (stored w r.token ≡ none) × (stored x.1 r.token ≡ some (kept_row r))
    insert_done u (done a b lt at running result) h =
        let (free, added) = laws.insert_done r b a result in
        (
          elim ((insert_Adds_to at).rows r.token) [
            | inl same ↦ cc (same, free)
            | inr taken ↦ taken.1
          ],
          added,
        )
    insert_done u (fatal e b lt at running result final) h = cc
    insert_done u (cancelled e b lt at stopped) h = cc
    insert_done u (interrupted {n} e e' b lt at running result worth slept) h = cc
    insert_done u (exhausted {n} e b third at running fault worth slept) h = cc

  module _ (t : Bytes) where
    select_Quiet_to :
        {w : W} {n : ℕ} {b : W}
        → Attempted ctx (db.select_url_token t) w n b
        → Quiet stored cached w b
    select_Quiet_to =
        Attempted-induction ctx (db.select_url_token t) (Quiet stored cached)
          (Quiet-refl stored cached) (λ a b c. Quiet-trans stored cached) (laws.select_quiet t)
          laws.sleep_quiet

    pub select_Quiet :
        {w : W} {x : Result (Bytes × ℤ × Option Bytes) × W}
        → Retried ctx (db.select_url_token t) w x
        → Quiet stored cached w x.1
    select_Quiet =
        Retried-induction ctx (db.select_url_token t) (Quiet stored cached)
          (Quiet-refl stored cached) (λ a b c. Quiet-trans stored cached) (laws.select_quiet t)
          laws.sleep_quiet

    pub select_row :
        {w : W} {x : Result (Bytes × ℤ × Option Bytes) × W} (u : Bytes × ℤ × Option Bytes)
        → Retried ctx (db.select_url_token t) w x
        → x.0 ≡ ok u
        → stored w t ≡ some (row t u)
    select_row u (done a b lt at running result) h =
        sym ((select_Quiet_to at).rows t) ∙ laws.select_row t b u (result ∙ h)
    select_row u (fatal e b lt at running result final) h = cc
    select_row u (cancelled e b lt at stopped) h = cc
    select_row u (interrupted {n} e e' b lt at running result worth slept) h = cc
    select_row u (exhausted {n} e b third at running fault worth slept) h = cc

    -- Only the database says that there is no row.
    pub select_none :
        {w : W} {x : Result (Bytes × ℤ × Option Bytes) × W} (e : GoError)
        → Retried ctx (db.select_url_token t) w x
        → x.0 ≡ err e
        → is_no_rows e ≡ true
        → stored w t ≡ none
    select_none e (done a b lt at running result) h missing = cc
    select_none e (fatal e' b lt at running result final) h missing =
        sym ((select_Quiet_to at).rows t) ∙ laws.select_none t b e (result ∙ h) missing
    select_none e (cancelled e' b lt at stopped) h missing =
        cc ((laws.context_foreign b e' stopped).1, h, missing)
    select_none e (interrupted {n} e' e'' b lt at running result worth slept) h missing =
        cc ((laws.sleep_foreign (suc n * 100000000) _ e'' slept).1, h, missing)
    select_none e (exhausted {n} e' b third at running fault worth slept) h missing =
        cc (no_rows_of_retryable e' worth, is_no_rows_wrap e', h, missing)

    pub select_foreign :
        {w : W} {x : Result (Bytes × ℤ × Option Bytes) × W} (e : GoError)
        → Retried ctx (db.select_url_token t) w x
        → x.0 ≡ err e
        → chain_not_found e ≡ false
    unfolding chain_not_found
    select_foreign =
        Retried-error ctx (db.select_url_token t) (λ e. chain_not_found e ≡ false)
          (λ m e same. same) (λ b e. laws.select_foreign t b e)
          (λ b e stopped. (laws.context_foreign b e stopped).0)
          (λ p b e slept. (laws.sleep_foreign p b e slept).0)

    pub remove_Removes :
        {w : W} {x : Result (Unit {0}) × W}
        → Retried ctx (db.exec (delete_url_token t)) w x
        → RemovesRow t w x.1
    remove_Removes =
        Retried-induction ctx (db.exec (delete_url_token t)) (RemovesRow t)
          (λ a. Quiet-Removes (Quiet-refl stored cached a)) (Removes-trans t)
          (laws.delete_removes t) (λ p a. Quiet-Removes (laws.sleep_quiet p a))

    pub remove_done :
        {w : W} {x : Result (Unit {0}) × W} (u : Unit {0})
        → Retried ctx (db.exec (delete_url_token t)) w x
        → x.0 ≡ ok u
        → stored x.1 t ≡ none
    remove_done u (done a b lt at running result) h = laws.delete_done t b a result
    remove_done u (fatal e b lt at running result final) h = cc
    remove_done u (cancelled e b lt at stopped) h = cc
    remove_done u (interrupted {n} e e' b lt at running result worth slept) h = cc
    remove_done u (exhausted {n} e b third at running fault worth slept) h = cc

    pub remove_foreign :
        {w : W} {x : Result (Unit {0}) × W} (e : GoError)
        → Retried ctx (db.exec (delete_url_token t)) w x
        → x.0 ≡ err e
        → chain_not_found e ≡ false
    unfolding chain_not_found
    remove_foreign =
        Retried-error ctx (db.exec (delete_url_token t)) (λ e. chain_not_found e ≡ false)
          (λ m e same. same) (λ b e. laws.delete_foreign t b e)
          (λ b e stopped. (laws.context_foreign b e stopped).0)
          (λ p b e slept. (laws.sleep_foreign p b e slept).0)
