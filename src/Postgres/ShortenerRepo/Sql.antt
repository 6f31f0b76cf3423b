-- ===== src/Postgres/ShortenerRepo/Sql.antt =====
-- What the repository of url tokens relies on: SQL on the table url_tokens, as far as the stored rows
-- show it.
use pet_urls.Prelude.{ℕ, ◌≡◌, ◌⊎◌, Bytes, true, false, Option, none, some}
use pet_urls.Prelude.Int.{ℤ}
use pet_urls.Errors.{GoError, Result, ok, err, chain_not_found}
use pet_urls.Shortener.Types.{UrlToken, kept_row}
use pet_urls.Shortener.Interface.{Quiet}
use pet_urls.Postgres.Errors.{is_no_rows}
use pet_urls.Postgres.Retry.{Deadline}
use pet_urls.Postgres.Database.{Database, insert_url_token, delete_url_token}
use pet_urls.Postgres.ShortenerRepo.{row}

module _ {W : Type 0} (ctx : Deadline W) (db : Database W) (stored : W → Bytes → Option UrlToken)
    (cached : W → Bytes → Option Bytes) where
  -- From `w` to `w'` nothing has happened to the rows but that `r` may have been added.
  pub record Adds (r : UrlToken) (w w' : W) : Type 0 where
    pub rows :
        (k : Bytes)
        → (stored w' k ≡ stored w k)
          ⊎ ((k ≡ r.token) × (stored w k ≡ none) × (stored w' k ≡ some (kept_row r)))
    pub entries : (k : Bytes) → (cached w' k ≡ cached w k) ⊎ (cached w' k ≡ none)

  -- The same for a row that may have been removed.
  pub record Removes (t : Bytes) (w w' : W) : Type 0 where
    pub rows : (k : Bytes) → (stored w' k ≡ stored w k) ⊎ ((k ≡ t) × (stored w' k ≡ none))
    pub entries : (k : Bytes) → (cached w' k ≡ cached w k) ⊎ (cached w' k ≡ none)

  abbrev pub insert : UrlToken → W → Result (Unit {0}) × W
  insert r = db.exec (insert_url_token r.token r.url r.expires_at r.owner_id)

  -- What the code relies on: the semantics of the statements on url_tokens with its unique tokens, that
  -- waiting changes nothing, and that foreign errors have no method `NotFound`.
  pub record DatabaseLaws : Type 0 where
    pub ping_quiet : (w : W) → Quiet stored cached w (db.ping w).1
    pub sleep_quiet : (pause : ℕ) (w : W) → Quiet stored cached w (ctx.sleep pause w).1
    pub insert_adds : (r : UrlToken) (w : W) → Adds r w (insert r w).1
    pub insert_done :
        (r : UrlToken) (w : W) (u : Unit {0})
        → (insert r w).0 ≡ ok u
        → (stored w r.token ≡ none) × (stored (insert r w).1 r.token ≡ some (kept_row r))
    pub select_quiet : (t : Bytes) (w : W) → Quiet stored cached w (db.select_url_token t w).1
    pub select_row :
        (t : Bytes) (w : W) (u : Bytes × ℤ × Option Bytes)
        → (db.select_url_token t w).0 ≡ ok u
        → stored w t ≡ some (row t u)
    pub select_none :
        (t : Bytes) (w : W) (e : GoError)
        → (db.select_url_token t w).0 ≡ err e
        → is_no_rows e ≡ true
        → stored w t ≡ none
    pub delete_removes : (t : Bytes) (w : W) → Removes t w (db.exec (delete_url_token t) w).1
    pub delete_done :
        (t : Bytes) (w : W) (u : Unit {0})
        → (db.exec (delete_url_token t) w).0 ≡ ok u
        → stored (db.exec (delete_url_token t) w).1 t ≡ none
    pub select_foreign :
        (t : Bytes) (w : W) (e : GoError)
        → (db.select_url_token t w).0 ≡ err e
        → chain_not_found e ≡ false
    pub delete_foreign :
        (t : Bytes) (w : W) (e : GoError)
        → (db.exec (delete_url_token t) w).0 ≡ err e
        → chain_not_found e ≡ false
    pub context_foreign :
        (w : W) (e : GoError)
        → ctx.error w ≡ some e
        → (chain_not_found e ≡ false) × (is_no_rows e ≡ false)
    pub sleep_foreign :
        (pause : ℕ) (w : W) (e : GoError)
        → (ctx.sleep pause w).0 ≡ some e
        → (chain_not_found e ≡ false) × (is_no_rows e ≡ false)
