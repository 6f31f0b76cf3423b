-- ===== src/Shortener/Threads/Coherent/Knowledge.antt =====
-- What a thread of the shortener knows of the rows.
use pet_urls.Prelude.{◌≡◌, refl, inl, inr, Bytes, Option, none, some, [], ltb, ◌=b=◌, Bool-cases}
use pet_urls.Prelude.Int.{ℤ, ltb_ℤ}
use pet_urls.Errors.{GoError, Result, ok, err}
use pet_urls.Strings.Utf8.{rune_count}
use pet_urls.Url.{normalize_http}
use pet_urls.Shortener.Types.{UrlToken, kept_row, CreateTokenInput, Shortener}
use pet_urls.Shortener.Threads.{
  resolved, deleted, created, Task, read_cache, read_row, check_expiry, read_rest, keep_found,
  fetch_row, drop_entry, drop_row, read_clock, draw_token, save_row, read_ttl, keep_created, ended,
  task_of_entry, task_of_row, task_of_expiry, task_of_clock, task_of_token, task_of_saved,
  create_task, IsCall, resolution, deletion, creation,
}

module _ {W : Type 0} (sh : Shortener W) (stored : W → Bytes → Option UrlToken)
    (cached : W → Bytes → Option Bytes) where
  -- The row of the token has that URL.
  abbrev pub HasUrl : W → Bytes → Bytes → Type 0
  HasUrl w t u = (r : UrlToken) × (stored w t ≡ some r) × (r.url ≡ u)

  -- What a thread has in its local variables, or has returned, is what is stored.
  unfoldable pub Knows : W → Task → Type 0
  Knows w (check_expiry t row) = (row.token ≡ t) × (stored w t ≡ some row)
  Knows w (read_rest t row) = (row.token ≡ t) × (stored w t ≡ some row)
  Knows w (keep_found t row now) = (row.token ≡ t) × (stored w t ≡ some row)
  Knows w (read_ttl o) = stored w o.token ≡ some (kept_row o)
  Knows w (keep_created o now) = stored w o.token ≡ some (kept_row o)
  Knows w (ended (resolved t (ok u))) = HasUrl w t u
  Knows w _ = Unit {0}

  -- Knowledge lasts while rows do.
  pub Knows-later :
      (w w' : W)
      → ((k : Bytes) (r : UrlToken) → stored w k ≡ some r → stored w' k ≡ some r)
      → (p : Task) → Knows w p
      → Knows w' p
  unfolding Knows
  Knows-later w w' kept (check_expiry t row) (name, row_there) = (name, kept t row row_there)
  Knows-later w w' kept (read_rest t row) (name, row_there) = (name, kept t row row_there)
  Knows-later w w' kept (keep_found t row now) (name, row_there) = (name, kept t row row_there)
  Knows-later w w' kept (read_ttl o) h = kept o.token (kept_row o) h
  Knows-later w w' kept (keep_created o now) h = kept o.token (kept_row o) h
  Knows-later w w' kept (ended (resolved t (ok u))) (r, row_there, url) =
      (r, kept t r row_there, url)
  Knows-later w w' kept (ended (resolved t (err e))) h = tt
  Knows-later w w' kept (ended (deleted e)) h = tt
  Knows-later w w' kept (ended (created o e)) h = tt
  Knows-later w w' kept (read_cache t) h = tt
  Knows-later w w' kept (read_row t) h = tt
  Knows-later w w' kept (fetch_row t uid) h = tt
  Knows-later w w' kept (drop_entry t) h = tt
  Knows-later w w' kept (drop_row t) h = tt
  Knows-later w w' kept (read_clock input url) h = tt
  Knows-later w w' kept (draw_token input o) h = tt
  Knows-later w w' kept (save_row o) h = tt

  pub entry-Knows :
      (t : Bytes) (c : Result (Option Bytes)) (w : W)
      → ((u : Bytes) → c ≡ ok (some u) → HasUrl w t u)
      → Knows w (task_of_entry sh t c)
  unfolding task_of_entry Knows
  entry-Knows t (ok (some url)) w hit = hit url refl
  entry-Knows t (ok none) w hit = tt
  entry-Knows t (err e) w hit = tt

  pub row-Knows :
      (t : Bytes) (f : Result UrlToken) (w : W)
      → ((r : UrlToken) → f ≡ ok r → (stored w t ≡ some r) × (r.token ≡ t))
      → Knows w (task_of_row sh t f)
  unfolding task_of_row Knows
  row-Knows t (ok row) w found = let (row_there, name) = found row refl in (name, row_there)
  row-Knows t (err e) w found = tt

  pub expiry-Knows :
      (t : Bytes) (row : UrlToken) (now : ℤ) (w : W)
      → (row.token ≡ t) × (stored w t ≡ some row)
      → Knows w (task_of_expiry sh t row now)
  unfolding task_of_expiry Knows
  expiry-Knows t row now w h = elim (Bool-cases (ltb_ℤ row.expires_at now)) [
    | inl late ↦ rw late tt
    | inr live ↦ rw live h
  ]

  pub clock-Knows :
      (input : CreateTokenInput) (url : Bytes) (now : ℤ) (w : W)
      → Knows w (task_of_clock sh input url now)
  unfolding task_of_clock Knows
  clock-Knows input url now w = elim (Bool-cases (ltb 64 (rune_count input.token))) [
    | inl long ↦ rw long tt
    | inr short ↦ rw short (elim (Bool-cases (input.token =b= [])) [
      | inl empty ↦ rw empty tt
      | inr given ↦ rw given tt
    ])
  ]

  pub token-Knows :
      (input : CreateTokenInput) (o : UrlToken) (t : Result Bytes) (w : W)
      → Knows w (task_of_token sh input o t)
  unfolding task_of_token Knows
  token-Knows input o (ok t) w = tt
  token-Knows input o (err e) w = tt

  pub saved-Knows :
      (o : UrlToken) (e : Option GoError) (w : W)
      → (e ≡ none → stored w o.token ≡ some (kept_row o))
      → Knows w (task_of_saved sh o e)
  unfolding task_of_saved Knows
  saved-Knows o none w done = done refl
  saved-Knows o (some e) w done = tt

  pub call-Knows : (w : W) {p : Task} → IsCall sh p → Knows w p
  unfolding Knows
  call-Knows w (resolution t) = tt
  call-Knows w (deletion t uid) = tt
  call-Knows w (creation input) = creation-Knows (normalize_http sh.lib input.url)
    where
      creation-Knows : (u : Result Bytes) → Knows w (create_task sh input u)
      creation-Knows (ok url) = tt
      creation-Knows (err e) = tt
