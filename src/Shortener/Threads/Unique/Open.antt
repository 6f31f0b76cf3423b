-- ===== src/Shortener/Threads/Unique/Open.antt =====
-- The threads of the shortener that have saved nothing yet, and those that run DeleteToken.
use pet_urls.Prelude.{
  ◌≡◌, refl, inl, inr, Bytes, Bool, true, false, Option, none, some, [], ltb, ◌=b=◌, Bool-cases,
}
use pet_urls.Prelude.Int.{ℤ, ltb_ℤ}
use pet_urls.Errors.{Result, ok, err}
use pet_urls.Strings.Utf8.{rune_count}
use pet_urls.Shortener.Types.{UrlToken, CreateTokenInput, Shortener}
use pet_urls.Shortener.Threads.{
  created, Task, fetch_row, drop_entry, drop_row, read_ttl, keep_created, ended, task_of_entry,
  task_of_row, task_of_expiry, task_of_clock, task_of_token, create_task, IsCall, resolution,
  deletion, creation,
}

-- The row that a thread has saved.
unfoldable pub saved_by : Task → Option UrlToken
saved_by (read_ttl o) = some o
saved_by (keep_created o now) = some o
saved_by (ended (created o none)) = some o
saved_by _ = none

-- The thread runs DeleteToken.
unfoldable pub deletes : Task → Bool
deletes (fetch_row t uid) = true
deletes (drop_entry t) = true
deletes (drop_row t) = true
deletes _ = false

-- A thread that has saved nothing and deletes nothing.
abbrev pub IsOpen : Task → Type 0
IsOpen p = (deletes p ≡ false) × (saved_by p ≡ none)

module _ {W : Type 0} (sh : Shortener W) where
  pub entry-IsOpen : (t : Bytes) (c : Result (Option Bytes)) → IsOpen (task_of_entry sh t c)
  unfolding task_of_entry saved_by deletes
  entry-IsOpen t (ok (some url)) = (refl, refl)
  entry-IsOpen t (ok none) = (refl, refl)
  entry-IsOpen t (err e) = (refl, refl)

  pub row-IsOpen : (t : Bytes) (f : Result UrlToken) → IsOpen (task_of_row sh t f)
  unfolding task_of_row saved_by deletes
  row-IsOpen t (ok row) = (refl, refl)
  row-IsOpen t (err e) = (refl, refl)

  pub expiry-IsOpen : (t : Bytes) (row : UrlToken) (now : ℤ) → IsOpen (task_of_expiry sh t row now)
  unfolding task_of_expiry saved_by deletes
  expiry-IsOpen t row now = elim (Bool-cases (ltb_ℤ row.expires_at now)) [
    | inl late ↦ rw late (refl, refl)
    | inr live ↦ rw live (refl, refl)
  ]

  pub clock-IsOpen :
      (input : CreateTokenInput) (url : Bytes) (now : ℤ) → IsOpen (task_of_clock sh input url now)
  unfolding task_of_clock saved_by deletes
  clock-IsOpen input url now = elim (Bool-cases (ltb 64 (rune_count input.token))) [
    | inl long ↦ rw long (refl, refl)
    | inr short ↦ rw short (elim (Bool-cases (input.token =b= [])) [
      | inl empty ↦ rw empty (refl, refl)
      | inr given ↦ rw given (refl, refl)
    ])
  ]

  pub token-IsOpen :
      (input : CreateTokenInput) (o : UrlToken) (t : Result Bytes)
      → IsOpen (task_of_token sh input o t)
  unfolding task_of_token saved_by deletes
  token-IsOpen input o (ok t) = (refl, refl)
  token-IsOpen input o (err e) = (refl, refl)

  creation-IsOpen : (input : CreateTokenInput) (u : Result Bytes) → IsOpen (create_task sh input u)
  unfolding saved_by deletes
  creation-IsOpen input (ok url) = (refl, refl)
  creation-IsOpen input (err e) = (refl, refl)

  -- A call saves nothing before its first step.
  pub call_saved : {p : Task} → IsCall sh p → saved_by p ≡ none
  unfolding saved_by
  call_saved (resolution t) = refl
  call_saved (deletion t uid) = refl
  call_saved (creation input) = (creation-IsOpen input _).1
