-- ===== src/Shortener/Threads.antt =====
-- The methods of shortener.go as threads that run at the same time: a call of a dependency is one step,
-- and what a method still has to do is a `Task` with the local variables that it reads again.
pub mod Origin
pub mod Unique
pub mod Coherent
use pet_urls.Prelude.{
  ℕ, ◌<◌, ◌≡◌, Bytes, Bool, not, Option, none, some, List, [], ◌∷◌, ltb, ◌==◌, ◌=b=◌, is_some,
  if◌then◌else◌,
}
use pet_urls.Prelude.Int.{ℤ, pos, ◌+ℤ◌, ltb_ℤ}
use pet_urls.Errors.{
  GoError, sentinel, wrap, Result, ok, err, invalid_url, empty_owner, token_expired,
  token_does_not_exist, token_is_not_unique, invalid_url_token, not_token_owner,
  is_not_unique_error, is_not_found_error,
}
use pet_urls.Strings.Utf8.{rune_count}
use pet_urls.Url.{normalize_http}
use pet_urls.Shortener.Types.{UrlToken, CreateTokenInput, Shortener}
use pet_urls.Shortener.Service.{
  cache_ttl, slice_bytes, empty_token, delete_error, effective_ttl, encode,
}

-- What a method has returned; a resolution with the token that it was asked for.
pub data Reply : Type 0 where
  resolved : Bytes → Result Bytes → Reply
  deleted : Option GoError → Reply
  created : UrlToken → Option GoError → Reply

pub data Task : Type 0 where
  -- ResolveToken: the cache, the repository, `ExpiresAt.Before(time.Now())`, `time.Until`, the cache
  read_cache : Bytes → Task
  read_row : Bytes → Task
  check_expiry : Bytes → UrlToken → Task
  read_rest : Bytes → UrlToken → Task
  keep_found : Bytes → UrlToken → ℤ → Task
  -- DeleteToken: the repository, the cache, the repository
  fetch_row : Bytes → Bytes → Task
  drop_entry : Bytes → Task
  drop_row : Bytes → Task
  -- createToken: the clock, crypto/rand, the repository, `time.Until`, the cache
  read_clock : CreateTokenInput → Bytes → Task
  draw_token : CreateTokenInput → UrlToken → Task
  save_row : UrlToken → Task
  read_ttl : UrlToken → Task
  keep_created : UrlToken → ℤ → Task
  ended : Reply → Task

module _ {W : Type 0} (sh : Shortener W) where
  open sh use {lib, env, repo, cache, settings as s}

  unfoldable pub task_of_entry : Bytes → Result (Option Bytes) → Task
  task_of_entry t (ok (some url)) = ended (resolved t (ok url))
  task_of_entry t (ok none) = read_row t
  task_of_entry t (err _) = read_row t

  unfoldable pub task_of_row : Bytes → Result UrlToken → Task
  task_of_row t (ok row) = check_expiry t row
  task_of_row t (err e) = ended (
      resolved t (
        err (
          wrap "shortener, fetching token from db"
            (if is_not_found_error (some e) then sentinel token_does_not_exist else e))))

  unfoldable pub task_of_expiry : Bytes → UrlToken → ℤ → Task
  task_of_expiry t row now =
      if ltb_ℤ row.expires_at now
      then ended (resolved t (err (wrap "shortener.GetOriginalURL" (sentinel token_expired))))
      else read_rest t row

  unfoldable pub task_of_fetched : Bytes → Bytes → Result UrlToken → Task
  task_of_fetched t uid (ok row) =
      if not (slice_bytes row.owner_id =b= uid)
      then ended (deleted (some (wrap "shortener, deleting token" (sentinel not_token_owner))))
      else drop_entry t
  task_of_fetched t uid (err e) = ended (
      deleted (
        if is_not_found_error (some e)
        then none
        else some (wrap "shortener, fetching token from repo for deletion" e)))

  unfoldable pub task_of_dropped : Bytes → Option GoError → Task
  task_of_dropped t none = drop_row t
  task_of_dropped t (some e) = ended (deleted (some e))

  abbrev named : CreateTokenInput → UrlToken → Bytes → UrlToken
  named input output token = record output { token = token; owner_id = input.owner_id }

  unfoldable pub task_of_clock : CreateTokenInput → Bytes → ℤ → Task
  task_of_clock input http_url now =
      let output = record empty_token {
        url = http_url;
        expires_at = now +ℤ effective_ttl sh input;
      } in
      if ltb 64 (rune_count input.token)
      then ended (created output (some (sentinel invalid_url_token)))
      else if not (input.token =b= [])
      then save_row (named input output input.token)
      else draw_token input output

  unfoldable pub task_of_token : CreateTokenInput → UrlToken → Result Bytes → Task
  task_of_token input output (ok token) = save_row (named input output token)
  task_of_token input output (err e) =
      ended (created output (some (wrap "generating random token" e)))

  unfoldable pub task_of_saved : UrlToken → Option GoError → Task
  task_of_saved output none = read_ttl output
  task_of_saved output (some e) = ended (
      created output (
        some (
          wrap "saving to repo"
            (if is_not_unique_error (some e) then sentinel token_is_not_unique else e))))

  -- One step of a thread.
  unfoldable pub advance : Task → W → Task × W
  unfolding task_of_entry task_of_row task_of_expiry task_of_fetched task_of_dropped task_of_clock
      task_of_token task_of_saved
  advance (read_cache t) w = let (c, w') = cache.get_token t w in (task_of_entry t c, w')
  advance (read_row t) w = let (r, w') = repo.get_token t w in (task_of_row t r, w')
  advance (check_expiry t row) w = let (now, w') = env.now w in (task_of_expiry t row now, w')
  advance (read_rest t row) w = let (now, w') = env.now w in (keep_found t row now, w')
  advance (keep_found t row now) w =
      let (_, w') = cache.save_token row.token row.url (cache_ttl s row.expires_at now) w in
      (ended (resolved t (ok row.url)), w')
  advance (fetch_row t uid) w = let (r, w') = repo.get_token t w in (task_of_fetched t uid r, w')
  advance (drop_entry t) w = let (e, w') = cache.delete_token t w in (task_of_dropped t e, w')
  advance (drop_row t) w =
      let (e, w') = repo.delete_token t w in (ended (deleted (delete_error e)), w')
  advance (read_clock input http_url) w =
      let (now, w') = env.now w in (task_of_clock input http_url now, w')
  advance (draw_token input output) w =
      let (raw, w') = env.rand_read s.token_decoded_length w in
      (task_of_token input output (encode sh raw), w')
  advance (save_row output) w =
      let (e, w') = repo.save_token output w in (task_of_saved output e, w')
  advance (read_ttl output) w = let (now, w') = env.now w in (keep_created output now, w')
  advance (keep_created output now) w =
      let (_, w') =
        cache.save_token output.token output.url (cache_ttl s output.expires_at now) w in
      (ended (created output none), w')
  advance (ended r) w = (ended r, w)

  abbrev pub create_task : CreateTokenInput → Result Bytes → Task
  create_task input (ok http_url) = read_clock input http_url
  create_task input (err _) = ended (created empty_token (some (sentinel invalid_url)))

  -- What the methods start with.
  pub data IsCall : Task → Type 0 where
    resolution : (t : Bytes) → IsCall (read_cache t)
    deletion : (t uid : Bytes) → IsCall (fetch_row t uid)
    creation :
        (input : CreateTokenInput) → IsCall (create_task input (normalize_http lib input.url))

  -- The threads and the world that they share.
  pub record System : Type 0 where
    pub world : W
    pub task : ℕ → Task

  abbrev pub update : ℕ → Task → (ℕ → Task) → ℕ → Task
  update i p f j = if i == j then p else f j

  -- The thread `i` takes its next step.
  unfoldable pub turn : ℕ → System → System
  turn i x = record {
    world = (advance (x.task i) x.world).1;
    task = update i (advance (x.task i) x.world).0 x.task;
  }

  -- The scheduler lets any thread take its next step.
  pub data Reach (x : System) : System → Type 0 where
    begun : Reach x x
    later : {y : System} → Reach x y → (i : ℕ) → Reach x (turn i y)

  -- The same by the list of the threads in the order of their turns, the first one first.
  unfoldable pub run : List ℕ → System → System
  run [] x = x
  run (i ∷ is) x = run is (turn i x)

  pub run-Reach : (is : List ℕ) {x y : System} → Reach x y → Reach x (run is y)
  unfolding run
  run-Reach [] r = r
  run-Reach (i ∷ is) r = run-Reach is (later r i)
