-- ===== src/Shortener/Service.antt =====
-- The methods of internal/services/shortener/shortener.go. The calls of the logger are left out: they
-- change nothing that a method reads.
use pet_urls.Prelude.{
  ◌-◌, ◌^◌, Bytes, not, Option, none, some, [], ltb, ◌=b=◌, is_some, if◌then◌else◌,
}
use pet_urls.Prelude.Int.{ℤ, pos, negsuc, ◌+ℤ◌, ◌-ℤ◌, ltb_ℤ, min_ℤ}
use pet_urls.Prelude.Action.{Action, pure, ◌>>=◌}
use pet_urls.Errors.{
  GoError, sentinel, wrap, Result, ok, err, invalid_url, empty_owner, token_expired,
  token_does_not_exist, token_is_not_unique, invalid_url_token, not_token_owner, errors_is,
  is_not_unique_error, is_not_found_error, wrap_option,
}
use pet_urls.Strings.Utf8.{rune_count}
use pet_urls.Url.{normalize_http}
use pet_urls.Shortener.Types.{UrlToken, CreateTokenInput, Settings, Shortener}

-- `time.Time.Sub` saturates at the ends of an int64.
unfoldable pub saturate : ℤ → ℤ
saturate d =
    if ltb_ℤ (pos (2 ^ 63 - 1)) d
    then pos (2 ^ 63 - 1)
    else if ltb_ℤ d (negsuc (2 ^ 63 - 1))
    then negsuc (2 ^ 63 - 1)
    else d

-- `min(s.maxCacheTTL, time.Until(expiresAt))`, at the clock's value `now`.
unfoldable pub cache_ttl : Settings → ℤ → ℤ → ℤ
unfolding saturate
cache_ttl s expires_at now = min_ℤ s.max_cache_ttl (saturate (expires_at -ℤ now))

-- `bytes.Equal`, to which nil is the empty slice.
abbrev pub slice_bytes : Option Bytes → Bytes
slice_bytes none = []
slice_bytes (some s) = s

abbrev pub empty_token : UrlToken
empty_token = record { token = []; url = []; expires_at = pos 0; owner_id = none }

-- The error of `createToken`, wrapped where the token is not unique.
abbrev pub owned_error : Option GoError → Option GoError
owned_error e =
    if errors_is e token_is_not_unique
    then wrap_option "shortener, creating token with owner" e
    else e

-- The error of `DeleteToken` after the deletion in the repository.
abbrev pub delete_error : Option GoError → Option GoError
delete_error e = if is_not_found_error e then none else wrap_option "shortener, deleting token" e

module _ {W : Type 0} (sh : Shortener W) where
  open sh use {lib, env, repo, cache, settings as s}

  unfoldable pub after_repo_check : Option GoError → Action W (Option GoError)
  after_repo_check (some e) = pure (some (wrap "shortener, repo healthcheck" e))
  after_repo_check none = do _ ← cache.health_check; pure none

  unfoldable pub health_check : Action W (Option GoError)
  unfolding after_repo_check
  health_check = do e ← repo.health_check; after_repo_check e

  abbrev pub encode : Result Bytes → Result Bytes
  encode (ok raw) = ok (env.base58_encode raw)
  encode (err e) = err e

  unfoldable pub generate_random_base58 : Action W (Result Bytes)
  generate_random_base58 = do raw ← env.rand_read s.token_decoded_length; pure (encode raw)

  -- The token of the request, or a random one.
  unfoldable pub choose_token : Bytes → Action W (Result Bytes)
  choose_token requested =
      if not (requested =b= []) then pure (ok requested) else generate_random_base58

  -- `createToken` after the save in the repository, with what that reported.
  unfoldable pub after_save : UrlToken → Option GoError → Action W (UrlToken × Option GoError)
  after_save output none = do
    now ← env.now
    _ ← cache.save_token output.token output.url (cache_ttl s output.expires_at now)
    pure (output, none)
  after_save output (some e) =
      if is_not_unique_error (some e)
      then pure (output, some (wrap "saving to repo" (sentinel token_is_not_unique)))
      else pure (output, some (wrap "saving to repo" e))

  -- `createToken` after the choice of the token.
  unfoldable pub after_choice :
      CreateTokenInput → UrlToken → Result Bytes → Action W (UrlToken × Option GoError)
  after_choice input output (err e) = pure (output, some (wrap "generating random token" e))
  after_choice input output (ok token) = do
    let chosen = record output { token = token; owner_id = input.owner_id }
    e ← repo.save_token chosen
    after_save chosen e

  abbrev pub effective_ttl : CreateTokenInput → ℤ
  effective_ttl input = if ltb_ℤ (pos 0) input.ttl then input.ttl else s.token_ttl

  -- `createToken` after the validation of the URL.
  unfoldable pub after_url : CreateTokenInput → Result Bytes → Action W (UrlToken × Option GoError)
  after_url input (err _) = pure (empty_token, some (sentinel invalid_url))
  after_url input (ok http_url) = do
    now ← env.now
    let output = record empty_token { url = http_url; expires_at = now +ℤ effective_ttl input }
    if ltb 64 (rune_count input.token)
        then pure (output, some (sentinel invalid_url_token))
        else do token ← choose_token input.token; after_choice input output token

  unfoldable pub create_token : CreateTokenInput → Action W (UrlToken × Option GoError)
  create_token input = after_url input (normalize_http lib input.url)

  unfoldable pub generate_token : Bytes → Action W (UrlToken × Option GoError)
  generate_token raw_url =
      create_token (record { url = raw_url; ttl = pos 0; token = []; owner_id = none })

  unfoldable pub create_token_with_owner : CreateTokenInput → Action W (UrlToken × Option GoError)
  create_token_with_owner input =
      if not (is_some input.owner_id)
      then pure
          (empty_token, some (wrap "shortener, creating token with owner" (sentinel empty_owner)))
      else do (output, e) ← create_token input; pure (output, owned_error e)

  -- `ResolveToken` after the lookup in the repository.
  unfoldable pub after_lookup : Result UrlToken → Action W (Result Bytes)
  after_lookup (err e) =
      if is_not_found_error (some e)
      then pure (err (wrap "shortener, fetching token from db" (sentinel token_does_not_exist)))
      else pure (err (wrap "shortener, fetching token from db" e))
  after_lookup (ok token) = do
    now ← env.now
    if ltb_ℤ token.expires_at now
        then pure (err (wrap "shortener.GetOriginalURL" (sentinel token_expired)))
        else do
          now' ← env.now
          _ ← cache.save_token token.token token.url (cache_ttl s token.expires_at now')
          pure (ok token.url)

  unfoldable pub resolve_from_repo : Bytes → Action W (Result Bytes)
  resolve_from_repo token_str = do found ← repo.get_token token_str; after_lookup found

  -- `ResolveToken` after the lookup in the cache; a failing cache counts as a miss.
  unfoldable pub after_cache : Bytes → Result (Option Bytes) → Action W (Result Bytes)
  after_cache token_str (ok (some url)) = pure (ok url)
  after_cache token_str (ok none) = resolve_from_repo token_str
  after_cache token_str (err _) = resolve_from_repo token_str

  unfoldable pub resolve_token : Bytes → Action W (Result Bytes)
  resolve_token token_str = do cached ← cache.get_token token_str; after_cache token_str cached

  -- `DeleteToken` after the deletion in the cache.
  unfoldable pub after_cache_delete : Bytes → Option GoError → Action W (Option GoError)
  after_cache_delete token_str (some e) = pure (some e)
  after_cache_delete token_str none = do e ← repo.delete_token token_str; pure (delete_error e)

  -- `DeleteToken` after the lookup in the repository.
  unfoldable pub after_fetch : Bytes → Bytes → Result UrlToken → Action W (Option GoError)
  after_fetch token_str requesting_user_id (err e) =
      if is_not_found_error (some e)
      then pure none
      else pure (some (wrap "shortener, fetching token from repo for deletion" e))
  after_fetch token_str requesting_user_id (ok token) =
      if not (slice_bytes token.owner_id =b= requesting_user_id)
      then pure (some (wrap "shortener, deleting token" (sentinel not_token_owner)))
      else do e ← cache.delete_token token_str; after_cache_delete token_str e

  unfoldable pub delete_token : Bytes → Bytes → Action W (Option GoError)
  delete_token token_str requesting_user_id = do
    found ← repo.get_token token_str
    after_fetch token_str requesting_user_id found
