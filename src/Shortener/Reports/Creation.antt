-- ===== src/Shortener/Reports/Creation.antt =====
-- CreateTokenWithOwner of internal/services/shortener/shortener.go call for call: what it returns, by
-- what each call of a dependency has answered.
use pet_urls.Prelude.{◌<◌, ◌≤◌, ◌≡◌, Bytes, true, false, Option, none, some, []}
use pet_urls.Prelude.Int.{ℤ, ◌+ℤ◌}
use pet_urls.Prelude.Action.{Action}
use pet_urls.Errors.{
  GoError, Sentinel, Result, ok, err, invalid_url, empty_owner, token_is_not_unique,
  invalid_url_token, errors_is, is_not_unique_error,
}
use pet_urls.Strings.Utf8.{rune_count}
use pet_urls.Url.{normalize_http}
use pet_urls.Shortener.Types.{UrlToken, CreateTokenInput, Shortener}
use pet_urls.Shortener.Service.{empty_token, effective_ttl, choose_token}

module _ {W : Type 0} (sh : Shortener W) where
  open sh use {lib, env, repo, cache}

  -- A creation: the reading of the clock, the choice of the token, and the saving of the row.
  module _ (input : CreateTokenInput) (w : W) where
    abbrev clock : ℤ × W
    clock = env.now w

    abbrev choice : Result Bytes × W
    choice = choose_token sh input.token clock.1

    abbrev output : Bytes → Bytes → UrlToken
    output u t = record empty_token {
      token = t;
      url = u;
      expires_at = clock.0 +ℤ effective_ttl sh input;
      owner_id = input.owner_id;
    }

    abbrev save : Bytes → Bytes → Option GoError × W
    save u t = repo.save_token (output u t) choice.1

    -- The URL normalises to `u`, and the requested name is not too long.
    abbrev Accepts : Bytes → Type 0
    Accepts u = (normalize_http lib input.url ≡ ok u) × (rune_count input.token ≤ 64)

    abbrev Keeps : GoError → Option GoError → Type 0
    Keeps x e = (s : Sentinel) → errors_is e s ≡ errors_is (some x) s

    pub data CreateReport (o : UrlToken) (e : Option GoError) : Type 0 where
      without_url :
          (x : GoError)
          → normalize_http lib input.url ≡ err x
          → errors_is e invalid_url ≡ true
          → CreateReport o e
      too_long :
          (u : Bytes)
          → normalize_http lib input.url ≡ ok u
          → 64 < rune_count input.token
          → errors_is e invalid_url_token ≡ true
          → CreateReport o e
      not_drawn :
          (u : Bytes) (x : GoError)
          → Accepts u
          → input.token ≡ []
          → (env.rand_read sh.settings.token_decoded_length clock.1).0 ≡ err x
          → Keeps x e
          → CreateReport o e
      taken :
          (u t : Bytes) (x : GoError)
          → Accepts u
          → choice.0 ≡ ok t
          → (save u t).0 ≡ some x
          → is_not_unique_error (some x) ≡ true
          → errors_is e token_is_not_unique ≡ true
          → CreateReport o e
      not_saved :
          (u t : Bytes) (x : GoError)
          → Accepts u
          → choice.0 ≡ ok t
          → (save u t).0 ≡ some x
          → is_not_unique_error (some x) ≡ false
          → Keeps x e
          → CreateReport o e
      made :
          (u t : Bytes)
          → Accepts u
          → choice.0 ≡ ok t
          → (save u t).0 ≡ none
          → o ≡ output u t
          → e ≡ none
          → CreateReport o e

    abbrev IsReported : (UrlToken × Option GoError) → Type 0
    IsReported x = CreateReport x.0 x.1

    abbrev prepared : Bytes → UrlToken
    prepared u = record empty_token { url = u; expires_at = clock.0 +ℤ effective_ttl sh input }

    -- What the request's owner makes of it: without one, ErrEmptyOwner.
    pub data OwnedReport (x : UrlToken × Option GoError) : Type 0 where
      without_owner : input.owner_id ≡ none → errors_is x.1 empty_owner ≡ true → OwnedReport x
      with_owner : (id : Bytes) → input.owner_id ≡ some id → IsReported x → OwnedReport x
