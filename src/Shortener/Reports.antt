-- ===== src/Shortener/Reports.antt =====
-- ResolveToken and DeleteToken of internal/services/shortener/shortener.go call for call: what they
-- return and leave behind, by what each call of a dependency has answered.
pub mod Creation
use pet_urls.Prelude.{
  ◌≡◌, ◌≢◌, refl, ◌⊎◌, inl, inr, Bytes, true, false, Option, none, some, arith, ◌=b=◌, =b=_sound,
  =b=_refl, Bool-cases,
}
use pet_urls.Prelude.Int.{ℤ, ◌<ℤ◌, ◌≤ℤ◌, ltb_ℤ}
use pet_urls.Errors.{
  GoError, Result, ok, err, token_expired, token_does_not_exist, not_token_owner, same_sentinel,
  errors_is, Tells, is_not_found_error,
}
use pet_urls.Shortener.Types.{UrlToken, Shortener}
use pet_urls.Shortener.Service.{
  slice_bytes, cache_ttl, delete_error, after_lookup, resolve_from_repo, after_cache, resolve_token,
  after_cache_delete, after_fetch, delete_token,
}

module _ {W : Type 0} (sh : Shortener W) where
  open sh use {env, repo, cache, settings as s}

  -- A resolution: what the cache answers, then what the repository answers, then the first and the
  -- second reading of the clock.
  module _ (t : Bytes) (w : W) where
    abbrev entry : Result (Option Bytes) × W
    entry = cache.get_token t w

    abbrev row : Result UrlToken × W
    row = repo.get_token t entry.1

    abbrev clock : ℤ × W
    clock = env.now row.1

    abbrev clock' : ℤ × W
    clock' = env.now clock.1

    abbrev Missed : Type 0
    Missed = (u : Bytes) → entry.0 ≢ ok (some u)

    pub data ResolveReport : (Result Bytes × W) → Type 0 where
      hit : (u : Bytes) → entry.0 ≡ ok (some u) → ResolveReport (ok u, entry.1)
      live :
          (r : UrlToken)
          → Missed
          → row.0 ≡ ok r
          → clock.0 ≤ℤ r.expires_at
          → ResolveReport (
            ok r.url,
            (cache.save_token r.token r.url (cache_ttl s r.expires_at clock'.0) clock'.1).1,
          )
      expired :
          (r : UrlToken) (e : GoError)
          → Missed
          → row.0 ≡ ok r
          → r.expires_at <ℤ clock.0
          → errors_is (some e) token_expired ≡ true
          → ResolveReport (err e, clock.1)
      missing :
          (x e : GoError)
          → Missed
          → row.0 ≡ err x
          → is_not_found_error (some x) ≡ true
          → errors_is (some e) token_does_not_exist ≡ true
          → ResolveReport (err e, row.1)
      unread :
          (x e : GoError)
          → Missed
          → row.0 ≡ err x
          → is_not_found_error (some x) ≡ false
          → Tells x e
          → ResolveReport (err e, row.1)

    lookup-ResolveReport :
        (f : Result UrlToken) → Missed → row.0 ≡ f → ResolveReport (after_lookup sh f row.1)
    unfolding after_lookup errors_is same_sentinel
    lookup-ResolveReport (ok r) missed found = elim (Bool-cases (ltb_ℤ r.expires_at clock.0)) [
      | inl late ↦ rw late (expired r _ missed found (ground arith) refl)
      | inr early ↦ rw early (live r missed found (ground arith))
    ]
    lookup-ResolveReport (err x) missed failed = elim (Bool-cases (is_not_found_error (some x))) [
      | inl absent ↦ rw absent (missing x _ missed failed absent refl)
      | inr other ↦ rw other (unread x _ missed failed other (λ s. refl))
    ]

    cache-ResolveReport :
        (c : Result (Option Bytes)) → entry.0 ≡ c → ResolveReport (after_cache sh t c entry.1)
    unfolding after_cache resolve_from_repo
    cache-ResolveReport (ok (some u)) same = hit u same
    cache-ResolveReport (ok none) same = lookup-ResolveReport _ (λ u h. cc (same, h)) refl
    cache-ResolveReport (err e) same = lookup-ResolveReport _ (λ u h. cc (same, h)) refl

    -- A resolution that finds a cache entry returns it and asks nobody else. Any other one returns the
    -- URL of the row that the repository gave, after an attempt to save its entry for the lifetime of
    -- cacheTTL, where the clock has not passed the row's expiry; ErrTokenExpired where it has;
    -- ErrTokenDoesNotExist where the repository knows no such row; and the repository's error where it
    -- failed otherwise. The cache is asked first, and its error counts as a miss.
    pub resolve_token-ResolveReport : ResolveReport (resolve_token sh t w)
    unfolding resolve_token
    resolve_token-ResolveReport = cache-ResolveReport entry.0 refl

  -- A deletion: what the repository answers, then the deletion in the cache, then in the repository.
  module _ (t uid : Bytes) (w : W) where
    abbrev fetch : Result UrlToken × W
    fetch = repo.get_token t w

    abbrev drop : Option GoError × W
    drop = cache.delete_token t fetch.1

    abbrev remove : Option GoError × W
    remove = repo.delete_token t drop.1

    abbrev Owned : UrlToken → Type 0
    Owned r = (fetch.0 ≡ ok r) × (slice_bytes r.owner_id ≡ uid)

    pub data DeleteReport : (Option GoError × W) → Type 0 where
      absent :
          (x : GoError)
          → fetch.0 ≡ err x
          → is_not_found_error (some x) ≡ true
          → DeleteReport (none, fetch.1)
      unread :
          (x e : GoError)
          → fetch.0 ≡ err x
          → is_not_found_error (some x) ≡ false
          → Tells x e
          → DeleteReport (some e, fetch.1)
      foreign :
          (r : UrlToken) (e : GoError)
          → fetch.0 ≡ ok r
          → slice_bytes r.owner_id ≢ uid
          → errors_is (some e) not_token_owner ≡ true
          → DeleteReport (some e, fetch.1)
      kept_in_cache :
          (r : UrlToken) (x e : GoError)
          → Owned r
          → drop.0 ≡ some x
          → Tells x e
          → DeleteReport (some e, drop.1)
      kept :
          (r : UrlToken) (x e : GoError)
          → Owned r
          → drop.0 ≡ none
          → remove.0 ≡ some x
          → is_not_found_error (some x) ≡ false
          → Tells x e
          → DeleteReport (some e, remove.1)
      deleted :
          (r : UrlToken)
          → Owned r
          → drop.0 ≡ none
          → (remove.0 ≡ none) ⊎ (is_not_found_error remove.0 ≡ true)
          → DeleteReport (none, remove.1)

    remove-DeleteReport :
        (r : UrlToken) (o : Option GoError)
        → Owned r
        → drop.0 ≡ none
        → remove.0 ≡ o
        → DeleteReport (delete_error o, remove.1)
    unfolding errors_is is_not_found_error
    remove-DeleteReport r none own dropped done = deleted r own dropped (inl done)
    remove-DeleteReport r (some x) own dropped failed =
        elim (Bool-cases (is_not_found_error (some x))) [
          | inl gone ↦ rw gone (deleted r own dropped (inr (rw failed gone)))
          | inr other ↦ rw other (kept r x _ own dropped failed other (λ s. refl))
        ]

    cache-DeleteReport :
        (r : UrlToken) (o : Option GoError)
        → Owned r
        → drop.0 ≡ o
        → DeleteReport (after_cache_delete sh t o drop.1)
    unfolding after_cache_delete errors_is
    cache-DeleteReport r none own dropped = remove-DeleteReport r _ own dropped refl
    cache-DeleteReport r (some x) own failed = kept_in_cache r x _ own failed (λ s. refl)

    fetch-DeleteReport :
        (f : Result UrlToken) → fetch.0 ≡ f → DeleteReport (after_fetch sh t uid f fetch.1)
    unfolding after_fetch errors_is same_sentinel
    fetch-DeleteReport (ok r) found = elim (Bool-cases (slice_bytes r.owner_id =b= uid)) [
      | inl own ↦ rw own (cache-DeleteReport r _ (found, =b=_sound _ _ own) refl)
      | inr other ↦
          let differs : slice_bytes r.owner_id ≢ uid = λ same. cc (other, =b=_refl uid, same) in
          rw other (foreign r _ found differs refl)
    ]
    fetch-DeleteReport (err x) failed = elim (Bool-cases (is_not_found_error (some x))) [
      | inl gone ↦ rw gone (absent x failed gone)
      | inr other ↦ rw other (unread x _ failed other (λ s. refl))
    ]

    -- A deletion reports nothing only where the repository knows no such row, or where it gave a row
    -- of the requesting user, the cache has dropped its entry, and then the repository has removed the
    -- row or knows it no more. Another user's row gives ErrNotTokenOwner, and neither the cache nor the
    -- row is touched; the error of a call that failed is reported, and no further call is made.
    pub delete_token-DeleteReport : DeleteReport (delete_token sh t uid w)
    unfolding delete_token
    delete_token-DeleteReport = fetch-DeleteReport fetch.0 refl
