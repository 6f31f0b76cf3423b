-- ===== src/Shortener/Owned.antt =====
-- Creations with an owner, and creations of a token that is taken.
use pet_urls.Prelude.{
  ◌≡◌, ◌≢◌, refl, sym, ap, ◌∙◌, inl, inr, Bytes, [], true, Option, none, some, arith, is_some,
  Bool-cases,
}
use pet_urls.Errors.{GoError}
use pet_urls.Shortener.Types.{UrlToken, CreateTokenInput, Shortener}
use pet_urls.Shortener.Service.{owned_error, create_token, create_token_with_owner}
use pet_urls.Shortener.Interface.{EnvLaws, RepositoryLaws, CacheLaws}
use pet_urls.Shortener.Ownership.{IsStored, create_token-IsStored}

owned_error-none : (e : Option GoError) → owned_error e ≡ none → e ≡ none
owned_error-none none h = refl
owned_error-none (some e) h = absurd (ground arith)

some_of : {A : Type 0} (o : Option A) → is_some o ≡ true → (a : A) × (o ≡ some a)
some_of none h = cc
some_of (some a) h = (a, refl)

module _ {W : Type 0} (sh : Shortener W) (stored : W → Bytes → Option UrlToken)
    (cached : W → Bytes → Option Bytes) (env_laws : EnvLaws stored cached sh.env)
    (repo_laws : RepositoryLaws stored cached sh.repo)
    (cache_laws : CacheLaws stored cached sh.cache) where
  -- What a creation with an owner that returns no error has done.
  pub record IsOwned (input : CreateTokenInput) (w : W) (o : UrlToken) (w' : W) : Type 0 where
    pub owner : Bytes
    pub given : input.owner_id ≡ some owner
    pub made : IsStored sh stored cached env_laws repo_laws cache_laws input w o w'
    pub kept : o.owner_id ≡ some owner

  -- Where the dependencies keep their promises, a creation with an owner returns no error only where
  -- the request names an owner; then it has stored exactly the row that it returns, its expiry cut to
  -- the microsecond, and that row belongs to the owner named.
  pub create_token_with_owner-IsOwned :
      (input : CreateTokenInput) (w : W)
      → (create_token_with_owner sh input w).0.1 ≡ none
      → IsOwned input w
          (create_token_with_owner sh input w).0.0
          (create_token_with_owner sh input w).1
  unfolding create_token_with_owner
  create_token_with_owner-IsOwned input w h = elim (Bool-cases (is_some input.owner_id)) [
    | inl here ↦
        let (owner, given) = some_of input.owner_id here in
        let done = owned_error-none _ (rw here at h) in
        let made =
          create_token-IsStored sh stored cached env_laws repo_laws cache_laws input w done in
        rw here (record {
          owner = owner;
          given = given;
          made = made;
          kept = made.answer.owner_id ∙ given;
        })
    | inr absent ↦ absurd (cc (rw absent at h))
  ]

  -- Where the dependencies keep their promises, the creation of a token whose requested name already
  -- has a row returns an error.
  pub create_token_taken :
      (input : CreateTokenInput) (w : W) (r : UrlToken)
      → input.token ≢ []
      → stored w input.token ≡ some r
      → (create_token sh input w).0.1 ≢ none
  create_token_taken input w r named row done =
      let made =
        create_token-IsStored sh stored cached env_laws repo_laws cache_laws input w done in
      let same = made.answer.token named in cc (sym (ap (stored w) same), made.fresh, row)
