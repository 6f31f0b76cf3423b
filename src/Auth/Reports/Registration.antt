-- ===== src/Auth/Reports/Registration.antt =====
-- What Register of internal/services/auth/auth.go returns and leaves behind, by what each call of a
-- dependency has answered.
use pet_urls.Prelude.{
  ◌<◌, ◌≤◌, ◌≡◌, refl, inl, inr, Bytes, true, false, Option, none, some, [], arith, ltb, ltb→lt,
  length, Bool-cases,
}
use pet_urls.Errors.{
  GoError, Result, ok, err, invalid_login, invalid_password, login_not_unique, same_sentinel,
  errors_is, Hides, is_not_unique_error,
}
use pet_urls.Auth.Types.{Auth}
use pet_urls.Auth.Service.{save_user_error, after_hash, register}

module _ {W : Type 0} (a : Auth W) where
  open a use {env, repo}

  -- A registration: the hash of the password, and the saving of the user with it.
  module _ (name password : Bytes) (w : W) where
    abbrev hashed : Result Bytes × W
    hashed = env.generate_from_password password w

    abbrev saved : Bytes → Result Bytes × W
    saved hash = repo.save_user (record { id = []; login = name; password_hash = hash }) hashed.1

    pub data RegisterReport : (Option GoError × W) → Type 0 where
      long_name :
          (e : GoError)
          → 64 < length name
          → errors_is (some e) invalid_login ≡ true
          → RegisterReport (some e, w)
      not_hashed :
          (x e : GoError)
          → length name ≤ 64
          → hashed.0 ≡ err x
          → errors_is (some e) invalid_password ≡ true
          → RegisterReport (some e, hashed.1)
      taken :
          (hash : Bytes) (x e : GoError)
          → length name ≤ 64
          → hashed.0 ≡ ok hash
          → (saved hash).0 ≡ err x
          → is_not_unique_error (some x) ≡ true
          → errors_is (some e) login_not_unique ≡ true
          → RegisterReport (some e, (saved hash).1)
      not_saved :
          (hash : Bytes) (x e : GoError)
          → length name ≤ 64
          → hashed.0 ≡ ok hash
          → (saved hash).0 ≡ err x
          → is_not_unique_error (some x) ≡ false
          → Hides e
          → RegisterReport (some e, (saved hash).1)
      registered :
          (hash id : Bytes)
          → length name ≤ 64
          → hashed.0 ≡ ok hash
          → (saved hash).0 ≡ ok id
          → RegisterReport (none, (saved hash).1)

    saved-RegisterReport :
        (hash : Bytes) (r : Result Bytes)
        → length name ≤ 64
        → hashed.0 ≡ ok hash
        → (saved hash).0 ≡ r
        → RegisterReport (save_user_error a r, (saved hash).1)
    unfolding save_user_error errors_is same_sentinel
    saved-RegisterReport hash (ok id) short done kept = registered hash id short done kept
    saved-RegisterReport hash (err x) short done failed =
        elim (Bool-cases (is_not_unique_error (some x))) [
          | inl unique ↦ rw unique (taken hash x _ short done failed unique refl)
          | inr other ↦ rw other (not_saved hash x _ short done failed other (λ s. refl))
        ]

    hash-RegisterReport :
        (h : Result Bytes)
        → length name ≤ 64
        → hashed.0 ≡ h
        → RegisterReport (after_hash a name h hashed.1)
    unfolding after_hash errors_is same_sentinel
    hash-RegisterReport (ok hash) short done = saved-RegisterReport hash _ short done refl
    hash-RegisterReport (err x) short failed = not_hashed x _ short failed refl

    -- A registration under a name of more than 64 bytes gives ErrInvalidLogin and asks nobody. Any
    -- other one hashes the password, and gives ErrInvalidPassword where that fails; it then saves the
    -- user with that hash, and gives ErrLoginNotUnique where the name is taken, an internal error
    -- where the repository failed otherwise, and no error exactly where the user is saved.
    pub register-RegisterReport : RegisterReport (register a name password w)
    unfolding register errors_is same_sentinel
    register-RegisterReport = elim (Bool-cases (ltb 64 (length name))) [
      | inl long ↦ rw long (long_name _ (ltb→lt 64 (length name) long) refl)
      | inr short ↦ rw short (hash-RegisterReport _ (ground arith) refl)
    ]
