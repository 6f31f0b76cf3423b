-- ===== src/Http/Handlers/Tokens/SpeaksFirst.antt =====
-- The handlers of tokens set their status before they write.
use pet_urls.Prelude.{
  ◌&&◌, ◌||◌, Bytes, codes, Bool, true, false, not, Option, none, some, List, [], ◌∷◌, ◌++◌, inl,
  inr, Bool-cases, Option-cases, if◌then◌else◌, ◌=b=◌,
}
use pet_urls.Errors.{
  GoError, Result, ok, err, errors_is, invalid_url, invalid_url_token, token_is_not_unique,
  not_token_owner,
}
use pet_urls.Shortener.Types.{UrlToken}
use pet_urls.Shortener.Service
use pet_urls.Auth.Service as AuthService
use pet_urls.Auth.Service.{authenticate}
use pet_urls.Http.Writer.{Operation, set_field}
use pet_urls.Http.Writer.StatusFirst.{StatusFirst, StatusFirst-if}
use pet_urls.Http.Middleware.{Request}
use pet_urls.Http.Middleware.SpeaksFirst.{SpeaksFirst}
use pet_urls.Http.Api.{Api, internal_error, TokenRequest}
use pet_urls.Http.Handlers.Tokens
use pet_urls.Http.Api.StatusFirst.{error-StatusFirst, json-StatusFirst}

module _ {W : Type 0} (s : Api W) where
  open s use {libs, shortener, auth}

  pub after_shortener_check-SpeaksFirst :
      (r : Request) (e : Option GoError) (w : W)
      → SpeaksFirst (Tokens.after_shortener_check s r e w)
  unfolding Tokens.after_shortener_check
  after_shortener_check-SpeaksFirst r (some e) w = error-StatusFirst libs internal_error "internal"
  after_shortener_check-SpeaksFirst r none w =
      elim (Option-cases (AuthService.health_check auth w).0) [
        | inl well ↦ rw well tt
        | inr (e, ill) ↦ rw ill (error-StatusFirst libs internal_error "internal")
      ]

  generated_answer-StatusFirst :
      (out : UrlToken × Option GoError) → StatusFirst (Tokens.generated_answer s out)
  unfolding Tokens.generated_answer
  generated_answer-StatusFirst (token, none) = json-StatusFirst libs _ 201
  generated_answer-StatusFirst (token, some e) =
      StatusFirst-if (errors_is (some e) invalid_url) _ _ (error-StatusFirst libs _ _)
        (error-StatusFirst libs _ _)

  pub after_generate_body-SpeaksFirst :
      (r : Request) (b : Result Bytes) (w : W) → SpeaksFirst (Tokens.after_generate_body s r b w)
  unfolding Tokens.after_generate_body
  after_generate_body-SpeaksFirst r (err e) w = error-StatusFirst libs _ _
  after_generate_body-SpeaksFirst r (ok url) w = elim (Bool-cases (url =b= [])) [
    | inl empty ↦ rw empty (error-StatusFirst libs _ _)
    | inr given ↦ rw given (generated_answer-StatusFirst (Service.generate_token shortener url w).0)
  ]

  typed-StatusFirst :
      (b : Bool) (ops : List Operation)
      → StatusFirst ops
      → StatusFirst (
          (if b
            then set_field (codes "Content-Type") (codes "text/html; charset=utf-8") ∷ []
            else [])
          ++ ops)
  typed-StatusFirst true ops h = h
  typed-StatusFirst false ops h = h

  resolved_answer-StatusFirst :
      (r : Request) (u : Result Bytes) → StatusFirst (Tokens.resolved_answer s r u)
  unfolding Tokens.resolved_answer
  resolved_answer-StatusFirst r (err e) = tt
  resolved_answer-StatusFirst r (ok url) =
      typed-StatusFirst
        (not (r.path_token =b= []) && (r.method =b= codes "GET" || r.method =b= codes "HEAD")) _ tt

  pub handle_resolve_token-SpeaksFirst :
      (r : Request) (w : W) → SpeaksFirst (Tokens.handle_resolve_token s r w)
  unfolding Tokens.handle_resolve_token
  handle_resolve_token-SpeaksFirst r w = elim (Bool-cases (r.path_token =b= [])) [
    | inl empty ↦ rw empty tt
    | inr given ↦
        rw given (resolved_answer-StatusFirst r (Service.resolve_token shortener r.path_token w).0)
  ]

  created_answer-StatusFirst :
      (out : UrlToken × Option GoError) → StatusFirst (Tokens.created_answer s out)
  unfolding Tokens.created_answer
  created_answer-StatusFirst (token, none) = json-StatusFirst libs _ 201
  created_answer-StatusFirst (token, some e) =
      StatusFirst-if (errors_is (some e) invalid_url) _ _ (error-StatusFirst libs _ _) (
        StatusFirst-if (errors_is (some e) invalid_url_token) _ _ (error-StatusFirst libs _ _) (
          StatusFirst-if (errors_is (some e) token_is_not_unique) _ _ (error-StatusFirst libs _ _)
            (error-StatusFirst libs _ _)))

  after_create_user-SpeaksFirst :
      (r : Request) (q : TokenRequest) (u : Option Bytes) (w : W)
      → SpeaksFirst (Tokens.after_create_user s r q u w)
  unfolding Tokens.after_create_user
  after_create_user-SpeaksFirst r q none w = error-StatusFirst libs _ _
  after_create_user-SpeaksFirst r q (some u) w =
      created_answer-StatusFirst
        (Service.create_token_with_owner shortener (Tokens.input_of s q u) w).0

  pub handle_create-SpeaksFirst :
      (r : Request) (b : Result TokenRequest) (w : W)
      → SpeaksFirst (Tokens.after_create_body s r b w)
  unfolding Tokens.after_create_body
  handle_create-SpeaksFirst r (err e) w = error-StatusFirst libs _ _
  handle_create-SpeaksFirst r (ok q) w = after_create_user-SpeaksFirst r q _ w

  deleted_answer-StatusFirst : (e : Option GoError) → StatusFirst (Tokens.deleted_answer s e)
  unfolding Tokens.deleted_answer
  deleted_answer-StatusFirst none = tt
  deleted_answer-StatusFirst (some e) =
      StatusFirst-if (errors_is (some e) not_token_owner) _ _ (error-StatusFirst libs _ _)
        (error-StatusFirst libs _ _)

  after_delete_user-SpeaksFirst :
      (r : Request) (u : Option Bytes) (w : W) → SpeaksFirst (Tokens.after_delete_user s r u w)
  unfolding Tokens.after_delete_user
  after_delete_user-SpeaksFirst r none w = error-StatusFirst libs _ _
  after_delete_user-SpeaksFirst r (some u) w =
      deleted_answer-StatusFirst (Service.delete_token shortener r.path_token u w).0

  pub handle_delete_token-SpeaksFirst :
      (r : Request) (w : W) → SpeaksFirst (Tokens.handle_delete_token s r w)
  unfolding Tokens.handle_delete_token
  handle_delete_token-SpeaksFirst r w = elim (Bool-cases (r.path_token =b= [])) [
    | inl empty ↦ rw empty tt
    | inr given ↦ rw given (after_delete_user-SpeaksFirst r _ w)
  ]
