-- ===== src/Context/Laws.antt =====
-- What the two values of a context, the request ID and the user ID, do to each other.
use pet_urls.Prelude.{◌≡◌, refl, Bytes, none, some}
use pet_urls.Context.{
  Ctx, context_with_request_id, request_id, context_with_user_id, user_id_from_context,
}

-- A stored request ID is read back. Once a user ID is stored over it, the user ID is read back but the
-- request ID is not found any more.
pub request_id-context_with_user_id :
    (ctx : Ctx) (id user : Bytes)
    → (request_id (context_with_request_id ctx id) ≡ some id)
      × (user_id_from_context (context_with_user_id (context_with_request_id ctx id) user)
          ≡ some user)
      × (request_id (context_with_user_id (context_with_request_id ctx id) user) ≡ none)
unfolding request_id context_with_request_id context_with_user_id user_id_from_context
request_id-context_with_user_id ctx id user = (refl, refl, refl)
