-- ===== src/Context.antt =====
-- internal/context/context.go: request-scoped values in a context.Context.
pub mod Laws
use pet_urls.Prelude.{Bytes, Bool, true, Option, none, some, List, [], ◌∷◌, ◌≡◌, refl, arith}

-- The dynamic type of a stored value: `string` or `[]byte`.
pub data Value : Type 0 where
  str : Bytes → Value
  slice : Bytes → Value

-- `type contextKey struct{}`: a type with one value, so any two keys of it are equal.
pub data ContextKey : Type 0 where
  context_key : ContextKey

-- A context as the chain of its `WithValue` nodes, the innermost first.
abbrev pub Ctx : Type 0
Ctx = List (ContextKey × Value)

abbrev pub request_id_key : ContextKey
request_id_key = context_key

abbrev pub user_key : ContextKey
user_key = context_key

-- `==` on interface values of the type contextKey.
key_eq : ContextKey → ContextKey → Bool
key_eq context_key context_key = true

value : ContextKey → Ctx → Option Value
unfolding key_eq
value k [] = none
value k ((j, v) ∷ ctx) = elim (key_eq j k) [ true ↦ some v | _ ↦ value k ctx ]

abbrev as_string : Option Value → Option Bytes
as_string (some (str s)) = some s
as_string _ = none

abbrev as_slice : Option Value → Option Bytes
as_slice (some (slice s)) = some s
as_slice _ = none

unfoldable pub context_with_request_id : Ctx → Bytes → Ctx
context_with_request_id ctx id = (request_id_key, str id) ∷ ctx

unfoldable pub request_id : Ctx → Option Bytes
unfolding value
request_id ctx = as_string (value request_id_key ctx)

unfoldable pub context_with_user_id : Ctx → Bytes → Ctx
context_with_user_id ctx id = (user_key, slice id) ∷ ctx

unfoldable pub user_id_from_context : Ctx → Option Bytes
unfolding value
user_id_from_context ctx = as_slice (value user_key ctx)
