-- ===== src/Base64.antt =====
-- Go's `base64.RawURLEncoding`, which internal/services/auth/auth.go uses for user IDs in claims.
pub mod RoundTrip
pub mod Padded
use pet_urls.Prelude.{
  ℕ, ◌+◌, ◌-◌, ◌*◌, ◌/◌, ◌%◌, Bytes, Bool, ◌&&◌, ◌||◌, Option, none, some, List, [], ◌∷◌, ◌==◌, ltb,
  leb, if◌then◌else◌,
}

-- The character of a value below 64.
unfoldable pub to_char : ℕ → ℕ
to_char i =
    if ltb i 26
    then i + b'A'
    else if ltb i 52
    then i - 26 + b'a'
    else if ltb i 62
    then i - 52 + b'0'
    else if i == 62
    then b'-'
    else b'_'

unfoldable pub of_char : ℕ → Option ℕ
of_char c =
    if leb b'A' c && leb c b'Z'
    then some (c - b'A')
    else if leb b'a' c && leb c b'z'
    then some (c - b'a' + 26)
    else if leb b'0' c && leb c b'9'
    then some (c - b'0' + 52)
    else if c == b'-'
    then some 62
    else if c == b'_'
    then some 63
    else none

unfoldable pub encode : Bytes → Bytes
unfolding to_char
encode [] = []
encode (a ∷ []) = to_char (a / 4) ∷ to_char (a % 4 * 16) ∷ []
encode (a ∷ b ∷ []) = to_char (a / 4) ∷ to_char (a % 4 * 16 + b / 16) ∷ to_char (b % 16 * 4) ∷ []
encode (a ∷ b ∷ c ∷ s) =
    to_char (a / 4)
    ∷ to_char (a % 4 * 16 + b / 16)
    ∷ to_char (b % 16 * 4 + c / 64)
    ∷ to_char (c % 64)
    ∷ encode s

-- Newlines are skipped wherever they stand.
unfoldable pub skip_newlines : Bytes → Bytes
skip_newlines [] = []
skip_newlines (c ∷ s) =
    let rest = skip_newlines s in if (c == 10) || (c == 13) then rest else c ∷ rest

infixl 5 ◌>>=◌
abbrev pub ◌>>=◌ {ℓ κ} : {A : Type ℓ} {B : Type κ} → Option A → (A → Option B) → Option B
none >>= k = none
some a >>= k = k a

-- The values of the characters, if all of them are in the alphabet.
unfoldable pub values : Bytes → Option (List ℕ)
unfolding of_char
values [] = some []
values (c ∷ s) = do v ← of_char c; vs ← values s; some (v ∷ vs)

-- Four values give three bytes; a last group of two or three gives one or two, and of one is an error.
unfoldable pub groups : List ℕ → Option Bytes
groups [] = some []
groups (u ∷ []) = none
groups (u ∷ v ∷ []) = some (((u * 4 + v / 16) % 256) ∷ [])
groups (u ∷ v ∷ w ∷ []) = some (((u * 4 + v / 16) % 256) ∷ ((v * 16 + w / 4) % 256) ∷ [])
groups (u ∷ v ∷ w ∷ x ∷ s) = do
  rest ← groups s
  some (((u * 4 + v / 16) % 256) ∷ ((v * 16 + w / 4) % 256) ∷ ((w * 64 + x) % 256) ∷ rest)

unfoldable pub decode : Bytes → Option Bytes
unfolding skip_newlines values groups
decode s = do vs ← values (skip_newlines s); groups vs
