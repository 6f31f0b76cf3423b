-- ===== src/Base64/Padded.antt =====
-- Go's `base64.URLEncoding`, with padding, which internal/transport/http/cookies.go uses.
pub mod RoundTrip
pub mod Alphabet
use pet_urls.Prelude.{
  ℕ, ◌+◌, ◌*◌, ◌/◌, ◌%◌, Bytes, Bool, ◌&&◌, Option, none, some, List, [], ◌∷◌, ◌++◌, ◌==◌,
  if◌then◌else◌,
}
use pet_urls.Base64.{to_char, of_char, skip_newlines, values, groups, ◌>>=◌}

unfoldable pub encode_padded : Bytes → Bytes
unfolding to_char
encode_padded [] = []
encode_padded (a ∷ []) = to_char (a / 4) ∷ to_char (a % 4 * 16) ∷ b'=' ∷ b'=' ∷ []
encode_padded (a ∷ b ∷ []) =
    to_char (a / 4) ∷ to_char (a % 4 * 16 + b / 16) ∷ to_char (b % 16 * 4) ∷ b'=' ∷ []
encode_padded (a ∷ b ∷ c ∷ s) =
    to_char (a / 4)
    ∷ to_char (a % 4 * 16 + b / 16)
    ∷ to_char (b % 16 * 4 + c / 64)
    ∷ to_char (c % 64)
    ∷ encode_padded s

unfoldable pub group_of : Bytes → Option Bytes
group_of s = do vs ← values s; groups vs

abbrev pub joined : Option Bytes → Option Bytes → Option Bytes
joined first rest = do a ← first; b ← rest; some (a ++ b)

-- Padding closes the text: nothing but newlines follows it.
abbrev pub closing : Bytes → Option Bytes → Option Bytes
closing [] group = group
closing (c ∷ s) group = none

-- Groups of four characters, the last of which may be padded.
unfoldable pub quanta : Bytes → Option Bytes
unfolding group_of
quanta [] = some []
quanta (a ∷ []) = none
quanta (a ∷ b ∷ []) = none
quanta (a ∷ b ∷ c ∷ []) = none
quanta (a ∷ b ∷ c ∷ d ∷ s) =
    let rest = quanta s in
    if (c == b'=') && (d == b'=')
    then closing s (group_of (a ∷ b ∷ []))
    else if d == b'='
    then closing s (group_of (a ∷ b ∷ c ∷ []))
    else joined (group_of (a ∷ b ∷ c ∷ d ∷ [])) rest

unfoldable pub decode_padded : Bytes → Option Bytes
unfolding skip_newlines quanta
decode_padded s = quanta (skip_newlines s)
