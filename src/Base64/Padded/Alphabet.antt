-- ===== src/Base64/Padded/Alphabet.antt =====
-- The characters of padded base64, among those that the value of a cookie can have.
use pet_urls.Prelude.{ℕ, ◌+◌, ◌*◌, ◌/◌, ◌%◌, ◌<◌, ◌≤◌, ◌≢◌, Bytes, [], ◌∷◌, arith, All, IsByte}
use pet_urls.Base64.{to_char}
use pet_urls.Base64.Padded.{encode_padded}

-- The octets of RFC 6265: printable, and no space, quote, comma, semicolon or backslash.
abbrev pub IsCookieOctet : ℕ → Type 0
IsCookieOctet b = (33 ≤ b) × (b < 127) × (b ≢ b'"') × (b ≢ b',') × (b ≢ b';') × (b ≢ 92)

to_char-IsCookieOctet : (i : ℕ) → i < 64 → IsCookieOctet (to_char i)
unfolding to_char
to_char-IsCookieOctet i h = ground arith

pub encode_padded-IsCookieOctet : (s : Bytes) → All IsByte s → All IsCookieOctet (encode_padded s)
unfolding encode_padded
encode_padded-IsCookieOctet [] h = tt
encode_padded-IsCookieOctet (a ∷ []) (ha, _) = (
  to_char-IsCookieOctet (a / 4) (omega arith),
  (to_char-IsCookieOctet (a % 4 * 16) (omega arith), (ground arith, (ground arith, tt))),
)
encode_padded-IsCookieOctet (a ∷ b ∷ []) (ha, (hb, _)) = (
  to_char-IsCookieOctet (a / 4) (omega arith),
  (
    to_char-IsCookieOctet (a % 4 * 16 + b / 16) (omega arith),
    (to_char-IsCookieOctet (b % 16 * 4) (omega arith), (ground arith, tt)),
  ),
)
encode_padded-IsCookieOctet (a ∷ b ∷ c ∷ s) (ha, (hb, (hc, hs))) = (
  to_char-IsCookieOctet (a / 4) (omega arith),
  (
    to_char-IsCookieOctet (a % 4 * 16 + b / 16) (omega arith),
    (
      to_char-IsCookieOctet (b % 16 * 4 + c / 64) (omega arith),
      (to_char-IsCookieOctet (c % 64) (omega arith), encode_padded-IsCookieOctet s hs),
    ),
  ),
)
