-- ===== src/Base64/Padded/RoundTrip.antt =====
-- Decoding after encoding, with padding.
use pet_urls.Prelude.{
  ℕ, ◌+◌, ◌*◌, ◌/◌, ◌%◌, ◌<◌, ◌≡◌, refl, ap, ◌∙◌, Bytes, false, some, List, [], ◌∷◌, ◌==◌, arith,
  All, IsByte,
}
use mathlib.Core.Path.{ap₂}
use pet_urls.Base64.{to_char, skip_newlines, values, groups}
use pet_urls.Base64.RoundTrip.{of_char-to_char, to_char-ne-newline, triple_path}
use pet_urls.Base64.Padded.{encode_padded, group_of, quanta, decode_padded}

to_char-ne-padding : (i : ℕ) → (to_char i == b'=') ≡ false
unfolding to_char
to_char-ne-padding i = ground arith

skip_newlines-to_char :
    (i : ℕ) (s : Bytes) → skip_newlines (to_char i ∷ s) ≡ to_char i ∷ skip_newlines s
unfolding skip_newlines
skip_newlines-to_char i s = ground (arith, to_char-ne-newline i)

skip_newlines-encode_padded : (s : Bytes) → skip_newlines (encode_padded s) ≡ encode_padded s
unfolding encode_padded
skip_newlines-encode_padded [] = unfold skip_newlines in refl
skip_newlines-encode_padded (a ∷ []) =
    rw skip_newlines-to_char (rw skip_newlines-to_char (unfold skip_newlines in refl))
skip_newlines-encode_padded (a ∷ b ∷ []) =
    rw skip_newlines-to_char
      (rw skip_newlines-to_char (rw skip_newlines-to_char (unfold skip_newlines in refl)))
skip_newlines-encode_padded (a ∷ b ∷ c ∷ s) = rw skip_newlines-to_char (
    rw skip_newlines-to_char
      (rw skip_newlines-to_char (rw skip_newlines-to_char (rw (skip_newlines-encode_padded s)))))

-- The values of a group, one character at a time.
values-to_char :
    (i : ℕ) (s : Bytes) (vs : List ℕ)
    → i < 64
    → values s ≡ some vs
    → values (to_char i ∷ s) ≡ some (i ∷ vs)
unfolding values
values-to_char i s vs h e = rw (of_char-to_char i h, e)

values_nil : values [] ≡ some []
unfolding values
values_nil = refl

group_of-values : (s : Bytes) (vs : List ℕ) → values s ≡ some vs → group_of s ≡ groups vs
unfolding group_of
group_of-values s vs h = rw h

one : (a : ℕ) → a < 256 → group_of (to_char (a / 4) ∷ to_char (a % 4 * 16) ∷ []) ≡ some (a ∷ [])
unfolding groups
one a h =
    group_of-values _ _ (
      values-to_char (a / 4) _ _ (omega arith)
        (values-to_char (a % 4 * 16) _ _ (omega arith) values_nil))
    ∙ (ap (λ x. some (x ∷ [])) (omega arith))

two :
    (a b : ℕ)
    → a < 256
    → b < 256
    → group_of (to_char (a / 4) ∷ to_char (a % 4 * 16 + b / 16) ∷ to_char (b % 16 * 4) ∷ [])
      ≡ some (a ∷ b ∷ [])
unfolding groups
two a b h k =
    group_of-values _ _ (
      values-to_char (a / 4) _ _ (omega arith) (
        values-to_char (a % 4 * 16 + b / 16) _ _ (omega arith)
          (values-to_char (b % 16 * 4) _ _ (omega arith) values_nil)))
    ∙ (ap₂ (λ x y. some (x ∷ y ∷ [])) (omega arith) (omega arith))

three :
    (a b c : ℕ)
    → a < 256
    → b < 256
    → c < 256
    → group_of (
        to_char (a / 4)
        ∷ to_char (a % 4 * 16 + b / 16)
        ∷ to_char (b % 16 * 4 + c / 64)
        ∷ to_char (c % 64)
        ∷ [])
      ≡ some (a ∷ b ∷ c ∷ [])
unfolding groups
three a b c h k l =
    group_of-values _ _ (
      values-to_char (a / 4) _ _ (omega arith) (
        values-to_char (a % 4 * 16 + b / 16) _ _ (omega arith) (
          values-to_char (b % 16 * 4 + c / 64) _ _ (omega arith)
            (values-to_char (c % 64) _ _ (omega arith) values_nil))))
    ∙ (triple_path [] (omega arith) (omega arith) (omega arith))

quanta-encode_padded : (s : Bytes) → All IsByte s → quanta (encode_padded s) ≡ some s
unfolding quanta encode_padded
quanta-encode_padded [] h = refl
quanta-encode_padded (a ∷ []) h = one a (omega arith)
quanta-encode_padded (a ∷ b ∷ []) h =
    rw (to_char-ne-padding (b % 16 * 4)) (two a b (omega arith) (omega arith))
quanta-encode_padded (a ∷ b ∷ c ∷ s) h =
    rw (to_char-ne-padding (c % 64), to_char-ne-padding (b % 16 * 4 + c / 64))
      (rw (three a b c (omega arith) (omega arith) (omega arith), quanta-encode_padded s h.1.1.1))

-- Decoding the padded URL encoding of any bytes gives the bytes back.
pub decode_padded-encode_padded :
    (s : Bytes) → All IsByte s → decode_padded (encode_padded s) ≡ some s
unfolding decode_padded
decode_padded-encode_padded s h = rw (skip_newlines-encode_padded s) (quanta-encode_padded s h)
