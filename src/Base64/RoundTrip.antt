-- ===== src/Base64/RoundTrip.antt =====
-- Decoding after encoding.
use pet_urls.Prelude.{
  ℕ, ◌+◌, ◌*◌, ◌/◌, ◌%◌, ◌<◌, ◌≡◌, ◌≢◌, refl, ap, Bytes, some, List, [], ◌∷◌, arith, All, IsByte,
}
use mathlib.Core.Path.{ap₂}
use pet_urls.Base64.{to_char, of_char, encode, skip_newlines, values, groups, decode}

pub of_char-to_char : (i : ℕ) → i < 64 → of_char (to_char i) ≡ some i
unfolding of_char to_char
of_char-to_char i h = ground arith

pub to_char-ne-newline : (i : ℕ) → (to_char i ≢ 10) × (to_char i ≢ 13)
unfolding to_char
to_char-ne-newline i = ground arith

-- The values of the groups that `encode` forms.
abbrev sextets : Bytes → List ℕ
sextets [] = []
sextets (a ∷ []) = (a / 4) ∷ (a % 4 * 16) ∷ []
sextets (a ∷ b ∷ []) = (a / 4) ∷ (a % 4 * 16 + b / 16) ∷ (b % 16 * 4) ∷ []
sextets (a ∷ b ∷ c ∷ s) =
    (a / 4) ∷ (a % 4 * 16 + b / 16) ∷ (b % 16 * 4 + c / 64) ∷ (c % 64) ∷ sextets s

values_step :
    (i : ℕ) (s : Bytes) (vs : List ℕ)
    → i < 64
    → values (skip_newlines s) ≡ some vs
    → values (skip_newlines (to_char i ∷ s)) ≡ some (i ∷ vs)
unfolding values skip_newlines
values_step i s vs h e =
    let visible : skip_newlines (to_char i ∷ s) ≡ to_char i ∷ skip_newlines s =
      ground (arith, to_char-ne-newline i) in
    rw (visible, of_char-to_char i h, e)

values_nil : values (skip_newlines []) ≡ some []
unfolding values skip_newlines
values_nil = refl

values-encode : (s : Bytes) → All IsByte s → values (skip_newlines (encode s)) ≡ some (sextets s)
unfolding encode
values-encode [] h = values_nil
values-encode (a ∷ []) h =
    values_step _ _ _ (omega arith) (values_step _ _ _ (omega arith) values_nil)
values-encode (a ∷ b ∷ []) h =
    values_step _ _ _ (omega arith)
      (values_step _ _ _ (omega arith) (values_step _ _ _ (omega arith) values_nil))
values-encode (a ∷ b ∷ c ∷ s) h = values_step _ _ _ (omega arith) (
    values_step _ _ _ (omega arith)
      (values_step _ _ _ (omega arith) (values_step _ _ _ (omega arith) (values-encode s h.1.1.1))))

pub triple_path :
    {x y z a b c : ℕ} (s : Bytes)
    → x ≡ a
    → y ≡ b
    → z ≡ c
    → some (x ∷ y ∷ z ∷ s) ≡ some (a ∷ b ∷ c ∷ s)
triple_path s p q r = cc

pub groups-sextets : (s : Bytes) → All IsByte s → groups (sextets s) ≡ some s
unfolding groups
groups-sextets [] h = refl
groups-sextets (a ∷ []) h = ap (λ x. some (x ∷ [])) (omega arith)
groups-sextets (a ∷ b ∷ []) h = ap₂ (λ x y. some (x ∷ y ∷ [])) (omega arith) (omega arith)
groups-sextets (a ∷ b ∷ c ∷ s) h =
    rw (groups-sextets s h.1.1.1) (triple_path s (omega arith) (omega arith) (omega arith))

-- Decoding the unpadded URL encoding of any bytes gives the bytes back.
pub decode-encode : (s : Bytes) → All IsByte s → decode (encode s) ≡ some s
unfolding decode
decode-encode s h = rw (values-encode s h) (groups-sextets s h)
