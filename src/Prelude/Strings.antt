-- ===== src/Prelude/Strings.antt =====
-- Go strings and byte slices as lists of bytes: comparison, length, and the bytes of a literal.
use Prim.Native.Nat.{ℕ, suc, ◌+◌, ◌<◌}
use Prim.Native.Char.{code}
use Prim.Native.String.{String}
use mathlib.Core.Path.{◌≡◌, refl}
use mathlib.Core.Logic.{◌↔◌}
use mathlib.Core.Bool.{Bool, true, false, ◌&&◌}
use mathlib.Core.List.{List, [], ◌∷◌, ◌++◌}
use native.Mathlib.Omega.{arith}
use pet_urls.Prelude.Tests.{◌==◌}

abbrev pub Bytes : Type 0
Bytes = List ℕ

-- The code points of a literal: its bytes, where it is ASCII.
abbrev pub codes : String → Bytes
codes String.[] = []
codes (String.◌∷◌ c s) = code c ∷ codes s

abbrev pub length {ℓ} : {A : Type ℓ} → List A → ℕ
length [] = 0
length (x ∷ xs) = suc (length xs)

pub length-append {ℓ} : {A : Type ℓ} (xs ys : List A) → length (xs ++ ys) ≡ length xs + length ys
length-append [] ys = omega arith
length-append (x ∷ xs) ys = omega (arith, length-append xs ys)

-- `bytes.Equal`, and `==` on strings.
infix 50 ◌=b=◌
unfoldable pub ◌=b=◌ : Bytes → Bytes → Bool
[] =b= [] = true
[] =b= (y ∷ ys) = false
(x ∷ xs) =b= [] = false
(x ∷ xs) =b= (y ∷ ys) = (x == y) && (xs =b= ys)

pub =b=_refl : (xs : Bytes) → (xs =b= xs) ≡ true
unfolding ◌=b=◌
=b=_refl [] = refl
=b=_refl (x ∷ xs) = ground (arith, =b=_refl xs)

pub =b=_sound : (xs ys : Bytes) → (xs =b= ys) ≡ true → xs ≡ ys
unfolding ◌=b=◌
=b=_sound [] [] h = refl
=b=_sound [] (y ∷ ys) h = cc
=b=_sound (x ∷ xs) [] h = cc
=b=_sound (x ∷ xs) (y ∷ ys) h = ground (arith, =b=_sound xs ys)

pub =b=_iff : (xs ys : Bytes) → ((xs =b= ys) ≡ true) ↔ (xs ≡ ys)
=b=_iff xs ys = (=b=_sound xs ys, λ e. cc (=b=_refl xs, e))

abbrev pub All {ℓ κ} : {A : Type ℓ} → (A → Type κ) → List A → Type κ
All P [] = Unit
All P (x ∷ xs) = P x × All P xs

abbrev pub IsByte : ℕ → Type 0
IsByte b = b < 256
