-- ===== src/Prelude/Words.antt =====
-- Go's fixed-width signed integers as ℤ: the conversion to int32, and int64 products with time.Second.
use Prim.Native.Nat.{ℕ, suc, ◌+◌, ◌-◌, ◌*◌, ◌/◌, ◌%◌, ◌≤◌, ◌<◌}
use mathlib.Core.Path.{◌≡◌, refl, ap}
use mathlib.Core.Bool.{true, false}
use native.Mathlib.Omega.{arith}
use native.Mathlib.Nat.{mod-eq_of_lt}
use pet_urls.Prelude.Tests.{ltb, if◌then◌else◌}
use pet_urls.Prelude.Int.{ℤ, pos, negsuc, pos_part, neg_part, sub_ℕ, ◌*ℤ◌, ◌≤ℤ◌}

-- z modulo the positive number m, for a negative z too.
abbrev pub residue : ℕ → ℤ → ℕ
residue m (pos n) = n % m
residue m (negsuc n) = m - 1 - n % m

-- The number from -half to half - 1 that a residue modulo 2 * half stands for.
abbrev pub signed : ℕ → ℕ → ℤ
signed half r = if ltb r half then pos r else negsuc (half + half - 1 - r)

unfoldable pub wrap_signed : ℕ → ℤ → ℤ
wrap_signed half z = signed half (residue (half + half) z)

-- `int32(n)`.
unfoldable pub int32 : ℤ → ℤ
unfolding wrap_signed
int32 z = wrap_signed 2147483648 z

-- `time.Duration(n) * time.Second`, in nanoseconds.
unfoldable pub seconds : ℤ → ℤ
unfolding wrap_signed ◌*ℤ◌
seconds n = wrap_signed 9223372036854775808 (n *ℤ pos 1000000000)

-- Go's `/` with a positive divisor, which rounds towards zero.
abbrev pub quotient : ℤ → ℕ → ℤ
quotient (pos n) d = pos (n / d)
quotient (negsuc n) d = sub_ℕ 0 (suc n / d)

-- What a wrapped number is, within the range.
pub wrap_signed-range :
    (half : ℕ) (z : ℤ)
    → 0 < half
    → (pos_part (wrap_signed half z) < half) × (neg_part (wrap_signed half z) ≤ half)
unfolding wrap_signed
wrap_signed-range half (pos n) h = ground arith
wrap_signed-range half (negsuc n) h = ground arith

-- A number within the range is kept.
pub wrap_signed_exact :
    (half : ℕ) (z : ℤ) → pos_part z < half → neg_part z ≤ half → wrap_signed half z ≡ z
unfolding wrap_signed
wrap_signed_exact half (pos n) p q =
    let r : n % (half + half) ≡ n = mod-eq_of_lt (omega arith) in
    let small : ltb n half ≡ true = ground arith in rw (r, small) refl
wrap_signed_exact half (negsuc n) p q =
    let r : n % (half + half) ≡ n = mod-eq_of_lt (omega arith) in
    let big : ltb (half + half - 1 - n) half ≡ false = ground arith in
    rw (r, big) (ap negsuc (omega arith))

times_second : (n : ℕ) → pos n *ℤ pos 1000000000 ≡ pos (n * 1000000000)
unfolding ◌*ℤ◌
times_second n = ground arith

-- Up to some 292 years, a number of seconds that is not negative is converted to nanoseconds with no
-- overflow.
pub seconds_exact : (z : ℤ) → pos 0 ≤ℤ z → z ≤ℤ pos 9223372036 → seconds z ≡ z *ℤ pos 1000000000
unfolding seconds
seconds_exact (pos n) low high =
    rw (times_second n)
      (wrap_signed_exact 9223372036854775808 (pos (n * 1000000000)) (omega arith) (omega arith))
seconds_exact (negsuc n) low high = absurd (omega arith)

pub int32_exact : (z : ℤ) → pos 0 ≤ℤ z → z ≤ℤ pos 2147483647 → int32 z ≡ z
unfolding int32
int32_exact (pos n) low high = wrap_signed_exact 2147483648 (pos n) (omega arith) (omega arith)
int32_exact (negsuc n) low high = absurd (omega arith)
