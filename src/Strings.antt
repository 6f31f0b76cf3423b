-- ===== src/Strings.antt =====
-- The functions of Go's `strings`, `unicode/utf8` and `bytes` packages that the program calls, over
-- byte lists.
pub mod Utf8
pub mod Laws
use pet_urls.Prelude.{
  ℕ, zero, suc, ◌+◌, ◌-◌, Bytes, Bool, true, false, not, ◌&&◌, List, [], ◌∷◌, ◌++◌, ◌==◌, ltb, leb,
  length, ◌=b=◌, if◌then◌else◌,
}

unfoldable pub take : ℕ → Bytes → Bytes
take zero s = []
take (suc n) [] = []
take (suc n) (b ∷ s) = b ∷ take n s

unfoldable pub drop : ℕ → Bytes → Bytes
drop zero s = s
drop (suc n) [] = []
drop (suc n) (b ∷ s) = drop n s

-- `strings.HasPrefix`.
unfoldable pub has_prefix : Bytes → Bytes → Bool
has_prefix s [] = true
has_prefix [] (p ∷ ps) = false
has_prefix (b ∷ s) (p ∷ ps) = (b == p) && has_prefix s ps

-- `strings.TrimPrefix`.
unfoldable pub trim_prefix : Bytes → Bytes → Bytes
unfolding has_prefix drop
trim_prefix s p = if has_prefix s p then drop (length p) s else s

-- `strings.Contains`.
unfoldable pub contains : Bytes → Bytes → Bool
unfolding has_prefix
contains [] p = has_prefix [] p
contains (b ∷ s) p = if has_prefix (b ∷ s) p then true else contains s p

-- `strings.CutSuffix`, without its second result.
unfoldable pub cut_suffix : Bytes → Bytes → Bytes
unfolding take drop ◌=b=◌
cut_suffix s suffix =
    let n = length s - length suffix in
    if leb (length suffix) (length s) && (drop n s =b= suffix) then take n s else s

abbrev pub cons_head : ℕ → List Bytes → List Bytes
cons_head b [] = (b ∷ []) ∷ []
cons_head b (piece ∷ pieces) = (b ∷ piece) ∷ pieces

-- `strings.Split` at a separator of one byte.
unfoldable pub split : ℕ → Bytes → List Bytes
split sep [] = [] ∷ []
split sep (b ∷ s) = let rest = split sep s in if b == sep then [] ∷ rest else cons_head b rest

-- `strings.ToLower`, on ASCII.
unfoldable pub to_lower : Bytes → Bytes
to_lower [] = []
to_lower (b ∷ s) = (if leb b'A' b && leb b b'Z' then b + 32 else b) ∷ to_lower s
