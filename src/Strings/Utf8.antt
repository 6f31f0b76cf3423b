-- ===== src/Strings/Utf8.antt =====
-- Decoding of UTF-8 as in Go's unicode/utf8: `for _, r := range s` and `RuneCountInString`. A byte
-- that starts no valid encoding counts as one U+FFFD.
use pet_urls.Prelude.{
  ℕ, zero, suc, ◌+◌, ◌-◌, ◌*◌, Bytes, Bool, ◌&&◌, List, [], ◌∷◌, ltb, leb, length, if◌then◌else◌,
}

abbrev pub rune_error : ℕ
rune_error = 0xFFFD

-- Whether a continuation byte stands in the range that its position accepts.
abbrev pub within : ℕ → ℕ → ℕ → Bool
within lo hi b = leb lo b && leb b hi

-- The range of the second byte, by the first one.
unfoldable pub second_ok : ℕ → ℕ → Bool
second_ok b c =
    if leb b 0xDF
    then within 0x80 0xBF c
    else within
        (if leb b 0xE0 && leb 0xE0 b then 0xA0 else if leb 0xF0 b && leb b 0xF0 then 0x90 else 0x80)
        (if leb b 0xED && leb 0xED b then 0x9F else if leb 0xF4 b then 0x8F else 0xBF) c

-- The rune that starts with the byte `b`, and how many further bytes it takes.
unfoldable pub decode2 : ℕ → Bytes → ℕ × ℕ
unfolding second_ok
decode2 b [] = (rune_error, 0)
decode2 b (c ∷ s) = if second_ok b c then ((b - 0xC0) * 64 + (c - 0x80), 1) else (rune_error, 0)

unfoldable pub decode3 : ℕ → Bytes → ℕ × ℕ
unfolding second_ok
decode3 b (c ∷ d ∷ s) =
    if second_ok b c && within 0x80 0xBF d
    then ((b - 0xE0) * 4096 + (c - 0x80) * 64 + (d - 0x80), 2)
    else (rune_error, 0)
decode3 b _ = (rune_error, 0)

unfoldable pub decode4 : ℕ → Bytes → ℕ × ℕ
unfolding second_ok
decode4 b (c ∷ d ∷ e ∷ s) =
    if second_ok b c && (within 0x80 0xBF d && within 0x80 0xBF e)
    then ((b - 0xF0) * 262144 + (c - 0x80) * 4096 + (d - 0x80) * 64 + (e - 0x80), 3)
    else (rune_error, 0)
decode4 b _ = (rune_error, 0)

unfoldable pub decode : ℕ → Bytes → ℕ × ℕ
unfolding decode2 decode3 decode4
decode b s =
    if ltb b 0x80
    then (b, 0)
    else if ltb b 0xC2
    then (rune_error, 0)
    else if ltb b 0xE0
    then decode2 b s
    else if ltb b 0xF0
    then decode3 b s
    else if ltb b 0xF5
    then decode4 b s
    else (rune_error, 0)

-- The runes after the bytes that the previous rune still takes.
unfoldable pub runes_after : ℕ → Bytes → List ℕ
unfolding decode
runes_after skip [] = []
runes_after (suc skip) (b ∷ s) = runes_after skip s
runes_after zero (b ∷ s) = let (r, more) = decode b s in r ∷ runes_after more s

unfoldable pub runes : Bytes → List ℕ
unfolding runes_after
runes s = runes_after 0 s

unfoldable pub rune_count : Bytes → ℕ
unfolding runes
rune_count s = length (runes s)
