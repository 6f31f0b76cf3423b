-- ===== src/Url/Fqdn.antt =====
-- `isValidFQDN` and its helpers of internal/services/shortener/url.go.
pub mod Labels
pub mod Names
use pet_urls.Prelude.{
  ℕ, Bytes, Bool, true, false, not, ◌&&◌, ◌||◌, List, [], ◌∷◌, ◌==◌, ltb, leb, length,
  if◌then◌else◌,
}
use pet_urls.Strings.{cut_suffix, split}
use pet_urls.Strings.Utf8.{runes, rune_count}

-- `label[0]`.
abbrev pub first_byte : Bytes → ℕ
first_byte [] = 0
first_byte (b ∷ s) = b

-- `label[len(label)-1]`.
abbrev pub last_byte : Bytes → ℕ
last_byte [] = 0
last_byte (b ∷ []) = b
last_byte (b ∷ c ∷ s) = last_byte (c ∷ s)

unfoldable pub is_valid_fqdn_label_char : ℕ → Bool
is_valid_fqdn_label_char r =
    (leb b'a' r && leb r b'z')
    || ((leb b'A' r && leb r b'Z') || ((leb b'0' r && leb r b'9') || (r == b'-')))

-- The loop over the runes of a label.
unfoldable pub all_label_chars : List ℕ → Bool
unfolding is_valid_fqdn_label_char
all_label_chars [] = true
all_label_chars (r ∷ rs) = if not (is_valid_fqdn_label_char r) then false else all_label_chars rs

unfoldable pub is_valid_fqdn_label : Bytes → Bool
unfolding all_label_chars runes
is_valid_fqdn_label label =
    if (length label == 0) || ltb 63 (length label)
    then false
    else if not (all_label_chars (runes label))
    then false
    else if (first_byte label == b'-') || (last_byte label == b'-')
    then false
    else true

-- The loop over the labels of a name.
unfoldable pub all_labels : List Bytes → Bool
unfolding is_valid_fqdn_label
all_labels [] = true
all_labels (label ∷ labels) = if not (is_valid_fqdn_label label) then false else all_labels labels

unfoldable pub is_valid_fqdn : Bytes → Bool
unfolding rune_count cut_suffix split all_labels
is_valid_fqdn s =
    if ltb 255 (rune_count s) then false else all_labels (split b'.' (cut_suffix s (b'.' ∷ [])))
