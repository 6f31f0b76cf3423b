-- ===== src/Url/Fqdn/Labels.antt =====
-- What the FQDN test of internal/services/shortener/url.go accepts, in terms of bytes.
use pet_urls.Prelude.{
  ℕ, ◌≤◌, ◌<◌, ◌≡◌, refl, ◌≢◌, ◌↔◌, ◌⊎◌, Bytes, true, List, [], ◌∷◌, arith, length, All, ltb,
  ltb→lt, inl, inr, Bool-cases,
}
use pet_urls.Strings.Utf8.{decode, runes, runes_after}
use pet_urls.Strings.Laws.{decode-above}
use pet_urls.Url.Fqdn.{
  first_byte, last_byte, is_valid_fqdn_label_char, all_label_chars, is_valid_fqdn_label, all_labels,
}

-- A letter, a digit or a hyphen of ASCII.
abbrev pub IsLdh : ℕ → Type 0
IsLdh b =
    ((b'a' ≤ b) × (b ≤ b'z'))
    ⊎ (((b'A' ≤ b) × (b ≤ b'Z')) ⊎ (((b'0' ≤ b) × (b ≤ b'9')) ⊎ (b ≡ b'-')))

label_char_sound : (r : ℕ) → is_valid_fqdn_label_char r ≡ true → IsLdh r
unfolding is_valid_fqdn_label_char
label_char_sound r h = ground arith

label_char_complete : (r : ℕ) → IsLdh r → is_valid_fqdn_label_char r ≡ true
unfolding is_valid_fqdn_label_char
label_char_complete r h = ground arith

label_char-lt : (r : ℕ) → is_valid_fqdn_label_char r ≡ true → r < 128
unfolding is_valid_fqdn_label_char
label_char-lt r h = ground arith

decode_of_ascii : (b : ℕ) (s : Bytes) → b < 128 → decode b s ≡ (b, 0)
unfolding decode
decode_of_ascii b s h = ground arith

first_rune :
    (b : ℕ) (s : Bytes)
    → all_label_chars (runes_after 0 (b ∷ s)) ≡ true
    → (is_valid_fqdn_label_char (decode b s).0 ≡ true)
      × (all_label_chars (runes_after (decode b s).1 s) ≡ true)
unfolding all_label_chars runes_after
first_rune b s h = ground arith

-- A valid first rune is the first byte, and the rest is decoded from the next byte on.
label_step :
    (b : ℕ) (s : Bytes)
    → all_label_chars (runes_after 0 (b ∷ s)) ≡ true
    → IsLdh b × (all_label_chars (runes_after 0 s) ≡ true)
label_step b s h =
    let (valid, rest) = first_rune b s h in
    elim (Bool-cases (ltb b 128)) [
      | inl low ↦
          let e = decode_of_ascii b s (ltb→lt b 128 low) in
          (label_char_sound b (rw e at valid), rw e at rest)
      | inr high ↦
          absurd
            (omega (arith, label_char-lt (decode b s).0 valid, decode-above b s (ground arith)))
    ]

all_label_chars_sound : (s : Bytes) → all_label_chars (runes_after 0 s) ≡ true → All IsLdh s
all_label_chars_sound [] h = tt
all_label_chars_sound (b ∷ s) h =
    let (here, rest) = label_step b s h in (here, all_label_chars_sound s rest)

all_label_chars_complete : (s : Bytes) → All IsLdh s → all_label_chars (runes_after 0 s) ≡ true
unfolding all_label_chars runes_after
all_label_chars_complete [] h = refl
all_label_chars_complete (b ∷ s) h =
    let valid = label_char_complete b h.0 in
    ground
      (arith, label_char-lt b valid, decode_of_ascii b s, valid, all_label_chars_complete s h.1)

-- A label is accepted exactly when it has 1 to 63 bytes, all of them ASCII letters, digits or
-- hyphens, and neither the first nor the last is a hyphen.
pub is_valid_fqdn_label_iff :
    (label : Bytes)
    → (is_valid_fqdn_label label ≡ true) ↔ (
        (1 ≤ length label)
        × (length label ≤ 63)
        × All IsLdh label
        × (first_byte label ≢ b'-')
        × (last_byte label ≢ b'-'))
unfolding is_valid_fqdn_label runes
is_valid_fqdn_label_iff label = (
  λ h. (
    ground arith,
    ground arith,
    all_label_chars_sound label (ground arith),
    ground arith,
    ground arith,
  ),
  λ (few, small, ldh, front, back). ground (arith, all_label_chars_complete label ldh),
)

-- What an accepted label list says of each label.
pub all_labels_sound :
    (labels : List Bytes)
    → all_labels labels ≡ true
    → All (λ label. is_valid_fqdn_label label ≡ true) labels
unfolding all_labels
all_labels_sound [] h = tt
all_labels_sound (label ∷ labels) h = (ground arith, all_labels_sound labels (ground arith))
