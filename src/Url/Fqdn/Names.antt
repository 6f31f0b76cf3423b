-- ===== src/Url/Fqdn/Names.antt =====
-- What `isValidFQDN` guarantees of a whole name.
use pet_urls.Prelude.{ℕ, ◌≤◌, ◌<◌, ◌≡◌, ◌⊎◌, inl, inr, Bytes, true, [], ◌∷◌, arith, length, All}
use pet_urls.Strings.{cut_suffix, split}
use pet_urls.Strings.Utf8.{rune_count}
use pet_urls.Strings.Laws.{
  runes_of_ascii, cut_suffix_cases, join-split, All-append, All-join, All-map,
}
use pet_urls.Url.Fqdn.{is_valid_fqdn_label, all_labels, is_valid_fqdn}
use pet_urls.Url.Fqdn.Labels.{IsLdh, all_labels_sound, is_valid_fqdn_label_iff}

abbrev pub IsNameByte : ℕ → Type 0
IsNameByte b = IsLdh b ⊎ (b ≡ b'.')

IsNameByte-lt : (b : ℕ) → IsNameByte b → b < 128
IsNameByte-lt b h = ground arith

label-IsNameByte : (label : Bytes) → is_valid_fqdn_label label ≡ true → All IsNameByte label
label-IsNameByte label h =
    All-map IsLdh IsNameByte label (λ b ldh. inl ldh) ((is_valid_fqdn_label_iff label).0 h).2

name-IsNameByte : (s : Bytes) → all_labels (split b'.' s) ≡ true → All IsNameByte s
name-IsNameByte s h =
    let labels = All-map _ (λ l. All IsNameByte l) _ label-IsNameByte (all_labels_sound _ h) in
    rw join-split at (All-join IsNameByte b'.' (split b'.' s) (inr (omega arith)) labels)

uncut-IsNameByte : (s : Bytes) → All IsNameByte (cut_suffix s (b'.' ∷ [])) → All IsNameByte s
uncut-IsNameByte s h = elim (cut_suffix_cases s (b'.' ∷ [])) [
  | inl same ↦ rw same at h
  | inr cut ↦ rw cut at (All-append IsNameByte _ (b'.' ∷ []) h (inr (omega arith), tt))
]

is_valid_fqdn_parts :
    (s : Bytes)
    → is_valid_fqdn s ≡ true
    → (rune_count s ≤ 255) × (all_labels (split b'.' (cut_suffix s (b'.' ∷ []))) ≡ true)
unfolding is_valid_fqdn
is_valid_fqdn_parts s h = ground arith

-- An accepted name consists of ASCII letters, digits, hyphens and dots, every label of it (less a
-- trailing dot) is an accepted label, and it has at most 255 bytes.
pub is_valid_fqdn_sound :
    (s : Bytes)
    → is_valid_fqdn s ≡ true
    → All IsNameByte s
      × All (λ l. is_valid_fqdn_label l ≡ true) (split b'.' (cut_suffix s (b'.' ∷ [])))
      × (length s ≤ 255)
is_valid_fqdn_sound s h =
    let (short, labels) = is_valid_fqdn_parts s h in
    let bytes = uncut-IsNameByte s (name-IsNameByte _ labels) in
    let same = runes_of_ascii s (All-map IsNameByte (λ b. b < 128) s IsNameByte-lt bytes) in
    (bytes, all_labels_sound _ labels, unfold rune_count in (rw same at short))
