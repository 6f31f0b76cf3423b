-- ===== src/Strings/Laws.antt =====
-- Facts about splitting, cutting and decoding that the services use.
use pet_urls.Prelude.{
  ℕ, zero, suc, ◌-◌, ◌≤◌, ◌<◌, Bytes, ◌≡◌, refl, List, [], ◌∷◌, ◌++◌, ◌==◌, ◌&&◌, ◌=b=◌, =b=_sound,
  arith, length, All, Bool-cases, ◌⊎◌, inl, inr, leb,
}
use pet_urls.Strings.{take, drop, cons_head, split, cut_suffix}
use pet_urls.Strings.Utf8.{decode, runes}

abbrev pub join : ℕ → List Bytes → Bytes
join sep [] = []
join sep (piece ∷ []) = piece
join sep (piece ∷ next ∷ more) = piece ++ sep ∷ join sep (next ∷ more)

join-cons_head :
    (sep b : ℕ) (piece : Bytes) (more : List Bytes)
    → join sep (cons_head b (piece ∷ more)) ≡ b ∷ join sep (piece ∷ more)
join-cons_head sep b piece [] = refl
join-cons_head sep b piece (next ∷ more) = refl

abbrev pub AtSeparator : ℕ → List Bytes → Bytes → Type 0
AtSeparator sep pieces s =
    (p : Bytes) × (ps : List Bytes) × (pieces ≡ p ∷ ps) × (join sep (p ∷ ps) ≡ s)

split-join : (sep : ℕ) (s : Bytes) → AtSeparator sep (split sep s) s
unfolding split
split-join sep [] = ([], [], refl, refl)
split-join sep (b ∷ s) =
    let (p, ps, e, j) = split-join sep s in
    elim (Bool-cases (b == sep)) [
      | inl same ↦ ([], p ∷ ps, rw (same, e), ground (arith))
      | inr other ↦ (b ∷ p, ps, rw (other, e), rw (join-cons_head sep b p ps) (cc j))
    ]

-- A byte above 127 decodes, with what follows, to a rune above 127.
pub decode-above : (b : ℕ) (s : Bytes) → 128 ≤ b → 128 ≤ (decode b s).0
unfolding decode
decode-above b [] h = ground arith
decode-above b (c ∷ []) h = ground arith
decode-above b (c ∷ d ∷ []) h = ground arith
decode-above b (c ∷ d ∷ e ∷ s) h = ground arith

pub runes_of_ascii : (s : Bytes) → All (λ b. b < 128) s → runes s ≡ s
unfolding runes
runes_of_ascii [] h = refl
runes_of_ascii (b ∷ s) h = ground (arith, runes_of_ascii s h.1)

pub take-append-drop : (n : ℕ) (s : Bytes) → take n s ++ drop n s ≡ s
unfolding take drop
take-append-drop zero s = refl
take-append-drop (suc n) [] = refl
take-append-drop (suc n) (b ∷ s) = rw (take-append-drop n s)

-- A cut either changes nothing or takes the suffix off.
pub cut_suffix_cases :
    (s suffix : Bytes) → (cut_suffix s suffix ≡ s) ⊎ (cut_suffix s suffix ++ suffix ≡ s)
unfolding cut_suffix
cut_suffix_cases s suffix =
    let n = length s - length suffix in
    elim (Bool-cases (leb (length suffix) (length s) && (drop n s =b= suffix))) [
      | inl cut ↦ inr (ground (arith, =b=_sound (drop n s) suffix, take-append-drop n s))
      | inr whole ↦ inl (ground arith)
    ]

-- Joining what a split gives restores the text.
pub join-split : (sep : ℕ) (s : Bytes) → join sep (split sep s) ≡ s
join-split sep s = let (p, ps, e, j) = split-join sep s in rw e j

pub All-append {ℓ κ} :
    {A : Type ℓ} (P : A → Type κ) (xs ys : List A) → All P xs → All P ys → All P (xs ++ ys)
All-append P [] ys hx hy = hy
All-append P (x ∷ xs) ys hx hy = (hx.0, All-append P xs ys hx.1 hy)

pub All-join {κ} :
    (P : ℕ → Type κ) (sep : ℕ) (pieces : List Bytes)
    → P sep
    → All (λ piece. All P piece) pieces
    → All P (join sep pieces)
All-join P sep [] hs h = tt
All-join P sep (piece ∷ []) hs h = h.0
All-join P sep (piece ∷ next ∷ more) hs h =
    All-append P piece (sep ∷ join sep (next ∷ more)) h.0 (hs, All-join P sep (next ∷ more) hs h.1)

pub All-map {ℓ κ κ'} :
    {A : Type ℓ} (P : A → Type κ) (Q : A → Type κ') (xs : List A)
    → ((x : A) → P x → Q x)
    → All P xs
    → All Q xs
All-map P Q [] f h = tt
All-map P Q (x ∷ xs) f h = (f x h.0, All-map P Q xs f h.1)
