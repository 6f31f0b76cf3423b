-- ===== src/Prelude/Action.antt =====
-- Stateful code: an action takes the world and gives a value and the next world. `Result` is a Go
-- result pair whose value is the zero value whenever the error is not nil.

abbrev pub Action : Type 0 → Type 0 → Type 0
Action W A = W → A × W

module _ {W : Type 0} where
  abbrev pub pure : {A : Type 0} → A → Action W A
  pure a w = (a, w)

  infixl 5 ◌>>=◌ ◌>>◌
  abbrev pub ◌>>=◌ : {A B : Type 0} → Action W A → (A → Action W B) → Action W B
  ◌>>=◌ m f w = let (a, w') = m w in f a w'

  abbrev pub ◌>>◌ : {A B : Type 0} → Action W A → Action W B → Action W B
  m >> k = m >>= λ _. k
