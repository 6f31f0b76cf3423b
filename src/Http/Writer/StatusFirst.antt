-- ===== src/Http/Writer/StatusFirst.antt =====
-- Responses that set their status before they write: what the buffering writer needs.
use pet_urls.Prelude.{ℕ, ◌≡◌, refl, Bool, true, false, List, [], ◌∷◌, ◌++◌, if◌then◌else◌}
use pet_urls.Http.Writer.{
  WriterWrapper, new_wrapper, finished, flush, Operation, header, body, set_field, add_field,
  perform, fields,
}
use pet_urls.Http.Writer.Laws.{bodies, perform-header}

-- No body stands before the first status.
abbrev pub StatusFirst : List Operation → Type 0
StatusFirst [] = Unit
StatusFirst (header s ∷ ops) = Unit
StatusFirst (body b ∷ ops) = ⊥
StatusFirst (set_field n v ∷ ops) = StatusFirst ops
StatusFirst (add_field n v ∷ ops) = StatusFirst ops

-- The first status, and 200 where there is none.
abbrev pub status_of : List Operation → ℕ
status_of [] = 200
status_of (header s ∷ ops) = s
status_of (body b ∷ ops) = 200
status_of (set_field n v ∷ ops) = status_of ops
status_of (add_field n v ∷ ops) = status_of ops

-- The writer comes back, and a flush delivers the first status and the bodies.
pub perform-StatusFirst :
    (ops : List Operation)
    → StatusFirst ops
    → (ww : WriterWrapper) × (perform ops new_wrapper ≡ finished ww)
      × (flush ww ≡ (status_of ops, bodies ops))
unfolding perform flush
perform-StatusFirst [] h = (new_wrapper, refl, refl)
perform-StatusFirst (header s ∷ ops) h = perform-header s ops
perform-StatusFirst (body b ∷ ops) h = absurd h
perform-StatusFirst (set_field n v ∷ ops) h = perform-StatusFirst ops h
perform-StatusFirst (add_field n v ∷ ops) h = perform-StatusFirst ops h

pub StatusFirst-if :
    (b : Bool) (xs ys : List Operation)
    → StatusFirst xs
    → StatusFirst ys
    → StatusFirst (if b then xs else ys)
StatusFirst-if true xs ys p q = p
StatusFirst-if false xs ys p q = q

pub StatusFirst-fields :
    (ops rest : List Operation) → StatusFirst rest → StatusFirst (fields ops ++ rest)
StatusFirst-fields [] rest h = h
StatusFirst-fields (header s ∷ ops) rest h = StatusFirst-fields ops rest h
StatusFirst-fields (body b ∷ ops) rest h = StatusFirst-fields ops rest h
StatusFirst-fields (set_field n v ∷ ops) rest h = StatusFirst-fields ops rest h
StatusFirst-fields (add_field n v ∷ ops) rest h = StatusFirst-fields ops rest h
