-- ===== src/Http/Writer/Laws.antt =====
-- When the buffering writer delivers a response, and when it blocks.
use pet_urls.Prelude.{
  ℕ, ◌≡◌, refl, ap, ◌∙◌, Bytes, true, false, List, [], ◌∷◌, ◌++◌, append_assoc, append-nil,
}
use pet_urls.Http.Writer.{
  WriterWrapper, new_wrapper, finished, blocked, write_header, write, abort, flush, Operation,
  header, body, set_field, add_field, perform,
}

-- The bodies of the operations, joined.
abbrev pub bodies : List Operation → Bytes
bodies [] = []
bodies (header s ∷ ops) = bodies ops
bodies (body b ∷ ops) = b ++ bodies ops
bodies (set_field n v ∷ ops) = bodies ops
bodies (add_field n v ∷ ops) = bodies ops

-- A wrapper whose status is set, with the mutex free.
abbrev headed : ℕ → Bytes → WriterWrapper
headed s b = record { status = s; wrote_header = true; buffer = b; locked = false; aborted = false }

perform-headed :
    (s : ℕ) (b : Bytes) (ops : List Operation)
    → perform ops (headed s b) ≡ finished (headed s (b ++ bodies ops))
unfolding perform write_header write
perform-headed s b [] = rw append-nil
perform-headed s b (header t ∷ ops) = perform-headed s b ops
perform-headed s b (set_field n v ∷ ops) = perform-headed s b ops
perform-headed s b (add_field n v ∷ ops) = perform-headed s b ops
perform-headed s b (body c ∷ ops) =
    perform-headed s (b ++ c) ops ∙ ap (λ x. finished (headed s x)) (append_assoc b c (bodies ops))

-- A handler that sets the status first never blocks, and a flush then delivers that status, whatever
-- statuses it sets later, with all its bodies in order.
pub perform-header :
    (s : ℕ) (ops : List Operation)
    → (ww : WriterWrapper) × (perform (header s ∷ ops) new_wrapper ≡ finished ww)
      × (flush ww ≡ (s, bodies ops))
unfolding perform write_header flush
perform-header s ops = (headed s (bodies ops), perform-headed s [] ops, refl)

-- A handler that writes a body before any status blocks for ever on the mutex that it holds itself,
-- and then the abort of the timeout blocks on it too.
perform-body :
    (b : Bytes) (ops : List Operation)
    → (ww : WriterWrapper) × (perform (body b ∷ ops) new_wrapper ≡ blocked ww)
      × (abort ww ≡ blocked ww)
unfolding perform write abort
perform-body b ops = (record new_wrapper { locked = true }, refl, refl)

-- A wrapper that was aborted, with the mutex free.
abbrev emptied : WriterWrapper → WriterWrapper
emptied ww = record ww { aborted = true; buffer = []; locked = false }

perform-emptied :
    (ww : WriterWrapper) (ops : List Operation) → perform ops (emptied ww) ≡ finished (emptied ww)
unfolding perform write_header write
perform-emptied ww [] = refl
perform-emptied ww (header s ∷ ops) = perform-emptied ww ops
perform-emptied ww (set_field n v ∷ ops) = perform-emptied ww ops
perform-emptied ww (add_field n v ∷ ops) = perform-emptied ww ops
perform-emptied ww (body b ∷ ops) = perform-emptied ww ops

-- After an abort on a free mutex, whatever was buffered is gone, and every further operation of the
-- handler comes back and writes nothing.
pub perform-abort :
    (ww : WriterWrapper) (ops : List Operation)
    → ww.locked ≡ false
    → (out : WriterWrapper) × (abort ww ≡ finished out)
      × (perform ops out ≡ finished out)
      × (out.buffer ≡ [])
unfolding abort
perform-abort ww ops free = (emptied ww, rw free, perform-emptied ww ops, refl)
