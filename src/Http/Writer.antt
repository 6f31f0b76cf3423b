-- ===== src/Http/Writer.antt =====
-- `writerWrapper` of internal/transport/http/middleware.go: a response writer that keeps the status and
-- the body back until it is flushed. Its mutex is a flag, and a call that waits for a mutex which its
-- own goroutine holds never comes back.
pub mod Laws
pub mod StatusFirst
use pet_urls.Prelude.{ℕ, Bytes, Bool, true, false, not, ◌||◌, List, [], ◌∷◌, ◌++◌, if◌then◌else◌}

pub record WriterWrapper : Type 0 where
  pub status : ℕ
  pub wrote_header : Bool
  pub buffer : Bytes
  pub locked : Bool
  pub aborted : Bool

-- `&writerWrapper{ResponseWriter: w}`.
abbrev pub new_wrapper : WriterWrapper
new_wrapper = record {
  status = 0;
  wrote_header = false;
  buffer = [];
  locked = false;
  aborted = false;
}

-- A method call comes back with the wrapper, or waits for ever and leaves it as it then is.
pub data Call : Type 0 where
  finished : WriterWrapper → Call
  blocked : WriterWrapper → Call

infixl 5 ◌>>=◌
abbrev pub ◌>>=◌ : Call → (WriterWrapper → Call) → Call
finished ww >>= k = k ww
blocked ww >>= k = blocked ww

abbrev pub lock : WriterWrapper → Call
lock ww = if ww.locked then blocked ww else finished (record ww { locked = true })

abbrev pub unlock : WriterWrapper → Call
unlock ww = finished (record ww { locked = false })

abbrev set_header : ℕ → WriterWrapper → Call
set_header status ww =
    if ww.aborted || ww.wrote_header
    then finished ww
    else finished (record ww { status = status; wrote_header = true })

unfoldable pub write_header : ℕ → WriterWrapper → Call
write_header status ww = do held ← lock ww; done ← set_header status held; unlock done

-- `WriteHeader` is called while the mutex is held.
abbrev pub ensure_header : WriterWrapper → Call
unfolding write_header
ensure_header ww = if not ww.wrote_header then write_header 200 ww else finished ww

abbrev pub append_body : Bytes → WriterWrapper → Call
append_body b ww = finished (record ww { buffer = ww.buffer ++ b })

unfoldable pub write : Bytes → WriterWrapper → Call
unfolding write_header
write b ww = do
  held ← lock ww
  if held.aborted
      then unlock held
      else do headed ← ensure_header held; filled ← append_body b headed; unlock filled

unfoldable pub abort : WriterWrapper → Call
abort ww = do held ← lock ww; unlock (record held { aborted = true; buffer = [] })

-- What `Flush` hands to the wrapped writer: the status and the body.
unfoldable pub flush : WriterWrapper → ℕ × Bytes
flush ww = (if not ww.wrote_header then 200 else ww.status, ww.buffer)

-- What a handler does with the writer. `Header().Set` and `Header().Add` reach the fields of the
-- wrapped writer, which is embedded.
pub data Operation : Type 0 where
  header : ℕ → Operation
  body : Bytes → Operation
  set_field : Bytes → Bytes → Operation
  add_field : Bytes → Bytes → Operation

unfoldable pub perform : List Operation → WriterWrapper → Call
perform [] ww = finished ww
perform (header s ∷ ops) ww = do next ← write_header s ww; perform ops next
perform (body b ∷ ops) ww = do next ← write b ww; perform ops next
perform (set_field n v ∷ ops) ww = perform ops ww
perform (add_field n v ∷ ops) ww = perform ops ww

-- What reaches the wrapped writer at once.
abbrev pub fields : List Operation → List Operation
fields [] = []
fields (header s ∷ ops) = fields ops
fields (body b ∷ ops) = fields ops
fields (set_field n v ∷ ops) = set_field n v ∷ fields ops
fields (add_field n v ∷ ops) = add_field n v ∷ fields ops
