-- ===== src/QueueStream/Import.antt =====
-- `operator>>(std::istream &, queue_stream &)`.
pub mod Sends
pub mod Appends
pub mod Finishes
use cpp_atmi.Prelude.{ℕ, ◌+◌, none, List, [], ◌∷◌, ◌==◌, if◌then◌else◌}
use cpp_atmi.Prelude.Int.{ℤ, pos, is_neg}
use cpp_atmi.Prelude.Lists.{length}
use cpp_atmi.Atmi.Codes.{Constants}
use cpp_atmi.Atmi.Texts.{Text, Texts, bytes}
use cpp_atmi.Atmi.Calls.{Atmi, Queueing, Ptr}
use cpp_atmi.Exceptions.{Exception, tuxedo_exception, is_tuxedo, is_diagnostic}
use cpp_atmi.Method.{
  Method, Outcome, ok, pure, throw, this, assign, reads, ◌>>=◌, ◌>>◌, when, on, try_catch,
}
use cpp_atmi.Tuxedo.{Tuxedo, allocate, free, begin, commit, abort}
use cpp_atmi.Queue.{Queue}
use cpp_atmi.Queue.Transfer.{enqueue}
use cpp_atmi.QueueStream.{QueueStream}

-- The stream, its queue, and the variables `message` and `len`.
pub record Importer : Type 0 where
  pub stream : QueueStream
  pub queue : Queue
  pub buf : Ptr
  pub len : ℕ

module _ {W A : Type 0} where
  abbrev pub on_queue : Method Queue W A → Method Importer W A
  on_queue m = on (λ x. x.queue) (λ q x. record x { queue = q }) m

  -- `qs._queue->f()`, for a member of the base class of the queue.
  abbrev pub on_base : Method Tuxedo W A → Method Importer W A
  on_base m = on (λ x. x.queue.tuxedo) (λ t x. record x { queue = record x.queue { tuxedo = t } }) m

  -- `qs.f()`, for a member of the base class of the stream.
  abbrev pub on_stream : Method Tuxedo W A → Method Importer W A
  on_stream m =
      on (λ x. x.stream.tuxedo) (λ t x. record x { stream = record x.stream { tuxedo = t } }) m

-- `getline` until it fails: the lines of a text, without their newlines. A text after the last
-- newline is a line, if it is not empty.
unfoldable pub next_char : ℕ → List Text → List Text
next_char c [] = (c ∷ []) ∷ []
next_char c (l ∷ ls) = (c ∷ l) ∷ ls

unfoldable pub get_lines : Text → List Text
unfolding next_char
get_lines [] = []
get_lines (c ∷ cs) = if c == 10 then [] ∷ get_lines cs else next_char c (get_lines cs)

module _ {W : Type 0} ⦃a : Atmi W⦄ ⦃t : Texts⦄ ⦃k : Constants⦄ ⦃s : Queueing W⦄ where
  -- `tpimport ( line.c_str(), line.size(), &message, &len, qs._flags )`
  call_tpimport : Text → Method Importer W ℤ
  call_tpimport line x w =
      let r = s.tpimport line (length line) x.buf x.len x.stream.flags w in
      (ok r.rc, record x { buf = r.buf; len = r.len }, r.world)

  -- The body of the inner `try`.
  unfoldable pub put_message : Method Importer W (Unit {0})
  put_message = do
    on_base (begin (pos 0)) >>= λ _. pure tt
    x ← this (λ x. x)
    on_queue (enqueue x.buf x.len) >>= λ _. pure tt
    on_base commit >>= λ _. pure tt
    assign (λ x. record x { stream = record x.stream { count = x.stream.count + 1 } })

  -- The handlers of the inner `try`: both abort, and throw the exception again. An exception of
  -- another class passes by.
  unfoldable pub roll_back : Exception → Method Importer W (Unit {0})
  unfolding is_tuxedo is_diagnostic
  roll_back e =
      if is_diagnostic e.class
      then (on_base abort >>= λ _. throw e)
      else if is_tuxedo e.class
      then (on_base abort >>= λ _. throw e)
      else throw e

  -- The body of the `while`.
  unfoldable pub import_line : Text → Method Importer W (Unit {0})
  unfolding call_tpimport
  import_line line = do
    rc ← call_tpimport line
    e ← reads a.tperrno
    when (is_neg rc) (
        throw (
          tuxedo_exception e (bytes "TPIMPORT failed. Was this message exported using tpexport ?")
            []))
    try_catch put_message roll_back

  unfoldable pub import_lines : List Text → Method Importer W (Unit {0})
  import_lines [] = pure tt
  import_lines (line ∷ lines) = import_line line >> import_lines lines

  -- `qs.free ( message )`
  unfoldable pub free_message : Method Importer W (Unit {0})
  free_message = do p ← this (λ x. x.buf); on_stream (free p)

  -- The handler of the outer `try`, for a tuxedo_exception.
  unfoldable pub give_up : Exception → Method Importer W (Unit {0})
  unfolding is_tuxedo free_message
  give_up e = if is_tuxedo e.class then (free_message >> throw e) else throw e

  unfoldable pub prepare : Method Importer W (Unit {0})
  prepare = do
    assign (λ x. record x { stream = record x.stream { count = 0 } })
    len ← this (λ x. x.len)
    p ← on_stream (allocate (bytes "CARRAY") none len)
    assign (λ x. record x { buf = p })

  -- The operator, for a stream that holds `text`.
  unfoldable pub import : Text → QueueStream → Queue → W → Outcome (Unit {0}) × Importer × W
  unfolding prepare free_message
  import text qs q =
      try_catch (prepare >> import_lines (get_lines text) >> free_message) give_up
        (record { stream = qs; queue = q; buf = none; len = qs.buffer_size })
