-- ===== src/QueueStream/Export.antt =====
-- `operator<<(std::ostream &, queue_stream &)`.
pub mod Steps
pub mod Rounds
pub mod Drains
pub mod Successes
pub mod Finishes
use cpp_atmi.Prelude.{
  ℕ, zero, suc, ◌+◌, Bool, true, false, not, Option, none, some, [], ◌∷◌, ◌++◌, ◌&&◌, ltb,
  if◌then◌else◌,
}
use cpp_atmi.Prelude.Int.{ℤ, pos, minus_one, is_neg, eqb}
use cpp_atmi.Prelude.Lists.{take, replicate}
use cpp_atmi.Atmi.Codes.{Constants, Errno, tpelimit}
use cpp_atmi.Atmi.Texts.{Text, Texts, num, bytes}
use cpp_atmi.Atmi.Calls.{Atmi, Queueing}
use cpp_atmi.Exceptions.{Exception, tuxedo_exception, is_timeout}
use cpp_atmi.Method.{
  Method, Outcome, ok, err, pure, throw, this, assign, reads, ◌>>=◌, ◌>>◌, when, on,
}
use cpp_atmi.Tuxedo.{Tuxedo, allocate, free, begin, commit, abort}
use cpp_atmi.Queue.{Queue, Receiver}
use cpp_atmi.Queue.Transfer.{dequeue}
use cpp_atmi.QueueStream.{QueueStream}

-- The stream, its queue with the variables `message` and `len`, the other variables, and what
-- has been written to `out`.
pub record Exporter : Type 0 where
  pub stream : QueueStream
  pub receiver : Receiver
  pub rc : ℤ
  pub buffer : Text
  pub size : ℕ
  pub out : Text

module _ {W A : Type 0} where
  abbrev pub on_receiver : Method Receiver W A → Method Exporter W A
  on_receiver m = on (λ x. x.receiver) (λ r x. record x { receiver = r }) m

  -- `qs._queue->f()`, for a member of the base class of the queue.
  abbrev pub on_queue : Method Tuxedo W A → Method Exporter W A
  on_queue m =
      on (λ x. x.receiver.queue.tuxedo)
        (λ t x. record x {
          receiver = record x.receiver { queue = record x.receiver.queue { tuxedo = t } };
        })
        m

  -- `qs.f()`, for a member of the base class of the stream.
  abbrev pub on_stream : Method Tuxedo W A → Method Exporter W A
  on_stream m =
      on (λ x. x.stream.tuxedo) (λ t x. record x { stream = record x.stream { tuxedo = t } }) m

-- The variables as they are when the outer `try` begins.
unfoldable pub start : QueueStream → Queue → Text → Exporter
start qs q out = record {
  stream = qs;
  receiver = record { queue = q; buf = none; len = qs.buffer_size };
  rc = minus_one;
  buffer = replicate qs.buffer_size 0;
  size = qs.buffer_size;
  out = out;
}

is_tpelimit : Errno → Bool
is_tpelimit tpelimit = true
is_tpelimit _ = false

module _ {W : Type 0} ⦃a : Atmi W⦄ ⦃t : Texts⦄ ⦃k : Constants⦄ ⦃s : Queueing W⦄ where
  -- `rc = tpexport ( message, len, buffer, &s, qs._flags)`: returns the `s` that the call left.
  call_tpexport : ℕ → Method Exporter W ℕ
  call_tpexport size x w =
      let e = s.tpexport x.receiver.buf x.receiver.len x.buffer size x.stream.flags w in
      (ok e.olen, record x { rc = e.rc; buffer = e.ostr }, e.world)

  -- One more try, in a buffer of twice the size, if the first one was too small.
  retry_export : ℕ → Method Exporter W ℕ
  unfolding call_tpexport is_tpelimit
  retry_export olen = do
    e ← reads a.tperrno
    if not (is_tpelimit e) then pure olen else do
      assign (λ x. record x { buffer = replicate (olen + olen) 0 })
      call_tpexport (olen + olen)

  unfoldable pub export_message : Method Exporter W (Unit {0})
  unfolding call_tpexport retry_export
  export_message = do
    size ← this (λ x. x.size)
    first ← call_tpexport size
    rc ← this (λ x. x.rc)
    last ← (if is_neg rc then retry_export first else pure first)
    failed ← this (λ x. is_neg x.rc)
    e ← reads a.tperrno
    when failed (
        throw (
          tuxedo_exception e
            (bytes "TPEXPORT failed. Check buffer size (last buffer size was %d bytes).")
            (num (pos last) ∷ [])))
    assign λ x. record x {
      out = x.out ++ take last x.buffer ++ 10 ∷ [];
      stream = record x.stream { count = x.stream.count + 1 };
    }

  -- The body of the inner `try`, after `dequeue` has returned `rc`.
  unfoldable pub handle_message : ℤ → Method Exporter W (Unit {0})
  handle_message rc = do
    assign (λ x. record x { rc = rc })
    len ← this (λ x. x.receiver.len)
    when (not (eqb rc k.qmenomsg_value) && ltb 0 len) export_message
    on_queue commit >>= λ _. pure tt

  -- The body of the inner `try`.
  unfoldable pub take_message : Method Exporter W (Unit {0})
  take_message = do
    on_queue (begin (pos 0)) >>= λ _. pure tt
    rc ← on_receiver dequeue
    handle_message rc

  -- The inner `try` and its handler: a timeout rolls back and lets the loop go on.
  unfoldable pub round : Method Exporter W (Unit {0})
  unfolding is_timeout
  round x w =
      let (r, x', w') = take_message x w in
      elim r [
        | ok v ↦ (ok tt, x', w')
        | err e ↦ (if is_timeout e.class then (on_queue abort >>= λ _. pure tt) else throw e) x' w'
      ]

  -- `while ( rc != QMENOMSG )`, on fuel: `none` means that the fuel ran out.
  unfoldable pub loop : ℕ → Exporter → W → Option (Outcome (Unit {0}) × Exporter × W)
  loop zero x w = none
  loop (suc fuel) x w = elim (eqb x.rc k.qmenomsg_value) [
    | true ↦ some (ok tt, x, w)
    | false ↦
        let (r, x', w') = round x w in
        elim r [ ok v ↦ loop fuel x' w' | err e ↦ some (err e, x', w') ]
  ]

  -- `qs.free ( message )`
  unfoldable pub free_message : Method Exporter W (Unit {0})
  free_message = do p ← this (λ x. x.receiver.buf); on_stream (free p)

  -- The handler of the outer `try`. An exception of `abort` replaces the one that it handles.
  unfoldable pub give_up : Exception → Method Exporter W (Unit {0})
  unfolding free_message
  give_up e = do on_queue abort >>= λ _. pure tt; free_message; throw e

  unfoldable pub prepare : Method Exporter W (Unit {0})
  prepare = do
    assign (λ x. record x { stream = record x.stream { count = 0 } })
    len ← this (λ x. x.receiver.len)
    p ← on_stream (allocate (bytes "CARRAY") none len)
    assign (λ x. record x { receiver = record x.receiver { buf = p } })

  -- The end of the outer `try`.
  unfoldable pub conclude : Outcome (Unit {0}) × Exporter × W → Outcome (Unit {0}) × Exporter × W
  conclude (ok v, x, w) = free_message x w
  conclude (err e, x, w) = give_up e x w

  -- The operator, with fuel for the loop.
  unfoldable pub export :
      ℕ → QueueStream → Queue → Text → W → Option (Outcome (Unit {0}) × Exporter × W)
  unfolding start
  export fuel qs q out w =
      let (r, x, w') = prepare (start qs q out) w in
      elim r [
        | err e ↦ some (give_up e x w')
        | ok v ↦ elim (loop fuel x w') [ none ↦ none | some done ↦ some (conclude done) ]
      ]
