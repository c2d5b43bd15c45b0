-- ===== src/Queue/Transfer.antt =====
-- `handle_diagnostics`, and the member functions that enqueue and dequeue.
use cpp_atmi.Prelude.{ℕ, String, not, Option, some, List, [], ◌∷◌, if◌then◌else◌}
use cpp_atmi.Prelude.Int.{ℤ, is_neg}
use cpp_atmi.Atmi.Codes.{
  Constants, Errno, Diagno, tpediagnostic, qmeinval, qmebadrmid, qmenotopen, qmetran, qmebadmsgid,
  qmesystem, qmeos, qmeaborted, qmeproto, qmebadqueue, qmenospace, qmerelease, qmeshare, qmenomsg,
}
use cpp_atmi.Atmi.Texts.{Text, Texts, Arg, str, code_of, diagno_of, bytes, c_str}
use cpp_atmi.Atmi.Calls.{Atmi, Queueing, Ptr}
use cpp_atmi.Exceptions.{atmi_exception, diagnostic_exception, aborted_exception}
use cpp_atmi.Method.{Method, ok, pure, throw, this, assign, reads, ◌>>=◌, ◌>>◌}
use cpp_atmi.Tuxedo.{message, update_errno, switch_context, handle_tperrno}
use cpp_atmi.Queue.{Queue, Receiver, super, on_queue}

module _ {W : Type 0} ⦃a : Atmi W⦄ ⦃t : Texts⦄ ⦃k : Constants⦄ where
  -- The switch of `handle_diagnostics`.
  unfoldable pub diagnose : Errno → Diagno → Text → List Arg → Method Queue W ℤ
  unfolding message
  diagnose e qmeinval msg args = throw (diagnostic_exception e qmeinval msg args)
  diagnose e qmebadrmid msg args = throw (diagnostic_exception e qmebadrmid msg args)
  diagnose e qmenotopen msg args = throw (diagnostic_exception e qmenotopen msg args)
  diagnose e qmetran msg args = throw (diagnostic_exception e qmetran msg args)
  diagnose e qmebadmsgid msg args = throw (diagnostic_exception e qmebadmsgid msg args)
  diagnose e qmesystem msg args = throw (diagnostic_exception e qmesystem msg args)
  diagnose e qmeos msg args = throw (diagnostic_exception e qmeos msg args)
  diagnose e qmeproto msg args = throw (diagnostic_exception e qmeproto msg args)
  diagnose e qmebadqueue msg args = throw (diagnostic_exception e qmebadqueue msg args)
  diagnose e qmenospace msg args = throw (diagnostic_exception e qmenospace msg args)
  diagnose e qmerelease msg args = throw (diagnostic_exception e qmerelease msg args)
  diagnose e qmeshare msg args = throw (diagnostic_exception e qmeshare msg args)
  diagnose e qmeaborted msg args = throw (aborted_exception msg args)
  diagnose e qmenomsg msg args = pure k.qmenomsg_value
  diagnose e d msg args = do
    catd ← this (λ q. q.catd)
    throw (
        diagnostic_exception e d
          (message catd 33 "Never heard about this diagno %d (tperrno: %d) !!??")
          (diagno_of d ∷ code_of e ∷ []))

  unfoldable pub handle_diagnostics : Errno → Diagno → Text → List Arg → Method Queue W ℤ
  unfolding diagnose
  handle_diagnostics e d msg args = do
    assign (λ q. record q { diagno = some d })
    diagnose e d msg args

  -- `throw atmi_exception ( catgets ( _catd, CATD_ATMI_SET, n, default) )`
  unfoldable pub refuse : {A : Type 0} → ℕ → String → Method Queue W A
  unfolding message
  refuse n default = do
    catd ← this (λ q. q.catd)
    throw (atmi_exception (message catd n default) [])

  -- `Enqueue` failed: the diagnostic counts if tperrno is TPEDIAGNOSTIC.
  unfoldable pub enqueue_failed : Errno → Diagno → Text → Text → Method Queue W ℤ
  enqueue_failed tpediagnostic d qspace queue =
      handle_diagnostics tpediagnostic d (bytes "Enqueue in %s:%s failed.")
        (str qspace ∷ str queue ∷ [])
  enqueue_failed e d qspace queue =
      super (handle_tperrno e (bytes "Enqueue on %s:%s failed.") (str qspace ∷ str queue ∷ []))

  -- What the handlers return is dropped: `enqueue` returns the result of `tpenqueue`.
  unfoldable pub check_enqueued : Text → Text → ℤ → Method Queue W ℤ
  check_enqueued qspace queue rc = if not (is_neg rc) then pure rc else do
    e ← reads a.tperrno
    d ← this (λ q. q.qctl.diagnostic)
    enqueue_failed e d qspace queue >>= λ _. pure rc

  -- `Dequeue` failed: an empty queue is a result, QMENOMSG, and is not handled.
  unfoldable pub dequeue_failed : Errno → Diagno → Text → Text → ℤ → Method Queue W ℤ
  dequeue_failed tpediagnostic qmenomsg qspace queue rc = pure k.qmenomsg_value
  dequeue_failed tpediagnostic d qspace queue rc =
      handle_diagnostics tpediagnostic d (bytes "Dequeue from %s:%s failed.")
        (str qspace ∷ str queue ∷ [])
      >>= λ _. pure rc
  dequeue_failed e d qspace queue rc =
      super (handle_tperrno e (bytes "Dequeue from %s:%s failed.") (str qspace ∷ str queue ∷ []))
      >>= λ _. pure rc

  unfoldable pub check_dequeued : Text → Text → ℤ → Method Queue W ℤ
  check_dequeued qspace queue rc = if not (is_neg rc) then pure rc else do
    e ← reads a.tperrno
    d ← this (λ q. q.qctl.diagnostic)
    dequeue_failed e d qspace queue rc

  module _ ⦃s : Queueing W⦄ where
    call_tpenqueue : Text → Text → Ptr → ℕ → Method Queue W ℤ
    call_tpenqueue qspace queue buf len q w =
        let (rc, ctl, w') = s.tpenqueue qspace queue q.qctl buf len q.flags w in
        (ok rc, record q { qctl = ctl }, w')

    call_tpdequeue : Text → Text → Method Receiver W ℤ
    call_tpdequeue qspace queue r w =
        let (ctl, reply) = s.tpdequeue qspace queue r.queue.qctl r.buf r.len r.queue.flags w in
        (
          ok reply.rc,
          record { queue = record r.queue { qctl = ctl }; buf = reply.buf; len = reply.len },
          reply.world,
        )

    -- `enqueue ( char *queue, char *data, long len )`
    unfoldable pub enqueue_in : Option Text → Option Text → Ptr → ℕ → Method Queue W ℤ
    unfolding update_errno call_tpenqueue
    enqueue_in (some qspace) (some queue) buf len = do
      super switch_context
      rc ← call_tpenqueue qspace queue buf len
      super update_errno
      check_enqueued qspace queue rc
    enqueue_in _ _ buf len =
        refuse 19 "Enqueue failed, qspace and queue properties have not been set !!??"

    unfoldable pub enqueue : Ptr → ℕ → Method Queue W ℤ
    unfolding enqueue_in
    enqueue buf len q = enqueue_in q.qspace q.name buf len q

    -- `_qctl.replyqueue` is an array: the test for NULL in front of this call never holds.
    unfoldable pub enqueue_reply : Ptr → ℕ → Method Queue W ℤ
    unfolding enqueue_in
    enqueue_reply buf len q = enqueue_in q.qspace (some (c_str q.qctl.replyqueue)) buf len q

    -- `dequeue ( char *queue, char **data, long *len )`
    unfoldable pub dequeue_from : Option Text → Option Text → Method Receiver W ℤ
    unfolding update_errno call_tpdequeue
    dequeue_from (some qspace) (some queue) = do
      on_queue (super switch_context)
      rc ← call_tpdequeue qspace queue
      on_queue (super update_errno)
      on_queue (check_dequeued qspace queue rc)
    dequeue_from _ _ =
        on_queue (refuse 20 "Dequeue failed, qspace and queue properties have not been set !!??")

    unfoldable pub dequeue : Method Receiver W ℤ
    unfolding dequeue_from
    dequeue r = dequeue_from r.queue.qspace r.queue.name r

    unfoldable pub dequeue_reply : Method Receiver W ℤ
    unfolding dequeue_from
    dequeue_reply r = dequeue_from r.queue.qspace (some (c_str r.queue.qctl.replyqueue)) r
