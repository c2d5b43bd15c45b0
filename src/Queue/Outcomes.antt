-- ===== src/Queue/Outcomes.antt =====
-- How `enqueue` and `dequeue` end, on every branch.
use cpp_atmi.Prelude.{ℕ, ◌≡◌, refl, ◌≢◌, ◌⊎◌, true, false, Option, none, some, List, [], ◌∷◌, arith}
use cpp_atmi.Prelude.Int.{ℤ, is_neg}
use cpp_atmi.Atmi.Codes.{
  Constants, Errno, Diagno, tpediagnostic, tpesvcfail, qmenomsg, qmeaborted, tpetime,
}
use cpp_atmi.Atmi.Texts.{Text, Texts, Arg, str, bytes}
use cpp_atmi.Atmi.Calls.{Atmi, Queueing, Ptr}
use cpp_atmi.Exceptions.{
  Exception, Class, diagnostic, aborted, atmi_exception, tperr, is_diagnostic, is_tuxedo,
  is_timeout, tuxedo_exception, diagnostic_exception, aborted_exception,
}
use cpp_atmi.Method.{Outcome, ok, err, pure, ◌>>=◌}
use cpp_atmi.Tuxedo.{message, switch_context}
use cpp_atmi.Tuxedo.Raises.{class_for, handle_tperrno-Handles}
use cpp_atmi.Queue.{Queue, Receiver, super}
use cpp_atmi.Queue.Transfer.{
  enqueue_in, dequeue_from, refuse, check_enqueued, check_dequeued, diagnose, handle_diagnostics,
  enqueue_failed, dequeue_failed,
}

-- The class of the exception for a diagnostic: QMEABORTED has one of its own.
pub diagnostic_class : Diagno → Class
diagnostic_class qmeaborted = aborted
diagnostic_class d = diagnostic

-- The exception for a failure with tperrno `e` and diagnostic `d`.
pub record IsFailure (e : Errno) (d : Diagno) (x : Exception) : Type 0 where
  pub plain : e ≢ tpediagnostic → x.class ≡ class_for e
  pub special : e ≡ tpediagnostic → x.class ≡ diagnostic_class d
  pub code : x.error ≡ tperr e
  pub kind : is_tuxedo x.class ≡ true
  pub timed : is_timeout x.class ≡ true → e ≡ tpetime
  pub times : e ≡ tpetime → is_timeout x.class ≡ true
  pub diagnosed : is_diagnostic x.class ≡ true → e ≡ tpediagnostic
  pub diagnoses : e ≡ tpediagnostic → (is_diagnostic x.class ≡ true) × (x.diagno ≡ some d)

-- How a method ends whose call returned `rc`, with tperrno `e` and diagnostic `d` after it:
-- `empty` is what it returns for QMENOMSG.
abbrev pub Ends : ℤ → ℤ → Errno → Diagno → Outcome ℤ → Type 0
Ends empty rc e d (ok v) =
    ((is_neg rc ≡ false) × (v ≡ rc))
    ⊎ ((is_neg rc ≡ true) × (e ≡ tpediagnostic) × (d ≡ qmenomsg) × (v ≡ empty))
    ⊎ ((is_neg rc ≡ true) × (e ≡ tpesvcfail) × (v ≡ rc))
Ends empty rc e d (err x) =
    (is_neg rc ≡ true) × (e ≢ tpesvcfail) × (e ≡ tpediagnostic → d ≢ qmenomsg) × IsFailure e d x

-- How `handle_diagnostics` ends.
abbrev Diagnosed : ℤ → Diagno → Outcome ℤ → Type 0
Diagnosed empty d (ok v) = (d ≡ qmenomsg) × (v ≡ empty)
Diagnosed empty d (err x) = (d ≢ qmenomsg) × IsFailure tpediagnostic d x

-- The queue space and the queue are the same, and so are the flags of the calls.
abbrev pub SameNames : Queue → Queue → Type 0
SameNames q q' = (q'.qspace ≡ q.qspace) × (q'.name ≡ q.name) × (q'.flags ≡ q.flags)

module _ ⦃t : Texts⦄ where
  -- The messages of the guards.
  abbrev pub no_target : Queue → Text
  no_target q =
      message q.catd 19 "Enqueue failed, qspace and queue properties have not been set !!??"

  abbrev pub no_source : Queue → Text
  no_source q =
      message q.catd 20 "Dequeue failed, qspace and queue properties have not been set !!??"

module _ {W : Type 0} ⦃a : Atmi W⦄ ⦃t : Texts⦄ ⦃k : Constants⦄ where
  diagnose-Diagnosed :
      (d : Diagno) (msg : Text) (args : List Arg) (q : Queue) (w : W)
      → let (r, q', w') = diagnose tpediagnostic d msg args q w in
        Diagnosed k.qmenomsg_value d r × (q' ≡ q) × (w' ≡ w)
  unfolding diagnose diagnostic_exception aborted_exception tuxedo_exception is_diagnostic is_tuxedo
      is_timeout diagnostic_class
  diagnose-Diagnosed qmenomsg msg args q w = ground arith
  diagnose-Diagnosed qmeaborted msg args q w = ground arith
  diagnose-Diagnosed _ msg args q w = ground arith

  dequeue_failed-Ends :
      (e : Errno) (d : Diagno) (qspace queue : Text) (rc : ℤ) (q : Queue) (w : W)
      → is_neg rc ≡ true
      → let (r, q', w') = dequeue_failed e d qspace queue rc q w in
        Ends k.qmenomsg_value rc e d r × SameNames q q' × (q'.qctl ≡ q.qctl) × (w' ≡ w)
  unfolding dequeue_failed handle_diagnostics
  dequeue_failed-Ends tpediagnostic qmenomsg qspace queue rc q w h = ground arith
  dequeue_failed-Ends tpediagnostic d qspace queue rc q w h = ground (
    arith,
    diagnose-Diagnosed d (bytes "Dequeue from %s:%s failed.") (str qspace ∷ str queue ∷ [])
        (record q { diagno = some d }) w,
  )
  dequeue_failed-Ends e d qspace queue rc q w h = ground (
    arith,
    handle_tperrno-Handles e (bytes "Dequeue from %s:%s failed.") (str qspace ∷ str queue ∷ [])
        q.tuxedo w,
  )

  enqueue_failed-Ends :
      (e : Errno) (d : Diagno) (qspace queue : Text) (rc : ℤ) (q : Queue) (w : W)
      → is_neg rc ≡ true
      → let (r, q', w') = (enqueue_failed e d qspace queue >>= λ _. pure rc) q w in
        Ends rc rc e d r × SameNames q q' × (q'.qctl ≡ q.qctl) × (w' ≡ w)
  unfolding enqueue_failed handle_diagnostics
  enqueue_failed-Ends tpediagnostic d qspace queue rc q w h = ground (
    arith,
    diagnose-Diagnosed d (bytes "Enqueue in %s:%s failed.") (str qspace ∷ str queue ∷ [])
        (record q { diagno = some d }) w,
  )
  enqueue_failed-Ends e d qspace queue rc q w h = ground (
    arith,
    handle_tperrno-Handles e (bytes "Enqueue on %s:%s failed.") (str qspace ∷ str queue ∷ [])
        q.tuxedo w,
  )

  module _ ⦃s : Queueing W⦄ where
    -- After the switch of context: if it threw, so does the method, and nothing was enqueued;
    -- otherwise the message went to `queue` in one call, whose failure decides the end.
    abbrev pub Enqueues :
        Text → Text → Ptr → ℕ → Outcome (Unit {0}) × Queue × W → Outcome ℤ × Queue × W → Type 0
    Enqueues qspace queue buf len (err e, q, w) out = out ≡ (err e, q, w)
    Enqueues qspace queue buf len (ok v, q, w) (r, q', w'') =
        let (rc, ctl, w') = s.tpenqueue qspace queue q.qctl buf len q.flags w in
        Ends rc rc (a.tperrno w') ctl.diagnostic r × SameNames q q' × (q'.qctl ≡ ctl) × (w'' ≡ w')

    -- `enqueue` enters its context, and throws what that throws without a call. Otherwise it
    -- makes one call, whose failure decides the end: it returns the call's result if the call
    -- succeeded, for QMENOMSG and for TPESVCFAIL, and throws the exception of tperrno or of the
    -- diagnostic otherwise.
    pub enqueue_in-Enqueues :
        (qspace queue : Text) (buf : Ptr) (len : ℕ) (q : Queue) (w : W)
        → Enqueues qspace queue buf len
            (super switch_context q w)
            (enqueue_in (some qspace) (some queue) buf len q w)
    unfolding enqueue_in check_enqueued
    enqueue_in-Enqueues qspace queue buf len q w =
        let (r, base, w₁) = switch_context q.tuxedo w in
        let q₁ : Queue = record q { tuxedo = base } in
        let (rc, ctl, w₂) = s.tpenqueue qspace queue q₁.qctl buf len q₁.flags w₁ in
        let q₂ : Queue = record q₁ {
          tuxedo = record base { errorno = a.tperrno w₂; errornodetail = a.tperrordetail w₂ };
          qctl = ctl;
        } in
        ground (arith, enqueue_failed-Ends (a.tperrno w₂) ctl.diagnostic qspace queue rc q₂ w₂)

    -- Likewise for a message taken from `queue`: the caller's variables hold what the call
    -- stored, also where the method throws.
    abbrev pub Dequeues :
        Text → Text → Receiver → Outcome (Unit {0}) × Queue × W → Outcome ℤ × Receiver × W → Type 0
    Dequeues qspace queue v (err e, q, w) out = out ≡ (err e, record v { queue = q }, w)
    Dequeues qspace queue v (ok u, q, w) (r, v', w') =
        let (ctl, reply) = s.tpdequeue qspace queue q.qctl v.buf v.len q.flags w in
        Ends k.qmenomsg_value reply.rc (a.tperrno reply.world) ctl.diagnostic r
        × SameNames q v'.queue
        × (v'.queue.qctl ≡ ctl)
        × (v'.buf ≡ reply.buf)
        × (v'.len ≡ reply.len)
        × (w' ≡ reply.world)

    -- `dequeue` enters its context, and throws what that throws without a call. Otherwise it
    -- makes one call, whose failure decides the end: it returns the call's result, QMENOMSG if
    -- the diagnostic is QMENOMSG, or the call's result for TPESVCFAIL, and throws the exception
    -- of tperrno or of the diagnostic otherwise. The caller's variables hold what the call
    -- stored, also where it throws.
    pub dequeue_from-Dequeues :
        (qspace queue : Text) (v : Receiver) (w : W)
        → Dequeues qspace queue v
            (super switch_context v.queue w)
            (dequeue_from (some qspace) (some queue) v w)
    unfolding dequeue_from check_dequeued
    dequeue_from-Dequeues qspace queue v w =
        let (r, base, w₁) = switch_context v.queue.tuxedo w in
        let q₁ : Queue = record v.queue { tuxedo = base } in
        let (ctl, reply) = s.tpdequeue qspace queue q₁.qctl v.buf v.len q₁.flags w₁ in
        let w₂ = reply.world in
        let q₂ : Queue = record q₁ {
          tuxedo = record base { errorno = a.tperrno w₂; errornodetail = a.tperrordetail w₂ };
          qctl = ctl;
        } in
        ground
          (arith, dequeue_failed-Ends (a.tperrno w₂) ctl.diagnostic qspace queue reply.rc q₂ w₂)

    -- The guard of `enqueue`: without a queue space or a queue name nothing is called, and an
    -- atmi_exception is thrown.
    abbrev Guards : {A : Type 0} → Text → A → W → Outcome ℤ × A × W → Type 0
    Guards msg x w out = out ≡ (err (atmi_exception msg []), x, w)

    -- How `enqueue` ends for the names `qs` and `qn`, which may be NULL.
    abbrev pub Sends :
        Option Text → Option Text → Ptr → ℕ → Queue → W → Outcome ℤ × Queue × W → Type 0
    Sends (some qspace) (some queue) buf len q w out =
        Enqueues qspace queue buf len (super switch_context q w) out
    Sends (some qspace) none buf len q w out = Guards (no_target q) q w out
    Sends none qn buf len q w out = Guards (no_target q) q w out

    -- Without a queue space or a queue name, `enqueue` throws an atmi_exception, and calls
    -- nothing. With both it enters its context, and throws what that throws without a call.
    -- Otherwise it makes one call, whose failure decides the end: it returns the call's result
    -- if the call succeeded, for QMENOMSG and for TPESVCFAIL. It throws the exception of the
    -- class for the diagnostic, an aborted one for QMEABORTED, if tperrno is TPEDIAGNOSTIC, and
    -- that of the class for tperrno otherwise.
    pub enqueue_in-Sends :
        (qs qn : Option Text) (buf : Ptr) (len : ℕ) (q : Queue) (w : W)
        → Sends qs qn buf len q w (enqueue_in qs qn buf len q w)
    unfolding enqueue_in refuse message
    enqueue_in-Sends (some qspace) (some queue) buf len q w =
        enqueue_in-Enqueues qspace queue buf len q w
    enqueue_in-Sends (some qspace) none buf len q w = refl
    enqueue_in-Sends none (some queue) buf len q w = refl
    enqueue_in-Sends none none buf len q w = refl

    -- How `dequeue` ends for the names `qs` and `qn`, which may be NULL.
    abbrev pub Receives :
        Option Text → Option Text → Receiver → W → Outcome ℤ × Receiver × W → Type 0
    Receives (some qspace) (some queue) v w out =
        Dequeues qspace queue v (super switch_context v.queue w) out
    Receives (some qspace) none v w out = Guards (no_source v.queue) v w out
    Receives none qn v w out = Guards (no_source v.queue) v w out

    -- Without a queue space or a queue name, `dequeue` throws an atmi_exception, and calls
    -- nothing. With both it enters its context, and throws what that throws without a call.
    -- Otherwise it makes one call, whose failure decides the end: it returns the call's result,
    -- QMENOMSG if the diagnostic is QMENOMSG, or the call's result for TPESVCFAIL. It throws the
    -- exception of the class for the diagnostic, an aborted one for QMEABORTED, if tperrno is
    -- TPEDIAGNOSTIC, and that of the class for tperrno otherwise. The caller's variables hold
    -- what the call stored, also where it throws.
    pub dequeue_from-Receives :
        (qs qn : Option Text) (v : Receiver) (w : W) → Receives qs qn v w (dequeue_from qs qn v w)
    unfolding dequeue_from refuse message
    dequeue_from-Receives (some qspace) (some queue) v w = dequeue_from-Dequeues qspace queue v w
    dequeue_from-Receives (some qspace) none v w = refl
    dequeue_from-Receives none (some queue) v w = refl
    dequeue_from-Receives none none v w = refl
