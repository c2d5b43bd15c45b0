-- ===== src/Transaction/Fielded.antt =====
-- The member functions of `transaction` and `queue` that take a `buffer`.
use cpp_atmi.Prelude.{Option, if◌then◌else◌, ◌≡◌, ◌≢◌, arith, refl, inl, inr, Bool-cases}
use cpp_atmi.Prelude.Int.{ℤ, minus_one, eqb, eqb_iff}
use cpp_atmi.Atmi.Codes.{Constants}
use cpp_atmi.Atmi.Texts.{Texts}
use cpp_atmi.Atmi.Calls.{Atmi, Services, Queueing, Ptr}
use cpp_atmi.Atmi.Fml.{Fml}
use cpp_atmi.Method.{Method, Outcome, ok, err, assign, ◌>>=◌, ◌>>◌}
use cpp_atmi.Buffer.{Buffer, size, set_buffer}
use cpp_atmi.Buffer.Types.{set_buffer-Refers}
use cpp_atmi.Buffer.Types as Set
use cpp_atmi.Queue.{Queue, Receiver}
use cpp_atmi.Queue.Transfer.{enqueue, enqueue_reply, dequeue}
use cpp_atmi.Transaction.{Transaction, Caller, call, acall, record_descriptor, reply}

module _ {W : Type 0} ⦃a : Atmi W⦄ ⦃t : Texts⦄ ⦃f : Fml W⦄ ⦃k : Constants⦄ where
  -- `buffer.set_buffer ( b )`, and then `rc` is returned.
  abbrev then_refer : {C : Type 0} → ℤ → Ptr → C → Buffer → W → Outcome ℤ × C × Buffer × W
  then_refer rc p c b w =
      let (r, b', w') = set_buffer p b w in
      elim r [ ok v ↦ (ok rc, c, b', w') | err e ↦ (err e, c, b', w') ]

  module _ ⦃s : Services W⦄ where
    -- `call ( buffer, urcode, retries, delay )`: an exception leaves the buffer alone.
    unfoldable pub call_buffer :
        Option ℤ → ℤ → ℤ → Transaction → Buffer → W → Outcome ℤ × Caller × Buffer × W
    call_buffer urcode retries delay x b w =
        let caller : Caller = record {
          transaction = x;
          buf = b.buffer;
          len = size b w;
          urcode = urcode;
          rc = minus_one;
        } in
        let (r, c, w') = call b.buffer (size b w) retries delay caller w in
        elim r [ ok rc ↦ then_refer rc c.buf c b w' | err e ↦ (err e, c, b, w') ]

    -- `acall ( buffer )`: what the other `acall` returned is handled again.
    unfoldable pub acall_buffer : Buffer → Method Transaction W ℤ
    acall_buffer b x w =
        (assign (λ (x : Transaction). record x { call_descriptor = minus_one })
            >> acall b.buffer (size b w)
            >>= record_descriptor)
          x w

    -- `reply ( buffer, urcode, cd )`: a result of -1 leaves the buffer alone.
    unfoldable pub reply_buffer :
        Option ℤ → Option ℤ → Transaction → Buffer → W → Option ℤ × Outcome ℤ × Caller × Buffer × W
    reply_buffer cd urcode x b w =
        let caller : Caller = record {
          transaction = x;
          buf = b.buffer;
          len = size b w;
          urcode = urcode;
          rc = minus_one;
        } in
        let (cd', r, c, w') = reply cd caller w in
        elim r [
          | ok rc ↦
              if eqb rc minus_one
              then (cd', ok rc, c, b, w')
              else (let (r', c', b', w'') = then_refer rc c.buf c b w' in (cd', r', c', b', w''))
          | err e ↦ (cd', err e, c, b, w')
        ]

    -- What becomes of the buffer `b` after a call into it that ended with `out`: a return refers
    -- it to the reply, if that has the type of the buffer, and is one; a throw of the call or of
    -- that leaves it as it was.
    abbrev pub Refers : Buffer → Outcome ℤ × Caller × W → Outcome ℤ × Caller × Buffer × W → Type 0
    Refers b (err e, c, w) out = out ≡ (err e, c, b, w)
    Refers b (ok rc, c, w) (ok rc', c', b', w') =
        (rc' ≡ rc) × (c' ≡ c) × (b' ≡ record b { buffer = c.buf })
    Refers b (ok rc, c, w) (err e, c', b', w') = (c' ≡ c) × (b' ≡ b)

    -- Likewise for a reply: a result of -1 is returned, and the buffer is as it was.
    abbrev pub RefersUnless :
        Buffer → Outcome ℤ × Caller × W → Outcome ℤ × Caller × Buffer × W → Type 0
    RefersUnless b (err e, c, w) out = out ≡ (err e, c, b, w)
    RefersUnless b (ok rc, c, w) out =
        (rc ≡ minus_one → out ≡ (ok rc, c, b, w)) × (rc ≢ minus_one → Refers b (ok rc, c, w) out)

    then_refer-Refers :
        (rc : ℤ) (c : Caller) (b : Buffer) (w : W)
        → Refers b (ok rc, c, w) (then_refer rc c.buf c b w)
    then_refer-Refers rc c b w = go (set_buffer c.buf b w) (set_buffer-Refers c.buf b w)
      where
        go :
            (out : Outcome (Unit {0}) × Buffer × W)
            → Set.Refers c.buf b w out
            → Refers b
                (ok rc, c, w)
                (let (r, b', w') = out in
                  elim r [ ok v ↦ (ok rc, c, b', w') | err e ↦ (err e, c, b', w') ])
        go (ok v, b', w') s = (refl, refl, s.1)
        go (err e, b', w') s = (refl, s.1)

    -- The caller of `call` and of `reply`, for a buffer.
    abbrev pub caller_for : Option ℤ → Transaction → Buffer → W → Caller
    caller_for urcode x b w = record {
      transaction = x;
      buf = b.buffer;
      len = size b w;
      urcode = urcode;
      rc = minus_one;
    }

    call-Refers :
        (b : Buffer) (out : Outcome ℤ × Caller × W)
        → Refers b out (
            let (r, c, w') = out in
            elim r [ ok rc ↦ then_refer rc c.buf c b w' | err e ↦ (err e, c, b, w') ])
    call-Refers b (ok rc, c, w') = then_refer-Refers rc c b w'
    call-Refers b (err e, c, w') = refl

    -- How `reply_buffer` goes on.
    abbrev refer_unless :
        Buffer → Option ℤ × Outcome ℤ × Caller × W → Option ℤ × Outcome ℤ × Caller × Buffer × W
    refer_unless b (cd', r, c, w') = elim r [
      | ok rc ↦
          if eqb rc minus_one
          then (cd', ok rc, c, b, w')
          else (let (r', c', b', w'') = then_refer rc c.buf c b w' in (cd', r', c', b', w''))
      | err e ↦ (cd', err e, c, b, w')
    ]

    reply-RefersUnless :
        (b : Buffer) (out : Option ℤ × Outcome ℤ × Caller × W)
        → let (cd', r, c, w') = out in
          let (cd'', r', c', b', w'') = refer_unless b out in
          RefersUnless b (r, c, w') (r', c', b', w'')
    reply-RefersUnless b (cd', ok rc, c, w') = elim (Bool-cases (eqb rc minus_one)) [
      | inl h ↦ rw h ((λ e. refl), λ other. absurd (other ((eqb_iff rc minus_one).0 h)))
      | inr h ↦ rw h (
        (λ e. absurd (ground (arith, eqb_iff rc minus_one, e, h))),
        λ other. then_refer-Refers rc c b w',
      )
    ]
    reply-RefersUnless b (cd', err e, c, w') = refl

    pub replies-Refers :
        (cd urcode : Option ℤ) (retries delay : ℤ) (x : Transaction) (b : Buffer) (w : W)
        → let caller = caller_for urcode x b w in
          Refers b
            (call b.buffer (size b w) retries delay caller w)
            (call_buffer urcode retries delay x b w)
          × (let (cd', r, c, w₁) = reply cd caller w in
              let (cd'', r', c', b', w') = reply_buffer cd urcode x b w in
              RefersUnless b (r, c, w₁) (r', c', b', w'))
    unfolding call_buffer reply_buffer
    replies-Refers cd urcode retries delay x b w =
        let caller = caller_for urcode x b w in
        (
          call-Refers b (call b.buffer (size b w) retries delay caller w),
          reply-RefersUnless b (reply cd caller w),
        )

  module _ ⦃q : Queueing W⦄ where
    -- `enqueue ( buffer )` and `enqueueReply ( buffer )`: the length is 0.
    unfoldable pub enqueue_buffer : Buffer → Method Queue W ℤ
    enqueue_buffer b = enqueue b.buffer 0

    unfoldable pub enqueue_reply_buffer : Buffer → Method Queue W ℤ
    enqueue_reply_buffer b = enqueue_reply b.buffer 0

    -- `dequeue ( buffer )`
    unfoldable pub dequeue_buffer : Queue → Buffer → W → Outcome ℤ × Receiver × Buffer × W
    dequeue_buffer x b w =
        let (r, c, w') = dequeue (record { queue = x; buf = b.buffer; len = 0 }) w in
        elim r [
          | ok rc ↦ if eqb rc minus_one then (ok rc, c, b, w') else then_refer rc c.buf c b w'
          | err e ↦ (err e, c, b, w')
        ]
