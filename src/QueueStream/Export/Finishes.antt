-- ===== src/QueueStream/Export/Finishes.antt =====
-- In a domain where nothing fails the export returns: fuel for one round more than there are
-- messages, and for the last test of the loop's condition, suffices.
use cpp_atmi.Prelude.{
  ℕ, zero, suc, ◌+◌, ◌*◌, ◌<◌, ◌≡◌, true, false, refl, ◌∙◌, ◌⊎◌, inl, inr, [], ◌++◌, Option, none,
  some, arith, Bool-cases,
}
use cpp_atmi.Prelude.Int.{ℤ, pos, eqb, eqb_iff}
use cpp_atmi.Prelude.Lists.{length}
use cpp_atmi.Atmi.Codes.{Constants}
use cpp_atmi.Atmi.Texts.{Text, Texts, bytes}
use cpp_atmi.Atmi.Calls.{Atmi, Queueing, Ptr}
use cpp_atmi.Method.{Outcome, ok, err, pure, ◌>>=◌, Post, >>=-Post, Post-mono}
use cpp_atmi.Tuxedo.{begin, free}
use cpp_atmi.Tuxedo.Reports.{memory-Reports}
use cpp_atmi.Queue.{Queue}
use cpp_atmi.Queue.Settings.{is_message_waiting}
use cpp_atmi.Queue.Transfer.{dequeue}
use cpp_atmi.QueueStream.{QueueStream}
use cpp_atmi.QueueStream.Server.{View, IsServer, IsReliable, IsSettled, lines, with_data}
use cpp_atmi.QueueStream.Export.{
  Exporter, on_queue, on_receiver, export_message, handle_message, round, take_message, loop,
  export, start, prepare, conclude, free_message,
}
use cpp_atmi.QueueStream.Export.Steps.{
  Keeps, Names, Brings, begin-Post, commit-Post, dequeue-Post, export_message-Post,
}
use cpp_atmi.QueueStream.Export.Successes.{
  Fits, Never, Polls, Same, begin-ok, commit-ok, dequeue-ok, export_message-ok,
}
use cpp_atmi.QueueStream.Export.Drains.{round-Post, prepare-Post, export-drains}

module _ {W : Type 0} ⦃a : Atmi W⦄ ⦃t : Texts⦄ ⦃k : Constants⦄ ⦃s : Queueing W⦄
    {qspace queue : Text} {flags : ℕ} {view : W → View} {form : W → Ptr → ℕ → Text}
    (law : IsServer qspace queue flags view form)
    (works : IsReliable qspace queue flags view form) where
  -- One message less to go, or the loop is about to stop; the other messages still fit.
  abbrev Advances : Exporter → W → Exporter → W → Type 0
  Advances x w x' w' =
      Same law works x x'
      × Fits (2 * x.size) (view w').contents
      × ((x'.rc ≡ k.qmenomsg_value) ⊎ (length (view w).contents ≡ suc (length (view w').contents)))

  handle_message-ok :
      (rc : ℤ) (x x' : Exporter) (w w' : W)
      → Names law x
      → (view w).pending ≡ true
      → Same law works x x'
      → Fits (2 * x.size) (view w).contents
      → Brings law rc x w x' w'
      → Post (λ v x'' w''. Advances x w x'' w'') (Never law works) (handle_message rc x' w')
  unfolding handle_message
  handle_message-ok rc x x' w w' n inside same fits b =
      let x₁ : Exporter = record x' { rc = rc } in
      let (r₂, x₂, w₂) = export_message x₁ w' in
      ground (
        arith,
        law.nomsg_neg,
        eqb_iff rc k.qmenomsg_value,
        export_message-Post law x₁ w',
        export_message-ok law works x₁ w',
        commit-Post law x₁ w',
        commit-Post law x₂ w₂,
        commit-ok law works x₁ w',
        commit-ok law works x₂ w₂,
      )

  received-ok :
      (x : Exporter) (w : W)
      → Names law x
      → Polls law works x
      → (view w).pending ≡ true
      → Fits (2 * x.size) (view w).contents
      → Post
          (λ v x' w'. Advances x w x' w')
          (Never law works)
          ((on_receiver dequeue >>= handle_message) x w)
  received-ok x w n polls inside fits =
      >>=-Post (λ rc x' w'. Brings law rc x w x' w' × Same law works x x') _ (Never law works)
        (on_receiver dequeue) handle_message x w
        (ground (arith, dequeue-Post law x w n, dequeue-ok law works x w n polls))
        (λ rc x' w' b. handle_message-ok rc x x' w w' n inside b.1 fits b.0)

  Advances-from :
      (x x₁ : Exporter) (w w₁ : W)
      → (view w₁).contents ≡ (view w).contents
      → Same law works x x₁
      → (x' : Exporter) (w' : W) → Advances x₁ w₁ x' w'
      → Advances x w x' w'
  Advances-from x x₁ w w₁ same (size, polls) x' w' adv =
      ((adv.0.0 ∙ size, λ q. adv.0.1 (polls q)), rw (← size) adv.1, rw (← same) adv.2)

  take_message-ok :
      (x : Exporter) (w : W)
      → Names law x
      → Polls law works x
      → (view w).pending ≡ false
      → Fits (2 * x.size) (view w).contents
      → Post (λ v x' w'. Advances x w x' w') (Never law works) (take_message x w)
  unfolding take_message
  take_message-ok x w n polls idle fits =
      >>=-Post
        (λ v x₁ w₁.
          Keeps x x₁
          × ((view w₁).contents ≡ (view w).contents)
          × ((view w₁).pending ≡ true)
          × Same law works x x₁)
        _ (Never law works) (on_queue (begin (pos 0)) >>= λ _. pure tt)
        (λ _. on_receiver dequeue >>= handle_message) x w
        (ground (arith, begin-Post law x w, begin-ok law works x w idle))
        (λ v x₁ w₁ p.
          Post-mono ((on_receiver dequeue >>= handle_message) x₁ w₁)
            (λ v' x' w' adv. Advances-from x x₁ w w₁ p.1 p.3 x' w' adv) (λ e x' w' no. no)
            (received-ok x₁ w₁ (ground arith) (p.3.1 polls) p.2 (rw (p.1, p.3.0) fits)))

  round-ok :
      (x : Exporter) (w : W)
      → Names law x
      → Polls law works x
      → (view w).pending ≡ false
      → Fits (2 * x.size) (view w).contents
      → Post (λ v x' w'. Advances x w x' w') (Never law works) (round x w)
  unfolding round
  round-ok x w n polls idle fits = ground (arith, take_message-ok x w n polls idle fits)

  -- Fuel remains, and the operator has not thrown.
  abbrev Returns : Option (Outcome (Unit {0}) × Exporter × W) → Type 0
  Returns none = ⊥
  Returns (some (err e, x, w)) = ⊥
  Returns (some (ok v, x, w)) = Unit {0}

  loop-Returns :
      (fuel : ℕ) (x : Exporter) (w : W)
      → Names law x
      → Polls law works x
      → (view w).pending ≡ false
      → Fits (2 * x.size) (view w).contents
      → ((x.rc ≡ k.qmenomsg_value) × (0 < fuel)) ⊎ (length (view w).contents + 1 < fuel)
      → Returns (loop fuel x w)
  unfolding loop
  loop-Returns zero x w n polls idle fits enough = absurd (omega arith)
  loop-Returns (suc fuel) x w n polls idle fits enough =
      let (r, x₁, w₁) = round x w in
      elim (Bool-cases (eqb x.rc k.qmenomsg_value)) [
        | inl last ↦ ground arith
        | inr more ↦ ground (
          arith,
          eqb_iff x.rc k.qmenomsg_value,
          round-ok x w n polls idle fits,
          round-Post law x w n,
          loop-Returns fuel x₁ w₁,
        )
      ]

  prepare-ok :
      (x : Exporter) (w : W) → Post (λ v x' w'. Same law works x x') (Never law works) (prepare x w)
  unfolding prepare
  prepare-ok x w = ground (
    arith,
    (memory-Reports x.stream.tuxedo w (bytes "CARRAY") none none x.receiver.len).0,
    works.alloc_ok (bytes "CARRAY") none x.receiver.len w,
  )

  -- The operator returned, and the messages are in the stream.
  abbrev pub Delivers : Text → W → Option (Outcome (Unit {0}) × Exporter × W) → Type 0
  Delivers out w none = ⊥
  Delivers out w (some (err e, x, w')) = ⊥
  Delivers out w (some (ok v, x, w')) =
      (x.out ≡ out ++ lines (with_data (view w).contents))
      × (x.stream.count ≡ length (with_data (view w).contents))
      × ((view w').contents ≡ [])
      × IsSettled (view w')

  Returns-Delivers :
      (out : Text) (w : W) (o : Option (Outcome (Unit {0}) × Exporter × W))
      → Returns o
      → ((x' : Exporter) (w' : W)
          → o ≡ some (ok tt, x', w')
          → Delivers out w (some (ok tt, x', w')))
      → Delivers out w o
  Returns-Delivers out w none r f = r
  Returns-Delivers out w (some (err e, x, w')) r f = r
  Returns-Delivers out w (some (ok v, x, w')) r f = f x w' refl

  export-Returns :
      (fuel : ℕ) (qs : QueueStream) (q : Queue) (out : Text) (w : W)
      → q.qspace ≡ some qspace
      → q.name ≡ some queue
      → qs.flags ≡ flags
      → is_message_waiting q ≡ false
      → (view w).pending ≡ false
      → Fits (2 * qs.buffer_size) (view w).contents
      → length (view w).contents + 1 < fuel
      → Returns (export fuel qs q out w)
  unfolding export conclude free_message free start
  export-Returns fuel qs q out w a₁ a₂ a₃ polls idle fits enough =
      let x₀ : Exporter = start qs q out in
      let (r, x₁, w₁) = prepare x₀ w in
      ground (arith, prepare-ok x₀ w, prepare-Post law x₀ w, loop-Returns fuel x₁ w₁)

  -- In a domain where the calls do what is documented and nothing fails, from a queue that is
  -- not waited for (no TPQWAIT), outside of a transaction, with messages of at most twice the
  -- buffer size and fuel for two rounds more than there are messages: the export returns, has
  -- put every message that has data into the output, in order with a newline behind it, counts
  -- them, and leaves an empty queue for good: no transaction is in progress, and an abort brings
  -- nothing back.
  pub export-Delivers :
      (fuel : ℕ) (qs : QueueStream) (q : Queue) (out : Text) (w : W)
      → q.qspace ≡ some qspace
      → q.name ≡ some queue
      → qs.flags ≡ flags
      → is_message_waiting q ≡ false
      → (view w).pending ≡ false
      → Fits (2 * qs.buffer_size) (view w).contents
      → length (view w).contents + 1 < fuel
      → Delivers out w (export fuel qs q out w)
  export-Delivers fuel qs q out w a₁ a₂ a₃ polls idle fits enough =
      Returns-Delivers out w (export fuel qs q out w)
        (export-Returns fuel qs q out w a₁ a₂ a₃ polls idle fits enough)
        (λ x' w' e. export-drains law fuel qs q out w x' w' a₁ a₂ a₃ e)
