-- ===== src/QueueStream/Export/Successes.antt =====
-- The steps of an export in a domain where nothing fails.
use cpp_atmi.Prelude.{
  ℕ, ◌+◌, ◌*◌, ◌≤◌, ◌≡◌, ◌⊎◌, true, false, List, [], ◌∷◌, Option, none, some, arith,
}
use cpp_atmi.Prelude.Int.{pos, is_neg}
use cpp_atmi.Prelude.Lists.{length, replicate}
use cpp_atmi.Atmi.Codes.{Constants}
use cpp_atmi.Atmi.Texts.{Text, Texts}
use cpp_atmi.Atmi.Calls.{Atmi, Queueing, Ptr}
use cpp_atmi.Exceptions.{Exception}
use cpp_atmi.Method.{Post}
use cpp_atmi.Tuxedo.{Tuxedo, begin, commit, switch_context}
use cpp_atmi.Tuxedo.Reports.{demarcation-Reports}
use cpp_atmi.Queue.{Queue}
use cpp_atmi.Queue.Transfer.{dequeue, dequeue_from}
use cpp_atmi.Queue.Outcomes.{dequeue_from-Dequeues}
use cpp_atmi.QueueStream.Server.{View, IsServer, IsReliable}
use cpp_atmi.QueueStream.Switches.{switch_context-Post}
use cpp_atmi.Queue.Settings.{is_message_waiting}
use cpp_atmi.QueueStream.Export.{Exporter, on_queue, on_receiver, export_message}
use cpp_atmi.QueueStream.Export.Steps.{Names}

-- Every message fits the buffer that the second attempt of an export has.
abbrev pub Fits : ℕ → List Text → Type 0
Fits n [] = Unit {0}
Fits n (m ∷ ms) = (length m ≤ n) × Fits n ms

module _ {W : Type 0} ⦃a : Atmi W⦄ ⦃t : Texts⦄ ⦃k : Constants⦄ ⦃s : Queueing W⦄
    {qspace queue : Text} {flags : ℕ} {view : W → View} {form : W → Ptr → ℕ → Text}
    (law : IsServer qspace queue flags view form)
    (works : IsReliable qspace queue flags view form) where
  abbrev pub Never : Exception → Exporter → W → Type 0
  Never e x w = ⊥

  -- The queue does not wait for messages.
  abbrev pub Polls : Exporter → Type 0
  Polls x = is_message_waiting x.receiver.queue ≡ false

  -- What a call leaves as it was.
  abbrev pub Same : Exporter → Exporter → Type 0
  Same x x' = (x'.size ≡ x.size) × (Polls x → Polls x')

  pub begin-ok :
      (x : Exporter) (w : W)
      → (view w).pending ≡ false
      → Post (λ v x' w'. Same x x') Never (on_queue (begin (pos 0)) x w)
  unfolding is_message_waiting
  begin-ok x w idle = ground (
    arith,
    (demarcation-Reports x.receiver.queue.tuxedo w (pos 0)).0,
    works.begin_ok (pos 0) w,
    idle,
  )

  pub commit-ok :
      (x : Exporter) (w : W)
      → (view w).pending ≡ true
      → Post (λ v x' w'. Same x x') Never (on_queue commit x w)
  unfolding is_message_waiting
  commit-ok x w inside =
      ground (
        arith,
        (demarcation-Reports x.receiver.queue.tuxedo w (pos 0)).1,
        works.commit_ok w,
        inside,
      )

  pub switch_context-ok :
      (c : Tuxedo) (w : W) → Post (λ v c' w'. Unit {0}) (λ e c' w'. ⊥) (switch_context c w)
  unfolding switch_context
  switch_context-ok c w =
      let (rc, ctxt, w') = a.tpgetctxt w in
      ground (arith, works.get_ok w, works.put_ok c.context w')

  receive-ok :
      (x : Exporter) (w : W)
      → Polls x
      → Post
          (λ rc x' w'. Same x x' × ((rc ≡ k.qmenomsg_value) ⊎ (is_neg rc ≡ false)))
          Never
          (on_receiver (dequeue_from (some qspace) (some queue)) x w)
  unfolding is_message_waiting
  receive-ok x w polls =
      let (r, base, w₁) = switch_context x.receiver.queue.tuxedo w in
      let q : Queue = record x.receiver.queue { tuxedo = base } in
      ground (
        arith,
        switch_context-ok x.receiver.queue.tuxedo w,
        polls,
        switch_context-Post law x.receiver.queue.tuxedo w none 0,
        dequeue_from-Dequeues qspace queue x.receiver w,
        law.waits q.qctl x.receiver.buf x.receiver.len q.flags w₁,
        works.found q.qctl x.receiver.buf x.receiver.len q.flags w₁,
        works.empty q.qctl x.receiver.buf x.receiver.len q.flags w₁,
      )

  receive_by-ok :
      (qs qn : Option Text) (x : Exporter) (w : W)
      → qs ≡ some qspace
      → qn ≡ some queue
      → Polls x
      → Post
          (λ rc x' w'. Same x x' × ((rc ≡ k.qmenomsg_value) ⊎ (is_neg rc ≡ false)))
          Never
          (on_receiver (dequeue_from qs qn) x w)
  receive_by-ok qs qn x w p q polls = rw (p, q) (receive-ok x w polls)

  pub dequeue-ok :
      (x : Exporter) (w : W)
      → Names law x
      → Polls x
      → Post
          (λ rc x' w'. Same x x' × ((rc ≡ k.qmenomsg_value) ⊎ (is_neg rc ≡ false)))
          Never
          (on_receiver dequeue x w)
  unfolding dequeue
  dequeue-ok x w n polls =
      receive_by-ok x.receiver.queue.qspace x.receiver.queue.name x w n.0 n.1 polls

  pub export_message-ok :
      (x : Exporter) (w : W)
      → Names law x
      → length (form w x.receiver.buf x.receiver.len) ≤ 2 * x.size
      → Post (λ v x' w'. Same x x') Never (export_message x w)
  unfolding export_message
  export_message-ok x w n fits =
      let e = s.tpexport x.receiver.buf x.receiver.len x.buffer x.size x.stream.flags w in
      let twice : ℕ = e.olen + e.olen in
      ground (
        arith,
        law.exported x.receiver.buf x.receiver.len x.buffer x.size w,
        works.export_small x.receiver.buf x.receiver.len x.buffer x.size w,
        works.export_ok x.receiver.buf x.receiver.len (replicate twice 0) twice e.world,
      )
