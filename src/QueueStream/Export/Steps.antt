-- ===== src/QueueStream/Export/Steps.antt =====
-- What each step of an export does to the queue and to what has been written.
use cpp_atmi.Prelude.{ℕ, ◌+◌, ◌<◌, ◌≡◌, ◌⊎◌, ◌≢◌, true, false, [], ◌∷◌, ◌++◌, Option, some, arith}
use cpp_atmi.Prelude.Int.{ℤ, pos, is_neg}
use cpp_atmi.Prelude.Lists.{replicate}
use cpp_atmi.Atmi.Codes.{Constants}
use cpp_atmi.Atmi.Texts.{Text, Texts}
use cpp_atmi.Atmi.Calls.{Atmi, Queueing, Ptr}
use cpp_atmi.Exceptions.{Exception, is_timeout, tuxedo_exception}
use cpp_atmi.Method.{Post}
use cpp_atmi.Tuxedo.{begin, commit, abort, switch_context}
use cpp_atmi.Tuxedo.Reports.{demarcation-Reports}
use cpp_atmi.Queue.{Queue}
use cpp_atmi.Queue.Settings.{is_message_waiting}
use cpp_atmi.Queue.Transfer.{dequeue, dequeue_from}
use cpp_atmi.Queue.Outcomes.{dequeue_from-Dequeues}
use cpp_atmi.QueueStream.Server.{View, IsServer, IsSettled}
use cpp_atmi.QueueStream.Switches.{switch_context-Post}
use cpp_atmi.QueueStream.Export.{Exporter, on_queue, on_receiver, export_message}

-- The names that the calls use are the same, and whether they wait.
pub record SameNames ⦃k : Constants⦄ (x x' : Exporter) : Type 0 where
  pub qspace : x'.receiver.queue.qspace ≡ x.receiver.queue.qspace
  pub queue : x'.receiver.queue.name ≡ x.receiver.queue.name
  pub flags : x'.stream.flags ≡ x.stream.flags
  pub buffer_size : x'.stream.buffer_size ≡ x.stream.buffer_size
  pub waits : is_message_waiting x'.receiver.queue ≡ is_message_waiting x.receiver.queue

-- Nothing has been written or counted.
pub record Keeps ⦃k : Constants⦄ (x x' : Exporter) : Type 0 where
  pub names : SameNames x x'
  pub out : x'.out ≡ x.out
  pub count : x'.stream.count ≡ x.stream.count
  pub rc : x'.rc ≡ x.rc

module _ {W : Type 0} ⦃a : Atmi W⦄ ⦃t : Texts⦄ ⦃k : Constants⦄ ⦃s : Queueing W⦄
    {qspace queue : Text} {flags : ℕ} {view : W → View} {form : W → Ptr → ℕ → Text}
    (law : IsServer qspace queue flags view form) where
  -- The object talks to the queue of the laws.
  abbrev pub Names : Exporter → Type 0
  Names x =
      (x.receiver.queue.qspace ≡ some qspace)
      × (x.receiver.queue.name ≡ some queue)
      × (x.stream.flags ≡ flags)

  -- An exception that is no timeout.
  abbrev pub NoTimeout : Exception → Type 0
  NoTimeout e = is_timeout e.class ≡ false

  pub begin-Post :
      (x : Exporter) (w : W)
      → Post
          (λ v x' w'.
            Keeps x x'
            × ((view w).pending ≡ false)
            × ((view w').contents ≡ (view w).contents)
            × ((view w').saved ≡ (view w).contents)
            × ((view w').pending ≡ true))
          (λ e x' w'. is_timeout e.class ≡ false)
          (on_queue (begin (pos 0)) x w)
  unfolding is_timeout is_message_waiting
  begin-Post x w =
      ground (arith, (demarcation-Reports x.receiver.queue.tuxedo w (pos 0)).0, law.begun (pos 0) w)

  pub commit-Post :
      (x : Exporter) (w : W)
      → Post
          (λ v x' w'. Keeps x x' × ((view w').contents ≡ (view w).contents) × IsSettled (view w'))
          (λ e x' w'. is_timeout e.class ≡ false)
          (on_queue commit x w)
  unfolding is_timeout is_message_waiting
  commit-Post x w =
      ground (arith, (demarcation-Reports x.receiver.queue.tuxedo w (pos 0)).1, law.committed w)

  pub abort-Post :
      (x : Exporter) (w : W)
      → Post
          (λ v x' w'. Keeps x x' × ((view w').contents ≡ (view w).saved) × IsSettled (view w'))
          (λ e x' w'. is_timeout e.class ≡ false)
          (on_queue abort x w)
  unfolding is_timeout is_message_waiting
  abort-Post x w =
      ground (arith, (demarcation-Reports x.receiver.queue.tuxedo w (pos 0)).2, law.aborted w)

  -- What `dequeue` brings: a message, or the news that there is none.
  abbrev pub Brings : ℤ → Exporter → W → Exporter → W → Type 0
  Brings rc x w x' w' =
      Keeps x x'
      × ((view w).pending ≡ true → (view w').saved ≡ (view w).saved)
      × ((view w').pending ≡ (view w).pending)
      × (((is_neg rc ≡ false)
            × ((view w).contents ≡ form w' x'.receiver.buf x'.receiver.len ∷ (view w').contents)
            × (x'.receiver.len ≡ 0 → form w' x'.receiver.buf x'.receiver.len ≡ [])
            × (0 < x'.receiver.len → form w' x'.receiver.buf x'.receiver.len ≢ []))
          ⊎ ((rc ≡ k.qmenomsg_value) × ((view w).contents ≡ []) × ((view w').contents ≡ [])))

  receive-Post :
      (x : Exporter) (w : W)
      → Names x
      → Post
          (λ rc x' w'. Brings rc x w x' w')
          (λ e x' w'. is_timeout e.class ≡ true → Keeps x x' × (view w' ≡ view w))
          (on_receiver (dequeue_from (some qspace) (some queue)) x w)
  unfolding is_message_waiting
  receive-Post x w n =
      let (r, base, w₁) = switch_context x.receiver.queue.tuxedo w in
      let q : Queue = record x.receiver.queue { tuxedo = base } in
      ground (
        arith,
        switch_context-Post law x.receiver.queue.tuxedo w x.receiver.buf x.receiver.len,
        dequeue_from-Dequeues qspace queue x.receiver w,
        law.taken q.qctl x.receiver.buf x.receiver.len q.flags w₁,
        law.refused q.qctl x.receiver.buf x.receiver.len q.flags w₁,
        law.waits q.qctl x.receiver.buf x.receiver.len q.flags w₁,
      )

  receive_by :
      (qs qn : Option Text) (x : Exporter) (w : W)
      → Names x
      → qs ≡ some qspace
      → qn ≡ some queue
      → Post
          (λ rc x' w'. Brings rc x w x' w')
          (λ e x' w'. is_timeout e.class ≡ true → Keeps x x' × (view w' ≡ view w))
          (on_receiver (dequeue_from qs qn) x w)
  receive_by qs qn x w n p q = rw (p, q) (receive-Post x w n)

  pub dequeue-Post :
      (x : Exporter) (w : W)
      → Names x
      → Post
          (λ rc x' w'. Brings rc x w x' w')
          (λ e x' w'. is_timeout e.class ≡ true → Keeps x x' × (view w' ≡ view w))
          (on_receiver dequeue x w)
  unfolding dequeue
  dequeue-Post x w n = receive_by x.receiver.queue.qspace x.receiver.queue.name x w n n.0 n.1

  -- `export_message` writes the message and a newline, and counts it.
  pub export_message-Post :
      (x : Exporter) (w : W)
      → Names x
      → Post
          (λ v x' w'.
            SameNames x x'
            × (x'.out ≡ x.out ++ form w x.receiver.buf x.receiver.len ++ 10 ∷ [])
            × (x'.stream.count ≡ x.stream.count + 1)
            × (is_neg x'.rc ≡ false)
            × (view w' ≡ view w))
          (λ e x' w'. is_timeout e.class ≡ false)
          (export_message x w)
  unfolding export_message is_timeout tuxedo_exception
  export_message-Post x w n =
      let e = s.tpexport x.receiver.buf x.receiver.len x.buffer x.size x.stream.flags w in
      let twice : ℕ = e.olen + e.olen in
      ground (
        arith,
        law.exported x.receiver.buf x.receiver.len x.buffer x.size w,
        law.exported x.receiver.buf x.receiver.len (replicate twice 0) twice e.world,
      )
